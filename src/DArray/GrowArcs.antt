-- ===== src/DArray/GrowArcs.antt =====
-- About a double array whose pool is extended: it holds the same tree.
use libdatrie_rs.Common.{
  ℕ, zero, suc, ◌+◌, ◌-◌, ◌≤◌, ◌<◌, ◌≡◌, refl, sym, ap, ◌∙◌, ◌≢◌, inl, inr, true, false, some, List,
  [], ◌∷◌, ◌++◌, arith, ltb, ◌==◌, ==_iff, length, has, Bool-cases, get_elem?, get_elem?-none,
}
use libdatrie_rs.Common.Int.{pos, negsuc, eqb_ℤ_ne}
use libdatrie_rs.Types.{TrieChar}
use libdatrie_rs.Symbols.{ArrayVec}
use libdatrie_rs.DArray.Cells.{DaCell, DArray, base_of, check_of, is_some_of}
use libdatrie_rs.DArray.Fields.{base_at, check_at}
use libdatrie_rs.DArray.Place.{base_at-lt, check_at-lt}
use libdatrie_rs.DArray.FreeList.{IsPool}
use libdatrie_rs.DArray.Extend.{indices}
use libdatrie_rs.DArray.Grow.{Grown}
use libdatrie_rs.DArray.GraftPool.{child-used, node-used, free-no_arc}
use libdatrie_rs.DArray.Children.{arc_at}
use libdatrie_rs.DArray.Forest.{Forest, end, leaf, branch, Next, Arcs}

module _ (cells cells' : List DaCell)
    (kept : (x s b : ℕ)
      → base_at cells s ≡ some (pos b)
      → check_at cells x ≡ some (pos s)
      → get_elem? cells' x ≡ get_elem? cells x)
    (no_arc : (s b : ℕ) (d : TrieChar)
      → base_at cells s ≡ some (pos b)
      → arc_at cells s b d ≡ false
      → arc_at cells' s b d ≡ false) where
  Next-kept :
      (s b from : ℕ) (c : TrieChar) (x : ℕ)
      → base_at cells s ≡ some (pos b)
      → Next cells s b from c x
      → Next cells' s b from c x
  Next-kept s b from c x base n = record {
    at = n.at;
    above = n.above;
    low = n.low;
    arc = ap check_of (kept x s b base n.arc) ∙ n.arc;
    gap = λ d h k. no_arc s b d base (n.gap d h k);
  }

  pub Arcs-kept :
      (s b from : ℕ) (f : Forest)
      → base_at cells s ≡ some (pos b)
      → Arcs cells s b from f
      → Arcs cells' s b from f
  Arcs-kept s b from end base h = λ d k l. no_arc s b d base (h d k l)
  Arcs-kept s b from (leaf c x i rest) base h = (
    Next-kept s b from c x base h.0,
    ap base_of (kept x s b base h.0.arc) ∙ h.1,
    Arcs-kept s b (suc c) rest base h.2,
  )
  Arcs-kept s b from (branch c x b' sub rest) base h = (
    Next-kept s b from c x base h.0,
    ap base_of (kept x s b base h.0.arc) ∙ h.1,
    h.2,
    Arcs-kept x b' 0 sub h.1 h.3,
    Arcs-kept s b (suc c) rest base h.4,
    h.5,
  )

has-indices : (k n m : ℕ) → m ≤ k → k < m + n → has k (indices n m) ≡ true
has-indices k zero m le lt = absurd (omega arith)
has-indices k (suc n) m le lt = elim (Bool-cases (m == k)) [
  | inl same ↦ rw same refl
  | inr other ↦ rw other (has-indices k n (suc m) (ground arith) (omega arith))
]

has-append : (k : ℕ) (xs ys : List ℕ) → has k ys ≡ true → has k (xs ++ ys) ≡ true
has-append k [] ys h = h
has-append k (x ∷ xs) ys h = ground (arith, has-append k xs ys)

has-append_left : (k : ℕ) (xs ys : List ℕ) → has k xs ≡ true → has k (xs ++ ys) ≡ true
has-append_left k [] ys h = cc
has-append_left k (x ∷ xs) ys h = ground (arith, has-append_left k xs ys)

pos-inj : {m n : ℕ} → pos m ≡ pos n → m ≡ n
pos-inj e = cc

module _ (v : ArrayVec) (self self' : DArray) (to : ℕ) (xs : List ℕ) (pool : IsPool self xs)
    (header : check_at self.cells 0 ≡ some (pos (length self.cells)))
    (beyond : length self.cells ≤ to) (g : Grown self to xs self') where
  abbrev pub added : List ℕ
  added = indices (suc to - length self.cells) (length self.cells)

  -- The header counts the cells, so it is no child of a node.
  not_header :
      (x s b : ℕ)
      → base_at self.cells s ≡ some (pos b)
      → check_at self.cells x ≡ some (pos s)
      → 0 ≢ x
  not_header x s b base check e =
      let zero_check : check_at self.cells 0 ≡ some (pos s) = ap (check_at self.cells) e ∙ check in
      let count : length self.cells ≡ s = same (sym header ∙ zero_check) in
      omega (arith, count, base_at-lt self.cells s (pos b) base)
    where
      same : {m n : ℕ} → some (pos m) ≡ some (pos n) → m ≡ n
      same e = cc

  pub grown-kept :
      (x s b : ℕ)
      → base_at self.cells s ≡ some (pos b)
      → check_at self.cells x ≡ some (pos s)
      → get_elem? self'.cells x ≡ get_elem? self.cells x
  grown-kept x s b base check =
      let used = child-used v self xs pool x s check in
      let ne = not_header x s b base check in
      g.kept x (ground arith) (check_at-lt self.cells x (pos s) check)

  still_free : (k : ℕ) → has k (1 ∷ xs) ≡ true → has k (1 ∷ (xs ++ added)) ≡ true
  still_free k h = ground (arith, has-append_left k xs added)

  pub now_free : (k : ℕ) → length self.cells ≤ k → k ≤ to → has k (xs ++ added) ≡ true
  now_free k le lt =
      has-append k xs added
        (has-indices k (suc to - length self.cells) (length self.cells) le (omega arith))

  pub grown-no_arc :
      (s b d : ℕ)
      → base_at self.cells s ≡ some (pos b)
      → arc_at self.cells s b d ≡ false
      → arc_at self'.cells s b d ≡ false
  grown-no_arc s b d base none_ = elim (Bool-cases (ltb (b + d) (length self.cells))) [
    | inr over ↦ (elim (Bool-cases (ltb to (b + d))) [
      | inl out ↦
          (let gone = get_elem?-none self'.cells (b + d) (ground (arith, g.size)) in rw gone refl)
      | inr inside ↦
          free-no_arc v self' (xs ++ added) g.pool s b d
            (let free = now_free (b + d) (ground arith) (ground arith) in ground arith)
    ])
    | inl inside ↦ (elim (Bool-cases (has (b + d) (1 ∷ xs))) [
      | inl free ↦ free-no_arc v self' (xs ++ added) g.pool s b d (still_free (b + d) free)
      | inr used ↦ (elim (Bool-cases (0 == b + d)) [
        | inl zero_cell ↦
            (let at : 0 ≡ b + d = (==_iff 0 (b + d)).0 zero_cell in
              let s-lt = base_at-lt self.cells s (pos b) base in
              let check : check_at self'.cells (b + d) ≡ some (pos (suc to)) =
                ap (check_at self'.cells) (sym at) ∙ g.header in
              ap (λ o. is_some_of o (pos s)) check
              ∙ eqb_ℤ_ne (pos (suc to)) (pos s) (λ e. omega (arith, pos-inj e, s-lt)))
        | inr other ↦
            (let same = g.kept (b + d) (ground arith) (ground arith) in
              ap (λ o. is_some_of (check_of o) (pos s)) same ∙ none_)
      ])
    ])
  ]

  -- The nodes keep their bases.
  pub grown-base :
      (n : ℕ)
      → base_at self.cells 0 ≡ some (negsuc n)
      → (p b : ℕ) → base_at self.cells p ≡ some (pos b)
      → base_at self'.cells p ≡ some (pos b)
  grown-base n no_base p b base =
      let used = node-used v self xs pool p b base in
      let ne : 0 ≢ p = λ e.
        let at : base_at self.cells 0 ≡ some (pos b) = ap (base_at self.cells) e ∙ base in cc in
      ap base_of (g.kept p (ground arith) (base_at-lt self.cells p (pos b) base)) ∙ base
