-- ===== src/DArray/GraftPool.antt =====
-- About the new arc that `insert_branch` makes to a free cell, and the tree.
use libdatrie_rs.Common.{
  ℕ, ◌+◌, ◌≤◌, ◌≡◌, sym, ap, ◌∙◌, ◌≢◌, ◌⊎◌, inl, inr, true, false, some, List, [], ◌∷◌, arith, ◌==◌,
  ==_iff, has, Bool-cases, get_elem?, Ascending-weaken,
}
use libdatrie_rs.Common.Int.{pos, negsuc, eqb_ℤ_ne}
use libdatrie_rs.Symbols.{ArrayVec}
use libdatrie_rs.DArray.Cells.{DArray, check_of, is_some_of}
use libdatrie_rs.DArray.Fields.{base_at, check_at}
use libdatrie_rs.DArray.Links.{
  Links-at, Links-first, first_of, first_of-above, before, before-le, remove,
}
use libdatrie_rs.DArray.Extend.{Links-last, last_of, last_of-le}
use libdatrie_rs.DArray.FreeList.{IsPool}
use libdatrie_rs.DArray.Arcs.{free-check, link-negsuc, above-zero}
use libdatrie_rs.DArray.Children.{arc_at}
use libdatrie_rs.DArray.Graft.{Arc, target, Grafted}

module _ (v : ArrayVec) (self : DArray) (xs : List ℕ) (pool : IsPool self xs) where
  -- The `check` of the head of the list and of the free cells is negative, and so is the `base`.
  free-negative :
      (k : ℕ) → has k (1 ∷ xs) ≡ true → (n : ℕ) × (check_at self.cells k ≡ some (negsuc n))
  free-negative k h = elim (Bool-cases (1 == k)) [
    | inl head ↦
        (let (n, e) = link-negsuc (first_of xs) (above-zero _ (first_of-above 3 xs pool.sorted)) in
          let at : 1 ≡ k = (==_iff 1 k).0 head in
          (
            n,
            ap (check_at self.cells) (sym at) ∙ Links-first self.cells 1 xs pool.links ∙ ap some e,
          ))
    | inr other ↦ free-check v self k xs pool (ground arith)
  ]

  free-base : (k : ℕ) → has k (1 ∷ xs) ≡ true → (n : ℕ) × (base_at self.cells k ≡ some (negsuc n))
  free-base k h = elim (Bool-cases (1 == k)) [
    | inl head ↦
        (let above = last_of-le 1 xs (Ascending-weaken 3 2 xs pool.sorted (omega arith)) in
          let (n, e) = link-negsuc (last_of 1 xs) (omega (arith, above)) in
          let at : 1 ≡ k = (==_iff 1 k).0 head in
          (n, ap (base_at self.cells) (sym at) ∙ Links-last self.cells 1 xs pool.links ∙ ap some e))
    | inr other ↦
        (let above = before-le k 1 xs (Ascending-weaken 3 2 xs pool.sorted (omega arith)) in
          let (n, e) = link-negsuc (before k 1 xs) (omega (arith, above)) in
          (n, (Links-at self.cells 1 k xs pool.links (ground arith)).0 ∙ ap some e))
  ]

  -- A child, or a node with a base, is not among them.
  pub child-used : (x s : ℕ) → check_at self.cells x ≡ some (pos s) → has x (1 ∷ xs) ≡ false
  child-used x s e = elim (Bool-cases (has x (1 ∷ xs))) [
    | inl free ↦ (let (n, e') = free-negative x free in cc)
    | inr used ↦ used
  ]

  pub node-used : (x b : ℕ) → base_at self.cells x ≡ some (pos b) → has x (1 ∷ xs) ≡ false
  node-used x b e = elim (Bool-cases (has x (1 ∷ xs))) [
    | inl free ↦ (let (n, e') = free-base x free in cc)
    | inr used ↦ used
  ]

  pub free-no_arc : (s b d : ℕ) → has (b + d) (1 ∷ xs) ≡ true → arc_at self.cells s b d ≡ false
  free-no_arc s b d h = let (n, e) = free-negative (b + d) h in rw e (ground arith)

remove-keeps : (k x : ℕ) (xs : List ℕ) → has k xs ≡ true → k ≢ x → has k (remove x xs) ≡ true
remove-keeps k x [] h ne = h
remove-keeps k x (y ∷ ys) h ne = ground (arith, remove-keeps k x ys)

module _ (v : ArrayVec) (self self' : DArray) (xs : List ℕ) (a : Arc) (pool : IsPool self xs)
    (pool' : IsPool self' (remove (target a) xs)) (free : has (target a) xs ≡ true)
    (base : base_at self.cells a.node ≡ some (pos a.base)) (low : a.label ≤ 255)
    (check : check_at self'.cells (target a) ≡ some (pos a.node))
    (leaf_ : base_at self'.cells (target a) ≡ some (negsuc a.block))
    (kept : (k : ℕ)
      → has k (1 ∷ xs) ≡ false
      → get_elem? self'.cells k ≡ get_elem? self.cells k) where
  other_node : (s : ℕ) → a.node ≢ s → is_some_of (some (pos a.node)) (pos s) ≡ false
  other_node s ne = eqb_ℤ_ne (pos a.node) (pos s) (λ e. ne (pos-inj e))
    where
      pos-inj : {m n : ℕ} → pos m ≡ pos n → m ≡ n
      pos-inj e = cc

  no_other :
      (s b d : ℕ)
      → arc_at self.cells s b d ≡ false
      → (s ≢ a.node) ⊎ (b + d ≢ target a)
      → arc_at self'.cells s b d ≡ false
  no_other s b d none_ apart = elim (Bool-cases (has (b + d) (1 ∷ xs))) [
    | inr used ↦ ap (λ o. is_some_of (check_of o) (pos s)) (kept (b + d) used) ∙ none_
    | inl was_free ↦ (elim (Bool-cases (b + d == target a)) [
      | inl same ↦
          (let at : b + d ≡ target a = (==_iff (b + d) (target a)).0 same in
            ap (λ o. is_some_of o (pos s)) (ap (check_at self'.cells) at ∙ check)
            ∙ other_node s (λ e. elim apart [ inl ne ↦ ne (sym e) | inr ne ↦ ne at ]))
      | inr other ↦
          free-no_arc v self' (remove (target a) xs) pool' s b d
            (ground (arith, remove-keeps (b + d) (target a) xs))
    ])
  ]

  pub Grafted-free : Grafted a self.cells self'.cells
  Grafted-free = record {
    base = base;
    low = low;
    fresh = free-no_arc v self xs pool a.node a.base a.label (ground (arith, free));
    arc = check;
    leaf_ = leaf_;
    kept = λ x s e. kept x (child-used v self xs pool x s e);
    no_other = no_other;
  }
