-- ===== src/DArray/Fields.antt =====
-- Reading and writing one field of one cell.
use libdatrie_rs.Common.{
  ℕ, zero, suc, ◌^◌, ◌<◌, ◌≡◌, refl, sym, ap, subst, ◌∙◌, ◌≢◌, Option, none, some, List, arith,
  ◌==◌, ==_iff, length, get_elem?, set, Bool-cases, inl, inr, get_elem?-set_self, get_elem?-set_ne,
  get_elem?_lt, length-set,
}
use libdatrie_rs.Common.Int.{pos, negsuc, neg, neg-pos, neg-negsuc}
use libdatrie_rs.Types.{TrieIndex}
use libdatrie_rs.DArray.Cells.{DaCell, base_of, check_of, update}

-- The value of `base` or `check` that links a free cell to cell `n`.
abbrev pub link : ℕ → TrieIndex
link zero = pos 0
link (suc n) = negsuc n

pub neg-pos_link : (n : ℕ) → n < 2 ^ 31 → neg (pos n) ≡ link n
unfolding neg
neg-pos_link zero h = refl
neg-pos_link (suc n) h = neg-pos n (omega arith)

pub neg-link : (n : ℕ) → n < 2 ^ 31 → neg (link n) ≡ pos n
unfolding neg
neg-link zero h = refl
neg-link (suc n) h = neg-negsuc n (omega arith)

abbrev pub base_at : List DaCell → ℕ → Option TrieIndex
base_at cells i = base_of (get_elem? cells i)

abbrev pub check_at : List DaCell → ℕ → Option TrieIndex
check_at cells i = check_of (get_elem? cells i)

abbrev pub with_base : List DaCell → ℕ → TrieIndex → List DaCell
with_base cells i val = update cells (pos i) (λ v. record v { base = val })

abbrev pub with_check : List DaCell → ℕ → TrieIndex → List DaCell
with_check cells i val = update cells (pos i) (λ v. record v { check = val })

update-some :
    (cells : List DaCell) (n : ℕ) (f : DaCell → DaCell) (c : DaCell)
    → get_elem? cells n ≡ some c
    → update cells (pos n) f ≡ set cells n (f c)
update-some cells n f c h = rw (h, update)

update-none :
    (cells : List DaCell) (n : ℕ) (f : DaCell → DaCell)
    → get_elem? cells n ≡ none
    → update cells (pos n) f ≡ cells
update-none cells n f h = rw (h, update)

update_self :
    (cells : List DaCell) (n : ℕ) (f : DaCell → DaCell) (c : DaCell)
    → get_elem? cells n ≡ some c
    → get_elem? (update cells (pos n) f) n ≡ some (f c)
update_self cells n f c h =
    ap (λ xs. get_elem? xs n) (update-some cells n f c h)
    ∙ get_elem?-set_self cells n (f c) (get_elem?_lt cells n h)

update_at :
    (cells : List DaCell) (n j : ℕ) (f : DaCell → DaCell) (o : Option DaCell)
    → get_elem? cells n ≡ o
    → n ≢ j
    → get_elem? (update cells (pos n) f) j ≡ get_elem? cells j
update_at cells n j f none e ne = ap (λ xs. get_elem? xs j) (update-none cells n f e)
update_at cells n j f (some c) e ne =
    ap (λ xs. get_elem? xs j) (update-some cells n f c e) ∙ get_elem?-set_ne cells n j (f c) ne

pub update_ne :
    (cells : List DaCell) (n j : ℕ) (f : DaCell → DaCell)
    → n ≢ j
    → get_elem? (update cells (pos n) f) j ≡ get_elem? cells j
update_ne cells n j f ne = update_at cells n j f (get_elem? cells n) refl ne

update_field :
    (get : Option DaCell → Option TrieIndex) (cells : List DaCell) (n j : ℕ) (f : DaCell → DaCell)
    → ((c : DaCell) → get (some (f c)) ≡ get (some c))
    → (o : Option DaCell) → get_elem? cells n ≡ o
    → get (get_elem? (update cells (pos n) f) j) ≡ get (get_elem? cells j)
update_field get cells n j f same none e = ap (λ xs. get (get_elem? xs j)) (update-none cells n f e)
update_field get cells n j f same (some c) e = elim (Bool-cases (n == j)) [
  | inl eq ↦
      (let here : n ≡ j = (==_iff n j).0 eq in
        subst (λ k. get (get_elem? (update cells (pos n) f) k) ≡ get (get_elem? cells k)) here
          (ap get (update_self cells n f c e) ∙ same c ∙ ap get (sym e)))
  | inr ne ↦ ap get (update_ne cells n j f (λ here. ground arith))
]

length-update_at :
    (cells : List DaCell) (n : ℕ) (f : DaCell → DaCell) (o : Option DaCell)
    → get_elem? cells n ≡ o
    → length (update cells (pos n) f) ≡ length cells
length-update_at cells n f none e = ap length (update-none cells n f e)
length-update_at cells n f (some c) e =
    ap length (update-some cells n f c e) ∙ length-set cells n (f c)

pub length-update :
    (cells : List DaCell) (n : ℕ) (f : DaCell → DaCell)
    → length (update cells (pos n) f) ≡ length cells
length-update cells n f = length-update_at cells n f (get_elem? cells n) refl

module _ (cells : List DaCell) where
  some-cell :
      (get : Option DaCell → Option TrieIndex) (o : Option DaCell) (v : TrieIndex)
      → get none ≡ none
      → get o ≡ some v
      → (c : DaCell) × (o ≡ some c)
  some-cell get none v e h = cc
  some-cell get (some c) v e h = (c, refl)

  pub check_at-with_check :
      (i : ℕ) (u v : TrieIndex)
      → check_at cells i ≡ some u
      → check_at (with_check cells i v) i ≡ some v
  check_at-with_check i u v h =
      let (c, e) = some-cell check_of (get_elem? cells i) u refl h in
      ap check_of (update_self cells i _ c e)

  pub base_at-with_base :
      (i : ℕ) (u v : TrieIndex)
      → base_at cells i ≡ some u
      → base_at (with_base cells i v) i ≡ some v
  base_at-with_base i u v h =
      let (c, e) = some-cell base_of (get_elem? cells i) u refl h in
      ap base_of (update_self cells i _ c e)

  pub check_at-ne :
      (i j : ℕ) (v : TrieIndex) → i ≢ j → check_at (with_check cells i v) j ≡ check_at cells j
  check_at-ne i j v ne = ap check_of (update_ne cells i j _ ne)

  pub base_at-ne :
      (i j : ℕ) (v : TrieIndex) → i ≢ j → base_at (with_base cells i v) j ≡ base_at cells j
  base_at-ne i j v ne = ap base_of (update_ne cells i j _ ne)

  pub check_at-with_base :
      (i j : ℕ) (v : TrieIndex) → check_at (with_base cells i v) j ≡ check_at cells j
  check_at-with_base i j v = update_field check_of cells i j _ (λ c. refl) (get_elem? cells i) refl

  pub base_at-with_check :
      (i j : ℕ) (v : TrieIndex) → base_at (with_check cells i v) j ≡ base_at cells j
  base_at-with_check i j v = update_field base_of cells i j _ (λ c. refl) (get_elem? cells i) refl
