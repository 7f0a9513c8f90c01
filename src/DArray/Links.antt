-- ===== src/DArray/Links.antt =====
-- The circular list of free cells: what `alloc_cell` and `free_cell` change in it.
use libdatrie_rs.Common.{
  ℕ, suc, ◌≤◌, ◌<◌, ◌≡◌, refl, subst, ◌∙◌, ◌≢◌, true, false, some, List, [], ◌∷◌, arith, ◌==◌,
  if◌then◌else◌, has, Ascending, has-below, Bool-cases, inl, inr, ◌⊎◌, ==_iff,
}
use libdatrie_rs.Types.{TrieIndex}
use libdatrie_rs.DArray.Cells.{DaCell}
use libdatrie_rs.DArray.Fields.{
  link, base_at, check_at, with_base, with_check, check_at-with_check, base_at-with_base,
  check_at-ne, base_at-ne, check_at-with_base, base_at-with_check,
}

-- Behind cell `a` come the free cells `xs`, and then cell 1, the head of the list: each `check` is
-- the link to the next cell, each `base` the link to the one before.
abbrev pub Links : List DaCell → ℕ → List ℕ → Type 0
Links cells a [] = (check_at cells a ≡ some (link 1)) × (base_at cells 1 ≡ some (link a))
Links cells a (x ∷ xs) =
    (check_at cells a ≡ some (link x)) × ((base_at cells x ≡ some (link a)) × Links cells x xs)

-- The cells before and behind `x`.
abbrev pub before : ℕ → ℕ → List ℕ → ℕ
before x a [] = a
before x a (y ∷ ys) = if y == x then a else before x y ys

abbrev pub first_of : List ℕ → ℕ
first_of [] = 1
first_of (x ∷ xs) = x

abbrev pub behind : ℕ → List ℕ → ℕ
behind x [] = 1
behind x (y ∷ ys) = if y == x then first_of ys else behind x ys

abbrev pub remove : ℕ → List ℕ → List ℕ
remove x [] = []
remove x (y ∷ ys) = if y == x then ys else y ∷ remove x ys

pub frame-check :
    (cells : List DaCell) (a : ℕ) (xs : List ℕ) (j : ℕ) (v : TrieIndex)
    → has j (a ∷ xs) ≡ false
    → Links cells a xs
    → Links (with_check cells j v) a xs
frame-check cells a [] j v out h =
    (check_at-ne cells j a v (ground arith) ∙ h.0, base_at-with_check cells j 1 v ∙ h.1)
frame-check cells a (x ∷ xs) j v out h = (
  check_at-ne cells j a v (ground arith) ∙ h.0,
  (base_at-with_check cells j x v ∙ h.1.0, frame-check cells x xs j v (ground arith) h.1.1),
)

pub frame-base :
    (cells : List DaCell) (a : ℕ) (xs : List ℕ) (j : ℕ) (v : TrieIndex)
    → has j (1 ∷ xs) ≡ false
    → Links cells a xs
    → Links (with_base cells j v) a xs
frame-base cells a [] j v out h =
    (check_at-with_base cells j a v ∙ h.0, base_at-ne cells j 1 v (ground arith) ∙ h.1)
frame-base cells a (x ∷ xs) j v out h = (
  check_at-with_base cells j a v ∙ h.0,
  (base_at-ne cells j x v (ground arith) ∙ h.1.0, frame-base cells x xs j v (ground arith) h.1.1),
)

pub Links-first :
    (cells : List DaCell) (a : ℕ) (xs : List ℕ)
    → Links cells a xs
    → check_at cells a ≡ some (link (first_of xs))
Links-first cells a [] h = h.0
Links-first cells a (x ∷ xs) h = h.0

-- A cell of the list is linked to its neighbours.
pub Links-at :
    (cells : List DaCell) (a x : ℕ) (xs : List ℕ)
    → Links cells a xs
    → has x xs ≡ true
    → (base_at cells x ≡ some (link (before x a xs)))
      × (check_at cells x ≡ some (link (behind x xs)))
Links-at cells a x [] h p = cc
Links-at cells a x (y ∷ ys) h p = elim (Bool-cases (y == x)) [
  | inl same ↦ rw same (
      subst
        (λ k. (base_at cells k ≡ some (link a)) × (check_at cells k ≡ some (link (first_of ys))))
        ((==_iff y x).0 same) (h.1.0, Links-first cells y ys h.1.1))
  | inr other ↦ rw other (Links-at cells y x ys h.1.1 (ground arith))
]

pub before-le : (x a : ℕ) (xs : List ℕ) → Ascending (suc a) xs → a ≤ before x a xs
before-le x a [] s = omega arith
before-le x a (y ∷ ys) s = ground (arith, before-le x y ys s.1)

pub first_of-above : (m : ℕ) (xs : List ℕ) → Ascending m xs → (first_of xs ≡ 1) ⊎ (m ≤ first_of xs)
first_of-above m [] s = inl refl
first_of-above m (x ∷ xs) s = inr s.0

pub behind-above : (x m : ℕ) (xs : List ℕ) → Ascending m xs → (behind x xs ≡ 1) ⊎ (m ≤ behind x xs)
behind-above x m [] s = inl refl
behind-above x m (y ∷ ys) s =
    ground (arith, first_of-above (suc y) ys s.1, behind-above x (suc y) ys s.1)

-- A cell that leaves the list after `a`: its neighbours are linked to one another.
join :
    (cells : List DaCell) (a y : ℕ) (ys : List ℕ) (u : TrieIndex)
    → 0 < a
    → a < y
    → check_at cells a ≡ some u
    → Links cells y ys
    → Ascending (suc y) ys
    → Links (with_base (with_check cells a (link (first_of ys))) (first_of ys) (link a)) a ys
join cells a y [] u pos lt old h s = (
  check_at-with_base (with_check cells a (link 1)) 1 a (link a)
      ∙ check_at-with_check cells a u (link 1) old,
  base_at-with_base (with_check cells a (link 1)) 1 (link y) (link a)
      (base_at-with_check cells a 1 (link 1) ∙ h.1),
)
join cells a y (z ∷ zs) u pos lt old h s = (
  check_at-with_base (with_check cells a (link z)) z a (link a)
      ∙ check_at-with_check cells a u (link z) old,
  (
    base_at-with_base (with_check cells a (link z)) z (link y) (link a)
        (base_at-with_check cells a z (link z) ∙ h.1.0),
    frame-base (with_check cells a (link z)) z zs z (link a)
        (ground (arith, has-below (suc z) z zs s.1))
        (frame-check cells z zs a (link z) (ground (arith, has-below (suc z) a zs s.1)) h.1.1),
  ),
)

abbrev pub unlinked : List DaCell → ℕ → ℕ → List DaCell
unlinked cells prev next = with_base (with_check cells prev (link next)) next (link prev)

pub Links-remove :
    (cells : List DaCell) (a x : ℕ) (xs : List ℕ)
    → 0 < a
    → Links cells a xs
    → Ascending (suc a) xs
    → has x xs ≡ true
    → Links (unlinked cells (before x a xs) (behind x xs)) a (remove x xs)
Links-remove cells a x [] above h s p = cc
Links-remove cells a x (y ∷ ys) above h s p = elim (Bool-cases (y == x)) [
  | inl same ↦ rw same (join cells a y ys (link y) above (omega (arith, s.0)) h.0 h.1.1 s.1)
  | inr other ↦
      (let prev = before x y ys in
        let next = behind x ys in
        let prev-ne : prev ≢ a = (λ e. omega (arith, e, before-le x y ys s.1, s.0)) in
        let next-ne : next ≢ y = (λ e. ground (arith, behind-above x (suc y) ys s.1, s.0)) in
        rw other (
          check_at-with_base (with_check cells prev (link next)) next a (link prev)
              ∙ check_at-ne cells prev a (link next) prev-ne
              ∙ h.0,
          (
            base_at-ne (with_check cells prev (link next)) next y (link prev) next-ne
                ∙ base_at-with_check cells prev y (link next)
                ∙ h.1.0,
            Links-remove cells y x ys (omega (arith, s.0)) h.1.1 s.1 (ground arith),
          ),
        ))
]
