-- ===== src/DArray/Extend.antt =====
-- `extend_pool`: the new cells follow the last free one in the circular list.
use libdatrie_rs.Common.{
  ℕ, zero, suc, ◌+◌, ◌-◌, ◌^◌, ◌≤◌, ◌<◌, ◌≡◌, refl, ap, subst, ◌∙◌, ◌≢◌, true, false, has,
  Ascending-weaken, some, List, [], ◌∷◌, ◌++◌, arith, if◌then◌else◌, length, Ascending, get_elem?,
}
use libdatrie_rs.Common.Int.{
  pos, neg, ◌+ℤ◌, ◌-ℤ◌, +ℤ_pos, -ℤ_pos, eqb_ℤ, eqb_ℤ_ne, eqb_ℤ_refl, pos_part,
}
use libdatrie_rs.Types.{TrieIndex}
use libdatrie_rs.DArray.Cells.{DaCell, cell, base_of, check_of}
use libdatrie_rs.DArray.Pool.{new_cells}
use libdatrie_rs.DArray.Fields.{link, neg-pos_link, base_at, check_at}
use libdatrie_rs.DArray.Links.{Links}
use libdatrie_rs.DArray.Place.{base_at-lt, check_at-lt}

-- The indices of `n` cells, from `i` on.
abbrev pub indices : ℕ → ℕ → List ℕ
indices zero i = []
indices (suc n) i = i ∷ indices n (suc i)

abbrev pub last_of : ℕ → List ℕ → ℕ
last_of a [] = a
last_of a (x ∷ xs) = last_of x xs

pub last_of-le : (a : ℕ) (xs : List ℕ) → Ascending (suc a) xs → a ≤ last_of a xs
last_of-le a [] s = omega arith
last_of-le a (x ∷ xs) s = omega (arith, s.0, last_of-le x xs s.1)

-- The last cell is linked from the head.
pub Links-last :
    (cells : List DaCell) (a : ℕ) (xs : List ℕ)
    → Links cells a xs
    → base_at cells 1 ≡ some (link (last_of a xs))
Links-last cells a [] h = h.1
Links-last cells a (x ∷ xs) h = Links-last cells x xs h.1.1

-- A list whose last cell leads on to the cells `ys`.
pub Links-extend :
    (cells grown : List DaCell) (a : ℕ) (xs ys : List ℕ)
    → 0 < a
    → Links cells a xs
    → Ascending (suc a) xs
    → ((k : ℕ) → k ≢ last_of a xs → 0 < k → k < length cells → check_at grown k ≡ check_at cells k)
    → ((k : ℕ) → k ≢ 1 → k < length cells → base_at grown k ≡ base_at cells k)
    → Links grown (last_of a xs) ys
    → Links grown a (xs ++ ys)
Links-extend cells grown a [] ys above h s c b rest = rest
Links-extend cells grown a (x ∷ xs) ys above h s c b rest = (
  c a (λ e. omega (arith, e, s.0, last_of-le x xs s.1)) above (check_at-lt cells a _ h.0) ∙ h.0,
  (
    b x (λ e. omega (arith, e, s.0)) (base_at-lt cells x (link a) h.1.0) ∙ h.1.0,
    Links-extend cells grown x xs ys (omega (arith, s.0)) h.1.1 s.1 c b rest,
  ),
)

pub get-right :
    (xs ys : List DaCell) (j : ℕ) → get_elem? (xs ++ ys) (length xs + j) ≡ get_elem? ys j
get-right [] ys j = ap (λ i. get_elem? ys i) {x = 0 + j} {y = j} (omega arith)
get-right (x ∷ xs) ys j =
    ap (λ i. get_elem? (x ∷ xs ++ ys) i) {x = suc (length xs) + j} {y = suc (length xs + j)}
      (omega arith)
    ∙ get-right xs ys j

pub length-new_cells : (fl ft nb to : TrieIndex) (n i : ℕ) → length (new_cells fl ft nb to n i) ≡ n
unfolding new_cells
length-new_cells fl ft nb to zero i = refl
length-new_cells fl ft nb to (suc n) i = ap suc (length-new_cells fl ft nb to n (i + 1))

pub last_of-has : (a : ℕ) (xs : List ℕ) → has (last_of a xs) (a ∷ xs) ≡ true
last_of-has a [] = ground arith
last_of-has a (x ∷ xs) = ground (arith, last_of-has x xs)

-- The check of the last cell is the link to the head.
pub last-check :
    (cells : List DaCell) (a : ℕ) (xs : List ℕ)
    → Links cells a xs
    → check_at cells (last_of a xs) ≡ some (link 1)
last-check cells a [] h = h.0
last-check cells a (x ∷ xs) h = last-check cells x xs h.1.1

pub indices-Ascending : (m n i : ℕ) → m ≤ i → Ascending m (indices n i)
indices-Ascending m zero i h = tt
indices-Ascending m (suc n) i h = (h, indices-Ascending (suc i) n (suc i) (omega arith))

pub append-Ascending :
    (a m : ℕ) (xs ys : List ℕ)
    → Ascending m xs
    → Ascending (suc (last_of a xs)) ys
    → Ascending m ys
    → Ascending m (xs ++ ys)
append-Ascending a m [] ys s r h = h
append-Ascending a m (x ∷ xs) ys s r h =
    let le = last_of-le x xs s.1 in
    (
      s.0,
      append-Ascending x (suc x) xs ys s.1 r
          (Ascending-weaken (suc (last_of x xs)) (suc x) ys r (omega (arith, le))),
    )

-- The link that a new cell gets.
next_link : (i : ℕ) → suc i < 2 ^ 31 → neg (pos i +ℤ pos 1) ≡ link (suc i)
next_link i h =
    rw (+ℤ_pos i 1 (omega arith))
      (neg-pos_link (i + 1) (omega arith) ∙ ap link {y = suc i} (omega arith))

prev_link : (i : ℕ) → suc i < 2 ^ 31 → neg (pos (suc i) -ℤ pos 1) ≡ link i
prev_link i h =
    rw (-ℤ_pos (suc i) 1 (omega arith) (omega arith))
      (neg-pos_link (suc i - 1) (omega arith) ∙ ap link {y = i} (omega arith))

eqb_pos-ne : (a b : ℕ) → a ≢ b → eqb_ℤ (pos a) (pos b) ≡ false
eqb_pos-ne a b ne = eqb_ℤ_ne (pos a) (pos b) (λ e. ne (ap pos_part e))

-- The new cell at index `k`, when those from `start` to `to` are new.
module _ (tail : TrieIndex) (start to : ℕ) where
  abbrev pub new_cell : ℕ → DaCell
  new_cell k =
      cell (if eqb_ℤ (pos k) (pos start) then neg tail else neg (pos k -ℤ pos 1))
        (if eqb_ℤ (pos k) (pos to) then neg (pos 1) else neg (pos k +ℤ pos 1))

  pub new_cells-at :
      (n i j : ℕ)
      → j < n
      → get_elem? (new_cells (pos 1) tail (pos start) (pos to) n i) j ≡ some (new_cell (i + j))
  unfolding new_cells
  new_cells-at zero i j h = absurd (omega arith)
  new_cells-at (suc n) i zero h = ap (λ k. some (new_cell k)) {x = i} {y = i + 0} (omega arith)
  new_cells-at (suc n) i (suc j) h =
      new_cells-at n (i + 1) j (omega arith)
      ∙ ap (λ k. some (new_cell k)) {x = i + 1 + j} {y = i + suc j} (omega arith)

  -- The new cells, found in `grown` where they belong.
  module _ (grown : List DaCell) (small : suc to < 2 ^ 31)
      (at : (k : ℕ) → start ≤ k → k ≤ to → get_elem? grown k ≡ some (new_cell k)) where
    check-last : start ≤ to → check_at grown to ≡ some (link 1)
    check-last le =
        ap check_of (at to le (omega arith))
        ∙ rw (eqb_ℤ_refl (pos to)) (ap some (neg-pos_link 1 (omega arith)))

    check-next : (k : ℕ) → start ≤ k → k < to → check_at grown k ≡ some (link (suc k))
    check-next k from lt =
        ap check_of (at k from (omega arith))
        ∙ rw (eqb_pos-ne k to (λ e. omega (arith, e))) (ap some (next_link k (omega arith)))

    base-prev : (k : ℕ) → start ≤ k → k < to → base_at grown (suc k) ≡ some (link k)
    base-prev k from lt =
        ap base_of (at (suc k) (omega arith) (omega arith))
        ∙ rw (eqb_pos-ne (suc k) start (λ e. omega (arith, e)))
            (ap some (prev_link k (omega arith)))

    pub base-first : start ≤ to → base_at grown start ≡ some (neg tail)
    base-first le = ap base_of (at start (omega arith) le) ∙ rw (eqb_ℤ_refl (pos start))

    pub fresh-Links :
        (m i : ℕ)
        → base_at grown 1 ≡ some (link to)
        → start ≤ i
        → i + m ≡ to
        → Links grown i (indices m (suc i))
    fresh-Links zero i head from e =
        let same : to ≡ i = omega arith in
        (
          subst (λ k. check_at grown k ≡ some (link 1)) same (check-last (omega arith)),
          subst (λ k. base_at grown 1 ≡ some (link k)) same head,
        )
    fresh-Links (suc m) i head from e = (
      check-next i from (omega arith),
      (base-prev i from (omega arith), fresh-Links m (suc i) head (omega arith) (omega arith)),
    )
