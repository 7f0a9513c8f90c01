-- ===== src/DArray/Place.antt =====
-- The circular list of free cells: the search of `free_cell`, and the cell that it puts in.
use libdatrie_rs.Common.{
  ℕ, zero, suc, ◌+◌, ◌^◌, ◌≤◌, ◌<◌, ◌≡◌, refl, ◌∙◌, ◌≢◌, ◌⊎◌, false, none, some, List, [], ◌∷◌,
  arith, ltb, if◌then◌else◌, length, has, Ascending, place, has-below, Ascending-weaken, get_elem?,
  get_elem?_lt, Bool-cases, inl, inr,
}
use libdatrie_rs.Common.Int.{pos, neg}
use libdatrie_rs.Common.Run.{ok}
use libdatrie_rs.Types.{TrieIndex}
use libdatrie_rs.DArray.Cells.{DaCell, DArray, base_of, check_of, get_free_list, get_check}
use libdatrie_rs.DArray.Pool.{find_free}
use libdatrie_rs.DArray.Fields.{
  link, neg-link, base_at, check_at, with_base, with_check, check_at-with_check, base_at-with_base,
  check_at-ne, base_at-ne, check_at-with_base, base_at-with_check,
}
use libdatrie_rs.DArray.Links.{Links, Links-first, first_of, frame-check, frame-base}

-- The free cell at which the search for the place of `x` stops, and the one before.
abbrev pub stop : ℕ → List ℕ → ℕ
stop x [] = 1
stop x (y ∷ ys) = if ltb y x then stop x ys else y

abbrev pub below : ℕ → ℕ → List ℕ → ℕ
below x a [] = a
below x a (y ∷ ys) = if ltb y x then below x y ys else a

below-le : (x a : ℕ) (xs : List ℕ) → Ascending (suc a) xs → a ≤ below x a xs
below-le x a [] s = omega arith
below-le x a (y ∷ ys) s = ground (arith, below-le x y ys s.1)

stop-above : (x : ℕ) (xs : List ℕ) → (stop x xs ≡ 1) ⊎ (x ≤ stop x xs)
stop-above x [] = inl refl
stop-above x (y ∷ ys) = ground (arith, stop-above x ys)

-- `x`, which is linked to where it belongs, is linked in.
Links-splice :
    (cells : List DaCell) (a x : ℕ) (xs : List ℕ)
    → 0 < a
    → a < x
    → Links cells a xs
    → Ascending (suc a) xs
    → has x xs ≡ false
    → check_at cells x ≡ some (link (stop x xs))
    → base_at cells x ≡ some (link (below x a xs))
    → Links
        (with_base (with_check cells (below x a xs) (link x)) (stop x xs) (link x))
        a
        (place x xs)
Links-splice cells a x [] above lt h s new c b =
    let cells' = with_check cells a (link x) in
    (
      check_at-with_base cells' 1 a (link x) ∙ check_at-with_check cells a (link 1) (link x) h.0,
      (
        base_at-ne cells' 1 x (link x) (λ e. omega (arith, e))
            ∙ base_at-with_check cells a x (link x)
            ∙ b,
        (
          check_at-with_base cells' 1 x (link x)
              ∙ check_at-ne cells a x (link x) (λ e. omega (arith, e))
              ∙ c,
          base_at-with_base cells' 1 (link a) (link x)
              (base_at-with_check cells a 1 (link x) ∙ h.1),
        ),
      ),
    )
Links-splice cells a x (y ∷ ys) above lt h s new c b = elim (Bool-cases (ltb y x)) [
  | inl go ↦
      (let p = below x y ys in
        let n = stop x ys in
        let cells' = with_check cells p (link x) in
        let p-ne : p ≢ a = (λ e. omega (arith, e, below-le x y ys s.1, s.0)) in
        let n-ne : n ≢ y = (λ e. ground (arith, stop-above x ys, s.0)) in
        rw go (
          check_at-with_base cells' n a (link x) ∙ check_at-ne cells p a (link x) p-ne ∙ h.0,
          (
            base_at-ne cells' n y (link x) n-ne ∙ base_at-with_check cells p y (link x) ∙ h.1.0,
            Links-splice cells y x ys (omega (arith, s.0)) (ground arith) h.1.1 s.1 (ground arith)
                (rw go at c) (rw go at b),
          ),
        ))
  | inr here ↦
      (let cells' = with_check cells a (link x) in
        rw here (
          check_at-with_base cells' y a (link x)
              ∙ check_at-with_check cells a (link y) (link x) h.0,
          (
            base_at-ne cells' y x (link x) (λ e. ground arith)
                ∙ base_at-with_check cells a x (link x)
                ∙ (rw here at b),
            (
              check_at-with_base cells' y x (link x)
                  ∙ check_at-ne cells a x (link x) (λ e. omega (arith, e))
                  ∙ (rw here at c),
              (
                base_at-with_base cells' y (link a) (link x)
                    (base_at-with_check cells a y (link x) ∙ h.1.0),
                frame-base cells' y ys y (link x) (ground (arith, has-below (suc y) y ys s.1, s.0))
                    (frame-check cells y ys a (link x)
                      (ground (arith, has-below (suc y) a ys s.1, s.0)) h.1.1),
              ),
            ),
          ),
        ))
]

-- The four writes of `free_cell`.
abbrev pub placed : List DaCell → ℕ → ℕ → ℕ → List DaCell
placed cells x prev next =
    let own = with_base (with_check cells x (link next)) x (link prev) in
    with_base (with_check own prev (link x)) next (link x)

pub Links-place :
    (cells : List DaCell) (a x : ℕ) (xs : List ℕ) (u w : TrieIndex)
    → 0 < a
    → a < x
    → Links cells a xs
    → Ascending (suc a) xs
    → has x xs ≡ false
    → check_at cells x ≡ some u
    → base_at cells x ≡ some w
    → Links (placed cells x (below x a xs) (stop x xs)) a (place x xs)
Links-place cells a x xs u w above lt h s new c b =
    let n = stop x xs in
    let p = below x a xs in
    let checked = with_check cells x (link n) in
    Links-splice (with_base checked x (link p)) a x xs above lt
      (frame-base checked a xs x (link p) (ground arith)
        (frame-check cells a xs x (link n) (ground arith) h))
      s new (check_at-with_base checked x x (link p) ∙ check_at-with_check cells x u (link n) c)
      (base_at-with_base checked x w (link p) (base_at-with_check cells x x (link n) ∙ b))

pub base_at-lt :
    (cells : List DaCell) (i : ℕ) (v : TrieIndex) → base_at cells i ≡ some v → i < length cells
base_at-lt cells i v e = go (get_elem? cells i) refl e
  where
    go : (o : _) → get_elem? cells i ≡ o → base_of o ≡ some v → i < length cells
    go none e h = cc
    go (some c) e h = get_elem?_lt cells i e

pub first_of-small :
    (cells : List DaCell) (a : ℕ) (xs : List ℕ)
    → Links cells a xs
    → length cells < 2 ^ 31
    → first_of xs < 2 ^ 31
first_of-small cells a [] h small = omega arith
first_of-small cells a (x ∷ xs) h small = omega (arith, base_at-lt cells x (link a) h.1.0)

-- The search ends, within fuel for one more round than there are free cells.
pub find_free_lem :
    (fuel : ℕ) (self : DArray) (a x : ℕ) (xs : List ℕ)
    → Links self.cells a xs
    → Ascending 2 xs
    → length self.cells < 2 ^ 31
    → length xs < fuel
    → find_free fuel self (pos x) (pos (first_of xs)) ≡ ok (pos (stop x xs))
unfolding find_free get_free_list get_check
find_free_lem zero self a x xs h s small enough = absurd (omega arith)
find_free_lem (suc fuel) self a x [] h s small enough = refl
find_free_lem (suc fuel) self a x (y ∷ ys) h s small enough =
    let first : get_check self (pos y) ≡ some (link (first_of ys)) =
      Links-first self.cells y ys h.1.1 in
    let back : neg (link (first_of ys)) ≡ pos (first_of ys) =
      neg-link (first_of ys) (first_of-small self.cells y ys h.1.1 small) in
    ground (
      arith,
      s.0,
      first,
      back,
      find_free_lem fuel self y x ys h.1.1 (Ascending-weaken (suc y) 2 ys s.1 (omega (arith, s.0)))
          small (omega arith),
    )

pub base_at-stop :
    (cells : List DaCell) (a x : ℕ) (xs : List ℕ)
    → Links cells a xs
    → base_at cells (stop x xs) ≡ some (link (below x a xs))
base_at-stop cells a x [] h = h.1
base_at-stop cells a x (y ∷ ys) h = elim (Bool-cases (ltb y x)) [
  | inl go ↦ rw go (base_at-stop cells y x ys h.1.1)
  | inr here ↦ rw here h.1.0
]

-- There are fewer free cells than cells.
pub Links-short :
    (cells : List DaCell) (a m : ℕ) (xs : List ℕ)
    → Links cells a xs
    → Ascending m xs
    → m ≤ length cells
    → length xs + m ≤ length cells
Links-short cells a m [] h s le = omega arith
Links-short cells a m (x ∷ xs) h s le =
    omega (arith, s.0, Links-short cells x (suc x) xs h.1.1 s.1 (base_at-lt cells x (link a) h.1.0))

pub check_at-lt :
    (cells : List DaCell) (i : ℕ) (v : TrieIndex) → check_at cells i ≡ some v → i < length cells
check_at-lt cells i v e = go (get_elem? cells i) refl e
  where
    go : (o : _) → get_elem? cells i ≡ o → check_of o ≡ some v → i < length cells
    go none e h = cc
    go (some c) e h = get_elem?_lt cells i e
