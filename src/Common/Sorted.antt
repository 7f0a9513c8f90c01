-- ===== src/Common/Sorted.antt =====
-- Strictly ascending lists of numbers.
use Prim.Native.Nat.{ℕ, suc, ◌≤◌, ◌<◌}
use mathlib.Core.Path.{◌≡◌, refl}
use mathlib.Core.Bool.{Bool, false, ◌||◌}
use mathlib.Core.List.{List, [], ◌∷◌}
use native.Mathlib.Omega.{arith}
use libdatrie_rs.Common.Tests.{ltb, ◌==◌, if◌then◌else◌}

abbrev pub has : ℕ → List ℕ → Bool
has c [] = false
has c (x ∷ xs) = x == c || has c xs

-- Strictly ascending, from `m` on.
abbrev pub Ascending : ℕ → List ℕ → Type 0
Ascending m [] = Unit {0}
Ascending m (x ∷ xs) = (m ≤ x) × Ascending (suc x) xs

pub has-below : (m c : ℕ) (xs : List ℕ) → Ascending m xs → c < m → has c xs ≡ false
has-below m c [] h k = refl
has-below m c (x ∷ xs) h k = ground (arith, has-below (suc x) c xs h.1)

-- Sorted insertion.
abbrev pub place : ℕ → List ℕ → List ℕ
place c [] = c ∷ []
place c (x ∷ xs) = if ltb x c then x ∷ place c xs else c ∷ x ∷ xs

pub place-Ascending :
    (m c : ℕ) (xs : List ℕ) → Ascending m xs → m ≤ c → has c xs ≡ false → Ascending m (place c xs)
place-Ascending m c [] h k new = omega arith
place-Ascending m c (x ∷ xs) h k new = ground (arith, place-Ascending (suc x) c xs h.1)

pub has-place : (c d : ℕ) (xs : List ℕ) → has d (place c xs) ≡ (c == d || has d xs)
has-place c d [] = refl
has-place c d (x ∷ xs) = ground (arith, has-place c d xs)

pub Ascending-weaken : (m n : ℕ) (xs : List ℕ) → Ascending m xs → n ≤ m → Ascending n xs
Ascending-weaken m n [] s h = s
Ascending-weaken m n (x ∷ xs) s h = ground arith
