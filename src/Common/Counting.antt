-- ===== src/Common/Counting.antt =====
-- Lists of numbers that are all different, and how long they can be.
use Prim.Native.Nat.{ℕ, zero, suc, ◌≤◌, ◌<◌}
use mathlib.Core.Path.{◌≡◌, refl}
use mathlib.Core.Bool.{false}
use mathlib.Core.List.{List, [], ◌∷◌}
use native.Mathlib.Omega.{arith}
use libdatrie_rs.Common.Tests.{◌==◌, if◌then◌else◌}
use libdatrie_rs.Common.Lists.{length, All}
use libdatrie_rs.Common.Sorted.{has}

abbrev pub Distinct : List ℕ → Type 0
Distinct [] = Unit {0}
Distinct (x ∷ xs) = (has x xs ≡ false) × Distinct xs

without : ℕ → List ℕ → List ℕ
without n [] = []
without n (x ∷ xs) = if x == n then xs else x ∷ without n xs

has-without : (n c : ℕ) (xs : List ℕ) → has c xs ≡ false → has c (without n xs) ≡ false
unfolding without
has-without n c [] h = refl
has-without n c (x ∷ xs) h = ground (arith, has-without n c xs)

without-Distinct : (n : ℕ) (xs : List ℕ) → Distinct xs → Distinct (without n xs)
unfolding without
without-Distinct n [] h = tt
without-Distinct n (x ∷ xs) h = ground (arith, has-without n x xs h.0, without-Distinct n xs h.1)

length-without : (n : ℕ) (xs : List ℕ) → length xs ≤ suc (length (without n xs))
unfolding without
length-without n [] = omega arith
length-without n (x ∷ xs) = ground (arith, length-without n xs)

below_all : (n : ℕ) (xs : List ℕ) → All (λ x. x < suc n) xs → has n xs ≡ false → All (λ x. x < n) xs
below_all n [] h out = tt
below_all n (x ∷ xs) h out = (ground arith, below_all n xs h.1 (ground arith))

without-below :
    (n : ℕ) (xs : List ℕ) → All (λ x. x < suc n) xs → Distinct xs → All (λ x. x < n) (without n xs)
unfolding without
without-below n [] h d = tt
without-below n (x ∷ xs) h d = ground (arith, below_all n xs h.1, without-below n xs h.1 d.1)

-- There are at most `n` different numbers below `n`.
pub Distinct-short : (n : ℕ) (xs : List ℕ) → All (λ x. x < n) xs → Distinct xs → length xs ≤ n
Distinct-short zero [] h d = omega arith
Distinct-short zero (x ∷ xs) h d = absurd (omega (arith, h.0))
Distinct-short (suc n) xs h d = omega (
  arith,
  length-without n xs,
  Distinct-short n (without n xs) (without-below n xs h d) (without-Distinct n xs d),
)
