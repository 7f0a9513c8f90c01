-- ===== src/AlphaMap/Bounds.antt =====
-- Bounds on the characters of the ranges, and reads of lists.
use libdatrie_rs.Common.{
  ℕ, zero, suc, ◌+◌, ◌-◌, ◌≤◌, ◌<◌, ◌≡◌, refl, some, List, [], ◌∷◌, ◌++◌, arith, get_elem?,
  replicate, Ascending, All,
}
use libdatrie_rs.AlphaMap.Defs.{Range, IsRanges, last_end}
use libdatrie_rs.AlphaMap.Chars.{upto, chars}

pub All-upto : (n a e : ℕ) → a + n ≤ e + 1 → All (λ c. c ≤ e) (upto n a)
All-upto zero a e h = tt
All-upto (suc n) a e h = (omega arith, All-upto n (a + 1) e (omega arith))

pub All-append {ℓ} : (P : ℕ → Type ℓ) (xs ys : List ℕ) → All P xs → All P ys → All P (xs ++ ys)
All-append P [] ys p q = q
All-append P (x ∷ xs) ys p q = (p.0, All-append P xs ys p.1 q)

pub last_end-le : (hi : ℕ) (rs : List Range) → IsRanges (hi + 2) rs → hi ≤ last_end hi rs
last_end-le hi [] h = omega arith
last_end-le hi ((lo', hi') ∷ rs) h = omega (arith, last_end-le hi' rs h.2, h.0, h.1)

pub All-last_end :
    (lo hi : ℕ) (rs : List Range)
    → lo ≤ hi
    → IsRanges (hi + 2) rs
    → All (λ c. c ≤ last_end hi rs) (chars ((lo, hi) ∷ rs))
All-last_end lo hi [] le h =
    All-append _ (upto (hi + 1 - lo) lo) [] (All-upto (hi + 1 - lo) lo hi (omega arith)) tt
All-last_end lo hi ((lo', hi') ∷ rs) le h =
    All-append _ (upto (hi + 1 - lo) lo) (chars ((lo', hi') ∷ rs))
      (All-upto (hi + 1 - lo) lo (last_end hi' rs)
        (omega (arith, last_end-le hi' rs h.2, h.0, h.1)))
      (All-last_end lo' hi' rs h.1 h.2)

pub All-inside :
    (lo e n : ℕ) (cs : List ℕ) → n ≡ e - lo + 1 → All (λ c. c ≤ e) cs → All (λ c. c - lo < n) cs
All-inside lo e n [] h p = tt
All-inside lo e n (c ∷ cs) h p = (omega arith, All-inside lo e n cs h p.1)

pub get-replicate : {A : Type 0} (n i : ℕ) (a : A) → i < n → get_elem? (replicate n a) i ≡ some a
get-replicate zero i a h = absurd (omega arith)
get-replicate (suc n) zero a h = refl
get-replicate (suc n) (suc i) a h = get-replicate n i a (omega arith)

pub All-get :
    (e : ℕ) (xs : List ℕ) (i c : ℕ) → All (λ d. d ≤ e) xs → get_elem? xs i ≡ some c → c ≤ e
All-get e [] i c p q = cc
All-get e (x ∷ xs) zero c p q = ground arith
All-get e (x ∷ xs) (suc i) c p q = All-get e xs i c p.1 q

pub Ascending-get :
    (m : ℕ) (xs : List ℕ) (i c : ℕ) → Ascending m xs → get_elem? xs i ≡ some c → m ≤ c
Ascending-get m [] i c s e = cc
Ascending-get m (x ∷ xs) zero c s e = ground arith
Ascending-get m (x ∷ xs) (suc i) c s e = omega (arith, s.0, Ascending-get (suc x) xs i c s.1 e)
