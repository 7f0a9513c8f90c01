-- ===== src/Trie/Suffix.antt =====
-- Facts on one step: a character of a suffix, a base, a value that is unwrapped.
use libdatrie_rs.Common.{
  ℕ, zero, suc, ◌^◌, ◌<◌, get_elem?, ◌≡◌, refl, ap, subst, ◌≢◌, true, false, Option, none, some,
  List, [], ◌∷◌, arith, ◌==◌, All,
}
use libdatrie_rs.Common.Int.{ℤ, pos, negsuc, neg, ◌-ℤ◌, IsI32, as_usize}
use libdatrie_rs.Common.Run.{ok, >>=-eq-ok, ok-inj}
use libdatrie_rs.Types.{TrieIndex, TrieChar}
use libdatrie_rs.DArray
use libdatrie_rs.DArray.{DArray, DaCell}
use libdatrie_rs.DArray.Cells.{base_of}
use libdatrie_rs.DArray.RoundTrip.{CellOk}
use libdatrie_rs.Tail.Defs.{Tail, get_suffix, walk_char, is_walkable_char, index}

-- Where `walk_char` succeeds, the character is walkable.
pub walk_char-is_walkable_char :
    {D : Type 0} (tail : Tail D) (s : TrieIndex) (i j : ℤ) (c : TrieChar)
    → walk_char tail s i c ≡ ok (some j)
    → is_walkable_char tail s i c ≡ ok true
unfolding walk_char is_walkable_char get_suffix
walk_char-is_walkable_char tail s i j c h = go (get_suffix tail s) refl
  where
    go :
        (o : Option (List TrieChar)) → get_suffix tail s ≡ o → is_walkable_char tail s i c ≡ ok true
    go none e = let h' = rw (e, walk_char) at h in cc
    go (some suffix) e =
        let (sc, e₁, e₂) = >>=-eq-ok (index suffix (as_usize i)) _ (rw (e, walk_char) at h) in
        rw (e, is_walkable_char, e₁) (ground arith)

pub minus-one : (m : ℕ) → m < 2 ^ 31 → neg (pos m) -ℤ pos 1 ≡ negsuc m
unfolding neg ◌-ℤ◌
minus-one m h = ground arith

-- There is no block at 0 or below.
pub no-suffix :
    {D : Type 0} (tail : Tail D) (m : ℕ) → m < 2 ^ 31 → get_suffix tail (neg (pos m)) ≡ none
unfolding get_suffix
no-suffix tail m h = rw (minus-one m h)

pub walk_char-none :
    {D : Type 0} (tail : Tail D) (s : TrieIndex) (i : ℤ) (c : TrieChar)
    → get_suffix tail s ≡ none
    → walk_char tail s i c ≡ ok none
unfolding walk_char get_suffix
walk_char-none tail s i c h = rw (h, walk_char)

pub CellOk-at :
    (cells : List DaCell) (k : ℕ) (c : DaCell)
    → All CellOk cells
    → get_elem? cells k ≡ some c
    → CellOk c
CellOk-at [] k c h e = cc
CellOk-at (x ∷ xs) zero c h e = subst CellOk (option-inj e) h.0
  where
    option-inj : {a b : DaCell} → some a ≡ some b → a ≡ b
    option-inj e = cc
CellOk-at (x ∷ xs) (suc k) c h e = CellOk-at xs k c h.1 e

-- Every `base` is an `i32`.
pub base-IsI32 :
    (da : DArray) (node : TrieIndex) (base : ℤ)
    → All CellOk da.cells
    → DArray.unwrap (DArray.get_base da node) ≡ ok base
    → IsI32 base
unfolding DArray.get_base
base-IsI32 da (negsuc n) base fits e = cc
base-IsI32 da (pos k) base fits e = go (get_elem? da.cells k) refl e
  where
    go :
        (o : Option DaCell)
        → get_elem? da.cells k ≡ o
        → DArray.unwrap (base_of o) ≡ ok base
        → IsI32 base
    go none at h = cc
    go (some c) at h = subst IsI32 (ok-inj h) (CellOk-at da.cells k c fits at).0

pub unwrap-ok : {A : Type 0} (o : Option A) (a : A) → DArray.unwrap o ≡ ok a → o ≡ some a
unwrap-ok none a h = cc
unwrap-ok (some b) a h = ap some (ok-inj h)

pub nonzero : (c : ℕ) → c ≢ 0 → (c == 0) ≡ false
nonzero c h = ground arith

pub some-inj : {A : Type 0} {a b : A} → some a ≡ some b → a ≡ b
some-inj e = cc
