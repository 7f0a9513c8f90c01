-- ===== src/CApi/Bounds.antt =====
-- About `trie_state_walkable_chars`, which writes to memory of the caller.
use libdatrie_rs.Common.{
  ℕ, zero, suc, ◌^◌, ◌≤◌, ◌<◌, ◌≡◌, refl, ap, List, [], ◌∷◌, ◌++◌, arith, length, take, drop, min,
  get_elem?,
}
use libdatrie_rs.Common.Int.{pos, as_i32-small}
use libdatrie_rs.Common.Run.{ok}
use libdatrie_rs.Types.{AlphaChar}
use libdatrie_rs.Symbols.{ArrayVec}
use libdatrie_rs.Trie.State.{TrieState, walkable_chars}
use libdatrie_rs.CApi.Tries.{CTrie}
use libdatrie_rs.CApi.States.{trie_state_walkable_chars}

-- The memory `after` is `before`, with as many of the first elements of `out` as fit in `room`.
pub record Copied (n room : ℕ) (out before after : List AlphaChar) : Type 0 where
  pub most : n ≡ min (length out) room
  pub size : length after ≡ length before
  pub copied : (i : ℕ) → i < n → get_elem? after i ≡ get_elem? out i
  pub kept : (i : ℕ) → n ≤ i → get_elem? after i ≡ get_elem? before i

length-copied :
    (n : ℕ) (xs ys : List AlphaChar)
    → n ≤ length xs
    → n ≤ length ys
    → length (take n xs ++ drop n ys) ≡ length ys
length-copied zero xs ys h k = refl
length-copied (suc n) [] ys h k = absurd (omega arith)
length-copied (suc n) (x ∷ xs) [] h k = absurd (omega arith)
length-copied (suc n) (x ∷ xs) (y ∷ ys) h k =
    ap suc (length-copied n xs ys (omega arith) (omega arith))

get-copied :
    (n i : ℕ) (xs ys : List AlphaChar)
    → n ≤ length xs
    → n ≤ length ys
    → i < n
    → get_elem? (take n xs ++ drop n ys) i ≡ get_elem? xs i
get-copied zero i xs ys h r k = absurd (omega arith)
get-copied (suc n) i [] ys h r k = absurd (omega arith)
get-copied (suc n) zero (x ∷ xs) ys h r k = refl
get-copied (suc n) (suc i) (x ∷ xs) [] h r k = absurd (omega arith)
get-copied (suc n) (suc i) (x ∷ xs) (y ∷ ys) h r k =
    get-copied n i xs ys (omega arith) (omega arith) (omega arith)

get-kept :
    (n i : ℕ) (xs ys : List AlphaChar)
    → n ≤ length xs
    → n ≤ length ys
    → n ≤ i
    → get_elem? (take n xs ++ drop n ys) i ≡ get_elem? ys i
get-kept zero i xs ys h r k = refl
get-kept (suc n) i [] ys h r k = absurd (omega arith)
get-kept (suc n) zero (x ∷ xs) ys h r k = absurd (omega arith)
get-kept (suc n) (suc i) (x ∷ xs) [] h r k = absurd (omega arith)
get-kept (suc n) (suc i) (x ∷ xs) (y ∷ ys) h r k =
    get-kept n i xs ys (omega arith) (omega arith) (omega arith)

-- Where walkable_chars gives the characters, and memory of at least chars_nelm characters is given,
-- which is not negative, trie_state_walkable_chars returns how many of them it writes, all of them
-- or chars_nelm, whichever is less: these first characters stand at the beginning of the memory,
-- and nothing behind them has changed.
pub trie_state_walkable_chars-Copied :
    (trie : CTrie) (v : ArrayVec) (s : TrieState) (chars out : List AlphaChar) (nelm : ℕ)
    → nelm < 2 ^ 31
    → nelm ≤ length chars
    → walkable_chars trie.ro v s ≡ ok out
    → (n : ℕ) × (after : List AlphaChar) × (trie_state_walkable_chars trie v s chars (pos nelm)
        ≡ ok (after, pos n))
      × Copied n nelm out chars after
unfolding trie_state_walkable_chars
trie_state_walkable_chars-Copied trie v s chars out nelm small room h =
    let n = min (length out) nelm in
    let in_room : n ≤ length chars = omega (arith, room) in
    let there : n ≤ length out = omega arith in
    (
      n,
      take n out ++ drop n chars,
      rw (h, as_i32-small n (omega (arith, small))) refl,
      record {
        most = refl;
        size = length-copied n out chars there in_room;
        copied = λ i lt. get-copied n i out chars there in_room lt;
        kept = λ i le. get-kept n i out chars there in_room le;
      },
    )
