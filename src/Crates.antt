-- ===== src/Crates.antt =====
-- Values of the parameters that stand for the crates `arrayvec`, `rangemap` and `null_terminated` (`byteorder` has its
-- own in Stream/BigEndian.antt): they show that what is assumed of each can be met.
use libdatrie_rs.Common.{
  ℕ, suc, ◌≢◌, All, ◌==◌, ◌+◌, ◌≤◌, ◌<◌, ◌≡◌, refl, ap, ◌&&◌, ◌||◌, List, [], ◌∷◌, ◌++◌, arith, ltb,
  leb, if◌then◌else◌, length, lt→ltb, le→ltb, min,
}
use Prim.Native.Nat.{max}
use libdatrie_rs.Common.Run.{Run, ok, panic}
use libdatrie_rs.Types.{TrieChar, AlphaChar}
use libdatrie_rs.CApi.Text.{NulCrate, Order, less, equal, greater}
use libdatrie_rs.Symbols.{ArrayVec, capacity, insert_at}
use libdatrie_rs.AlphaMap.{RangeSet, Range, IsRanges, in_ranges, Before}

vec_push : List TrieChar → TrieChar → Run (List TrieChar)
vec_push xs c = if ltb (length xs) capacity then ok (xs ++ (c ∷ [])) else panic

vec_insert : List TrieChar → ℕ → TrieChar → Run (List TrieChar)
vec_insert xs i c = if ltb (length xs) capacity then ok (insert_at xs i c) else panic

push_room :
    (xs : List TrieChar) (c : TrieChar) → length xs < capacity → vec_push xs c ≡ ok (xs ++ (c ∷ []))
unfolding vec_push
push_room xs c h = rw (lt→ltb (length xs) capacity h)

push_full : (xs : List TrieChar) (c : TrieChar) → capacity ≤ length xs → vec_push xs c ≡ panic
unfolding vec_push
push_full xs c h = rw (le→ltb (length xs) capacity h)

insert_room :
    (xs : List TrieChar) (i : ℕ) (c : TrieChar)
    → length xs < capacity
    → i ≤ length xs
    → vec_insert xs i c ≡ ok (insert_at xs i c)
unfolding vec_insert
insert_room xs i c h k = rw (lt→ltb (length xs) capacity h)

insert_full :
    (xs : List TrieChar) (i : ℕ) (c : TrieChar) → capacity ≤ length xs → vec_insert xs i c ≡ panic
unfolding vec_insert
insert_full xs i c h = rw (le→ltb (length xs) capacity h)

unfoldable pub array_vec : ArrayVec
unfolding vec_push vec_insert push_room push_full insert_room insert_full
array_vec = record {
  push = vec_push;
  insert = vec_insert;
  push_room = push_room;
  push_full = push_full;
  insert_room = insert_room;
  insert_full = insert_full;
}

merge : AlphaChar → AlphaChar → List Range → List Range
merge lo hi [] = (lo, hi) ∷ []
merge lo hi ((l, h) ∷ rs) =
    let later = merge lo hi rs in
    let wider = merge (min l lo) (max h hi) rs in
    if ltb (h + 1) lo
    then (l, h) ∷ later
    else if ltb (hi + 1) l
    then (lo, hi) ∷ (l, h) ∷ rs
    else wider

range_insert : List Range → Range → Run (List Range)
range_insert rs (lo, hi) = if ltb hi lo then panic else ok (merge lo hi rs)

IsRanges-weaken : (m n : ℕ) (rs : List Range) → IsRanges m rs → n ≤ m → IsRanges n rs
IsRanges-weaken m n [] h k = h
IsRanges-weaken m n ((l, r) ∷ rs) h k = (omega arith, h.1, h.2)

merge-IsRanges :
    (m lo hi : ℕ) (rs : List Range) → IsRanges m rs → m ≤ lo → lo ≤ hi → IsRanges m (merge lo hi rs)
unfolding merge
merge-IsRanges m lo hi [] h p q = omega arith
merge-IsRanges m lo hi ((l, r) ∷ rs) h p q = ground (
  arith,
  merge-IsRanges (r + 2) lo hi rs h.2,
  merge-IsRanges m (min l lo) (max r hi) rs (IsRanges-weaken (r + 2) m rs h.2 (omega arith)),
)

merge-mem :
    (m lo hi a : ℕ) (rs : List Range)
    → IsRanges m rs
    → lo ≤ hi
    → in_ranges a (merge lo hi rs) ≡ ((leb lo a && leb a hi) || in_ranges a rs)
unfolding merge
merge-mem m lo hi a [] h q = refl
merge-mem m lo hi a ((l, r) ∷ rs) h q = ground (
  arith,
  merge-mem (r + 2) lo hi a rs h.2 q,
  merge-mem (r + 2) (min l lo) (max r hi) a rs h.2 (omega arith),
)

merge-last : (m lo hi : ℕ) (rs : List Range) → Before rs lo → merge lo hi rs ≡ rs ++ ((lo, hi) ∷ [])
unfolding merge
merge-last m lo hi [] h = refl
merge-last m lo hi ((l, r) ∷ rs) h = ground (arith, merge-last m lo hi rs h.1)

range_empty : (rs : List Range) (lo hi : AlphaChar) → hi < lo → range_insert rs (lo, hi) ≡ panic
unfolding range_insert
range_empty rs lo hi h = rw (lt→ltb hi lo h)

range_ranges :
    (rs : List Range) (lo hi : AlphaChar)
    → IsRanges 0 rs
    → lo ≤ hi
    → (rs' : List Range) × (range_insert rs (lo, hi) ≡ ok rs')
      × IsRanges 0 rs'
      × ((a : AlphaChar) → in_ranges a rs' ≡ ((leb lo a && leb a hi) || in_ranges a rs))
unfolding range_insert
range_ranges rs lo hi h le = (
  merge lo hi rs,
  rw (le→ltb hi lo le),
  merge-IsRanges 0 lo hi rs h (omega arith) le,
  λ a. merge-mem 0 lo hi a rs h le,
)

range_last :
    (rs : List Range) (lo hi : AlphaChar)
    → IsRanges 0 rs
    → lo ≤ hi
    → Before rs lo
    → range_insert rs (lo, hi) ≡ ok (rs ++ ((lo, hi) ∷ []))
unfolding range_insert
range_last rs lo hi h le before = rw (le→ltb hi lo le) (ap ok (merge-last 0 lo hi rs before))

unfoldable pub range_set : RangeSet
unfolding merge range_insert range_empty range_ranges range_last merge-IsRanges merge-mem merge-last
    IsRanges-weaken
range_set = record {
  insert = range_insert;
  insert_empty = range_empty;
  insert_ranges = range_ranges;
  insert_last = range_last;
}

nul_len : List AlphaChar → ℕ
nul_len [] = 0
nul_len (c ∷ cs) = if c == 0 then 0 else suc (nul_len cs)

nul_cmp : List AlphaChar → List AlphaChar → Order
nul_cmp [] [] = equal
nul_cmp [] (d ∷ ds) = if d == 0 then equal else less
nul_cmp (c ∷ cs) [] = if c == 0 then equal else greater
nul_cmp (c ∷ cs) (d ∷ ds) =
    let rest = nul_cmp cs ds in
    if ltb c d then less else if ltb d c then greater else if c == 0 then equal else rest

nul_len-prefix :
    (str memory : List AlphaChar)
    → All (λ c. c ≢ 0) str
    → nul_len (str ++ (0 ∷ memory)) ≡ length str
unfolding nul_len
nul_len-prefix [] memory h = refl
nul_len-prefix (c ∷ str) memory h = ground (arith, h.0, nul_len-prefix str memory h.1)

unfoldable pub null_terminated : NulCrate
unfolding nul_len nul_cmp nul_len-prefix
null_terminated = record { len = nul_len; cmp = nul_cmp; len-prefix = nul_len-prefix }
