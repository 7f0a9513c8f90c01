-- ===== src/AlphaMap/Defs.antt =====
-- `AlphaMap` over the `rangemap` crate as a parameter, and its lookups.
use libdatrie_rs.Common.{
  ℕ, zero, suc, ◌+◌, ◌-◌, ◌≤◌, ◌<◌, ◌≡◌, Bool, false, ◌&&◌, ◌||◌, Option, none, some, List, [], ◌∷◌,
  ◌++◌, ltb, leb, ◌==◌, if◌then◌else◌, length, get_elem?, set, replicate,
}
use libdatrie_rs.Common.Int.{pos, as_usize, as_u8, eqb_ℤ, ◌+ℤ◌}
use libdatrie_rs.Common.Run.{Run, ok, panic, ◌>>=◌}
use libdatrie_rs.Types.{
  TrieIndex, AlphaChar, TrieChar, trie_char_term, trie_index_max, alpha_char_error,
}

-- `RangeInclusive<AlphaChar>`
abbrev pub Range : Type 0
Range = AlphaChar × AlphaChar

abbrev pub in_ranges : AlphaChar → List Range → Bool
in_ranges a [] = false
in_ranges a ((lo, hi) ∷ rs) = (leb lo a && leb a hi) || in_ranges a rs

-- Ascending, none empty, and no two that touch: each begins at `m` or later.
abbrev pub IsRanges : ℕ → List Range → Type 0
IsRanges m [] = Unit {0}
IsRanges m ((lo, hi) ∷ rs) = (m ≤ lo) × (lo ≤ hi) × IsRanges (hi + 2) rs

-- Every range of the list ends more than one below `lo`.
abbrev pub Before : List Range → ℕ → Type 0
Before [] lo = Unit {0}
Before ((lo, hi) ∷ rs) m = (hi + 1 < m) × Before rs m

-- `rangemap::RangeInclusiveSet`, seen as the list that `iter` gives: `insert` adds the range,
-- merges what overlaps or touches it, and panics on an empty range.
pub record RangeSet : Type 0 where
  pub insert : List Range → Range → Run (List Range)
  pub insert_empty : (rs : List Range) (lo hi : AlphaChar) → hi < lo → insert rs (lo, hi) ≡ panic
  pub insert_ranges :
      (rs : List Range) (lo hi : AlphaChar)
      → IsRanges 0 rs
      → lo ≤ hi
      → (rs' : List Range) × (insert rs (lo, hi) ≡ ok rs')
        × IsRanges 0 rs'
        × ((a : AlphaChar) → in_ranges a rs' ≡ ((leb lo a && leb a hi) || in_ranges a rs))
  pub insert_last :
      (rs : List Range) (lo hi : AlphaChar)
      → IsRanges 0 rs
      → lo ≤ hi
      → Before rs lo
      → insert rs (lo, hi) ≡ ok (rs ++ ((lo, hi) ∷ []))

pub record AlphaMap : Type 0 where
  pub alpha_begin : AlphaChar
  pub alpha_end : AlphaChar
  pub ranges : List Range
  pub alpha_to_trie_map : List TrieIndex
  pub trie_to_alpha_map : List AlphaChar

abbrev pub alpha_map_default : AlphaMap
alpha_map_default = record {
  alpha_begin = 0;
  alpha_end = 0;
  ranges = [];
  alpha_to_trie_map = [];
  trie_to_alpha_map = [];
}

-- `v[i] = a`, which panics out of bounds
unfoldable pub write_at {ℓ} : {A : Type ℓ} → List A → ℕ → A → Run (List A)
write_at xs i a = if ltb i (length xs) then ok (set xs i a) else panic

-- The variables of the loop in `recalc_work_area`.
pub record Work : Type 0 where
  pub trie_char : TrieIndex
  pub to_trie : List TrieIndex
  pub to_alpha : List AlphaChar

abbrev pub skip_term : TrieIndex → TrieIndex
skip_term c = if eqb_ℤ c (pos trie_char_term) then c +ℤ pos 1 else c

-- The body of the inner loop, for the character `a`.
unfoldable pub assign : AlphaChar → AlphaChar → Work → Run Work
assign alpha_begin a w =
    let trie_char = skip_term w.trie_char in
    do
      to_trie ← write_at w.to_trie (a - alpha_begin) trie_char
      to_alpha ← write_at w.to_alpha (as_usize trie_char) a
      ok (record { trie_char = trie_char +ℤ pos 1; to_trie = to_trie; to_alpha = to_alpha })

-- `for a in range.clone()`: `n` characters from `a` on.
unfoldable pub fill_range : AlphaChar → ℕ → AlphaChar → Work → Run Work
fill_range alpha_begin zero a w = ok w
fill_range alpha_begin (suc n) a w = assign alpha_begin a w >>= fill_range alpha_begin n (a + 1)

unfoldable pub fill_ranges : AlphaChar → List Range → Work → Run Work
fill_ranges alpha_begin [] w = ok w
fill_ranges alpha_begin ((lo, hi) ∷ rs) w =
    fill_range alpha_begin (hi + 1 - lo) lo w >>= fill_ranges alpha_begin rs

-- The sum of `*range.end() as usize - *range.start() as usize + 1`.
abbrev pub count_chars : List Range → ℕ
count_chars [] = 0
count_chars ((lo, hi) ∷ rs) = (hi - lo + 1) + count_chars rs

abbrev pub last_end : AlphaChar → List Range → AlphaChar
last_end a [] = a
last_end a ((lo, hi) ∷ rs) = last_end hi rs

unfoldable pub recalc_ranges : AlphaMap → List Range → Run AlphaMap
recalc_ranges self [] = ok (record self { alpha_to_trie_map = []; trie_to_alpha_map = [] })
recalc_ranges self ((lo, hi) ∷ rs) =
    let alpha_begin = lo in
    let chars = count_chars ((lo, hi) ∷ rs) in
    let n_trie = if ltb chars trie_char_term then trie_char_term + 1 else chars + 1 in
    let alpha_end = last_end hi rs in
    let n_alpha = alpha_end - alpha_begin + 1 in
    do
      w ← fill_ranges alpha_begin ((lo, hi) ∷ rs) (record {
        trie_char = pos 0;
        to_trie = replicate n_alpha trie_index_max;
        to_alpha = replicate n_trie alpha_char_error;
      })
      to_alpha ← write_at w.to_alpha trie_char_term 0
      ok (record {
        alpha_begin = alpha_begin;
        alpha_end = alpha_end;
        ranges = self.ranges;
        alpha_to_trie_map = w.to_trie;
        trie_to_alpha_map = to_alpha;
      })

unfoldable pub recalc_work_area : AlphaMap → Run AlphaMap
unfolding recalc_ranges
recalc_work_area self = recalc_ranges self self.ranges

unfoldable pub add_range : RangeSet → AlphaMap → Range → Run AlphaMap
add_range set_ self range = do
  ranges ← set_.insert self.ranges range
  recalc_work_area (record self { ranges = ranges })

unfoldable pub char_to_trie : AlphaMap → AlphaChar → Option TrieIndex
char_to_trie self ac =
    if ac == 0
    then some (pos trie_char_term)
    else if leb self.alpha_begin ac && leb ac self.alpha_end
    then get_elem? self.alpha_to_trie_map (ac - self.alpha_begin)
    else none

-- The items of `map_to_trie_char`
unfoldable pub map_to_trie_char : AlphaMap → List AlphaChar → List (Option TrieChar)
map_to_trie_char self [] = []
map_to_trie_char self (chr ∷ str) =
    (elim (char_to_trie self chr) [ none ↦ none | some v ↦ some (as_u8 v) ])
    ∷ map_to_trie_char self str

-- `collect` into an `Option<Vec<_>>`
abbrev pub collect : List (Option TrieChar) → Option (List TrieChar)
collect [] = some []
collect (none ∷ cs) = none
collect (some c ∷ cs) = elim (collect cs) [ none ↦ none | some rest ↦ some (c ∷ rest) ]

unfoldable pub char_to_trie_str : AlphaMap → List AlphaChar → Option (List TrieChar)
unfolding map_to_trie_char
char_to_trie_str self str = collect (map_to_trie_char self str ++ (some trie_char_term ∷ []))

unfoldable pub trie_to_char : AlphaMap → TrieChar → AlphaChar
trie_to_char self tc = elim (get_elem? self.trie_to_alpha_map tc) [
  | none ↦ alpha_char_error
  | some a ↦ a
]

-- `map_while`: up to the first terminator
unfoldable pub map_to_alpha_char : AlphaMap → List TrieChar → List AlphaChar
map_to_alpha_char self [] = []
map_to_alpha_char self (chr ∷ rest) =
    if chr == trie_char_term then [] else trie_to_char self chr ∷ map_to_alpha_char self rest
