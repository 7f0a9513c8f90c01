-- ===== src/AlphaMap/Table.antt =====
-- The tables of an alphabet: what `recalc_work_area` leaves, for the lookups.
use libdatrie_rs.Common.{
  ℕ, suc, ◌+◌, ◌-◌, ◌^◌, ◌≤◌, ◌<◌, ◌≡◌, refl, sym, subst, ap, ◌∙◌, ◌≢◌, ◌⊎◌, false, none, some,
  List, [], ◌∷◌, arith, length, get_elem?, set, replicate, lt→ltb, le→ltb, length-replicate,
  get_elem?-set_self, get_elem?-set_ne,
}
use libdatrie_rs.Common.Int.{pos}
use libdatrie_rs.Common.Run.{ok}
use libdatrie_rs.Types.{TrieIndex, AlphaChar, trie_index_max, alpha_char_error}
use libdatrie_rs.AlphaMap.Defs.{
  Range, IsRanges, in_ranges, AlphaMap, Work, write_at, fill_ranges, count_chars, last_end,
  recalc_ranges, recalc_work_area, char_to_trie, trie_to_char,
}
use libdatrie_rs.AlphaMap.Chars.{
  chars, fill_list, fill_ranges-chars, length-chars, has-chars, Ascending-chars,
}
use libdatrie_rs.AlphaMap.Fill.{work, Filled, assign_first, fill_list_lem}
use libdatrie_rs.AlphaMap.Bounds.{All-last_end, All-inside, get-replicate, All-get, Ascending-get}

-- The i-th character of the ranges and the label i + 1 stand for one another; a character between
-- two ranges is mapped to `TRIE_INDEX_MAX`, and one outside of all to nothing.
pub record Tables (self : AlphaMap) : Type 0 where
  pub to_trie :
      (i c : ℕ)
      → get_elem? (chars self.ranges) i ≡ some c
      → c ≢ 0
      → char_to_trie self c ≡ some (pos (suc i))
  pub to_char : (i c : ℕ) → get_elem? (chars self.ranges) i ≡ some c → trie_to_char self (suc i) ≡ c
  pub gap :
      (a : AlphaChar)
      → a ≢ 0
      → self.alpha_begin ≤ a
      → a ≤ self.alpha_end
      → in_ranges a self.ranges ≡ false
      → char_to_trie self a ≡ some trie_index_max
  pub outside :
      (a : AlphaChar)
      → a ≢ 0
      → (a < self.alpha_begin) ⊎ (self.alpha_end < a)
      → char_to_trie self a ≡ none
  pub term : trie_to_char self 0 ≡ 0

fill_first :
    (lo hi : ℕ) (rs : List Range) (to_trie : List TrieIndex) (to_alpha : List AlphaChar)
    → lo ≤ hi
    → fill_ranges lo ((lo, hi) ∷ rs) (work (pos 0) to_trie to_alpha)
      ≡ fill_list lo (chars ((lo, hi) ∷ rs)) (work (pos 1) to_trie to_alpha)
unfolding fill_list
fill_first lo hi rs to_trie to_alpha le =
    let some_left : hi + 1 - lo ≡ suc (hi - lo) = omega arith in
    fill_ranges-chars lo ((lo, hi) ∷ rs) (work (pos 0) to_trie to_alpha)
    ∙ rw (some_left, assign_first lo lo to_trie to_alpha)

lookup_inside :
    (self : AlphaMap) (a : AlphaChar)
    → a ≢ 0
    → self.alpha_begin ≤ a
    → a ≤ self.alpha_end
    → char_to_trie self a ≡ get_elem? self.alpha_to_trie_map (a - self.alpha_begin)
unfolding char_to_trie
lookup_inside self a ne p q = ground arith

lookup_outside :
    (self : AlphaMap) (a : AlphaChar)
    → a ≢ 0
    → (a < self.alpha_begin) ⊎ (self.alpha_end < a)
    → char_to_trie self a ≡ none
unfolding char_to_trie
lookup_outside self a ne out = ground arith

to_char-some :
    (self : AlphaMap) (i c : ℕ)
    → get_elem? self.trie_to_alpha_map i ≡ some c
    → trie_to_char self i ≡ c
unfolding trie_to_char
to_char-some self i c e = rw (e, trie_to_char)

module _ (lo hi : AlphaChar) (rs : List Range) (v w : Work) (cs_ok : lo ≤ hi)
    (h : IsRanges (hi + 2) rs) where
  abbrev all_ranges : List Range
  all_ranges = (lo, hi) ∷ rs

  -- The map that the loop's result `w` is made into.
  abbrev filled_map : AlphaMap
  filled_map = record {
    alpha_begin = lo;
    alpha_end = last_end hi rs;
    ranges = all_ranges;
    alpha_to_trie_map = w.to_trie;
    trie_to_alpha_map = set w.to_alpha 0 0;
  }

  Filled-Tables :
      v.to_trie ≡ replicate (last_end hi rs - lo + 1) trie_index_max
      → 0 < length w.to_alpha
      → Filled lo 1 (chars all_ranges) v w
      → Tables filled_map
  Filled-Tables ev room f = record {
    to_trie = λ i c e ne.
        lookup_inside filled_map c ne
          (Ascending-get lo (chars all_ranges) i c
            (Ascending-chars lo all_ranges (omega arith, cs_ok, h)) e)
          (All-get (last_end hi rs) (chars all_ranges) i c (All-last_end lo hi rs cs_ok h) e)
        ∙ (f.hit i c e).0
        ∙ ap (λ n. some (pos n)) (omega arith);
    to_char = λ i c e. to_char-some filled_map (suc i) c (
        get_elem?-set_ne w.to_alpha 0 (suc i) 0 (omega arith)
        ∙ subst (λ n. get_elem? w.to_alpha n ≡ some c) (omega arith) (f.hit i c e).1);
    gap = λ a ne p q out.
        lookup_inside filled_map a ne p q
        ∙ f.miss_trie a p (has-chars lo a all_ranges (omega arith, cs_ok, h) ∙ out)
        ∙ ap (λ xs. get_elem? xs (a - lo)) ev
        ∙ get-replicate _ (a - lo) trie_index_max (omega arith);
    outside = λ a ne out. lookup_outside filled_map a ne out;
    term = to_char-some filled_map 0 0 (get_elem?-set_self w.to_alpha 0 0 room);
  }

write_at-zero : (xs : List AlphaChar) → 0 < length xs → write_at xs 0 0 ≡ ok (set xs 0 0)
unfolding write_at
write_at-zero xs h = rw (lt→ltb 0 (length xs) h)

recalc_run :
    (self : AlphaMap) (lo hi : AlphaChar) (rs : List Range) (w : Work)
    → self.ranges ≡ (lo, hi) ∷ rs
    → fill_ranges lo ((lo, hi) ∷ rs) (
        work
          (pos 0)
          (replicate (last_end hi rs - lo + 1) trie_index_max)
          (replicate (count_chars ((lo, hi) ∷ rs) + 1) alpha_char_error))
      ≡ ok w
    → 0 < length w.to_alpha
    → recalc_ranges self ((lo, hi) ∷ rs)
      ≡ ok (record {
        alpha_begin = lo;
        alpha_end = last_end hi rs;
        ranges = (lo, hi) ∷ rs;
        alpha_to_trie_map = w.to_trie;
        trie_to_alpha_map = set w.to_alpha 0 0;
      })
unfolding recalc_ranges
recalc_run self lo hi rs w e run room =
    rw (le→ltb (count_chars ((lo, hi) ∷ rs)) 0 (omega arith), run, write_at-zero w.to_alpha room, e)

recalc_ranges_lem :
    (self : AlphaMap) (lo hi : AlphaChar) (rs : List Range)
    → self.ranges ≡ (lo, hi) ∷ rs
    → lo ≤ hi
    → IsRanges (hi + 2) rs
    → count_chars ((lo, hi) ∷ rs) + 1 < 2 ^ 31
    → (self' : AlphaMap) × (recalc_ranges self ((lo, hi) ∷ rs) ≡ ok self')
      × (self'.ranges ≡ self.ranges)
      × Tables self'
recalc_ranges_lem self lo hi rs e le h small =
    let all_chars : List ℕ = chars ((lo, hi) ∷ rs) in
    let n : ℕ = count_chars ((lo, hi) ∷ rs) in
    let to_trie : List TrieIndex = replicate (last_end hi rs - lo + 1) trie_index_max in
    let to_alpha : List AlphaChar = replicate (n + 1) alpha_char_error in
    let count : length all_chars ≡ n = length-chars lo ((lo, hi) ∷ rs) (omega arith, le, h) in
    let (w, run, f) =
      fill_list_lem lo 1 lo all_chars to_trie to_alpha (omega arith) (omega arith)
        (Ascending-chars lo ((lo, hi) ∷ rs) (omega arith, le, h))
        (All-inside lo (last_end hi rs) (length to_trie) all_chars (length-replicate _ _)
          (All-last_end lo hi rs le h))
        (rw (count, length-replicate (n + 1) alpha_char_error) (omega arith))
        (rw count (omega arith)) in
    let room : 0 < length w.to_alpha =
      rw (f.length_to_alpha, length-replicate (n + 1) alpha_char_error) (omega arith) in
    (
      filled_map lo hi rs (work (pos 1) to_trie to_alpha) w le h,
      recalc_run self lo hi rs w e (fill_first lo hi rs to_trie to_alpha le ∙ run) room,
      sym e,
      Filled-Tables lo hi rs (work (pos 1) to_trie to_alpha) w le h refl room f,
    )

-- On an alphabet that is not empty `recalc_work_area` does not panic, keeps the ranges, and fills
-- the tables.
pub recalc_work_area_lem :
    (self : AlphaMap)
    → IsRanges 0 self.ranges
    → self.ranges ≢ []
    → count_chars self.ranges + 1 < 2 ^ 31
    → (self' : AlphaMap) × (recalc_work_area self ≡ ok self')
      × (self'.ranges ≡ self.ranges)
      × Tables self'
unfolding recalc_work_area
recalc_work_area_lem self h ne small = go self.ranges refl h ne small
  where
    go :
        (rs : List Range)
        → self.ranges ≡ rs
        → IsRanges 0 rs
        → rs ≢ []
        → count_chars rs + 1 < 2 ^ 31
        → (self' : AlphaMap) × (recalc_ranges self rs ≡ ok self')
          × (self'.ranges ≡ self.ranges)
          × Tables self'
    go [] e h ne small = absurd (ne refl)
    go ((lo, hi) ∷ rs) e h ne small = recalc_ranges_lem self lo hi rs e h.1 h.2 small
