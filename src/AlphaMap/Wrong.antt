-- ===== src/AlphaMap/Wrong.antt =====
-- Characters that get the label of another one, after `add_range`.
use libdatrie_rs.Common.{
  ◌+◌, ◌^◌, ◌≤◌, ◌<◌, ◌≡◌, refl, sym, subst, ◌∙◌, ◌≢◌, false, some, List, [], ◌∷◌, get_elem?,
}
use libdatrie_rs.Common.Run.{ok, ok-inj}
use libdatrie_rs.Types.{AlphaChar, TrieChar, trie_char_term}
use libdatrie_rs.AlphaMap.Defs.{
  RangeSet, Range, IsRanges, in_ranges, AlphaMap, count_chars, add_range, map_to_trie_char,
  char_to_trie_str, map_to_alpha_char,
}
use libdatrie_rs.AlphaMap.Chars.{chars}
use libdatrie_rs.AlphaMap.Table.{Tables}
use libdatrie_rs.AlphaMap.AddRange.{add_range_lem}

module _ (rangemap : RangeSet) (self : AlphaMap) (lo hi : AlphaChar)
    (sorted : IsRanges 0 self.ranges) (rs : List Range) (le : lo ≤ hi)
    (run : rangemap.insert self.ranges (lo, hi) ≡ ok rs) (small : count_chars rs + 1 < 2 ^ 31)
    (self' : AlphaMap) (added : add_range rangemap self (lo, hi) ≡ ok self') where
  added-Tables : Tables self'
  added-Tables =
      let (next, e, extended) = add_range_lem rangemap self lo hi sorted rs le run small in
      subst Tables (ok-inj (sym e ∙ added)) extended.tables

  -- In the alphabet that AlphaMap::add_range leaves, of sorted ranges with labels that fit i32,
  -- char_to_trie_str does not refuse a character between two ranges, which is not one of the
  -- alphabet, but takes it for the label 255.
  pub char_to_trie_str-gap :
      (a : AlphaChar)
      → a ≢ 0
      → self'.alpha_begin ≤ a
      → a ≤ self'.alpha_end
      → in_ranges a self'.ranges ≡ false
      → char_to_trie_str self' (a ∷ []) ≡ some (255 ∷ trie_char_term ∷ [])
  unfolding char_to_trie_str map_to_trie_char
  char_to_trie_str-gap a ne low high out = rw (added-Tables.gap a ne low high out)

  -- In the alphabet that AlphaMap::add_range leaves, of sorted ranges with labels that fit i32,
  -- char_to_trie_str takes the 256th character for the terminator, as its label is 256 modulo 2^8:
  -- where a string is taken to labels, the string with this character before it is taken to the
  -- terminator and these labels, which map_to_alpha_char takes for the empty string.
  pub char_to_trie_str-wrap :
      (c : AlphaChar) (str : List AlphaChar) (labels : List TrieChar)
      → c ≢ 0
      → get_elem? (chars self'.ranges) 255 ≡ some c
      → char_to_trie_str self' str ≡ some labels
      → (char_to_trie_str self' (c ∷ str) ≡ some (trie_char_term ∷ labels))
        × (map_to_alpha_char self' (trie_char_term ∷ labels) ≡ [])
  unfolding char_to_trie_str map_to_trie_char map_to_alpha_char
  char_to_trie_str-wrap c str labels ne at e = (rw (added-Tables.to_trie 255 c at ne, e) refl, refl)
