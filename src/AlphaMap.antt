-- ===== src/AlphaMap.antt =====
-- src/alpha_map.rs: the alphabet as a set of ranges, and the two tables between its characters and
-- the labels of the trie.
pub mod Defs
pub mod Serial
pub mod Chars
pub mod Fill
pub mod Bounds
pub mod Table
pub mod RoundTrip
pub mod AddRange
pub mod Wrong
pub mod Strings
pub use Defs.{RangeSet, Range, IsRanges, in_ranges, Before, AlphaMap, alpha_map_default}
unfoldable pub use Defs.{
  add_range, recalc_work_area, char_to_trie, char_to_trie_str, trie_to_char, map_to_alpha_char,
  map_to_trie_char,
}
unfoldable pub use Serial.{serialize, serialized_size, read}
