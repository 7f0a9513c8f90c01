-- ===== src/Tests/Alphabets.antt =====
-- Alphabets whose characters get a wrong label.
use libdatrie_rs.Common.{ℕ, zero, suc, ◌≡◌, refl, some, List, [], ◌∷◌, map, arith}
use libdatrie_rs.Common.Int
use libdatrie_rs.Common.Int.{pos}
use libdatrie_rs.Common.Run.{ok}
use libdatrie_rs.Types.{trie_index_max}
use libdatrie_rs.Crates.{range_set}
use libdatrie_rs.AlphaMap
use libdatrie_rs.AlphaMap.{AlphaMap, alpha_map_default}
use libdatrie_rs.AlphaMap.Wrong.{char_to_trie_str-gap, char_to_trie_str-wrap}
use libdatrie_rs.Tests.{one_map}

-- The alphabet "a" to "c" with "e" and "f".
abbrev gapped : AlphaMap
gapped = record {
  alpha_begin = 97;
  alpha_end = 102;
  ranges = (97, 99) ∷ (101, 102) ∷ [];
  alpha_to_trie_map = pos 1 ∷ pos 2 ∷ pos 3 ∷ trie_index_max ∷ pos 4 ∷ pos 5 ∷ [];
  trie_to_alpha_map = 0 ∷ 97 ∷ 98 ∷ 99 ∷ 101 ∷ 102 ∷ [];
}

gapped-added : AlphaMap.add_range range_set one_map (101, 102) ≡ ok gapped
unfolding AlphaMap.add_range AlphaMap.recalc_work_area AlphaMap.Defs.recalc_ranges
    AlphaMap.Defs.fill_ranges AlphaMap.Defs.fill_range AlphaMap.Defs.assign AlphaMap.Defs.write_at
    Int.◌+ℤ◌ range_set
gapped-added = refl

char_to_trie_str-gap_example : AlphaMap.char_to_trie_str gapped (100 ∷ []) ≡ some (255 ∷ 0 ∷ [])
unfolding range_set
char_to_trie_str-gap_example =
    char_to_trie_str-gap range_set one_map 101 102 (omega arith) ((97, 99) ∷ (101, 102) ∷ [])
      (omega arith) refl (omega arith) gapped gapped-added 100 (λ e. omega (arith, e)) (omega arith)
      (omega arith) refl

abbrev numbers_from : ℕ → ℕ → List ℕ
numbers_from from zero = []
numbers_from from (suc n) = from ∷ numbers_from (suc from) n

-- The alphabet of all bytes.
abbrev bytes : AlphaMap
bytes = record {
  alpha_begin = 0;
  alpha_end = 255;
  ranges = (0, 255) ∷ [];
  alpha_to_trie_map = map pos (numbers_from 1 256);
  trie_to_alpha_map = 0 ∷ numbers_from 0 256;
}

bytes-added : AlphaMap.add_range range_set alpha_map_default (0, 255) ≡ ok bytes
unfolding AlphaMap.add_range AlphaMap.recalc_work_area AlphaMap.Defs.recalc_ranges
    AlphaMap.Defs.fill_ranges AlphaMap.Defs.fill_range AlphaMap.Defs.assign AlphaMap.Defs.write_at
    Int.◌+ℤ◌ range_set
bytes-added = refl

char_to_trie_str-wrap_example :
    (AlphaMap.char_to_trie_str bytes (255 ∷ []) ≡ some (0 ∷ 0 ∷ []))
    × (AlphaMap.map_to_alpha_char bytes (0 ∷ 0 ∷ []) ≡ [])
unfolding range_set AlphaMap.char_to_trie_str
char_to_trie_str-wrap_example =
    char_to_trie_str-wrap range_set alpha_map_default 0 255 tt ((0, 255) ∷ []) (omega arith) refl
      (omega arith) bytes bytes-added 255 [] (0 ∷ []) (λ e. omega (arith, e)) refl refl
