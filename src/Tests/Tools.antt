-- ===== src/Tests/Tools.antt =====
-- trietool: numbers, a word in Latin-1, the list of the trie that holds "ab", "ac", "" and "a", and the saved file of a
-- new trie.
use libdatrie_rs.Common.{
  ℕ, zero, suc, ◌+◌, ◌-◌, ◌++◌, ltb, leb, if◌then◌else◌, ◌≡◌, ◌∙◌, refl, Bool, true, false, Option,
  none, some, List, [], ◌∷◌, length,
}
use libdatrie_rs.Common.Int.{ℤ, pos, negsuc}
use libdatrie_rs.Common.Run.{ok, out_of_fuel}
use libdatrie_rs.AlphaMap
use libdatrie_rs.Tail
use libdatrie_rs.CApi.Tries.{CTrie}
use libdatrie_rs.Trietool.Numbers.{parse_i32, parse_hex}
use libdatrie_rs.Trietool.Decode.{
  Iconv, Converted, converted, not_sufficient_output, decode, decode-endless,
}
use libdatrie_rs.Trietool.Commands.{listed, list}
use libdatrie_rs.Trietool.Listed.{list_lem}
use libdatrie_rs.Stream.BigEndian.{big_endian}
use libdatrie_rs.Types.{c_trie_data, c-IsSerial}
use libdatrie_rs.Crates.{range_set}
use libdatrie_rs.Trie
use libdatrie_rs.Trie.Defs.{is_dirty}
use libdatrie_rs.Trie.New.{new-Fresh}
use libdatrie_rs.Trie.RoundTrip.{reread}
use libdatrie_rs.Trietool.Session.{AutoSaveTrie, drop, auto_from_file}
use libdatrie_rs.Trietool.Saved.{drop-auto_from_file}
use libdatrie_rs.Tests.{one_map}
use libdatrie_rs.Tests.Files.{one_map-Ok}
use libdatrie_rs.Tests.Trees.{words_of, words_tree, words_of-Represents}

-- "-12", "+7", "3x", "1F"
numbers_read :
    (parse_i32 (45 ∷ 49 ∷ 50 ∷ []) ≡ some (negsuc 11))
    × (parse_i32 (43 ∷ 55 ∷ []) ≡ some (pos 7))
    × (parse_i32 (51 ∷ 120 ∷ []) ≡ none)
    × (parse_hex (49 ∷ 70 ∷ []) ≡ some 31)
unfolding parse_i32 parse_hex
numbers_read = (refl, refl, refl, refl)

abbrev words : CTrie
words = record { ro = words_of (λ n. some n); is_dirty_ = false }

list_lem_example :
    list 5 words
    ≡ ok (
        listed [] (pos 3)
        ∷ listed (97 ∷ []) (pos 4)
        ∷ listed (97 ∷ 98 ∷ []) (pos 1)
        ∷ listed (97 ∷ 99 ∷ []) (pos 2)
        ∷ [])
unfolding Tail.get_suffix Tail.get_data AlphaMap.map_to_alpha_char AlphaMap.trie_to_char
    libdatrie_rs.Common.Int.◌-ℤ◌ libdatrie_rs.Types.Text.ac_to_string
list_lem_example = list_lem words words_tree (words_of-Represents (λ n. some n))

-- A new trie, whose file holds two bytes of something else.
abbrev fresh_trie : AutoSaveTrie
fresh_trie = record { trie = Trie.new one_map; file = 1 ∷ 2 ∷ [] }

drop-auto_from_file_example :
    (bytes : List ℕ) × (drop big_endian range_set fresh_trie ≡ ok bytes)
    × (auto_from_file big_endian range_set (ok bytes)
        ≡ ok (record {
          trie = record {
            ro =
                reread big_endian range_set
                  (c_trie_data big_endian)
                  (c-IsSerial big_endian)
                  fresh_trie.trie.ro;
            is_dirty_ = false;
          };
          file = bytes;
        }))
unfolding is_dirty Trie.new
drop-auto_from_file_example =
    drop-auto_from_file big_endian range_set (c-IsSerial big_endian) fresh_trie
      (new-Fresh big_endian range_set (c_trie_data big_endian) (c-IsSerial big_endian) one_map
        one_map-Ok).parts
      true refl

-- From Latin-1 to UTF-8: the characters from 128 on take two bytes.
abbrev bytes_of : ℕ → List ℕ
bytes_of c = if ltb c 128 then c ∷ [] else if ltb c 192 then 194 ∷ c ∷ [] else 195 ∷ (c - 64) ∷ []

abbrev from_latin1 : List ℕ → ℕ → ℕ → List ℕ → Converted Unit
from_latin1 [] room read out = converted tt read out
from_latin1 (c ∷ cs) room read out =
    let rest = from_latin1 cs (room - length (bytes_of c)) (1 + read) (out ++ bytes_of c) in
    if leb (length (bytes_of c)) room then rest else not_sufficient_output tt read out

abbrev pub latin1 : Iconv
latin1 = record {
  State = Unit;
  reset = λ s. s;
  convert = λ s input room. from_latin1 input room 0 [];
}

-- "aé" needs one more byte than the buffer has; the byte for "a", once written, makes room for it.
decode_ends : decode latin1 (97 ∷ 233 ∷ []) 3 tt ≡ ok (tt, 97 ∷ 195 ∷ 169 ∷ [])
unfolding decode libdatrie_rs.Trietool.Decode.decode_loop
decode_ends = refl

-- "é"
decode-endless_example : decode latin1 (233 ∷ []) 1000 tt ≡ out_of_fuel
decode-endless_example = decode-endless latin1 (233 ∷ []) tt refl 1000
