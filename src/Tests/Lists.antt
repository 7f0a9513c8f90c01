-- ===== src/Tests/Lists.antt =====
-- trietool: UTF-8, and a file of words for the command add-list.
use libdatrie_rs.Common.{◌≡◌, refl, true, false, none, some, List, [], ◌∷◌}
use libdatrie_rs.Common.Run.{ok, ◌>>=◌}
use libdatrie_rs.Types.{c_trie_data}
use libdatrie_rs.Stream.BigEndian.{big_endian}
use libdatrie_rs.Trie
use libdatrie_rs.Crates.{array_vec}
use libdatrie_rs.Trietool.Utf8.{from_utf8_lossy, split_lines, trim_ascii}
use libdatrie_rs.Trietool.Commands.{add}
use libdatrie_rs.Trietool.WordLists.{SplitPattern, add_list, encoder_for}
use libdatrie_rs.Trietool.AddList.{is_separator, Splits, Entry, IsEntry, file_of, add_list-add}
use libdatrie_rs.Tests.{one_map}
use libdatrie_rs.Tests.Tools.{latin1}

-- "aé€😀", bytes that are no character, and the first half of one.
utf8_read :
    (from_utf8_lossy (97 ∷ 195 ∷ 169 ∷ 226 ∷ 130 ∷ 172 ∷ 240 ∷ 159 ∷ 152 ∷ 128 ∷ [])
      ≡ 97 ∷ 233 ∷ 8364 ∷ 128512 ∷ [])
    × (from_utf8_lossy (255 ∷ 97 ∷ 224 ∷ 128 ∷ 226 ∷ 130 ∷ [])
        ≡ 65533 ∷ 97 ∷ 65533 ∷ 65533 ∷ 65533 ∷ [])
unfolding from_utf8_lossy
utf8_read = (refl, refl)

-- " a \n\nb"
lines_read :
    split_lines (32 ∷ 97 ∷ 32 ∷ 10 ∷ 10 ∷ 98 ∷ []) ≡ (32 ∷ 97 ∷ 32 ∷ []) ∷ [] ∷ (98 ∷ []) ∷ []
unfolding split_lines
lines_read = refl

line_trimmed : trim_ascii (32 ∷ 97 ∷ 32 ∷ 98 ∷ 13 ∷ []) ≡ 97 ∷ 32 ∷ 98 ∷ []
unfolding trim_ascii
line_trimmed = refl

abbrev by_separator : SplitPattern
by_separator [] = ([], none)
by_separator (c ∷ cs) = elim (is_separator c) [
  | true ↦ ([], some cs)
  | false ↦ (let (key, number) = by_separator cs in (c ∷ key, number))
]

by_separator-Splits : Splits by_separator
by_separator-Splits [] number c plain separates = rw (by_separator, separates) refl
by_separator-Splits (d ∷ key) number c plain separates =
    rw (by_separator, plain.0, by_separator-Splits key number c plain.1 separates) refl

-- " ac", a tab and "5"; "é", a comma and "-1", with a carriage return
abbrev ac : Entry
ac = record { left = 32 ∷ []; key = 97 ∷ 99 ∷ []; separator = 9; number = 53 ∷ []; right = [] }

abbrev e_acute : Entry
e_acute = record {
  left = [];
  key = 195 ∷ 169 ∷ [];
  separator = 44;
  number = 45 ∷ 49 ∷ [];
  right = 13 ∷ [];
}

abbrev entries : List Entry
entries = ac ∷ e_acute ∷ []

first_line : IsEntry ac
first_line = record {
  plain = (refl, (refl, tt));
  separates = refl;
  one_line = (refl, (refl, (refl, (refl, (refl, tt)))));
  before = (refl, tt);
  first = refl;
  last = refl;
  after = tt;
}

second_line : IsEntry e_acute
second_line = record {
  plain = (refl, (refl, tt));
  separates = refl;
  one_line = (refl, (refl, (refl, (refl, (refl, (refl, tt))))));
  before = tt;
  first = refl;
  last = refl;
  after = (refl, tt);
}

add_list-add_example :
    (add_list latin1
        (λ name. none)
        array_vec
        (c_trie_data big_endian)
        7
        by_separator
        (Trie.new one_map)
        (ok (file_of entries))
        (some (85 ∷ 84 ∷ 70 ∷ 45 ∷ 56 ∷ []))
      >>= λ r. ok (some r.0, r.1))
    ≡ add array_vec
        (c_trie_data big_endian)
        (Trie.new one_map)
        ((97 ∷ 99 ∷ []) ∷ (53 ∷ []) ∷ (233 ∷ []) ∷ (45 ∷ 49 ∷ []) ∷ [])
unfolding from_utf8_lossy encoder_for
add_list-add_example =
    add_list-add latin1 (λ name. none) array_vec (c_trie_data big_endian) 7 by_separator
      by_separator-Splits entries (first_line, (second_line, tt))
      (some (85 ∷ 84 ∷ 70 ∷ 45 ∷ 56 ∷ [])) refl (Trie.new one_map)
