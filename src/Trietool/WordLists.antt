-- ===== src/Trietool/WordLists.antt =====
-- The commands add-list and delete-list of trietool, which read words from a file.
use libdatrie_rs.Common.{
  ℕ, ◌+◌, Bool, true, false, ◌&&◌, Option, none, some, List, [], ◌∷◌, ◌==◌, leb, if◌then◌else◌,
}
use libdatrie_rs.Common.Int.{ℤ}
use libdatrie_rs.Common.Run.{Run, ok, panic, ◌>>=◌, expect}
use libdatrie_rs.Types.{TrieData}
use libdatrie_rs.Types.Text.{as_alphachar}
use libdatrie_rs.Symbols.{ArrayVec}
use libdatrie_rs.Trie.Store.{store, delete}
use libdatrie_rs.CApi.Tries.{CTrie}
use libdatrie_rs.Trietool.Numbers.{parse_i32}
use libdatrie_rs.Trietool.Utf8.{from_utf8_lossy, split_lines, trim_ascii}
use libdatrie_rs.Trietool.Decode.{Iconv, decode}
use libdatrie_rs.Trietool.Commands.{Line, failed_to_add, no_entry, number_or_error}

-- What the code uses of the crate regex: `splitn(line, 2)` by `[\t,]`, the part before the first tab
-- or comma, and what is behind it.
abbrev pub SplitPattern : Type 0
SplitPattern = List ℕ → List ℕ × Option (List ℕ)

-- `v.to_lowercase() == "utf-8"`
abbrev lowercase : ℕ → ℕ
lowercase c = if leb 65 c && leb c 90 then c + 32 else c

abbrev same_text : List ℕ → List ℕ → Bool
same_text [] [] = true
same_text (c ∷ cs) (d ∷ ds) = (lowercase c == d) && same_text cs ds
same_text _ _ = false

abbrev pub is_utf8 : List ℕ → Bool
is_utf8 name = same_text name (117 ∷ 116 ∷ 102 ∷ 45 ∷ 56 ∷ [])

abbrev pub parse_data : Option (List ℕ) → Option ℤ
parse_data none = none
parse_data (some number) = parse_i32 (from_utf8_lossy number)

module _ (iconv : Iconv) (new_iconv : List ℕ → Option iconv.State) where
  -- `Iconv::new` is `new_iconv`.
  unfoldable pub encoder_for : Option (List ℕ) → Run (Option iconv.State)
  encoder_for none = ok none
  encoder_for (some name) = elim (is_utf8 name) [
    | true ↦ ok none
    | false ↦ (elim (new_iconv name) [ none ↦ panic | some state ↦ ok (some state) ])
  ]

  -- The bytes that iconv makes are taken to be UTF-8, as the code takes them to be.
  unfoldable pub decode_key : ℕ → Option iconv.State → List ℕ → Run (Option iconv.State × List ℕ)
  decode_key fuel none key = ok (none, from_utf8_lossy key)
  decode_key fuel (some state) key = do
    (state, bytes) ← expect (decode iconv key fuel state)
    ok (some state, from_utf8_lossy bytes)

  module _ (v : ArrayVec) (t : TrieData (Option ℤ)) (fuel : ℕ) where
    -- `for line in input.split('\n') { … }`
    unfoldable pub add_lines :
        SplitPattern → Option iconv.State → CTrie → List (List ℕ) → Run (CTrie × List Line)
    add_lines split_pattern encoder trie [] = ok (trie, [])
    add_lines split_pattern encoder trie (line ∷ lines) = do
      let (key, number) = split_pattern (trim_ascii line)
      (encoder, word) ← decode_key fuel encoder key
      let value = number_or_error (parse_data number)
      (trie, stored) ← store v t trie (as_alphachar word) (some value)
      (trie, printed) ← add_lines split_pattern encoder trie lines
      ok (trie, if stored then printed else failed_to_add word value ∷ printed)

    unfoldable pub add_list :
        SplitPattern → CTrie → Run (List ℕ) → Option (List ℕ) → Run (CTrie × List Line)
    add_list split_pattern trie list_file encoding = do
      encoder ← encoder_for encoding
      bytes ← expect list_file
      add_lines split_pattern encoder trie (split_lines bytes)

    unfoldable pub delete_lines :
        Option iconv.State → CTrie → List (List ℕ) → Run (CTrie × List Line)
    delete_lines encoder trie [] = ok (trie, [])
    delete_lines encoder trie (line ∷ lines) = do
      (encoder, word) ← decode_key fuel encoder (trim_ascii line)
      (trie, deleted) ← delete v t trie (as_alphachar word)
      (trie, printed) ← delete_lines encoder trie lines
      ok (trie, if deleted then printed else no_entry word ∷ printed)

    unfoldable pub delete_list : CTrie → Run (List ℕ) → Option (List ℕ) → Run (CTrie × List Line)
    delete_list trie list_file encoding = do
      encoder ← encoder_for encoding
      bytes ← expect list_file
      delete_lines encoder trie (split_lines bytes)
