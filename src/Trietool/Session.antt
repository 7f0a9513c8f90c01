-- ===== src/Trietool/Session.antt =====
-- A run of trietool: the trie is loaded, a command is run, and the trie is saved where it is dirty.
use libdatrie_rs.Common.{ℕ, true, false, Option, none, some, List, [], ◌∷◌, ltb}
use libdatrie_rs.Common.Run.{Run, ok, ◌>>=◌, expect}
use libdatrie_rs.Stream.{vec_sink, ByteOrder}
use libdatrie_rs.Types.{c_trie_data}
use libdatrie_rs.Symbols.{ArrayVec}
use libdatrie_rs.AlphaMap
use libdatrie_rs.AlphaMap.{AlphaMap, RangeSet, alpha_map_default}
use libdatrie_rs.Trie.Defs.{new, is_dirty}
use libdatrie_rs.Trie.Serial.{serialize, from_reader}
use libdatrie_rs.CApi.Tries.{CTrie, ok_or_null}
use libdatrie_rs.Trietool.Numbers.{parse_hex}
use libdatrie_rs.Trietool.Decode.{Iconv}
use libdatrie_rs.Trietool.WordLists.{SplitPattern, add_list, delete_list}
use libdatrie_rs.Trietool.Commands.{Line, add, delete_words, query, list}

-- `AutoSaveTrie`: the trie, and what its file holds.
pub record AutoSaveTrie : Type 0 where
  pub trie : CTrie
  pub file : List ℕ

-- A file is what reading it comes to.
pub data Command : Type 0 where
  add_command : List (List ℕ) → Command
  add_list_command : Run (List ℕ) → Option (List ℕ) → Command
  delete_command : List (List ℕ) → Command
  delete_list_command : Run (List ℕ) → Option (List ℕ) → Command
  query_command : List ℕ → Command
  list_command : Command

-- What the code uses of the crate regex: the two groups of the pattern in a line.
abbrev pub Captures : Type 0
Captures = List ℕ → Option (List ℕ × List ℕ)

module _ (b : ByteOrder) (rangemap : RangeSet) where
  abbrev pub add_parsed : AlphaMap → Option ℕ → Option ℕ → Run AlphaMap
  add_parsed alpha_map none end = ok alpha_map
  add_parsed alpha_map (some begin) none = ok alpha_map
  add_parsed alpha_map (some begin) (some end) = elim (ltb end begin) [
    | true ↦ ok alpha_map
    | false ↦ AlphaMap.add_range rangemap alpha_map (begin, end)
  ]

  -- The file is opened, and its bytes are read.
  unfoldable pub auto_from_file : Run (List ℕ) → Run AutoSaveTrie
  auto_from_file opened = do
    bytes ← opened
    (trie, rest) ← from_reader b (c_trie_data b) rangemap bytes
    ok (record { trie = trie; file = bytes })

  -- The file is created, or opened with what it holds.
  unfoldable pub auto_new : Run (List ℕ) → AlphaMap → Run AutoSaveTrie
  auto_new created alpha_map = do
    bytes ← created
    ok (record { trie = new alpha_map; file = bytes })

  -- `Drop for AutoSaveTrie`: what the file holds then. `set_len(0)` and `seek` leave an empty file.
  unfoldable pub drop : AutoSaveTrie → Run (List ℕ)
  drop self = elim (is_dirty self.trie) [
    | false ↦ ok self.file
    | true ↦ (do
      (trie, file) ← expect (serialize b (c_trie_data b) self.trie vec_sink)
      ok file.written)
  ]

  module _ (captures : Captures) where
    -- Lines that are no range are passed over; the messages are left out.
    unfoldable pub load_abm : AlphaMap → List (List ℕ) → Run AlphaMap
    load_abm alpha_map [] = ok alpha_map
    load_abm alpha_map (line ∷ lines) = elim (captures line) [
      | none ↦ load_abm alpha_map lines
      | some (begin, end) ↦ (do
        alpha_map ← add_parsed alpha_map (parse_hex begin) (parse_hex end)
        load_abm alpha_map lines)
    ]

    -- The three files: `opened` and `created` the one of the trie, `abm` the lines of the alphabet.
    unfoldable pub load_trie : Run (List ℕ) → Run (List (List ℕ)) → Run (List ℕ) → Run AutoSaveTrie
    load_trie opened abm created = do
      loaded ← ok_or_null (auto_from_file opened)
      elim loaded [
        | some trie ↦ ok trie
        | none ↦ (do
          lines ← expect abm
          alpha_map ← load_abm alpha_map_default lines
          expect (auto_new created alpha_map))
      ]

  module _ (iconv : Iconv) (new_iconv : List ℕ → Option iconv.State) (split_pattern : SplitPattern)
      (v : ArrayVec) (fuel : ℕ) where
    -- The command's effect on the trie, `none` where it exits, and what it prints.
    unfoldable pub run_command : CTrie → Command → Run (Option CTrie × List Line)
    run_command trie (add_command pairs) = add v (c_trie_data b) trie pairs
    run_command trie (add_list_command list_file encoding) = do
      (trie, lines) ←
          add_list iconv new_iconv v (c_trie_data b) fuel split_pattern trie list_file encoding
      ok (some trie, lines)
    run_command trie (delete_command words) = do
      (trie, lines) ← delete_words v (c_trie_data b) trie words
      ok (some trie, lines)
    run_command trie (delete_list_command list_file encoding) = do
      (trie, lines) ← delete_list iconv new_iconv v (c_trie_data b) fuel trie list_file encoding
      ok (some trie, lines)
    run_command trie (query_command word) = do lines ← query trie word; ok (some trie, lines)
    run_command trie list_command = do lines ← list fuel trie; ok (some trie, lines)

    -- `exit` drops nothing. Where a command panics, the file is not modelled.
    unfoldable pub main :
        Captures
        → Run (List ℕ)
        → Run (List (List ℕ))
        → Run (List ℕ)
        → Command
        → Run (List ℕ × List Line)
    main captures opened abm created command = do
      loaded ← load_trie captures opened abm created
      (left, lines) ← run_command loaded.trie command
      elim left [
        | none ↦ ok (loaded.file, lines)
        | some trie ↦ (do file ← drop (record loaded { trie = trie }); ok (file, lines))
      ]
