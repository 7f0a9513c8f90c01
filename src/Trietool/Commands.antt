-- ===== src/Trietool/Commands.antt =====
-- The commands add, delete, query and list of trietool. A string is the list of its `char`s.
use libdatrie_rs.Common.{
  ℕ, zero, suc, ◌%◌, true, false, Option, none, some, List, [], ◌∷◌, ◌==◌, if◌then◌else◌, length,
}
use libdatrie_rs.Common.Int.{ℤ}
use libdatrie_rs.Common.Run.{Run, ok, out_of_fuel, ◌>>=◌}
use libdatrie_rs.Types.{TrieData}
use libdatrie_rs.Types.Text.{as_alphachar, ac_to_string}
use libdatrie_rs.Symbols.{ArrayVec}
use libdatrie_rs.DArray
use libdatrie_rs.Trie.Defs.{retrieve}
use libdatrie_rs.Trie.Store.{store, delete}
use libdatrie_rs.Trie.State.{root}
use libdatrie_rs.Trie.Iter.{TrieIterator, iter_new, next}
use libdatrie_rs.CApi.Text.{trie_data_error, or_error}
use libdatrie_rs.CApi.Tries.{CTrie}
use libdatrie_rs.Trietool.Numbers.{parse_i32}

-- What is printed, to the standard output or to that for errors.
pub data Line : Type 0 where
  missing_data : Line
  failed_to_add : List ℕ → ℤ → Line
  no_entry : List ℕ → Line
  data_of_key : ℤ → Line
  key_not_found : List ℕ → Line
  listed : List ℕ → ℤ → Line

abbrev pub number_or_error : Option ℤ → ℤ
number_or_error none = trie_data_error
number_or_error (some n) = n

module _ (v : ArrayVec) (t : TrieData (Option ℤ)) where
  -- `for pair in words.chunks_exact(2) { … }`
  unfoldable pub add_pairs : CTrie → List (List ℕ) → Run (CTrie × List Line)
  add_pairs trie [] = ok (trie, [])
  add_pairs trie (word ∷ []) = ok (trie, [])
  add_pairs trie (word ∷ number ∷ words) = do
    let value = number_or_error (parse_i32 number)
    (trie, stored) ← store v t trie (as_alphachar word) (some value)
    (trie, lines) ← add_pairs trie words
    ok (trie, if stored then lines else failed_to_add word value ∷ lines)

  -- `none` for the trie is `exit(1)`.
  unfoldable pub add : CTrie → List (List ℕ) → Run (Option CTrie × List Line)
  add trie words = elim (length words % 2 == 0) [
    | false ↦ ok (none, missing_data ∷ [])
    | true ↦ (do (trie, lines) ← add_pairs trie words; ok (some trie, lines))
  ]

  unfoldable pub delete_words : CTrie → List (List ℕ) → Run (CTrie × List Line)
  delete_words trie [] = ok (trie, [])
  delete_words trie (word ∷ words) = do
    (trie, deleted) ← delete v t trie (as_alphachar word)
    (trie, lines) ← delete_words trie words
    ok (trie, if deleted then lines else no_entry word ∷ lines)

unfoldable pub query : CTrie → List ℕ → Run (List Line)
query trie key = do
  out ← retrieve trie (as_alphachar key)
  ok (elim out [
    | none ↦ key_not_found key ∷ []
    | some value ↦ data_of_key (or_error (some value)) ∷ []
  ])

-- `for (key, value) in context.trie.iter() { … }`, from here on.
unfoldable pub list_from : ℕ → CTrie → TrieIterator → Run (List Line)
list_from zero trie iter = out_of_fuel
list_from (suc fuel) trie iter = do
  (iter, found) ← next trie.ro iter
  elim found [
    | none ↦ ok []
    | some (key, value) ↦ (do
      text ← DArray.unwrap (ac_to_string key)
      lines ← list_from fuel trie iter
      ok (listed text (or_error value) ∷ lines))
  ]

-- A trie that holds a tree takes one round more than it has separate cells.
unfoldable pub list : ℕ → CTrie → Run (List Line)
list fuel trie = list_from fuel trie (iter_new (root trie.ro))
