-- ===== src/CApi/States.antt =====
-- The C functions of src/trie.rs on a state and on an iterator, with the trie they point to.
use libdatrie_rs.Common.{min, Option, none, some, List, length, take, drop, ◌++◌}
use libdatrie_rs.Common.Int.{ℤ, as_i32, as_usize}
use libdatrie_rs.Common.{◌%◌, ◌^◌}
use libdatrie_rs.Common.Run.{Run, ok, ◌>>=◌}
use libdatrie_rs.Types.{AlphaChar}
use libdatrie_rs.Symbols.{ArrayVec}
use libdatrie_rs.Trie.State.{
  TrieState, root, rewind, walk, is_walkable, walkable_chars, is_single, get_data,
}
use libdatrie_rs.Trie.Iter.{TrieIterator, iter_new, iter_next, key, value_of}
use libdatrie_rs.CApi.Text.{CBool, from_bool, or_error, trie_data_error}
use libdatrie_rs.CApi.Tries.{CTrie}

module _ (trie : CTrie) where
  unfoldable pub trie_root : TrieState
  trie_root = root trie.ro

  unfoldable pub trie_state_copy : TrieState → TrieState → TrieState
  trie_state_copy dst src = src

  unfoldable pub trie_state_clone : TrieState → TrieState
  trie_state_clone s = s

  unfoldable pub trie_state_rewind : TrieState → TrieState
  trie_state_rewind s = rewind trie.ro s

  unfoldable pub trie_state_walk : TrieState → AlphaChar → Run (TrieState × CBool)
  trie_state_walk s c = do (s, done) ← walk trie.ro s c; ok (s, from_bool done)

  unfoldable pub trie_state_is_walkable : TrieState → AlphaChar → Run CBool
  trie_state_is_walkable s c = do can ← is_walkable trie.ro s c; ok (from_bool can)

  -- `chars` is the memory of the caller, from the pointer on, of which the first `chars_nelm as usize`
  -- characters are the slice that may be written.
  unfoldable pub trie_state_walkable_chars :
      ArrayVec → TrieState → List AlphaChar → ℤ → Run (List AlphaChar × ℤ)
  trie_state_walkable_chars v s chars chars_nelm = do
    out ← walkable_chars trie.ro v s
    let copy_len = min (length out) (as_usize chars_nelm)
    ok (take copy_len out ++ drop copy_len chars, as_i32 (copy_len % 2 ^ 32))

  unfoldable pub trie_state_is_single : TrieState → CBool
  trie_state_is_single s = from_bool (is_single trie.ro s)

  -- `none` is the null pointer.
  unfoldable pub trie_state_get_data : Option TrieState → Run ℤ
  trie_state_get_data none = ok trie_data_error
  trie_state_get_data (some state) = do found ← get_data trie.ro state; ok (or_error found)

  unfoldable pub trie_iterator_new : TrieState → TrieIterator
  trie_iterator_new s = iter_new s

  unfoldable pub trie_iterator_next : TrieIterator → Run (TrieIterator × CBool)
  trie_iterator_next iter = do (iter, more) ← iter_next trie.ro iter; ok (iter, from_bool more)

  unfoldable pub trie_iterator_get_key : TrieIterator → Run (Option (List AlphaChar))
  trie_iterator_get_key iter = key trie.ro iter

  unfoldable pub trie_iterator_get_data : TrieIterator → Run ℤ
  trie_iterator_get_data iter = do found ← value_of trie.ro iter; ok (or_error found)
