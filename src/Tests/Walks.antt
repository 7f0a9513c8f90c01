-- ===== src/Tests/Walks.antt =====
-- A `TrieState` on the trie that holds one key.
use libdatrie_rs.Common.{◌≡◌, refl, true, false, some, [], ◌∷◌, arith}
use libdatrie_rs.Common.Int.{ℤ, pos}
use libdatrie_rs.Common.Run.{ok}
use libdatrie_rs.DArray
use libdatrie_rs.Trie
use libdatrie_rs.Trie.{TrieState}
use libdatrie_rs.Trie.State
use libdatrie_rs.Trie.Agree.{walk_all, retrieve-agree}
use libdatrie_rs.Tests.{one_trie, one_da}

seven_runs : Trie.ro_retrieve one_trie.ro (97 ∷ 98 ∷ 0 ∷ []) ≡ ok (some (pos 7))
unfolding DArray.get_base DArray.get_check DArray.get_root DArray.get_tail_index DArray.is_separate
    DArray.walk Trie.ro_retrieve libdatrie_rs.AlphaMap.Defs.char_to_trie libdatrie_rs.Common.Int.neg
    libdatrie_rs.Common.Int.◌+ℤ◌ libdatrie_rs.Common.Int.◌-ℤ◌ libdatrie_rs.Tail.Defs.get_data
    libdatrie_rs.Tail.Defs.walk_char libdatrie_rs.Trie.Defs.retrieve_branches
    libdatrie_rs.Trie.Defs.retrieve_tail libdatrie_rs.Common.Int.add_i16
seven_runs = refl

root_runs : DArray.is_separate one_da (DArray.get_root one_da) ≡ ok false
unfolding DArray.is_separate DArray.get_base DArray.get_root
root_runs = refl

retrieve-agree_example :
    (st : TrieState) × (walk_all one_trie.ro (State.root one_trie.ro) (97 ∷ 98 ∷ []) ≡ ok (some st))
    × (State.get_data one_trie.ro st ≡ ok (some (pos 7)))
retrieve-agree_example =
    retrieve-agree one_trie.ro
      (
        (omega arith, omega arith),
        (
          (omega arith, omega arith),
          (
            (omega arith, omega arith),
            ((omega arith, omega arith), ((omega arith, omega arith), tt)),
          ),
        ),
      )
      (97 ∷ 98 ∷ []) (pos 7) ((λ e. omega (arith, e)), ((λ e. omega (arith, e)), tt)) root_runs
      seven_runs
