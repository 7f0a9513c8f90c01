-- ===== src/Tests/Calls.antt =====
-- Calls through the C interface, on a new trie and on the one that holds "ab", "ac", "" and "a".
use libdatrie_rs.Common.{
  ℕ, suc, ◌≡◌, ◌^◌, ◌<◌, ◌≤◌, has, Ascending, ◌++◌, refl, Bool, true, false, none, some, List, [],
  ◌∷◌, arith, length, if◌then◌else◌,
}
use libdatrie_rs.Common.Int.{ℤ, pos, eqb_ℤ}
use libdatrie_rs.Common.Run.{ok}
use libdatrie_rs.Types.{AlphaChar, TrieChar, c_trie_data}
use libdatrie_rs.Stream.BigEndian.{big_endian}
use libdatrie_rs.DArray
use libdatrie_rs.AlphaMap
use libdatrie_rs.Tail
use libdatrie_rs.Trie.Pick.{eqb_list}
use libdatrie_rs.Trie.Compare.{Spells}
use libdatrie_rs.Trie.State.{TrieState, walkable_chars}
use libdatrie_rs.CApi.Text.{c_true, c_false}
use libdatrie_rs.CApi.Tries.{CTrie, EnumFunc, trie_new, trie_store, trie_retrieve, trie_enumerate}
use libdatrie_rs.CApi.States.{trie_state_walkable_chars}
use libdatrie_rs.CApi.Calls.{trie_store-trie_retrieve, trie_enumerate_lem}
use libdatrie_rs.Trie.Walkable.{walkable_chars_lem}
use libdatrie_rs.DArray.Labels.{is_arc, length-arcs}
use libdatrie_rs.CApi.Bounds.{Copied, trie_state_walkable_chars-Copied}
use libdatrie_rs.Crates.{array_vec, null_terminated}
use libdatrie_rs.Tests.{one_map}
use libdatrie_rs.Tests.Trees.{words_of, words_tree, words_of-Represents, ac-Spells}

trie_store-trie_retrieve_example :
    (trie : CTrie) × (trie_store null_terminated array_vec
        (c_trie_data big_endian)
        (trie_new one_map)
        (97 ∷ 99 ∷ 0 ∷ 7 ∷ [])
        (pos 5)
      ≡ ok (trie, c_true))
    × ((memory' : List AlphaChar)
        → trie_retrieve null_terminated trie (97 ∷ 99 ∷ 0 ∷ memory') false
          ≡ ok (c_true, some (pos 5)))
    × ((other memory' : List AlphaChar) (ls' : List TrieChar)
        → Spells one_map other ls'
        → length ls' < 2 ^ 31
        → eqb_list (1 ∷ 3 ∷ []) ls' ≡ false
        → trie_retrieve null_terminated trie (other ++ (0 ∷ memory')) false ≡ ok (c_false, none))
trie_store-trie_retrieve_example =
    trie_store-trie_retrieve null_terminated array_vec (c_trie_data big_endian) one_map
      (97 ∷ 99 ∷ []) (7 ∷ []) (1 ∷ 3 ∷ []) (pos 5) ac-Spells (omega arith)

abbrev words : CTrie
words = record { ro = words_of (λ n. some n); is_dirty_ = false }

-- Keeps the data, and returns FALSE at 4.
abbrev listing : EnumFunc (List ℤ)
listing key n found = (n ∷ found, if eqb_ℤ n (pos 4) then c_false else c_true)

trie_enumerate_lem_example :
    trie_enumerate words listing 5 [] ≡ ok (pos 2 ∷ pos 1 ∷ pos 4 ∷ pos 3 ∷ [], c_true)
unfolding Tail.get_suffix Tail.get_data AlphaMap.map_to_alpha_char AlphaMap.trie_to_char
    libdatrie_rs.Common.Int.◌-ℤ◌
trie_enumerate_lem_example =
    trie_enumerate_lem words listing words_tree (words_of-Represents (λ n. some n)) []

-- At the suffix of the first block.
abbrev suffix_state : TrieState
suffix_state = record { index = pos 1; suffix_idx = pos 0; is_suffix = true }

suffix_chars : walkable_chars words.ro array_vec suffix_state ≡ ok (0 ∷ [])
unfolding walkable_chars Tail.get_suffix Tail.index AlphaMap.trie_to_char
    libdatrie_rs.Common.Int.◌-ℤ◌
suffix_chars = refl

trie_state_walkable_chars-Copied_example :
    (n : ℕ) × (after : List AlphaChar) × (trie_state_walkable_chars words array_vec suffix_state
        (8 ∷ 9 ∷ [])
        (pos 1)
      ≡ ok (after, pos n))
    × Copied n 1 (0 ∷ []) (8 ∷ 9 ∷ []) after
trie_state_walkable_chars-Copied_example =
    trie_state_walkable_chars-Copied words array_vec suffix_state (8 ∷ 9 ∷ []) (0 ∷ []) 1
      (omega arith) (omega arith) suffix_chars

abbrev root_state : TrieState
root_state = record { index = pos 2; suffix_idx = pos 0; is_suffix = false }

base_there : DArray.get_base words.ro.da (pos 2) ≡ some (pos 3)
unfolding DArray.get_base
base_there = refl

walkable_chars_lem_example :
    (ls : List TrieChar) × (walkable_chars words.ro array_vec root_state ≡ ok [])
    × Ascending 0 ls
    × ((d : TrieChar) → d ≤ 255 → has d ls ≡ is_arc words.ro.da (pos 2) (pos 3) d)
unfolding DArray.get_check libdatrie_rs.Common.Int.◌+ℤ◌
walkable_chars_lem_example =
    walkable_chars_lem words.ro array_vec root_state 3 refl base_there (omega arith) (omega arith)
      (omega arith) (omega (arith, length-arcs words.ro.da (pos 2) (pos 3) 9 0))
