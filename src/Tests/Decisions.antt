-- ===== src/Tests/Decisions.antt =====
-- `store`, `store_if_absent` and `delete` of the key "ac", which is in the trie.
use libdatrie_rs.Common.{ℕ, ◌≡◌, ◌≢◌, true, false, some, [], ◌∷◌, All, arith}
use libdatrie_rs.Common.Int.{ℤ, pos}
use libdatrie_rs.Common.Run.{ok}
use libdatrie_rs.Tail
use libdatrie_rs.Trie
use libdatrie_rs.Trie.Defs.{is_dirty, retrieve}
use libdatrie_rs.Trie.Lookup.{ro_retrieve-pick}
use libdatrie_rs.Trie.Store.{store, store_if_absent}
use libdatrie_rs.Trie.Decided.{retrieve-Decided}
use libdatrie_rs.Crates.{array_vec}
use libdatrie_rs.Tests.{numbers}
use libdatrie_rs.Tests.Trees.{words_trie, words_tree, words-Represents, ac-Spells}

abbrev words : Trie.Trie ℤ
words = record { ro = words_trie; is_dirty_ = false }

ac-plain : All {A = ℕ} (λ c. c ≢ 0) (97 ∷ 99 ∷ [])
ac-plain = ((λ e. omega (arith, e)), ((λ e. omega (arith, e)), tt))

retrieved : retrieve words (97 ∷ 99 ∷ 0 ∷ []) ≡ ok (some (pos 2))
unfolding retrieve Tail.get_suffix Tail.get_data libdatrie_rs.Common.Int.◌-ℤ◌
retrieved =
    ro_retrieve-pick words_trie words_tree words-Represents (97 ∷ 99 ∷ []) (1 ∷ 3 ∷ []) ac-Spells

retrieve-Decided_example :
    (store_if_absent array_vec numbers words (97 ∷ 99 ∷ 0 ∷ []) (pos 9) ≡ ok (words, false))
    × ((self' : Trie.Trie ℤ) × (store array_vec numbers words (97 ∷ 99 ∷ 0 ∷ []) (pos 9)
          ≡ ok (self', true))
        × (is_dirty self' ≡ true)
        × (retrieve self' (97 ∷ 99 ∷ 0 ∷ []) ≡ ok (some (pos 9))))
retrieve-Decided_example =
    retrieve-Decided array_vec numbers words (97 ∷ 99 ∷ []) ac-plain (pos 9) (some (pos 2))
      retrieved
