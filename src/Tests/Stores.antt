-- ===== src/Tests/Stores.antt =====
-- `store` of the key "aa" in the trie that holds "ab", "ac", "" and "a".
use libdatrie_rs.Common.{◌≡◌, refl, true, false, none, List, [], ◌∷◌, ◌++◌, arith}
use libdatrie_rs.Common.Int.{ℤ, pos}
use libdatrie_rs.Common.Run.{ok}
use libdatrie_rs.AlphaMap
use libdatrie_rs.Trie
use libdatrie_rs.Trie.{Trie}
use libdatrie_rs.Trie.Store.{store}
use libdatrie_rs.Trie.Compare.{Spells}
use libdatrie_rs.Trie.Grow.{Holds, Node}
use libdatrie_rs.Trie.Insert.{Stored, store-Stored}
use libdatrie_rs.Trie.Start.{store-new}
use libdatrie_rs.Trie.Pick.{eqb_list}
use libdatrie_rs.Types.{AlphaChar, TrieChar}
use libdatrie_rs.DArray
use libdatrie_rs.Crates.{array_vec}
use libdatrie_rs.Tests.{one_map, numbers}
use libdatrie_rs.Tests.Trees.{words_trie, words_tree, words-Represents, ac-Spells}

abbrev words : Trie ℤ
words = record { ro = words_trie; is_dirty_ = false }

words-Holds : Holds words words_tree (5 ∷ 6 ∷ 8 ∷ []) []
words-Holds = record {
  tree = words-Represents;
  pool = record {
    links = (refl, (refl, (refl, (refl, (refl, (refl, (refl, refl)))))));
    sorted = (omega arith, (omega arith, (omega arith, tt)));
    small = omega arith;
    enough = omega arith;
  };
  blocks = record { chain = refl; sorted = tt; small = omega arith };
  in_use = (refl, (refl, (refl, (refl, tt))));
  header = refl;
}

a-Spells : Spells one_map (97 ∷ []) (1 ∷ [])
unfolding AlphaMap.char_to_trie
a-Spells = (
  record {
    maps = refl;
    byte = refl;
    low = omega arith;
    no_term = λ e. omega (arith, e);
    no_null = λ e. omega (arith, e);
  },
  tt,
)

-- The node for the key "a".
words-Node : Node words (97 ∷ [])
words-Node = record {
  node = 4;
  base = 7;
  labels = 1 ∷ [];
  path = (record { parent = 2; base = 3; check = refl; has_base = refl; at = refl }, refl);
  spells = a-Spells;
  has_base = refl;
  positive = omega arith;
}

store-Stored_example :
    (self' : Trie ℤ) × (store array_vec numbers words (97 ∷ 97 ∷ 0 ∷ []) (pos 5) ≡ ok (self', true))
    × Stored words (97 ∷ 97 ∷ []) (1 ∷ 1 ∷ []) (pos 5) self'
unfolding words-Node
store-Stored_example =
    store-Stored array_vec numbers words words_tree (5 ∷ 6 ∷ 8 ∷ []) [] words-Holds (97 ∷ [])
      (97 ∷ []) (1 ∷ []) a-Spells words-Node refl (omega arith) (omega arith) (pos 5)

empty_trie-Node : Node {D = ℤ} (Trie.new one_map) []
unfolding Trie.new Trie.ro_new libdatrie_rs.DArray.da_default
empty_trie-Node = record {
  node = 2;
  base = 3;
  labels = [];
  path = refl;
  spells = tt;
  has_base = refl;
  positive = omega arith;
}

store-new_example :
    (self' : Trie ℤ) × (store array_vec numbers (Trie.new one_map) (97 ∷ 99 ∷ 0 ∷ []) (pos 5)
      ≡ ok (self', true))
    × Stored (Trie.new one_map) (97 ∷ 99 ∷ []) (1 ∷ 3 ∷ []) (pos 5) self'
    × ((other : List AlphaChar) (ls' : List TrieChar)
        → Spells one_map other ls'
        → eqb_list (1 ∷ 3 ∷ []) ls' ≡ false
        → Trie.retrieve self' (other ++ (0 ∷ [])) ≡ ok none)
store-new_example =
    store-new array_vec numbers one_map (97 ∷ 99 ∷ []) (1 ∷ 3 ∷ []) ac-Spells (omega arith) (pos 5)
