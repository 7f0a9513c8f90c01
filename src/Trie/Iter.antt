-- ===== src/Trie/Iter.antt =====
-- `TrieIterator`: the keys below a state, in the order of their labels.
use libdatrie_rs.Common.{
  ℕ, Bool, true, false, Option, none, some, List, [], ◌∷◌, ◌++◌, leb, if◌then◌else◌, length, drop,
}
use libdatrie_rs.Common.Int.{as_usize}
use libdatrie_rs.Common.Run.{Run, ok, panic, ◌>>=◌}
use libdatrie_rs.Types.{TrieIndex, AlphaChar, TrieChar}
use libdatrie_rs.AlphaMap
use libdatrie_rs.DArray
use libdatrie_rs.Tail
use libdatrie_rs.Trie.Defs.{RoTrie}
use libdatrie_rs.Trie.State.{TrieState}

pub record TrieIterator : Type 0 where
  pub root : TrieState
  pub state : Option TrieState
  pub key_ : List TrieChar

unfoldable pub iter_new : TrieState → TrieIterator
iter_new root = record { root = root; state = none; key_ = [] }

-- `&v[i..]`
abbrev pub slice_from : List TrieChar → ℕ → Run (List TrieChar)
slice_from cs i = if leb i (length cs) then ok (drop i cs) else panic

module _ {D : Type 0} (trie : RoTrie D) where
  key_at : List TrieChar → Option TrieState → Run (Option (List AlphaChar))
  key_at key none = ok none
  key_at key (some state) = elim state.is_suffix [
    | true ↦ (elim (Tail.get_suffix trie.tail state.index) [
      | none ↦ ok none
      | some suffix ↦ (do
        tail_str ← slice_from suffix (as_usize state.suffix_idx)
        ok (some (AlphaMap.map_to_alpha_char trie.alpha_map tail_str ++ (0 ∷ []))))
    ])
    | false ↦ (do
      tail_idx ← DArray.get_tail_index trie.da state.index
      elim (Tail.get_suffix trie.tail tail_idx) [
        | none ↦ ok none
        | some tail_str ↦ ok (
            some (
              AlphaMap.map_to_alpha_char trie.alpha_map key
              ++ (AlphaMap.map_to_alpha_char trie.alpha_map tail_str ++ (0 ∷ []))))
      ])
  ]

  unfoldable pub key : TrieIterator → Run (Option (List AlphaChar))
  unfolding key_at
  key self = key_at self.key_ self.state

  data_at : Option TrieState → Run (Option D)
  data_at none = ok none
  data_at (some state) = elim state.is_suffix [
    | true ↦ ok (Tail.get_data trie.tail state.index)
    | false ↦ (do
      separate ← DArray.is_separate trie.da state.index
      elim separate [
        | false ↦ ok none
        | true ↦ (do
          tail_index ← DArray.get_tail_index trie.da state.index
          ok (Tail.get_data trie.tail tail_index))
      ])
  ]

  unfoldable pub value_of : TrieIterator → Run (Option D)
  unfolding data_at
  value_of self = data_at self.state

  -- The iterator after a walk that found the node, or none.
  abbrev pub settle :
      TrieIterator → TrieState → Option TrieIndex × List TrieChar → TrieIterator × Bool
  settle self state (none, keybuff) = (record self { state = some state; key_ = keybuff }, false)
  settle self state (some sep, keybuff) =
      (record self { state = some (record state { index = sep }); key_ = keybuff }, true)

  next_at : TrieIterator → Option TrieState → Run (TrieIterator × Bool)
  next_at self (some state) = elim state.is_suffix [
    | true ↦ ok (self, false)
    | false ↦ (do
      found ← DArray.next_separate trie.da self.root.index state.index self.key_
      ok (settle self state found))
  ]
  next_at self none = elim self.root.is_suffix [
    | true ↦ ok (record self { state = some self.root }, true)
    | false ↦ (do
      found ← DArray.first_separate trie.da self.root.index self.key_
      ok (settle self self.root found))
  ]

  unfoldable pub iter_next : TrieIterator → Run (TrieIterator × Bool)
  unfolding next_at
  iter_next self = next_at self self.state

  -- `Iterator::next`
  unfoldable pub next : TrieIterator → Run (TrieIterator × Option (List AlphaChar × Option D))
  next self = do
    (self, more) ← iter_next self
    elim more [
      | false ↦ ok (self, none)
      | true ↦ (do
        found ← key self
        key ← DArray.unwrap found
        value ← value_of self
        ok (self, some (key, value)))
    ]
