-- ===== src/Trie/State.antt =====
-- `TrieState`: a position in a trie, in the double array or in a tail. The reference to the trie is
-- an argument.
use libdatrie_rs.Common.{Bool, true, false, Option, none, some, List, [], ◌∷◌, if◌then◌else◌}
use libdatrie_rs.Common.Int.{ℤ, pos, as_u8, as_usize}
use libdatrie_rs.Common.Run.{Run, ok, ◌>>=◌}
use libdatrie_rs.Types.{TrieIndex, AlphaChar, trie_char_term}
use libdatrie_rs.Symbols.{ArrayVec, iter}
use libdatrie_rs.AlphaMap
use libdatrie_rs.DArray
use libdatrie_rs.Tail
use libdatrie_rs.Trie.Defs.{RoTrie}

pub record TrieState : Type 0 where
  pub index : TrieIndex
  pub suffix_idx : ℤ
  pub is_suffix : Bool

module _ {D : Type 0} (trie : RoTrie D) where
  unfoldable pub root : TrieState
  root = record { index = DArray.get_root trie.da; suffix_idx = pos 0; is_suffix = false }

  unfoldable pub rewind : TrieState → TrieState
  rewind self = record self { index = DArray.get_root trie.da; is_suffix = false }

  -- After the arc to `next_idx` was taken.
  unfoldable pub enter : TrieState → TrieIndex → Run TrieState
  enter self next_idx = do
    separate ← DArray.is_separate trie.da next_idx
    elim separate [
      | false ↦ ok (record self { index = next_idx })
      | true ↦ (do
        t ← DArray.get_tail_index trie.da next_idx
        ok (record { index = t; suffix_idx = pos 0; is_suffix = true }))
    ]

  unfoldable pub walk : TrieState → AlphaChar → Run (TrieState × Bool)
  walk self c = elim (AlphaMap.char_to_trie trie.alpha_map c) [
    | none ↦ ok (self, false)
    | some tc ↦ (elim self.is_suffix [
      | false ↦ (do
        next ← DArray.walk trie.da self.index (as_u8 tc)
        elim next [
          | none ↦ ok (self, false)
          | some next_idx ↦ (do self ← enter self next_idx; ok (self, true))
        ])
      | true ↦ (do
        next ← Tail.walk_char trie.tail self.index self.suffix_idx (as_u8 tc)
        elim next [
          | none ↦ ok (self, false)
          | some next_idx ↦ ok (record self { suffix_idx = next_idx }, true)
        ])
    ])
  ]

  unfoldable pub is_walkable : TrieState → AlphaChar → Run Bool
  is_walkable self c = elim (AlphaMap.char_to_trie trie.alpha_map c) [
    | none ↦ ok false
    | some tc ↦ (elim self.is_suffix [
      | false ↦ ok (DArray.is_walkable trie.da self.index (as_u8 tc))
      | true ↦ Tail.is_walkable_char trie.tail self.index self.suffix_idx (as_u8 tc)
    ])
  ]

  unfoldable pub walkable_chars : ArrayVec → TrieState → Run (List AlphaChar)
  walkable_chars v self = elim self.is_suffix [
    | false ↦ (do
      symbols ← DArray.output_symbols v trie.da self.index
      ok (AlphaMap.map_to_alpha_char trie.alpha_map (iter symbols)))
    | true ↦ (do
      suffix ← DArray.unwrap (Tail.get_suffix trie.tail self.index)
      c ← Tail.index suffix (as_usize self.suffix_idx)
      ok (AlphaMap.trie_to_char trie.alpha_map c ∷ []))
  ]

  unfoldable pub is_single : TrieState → Bool
  is_single self = self.is_suffix

  unfoldable pub is_terminal : TrieState → Run Bool
  is_terminal self = is_walkable self 0

  unfoldable pub is_leaf : TrieState → Run Bool
  is_leaf self = elim (is_single self) [ true ↦ is_terminal self | false ↦ ok false ]

  unfoldable pub get_data : TrieState → Run (Option D)
  get_data self = elim self.is_suffix [
    | false ↦ (do
      next ← DArray.walk trie.da self.index trie_char_term
      elim next [
        | none ↦ ok none
        | some index ↦ (do
          separate ← DArray.is_separate trie.da index
          elim separate [
            | false ↦ ok none
            | true ↦ (do t ← DArray.get_tail_index trie.da index; ok (Tail.get_data trie.tail t))
          ])
      ])
    | true ↦ (do
      walkable ← Tail.is_walkable_char trie.tail self.index self.suffix_idx trie_char_term
      ok (if walkable then Tail.get_data trie.tail self.index else none))
  ]
