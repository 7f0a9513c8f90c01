-- ===== src/Trie/Defs.antt =====
-- `Trie`, `ROTrie` and `retrieve`, with the walks along a key.
use libdatrie_rs.Common.{Bool, true, false, Option, none, some, List, [], ◌∷◌, ◌==◌}
use libdatrie_rs.Common.Int.{ℤ, pos, as_u8}
use libdatrie_rs.Common.Run.{Run, ok, panic, ◌>>=◌}
use libdatrie_rs.Types.{TrieIndex, AlphaChar, alpha_char_error}
use libdatrie_rs.AlphaMap
use libdatrie_rs.AlphaMap.{AlphaMap}
use libdatrie_rs.DArray
use libdatrie_rs.DArray.{DArray}
use libdatrie_rs.Tail
use libdatrie_rs.Tail.{Tail}

pub record RoTrie (D : Type 0) : Type 0 where
  pub alpha_map : AlphaMap
  pub da : DArray
  pub tail : Tail D

pub record Trie (D : Type 0) : Type 0 where
  pub ro : RoTrie D
  pub is_dirty_ : Bool

-- What the walk along the branches comes to: a separate node (or the end of the key) with what is
-- left of the key, a node with no arc for the next character, or a character that is not in the
-- alphabet.
pub data Branches : Type 0 where
  reached : TrieIndex → List AlphaChar → Branches
  missing : TrieIndex → List AlphaChar → Branches
  refused : Branches

-- What the walk along the tail comes to.
pub data Suffix : Type 0 where
  matched : Suffix
  differs : Suffix
  unknown : Suffix

module _ {D : Type 0} where
  unfoldable pub ro_new : AlphaMap → RoTrie D
  ro_new alpha_map = record {
    alpha_map = alpha_map;
    da = DArray.da_default;
    tail = Tail.tail_default;
  }

  unfoldable pub new : AlphaMap → Trie D
  new alpha_map = record { ro = ro_new alpha_map; is_dirty_ = true }

  unfoldable pub from_ro : RoTrie D → Trie D
  from_ro ro = record { ro = ro; is_dirty_ = true }

  unfoldable pub into_ro : Trie D → RoTrie D
  into_ro self = self.ro

  unfoldable pub is_dirty : Trie D → Bool
  is_dirty self = self.is_dirty_

  -- `while !self.ro.da.is_separate(s) { … }` in `store_conditionally` and `delete`. The slice
  -- `p` still begins with the 0 at which the loop breaks off, and `p[0]` panics at its end.
  unfoldable pub walk_branches : RoTrie D → TrieIndex → List AlphaChar → Run Branches
  walk_branches ro s [] = do
    separate ← DArray.is_separate ro.da s
    elim separate [ true ↦ ok (reached s []) | false ↦ panic ]
  walk_branches ro s (ch ∷ p) = do
    separate ← DArray.is_separate ro.da s
    elim separate [
      | true ↦ ok (reached s (ch ∷ p))
      | false ↦ (elim (AlphaMap.char_to_trie ro.alpha_map ch) [
        | none ↦ ok refused
        | some tc ↦ (do
          next ← DArray.walk ro.da s (as_u8 tc)
          elim next [
            | none ↦ ok (missing s (ch ∷ p))
            | some next_s ↦ (elim (ch == 0) [
              | true ↦ ok (reached next_s (ch ∷ p))
              | false ↦ walk_branches ro next_s p
            ])
          ])
      ])
    ]

  -- `for ch in p.iter().copied() { … }` in the same two functions
  unfoldable pub walk_tail : RoTrie D → TrieIndex → ℤ → List AlphaChar → Run Suffix
  walk_tail ro t suffix_idx [] = ok matched
  walk_tail ro t suffix_idx (ch ∷ p) = elim (AlphaMap.char_to_trie ro.alpha_map ch) [
    | none ↦ ok unknown
    | some tc ↦ (do
      next ← Tail.walk_char ro.tail t suffix_idx (as_u8 tc)
      elim next [
        | none ↦ ok differs
        | some next_idx ↦ (elim (ch == 0) [ true ↦ ok matched | false ↦ walk_tail ro t next_idx p ])
      ])
  ]

  -- The loops of `retrieve`: the first stops at a separate node or behind a 0, with the last
  -- character that it took, and the second walks all that is left.
  unfoldable pub retrieve_branches :
      RoTrie D → TrieIndex → AlphaChar → List AlphaChar → Run (Option (TrieIndex × List AlphaChar))
  retrieve_branches ro s last_ch [] = ok (some (s, last_ch ∷ []))
  retrieve_branches ro s last_ch (ch ∷ key) = do
    separate ← DArray.is_separate ro.da s
    elim separate [
      | true ↦ ok (some (s, ch ∷ key))
      | false ↦ (elim (AlphaMap.char_to_trie ro.alpha_map ch) [
        | none ↦ ok none
        | some tc ↦ (do
          next ← DArray.walk ro.da s (as_u8 tc)
          elim next [
            | none ↦ ok none
            | some next_s ↦ (elim (ch == 0) [
              | true ↦ ok (some (next_s, ch ∷ key))
              | false ↦ retrieve_branches ro next_s ch key
            ])
          ])
      ])
    ]

  unfoldable pub retrieve_tail : RoTrie D → TrieIndex → ℤ → List AlphaChar → Run Bool
  retrieve_tail ro t suffix_idx [] = ok true
  retrieve_tail ro t suffix_idx (ch ∷ p) = elim (AlphaMap.char_to_trie ro.alpha_map ch) [
    | none ↦ ok false
    | some tc ↦ (do
      next ← Tail.walk_char ro.tail t suffix_idx (as_u8 tc)
      elim next [ none ↦ ok false | some next_idx ↦ retrieve_tail ro t next_idx p ])
  ]

  unfoldable pub ro_retrieve : RoTrie D → List AlphaChar → Run (Option D)
  ro_retrieve self key = do
    walked ← retrieve_branches self (DArray.get_root self.da) alpha_char_error key
    elim walked [
      | none ↦ ok none
      | some (node, rest) ↦ (do
        t ← DArray.get_tail_index self.da node
        found ← retrieve_tail self t (pos 0) rest
        elim found [
          | false ↦ ok none
          | true ↦ (do d ← DArray.unwrap (Tail.get_data self.tail t); ok (some d))
        ])
    ]

  unfoldable pub retrieve : Trie D → List AlphaChar → Run (Option D)
  retrieve self key = ro_retrieve self.ro key
