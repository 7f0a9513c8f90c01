-- ===== src/Trie/Store.antt =====
-- `store`, `store_if_absent`, `delete`, and the two ways in which a branch is made.
use libdatrie_rs.Common.{Bool, true, false, Option, none, some, List, [], ◌∷◌, ◌==◌, if◌then◌else◌}
use libdatrie_rs.Common.Int.{pos}
use libdatrie_rs.Common.Run.{Run, ok, panic, ◌>>=◌}
use libdatrie_rs.Types.{TrieIndex, AlphaChar, TrieChar, TrieData, trie_char_term, trie_index_error}
use libdatrie_rs.Symbols.{ArrayVec}
use libdatrie_rs.AlphaMap
use libdatrie_rs.DArray
use libdatrie_rs.DArray.{DArray}
use libdatrie_rs.Tail
use libdatrie_rs.Tail.{Tail}
use libdatrie_rs.Trie.Defs.{
  Trie, reached, missing, refused, matched, differs, unknown, walk_branches, walk_tail,
}

-- `if p[0] != TRIE_CHAR_TERM { p = &p[1..]; }`
abbrev pub skip_branch : TrieChar → List TrieChar → List TrieChar
skip_branch c cs = if c == trie_char_term then c ∷ cs else cs

-- The loop of `branch_in_tail`: the double array and the node, and what is left of the old suffix
-- and of the new one. Where a branch cannot be inserted, there is no rest.
pub record Split : Type 0 where
  pub da : DArray
  pub node : TrieIndex
  pub rests : Option (List TrieChar × List TrieChar)

module _ {D : Type 0} (v : ArrayVec) (t : TrieData D) where
  abbrev pub with_da : Trie D → DArray → Trie D
  with_da self da = record self { ro = record self.ro { da = da } }

  unfoldable pub branch_in_branch : Trie D → TrieIndex → List TrieChar → D → Run (Trie D × Bool)
  branch_in_branch self sep_node [] value = panic
  branch_in_branch self sep_node (c ∷ cs) value = do
    (da, inserted) ← DArray.insert_branch v self.ro.da sep_node c
    elim inserted [
      | none ↦ ok (with_da self da, false)
      | some new_da ↦ (do
        (tail, new_tail) ← Tail.add_suffix t self.ro.tail (some (skip_branch c cs))
        let (tail, _) = Tail.set_data tail new_tail value
        ok (
          record {
            ro = record self.ro { da = DArray.set_tail_index da new_da new_tail; tail = tail };
            is_dirty_ = true;
          },
          true,
        ))
    ]

  -- `while p[0] == suffix[0]`
  unfoldable pub split_tail : DArray → TrieIndex → List TrieChar → List TrieChar → Run Split
  split_tail da s [] suffix = panic
  split_tail da s (c ∷ p) [] = panic
  split_tail da s (c ∷ p) (d ∷ suffix) = elim (c == d) [
    | false ↦ ok (record { da = da; node = s; rests = some (c ∷ p, d ∷ suffix) })
    | true ↦ (do
      (da, inserted) ← DArray.insert_branch v da s c
      elim inserted [
        | none ↦ ok (record { da = da; node = s; rests = none })
        | some next ↦ split_tail da next p suffix
      ])
  ]

  -- `prune_upto(sep_node, s); set_tail_index(sep_node, old_tail); return false`
  unfoldable pub undo_branch :
      Trie D → DArray → TrieIndex → TrieIndex → TrieIndex → Run (Trie D × Bool)
  undo_branch self da sep_node s old_tail = do
    da ← DArray.prune_upto da sep_node s
    ok (with_da self (DArray.set_tail_index da sep_node old_tail), false)

  -- The old suffix moves to the node of its own branch, and the new one branches off beside it.
  unfoldable pub part_tail :
      Trie D
      → TrieIndex
      → TrieIndex
      → Split
      → List TrieChar
      → List TrieChar
      → D
      → Run (Trie D × Bool)
  part_tail self sep_node old_tail split [] suffix value = panic
  part_tail self sep_node old_tail split (c ∷ p) suffix value = do
    (da, inserted) ← DArray.insert_branch v split.da split.node c
    elim inserted [
      | none ↦ undo_branch self da sep_node split.node old_tail
      | some old_da ↦
          (let (tail, _) = Tail.set_suffix self.ro.tail old_tail (some (skip_branch c p)) in
            branch_in_branch
              (record self {
                ro = record self.ro { da = DArray.set_tail_index da old_da old_tail; tail = tail };
              })
              split.node suffix value)
    ]

  unfoldable pub branch_in_tail : Trie D → TrieIndex → List TrieChar → D → Run (Trie D × Bool)
  branch_in_tail self sep_node suffix value = do
    old_tail ← DArray.get_tail_index self.ro.da sep_node
    elim (Tail.get_suffix self.ro.tail old_tail) [
      | none ↦ ok (self, false)
      | some old_suffix ↦ (do
        split ← split_tail self.ro.da sep_node old_suffix suffix
        elim split.rests [
          | none ↦ undo_branch self split.da sep_node split.node old_tail
          | some (p, rest) ↦ part_tail self sep_node old_tail split p rest value
        ])
    ]

  -- At a node with no arc for the next character.
  unfoldable pub store_missing : Trie D → TrieIndex → List AlphaChar → D → Run (Trie D × Bool)
  store_missing self s p value = elim (AlphaMap.char_to_trie_str self.ro.alpha_map p) [
    | none ↦ ok (self, false)
    | some key_str ↦ branch_in_branch self s key_str value
  ]

  -- At a separate node, with the tail that stands there.
  unfoldable pub store_reached :
      Trie D → TrieIndex → List AlphaChar → D → Bool → Run (Trie D × Bool)
  store_reached self s p value is_overwrite = do
    old ← DArray.get_tail_index self.ro.da s
    suffix ← walk_tail self.ro old (pos 0) p
    elim suffix [
      | unknown ↦ ok (self, false)
      | differs ↦ (elim (AlphaMap.char_to_trie_str self.ro.alpha_map p) [
        | none ↦ ok (self, false)
        | some tail_str ↦ branch_in_tail self s tail_str value
      ])
      | matched ↦ ok (
          if is_overwrite
          then (
            record {
              ro = record self.ro { tail = (Tail.set_data self.ro.tail old value).0 };
              is_dirty_ = true;
            },
            true,
          )
          else (self, false))
    ]

  unfoldable pub store_conditionally : Trie D → List AlphaChar → D → Bool → Run (Trie D × Bool)
  store_conditionally self key value is_overwrite = do
    walked ← walk_branches self.ro (DArray.get_root self.ro.da) key
    elim walked [
      | refused ↦ ok (self, false)
      | missing s p ↦ store_missing self s p value
      | reached s p ↦ store_reached self s p value is_overwrite
    ]

  unfoldable pub store : Trie D → List AlphaChar → D → Run (Trie D × Bool)
  store self key value = store_conditionally self key value true

  unfoldable pub store_if_absent : Trie D → List AlphaChar → D → Run (Trie D × Bool)
  store_if_absent self key value = store_conditionally self key value false

  -- The key was found: its tail block and its path are given back.
  unfoldable pub delete_found : Trie D → TrieIndex → TrieIndex → Run (Trie D × Bool)
  delete_found self s old = do
    tail ← Tail.delete t self.ro.tail old
    da ← DArray.prune (DArray.set_base self.ro.da s trie_index_error) s
    ok (record { ro = record self.ro { da = da; tail = tail }; is_dirty_ = true }, true)

  unfoldable pub delete_reached : Trie D → TrieIndex → List AlphaChar → Run (Trie D × Bool)
  delete_reached self s p = do
    old ← DArray.get_tail_index self.ro.da s
    suffix ← walk_tail self.ro old (pos 0) p
    elim suffix [
      | unknown ↦ ok (self, false)
      | differs ↦ ok (self, false)
      | matched ↦ delete_found self s old
    ]

  unfoldable pub delete : Trie D → List AlphaChar → Run (Trie D × Bool)
  delete self key = do
    walked ← walk_branches self.ro (DArray.get_root self.ro.da) key
    elim walked [
      | refused ↦ ok (self, false)
      | missing s p ↦ ok (self, false)
      | reached s p ↦ delete_reached self s p
    ]
