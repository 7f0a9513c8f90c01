-- ===== src/DArray/Walk.antt =====
-- Pruning of paths, and the walk over the separate nodes in the order of their keys.
use libdatrie_rs.Common.{
  ℕ, zero, suc, true, false, ◌||◌, Option, none, some, List, [], ◌∷◌, ◌++◌, length,
}
use libdatrie_rs.Common.Int.{pos, eqb_ℤ, ltb_ℤ, as_u8, ◌+ℤ◌, ◌-ℤ◌}
use libdatrie_rs.Common.Run.{Run, ok, out_of_fuel, ◌>>=◌}
use libdatrie_rs.Types.{TrieIndex, TrieChar}
use libdatrie_rs.DArray.Cells.{DArray, get_root, get_base, get_check, unwrap}
use libdatrie_rs.DArray.Pool.{max_char, rounds_to, find_child, has_children, free_cell}

-- The loop of `prune_upto`, from the node `s`.
unfoldable pub prune_loop : ℕ → DArray → TrieIndex → TrieIndex → Run DArray
prune_loop zero self p s = out_of_fuel
prune_loop (suc fuel) self p s = elim (eqb_ℤ p s || has_children self s) [
  | true ↦ ok self
  | false ↦ (do
    parent ← unwrap (get_check self s)
    self ← free_cell self s
    prune_loop fuel self p parent)
]

-- A path to the root has fewer nodes than there are cells.
unfoldable pub prune_upto : DArray → TrieIndex → TrieIndex → Run DArray
prune_upto self p s = prune_loop (suc (length self.cells)) self p s

unfoldable pub prune : DArray → TrieIndex → Run DArray
prune self s = prune_upto self (get_root self) s

-- The result of the walks below: the node, if any, and the key buffer, which is changed either way.
abbrev pub Found : Type 0
Found = Option TrieIndex × List TrieChar

unfoldable pub first_loop : ℕ → DArray → TrieIndex → List TrieChar → Run Found
first_loop zero self root keybuff = out_of_fuel
first_loop (suc fuel) self root keybuff = elim (get_base self root) [
  | none ↦ ok (some root, keybuff)
  | some base ↦ (elim (ltb_ℤ base (pos 0)) [
    | true ↦ ok (some root, keybuff)
    | false ↦ (elim (find_child self root base (rounds_to (pos 0) (max_char self base)) (pos 0)) [
      | none ↦ ok (none, keybuff)
      | some c ↦ first_loop fuel self (base +ℤ c) (keybuff ++ (as_u8 c ∷ []))
    ])
  ])
]

unfoldable pub first_separate : DArray → TrieIndex → List TrieChar → Run Found
first_separate self root keybuff = first_loop (suc (length self.cells)) self root keybuff

-- `Vec::pop`
abbrev pub pop : List TrieChar → List TrieChar
pop [] = []
pop (c ∷ []) = []
pop (c ∷ d ∷ cs) = c ∷ pop (d ∷ cs)

-- `for c in (c + 1)..=max_c`
unfoldable pub sibling : DArray → TrieIndex → TrieIndex → TrieIndex → Option TrieIndex
sibling self parent base c = find_child self parent base (rounds_to c (max_char self base)) c

unfoldable pub next_loop : ℕ → DArray → TrieIndex → TrieIndex → List TrieChar → Run Found
next_loop zero self root sep keybuff = out_of_fuel
next_loop (suc fuel) self root sep keybuff = elim (eqb_ℤ sep root) [
  | true ↦ ok (none, keybuff)
  | false ↦ (do
    parent ← unwrap (get_check self sep)
    base ← unwrap (get_base self parent)
    let keybuff = pop keybuff
    elim (sibling self parent base (sep -ℤ base +ℤ pos 1)) [
      | some c ↦ first_separate self (base +ℤ c) (keybuff ++ (as_u8 c ∷ []))
      | none ↦ next_loop fuel self root parent keybuff
    ])
]

unfoldable pub next_separate : DArray → TrieIndex → TrieIndex → List TrieChar → Run Found
next_separate self root sep keybuff = next_loop (suc (length self.cells)) self root sep keybuff
