-- ===== src/Tests/Cells.antt =====
-- The circular list of free cells, at a pool with one arc from the root, and a trie with these
-- cells.
use libdatrie_rs.Common.{
  ◌≡◌, ◌≢◌, sym, subst, ◌∙◌, refl, true, false, Ascending, has, ◌≤◌, some, [], ◌∷◌, arith,
}
use libdatrie_rs.Common.Int.{ℤ, pos, negsuc}
use libdatrie_rs.Common.Int
use libdatrie_rs.Common.Run.{ok}
use libdatrie_rs.AlphaMap
use libdatrie_rs.AlphaMap.{IsRanges}
use libdatrie_rs.AlphaMap.Table.{Tables, recalc_work_area_lem}
use libdatrie_rs.Trie.Retrieve.{store-retrieve}
use libdatrie_rs.Crates.{array_vec}
use libdatrie_rs.Types.{TrieChar}
use libdatrie_rs.Symbols.{Symbols}
use libdatrie_rs.DArray.Labels.{is_arc, length-arcs, output_symbols_lem}
use libdatrie_rs.Tail
use libdatrie_rs.Tail.{Tail}
use libdatrie_rs.Tail.Free.{IsFree}
use libdatrie_rs.Tail.AddSuffix.{Added, add_suffix_lem}
use libdatrie_rs.Trie
use libdatrie_rs.Trie.{Trie}
use libdatrie_rs.Trie.Branch.{Branched, branch_in_branch_lem}
use libdatrie_rs.Tests.{numbers, one_map, one_tail}
use libdatrie_rs.DArray
use libdatrie_rs.DArray.{DaCell, DArray, cell}
use libdatrie_rs.DArray.FreeList.{IsPool, Changed, alloc_cell_lem, free_cell_lem}
use libdatrie_rs.DArray.Arcs.{insert_branch_lem}
use libdatrie_rs.DArray.Grow.{Grown, extend_pool_lem}

-- Cells 3 and 5 are free; cell 4 is the child of the root with label 1.
abbrev cells : DArray
cells = record {
  cells =
      cell (negsuc 620963075) (pos 6)
      ∷ cell (negsuc 4) (negsuc 2)
      ∷ cell (pos 3) (pos 0)
      ∷ cell (negsuc 0) (negsuc 4)
      ∷ cell (negsuc 0) (pos 2)
      ∷ cell (negsuc 2) (negsuc 0)
      ∷ [];
}

cells-IsPool : IsPool cells (3 ∷ 5 ∷ [])
cells-IsPool = record {
  links = (refl, (refl, (refl, (refl, (refl, refl)))));
  sorted = (omega arith, (omega arith, tt));
  small = omega arith;
  enough = omega arith;
}

alloc_cell_lem_example :
    (self' : DArray) × (DArray.alloc_cell cells (pos 3) ≡ ok self')
    × IsPool self' (5 ∷ [])
    × Changed cells self' (1 ∷ 3 ∷ 5 ∷ [])
alloc_cell_lem_example = alloc_cell_lem cells 3 (3 ∷ 5 ∷ []) cells-IsPool refl

free_cell_lem_example :
    (self' : DArray) × (DArray.free_cell cells (pos 4) ≡ ok self')
    × IsPool self' (3 ∷ 4 ∷ 5 ∷ [])
    × Changed cells self' (1 ∷ 4 ∷ 3 ∷ 5 ∷ [])
free_cell_lem_example =
    free_cell_lem cells 4 (3 ∷ 5 ∷ []) cells-IsPool (omega arith) (omega arith) refl

insert_branch_lem_example :
    (self' : DArray) × (DArray.insert_branch array_vec cells (pos 2) 2 ≡ ok (self', some (pos 5)))
    × IsPool self' (3 ∷ [])
    × (DArray.walk self' (pos 2) 2 ≡ ok (some (pos 5)))
    × Changed cells self' (1 ∷ 3 ∷ 5 ∷ [])
insert_branch_lem_example =
    insert_branch_lem array_vec cells 2 3 2 (3 ∷ 5 ∷ []) cells-IsPool refl refl (omega arith) refl

extend_pool_lem_example :
    (self' : DArray) × (DArray.extend_pool cells (pos 8) ≡ ok (self', true))
    × Grown cells 8 (3 ∷ 5 ∷ []) self'
extend_pool_lem_example =
    extend_pool_lem cells 8 (3 ∷ 5 ∷ []) cells-IsPool (omega arith) (omega arith)

-- A trie with these cells, and one block for the child of the root.
abbrev small_trie : Trie ℤ
small_trie = record {
  ro = record { alpha_map = one_map; da = cells; tail = one_tail };
  is_dirty_ = false;
}

one_tail-IsFree : IsFree one_tail []
one_tail-IsFree = record { chain = refl; sorted = tt; small = omega arith }

add_suffix_lem_example :
    (mid self' : Tail ℤ) × (Tail.add_suffix numbers one_tail (some (3 ∷ 0 ∷ [])) ≡ ok (mid, pos 2))
    × (Tail.set_data mid (pos 2) (pos 8) ≡ (self', true))
    × Added numbers one_tail [] (3 ∷ 0 ∷ []) (pos 8) self'
add_suffix_lem_example =
    add_suffix_lem numbers one_tail [] (3 ∷ 0 ∷ []) (pos 8) one_tail-IsFree (omega arith)

branch_in_branch_lem_example :
    (self' : Trie ℤ) × (Trie.branch_in_branch array_vec numbers small_trie
        (pos 2)
        (2 ∷ 3 ∷ 0 ∷ [])
        (pos 8)
      ≡ ok (self', true))
    × Branched numbers small_trie (3 ∷ 5 ∷ []) [] 2 5 2 (3 ∷ 0 ∷ []) (pos 8) self'
branch_in_branch_lem_example =
    branch_in_branch_lem numbers array_vec small_trie 2 3 2 (3 ∷ 0 ∷ []) (pos 8) (3 ∷ 5 ∷ []) []
      cells-IsPool refl refl (omega arith) refl one_tail-IsFree (omega arith)

root_base : DArray.get_base cells (pos 2) ≡ some (pos 3)
unfolding DArray.get_base
root_base = refl

output_symbols_lem_example :
    (s : Symbols) × (DArray.output_symbols array_vec cells (pos 2) ≡ ok s)
    × Ascending 0 s.symbols
    × ((d : TrieChar) → d ≤ 255 → has d s.symbols ≡ is_arc cells (pos 2) (pos 3) d)
output_symbols_lem_example =
    output_symbols_lem array_vec cells (pos 2) 3 root_base (omega arith) (omega arith) (omega arith)
      (omega (arith, length-arcs cells (pos 2) (pos 3) 4 0))

one_map-recalc : AlphaMap.recalc_work_area one_map ≡ ok one_map
unfolding AlphaMap.recalc_work_area AlphaMap.Defs.recalc_ranges AlphaMap.Defs.fill_ranges
    AlphaMap.Defs.fill_range AlphaMap.Defs.assign AlphaMap.Defs.write_at Int.◌+ℤ◌
one_map-recalc = refl

one_map-ranges : IsRanges 0 one_map.ranges
one_map-ranges = (omega arith, omega arith, tt)

one_map-ne : one_map.ranges ≢ []
one_map-ne e = cc

from_ok : {A : Type 0} {a b : A} → ok a ≡ ok b → a ≡ b
from_ok e = cc

one_map-Tables : Tables one_map
one_map-Tables =
    let (self', e, kept, tables) =
      recalc_work_area_lem one_map one_map-ranges (λ e. one_map-ne e) (omega arith) in
    let same : self' ≡ one_map = from_ok (sym e ∙ one_map-recalc) in subst Tables same tables

b_label : AlphaMap.char_to_trie one_map 98 ≡ some (pos 2)
unfolding AlphaMap.char_to_trie
b_label = refl

store-retrieve_example :
    (self' : Trie ℤ) × (Trie.store array_vec numbers small_trie (98 ∷ 99 ∷ 0 ∷ []) (pos 8)
      ≡ ok (self', true))
    × (Trie.retrieve self' (98 ∷ 99 ∷ 0 ∷ []) ≡ ok (some (pos 8)))
store-retrieve_example =
    store-retrieve array_vec numbers small_trie 3 2 98 (99 ∷ []) (pos 8) (3 ∷ 5 ∷ []) []
      one_map-Tables one_map-ranges (omega arith)
      ((refl, λ e. omega (arith, e)), ((refl, λ e. omega (arith, e)), tt)) cells-IsPool refl refl
      (omega arith) b_label refl one_tail-IsFree (omega arith) (omega arith)
