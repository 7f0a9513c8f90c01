-- ===== src/Tests.antt =====
-- Runs on concrete input.
mod Files
mod Steps
mod Cells
mod Walks
mod Trees
mod Stores
mod Calls
mod Tools
mod Lists
mod Alphabets
mod Decisions
use libdatrie_rs.Common.{ℕ, ◌≡◌, refl, true, Option, none, some, List, [], ◌∷◌, map}
use libdatrie_rs.Common.Int.{ℤ, pos, negsuc}
use libdatrie_rs.Common.Run.{Run, ok, ◌>>=◌}
use libdatrie_rs.Stream.BigEndian.{big_endian}
use libdatrie_rs.Types.{i32_data, TrieData, AlphaChar}
use libdatrie_rs.Crates.{array_vec, range_set}
use libdatrie_rs.AlphaMap
use libdatrie_rs.AlphaMap.{AlphaMap, alpha_map_default}
use libdatrie_rs.DArray.{DaCell, DArray, cell}
use libdatrie_rs.Tail.{Tail}
use libdatrie_rs.Trie
use libdatrie_rs.Trie.{Trie}

abbrev pub numbers : TrieData ℤ
numbers = i32_data big_endian

abbrev key : List ℕ → List AlphaChar
key [] = 0 ∷ []
key (c ∷ cs) = c ∷ key cs

abbrev letters : Run AlphaMap
letters = AlphaMap.add_range range_set alpha_map_default (97, 99)

abbrev store_all : List (List ℕ × ℕ) → Trie ℤ → Run (Trie ℤ)
store_all [] t = ok t
store_all ((k, n) ∷ ks) t = do
  (t, done) ← Trie.store array_vec numbers t (key k) (pos n)
  store_all ks t

abbrev one : Run (Trie ℤ)
one = do m ← letters; store_all ((97 ∷ 98 ∷ [], 7) ∷ []) (Trie.new m)

-- What `one` is, written out.
abbrev pub one_map : AlphaMap
one_map = record {
  alpha_begin = 97;
  alpha_end = 99;
  ranges = (97, 99) ∷ [];
  alpha_to_trie_map = pos 1 ∷ pos 2 ∷ pos 3 ∷ [];
  trie_to_alpha_map = 0 ∷ 97 ∷ 98 ∷ 99 ∷ [];
}

abbrev pub one_pool : List DaCell
one_pool =
    cell (negsuc 2) (negsuc 2)
    ∷ cell (pos 3) (pos 0)
    ∷ cell (negsuc 0) (negsuc 0)
    ∷ cell (negsuc 0) (pos 2)
    ∷ []

abbrev pub one_da : DArray
one_da = record { cells = cell (negsuc 620963075) (pos 5) ∷ one_pool }

abbrev pub one_tail : Tail ℤ
one_tail = record {
  tails = record { next_free = negsuc 0; data_ = pos 7; suffix = some (2 ∷ 0 ∷ 0 ∷ []) } ∷ [];
  first_free = pos 0;
}

abbrev pub one_trie : Trie ℤ
one_trie = record {
  ro = record { alpha_map = one_map; da = one_da; tail = one_tail };
  is_dirty_ = true;
}

one_runs : one ≡ ok one_trie
unfolding AlphaMap.add_range AlphaMap.char_to_trie AlphaMap.char_to_trie_str
    AlphaMap.map_to_trie_char AlphaMap.recalc_work_area Trie.branch_in_branch Trie.branch_in_tail
    Trie.new Trie.ro_new Trie.store Trie.store_conditionally libdatrie_rs.AlphaMap.Defs.assign
    libdatrie_rs.AlphaMap.Defs.fill_range libdatrie_rs.AlphaMap.Defs.fill_ranges
    libdatrie_rs.AlphaMap.Defs.recalc_ranges libdatrie_rs.AlphaMap.Defs.write_at
    libdatrie_rs.Common.Int.add_i16 libdatrie_rs.Common.Int.neg libdatrie_rs.Common.Int.wrap_i32
    libdatrie_rs.Common.Int.◌+ℤ◌ libdatrie_rs.Common.Int.◌-ℤ◌ libdatrie_rs.DArray.Insert.claim
    libdatrie_rs.DArray.Insert.first_after libdatrie_rs.DArray.Insert.insert_first
    libdatrie_rs.DArray.Insert.insert_relocated libdatrie_rs.DArray.Insert.is_taken
    libdatrie_rs.DArray.Insert.move_children libdatrie_rs.DArray.Insert.relocate_symbol
    libdatrie_rs.DArray.Insert.relocate_symbols libdatrie_rs.DArray.Insert.search_fit
    libdatrie_rs.DArray.Pool.collect_symbols libdatrie_rs.DArray.Pool.find_child
    libdatrie_rs.DArray.Pool.find_free libdatrie_rs.DArray.Pool.grow_pool
    libdatrie_rs.DArray.Pool.new_cells libdatrie_rs.DArray.Walk.prune_loop
    libdatrie_rs.DArray.alloc_cell libdatrie_rs.DArray.check_free_cell
    libdatrie_rs.DArray.da_default libdatrie_rs.DArray.extend_pool
    libdatrie_rs.DArray.find_free_base libdatrie_rs.DArray.fit_symbols libdatrie_rs.DArray.free_cell
    libdatrie_rs.DArray.get_base libdatrie_rs.DArray.get_check libdatrie_rs.DArray.get_free_list
    libdatrie_rs.DArray.get_root libdatrie_rs.DArray.get_tail_index libdatrie_rs.DArray.has_children
    libdatrie_rs.DArray.insert_branch libdatrie_rs.DArray.is_separate
    libdatrie_rs.DArray.output_symbols libdatrie_rs.DArray.prune_upto
    libdatrie_rs.DArray.relocate_base libdatrie_rs.DArray.set_base libdatrie_rs.DArray.set_check
    libdatrie_rs.DArray.set_tail_index libdatrie_rs.DArray.walk libdatrie_rs.Symbols.Defs.add
    libdatrie_rs.Symbols.Defs.add_fast libdatrie_rs.Symbols.Defs.get libdatrie_rs.Symbols.Defs.is_at
    libdatrie_rs.Symbols.Defs.iter libdatrie_rs.Symbols.Defs.partition_point
    libdatrie_rs.Tail.Defs.alloc_block libdatrie_rs.Tail.add_suffix libdatrie_rs.Tail.get_suffix
    libdatrie_rs.Tail.index libdatrie_rs.Tail.set_data libdatrie_rs.Tail.set_suffix
    libdatrie_rs.Tail.walk_char libdatrie_rs.Trie.Defs.walk_branches
    libdatrie_rs.Trie.Defs.walk_tail libdatrie_rs.Trie.Store.part_tail
    libdatrie_rs.Trie.Store.split_tail libdatrie_rs.Trie.Store.store_missing
    libdatrie_rs.Trie.Store.store_reached libdatrie_rs.Trie.Store.undo_branch range_set
one_runs = refl

-- Keys that share a prefix, that are prefixes of one another, and the empty key.
abbrev words : List (List ℕ × ℕ)
words = (97 ∷ 98 ∷ [], 1) ∷ (97 ∷ 99 ∷ [], 2) ∷ ([], 3) ∷ (97 ∷ [], 4) ∷ []

abbrev retrieve_all : List (List ℕ) → Trie ℤ → Run (List (Option ℤ))
retrieve_all [] t = ok []
retrieve_all (k ∷ ks) t = do v ← Trie.retrieve t (key k); vs ← retrieve_all ks t; ok (v ∷ vs)

abbrev stored : Run (List (Option ℤ))
stored = do
  m ← letters
  t ← store_all words (Trie.new m)
  retrieve_all ((99 ∷ []) ∷ map (λ w. w.0) words) t

stored_runs : stored ≡ ok (none ∷ some (pos 1) ∷ some (pos 2) ∷ some (pos 3) ∷ some (pos 4) ∷ [])
unfolding AlphaMap.add_range AlphaMap.char_to_trie AlphaMap.char_to_trie_str
    AlphaMap.map_to_trie_char AlphaMap.recalc_work_area Trie.branch_in_branch Trie.branch_in_tail
    Trie.new Trie.retrieve Trie.ro_new Trie.ro_retrieve Trie.store Trie.store_conditionally
    array_vec libdatrie_rs.AlphaMap.Defs.assign libdatrie_rs.AlphaMap.Defs.fill_range
    libdatrie_rs.AlphaMap.Defs.fill_ranges libdatrie_rs.AlphaMap.Defs.recalc_ranges
    libdatrie_rs.AlphaMap.Defs.write_at libdatrie_rs.Common.Int.add_i16 libdatrie_rs.Common.Int.neg
    libdatrie_rs.Common.Int.wrap_i32 libdatrie_rs.Common.Int.◌+ℤ◌ libdatrie_rs.Common.Int.◌-ℤ◌
    libdatrie_rs.DArray.Insert.claim libdatrie_rs.DArray.Insert.first_after
    libdatrie_rs.DArray.Insert.insert_first libdatrie_rs.DArray.Insert.insert_relocated
    libdatrie_rs.DArray.Insert.is_taken libdatrie_rs.DArray.Insert.move_children
    libdatrie_rs.DArray.Insert.relocate_symbol libdatrie_rs.DArray.Insert.relocate_symbols
    libdatrie_rs.DArray.Insert.search_fit libdatrie_rs.DArray.Pool.collect_symbols
    libdatrie_rs.DArray.Pool.find_child libdatrie_rs.DArray.Pool.find_free
    libdatrie_rs.DArray.Pool.grow_pool libdatrie_rs.DArray.Pool.new_cells
    libdatrie_rs.DArray.Walk.prune_loop libdatrie_rs.DArray.alloc_cell
    libdatrie_rs.DArray.check_free_cell libdatrie_rs.DArray.da_default
    libdatrie_rs.DArray.extend_pool libdatrie_rs.DArray.find_free_base
    libdatrie_rs.DArray.fit_symbols libdatrie_rs.DArray.free_cell libdatrie_rs.DArray.get_base
    libdatrie_rs.DArray.get_check libdatrie_rs.DArray.get_free_list libdatrie_rs.DArray.get_root
    libdatrie_rs.DArray.get_tail_index libdatrie_rs.DArray.has_children
    libdatrie_rs.DArray.insert_branch libdatrie_rs.DArray.is_separate
    libdatrie_rs.DArray.output_symbols libdatrie_rs.DArray.prune_upto
    libdatrie_rs.DArray.relocate_base libdatrie_rs.DArray.set_base libdatrie_rs.DArray.set_check
    libdatrie_rs.DArray.set_tail_index libdatrie_rs.DArray.walk libdatrie_rs.Symbols.Defs.add
    libdatrie_rs.Symbols.Defs.add_fast libdatrie_rs.Symbols.Defs.get libdatrie_rs.Symbols.Defs.is_at
    libdatrie_rs.Symbols.Defs.iter libdatrie_rs.Symbols.Defs.partition_point
    libdatrie_rs.Tail.Defs.alloc_block libdatrie_rs.Tail.add_suffix libdatrie_rs.Tail.get_data
    libdatrie_rs.Tail.get_suffix libdatrie_rs.Tail.index libdatrie_rs.Tail.set_data
    libdatrie_rs.Tail.set_suffix libdatrie_rs.Tail.walk_char
    libdatrie_rs.Trie.Defs.retrieve_branches libdatrie_rs.Trie.Defs.retrieve_tail
    libdatrie_rs.Trie.Defs.walk_branches libdatrie_rs.Trie.Defs.walk_tail
    libdatrie_rs.Trie.Store.part_tail libdatrie_rs.Trie.Store.split_tail
    libdatrie_rs.Trie.Store.store_missing libdatrie_rs.Trie.Store.store_reached
    libdatrie_rs.Trie.Store.undo_branch range_set
stored_runs = refl

abbrev deleted : Run (List (Option ℤ))
deleted = do
  m ← letters
  t ← store_all words (Trie.new m)
  (t, done) ← Trie.delete array_vec numbers t (key (97 ∷ 99 ∷ []))
  retrieve_all (map (λ w. w.0) words) t

deleted_runs : deleted ≡ ok (some (pos 1) ∷ none ∷ some (pos 3) ∷ some (pos 4) ∷ [])
unfolding AlphaMap.add_range AlphaMap.char_to_trie AlphaMap.char_to_trie_str
    AlphaMap.map_to_trie_char AlphaMap.recalc_work_area Trie.branch_in_branch Trie.branch_in_tail
    Trie.delete Trie.new Trie.retrieve Trie.ro_new Trie.ro_retrieve Trie.store
    Trie.store_conditionally array_vec libdatrie_rs.AlphaMap.Defs.assign
    libdatrie_rs.AlphaMap.Defs.fill_range libdatrie_rs.AlphaMap.Defs.fill_ranges
    libdatrie_rs.AlphaMap.Defs.recalc_ranges libdatrie_rs.AlphaMap.Defs.write_at
    libdatrie_rs.Common.Int.add_i16 libdatrie_rs.Common.Int.neg libdatrie_rs.Common.Int.wrap_i32
    libdatrie_rs.Common.Int.◌+ℤ◌ libdatrie_rs.Common.Int.◌-ℤ◌ libdatrie_rs.DArray.Insert.claim
    libdatrie_rs.DArray.Insert.first_after libdatrie_rs.DArray.Insert.insert_first
    libdatrie_rs.DArray.Insert.insert_relocated libdatrie_rs.DArray.Insert.is_taken
    libdatrie_rs.DArray.Insert.move_children libdatrie_rs.DArray.Insert.relocate_symbol
    libdatrie_rs.DArray.Insert.relocate_symbols libdatrie_rs.DArray.Insert.search_fit
    libdatrie_rs.DArray.Pool.collect_symbols libdatrie_rs.DArray.Pool.find_child
    libdatrie_rs.DArray.Pool.find_free libdatrie_rs.DArray.Pool.grow_pool
    libdatrie_rs.DArray.Pool.new_cells libdatrie_rs.DArray.Walk.prune_loop
    libdatrie_rs.DArray.alloc_cell libdatrie_rs.DArray.check_free_cell
    libdatrie_rs.DArray.da_default libdatrie_rs.DArray.extend_pool
    libdatrie_rs.DArray.find_free_base libdatrie_rs.DArray.fit_symbols libdatrie_rs.DArray.free_cell
    libdatrie_rs.DArray.get_base libdatrie_rs.DArray.get_check libdatrie_rs.DArray.get_free_list
    libdatrie_rs.DArray.get_root libdatrie_rs.DArray.get_tail_index libdatrie_rs.DArray.has_children
    libdatrie_rs.DArray.insert_branch libdatrie_rs.DArray.is_separate
    libdatrie_rs.DArray.output_symbols libdatrie_rs.DArray.prune libdatrie_rs.DArray.prune_upto
    libdatrie_rs.DArray.relocate_base libdatrie_rs.DArray.set_base libdatrie_rs.DArray.set_check
    libdatrie_rs.DArray.set_tail_index libdatrie_rs.DArray.walk libdatrie_rs.Symbols.Defs.add
    libdatrie_rs.Symbols.Defs.add_fast libdatrie_rs.Symbols.Defs.get libdatrie_rs.Symbols.Defs.is_at
    libdatrie_rs.Symbols.Defs.iter libdatrie_rs.Symbols.Defs.partition_point
    libdatrie_rs.Tail.Defs.alloc_block libdatrie_rs.Tail.Defs.free_block
    libdatrie_rs.Tail.Defs.free_point libdatrie_rs.Tail.Defs.unlink libdatrie_rs.Tail.add_suffix
    libdatrie_rs.Tail.delete libdatrie_rs.Tail.get_data libdatrie_rs.Tail.get_suffix
    libdatrie_rs.Tail.index libdatrie_rs.Tail.set_data libdatrie_rs.Tail.set_suffix
    libdatrie_rs.Tail.walk_char libdatrie_rs.Trie.Defs.retrieve_branches
    libdatrie_rs.Trie.Defs.retrieve_tail libdatrie_rs.Trie.Defs.walk_branches
    libdatrie_rs.Trie.Defs.walk_tail libdatrie_rs.Trie.Store.delete_found
    libdatrie_rs.Trie.Store.delete_reached libdatrie_rs.Trie.Store.part_tail
    libdatrie_rs.Trie.Store.split_tail libdatrie_rs.Trie.Store.store_missing
    libdatrie_rs.Trie.Store.store_reached libdatrie_rs.Trie.Store.undo_branch range_set
deleted_runs = refl
