-- ===== src/DArray.antt =====
-- src/darray.rs: the double array. Cell 1 heads a circular, doubly linked list of the free cells,
-- whose links are the negated indices in `base` (previous) and `check` (next); cell 2 is the root.
pub mod Cells
pub mod Pool
pub mod Insert
pub mod Walk
pub mod Serial
pub mod RoundTrip
pub mod Fields
pub mod Links
pub mod Place
pub mod FreeList
pub mod Arcs
pub mod Extend
pub mod Grow
pub mod Labels
pub mod Kinds
pub mod Children
pub mod Forest
pub mod Graft
pub mod GraftArcs
pub mod Paths
pub mod GraftEntries
pub mod GraftPool
pub mod GrowArcs
pub mod GrowInsert
pub mod Leads
pub mod Descent
pub mod Ascent
pub mod Order
pub use Cells.{DaCell, DArray, cell}
unfoldable pub use Cells.{
  da_default, get_free_list, get_root, get_base, set_base, get_check, set_check, walk, is_separate,
  is_walkable, get_tail_index, set_tail_index, unwrap,
}
unfoldable pub use Pool.{
  extend_pool, alloc_cell, free_cell, has_children, output_symbols, check_free_cell,
}
unfoldable pub use Insert.{fit_symbols, find_free_base, relocate_base, insert_branch}
unfoldable pub use Walk.{prune, prune_upto, first_separate, next_separate}
unfoldable pub use Serial.{serialize, serialized_size, read}
