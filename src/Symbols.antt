-- ===== src/Symbols.antt =====
-- src/symbols.rs: the set of the labels of a node's outgoing arcs, as an ascending vector.
pub mod Defs
pub mod Laws
pub use Defs.{ArrayVec, insert_at, capacity, Symbols, symbols_default}
unfoldable pub use Defs.{partition_point, add_fast, add, num, get, iter}
pub use Laws.*
