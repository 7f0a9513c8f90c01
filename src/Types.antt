-- ===== src/Types.antt =====
-- src/types.rs and src/types_c.rs: the scalar types with their constants, and the traits by which
-- a trie's data is serialized, with their implementations.
pub mod Defs
pub mod Data
mod Laws
pub mod Text
pub use Defs.*
pub use Data.{option_data, i32_data, vec_data, c_trie_data}
pub use Laws.*
