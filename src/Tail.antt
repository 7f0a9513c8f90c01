-- ===== src/Tail.antt =====
-- src/tail.rs: the suffixes of the keys, in blocks of which the free ones are chained by
-- `next_free` in ascending order.
pub mod Defs
pub mod Serial
pub mod Free
pub mod FreeBlock
pub mod AllocBlock
pub mod AddSuffix
pub mod SetData
pub mod Suffixes
pub mod RoundTrip
pub use Defs.{TailBlock, Tail, tail_default, block_default}
unfoldable pub use Defs.{
  index, get_suffix, set_suffix, add_suffix, get_data, set_data, delete, walk_str, walk_char,
  is_walkable_char,
}
unfoldable pub use Serial.{serialize, serialized_size, read}
