-- ===== src/CApi.antt =====
-- The C interface: the `cffi` modules of src/trie.rs and src/alpha_map.rs, and the C helpers of
-- src/types.rs and src/types_c.rs. A pointer to an object is the object; a function that writes
-- through it returns the new one. `free` only gives memory back, and is left out.
pub mod Text
pub mod Alphabet
pub mod Tries
pub mod States
pub mod Calls
pub mod Bounds
