-- ===== src/Lib.antt =====
-- libdatrie-rs: tries in a double array, after the C library libdatrie.
--
-- The program's parts. An `AlphaMap` (src/alpha_map.rs) takes the characters of an alphabet, a set
-- of ranges of `u32`, to labels of one byte. A `DArray` (src/darray.rs) holds the branches of the
-- trie: the arc from node `s` with label `c` leads to cell `base[s] + c`, whose `check` is `s`; the
-- free cells are a circular list. Below a node where only one key is left (a separate node, whose
-- `base` is negative) the rest of the key and its data are a block of a `Tail` (src/tail.rs), which
-- chains its free blocks. `Symbols` (src/symbols.rs) is the set of the labels of a node. A `Trie`
-- (src/trie.rs) puts the three together: `store` walks the branches and then the tail, and makes a
-- branch in either; `delete` and `retrieve` walk the same way; `TrieState` walks by single
-- characters; `TrieIterator` goes through the separate nodes in order. src/types.rs and
-- src/types_c.rs have the scalar types and the traits by which a trie's data is serialized. The
-- program trietool (src/bin/trietool) reads a trie from its file, or makes one over the alphabet of
-- another file, runs one command on it, and writes the file again where the trie has changed.
--
-- Files.
--   Common         numbers, lists, `ℤ` with the operations of `i32`, and `Run`, the result of a call
--   Stream         `Write` and `Read`: Stream/Defs.antt; what it is for a writer and a reader to
--                  agree: Stream/Laws.antt; a big-endian order of bytes: Stream/BigEndian.antt
--   Types          src/types.rs, src/types_c.rs
--   Symbols        src/symbols.rs
--   AlphaMap       src/alpha_map.rs
--   Tail           src/tail.rs
--   DArray         src/darray.rs
--   Trie           src/trie.rs
--   CApi           the functions of the C interface, in src/trie.rs, src/alpha_map.rs, src/types.rs
--                  and src/types_c.rs
--   Trietool       src/bin/trietool
--   Crates         instances of the parameters for arrayvec, rangemap and null_terminated
--   Tests          runs, and the theorems at concrete input
-- In each, Defs (for DArray: Cells, Pool, Insert, Walk) and Serial hold the definitions, named as in
-- the source, and the other files what is proved of them. A method that takes `&mut self` returns
-- the new `self` beside its result. DArray/Forest.antt says what it is for the cells to hold a tree;
-- Trie/Model.antt, with the tails, a set of keys with data; Trie/Grow.antt, with the free lists, what
-- the operations keep. DArray/Graft.antt adds an arc to the tree, as `store` does to the cells.
--
-- A call returns a `Run`: `ok`, `err` (an `io::Error`), `panic` (an index out of bounds, `unwrap`
-- of `None`, a full vector), or `out_of_fuel`. `i32` and `i16` are `ℤ`; the sums and differences of
-- the source wrap around (`◌+ℤ◌`, `◌-ℤ◌`), as they do in a release build. `usize` is `ℕ`.
--
-- Fuel. `free_point` and `find_free`, which walk a chain of free blocks or cells, get one more than
-- there are blocks or cells: more rounds would come by one of them twice, and so never end. The
-- loops of `prune_upto`, `first_separate` and `next_separate` follow a path of the tree, which is
-- shorter than the number of cells; `find_free_base` passes each cell of the pool at most once
-- before it comes to cells that are all free.
--
-- Parameters. `ByteOrder` is what the code uses of byteorder, `ArrayVec` of arrayvec and `RangeSet`
-- of rangemap and `NulCrate` of null_terminated, each with its documented behaviour as laws;
-- Stream/BigEndian.antt and Crates.antt have an instance of each. `Captures` and `SplitPattern` are
-- what trietool uses of regex, and `Iconv` of iconv. `TrieData` is the trait of a trie's data, and
-- `IsSerial` its law.
--
-- In the C interface a pointer to an object is the object, and a pointer to a string the memory from
-- there on.
--
-- Not modelled: `save` and `trie_save`, which create a file and serialize into it, the functions of
-- the C interface that only free an object, in trietool the parsing of arguments and the text of the
-- messages, the tests, and build.rs.
pub mod Common
pub mod Stream
pub mod Types
pub mod Symbols
pub mod Tail
pub mod AlphaMap
pub mod DArray
pub mod Trie
pub mod CApi
pub mod Trietool
pub mod Crates
mod Tests
