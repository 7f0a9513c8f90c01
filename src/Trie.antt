-- ===== src/Trie.antt =====
-- src/trie.rs: a trie is an alphabet, a double array for the branches and a tail for what is left
-- of each key.
pub mod Defs
pub mod Store
pub mod State
pub mod Iter
pub mod Serial
pub mod RoundTrip
mod Suffix
mod Found
pub mod Agree
pub mod Branch
pub mod New
mod Match
pub mod Retrieve
pub mod Model
pub mod Listing
pub mod Pick
pub mod Compare
mod Step
mod Arrive
pub mod Lookup
pub mod Along
pub mod Kept
pub mod Grow
pub mod Grown
pub mod Insert
pub mod Longer
pub mod Beyond
pub mod Start
pub mod Walkable
pub mod Outcome
pub mod Present
pub mod Replace
pub mod Decided
pub use Defs.{RoTrie, Trie}
unfoldable pub use Defs.{new, from_ro, into_ro, ro_new, retrieve, ro_retrieve, is_dirty}
unfoldable pub use Store.{
  store, store_if_absent, store_conditionally, branch_in_branch, branch_in_tail, delete,
}
pub use State.{TrieState}
pub use Iter.{TrieIterator}
