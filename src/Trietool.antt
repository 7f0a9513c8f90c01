-- ===== src/Trietool.antt =====
-- The program trietool, src/bin/trietool: its commands on a trie that is saved when it is dropped.
pub mod Numbers
pub mod Utf8
pub mod Trim
pub mod Decode
pub mod Commands
pub mod WordLists
pub mod Session
pub mod Saved
pub mod Listed
pub mod AddList
