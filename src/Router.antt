-- ===== src/Router.antt =====
-- crates/barbacane/src/router/trie.rs: the prefix trie that maps paths and methods to operations.
pub mod Path
pub mod Trie
mod Runs
mod Normalize
mod Matches
mod Insert
pub mod Table
pub mod Sound
mod Shadowing
