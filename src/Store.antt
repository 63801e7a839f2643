-- ===== src/Store.antt =====
-- store/store.go: the key space, and the queues of clients that block in BLPOP.
pub mod SkipList
pub mod Types
pub mod SortedSets
pub mod Entries
pub mod Waiters
pub mod Lists
pub mod Push
pub mod Frame
pub mod Idle
