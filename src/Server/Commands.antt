-- ===== src/Server/Commands.antt =====
-- server/commad_handlers.go: the handlers, and what they share.
pub mod Arguments
pub mod Strings
pub mod Lists
pub mod SortedSets
pub mod Geospatial
pub mod Removal
pub mod Sessions
pub mod Replication
pub mod Table
pub mod Expiry
pub mod Counting
pub mod Ranges
pub mod Popping
pub mod Broadcast
pub mod Channels
pub mod Panics
