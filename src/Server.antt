-- ===== src/Server.antt =====
-- server/server.go and server/commad_handlers.go: sessions, commands and connections.
pub mod Types
pub mod Clients
pub mod Commands
pub mod Execute
pub mod Ids
pub mod Watch
pub mod Keeps
pub mod Considerate
pub mod Steps
pub mod Rounds
pub mod Locking
pub mod Logging
pub mod Propagation
pub mod Waiting
pub mod Queue
pub mod Transactions
pub mod Connection
