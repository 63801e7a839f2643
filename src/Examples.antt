-- ===== src/Examples.antt =====
-- Concrete inputs for the theorems: a server with two clients, and runs on it.
mod Fixtures
mod Wire
mod Data
mod Sessions
mod Logs
mod Waiting
mod Replicas
mod Files
mod SkipLists
mod SortedSets
mod Codes
mod Transactions
