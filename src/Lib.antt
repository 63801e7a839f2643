-- ===== src/Lib.antt =====
-- TinyRed: a server that speaks the protocol of Redis, with strings, lists, transactions, channels, a
-- log of the write commands and replicas.
--
-- How the parts work together. Each connection has a loop, `HandleConnection` in server/server.go: it
-- parses a request (resp/resp.go), runs it with `Execute`, which finds the handler in a table
-- (server/commad_handlers.go), and writes the reply. The handlers work on one store (store/store.go) and
-- on the sessions of the clients, which the server keeps. EXEC runs a client's queue with
-- `executionMutex` held for writing, every other request with it held for reading.
--
-- Base: the names that are shared, byte strings, association lists, Go's signed integers.
-- Strconv: `Itoa`, `Atoi` and `ParseInt` of the standard library, in base ten.
-- Resp: resp/resp.go. Resp/Types, Resp/Reader (what bufio.Reader and io.ReadFull do), Resp/Marshal and
--   Resp/Unmarshal have the operations; Resp/Lines, Resp/RoundTrip and Resp/Faults the proofs.
-- Store: store/store.go. Store/Entries is Get, Set, Update, Delete and Keys; Store/Waiters addWaiter,
--   removeWaiter and waitForResolution; Store/Lists ListPush and BLPOP. Store/Push, Store/Frame and
--   Store/Idle have the proofs.
--   Store/SkipList is store/skip_list.go: NewSkipList, less and Insert, with Delete, GetRank, GetByRank
--   and Range in Store/SkipList/Queries. Its proofs go from one level (Chain) over the search (Looking,
--   Search, Places) and the loops that set cells (Links, Loops, Cells, Deleting) to the sorted list that
--   the skip list stands for (Order, Matching, Represents, Longer, Inserting, Shorter, Removing), and
--   to the nodes of given ranks (Walking, Ranking, Ranges).
--   Store/SortedSets is ZSet and ZAdd; Store/SortedSets/Members, InStep and Adding have the proofs.
-- Morton: server/zorder_Morton_code.go. Morton.antt has the words, Morton/Coordinates the floating-point
--   part; Morton/Digits is about binary digits, Morton/Symbols about words with a name for each digit,
--   and Morton/Interleaving has the proof.
-- Server: server/server.go. Server/Types has its types, Server/Clients AddClient, CloseConnection,
--   UnwatchAll and ResetTransactionState, Server/Execute Execute, Server/Connection ParseRequest and a
--   round of HandleConnection. Server/Commands has a file for each group of handlers of
--   server/commad_handlers.go, the table that NewServer builds (Table), and the proofs on single
--   commands (Expiry, Counting, Ranges, Popping, Removal, Broadcast, Channels, Panics). Server/Ids, Watch,
--   Keeps, Considerate, Steps, Rounds, Locking, Queue and Transactions have the proofs on sessions and
--   transactions.
--   Server/Waiting and its children are about the clients that BLPOP blocks, Server/Logging and
--   Server/Propagation about what is appended to the log and sent to the replicas.
-- Aof: aof/aof.go. Load and the function that StartMaster replays with; Aof/Replay has the proof. The
--   content of the file is in the server's state, and AppendCmd is command_in_resp of
--   Server/Connection/Requests. Aof/Manifest is FormatManifest and ParseManifest of aof/manifest.go, with
--   `strings.Fields` on UTF-8; Aof/Fields has the proof.
-- Rdb: rdb/rdb.go. Its parsers of lengths and strings; Rdb/Loader has the key records and Load, and
--   Rdb/Format the format, as records that are written; Rdb/Words, Strings, Records, Within and Rounds
--   have the proofs.
-- Replica: processMasterCommands of server/server.go; Replica/Stream has the proof.
-- Examples: concrete servers, and the theorems applied to them.
--
-- How state and operations are translated. A handler takes a request, the identifier of its client and
-- the server, and returns a reply and the server. A reply is bytes, a `*resp.SimpleError`, another
-- error, a panic, or, for BLPOP, the waiter that it blocks on. A pointer to a client is its identifier,
-- and `object` gives the client that it points to. A Go map is an association list whose order stands
-- for the order of a `range`, which Go leaves open. A connection is whether it can be written to and
-- what was written. A channel of a blocked client is its number, and the store lists what was sent. An
-- instant is a number of nanoseconds, and a duration is computed in an int64 that wraps around.
-- `strings.ToLower` and `strings.ToUpper` are those of ASCII. The texts of errors that only the log
-- sees are constructors.
--
-- Concurrency. Each operation of the store holds its mutex and is one step; a round of a connection is
-- one step, so that an interleaving is a sequence of rounds. A client that blocks keeps its read lock:
-- `readers` counts those, and EXEC stalls while there is one. A BLPOP that blocks in the queue of EXEC
-- holds the lock itself, so that nobody serves it: with a limit it ends by its timeout, at the clock's
-- instant moved by the limit, and the rest of the queue is run; without one the server stalls. The stream
-- of a replica's master, which takes no lock, is not interleaved with a round.
--
-- Bounds and fuel. The digits of n are computed with n rounds, which are enough since each divides by
-- ten; the loop of `Array.Unmarshal` runs over its count; the
-- loops of `Load` and `processMasterCommands` have one round for each command and one for the end, and
-- that of the RDB `Load` one round more than the file has bytes. A loop of
-- the skip list has one round more than the list has nodes. Every other function is structural.
--
-- A pointer to a node of a skip list is its number, and `nodes` gives the node; a float64 score is a
-- value of a type with `<` and `==`, and the theorems want the laws of numbers, which NaN breaks.
--
-- float64 and the package math are a record of operations (Morton/Coordinates), about which nothing is
-- assumed; `strconv.ParseFloat`, `strconv.FormatFloat` and `%f` are parameters.
--
-- Not modelled: the replica's handshake, the creation and reading of the log's files (New,
-- EnsureManifest), the start of the server, deadlines and log messages. The entries of the command
-- table for sorted sets and coordinates are a parameter of the table, for which the store and the
-- server have a type as a parameter.
pub mod Base
pub mod Strconv
pub mod Resp
pub mod Store
pub mod Morton
pub mod Server
pub mod Aof
pub mod Rdb
pub mod Replica
mod Examples
