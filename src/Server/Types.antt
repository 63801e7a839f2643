-- ===== src/Server/Types.antt =====
-- server/server.go: `Request`, `Client`, `Config`, `NodeConfig`, `Server`, `CommandEntry`, and what a
-- handler returns. `Z` is the type of sorted sets.
use tiny_red.Base.{ℕ, Bool, Option, List, Bytes, ℤ}
use tiny_red.Base.Map.{Map}
use tiny_red.Resp.Types.{SimpleError}
use tiny_red.Store.Types.{Store, Waiter}

pub record Request : Type 0 where
  pub command : Bytes
  pub arguments : List Bytes

-- `TypeClientExternal`, `TypeClientInternal`.
pub data ClientType : Type 0 where
  external internal : ClientType

-- `ClientModeNormal`, `ClientModeTransaction`, `ClientModeSubscribed`.
pub data ClientMode : Type 0 where
  normal transaction subscribed : ClientMode

-- A connection: whether a write on it succeeds, and what was written.
pub record Conn : Type 0 where
  pub writable : Bool
  pub written : Bytes

pub record Client : Type 0 where
  pub client_type : ClientType
  pub mode : ClientMode
  pub conn : Conn
  pub command_queue : List Request
  pub watched_keys : Map Bool
  pub dirty_compare_and_set : Bool
  pub subscribed_channels : Map Bool

pub record Config : Type 0 where
  pub port : ℤ
  pub bind : Bytes
  pub timeout : ℤ
  pub keep_alive : Bool
  pub keep_alive_timeout : ℤ
  pub dir : Bytes
  pub dbfilename : Bytes
  pub appendonly : Bytes
  pub appenddirname : Bytes
  pub appendfilename : Bytes
  pub appendfsync : Bytes
  pub replicaof : Bytes

-- `NodeRoleMaster`, `NodeRoleReplica`.
pub data Role : Type 0 where
  master replica : Role

-- A replica by the client whose connection it has.
pub record NodeConfig : Type 0 where
  pub role : Role
  pub replica_nodes : List ℕ
  pub replication_id : Bytes
  pub replication_offset : ℤ
  pub replica_ready : Bool

-- A pointer to a client is its identifier, which no other client has: `object` is the client that it
-- points to, and `clients` are the identifiers in the map of that name. `aof` is the content of the
-- append-only file, if it was opened, and `now` the clock in nanoseconds. `readers` counts the read
-- locks on `executionMutex` that are held between two requests.
pub record Server (Z : Type 0) : Type 0 where
  pub store : Store Z
  pub object : ℕ → Client
  pub clients : List ℕ
  pub watcher_clients : Map (List ℕ)
  pub subscribers : Map (List ℕ)
  pub client_id_counter : ℕ
  pub config : Config
  pub node_config : NodeConfig
  pub aof : Option Bytes
  pub readers : ℕ
  pub now : ℤ

-- What a handler returns: the reply, a `*resp.SimpleError`, another error, a panic, or, for BLPOP, the
-- waiter that it blocks on and, where it waits for a limited time, the nanoseconds.
pub data Reply : Type 0 where
  replied : Bytes → Reply
  client_error : SimpleError → Reply
  internal_error : Reply
  panics : Reply
  blocks : Waiter → Option ℤ → Reply

abbrev pub Handler : Type 0 → Type 0
Handler Z = Request → ℕ → Server Z → Reply × Server Z

-- `none` is the -1 of `MaxArgs`.
pub record CommandEntry (Z : Type 0) : Type 0 where
  pub handler : Handler Z
  pub min_args : ℕ
  pub max_args : Option ℕ
  pub is_write : Bool
