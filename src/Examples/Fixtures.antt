-- ===== src/Examples/Fixtures.antt =====
-- Servers and requests that the examples share.
use tiny_red.Base.{ℕ, true, false, none, some, List, [], ◌∷◌, Bytes, codes, ◌==◌, ◌*◌, pos, length}
use tiny_red.Store.Types.{Store, string_entry, list_entry, text, elements}
use tiny_red.Server.Types.{Request, external, normal, master, Client, Config, NodeConfig, Server}
use tiny_red.Server.Execute.{Handlers}
use tiny_red.Server.Commands.Lists.{Floats}
use tiny_red.Server.Commands.Table.{command_handlers}

-- Numbers of seconds without a fraction.
abbrev pub floats : Floats
floats = record {
  Float = ℕ;
  parse_float = λ digits. some (length digits);
  is_zero = λ n. n == 0;
  duration = λ n. pos (n * 1000000000);
}

abbrev pub asking : Bytes → List Bytes → Request
asking command arguments = record { command = command; arguments = arguments }

abbrev pub config : Config
config = record {
  port = pos 6379;
  bind = codes "127.0.0.1";
  timeout = pos 0;
  keep_alive = true;
  keep_alive_timeout = pos 300;
  dir = codes ".";
  dbfilename = codes "dump.rdb";
  appendonly = codes "no";
  appenddirname = codes "appendonlydir";
  appendfilename = codes "appendonly.aof";
  appendfsync = codes "everysec";
  replicaof = [];
}

abbrev pub node : NodeConfig
node = record {
  role = master;
  replica_nodes = [];
  replication_id = codes "8371b4fb1155b71f4a04d3e1bc3e18c4a990aeeb";
  replication_offset = pos 0;
  replica_ready = false;
}

abbrev pub stranger : Client
stranger = record {
  client_type = external;
  mode = normal;
  conn = record { writable = true; written = [] };
  command_queue = [];
  watched_keys = [];
  dirty_compare_and_set = false;
  subscribed_channels = [];
}

-- A counter under "n", a list under "l".
abbrev pub data_store : Store ℕ
data_store = record {
  entries =
      (codes "n", record { entry_type = string_entry; value = text (codes "41"); expire_at = none })
      ∷ (
        codes "l",
        record {
          entry_type = list_entry;
          value = elements (codes "a" ∷ codes "b" ∷ codes "c" ∷ []);
          expire_at = none;
        },
      )
      ∷ [];
  waiter_store = [];
  deliveries = [];
  next_channel = 0;
}

-- Clients 1 and 2 are connected.
abbrev pub server : Server ℕ
server = record {
  store = data_store;
  object = λ id. stranger;
  clients = 1 ∷ 2 ∷ [];
  watcher_clients = [];
  subscribers = [];
  client_id_counter = 2;
  config = config;
  node_config = node;
  aof = none;
  readers = 0;
  now = pos 1000;
}

abbrev pub handlers : Handlers ℕ
handlers = command_handlers floats []
