-- ===== src/Server/Execute.antt =====
-- server/server.go: `Execute`, and the marking of the clients that watch a key.
use tiny_red.Base.{
  ℕ, Bool, true, false, not, ◌&&◌, ◌||◌, Option, none, some, List, [], ◌∷◌, ◌++◌, Bytes, codes,
  bytes_eq, length, ltb, if◌then◌else◌,
}
use tiny_red.Resp.Types.{err_type}
use tiny_red.Resp.Marshal.{marshal_simple_string}
use tiny_red.Server.Types.{
  Request, ClientMode, normal, transaction, subscribed, Role, master, replica, Server, Reply,
  replied, client_error, internal_error, panics, blocks, CommandEntry,
}
use tiny_red.Server.Clients.{contains, ids_at, put_client}
use tiny_red.Server.Commands.Arguments.{client_err}

-- `s.CommandHandlers`, as the look-up of a name.
abbrev pub Handlers : Type 0 → Type 0
Handlers Z = Bytes → Option (CommandEntry Z)

unfoldable pub one_of : Bytes → List Bytes → Bool
one_of name [] = false
one_of name (n ∷ names) = bytes_eq name n || one_of name names

-- `TransactionalCommands`, all of whose values are true.
abbrev pub transactional_commands : List Bytes
transactional_commands = codes "multi" ∷ codes "discard" ∷ codes "exec" ∷ codes "watch" ∷ []

abbrev pub loading_commands : List Bytes
loading_commands = codes "info" ∷ codes "config" ∷ codes "echo" ∷ codes "ping" ∷ []

above : ℕ → Option ℕ → Bool
above n none = false
above n (some max_args) = ltb max_args n

is_replica : Role → Bool
is_replica master = false
is_replica replica = true

unfoldable pub in_transaction : ClientMode → Bool
in_transaction transaction = true
in_transaction normal = false
in_transaction subscribed = false

wrong_arguments : Bytes → Reply
wrong_arguments command =
    client_err err_type (codes "wrong number of arguments for '" ++ (command ++ codes "' command"))

module _ {Z : Type 0} where
  unfoldable pub wrong_count : CommandEntry Z → Request → Bool
  unfolding above
  wrong_count entry req =
      ltb (length req.arguments) entry.min_args || above (length req.arguments) entry.max_args

  unfoldable pub loading : Request → Server Z → Bool
  unfolding is_replica
  loading req s =
      is_replica s.node_config.role
      && (not s.node_config.replica_ready && not (one_of req.command loading_commands))

  -- A request that waits for EXEC.
  unfoldable pub queues : Request → ℕ → Server Z → Bool
  queues req c s =
      in_transaction (s.object c).mode && not (one_of req.command transactional_commands)

  unfoldable pub enqueue : Request → ℕ → Server Z → Server Z
  enqueue req c s =
      let client = s.object c in
      put_client c (record client { command_queue = client.command_queue ++ req ∷ [] }) s

  -- A watcher that is still connected is marked.
  unfoldable pub mark_one : ℕ → Server Z → Server Z
  mark_one id s =
      let marked = put_client id (record (s.object id) { dirty_compare_and_set = true }) s in
      if contains id s.clients then marked else s

  unfoldable pub mark_dirty : List ℕ → Server Z → Server Z
  mark_dirty [] s = s
  mark_dirty (id ∷ ids) s = mark_dirty ids (mark_one id s)

  -- What `Execute` does after a handler that returned no error.
  unfoldable pub mark_watchers : Bytes → Server Z → Server Z
  mark_watchers key s = mark_dirty (ids_at key s.watcher_clients) s

  unfoldable pub after_write : Bool → List Bytes → Bytes → Server Z → Reply × Server Z
  after_write false arguments data' s = (replied data', s)
  after_write true [] data' s = (panics, s)
  after_write true (key ∷ arguments) data' s = (replied data', mark_watchers key s)

  unfoldable pub after_handler : Bool → List Bytes → Reply → Server Z → Reply × Server Z
  after_handler is_write arguments (replied data') s = after_write is_write arguments data' s
  after_handler is_write arguments (client_error e) s = (client_error e, s)
  after_handler is_write arguments internal_error s = (internal_error, s)
  after_handler is_write arguments panics s = (panics, s)
  after_handler is_write arguments (blocks w limit) s = (blocks w limit, s)

  unfoldable pub run : CommandEntry Z → Request → ℕ → Server Z → Reply × Server Z
  run entry req c s =
      let (reply, s') = entry.handler req c s in after_handler entry.is_write req.arguments reply s'

  unfoldable pub execute_entry : CommandEntry Z → Request → ℕ → Server Z → Reply × Server Z
  unfolding wrong_arguments
  execute_entry entry req c s =
      if wrong_count entry req
      then (wrong_arguments req.command, s)
      else if loading req s
      then (client_err err_type (codes "LOADING Replica is loading the dataset in memory"), s)
      else if queues req c s
      then (replied (marshal_simple_string (codes "QUEUED")), enqueue req c s)
      else run entry req c s

  unfoldable pub execute : Handlers Z → Request → ℕ → Server Z → Reply × Server Z
  execute handlers req c s = elim (handlers req.command) [
    | none ↦ (client_err err_type (codes "unknown command '" ++ (req.command ++ codes "'")), s)
    | some entry ↦ execute_entry entry req c s
  ]
