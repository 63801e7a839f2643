-- ===== src/Server/Connection.antt =====
-- server/server.go: `ParseRequest`, `getRequestinResp`, and one round of the loop of
-- `HandleConnection`.
pub mod Requests
use tiny_red.Base.{
  ℕ, zero, ◌+◌, ◌-◌, Bool, true, false, not, ◌&&◌, Option, none, some, List, [], ◌∷◌, ◌++◌, Bytes,
  codes, bytes_eq, to_upper, ℤ, pos, pos_part, ◌+ℤ◌, ◌==◌, if◌then◌else◌,
}
use tiny_red.Resp.Types.{SimpleError, err_type}
use tiny_red.Resp.Marshal.{
  marshal_array, marshal_null_array, marshal_bulk_string, marshal_simple_error, err_generic,
}
use tiny_red.Store.Types.{Waiter}
use tiny_red.Store.Waiters.{time_out}
use tiny_red.Server.Types.{
  Request, ClientMode, normal, transaction, subscribed, Client, Server, Reply, replied,
  client_error, internal_error, panics, blocks, CommandEntry, NodeConfig,
}
use tiny_red.Server.Clients.{delete_first, write_to, reset_transaction_state}
use tiny_red.Server.Execute.{Handlers, one_of, in_transaction, after_write, execute}
use Requests.{command_in_resp, get_request_in_resp}

-- How a round ends: the loop goes on, the connection is closed, the process panics, the client blocks
-- in BLPOP, or it waits for `executionMutex`.
pub data Flow : Type 0 where
  continues closes crashes waits stalls : Flow

abbrev pub subscribed_mode_commands : List Bytes
subscribed_mode_commands =
    codes "subscribe"
    ∷ codes "unsubscribe"
    ∷ codes "psubscribe"
    ∷ codes "punsubscribe"
    ∷ codes "ping"
    ∷ codes "quit"
    ∷ []

unfoldable pub in_subscription : ClientMode → Bool
in_subscription subscribed = true
in_subscription normal = false
in_subscription transaction = false

unfoldable pub error_bytes : Bytes → Bytes
error_bytes text = marshal_simple_error (record { error_type = err_type; message = text })

not_in_subscription : Bytes → Bytes
not_in_subscription command = error_bytes (
    codes "Can't execute "
    ++ (command
        ++ codes
            ": only (P|S)SUBSCRIBE / (P|S)UNSUBSCRIBE / PING / QUIT / RESET are allowed in this context"))

-- The queue of EXEC: the replies, or why it did not come to its end.
pub data Ran : Type 0 where
  finished : List Bytes → Ran
  stopped : Flow → Ran

unfoldable pub prepend : Bytes → Ran → Ran
prepend b (finished bs) = finished (b ∷ bs)
prepend b (stopped flow) = stopped flow

-- `ExecuteInTransaction`: the bytes of a reply. BLPOP without a limit blocks with the lock held, which
-- everyone needs who could push a value for it.
pub data ReplyBytes : Type 0 where
  bytes : Bytes → ReplyBytes
  stop : Flow → ReplyBytes

unfoldable pub reply_bytes : Reply → ReplyBytes
reply_bytes (replied data') = bytes data'
reply_bytes (client_error e) = bytes (marshal_simple_error e)
reply_bytes internal_error = bytes err_generic
reply_bytes panics = stop crashes
reply_bytes (blocks w limit) = stop stalls

-- `AOFData`: the queue as the log would hold it.
unfoldable pub queue_in_resp : List Request → Bytes
queue_in_resp [] = []
queue_in_resp (req ∷ queue) = command_in_resp req.command req.arguments ++ queue_in_resp queue

module _ {Z : Type 0} where
  -- A reply is written; the loop goes on unless the write fails.
  unfoldable pub answer : ℕ → Bytes → Server Z → Flow × Server Z
  answer c data' s = (if (s.object c).conn.writable then continues else closes, write_to c data' s)

  unfoldable pub append_to : Option Bytes → Bytes → Server Z → Option (Server Z)
  append_to none data' s = none
  append_to (some content) data' s = some (record s { aof = some (content ++ data') })

  -- `AppendCmd` or `Append`, where "appendonly" is set; a file that was not opened panics.
  unfoldable pub append_aof : Bytes → Server Z → Option (Server Z)
  append_aof data' s =
      if bytes_eq s.config.appendonly (codes "yes") then append_to s.aof data' s else some s

  unfoldable pub write_all : List ℕ → Bytes → Server Z → Server Z
  write_all [] data' s = s
  write_all (id ∷ ids) data' s = write_all ids data' (write_to id data' s)

  unfoldable pub tell_replicas : Request → Option (Server Z) → Option (Server Z)
  tell_replicas req none = none
  tell_replicas req (some s) =
      some (write_all s.node_config.replica_nodes (get_request_in_resp req) s)

  -- The log and the replicas get a request whose command is a write, whatever its execution returned.
  unfoldable pub propagate :
      Option (CommandEntry Z) → Request → Bytes → Server Z → Option (Server Z)
  propagate none req logged s = some s
  propagate (some entry) req logged s =
      if entry.is_write then tell_replicas req (append_aof logged s) else some s

  -- A reply goes in front of those that follow it; a panic or a block without a limit ends the run.
  unfoldable pub queue_step : ReplyBytes → Ran × Server Z → Server Z → Ran × Server Z
  queue_step (bytes b) rest s = (prepend b rest.0, rest.1)
  queue_step (stop flow) rest s = (stopped flow, s)

  unfoldable pub writes : Option (CommandEntry Z) → Bool
  writes none = false
  writes (some entry) = entry.is_write

  -- BLPOP for a limited time in the queue of EXEC: since the lock is held, nobody serves the waiter,
  -- the timer fires, and the execution ends with the null array.
  unfoldable pub after_timeout : Bool → Request → Waiter → ℤ → Server Z → Reply × Server Z
  after_timeout is_write req w limit s =
      after_write is_write req.arguments marshal_null_array
        (record s { store = (time_out w s.store).1; now = s.now +ℤ pos (pos_part limit) })

  unfoldable pub resume : Handlers Z → Request → Reply → Server Z → Reply × Server Z
  unfolding after_timeout writes
  resume handlers req (blocks w (some limit)) s =
      after_timeout (writes (handlers req.command)) req w limit s
  resume handlers req (blocks w none) s = (blocks w none, s)
  resume handlers req (replied data') s = (replied data', s)
  resume handlers req (client_error e) s = (client_error e, s)
  resume handlers req internal_error s = (internal_error, s)
  resume handlers req panics s = (panics, s)

  unfoldable pub execute_in_queue : Handlers Z → Request → ℕ → Server Z → Reply × Server Z
  unfolding resume
  execute_in_queue handlers req c s =
      let (reply, s') = execute handlers req c s in resume handlers req reply s'

  unfoldable pub run_queue : Handlers Z → List Request → ℕ → Server Z → Ran × Server Z
  run_queue handlers [] c s = (finished [], s)
  run_queue handlers (req ∷ queue) c s =
      let (reply, s') = execute_in_queue handlers req c s in
      queue_step (reply_bytes reply) (run_queue handlers queue c s') s'

  -- EXEC after its queue was run: the replies in one array. EXEC itself is looked up to decide
  -- whether the log and the replicas are told.
  unfoldable pub answer_all : ℕ → List Bytes → Option (Server Z) → Server Z → Flow × Server Z
  answer_all c replies none s = (crashes, s)
  answer_all c replies (some s') s = answer c (marshal_array replies) s'

  unfoldable pub after_queue :
      Handlers Z → Request → List Request → ℕ → Ran → Server Z → Flow × Server Z
  after_queue handlers req queue c (stopped flow) s = (flow, s)
  after_queue handlers req queue c (finished replies) s =
      answer_all c replies (propagate (handlers req.command) req (queue_in_resp queue) s) s

  -- The write lock is had only when no read lock is held.
  unfoldable pub exec_queue : Handlers Z → Request → ℕ → Server Z → Flow × Server Z
  exec_queue handlers req c s =
      let queue = (s.object c).command_queue in
      let (ran, s') = run_queue handlers queue c (reset_transaction_state c s) in
      if s.readers == 0 then after_queue handlers req queue c ran s' else (stalls, s)

  unfoldable pub exec_in : Bool → Bool → Handlers Z → Request → ℕ → Server Z → Flow × Server Z
  exec_in false dirty handlers req c s = answer c (error_bytes (codes "EXEC without MULTI")) s
  exec_in true true handlers req c s = answer c marshal_null_array (reset_transaction_state c s)
  exec_in true false handlers req c s = exec_queue handlers req c s

  unfoldable pub handle_exec : Handlers Z → Request → ℕ → Server Z → Flow × Server Z
  handle_exec handlers req c s =
      exec_in (in_transaction (s.object c).mode) (s.object c).dirty_compare_and_set handlers req c s

  -- The end of a round for PSYNC: the client becomes a replica, unless the last write fails.
  unfoldable pub add_replica : ℕ → Server Z → Server Z
  add_replica c s =
      let node = s.node_config in
      record s { node_config = record node { replica_nodes = node.replica_nodes ++ c ∷ [] } }

  unfoldable pub delete_replica : ℕ → Server Z → Server Z
  delete_replica c s =
      let node = s.node_config in
      record s { node_config = record node { replica_nodes = delete_first c node.replica_nodes } }

  unfoldable pub answer_psync : ℕ → Bytes → Server Z → Flow × Server Z
  answer_psync c data' s =
      let told = write_to c data' (add_replica c s) in
      (
        continues,
        if (s.object c).conn.writable
            then write_to c (codes "$0\r\n") told
            else delete_replica c told,
      )

  unfoldable pub finish_told : Request → Bytes → ℕ → Option (Server Z) → Server Z → Flow × Server Z
  finish_told req data' c none s = (crashes, s)
  finish_told req data' c (some s') s =
      if bytes_eq req.command (codes "psync") then answer_psync c data' s' else answer c data' s'

  -- From the read lock's release on: `data` is empty where the execution returned an error.
  unfoldable pub finish : Handlers Z → Request → Bytes → ℕ → Server Z → Flow × Server Z
  finish handlers req data' c s =
      let logged = command_in_resp (to_upper req.command) req.arguments in
      finish_told req data' c (propagate (handlers req.command) req logged s) s

  -- An error is written first; if that fails the loop is left with the read lock held.
  unfoldable pub finish_error : Handlers Z → Request → Bytes → ℕ → Server Z → Flow × Server Z
  finish_error handlers req text c s =
      if (s.object c).conn.writable
      then finish handlers req [] c (write_to c text s)
      else (closes, record s { readers = s.readers + 1 })

  unfoldable pub finish_reply : Handlers Z → Request → Reply → ℕ → Server Z → Flow × Server Z
  finish_reply handlers req (replied data') c s = finish handlers req data' c s
  finish_reply handlers req (client_error e) c s =
      finish_error handlers req (marshal_simple_error e) c s
  finish_reply handlers req internal_error c s = finish_error handlers req err_generic c s
  finish_reply handlers req panics c s = (crashes, s)
  finish_reply handlers req (blocks w limit) c s = (waits, record s { readers = s.readers + 1 })

  -- One round of the loop, from the request that was parsed to the end of the round.
  unfoldable pub handle_request : Handlers Z → Request → ℕ → Server Z → Flow × Server Z
  unfolding not_in_subscription
  handle_request handlers req c s =
      let (reply, s') = execute handlers req c s in
      if in_subscription (s.object c).mode && not (one_of req.command subscribed_mode_commands)
      then answer c (not_in_subscription req.command) s
      else if bytes_eq req.command (codes "exec")
      then handle_exec handlers req c s
      else finish_reply handlers req reply c s'
