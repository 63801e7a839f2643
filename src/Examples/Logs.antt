-- ===== src/Examples/Logs.antt =====
-- The theorems on the append-only file at concrete servers.
use tiny_red.Base.{ℕ, ◌≡◌, refl, true, some, [], ◌∷◌, ◌++◌, arith, codes, bytes_eq}
use tiny_red.Base.Map
use tiny_red.Resp.Marshal.{marshal_simple_string}
use tiny_red.Server.Types.{Request, transaction, Server, replied}
use tiny_red.Server.Execute.{
  execute, execute_entry, wrong_count, loading, queues, in_transaction, enqueue,
}
use tiny_red.Server.Connection.{reply_bytes, handle_request, in_subscription}
use tiny_red.Server.Commands.Strings.{handle_incr}
use tiny_red.Server.Commands.Table.{command_handlers, command_table}
use tiny_red.Server.Execute.{one_of}
use tiny_red.Server.Ids.{count}
use tiny_red.Server.Commands.Broadcast.{copies}
use tiny_red.Server.Connection.Requests.{get_request_in_resp}
use tiny_red.Server.Propagation.{write_is_sent}
use tiny_red.Base.{inl}
use tiny_red.Examples.Fixtures.{node}
use tiny_red.Server.Logging.{logged, IsLogging, write_is_logged}
use tiny_red.Examples.Fixtures.{asking, config, stranger, server, handlers}

abbrev incr_n : Request
incr_n = asking (codes "incr") (codes "n" ∷ [])

-- Client 1 is in a transaction, and the log is open.
abbrev logging_server : Server ℕ
logging_server = record server {
  object = λ id. record stranger { mode = transaction };
  config = record config { appendonly = codes "yes" };
  aof = some [];
}

incr_is_queued :
    execute handlers incr_n 1 logging_server
    ≡ (replied (marshal_simple_string (codes "QUEUED")), enqueue incr_n 1 logging_server)
unfolding execute command_handlers command_table Map.lookup bytes_eq execute_entry wrong_count
    loading queues in_transaction tiny_red.Server.Execute.one_of
incr_is_queued = refl

incr_known :
    handlers (codes "incr")
    ≡ some (record { handler = handle_incr; min_args = 1; max_args = some 1; is_write = true })
unfolding command_handlers command_table Map.lookup bytes_eq
incr_known = refl

incr_n-IsLogging : IsLogging [] (execute handlers incr_n 1 logging_server).1
unfolding tiny_red.Server.Clients.put_client
incr_n-IsLogging = rw incr_is_queued (unfold enqueue in record { on = refl; file = refl })

write_is_logged_example :
    (handle_request handlers incr_n 1 logging_server).1.aof ≡ some ([] ++ logged incr_n)
unfolding in_subscription bytes_eq tiny_red.Server.Clients.put_client reply_bytes
write_is_logged_example =
    write_is_logged handlers incr_n 1 logging_server []
      {e = record { handler = handle_incr; min_args = 1; max_args = some 1; is_write = true }}
      {b = marshal_simple_string (codes "QUEUED")} incr_known refl refl refl incr_n-IsLogging
      (rw incr_is_queued (unfold enqueue in refl)) (rw incr_is_queued refl)

-- Clients 3 and 4 are replicas, and client 1 is in a transaction.
abbrev master_server : Server ℕ
master_server = record server {
  object = λ id. record stranger { mode = transaction };
  node_config = record node { replica_nodes = 3 ∷ 4 ∷ [] };
}

incr_is_queued_there :
    execute handlers incr_n 1 master_server
    ≡ (replied (marshal_simple_string (codes "QUEUED")), enqueue incr_n 1 master_server)
unfolding execute command_handlers command_table Map.lookup bytes_eq execute_entry wrong_count
    loading queues in_transaction one_of
incr_is_queued_there = refl

write_is_sent_example :
    let t = (execute handlers incr_n 1 master_server).1 in
    ((handle_request handlers incr_n 1 master_server).1.object 3).conn.written
    ≡ (t.object 3).conn.written
      ++ copies (count 3 t.node_config.replica_nodes) (get_request_in_resp incr_n)
unfolding in_subscription reply_bytes bytes_eq tiny_red.Server.Clients.put_client
write_is_sent_example =
    write_is_sent handlers incr_n 1 3 master_server []
      {e = record { handler = handle_incr; min_args = 1; max_args = some 1; is_write = true }}
      {b = marshal_simple_string (codes "QUEUED")} (λ e. omega (arith, e)) incr_known refl refl refl
      (rw incr_is_queued_there (unfold enqueue bytes_eq in inl refl))
      (rw incr_is_queued_there (unfold enqueue in refl))
      (rw incr_is_queued_there (unfold enqueue in (refl, (refl, _)))) (rw incr_is_queued_there refl)
