-- ===== src/Examples/Sessions.antt =====
-- The theorems on transactions, watched keys and channels at concrete servers.
use tiny_red.Base.{
  ℕ, ◌≡◌, refl, true, false, none, some, [], ◌∷◌, arith, Bytes, codes, bytes_eq, wrap_64, pos, ◌==◌,
  if◌then◌else◌,
}
use tiny_red.Base.Map
use tiny_red.Resp.Marshal.{marshal_null_array, marshal_integer}
use tiny_red.Server.Types.{Request, transaction, Client, Server, replied}
use tiny_red.Server.Clients.{ids_at, unwatch_all, reset_transaction_state}
use tiny_red.Server.Execute.{
  one_of, execute, execute_entry, wrong_count, loading, queues, in_transaction, run, after_handler,
  after_write,
}
use tiny_red.Server.Connection.{answer, run_queue, after_queue, handle_exec, handle_request}
use tiny_red.Server.Ids.{count}
use tiny_red.Server.Keeps.{Keeps}
use tiny_red.Server.Considerate.{IsConsiderate, command_handlers-IsConsiderate}
use tiny_red.Server.Steps.{AllConsiderate}
use tiny_red.Server.Rounds.{handle_request-Keeps}
use tiny_red.Server.Watch.{IsWatching, watch-IsWatching, unwatch_all_lem}
use tiny_red.Server.Locking.{IsReset, Others, watched_write_aborts}
use tiny_red.Server.Transactions.{discard_lem}
use tiny_red.Server.Commands.Strings.{handle_get, handle_incr, increment, number_text, reply_incr}
use tiny_red.Strconv.{atoi, itoa, parse_uint}
use tiny_red.Store.Entries
use tiny_red.Server.Commands.Arguments.{with_argument, with_store}
use tiny_red.Server.Commands.Table.{command_handlers, command_table}
use tiny_red.Server.Commands.Sessions.{
  is_set, ok_reply, watch, message, registered, handle_multi, handle_discard, handle_publish,
  handle_subscribe,
}
use tiny_red.Base.{false}
use tiny_red.Server.Commands.Sessions.{handle_unsubscribe}
use tiny_red.Server.Commands.Channels.{handle_subscribe-handle_unsubscribe}
use tiny_red.Server.Commands.Broadcast.{copies, handle_publish_lem, handle_subscribe_lem}
use tiny_red.Examples.Fixtures.{asking, floats, stranger, server, handlers}

considerate : AllConsiderate handlers
considerate name e found = command_handlers-IsConsiderate floats [] _ name found

-- Client 1 watches "n" and is in a transaction.
abbrev watcher : Client
watcher = record stranger { mode = transaction; watched_keys = (codes "n", true) ∷ [] }

abbrev watched_server : Server ℕ
watched_server = record server {
  object = λ id. if id == 1 then watcher else stranger;
  watcher_clients = (codes "n", 1 ∷ []) ∷ [];
}

abbrev incr_n : Request
incr_n = asking (codes "incr") (codes "n" ∷ [])

abbrev exec_request : Request
exec_request = asking (codes "exec") []

-- After client 2 has incremented "n".
abbrev written_server : Server ℕ
written_server = (handle_request handlers incr_n 2 watched_server).1

incr_replies : (execute handlers incr_n 2 watched_server).0 ≡ replied (marshal_integer (pos 42))
unfolding execute command_handlers command_table Map.lookup bytes_eq execute_entry wrong_count
    loading queues in_transaction run after_handler after_write handle_incr with_argument with_store
    Entries.update Entries.get increment number_text atoi parse_uint itoa Map.insert Entries.set
    wrap_64 reply_incr
incr_replies = refl

incr_runs : queues incr_n 2 watched_server ≡ false
unfolding queues in_transaction
incr_runs = refl

incr_known :
    handlers (codes "incr")
    ≡ some (record { handler = handle_incr; min_args = 1; max_args = some 1; is_write = true })
unfolding command_handlers command_table Map.lookup bytes_eq
incr_known = refl

watched_write_aborts_example :
    (handle_exec handlers exec_request 1 written_server
      ≡ answer 1 marshal_null_array (reset_transaction_state 1 written_server))
    × IsReset 1 written_server (handle_exec handlers exec_request 1 written_server).1
unfolding tiny_red.Server.Clients.contains count ids_at Map.lookup bytes_eq
    tiny_red.Server.Connection.in_subscription
watched_write_aborts_example =
    watched_write_aborts handlers 1 2 (codes "n") []
      (record { handler = handle_incr; min_args = 1; max_args = some 1; is_write = true }) incr_n
      exec_request {s = watched_server} {t = watched_server} {u = written_server}
      {data' = marshal_integer (pos 42)} considerate refl refl (omega arith) Others.here
      (λ e. omega (arith, e)) incr_known refl refl incr_runs refl refl incr_replies Others.here

abbrev dirty_server : Server ℕ
dirty_server = record server { object = λ id. record watcher { dirty_compare_and_set = true } }

handle_request-Keeps_example :
    Keeps 1 watched_server (handle_request handlers incr_n 2 watched_server).1
handle_request-Keeps_example =
    handle_request-Keeps handlers considerate 1 2 (λ e. omega (arith, e)) incr_n watched_server

command_handlers-IsConsiderate_example : IsConsiderate (handle_get {Z = ℕ})
unfolding command_handlers Map.lookup command_table bytes_eq
command_handlers-IsConsiderate_example =
    command_handlers-IsConsiderate floats {Z = ℕ} [] _ (codes "get")
      {e = record { handler = handle_get; min_args = 1; max_args = none; is_write = false }} refl

server-IsWatching : IsWatching 1 server
unfolding count ids_at Map.lookup tiny_red.Server.Commands.Sessions.is_set
server-IsWatching l = refl

watch-IsWatching_example :
    IsWatching 1 (watch (codes "n" ∷ codes "l" ∷ []) 1 server)
    × ((l : Bytes)
        → count 1 (ids_at l (watch (codes "n" ∷ codes "l" ∷ []) 1 server).watcher_clients) ≡ (
            if one_of l (codes "n" ∷ codes "l" ∷ [])
            then 1
            else count 1 (ids_at l server.watcher_clients)))
watch-IsWatching_example = watch-IsWatching (codes "n" ∷ codes "l" ∷ []) 1 server server-IsWatching

watched-IsWatching : IsWatching 1 watched_server
unfolding count ids_at Map.lookup is_set
watched-IsWatching l = ground arith

unwatch_all_lem_example :
    IsWatching 1 (unwatch_all 1 watched_server)
    × ((l : Bytes) → count 1 (ids_at l (unwatch_all 1 watched_server).watcher_clients) ≡ 0)
    × (((unwatch_all 1 watched_server).object 1).dirty_compare_and_set ≡ false)
unwatch_all_lem_example = unwatch_all_lem 1 watched_server watched-IsWatching

discard_lem_example :
    ((handle_discard (asking (codes "discard") []) 1 watched_server).0 ≡ ok_reply)
    × IsReset 1 watched_server (handle_discard (asking (codes "discard") []) 1 watched_server).1
    × ((l : Bytes)
        → count 1 (
            ids_at l
              (handle_discard (asking (codes "discard") []) 1 watched_server).1.watcher_clients)
          ≡ 0)
discard_lem_example =
    discard_lem (asking (codes "discard") []) 1 watched_server refl watched-IsWatching

abbrev subscribed_server : Server ℕ
subscribed_server = record server { subscribers = (codes "news", 1 ∷ 2 ∷ 1 ∷ []) ∷ [] }

handle_publish_lem_example :
    let r =
      handle_publish
        (asking (codes "publish") (codes "news" ∷ codes "hi" ∷ []))
        2
        subscribed_server in
    (r.0 ≡ replied (marshal_integer (pos 3)))
    × ((r.1.object 1).conn.written ≡ copies 2 (message (codes "news") (codes "hi")))
unfolding registered tiny_red.Server.Clients.contains ids_at count Map.lookup bytes_eq
handle_publish_lem_example =
    handle_publish_lem (codes "publish") (codes "news") (codes "hi") 2 1 subscribed_server
      (λ id online. refl)

handle_subscribe_lem_example :
    let t =
      (handle_subscribe (asking (codes "subscribe") (codes "news" ∷ [])) 1 subscribed_server).1 in
    count 1 (ids_at (codes "news") t.subscribers) ≡ 3
unfolding count ids_at Map.lookup bytes_eq
handle_subscribe_lem_example =
    handle_subscribe_lem (codes "subscribe") (codes "news") (codes "news") 1 1 subscribed_server

handle_subscribe-handle_unsubscribe_example :
    let t =
      (handle_subscribe (asking (codes "subscribe") (codes "news" ∷ [])) 1 subscribed_server).1 in
    let u = (handle_unsubscribe (asking (codes "unsubscribe") (codes "news" ∷ [])) 1 t).1 in
    (is_set (codes "news") (u.object 1).subscribed_channels ≡ false)
    × (count 1 (ids_at (codes "news") u.subscribers) ≡ 2)
unfolding count ids_at Map.lookup bytes_eq
handle_subscribe-handle_unsubscribe_example =
    handle_subscribe-handle_unsubscribe (codes "subscribe") (codes "unsubscribe") (codes "news")
      (codes "news") 1 1 subscribed_server
