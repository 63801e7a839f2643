-- ===== src/Examples/Transactions.antt =====
-- The theorem on EXEC at a transaction of three requests, the second of which waits in vain.
use tiny_red.Base.{
  ℕ, ◌≡◌, refl, true, some, none, List, ◌∷◌, codes, pos, ◌+ℤ◌, Bytes, false, if◌then◌else◌, [],
}
use tiny_red.Base.Map
use tiny_red.Resp.Marshal.{marshal_integer, marshal_bulk_string, marshal_null_array, marshal_array}
use tiny_red.Store.Types.{Waiter}
use tiny_red.Store.Waiters.{remove_waiter}
use tiny_red.Server.Types.{Request, Server, replied, blocks}
use tiny_red.Server.Clients.{ids_at, write_to, reset_transaction_state}
use tiny_red.Server.Execute.{one_of, execute, mark_dirty}
use tiny_red.Server.Connection.{continues, closes, handle_exec}
use tiny_red.Server.Commands.Strings.{handle_incr, handle_get}
use tiny_red.Server.Commands.Lists.{handle_blpop}
use tiny_red.Server.Commands.Sessions.{handle_multi}
use tiny_red.Server.Queue.{Answers, Executed}
use tiny_red.Server.Transactions.{IsQueueable, execute_all, queued, exec_runs_queue}
use tiny_red.Examples.Fixtures.{asking, floats, server, handlers}

abbrev incr_n : Request
incr_n = asking (codes "incr") (codes "n" ∷ [])

abbrev blpop_q : Request
blpop_q = asking (codes "blpop") (codes "q" ∷ codes "5" ∷ [])

abbrev get_n : Request
get_n = asking (codes "get") (codes "n" ∷ [])

abbrev session : List Request
session = incr_n ∷ blpop_q ∷ get_n ∷ []

incr_n-IsQueueable : IsQueueable handlers incr_n
unfolding tiny_red.Server.Commands.Table.command_handlers Map.lookup
    tiny_red.Server.Commands.Table.command_table tiny_red.Base.bytes_eq
    tiny_red.Server.Execute.wrong_count one_of
incr_n-IsQueueable = record {
  entry = record { handler = handle_incr; min_args = 1; max_args = some 1; is_write = true };
  known = refl;
  counted = refl;
  plain = refl;
}

blpop_q-IsQueueable : IsQueueable handlers blpop_q
unfolding tiny_red.Server.Commands.Table.command_handlers Map.lookup
    tiny_red.Server.Commands.Table.command_table tiny_red.Base.bytes_eq
    tiny_red.Server.Execute.wrong_count one_of
blpop_q-IsQueueable = record {
  entry = record { handler = handle_blpop floats; min_args = 2; max_args = none; is_write = true };
  known = refl;
  counted = refl;
  plain = refl;
}

get_n-IsQueueable : IsQueueable handlers get_n
unfolding tiny_red.Server.Commands.Table.command_handlers Map.lookup
    tiny_red.Server.Commands.Table.command_table tiny_red.Base.bytes_eq
    tiny_red.Server.Execute.wrong_count one_of
get_n-IsQueueable = record {
  entry = record { handler = handle_get; min_args = 1; max_args = none; is_write = false };
  known = refl;
  counted = refl;
  plain = refl;
}

-- The state with the queue, and those after each request.
abbrev queued_server : Server ℕ
queued_server =
    (execute_all handlers session 1 (handle_multi (asking (codes "multi") []) 1 server).1).1

abbrev started : Server ℕ
started = reset_transaction_state 1 queued_server

abbrev after_incr : Server ℕ
after_incr = (execute handlers incr_n 1 started).1

abbrev waiting : Server ℕ
waiting = (execute handlers blpop_q 1 after_incr).1

abbrev waiter : Waiter
waiter = record { channel = 0; key = codes "q" }

abbrev after_blpop : Server ℕ
after_blpop = mark_dirty (ids_at (codes "q") waiting.watcher_clients) (record waiting {
  store = remove_waiter waiter waiting.store;
  now = waiting.now +ℤ pos 1000000000;
})

abbrev after_get : Server ℕ
after_get = (execute handlers get_n 1 after_blpop).1

incr_runs : execute handlers incr_n 1 started ≡ (replied (marshal_integer (pos 42)), after_incr)
unfolding execute tiny_red.Server.Commands.Table.command_handlers
    tiny_red.Server.Commands.Table.command_table Map.lookup tiny_red.Base.bytes_eq
    tiny_red.Server.Execute.execute_entry tiny_red.Server.Execute.wrong_count
    tiny_red.Server.Execute.loading tiny_red.Server.Execute.queues
    tiny_red.Server.Execute.in_transaction tiny_red.Server.Execute.run
    tiny_red.Server.Execute.after_handler tiny_red.Server.Execute.after_write
    tiny_red.Server.Execute.enqueue one_of execute_all handle_multi
    tiny_red.Server.Commands.Sessions.multi_in reset_transaction_state
    tiny_red.Server.Clients.put_client tiny_red.Server.Clients.unwatch_all
    tiny_red.Server.Clients.forget_keys ids_at tiny_red.Server.Execute.mark_watchers mark_dirty
    tiny_red.Server.Commands.Arguments.with_argument tiny_red.Server.Commands.Arguments.with_store
    tiny_red.Store.Entries.get handle_incr tiny_red.Store.Entries.update
    tiny_red.Server.Commands.Strings.increment tiny_red.Server.Commands.Strings.number_text
    tiny_red.Strconv.atoi tiny_red.Strconv.parse_uint tiny_red.Strconv.itoa Map.insert
    tiny_red.Store.Entries.set tiny_red.Base.wrap_64 tiny_red.Server.Commands.Strings.reply_incr
incr_runs = refl

blpop_runs :
    execute handlers blpop_q 1 after_incr ≡ (blocks waiter (some (pos 1000000000)), waiting)
unfolding execute tiny_red.Server.Commands.Table.command_handlers
    tiny_red.Server.Commands.Table.command_table Map.lookup tiny_red.Base.bytes_eq
    tiny_red.Server.Execute.execute_entry tiny_red.Server.Execute.wrong_count
    tiny_red.Server.Execute.loading tiny_red.Server.Execute.queues
    tiny_red.Server.Execute.in_transaction tiny_red.Server.Execute.run
    tiny_red.Server.Execute.after_handler tiny_red.Server.Execute.after_write
    tiny_red.Server.Execute.enqueue one_of execute_all handle_multi
    tiny_red.Server.Commands.Sessions.multi_in reset_transaction_state
    tiny_red.Server.Clients.put_client tiny_red.Server.Clients.unwatch_all
    tiny_red.Server.Clients.forget_keys ids_at tiny_red.Server.Execute.mark_watchers mark_dirty
    tiny_red.Server.Commands.Arguments.with_argument tiny_red.Server.Commands.Arguments.with_store
    tiny_red.Store.Entries.get handle_incr tiny_red.Store.Entries.update
    tiny_red.Server.Commands.Strings.increment tiny_red.Server.Commands.Strings.number_text
    tiny_red.Strconv.atoi tiny_red.Strconv.parse_uint tiny_red.Strconv.itoa Map.insert
    tiny_red.Store.Entries.set tiny_red.Base.wrap_64 tiny_red.Server.Commands.Strings.reply_incr
    handle_blpop tiny_red.Server.Commands.Lists.pop_or_wait
    tiny_red.Server.Commands.Lists.wait_limit tiny_red.Store.Lists.blpop tiny_red.Store.Lists.pop_at
    tiny_red.Store.Lists.wait_on tiny_red.Store.Waiters.add_waiter
    tiny_red.Server.Commands.Lists.reply_popped tiny_red.Store.Waiters.waiters_at
    tiny_red.Server.Execute.mark_one tiny_red.Store.Lists.pop_value Map.keys
blpop_runs = refl

get_runs :
    execute handlers get_n 1 after_blpop ≡ (replied (marshal_bulk_string (codes "42")), after_get)
unfolding execute tiny_red.Server.Commands.Table.command_handlers
    tiny_red.Server.Commands.Table.command_table Map.lookup tiny_red.Base.bytes_eq
    tiny_red.Server.Execute.execute_entry tiny_red.Server.Execute.wrong_count
    tiny_red.Server.Execute.loading tiny_red.Server.Execute.queues
    tiny_red.Server.Execute.in_transaction tiny_red.Server.Execute.run
    tiny_red.Server.Execute.after_handler tiny_red.Server.Execute.after_write
    tiny_red.Server.Execute.enqueue one_of execute_all handle_multi
    tiny_red.Server.Commands.Sessions.multi_in reset_transaction_state
    tiny_red.Server.Clients.put_client tiny_red.Server.Clients.unwatch_all
    tiny_red.Server.Clients.forget_keys ids_at tiny_red.Server.Execute.mark_watchers mark_dirty
    tiny_red.Server.Commands.Arguments.with_argument tiny_red.Server.Commands.Arguments.with_store
    tiny_red.Store.Entries.get handle_incr tiny_red.Store.Entries.update
    tiny_red.Server.Commands.Strings.increment tiny_red.Server.Commands.Strings.number_text
    tiny_red.Strconv.atoi tiny_red.Strconv.parse_uint tiny_red.Strconv.itoa Map.insert
    tiny_red.Store.Entries.set tiny_red.Base.wrap_64 tiny_red.Server.Commands.Strings.reply_incr
    handle_blpop tiny_red.Server.Commands.Lists.pop_or_wait
    tiny_red.Server.Commands.Lists.wait_limit tiny_red.Store.Lists.blpop tiny_red.Store.Lists.pop_at
    tiny_red.Store.Lists.wait_on tiny_red.Store.Waiters.add_waiter
    tiny_red.Server.Commands.Lists.reply_popped tiny_red.Store.Waiters.waiters_at
    tiny_red.Server.Execute.mark_one tiny_red.Store.Lists.pop_value handle_get
    tiny_red.Server.Commands.Strings.get_entry tiny_red.Server.Commands.Strings.expired
    remove_waiter tiny_red.Store.Waiters.keep_remaining tiny_red.Store.Waiters.delete_waiter
    tiny_red.Store.Waiters.put_waiters Map.erase Map.keys tiny_red.Server.Commands.Strings.text_of
get_runs = refl

blpop_known :
    handlers (codes "blpop")
    ≡ some
        (record { handler = handle_blpop floats; min_args = 2; max_args = none; is_write = true })
unfolding tiny_red.Server.Commands.Table.command_handlers Map.lookup
    tiny_red.Server.Commands.Table.command_table tiny_red.Base.bytes_eq
blpop_known = refl

exec_unknown : handlers (codes "exec") ≡ none
unfolding tiny_red.Server.Commands.Table.command_handlers Map.lookup
    tiny_red.Server.Commands.Table.command_table tiny_red.Base.bytes_eq
exec_unknown = refl

abbrev replies : List Bytes
replies = marshal_integer (pos 42) ∷ marshal_null_array ∷ marshal_bulk_string (codes "42") ∷ []

session-Executed : Executed handlers 1 started session replies after_get
session-Executed = Executed.answered incr_runs (Answers.data_replied _) (
    Executed.timed_out blpop_known refl refl blpop_runs
      (Executed.answered get_runs (Answers.data_replied _) (Executed.nothing after_get)))

exec_runs_queue_example :
    ((execute_all handlers session 1 (handle_multi (asking (codes "multi") []) 1 server).1).0
      ≡ queued ∷ queued ∷ queued ∷ [])
    × (queued_server.store ≡ server.store)
    × (handle_exec handlers (asking (codes "exec") []) 1 queued_server ≡ (
      if (after_get.object 1).conn.writable then continues else closes,
      write_to 1 (marshal_array replies) after_get,
    ))
exec_runs_queue_example =
    exec_runs_queue handlers 1 (asking (codes "multi") []) (asking (codes "exec") []) session
      replies server after_get (incr_n-IsQueueable, (blpop_q-IsQueueable, (get_n-IsQueueable, tt)))
      exec_unknown refl refl refl refl refl session-Executed
