-- ===== src/Examples/Waiting.antt =====
-- A client that waits in BLPOP, and then a timeout.
use tiny_red.Base.{ℕ, ◌≡◌, ◌≢◌, refl, ap, [], ◌∷◌, arith, Bytes, codes, length}
use tiny_red.Store.Types.{new_store}
use tiny_red.Store.Waiters.{waiters_at}
use tiny_red.Store.Push.{elements_at}
use tiny_red.Server.Types.{Server}
use tiny_red.Server.Connection.{handle_request}
use tiny_red.Server.Waiting.Runs.{Runs, nobody_waits_in_vain}
use tiny_red.Examples.Fixtures.{asking, floats, server, handlers}

abbrev empty_server : Server ℕ
empty_server = record server { store = new_store }

-- Client 1 has asked for an element of "q".
abbrev blocked_server : Server ℕ
blocked_server =
    (handle_request handlers (asking (codes "blpop") (codes "q" ∷ codes "0" ∷ [])) 1 empty_server).1

one_waits : length (waiters_at (codes "q") blocked_server.store) ≡ 1
unfolding waiters_at tiny_red.Base.Map.lookup handle_request
    tiny_red.Server.Connection.in_subscription tiny_red.Base.bytes_eq
    tiny_red.Server.Connection.finish_reply tiny_red.Server.Execute.execute
    tiny_red.Server.Commands.Table.command_handlers tiny_red.Server.Commands.Table.command_table
    tiny_red.Server.Execute.execute_entry tiny_red.Server.Execute.wrong_count
    tiny_red.Server.Execute.loading tiny_red.Server.Execute.queues
    tiny_red.Server.Execute.in_transaction tiny_red.Server.Execute.run
    tiny_red.Server.Execute.after_handler tiny_red.Server.Commands.Lists.handle_blpop
    tiny_red.Server.Commands.Arguments.with_argument tiny_red.Server.Commands.Arguments.with_store
    tiny_red.Server.Commands.Lists.pop_or_wait tiny_red.Store.Lists.blpop
    tiny_red.Store.Lists.pop_at tiny_red.Store.Entries.get new_store tiny_red.Store.Lists.wait_on
    tiny_red.Store.Waiters.add_waiter tiny_red.Base.Map.insert
    tiny_red.Server.Commands.Lists.reply_popped
one_waits = refl

nobody_waits_in_vain_example : elements_at (codes "q") blocked_server.store ≡ []
nobody_waits_in_vain_example =
    nobody_waits_in_vain floats [] {s = empty_server} {t = blocked_server} (codes "q") _ refl
      (Runs.round Runs.start 1 (asking (codes "blpop") (codes "q" ∷ codes "0" ∷ [])))
      (λ e. omega (arith, one_waits, ap length e))
