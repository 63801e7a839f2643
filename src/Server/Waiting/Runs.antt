-- ===== src/Server/Waiting/Runs.antt =====
-- server/server.go: over every run of the server, no client waits on a list that has an element.
use tiny_red.Base.{
  ℕ, ◌≡◌, ◌≢◌, sym, subst, Bool, true, false, not, ◌&&◌, none, some, List, [], ◌∷◌, Bytes, codes,
  bytes_eq, ◌==◌, Bool-cases, inl, inr,
}
use tiny_red.Base.Map
use tiny_red.Resp.Marshal.{marshal_null_array}
use tiny_red.Store.Types.{Waiter, new_store}
use tiny_red.Store.Waiters.{waiters_at, time_out}
use tiny_red.Store.Push.{elements_at}
use tiny_red.Store.Idle.{IsIdle, Step-IsIdle, Step, new_store-IsIdle}
use tiny_red.Server.Types.{
  Request, Server, CommandEntry, Reply, replied, client_error, internal_error, panics, blocks,
}
use tiny_red.Server.Clients.{reset_transaction_state}
use tiny_red.Server.Execute.{Handlers, one_of}
use tiny_red.Server.Commands.Arguments.{put_store}
use tiny_red.Server.Commands.Lists.{Floats}
use tiny_red.Server.Commands.Table.{command_handlers}
use tiny_red.Server.Connection.{
  Ran, ReplyBytes, bytes, stop, queue_step, writes, after_timeout, resume, execute_in_queue,
  run_queue, exec_queue, exec_in, handle_exec, in_subscription, subscribed_mode_commands,
  handle_request,
}
use tiny_red.Server.Waiting.{KeepsIdle}
use tiny_red.Server.Waiting.Handlers.{reset-store, command_handlers-KeepsIdle}
use tiny_red.Server.Waiting.Requests.{
  AllKeepIdle, after_write-store, execute-IsIdle, answer-store, after_queue-store,
  finish_reply-store,
}

-- Rounds of any clients, timeouts of BLPOP, and whatever leaves the store alone, in any order.
pub data Runs {Z : Type 0} (handlers : Handlers Z) (s : Server Z) : Server Z → Type 0 where
  start : Runs handlers s s
  round :
      {t : Server Z}
      → Runs handlers s t
      → (c : ℕ) (req : Request) → Runs handlers s (handle_request handlers req c t).1
  timeout :
      {t : Server Z}
      → Runs handlers s t
      → (w : Waiter) → Runs handlers s (put_store (time_out w t.store).1 t)
  elsewhere :
      {t : Server Z} → Runs handlers s t → (u : Server Z) → u.store ≡ t.store → Runs handlers s u

module _ {Z : Type 0} (handlers : Handlers Z) (all : AllKeepIdle handlers) where
  queue_step-IsIdle :
      (b : ReplyBytes) (rest : Ran × Server Z) (t : Server Z)
      → IsIdle t.store
      → IsIdle rest.1.store
      → IsIdle (queue_step b rest t).1.store
  unfolding queue_step
  queue_step-IsIdle (bytes b) rest t h k = k
  queue_step-IsIdle (stop flow) rest t h k = h

  resume-IsIdle :
      (req : Request) (r : Reply) (s : Server Z)
      → IsIdle s.store
      → IsIdle (resume handlers req r s).1.store
  unfolding resume after_timeout
  resume-IsIdle req (blocks x (some limit)) s h =
      subst IsIdle (sym (after_write-store (writes (handlers req.command)) _ _ _))
        (Step-IsIdle (Step.timeout x s.store) h)
  resume-IsIdle req (blocks x none) s h = h
  resume-IsIdle req (replied data') s h = h
  resume-IsIdle req (client_error e) s h = h
  resume-IsIdle req internal_error s h = h
  resume-IsIdle req panics s h = h

  execute_in_queue-IsIdle :
      (req : Request) (c : ℕ) (s : Server Z)
      → IsIdle s.store
      → IsIdle (execute_in_queue handlers req c s).1.store
  unfolding execute_in_queue
  execute_in_queue-IsIdle req c s h = resume-IsIdle req _ _ (execute-IsIdle handlers req c s all h)

  run_queue-IsIdle :
      (queue : List Request) (c : ℕ) (s : Server Z)
      → IsIdle s.store
      → IsIdle (run_queue handlers queue c s).1.store
  unfolding run_queue
  run_queue-IsIdle [] c s h = h
  run_queue-IsIdle (req ∷ queue) c s h =
      let k = execute_in_queue-IsIdle req c s h in
      queue_step-IsIdle _ _ _ k (run_queue-IsIdle queue c (execute_in_queue handlers req c s).1 k)

  exec_queue-IsIdle :
      (req : Request) (c : ℕ) (s : Server Z)
      → IsIdle s.store
      → IsIdle (exec_queue handlers req c s).1.store
  unfolding exec_queue
  exec_queue-IsIdle req c s h = elim (Bool-cases (s.readers == 0)) [
    | inl free ↦ rw free (
        subst IsIdle (sym (after_queue-store handlers req (s.object c).command_queue c _ _)) (
          run_queue-IsIdle (s.object c).command_queue c (reset_transaction_state c s)
            (subst IsIdle (sym (reset-store c s)) h)))
    | inr held ↦ rw held h
  ]

  exec_in-IsIdle :
      (a b : Bool) (req : Request) (c : ℕ) (s : Server Z)
      → IsIdle s.store
      → IsIdle (exec_in a b handlers req c s).1.store
  unfolding exec_in
  exec_in-IsIdle false b req c s h = subst IsIdle (sym (answer-store c _ s)) h
  exec_in-IsIdle true true req c s h =
      subst IsIdle (sym (answer-store c marshal_null_array (reset_transaction_state c s)))
        (subst IsIdle (sym (reset-store c s)) h)
  exec_in-IsIdle true false req c s h = exec_queue-IsIdle req c s h

  handle_request-IsIdle :
      (req : Request) (c : ℕ) (s : Server Z)
      → IsIdle s.store
      → IsIdle (handle_request handlers req c s).1.store
  unfolding handle_request handle_exec
  handle_request-IsIdle req c s h =
      elim (Bool-cases
        (in_subscription (s.object c).mode && not (one_of req.command subscribed_mode_commands))) [
          | inl y ↦ rw y (subst IsIdle (sym (answer-store c _ s)) h)
          | inr n ↦ rw n (elim (Bool-cases (bytes_eq req.command (codes "exec"))) [
            | inl e ↦ rw e (exec_in-IsIdle _ _ req c s h)
            | inr o ↦ rw o (
                subst IsIdle (sym (finish_reply-store handlers req _ c _))
                  (execute-IsIdle handlers req c s all h))
          ])
        ]

  Runs-IsIdle : {s t : Server Z} → IsIdle s.store → Runs handlers s t → IsIdle t.store
  Runs-IsIdle h start = h
  Runs-IsIdle h (round {t} r c req) = handle_request-IsIdle req c t (Runs-IsIdle h r)
  Runs-IsIdle h (timeout {t} r w) = Step-IsIdle (Step.timeout w t.store) (Runs-IsIdle h r)
  Runs-IsIdle h (elsewhere r u e) = subst IsIdle (sym e) (Runs-IsIdle h r)

-- In every state that the server, with its command table, reaches from an empty store by rounds of any
-- clients, timeouts of BLPOP and whatever leaves the store alone, in any order, a key on which some
-- client waits in BLPOP has no element, if each entry added to the table keeps it so.
pub nobody_waits_in_vain :
    (F : Floats) {Z : Type 0} (more : Map.Map (CommandEntry Z)) {s t : Server Z} (k : Bytes)
    → Map.AllValues (λ e. KeepsIdle e.handler) more
    → s.store ≡ new_store
    → Runs (command_handlers F more) s t
    → waiters_at k t.store ≢ []
    → elements_at k t.store ≡ []
nobody_waits_in_vain F {Z} more k others empty r =
    Runs-IsIdle (command_handlers F more)
      (λ name e found. command_handlers-KeepsIdle F more others name found)
      (subst IsIdle (sym empty) (new_store-IsIdle Z)) r k
