-- ===== src/Server/Queue.antt =====
-- server/server.go: the loop of EXEC over its queue, as requests that are executed one after another.
use tiny_red.Base.{ℕ, ◌≡◌, refl, true, some, List, ◌∷◌, Bytes, pos, ◌+ℤ◌, []}
use tiny_red.Resp.Types.{SimpleError}
use tiny_red.Resp.Marshal.{marshal_simple_error, marshal_null_array, err_generic}
use tiny_red.Store.Types.{Waiter}
use tiny_red.Store.Waiters.{remove_waiter, time_out}
use tiny_red.Server.Types.{
  Request, Server, Reply, replied, client_error, internal_error, blocks, CommandEntry,
}
use tiny_red.Server.Clients.{ids_at}
use tiny_red.Server.Execute.{Handlers, execute, mark_dirty, mark_watchers, after_write}
use tiny_red.Server.Connection.{
  bytes, finished, queue_step, prepend, reply_bytes, after_timeout, resume, writes,
  execute_in_queue, run_queue,
}

-- The bytes that an execution is answered with.
pub data Answers : Reply → Bytes → Type 0 where
  data_replied : (d : Bytes) → Answers (replied d) d
  error_replied : (e : SimpleError) → Answers (client_error e) (marshal_simple_error e)
  generic_replied : Answers internal_error err_generic

-- Requests of one client that are executed one after another, with the bytes that each is answered
-- with. A write that blocks for a limited time ends when that time has passed: its waiter is gone, the
-- watchers of its key are marked, and it is answered with the null array.
pub data Executed {Z : Type 0} (handlers : Handlers Z) (c : ℕ)
    : Server Z → List Request → List Bytes → Server Z → Type 0 where
  nothing : (s : Server Z) → Executed handlers c s [] [] s
  answered :
      {s t u : Server Z} {req : Request} {reqs : List Request} {reply : Reply} {b : Bytes}
      {bs : List Bytes}
      → execute handlers req c s ≡ (reply, t)
      → Answers reply b
      → Executed handlers c t reqs bs u
      → Executed handlers c s (req ∷ reqs) (b ∷ bs) u
  timed_out :
      {s t u : Server Z} {req : Request} {reqs : List Request} {entry : CommandEntry Z} {w : Waiter}
      {n : ℕ} {key : Bytes} {arguments : List Bytes} {bs : List Bytes}
      → handlers req.command ≡ some entry
      → entry.is_write ≡ true
      → req.arguments ≡ key ∷ arguments
      → execute handlers req c s ≡ (blocks w (some (pos n)), t)
      → Executed handlers c
          (mark_dirty
            (ids_at key t.watcher_clients)
            (record t { store = remove_waiter w t.store; now = t.now +ℤ pos n }))
          reqs
          bs
          u
      → Executed handlers c s (req ∷ reqs) (marshal_null_array ∷ bs) u

module _ {Z : Type 0} (handlers : Handlers Z) (c : ℕ) where
  reply_bytes-Answers : {reply : Reply} {b : Bytes} → Answers reply b → reply_bytes reply ≡ bytes b
  unfolding reply_bytes
  reply_bytes-Answers (Answers.data_replied d) = refl
  reply_bytes-Answers (Answers.error_replied e) = refl
  reply_bytes-Answers Answers.generic_replied = refl

  resume-Answers :
      {reply : Reply} {b : Bytes} (req : Request) (t : Server Z)
      → Answers reply b
      → resume handlers req reply t ≡ (reply, t)
  unfolding resume
  resume-Answers req t (Answers.data_replied d) = refl
  resume-Answers req t (Answers.error_replied e) = refl
  resume-Answers req t Answers.generic_replied = refl

  one_finished :
      (req : Request) (reqs : List Request) (s t u : Server Z) (reply : Reply) (b : Bytes)
      (bs : List Bytes)
      → execute_in_queue handlers req c s ≡ (reply, t)
      → reply_bytes reply ≡ bytes b
      → run_queue handlers reqs c t ≡ (finished bs, u)
      → run_queue handlers (req ∷ reqs) c s ≡ (finished (b ∷ bs), u)
  unfolding run_queue queue_step prepend
  one_finished req reqs s t u reply b bs e told rest = rw (e, told, rest) refl

  one_answered :
      (req : Request) (s t : Server Z) (reply : Reply) (b : Bytes)
      → execute handlers req c s ≡ (reply, t)
      → Answers reply b
      → execute_in_queue handlers req c s ≡ (reply, t)
  unfolding execute_in_queue
  one_answered req s t reply b e a = rw e (resume-Answers req t a)

  one_timed_out :
      (req : Request) (s t : Server Z) (entry : CommandEntry Z) (w : Waiter) (n : ℕ) (key : Bytes)
      (arguments : List Bytes)
      → handlers req.command ≡ some entry
      → entry.is_write ≡ true
      → req.arguments ≡ key ∷ arguments
      → execute handlers req c s ≡ (blocks w (some (pos n)), t)
      → execute_in_queue handlers req c s ≡ (
        replied marshal_null_array,
        mark_dirty
            (ids_at key t.watcher_clients)
            (record t { store = remove_waiter w t.store; now = t.now +ℤ pos n }),
      )
  unfolding execute_in_queue resume after_timeout writes after_write mark_watchers time_out
  one_timed_out req s t entry w n key arguments known write args e = rw (e, known, write, args) refl

  pub Executed-run_queue :
      {s u : Server Z} {reqs : List Request} {bs : List Bytes}
      → Executed handlers c s reqs bs u
      → run_queue handlers reqs c s ≡ (finished bs, u)
  unfolding run_queue
  Executed-run_queue (Executed.nothing s) = refl
  Executed-run_queue (Executed.answered e a rest) =
      one_finished _ _ _ _ _ _ _ _ (one_answered _ _ _ _ _ e a) (reply_bytes-Answers a)
        (Executed-run_queue rest)
  Executed-run_queue (Executed.timed_out known write args e rest) =
      one_finished _ _ _ _ _ _ _ _ (one_timed_out _ _ _ _ _ _ _ _ known write args e)
        (unfold reply_bytes in refl) (Executed-run_queue rest)
