-- ===== src/Server/Transactions.antt =====
-- server/server.go: MULTI queues requests, EXEC runs them, DISCARD drops them.
use tiny_red.Base.{
  ℕ, ◌≡◌, refl, ap, ◌∙◌, true, false, some, List, ◌∷◌, ◌++◌, map, Bytes, codes, ==_refl, All,
  append_assoc, append-nil, none, if◌then◌else◌, [],
}
use tiny_red.Resp.Marshal.{marshal_simple_string, marshal_array}
use tiny_red.Server.Types.{
  Request, normal, transaction, master, Server, Reply, replied, CommandEntry,
}
use tiny_red.Server.Clients.{ids_at, put_client, write_to, unwatch_all, reset_transaction_state}
use tiny_red.Server.Execute.{
  Handlers, one_of, transactional_commands, wrong_count, loading, queues, enqueue, execute_entry,
  execute, in_transaction,
}
use tiny_red.Server.Commands.Sessions.{ok_reply, multi_in, discard_in, handle_multi, handle_discard}
use tiny_red.Server.Connection.{
  continues, closes, run_queue, propagate, answer_all, answer, after_queue, exec_queue, exec_in,
  handle_exec,
}
use tiny_red.Server.Ids.{count}
use tiny_red.Server.Watch.{IsWatching, unwatch_all_lem}
use tiny_red.Server.Locking.{IsReset, reset_transaction_state-IsReset}
use tiny_red.Server.Queue.{Executed, Executed-run_queue}

abbrev pub queued : Reply
queued = replied (marshal_simple_string (codes "QUEUED"))

-- A request that passes the checks of `Execute` and is no command on transactions.
pub record IsQueueable {Z : Type 0} (handlers : Handlers Z) (req : Request) : Type 0 where
  pub entry : CommandEntry Z
  pub known : handlers req.command ≡ some entry
  pub counted : wrong_count entry req ≡ false
  pub plain : one_of req.command transactional_commands ≡ false

-- Requests of one client, one after another.
unfoldable pub execute_all :
    {Z : Type 0} → Handlers Z → List Request → ℕ → Server Z → List Reply × Server Z
execute_all handlers [] c s = ([], s)
execute_all handlers (req ∷ reqs) c s =
    let first = execute handlers req c s in
    let rest = execute_all handlers reqs c first.1 in (first.0 ∷ rest.0, rest.1)

-- A client of a master that is in a transaction with a queue.
pub record HasQueued {Z : Type 0} (c : ℕ) (reqs : List Request) (s : Server Z) : Type 0 where
  pub mode : (s.object c).mode ≡ transaction
  pub queue : (s.object c).command_queue ≡ reqs
  pub clean : (s.object c).dirty_compare_and_set ≡ false
  pub role : s.node_config.role ≡ master
  pub free : s.readers ≡ 0

module _ {Z : Type 0} (handlers : Handlers Z) (c : ℕ) where
  enqueue_lem :
      (req : Request) (queue : List Request) (s : Server Z)
      → HasQueued c queue s
      → HasQueued c (queue ++ req ∷ []) (enqueue req c s) × ((enqueue req c s).store ≡ s.store)
  unfolding enqueue put_client
  enqueue_lem req queue s h = (
    record {
      mode = rw (==_refl c) h.mode;
      queue = rw (==_refl c) (ap (λ q. q ++ req ∷ []) h.queue);
      clean = rw (==_refl c) h.clean;
      role = h.role;
      free = h.free;
    },
    refl,
  )

  is_queued :
      (req : Request) (queue : List Request) (s : Server Z)
      → IsQueueable handlers req
      → HasQueued c queue s
      → execute handlers req c s ≡ (queued, enqueue req c s)
  unfolding execute enqueue
  is_queued req queue s q h =
      let ready : loading req s ≡ false = unfold loading in simp h.role in
      let waits : queues req c s ≡ true = unfold queues in_transaction in simp (h.mode, q.plain) in
      rw (q.known, execute) (unfold execute_entry in rw (q.counted, ready, waits))

  requests_queued :
      (reqs queue : List Request) (s : Server Z)
      → All (IsQueueable handlers) reqs
      → HasQueued c queue s
      → ((execute_all handlers reqs c s).0 ≡ map (λ _. queued) reqs)
        × ((execute_all handlers reqs c s).1.store ≡ s.store)
        × HasQueued c (queue ++ reqs) (execute_all handlers reqs c s).1
  unfolding execute_all
  requests_queued [] queue s q h = (refl, refl, rw append-nil h)
  requests_queued (req ∷ reqs) queue s (q, qs) h =
      let e = is_queued req queue s q h in
      let (there, same) = enqueue_lem req queue s h in
      let (replies, store, after) =
        requests_queued reqs (queue ++ req ∷ []) (enqueue req c s) qs there in
      rw e (ap (λ rs. queued ∷ rs) replies, store ∙ same, rw append_assoc at after)

  -- EXEC of a client that nobody disturbed.
  clean_exec :
      (exec : Request) (reqs : List Request) (s : Server Z)
      → HasQueued c reqs s
      → handle_exec handlers exec c s ≡ (
          let (ran, s') = run_queue handlers reqs c (reset_transaction_state c s) in
          after_queue handlers exec reqs c ran s')
  clean_exec exec reqs s h =
      let in_it : in_transaction (s.object c).mode ≡ true =
        unfold in_transaction in ap in_transaction h.mode in
      unfold handle_exec exec_in exec_queue in simp (in_it, h.clean, h.free, h.queue)

  multi_lem :
      (req : Request) (s : Server Z)
      → (s.object c).mode ≡ normal
      → (s.object c).command_queue ≡ []
      → (s.object c).dirty_compare_and_set ≡ false
      → s.node_config.role ≡ master
      → s.readers ≡ 0
      → HasQueued c [] (handle_multi req c s).1 × ((handle_multi req c s).1.store ≡ s.store)
  unfolding handle_multi multi_in put_client
  multi_lem req s m q d r f = simp m (
    record {
      mode = rw (==_refl c);
      queue = rw (==_refl c) q;
      clean = rw (==_refl c) d;
      role = r;
      free = f;
    },
    refl,
  )

  exec_answers :
      (exec : Request) (reqs : List Request) (bs : List Bytes) (s u : Server Z)
      → handlers exec.command ≡ none
      → HasQueued c reqs s
      → Executed handlers c (reset_transaction_state c s) reqs bs u
      → handle_exec handlers exec c s ≡ answer c (marshal_array bs) u
  unfolding after_queue answer_all propagate
  exec_answers exec reqs bs s u unknown h ran =
      clean_exec exec reqs s h ∙ rw (Executed-run_queue handlers c ran, unknown) refl

  -- After MULTI on a master, a client's requests that pass the checks of Execute are all answered
  -- QUEUED and change nothing in the store; EXEC, for which the table has no entry, then leaves the
  -- state that those requests lead to when they are executed in that order from where the client is
  -- out of its transaction, and writes to it the array of their answers: if no watched key was
  -- written, no other round holds the lock, none of them panics or blocks without a limit, and each
  -- that blocks is a write whose limit is not negative, which then ends by its timeout with the null
  -- array.
  pub exec_runs_queue :
      (multi exec : Request) (reqs : List Request) (bs : List Bytes) (s u : Server Z)
      → All (IsQueueable handlers) reqs
      → handlers exec.command ≡ none
      → (s.object c).mode ≡ normal
      → (s.object c).command_queue ≡ []
      → (s.object c).dirty_compare_and_set ≡ false
      → s.node_config.role ≡ master
      → s.readers ≡ 0
      → Executed handlers c
          (reset_transaction_state c (execute_all handlers reqs c (handle_multi multi c s).1).1)
          reqs
          bs
          u
      → (let t = execute_all handlers reqs c (handle_multi multi c s).1 in
          (t.0 ≡ map (λ _. queued) reqs)
          × (t.1.store ≡ s.store)
          × (handle_exec handlers exec c t.1 ≡ (
            if (u.object c).conn.writable then continues else closes,
            write_to c (marshal_array bs) u,
          )))
  unfolding answer
  exec_runs_queue multi exec reqs bs s u q unknown m empty clean role free ran =
      let (started, same) = multi_lem multi s m empty clean role free in
      let (replies, store, after) = requests_queued reqs [] (handle_multi multi c s).1 q started in
      (replies, store ∙ same, exec_answers exec reqs bs _ u unknown after ran)

module _ {Z : Type 0} where
  reset_watchers :
      (c : ℕ) (s : Server Z)
      → (reset_transaction_state c s).watcher_clients ≡ (unwatch_all c s).watcher_clients
  unfolding reset_transaction_state put_client
  reset_watchers c s = refl

  -- DISCARD in a transaction replies OK and leaves the store as it was, the queue empty and the client
  -- in normal mode, watching nothing and in no list of watchers, if the client stood once in the list
  -- of each key that it watched and in no other.
  pub discard_lem :
      (req : Request) (c : ℕ) (s : Server Z)
      → (s.object c).mode ≡ transaction
      → IsWatching c s
      → ((handle_discard req c s).0 ≡ ok_reply)
        × IsReset c s (handle_discard req c s).1
        × ((l : Bytes) → count c (ids_at l (handle_discard req c s).1.watcher_clients) ≡ 0)
  unfolding handle_discard discard_in
  discard_lem req c s m w = simp m (
    refl,
    reset_transaction_state-IsReset c s,
    λ l. rw reset_watchers ((unwatch_all_lem c s w).1 l),
  )
