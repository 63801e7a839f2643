-- ===== src/Server/Locking.antt =====
-- server/server.go: WATCH, MULTI, EXEC as optimistic locking, over every interleaving of rounds.
use tiny_red.Base.{
  ℕ, ◌<◌, ◌≡◌, ◌≢◌, refl, sym, ap, subst, ◌∙◌, Bool, true, false, some, List, [], ◌∷◌, arith, Bytes,
  codes, bytes_eq, ==_refl, Bool-cases, inl, inr,
}
use tiny_red.Resp.Marshal.{marshal_null_array}
use tiny_red.Server.Types.{
  Request, normal, transaction, Server, Reply, replied, client_error, internal_error, panics,
  blocks, CommandEntry,
}
use tiny_red.Server.Clients.{
  contains, ids_at, put_client, write_to, unwatch_all, reset_transaction_state,
}
use tiny_red.Server.Execute.{
  Handlers, queues, loading, wrong_count, mark_watchers, after_write, after_handler, run,
  execute_entry, execute, in_transaction,
}
use tiny_red.Server.Connection.{answer, exec_in, handle_exec, handle_request, in_subscription}
use tiny_red.Server.Ids.{count, contains-count}
use tiny_red.Server.Keeps.{Keeps, Keeps-refl, Keeps-trans, mark_dirty_lem}
use tiny_red.Server.Considerate.{IsConsiderate}
use tiny_red.Server.Steps.{AllConsiderate}
use tiny_red.Server.Rounds.{handle_request-Keeps, finish_reply-Keeps}

-- Rounds of the clients other than `w`, in any order and any number.
pub data Others {Z : Type 0} (handlers : Handlers Z) (w : ℕ) (s : Server Z)
    : Server Z → Type 0 where
  here : Others handlers w s s
  round :
      {t : Server Z}
      → Others handlers w s t
      → (c : ℕ) (req : Request) → c ≢ w
      → Others handlers w s (handle_request handlers req c t).1

module _ {Z : Type 0} (handlers : Handlers Z) (considerate : AllConsiderate handlers) (w : ℕ) where
  Others-Keeps : {s t : Server Z} → Others handlers w s t → Keeps w s t
  Others-Keeps {s} here = Keeps-refl s
  Others-Keeps (round {t} r c req ne) =
      Keeps-trans (Others-Keeps r) (handle_request-Keeps handlers considerate w c ne req t)

module _ {Z : Type 0} where
  -- A write that returns a reply marks every connected client that watches its first argument.
  after_write_marks :
      (w : ℕ) (key : Bytes) (arguments : List Bytes) (data' : Bytes) (s : Server Z)
      → contains w (ids_at key s.watcher_clients) ≡ true
      → contains w s.clients ≡ true
      → ((after_write true (key ∷ arguments) data' s).1.object w).dirty_compare_and_set ≡ true
  unfolding after_write mark_watchers
  after_write_marks w key arguments data' s h online = mark_dirty_lem w _ s h online

  after_handler_replied :
      (b : Bool) (arguments : List Bytes) (r : Reply) (s : Server Z) {data' : Bytes}
      → (after_handler b arguments r s).0 ≡ replied data'
      → (d : Bytes) × (r ≡ replied d)
  unfolding after_handler
  after_handler_replied b arguments (replied d) s e = (d, refl)
  after_handler_replied b arguments (client_error x) s e = cc
  after_handler_replied b arguments internal_error s e = cc
  after_handler_replied b arguments panics s e = cc
  after_handler_replied b arguments (blocks x f) s e = cc

  after_handler_marks :
      (w : ℕ) (key : Bytes) (arguments : List Bytes) (r : Reply) (s : Server Z) {data' : Bytes}
      → r ≡ replied data'
      → contains w (ids_at key s.watcher_clients) ≡ true
      → contains w s.clients ≡ true
      → ((after_handler true (key ∷ arguments) r s).1.object w).dirty_compare_and_set ≡ true
  unfolding after_handler
  after_handler_marks w key arguments (replied d) s e h online =
      after_write_marks w key arguments d s h online
  after_handler_marks w key arguments (client_error x) s e h online = cc
  after_handler_marks w key arguments internal_error s e h online = cc
  after_handler_marks w key arguments panics s e h online = cc
  after_handler_marks w key arguments (blocks x f) s e h online = cc

  run_marks :
      (w c : ℕ) (key : Bytes) (arguments : List Bytes) (e : CommandEntry Z) (req : Request)
      (s : Server Z) {data' : Bytes}
      → IsConsiderate e.handler
      → c ≢ w
      → e.is_write ≡ true
      → req.arguments ≡ key ∷ arguments
      → contains w (ids_at key s.watcher_clients) ≡ true
      → contains w s.clients ≡ true
      → (run e req c s).0 ≡ replied data'
      → ((run e req c s).1.object w).dirty_compare_and_set ≡ true
  unfolding run
  run_marks w c key arguments e req s h ne is_write args listed online ok_ =
      let kept = h w c req s ne in
      simp (is_write, args)
        (after_handler_marks w key arguments (e.handler req c s).0 (e.handler req c s).1
          (after_handler_replied _ _ _ _ ok_).1
          (rw (contains-count, kept.lists key, ← contains-count) listed) (rw kept.clients online))

  execute_entry_marks :
      (w c : ℕ) (key : Bytes) (arguments : List Bytes) (e : CommandEntry Z) (req : Request)
      (s : Server Z) {data' : Bytes}
      → IsConsiderate e.handler
      → c ≢ w
      → e.is_write ≡ true
      → req.arguments ≡ key ∷ arguments
      → contains w (ids_at key s.watcher_clients) ≡ true
      → contains w s.clients ≡ true
      → queues req c s ≡ false
      → (execute_entry e req c s).0 ≡ replied data'
      → ((execute_entry e req c s).1.object w).dirty_compare_and_set ≡ true
  unfolding execute_entry
  execute_entry_marks w c key arguments e req s h ne is_write args listed online now =
      elim (Bool-cases (wrong_count e req)) [
        | inl wrong ↦ rw wrong (λ r. cc)
        | inr right ↦ rw right (elim (Bool-cases (loading req s)) [
          | inl l ↦ rw l (λ r. cc)
          | inr ready ↦
              rw (ready, now) (run_marks w c key arguments e req s h ne is_write args listed online)
        ])
      ]

  -- A client that is out of its transaction, with nothing watched.
  pub record IsReset (w : ℕ) (s t : Server Z) : Type 0 where
    pub store : t.store ≡ s.store
    pub mode : (t.object w).mode ≡ normal
    pub queue : (t.object w).command_queue ≡ []
    pub watched : (t.object w).watched_keys ≡ []
    pub dirty : (t.object w).dirty_compare_and_set ≡ false

  pub reset_transaction_state-IsReset :
      (w : ℕ) (s : Server Z) → IsReset w s (reset_transaction_state w s)
  unfolding reset_transaction_state unwatch_all put_client
  reset_transaction_state-IsReset w s = record {
    store = refl;
    mode = rw (==_refl w);
    queue = rw (==_refl w);
    watched = rw (==_refl w);
    dirty = rw (==_refl w);
  }

  answer-IsReset :
      (w : ℕ) (data' : Bytes) {s t : Server Z} → IsReset w s t → IsReset w s (answer w data' t).1
  unfolding answer write_to put_client
  answer-IsReset w data' h = record {
    store = h.store;
    mode = rw (==_refl w) h.mode;
    queue = rw (==_refl w) h.queue;
    watched = rw (==_refl w) h.watched;
    dirty = rw (==_refl w) h.dirty;
  }

  exec_in_dirty :
      (handlers : Handlers Z) (req : Request) (w : ℕ) (s : Server Z) (a b : Bool)
      → a ≡ true
      → b ≡ true
      → exec_in a b handlers req w s ≡ answer w marshal_null_array (reset_transaction_state w s)
  unfolding exec_in
  exec_in_dirty handlers req w s true true p q = refl
  exec_in_dirty handlers req w s true false p q = cc
  exec_in_dirty handlers req w s false b p q = cc

  -- EXEC of a client in a transaction whose flag is set executes nothing, replies the null array and
  -- takes the client out of its transaction.
  pub dirty_exec_aborts :
      (handlers : Handlers Z) (req : Request) (w : ℕ) (s : Server Z)
      → (s.object w).mode ≡ transaction
      → (s.object w).dirty_compare_and_set ≡ true
      → (handle_exec handlers req w s ≡ answer w marshal_null_array (reset_transaction_state w s))
        × IsReset w s (handle_exec handlers req w s).1
  dirty_exec_aborts handlers req w s m d =
      let in_it : in_transaction (s.object w).mode ≡ true =
        unfold in_transaction in ap in_transaction m in
      let e : handle_exec handlers req w s
          ≡ answer w marshal_null_array (reset_transaction_state w s) =
        unfold handle_exec in exec_in_dirty handlers req w s _ _ in_it d in
      (
        e,
        subst (λ r. IsReset w s r.1) (sym e)
            (answer-IsReset w marshal_null_array (reset_transaction_state-IsReset w s)),
      )

execute_marks :
    {Z : Type 0} (handlers : Handlers Z) (w c : ℕ) (key : Bytes) (arguments : List Bytes)
    (e : CommandEntry Z) (req : Request) (s : Server Z) {data' : Bytes}
    → AllConsiderate handlers
    → c ≢ w
    → handlers req.command ≡ some e
    → e.is_write ≡ true
    → req.arguments ≡ key ∷ arguments
    → contains w (ids_at key s.watcher_clients) ≡ true
    → contains w s.clients ≡ true
    → queues req c s ≡ false
    → (execute handlers req c s).0 ≡ replied data'
    → ((execute handlers req c s).1.object w).dirty_compare_and_set ≡ true
unfolding execute
execute_marks handlers w c key arguments e req s considerate ne known is_write args listed online
      now =
    rw (known, execute)
      (execute_entry_marks w c key arguments e req s (considerate req.command e known) ne is_write
        args listed online now)

-- Where every handler is considerate, and a client is in a transaction, connected and in a key's list
-- of watchers: other clients make any rounds, one of them then requests, in no subscription, a write
-- command on that key that is executed at once and returns a reply, and others make any rounds again;
-- EXEC of the first client then executes nothing, replies the null array and takes it out of its
-- transaction.
pub watched_write_aborts :
    {Z : Type 0} (handlers : Handlers Z) (w c : ℕ) (key : Bytes) (arguments : List Bytes)
    (e : CommandEntry Z) (req exec : Request) {s t u : Server Z} {data' : Bytes}
    → AllConsiderate handlers
    → (s.object w).mode ≡ transaction
    → contains w s.clients ≡ true
    → 0 < count w (ids_at key s.watcher_clients)
    → Others handlers w s t
    → c ≢ w
    → handlers req.command ≡ some e
    → e.is_write ≡ true
    → req.arguments ≡ key ∷ arguments
    → queues req c t ≡ false
    → in_subscription (t.object c).mode ≡ false
    → bytes_eq req.command (codes "exec") ≡ false
    → (execute handlers req c t).0 ≡ replied data'
    → Others handlers w (handle_request handlers req c t).1 u
    → (handle_exec handlers exec w u ≡ answer w marshal_null_array (reset_transaction_state w u))
      × IsReset w u (handle_exec handlers exec w u).1
watched_write_aborts handlers w c key arguments e req exec {s} {t} {u} considerate m online listed
      before ne known is_write args now normal_ other replied_ after =
    let k = Others-Keeps handlers considerate w before in
    let listed_t : contains w (ids_at key t.watcher_clients) ≡ true =
      rw (contains-count, k.lists key) (ground arith) in
    let online_t : contains w t.clients ≡ true = rw k.clients online in
    let marked =
      execute_marks handlers w c key arguments e req t considerate ne known is_write args listed_t
        online_t now replied_ in
    let rest : Keeps w (execute handlers req c t).1 (handle_request handlers req c t).1 =
      unfold handle_request in rw (normal_, other) (finish_reply-Keeps w handlers req _ c _) in
    let kept = Others-Keeps handlers considerate w after in
    let whole = handle_request-Keeps handlers considerate w c ne req t in
    dirty_exec_aborts handlers exec w u (kept.mode ∙ whole.mode ∙ k.mode ∙ m)
      (kept.dirty (rest.dirty marked))
