-- ===== src/Server/Rounds.antt =====
-- server/server.go: a whole round of the loop of `HandleConnection`, EXEC included, keeps another
-- client's transaction.
use tiny_red.Base.{
  ℕ, ◌≢◌, refl, Bool, true, false, Option, none, some, List, [], ◌∷◌, Bytes, codes, bytes_eq, ◌==◌,
  Bool-cases, inl, inr, not, ◌&&◌, ℤ,
}
use tiny_red.Store.Types.{Store}
use tiny_red.Server.Types.{
  Request, NodeConfig, Server, Reply, replied, client_error, internal_error, panics, blocks,
  CommandEntry,
}
use tiny_red.Server.Clients.{write_to, reset_transaction_state}
use tiny_red.Server.Execute.{Handlers, one_of}
use tiny_red.Server.Connection.{
  Ran, finished, stopped, ReplyBytes, bytes, stop, answer, append_to, append_aof, write_all,
  tell_replicas, propagate, queue_step, writes, after_timeout, resume, execute_in_queue, run_queue,
  answer_all, after_queue, exec_queue, exec_in, handle_exec, add_replica, delete_replica,
  answer_psync, finish_told, finish, finish_error, finish_reply, in_subscription,
  subscribed_mode_commands, handle_request,
}
use tiny_red.Server.Keeps.{Keeps, Keeps-refl, Keeps-trans, Keeps-write_to, Keeps-if}
use tiny_red.Server.Considerate.{reset-Keeps}
use tiny_red.Server.Steps.{AllConsiderate, after_write-Keeps, execute-Keeps}

abbrev IfThere : {Z : Type 0} → ℕ → Server Z → Option (Server Z) → Type 0
IfThere w s none = Unit
IfThere w s (some t) = Keeps w s t

module _ {Z : Type 0} (w : ℕ) where
  Keeps-readers : (n : ℕ) (s : Server Z) → Keeps w s (record s { readers = n })
  Keeps-readers n s = record {
    mode = refl;
    queue = refl;
    watched = refl;
    dirty = λ h. h;
    lists = λ l. refl;
    clients = refl;
  }

  Keeps-later : (st : Store Z) (n : ℤ) (s : Server Z) → Keeps w s (record s { store = st; now = n })
  Keeps-later st n s = record {
    mode = refl;
    queue = refl;
    watched = refl;
    dirty = λ h. h;
    lists = λ l. refl;
    clients = refl;
  }

  Keeps-node : (n : NodeConfig) (s : Server Z) → Keeps w s (record s { node_config = n })
  Keeps-node n s = record {
    mode = refl;
    queue = refl;
    watched = refl;
    dirty = λ h. h;
    lists = λ l. refl;
    clients = refl;
  }

  answer-Keeps : (c : ℕ) (data' : Bytes) (s : Server Z) → Keeps w s (answer c data' s).1
  unfolding answer
  answer-Keeps c data' s = Keeps-write_to c data' s

  append_to-Keeps :
      (o : Option Bytes) (data' : Bytes) (s : Server Z) → IfThere w s (append_to o data' s)
  unfolding append_to
  append_to-Keeps none data' s = tt
  append_to-Keeps (some content) data' s = record {
    mode = refl;
    queue = refl;
    watched = refl;
    dirty = λ h. h;
    lists = λ l. refl;
    clients = refl;
  }

  append_aof-Keeps : (data' : Bytes) (s : Server Z) → IfThere w s (append_aof data' s)
  unfolding append_aof
  append_aof-Keeps data' s = elim (Bool-cases (bytes_eq s.config.appendonly (codes "yes"))) [
    | inl y ↦ rw y (append_to-Keeps s.aof data' s)
    | inr n ↦ rw n (Keeps-refl s)
  ]

  write_all-Keeps :
      (ids : List ℕ) (data' : Bytes) (s : Server Z) → Keeps w s (write_all ids data' s)
  unfolding write_all
  write_all-Keeps [] data' s = Keeps-refl s
  write_all-Keeps (id ∷ ids) data' s =
      Keeps-trans (Keeps-write_to id data' s) (write_all-Keeps ids data' (write_to id data' s))

  tell_replicas-Keeps :
      (req : Request) (s : Server Z) (o : Option (Server Z))
      → IfThere w s o
      → IfThere w s (tell_replicas req o)
  unfolding tell_replicas
  tell_replicas-Keeps req s none h = tt
  tell_replicas-Keeps req s (some t) h = Keeps-trans h (write_all-Keeps _ _ t)

  propagate-Keeps :
      (o : Option (CommandEntry Z)) (req : Request) (logged : Bytes) (s : Server Z)
      → IfThere w s (propagate o req logged s)
  unfolding propagate
  propagate-Keeps none req logged s = Keeps-refl s
  propagate-Keeps (some e) req logged s = elim (Bool-cases e.is_write) [
    | inl y ↦ rw y (tell_replicas-Keeps req s _ (append_aof-Keeps logged s))
    | inr n ↦ rw n (Keeps-refl s)
  ]

  answer_all-Keeps :
      (c : ℕ) (replies : List Bytes) (o : Option (Server Z)) (s : Server Z)
      → IfThere w s o
      → Keeps w s (answer_all c replies o s).1
  unfolding answer_all
  answer_all-Keeps c replies none s h = Keeps-refl s
  answer_all-Keeps c replies (some t) s h = Keeps-trans h (answer-Keeps c _ t)

  after_queue-Keeps :
      (handlers : Handlers Z) (req : Request) (queue : List Request) (c : ℕ) (r : Ran)
      (s : Server Z)
      → Keeps w s (after_queue handlers req queue c r s).1
  unfolding after_queue
  after_queue-Keeps handlers req queue c (stopped flow) s = Keeps-refl s
  after_queue-Keeps handlers req queue c (finished replies) s =
      answer_all-Keeps c replies _ s (propagate-Keeps (handlers req.command) req _ s)

  answer_psync-Keeps : (c : ℕ) (data' : Bytes) (s : Server Z) → Keeps w s (answer_psync c data' s).1
  unfolding answer_psync delete_replica
  answer_psync-Keeps c data' s =
      let added : Keeps w s (add_replica c s) = unfold add_replica in Keeps-node _ s in
      let told = Keeps-trans added (Keeps-write_to c data' (add_replica c s)) in
      let dropped = Keeps-node _ (write_to c data' (add_replica c s)) in
      Keeps-if (s.object c).conn.writable (Keeps-trans told (Keeps-write_to c _ _))
        (Keeps-trans told dropped)

  finish_told-Keeps :
      (req : Request) (data' : Bytes) (c : ℕ) (o : Option (Server Z)) (s : Server Z)
      → IfThere w s o
      → Keeps w s (finish_told req data' c o s).1
  unfolding finish_told
  finish_told-Keeps req data' c none s h = Keeps-refl s
  finish_told-Keeps req data' c (some t) s h =
      elim (Bool-cases (bytes_eq req.command (codes "psync"))) [
        | inl y ↦ rw y (Keeps-trans h (answer_psync-Keeps c data' t))
        | inr n ↦ rw n (Keeps-trans h (answer-Keeps c data' t))
      ]

  finish-Keeps :
      (handlers : Handlers Z) (req : Request) (data' : Bytes) (c : ℕ) (s : Server Z)
      → Keeps w s (finish handlers req data' c s).1
  unfolding finish
  finish-Keeps handlers req data' c s =
      finish_told-Keeps req data' c _ s (propagate-Keeps (handlers req.command) req _ s)

  finish_error-Keeps :
      (handlers : Handlers Z) (req : Request) (text : Bytes) (c : ℕ) (s : Server Z)
      → Keeps w s (finish_error handlers req text c s).1
  unfolding finish_error
  finish_error-Keeps handlers req text c s = elim (Bool-cases (s.object c).conn.writable) [
    | inl y ↦ rw y (Keeps-trans (Keeps-write_to c text s) (finish-Keeps handlers req [] c _))
    | inr n ↦ rw n (Keeps-readers _ s)
  ]

  pub finish_reply-Keeps :
      (handlers : Handlers Z) (req : Request) (r : Reply) (c : ℕ) (s : Server Z)
      → Keeps w s (finish_reply handlers req r c s).1
  unfolding finish_reply
  finish_reply-Keeps handlers req (replied data') c s = finish-Keeps handlers req data' c s
  finish_reply-Keeps handlers req (client_error e) c s = finish_error-Keeps handlers req _ c s
  finish_reply-Keeps handlers req internal_error c s = finish_error-Keeps handlers req _ c s
  finish_reply-Keeps handlers req panics c s = Keeps-refl s
  finish_reply-Keeps handlers req (blocks x limit) c s = Keeps-readers _ s

module _ {Z : Type 0} (handlers : Handlers Z) (h : AllConsiderate handlers) (w c : ℕ)
    (ne : c ≢ w) where
  queue_step-Keeps :
      (b : ReplyBytes) (rest : Ran × Server Z) (s t : Server Z)
      → Keeps w s t
      → Keeps w t rest.1
      → Keeps w s (queue_step b rest t).1
  unfolding queue_step
  queue_step-Keeps (bytes b) rest s t st tr = Keeps-trans st tr
  queue_step-Keeps (stop flow) rest s t st tr = st

  resume-Keeps : (req : Request) (r : Reply) (s : Server Z) → Keeps w s (resume handlers req r s).1
  unfolding resume after_timeout
  resume-Keeps req (blocks x (some limit)) s =
      Keeps-trans (Keeps-later w _ _ s) (after_write-Keeps w (writes (handlers req.command)) _ _ _)
  resume-Keeps req (blocks x none) s = Keeps-refl s
  resume-Keeps req (replied data') s = Keeps-refl s
  resume-Keeps req (client_error e) s = Keeps-refl s
  resume-Keeps req internal_error s = Keeps-refl s
  resume-Keeps req panics s = Keeps-refl s

  execute_in_queue-Keeps :
      (req : Request) (s : Server Z) → Keeps w s (execute_in_queue handlers req c s).1
  unfolding execute_in_queue
  execute_in_queue-Keeps req s =
      Keeps-trans (execute-Keeps handlers w c req s h ne) (resume-Keeps req _ _)

  run_queue-Keeps :
      (queue : List Request) (s : Server Z) → Keeps w s (run_queue handlers queue c s).1
  unfolding run_queue
  run_queue-Keeps [] s = Keeps-refl s
  run_queue-Keeps (req ∷ queue) s =
      queue_step-Keeps _ _ s _ (execute_in_queue-Keeps req s)
        (run_queue-Keeps queue (execute_in_queue handlers req c s).1)

  exec_queue-Keeps : (req : Request) (s : Server Z) → Keeps w s (exec_queue handlers req c s).1
  unfolding exec_queue
  exec_queue-Keeps req s = elim (Bool-cases (s.readers == 0)) [
    | inl y ↦ rw y (
        Keeps-trans (reset-Keeps s ne) (
          Keeps-trans (run_queue-Keeps (s.object c).command_queue (reset_transaction_state c s))
            (after_queue-Keeps w handlers req _ c _ _)))
    | inr n ↦ rw n (Keeps-refl s)
  ]

  exec_in-Keeps :
      (a b : Bool) (req : Request) (s : Server Z) → Keeps w s (exec_in a b handlers req c s).1
  unfolding exec_in
  exec_in-Keeps false b req s = answer-Keeps w c _ s
  exec_in-Keeps true true req s = Keeps-trans (reset-Keeps s ne) (answer-Keeps w c _ _)
  exec_in-Keeps true false req s = exec_queue-Keeps req s

  -- Where every handler is considerate, whatever one client requests, another client keeps its mode,
  -- its queue, its watched keys, its flag if it is set, and its place in every list of watchers, and
  -- the set of connected clients is the same.
  pub handle_request-Keeps :
      (req : Request) (s : Server Z) → Keeps w s (handle_request handlers req c s).1
  unfolding handle_request handle_exec
  handle_request-Keeps req s =
      elim (Bool-cases
        (in_subscription (s.object c).mode && not (one_of req.command subscribed_mode_commands))) [
          | inl y ↦ rw y (answer-Keeps w c _ s)
          | inr n ↦ rw n (elim (Bool-cases (bytes_eq req.command (codes "exec"))) [
            | inl y ↦ rw y (exec_in-Keeps _ _ req s)
            | inr n ↦ rw n (
                Keeps-trans (execute-Keeps handlers w c req s h ne)
                  (finish_reply-Keeps w handlers req _ c _))
          ])
        ]
