-- ===== src/Server/Waiting/Requests.antt =====
-- server/server.go: whatever clients request, none waits on a list that has an element.
use tiny_red.Base.{
  ℕ, ◌≡◌, refl, sym, subst, ◌∙◌, Bool, true, false, Option, none, some, List, [], ◌∷◌, Bytes, codes,
  bytes_eq, Bool-cases, Option-cases, inl, inr,
}
use tiny_red.Store.Types.{Store}
use tiny_red.Store.Idle.{IsIdle}
use tiny_red.Server.Types.{
  Request, Server, Reply, replied, client_error, internal_error, panics, blocks, CommandEntry,
}
use tiny_red.Server.Clients.{contains, put_client, write_to}
use tiny_red.Server.Execute.{
  Handlers, mark_one, mark_dirty, mark_watchers, after_write, after_handler, run, wrong_count,
  loading, queues, enqueue, execute_entry, execute,
}
use tiny_red.Server.Connection.{
  Ran, finished, stopped, answer, append_to, append_aof, write_all, tell_replicas, propagate,
  answer_all, after_queue, add_replica, delete_replica, answer_psync, finish_told, finish,
  finish_error, finish_reply,
}
use tiny_red.Server.Waiting.{KeepsIdle}
use tiny_red.Server.Waiting.Handlers.{write_to-store}

-- Every handler of the table keeps it that no client waits in vain.
abbrev pub AllKeepIdle : {Z : Type 0} → Handlers Z → Type 0
AllKeepIdle {Z} handlers =
    (name : Bytes) (e : CommandEntry Z) → handlers name ≡ some e → KeepsIdle e.handler

-- The store of a server that may not be there.
abbrev HasStore : {Z : Type 0} → Store Z → Option (Server Z) → Type 0
HasStore st none = Unit
HasStore st (some t) = t.store ≡ st

module _ {Z : Type 0} where
  mark_dirty-store : (ids : List ℕ) (s : Server Z) → (mark_dirty ids s).store ≡ s.store
  unfolding mark_dirty mark_one put_client
  mark_dirty-store [] s = refl
  mark_dirty-store (id ∷ ids) s = elim (Bool-cases (contains id s.clients)) [
    | inl on ↦ mark_dirty-store ids (mark_one id s) ∙ rw on refl
    | inr off ↦ mark_dirty-store ids (mark_one id s) ∙ rw off refl
  ]

  pub after_write-store :
      (b : Bool) (args : List Bytes) (d : Bytes) (s : Server Z)
      → (after_write b args d s).1.store ≡ s.store
  unfolding after_write mark_watchers
  after_write-store false args d s = refl
  after_write-store true [] d s = refl
  after_write-store true (key ∷ args) d s = mark_dirty-store _ s

  after_handler-store :
      (b : Bool) (args : List Bytes) (r : Reply) (s : Server Z)
      → (after_handler b args r s).1.store ≡ s.store
  unfolding after_handler
  after_handler-store b args (replied d) s = after_write-store b args d s
  after_handler-store b args (client_error e) s = refl
  after_handler-store b args internal_error s = refl
  after_handler-store b args panics s = refl
  after_handler-store b args (blocks w f) s = refl

  run-IsIdle :
      (e : CommandEntry Z) (req : Request) (c : ℕ) (s : Server Z)
      → KeepsIdle e.handler
      → IsIdle s.store
      → IsIdle (run e req c s).1.store
  unfolding run
  run-IsIdle e req c s k h =
      subst IsIdle (sym (after_handler-store e.is_write req.arguments _ _)) (k req c s h)

  execute_entry-IsIdle :
      (e : CommandEntry Z) (req : Request) (c : ℕ) (s : Server Z)
      → KeepsIdle e.handler
      → IsIdle s.store
      → IsIdle (execute_entry e req c s).1.store
  unfolding execute_entry enqueue put_client
  execute_entry-IsIdle e req c s k h = elim (Bool-cases (wrong_count e req)) [
    | inl wrong ↦ rw wrong h
    | inr right ↦ rw right (elim (Bool-cases (loading req s)) [
      | inl l ↦ rw l h
      | inr ready ↦ rw ready (elim (Bool-cases (queues req c s)) [
        | inl q ↦ rw q h
        | inr now ↦ rw now (run-IsIdle e req c s k h)
      ])
    ])
  ]

  pub execute-IsIdle :
      (handlers : Handlers Z) (req : Request) (c : ℕ) (s : Server Z)
      → AllKeepIdle handlers
      → IsIdle s.store
      → IsIdle (execute handlers req c s).1.store
  unfolding execute
  execute-IsIdle handlers req c s all h = elim (Option-cases (handlers req.command)) [
    | inl unknown ↦ rw (unknown, execute) h
    | inr (e, known) ↦
        rw (known, execute) (execute_entry-IsIdle e req c s (all req.command e known) h)
  ]

  write_all-store : (ids : List ℕ) (d : Bytes) (s : Server Z) → (write_all ids d s).store ≡ s.store
  unfolding write_all
  write_all-store [] d s = refl
  write_all-store (id ∷ ids) d s = write_all-store ids d (write_to id d s) ∙ write_to-store id d s

  append_to-store :
      (o : Option Bytes) (d : Bytes) (s : Server Z) → HasStore s.store (append_to o d s)
  unfolding append_to
  append_to-store none d s = tt
  append_to-store (some content) d s = refl

  append_aof-store : (d : Bytes) (s : Server Z) → HasStore s.store (append_aof d s)
  unfolding append_aof
  append_aof-store d s = elim (Bool-cases (bytes_eq s.config.appendonly (codes "yes"))) [
    | inl on ↦ rw on (append_to-store s.aof d s)
    | inr off ↦ rw off refl
  ]

  tell_replicas-store :
      (req : Request) (st : Store Z) (o : Option (Server Z))
      → HasStore st o
      → HasStore st (tell_replicas req o)
  unfolding tell_replicas
  tell_replicas-store req st none h = tt
  tell_replicas-store req st (some t) h = write_all-store _ _ t ∙ h

  propagate-store :
      (o : Option (CommandEntry Z)) (req : Request) (d : Bytes) (s : Server Z)
      → HasStore s.store (propagate o req d s)
  unfolding propagate
  propagate-store none req d s = refl
  propagate-store (some e) req d s = elim (Bool-cases e.is_write) [
    | inl w ↦ rw w (tell_replicas-store req s.store _ (append_aof-store d s))
    | inr r ↦ rw r refl
  ]

  pub answer-store : (c : ℕ) (d : Bytes) (s : Server Z) → (answer c d s).1.store ≡ s.store
  unfolding answer
  answer-store c d s = write_to-store c d s

  answer_psync-store : (c : ℕ) (d : Bytes) (s : Server Z) → (answer_psync c d s).1.store ≡ s.store
  unfolding answer_psync add_replica delete_replica write_to put_client
  answer_psync-store c d s = elim (Bool-cases (s.object c).conn.writable) [
    | inl up ↦ rw up refl
    | inr down ↦ rw down refl
  ]

  finish_told-store :
      (req : Request) (d : Bytes) (c : ℕ) (o : Option (Server Z)) (s : Server Z)
      → HasStore s.store o
      → (finish_told req d c o s).1.store ≡ s.store
  unfolding finish_told
  finish_told-store req d c none s h = refl
  finish_told-store req d c (some t) s h =
      elim (Bool-cases (bytes_eq req.command (codes "psync"))) [
        | inl psync ↦ rw psync (answer_psync-store c d t ∙ h)
        | inr other ↦ rw other (answer-store c d t ∙ h)
      ]

  finish-store :
      (handlers : Handlers Z) (req : Request) (d : Bytes) (c : ℕ) (s : Server Z)
      → (finish handlers req d c s).1.store ≡ s.store
  unfolding finish
  finish-store handlers req d c s =
      finish_told-store req d c _ s (propagate-store (handlers req.command) req _ s)

  finish_error-store :
      (handlers : Handlers Z) (req : Request) (d : Bytes) (c : ℕ) (s : Server Z)
      → (finish_error handlers req d c s).1.store ≡ s.store
  unfolding finish_error
  finish_error-store handlers req d c s = elim (Bool-cases (s.object c).conn.writable) [
    | inl up ↦ rw up (finish-store handlers req [] c (write_to c d s) ∙ write_to-store c d s)
    | inr down ↦ rw down refl
  ]

  pub finish_reply-store :
      (handlers : Handlers Z) (req : Request) (r : Reply) (c : ℕ) (s : Server Z)
      → (finish_reply handlers req r c s).1.store ≡ s.store
  unfolding finish_reply
  finish_reply-store handlers req (replied d) c s = finish-store handlers req d c s
  finish_reply-store handlers req (client_error e) c s = finish_error-store handlers req _ c s
  finish_reply-store handlers req internal_error c s = finish_error-store handlers req _ c s
  finish_reply-store handlers req panics c s = refl
  finish_reply-store handlers req (blocks w f) c s = refl

  answer_all-store :
      (c : ℕ) (replies : List Bytes) (o : Option (Server Z)) (s : Server Z)
      → HasStore s.store o
      → (answer_all c replies o s).1.store ≡ s.store
  unfolding answer_all
  answer_all-store c replies none s h = refl
  answer_all-store c replies (some t) s h = answer-store c _ t ∙ h

  pub after_queue-store :
      (handlers : Handlers Z) (req : Request) (queue : List Request) (c : ℕ) (r : Ran)
      (s : Server Z)
      → (after_queue handlers req queue c r s).1.store ≡ s.store
  unfolding after_queue
  after_queue-store handlers req queue c (finished replies) s =
      answer_all-store c replies _ s (propagate-store (handlers req.command) req _ s)
  after_queue-store handlers req queue c (stopped flow) s = refl
