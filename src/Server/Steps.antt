-- ===== src/Server/Steps.antt =====
-- server/server.go: a request of one client, executed, keeps another client's transaction.
use tiny_red.Base.{
  ℕ, ◌≡◌, ◌≢◌, refl, Bool, true, false, Option, none, some, List, [], ◌∷◌, Bytes, Bool-cases, inl,
  inr,
}
use tiny_red.Server.Types.{
  Request, Server, Reply, replied, client_error, internal_error, panics, blocks, CommandEntry,
}
use tiny_red.Server.Execute.{
  Handlers, queues, loading, wrong_count, enqueue, mark_watchers, after_write, after_handler, run,
  execute_entry, execute,
}
use tiny_red.Server.Keeps.{Keeps, Keeps-refl, Keeps-trans, Keeps-put_client, Keeps-mark_dirty}
use tiny_red.Server.Considerate.{IsConsiderate}

-- Every handler of the table is considerate.
abbrev pub AllConsiderate : {Z : Type 0} → Handlers Z → Type 0
AllConsiderate {Z} handlers =
    (name : Bytes) (e : CommandEntry Z) → handlers name ≡ some e → IsConsiderate e.handler

module _ {Z : Type 0} where
  pub after_write-Keeps :
      (w : ℕ) (b : Bool) (arguments : List Bytes) (data' : Bytes) (s : Server Z)
      → Keeps w s (after_write b arguments data' s).1
  unfolding after_write mark_watchers
  after_write-Keeps w false arguments data' s = Keeps-refl s
  after_write-Keeps w true [] data' s = Keeps-refl s
  after_write-Keeps w true (key ∷ arguments) data' s = Keeps-mark_dirty _ s

  after_handler-Keeps :
      (w : ℕ) (b : Bool) (arguments : List Bytes) (r : Reply) (s : Server Z)
      → Keeps w s (after_handler b arguments r s).1
  unfolding after_handler
  after_handler-Keeps w b arguments (replied data') s = after_write-Keeps w b arguments data' s
  after_handler-Keeps w b arguments (client_error e) s = Keeps-refl s
  after_handler-Keeps w b arguments internal_error s = Keeps-refl s
  after_handler-Keeps w b arguments panics s = Keeps-refl s
  after_handler-Keeps w b arguments (blocks x limit) s = Keeps-refl s

  run-Keeps :
      (w c : ℕ) (e : CommandEntry Z) (req : Request) (s : Server Z)
      → IsConsiderate e.handler
      → c ≢ w
      → Keeps w s (run e req c s).1
  unfolding run
  run-Keeps w c e req s h ne =
      Keeps-trans (h w c req s ne) (after_handler-Keeps w e.is_write req.arguments _ _)

  execute_entry-Keeps :
      (w c : ℕ) (e : CommandEntry Z) (req : Request) (s : Server Z)
      → IsConsiderate e.handler
      → c ≢ w
      → Keeps w s (execute_entry e req c s).1
  unfolding execute_entry enqueue
  execute_entry-Keeps w c e req s h ne = elim (Bool-cases (wrong_count e req)) [
    | inl wrong ↦ rw wrong (Keeps-refl s)
    | inr right ↦ rw right (elim (Bool-cases (loading req s)) [
      | inl l ↦ rw l (Keeps-refl s)
      | inr ready ↦ rw ready (elim (Bool-cases (queues req c s)) [
        | inl q ↦ rw q (Keeps-put_client c _ s ne)
        | inr now ↦ rw now (run-Keeps w c e req s h ne)
      ])
    ])
  ]

  -- A request of another client, whatever it is, keeps a client's transaction.
  pub execute-Keeps :
      (handlers : Handlers Z) (w c : ℕ) (req : Request) (s : Server Z)
      → AllConsiderate handlers
      → c ≢ w
      → Keeps w s (execute handlers req c s).1
  unfolding execute
  execute-Keeps handlers w c req s h ne = by_entry (handlers req.command) (h req.command)
    where
      by_entry :
          (o : Option (CommandEntry Z))
          → ((e : CommandEntry Z) → o ≡ some e → IsConsiderate e.handler)
          → Keeps w s (execute (λ _. o) req c s).1
      by_entry none k = Keeps-refl s
      by_entry (some e) k = execute_entry-Keeps w c e req s (k e refl) ne
