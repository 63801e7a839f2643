-- ===== src/Server/Propagation.antt =====
-- server/server.go: what `HandleConnection` sends to the replicas.
use tiny_red.Base.{
  ℕ, ◌≡◌, ◌≢◌, refl, sym, ◌∙◌, true, false, Option, none, some, List, [], ◌∷◌, ◌++◌, append_assoc,
  append-nil, Bytes, codes, bytes_eq, ◌==◌, Bool-cases, inl, inr, ◌⊎◌, arith, All,
}
use tiny_red.Server.Types.{
  Request, Server, Reply, replied, client_error, internal_error, panics, blocks, CommandEntry,
}
use tiny_red.Server.Clients.{put_client, write_to}
use tiny_red.Server.Execute.{Handlers, execute}
use tiny_red.Server.Ids.{count}
use tiny_red.Server.Connection.{
  bytes, reply_bytes, answer, append_to, append_aof, write_all, tell_replicas, propagate,
  answer_psync, finish_told, finish, finish_error, finish_reply, in_subscription, handle_request,
  add_replica, delete_replica,
}
use tiny_red.Server.Connection.Requests.{get_request_in_resp}
use tiny_red.Server.Commands.Broadcast.{
  copies, copies-step, CanWrite, write_to-All, written-write_to, written_other,
}
use tiny_red.Server.Logging.{IsLogging}

-- The append-only file is not configured, or it is open.
abbrev pub CanLog : {Z : Type 0} → Bytes → Server Z → Type 0
CanLog content s = (bytes_eq s.config.appendonly (codes "yes") ≡ false) ⊎ IsLogging content s

module _ {Z : Type 0} where
  write_all-written :
      (ids : List ℕ) (d : Bytes) (s : Server Z) (w : ℕ)
      → All (CanWrite s) ids
      → ((write_all ids d s).object w).conn.written
        ≡ (s.object w).conn.written ++ copies (count w ids) d
  unfolding write_all count copies
  write_all-written [] d s w h = sym (append-nil _)
  write_all-written (x ∷ ids) d s w (p, h) =
      write_all-written ids d (write_to x d s) w (write_to-All x d s ids h)
      ∙ rw (written-write_to x w d s p, copies-step, append_assoc) refl

  -- What one client has been sent, on a server that is there.
  Wrote : ℕ → Bytes → Option (Server Z) → Type 0
  Wrote w b none = ⊥
  Wrote w b (some t) = (t.object w).conn.written ≡ b

  propagate-Wrote :
      (w : ℕ) (e : CommandEntry Z) (req : Request) (content d : Bytes) (s : Server Z)
      → e.is_write ≡ true
      → CanLog content s
      → All (CanWrite s) s.node_config.replica_nodes
      → Wrote w
          ((s.object w).conn.written
            ++ copies (count w s.node_config.replica_nodes) (get_request_in_resp req))
          (propagate (some e) req d s)
  unfolding propagate append_aof append_to tell_replicas Wrote bytes_eq
  propagate-Wrote w e req content d s write_ (inl off) h =
      rw (write_, off) (write_all-written s.node_config.replica_nodes _ s w h)
  propagate-Wrote w e req content d s write_ (inr on) h =
      simp (write_, on.on, on.file) (write_all-written s.node_config.replica_nodes _ _ w h)

  written-answer :
      (w c : ℕ) (d : Bytes) (s : Server Z)
      → (w == c) ≡ false
      → ((answer c d s).1.object w).conn.written ≡ (s.object w).conn.written
  unfolding answer
  written-answer w c d s ne = written_other c w d s ne

  written-answer_psync :
      (w c : ℕ) (d : Bytes) (s : Server Z)
      → (w == c) ≡ false
      → ((answer_psync c d s).1.object w).conn.written ≡ (s.object w).conn.written
  unfolding answer_psync add_replica delete_replica write_to put_client
  written-answer_psync w c d s ne = elim (Bool-cases (s.object c).conn.writable) [
    | inl up ↦ rw (up, ne) refl
    | inr down ↦ rw (down, ne) refl
  ]

  finish_told-Wrote :
      (w : ℕ) (b : Bytes) (req : Request) (d : Bytes) (c : ℕ) (o : Option (Server Z)) (s : Server Z)
      → (w == c) ≡ false
      → Wrote w b o
      → ((finish_told req d c o s).1.object w).conn.written ≡ b
  unfolding finish_told Wrote
  finish_told-Wrote w b req d c none s ne h = elim h [ ]
  finish_told-Wrote w b req d c (some t) s ne h =
      elim (Bool-cases (bytes_eq req.command (codes "psync"))) [
        | inl psync ↦ rw psync (written-answer_psync w c d t ne ∙ h)
        | inr other ↦ rw other (written-answer w c d t ne ∙ h)
      ]

  finish_sends :
      (w : ℕ) (handlers : Handlers Z) (req : Request) (d content : Bytes) (c : ℕ) (s : Server Z)
      {e : CommandEntry Z}
      → (w == c) ≡ false
      → handlers req.command ≡ some e
      → e.is_write ≡ true
      → CanLog content s
      → All (CanWrite s) s.node_config.replica_nodes
      → ((finish handlers req d c s).1.object w).conn.written
        ≡ (s.object w).conn.written
          ++ copies (count w s.node_config.replica_nodes) (get_request_in_resp req)
  unfolding finish
  finish_sends w handlers req d content c s {e} ne known is_write log h =
      finish_told-Wrote w _ req d c _ s ne
        (rw known (propagate-Wrote w e req content _ s is_write log h))

  write_to-CanLog :
      (id : ℕ) (d content : Bytes) (s : Server Z)
      → CanLog content s
      → CanLog content (write_to id d s)
  unfolding write_to put_client
  write_to-CanLog id d content s (inl off) = inl off
  write_to-CanLog id d content s (inr on) = inr (record { on = on.on; file = on.file })

  nodes-write_to :
      (id : ℕ) (d : Bytes) (s : Server Z) → (write_to id d s).node_config ≡ s.node_config
  unfolding write_to put_client
  nodes-write_to id d s = refl

  finish_error_sends :
      (w : ℕ) (handlers : Handlers Z) (req : Request) (text content : Bytes) (c : ℕ) (s : Server Z)
      {e : CommandEntry Z}
      → (w == c) ≡ false
      → handlers req.command ≡ some e
      → e.is_write ≡ true
      → CanLog content s
      → (s.object c).conn.writable ≡ true
      → All (CanWrite s) s.node_config.replica_nodes
      → ((finish_error handlers req text c s).1.object w).conn.written
        ≡ (s.object w).conn.written
          ++ copies (count w s.node_config.replica_nodes) (get_request_in_resp req)
  unfolding finish_error
  finish_error_sends w handlers req text content c s ne known is_write log up h = simp up (
      finish_sends w handlers req [] content c (write_to c text s) ne known is_write
        (write_to-CanLog c text content s log)
        (rw nodes-write_to (write_to-All c text s s.node_config.replica_nodes h))
      ∙ rw (nodes-write_to, written_other c w text s ne) refl)

  finish_reply_sends :
      (w : ℕ) (handlers : Handlers Z) (req : Request) (r : Reply) (content : Bytes) (c : ℕ)
      (s : Server Z) {e : CommandEntry Z} {b : Bytes}
      → (w == c) ≡ false
      → handlers req.command ≡ some e
      → e.is_write ≡ true
      → CanLog content s
      → (s.object c).conn.writable ≡ true
      → All (CanWrite s) s.node_config.replica_nodes
      → reply_bytes r ≡ bytes b
      → ((finish_reply handlers req r c s).1.object w).conn.written
        ≡ (s.object w).conn.written
          ++ copies (count w s.node_config.replica_nodes) (get_request_in_resp req)
  unfolding finish_reply reply_bytes
  finish_reply_sends w handlers req (replied d) content c s ne known is_write log up h k =
      finish_sends w handlers req d content c s ne known is_write log h
  finish_reply_sends w handlers req (client_error x) content c s ne known is_write log up h k =
      finish_error_sends w handlers req _ content c s ne known is_write log up h
  finish_reply_sends w handlers req internal_error content c s ne known is_write log up h k =
      finish_error_sends w handlers req _ content c s ne known is_write log up h
  finish_reply_sends w handlers req panics content c s ne known is_write log up h k = cc
  finish_reply_sends w handlers req (blocks x f) content c s ne known is_write log up h k = cc

  -- A request whose command is a write, outside a subscription and other than EXEC, of a client that
  -- can be written to, whose execution neither panics nor blocks: where the append-only file is not
  -- configured or is open, and each replica can be written to, every other client is sent the request
  -- once for each time that it stands among the replicas, and nothing else, in that round after the
  -- execution: also where the reply is QUEUED or an error.
  pub write_is_sent :
      (handlers : Handlers Z) (req : Request) (c w : ℕ) (s : Server Z) (content : Bytes)
      {e : CommandEntry Z} {b : Bytes}
      → w ≢ c
      → handlers req.command ≡ some e
      → e.is_write ≡ true
      → in_subscription (s.object c).mode ≡ false
      → bytes_eq req.command (codes "exec") ≡ false
      → CanLog content (execute handlers req c s).1
      → ((execute handlers req c s).1.object c).conn.writable ≡ true
      → All
          (CanWrite (execute handlers req c s).1)
          (execute handlers req c s).1.node_config.replica_nodes
      → reply_bytes (execute handlers req c s).0 ≡ bytes b
      → let t = (execute handlers req c s).1 in
        ((handle_request handlers req c s).1.object w).conn.written
        ≡ (t.object w).conn.written
          ++ copies (count w t.node_config.replica_nodes) (get_request_in_resp req)
  unfolding handle_request
  write_is_sent handlers req c w s content ne known is_write normal_ other log up h k =
      rw (normal_, other)
        (finish_reply_sends w handlers req _ content c _ (ground arith) known is_write log up h k)
