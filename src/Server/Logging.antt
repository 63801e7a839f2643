-- ===== src/Server/Logging.antt =====
-- server/server.go: which requests `HandleConnection` appends to the append-only file.
use tiny_red.Base.{
  ℕ, ◌≡◌, refl, ◌∙◌, true, false, Option, none, some, List, [], ◌∷◌, ◌++◌, Bytes, codes, bytes_eq,
  to_upper, Bool-cases, inl, inr, arith,
}
use tiny_red.Server.Types.{
  Request, Server, Reply, replied, client_error, internal_error, panics, blocks, CommandEntry,
}
use tiny_red.Server.Clients.{put_client, write_to}
use tiny_red.Server.Execute.{Handlers, execute}
use tiny_red.Server.Connection.{
  bytes, reply_bytes, answer, append_to, append_aof, write_all, tell_replicas, propagate,
  answer_psync, finish_told, finish, finish_error, finish_reply, in_subscription, handle_request,
  add_replica, delete_replica,
}
use tiny_red.Server.Connection.Requests.{command_in_resp}

-- What the log of write commands gets for a request.
unfoldable pub logged : Request → Bytes
logged req = command_in_resp (to_upper req.command) req.arguments

-- The file is open, and appending is configured.
pub record IsLogging {Z : Type 0} (content : Bytes) (s : Server Z) : Type 0 where
  pub on : s.config.appendonly ≡ codes "yes"
  pub file : s.aof ≡ some content

module _ {Z : Type 0} where
  aof-write_to : (id : ℕ) (data' : Bytes) (s : Server Z) → (write_to id data' s).aof ≡ s.aof
  unfolding write_to put_client
  aof-write_to id data' s = refl

  write_to-IsLogging :
      (id : ℕ) (data' content : Bytes) (s : Server Z)
      → IsLogging content s
      → IsLogging content (write_to id data' s)
  unfolding write_to put_client
  write_to-IsLogging id data' content s h = record { on = h.on; file = h.file }

  aof-write_all :
      (ids : List ℕ) (data' : Bytes) (s : Server Z) → (write_all ids data' s).aof ≡ s.aof
  unfolding write_all
  aof-write_all [] data' s = refl
  aof-write_all (id ∷ ids) data' s =
      aof-write_all ids data' (write_to id data' s) ∙ aof-write_to id data' s

  -- A server whose log is this.
  Logs : Bytes → Option (Server Z) → Type 0
  Logs content none = ⊥
  Logs content (some s) = s.aof ≡ some content

  propagate-Logs :
      (e : CommandEntry Z) (req : Request) (content data' : Bytes) (s : Server Z)
      → e.is_write ≡ true
      → IsLogging content s
      → Logs (content ++ data') (propagate (some e) req data' s)
  unfolding propagate append_aof append_to tell_replicas Logs bytes_eq
  propagate-Logs e req content data' s w h = simp (w, h.on, h.file) (aof-write_all _ _ _)

  answer_psync-aof : (c : ℕ) (data' : Bytes) (s : Server Z) → (answer_psync c data' s).1.aof ≡ s.aof
  unfolding answer_psync add_replica delete_replica write_to put_client
  answer_psync-aof c data' s = ground arith

  finish_told-Logs :
      (req : Request) (data' content : Bytes) (c : ℕ) (o : Option (Server Z)) (s : Server Z)
      → Logs content o
      → (finish_told req data' c o s).1.aof ≡ some content
  unfolding finish_told Logs answer write_to
  finish_told-Logs req data' content c none s h = elim h [ ]
  finish_told-Logs req data' content c (some t) s h =
      elim (Bool-cases (bytes_eq req.command (codes "psync"))) [
        | inl psync ↦ rw psync (answer_psync-aof c data' t ∙ h)
        | inr other ↦ rw other h
      ]

  finish_logs :
      (handlers : Handlers Z) (req : Request) (data' content : Bytes) (c : ℕ) (s : Server Z)
      {e : CommandEntry Z}
      → handlers req.command ≡ some e
      → e.is_write ≡ true
      → IsLogging content s
      → (finish handlers req data' c s).1.aof ≡ some (content ++ logged req)
  unfolding finish logged
  finish_logs handlers req data' content c s {e} known w h =
      finish_told-Logs req data' _ c _ s (rw known (propagate-Logs e req content _ s w h))

  finish_reply_logs :
      (handlers : Handlers Z) (req : Request) (r : Reply) (content : Bytes) (c : ℕ) (s : Server Z)
      {e : CommandEntry Z} {b : Bytes}
      → handlers req.command ≡ some e
      → e.is_write ≡ true
      → IsLogging content s
      → (s.object c).conn.writable ≡ true
      → reply_bytes r ≡ bytes b
      → (finish_reply handlers req r c s).1.aof ≡ some (content ++ logged req)
  unfolding finish_reply finish_error reply_bytes
  finish_reply_logs handlers req (replied d) content c s known w h up k =
      finish_logs handlers req d content c s known w h
  finish_reply_logs handlers req (client_error x) content c s known w h up k = simp up (
      finish_logs handlers req [] content c (write_to c _ s) known w
        (write_to-IsLogging c _ content s h))
  finish_reply_logs handlers req internal_error content c s known w h up k = simp up (
      finish_logs handlers req [] content c (write_to c _ s) known w
        (write_to-IsLogging c _ content s h))
  finish_reply_logs handlers req panics content c s known w h up k = cc
  finish_reply_logs handlers req (blocks x f) content c s known w h up k = cc

  -- A request whose command is a write, outside a subscription and other than EXEC, of a client that
  -- can be written to, whose execution neither panics nor blocks and leaves the append-only file open
  -- and configured, is appended to the file as its command in upper case and its arguments: also where
  -- the reply is QUEUED or an error.
  pub write_is_logged :
      (handlers : Handlers Z) (req : Request) (c : ℕ) (s : Server Z) (content : Bytes)
      {e : CommandEntry Z} {b : Bytes}
      → handlers req.command ≡ some e
      → e.is_write ≡ true
      → in_subscription (s.object c).mode ≡ false
      → bytes_eq req.command (codes "exec") ≡ false
      → IsLogging content (execute handlers req c s).1
      → ((execute handlers req c s).1.object c).conn.writable ≡ true
      → reply_bytes (execute handlers req c s).0 ≡ bytes b
      → (handle_request handlers req c s).1.aof ≡ some (content ++ logged req)
  unfolding handle_request
  write_is_logged handlers req c s content known w normal_ other h up k =
      rw (normal_, other) (finish_reply_logs handlers req _ content c _ known w h up k)
