-- ===== src/Server/Commands/Broadcast.antt =====
-- server/commad_handlers.go: to whom PUBLISH delivers.
use tiny_red.Base.{
  ℕ, zero, suc, ◌+◌, ◌≡◌, refl, sym, ap, subst, ◌∙◌, ◌&&◌, Bool, true, false, List, [], ◌∷◌, ◌++◌,
  append_assoc, append-nil, arith, Bytes, bytes_eq, bytes_eq_iff, ◌==◌, ==_refl, All, length, pos,
  if◌then◌else◌, Bool-cases, inl, inr,
}
use tiny_red.Base.Map
use tiny_red.Base.Map.{lookup-insert}
use tiny_red.Resp.Marshal.{marshal_integer}
use tiny_red.Server.Types.{Server, Reply, replied}
use tiny_red.Server.Clients.{contains, ids_at, put_client, write_to, write}
use tiny_red.Server.Ids.{count, count-append}
use tiny_red.Server.Commands.Arguments.{with_argument}
use tiny_red.Server.Commands.Sessions.{
  registered, message, publish_to, publish, handle_publish, subscribe, handle_subscribe,
}

-- That many copies, one behind the other.
unfoldable pub copies : ℕ → Bytes → Bytes
copies zero bytes = []
copies (suc n) bytes = bytes ++ copies n bytes

pub copies-step :
    (b : Bool) (n : ℕ) (bytes : Bytes)
    → copies ((if b then 1 else 0) + n) bytes ≡ (if b then bytes else []) ++ copies n bytes
unfolding copies
copies-step true n bytes = let e : 1 + n ≡ suc n = omega arith in ap (λ m. copies m bytes) e
copies-step false n bytes = let e : 0 + n ≡ n = omega arith in ap (λ m. copies m bytes) e

ids_at-insert :
    (k j : Bytes) (ids : List ℕ) (m : Map.Map (List ℕ))
    → ids_at j (Map.insert k ids m) ≡ (if bytes_eq k j then ids else ids_at j m)
unfolding ids_at
ids_at-insert k j ids m = rw lookup-insert (ground arith)

count-single : (c w : ℕ) → count w (c ∷ []) ≡ (if c == w then 1 else 0)
unfolding count
count-single c w = ground arith

one_more :
    (k j : Bytes) (c w : ℕ) (m : Map.Map (List ℕ))
    → count w (if bytes_eq k j then ids_at k m ++ c ∷ [] else ids_at j m)
      ≡ count w (ids_at j m) + (if bytes_eq k j && (c == w) then 1 else 0)
one_more k j c w m = elim (Bool-cases (bytes_eq k j)) [
  | inl same ↦
      let e : k ≡ j = ground (arith, bytes_eq_iff k j) in
      rw (same, count-append, count-single)
        (ap (λ i. count w (ids_at i m) + (if c == w then 1 else 0)) e)
  | inr different ↦ rw different (ground arith)
]

count-registered :
    (clients ids : List ℕ) (w : ℕ)
    → count w (registered clients ids) ≡ (if contains w clients then count w ids else 0)
unfolding count registered
count-registered clients [] w = ground arith
count-registered clients (x ∷ ids) w = elim (Bool-cases (contains x clients)) [
  | inl on ↦ rw on (ground (arith, count-registered clients ids w))
  | inr off ↦ rw off (ground (arith, count-registered clients ids w))
]

module _ {Z : Type 0} where
  abbrev pub CanWrite : Server Z → ℕ → Type 0
  CanWrite s id = (s.object id).conn.writable ≡ true

  pub write_to-CanWrite :
      (id w : ℕ) (bytes : Bytes) (s : Server Z) → CanWrite s w → CanWrite (write_to id bytes s) w
  unfolding write_to put_client write
  write_to-CanWrite id w bytes s h = ground arith

  pub write_to-All :
      (id : ℕ) (bytes : Bytes) (s : Server Z) (ids : List ℕ)
      → All (CanWrite s) ids
      → All (CanWrite (write_to id bytes s)) ids
  write_to-All id bytes s [] h = h
  write_to-All id bytes s (x ∷ ids) (p, h) =
      (write_to-CanWrite id x bytes s p, write_to-All id bytes s ids h)

  registered-All :
      (s : Server Z) (ids : List ℕ)
      → ((id : ℕ) → contains id s.clients ≡ true → CanWrite s id)
      → All (CanWrite s) (registered s.clients ids)
  unfolding registered
  registered-All s [] h = _
  registered-All s (x ∷ ids) h = elim (Bool-cases (contains x s.clients)) [
    | inl on ↦ rw on (h x on, registered-All s ids h)
    | inr off ↦ rw off (registered-All s ids h)
  ]

  written_same :
      (w : ℕ) (bytes : Bytes) (s : Server Z)
      → CanWrite s w
      → ((write_to w bytes s).object w).conn.written ≡ (s.object w).conn.written ++ bytes
  unfolding write_to put_client write
  written_same w bytes s h = rw (==_refl w, h) refl

  pub written_other :
      (id w : ℕ) (bytes : Bytes) (s : Server Z)
      → (w == id) ≡ false
      → ((write_to id bytes s).object w).conn.written ≡ (s.object w).conn.written
  unfolding write_to put_client
  written_other id w bytes s h = rw h refl

  pub written-write_to :
      (id w : ℕ) (bytes : Bytes) (s : Server Z)
      → CanWrite s id
      → ((write_to id bytes s).object w).conn.written
        ≡ (s.object w).conn.written ++ (if id == w then bytes else [])
  written-write_to id w bytes s h = elim (Bool-cases (id == w)) [
    | inl same ↦
        let e : id ≡ w = ground arith in
        rw same (
          subst
            (λ k. ((write_to k bytes s).object w).conn.written ≡ (s.object w).conn.written ++ bytes)
            (sym e) (written_same w bytes s (subst (CanWrite s) e h)))
    | inr other ↦ rw (other, append-nil) (written_other id w bytes s (ground arith))
  ]

  publish_to_lem :
      (ids : List ℕ) (bytes : Bytes) (result : Reply) (s : Server Z) (w : ℕ)
      → All (CanWrite s) ids
      → ((publish_to ids bytes result s).0 ≡ result)
        × (((publish_to ids bytes result s).1.object w).conn.written
            ≡ (s.object w).conn.written ++ copies (count w ids) bytes)
  unfolding publish_to count copies
  publish_to_lem [] bytes result s w h = (refl, sym (append-nil _))
  publish_to_lem (x ∷ ids) bytes result s w (p, h) =
      let rest =
        publish_to_lem ids bytes result (write_to x bytes s) w (write_to-All x bytes s ids h) in
      rw p (rest.0, rest.1 ∙ rw (written-write_to x w bytes s p, copies-step, append_assoc) refl)

  -- PUBLISH while every registered client can be written to sends each client the message as often as
  -- it stands in the list of the channel's subscribers, sends nothing to a client that is not
  -- registered, and replies the number of messages that were sent.
  pub handle_publish_lem :
      (command channel body : Bytes) (c w : ℕ) (s : Server Z)
      → ((id : ℕ) → contains id s.clients ≡ true → (s.object id).conn.writable ≡ true)
      → let r =
          handle_publish (record { command = command; arguments = channel ∷ body ∷ [] }) c s in
        let subscribers = ids_at channel s.subscribers in
        (r.0 ≡ replied (marshal_integer (pos (length (registered s.clients subscribers)))))
        × ((r.1.object w).conn.written
            ≡ (s.object w).conn.written
              ++ copies
                  (if contains w s.clients then count w subscribers else 0)
                  (message channel body))
  unfolding handle_publish with_argument publish
  handle_publish_lem command channel body c w s online =
      let ids = registered s.clients (ids_at channel s.subscribers) in
      rw (← count-registered) (
        publish_to_lem ids (message channel body) (replied (marshal_integer (pos (length ids)))) s w
          (registered-All s (ids_at channel s.subscribers) online))

  -- SUBSCRIBE enters the client once more in the list of its channel, subscribed or not, and nobody
  -- else in any list.
  pub handle_subscribe_lem :
      (command channel other : Bytes) (c w : ℕ) (s : Server Z)
      → let t = (handle_subscribe (record { command = command; arguments = channel ∷ [] }) c s).1 in
        count w (ids_at other t.subscribers)
        ≡ count w (ids_at other s.subscribers)
          + (if bytes_eq channel other && (c == w) then 1 else 0)
  unfolding handle_subscribe with_argument subscribe put_client
  handle_subscribe_lem command channel other c w s =
      rw ids_at-insert (one_more channel other c w s.subscribers)
