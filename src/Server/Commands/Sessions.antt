-- ===== src/Server/Commands/Sessions.antt =====
-- server/commad_handlers.go: MULTI, DISCARD, WATCH, UNWATCH, SUBSCRIBE, UNSUBSCRIBE and PUBLISH.
use tiny_red.Base.{
  ℕ, Bool, true, false, none, some, List, [], ◌∷◌, ◌++◌, Bytes, codes, length, pos, if◌then◌else◌,
}
use tiny_red.Base.Map
use tiny_red.Base.Map.{Map}
use tiny_red.Resp.Types.{err_type}
use tiny_red.Resp.Marshal.{
  marshal_simple_string, marshal_bulk_string, marshal_integer, marshal_array,
}
use tiny_red.Server.Types.{
  ClientMode, transaction, subscribed, Server, Reply, replied, internal_error, Handler,
}
use tiny_red.Server.Clients.{
  contains, forget_id, ids_at, put_client, write_to, unwatch_all, reset_transaction_state,
}
use tiny_red.Server.Commands.Arguments.{with_argument, client_err, bulk_array}

abbrev pub ok_reply : Reply
ok_reply = replied (marshal_simple_string (codes "OK"))

-- `exist, ok := m[key]`, read as `ok && exist`.
unfoldable pub is_set : Bytes → Map Bool → Bool
is_set key m = elim (Map.lookup key m) [ none ↦ false | some b ↦ b ]

-- `if !ok || !exist { m[key] = true }`
unfoldable pub mark : Bytes → Map Bool → Map Bool
unfolding is_set
mark key m = if is_set key m then m else Map.insert key true m

-- One round of the loop of `HandleWatch` over the server's map.
unfoldable pub register_watcher : ℕ → Bytes → Map (List ℕ) → Map (List ℕ)
register_watcher id key m =
    let ids = ids_at key m in Map.insert key (if contains id ids then ids else ids ++ id ∷ []) m

unfoldable pub watch_keys : List Bytes → Map Bool → Map Bool
watch_keys [] watched = watched
watch_keys (key ∷ keys) watched = watch_keys keys (mark key watched)

unfoldable pub register_keys : ℕ → List Bytes → Map (List ℕ) → Map (List ℕ)
register_keys id [] m = m
register_keys id (key ∷ keys) m = register_keys id keys (register_watcher id key m)

-- A reply to SUBSCRIBE or UNSUBSCRIBE: the word, the channel, and a count.
unfoldable pub channel_reply : Bytes → Bytes → ℕ → Bytes
channel_reply word channel n =
    marshal_array
      (marshal_bulk_string word ∷ marshal_bulk_string channel ∷ marshal_integer (pos n) ∷ [])

-- The subscribers of a channel whose connection is open.
unfoldable pub registered : List ℕ → List ℕ → List ℕ
registered clients [] = []
registered clients (id ∷ ids) =
    let rest = registered clients ids in if contains id clients then id ∷ rest else rest

unfoldable pub message : Bytes → Bytes → Bytes
message channel text = bulk_array (codes "message" ∷ channel ∷ text ∷ [])

module _ {Z : Type 0} where
  unfoldable pub multi_in : ClientMode → ℕ → Server Z → Reply × Server Z
  multi_in transaction c s = (client_err err_type (codes "MULTI calls can not be nested"), s)
  multi_in _ c s = (ok_reply, put_client c (record (s.object c) { mode = transaction }) s)

  unfoldable pub handle_multi : Handler Z
  unfolding multi_in
  handle_multi req c s = multi_in (s.object c).mode c s

  unfoldable pub discard_in : ClientMode → ℕ → Server Z → Reply × Server Z
  discard_in transaction c s = (ok_reply, reset_transaction_state c s)
  discard_in _ c s = (client_err err_type (codes "DISCARD without MULTI"), s)

  unfoldable pub handle_discard : Handler Z
  unfolding discard_in
  handle_discard req c s = discard_in (s.object c).mode c s

  unfoldable pub watch : List Bytes → ℕ → Server Z → Server Z
  watch keys c s =
      let client = s.object c in
      put_client c (record client { watched_keys = watch_keys keys client.watched_keys })
        (record s { watcher_clients = register_keys c keys s.watcher_clients })

  unfoldable pub watch_in : ClientMode → List Bytes → ℕ → Server Z → Reply × Server Z
  watch_in transaction keys c s =
      (client_err err_type (codes "WATCH inside MULTI is not allowed"), s)
  watch_in _ keys c s = (ok_reply, watch keys c s)

  unfoldable pub handle_watch : Handler Z
  unfolding watch_in
  handle_watch req c s = watch_in (s.object c).mode req.arguments c s

  unfoldable pub handle_unwatch : Handler Z
  handle_unwatch req c s = (ok_reply, unwatch_all c s)

  unfoldable pub subscribe : Bytes → ℕ → Server Z → Reply × Server Z
  subscribe channel c s =
      let client = s.object c in
      let channels = mark channel client.subscribed_channels in
      (
        replied (channel_reply (codes "subscribe") channel (length channels)),
        put_client c (record client { subscribed_channels = channels; mode = subscribed })
            (record s {
              subscribers =
                  Map.insert channel (ids_at channel s.subscribers ++ c ∷ []) s.subscribers;
            }),
      )

  unfoldable pub handle_subscribe : Handler Z
  unfolding with_argument
  handle_subscribe req c s = with_argument 0 req (λ channel. subscribe channel c s) s

  unfoldable pub unsubscribe : Bytes → ℕ → Server Z → Reply × Server Z
  unsubscribe channel c s =
      let client = s.object c in
      let channels = Map.erase channel client.subscribed_channels in
      if is_set channel client.subscribed_channels
      then (
        replied (channel_reply (codes "unsubscribe") channel (length channels)),
        put_client c (record client { subscribed_channels = channels })
            (record s { subscribers = forget_id c channel s.subscribers }),
      )
      else (replied (channel_reply (codes "unsubscribe") channel 0), s)

  unfoldable pub handle_unsubscribe : Handler Z
  unfolding with_argument
  handle_unsubscribe req c s = with_argument 0 req (λ channel. unsubscribe channel c s) s

  -- The loop over the recipients; a failed write ends it.
  unfoldable pub publish_to : List ℕ → Bytes → Reply → Server Z → Reply × Server Z
  publish_to [] data' result s = (result, s)
  publish_to (id ∷ ids) data' result s =
      let rest = publish_to ids data' result (write_to id data' s) in
      if (s.object id).conn.writable then rest else (internal_error, s)

  unfoldable pub publish : Bytes → Bytes → Server Z → Reply × Server Z
  publish channel text s =
      let recipients = registered s.clients (ids_at channel s.subscribers) in
      publish_to recipients (message channel text)
        (replied (marshal_integer (pos (length recipients)))) s

  unfoldable pub handle_publish : Handler Z
  unfolding with_argument
  handle_publish req c s =
      with_argument 0 req (λ channel. with_argument 1 req (λ text. publish channel text s) s) s
