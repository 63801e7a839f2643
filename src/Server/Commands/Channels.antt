-- ===== src/Server/Commands/Channels.antt =====
-- server/commad_handlers.go: SUBSCRIBE and then UNSUBSCRIBE.
use tiny_red.Base.{
  ℕ, ◌≡◌, refl, ◌∙◌, Bool, true, false, [], ◌∷◌, arith, Bytes, bytes_eq_refl, ==_refl,
}
use tiny_red.Base.Map
use tiny_red.Base.Map.{lookup-erase}
use tiny_red.Server.Types.{Request, Server}
use tiny_red.Server.Clients.{contains, ids_at, put_client, forget_id}
use tiny_red.Server.Ids.{count, contains-count, count-forget_id}
use tiny_red.Server.Commands.Arguments.{with_argument}
use tiny_red.Server.Commands.Sessions.{
  is_set, subscribe, unsubscribe, handle_subscribe, handle_unsubscribe,
}
use tiny_red.Server.Commands.Broadcast.{handle_subscribe_lem}
use tiny_red.Server.Watch.{is_set-mark}

abbrev about : Bytes → Bytes → Request
about command channel = record { command = command; arguments = channel ∷ [] }

is_set-erase : (k : Bytes) (m : Map.Map Bool) → is_set k (Map.erase k m) ≡ false
unfolding is_set
is_set-erase k m = ground (arith, lookup-erase k k m, bytes_eq_refl k)

module _ {Z : Type 0} where
  subscribe-is_set :
      (command channel : Bytes) (c : ℕ) (s : Server Z)
      → is_set channel
          ((handle_subscribe (about command channel) c s).1.object c).subscribed_channels
        ≡ true
  unfolding handle_subscribe with_argument subscribe put_client
  subscribe-is_set command channel c s =
      rw (==_refl c, is_set-mark) (ground (arith, bytes_eq_refl channel))

  -- UNSUBSCRIBE of a channel that the client has.
  unsubscribe_lem :
      (command channel other : Bytes) (c w : ℕ) (s : Server Z)
      → is_set channel (s.object c).subscribed_channels ≡ true
      → let t = (handle_unsubscribe (about command channel) c s).1 in
        (is_set channel (t.object c).subscribed_channels ≡ false)
        × (count w (ids_at other t.subscribers)
            ≡ count w (ids_at other (forget_id c channel s.subscribers)))
  unfolding handle_unsubscribe with_argument unsubscribe put_client
  unsubscribe_lem command channel other c w s on = rw (on, ==_refl c) (is_set-erase channel _, refl)

  listed :
      (c : ℕ) (command channel : Bytes) (s : Server Z)
      → contains c (ids_at channel (handle_subscribe (about command channel) c s).1.subscribers)
        ≡ true
  listed c command channel s =
      rw
        (
          contains-count,
          handle_subscribe_lem command channel channel c c s,
          bytes_eq_refl,
          ==_refl c,
        )
        (ground arith)

  -- SUBSCRIBE and then UNSUBSCRIBE of one channel, by one client, leave every client in every list of
  -- subscribers as often as it stood there before the SUBSCRIBE, and leave the client itself without
  -- the channel: so a client that had subscribed before stays in the list.
  pub handle_subscribe-handle_unsubscribe :
      (command command' channel other : Bytes) (c w : ℕ) (s : Server Z)
      → let t = (handle_subscribe (record { command = command; arguments = channel ∷ [] }) c s).1 in
        let u =
          (handle_unsubscribe (record { command = command'; arguments = channel ∷ [] }) c t).1 in
        (is_set channel (u.object c).subscribed_channels ≡ false)
        × (count w (ids_at other u.subscribers) ≡ count w (ids_at other s.subscribers))
  handle_subscribe-handle_unsubscribe command command' channel other c w s =
      let t = (handle_subscribe (about command channel) c s).1 in
      let (off, same) =
        unsubscribe_lem command' channel other c w t (subscribe-is_set command channel c s) in
      (
        off,
        same
            ∙ ground (
              arith,
              count-forget_id c w channel other t.subscribers,
              listed c command channel s,
              handle_subscribe_lem command channel other c w s,
            ),
      )
