-- ===== src/Server/Considerate.antt =====
-- server/commad_handlers.go: no handler of one client touches what another client's transaction
-- rests on.
use tiny_red.Base.{ℕ, ◌≡◌, ◌≢◌, some, List, [], ◌∷◌, Bytes, Bool-cases, inl, inr}
use tiny_red.Base.Map
use tiny_red.Server.Types.{
  Request, ClientMode, normal, transaction, subscribed, Server, Reply, Handler, CommandEntry,
}
use tiny_red.Server.Clients.{write_to, unwatch_all, reset_transaction_state}
use tiny_red.Server.Commands.Strings.{
  handle_echo, handle_ping, handle_set, handle_get, handle_incr, handle_keys, handle_config,
}
use tiny_red.Server.Commands.Lists.{
  Floats, handle_rpush, handle_lpush, handle_lrange, handle_lpop, handle_llen, handle_blpop,
}
use tiny_red.Server.Commands.Sessions.{
  is_set, publish_to, publish, multi_in, discard_in, watch_in, subscribe, unsubscribe, watch,
  handle_multi, handle_discard, handle_watch, handle_unwatch, handle_subscribe, handle_unsubscribe,
  handle_publish,
}
use tiny_red.Server.Commands.Replication.{handle_psync, handle_repl_conf, handle_wait, handle_info}
use tiny_red.Server.Commands.Table.{command_table, command_handlers}
use tiny_red.Server.Keeps.{
  Keeps, Keeps-refl, Keeps-trans, Keeps-store, Keeps-watchers, Keeps-subscribers, Keeps-put_client,
  Keeps-write_to, Keeps-with_argument,
}
use tiny_red.Server.Watch.{forget_keys-other, register_keys-other}

abbrev pub IsConsiderate : {Z : Type 0} → Handler Z → Type 0
IsConsiderate {Z} h = (w c : ℕ) (req : Request) (s : Server Z) → c ≢ w → Keeps w s (h req c s).1

module _ {Z : Type 0} where
  string_handlers :
      IsConsiderate (handle_echo {Z = Z})
      × IsConsiderate (handle_ping {Z = Z})
      × IsConsiderate (handle_set {Z = Z})
      × IsConsiderate (handle_get {Z = Z})
      × IsConsiderate (handle_incr {Z = Z})
      × IsConsiderate (handle_keys {Z = Z})
      × IsConsiderate (handle_config {Z = Z})
  unfolding handle_echo handle_ping handle_set handle_get handle_incr handle_keys handle_config
  string_handlers = (
    λ w c req s ne. Keeps-store _ s,
    λ w c req s ne. Keeps-store _ s,
    λ w c req s ne. Keeps-store _ s,
    λ w c req s ne. Keeps-store _ s,
    λ w c req s ne. Keeps-store _ s,
    λ w c req s ne. Keeps-store _ s,
    λ w c req s ne. Keeps-store _ s,
  )

  list_handlers :
      (F : Floats)
      → IsConsiderate (handle_rpush {Z = Z})
        × IsConsiderate (handle_lpush {Z = Z})
        × IsConsiderate (handle_lrange {Z = Z})
        × IsConsiderate (handle_lpop {Z = Z})
        × IsConsiderate (handle_llen {Z = Z})
        × IsConsiderate (handle_blpop F {Z = Z})
  unfolding handle_rpush handle_lpush handle_lrange handle_lpop handle_llen handle_blpop
  list_handlers F = (
    λ w c req s ne. Keeps-store _ s,
    λ w c req s ne. Keeps-store _ s,
    λ w c req s ne. Keeps-store _ s,
    λ w c req s ne. Keeps-store _ s,
    λ w c req s ne. Keeps-store _ s,
    λ w c req s ne. Keeps-store _ s,
  )

  replication_handlers :
      IsConsiderate (handle_psync {Z = Z})
      × IsConsiderate (handle_repl_conf {Z = Z})
      × IsConsiderate (handle_wait {Z = Z})
      × IsConsiderate (handle_info {Z = Z})
  unfolding handle_psync handle_repl_conf handle_wait handle_info
  replication_handlers = (
    λ w c req s ne. Keeps-store _ s,
    λ w c req s ne. Keeps-store _ s,
    λ w c req s ne. Keeps-store _ s,
    λ w c req s ne. Keeps-store _ s,
  )

  unwatch_all-Keeps : {w c : ℕ} (s : Server Z) → c ≢ w → Keeps w s (unwatch_all c s)
  unfolding unwatch_all
  unwatch_all-Keeps {w} {c} s ne =
      Keeps-trans
        (Keeps-watchers _ s
          (λ l. forget_keys-other c w (Map.keys (s.object c).watched_keys) s.watcher_clients l ne))
        (Keeps-put_client c _ _ ne)

  pub reset-Keeps : {w c : ℕ} (s : Server Z) → c ≢ w → Keeps w s (reset_transaction_state c s)
  unfolding reset_transaction_state
  reset-Keeps {w} {c} s ne = Keeps-trans (unwatch_all-Keeps s ne) (Keeps-put_client c _ _ ne)

  multi-IsConsiderate : IsConsiderate (handle_multi {Z = Z})
  unfolding handle_multi
  multi-IsConsiderate w c req s ne = by_mode (s.object c).mode
    where
      by_mode : (m : ClientMode) → Keeps w s (multi_in m c s).1
      by_mode transaction = Keeps-refl s
      by_mode normal = Keeps-put_client c _ s ne
      by_mode subscribed = Keeps-put_client c _ s ne

  discard-IsConsiderate : IsConsiderate (handle_discard {Z = Z})
  unfolding handle_discard
  discard-IsConsiderate w c req s ne = by_mode (s.object c).mode
    where
      by_mode : (m : ClientMode) → Keeps w s (discard_in m c s).1
      by_mode transaction = reset-Keeps s ne
      by_mode normal = Keeps-refl s
      by_mode subscribed = Keeps-refl s

  watch-Keeps : (w c : ℕ) (keys : List Bytes) (s : Server Z) → c ≢ w → Keeps w s (watch keys c s)
  unfolding watch
  watch-Keeps w c keys s ne =
      Keeps-trans (Keeps-watchers _ s (λ l. register_keys-other c w keys s.watcher_clients l ne))
        (Keeps-put_client c _ _ ne)

  watch-IsConsiderate : IsConsiderate (handle_watch {Z = Z})
  unfolding handle_watch
  watch-IsConsiderate w c req s ne = by_mode (s.object c).mode
    where
      by_mode : (m : ClientMode) → Keeps w s (watch_in m req.arguments c s).1
      by_mode transaction = Keeps-refl s
      by_mode normal = watch-Keeps w c req.arguments s ne
      by_mode subscribed = watch-Keeps w c req.arguments s ne

  unwatch-IsConsiderate : IsConsiderate (handle_unwatch {Z = Z})
  unfolding handle_unwatch
  unwatch-IsConsiderate w c req s ne = unwatch_all-Keeps s ne

  subscribe-IsConsiderate : IsConsiderate (handle_subscribe {Z = Z})
  unfolding handle_subscribe subscribe
  subscribe-IsConsiderate w c req s ne =
      Keeps-with_argument 0 req (λ channel. subscribe channel c s) s
        (λ channel. Keeps-trans (Keeps-subscribers _ s) (Keeps-put_client c _ _ ne))

  unsubscribe-Keeps :
      (w c : ℕ) (channel : Bytes) (s : Server Z) → c ≢ w → Keeps w s (unsubscribe channel c s).1
  unfolding unsubscribe
  unsubscribe-Keeps w c channel s ne =
      elim (Bool-cases (is_set channel (s.object c).subscribed_channels)) [
        | inl there ↦ rw there (Keeps-trans (Keeps-subscribers _ s) (Keeps-put_client c _ _ ne))
        | inr none_there ↦ rw none_there (Keeps-refl s)
      ]

  unsubscribe-IsConsiderate : IsConsiderate (handle_unsubscribe {Z = Z})
  unfolding handle_unsubscribe
  unsubscribe-IsConsiderate w c req s ne =
      Keeps-with_argument 0 req (λ channel. unsubscribe channel c s) s
        (λ channel. unsubscribe-Keeps w c channel s ne)

  publish_to-Keeps :
      (w : ℕ) (ids : List ℕ) (text : Bytes) (r : Reply) (s : Server Z)
      → Keeps w s (publish_to ids text r s).1
  unfolding publish_to
  publish_to-Keeps w [] text r s = Keeps-refl s
  publish_to-Keeps w (id ∷ ids) text r s = elim (Bool-cases (s.object id).conn.writable) [
    | inl up ↦ rw up (
        Keeps-trans (Keeps-write_to id text s) (publish_to-Keeps w ids text r (write_to id text s)))
    | inr down ↦ rw down (Keeps-refl s)
  ]

  publish-IsConsiderate : IsConsiderate (handle_publish {Z = Z})
  unfolding handle_publish
  publish-IsConsiderate w c req s ne = Keeps-with_argument 0 req _ s (λ channel.
      Keeps-with_argument 1 req (λ text. publish channel text s) s
        (λ text. unfold publish in publish_to-Keeps w _ _ _ s))

-- Every handler of the command table, run for one client, keeps the mode, the queue, the watched keys,
-- the set flag and the places in the lists of watchers of every other client, if each entry added to
-- the table does.
pub command_handlers-IsConsiderate :
    (F : Floats) {Z : Type 0} (more : Map.Map (CommandEntry Z))
    → Map.AllValues (λ e. IsConsiderate e.handler) more
    → (name : Bytes) {e : CommandEntry Z} → command_handlers F more name ≡ some e
    → IsConsiderate e.handler
unfolding command_handlers command_table
command_handlers-IsConsiderate F {Z} more h name found =
    let a = string_handlers {Z = Z} in
    let b = list_handlers {Z = Z} F in
    let d = replication_handlers {Z = Z} in
    Map.lookup-AllValues (λ e. IsConsiderate e.handler) name (command_table F more)
      (
        a.0,
        (
          a.2,
          (
            a.3,
            (
              a.1,
              (
                a.6,
                (
                  a.5,
                  (
                    b.0,
                    (
                      b.1,
                      (
                        b.2,
                        (
                          b.3,
                          (
                            b.4,
                            (
                              b.5,
                              (
                                a.4,
                                (
                                  multi-IsConsiderate,
                                  (
                                    discard-IsConsiderate,
                                    (
                                      watch-IsConsiderate,
                                      (
                                        unwatch-IsConsiderate,
                                        (
                                          subscribe-IsConsiderate,
                                          (
                                            publish-IsConsiderate,
                                            (
                                              unsubscribe-IsConsiderate,
                                              (d.3, (d.1, (d.0, (d.2, h)))),
                                            ),
                                          ),
                                        ),
                                      ),
                                    ),
                                  ),
                                ),
                              ),
                            ),
                          ),
                        ),
                      ),
                    ),
                  ),
                ),
              ),
            ),
          ),
        ),
      )
      found
