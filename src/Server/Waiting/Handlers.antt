-- ===== src/Server/Waiting/Handlers.antt =====
-- server/server.go: every handler of the table leaves no client waiting on a list that has an element.
use tiny_red.Base.{
  ℕ, ◌≡◌, refl, sym, subst, ◌∙◌, some, List, [], ◌∷◌, Bytes, codes, bytes_eq, to_lower, get_elem?,
  Bool-cases, Option-cases, inl, inr,
}
use tiny_red.Base.Map
use tiny_red.Store.Types.{right, left}
use tiny_red.Store.Entries
use tiny_red.Store.Idle.{IsIdle}
use tiny_red.Server.Types.{
  Request, ClientMode, normal, transaction, subscribed, Server, Reply, Handler, CommandEntry,
}
use tiny_red.Server.Clients.{put_client, write_to, unwatch_all, reset_transaction_state}
use tiny_red.Server.Commands.Arguments.{with_argument, with_store}
use tiny_red.Server.Commands.Strings.{
  handle_echo, handle_ping, handle_set, handle_get, handle_incr, handle_keys, handle_config,
}
use tiny_red.Server.Commands.Lists.{
  Floats, handle_rpush, handle_lpush, handle_lrange, handle_lpop, handle_llen, handle_blpop,
}
use tiny_red.Server.Commands.Sessions.{
  is_set, publish_to, publish, multi_in, discard_in, watch_in, watch, subscribe, unsubscribe,
  handle_multi, handle_discard, handle_watch, handle_unwatch, handle_subscribe, handle_unsubscribe,
  handle_publish,
}
use tiny_red.Server.Commands.Replication.{handle_psync, handle_repl_conf, handle_wait, handle_info}
use tiny_red.Server.Commands.Table.{command_table, command_handlers}
use tiny_red.Server.Waiting.{
  KeepsIdle, with_argument-IsIdle, set_arguments-IsIdle, get_entry-IsIdle, pop_arguments-IsIdle,
  push_arguments-IsIdle, incr_key-IsIdle, pop_or_wait-IsIdle,
}

-- A handler that leaves the store alone.
abbrev LeavesStore : {Z : Type 0} → Handler Z → Type 0
LeavesStore {Z} h = (req : Request) (c : ℕ) (s : Server Z) → (h req c s).1.store ≡ s.store

module _ {Z : Type 0} where
  LeavesStore-KeepsIdle : (h : Handler Z) → LeavesStore h → KeepsIdle h
  LeavesStore-KeepsIdle h l req c s i = subst IsIdle (sym (l req c s)) i

  with_argument-store :
      (i : ℕ) (req : Request) (f : Bytes → Reply × Server Z) (s : Server Z)
      → ((a : Bytes) → (f a).1.store ≡ s.store)
      → (with_argument i req f s).1.store ≡ s.store
  unfolding with_argument
  with_argument-store i req f s k = elim (Option-cases (get_elem? req.arguments i)) [
    | inl missing ↦ rw (missing, with_argument) refl
    | inr (a, there) ↦ rw (there, with_argument) (k a)
  ]

  string_handlers :
      KeepsIdle (handle_echo {Z = Z})
      × KeepsIdle (handle_ping {Z = Z})
      × KeepsIdle (handle_set {Z = Z})
      × KeepsIdle (handle_get {Z = Z})
      × KeepsIdle (handle_incr {Z = Z})
      × KeepsIdle (handle_keys {Z = Z})
      × KeepsIdle (handle_config {Z = Z})
  unfolding handle_echo handle_ping handle_set handle_get handle_incr handle_keys handle_config
      with_store
  string_handlers = (
    λ req c s h. with_argument-IsIdle 0 req _ s.store h (λ a. h),
    λ req c s h. h,
    λ req c s h. set_arguments-IsIdle req.arguments s.now s.store h,
    λ req c s h.
        with_argument-IsIdle 0 req _ s.store h
          (λ key. get_entry-IsIdle key (Entries.get key s.store) s.now s.store h),
    λ req c s h. with_argument-IsIdle 0 req _ s.store h (λ key. incr_key-IsIdle key s.store h),
    λ req c s h. with_argument-IsIdle 0 req _ s.store h (λ pattern.
        elim (Bool-cases (bytes_eq pattern (codes "*"))) [ inl y ↦ rw y h | inr n ↦ rw n h ]),
    λ req c s h. with_argument-IsIdle 0 req _ s.store h (λ verb.
        elim (Bool-cases (bytes_eq (to_lower verb) (codes "get"))) [
          | inl y ↦ rw y (with_argument-IsIdle 1 req _ s.store h (λ name. h))
          | inr n ↦ rw n h
        ]),
  )

  list_handlers :
      (F : Floats)
      → KeepsIdle (handle_rpush {Z = Z})
        × KeepsIdle (handle_lpush {Z = Z})
        × KeepsIdle (handle_lrange {Z = Z})
        × KeepsIdle (handle_lpop {Z = Z})
        × KeepsIdle (handle_llen {Z = Z})
        × KeepsIdle (handle_blpop F {Z = Z})
  unfolding handle_rpush handle_lpush handle_lrange handle_lpop handle_llen handle_blpop with_store
  list_handlers F = (
    λ req c s h. push_arguments-IsIdle right req.arguments s.store h,
    λ req c s h. push_arguments-IsIdle left req.arguments s.store h,
    λ req c s h. with_argument-IsIdle 0 req _ s.store h (λ key.
        with_argument-IsIdle 1 req _ s.store h
          (λ start. with_argument-IsIdle 2 req _ s.store h (λ end. h))),
    λ req c s h. pop_arguments-IsIdle req.arguments s.store h,
    λ req c s h. with_argument-IsIdle 0 req _ s.store h (λ key. h),
    λ req c s h. with_argument-IsIdle 0 req _ s.store h (λ key.
        with_argument-IsIdle 1 req _ s.store h
          (λ t. pop_or_wait-IsIdle F key (Floats.parse_float F t) s.store h)),
  )

  replication_handlers :
      KeepsIdle (handle_psync {Z = Z})
      × KeepsIdle (handle_repl_conf {Z = Z})
      × KeepsIdle (handle_wait {Z = Z})
      × KeepsIdle (handle_info {Z = Z})
  unfolding handle_psync handle_repl_conf handle_wait handle_info with_store
  replication_handlers = (
    λ req c s h. h,
    λ req c s h. h,
    λ req c s h. with_argument-IsIdle 0 req _ s.store h (λ n. h),
    λ req c s h. h,
  )

  pub reset-store : (c : ℕ) (s : Server Z) → (reset_transaction_state c s).store ≡ s.store
  unfolding reset_transaction_state unwatch_all put_client
  reset-store c s = refl

  multi_in-store : (m : ClientMode) (c : ℕ) (s : Server Z) → (multi_in m c s).1.store ≡ s.store
  unfolding multi_in put_client
  multi_in-store transaction c s = refl
  multi_in-store normal c s = refl
  multi_in-store subscribed c s = refl

  discard_in-store : (m : ClientMode) (c : ℕ) (s : Server Z) → (discard_in m c s).1.store ≡ s.store
  unfolding discard_in
  discard_in-store transaction c s = reset-store c s
  discard_in-store normal c s = refl
  discard_in-store subscribed c s = refl

  watch_in-store :
      (m : ClientMode) (keys : List Bytes) (c : ℕ) (s : Server Z)
      → (watch_in m keys c s).1.store ≡ s.store
  unfolding watch_in watch put_client
  watch_in-store transaction keys c s = refl
  watch_in-store normal keys c s = refl
  watch_in-store subscribed keys c s = refl

  unsubscribe-store :
      (channel : Bytes) (c : ℕ) (s : Server Z) → (unsubscribe channel c s).1.store ≡ s.store
  unfolding unsubscribe put_client
  unsubscribe-store channel c s =
      elim (Bool-cases (is_set channel (s.object c).subscribed_channels)) [
        | inl on ↦ rw on refl
        | inr off ↦ rw off refl
      ]

  pub write_to-store :
      (id : ℕ) (data' : Bytes) (s : Server Z) → (write_to id data' s).store ≡ s.store
  unfolding write_to put_client
  write_to-store id data' s = refl

  publish_to-store :
      (ids : List ℕ) (data' : Bytes) (r : Reply) (s : Server Z)
      → (publish_to ids data' r s).1.store ≡ s.store
  unfolding publish_to
  publish_to-store [] data' r s = refl
  publish_to-store (id ∷ ids) data' r s = elim (Bool-cases (s.object id).conn.writable) [
    | inl up ↦
        rw up (publish_to-store ids data' r (write_to id data' s) ∙ write_to-store id data' s)
    | inr down ↦ rw down refl
  ]

  subscribe-store :
      (channel : Bytes) (c : ℕ) (s : Server Z) → (subscribe channel c s).1.store ≡ s.store
  unfolding subscribe put_client
  subscribe-store channel c s = refl

  publish-store : (channel body : Bytes) (s : Server Z) → (publish channel body s).1.store ≡ s.store
  unfolding publish
  publish-store channel body s = publish_to-store _ _ _ s

  session_handlers :
      KeepsIdle (handle_multi {Z = Z})
      × KeepsIdle (handle_discard {Z = Z})
      × KeepsIdle (handle_watch {Z = Z})
      × KeepsIdle (handle_unwatch {Z = Z})
      × KeepsIdle (handle_subscribe {Z = Z})
      × KeepsIdle (handle_publish {Z = Z})
      × KeepsIdle (handle_unsubscribe {Z = Z})
  unfolding handle_multi handle_discard handle_watch handle_unwatch handle_subscribe handle_publish
      handle_unsubscribe
  session_handlers = (
    LeavesStore-KeepsIdle handle_multi (λ req c s. multi_in-store (s.object c).mode c s),
    LeavesStore-KeepsIdle handle_discard (λ req c s. discard_in-store (s.object c).mode c s),
    LeavesStore-KeepsIdle handle_watch
        (λ req c s. watch_in-store (s.object c).mode req.arguments c s),
    LeavesStore-KeepsIdle handle_unwatch (λ req c s. unfold unwatch_all put_client in refl),
    LeavesStore-KeepsIdle handle_subscribe
        (λ req c s. with_argument-store 0 req _ s (λ channel. subscribe-store channel c s)),
    LeavesStore-KeepsIdle handle_publish (λ req c s.
        with_argument-store 0 req _ s
          (λ channel. with_argument-store 1 req _ s (λ body. publish-store channel body s))),
    LeavesStore-KeepsIdle handle_unsubscribe
        (λ req c s. with_argument-store 0 req _ s (λ channel. unsubscribe-store channel c s)),
  )

pub command_handlers-KeepsIdle :
    (F : Floats) {Z : Type 0} (more : Map.Map (CommandEntry Z))
    → Map.AllValues (λ e. KeepsIdle e.handler) more
    → (name : Bytes) {e : CommandEntry Z} → command_handlers F more name ≡ some e
    → KeepsIdle e.handler
unfolding command_handlers command_table
command_handlers-KeepsIdle F {Z} more h name found =
    let a = string_handlers {Z = Z} in
    let b = list_handlers {Z = Z} F in
    let d = replication_handlers {Z = Z} in
    let m = session_handlers {Z = Z} in
    Map.lookup-AllValues (λ e. KeepsIdle e.handler) name (command_table F more)
      (
        a.0,
        (
          a.2,
          (
            a.3,
            (
              a.1,
              (
                a.6,
                (
                  a.5,
                  (
                    b.0,
                    (
                      b.1,
                      (
                        b.2,
                        (
                          b.3,
                          (
                            b.4,
                            (
                              b.5,
                              (
                                a.4,
                                (
                                  m.0,
                                  (
                                    m.1,
                                    (
                                      m.2,
                                      (m.3, (m.4, (m.5, (m.6, (d.3, (d.1, (d.0, (d.2, h)))))))),
                                    ),
                                  ),
                                ),
                              ),
                            ),
                          ),
                        ),
                      ),
                    ),
                  ),
                ),
              ),
            ),
          ),
        ),
      )
      found
