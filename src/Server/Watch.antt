-- ===== src/Server/Watch.antt =====
-- server/server.go and server/commad_handlers.go: WATCH and UNWATCH keep the client's set of watched
-- keys and the server's lists of watchers in agreement.
use tiny_red.Base.{
  ℕ, ◌≤◌, ◌≡◌, ◌≢◌, refl, Bool, true, false, List, [], ◌∷◌, arith, Bytes, bytes_eq, bytes_eq_iff,
  ◌==◌, if◌then◌else◌, ==_refl,
}
use tiny_red.Base.Map
use tiny_red.Base.Map.{Map, lookup-insert, lookup-erase}
use tiny_red.Server.Types.{Client, Server}
use tiny_red.Server.Clients.{forget_id, forget_keys, ids_at, put_client, unwatch_all}
use tiny_red.Server.Execute.{one_of}
use tiny_red.Server.Commands.Sessions.{
  is_set, mark, watch_keys, register_watcher, register_keys, watch,
}
use tiny_red.Server.Ids.{count, contains-count, count-forget_id, count-register_watcher}

pub is_set-mark :
    (k l : Bytes) (m : Map Bool) → is_set l (mark k m) ≡ (if bytes_eq k l then true else is_set l m)
unfolding is_set mark
is_set-mark k l m = ground (arith, bytes_eq_iff k l, lookup-insert k l true m)

-- A client stands once in the list of each key that it watches, and in no other list.
abbrev pub Agrees : ℕ → Map Bool → Map (List ℕ) → Type 0
Agrees c watched m = (l : Bytes) → count c (ids_at l m) ≡ (if is_set l watched then 1 else 0)

Agrees-register :
    (c : ℕ) (k : Bytes) (watched : Map Bool) (m : Map (List ℕ))
    → Agrees c watched m
    → Agrees c (mark k watched) (register_watcher c k m)
Agrees-register c k watched m h l = ground (
  arith,
  is_set-mark k l watched,
  count-register_watcher c c k l m,
  contains-count c (ids_at k m),
  h k,
  h l,
  bytes_eq_iff k l,
)

Agrees-register_keys :
    (c : ℕ) (keys : List Bytes) (watched : Map Bool) (m : Map (List ℕ))
    → Agrees c watched m
    → Agrees c (watch_keys keys watched) (register_keys c keys m)
unfolding watch_keys register_keys
Agrees-register_keys c [] watched m h = h
Agrees-register_keys c (k ∷ keys) watched m h =
    Agrees-register_keys c keys (mark k watched) (register_watcher c k m)
      (Agrees-register c k watched m h)

is_set-watch_keys :
    (keys : List Bytes) (watched : Map Bool) (l : Bytes)
    → is_set l (watch_keys keys watched) ≡ (if one_of l keys then true else is_set l watched)
unfolding watch_keys one_of
is_set-watch_keys [] watched l = refl
is_set-watch_keys (k ∷ keys) watched l = ground (
  arith,
  is_set-watch_keys keys (mark k watched) l,
  is_set-mark k l watched,
  bytes_eq_iff k l,
  bytes_eq_iff l k,
)

-- Forgetting a list of keys takes the client off exactly those.
forget_keys-count :
    (c : ℕ) (keys : List Bytes) (m : Map (List ℕ)) (l : Bytes)
    → ((k : Bytes) → count c (ids_at k m) ≤ 1)
    → count c (ids_at l (forget_keys c keys m))
      ≡ (if one_of l keys then 0 else count c (ids_at l m))
unfolding forget_keys one_of
forget_keys-count c [] m l h = refl
forget_keys-count c (k ∷ keys) m l h =
    let fewer : (j : Bytes) → count c (ids_at j (forget_id c k m)) ≤ 1 =
      λ j. omega (arith, count-forget_id c c k j m, h j) in
    ground (
      arith,
      forget_keys-count c keys (forget_id c k m) l fewer,
      count-forget_id c c k l m,
      contains-count c (ids_at k m),
      h l,
      bytes_eq_iff k l,
      bytes_eq_iff l k,
    )

keys-is_set : (l : Bytes) (m : Map Bool) → is_set l m ≡ true → one_of l (Map.keys m) ≡ true
unfolding is_set one_of Map.keys Map.lookup
keys-is_set l [] h = cc
keys-is_set l ((k, b) ∷ m) h = ground (arith, keys-is_set l m, bytes_eq_iff k l, bytes_eq_iff l k)

-- What `forget_keys` of another client leaves.
pub forget_keys-other :
    (c j : ℕ) (keys : List Bytes) (m : Map (List ℕ)) (l : Bytes)
    → c ≢ j
    → count j (ids_at l (forget_keys c keys m)) ≡ count j (ids_at l m)
unfolding forget_keys
forget_keys-other c j [] m l ne = refl
forget_keys-other c j (k ∷ keys) m l ne =
    ground (arith, forget_keys-other c j keys (forget_id c k m) l, count-forget_id c j k l m)

pub register_keys-other :
    (c j : ℕ) (keys : List Bytes) (m : Map (List ℕ)) (l : Bytes)
    → c ≢ j
    → count j (ids_at l (register_keys c keys m)) ≡ count j (ids_at l m)
unfolding register_keys
register_keys-other c j [] m l ne = refl
register_keys-other c j (k ∷ keys) m l ne = ground (
  arith,
  register_keys-other c j keys (register_watcher c k m) l,
  count-register_watcher c j k l m,
)

module _ {Z : Type 0} where
  abbrev pub IsWatching : ℕ → Server Z → Type 0
  IsWatching c s = Agrees c (s.object c).watched_keys s.watcher_clients

  object-put_client :
      (c j : ℕ) (x : Client) (s : Server Z)
      → (put_client c x s).object j ≡ (if j == c then x else s.object j)
  unfolding put_client
  object-put_client c j x s = refl

  -- WATCH keeps the client once in the list of each key that it watches and in no other list, and
  -- afterwards it stands in the lists of the keys that it named and in those in which it stood before.
  pub watch-IsWatching :
      (keys : List Bytes) (c : ℕ) (s : Server Z)
      → IsWatching c s
      → IsWatching c (watch keys c s)
        × ((l : Bytes)
            → count c (ids_at l (watch keys c s).watcher_clients)
              ≡ (if one_of l keys then 1 else count c (ids_at l s.watcher_clients)))
  unfolding watch put_client
  watch-IsWatching keys c s h = rw (==_refl c) (
    Agrees-register_keys c keys (s.object c).watched_keys s.watcher_clients h,
    λ l. ground (
      arith,
      Agrees-register_keys c keys (s.object c).watched_keys s.watcher_clients h l,
      is_set-watch_keys keys (s.object c).watched_keys l,
      h l,
    ),
  )

  -- UnwatchAll of a client that stands once in the list of each key that it watches and in no other
  -- keeps that agreement, takes it out of every list of watchers and clears its flag.
  pub unwatch_all_lem :
      (c : ℕ) (s : Server Z)
      → IsWatching c s
      → IsWatching c (unwatch_all c s)
        × ((l : Bytes) → count c (ids_at l (unwatch_all c s).watcher_clients) ≡ 0)
        × (((unwatch_all c s).object c).dirty_compare_and_set ≡ false)
  unfolding unwatch_all put_client is_set Map.lookup
  unwatch_all_lem c s h =
      let watched = (s.object c).watched_keys in
      let once : (k : Bytes) → count c (ids_at k s.watcher_clients) ≤ 1 =
        λ k. ground (arith, h k) in
      let gone : (l : Bytes)
          → count c (ids_at l (forget_keys c (Map.keys watched) s.watcher_clients)) ≡ 0 =
        λ l. ground (
          arith,
          forget_keys-count c (Map.keys watched) s.watcher_clients l once,
          keys-is_set l watched,
          h l,
        ) in
      rw (==_refl c) (λ l. gone l, gone, refl)
