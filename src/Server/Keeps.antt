-- ===== src/Server/Keeps.antt =====
-- server/server.go: what a step of one client keeps of another client's transaction: its mode, its
-- queue, the keys that it watches, its places in the lists of watchers, and its dirty flag once set.
use tiny_red.Base.{
  ℕ, ◌≡◌, ◌≢◌, refl, sym, subst, ◌∙◌, Bool, true, false, Option, none, some, List, [], ◌∷◌, arith,
  Bytes, get_elem?, ◌==◌, ==_iff, if◌then◌else◌, Bool-cases, inl, inr,
}
use tiny_red.Base.Map.{Map}
use tiny_red.Store.Types.{Store}
use tiny_red.Server.Types.{Request, Client, Server, Reply}
use tiny_red.Server.Clients.{contains, ids_at, put_client, write_to}
use tiny_red.Server.Execute.{mark_one, mark_dirty}
use tiny_red.Server.Commands.Arguments.{with_argument, put_store}
use tiny_red.Server.Ids.{count}

pub record Keeps {Z : Type 0} (w : ℕ) (s t : Server Z) : Type 0 where
  pub mode : (t.object w).mode ≡ (s.object w).mode
  pub queue : (t.object w).command_queue ≡ (s.object w).command_queue
  pub watched : (t.object w).watched_keys ≡ (s.object w).watched_keys
  pub dirty : (s.object w).dirty_compare_and_set ≡ true → (t.object w).dirty_compare_and_set ≡ true
  pub lists :
      (l : Bytes) → count w (ids_at l t.watcher_clients) ≡ count w (ids_at l s.watcher_clients)
  pub clients : t.clients ≡ s.clients

module _ {Z : Type 0} {w : ℕ} where
  pub Keeps-refl : (s : Server Z) → Keeps w s s
  Keeps-refl s = record {
    mode = refl;
    queue = refl;
    watched = refl;
    dirty = λ h. h;
    lists = λ l. refl;
    clients = refl;
  }

  pub Keeps-trans : {s t u : Server Z} → Keeps w s t → Keeps w t u → Keeps w s u
  Keeps-trans a b = record {
    mode = b.mode ∙ a.mode;
    queue = b.queue ∙ a.queue;
    watched = b.watched ∙ a.watched;
    dirty = λ h. b.dirty (a.dirty h);
    lists = λ l. b.lists l ∙ a.lists l;
    clients = b.clients ∙ a.clients;
  }

  pub Keeps-store : (st : Store Z) (s : Server Z) → Keeps w s (put_store st s)
  Keeps-store st s = record {
    mode = refl;
    queue = refl;
    watched = refl;
    dirty = λ h. h;
    lists = λ l. refl;
    clients = refl;
  }

  pub Keeps-watchers :
      (m : Map (List ℕ)) (s : Server Z)
      → ((l : Bytes) → count w (ids_at l m) ≡ count w (ids_at l s.watcher_clients))
      → Keeps w s (record s { watcher_clients = m })
  Keeps-watchers m s h = record {
    mode = refl;
    queue = refl;
    watched = refl;
    dirty = λ h. h;
    lists = h;
    clients = refl;
  }

  pub Keeps-subscribers :
      (m : Map (List ℕ)) (s : Server Z) → Keeps w s (record s { subscribers = m })
  Keeps-subscribers m s = record {
    mode = refl;
    queue = refl;
    watched = refl;
    dirty = λ h. h;
    lists = λ l. refl;
    clients = refl;
  }

  -- Another client's object may change at will.
  pub Keeps-put_client : (c : ℕ) (x : Client) (s : Server Z) → c ≢ w → Keeps w s (put_client c x s)
  unfolding put_client
  Keeps-put_client c x s ne = record {
    mode = ground arith;
    queue = ground arith;
    watched = ground arith;
    dirty = ground arith;
    lists = λ l. refl;
    clients = refl;
  }

  -- The client's own object may get a connection that was written on, or its flag set.
  pub Keeps-write_to : (c : ℕ) (bytes : Bytes) (s : Server Z) → Keeps w s (write_to c bytes s)
  unfolding write_to
  Keeps-write_to c bytes s = record {
    mode = ground arith;
    queue = ground arith;
    watched = ground arith;
    dirty = ground arith;
    lists = λ l. refl;
    clients = refl;
  }

  Keeps-mark :
      (c : ℕ) (s : Server Z)
      → Keeps w s (put_client c (record (s.object c) { dirty_compare_and_set = true }) s)
  unfolding put_client
  Keeps-mark c s = record {
    mode = ground arith;
    queue = ground arith;
    watched = ground arith;
    dirty = ground arith;
    lists = λ l. refl;
    clients = refl;
  }

  pub Keeps-if :
      (b : Bool) {s t u : Server Z} → Keeps w s t → Keeps w s u → Keeps w s (if b then t else u)
  Keeps-if true kt ku = kt
  Keeps-if false kt ku = ku

  pub Keeps-mark_one : (c : ℕ) (s : Server Z) → Keeps w s (mark_one c s)
  unfolding mark_one
  Keeps-mark_one c s = Keeps-if (contains c s.clients) (Keeps-mark c s) (Keeps-refl s)

  pub Keeps-mark_dirty : (ids : List ℕ) (s : Server Z) → Keeps w s (mark_dirty ids s)
  unfolding mark_dirty
  Keeps-mark_dirty [] s = Keeps-refl s
  Keeps-mark_dirty (id ∷ ids) s =
      Keeps-trans (Keeps-mark_one id s) (Keeps-mark_dirty ids (mark_one id s))

  argument_case :
      (o : Option Bytes) (f : Bytes → Reply × Server Z) (s : Server Z)
      → ((a : Bytes) → Keeps w s (f a).1)
      → (r : Reply)
      → Keeps w s (elim o as (λ _. Reply × Server Z) [ none ↦ (r, s) | some a ↦ f a ]).1
  argument_case none f s h r = Keeps-refl s
  argument_case (some a) f s h r = h a

  pub Keeps-with_argument :
      (i : ℕ) (req : Request) (f : Bytes → Reply × Server Z) (s : Server Z)
      → ((a : Bytes) → Keeps w s (f a).1)
      → Keeps w s (with_argument i req f s).1
  unfolding with_argument
  Keeps-with_argument i req f s h = argument_case (get_elem? req.arguments i) f s h _

mark_one_self :
    {Z : Type 0} (w : ℕ) (s : Server Z)
    → contains w s.clients ≡ true
    → ((mark_one w s).object w).dirty_compare_and_set ≡ true
unfolding mark_one put_client
mark_one_self w s h = ground arith

-- Every client whose identifier is in the list and in the map of clients is marked.
pub mark_dirty_lem :
    {Z : Type 0} (w : ℕ) (ids : List ℕ) (s : Server Z)
    → contains w ids ≡ true
    → contains w s.clients ≡ true
    → ((mark_dirty ids s).object w).dirty_compare_and_set ≡ true
unfolding mark_dirty contains
mark_dirty_lem w [] s h online = cc
mark_dirty_lem w (id ∷ ids) s h online =
    let kept = Keeps-mark_dirty {w = w} ids (mark_one id s) in
    elim (Bool-cases (id == w)) [
      | inl same ↦ kept.dirty (
          subst (λ i. ((mark_one i s).object w).dirty_compare_and_set ≡ true)
            (sym ((==_iff id w).0 same)) (mark_one_self w s online))
      | inr other ↦
          mark_dirty_lem w ids (mark_one id s) (ground arith)
            (rw (Keeps-mark_one {w = w} id s).clients online)
    ]
