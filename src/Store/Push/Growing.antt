-- ===== src/Store/Push/Growing.antt =====
-- store/store.go: what the part of `ListPush` behind its loop does to the list.
use tiny_red.Base.{
  ◌≡◌, refl, sym, ap, Option, none, some, List, ◌∷◌, arith, Bytes, bytes_eq, bytes_eq_refl, length,
  drop, if◌then◌else◌, append-nil, [],
}
use tiny_red.Base.Map.{lookup-insert, lookup-erase}
use tiny_red.Store.Types.{
  Value, text, elements, sorted, Entry, Waiter, Delivery, Store, Direction, right, left,
}
use tiny_red.Store.Entries.{get, set}
use tiny_red.Store.Waiters.{put_waiters, waiters_at}
use tiny_red.Store.Lists.{
  serve_waiters, place, new_list, extend_value, push_at, push_rest, push_served,
}

abbrev pub elements_of : {Z : Type 0} → Value Z → List Bytes
elements_of (elements xs) = xs
elements_of (text v) = []
elements_of (sorted z) = []

abbrev pub elements_in : {Z : Type 0} → Option (Entry Z) → List Bytes
elements_in none = []
elements_in (some e) = elements_of e.value

-- The list under a key: empty if the key is missing or holds another kind of value.
unfoldable pub elements_at : {Z : Type 0} → Bytes → Store Z → List Bytes
unfolding get
elements_at key s = elements_in (get key s)

-- One value for each waiter in turn, until the waiters or the values run out.
unfoldable pub sends : Bytes → List Waiter → List Bytes → List Delivery
sends key [] values = []
sends key (w ∷ ws) [] = []
sends key (w ∷ ws) (v ∷ values) =
    record { channel = w.channel; sent = record { key = key; value = v } } ∷ sends key ws values

-- The loop stops when the waiters or the values are used up: nothing is skipped or sent twice.
pub serve_waiters_lem :
    (key : Bytes) (ws : List Waiter) (values : List Bytes)
    → ((serve_waiters key ws values).waiters ≡ drop (length values) ws)
      × ((serve_waiters key ws values).values ≡ drop (length ws) values)
      × ((serve_waiters key ws values).sent ≡ sends key ws values)
unfolding serve_waiters sends
serve_waiters_lem key [] [] = (refl, refl, refl)
serve_waiters_lem key [] (v ∷ values) = (refl, refl, refl)
serve_waiters_lem key (w ∷ ws) [] = (refl, refl, refl)
serve_waiters_lem key (w ∷ ws) (v ∷ values) =
    let (a, b, c) = serve_waiters_lem key ws values in (a, b, rw c)

place-nil : (direction : Direction) (values : List Bytes) → place direction [] values ≡ values
unfolding place
place-nil right values = refl
place-nil left values = append-nil values

pub place_nil : (direction : Direction) (values : List Bytes) → place direction values [] ≡ values
unfolding place
place_nil right values = append-nil values
place_nil left values = refl

-- What the part of a push behind the loop leaves: the values beside the elements, and nothing else
-- of the key's waiters and of the deliveries.
pub record Grows {Z : Type 0} (key : Bytes) (values : List Bytes) (direction : Direction)
    (s s' : Store Z) : Type 0 where
  pub list : elements_at key s' ≡ place direction (elements_at key s) values
  pub waiters : s'.waiter_store ≡ s.waiter_store
  pub deliveries : s'.deliveries ≡ s.deliveries

module _ {Z : Type 0} where
  pub get-set :
      (k j : Bytes) (e : Entry Z) (s : Store Z)
      → get j (set k e s) ≡ (if bytes_eq k j then some e else get j s)
  unfolding get set
  get-set k j e s = lookup-insert k j e s.entries

  pub waiters_at-put_waiters :
      (k j : Bytes) (ws : List Waiter) (s : Store Z)
      → waiters_at j (put_waiters k ws s) ≡ (if bytes_eq k j then ws else waiters_at j s)
  unfolding waiters_at put_waiters
  waiters_at-put_waiters k j [] s = ground (arith, lookup-erase k j s.waiter_store)
  waiters_at-put_waiters k j (w ∷ ws) s = ground (arith, lookup-insert k j (w ∷ ws) s.waiter_store)

  pub get-put_waiters :
      (k j : Bytes) (ws : List Waiter) (s : Store Z) → get j (put_waiters k ws s) ≡ get j s
  unfolding get put_waiters
  get-put_waiters k j [] s = refl
  get-put_waiters k j (w ∷ ws) s = refl

  pub elements_at-set :
      (k j : Bytes) (e : Entry Z) (s : Store Z)
      → elements_at j (set k e s) ≡ (if bytes_eq k j then elements_of e.value else elements_at j s)
  unfolding elements_at
  elements_at-set k j e s = rw get-set (ground arith)

  pub fields-set :
      (k : Bytes) (e : Entry Z) (s : Store Z)
      → ((set k e s).waiter_store ≡ s.waiter_store)
        × ((set k e s).deliveries ≡ s.deliveries)
        × ((set k e s).next_channel ≡ s.next_channel)
  unfolding set
  fields-set k e s = (refl, refl, refl)

  pub elements_at_lem :
      (key : Bytes) (s : Store Z) (o : Option (Entry Z))
      → get key s ≡ o
      → elements_at key s ≡ elements_in o
  unfolding elements_at
  elements_at_lem key s o h = ap elements_in h

  extend_value_lem :
      (key : Bytes) (e : Entry Z) (values : List Bytes) (direction : Direction) (v : Value Z)
      (s : Store Z) {e' : Entry Z}
      → elements_at key s ≡ elements_of v
      → (extend_value key e values direction v s).0 ≡ some e'
      → Grows key values direction s (extend_value key e values direction v s).1
  unfolding extend_value
  extend_value_lem key e values direction (elements xs) s at h =
      let (a, b, c) =
        fields-set key (record e { value = elements (place direction xs values) }) s in
      record { list = rw (elements_at-set, bytes_eq_refl, at); waiters = a; deliveries = b }
  extend_value_lem key e values direction (text v) s at h = cc
  extend_value_lem key e values direction (sorted z) s at h = cc

  pub push_at_lem :
      (key : Bytes) (values : List Bytes) (direction : Direction) (o : Option (Entry Z))
      (s : Store Z) {e : Entry Z}
      → get key s ≡ o
      → (push_at key values direction o s).0 ≡ some e
      → Grows key values direction s (push_at key values direction o s).1
  unfolding push_at
  push_at_lem key values direction none s at h =
      let (a, b, c) = fields-set key (new_list values) s in
      record {
        list =
            rw (elements_at-set, bytes_eq_refl, elements_at_lem key s none at, place-nil)
              (unfold new_list in refl);
        waiters = a;
        deliveries = b;
      }
  push_at_lem key values direction (some e) s at h =
      extend_value_lem key e values direction e.value s (elements_at_lem key s (some e) at) h

  pub push_served_lem :
      (key : Bytes) (values : List Bytes) (direction : Direction) (s : Store Z) {e : Entry Z}
      → (push_served key direction values s).0 ≡ some e
      → Grows key values direction s (push_served key direction values s).1
  unfolding push_served push_rest
  push_served_lem key [] direction s h = record {
    list = sym (place_nil direction (elements_at key s));
    waiters = refl;
    deliveries = refl;
  }
  push_served_lem key (v ∷ values) direction s h =
      push_at_lem key (v ∷ values) direction (get key s) s refl h
