-- ===== src/Store/Push.antt =====
-- store/store.go: what `ListPush` does to the list, to the clients that wait, and to other keys.
mod Growing
unfoldable pub use Growing.*
use tiny_red.Base.{
  ◌≡◌, refl, sym, ap, ◌∙◌, Option, none, some, List, ◌++◌, reverse, Bytes, bytes_eq, bytes_eq_refl,
  length, length-reverse, drop, drop-nil, if◌then◌else◌, append-nil, [],
}
use tiny_red.Base.Map
use tiny_red.Store.Types.{elements, Entry, Waiter, Store, Direction, right, left}
use tiny_red.Store.Entries.{get}
use tiny_red.Store.Waiters.{waiters_at}
use tiny_red.Store.Lists.{
  Served, serve_waiters, orient, place, push_rest, push_to, list_push, deliver,
}

pub length-orient :
    (direction : Direction) (values : List Bytes) → length (orient direction values) ≡ length values
unfolding orient
length-orient right values = refl
length-orient left values = length-reverse values

-- The order in which the values of a push are taken, and their side of the elements that are there.
abbrev pub in_order : Direction → List Bytes → List Bytes
in_order right values = values
in_order left values = reverse values

abbrev pub beside : Direction → List Bytes → List Bytes → List Bytes
beside right existing values = existing ++ values
beside left existing values = values ++ existing

orient_lem :
    (direction : Direction) (values : List Bytes)
    → orient direction values ≡ in_order direction values
unfolding orient
orient_lem right values = refl
orient_lem left values = refl

place_lem :
    (direction : Direction) (existing values : List Bytes)
    → place direction existing values ≡ beside direction existing values
unfolding place
place_lem right existing values = refl
place_lem left existing values = refl

pub beside_nil : (direction : Direction) (values : List Bytes) → beside direction values [] ≡ values
beside_nil right values = append-nil values
beside_nil left values = refl

pub length-in_order :
    (direction : Direction) (values : List Bytes)
    → length (in_order direction values) ≡ length values
length-in_order right values = refl
length-in_order left values = length-reverse values

-- What a push leaves. The clients that wait on the key are served first, in the order in which they
-- came, one value each; the values left over stand beside the elements that were there.
pub record IsPushed {Z : Type 0} (key : Bytes) (values : List Bytes) (direction : Direction)
    (s s' : Store Z) : Type 0 where
  pub list :
      elements_at key s'
      ≡ beside direction
          (elements_at key s)
          (drop (length (waiters_at key s)) (in_order direction values))
  pub waiters : waiters_at key s' ≡ drop (length values) (waiters_at key s)
  pub deliveries :
      s'.deliveries ≡ s.deliveries ++ sends key (waiters_at key s) (in_order direction values)

-- The same, in the terms of the code.
record Pushes {Z : Type 0} (key : Bytes) (values : List Bytes) (direction : Direction)
    (s s' : Store Z) : Type 0 where
  list :
      elements_at key s'
      ≡ place direction
          (elements_at key s)
          (drop (length (waiters_at key s)) (orient direction values))
  waiters : waiters_at key s' ≡ drop (length values) (waiters_at key s)
  deliveries :
      s'.deliveries ≡ s.deliveries ++ sends key (waiters_at key s) (orient direction values)

module _ {Z : Type 0} where
  same_waiters :
      (key : Bytes) (s s' : Store Z)
      → s'.waiter_store ≡ s.waiter_store
      → waiters_at key s' ≡ waiters_at key s
  unfolding waiters_at
  same_waiters key s s' h = rw h

  pub get-deliver :
      (k j : Bytes) (served : Served) (s : Store Z) → get j (deliver k served s) ≡ get j s
  unfolding deliver
  get-deliver k j served s = unfold get in get-put_waiters k j served.waiters s

  elements_at-deliver :
      (k j : Bytes) (served : Served) (s : Store Z)
      → elements_at j (deliver k served s) ≡ elements_at j s
  unfolding elements_at
  elements_at-deliver k j served s = ap elements_in (get-deliver k j served s)

  pub waiters_at-deliver :
      (k j : Bytes) (served : Served) (s : Store Z)
      → waiters_at j (deliver k served s)
        ≡ (if bytes_eq k j then served.waiters else waiters_at j s)
  waiters_at-deliver k j served s =
      unfold deliver waiters_at in waiters_at-put_waiters k j served.waiters s

  push_to_lem :
      (key : Bytes) (values : List Bytes) (direction : Direction) (o : Option (List Waiter))
      (s : Store Z) {e : Entry Z}
      → Map.lookup key s.waiter_store ≡ o
      → (push_to key (orient direction values) direction o s).0 ≡ some e
      → Pushes key values direction s (push_to key (orient direction values) direction o s).1
  unfolding push_to push_rest
  push_to_lem key values direction none s at h =
      let g = push_at_lem key (orient direction values) direction (get key s) s refl h in
      let no_waiters : waiters_at key s ≡ [] = unfold waiters_at in rw at in
      record {
        list = rw no_waiters (g.list);
        waiters =
            same_waiters key s _ g.waiters ∙ no_waiters ∙ rw (no_waiters, drop-nil (length values));
        deliveries = rw (no_waiters, g.deliveries) (unfold sends in sym (append-nil s.deliveries));
      }
  push_to_lem key values direction (some ws) s at h =
      let vs = orient direction values in
      let served = serve_waiters key ws vs in
      let (left_waiting, left_over, sent) = serve_waiters_lem key ws vs in
      let g = push_served_lem key served.values direction (deliver key served s) h in
      let some_waiters : waiters_at key s ≡ ws = unfold waiters_at in rw at in
      record {
        list = g.list ∙ rw (elements_at-deliver key key served s, left_over, some_waiters);
        waiters =
            same_waiters key (deliver key served s) _ g.waiters
            ∙ waiters_at-deliver key key served s
            ∙ rw (bytes_eq_refl, left_waiting, length-orient direction values, some_waiters);
        deliveries = g.deliveries ∙ unfold deliver in rw (sent, some_waiters);
      }

  -- A push that returns an entry serves the clients that wait on the key first, in the order in which
  -- they came, one value each; the values left over stand behind the elements that were there for a
  -- push on the right, and in front of them for one on the left, whose values are reversed before
  -- anything else; and the waiters left are those behind the ones that were served.
  pub list_push_lem :
      (key : Bytes) (values : List Bytes) (direction : Direction) (s : Store Z) {e : Entry Z}
      → (list_push key values direction s).0 ≡ some e
      → IsPushed key values direction s (list_push key values direction s).1
  unfolding list_push
  list_push_lem key values direction s h =
      let p = push_to_lem key values direction _ s refl h in
      let ordered = orient_lem direction values in
      record {
        list = p.list ∙ rw (place_lem, ordered) refl;
        waiters = p.waiters;
        deliveries = p.deliveries ∙ rw ordered refl;
      }
