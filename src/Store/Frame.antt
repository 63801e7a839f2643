-- ===== src/Store/Frame.antt =====
-- store/store.go: the keys that `ListPush` leaves alone, and what it leaves when it fails.
use tiny_red.Base.{◌≡◌, refl, ◌∙◌, false, Option, none, some, List, [], ◌∷◌, Bytes, bytes_eq}
use tiny_red.Store.Types.{Value, text, elements, sorted, Entry, Waiter, Store, Direction}
use tiny_red.Store.Entries.{get, set}
use tiny_red.Store.Waiters.{waiters_at}
use tiny_red.Store.Lists.{
  serve_waiters, orient, extend_value, push_at, push_rest, push_served, push_to, list_push, deliver,
}
use tiny_red.Store.Push.{
  elements_of, elements_at, get-set, elements_at_lem, waiters_at-deliver, get-deliver,
}

module _ {Z : Type 0} where
  -- The keys that a step on `key` leaves alone.
  pub record Same (j : Bytes) (s s' : Store Z) : Type 0 where
    pub entry : get j s' ≡ get j s
    pub waiters : waiters_at j s' ≡ waiters_at j s

  pub Same-set :
      (k j : Bytes) (e : Entry Z) (s : Store Z) → bytes_eq k j ≡ false → Same j s (set k e s)
  Same-set k j e s ne = record { entry = rw (get-set, ne); waiters = unfold set waiters_at in refl }

  Same-extend_value :
      (k j : Bytes) (e : Entry Z) (values : List Bytes) (d : Direction) (v : Value Z) (s : Store Z)
      → bytes_eq k j ≡ false
      → Same j s (extend_value k e values d v s).1
  unfolding extend_value
  Same-extend_value k j e values d (elements xs) s ne = Same-set k j _ s ne
  Same-extend_value k j e values d (text v) s ne = record { entry = refl; waiters = refl }
  Same-extend_value k j e values d (sorted z) s ne = record { entry = refl; waiters = refl }

  Same-push_at :
      (k j : Bytes) (values : List Bytes) (d : Direction) (o : Option (Entry Z)) (s : Store Z)
      → bytes_eq k j ≡ false
      → Same j s (push_at k values d o s).1
  unfolding push_at
  Same-push_at k j values d none s ne = Same-set k j _ s ne
  Same-push_at k j values d (some e) s ne = Same-extend_value k j e values d e.value s ne

  Same-push_served :
      (k j : Bytes) (values : List Bytes) (d : Direction) (s : Store Z)
      → bytes_eq k j ≡ false
      → Same j s (push_served k d values s).1
  unfolding push_served push_rest
  Same-push_served k j [] d s ne = record { entry = refl; waiters = refl }
  Same-push_served k j (v ∷ values) d s ne = Same-push_at k j (v ∷ values) d (get k s) s ne

  Same-push_to :
      (k j : Bytes) (values : List Bytes) (d : Direction) (o : Option (List Waiter)) (s : Store Z)
      → bytes_eq k j ≡ false
      → Same j s (push_to k values d o s).1
  unfolding push_to push_rest
  Same-push_to k j values d none s ne = Same-push_at k j values d (get k s) s ne
  Same-push_to k j values d (some ws) s ne =
      let served = serve_waiters k ws values in
      let r = Same-push_served k j served.values d (deliver k served s) ne in
      record {
        entry = r.entry ∙ get-deliver k j served s;
        waiters = r.waiters ∙ waiters_at-deliver k j served s ∙ rw ne;
      }

  -- A push leaves the entry and the waiters of every other key as they were, whether it succeeds or
  -- not.
  pub list_push-Same :
      (k j : Bytes) (values : List Bytes) (d : Direction) (s : Store Z)
      → bytes_eq k j ≡ false
      → Same j s (list_push k values d s).1
  unfolding list_push
  list_push-Same k j values d s ne = Same-push_to k j (orient d values) d _ s ne

  -- A push that fails finds a value that is no list.
  extend_value_fails :
      (k : Bytes) (e : Entry Z) (values : List Bytes) (d : Direction) (v : Value Z) (s : Store Z)
      → elements_at k s ≡ elements_of v
      → (extend_value k e values d v s).0 ≡ none
      → elements_at k (extend_value k e values d v s).1 ≡ []
  unfolding extend_value
  extend_value_fails k e values d (elements xs) s at h = cc
  extend_value_fails k e values d (text v) s at h = at
  extend_value_fails k e values d (sorted z) s at h = at

  push_at_fails :
      (k : Bytes) (values : List Bytes) (d : Direction) (o : Option (Entry Z)) (s : Store Z)
      → get k s ≡ o
      → (push_at k values d o s).0 ≡ none
      → elements_at k (push_at k values d o s).1 ≡ []
  unfolding push_at
  push_at_fails k values d none s at h = cc
  push_at_fails k values d (some e) s at h =
      extend_value_fails k e values d e.value s (elements_at_lem k s (some e) at) h

  push_served_fails :
      (k : Bytes) (values : List Bytes) (d : Direction) (s : Store Z)
      → (push_served k d values s).0 ≡ none
      → elements_at k (push_served k d values s).1 ≡ []
  unfolding push_served push_rest
  push_served_fails k [] d s h = cc
  push_served_fails k (v ∷ values) d s h = push_at_fails k (v ∷ values) d (get k s) s refl h

  pub push_to_fails :
      (k : Bytes) (values : List Bytes) (d : Direction) (o : Option (List Waiter)) (s : Store Z)
      → (push_to k values d o s).0 ≡ none
      → elements_at k (push_to k values d o s).1 ≡ []
  unfolding push_to push_rest
  push_to_fails k values d none s h = push_at_fails k values d (get k s) s refl h
  push_to_fails k values d (some ws) s h = push_served_fails k _ d (deliver k _ s) h

  pub list_push_fails :
      (k : Bytes) (values : List Bytes) (d : Direction) (s : Store Z)
      → (list_push k values d s).0 ≡ none
      → elements_at k (list_push k values d s).1 ≡ []
  unfolding list_push
  list_push_fails k values d s h = push_to_fails k (orient d values) d _ s h
