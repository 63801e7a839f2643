-- ===== src/Store/Idle.antt =====
-- store/store.go: no client waits on a list that has an element, whatever the commands and timeouts.
use tiny_red.Base.{
  ℕ, zero, suc, ◌<◌, ◌≡◌, ◌≢◌, refl, ap, subst, ◌∙◌, false, Option, none, some, List, [], ◌∷◌,
  arith, Bytes, bytes_eq, bytes_eq_iff, bytes_eq_refl, length, drop, drop-nil, drop_all, Bool-cases,
  Option-cases, inl, inr,
}
use tiny_red.Base.Map.{lookup, lookup-insert, lookup-erase}
use tiny_red.Store.Types.{Value, text, elements, sorted, Entry, Waiter, Store, Direction, new_store}
use tiny_red.Store.Entries.{get, set, delete}
use tiny_red.Store.Waiters.{
  put_waiters, waiters_at, add_waiter, remove_waiter, keep_remaining, delete_waiter, time_out,
}
use tiny_red.Store.Lists.{list_push, pop_at, pop_value, wait_on, blpop}
use tiny_red.Store.Push.{
  elements_of, elements_at, elements_at-set, elements_at_lem, waiters_at-put_waiters,
  get-put_waiters, beside_nil, length-in_order, in_order, IsPushed, list_push_lem,
}
use tiny_red.Store.Frame.{Same, Same-set, list_push-Same, list_push_fails}

drop-ne-nil {ℓ} : {A : Type ℓ} (n : ℕ) (xs : List A) → drop n xs ≢ [] → n < length xs
drop-ne-nil zero [] h = absurd (h refl)
drop-ne-nil zero (x ∷ xs) h = omega arith
drop-ne-nil (suc n) [] h = absurd (h refl)
drop-ne-nil (suc n) (x ∷ xs) h = omega (arith, drop-ne-nil n xs h)

-- By cases on whether a key is the one that an operation is about.
pub by_key : (P : Bytes → Type 0) (k j : Bytes) → P k → (bytes_eq k j ≡ false → P j) → P j
by_key P k j at elsewhere = elim (Bool-cases (bytes_eq k j)) [
  | inl same ↦ subst P ((bytes_eq_iff k j).0 same) at
  | inr ne ↦ elsewhere ne
]

-- A key with a waiter has no element.
abbrev pub IsIdle : {Z : Type 0} → Store Z → Type 0
IsIdle s = (k : Bytes) → waiters_at k s ≢ [] → elements_at k s ≡ []

module _ {Z : Type 0} where
  Same-idle :
      (j : Bytes) {s s' : Store Z}
      → Same j s s'
      → (waiters_at j s ≢ [] → elements_at j s ≡ [])
      → waiters_at j s' ≢ []
      → elements_at j s' ≡ []
  Same-idle j {s} {s'} same h w =
      unfold elements_at in rw same.entry (unfold elements_at in h (λ e. w (same.waiters ∙ e)))

  pushed_idle :
      (k : Bytes) (values : List Bytes) (d : Direction) {s s' : Store Z}
      → IsPushed k values d s s'
      → (waiters_at k s ≢ [] → elements_at k s ≡ [])
      → waiters_at k s' ≢ []
      → elements_at k s' ≡ []
  pushed_idle k values d {s} {s'} p h w =
      let ws = waiters_at k s in
      let some_left : drop (length values) ws ≢ [] = λ e. w (p.waiters ∙ e) in
      let more : length values < length ws = drop-ne-nil (length values) ws some_left in
      let some_before : ws ≢ [] = λ e. some_left (rw e (drop-nil (length values))) in
      let no_rest : drop (length ws) (in_order d values) ≡ [] =
        drop_all (length ws) (in_order d values) (omega (arith, length-in_order d values)) in
      p.list ∙ rw no_rest (beside_nil d (elements_at k s) ∙ h some_before)

  pushed_at :
      (k : Bytes) (values : List Bytes) (d : Direction) (s : Store Z)
      → IsIdle s
      → waiters_at k (list_push k values d s).1 ≢ []
      → elements_at k (list_push k values d s).1 ≡ []
  pushed_at k values d s h = elim (Option-cases (list_push k values d s).0) [
    | inl failed ↦ λ w. list_push_fails k values d s failed
    | inr (e, pushed) ↦ pushed_idle k values d (list_push_lem k values d s pushed) (h k)
  ]

  pub list_push-IsIdle :
      (k : Bytes) (values : List Bytes) (d : Direction) (s : Store Z)
      → IsIdle s
      → IsIdle (list_push k values d s).1
  list_push-IsIdle k values d s h j =
      by_key
        (λ i.
          waiters_at i (list_push k values d s).1 ≢ []
          → elements_at i (list_push k values d s).1 ≡ [])
        k j (pushed_at k values d s h) (λ ne. Same-idle j (list_push-Same k j values d s ne) (h j))

  -- An entry without elements may be set anywhere; one with elements, where nobody waits.
  pub set-IsIdle :
      (k : Bytes) (e : Entry Z) (s : Store Z)
      → IsIdle s
      → (waiters_at k s ≢ [] → elements_of e.value ≡ [])
      → IsIdle (set k e s)
  set-IsIdle k e s h new j =
      by_key (λ i. waiters_at i (set k e s) ≢ [] → elements_at i (set k e s) ≡ []) k j
        (λ w. rw (elements_at-set, bytes_eq_refl) (new (unfold set waiters_at in w)))
        (λ ne. Same-idle j (Same-set k j e s ne) (h j))

  wait_on-IsIdle :
      (k : Bytes) (s : Store Z) → elements_at k s ≡ [] → IsIdle s → IsIdle (wait_on k s).1
  unfolding wait_on add_waiter
  wait_on-IsIdle k s none_there h j w = elim (Bool-cases (bytes_eq k j)) [
    | inl same ↦
        unfold elements_at get in
        rw (← (bytes_eq_iff k j).0 same) (unfold elements_at get in none_there)
    | inr ne ↦
        unfold elements_at get in
        (unfold elements_at get in h j (unfold waiters_at in λ e. w (rw (lookup-insert, ne) e)))
  ]

  pop_value-IsIdle :
      (k : Bytes) (e : Entry Z) (v : Value Z) (s : Store Z)
      → elements_at k s ≡ elements_of v
      → IsIdle s
      → IsIdle (pop_value k e v s).1
  unfolding pop_value
  pop_value-IsIdle k e (elements []) s at h = wait_on-IsIdle k s at h
  pop_value-IsIdle k e (elements (v ∷ rest)) s at h = set-IsIdle k _ s h (λ w. cc (h k w, at))
  pop_value-IsIdle k e (text v) s at h = h
  pop_value-IsIdle k e (sorted z) s at h = h

  pop_at-IsIdle :
      (k : Bytes) (o : Option (Entry Z)) (s : Store Z)
      → get k s ≡ o
      → IsIdle s
      → IsIdle (pop_at k o s).1
  unfolding pop_at
  pop_at-IsIdle k none s at h = wait_on-IsIdle k s (elements_at_lem k s none at) h
  pop_at-IsIdle k (some e) s at h =
      pop_value-IsIdle k e e.value s (elements_at_lem k s (some e) at) h

  pub blpop-IsIdle : (k : Bytes) (s : Store Z) → IsIdle s → IsIdle (blpop k s).1
  unfolding blpop
  blpop-IsIdle k s h = pop_at-IsIdle k (get k s) s refl h

  removed-IsIdle :
      (k : Bytes) (channel : ℕ) (o : Option (List Waiter)) (s : Store Z)
      → delete_waiter channel (waiters_at k s) ≡ o
      → IsIdle s
      → IsIdle (keep_remaining k o s)
  unfolding keep_remaining
  removed-IsIdle k channel none s e h j = h j
  removed-IsIdle k channel (some rest) s e h j =
      by_key
        (λ i. waiters_at i (put_waiters k rest s) ≢ [] → elements_at i (put_waiters k rest s) ≡ [])
        k j
        (λ w.
          unfold elements_at in
          rw get-put_waiters (
            unfold elements_at in
            h k (λ empty. unfold delete_waiter in cc (e, ap (delete_waiter channel) empty))))
        (λ ne.
          Same-idle j
            (record {
              entry = get-put_waiters k j rest s;
              waiters = waiters_at-put_waiters k j rest s ∙ rw ne;
            })
            (h j))

  pub remove_waiter-IsIdle : (w : Waiter) (s : Store Z) → IsIdle s → IsIdle (remove_waiter w s)
  unfolding remove_waiter
  remove_waiter-IsIdle w s h = removed-IsIdle w.key w.channel _ s refl h

-- The steps that the commands and the timeouts make on the store. `overwrite` is a `Set`, or an
-- `Update` that returns an entry, which puts no element into a list: SET, INCR, ZADD, LPOP.
pub data Step {Z : Type 0} : Store Z → Store Z → Type 0 where
  push :
      (k : Bytes) (values : List Bytes) (d : Direction) (s : Store Z)
      → Step s (list_push k values d s).1
  pop : (k : Bytes) (s : Store Z) → Step s (blpop k s).1
  timeout : (w : Waiter) (s : Store Z) → Step s (time_out w s).1
  overwrite :
      (k : Bytes) (e : Entry Z) (n : ℕ) (s : Store Z)
      → elements_of e.value ≡ drop n (elements_at k s)
      → Step s (set k e s)
  remove : (k : Bytes) (s : Store Z) → Step s (delete k s)

pub data Reach {Z : Type 0} (s : Store Z) : Store Z → Type 0 where
  here : Reach s s
  next : {t u : Store Z} → Reach s t → Step t u → Reach s u

pub new_store-IsIdle : (Z : Type 0) → IsIdle (new_store {Z = Z})
unfolding new_store waiters_at lookup
new_store-IsIdle Z k w = absurd (w refl)

module _ {Z : Type 0} where
  pub delete-IsIdle : (k : Bytes) (s : Store Z) → IsIdle s → IsIdle (delete k s)
  delete-IsIdle k s h j w = elim (Bool-cases (bytes_eq k j)) [
    | inl same ↦ unfold elements_at get delete in rw (lookup-erase, same)
    | inr ne ↦
        unfold elements_at get delete in
        rw (lookup-erase, ne) (unfold elements_at get in h j (unfold delete waiters_at in w))
  ]

  pub Step-IsIdle : {s t : Store Z} → Step s t → IsIdle s → IsIdle t
  Step-IsIdle (push k values d s) h = list_push-IsIdle k values d s h
  Step-IsIdle (pop k s) h = blpop-IsIdle k s h
  Step-IsIdle (timeout w s) h = unfold time_out in remove_waiter-IsIdle w s h
  Step-IsIdle (overwrite k e n s fewer) h = set-IsIdle k e s h (λ w. fewer ∙ rw (h k w, drop-nil n))
  Step-IsIdle (remove k s) h = delete-IsIdle k s h

  Reach-IsIdle : {s t : Store Z} → IsIdle s → Reach s t → IsIdle t
  Reach-IsIdle h here = h
  Reach-IsIdle h (next r st) = Step-IsIdle st (Reach-IsIdle h r)

  -- In every store that pushes, BLPOPs, timeouts, deletions, and entries set with at most a rest of
  -- the list that was there reach from the empty store, a key on which some client waits in BLPOP has
  -- no element.
  pub reachable-IsIdle :
      {s : Store Z} (k : Bytes) → Reach new_store s → waiters_at k s ≢ [] → elements_at k s ≡ []
  reachable-IsIdle k r = Reach-IsIdle (new_store-IsIdle Z) r k
