-- ===== src/Store/Lists.antt =====
-- store/store.go: `ListPush` and the part of `BLPOP` under the lock.
use tiny_red.Base.{Option, none, some, List, [], ◌∷◌, ◌++◌, reverse, Bytes}
use tiny_red.Base.Map
use tiny_red.Store.Types.{
  list_entry, Value, text, elements, sorted, Entry, BlPopData, Waiter, Delivery, Store, Direction,
  right, left,
}
use tiny_red.Store.Entries.{get, set}
use tiny_red.Store.Waiters.{put_waiters, add_waiter}

-- The loop of `ListPush`: the waiters left, the values left, and what was sent.
pub record Served : Type 0 where
  pub waiters : List Waiter
  pub values : List Bytes
  pub sent : List Delivery

unfoldable pub serve_waiters : Bytes → List Waiter → List Bytes → Served
serve_waiters key [] values = record { waiters = []; values = values; sent = [] }
serve_waiters key (w ∷ ws) [] = record { waiters = w ∷ ws; values = []; sent = [] }
serve_waiters key (w ∷ ws) (v ∷ values) =
    let rest = serve_waiters key ws values in
    record rest {
      sent = record { channel = w.channel; sent = record { key = key; value = v } } ∷ rest.sent;
    }

-- `slices.Reverse(values)` for a push on the left.
unfoldable pub orient : Direction → List Bytes → List Bytes
orient right values = values
orient left values = reverse values

-- The values on their side of the elements that are there.
unfoldable pub place : Direction → List Bytes → List Bytes → List Bytes
place right existing values = existing ++ values
place left existing values = values ++ existing

-- What `BLPOP` does before it waits: an element, a waiter to wait on, or a wrong kind of value.
pub data Popped : Type 0 where
  popped : BlPopData → Popped
  waiting : Waiter → Popped
  wrong_value : Popped

module _ {Z : Type 0} where
  unfoldable pub new_list : List Bytes → Entry Z
  new_list values = record { entry_type = list_entry; value = elements values; expire_at = none }

  unfoldable pub extend_value :
      Bytes → Entry Z → List Bytes → Direction → Value Z → Store Z → Option (Entry Z) × Store Z
  extend_value key e values direction (elements existing) s =
      let e' : Entry Z = record e { value = elements (place direction existing values) } in
      (some e', set key e' s)
  extend_value key e values direction (text v) s = (none, s)
  extend_value key e values direction (sorted z) s = (none, s)

  unfoldable pub push_at :
      Bytes → List Bytes → Direction → Option (Entry Z) → Store Z → Option (Entry Z) × Store Z
  push_at key values direction none s = (some (new_list values), set key (new_list values) s)
  push_at key values direction (some e) s = extend_value key e values direction e.value s

  -- The values that no waiter took go into the list; `none` is an error.
  unfoldable pub push_rest : Bytes → List Bytes → Direction → Store Z → Option (Entry Z) × Store Z
  push_rest key values direction s = push_at key values direction (get key s) s

  -- `if len(values) == 0`, after the waiters of the key were served.
  unfoldable pub push_served : Bytes → Direction → List Bytes → Store Z → Option (Entry Z) × Store Z
  push_served key direction [] s = (some (new_list []), s)
  push_served key direction (v ∷ values) s = push_rest key (v ∷ values) direction s

  -- The waiters that are left are kept, and what was sent is on the channels.
  unfoldable pub deliver : Bytes → Served → Store Z → Store Z
  deliver key served s =
      let s' = put_waiters key served.waiters s in
      record s' { deliveries = s.deliveries ++ served.sent }

  -- `values` are oriented already; the option is the waiters of the key.
  unfoldable pub push_to :
      Bytes → List Bytes → Direction → Option (List Waiter) → Store Z → Option (Entry Z) × Store Z
  push_to key values direction none s = push_rest key values direction s
  push_to key values direction (some ws) s =
      let served = serve_waiters key ws values in
      push_served key direction served.values (deliver key served s)

  unfoldable pub list_push : Bytes → List Bytes → Direction → Store Z → Option (Entry Z) × Store Z
  list_push key values direction s =
      push_to key (orient direction values) direction (Map.lookup key s.waiter_store) s

  unfoldable pub wait_on : Bytes → Store Z → Popped × Store Z
  wait_on key s = let (waiter, s') = add_waiter key s in (waiting waiter, s')

  unfoldable pub pop_value : Bytes → Entry Z → Value Z → Store Z → Popped × Store Z
  pop_value key e (elements []) s = wait_on key s
  pop_value key e (elements (v ∷ rest)) s =
      (popped (record { key = key; value = v }), set key (record e { value = elements rest }) s)
  pop_value key e (text v) s = (wrong_value, s)
  pop_value key e (sorted z) s = (wrong_value, s)

  unfoldable pub pop_at : Bytes → Option (Entry Z) → Store Z → Popped × Store Z
  pop_at key none s = wait_on key s
  pop_at key (some e) s = pop_value key e e.value s

  unfoldable pub blpop : Bytes → Store Z → Popped × Store Z
  blpop key s = pop_at key (get key s) s
