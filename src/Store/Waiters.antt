-- ===== src/Store/Waiters.antt =====
-- store/store.go: `addWaiter`, `removeWaiter`, and the timeout of `waitForResolution`.
use tiny_red.Base.{ℕ, ◌+◌, Option, none, some, List, [], ◌∷◌, ◌++◌, Bytes, ◌==◌, if◌then◌else◌}
use tiny_red.Base.Map
use tiny_red.Store.Types.{BlPopData, Waiter, Delivery, Store, slice_of}

-- `slices.Delete` at the first waiter on the channel; `none` if there is none (`idx == -1`).
unfoldable pub delete_waiter : ℕ → List Waiter → Option (List Waiter)
delete_waiter channel [] = none
delete_waiter channel (w ∷ ws) =
    let rest = delete_waiter channel ws in
    if w.channel == channel then some ws else elim rest [ none ↦ none | some r ↦ some (w ∷ r) ]

-- A slice of waiters is kept under its key, and an empty one is deleted from the map.
unfoldable pub put_waiters : {Z : Type 0} → Bytes → List Waiter → Store Z → Store Z
put_waiters key [] s = record s { waiter_store = Map.erase key s.waiter_store }
put_waiters key (w ∷ ws) s = record s { waiter_store = Map.insert key (w ∷ ws) s.waiter_store }

module _ {Z : Type 0} where
  unfoldable pub waiters_at : Bytes → Store Z → List Waiter
  waiters_at key s = slice_of (Map.lookup key s.waiter_store)

  unfoldable pub add_waiter : Bytes → Store Z → Waiter × Store Z
  add_waiter key s =
      let waiter : Waiter = record { channel = s.next_channel; key = key } in
      (
        waiter,
        record s {
          waiter_store = Map.insert key (waiters_at key s ++ waiter ∷ []) s.waiter_store;
          next_channel = s.next_channel + 1;
        },
      )

  unfoldable pub keep_remaining : Bytes → Option (List Waiter) → Store Z → Store Z
  keep_remaining key none s = s
  keep_remaining key (some rest) s = put_waiters key rest s

  unfoldable pub remove_waiter : Waiter → Store Z → Store Z
  remove_waiter waiter s =
      keep_remaining waiter.key (delete_waiter waiter.channel (waiters_at waiter.key s)) s

  -- The case `<-time.After(...)`: the waiter is taken off, and the result is the zero value.
  unfoldable pub time_out : Waiter → Store Z → BlPopData × Store Z
  time_out waiter s = (record { key = []; value = [] }, remove_waiter waiter s)

-- The case `<-waiter.channel`: the first delivery on the channel; `none` is to go on waiting.
unfoldable pub received : ℕ → List Delivery → Option BlPopData
received channel [] = none
received channel (d ∷ ds) = if d.channel == channel then some d.sent else received channel ds
