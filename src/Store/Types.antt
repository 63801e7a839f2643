-- ===== src/Store/Types.antt =====
-- store/store.go: `Store`, `Entry`, and the data of blocked clients. `Z` is the type of sorted sets.
use tiny_red.Base.{ℕ, Option, none, some, List, [], Bytes, ℤ}
use tiny_red.Base.Map.{Map}

-- `EntryTypeString`, `EntryTypeList`, `EntryTypeSortedSet`.
pub data EntryType : Type 0 where
  string_entry list_entry sorted_set_entry : EntryType

-- What an entry's `any` holds: a string, a []string or a ZSet.
pub data Value (Z : Type 0) : Type 0 where
  text : Bytes → Value Z
  elements : List Bytes → Value Z
  sorted : Z → Value Z

-- An instant is a number of nanoseconds; `none` is the zero time, "no expiry".
pub record Entry (Z : Type 0) : Type 0 where
  pub entry_type : EntryType
  pub value : Value Z
  pub expire_at : Option ℤ

pub record BlPopData : Type 0 where
  pub key : Bytes
  pub value : Bytes

-- A Go channel with a buffer of one, by its identity.
pub record Waiter : Type 0 where
  pub channel : ℕ
  pub key : Bytes

pub record Delivery : Type 0 where
  pub channel : ℕ
  pub sent : BlPopData

-- `deliveries` lists what was sent on the waiters' channels, in order; `next_channel` is the identity
-- of the next channel that is made. The mutex is not modelled: each operation is one step.
pub record Store (Z : Type 0) : Type 0 where
  pub entries : Map (Entry Z)
  pub waiter_store : Map (List Waiter)
  pub deliveries : List Delivery
  pub next_channel : ℕ

unfoldable pub new_store : {Z : Type 0} → Store Z
new_store = record { entries = []; waiter_store = []; deliveries = []; next_channel = 0 }

-- A missing key of a map of slices reads as the nil slice.
abbrev pub slice_of {ℓ} : {A : Type ℓ} → Option (List A) → List A
slice_of none = []
slice_of (some xs) = xs

-- `Right` and `Left`.
pub data Direction : Type 0 where
  right left : Direction
