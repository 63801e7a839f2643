-- ===== src/Store/Entries.antt =====
-- store/store.go: `Get`, `Set`, `Update`, `Delete` and `Keys`.
use tiny_red.Base.{Option, List, Bytes}
use tiny_red.Base.Map
use tiny_red.Store.Types.{Entry, Store}

module _ {Z : Type 0} where
  unfoldable pub get : Bytes → Store Z → Option (Entry Z)
  get key s = Map.lookup key s.entries

  unfoldable pub set : Bytes → Entry Z → Store Z → Store Z
  set key entry s = record s { entries = Map.insert key entry s.entries }

  unfoldable pub delete : Bytes → Store Z → Store Z
  delete key s = record s { entries = Map.erase key s.entries }

  unfoldable pub keys : Store Z → List Bytes
  keys s = Map.keys s.entries

-- What the function that `Update` takes returns, with the value that it leaves in its caller's
-- variables: an error, no entry, or an entry. The entry of a key is mutated in place, so an entry
-- that is returned is the one that the key has from then on.
pub data Updated (Z E A : Type 0) : Type 0 where
  fails : E → Updated Z E A
  absent : A → Updated Z E A
  becomes : Entry Z → A → Updated Z E A

pub data Outcome (E A : Type 0) : Type 0 where
  done : A → Outcome E A
  failed : E → Outcome E A

module _ {Z E A : Type 0} where
  unfoldable pub finish_update : Bytes → Updated Z E A → Store Z → Outcome E A × Store Z
  unfolding set
  finish_update key (fails e) s = (failed e, s)
  finish_update key (absent a) s = (done a, s)
  finish_update key (becomes entry a) s = (done a, set key entry s)

  unfoldable pub update :
      Bytes → (Option (Entry Z) → Updated Z E A) → Store Z → Outcome E A × Store Z
  unfolding finish_update get
  update key fn s = finish_update key (fn (get key s)) s
