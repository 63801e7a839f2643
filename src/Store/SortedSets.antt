-- ===== src/Store/SortedSets.antt =====
-- store/store.go: `ZSet`, `ZSetEntry` and `ZAdd`.
pub mod Members
pub mod InStep
pub mod Adding
use tiny_red.Base.{ℕ, zero, suc, ◌+◌, Option, none, some, List, [], ◌∷◌, Bytes, length, ℤ, pos}
use tiny_red.Base.Map
use tiny_red.Base.Map.{Map}
use tiny_red.Strconv.{◌>>=◌}
use tiny_red.Store.Types.{
  EntryType, string_entry, list_entry, sorted_set_entry, Value, text, elements, sorted, Entry,
  Store,
}
use tiny_red.Store.Entries.{update, Updated, fails, absent, becomes, Outcome}
use tiny_red.Store.SkipList
use tiny_red.Store.SkipList.{Scores, SkipList, new_skip_list}
use tiny_red.Store.SkipList.Queries

pub record ZSet (F : Type 0) : Type 0 where
  pub hash_map : Map F
  pub z_skip_list : SkipList F

pub record ZSetEntry (F : Type 0) : Type 0 where
  pub member : Bytes
  pub score : F

-- A wrong kind of entry, a value of another type under the right kind, and a panic.
pub data ZAddFailure : Type 0 where
  wrong_kind no_zset add_panics : ZAddFailure

-- An entry's value as a sorted set: its kind is checked first, then its type.
pub data AsZSet (F : Type 0) : Type 0 where
  wrong_type not_zset : AsZSet F
  zset_of : ZSet F → AsZSet F

module _ {F : Type 0} where
  value_as_zset : Value (ZSet F) → AsZSet F
  value_as_zset (sorted z) = zset_of z
  value_as_zset (text v) = not_zset
  value_as_zset (elements xs) = not_zset

  kind_as_zset : EntryType → Value (ZSet F) → AsZSet F
  unfolding value_as_zset
  kind_as_zset sorted_set_entry v = value_as_zset v
  kind_as_zset string_entry v = wrong_type
  kind_as_zset list_entry v = wrong_type

  unfoldable pub as_zset : Entry (ZSet F) → AsZSet F
  unfolding kind_as_zset
  as_zset e = kind_as_zset e.entry_type e.value

module _ {F : Type 0} (scores : Scores F) where
  unfoldable pub new_zset : ZSet F
  new_zset = record { hash_map = []; z_skip_list = new_skip_list scores }

  -- zset.HashMap[member] = score and zset.ZSkipList.Insert(member, score), in either order; `level` is
  -- what `randomLevel` returns.
  unfoldable pub put_member : ℕ → ZSetEntry F → ZSet F → Option (ZSet F)
  put_member level pair z = do
    list ← SkipList.insert scores level pair.member pair.score z.z_skip_list
    some (record { hash_map = Map.insert pair.member pair.score z.hash_map; z_skip_list = list })

  -- The loop over the entries for a key that is not there. `random` has the levels in their order.
  unfoldable pub add_fresh : (ℕ → ℕ) → ℕ → List (ZSetEntry F) → ZSet F → Option (ZSet F)
  unfolding put_member
  add_fresh random i [] z = some z
  add_fresh random i (pair ∷ pairs) z = do
    z ← put_member (random i) pair z
    add_fresh random (suc i) pairs z

  -- One entry for a key that is there, with the number of members added.
  unfoldable pub add_member : ℕ → ZSetEntry F → ℕ → ZSet F → Option (ℕ × ZSet F)
  unfolding put_member
  add_member level pair added z = elim (Map.lookup pair.member z.hash_map) [
    | some old_score ↦ (do
      (deleted, list) ← Queries.delete scores pair.member old_score z.z_skip_list
      z ← put_member level pair (record z { z_skip_list = list })
      some (added, z))
    | none ↦ (do z ← put_member level pair z; some (suc added, z))
  ]

  unfoldable pub add_members : (ℕ → ℕ) → ℕ → List (ZSetEntry F) → ℕ → ZSet F → Option (ℕ × ZSet F)
  unfolding add_member
  add_members random i [] added z = some (added, z)
  add_members random i (pair ∷ pairs) added z = do
    (added, z) ← add_member (random i) pair added z
    add_members random (suc i) pairs added z

  zset_entry : ZSet F → Entry (ZSet F)
  zset_entry z = record { entry_type = sorted_set_entry; value = sorted z; expire_at = none }

  fresh_entry : List (ZSetEntry F) → Option (ZSet F) → Updated (ZSet F) ZAddFailure ℤ
  unfolding zset_entry
  fresh_entry pairs none = fails add_panics
  fresh_entry pairs (some z) = becomes (zset_entry z) (pos (length pairs))

  unfoldable pub grown_entry : Entry (ZSet F) → Option (ℕ × ZSet F) → Updated (ZSet F) ZAddFailure ℤ
  grown_entry e none = fails add_panics
  grown_entry e (some (added, z)) = becomes (record e { value = sorted z }) (pos added)

  unfoldable pub add_to :
      (ℕ → ℕ) → List (ZSetEntry F) → Entry (ZSet F) → AsZSet F → Updated (ZSet F) ZAddFailure ℤ
  unfolding grown_entry add_members
  add_to random pairs e wrong_type = fails wrong_kind
  add_to random pairs e not_zset = fails no_zset
  add_to random pairs e (zset_of z) = grown_entry e (add_members random 0 pairs 0 z)

  -- The function that `ZAdd` hands to `Update`.
  unfoldable pub add_update :
      (ℕ → ℕ) → List (ZSetEntry F) → Option (Entry (ZSet F)) → Updated (ZSet F) ZAddFailure ℤ
  unfolding add_to fresh_entry as_zset add_fresh new_zset
  add_update random pairs none = fresh_entry pairs (add_fresh random 0 pairs new_zset)
  add_update random pairs (some e) = add_to random pairs e (as_zset e)

  -- `ZAdd`
  unfoldable pub z_add :
      (ℕ → ℕ) → Bytes → List (ZSetEntry F) → Store (ZSet F) → Outcome ZAddFailure ℤ × Store (ZSet F)
  unfolding add_update
  z_add random key pairs s = update key (add_update random pairs) s
