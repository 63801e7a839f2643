-- ===== src/Store/SortedSets/InStep.antt =====
-- store/store.go: when the map of a sorted set and its skip list are in step, and what one member put
-- in makes of that.
use tiny_red.Base.{
  ℕ, suc, ◌+◌, ◌≤◌, ◌≡◌, refl, sym, ◌∙◌, Bool, true, false, Option, none, some, List, [], ◌∷◌,
  arith, length, Bytes, bytes_eq, All, if◌then◌else◌,
}
use tiny_red.Base.Map
use tiny_red.Base.Map.{lookup-insert}
use tiny_red.Store.SkipList.{Scores, SkipList, skip_list_max_level}
use tiny_red.Store.SkipList.Queries
use tiny_red.Store.SkipList.Order.{
  Scored, Sorted, insert_entry, insert_entry-Sorted, IsOrdered, IsNumber,
}
use tiny_red.Store.SkipList.Represents.{Represents}
use tiny_red.Store.SkipList.Inserting.{insert-Represents}
use tiny_red.Store.SortedSets.{ZSet, ZSetEntry, put_member, add_member}
use tiny_red.Store.SortedSets.Members.{
  score_of, Unique, length-insert_entry, score_of-insert_entry, insert_entry-Unique,
}

abbrev pub IsLevel : ℕ → Type 0
IsLevel level = (1 ≤ level) × (level ≤ skip_list_max_level)

pub if_others :
    {T : Type 0} (b : Bool) (v : T) {x y : T}
    → (b ≡ false → x ≡ y)
    → (if b then v else x) ≡ (if b then v else y)
if_others true v h = refl
if_others false v h = h refl

-- The score of a member after some entries are added, of which the last one for the member counts.
unfoldable pub score_after : {F : Type 0} → Bytes → List (ZSetEntry F) → Option F → Option F
score_after m [] o = o
score_after m (pair ∷ pairs) o =
    score_after m pairs (if bytes_eq pair.member m then some pair.score else o)

-- What a member adds to the count.
unfoldable pub is_new : {F : Type 0} → Option F → ℕ
is_new none = 1
is_new (some k) = 0

pub count_new : {F : Type 0} (added : ℕ) (o : Option F) → o ≡ none → suc added ≡ added + is_new o
unfolding is_new
count_new added o e = rw e (omega arith)

pub count_old :
    {F : Type 0} (added : ℕ) (o : Option F) (k : F) → o ≡ some k → added ≡ added + is_new o
unfolding is_new
count_old added o k e = rw e (omega arith)

pub same_size :
    {F : Type 0} (d e f : ℕ) (o p : Option F) (k : F)
    → f ≡ d + is_new o
    → o ≡ none
    → p ≡ some k
    → suc d ≡ e
    → f ≡ e + is_new p
unfolding is_new
same_size d e f o p k h g i l =
    let a : is_new o ≡ 1 = rw g refl in
    let b : is_new p ≡ 0 = rw i refl in omega (arith, h, a, b, l)

module _ {F : Type 0} (scores : Scores F) (level : ℕ) (pair : ZSetEntry F) (added : ℕ)
    (z t : ZSet F) where
  pub add_missing :
      Map.lookup pair.member z.hash_map ≡ none
      → put_member scores level pair z ≡ some t
      → add_member scores level pair added z ≡ some (suc added, t)
  unfolding add_member
  add_missing f g = rw (add_member, f, g) refl

  pub add_there :
      (old : F) (b : Bool) (list : SkipList F)
      → Map.lookup pair.member z.hash_map ≡ some old
      → Queries.delete scores pair.member old z.z_skip_list ≡ some (b, list)
      → put_member scores level pair (record z { z_skip_list = list }) ≡ some t
      → add_member scores level pair added z ≡ some (added, t)
  unfolding add_member
  add_there old b list f g h = rw (add_member, f, g, h) refl

module _ {F : Type 0} (scores : Scores F) (laws : IsOrdered scores) where
  -- A sorted list of entries with numbers as scores, in which no member stands twice.
  pub record Ranked (es : List (Scored F)) : Type 0 where
    pub order : Sorted scores es
    pub numbers : All (IsNumber scores laws) es
    pub unique : Unique es

  -- The skip list stands for the entries, and the map has their scores.
  pub record Consistent (z : ZSet F) (es : List (Scored F)) : Type 0 where
    pub ranked : Ranked es
    pub represents : Represents z.z_skip_list es
    pub in_step : (m : Bytes) → Map.lookup m z.hash_map ≡ score_of m es

  abbrev pub Put : Bytes → F → List (Scored F) → ZSet F → Type 0
  Put m k es z =
      (fs : List (Scored F)) × Consistent z fs
      × ((j : Bytes) → score_of j fs ≡ (if bytes_eq m j then some k else score_of j es))
      × (length fs ≡ length es + is_new (score_of m es))

  insert_entry-Ranked :
      (m : Bytes) (k : F) (es : List (Scored F))
      → laws.Number k
      → score_of m es ≡ none
      → Ranked es
      → Ranked (insert_entry scores (m, k) es)
  insert_entry-Ranked m k es p new r =
      let (order, numbers) = insert_entry-Sorted scores laws (m, k) es p r.numbers r.order in
      record {
        order = order;
        numbers = numbers;
        unique = insert_entry-Unique scores m k es new r.unique;
      }

  -- A member that the list does not have, with a map that may have it.
  pub put_member_lem :
      (level : ℕ) (m : Bytes) (k : F) (z : ZSet F) (es : List (Scored F))
      → IsLevel level
      → laws.Number k
      → Ranked es
      → Represents z.z_skip_list es
      → score_of m es ≡ none
      → ((j : Bytes) → bytes_eq m j ≡ false → Map.lookup j z.hash_map ≡ score_of j es)
      → (t : ZSet F) × (put_member scores level (record { member = m; score = k }) z ≡ some t)
        × Put m k es t
  unfolding put_member is_new
  put_member_lem level m k z es (high, low) p r represents new others =
      let (t, e, represents', _) =
        insert-Represents scores laws level m k z.z_skip_list es high low p represents r.numbers
          r.order in
      let placed = λ (j : Bytes). score_of-insert_entry scores m k j es new in
      let z' : ZSet F = record { hash_map = Map.insert m k z.hash_map; z_skip_list = t } in
      (
        z',
        rw e refl,
        (
          insert_entry scores (m, k) es,
          record {
            ranked = insert_entry-Ranked m k es p new r;
            represents = represents';
            in_step = λ j.
                lookup-insert m j k z.hash_map
                ∙ (if_others (bytes_eq m j) (some k) (others j) ∙ sym (placed j));
          },
          placed,
          rw new (length-insert_entry scores (m, k) es ∙ omega arith),
        ),
      )
