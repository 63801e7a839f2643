-- ===== src/Examples/SkipLists.antt =====
-- The theorems on the skip list at lists with numbers as scores.
use tiny_red.Base.{
  ℕ, ◌≡◌, refl, sym, subst, true, false, Option, none, some, List, [], ◌∷◌, arith, codes, bytes_eq,
  map, pos, negsuc, ltb, ◌==◌, not, ◌&&◌,
}
use tiny_red.Store.SkipList.{Scores, SkipList, new_skip_list, insert, bytes_lt, less}
use tiny_red.Store.SkipList.Queries.{delete, get_rank, range}
use tiny_red.Store.SkipList.Order.{Scored, IsOrdered, Sorted, insert_entry}
use tiny_red.Store.SkipList.Matching.{delete_entry, rank_entry}
use tiny_red.Store.SkipList.Represents.{Represents, entry_of, new_skip_list-Represents}
use tiny_red.Store.SkipList.Inserting.{insert-Represents}
use tiny_red.Store.SkipList.Removing.{delete-Represents}
use tiny_red.Store.SkipList.Ranges.{range-Represents}

abbrev pub points : Scores ℕ
points = record { below = ltb; equals = λ a b. a == b; zero_score = 0 }

pub ltb-asymmetric : (a b : ℕ) → ltb a b ≡ true → ltb b a ≡ false
ltb-asymmetric a b h = ground arith

pub ltb-not_trans : (a b c : ℕ) → ltb a b ≡ false → ltb b c ≡ false → ltb a c ≡ false
ltb-not_trans a b c h k = ground arith

pub ==_by_ltb : (a b : ℕ) → (a == b) ≡ (not (ltb a b) && not (ltb b a))
==_by_ltb a b = ground arith

abbrev pub points_laws : IsOrdered points
points_laws = record {
  Number = λ a. Unit;
  asymmetric = λ a b p q. ltb-asymmetric a b;
  not_below_trans = λ a b c p q r. ltb-not_trans a b c;
  equals_lem = λ a b p q. ==_by_ltb a b;
}

-- The list that an operation leaves.
pub or_new : Option (SkipList ℕ) → SkipList ℕ
or_new none = new_skip_list points
or_new (some s) = s

-- A list of one entry, and one of two, whose second node has three levels.
abbrev pub with_one : SkipList ℕ
with_one = or_new (insert points 1 (codes "bob") 7 (new_skip_list points))

abbrev with_two : SkipList ℕ
with_two = or_new (insert points 3 (codes "ann") 7 with_one)

abbrev pub one_entry : List (Scored ℕ)
one_entry = (codes "bob", 7) ∷ []

abbrev two_entries : List (Scored ℕ)
two_entries = (codes "ann", 7) ∷ (codes "bob", 7) ∷ []

pub with_one-Represents : Represents with_one one_entry
unfolding insert_entry or_new
with_one-Represents =
    let (t, e, represents, sorted) =
      insert-Represents points points_laws 1 (codes "bob") 7 (new_skip_list points) [] (omega arith)
        (omega arith) tt (new_skip_list-Represents points) tt tt in
    subst (λ s. Represents (or_new s) one_entry) (sym e) represents

insert-Represents_example :
    (t : SkipList ℕ) × (insert points 3 (codes "ann") 7 with_one ≡ some t)
    × Represents t (insert_entry points (codes "ann", 7) one_entry)
    × Sorted points (insert_entry points (codes "ann", 7) one_entry)
insert-Represents_example =
    insert-Represents points points_laws 3 (codes "ann") 7 with_one one_entry (omega arith)
      (omega arith) tt with_one-Represents (tt, tt) (tt, tt)

two_in_order : insert_entry points (codes "ann", 7) one_entry ≡ two_entries
unfolding insert_entry less bytes_lt
two_in_order = refl

with_two-Represents : Represents with_two two_entries
unfolding or_new
with_two-Represents =
    let (t, e, represents, sorted) = insert-Represents_example in
    subst (λ s. Represents (or_new s) two_entries) (sym e)
      (subst (Represents t) two_in_order represents)

delete-Represents_example :
    ((t : SkipList ℕ) × (delete points (codes "bob") 7 with_two
        ≡ some ((delete_entry points (codes "bob", 7) two_entries).0, t))
      × Represents t (delete_entry points (codes "bob", 7) two_entries).1
      × Sorted points (delete_entry points (codes "bob", 7) two_entries).1)
    × (get_rank points (codes "bob") 7 with_two
        ≡ some (pos (rank_entry points (codes "bob", 7) two_entries)))
unfolding less bytes_lt
delete-Represents_example =
    delete-Represents points points_laws (codes "bob") 7 with_two two_entries tt with_two-Represents
      (tt, (tt, tt)) ((refl, tt), (tt, tt))

bob_is_second : rank_entry points (codes "bob", 7) two_entries ≡ 2
unfolding rank_entry bytes_eq
bob_is_second = refl

range-Represents_example :
    (ids : List ℕ) × (range (negsuc 3) (pos 1) with_two ≡ some ids)
    × (map (entry_of with_two) ids ≡ (codes "ann", 7) ∷ [])
range-Represents_example =
    range-Represents with_two two_entries (negsuc 3) (pos 1) with_two-Represents
