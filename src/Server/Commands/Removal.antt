-- ===== src/Server/Commands/Removal.antt =====
-- server/commad_handlers.go: ZREM keeps the map of a sorted set and its skip list in step.
use tiny_red.Base.{
  ℕ, ◌+◌, ◌≡◌, refl, sym, ap, ◌∙◌, Bool, true, false, Option, none, some, List, [], ◌∷◌, arith,
  length, Bytes, bytes_eq, bytes_eq_iff, ℤ, pos, Option-cases, inl, inr, if◌then◌else◌,
}
use tiny_red.Base.Map
use tiny_red.Base.Map.{lookup-erase}
use tiny_red.Resp.Marshal.{marshal_integer}
use tiny_red.Store.Types.{
  EntryType, string_entry, list_entry, sorted_set_entry, Value, text, elements, sorted, Entry,
}
use tiny_red.Store.Entries
use tiny_red.Store.Entries.{becomes}
use tiny_red.Store.SkipList.{SkipList}
use tiny_red.Store.SkipList.Queries
use tiny_red.Store.SkipList.Order.{Scored, IsOrdered, IsNumber}
use tiny_red.Store.SkipList.Matching.{delete_entry, delete_entry-All}
use tiny_red.Store.SkipList.Removing.{delete-Represents}
use tiny_red.Store.SortedSets.{ZSet, AsZSet, wrong_type, not_zset, zset_of, as_zset}
use tiny_red.Store.SortedSets.Members.{
  score_of, length-delete_entry, score_of-Number, delete_entry-member,
}
use tiny_red.Store.SortedSets.InStep.{is_new, if_others, Consistent}
use tiny_red.Server.Types.{Server, replied}
use tiny_red.Server.Commands.Arguments.{with_argument, with_store, put_store}
use tiny_red.Server.Commands.SortedSets.{
  ScoreTexts, added_reply, removed_entry, remove_from, remove_update, handle_zrem,
}

module _ {F : Type 0} where
  zset_in : AsZSet F → ZSet F → ZSet F
  zset_in (zset_of y) z = y
  zset_in wrong_type z = z
  zset_in not_zset z = z

  zset_of-injective : (y z : ZSet F) → zset_of y ≡ zset_of z → y ≡ z
  unfolding zset_in
  zset_of-injective y z h = ap (λ a. zset_in a z) h

  -- The value of an entry that is a sorted set.
  set_inside :
      (t : EntryType) (v : Value (ZSet F)) (x : Option ℤ) (z : ZSet F)
      → as_zset (record { entry_type = t; value = v; expire_at = x }) ≡ zset_of z
      → v ≡ sorted z
  unfolding as_zset
  set_inside sorted_set_entry (sorted y) x z h = ap sorted (zset_of-injective y z h)
  set_inside sorted_set_entry (text v) x z h = cc
  set_inside sorted_set_entry (elements xs) x z h = cc
  set_inside string_entry v x z h = cc
  set_inside list_entry v x z h = cc

module _ {F : Type 0} (texts : ScoreTexts F) (m : Bytes) (e : Entry (ZSet F)) (z : ZSet F) where
  remove_missing :
      Map.lookup m z.hash_map ≡ none → remove_from texts m e (zset_of z) ≡ becomes e (pos 0)
  unfolding remove_from
  remove_missing h = rw (remove_from, h) refl

  remove_there :
      (k : F) (b : Bool) (list : SkipList F)
      → Map.lookup m z.hash_map ≡ some k
      → Queries.delete texts.scores m k z.z_skip_list ≡ some (b, list)
      → remove_from texts m e (zset_of z)
        ≡ becomes
            (record e {
              value = sorted (record { hash_map = Map.erase m z.hash_map; z_skip_list = list });
            })
            (pos 1)
  unfolding remove_from removed_entry
  remove_there k b list h d = rw (remove_from, h, d) refl

module _ {F : Type 0} (texts : ScoreTexts F) (laws : IsOrdered texts.scores) where
  abbrev Left : Bytes → Entry (ZSet F) → ZSet F → List (Scored F) → Type 0
  Left m e z es =
      (n : ℕ) × (t : ZSet F) × (ds : List (Scored F)) × (remove_from texts m e (zset_of z)
        ≡ becomes (record e { value = sorted t }) (pos n))
      × Consistent texts.scores laws t ds
      × ((j : Bytes) → score_of j ds ≡ (if bytes_eq m j then none else score_of j es))
      × (n + is_new (score_of m es) ≡ 1)
      × (n + length ds ≡ length es)

  erased :
      (b : Bool) (v w : Option F)
      → (b ≡ true → v ≡ none)
      → (b ≡ false → v ≡ w)
      → v ≡ (if b then none else w)
  erased true v w h k = h refl
  erased false v w h k = k refl

  -- Equal members have equal scores.
  same_member :
      (m j : Bytes) (es : List (Scored F))
      → bytes_eq m j ≡ true
      → score_of m es ≡ none
      → score_of j es ≡ none
  same_member m j es same h = ap (λ i. score_of i es) (sym ((bytes_eq_iff m j).0 same)) ∙ h

  nothing_there :
      (m j : Bytes) (es : List (Scored F))
      → score_of m es ≡ none
      → score_of j es ≡ (if bytes_eq m j then none else score_of j es)
  nothing_there m j es h =
      erased (bytes_eq m j) (score_of j es) (score_of j es) (λ same. same_member m j es same h)
        (λ ne. refl)

  remove_lem :
      (m : Bytes) (e : Entry (ZSet F)) (z : ZSet F) (es : List (Scored F))
      → as_zset e ≡ zset_of z
      → Consistent texts.scores laws z es
      → Left m e z es
  unfolding is_new
  remove_lem m e z es kind c = elim (Option-cases (Map.lookup m z.hash_map)) [
    | inl missing ↦
        let new : score_of m es ≡ none = sym (c.in_step m) ∙ missing in
        let same = set_inside e.entry_type e.value e.expire_at z kind in
        (
          0,
          z,
          es,
          remove_missing texts m e z missing
              ∙ ap (λ v. becomes (record e { value = v }) (pos 0)) same,
          c,
          λ j. nothing_there m j es new,
          rw new refl,
          omega arith,
        )
    | inr (k, there) ↦
        let has : score_of m es ≡ some k = sym (c.in_step m) ∙ there in
        let number = score_of-Number texts.scores laws m k es c.ranked.numbers has in
        let ((list, d, represents, order), _) =
          delete-Represents texts.scores laws m k z.z_skip_list es number c.represents
            c.ranked.numbers c.ranked.order in
        let (gone, rest, unique, found) =
          delete_entry-member texts.scores laws m k es number c.ranked.unique has in
        let ds = (delete_entry texts.scores (m, k) es).1 in
        let scores_left : ((j : Bytes)
            → score_of j ds ≡ (if bytes_eq m j then none else score_of j es)) =
          λ j.
            erased (bytes_eq m j) (score_of j ds) (score_of j es)
              (λ same. same_member m j ds same gone) (rest j) in
        (
          1,
          record { hash_map = Map.erase m z.hash_map; z_skip_list = list },
          ds,
          remove_there texts m e z k (delete_entry texts.scores (m, k) es).0 list there d,
          record {
            ranked = record {
              order = order;
              numbers =
                  delete_entry-All texts.scores (IsNumber texts.scores laws) (m, k) es
                    c.ranked.numbers;
              unique = unique;
            };
            represents = represents;
            in_step = λ j.
                lookup-erase m j z.hash_map
                ∙ (if_others (bytes_eq m j) none (λ ne. c.in_step j) ∙ sym (scores_left j));
          },
          scores_left,
          rw has refl,
          omega (arith, length-delete_entry texts.scores (m, k) es found),
        )
  ]

  -- ZREM of a member from a key that holds a sorted set whose map and skip list are in step, with
  -- numbers as scores, replies how many members it took out, 1 where the set has the member and else
  -- 0, ends without a panic, and leaves a set that is in step, on a skip list right for a sorted list
  -- without a member twice, from which the member is gone and in which every other has the score it
  -- had.
  pub handle_zrem_lem :
      (command key m : Bytes) (c : ℕ) (s : Server (ZSet F)) (e : Entry (ZSet F)) (z : ZSet F)
      (es : List (Scored F))
      → Entries.get key s.store ≡ some e
      → as_zset e ≡ zset_of z
      → Consistent texts.scores laws z es
      → (n : ℕ) × (t : ZSet F) × (ds : List (Scored F)) × (handle_zrem texts
            (record { command = command; arguments = key ∷ m ∷ [] })
            c
            s
          ≡ (
            replied (marshal_integer (pos n)),
            put_store (Entries.set key (record e { value = sorted t }) s.store) s,
          ))
        × Consistent texts.scores laws t ds
        × ((j : Bytes) → score_of j ds ≡ (if bytes_eq m j then none else score_of j es))
        × (n + is_new (score_of m es) ≡ 1)
        × (n + length ds ≡ length es)
  unfolding handle_zrem with_argument with_store Entries.update Entries.finish_update remove_update
      added_reply
  handle_zrem_lem command key m c s e z es there kind consistent =
      let (n, t, ds, f, c', left, told, count) = remove_lem m e z es kind consistent in
      (n, t, ds, rw (there, remove_update, kind, f) refl, c', left, told, count)
