-- ===== src/Store/SkipList/Inserting.antt =====
-- store/skip_list.go: `Insert` puts the entry into its place of the sorted list.
use tiny_red.Base.{
  ℕ, ◌≤◌, ◌<◌, ◌≡◌, refl, sym, ap, subst, ◌∙◌, some, List, ◌∷◌, ◌++◌, map, arith, Bytes, length,
  All,
}
use tiny_red.Store.SkipList.{Scores, SkipList, skip_list_max_level, insert}
use tiny_red.Store.SkipList.Search.{IsBefore, IsNotBefore}
use tiny_red.Store.SkipList.Loops.{Grown, link_levels_lem}
use tiny_red.Store.SkipList.Order.{
  Scored, Sorted, insert_entry, insert_entry-Sorted, IsOrdered, IsNumber,
}
use tiny_red.Store.SkipList.Represents.{
  WellFormed, entry_of, Represents, split_nodes, insert_entry-place,
}
use tiny_red.Store.SkipList.Places.{find_place}
use tiny_red.Store.SkipList.Longer.{
  made_node, old_view, new_high, new_low, fresh_node, longer, longer-WellFormed, longer-entries,
}

module _ {F : Type 0} (scores : Scores F) (s : SkipList F) (m : Bytes) (k : F) (level : ℕ)
    (C zs : List ℕ) (high : 1 ≤ level) (low : level ≤ skip_list_max_level)
    (well_formed : WellFormed s (C ++ zs)) (in_front : All (IsBefore scores s m k) C)
    (behind : All (IsNotBefore scores s m k) zs) where
  insert_lem :
      (t : SkipList F) × (insert scores level m k s ≡ some t)
      × WellFormed t (C ++ s.next_node ∷ zs)
      × (map (entry_of t) (C ++ s.next_node ∷ zs)
          ≡ map (entry_of s) C ++ (m, k) ∷ map (entry_of s) zs)
  unfolding insert Grown longer made_node
  insert_lem =
      let (c, path, A, e, _, _, p, l) =
        find_place scores s m k (C ++ zs) C zs well_formed refl in_front behind in
      let (t, f, (_, chains, kept)) =
        link_levels_lem scores s m k (s.head ∷ C) zs s.next_node well_formed.distinct
          (fresh_node s (C ++ zs) well_formed) well_formed.chains (length C) (omega arith) level 0
          path (made_node s m k level) (omega arith) (omega arith)
          (λ j x h d. old_view s m k level j x d) (λ j h b. new_high s m k level j (omega arith))
          (λ j h. new_low s m k level j (omega arith)) p in
      let chains' = λ (j : ℕ) (h : j < skip_list_max_level). chains j (omega arith) (omega arith) in
      (
        longer s m k level C zs well_formed high low t kept chains',
        rw e (rw f refl),
        longer-WellFormed s m k level C zs well_formed high low t kept chains',
        longer-entries s m k level C zs well_formed high low t kept chains',
      )

-- Insert, with any level from 1 to 16 for the new node, into a skip list whose pointers and spans are
-- right on every level and stand for a sorted list of entries with numbers as scores, ends without a
-- panic in a skip list whose pointers and spans are right for that list with the entry in front of the
-- first that is not less; and that list is sorted.
pub insert-Represents :
    {F : Type 0} (scores : Scores F) (laws : IsOrdered scores) (level : ℕ) (m : Bytes) (k : F)
    (s : SkipList F) (es : List (Scored F))
    → 1 ≤ level
    → level ≤ skip_list_max_level
    → laws.Number k
    → Represents s es
    → All (IsNumber scores laws) es
    → Sorted scores es
    → (t : SkipList F) × (insert scores level m k s ≡ some t)
      × Represents t (insert_entry scores (m, k) es)
      × Sorted scores (insert_entry scores (m, k) es)
unfolding Represents
insert-Represents scores laws level m k s es high low number (xs, well_formed, e) numbers sorted =
    let (C, zs, split, b, n) =
      split_nodes scores laws s m k xs number (subst (All (IsNumber scores laws)) (sym e) numbers)
        (subst (Sorted scores) (sym e) sorted) in
    let (t, f, well_formed', entries) =
      insert_lem scores s m k level C zs high low (subst (WellFormed s) split well_formed) b n in
    (
      t,
      f,
      (
        C ++ s.next_node ∷ zs,
        well_formed',
        entries
            ∙ (sym (insert_entry-place scores laws s m k C zs b n)
                ∙ ap (insert_entry scores (m, k)) (sym (ap (map (entry_of s)) split) ∙ e)),
      ),
      (insert_entry-Sorted scores laws (m, k) es number numbers sorted).0,
    )
