-- ===== src/Store/SkipList/Removing.antt =====
-- store/skip_list.go: `Delete` and `GetRank` find an entry where the sorted list has it.
use tiny_red.Base.{
  ℕ, ◌+◌, ◌<◌, ◌≡◌, refl, sym, ap, subst, ◌∙◌, true, false, none, some, List, [], ◌∷◌, ◌++◌, map,
  arith, append_assoc, Bytes, length, length-map, All, ℤ, pos, ◌+ℤ◌, Bool-cases, inl, inr,
  Option-cases, if◌then◌else◌, All-append, some-injective,
}
use tiny_red.Store.SkipList.{
  Scores, SkipListLevel, SkipList, skip_list_max_level, level_of, search_path, before,
}
use tiny_red.Store.SkipList.Queries.{matches, unlink, delete, get_rank}
use tiny_red.Store.SkipList.Chain.{is_tall, Chain, Chain-behind, ahead}
use tiny_red.Store.SkipList.Search.{view, IsBefore, IsNotBefore, Trail}
use tiny_red.Store.SkipList.Looking.{tall_cell, All-behind}
use tiny_red.Store.SkipList.Deleting.{Shrunk, unlink_levels_lem}
use tiny_red.Store.SkipList.Order.{Scored, Sorted, IsOrdered, IsNumber}
use tiny_red.Store.SkipList.Matching.{
  is_match, delete_entry, rank_entry, NoMatch, less-no_match, sorted-no_match, no_match_lem,
  first_match_lem, delete_entry-Sorted,
}
use tiny_red.Store.SkipList.Represents.{WellFormed, entry_of, Represents, split_nodes}
use tiny_red.Store.SkipList.Places.{find_place}
use tiny_red.Store.SkipList.Shorter.{map-append, shorter, shorter-WellFormed, shorter-entries}

module _ {F : Type 0} (scores : Scores F) (laws : IsOrdered scores) (s : SkipList F) (m : Bytes)
    (k : F) where
  before-NoMatch :
      (C : List ℕ)
      → laws.Number k
      → All (IsNumber scores laws) (map (entry_of s) C)
      → All (IsBefore scores s m k) C
      → NoMatch scores (m, k) (map (entry_of s) C)
  unfolding before
  before-NoMatch [] p _ _ = tt
  before-NoMatch (c ∷ C) p (q, qs) (b, bs) =
      (less-no_match scores laws (entry_of s c) (m, k) q p b, before-NoMatch C p qs bs)

  module _ (C zs : List ℕ) (well_formed : WellFormed s (C ++ zs))
      (in_front : All (IsBefore scores s m k) C) (behind : All (IsNotBefore scores s m k) zs) where
    -- The search and the node behind the place.
    ground_next :
        (c : ℕ) × (path : List (ℕ × ℤ)) × (cell : SkipListLevel) × (search_path scores s m k
          ≡ some (c, pos (length C), path))
        × (level_of s 0 c ≡ some cell)
        × (cell.forward ≡ ahead (view s 0) zs)
        × Trail scores s m k (s.head ∷ C) 0 path
        × (length path ≡ skip_list_max_level)
    ground_next =
        let (c, path, A, e, at, tall, p, l) =
          find_place scores s m k (C ++ zs) C zs well_formed refl in_front behind in
        let (cell, f) = tall_cell (view s 0) c tall in
        let chain =
          subst (Chain (view s 0)) (ap (λ l. l ++ zs) at ∙ append_assoc A (c ∷ []) zs)
            (well_formed.chains 0 (omega arith)) in
        let right = (Chain-behind (view s 0) A (c ∷ zs) chain).0 cell f in
        (c, path, cell, e, f, ap (λ (l : SkipListLevel). l.forward) right, p, l)

  ahead_ground :
      (C : List ℕ) (z : ℕ) (zs : List ℕ)
      → WellFormed s (C ++ z ∷ zs)
      → ahead (view s 0) (z ∷ zs) ≡ some z
  unfolding ahead
  ahead_ground C z zs well_formed =
      rw (All-behind (λ x. is_tall (view s 0) x ≡ true) C z zs well_formed.on_ground).0 refl

  -- What follows the search.
  module _ (c : ℕ) (rank : ℤ) (path : List (ℕ × ℤ)) (cell : SkipListLevel)
      (e : search_path scores s m k ≡ some (c, rank, path)) (f : level_of s 0 c ≡ some cell) where
    at_end :
        cell.forward ≡ none
        → (delete scores m k s ≡ some (false, s)) × (get_rank scores m k s ≡ some (pos 0))
    unfolding delete get_rank
    at_end g = (rw (e, f, g) refl, rw (e, f, g) refl)

    at_node :
        (z : ℕ)
        → cell.forward ≡ some z
        → (delete scores m k s
            ≡ (if matches scores s z m k then unlink scores z path s else some (false, s)))
          × (get_rank scores m k s ≡ some (if matches scores s z m k then rank +ℤ pos 1 else pos 0))
    unfolding delete get_rank
    at_node z g = (rw (e, f, g) refl, rw (e, f, g) refl)

  -- `Delete` where the entry is not there, and where it is the one behind the place.
  module _ (C zs : List ℕ) (well_formed : WellFormed s (C ++ zs))
      (in_front : All (IsBefore scores s m k) C) (behind : All (IsNotBefore scores s m k) zs) where
    absent_lem :
        ((z : ℕ) → ahead (view s 0) zs ≡ some z → matches scores s z m k ≡ false)
        → (delete scores m k s ≡ some (false, s)) × (get_rank scores m k s ≡ some (pos 0))
    absent_lem h =
        let (c, path, cell, e, f, g, _, _) = ground_next C zs well_formed in_front behind in
        elim (Option-cases cell.forward) [
          | inl end ↦ at_end c (pos (length C)) path cell e f end
          | inr (z, found) ↦
              let n = h z (sym g ∙ found) in
              let (d, r) = at_node c (pos (length C)) path cell e f z found in
              (d ∙ rw n refl, r ∙ rw n refl)
        ]

  present_lem :
      (C : List ℕ) (z : ℕ) (zs : List ℕ)
      → WellFormed s (C ++ z ∷ zs)
      → All (IsBefore scores s m k) C
      → All (IsNotBefore scores s m k) (z ∷ zs)
      → matches scores s z m k ≡ true
      → (t : SkipList F) × (delete scores m k s ≡ some (true, t))
        × WellFormed t (C ++ zs)
        × (map (entry_of t) (C ++ zs) ≡ map (entry_of s) (C ++ zs))
        × (get_rank scores m k s ≡ some (pos (length C + 1)))
  unfolding unlink Shrunk shorter
  present_lem C z zs well_formed in_front behind match =
      let (c, path, cell, e, f, g, p, l) = ground_next C (z ∷ zs) well_formed in_front behind in
      let found : cell.forward ≡ some z = g ∙ ahead_ground C z zs well_formed in
      let (t, h, (_, chains, kept)) =
        unlink_levels_lem scores s m k (s.head ∷ C) z zs well_formed.distinct well_formed.chains 0
          path s (omega arith) (λ j x h. refl) p in
      let (d, r) = at_node c (pos (length C)) path cell e f z found in
      let chains' = λ (j : ℕ) (h : j < skip_list_max_level). chains j (omega arith) (omega arith) in
      (
        shorter s C z zs well_formed t kept chains',
        d ∙ rw match (rw h refl),
        shorter-WellFormed s C z zs well_formed t kept chains',
        shorter-entries s C z zs well_formed t kept chains' (C ++ zs),
        r ∙ rw match (ground arith),
      )

  abbrev Finds : List (Scored F) → Type 0
  Finds es =
      (t : SkipList F) × (delete scores m k s ≡ some ((delete_entry scores (m, k) es).0, t))
      × Represents t (delete_entry scores (m, k) es).1
      × (get_rank scores m k s ≡ some (pos (rank_entry scores (m, k) es)))

  nothing_found :
      (C zs : List ℕ)
      → WellFormed s (C ++ zs)
      → All (IsBefore scores s m k) C
      → All (IsNotBefore scores s m k) zs
      → ((z : ℕ) → ahead (view s 0) zs ≡ some z → matches scores s z m k ≡ false)
      → NoMatch scores (m, k) (map (entry_of s) C ++ map (entry_of s) zs)
      → Finds (map (entry_of s) C ++ map (entry_of s) zs)
  unfolding Represents
  nothing_found C zs well_formed in_front behind h none_of =
      let (d, r) = absent_lem C zs well_formed in_front behind h in
      let (f, g) = no_match_lem scores (m, k) (map (entry_of s) C ++ map (entry_of s) zs) none_of in
      (s, rw f d, rw f (C ++ zs, well_formed, map-append (entry_of s) C zs), rw g r)

  finds_lem :
      (C zs : List ℕ)
      → laws.Number k
      → WellFormed s (C ++ zs)
      → All (IsNumber scores laws) (map (entry_of s) C)
      → All (IsNumber scores laws) (map (entry_of s) zs)
      → Sorted scores (map (entry_of s) zs)
      → All (IsBefore scores s m k) C
      → All (IsNotBefore scores s m k) zs
      → Finds (map (entry_of s) C ++ map (entry_of s) zs)
  unfolding Represents matches before ahead
  finds_lem C [] p well_formed qC _ _ in_front behind =
      nothing_found C [] well_formed in_front behind (λ z e. cc)
        (All-append (λ d. is_match scores d (m, k) ≡ false) (map (entry_of s) C) []
          (before-NoMatch C p qC in_front) tt)
  finds_lem C (z ∷ zs) p well_formed qC (qz, qs) (sz, _) in_front (bz, bs) =
      elim (Bool-cases (matches scores s z m k)) [
        | inr off ↦
            nothing_found C (z ∷ zs) well_formed in_front (bz, bs)
              (λ y e.
                subst (λ x. matches scores s x m k ≡ false)
                  (some-injective _ _ (sym (ahead_ground C z zs well_formed) ∙ e)) off)
              (All-append (λ d. is_match scores d (m, k) ≡ false) (map (entry_of s) C)
                (entry_of s z ∷ map (entry_of s) zs) (before-NoMatch C p qC in_front)
                (
                  off,
                  sorted-no_match scores laws (m, k) (entry_of s z) (map (entry_of s) zs) p qz qs bz
                      off sz,
                ))
        | inl on ↦
            let (t, d, well_formed', e, r) = present_lem C z zs well_formed in_front (bz, bs) on in
            let (f, g) =
              first_match_lem scores (m, k) (map (entry_of s) C) (entry_of s z)
                (map (entry_of s) zs) (before-NoMatch C p qC in_front) on in
            (
              t,
              rw f d,
              rw f (C ++ zs, well_formed', e ∙ map-append (entry_of s) C zs),
              rw (g, length-map C (entry_of s)) (r ∙ ap (λ n. some (pos n)) (omega arith)),
            )
      ]

All-parts : {T : Type 0} (P : T → Type 0) (ds bs : List T) → All P (ds ++ bs) → All P ds × All P bs
All-parts P [] bs h = (tt, h)
All-parts P (a ∷ ds) bs (p, h) = let (f, g) = All-parts P ds bs h in ((p, f), g)

Sorted-behind :
    {F : Type 0} (scores : Scores F) (ds bs : List (Scored F))
    → Sorted scores (ds ++ bs)
    → Sorted scores bs
Sorted-behind scores [] bs h = h
Sorted-behind scores (a ∷ ds) bs (_, h) = Sorted-behind scores ds bs h

-- On a skip list that stands for a sorted list of entries with numbers as scores, Delete of a member
-- and a score that is a number ends without a panic, returns whether the list has that entry, and
-- leaves a skip list whose pointers and spans are right for the list without the first such entry,
-- which is sorted; and GetRank returns the entry's rank in the list, counted from 1, or 0.
pub delete-Represents :
    {F : Type 0} (scores : Scores F) (laws : IsOrdered scores) (m : Bytes) (k : F) (s : SkipList F)
    (es : List (Scored F))
    → laws.Number k
    → Represents s es
    → All (IsNumber scores laws) es
    → Sorted scores es
    → ((t : SkipList F) × (delete scores m k s ≡ some ((delete_entry scores (m, k) es).0, t))
        × Represents t (delete_entry scores (m, k) es).1
        × Sorted scores (delete_entry scores (m, k) es).1)
      × (get_rank scores m k s ≡ some (pos (rank_entry scores (m, k) es)))
unfolding Represents
delete-Represents scores laws m k s es number (xs, well_formed, e) numbers sorted =
    let (C, zs, split, b, n) =
      split_nodes scores laws s m k xs number (subst (All (IsNumber scores laws)) (sym e) numbers)
        (subst (Sorted scores) (sym e) sorted) in
    let joined : es ≡ map (entry_of s) C ++ map (entry_of s) zs =
      sym e ∙ (ap (map (entry_of s)) split ∙ map-append (entry_of s) C zs) in
    let (qC, qs) =
      All-parts (IsNumber scores laws) (map (entry_of s) C) (map (entry_of s) zs)
        (subst (All (IsNumber scores laws)) joined numbers) in
    let (t, d, represents, r) = subst (Finds scores laws s m k) (sym joined) (
      finds_lem scores laws s m k C zs number (subst (WellFormed s) split well_formed) qC qs
        (Sorted-behind scores (map (entry_of s) C) (map (entry_of s) zs)
          (subst (Sorted scores) joined sorted))
        b n) in
    ((t, d, represents, delete_entry-Sorted scores (m, k) es sorted), r)
