-- ===== src/Store/SkipList/Deleting.antt =====
-- store/skip_list.go: the loop of `Delete` that sets the cells makes every level right for the list without the node.
use tiny_red.Base.{
  ℕ, suc, ◌+◌, ◌≤◌, ◌<◌, ◌≡◌, ◌≢◌, refl, sym, ap, subst, ◌∙◌, inl, inr, true, false, Option, none,
  some, List, [], ◌∷◌, ◌++◌, arith, append_assoc, Bytes, length, All, ℤ, pos, ◌+ℤ◌, ◌-ℤ◌,
  Option-cases, ==_refl,
}
use tiny_red.Store.SkipList.{
  Scores, SkipListLevel, SkipList, skip_list_max_level, level_of, set_level,
}
use tiny_red.Store.SkipList.Queries.{points_to, unlinked_cell, unlink_levels}
use tiny_red.Store.SkipList.Chain.{
  is_tall, is_tall-low, is_tall-cell, IsLow, IsRight, Chain, Chain-behind, ahead, gap, cell_for,
  cell_for-low,
}
use tiny_red.Store.SkipList.Search.{Trail, view}
use tiny_red.Store.SkipList.Looking.{tall_cell}
use tiny_red.Store.SkipList.Links.{
  view-other_node, view-other_level, view-set, Kept-refl, Kept-set_level, Distinct, Distinct-at,
  All-split, All-Same,
}
use tiny_red.Store.SkipList.Loops.{After, After-step}
use tiny_red.Store.SkipList.Cells.{Chain-remove, unlinked, shortened, points_to-other}

module _ {F : Type 0} (s : SkipList F) (i z : ℕ) (cell : SkipListLevel) where
  unlinked_found :
      (next : SkipListLevel)
      → points_to cell.forward z ≡ true
      → level_of s i z ≡ some next
      → unlinked_cell s i z cell
        ≡ some (record { forward = next.forward; span = cell.span +ℤ (next.span -ℤ pos 1) })
  unfolding unlinked_cell
  unlinked_found next f g = rw (f, g) refl

  unlinked_passed :
      points_to cell.forward z ≡ false
      → unlinked_cell s i z cell ≡ some (record cell { span = cell.span -ℤ pos 1 })
  unfolding unlinked_cell
  unlinked_passed f = rw f refl

module _ {F : Type 0} (scores : Scores F) (s0 : SkipList F) (m : Bytes) (k : F) (ys : List ℕ)
    (z : ℕ) (zs : List ℕ) (distinct : Distinct (ys ++ z ∷ zs))
    (chains : (i : ℕ) → i < skip_list_max_level → Chain (view s0 i) (ys ++ z ∷ zs)) where
  -- The cell of the last node on a level in front of the one to delete, and what follows it.
  module _ (i : ℕ) (A : List ℕ) (u : ℕ) (M : List ℕ) (cell : SkipListLevel)
      (inside : i < skip_list_max_level) (split : ys ≡ A ++ u ∷ M)
      (lows : All (IsLow (view s0 i)) M) (e : view s0 i u ≡ some cell) where
    join : ys ++ z ∷ zs ≡ A ++ u ∷ (M ++ z ∷ zs)
    join = ap (λ l. l ++ z ∷ zs) split ∙ append_assoc A (u ∷ M) (z ∷ zs)

    chain_u : Chain (view s0 i) (A ++ u ∷ (M ++ z ∷ zs))
    chain_u = subst (Chain (view s0 i)) join (chains i inside)

    cell_u : cell ≡ cell_for (view s0 i) (M ++ z ∷ zs)
    cell_u = (Chain-behind (view s0 i) A (u ∷ (M ++ z ∷ zs)) chain_u).0 cell e

    IsRight-at : IsRight (view s0 i) z zs
    IsRight-at =
        (Chain-behind (view s0 i) M (z ∷ zs)
          (Chain-behind (view s0 i) A (u ∷ (M ++ z ∷ zs)) chain_u).1).0

    not_z : All (λ y. y ≢ z) zs
    not_z = (Distinct-at ys z zs distinct).1

    removed :
        (r : SkipList F)
        → ((x : ℕ) → x ≢ u → view r i x ≡ view s0 i x)
        → view r i u
          ≡ some (record {
            forward = ahead (view s0 i) zs;
            span = pos (length M + gap (view s0 i) zs);
          })
        → Chain (view r i) (ys ++ zs)
    removed r same f =
        let (dA, dR) = Distinct-at A u (M ++ z ∷ zs) (subst Distinct join distinct) in
        let (dM, dz) = All-split (λ y. y ≢ u) M (z ∷ zs) dR in
        let V = view s0 i in
        let W = view r i in
        subst (Chain W) (sym (ap (λ l. l ++ zs) split ∙ append_assoc A (u ∷ M) zs)) (
          Chain-remove V W A u M z zs chain_u lows (All-Same V W u u A dA dA (λ x h _. same x h))
            (All-Same V W u u M dM dM (λ x h _. same x h))
            (All-Same V W u u zs dz.1 dz.1 (λ x h _. same x h)) (is_tall-cell V u cell e) f)

    -- The node to delete is on the level.
    tall_next :
        is_tall (view s0 i) z ≡ true → cell ≡ record { forward = some z; span = pos (length M + 1) }
    unfolding ahead gap
    tall_next tall =
        cell_u
        ∙ cell_for-low (view s0 i) (view s0 i) M (z ∷ zs) lows (some z) 1 (rw tall refl)
            (rw tall refl)

    -- The node to delete is not on the level.
    low_next :
        view s0 i z ≡ none
        → cell ≡ record {
          forward = ahead (view s0 i) zs;
          span = pos (length M + suc (gap (view s0 i) zs));
        }
    unfolding ahead gap
    low_next low =
        let f = is_tall-low (view s0 i) z low in
        cell_u
        ∙ cell_for-low (view s0 i) (view s0 i) M (z ∷ zs) lows (ahead (view s0 i) zs)
            (suc (gap (view s0 i) zs)) (rw f refl) (rw f refl)

  unfoldable pub Shrunk : ℕ → ℕ → Option (SkipList F) → SkipList F → Type 0
  Shrunk i count o s = (t : SkipList F) × (o ≡ some t) × After (ys ++ zs) i count s t

  abbrev Agrees : ℕ → SkipList F → Type 0
  Agrees i s = (j x : ℕ) → i ≤ j → view s j x ≡ view s0 j x

  pub unlink_levels_lem :
      (i : ℕ) (path : List (ℕ × ℤ)) (s : SkipList F)
      → i + length path ≤ skip_list_max_level
      → Agrees i s
      → Trail scores s0 m k ys i path
      → Shrunk i (length path) (unlink_levels z i path s) s
  unfolding unlink_levels Shrunk points_to
  unlink_levels_lem i [] s bound agrees p =
      (s, refl, (λ j x h. refl, λ j h l. absurd (omega arith), Kept-refl s))
  unlink_levels_lem i ((u, rank) ∷ path) s bound agrees ((A, M, split, _, lows, _, tall), p) =
      let (cell, e) = tall_cell (view s0 i) u tall in
      let f : view s i u ≡ some cell = agrees i u (omega arith) ∙ e in
      let V = view s0 i in
      let inside : i < skip_list_max_level = omega arith in
      let step : (c : SkipListLevel)
          → c ≡ record { forward = ahead V zs; span = pos (length M + gap V zs) }
          → (t : SkipList F) × (unlink_levels z (suc i) path (set_level i c u s) ≡ some t)
            × After (ys ++ zs) i (suc (length path)) s t =
        λ c q.
          let r = set_level i c u s in
          let (t, g, after) =
            unlink_levels_lem (suc i) path r (omega arith)
              (λ j x h.
                view-other_level s i c u j x (λ w. absurd (omega arith)) ∙ agrees j x (omega arith))
              p in
          (
            t,
            g,
            After-step (ys ++ zs) i (length path) s r t (view-other_level s i c u)
                (removed i A u M cell inside split lows e r
                  (λ x a. view-other_node s i c u i x a ∙ agrees i x (omega arith))
                  (view-set s i c u cell f ∙ ap some q))
                (Kept-set_level s i c u) after,
          ) in
      elim (Option-cases (V z)) [
        | inr (next, tall_z) ↦
            let w = tall_next i A u M cell inside split lows e (is_tall-cell V z next tall_z) in
            let right = IsRight-at i A u M cell inside split lows e next tall_z in
            let found : points_to cell.forward z ≡ true =
              ap (λ (l : SkipListLevel). points_to l.forward z) w ∙ ==_refl z in
            let (t, g, after) =
              step (record { forward = next.forward; span = cell.span +ℤ (next.span -ℤ pos 1) })
                (unlinked z cell next (length M) (gap V zs) (ahead V zs) w right) in
            (
              t,
              rw (f, unlinked_found s i z cell next found (agrees i z (omega arith) ∙ tall_z)) g,
              after,
            )
        | inl low_z ↦
            let w = low_next i A u M cell inside split lows e low_z in
            let passed : points_to cell.forward z ≡ false =
              ap (λ (l : SkipListLevel). points_to l.forward z) w
              ∙ points_to-other V zs z (not_z i A u M cell inside split lows e) in
            let (t, g, after) =
              step (record cell { span = cell.span -ℤ pos 1 })
                (shortened cell (length M) (gap V zs) (ahead V zs) w) in
            (t, rw (f, unlinked_passed s i z cell passed) g, after)
      ]
