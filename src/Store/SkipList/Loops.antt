-- ===== src/Store/SkipList/Loops.antt =====
-- store/skip_list.go: the two loops of `Insert` that set the cells make every level right for the list
-- with the new node.
use tiny_red.Base.{
  ℕ, zero, suc, ◌+◌, ◌≤◌, ◌<◌, ◌≡◌, ◌≢◌, refl, sym, ap, subst, ◌∙◌, inl, inr, true, Option, none,
  some, List, [], ◌∷◌, ◌++◌, arith, append_assoc, Bytes, length, length-append, All, ℤ, pos, ◌+ℤ◌,
  ◌-ℤ◌, Bool-cases, ◌==◌,
}
use tiny_red.Store.SkipList.{
  Scores, SkipListLevel, SkipList, skip_list_max_level, set_level, link_levels, count_levels,
}
use tiny_red.Store.SkipList.Chain.{
  View, is_tall, is_tall-same, IsLow, Chain, Chain-same, Chain-count, Chain-link, Same,
}
use tiny_red.Store.SkipList.Search.{Trail, view}
use tiny_red.Store.SkipList.Looking.{tall_cell, All-behind}
use tiny_red.Store.SkipList.Links.{
  view-other_node, view-other_level, view-set, Kept, Kept-refl, Kept-trans, Kept-set_level,
  Distinct, Distinct-at, All-split, All-Same,
}

pub All-everywhere : (V W : View) (xs : List ℕ) → ((x : ℕ) → W x ≡ V x) → All (Same V W) xs
All-everywhere V W [] h = tt
All-everywhere V W (x ∷ xs) h = (h x, All-everywhere V W xs h)

-- The nodes around one at a place of the list are others than it, and than the new node.
Others : ℕ → ℕ → List ℕ → Type 0
Others u n xs = All (λ y. y ≢ u) xs × All (λ y. y ≢ n) xs

around :
    (A : List ℕ) (u : ℕ) (M zs : List ℕ) (n : ℕ)
    → Distinct (A ++ u ∷ (M ++ zs))
    → All (λ y. y ≢ n) (A ++ u ∷ (M ++ zs))
    → Others u n A × Others u n M × Others u n zs × (u ≢ n)
unfolding Others
around A u M zs n distinct fresh =
    let (dA, dR) = Distinct-at A u (M ++ zs) distinct in
    let (dM, dz) = All-split (λ y. y ≢ u) M zs dR in
    let (fA, _) = All-split (λ y. y ≢ n) A (u ∷ (M ++ zs)) fresh in
    let (fu, fR) = All-behind (λ y. y ≢ n) A u (M ++ zs) fresh in
    let (fM, fz) = All-split (λ y. y ≢ n) M zs fR in ((dA, fA), (dM, fM), (dz, fz), fu)

-- From level `i` on, the cells of `count` levels are right for the list, and nothing else has changed.
module _ {F : Type 0} (L : List ℕ) where
  abbrev pub After : ℕ → ℕ → SkipList F → SkipList F → Type 0
  After i count s t =
      ((j x : ℕ) → j < i → view t j x ≡ view s j x)
      × ((j : ℕ) → i ≤ j → j < i + count → Chain (view t j) L)
      × Kept s t

  pub After-step :
      (i count : ℕ) (s r t : SkipList F)
      → ((j x : ℕ) → j ≢ i → view r j x ≡ view s j x)
      → Chain (view r i) L
      → Kept s r
      → After (suc i) count r t
      → After i (suc count) s t
  After-step i count s r t other chain kept (below, above, kept') = (
    λ j x h. below j x (omega arith) ∙ other j x (λ e. absurd (omega arith)),
    λ j h l. elim (Bool-cases (j == i)) [
      | inl on ↦
          let e : i ≡ j = ground arith in
          subst (λ l. Chain (view t l) L) e
            (Chain-same (view r i) (view t i) L
              (All-everywhere (view r i) (view t i) L (λ x. below i x (omega arith))) chain)
      | inr off ↦ above j (ground arith) (omega arith)
    ],
    Kept-trans s r t kept kept',
  )

module _ {F : Type 0} (scores : Scores F) (s0 : SkipList F) (m : Bytes) (k : F) (ys zs : List ℕ)
    (n : ℕ) (distinct : Distinct (ys ++ zs)) (fresh : All (λ y. y ≢ n) (ys ++ zs))
    (chains : (i : ℕ) → i < skip_list_max_level → Chain (view s0 i) (ys ++ zs)) where
  -- From level `i` on the cells of the old nodes are still those of the search.
  abbrev Agrees : ℕ → SkipList F → Type 0
  Agrees i s = (j x : ℕ) → i ≤ j → x ≢ n → view s j x ≡ view s0 j x

  -- The last node on a level in front of the place, with what the lemmas on a level want of it.
  module _ (i : ℕ) (s r : SkipList F) (A : List ℕ) (u : ℕ) (M : List ℕ) (cell : SkipListLevel)
      (inside : i < skip_list_max_level) (split : ys ≡ A ++ u ∷ M)
      (lows : All (IsLow (view s0 i)) M) (e : view s0 i u ≡ some cell)
      (same : (x : ℕ) → x ≢ u → x ≢ n → view r i x ≡ view s0 i x) where
    split_all : (P : List ℕ → Type 0) → (zs : List ℕ) → P (ys ++ zs) → P (A ++ u ∷ (M ++ zs))
    split_all P zs = subst P (ap (λ l. l ++ zs) split ∙ append_assoc A (u ∷ M) zs)

    around_u : Others u n A × Others u n M × Others u n zs × (u ≢ n)
    around_u =
        around A u M zs n (split_all Distinct zs distinct) (split_all (All (λ y. y ≢ n)) zs fresh)

    join_all : (P : List ℕ → Type 0) → (zs : List ℕ) → P (A ++ u ∷ (M ++ zs)) → P (ys ++ zs)
    join_all P zs = subst P (sym (ap (λ l. l ++ zs) split ∙ append_assoc A (u ∷ M) zs))

    counted :
        view r i n ≡ none
        → view r i u ≡ some (record cell { span = cell.span +ℤ pos 1 })
        → Chain (view r i) (ys ++ n ∷ zs)
    unfolding Others
    counted f g =
        let (oA, oM, oz, _) = around_u in
        join_all (Chain (view r i)) (n ∷ zs) (
          Chain-count (view s0 i) (view r i) A u M n zs cell
            (split_all (Chain (view s0 i)) zs (chains i inside)) lows
            (All-Same (view s0 i) (view r i) u n A oA.0 oA.1 same)
            (All-Same (view s0 i) (view r i) u n M oM.0 oM.1 same)
            (All-Same (view s0 i) (view r i) u n zs oz.0 oz.1 same) e f g)

    linked :
        view r i n ≡ some (record { forward = cell.forward; span = cell.span -ℤ pos (length M) })
        → view r i u ≡ some (record { forward = some n; span = pos (length M) +ℤ pos 1 })
        → Chain (view r i) (ys ++ n ∷ zs)
    unfolding Others
    linked f g =
        let (oA, oM, oz, _) = around_u in
        join_all (Chain (view r i)) (n ∷ zs) (
          Chain-link (view s0 i) (view r i) A u M n zs cell
            (split_all (Chain (view s0 i)) zs (chains i inside)) lows
            (All-Same (view s0 i) (view r i) u n A oA.0 oA.1 same)
            (All-Same (view s0 i) (view r i) u n M oM.0 oM.1 same)
            (All-Same (view s0 i) (view r i) u n zs oz.0 oz.1 same) e f g)

  others_tall : (i u : ℕ) (A M : List ℕ) → ys ≡ A ++ u ∷ M → u ≢ n
  others_tall i u A M split =
      (All-behind (λ y. y ≢ n) A u (M ++ zs)
        (subst (All (λ y. y ≢ n)) (ap (λ l. l ++ zs) split ∙ append_assoc A (u ∷ M) zs) fresh)).0

  unfoldable pub Grown : ℕ → ℕ → Option (SkipList F) → SkipList F → Type 0
  Grown i count o s = (t : SkipList F) × (o ≡ some t) × After (ys ++ n ∷ zs) i count s t

  count_levels_lem :
      (i : ℕ) (path : List (ℕ × ℤ)) (s : SkipList F)
      → i + length path ≤ skip_list_max_level
      → Agrees i s
      → ((j : ℕ) → i ≤ j → view s j n ≡ none)
      → Trail scores s0 m k ys i path
      → Grown i (length path) (count_levels i path s) s
  unfolding count_levels Grown
  count_levels_lem i [] s bound agrees new p =
      (s, refl, (λ j x h. refl, λ j h l. absurd (omega arith), Kept-refl s))
  count_levels_lem i ((u, rank) ∷ path) s bound agrees new ((A, M, split, _, lows, _, tall), p) =
      let u≢n = others_tall i u A M split in
      let (cell, e) = tall_cell (view s0 i) u tall in
      let f : view s i u ≡ some cell = agrees i u (omega arith) u≢n ∙ e in
      let c : SkipListLevel = record cell { span = cell.span +ℤ pos 1 } in
      let r = set_level i c u s in
      let (t, g, after) =
        count_levels_lem (suc i) path r (omega arith)
          (λ j x h l.
            view-other_level s i c u j x (λ q. absurd (omega arith)) ∙ agrees j x (omega arith) l)
          (λ j h. view-other_level s i c u j n (λ q. absurd (omega arith)) ∙ new j (omega arith))
          p in
      (
        t,
        rw f g,
        After-step (ys ++ n ∷ zs) i (length path) s r t (view-other_level s i c u)
            (counted i s r A u M cell (omega arith) split lows e
              (λ x a b. view-other_node s i c u i x a ∙ agrees i x (omega arith) b)
              (view-other_node s i c u i n (λ q. u≢n (sym q)) ∙ new i (omega arith))
              (view-set s i c u cell f))
            (Kept-set_level s i c u) after,
      )

  module _ (R : ℕ) (all : length ys ≡ suc R) where
    distance_lem :
        (A : List ℕ) (u : ℕ) (M : List ℕ) (rank : ℤ)
        → ys ≡ A ++ u ∷ M
        → rank ≡ pos (length A)
        → pos R -ℤ rank ≡ pos (length M)
    distance_lem A u M rank split e =
        let h : R ≡ length A + length M =
          omega (arith, all, ap length split, length-append A (u ∷ M)) in
        rw (e, h) (ground arith)

    pub link_levels_lem :
        (level i : ℕ) (path : List (ℕ × ℤ)) (s : SkipList F)
        → level ≤ length path
        → i + length path ≤ skip_list_max_level
        → Agrees i s
        → ((j : ℕ) → i ≤ j → j < i + level → is_tall (view s j) n ≡ true)
        → ((j : ℕ) → i + level ≤ j → view s j n ≡ none)
        → Trail scores s0 m k ys i path
        → Grown i (length path) (link_levels n (pos R) level i path s) s
    unfolding link_levels Grown
    link_levels_lem zero i path s few bound agrees high new p =
        count_levels_lem i path s bound agrees (λ j h. new j (omega arith)) p
    link_levels_lem (suc level) i [] s few bound agrees high new p = absurd (omega arith)
    link_levels_lem (suc level) i ((u, rank) ∷ path) s few bound agrees high new
          ((A, M, split, at, lows, _, tall), p) =
        let u≢n = others_tall i u A M split in
        let (cell, e) = tall_cell (view s0 i) u tall in
        let f : view s i u ≡ some cell = agrees i u (omega arith) u≢n ∙ e in
        let d = pos R -ℤ rank in
        let c : SkipListLevel = record { forward = cell.forward; span = cell.span -ℤ d } in
        let c' : SkipListLevel = record { forward = some n; span = d +ℤ pos 1 } in
        let q = set_level i c n s in
        let r = set_level i c' u q in
        let other : (j x : ℕ) → j ≢ i → view r j x ≡ view s j x =
          λ j x h. view-other_level q i c' u j x h ∙ view-other_level s i c n j x h in
        let (old, g) = tall_cell (view s i) n (high i (omega arith) (omega arith)) in
        let (t, g', after) =
          link_levels_lem level (suc i) path r (omega arith) (omega arith)
            (λ j x h l. other j x (λ w. absurd (omega arith)) ∙ agrees j x (omega arith) l)
            (λ j h l.
              is_tall-same (view s j) (view r j) n (other j n (λ w. absurd (omega arith)))
              ∙ high j (omega arith) (omega arith))
            (λ j h. other j n (λ w. absurd (omega arith)) ∙ new j (omega arith)) p in
        let dist = distance_lem A u M rank split at in
        (
          t,
          rw f g',
          After-step (ys ++ n ∷ zs) i (length path) s r t other
              (linked i s r A u M cell (omega arith) split lows e
                (λ x a b.
                  view-other_node q i c' u i x a
                  ∙ (view-other_node s i c n i x b ∙ agrees i x (omega arith) b))
                (view-other_node q i c' u i n (λ w. u≢n (sym w))
                  ∙ (view-set s i c n old g
                      ∙ ap (λ v. some (record { forward = cell.forward; span = cell.span -ℤ v }))
                          dist))
                (view-set q i c' u cell (view-other_node s i c n i u u≢n ∙ f)
                  ∙ ap (λ v. some (record { forward = some n; span = v +ℤ pos 1 })) dist))
              (Kept-trans s q r (Kept-set_level s i c n) (Kept-set_level q i c' u)) after,
        )
