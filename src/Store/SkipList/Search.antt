-- ===== src/Store/SkipList/Search.antt =====
-- store/skip_list.go: the loops that look for a place come to the last node in front of it, on every level.
use tiny_red.Base.{
  ℕ, zero, suc, ◌+◌, ◌≤◌, ◌<◌, ◌≡◌, refl, sym, ap, subst, ◌∙◌, inl, inr, true, false, some, List,
  [], ◌∷◌, ◌++◌, arith, append_assoc, Bytes, length, length-append, All, ℤ, pos, ◌+ℤ◌, Option-cases,
}
use tiny_red.Store.SkipList.{
  Scores, SkipListLevel, SkipList, skip_list_max_level, level_of, steps, before, walk, descend,
  search_path,
}
use tiny_red.Store.SkipList.Chain.{View, is_tall, is_tall-cell, Chain, Chain-behind, ahead-low}
use tiny_red.Store.SkipList.Looking.{
  FirstTall, tall_cell, find_tall, ahead_member, All-behind, first_tall, shorter, rank_behind,
  get_elem?-below, Stands,
}

module _ {F : Type 0} where
  -- What the nodes have on level `i`.
  abbrev pub view : SkipList F → ℕ → View
  view s i = level_of s i

  -- A node that is on a level is on those below.
  pub tall_below :
      (s : SkipList F) (i j x : ℕ)
      → j ≤ i
      → is_tall (view s i) x ≡ true
      → is_tall (view s j) x ≡ true
  unfolding level_of
  tall_below s i j x h tall =
      let (cell, e) = tall_cell (view s i) x tall in
      let (c, f) = get_elem?-below (s.nodes x).level i j cell h e in is_tall-cell (view s j) x c f

  walk_stop :
      (scores : Scores F) (fuel : ℕ) (s : SkipList F) (i : ℕ) (m : Bytes) (k : F) (c : ℕ) (r : ℤ)
      (cell : SkipListLevel)
      → level_of s i c ≡ some cell
      → ((z : ℕ) → cell.forward ≡ some z → before scores s z m k ≡ false)
      → walk scores (suc fuel) s i m k c r ≡ some (c, r)
  unfolding walk
  walk_stop scores fuel s i m k c r cell e h = elim (Option-cases cell.forward) [
    | inl end ↦ rw (e, end) refl
    | inr (z, next) ↦ rw (e, next, h z next) refl
  ]

  walk_step :
      (scores : Scores F) (fuel : ℕ) (s : SkipList F) (i : ℕ) (m : Bytes) (k : F) (c : ℕ) (r : ℤ)
      (cell : SkipListLevel) (z : ℕ)
      → level_of s i c ≡ some cell
      → cell.forward ≡ some z
      → before scores s z m k ≡ true
      → walk scores (suc fuel) s i m k c r ≡ walk scores fuel s i m k z (r +ℤ cell.span)
  unfolding walk
  walk_step scores fuel s i m k c r cell z e next h = rw (e, next, h) refl

  module _ (scores : Scores F) (s : SkipList F) (m : Bytes) (k : F) where
    abbrev pub IsBefore : ℕ → Type 0
    IsBefore x = before scores s x m k ≡ true

    abbrev pub IsNotBefore : ℕ → Type 0
    IsNotBefore x = before scores s x m k ≡ false

    module _ (i : ℕ) (zs : List ℕ) (behind : All IsNotBefore zs) where
      walk_lem :
          (fuel : ℕ) (A : List ℕ) (c : ℕ) (C : List ℕ)
          → Chain (view s i) (A ++ c ∷ (C ++ zs))
          → is_tall (view s i) c ≡ true
          → All IsBefore C
          → length C < fuel
          → (c' : ℕ) × (r : ℤ) × (walk scores fuel s i m k c (pos (length A)) ≡ some (c', r))
            × Stands (view s i) IsBefore (A ++ c ∷ C) c' r
      unfolding FirstTall
      walk_lem zero A c C chain tall h enough = absurd (omega arith)
      walk_lem (suc fuel) A c C chain tall h enough =
          let V = view s i in
          let (cell, e) = tall_cell V c tall in
          let right = (Chain-behind V A (c ∷ (C ++ zs)) chain).0 cell e in
          elim (find_tall V C) [
            | inl lows ↦ (
              c,
              pos (length A),
              walk_stop scores fuel s i m k c (pos (length A)) cell e (λ z f.
                  ahead_member V IsNotBefore zs z behind (
                    sym (ahead-low V C zs lows)
                    ∙ (sym (ap (λ (l : SkipListLevel). l.forward) right) ∙ f))),
              (A, C, refl, refl, lows, h, tall),
            )
            | inr (B, x, D, split, lows, tall') ↦
                let joined : (A ++ c ∷ B) ++ x ∷ D ≡ A ++ c ∷ C =
                  append_assoc A (c ∷ B) (x ∷ D) ∙ ap (λ l. A ++ c ∷ l) (sym split) in
                let all = All-behind IsBefore B x D (subst (All IsBefore) split h) in
                let (ahead_x, gap_x) = first_tall V B x D zs C split lows tall' in
                let next = ap (λ (l : SkipListLevel). l.forward) right ∙ ahead_x in
                let (c', r, e', stands) =
                  walk_lem fuel (A ++ c ∷ B) x D
                    (subst (Chain V)
                      (ap (λ l. A ++ c ∷ (l ++ zs)) split
                        ∙ (ap (λ l. A ++ c ∷ l) (append_assoc B (x ∷ D) zs)
                            ∙ sym (append_assoc A (c ∷ B) (x ∷ (D ++ zs)))))
                      chain)
                    tall' all.1 (shorter B x D C fuel split enough) in
                (
                  c',
                  r,
                  walk_step scores fuel s i m k c (pos (length A)) cell x e next all.0
                      ∙ (ap (λ n. walk scores fuel s i m k x n)
                            (ap (λ (l : SkipListLevel). pos (length A) +ℤ l.span) right
                              ∙ (ap (λ n. pos (length A) +ℤ pos n) gap_x ∙ rank_behind A c B))
                          ∙ e'),
                  subst (λ l. Stands V IsBefore l c' r) joined stands,
                )
          ]

    -- What `update` and `rank` have from level `i` on.
    abbrev pub Trail : List ℕ → ℕ → List (ℕ × ℤ) → Type 0
    Trail ys i [] = Unit
    Trail ys i ((u, r) ∷ path) = Stands (view s i) IsBefore ys u r × Trail ys (suc i) path

    module _ (ys zs : List ℕ) (behind : All IsNotBefore zs)
        (chains : (i : ℕ) → i < skip_list_max_level → Chain (view s i) (ys ++ zs))
        (few : length ys ≤ steps s) where
      walk_from :
          (i : ℕ) (A : List ℕ) (c : ℕ) (C : List ℕ)
          → i < skip_list_max_level
          → ys ≡ A ++ c ∷ C
          → All IsBefore C
          → is_tall (view s i) c ≡ true
          → (c' : ℕ) × (r : ℤ) × (walk scores (steps s) s i m k c (pos (length A)) ≡ some (c', r))
            × Stands (view s i) IsBefore ys c' r
      walk_from i A c C h split all tall =
          let chain =
            subst (Chain (view s i)) (ap (λ l. l ++ zs) split ∙ append_assoc A (c ∷ C) zs)
              (chains i h) in
          let enough : length C < steps s =
            omega (arith, length-append A (c ∷ C), subst (λ l. length l ≤ steps s) split few) in
          let (c', r, e, stands) = walk_lem i zs behind (steps s) A c C chain tall all enough in
          (c', r, e, subst (λ l. Stands (view s i) IsBefore l c' r) (sym split) stands)

      Descended : ℕ → ℕ → ℤ → List (ℕ × ℤ) → Type 0
      Descended i c r path =
          (c' : ℕ) × (r' : ℤ) × (path' : List (ℕ × ℤ)) × (descend scores i s m k c r path
            ≡ some (c', r', path'))
          × Stands (view s 0) IsBefore ys c' r'
          × Trail ys 0 path'
          × (length path' ≡ i + length path)

      descend_from :
          (i : ℕ) (c : ℕ) (r : ℤ) (path : List (ℕ × ℤ))
          → i < skip_list_max_level
          → Stands (view s i) IsBefore ys c r
          → Trail ys i path
          → Descended i c r path
      unfolding descend Descended
      descend_from zero c r path h stands p = (c, r, path, refl, stands, p, omega arith)
      descend_from (suc i) c r path h (A, M, split, rank, lows, all, tall) p =
          let tall' = tall_below s (suc i) i c (omega arith) tall in
          let (c', r', e, stands) = walk_from i A c M (omega arith) split all tall' in
          let (c2, r2, path2, e2, stands2, p2, l2) =
            descend_from i c' r' ((c', r') ∷ path) (omega arith) stands (stands, p) in
          (c2, r2, path2, rw (rank, e) e2, stands2, p2, omega arith)

      -- The last node in front of the place, its rank, and the last ones on each level.
      pub search_lem :
          (C : List ℕ)
          → ys ≡ s.head ∷ C
          → All IsBefore C
          → is_tall (view s 15) s.head ≡ true
          → (c : ℕ) × (r : ℤ) × (path : List (ℕ × ℤ)) × (search_path scores s m k
              ≡ some (c, r, path))
            × Stands (view s 0) IsBefore ys c r
            × Trail ys 0 path
            × (length path ≡ skip_list_max_level)
      unfolding search_path descend Descended
      search_lem C split all tall =
          let (c, r, e, stands) = walk_from 15 [] s.head C (omega arith) split all tall in
          let (c', r', path, e', stands', p, l) =
            descend_from 15 c r ((c, r) ∷ []) (omega arith) stands (stands, tt) in
          (c', r', path, rw e e', stands', p, l)
