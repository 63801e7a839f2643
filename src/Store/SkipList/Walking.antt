-- ===== src/Store/SkipList/Walking.antt =====
-- store/skip_list.go: where the inner loop of `GetByRank` stops.
use tiny_red.Base.{
  ℕ, zero, suc, ◌+◌, ◌≤◌, ◌<◌, ◌≡◌, refl, sym, ap, subst, ◌∙◌, true, false, some, List, [], ◌∷◌,
  ◌++◌, arith, append_assoc, length, length-append, All, ℤ, pos, ◌+ℤ◌, leb_ℤ, Option-cases, inl,
  inr,
}
use tiny_red.Store.SkipList.{SkipListLevel, SkipList, level_of}
use tiny_red.Store.SkipList.Queries.{walk_rank}
use tiny_red.Store.SkipList.Chain.{
  View, is_tall, Chain, Chain-behind, ahead, gap, ahead-low, gap-low,
}
use tiny_red.Store.SkipList.Looking.{
  FirstTall, Stands, tall_cell, find_tall, first_tall, shorter, rank_behind,
}
use tiny_red.Store.SkipList.Search.{view}

abbrev pub IsAny : ℕ → Type 0
IsAny x = Unit

All-IsAny : (xs : List ℕ) → All IsAny xs
All-IsAny [] = tt
All-IsAny (x ∷ xs) = (tt, All-IsAny xs)

gap_positive : (V : View) (zs : List ℕ) (z : ℕ) → ahead V zs ≡ some z → 1 ≤ gap V zs
unfolding ahead gap
gap_positive V [] z e = cc
gap_positive V (x ∷ zs) z e = ground arith

module _ {F : Type 0} (s : SkipList F) (i : ℕ) (R : ℕ) where
  rank_stop :
      (fuel c : ℕ) (r : ℤ) (cell : SkipListLevel)
      → level_of s i c ≡ some cell
      → ((z : ℕ) → cell.forward ≡ some z → leb_ℤ (r +ℤ cell.span) (pos R) ≡ false)
      → walk_rank (suc fuel) s i (pos R) c r ≡ some (c, r)
  unfolding walk_rank
  rank_stop fuel c r cell e h = elim (Option-cases cell.forward) [
    | inl end ↦ rw (e, end) refl
    | inr (z, next) ↦ rw (e, next, h z next) refl
  ]

  rank_step :
      (fuel c : ℕ) (r : ℤ) (cell : SkipListLevel) (z : ℕ)
      → level_of s i c ≡ some cell
      → cell.forward ≡ some z
      → leb_ℤ (r +ℤ cell.span) (pos R) ≡ true
      → walk_rank (suc fuel) s i (pos R) c r ≡ walk_rank fuel s i (pos R) z (r +ℤ cell.span)
  unfolding walk_rank
  rank_step fuel c r cell z e next h = rw (e, next, h) refl

  too_far :
      (a c g : ℕ) (cell : SkipListLevel)
      → R ≡ a + c
      → 1 ≤ g
      → cell.span ≡ pos (c + g)
      → leb_ℤ (pos a +ℤ cell.span) (pos R) ≡ false
  too_far a c g cell h k e = rw e (ground arith)

  in_reach :
      (a b d : ℕ) (cell : SkipListLevel)
      → R ≡ a + (b + suc d)
      → cell.span ≡ pos (b + 1)
      → leb_ℤ (pos a +ℤ cell.span) (pos R) ≡ true
  in_reach a b d cell h e = rw e (ground arith)

  module _ (zs : List ℕ) where
    pub walk_rank_lem :
        (fuel : ℕ) (A : List ℕ) (c : ℕ) (C : List ℕ)
        → Chain (view s i) (A ++ c ∷ (C ++ zs))
        → is_tall (view s i) c ≡ true
        → R ≡ length A + length C
        → length C < fuel
        → (c' : ℕ) × (r : ℤ) × (walk_rank fuel s i (pos R) c (pos (length A)) ≡ some (c', r))
          × Stands (view s i) IsAny (A ++ c ∷ C) c' r
    unfolding FirstTall
    walk_rank_lem zero A c C chain tall h enough = absurd (omega arith)
    walk_rank_lem (suc fuel) A c C chain tall h enough =
        let V = view s i in
        let (cell, e) = tall_cell V c tall in
        let right = (Chain-behind V A (c ∷ (C ++ zs)) chain).0 cell e in
        elim (find_tall V C) [
          | inl lows ↦ (
            c,
            pos (length A),
            rank_stop fuel c (pos (length A)) cell e (λ z f.
                too_far (length A) (length C) (gap V zs) cell h
                  (gap_positive V zs z (
                    sym (ahead-low V C zs lows)
                    ∙ (sym (ap (λ (l : SkipListLevel). l.forward) right) ∙ f)))
                  (ap (λ (l : SkipListLevel). l.span) right ∙ ap pos (gap-low V C zs lows))),
            (A, C, refl, refl, lows, All-IsAny C, tall),
          )
          | inr (B, x, D, split, lows, tall') ↦
              let joined : (A ++ c ∷ B) ++ x ∷ D ≡ A ++ c ∷ C =
                append_assoc A (c ∷ B) (x ∷ D) ∙ ap (λ l. A ++ c ∷ l) (sym split) in
              let (ahead_x, gap_x) = first_tall V B x D zs C split lows tall' in
              let next = ap (λ (l : SkipListLevel). l.forward) right ∙ ahead_x in
              let far : cell.span ≡ pos (length B + 1) =
                ap (λ (l : SkipListLevel). l.span) right ∙ ap pos gap_x in
              let size : length C ≡ length B + suc (length D) =
                ap length split ∙ length-append B (x ∷ D) in
              let (c', r, e', stands) =
                walk_rank_lem fuel (A ++ c ∷ B) x D
                  (subst (Chain V)
                    (ap (λ l. A ++ c ∷ (l ++ zs)) split
                      ∙ (ap (λ l. A ++ c ∷ l) (append_assoc B (x ∷ D) zs)
                          ∙ sym (append_assoc A (c ∷ B) (x ∷ (D ++ zs)))))
                    chain)
                  tall' (omega (arith, h, size, length-append A (c ∷ B)))
                  (shorter B x D C fuel split enough) in
              (
                c',
                r,
                rank_step fuel c (pos (length A)) cell x e next
                      (in_reach (length A) (length B) (length D) cell (omega (arith, h, size)) far)
                    ∙ (ap (λ n. walk_rank fuel s i (pos R) x n)
                          (ap (λ n. pos (length A) +ℤ n) far ∙ rank_behind A c B)
                        ∙ e'),
                subst (λ l. Stands V IsAny l c' r) joined stands,
              )
        ]
