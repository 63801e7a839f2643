-- ===== src/Store/SkipList/Ranking.antt =====
-- store/skip_list.go: `GetByRank` finds the node of a rank.
use tiny_red.Base.{
  ℕ, zero, suc, ◌+◌, ◌≤◌, ◌<◌, ◌≡◌, refl, sym, ap, subst, ◌∙◌, true, false, Option, some, List, [],
  ◌∷◌, ◌++◌, arith, append_assoc, length, length-append, All, ℤ, pos, pos_part, leb_ℤ, ltb_ℤ,
  Bool-cases, inl, inr,
}
use tiny_red.Store.SkipList.{SkipList, skip_list_max_level, steps}
use tiny_red.Store.SkipList.Queries.{eq_ℤ, walk_rank, descend_rank, get_by_rank}
use tiny_red.Store.SkipList.Chain.{View, is_tall, Chain}
use tiny_red.Store.SkipList.Looking.{Stands, All-behind}
use tiny_red.Store.SkipList.Search.{view, tall_below}
use tiny_red.Store.SkipList.Links.{All-split}
use tiny_red.Store.SkipList.Represents.{WellFormed}
use tiny_red.Store.SkipList.Places.{none_between}
use tiny_red.Store.SkipList.Walking.{IsAny, walk_rank_lem}

-- The comparison that ends the outer loop.
eq_ℤ-refl : (a : ℕ) → eq_ℤ (pos a) (pos a) ≡ true
eq_ℤ-refl a = ground arith

eq_ℤ-pos : (a b : ℕ) → eq_ℤ (pos a) (pos b) ≡ true → a ≡ b
eq_ℤ-pos a b h = ground arith

pub no_more {ℓ} : {A : Type ℓ} (M : List A) → length M ≡ 0 → M ≡ []
no_more [] h = refl
no_more (m ∷ M) h = absurd (omega arith)

module _ {F : Type 0} (s : SkipList F) (ys zs : List ℕ) (R : ℕ) (size : length ys ≡ suc R)
    (chains : (i : ℕ) → i < skip_list_max_level → Chain (view s i) (ys ++ zs))
    (on_ground : All (λ x. is_tall (view s 0) x ≡ true) ys) (few : length ys ≤ steps s) where
  -- The node at the end of `ys`.
  abbrev Last : Option (Option ℕ) → Type 0
  Last o = (c : ℕ) × (A : List ℕ) × (o ≡ some (some c)) × (ys ≡ A ++ c ∷ [])

  walk_on :
      (i : ℕ) (A : List ℕ) (c : ℕ) (C : List ℕ)
      → i < skip_list_max_level
      → ys ≡ A ++ c ∷ C
      → is_tall (view s i) c ≡ true
      → (c' : ℕ) × (r : ℤ) × (walk_rank (steps s) s i (pos R) c (pos (length A)) ≡ some (c', r))
        × Stands (view s i) IsAny ys c' r
  walk_on i A c C h split tall =
      let whole : length ys ≡ length A + suc (length C) =
        ap length split ∙ length-append A (c ∷ C) in
      let chain =
        subst (Chain (view s i)) (ap (λ l. l ++ zs) split ∙ append_assoc A (c ∷ C) zs)
          (chains i h) in
      let (c', r, e, stands) =
        walk_rank_lem s i R zs (steps s) A c C chain tall (omega (arith, whole, size))
          (omega (arith, whole, few)) in
      (c', r, e, subst (λ l. Stands (view s i) IsAny l c' r) (sym split) stands)

  rank_step_found :
      (i c c' : ℕ) (r r' : ℤ)
      → walk_rank (steps s) s i (pos R) c r ≡ some (c', r')
      → (eq_ℤ r' (pos R) ≡ true → descend_rank (suc i) s (pos R) c r ≡ some (some c'))
        × (eq_ℤ r' (pos R) ≡ false
            → descend_rank (suc i) s (pos R) c r ≡ descend_rank i s (pos R) c' r')
  unfolding descend_rank
  rank_step_found i c c' r r' e = (λ h. rw (e, h) refl, λ h. rw (e, h) refl)

  -- A node that stands at the rank is the last, and so is every one on the lowest level.
  at_rank :
      (V : View) (c : ℕ) (r : ℤ)
      → Stands V IsAny ys c r
      → eq_ℤ r (pos R) ≡ true
      → (A : List ℕ) × (ys ≡ A ++ c ∷ [])
  at_rank V c r (B, M, split, rank, _, _, _) on =
      let at : length B ≡ R = eq_ℤ-pos (length B) R (subst (λ n. eq_ℤ n (pos R) ≡ true) rank on) in
      let empty = no_more M (omega (arith, size, at, ap length split, length-append B (c ∷ M))) in
      (B, split ∙ ap (λ l. B ++ c ∷ l) empty)

  at_ground : (c : ℕ) (r : ℤ) → Stands (view s 0) IsAny ys c r → eq_ℤ r (pos R) ≡ true
  at_ground c r (B, M, split, rank, lows, _, _) =
      let tall = λ (x : ℕ). is_tall (view s 0) x ≡ true in
      let empty =
        none_between (view s 0) M (All-behind tall B c M (subst (All tall) split on_ground)).1
          lows in
      let at : length B ≡ R =
        omega (arith, size, ap length split, ap length empty, length-append B (c ∷ M)) in
      rw (rank, at) (eq_ℤ-refl R)

  descend_rank_lem :
      (i : ℕ) (A : List ℕ) (c : ℕ) (C : List ℕ)
      → i < skip_list_max_level
      → ys ≡ A ++ c ∷ C
      → is_tall (view s i) c ≡ true
      → Last (descend_rank (suc i) s (pos R) c (pos (length A)))
  descend_rank_lem zero A c C h split tall =
      let (c', r, e, stands) = walk_on 0 A c C h split tall in
      let on = at_ground c' r stands in
      let (B, split') = at_rank (view s 0) c' r stands on in
      (c', B, (rank_step_found 0 c c' (pos (length A)) r e).0 on, split')
  descend_rank_lem (suc i) A c C h split tall =
      let (c', r, e, stands) = walk_on (suc i) A c C h split tall in
      let (stop, go) = rank_step_found (suc i) c c' (pos (length A)) r e in
      elim (Bool-cases (eq_ℤ r (pos R))) [
        | inl on ↦
            let (B, split') = at_rank (view s (suc i)) c' r stands on in (c', B, stop on, split')
        | inr off ↦
            let (B, M, split', rank, lows, _, tall') = stands in
            let (c2, B2, e2, split2) =
              descend_rank_lem i B c' M (omega arith) split'
                (tall_below s (suc i) i c' (omega arith) tall') in
            (c2, B2, go off ∙ (ap (λ n. descend_rank (suc i) s (pos R) c' n) rank ∙ e2), split2)
      ]

last_or : ℕ → List ℕ → ℕ
last_or d [] = d
last_or d (x ∷ xs) = last_or x xs

last_or-append : (d : ℕ) (A : List ℕ) (c : ℕ) → last_or d (A ++ c ∷ []) ≡ c
unfolding last_or
last_or-append d [] c = refl
last_or-append d (a ∷ A) c = last_or-append a A c

-- The node of a rank between 1 and the length is the one at that place of the list.
pub get_by_rank_lem :
    {F : Type 0} (s : SkipList F) (P : List ℕ) (x : ℕ) (Q : List ℕ)
    → WellFormed s (P ++ x ∷ Q)
    → get_by_rank (pos (length P + 1)) s ≡ some (some x)
unfolding get_by_rank
get_by_rank_lem s P x Q well_formed =
    let R = length P + 1 in
    let ys = s.head ∷ (P ++ x ∷ []) in
    let size : length ys ≡ suc R = omega (arith, length-append P (x ∷ [])) in
    let whole : length (P ++ x ∷ Q) ≡ length P + suc (length Q) = length-append P (x ∷ Q) in
    let count : pos_part s.length ≡ length (P ++ x ∷ Q) = ap pos_part well_formed.counted in
    let low : leb_ℤ (pos R) (pos 0) ≡ false = ground arith in
    let high : ltb_ℤ s.length (pos R) ≡ false = rw well_formed.counted (ground (arith, whole)) in
    let joined : P ++ x ∷ Q ≡ (P ++ x ∷ []) ++ Q = sym (append_assoc P (x ∷ []) Q) in
    let tall = λ (x : ℕ). is_tall (view s 0) x ≡ true in
    let (c, A, e, at) =
      descend_rank_lem s ys Q R size
        (λ i h. subst (λ l. Chain (view s i) (s.head ∷ l)) joined (well_formed.chains i h))
        (
          well_formed.head_high 0 (omega arith),
          (All-split tall (P ++ x ∷ []) Q (subst (All tall) joined well_formed.on_ground)).0,
        )
        (unfold steps in omega (arith, size, whole, count)) 15 [] s.head (P ++ x ∷ []) (omega arith)
        refl (well_formed.head_high 15 (omega arith)) in
    let same : c ≡ x =
      sym (last_or-append 0 A c) ∙ (sym (ap (last_or 0) at) ∙ last_or-append 0 (s.head ∷ P) x) in
    rw (low, high) (e ∙ ap (λ c. some (some c)) same)
