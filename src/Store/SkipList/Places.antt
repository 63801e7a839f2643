-- ===== src/Store/SkipList/Places.antt =====
-- store/skip_list.go: what the search for an entry's place comes to in a well-formed skip list.
use tiny_red.Base.{
  ℕ, suc, ◌≤◌, ◌≡◌, refl, ap, subst, ◌∙◌, true, some, List, [], ◌∷◌, ◌++◌, arith, Bytes, length,
  length-append, All, ℤ, pos, pos_part,
}
use tiny_red.Store.SkipList.{Scores, SkipList, skip_list_max_level, steps, search_path}
use tiny_red.Store.SkipList.Chain.{View, is_tall, is_tall-low, IsLow, Chain}
use tiny_red.Store.SkipList.Search.{view, IsBefore, IsNotBefore, Trail, search_lem}
use tiny_red.Store.SkipList.Looking.{All-behind}
use tiny_red.Store.SkipList.Represents.{WellFormed}

-- Nodes that are on a level and not on it are none.
pub none_between :
    (V : View) (M : List ℕ) → All (λ x. is_tall V x ≡ true) M → All (IsLow V) M → M ≡ []
none_between V [] _ _ = refl
none_between V (m ∷ M) (tall, _) (low, _) = absurd (let e = is_tall-low V m low in cc)

last_length : (A : List ℕ) (c : ℕ) → length (A ++ c ∷ []) ≡ suc (length A)
last_length A c = omega (arith, length-append A (c ∷ []))

All-front : (P : ℕ → Type 0) (C zs : List ℕ) → All P (C ++ zs) → All P C
All-front P [] zs _ = tt
All-front P (c ∷ C) zs (p, h) = (p, All-front P C zs h)

module _ {F : Type 0} (scores : Scores F) (s : SkipList F) (m : Bytes) (k : F) (xs C zs : List ℕ)
    (well_formed : WellFormed s xs) (split : xs ≡ C ++ zs)
    (in_front : All (IsBefore scores s m k) C) (behind : All (IsNotBefore scores s m k) zs) where
  ground_tall : All (λ x. is_tall (view s 0) x ≡ true) (s.head ∷ C)
  ground_tall = (
    well_formed.head_high 0 (omega arith),
    All-front (λ x. is_tall (view s 0) x ≡ true) C zs
        (subst (All (λ x. is_tall (view s 0) x ≡ true)) split well_formed.on_ground),
  )

  -- The search ends at the node in front of the place, with the number of the nodes in front as the
  -- rank.
  abbrev pub Place : Type 0
  Place =
      (c : ℕ) × (path : List (ℕ × ℤ)) × (A : List ℕ) × (search_path scores s m k
        ≡ some (c, pos (length C), path))
      × (s.head ∷ C ≡ A ++ c ∷ [])
      × (is_tall (view s 0) c ≡ true)
      × Trail scores s m k (s.head ∷ C) 0 path
      × (length path ≡ skip_list_max_level)

  few_nodes : length (s.head ∷ C) ≤ steps s
  unfolding steps
  few_nodes =
      let e : pos_part s.length ≡ length xs = ap pos_part well_formed.counted in
      omega (arith, e, ap length split, length-append C zs)

  pub find_place : Place
  find_place =
      let (c, r, path, e, (A, M, at, rank, lows, _, tall), p, l) =
        search_lem scores s m k (s.head ∷ C) zs behind
          (λ i h. subst (λ l. Chain (view s i) (s.head ∷ l)) split (well_formed.chains i h))
          few_nodes C refl in_front (well_formed.head_high 15 (omega arith)) in
      let P : ℕ → Type 0 = λ x. is_tall (view s 0) x ≡ true in
      let empty =
        none_between (view s 0) M (All-behind P A c M (subst (All P) at ground_tall)).1 lows in
      let at' : s.head ∷ C ≡ A ++ c ∷ [] = at ∙ ap (λ l. A ++ c ∷ l) empty in
      let size : length A ≡ length C = omega (arith, ap length at', last_length A c) in
      (c, path, A, e ∙ ap (λ n. some (c, n, path)) (rank ∙ ap pos size), at', tall, p, l)
