-- ===== src/Store/SkipList/Ranges.antt =====
-- store/skip_list.go: `Range` takes the entries between two ranks.
use tiny_red.Base.{
  ℕ, zero, suc, ◌-◌, ◌≤◌, ◌<◌, min, ◌≡◌, refl, sym, ap, subst, ◌∙◌, true, false, none, some, List,
  [], ◌∷◌, ◌++◌, map, arith, length, length-drop, length-take, All, ℤ, pos, negsuc, pos_part, ◌+ℤ◌,
  ◌-ℤ◌, ltb_ℤ, ltb, Bool-cases, inl, inr, take, drop, take_beyond, drop-append,
}
use tiny_red.Strconv.{◌>>=◌}
use tiny_red.Store.SkipList.{SkipList}
use tiny_red.Store.SkipList.Queries.{at_least_one, at_most, get_by_rank, collect, range}
use tiny_red.Store.SkipList.Chain.{is_tall, Chain, Chain-behind, ahead}
use tiny_red.Store.SkipList.Looking.{tall_cell}
use tiny_red.Store.SkipList.Search.{view}
use tiny_red.Store.SkipList.Links.{All-split}
use tiny_red.Store.SkipList.Represents.{WellFormed, entry_of, Represents}
use tiny_red.Store.SkipList.Ranking.{no_more, get_by_rank_lem}
use tiny_red.Store.SkipList.Order.{Scored}

module _ {ℓ} {A : Type ℓ} where
  split_at :
      (n : ℕ) (xs : List A)
      → n < length xs
      → (P : List A) × (x : A) × (Q : List A) × (xs ≡ P ++ x ∷ Q) × (length P ≡ n)
  split_at n [] h = absurd (omega arith)
  split_at zero (x ∷ xs) h = ([], x, xs, refl, refl)
  split_at (suc n) (x ∷ xs) h =
      let (P, y, Q, e, size) = split_at n xs (omega arith) in
      (x ∷ P, y, Q, ap (λ l. x ∷ l) e, ap suc size)

  -- A number of elements taken stops at the end.
  take_some : (n : ℕ) (xs : List A) → take (min n (length xs)) xs ≡ take n xs
  take_some n xs = elim (Bool-cases (ltb n (length xs))) [
    | inl few ↦ let at : min n (length xs) ≡ n = ground arith in ap (λ k. take k xs) at
    | inr many ↦
        let all : length xs ≤ n = ground arith in
        take_beyond (min n (length xs)) n xs (omega (arith, all)) all
  ]

module _ {ℓ κ} {A : Type ℓ} {B : Type κ} (f : A → B) where
  take-map : (n : ℕ) (xs : List A) → map f (take n xs) ≡ take n (map f xs)
  take-map zero xs = refl
  take-map (suc n) [] = refl
  take-map (suc n) (x ∷ xs) = ap (λ l. f x ∷ l) (take-map n xs)

  drop-map : (n : ℕ) (xs : List A) → map f (drop n xs) ≡ drop n (map f xs)
  drop-map zero xs = refl
  drop-map (suc n) [] = refl
  drop-map (suc n) (x ∷ xs) = drop-map n xs

module _ {F : Type 0} (s : SkipList F) where
  -- The nodes that follow on the lowest level are all the nodes that follow.
  ahead-ground :
      (x : ℕ) (xs : List ℕ) → is_tall (view s 0) x ≡ true → ahead (view s 0) (x ∷ xs) ≡ some x
  unfolding ahead
  ahead-ground x xs h = rw h refl

  collect_end : (n : ℕ) → collect n s none ≡ some []
  unfolding collect
  collect_end zero = refl
  collect_end (suc n) = refl

  collect_lem :
      (n : ℕ) (xs : List ℕ)
      → Chain (view s 0) xs
      → All (λ x. is_tall (view s 0) x ≡ true) xs
      → collect n s (ahead (view s 0) xs) ≡ some (take n xs)
  unfolding collect
  collect_lem zero xs _ _ = refl
  collect_lem (suc n) [] _ _ = unfold ahead in refl
  collect_lem (suc n) (x ∷ xs) (right, chain) (tall, talls) =
      let (cell, e) = tall_cell (view s 0) x tall in
      rw (ahead-ground x xs tall, e, right cell e, collect_lem n xs chain talls) refl

-- The first and the last rank, and how many there are.
first_rank : (a : ℕ) → at_least_one (pos (suc a)) ≡ pos (suc a)
unfolding at_least_one
first_rank a = ground arith

last_rank : (n b : ℕ) → at_most (pos n) (pos b) ≡ pos (min b n)
unfolding at_most
last_rank n b = ground arith

none_between : (m a : ℕ) → m ≤ a → ltb_ℤ (pos m) (pos (suc a)) ≡ true
none_between m a h = ground arith

some_between : (m a : ℕ) → a < m → ltb_ℤ (pos m) (pos (suc a)) ≡ false
some_between m a h = ground arith

how_many : (m a : ℕ) → a < m → pos_part (pos m -ℤ pos (suc a) +ℤ pos 1) ≡ m - a
how_many m a h = ground arith

module _ {F : Type 0} (s : SkipList F) (xs : List ℕ) (well_formed : WellFormed s xs) (a b : ℕ) where
  last_rank_here : at_most s.length (pos b) ≡ pos (min b (length xs))
  last_rank_here = rw well_formed.counted (last_rank (length xs) b)

  range_none : min b (length xs) ≤ a → range (pos (suc a)) (pos b) s ≡ some []
  unfolding range
  range_none h = rw (last_rank_here, first_rank a, none_between (min b (length xs)) a h) refl

  range_some :
      a < min b (length xs)
      → range (pos (suc a)) (pos b) s
        ≡ (do node ← get_by_rank (pos (suc a)) s; collect (min b (length xs) - a) s node)
  unfolding range
  range_some h =
      rw
        (
          last_rank_here,
          first_rank a,
          some_between (min b (length xs)) a h,
          how_many (min b (length xs)) a h,
        )
        refl

  nothing_left : min b (length xs) ≤ a → take (b - a) (drop a xs) ≡ []
  nothing_left h =
      no_more (take (b - a) (drop a xs))
        (omega (arith, h, length-take (b - a) (drop a xs), length-drop a xs))

  range_found :
      (P : List ℕ) (x : ℕ) (Q : List ℕ)
      → xs ≡ P ++ x ∷ Q
      → length P ≡ a
      → (n : ℕ) → (do node ← get_by_rank (pos (suc a)) s; collect n s node) ≡ some (take n (x ∷ Q))
  range_found P x Q split size n =
      let V = view s 0 in
      let tall = λ (x : ℕ). is_tall V x ≡ true in
      let found : get_by_rank (pos (suc a)) s ≡ some (some x) =
        ap (λ r. get_by_rank (pos r) s) (omega (arith, size))
        ∙ get_by_rank_lem s P x Q (subst (WellFormed s) split well_formed) in
      let talls = (All-split tall P (x ∷ Q) (subst (All tall) split well_formed.on_ground)).1 in
      let chain =
        Chain-behind V P (x ∷ Q) (subst (Chain V) split (well_formed.chains 0 (omega arith)).1) in
      rw (found, sym (ahead-ground s x Q talls.0)) (collect_lem s n (x ∷ Q) chain talls)

  range_lem : range (pos (suc a)) (pos b) s ≡ some (take (b - a) (drop a xs))
  range_lem = elim (Bool-cases (ltb a (min b (length xs)))) [
    | inl on ↦
        let h : a < min b (length xs) = ground arith in
        let (P, x, Q, split, size) = split_at a xs (omega (arith, h)) in
        let rest : drop a xs ≡ x ∷ Q =
          ap (λ l. drop a l) split
          ∙ (ap (λ n. drop n (P ++ x ∷ Q)) (sym size) ∙ drop-append P (x ∷ Q)) in
        let count : min b (length xs) - a ≡ min (b - a) (length (x ∷ Q)) =
          omega (arith, sym (ap length rest), length-drop a xs) in
        range_some h
        ∙ (range_found P x Q split size (min b (length xs) - a)
            ∙ ap some (
                ap (λ n. take n (x ∷ Q)) count
                ∙ (take_some (b - a) (x ∷ Q) ∙ ap (take (b - a)) (sym rest))))
    | inr off ↦
        let h : min b (length xs) ≤ a = ground arith in
        range_none h ∙ ap some (sym (nothing_left h))
  ]

-- A first rank below 1 is taken as 1, and no rank is below 1 at the end.
any_first : (start : ℤ) → at_least_one start ≡ pos (suc (pos_part start - 1))
unfolding at_least_one
any_first (pos zero) = refl
any_first (pos (suc n)) = ground arith
any_first (negsuc n) = ground arith

no_last : (n k a : ℕ) → ltb_ℤ (at_most (pos n) (negsuc k)) (pos (suc a)) ≡ true
unfolding at_most
no_last n k a = ground arith

range-any :
    {F : Type 0} (s : SkipList F) (xs : List ℕ) (start end : ℤ)
    → WellFormed s xs
    → range start end s ≡ range (pos (suc (pos_part start - 1))) (pos (pos_part end)) s
unfolding range
range-any s xs start (pos n) h = rw (any_first start, first_rank (pos_part start - 1)) refl
range-any s xs start (negsuc k) h =
    let below : range start (negsuc k) s ≡ some [] =
      rw (any_first start, h.counted, no_last (length xs) k (pos_part start - 1)) refl in
    below ∙ sym (range_none s xs h (pos_part start - 1) 0 (omega arith))

-- On a skip list whose pointers and spans are right and stand for a list of entries, Range of any two
-- ranks ends without a panic in the nodes of the list's entries from the first rank to the second,
-- counted from 1, in their order: a first rank below 1 counts as 1, one behind the last rank or the
-- length gives none, and a last rank beyond the length counts as the length.
pub range-Represents :
    {F : Type 0} (s : SkipList F) (es : List (Scored F)) (start end : ℤ)
    → Represents s es
    → (ids : List ℕ) × (range start end s ≡ some ids)
      × (map (entry_of s) ids
          ≡ take (pos_part end - (pos_part start - 1)) (drop (pos_part start - 1) es))
unfolding Represents
range-Represents s es start end (xs, well_formed, same) =
    let a = pos_part start - 1 in
    let n = pos_part end - a in
    (
      take n (drop a xs),
      range-any s xs start end well_formed ∙ range_lem s xs well_formed a (pos_part end),
      take-map (entry_of s) n (drop a xs)
          ∙ ap (take n) (drop-map (entry_of s) a xs ∙ ap (λ l. drop a l) same),
    )
