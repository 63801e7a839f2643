-- ===== src/Store/SkipList/Represents.antt =====
-- store/skip_list.go: which list of entries a skip list stands for.
use tiny_red.Base.{
  ℕ, zero, suc, ◌≤◌, ◌<◌, ◌≡◌, refl, sym, ap, true, false, none, some, some-injective, get_elem?,
  List, [], ◌∷◌, ◌++◌, map, arith, Bytes, length, All, pos, Bool-cases, inl, inr,
}
use tiny_red.Store.SkipList.{
  Scores, SkipListLevel, SkipList, skip_list_max_level, empty_levels, new_skip_list, level_of,
  before,
}
use tiny_red.Store.SkipList.Chain.{is_tall, is_tall-cell, Chain, ahead, gap}
use tiny_red.Store.SkipList.Search.{view, IsBefore, IsNotBefore}
use tiny_red.Store.SkipList.Links.{Distinct}
use tiny_red.Store.SkipList.Order.{
  Scored, less_entry, Sorted, insert_entry, IsOrdered, IsNumber, less-not_trans,
}

pub empty_high :
    (n i : ℕ) → i < n → (cell : SkipListLevel) × (get_elem? (empty_levels n) i ≡ some cell)
unfolding empty_levels
empty_high zero i h = absurd (omega arith)
empty_high (suc n) zero h = (_, refl)
empty_high (suc n) (suc i) h = empty_high n i (omega arith)

empty_right :
    (n i : ℕ) (cell : SkipListLevel)
    → get_elem? (empty_levels n) i ≡ some cell
    → cell ≡ record { forward = none; span = pos 0 }
unfolding empty_levels
empty_right zero i cell e = cc
empty_right (suc n) zero cell e = sym (some-injective _ _ e)
empty_right (suc n) (suc i) cell e = empty_right n i cell e

pub empty_low : (n i : ℕ) → n ≤ i → get_elem? (empty_levels n) i ≡ none
unfolding empty_levels
empty_low zero i h = refl
empty_low (suc n) zero h = absurd (omega arith)
empty_low (suc n) (suc i) h = empty_low n i (omega arith)

module _ {F : Type 0} where
  -- `xs` are the nodes of the list in its order, without the head.
  pub record WellFormed (s : SkipList F) (xs : List ℕ) : Type 0 where
    pub chains : (i : ℕ) → i < skip_list_max_level → Chain (view s i) (s.head ∷ xs)
    pub distinct : Distinct (s.head ∷ xs)
    pub made : All (λ x. x < s.next_node) (s.head ∷ xs)
    pub head_high : (i : ℕ) → i < skip_list_max_level → is_tall (view s i) s.head ≡ true
    pub on_ground : All (λ x. is_tall (view s 0) x ≡ true) xs
    pub counted : s.length ≡ pos (length xs)

  abbrev pub entry_of : SkipList F → ℕ → Scored F
  entry_of s x = ((s.nodes x).member, (s.nodes x).score)

  -- The skip list stands for the entries in their order.
  unfoldable pub Represents : SkipList F → List (Scored F) → Type 0
  Represents s es = (xs : List ℕ) × WellFormed s xs × (map (entry_of s) xs ≡ es)

  pub new_skip_list-Represents : (scores : Scores F) → Represents (new_skip_list scores) []
  unfolding Represents new_skip_list level_of ahead gap
  new_skip_list-Represents scores = (
    [],
    record {
      chains = λ i h. (λ cell e. empty_right 16 i cell e, tt);
      distinct = (tt, tt);
      made = (omega arith, tt);
      head_high = λ i h.
          let (cell, e) = empty_high 16 i h in
          is_tall-cell (view (new_skip_list scores) i) 0 cell e;
      on_ground = tt;
      counted = refl;
    },
    refl,
  )

module _ {F : Type 0} (scores : Scores F) (laws : IsOrdered scores) (s : SkipList F) where
  -- The nodes in front of an entry's place, and those behind it.
  IsNotBefore-behind :
      (m : Bytes) (k : F) (x : ℕ) (xs : List ℕ)
      → laws.Number k
      → IsNumber scores laws (entry_of s x)
      → All (IsNumber scores laws) (map (entry_of s) xs)
      → All (λ d. less_entry scores d (entry_of s x) ≡ false) (map (entry_of s) xs)
      → IsNotBefore scores s m k x
      → All (IsNotBefore scores s m k) xs
  unfolding before
  IsNotBefore-behind m k x [] p q _ _ h = tt
  IsNotBefore-behind m k x (y ∷ ys) p q (r, rs) (l, ls) h = (
    less-not_trans scores laws (entry_of s y) (entry_of s x) (m, k) r q p l h,
    IsNotBefore-behind m k x ys p q rs ls h,
  )

  pub split_nodes :
      (m : Bytes) (k : F) (xs : List ℕ)
      → laws.Number k
      → All (IsNumber scores laws) (map (entry_of s) xs)
      → Sorted scores (map (entry_of s) xs)
      → (C : List ℕ) × (zs : List ℕ) × (xs ≡ C ++ zs)
        × All (IsBefore scores s m k) C
        × All (IsNotBefore scores s m k) zs
  split_nodes m k [] p _ _ = ([], [], refl, tt, tt)
  split_nodes m k (x ∷ xs) p (q, qs) (h, hs) = elim (Bool-cases (before scores s x m k)) [
    | inl on ↦
        let (C, zs, e, b, n) = split_nodes m k xs p qs hs in
        (x ∷ C, zs, ap (λ l. x ∷ l) e, (on, b), n)
    | inr off ↦ ([], x ∷ xs, refl, tt, (off, IsNotBefore-behind m k x xs p q qs h off))
  ]

  -- The entries with a new one in that place.
  pub insert_entry-place :
      (m : Bytes) (k : F) (C zs : List ℕ)
      → All (IsBefore scores s m k) C
      → All (IsNotBefore scores s m k) zs
      → insert_entry scores (m, k) (map (entry_of s) (C ++ zs))
        ≡ map (entry_of s) C ++ (m, k) ∷ map (entry_of s) zs
  unfolding insert_entry before
  insert_entry-place m k [] [] b n = refl
  insert_entry-place m k [] (z ∷ zs) b (n, ns) = rw n refl
  insert_entry-place m k (c ∷ C) zs (b, bs) n = rw (b, insert_entry-place m k C zs bs n) refl
