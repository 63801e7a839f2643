-- ===== src/Store/SkipList/Links.antt =====
-- store/skip_list.go: the loop of `Insert` that sets the cells makes every level right for the list
-- with the new node.
use tiny_red.Base.{
  ℕ, zero, suc, ◌≡◌, ◌≢◌, refl, sym, ap, ◌∙◌, inl, inr, Bool, true, false, some, List, [], ◌∷◌,
  ◌++◌, arith, All, get_elem?, Bool-cases, if◌then◌else◌, ◌==◌, ==_refl,
}
use tiny_red.Store.SkipList.{SkipListLevel, SkipListNode, SkipList, level_of, set_level, set_elem}
use tiny_red.Store.SkipList.Chain.{View, is_cell, is_tall, Same}
use tiny_red.Store.SkipList.Search.{view}
use tiny_red.Store.SkipList.Looking.{All-behind}

get_elem?-set_elem :
    (xs : List SkipListLevel) (i j : ℕ) (x : SkipListLevel)
    → (j ≢ i → get_elem? (set_elem i x xs) j ≡ get_elem? xs j)
      × ((c : SkipListLevel) → get_elem? xs i ≡ some c → get_elem? (set_elem i x xs) i ≡ some x)
unfolding set_elem
get_elem?-set_elem [] i j x = (λ h. refl, λ c e. cc)
get_elem?-set_elem (y ∷ ys) zero zero x = (λ h. absurd (h refl), λ c e. refl)
get_elem?-set_elem (y ∷ ys) zero (suc j) x = (λ h. refl, λ c e. refl)
get_elem?-set_elem (y ∷ ys) (suc i) zero x = (λ h. refl, λ c e. (get_elem?-set_elem ys i 0 x).1 c e)
get_elem?-set_elem (y ∷ ys) (suc i) (suc j) x = (
  λ h. (get_elem?-set_elem ys i j x).0 (λ e. h (ap suc e)),
  λ c e. (get_elem?-set_elem ys i j x).1 c e,
)

module _ {F : Type 0} (s : SkipList F) (i : ℕ) (cell : SkipListLevel) (id : ℕ) where
  -- Only the node's cell on the level changes.
  pub view-other_node : (j x : ℕ) → x ≢ id → view (set_level i cell id s) j x ≡ view s j x
  unfolding level_of set_level
  view-other_node j x h = ground arith

  pub view-other_level : (j x : ℕ) → j ≢ i → view (set_level i cell id s) j x ≡ view s j x
  unfolding level_of set_level
  view-other_level j x h = elim (Bool-cases (x == id)) [
    | inl on ↦ rw on ((get_elem?-set_elem (s.nodes x).level i j cell).0 h)
    | inr off ↦ rw off refl
  ]

  pub view-set :
      (c : SkipListLevel) → view s i id ≡ some c → view (set_level i cell id s) i id ≡ some cell
  unfolding level_of set_level
  view-set c e = rw (==_refl id) ((get_elem?-set_elem (s.nodes id).level i 0 cell).1 c e)

is_cell-set_elem :
    (xs : List SkipListLevel) (i j : ℕ) (x : SkipListLevel)
    → is_cell (get_elem? (set_elem i x xs) j) ≡ is_cell (get_elem? xs j)
unfolding set_elem is_cell
is_cell-set_elem [] i j x = refl
is_cell-set_elem (y ∷ ys) zero zero x = refl
is_cell-set_elem (y ∷ ys) zero (suc j) x = refl
is_cell-set_elem (y ∷ ys) (suc i) zero x = refl
is_cell-set_elem (y ∷ ys) (suc i) (suc j) x = is_cell-set_elem ys i j x

module _ {F : Type 0} where
  -- What changes of cells keep: heights, scores and members, and the list's own fields.
  pub record Kept (s t : SkipList F) : Type 0 where
    pub heights : (j x : ℕ) → is_tall (view t j) x ≡ is_tall (view s j) x
    pub scores_kept : (x : ℕ) → (t.nodes x).score ≡ (s.nodes x).score
    pub members_kept : (x : ℕ) → (t.nodes x).member ≡ (s.nodes x).member
    pub head_kept : t.head ≡ s.head
    pub next_kept : t.next_node ≡ s.next_node
    pub length_kept : t.length ≡ s.length

  pub Kept-refl : (s : SkipList F) → Kept s s
  Kept-refl s = record {
    heights = λ j x. refl;
    scores_kept = λ x. refl;
    members_kept = λ x. refl;
    head_kept = refl;
    next_kept = refl;
    length_kept = refl;
  }

  pub Kept-trans : (s t u : SkipList F) → Kept s t → Kept t u → Kept s u
  Kept-trans s t u h k = record {
    heights = λ j x. k.heights j x ∙ h.heights j x;
    scores_kept = λ x. k.scores_kept x ∙ h.scores_kept x;
    members_kept = λ x. k.members_kept x ∙ h.members_kept x;
    head_kept = k.head_kept ∙ h.head_kept;
    next_kept = k.next_kept ∙ h.next_kept;
    length_kept = k.length_kept ∙ h.length_kept;
  }

  tall_if :
      (b : Bool) (node : SkipListNode F) (i j : ℕ) (cell : SkipListLevel)
      → is_cell (
          get_elem?
            (if b then record node { level = set_elem i cell node.level } else node).level
            j)
        ≡ is_cell (get_elem? node.level j)
  tall_if true node i j cell = is_cell-set_elem node.level i j cell
  tall_if false node i j cell = refl

  key_if :
      (b : Bool) (node : SkipListNode F) (levels : List SkipListLevel)
      → ((if b then record node { level = levels } else node).score ≡ node.score)
        × ((if b then record node { level = levels } else node).member ≡ node.member)
  key_if true node levels = (refl, refl)
  key_if false node levels = (refl, refl)

  pub Kept-set_level :
      (s : SkipList F) (i : ℕ) (cell : SkipListLevel) (id : ℕ) → Kept s (set_level i cell id s)
  unfolding set_level is_tall level_of
  Kept-set_level s i cell id = record {
    heights = λ j x. tall_if (x == id) (s.nodes x) i j cell;
    scores_kept = λ x. (key_if (x == id) (s.nodes x) (set_elem i cell (s.nodes x).level)).0;
    members_kept = λ x. (key_if (x == id) (s.nodes x) (set_elem i cell (s.nodes x).level)).1;
    head_kept = refl;
    next_kept = refl;
    length_kept = refl;
  }

-- No node stands twice.
abbrev pub Distinct : List ℕ → Type 0
Distinct [] = Unit
Distinct (x ∷ xs) = All (λ y. y ≢ x) xs × Distinct xs

pub Distinct-at :
    (A : List ℕ) (u : ℕ) (B : List ℕ)
    → Distinct (A ++ u ∷ B)
    → All (λ y. y ≢ u) A × All (λ y. y ≢ u) B
Distinct-at [] u B (h, d) = (tt, h)
Distinct-at (a ∷ A) u B (h, d) =
    let (hA, hB) = Distinct-at A u B d in
    ((λ e. (All-behind (λ y. y ≢ a) A u B h).0 (sym e), hA), hB)

pub All-split : (P : ℕ → Type 0) (A B : List ℕ) → All P (A ++ B) → All P A × All P B
All-split P [] B h = (tt, h)
All-split P (a ∷ A) B (p, h) = let (hA, hB) = All-split P A B h in ((p, hA), hB)

pub All-Same :
    (V W : View) (u n : ℕ) (xs : List ℕ)
    → All (λ y. y ≢ u) xs
    → All (λ y. y ≢ n) xs
    → ((x : ℕ) → x ≢ u → x ≢ n → W x ≡ V x)
    → All (Same V W) xs
All-Same V W u n [] _ _ h = tt
All-Same V W u n (x ∷ xs) (p, ps) (q, qs) h = (h x p q, All-Same V W u n xs ps qs h)
