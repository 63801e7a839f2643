-- ===== src/Store/SkipList/Looking.antt =====
-- store/skip_list.go: the nodes of a list that are on a level.
use tiny_red.Base.{
  ℕ, zero, suc, ◌+◌, ◌≤◌, ◌<◌, ◌≡◌, refl, subst, ◌⊎◌, inl, inr, Bool, true, false, Option, some,
  some-injective, List, [], ◌∷◌, ◌++◌, arith, append_assoc, length, length-append, All, get_elem?,
  ℤ, pos, ◌+ℤ◌, Option-cases, if◌then◌else◌,
}
use tiny_red.Store.SkipList.{SkipListLevel}
use tiny_red.Store.SkipList.Chain.{
  View, is_tall, is_tall-low, is_tall-cell, IsLow, ahead, gap, ahead-low, gap-low,
}

-- The nodes of `M` are not on the level, or the first that is on it is `x`.
unfoldable pub FirstTall : View → List ℕ → Type 0
FirstTall V C =
    (B : List ℕ) × (x : ℕ) × (D : List ℕ) × (C ≡ B ++ x ∷ D)
    × All (IsLow V) B
    × (is_tall V x ≡ true)

pub tall_cell : (V : View) (x : ℕ) → is_tall V x ≡ true → (cell : SkipListLevel) × (V x ≡ some cell)
tall_cell V x h = elim (Option-cases (V x)) [
  | inl low ↦ absurd (let e = is_tall-low V x low in cc)
  | inr (cell, e) ↦ (cell, e)
]

pub find_tall : (V : View) (C : List ℕ) → All (IsLow V) C ⊎ FirstTall V C
unfolding FirstTall
find_tall V [] = inl tt
find_tall V (c ∷ C) = elim (Option-cases (V c)) [
  | inr (cell, e) ↦ inr ([], c, C, refl, tt, is_tall-cell V c cell e)
  | inl low ↦ elim (find_tall V C) [
    | inl lows ↦ inl (low, lows)
    | inr (B, x, D, e, lows, tall) ↦ inr (c ∷ B, x, D, rw e refl, (low, lows), tall)
  ]
]

first_or :
    (P : ℕ → Type 0) (b : Bool) (x z : ℕ) (o : Option ℕ)
    → P x
    → (o ≡ some z → P z)
    → (if b then some x else o) ≡ some z
    → P z
first_or P true x z o p rest e = subst P (some-injective x z e) p
first_or P false x z o p rest e = rest e

pub ahead_member :
    (V : View) (P : ℕ → Type 0) (zs : List ℕ) (z : ℕ) → All P zs → ahead V zs ≡ some z → P z
unfolding ahead
ahead_member V P [] z _ e = cc
ahead_member V P (x ∷ zs) z (p, ps) e =
    first_or P (is_tall V x) x z (ahead V zs) p (ahead_member V P zs z ps) e

pub All-behind :
    (P : ℕ → Type 0) (B : List ℕ) (x : ℕ) (D : List ℕ) → All P (B ++ x ∷ D) → P x × All P D
All-behind P [] x D h = h
All-behind P (b ∷ B) x D (_, h) = All-behind P B x D h

pub first_tall :
    (V : View) (B : List ℕ) (x : ℕ) (D zs C : List ℕ)
    → C ≡ B ++ x ∷ D
    → All (IsLow V) B
    → is_tall V x ≡ true
    → (ahead V (C ++ zs) ≡ some x) × (gap V (C ++ zs) ≡ length B + 1)
unfolding ahead gap
first_tall V B x D zs C split lows tall =
    rw (split, append_assoc B (x ∷ D) zs, ahead-low V B _ lows, gap-low V B _ lows, tall)
      (refl, refl)

pub shorter :
    (B : List ℕ) (x : ℕ) (D C : List ℕ) (n : ℕ) → C ≡ B ++ x ∷ D → length C < suc n → length D < n
shorter B x D C n split h =
    let h' = subst (λ l. length l < suc n) split h in omega (arith, length-append B (x ∷ D))

pub rank_behind :
    (A : List ℕ) (c : ℕ) (B : List ℕ)
    → pos (length A) +ℤ pos (length B + 1) ≡ pos (length (A ++ c ∷ B))
rank_behind A c B = ground (arith, length-append A (c ∷ B))

pub get_elem?-below :
    (xs : List SkipListLevel) (i j : ℕ) (cell : SkipListLevel)
    → j ≤ i
    → get_elem? xs i ≡ some cell
    → (c : SkipListLevel) × (get_elem? xs j ≡ some c)
get_elem?-below [] i j cell h e = cc
get_elem?-below (x ∷ xs) i zero cell h e = (x, refl)
get_elem?-below (x ∷ xs) zero (suc j) cell h e = absurd (omega arith)
get_elem?-below (x ∷ xs) (suc i) (suc j) cell h e = get_elem?-below xs i j cell (omega arith) e

-- A node stands in `ys`, on the level, with nodes behind it that are not on the level, and `rank` is
-- its distance from the first.
abbrev pub Stands : View → (ℕ → Type 0) → List ℕ → ℕ → ℤ → Type 0
Stands V P ys c rank =
    (A : List ℕ) × (M : List ℕ) × (ys ≡ A ++ c ∷ M)
    × (rank ≡ pos (length A))
    × All (IsLow V) M
    × All P M
    × (is_tall V c ≡ true)
