-- ===== src/Store/SkipList/Chain.antt =====
-- store/skip_list.go: one level of the list, as what each node has on it: the next node on the level
-- and how far away it is in the whole list.
use tiny_red.Base.{
  ℕ, suc, ◌+◌, ◌≡◌, refl, sym, ap, ◌∙◌, Bool, true, false, Option, none, some, some-injective, List,
  [], ◌∷◌, ◌++◌, arith, length, All, pos, ◌+ℤ◌, ◌-ℤ◌, if◌then◌else◌,
}
use tiny_red.Store.SkipList.{SkipListLevel}

-- What a node has on the level; `none` is a node that is not as high.
abbrev pub View : Type 0
View = ℕ → Option SkipListLevel

unfoldable pub is_cell : Option SkipListLevel → Bool
is_cell none = false
is_cell (some cell) = true

unfoldable pub is_tall : View → ℕ → Bool
unfolding is_cell
is_tall V x = is_cell (V x)

pub is_tall-low : (V : View) (x : ℕ) → V x ≡ none → is_tall V x ≡ false
unfolding is_tall is_cell
is_tall-low V x e = rw e refl

pub is_tall-cell : (V : View) (x : ℕ) (cell : SkipListLevel) → V x ≡ some cell → is_tall V x ≡ true
unfolding is_tall is_cell
is_tall-cell V x cell e = rw e refl

pub is_tall-same : (V W : View) (x : ℕ) → W x ≡ V x → is_tall W x ≡ is_tall V x
unfolding is_tall
is_tall-same V W x e = rw e refl

abbrev pub IsLow : View → ℕ → Type 0
IsLow V x = V x ≡ none

-- The next node on the level among `xs`, and its distance; at the end of the level there is no next
-- node, and the distance is the number of the nodes that follow.
unfoldable pub ahead : View → List ℕ → Option ℕ
ahead V [] = none
ahead V (x ∷ xs) = if is_tall V x then some x else ahead V xs

unfoldable pub gap : View → List ℕ → ℕ
gap V [] = 0
gap V (x ∷ xs) = if is_tall V x then 1 else suc (gap V xs)

-- The cell of a node that the nodes `xs` follow.
abbrev pub cell_for : View → List ℕ → SkipListLevel
cell_for V xs = record { forward = ahead V xs; span = pos (gap V xs) }

abbrev pub IsRight : View → ℕ → List ℕ → Type 0
IsRight V x xs = (cell : SkipListLevel) → V x ≡ some cell → cell ≡ cell_for V xs

-- Every node that is on the level has the cell that the list wants.
abbrev pub Chain : View → List ℕ → Type 0
Chain V [] = Unit
Chain V (x ∷ xs) = IsRight V x xs × Chain V xs

abbrev pub Same : View → View → ℕ → Type 0
Same V W x = W x ≡ V x

module _ (V : View) where
  -- Nodes that are not on the level only add to the distance.
  pub ahead-low : (M zs : List ℕ) → All (IsLow V) M → ahead V (M ++ zs) ≡ ahead V zs
  unfolding ahead
  ahead-low [] zs _ = refl
  ahead-low (m ∷ M) zs (low, lows) = rw (is_tall-low V m low) (ahead-low M zs lows)

  pub gap-low : (M zs : List ℕ) → All (IsLow V) M → gap V (M ++ zs) ≡ length M + gap V zs
  unfolding gap
  gap-low [] zs _ = omega arith
  gap-low (m ∷ M) zs (low, lows) = rw (is_tall-low V m low, gap-low M zs lows) (omega arith)

  pub Chain-low : (M zs : List ℕ) → All (IsLow V) M → Chain V zs → Chain V (M ++ zs)
  Chain-low [] zs _ h = h
  Chain-low (m ∷ M) zs (low, lows) h = (λ cell e. cc, Chain-low M zs lows h)

  pub Chain-behind : (A zs : List ℕ) → Chain V (A ++ zs) → Chain V zs
  Chain-behind [] zs h = h
  Chain-behind (a ∷ A) zs (_, h) = Chain-behind A zs h

module _ (V W : View) where
  -- The distance to a node on the level depends on the nodes up to it.
  upto :
      (A : List ℕ) (u : ℕ) (B C : List ℕ)
      → All (Same V W) A
      → is_tall V u ≡ true
      → is_tall W u ≡ true
      → (ahead W (A ++ u ∷ C) ≡ ahead V (A ++ u ∷ B)) × (gap W (A ++ u ∷ C) ≡ gap V (A ++ u ∷ B))
  unfolding ahead gap
  upto [] u B C _ tall tall' = rw (tall, tall') (refl, refl)
  upto (a ∷ A) u B C (e, same) tall tall' =
      let (f, g) = upto A u B C same tall tall' in rw (is_tall-same V W a e, f, g) (refl, refl)

  -- What follows a node on the level is replaced, with the node's cell.
  pub Chain-replace :
      (A : List ℕ) (u : ℕ) (B C : List ℕ)
      → Chain V (A ++ u ∷ B)
      → All (Same V W) A
      → is_tall V u ≡ true
      → W u ≡ some (cell_for W C)
      → Chain W C
      → Chain W (A ++ u ∷ C)
  Chain-replace [] u B C h _ tall e k = (λ cell f. some-injective _ _ (sym f ∙ e), k)
  Chain-replace (a ∷ A) u B C (right, h) (same, sames) tall e k =
      let tall' : is_tall W u ≡ true = is_tall-cell W u _ e in
      let (f, g) = upto A u B C sames tall tall' in
      (λ cell c. rw (f, g) (right cell (sym same ∙ c)), Chain-replace A u B C h sames tall e k)

  pub ahead-unchanged : (xs : List ℕ) → All (Same V W) xs → ahead W xs ≡ ahead V xs
  unfolding ahead
  ahead-unchanged [] _ = refl
  ahead-unchanged (x ∷ xs) (e, same) = rw (is_tall-same V W x e, ahead-unchanged xs same) refl

  pub gap-unchanged : (xs : List ℕ) → All (Same V W) xs → gap W xs ≡ gap V xs
  unfolding gap
  gap-unchanged [] _ = refl
  gap-unchanged (x ∷ xs) (e, same) = rw (is_tall-same V W x e, gap-unchanged xs same) refl

  pub Chain-same : (xs : List ℕ) → All (Same V W) xs → Chain V xs → Chain W xs
  Chain-same [] _ h = tt
  Chain-same (x ∷ xs) (e, same) (right, h) = (
    λ cell c. rw (ahead-unchanged xs same, gap-unchanged xs same) (right cell (sym e ∙ c)),
    Chain-same xs same h,
  )

  pub IsLow-unchanged : (M : List ℕ) → All (Same V W) M → All (IsLow V) M → All (IsLow W) M
  IsLow-unchanged [] _ _ = tt
  IsLow-unchanged (m ∷ M) (e, same) (low, lows) = (e ∙ low, IsLow-unchanged M same lows)

  -- The cells behind nodes that are not on the level.
  pub cell_for-low :
      (M xs : List ℕ)
      → All (IsLow W) M
      → (o : Option ℕ) → (k : ℕ) → ahead W xs ≡ o
      → gap W xs ≡ k
      → cell_for W (M ++ xs) ≡ record { forward = o; span = pos (length M + k) }
  cell_for-low M xs lows o k e f = rw (ahead-low W M xs lows, gap-low W M xs lows, e, f) refl

plus_one : (a b : ℕ) → pos (a + b) +ℤ pos 1 ≡ pos (a + suc b)
plus_one a b = ground arith

pos_plus : (a : ℕ) → pos a +ℤ pos 1 ≡ pos (a + 1)
pos_plus a = ground arith

minus_prefix : (a b : ℕ) → pos (a + b) -ℤ pos a ≡ pos b
minus_prefix a b = ground arith

module _ (V W : View) (A : List ℕ) (u : ℕ) (M : List ℕ) (n : ℕ) (zs : List ℕ) (cell : SkipListLevel)
    (h : Chain V (A ++ u ∷ (M ++ zs))) (low : All (IsLow V) M) (sameA : All (Same V W) A)
    (sameM : All (Same V W) M) (samez : All (Same V W) zs) (e : V u ≡ some cell) where
  cell-cell_for : cell ≡ record { forward = ahead V zs; span = pos (length M + gap V zs) }
  cell-cell_for =
      (Chain-behind V A (u ∷ (M ++ zs)) h).0 cell e
      ∙ cell_for-low V V M zs low (ahead V zs) (gap V zs) refl refl

  Chain-rest : Chain W zs
  Chain-rest = Chain-same V W zs samez (Chain-behind V M zs (Chain-behind V A (u ∷ (M ++ zs)) h).1)

  put_in : W u ≡ some (cell_for W (M ++ n ∷ zs)) → IsRight W n zs → Chain W (A ++ u ∷ (M ++ n ∷ zs))
  put_in f right =
      Chain-replace V W A u (M ++ zs) (M ++ n ∷ zs) h sameA (is_tall-cell V u cell e) f
        (Chain-low W M (n ∷ zs) (IsLow-unchanged V W M sameM low) (right, Chain-rest))

  -- One level of `Insert`: the last node on the level in front of the place gets the new node as its
  -- next node, or only a larger span where the new node is not on the level.
  pub Chain-count :
      W n ≡ none
      → W u ≡ some (record cell { span = cell.span +ℤ pos 1 })
      → Chain W (A ++ u ∷ (M ++ n ∷ zs))
  unfolding ahead gap
  Chain-count none_n f =
      put_in
        (rw
          (cell_for-low V W M (n ∷ zs) (IsLow-unchanged V W M sameM low) (ahead V zs)
            (suc (gap V zs)) (rw (is_tall-low W n none_n) (ahead-unchanged V W zs samez))
            (rw (is_tall-low W n none_n, gap-unchanged V W zs samez) refl))
          (rw (f, cell-cell_for, plus_one) refl))
        (λ c g. cc)

  pub Chain-link :
      W n ≡ some (record { forward = cell.forward; span = cell.span -ℤ pos (length M) })
      → W u ≡ some (record { forward = some n; span = pos (length M) +ℤ pos 1 })
      → Chain W (A ++ u ∷ (M ++ n ∷ zs))
  unfolding ahead gap
  Chain-link some_n f =
      put_in
        (rw
          (cell_for-low V W M (n ∷ zs) (IsLow-unchanged V W M sameM low) (some n) 1
            (rw (is_tall-cell W n _ some_n) refl) (rw (is_tall-cell W n _ some_n) refl))
          (rw f (ap (λ k. some (record { forward = some n; span = k })) (pos_plus (length M)))))
        (λ c g.
          some-injective _ _ (sym g ∙ some_n)
          ∙ rw
              (
                cell-cell_for,
                minus_prefix,
                ahead-unchanged V W zs samez,
                gap-unchanged V W zs samez,
              )
              refl)
