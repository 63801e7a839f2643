-- ===== src/Store/SkipList/Order.antt =====
-- store/skip_list.go: `less` orders the entries of the skip list, by score and then by member, where
-- the scores are numbers; and the sorted list that the skip list stands for.
use tiny_red.Base.{
  ◌≡◌, refl, Bool, true, false, not, ◌&&◌, List, [], ◌∷◌, arith, Bytes, All, Bool-cases, inl, inr,
  if◌then◌else◌,
}
use tiny_red.Store.SkipList.{Scores, less, bytes_lt}

-- What the order of floating-point numbers has, NaN left out: `Number` are the others.
pub record IsOrdered {F : Type 0} (scores : Scores F) : Type 1 where
  pub Number : F → Type 0
  pub asymmetric :
      (a b : F) → Number a → Number b → scores.below a b ≡ true → scores.below b a ≡ false
  pub not_below_trans :
      (a b c : F)
      → Number a
      → Number b
      → Number c
      → scores.below a b ≡ false
      → scores.below b c ≡ false
      → scores.below a c ≡ false
  pub equals_lem :
      (a b : F)
      → Number a
      → Number b
      → scores.equals a b ≡ (not (scores.below a b) && not (scores.below b a))

pub bytes_lt-asymmetric : (a b : Bytes) → bytes_lt a b ≡ true → bytes_lt b a ≡ false
unfolding bytes_lt
bytes_lt-asymmetric [] [] h = refl
bytes_lt-asymmetric [] (y ∷ ys) h = refl
bytes_lt-asymmetric (x ∷ xs) [] h = cc
bytes_lt-asymmetric (x ∷ xs) (y ∷ ys) h = ground (arith, bytes_lt-asymmetric xs ys)

bytes_lt-not_trans :
    (a b c : Bytes) → bytes_lt a b ≡ false → bytes_lt b c ≡ false → bytes_lt a c ≡ false
unfolding bytes_lt
bytes_lt-not_trans [] [] [] h k = refl
bytes_lt-not_trans [] [] (z ∷ c) h k = cc
bytes_lt-not_trans [] (y ∷ b) c h k = cc
bytes_lt-not_trans (x ∷ a) b [] h k = refl
bytes_lt-not_trans (x ∷ a) [] (z ∷ c) h k = cc
bytes_lt-not_trans (x ∷ a) (y ∷ b) (z ∷ c) h k = ground (arith, bytes_lt-not_trans a b c)

-- A member with its score.
abbrev pub Scored : Type 0 → Type 0
Scored F = Bytes × F

module _ {F : Type 0} (scores : Scores F) where
  abbrev pub less_entry : Scored F → Scored F → Bool
  less_entry d e = less scores d.1 d.0 e.1 e.0

  -- No entry is less than one in front of it.
  abbrev pub Sorted : List (Scored F) → Type 0
  Sorted [] = Unit
  Sorted (e ∷ es) = All (λ d. less_entry d e ≡ false) es × Sorted es

  -- The entry, put in front of the first that is not less.
  unfoldable pub insert_entry : Scored F → List (Scored F) → List (Scored F)
  insert_entry e [] = e ∷ []
  insert_entry e (d ∷ es) =
      let rest = insert_entry e es in if less_entry d e then d ∷ rest else e ∷ d ∷ es

module _ {F : Type 0} (scores : Scores F) (laws : IsOrdered scores) where
  abbrev pub IsNumber : Scored F → Type 0
  IsNumber e = laws.Number e.1

  pub less-asymmetric :
      (d e : Scored F)
      → IsNumber d
      → IsNumber e
      → less_entry scores d e ≡ true
      → less_entry scores e d ≡ false
  unfolding less
  less-asymmetric (m, a) (n, b) p q h = ground (
    arith,
    laws.asymmetric a b p q,
    laws.asymmetric b a q p,
    laws.equals_lem a b p q,
    laws.equals_lem b a q p,
    bytes_lt-asymmetric m n,
  )

  pub less-not_trans :
      (d e f : Scored F)
      → IsNumber d
      → IsNumber e
      → IsNumber f
      → less_entry scores d e ≡ false
      → less_entry scores e f ≡ false
      → less_entry scores d f ≡ false
  unfolding less
  less-not_trans (m, a) (n, b) (o, c) p q r h k = ground (
    arith,
    laws.not_below_trans a b c p q r,
    laws.not_below_trans b a c q p r,
    laws.not_below_trans a c b p r q,
    laws.not_below_trans c a b r p q,
    laws.not_below_trans b c a q r p,
    laws.not_below_trans c b a r q p,
    laws.asymmetric a b p q,
    laws.asymmetric b c q r,
    laws.asymmetric a c p r,
    laws.equals_lem a b p q,
    laws.equals_lem b c q r,
    laws.equals_lem a c p r,
    bytes_lt-not_trans m n o,
  )

  insert_entry-All :
      (P : Scored F → Type 0) (e : Scored F) (es : List (Scored F))
      → P e
      → All P es
      → All P (insert_entry scores e es)
  unfolding insert_entry
  insert_entry-All P e [] p h = (p, tt)
  insert_entry-All P e (d ∷ es) p (q, h) = elim (Bool-cases (less_entry scores d e)) [
    | inl on ↦ rw on (q, insert_entry-All P e es p h)
    | inr off ↦ rw off (p, (q, h))
  ]

  not_less_than :
      (e d : Scored F) (es : List (Scored F))
      → IsNumber e
      → IsNumber d
      → All IsNumber es
      → less_entry scores d e ≡ false
      → All (λ f. less_entry scores f d ≡ false) es
      → All (λ f. less_entry scores f e ≡ false) es
  not_less_than e d [] p q _ h _ = tt
  not_less_than e d (f ∷ es) p q (r, rs) h (k, ks) =
      (less-not_trans f d e r q p k h, not_less_than e d es p q rs h ks)

  pub insert_entry-Sorted :
      (e : Scored F) (es : List (Scored F))
      → IsNumber e
      → All IsNumber es
      → Sorted scores es
      → Sorted scores (insert_entry scores e es) × All IsNumber (insert_entry scores e es)
  unfolding insert_entry
  insert_entry-Sorted e [] p _ _ = ((tt, tt), (p, tt))
  insert_entry-Sorted e (d ∷ es) p (q, qs) (h, hs) = elim (Bool-cases (less_entry scores d e)) [
    | inl on ↦ (
      rw on (
        insert_entry-All (λ f. less_entry scores f d ≡ false) e es (less-asymmetric d e q p on) h,
        (insert_entry-Sorted e es p qs hs).0,
      ),
      rw on (q, insert_entry-All IsNumber e es p qs),
    )
    | inr off ↦ (rw off ((off, not_less_than e d es p q qs off h), (h, hs)), rw off (p, (q, qs)))
  ]
