-- ===== src/Store/SkipList/Matching.antt =====
-- store/skip_list.go: the entry with a given score and member, and its place in a sorted list.
use tiny_red.Base.{
  ℕ, zero, suc, ◌≡◌, refl, Bool, true, false, ◌&&◌, List, [], ◌∷◌, ◌++◌, arith, Bytes, All, length,
  Bool-cases, inl, inr, bytes_eq, bytes_eq_iff, bytes_eq_refl, if◌then◌else◌,
}
use tiny_red.Store.SkipList.{Scores, less, bytes_lt}
use tiny_red.Store.SkipList.Order.{
  Scored, less_entry, Sorted, IsOrdered, IsNumber, less-not_trans, bytes_lt-asymmetric,
}

bytes_lt-total : (a b : Bytes) → bytes_lt a b ≡ false → bytes_lt b a ≡ false → a ≡ b
unfolding bytes_lt
bytes_lt-total [] [] h k = refl
bytes_lt-total [] (y ∷ ys) h k = cc
bytes_lt-total (x ∷ xs) [] h k = cc
bytes_lt-total (x ∷ xs) (y ∷ ys) h k = ground (arith, bytes_lt-total xs ys)

bytes_lt-irreflexive : (a : Bytes) → bytes_lt a a ≡ false
bytes_lt-irreflexive a = elim (Bool-cases (bytes_lt a a)) [
  | inl on ↦ bytes_lt-asymmetric a a on
  | inr off ↦ off
]

module _ {F : Type 0} (scores : Scores F) where
  abbrev pub is_match : Scored F → Scored F → Bool
  is_match d e = scores.equals d.1 e.1 && bytes_eq d.0 e.0

  -- The list without the first match, and whether there is one.
  unfoldable pub delete_entry : Scored F → List (Scored F) → Bool × List (Scored F)
  delete_entry e [] = (false, [])
  delete_entry e (d ∷ es) =
      let rest = delete_entry e es in if is_match d e then (true, es) else (rest.0, d ∷ rest.1)

  next_rank : ℕ → ℕ
  next_rank zero = 0
  next_rank (suc n) = suc (suc n)

  -- The rank of the first match, from 1, and 0 if there is none.
  unfoldable pub rank_entry : Scored F → List (Scored F) → ℕ
  unfolding next_rank
  rank_entry e [] = 0
  rank_entry e (d ∷ es) = let rest = rank_entry e es in if is_match d e then 1 else next_rank rest

module _ {F : Type 0} (scores : Scores F) (laws : IsOrdered scores) where
  match-not_less :
      (d e : Scored F)
      → IsNumber scores laws d
      → IsNumber scores laws e
      → is_match scores d e ≡ true
      → (less_entry scores d e ≡ false) × (less_entry scores e d ≡ false)
  unfolding less
  match-not_less (m, a) (n, b) p q h = ground (
    arith,
    laws.equals_lem a b p q,
    laws.equals_lem b a q p,
    bytes_eq_iff m n,
    bytes_lt-irreflexive m,
    bytes_lt-irreflexive n,
  )

  not_less-match :
      (d e : Scored F)
      → IsNumber scores laws d
      → IsNumber scores laws e
      → less_entry scores d e ≡ false
      → less_entry scores e d ≡ false
      → is_match scores d e ≡ true
  unfolding less
  not_less-match (m, a) (n, b) p q h k =
      ground (
        arith,
        laws.equals_lem a b p q,
        laws.equals_lem b a q p,
        bytes_lt-total m n,
        bytes_eq_refl n,
      )

  pub less-no_match :
      (d e : Scored F)
      → IsNumber scores laws d
      → IsNumber scores laws e
      → less_entry scores d e ≡ true
      → is_match scores d e ≡ false
  less-no_match d e p q h = elim (Bool-cases (is_match scores d e)) [
    | inl on ↦ absurd (let f = (match-not_less d e p q on).0 in cc)
    | inr off ↦ off
  ]

  -- Behind an entry that is no match, and not less than the one looked for, there is none.
  pub sorted-no_match :
      (e z : Scored F) (es : List (Scored F))
      → IsNumber scores laws e
      → IsNumber scores laws z
      → All (IsNumber scores laws) es
      → less_entry scores z e ≡ false
      → is_match scores z e ≡ false
      → All (λ d. less_entry scores d z ≡ false) es
      → All (λ d. is_match scores d e ≡ false) es
  sorted-no_match e z [] p q _ h n _ = tt
  sorted-no_match e z (d ∷ es) p q (r, rs) h n (l, ls) = (
    elim (Bool-cases (is_match scores d e)) [
      | inl on ↦
          let e_z = less-not_trans scores laws e d z p r q (match-not_less d e r p on).1 l in
          let both = not_less-match z e q p h e_z in absurd (let f = n in cc)
      | inr off ↦ off
    ],
    sorted-no_match e z es p q rs h n ls,
  )

module _ {F : Type 0} (scores : Scores F) (e : Scored F) where
  abbrev pub NoMatch : List (Scored F) → Type 0
  NoMatch es = All (λ d. is_match scores d e ≡ false) es

  pub no_match_lem :
      (es : List (Scored F))
      → NoMatch es
      → (delete_entry scores e es ≡ (false, es)) × (rank_entry scores e es ≡ 0)
  unfolding delete_entry rank_entry next_rank
  no_match_lem [] _ = (refl, refl)
  no_match_lem (d ∷ es) (h, hs) =
      let (f, g) = no_match_lem es hs in (rw (h, f) refl, rw (h, g) refl)

  pub first_match_lem :
      (ds : List (Scored F)) (z : Scored F) (es : List (Scored F))
      → NoMatch ds
      → is_match scores z e ≡ true
      → (delete_entry scores e (ds ++ z ∷ es) ≡ (true, ds ++ es))
        × (rank_entry scores e (ds ++ z ∷ es) ≡ suc (length ds))
  unfolding delete_entry rank_entry next_rank
  first_match_lem [] z es _ m = (rw m refl, rw m refl)
  first_match_lem (d ∷ ds) z es (h, hs) m =
      let (f, g) = first_match_lem ds z es hs m in (rw (h, f) refl, rw (h, g) refl)

-- Taking an entry out keeps the order.
pub delete_entry-All :
    {F : Type 0} (scores : Scores F) (P : Scored F → Type 0) (e : Scored F) (es : List (Scored F))
    → All P es
    → All P (delete_entry scores e es).1
unfolding delete_entry
delete_entry-All scores P e [] _ = tt
delete_entry-All scores P e (d ∷ es) (p, h) = elim (Bool-cases (is_match scores d e)) [
  | inl on ↦ rw on h
  | inr off ↦ rw off (p, delete_entry-All scores P e es h)
]

pub delete_entry-Sorted :
    {F : Type 0} (scores : Scores F) (e : Scored F) (es : List (Scored F))
    → Sorted scores es
    → Sorted scores (delete_entry scores e es).1
unfolding delete_entry
delete_entry-Sorted scores e [] _ = tt
delete_entry-Sorted scores e (d ∷ es) (p, h) = elim (Bool-cases (is_match scores d e)) [
  | inl on ↦ rw on h
  | inr off ↦ rw off (
    delete_entry-All scores (λ f. less_entry scores f d ≡ false) e es p,
    delete_entry-Sorted scores e es h,
  )
]
