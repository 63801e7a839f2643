-- ===== src/Store/SortedSets/Members.antt =====
-- store/store.go: the scores of the members of a sorted set, in the list that its skip list stands for.
use tiny_red.Base.{
  suc, ◌≡◌, refl, sym, ap, subst, ◌∙◌, Bool, true, false, Option, none, some, some-injective, List,
  [], ◌∷◌, arith, length, Bytes, bytes_eq, bytes_eq_iff, All, Bool-cases, inl, inr, if◌then◌else◌,
}
use tiny_red.Store.SkipList.{Scores}
use tiny_red.Store.SkipList.Order.{Scored, less_entry, insert_entry, IsOrdered, IsNumber}
use tiny_red.Store.SkipList.Matching.{is_match, delete_entry}

bytes_eq-false : (m n : Bytes) → bytes_eq m n ≡ false → bytes_eq n m ≡ false
bytes_eq-false m n h = elim (Bool-cases (bytes_eq n m)) [
  | inl on ↦
      absurd (
        let same : m ≡ n = sym ((bytes_eq_iff n m).0 on) in let e = (bytes_eq_iff m n).1 same in cc)
  | inr off ↦ off
]

module _ {F : Type 0} where
  -- The score of the first entry with the member.
  unfoldable pub score_of : Bytes → List (Scored F) → Option F
  score_of m [] = none
  score_of m (e ∷ es) = if bytes_eq e.0 m then some e.1 else score_of m es

  -- No member stands twice.
  abbrev pub Unique : List (Scored F) → Type 0
  Unique [] = Unit
  Unique (e ∷ es) = (score_of e.0 es ≡ none) × Unique es

  if_none :
      (b : Bool) (x : F) (o : Option F)
      → (if b then some x else o) ≡ none
      → (b ≡ false) × (o ≡ none)
  if_none true x o h = cc
  if_none false x o h = (refl, h)

  -- What a list without the member in front says of the rest.
  pub score_of-tail :
      (n : Bytes) (d : Scored F) (es : List (Scored F))
      → score_of n (d ∷ es) ≡ none
      → (bytes_eq d.0 n ≡ false) × (score_of n es ≡ none)
  unfolding score_of
  score_of-tail n d es h = if_none (bytes_eq d.0 n) d.1 (score_of n es) h

module _ {F : Type 0} (scores : Scores F) (n : Bytes) (k : F) where
  pub score_of-insert_entry :
      (m : Bytes) (es : List (Scored F))
      → score_of n es ≡ none
      → score_of m (insert_entry scores (n, k) es)
        ≡ (if bytes_eq n m then some k else score_of m es)
  unfolding score_of insert_entry
  score_of-insert_entry m [] h = refl
  score_of-insert_entry m (d ∷ es) h =
      ground (
        arith,
        bytes_eq_iff n m,
        bytes_eq_iff d.0 m,
        bytes_eq_iff d.0 n,
        score_of-insert_entry m es,
      )

  pub insert_entry-Unique :
      (es : List (Scored F))
      → score_of n es ≡ none
      → Unique es
      → Unique (insert_entry scores (n, k) es)
  unfolding insert_entry score_of
  insert_entry-Unique [] h u = (refl, tt)
  insert_entry-Unique (d ∷ es) h (new, u) =
      let (other, rest) = score_of-tail n d es h in
      elim (Bool-cases (less_entry scores d (n, k))) [
        | inl on ↦ rw on (
          score_of-insert_entry d.0 es rest ∙ rw (bytes_eq-false d.0 n other) new,
          insert_entry-Unique es rest u,
        )
        | inr off ↦ rw off (h, (new, u))
      ]

pub length-insert_entry :
    {F : Type 0} (scores : Scores F) (e : Scored F) (es : List (Scored F))
    → length (insert_entry scores e es) ≡ suc (length es)
unfolding insert_entry
length-insert_entry scores e [] = refl
length-insert_entry scores e (d ∷ es) = ground (arith, length-insert_entry scores e es)

pub length-delete_entry :
    {F : Type 0} (scores : Scores F) (e : Scored F) (es : List (Scored F))
    → (delete_entry scores e es).0 ≡ true
    → suc (length (delete_entry scores e es).1) ≡ length es
unfolding delete_entry
length-delete_entry scores e [] h = cc
length-delete_entry scores e (d ∷ es) h = elim (Bool-cases (is_match scores d e)) [
  | inl on ↦ rw on refl
  | inr off ↦ rw off (ap suc (length-delete_entry scores e es (sym (rw off refl) ∙ h)))
]

module _ {F : Type 0} (scores : Scores F) (laws : IsOrdered scores) where
  equals_refl : (k : F) → laws.Number k → scores.equals k k ≡ true
  equals_refl k p = elim (Bool-cases (scores.below k k)) [
    | inl on ↦ absurd (let off = laws.asymmetric k k p p on in cc)
    | inr off ↦ rw (laws.equals_lem k k p p, off) refl
  ]

  pub score_of-Number :
      (m : Bytes) (k : F) (es : List (Scored F))
      → All (IsNumber scores laws) es
      → score_of m es ≡ some k
      → laws.Number k
  unfolding score_of
  score_of-Number m k [] _ h = cc
  score_of-Number m k (d ∷ es) (p, ps) h = elim (Bool-cases (bytes_eq d.0 m)) [
    | inl on ↦ subst laws.Number (some-injective d.1 k (sym (rw on refl) ∙ h)) p
    | inr off ↦ score_of-Number m k es ps (sym (rw off refl) ∙ h)
  ]

  -- Where no member stands twice, the entry of a member is the one that is taken out.
  pub delete_entry-member :
      (m : Bytes) (k : F) (es : List (Scored F))
      → laws.Number k
      → Unique es
      → score_of m es ≡ some k
      → (score_of m (delete_entry scores (m, k) es).1 ≡ none)
        × ((j : Bytes)
            → bytes_eq m j ≡ false
            → score_of j (delete_entry scores (m, k) es).1 ≡ score_of j es)
        × Unique (delete_entry scores (m, k) es).1
        × ((delete_entry scores (m, k) es).0 ≡ true)
  unfolding score_of delete_entry
  delete_entry-member m k [] p u h = cc
  delete_entry-member m k (d ∷ es) p (new, u) h = elim (Bool-cases (bytes_eq d.0 m)) [
    | inl on ↦
        let same : d.0 ≡ m = (bytes_eq_iff d.0 m).0 on in
        let value : d.1 ≡ k = some-injective d.1 k (sym (rw on refl) ∙ h) in
        let found : is_match scores d (m, k) ≡ true = rw (value, on, equals_refl k p) refl in
        rw found (subst (λ n. score_of n es ≡ none) same new, λ j ne. rw (same, ne) refl, u, refl)
    | inr off ↦
        let passed : is_match scores d (m, k) ≡ false = rw off (ground arith) in
        let (gone, others, unique, found) =
          delete_entry-member m k es p u (sym (rw off refl) ∙ h) in
        rw passed (
          rw off gone,
          λ j ne. rw (others j ne) refl,
          (others d.0 (bytes_eq-false d.0 m off) ∙ new, unique),
          found,
        )
  ]
