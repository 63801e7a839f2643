-- ===== src/Store/SkipList/Longer.antt =====
-- store/skip_list.go: the list that `Insert` leaves is well formed.
use tiny_red.Base.{
  ℕ, suc, ◌≤◌, ◌<◌, ◌≡◌, ◌≢◌, refl, sym, ap, subst, ◌∙◌, true, false, none, List, [], ◌∷◌, ◌++◌,
  map, arith, Bytes, length-append, All, pos, ◌+ℤ◌, ◌==◌, ==_refl,
}
use tiny_red.Store.SkipList.{SkipList, skip_list_max_level, level_of, make_node}
use tiny_red.Store.SkipList.Chain.{is_tall, is_tall-cell, is_tall-same, Chain}
use tiny_red.Store.SkipList.Search.{view}
use tiny_red.Store.SkipList.Links.{Distinct, Kept}
use tiny_red.Store.SkipList.Represents.{WellFormed, entry_of, empty_high, empty_low}

All-insert :
    (P : ℕ → Type 0) (A : List ℕ) (n : ℕ) (B : List ℕ) → P n → All P (A ++ B) → All P (A ++ n ∷ B)
All-insert P [] n B p h = (p, h)
All-insert P (a ∷ A) n B p (q, h) = (q, All-insert P A n B p h)

All-weaken : (P Q : ℕ → Type 0) (xs : List ℕ) → ((x : ℕ) → P x → Q x) → All P xs → All Q xs
All-weaken P Q [] f _ = tt
All-weaken P Q (x ∷ xs) f (p, h) = (f x p, All-weaken P Q xs f h)

Distinct-insert :
    (A : List ℕ) (n : ℕ) (B : List ℕ)
    → Distinct (A ++ B)
    → All (λ y. y ≢ n) (A ++ B)
    → Distinct (A ++ n ∷ B)
Distinct-insert [] n B d f = (f, d)
Distinct-insert (a ∷ A) n B (h, d) (f, fs) =
    (All-insert (λ y. y ≢ a) A n B (λ e. f (sym e)) h, Distinct-insert A n B d fs)

map-insert :
    {T : Type 0} (f g : ℕ → T) (A : List ℕ) (n : ℕ) (B : List ℕ) (e : T)
    → All (λ x. g x ≡ f x) (A ++ B)
    → g n ≡ e
    → map g (A ++ n ∷ B) ≡ map f A ++ e ∷ map f B
map-insert f g [] n [] e h p = rw p refl
map-insert f g [] n (b ∷ B) e (q, h) p =
    let r = map-insert f g [] n B e h p in rw (p, q) (ap (λ l. e ∷ f b ∷ l) (tail_eq r))
  where
    tail_eq : {T : Type 0} {x y : T} {xs ys : List T} → x ∷ xs ≡ y ∷ ys → xs ≡ ys
    tail_eq h = cc
map-insert f g (a ∷ A) n B e (q, h) p = rw (q, map-insert f g A n B e h p) refl

module _ {F : Type 0} (s : SkipList F) (member : Bytes) (score : F) (level : ℕ) where
  unfoldable pub made_node : SkipList F
  made_node = make_node member score level s

  pub old_view : (j x : ℕ) → x ≢ s.next_node → view made_node j x ≡ view s j x
  unfolding made_node make_node level_of
  old_view j x h = ground arith

  old_entry : (x : ℕ) → x ≢ s.next_node → entry_of made_node x ≡ entry_of s x
  unfolding made_node make_node
  old_entry x h = let e : (x == s.next_node) ≡ false = ground arith in rw e refl

  new_entry : entry_of made_node s.next_node ≡ (member, score)
  unfolding made_node make_node
  new_entry = rw (==_refl s.next_node) refl

  pub new_high : (j : ℕ) → j < level → is_tall (view made_node j) s.next_node ≡ true
  unfolding made_node make_node level_of
  new_high j h =
      let (cell, e) = empty_high level j h in
      is_tall-cell (view made_node j) s.next_node cell (rw (==_refl s.next_node) e)

  pub new_low : (j : ℕ) → level ≤ j → view made_node j s.next_node ≡ none
  unfolding made_node make_node level_of
  new_low j h = rw (==_refl s.next_node) (empty_low level j h)

-- What the loops leave, read as an entry.
pub entry_of-Kept : {F : Type 0} (s t : SkipList F) (x : ℕ) → Kept s t → entry_of t x ≡ entry_of s x
entry_of-Kept s t x kept = rw (kept.members_kept x, kept.scores_kept x) refl

pub fresh_node :
    {F : Type 0} (s : SkipList F) (xs : List ℕ)
    → WellFormed s xs
    → All (λ y. y ≢ s.next_node) (s.head ∷ xs)
fresh_node s xs well_formed =
    All-weaken (λ x. x < s.next_node) (λ x. x ≢ s.next_node) (s.head ∷ xs) (λ x h. omega arith)
      well_formed.made

module _ {F : Type 0} (s : SkipList F) (m : Bytes) (k : F) (level : ℕ) (C zs : List ℕ)
    (well_formed : WellFormed s (C ++ zs)) (high : 1 ≤ level) (low : level ≤ skip_list_max_level)
    (t : SkipList F) (kept : Kept (made_node s m k level) t)
    (chains : (j : ℕ)
      → j < skip_list_max_level
      → Chain (view t j) ((s.head ∷ C) ++ s.next_node ∷ zs)) where
  unfoldable pub longer : SkipList F
  longer = record t { length = t.length +ℤ pos 1 }

  fresh : All (λ y. y ≢ s.next_node) ((s.head ∷ C) ++ zs)
  fresh = fresh_node s (C ++ zs) well_formed

  tall_old : (j x : ℕ) → x ≢ s.next_node → is_tall (view s j) x ≡ true → is_tall (view t j) x ≡ true
  tall_old j x h tall =
      kept.heights j x
      ∙ (is_tall-same (view s j) (view (made_node s m k level) j) x (old_view s m k level j x h)
          ∙ tall)

  same_head : t.head ≡ s.head
  unfolding made_node make_node
  same_head = kept.head_kept

  same_next : t.next_node ≡ suc s.next_node
  unfolding made_node make_node
  same_next = kept.next_kept

  same_length : t.length ≡ s.length
  unfolding made_node make_node
  same_length = kept.length_kept

  is_tall-old :
      (xs : List ℕ)
      → All (λ x. is_tall (view s 0) x ≡ true) xs
      → All (λ y. y ≢ s.next_node) xs
      → All (λ x. is_tall (view t 0) x ≡ true) xs
  is_tall-old [] _ _ = tt
  is_tall-old (x ∷ xs) (p, ps) (q, qs) = (tall_old 0 x q p, is_tall-old xs ps qs)

  entries_same :
      (xs : List ℕ) → All (λ y. y ≢ s.next_node) xs → All (λ x. entry_of longer x ≡ entry_of s x) xs
  unfolding longer
  entries_same [] _ = tt
  entries_same (x ∷ xs) (p, ps) = (
    entry_of-Kept (made_node s m k level) t x kept ∙ old_entry s m k level x p,
    entries_same xs ps,
  )

  pub longer-WellFormed : WellFormed longer (C ++ s.next_node ∷ zs)
  unfolding longer level_of
  longer-WellFormed = record {
    chains = λ i h. rw same_head (chains i h);
    distinct =
        rw same_head (Distinct-insert (s.head ∷ C) s.next_node zs well_formed.distinct fresh);
    made = rw same_head (
        subst (λ b. All (λ x. x < b) ((s.head ∷ C) ++ s.next_node ∷ zs)) (sym same_next)
          (All-insert (λ x. x < suc s.next_node) (s.head ∷ C) s.next_node zs (omega arith)
            (All-weaken (λ x. x < s.next_node) (λ x. x < suc s.next_node) (s.head ∷ (C ++ zs))
              (λ x h. omega arith) well_formed.made)));
    head_high = λ i h. rw same_head (tall_old i s.head fresh.0 (well_formed.head_high i h));
    on_ground =
        All-insert (λ x. is_tall (view t 0) x ≡ true) C s.next_node zs
          (kept.heights 0 s.next_node ∙ new_high s m k level 0 (omega arith))
          (is_tall-old (C ++ zs) well_formed.on_ground fresh.1);
    counted =
        rw (same_length, well_formed.counted)
          (ground (arith, length-append C zs, length-append C (s.next_node ∷ zs)));
  }

  pub longer-entries :
      map (entry_of longer) (C ++ s.next_node ∷ zs)
      ≡ map (entry_of s) C ++ (m, k) ∷ map (entry_of s) zs
  unfolding longer
  longer-entries =
      map-insert (entry_of s) (entry_of longer) C s.next_node zs (m, k)
        (entries_same (C ++ zs) fresh.1)
        (entry_of-Kept (made_node s m k level) t s.next_node kept ∙ new_entry s m k level)
