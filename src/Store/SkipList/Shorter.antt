-- ===== src/Store/SkipList/Shorter.antt =====
-- store/skip_list.go: the list that `Delete` leaves is well formed.
use tiny_red.Base.{
  ℕ, ◌<◌, ◌≡◌, ◌≢◌, refl, sym, subst, ◌∙◌, true, List, [], ◌∷◌, ◌++◌, map, arith, length-append,
  All, pos, ◌-ℤ◌,
}
use tiny_red.Store.SkipList.{SkipList, skip_list_max_level, level_of}
use tiny_red.Store.SkipList.Chain.{is_tall, Chain}
use tiny_red.Store.SkipList.Search.{view}
use tiny_red.Store.SkipList.Links.{Distinct, Kept}
use tiny_red.Store.SkipList.Represents.{WellFormed, entry_of}
use tiny_red.Store.SkipList.Longer.{entry_of-Kept}

All-remove :
    (P : ℕ → Type 0) (A : List ℕ) (n : ℕ) (B : List ℕ) → All P (A ++ n ∷ B) → All P (A ++ B)
All-remove P [] n B (p, h) = h
All-remove P (a ∷ A) n B (q, h) = (q, All-remove P A n B h)

Distinct-remove : (A : List ℕ) (n : ℕ) (B : List ℕ) → Distinct (A ++ n ∷ B) → Distinct (A ++ B)
Distinct-remove [] n B (_, d) = d
Distinct-remove (a ∷ A) n B (h, d) = (All-remove (λ y. y ≢ a) A n B h, Distinct-remove A n B d)

map_same : {T : Type 0} (f g : ℕ → T) (xs : List ℕ) → ((x : ℕ) → g x ≡ f x) → map g xs ≡ map f xs
map_same f g [] h = refl
map_same f g (x ∷ xs) h = rw (h x, map_same f g xs h) refl

pub map-append : {T : Type 0} (f : ℕ → T) (xs ys : List ℕ) → map f (xs ++ ys) ≡ map f xs ++ map f ys
map-append f [] ys = refl
map-append f (x ∷ xs) ys = rw (map-append f xs ys) refl

module _ {F : Type 0} (s : SkipList F) (C : List ℕ) (z : ℕ) (zs : List ℕ)
    (well_formed : WellFormed s (C ++ z ∷ zs)) (t : SkipList F) (kept : Kept s t)
    (chains : (j : ℕ) → j < skip_list_max_level → Chain (view t j) ((s.head ∷ C) ++ zs)) where
  unfoldable pub shorter : SkipList F
  shorter = record t { length = t.length -ℤ pos 1 }

  is_tall-old :
      (xs : List ℕ)
      → All (λ x. is_tall (view s 0) x ≡ true) xs
      → All (λ x. is_tall (view t 0) x ≡ true) xs
  is_tall-old [] _ = tt
  is_tall-old (x ∷ xs) (p, ps) = (kept.heights 0 x ∙ p, is_tall-old xs ps)

  pub shorter-WellFormed : WellFormed shorter (C ++ zs)
  unfolding shorter level_of
  shorter-WellFormed = record {
    chains = λ i h. rw kept.head_kept (chains i h);
    distinct = rw kept.head_kept (Distinct-remove (s.head ∷ C) z zs well_formed.distinct);
    made = rw kept.head_kept (
        subst (λ b. All (λ x. x < b) (s.head ∷ (C ++ zs))) (sym kept.next_kept)
          (All-remove (λ x. x < s.next_node) (s.head ∷ C) z zs well_formed.made));
    head_high = λ i h. rw kept.head_kept (kept.heights i s.head ∙ well_formed.head_high i h);
    on_ground =
        All-remove (λ x. is_tall (view t 0) x ≡ true) C z zs
          (is_tall-old (C ++ z ∷ zs) well_formed.on_ground);
    counted =
        rw (kept.length_kept, well_formed.counted)
          (ground (arith, length-append C zs, length-append C (z ∷ zs)));
  }

  pub shorter-entries : (xs : List ℕ) → map (entry_of shorter) xs ≡ map (entry_of s) xs
  unfolding shorter
  shorter-entries xs = map_same (entry_of s) (entry_of shorter) xs (λ x. entry_of-Kept s t x kept)
