-- ===== src/Store/SortedSets/Adding.antt =====
-- store/store.go: `ZAdd` keeps the map of a sorted set and its skip list in step.
use tiny_red.Base.{
  ℕ, suc, ◌+◌, ◌≡◌, refl, sym, ap, ◌∙◌, pos, none, some, List, [], ◌∷◌, arith, length, Bytes,
  bytes_eq, All, Option-cases, inl, inr,
}
use tiny_red.Base.Map
use tiny_red.Base.Map.{lookup-insert}
use tiny_red.Store.SkipList.{Scores}
use tiny_red.Store.SkipList.Order.{Scored, IsOrdered, IsNumber}
use tiny_red.Store.SkipList.Matching.{delete_entry, delete_entry-All}
use tiny_red.Store.SkipList.Represents.{new_skip_list-Represents}
use tiny_red.Store.SkipList.Removing.{delete-Represents}
use tiny_red.Store.Types.{sorted, Entry, Store}
use tiny_red.Store.Entries
use tiny_red.Store.Entries.{done}
use tiny_red.Store.SortedSets.{
  zset_of, as_zset, add_to, grown_entry, add_update, z_add, ZSet, ZSetEntry, new_zset, add_member,
  add_members,
}
use tiny_red.Store.SortedSets.Members.{
  score_of, length-delete_entry, score_of-Number, delete_entry-member,
}
use tiny_red.Store.SortedSets.InStep.{
  IsLevel, if_others, score_after, is_new, count_new, count_old, same_size, add_missing, add_there,
  Consistent, Put, put_member_lem,
}

module _ {F : Type 0} (scores : Scores F) (laws : IsOrdered scores) where
  Added : ℕ → ZSetEntry F → ℕ → ZSet F → List (Scored F) → Type 0
  Added level pair added z es =
      (t : ZSet F) × (add_member scores level pair added z
        ≡ some (added + is_new (score_of pair.member es), t))
      × Put scores laws pair.member pair.score es t

  -- One entry for a key that is there: a new score for a member, or a new member.
  add_member_lem :
      (level : ℕ) (pair : ZSetEntry F) (added : ℕ) (z : ZSet F) (es : List (Scored F))
      → IsLevel level
      → laws.Number pair.score
      → Consistent scores laws z es
      → Added level pair added z es
  unfolding Added
  add_member_lem level pair added z es levels p c =
      let m = pair.member in
      let k = pair.score in
      elim (Option-cases (Map.lookup m z.hash_map)) [
        | inl missing ↦
            let new : score_of m es ≡ none = sym (c.in_step m) ∙ missing in
            let (t, e, put) =
              put_member_lem scores laws level m k z es levels p c.ranked c.represents new
                (λ j ne. c.in_step j) in
            (
              t,
              add_missing scores level pair added z t missing e
                  ∙ ap (λ n. some (n, t)) (count_new added (score_of m es) new),
              put,
            )
        | inr (old, there) ↦
            let has : score_of m es ≡ some old = sym (c.in_step m) ∙ there in
            let q = score_of-Number scores laws m old es c.ranked.numbers has in
            let ((list, d, represents, order), _) =
              delete-Represents scores laws m old z.z_skip_list es q c.represents c.ranked.numbers
                c.ranked.order in
            let (gone, rest, unique, found) =
              delete_entry-member scores laws m old es q c.ranked.unique has in
            let ds = (delete_entry scores (m, old) es).1 in
            let (t, e, (fs, c', places, size)) =
              put_member_lem scores laws level m k (record z { z_skip_list = list }) ds levels p
                (record {
                  order = order;
                  numbers =
                      delete_entry-All scores (IsNumber scores laws) (m, old) es c.ranked.numbers;
                  unique = unique;
                })
                represents gone (λ j ne. c.in_step j ∙ sym (rest j ne)) in
            (
              t,
              add_there scores level pair added z t old (delete_entry scores (m, old) es).0 list
                    there d e
                  ∙ ap (λ n. some (n, t)) (count_old added (score_of m es) old has),
              (
                fs,
                c',
                λ j. places j ∙ if_others (bytes_eq m j) (some k) (rest j),
                same_size (length ds) (length es) (length fs) (score_of m ds) (score_of m es) old
                    size gone has (length-delete_entry scores (m, old) es found),
              ),
            )
      ]

  add_members-Consistent :
      (random : ℕ → ℕ) (i : ℕ) (pairs : List (ZSetEntry F)) (added : ℕ) (z : ZSet F)
      (es : List (Scored F))
      → ((j : ℕ) → IsLevel (random j))
      → All (λ pair. laws.Number pair.score) pairs
      → Consistent scores laws z es
      → (n : ℕ) × (t : ZSet F) × (fs : List (Scored F)) × (add_members scores random i pairs added z
          ≡ some (n, t))
        × Consistent scores laws t fs
        × ((m : Bytes) → Map.lookup m t.hash_map ≡ score_after m pairs (Map.lookup m z.hash_map))
        × (n + length es ≡ added + length fs)
  unfolding add_members score_after Added
  add_members-Consistent random i [] added z es levels _ c =
      (added, z, es, refl, c, λ m. refl, refl)
  add_members-Consistent random i (pair ∷ pairs) added z es levels (p, ps) c =
      let (z', e, (ds, c', places, size)) =
        add_member_lem (random i) pair added z es (levels i) p c in
      let (n, t, fs, f, c2, scores_t, count) =
        add_members-Consistent random (suc i) pairs (added + is_new (score_of pair.member es)) z' ds
          levels ps c' in
      (
        n,
        t,
        fs,
        rw e f,
        c2,
        λ m.
            scores_t m
            ∙ ap (score_after m pairs) (
                c'.in_step m
                ∙ (places m
                    ∙ if_others (bytes_eq pair.member m) (some pair.score)
                        (λ ne. sym (c.in_step m)))),
        omega (arith, count, size),
      )

  -- The entries added to the sorted set of a key.
  added_to_entry :
      (random : ℕ → ℕ) (key : Bytes) (pairs : List (ZSetEntry F)) (s : Store (ZSet F))
      (e : Entry (ZSet F)) (z t : ZSet F) (n : ℕ)
      → Entries.get key s ≡ some e
      → as_zset e ≡ zset_of z
      → add_members scores random 0 pairs 0 z ≡ some (n, t)
      → z_add scores random key pairs s
        ≡ (done (pos n), Entries.set key (record e { value = sorted t }) s)
  unfolding z_add Entries.update add_update add_to grown_entry Entries.finish_update
  added_to_entry random key pairs s e z t n there kind added =
      rw (there, add_update, kind, add_to, added) refl

  -- ZAdd of any entries, whose scores are numbers, to a key that holds a sorted set whose map and skip
  -- list are in step, with levels from 1 to 16, ends without an error or a panic and leaves a set that
  -- is in step again, on a skip list right for a sorted list without a member twice; each member has
  -- the last score given for it, and else its old one, and the number returned is that of the members
  -- by which the set has grown.
  pub z_add-Consistent :
      (random : ℕ → ℕ) (key : Bytes) (pairs : List (ZSetEntry F)) (s : Store (ZSet F))
      (e : Entry (ZSet F)) (z : ZSet F) (es : List (Scored F))
      → ((j : ℕ) → IsLevel (random j))
      → All (λ pair. laws.Number pair.score) pairs
      → Entries.get key s ≡ some e
      → as_zset e ≡ zset_of z
      → Consistent scores laws z es
      → (n : ℕ) × (t : ZSet F) × (fs : List (Scored F)) × (z_add scores random key pairs s
          ≡ (done (pos n), Entries.set key (record e { value = sorted t }) s))
        × Consistent scores laws t fs
        × ((m : Bytes) → Map.lookup m t.hash_map ≡ score_after m pairs (Map.lookup m z.hash_map))
        × (n + length es ≡ length fs)
  z_add-Consistent random key pairs s e z es levels p there kind c =
      let (n, t, fs, f, c', after, count) =
        add_members-Consistent random 0 pairs 0 z es levels p c in
      (
        n,
        t,
        fs,
        added_to_entry random key pairs s e z t n there kind f,
        c',
        after,
        omega (arith, count),
      )

  pub new_zset-Consistent : Consistent scores laws (new_zset scores) []
  unfolding new_zset score_of Map.lookup
  new_zset-Consistent = record {
    ranked = record { order = tt; numbers = tt; unique = tt };
    represents = new_skip_list-Represents scores;
    in_step = λ m. refl;
  }
