-- ===== src/Server/Commands/Ranges.antt =====
-- server/commad_handlers.go: which elements LRANGE returns.
use tiny_red.Base.{
  ℕ, zero, suc, ◌+◌, ◌-◌, ◌≤◌, ◌≡◌, refl, ap, true, false, some, List, [], ◌∷◌, arith, Bytes,
  length, take, drop, length-drop, take_beyond, drop_all, ℤ, pos, negsuc, Fits, ltb, leb_ℤ,
  if◌then◌else◌, Bool-cases, inl, inr,
}
use tiny_red.Strconv.{itoa, half_64}
use tiny_red.Strconv.RoundTrip.{atoi-itoa}
use tiny_red.Store.Types.{list_entry, elements, Entry}
use tiny_red.Store.Entries
use tiny_red.Server.Types.{Server, Reply, replied}
use tiny_red.Server.Commands.Arguments.{with_argument, with_store, bulk_array}
use tiny_red.Server.Commands.Lists.{
  normalize_index, elements_between, range_reply, range_of, range_entry, range_bounds, as_list,
  value_as_list, handle_lrange,
}

-- The position that an index of LRANGE names in a list of `n` elements: a negative one counts from the
-- end, and one before the beginning is the beginning.
unfoldable pub position : ℤ → ℕ → ℕ
position (pos a) n = a
position (negsuc a) n = n - suc a

-- The elements from one index up to and with another.
unfoldable pub between : ℤ → ℤ → List Bytes → List Bytes
between start end xs =
    let first = position start (length xs) in
    take (suc (position end (length xs)) - first) (drop first xs)

take-empty : (n : ℕ) → take n [] ≡ (let r : List Bytes = [] in r)
take-empty zero = refl
take-empty (suc n) = refl

normalize_index_lem :
    (i : ℤ) (n : ℕ)
    → normalize_index i (suc n) ≡ pos (if ltb n (position i (suc n)) then n else position i (suc n))
unfolding normalize_index position
normalize_index_lem (pos a) n = ground arith
normalize_index_lem (negsuc a) n = ground arith

abbrev listed : List Bytes → Reply
listed xs = replied (bulk_array xs)

at_most : ℕ → ℕ → ℕ
at_most n a = if ltb n a then n else a

nothing_left : (q p : ℕ) → ltb q p ≡ true → suc q - p ≡ 0
nothing_left q p h = ground arith

starts_behind : (i : ℤ) (n : ℕ) → leb_ℤ (pos (suc n)) i ≡ true → suc n ≤ position i (suc n)
unfolding position
starts_behind (pos a) n h = ground arith
starts_behind (negsuc a) n h = ground arith

starts_within : (i : ℤ) (n : ℕ) → leb_ℤ (pos (suc n)) i ≡ false → position i (suc n) ≤ n
unfolding position
starts_within (pos a) n h = ground arith
starts_within (negsuc a) n h = ground arith

-- The end of the range is cut to the last element.
cut_end :
    (p q : ℕ) (x : Bytes) (xs : List Bytes)
    → p ≤ length xs
    → (if ltb (at_most (length xs) q) p
        then listed []
        else listed (take (at_most (length xs) q + 1 - p) (drop p (x ∷ xs))))
      ≡ listed (take (suc q - p) (drop p (x ∷ xs)))
unfolding at_most
cut_end p q x xs h =
    let above_last : ltb (length xs) p ≡ false = ground arith in
    elim (Bool-cases (ltb (length xs) q)) [
      | inl beyond ↦
          rw (beyond, above_last)
            (ap listed
              (take_beyond _ _ _ (rw length-drop (omega arith)) (rw length-drop (ground arith))))
      | inr within ↦ rw within (elim (Bool-cases (ltb q p)) [
        | inl before ↦ rw (before, nothing_left q p before) refl
        | inr y ↦ rw y (ap (λ n. listed (take n (drop p (x ∷ xs)))) (omega arith))
      ])
    ]

add_zero : (n : ℕ) → n + 0 ≡ n
add_zero n = omega arith

range_within :
    (start end : ℤ) (x : Bytes) (xs : List Bytes)
    → leb_ℤ (pos (suc (length xs))) start ≡ false
    → range_reply start end (x ∷ xs) ≡ listed (between start end (x ∷ xs))
unfolding range_reply between elements_between at_most
range_within start end x xs h =
    let p = position start (suc (length xs)) in
    let within = starts_within start (length xs) h in
    let same : ltb (length xs) p ≡ false = ground arith in
    rw (normalize_index_lem, normalize_index_lem, h, same, add_zero, add_zero)
      (cut_end p (position end (suc (length xs))) x xs within)

range_behind :
    (start end : ℤ) (x : Bytes) (xs : List Bytes)
    → leb_ℤ (pos (suc (length xs))) start ≡ true
    → range_reply start end (x ∷ xs) ≡ listed (between start end (x ∷ xs))
unfolding range_reply between
range_behind start end x xs h =
    rw
      (
        h,
        drop_all (position start (suc (length xs))) (x ∷ xs) (starts_behind start (length xs) h),
        take-empty,
      )
      refl

range_reply_lem :
    (start end : ℤ) (x : Bytes) (xs : List Bytes)
    → range_reply start end (x ∷ xs) ≡ listed (between start end (x ∷ xs))
range_reply_lem start end x xs = elim (Bool-cases (leb_ℤ (pos (suc (length xs))) start)) [
  | inl behind ↦ range_behind start end x xs behind
  | inr within ↦ range_within start end x xs within
]

-- LRANGE with two int64 bounds on an entry of the list type whose list is not empty replies the
-- elements between the positions that the bounds name, both included, in order, and changes nothing.
pub handle_lrange_lem :
    {Z : Type 0} (command key x : Bytes) (xs : List Bytes) (start end : ℤ) (c : ℕ) (s : Server Z)
    {e : Entry Z}
    → Fits half_64 start
    → Fits half_64 end
    → Entries.get key s.store ≡ some e
    → e.entry_type ≡ list_entry
    → e.value ≡ elements (x ∷ xs)
    → handle_lrange (record { command = command; arguments = key ∷ itoa start ∷ itoa end ∷ [] }) c s
      ≡ (replied (bulk_array (between start end (x ∷ xs))), s)
unfolding handle_lrange range_bounds range_entry as_list value_as_list range_of with_argument
    with_store
handle_lrange_lem command key x xs start end c s a b known list_ values =
    simp (atoi-itoa start a, atoi-itoa end b, known, list_, values, range_reply_lem start end x xs)
