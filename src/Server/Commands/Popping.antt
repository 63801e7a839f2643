-- ===== src/Server/Commands/Popping.antt =====
-- server/commad_handlers.go: what LPOP replies and what it leaves.
use tiny_red.Base.{
  ℕ, suc, ◌<◌, ◌≡◌, refl, sym, ◌∙◌, some, List, [], ◌∷◌, arith, Bytes, bytes_eq, length, take, drop,
  take_beyond, drop_all, Bool-cases, inl, inr, pos, ltb, if◌then◌else◌,
}
use tiny_red.Store.Types.{elements, Entry, Store}
use tiny_red.Store.Entries
use tiny_red.Store.Entries.{Updated, becomes, Outcome, done}
use tiny_red.Store.Push.{elements_at, elements_at-set}
use tiny_red.Strconv.{itoa, half_64}
use tiny_red.Strconv.RoundTrip.{atoi-itoa}
use tiny_red.Resp.Marshal.{marshal_bulk_string}
use tiny_red.Server.Types.{Server, replied}
use tiny_red.Server.Commands.Arguments.{with_store, bulk_array}
use tiny_red.Server.Commands.Lists.{
  pop_update, pop_elements, pop_of, pop_count, pop_arguments, popped_reply, handle_lpop,
}

cut_count :
    (n : ℕ) (xs : List Bytes)
    → (take (if ltb (length xs) n then length xs else n) xs ≡ take n xs)
      × (drop (if ltb (length xs) n then length xs else n) xs ≡ drop n xs)
cut_count n xs = elim (Bool-cases (ltb (length xs) n)) [
  | inl more ↦ rw more (
    take_beyond _ _ xs (omega arith) (ground arith),
    drop_all _ xs (omega arith) ∙ sym (drop_all n xs (ground arith)),
  )
  | inr fewer ↦ rw fewer (refl, refl)
]

module _ {Z : Type 0} where
  pop_update_lem :
      (n : ℕ) (e : Entry Z) (x : Bytes) (xs : List Bytes)
      → e.value ≡ elements (x ∷ xs)
      → pop_update (pos n) (some e)
        ≡ becomes (record e { value = elements (drop n (x ∷ xs)) }) (take n (x ∷ xs))
  unfolding pop_update pop_of pop_elements
  pop_update_lem n e x xs h = simp (h, (cut_count n (x ∷ xs)).0, (cut_count n (x ∷ xs)).1)

  pub update_lem :
      (n : ℕ) (key : Bytes) (s : Store Z) (x : Bytes) (xs : List Bytes) {e : Entry Z}
      → Entries.get key s ≡ some e
      → e.value ≡ elements (x ∷ xs)
      → Entries.update key (pop_update (pos n)) s ≡ (
        done (take n (x ∷ xs)),
        Entries.set key (record e { value = elements (drop n (x ∷ xs)) }) s,
      )
  unfolding Entries.update
  update_lem n key s x xs {e} known h = rw (known, pop_update_lem n e x xs h) refl

  -- LPOP on a list that is not empty, without a count and with a positive int64 count: the reply is
  -- the first element, or an array of the first elements, at most as many as there are; the list keeps
  -- the others; and no other key's list changes.
  pub handle_lpop_lem :
      (command key x j : Bytes) (xs : List Bytes) (n c : ℕ) (s : Server Z) {e : Entry Z}
      → suc n < half_64
      → Entries.get key s.store ≡ some e
      → e.value ≡ elements (x ∷ xs)
      → let alone = handle_lpop (record { command = command; arguments = key ∷ [] }) c s in
        let counted =
          handle_lpop
            (record { command = command; arguments = key ∷ itoa (pos (suc n)) ∷ [] })
            c
            s in
        ((alone.0 ≡ replied (marshal_bulk_string x))
          × (elements_at j alone.1.store ≡ (if bytes_eq key j then xs else elements_at j s.store)))
        × ((counted.0 ≡ replied (bulk_array (take (suc n) (x ∷ xs))))
            × (elements_at j counted.1.store
                ≡ (if bytes_eq key j then drop (suc n) (x ∷ xs) else elements_at j s.store)))
  unfolding handle_lpop pop_arguments pop_count with_store popped_reply
  handle_lpop_lem command key x j xs n c s fits known h = (
    (
      rw (update_lem 1 key s.store x xs known h) refl,
      rw (update_lem 1 key s.store x xs known h, elements_at-set) refl,
    ),
    (
      rw (atoi-itoa (pos (suc n)) (omega arith, fits), update_lem (suc n) key s.store x xs known h)
          refl,
      rw
          (
            atoi-itoa (pos (suc n)) (omega arith, fits),
            update_lem (suc n) key s.store x xs known h,
            elements_at-set,
          )
          refl,
    ),
  )
