-- ===== src/Server/Commands/Counting.antt =====
-- server/commad_handlers.go: what INCR counts.
use tiny_red.Base.{
  ℕ, ◌≡◌, refl, subst, some-injective, Option, none, some, [], ◌∷◌, arith, Bytes, codes, bytes_eq,
  ℤ, pos, negsuc, ◌+ℤ◌, Fits, wrap_64, if◌then◌else◌,
}
use tiny_red.Strconv.{itoa, atoi, half_64, ◌>>=◌}
use tiny_red.Strconv.RoundTrip.{atoi-itoa}
use tiny_red.Resp.Marshal.{marshal_integer}
use tiny_red.Store.Types.{
  EntryType, string_entry, list_entry, sorted_set_entry, Value, text, elements, sorted, Entry,
}
use tiny_red.Store.Entries
use tiny_red.Store.Entries.{Updated, fails, becomes, Outcome, done, failed}
use tiny_red.Store.Push.{get-set}
use tiny_red.Server.Types.{Server, Reply, replied}
use tiny_red.Server.Commands.Arguments.{with_argument, with_store, not_integer_err}
use tiny_red.Server.Commands.Strings.{number_text, incremented, increment, reply_incr, handle_incr}

wrap_64_lem : (n : ℤ) → Fits half_64 n → wrap_64 n ≡ n
unfolding wrap_64
wrap_64_lem (pos n) h = ground arith
wrap_64_lem (negsuc n) h = ground arith

module _ {Z : Type 0} where
  -- The number that a key counts: a missing key counts 0, and a string that is an int64 counts itself.
  unfoldable pub counter : Option (Entry Z) → Option ℤ
  counter none = some (pos 0)
  counter (some e) = number_text e.entry_type e.value >>= atoi

  number_text-text :
      (t : EntryType) (v : Value Z) (u : Bytes) {w : Bytes}
      → number_text t v ≡ some w
      → number_text {Z = Z} t (text u) ≡ some u
  unfolding number_text
  number_text-text string_entry (text v) u h = refl
  number_text-text string_entry (elements xs) u h = cc
  number_text-text string_entry (sorted z) u h = cc
  number_text-text list_entry v u h = cc
  number_text-text sorted_set_entry v u h = cc

  -- An entry that counts `n`, with the text that spells it.
  abbrev Counts : ℤ → Updated Z Reply Bytes → Type 0
  Counts n r = (e : Entry Z) × ((r ≡ becomes e (itoa n)) × (counter (some e) ≡ some n))

  increment_entry :
      (e : Entry Z) (o : Option Bytes) {n : ℤ}
      → number_text e.entry_type e.value ≡ o
      → (o >>= atoi) ≡ some n
      → Fits half_64 (n +ℤ pos 1)
      → Counts (n +ℤ pos 1) (increment (some e))
  unfolding increment incremented counter
  increment_entry e none h k fits = cc
  increment_entry e (some v) {n} h k fits = (
    record e { value = text (itoa (n +ℤ pos 1)) },
    (
      rw (h, increment, k, wrap_64_lem (n +ℤ pos 1) fits) refl,
      rw (number_text-text e.entry_type e.value (itoa (n +ℤ pos 1)) h)
          (atoi-itoa (n +ℤ pos 1) fits),
    ),
  )

  one : Counts (pos 1) (increment none)
  unfolding increment counter number_text itoa
  one = (
    record { entry_type = string_entry; value = text (codes "1"); expire_at = none },
    (refl, atoi-itoa (pos 1) (omega arith, omega arith)),
  )

  entry_fails :
      (e : Entry Z) (o : Option Bytes)
      → number_text e.entry_type e.value ≡ o
      → (o >>= atoi) ≡ none
      → increment (some e) ≡ fails not_integer_err
  unfolding increment incremented
  entry_fails e none h k = rw (h, increment) refl
  entry_fails e (some v) h k = rw (h, increment, k) refl

  increment_lem :
      (o : Option (Entry Z)) {n : ℤ}
      → counter o ≡ some n
      → Fits half_64 (n +ℤ pos 1)
      → Counts (n +ℤ pos 1) (increment o)
  unfolding counter
  increment_lem none {n} h fits =
      subst (λ m. Counts (m +ℤ pos 1) (increment none)) (some-injective (pos 0) n h) one
  increment_lem (some e) h fits = increment_entry e (number_text e.entry_type e.value) refl h fits

  increment_fails : (o : Option (Entry Z)) → counter o ≡ none → increment o ≡ fails not_integer_err
  unfolding counter
  increment_fails none h = cc
  increment_fails (some e) h = entry_fails e (number_text e.entry_type e.value) refl h

  -- INCR at a key that counts n, where n + 1 is an int64: the reply is n + 1, the key counts n + 1
  -- from then on, and every other key counts what it did.
  pub handle_incr_lem :
      (command key j : Bytes) (c : ℕ) (s : Server Z) {n : ℤ}
      → counter (Entries.get key s.store) ≡ some n
      → Fits half_64 (n +ℤ pos 1)
      → let r = handle_incr (record { command = command; arguments = key ∷ [] }) c s in
        (r.0 ≡ replied (marshal_integer (n +ℤ pos 1)))
        × (counter (Entries.get j r.1.store)
            ≡ (if bytes_eq key j then some (n +ℤ pos 1) else counter (Entries.get j s.store)))
  unfolding handle_incr with_argument with_store Entries.update
  handle_incr_lem command key j c s {n} h fits =
      let (e, (is, counts)) = increment_lem (Entries.get key s.store) h fits in
      (
        rw (is, reply_incr, atoi-itoa (n +ℤ pos 1) fits) refl,
        rw (is, get-set) (ground (arith, counts)),
      )

  -- INCR at a key that counts nothing replies the error that the value is not an integer and changes
  -- nothing.
  pub handle_incr_refuses :
      (command key : Bytes) (c : ℕ) (s : Server Z)
      → counter (Entries.get key s.store) ≡ none
      → handle_incr (record { command = command; arguments = key ∷ [] }) c s ≡ (not_integer_err, s)
  unfolding handle_incr with_argument with_store Entries.update reply_incr
  handle_incr_refuses command key c s h = rw (increment_fails (Entries.get key s.store) h) refl
