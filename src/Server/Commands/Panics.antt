-- ===== src/Server/Commands/Panics.antt =====
-- server/commad_handlers.go: requests on which a handler indexes out of range.
use tiny_red.Base.{
  ℕ, suc, ◌≤◌, ◌<◌, ◌≡◌, refl, sym, ◌∙◌, Option, none, some, List, [], ◌∷◌, ◌++◌, arith, Bytes,
  to_lower, length, drop_all, ℤ, pos, negsuc, Fits, ◌≢◌, bytes_eq_refl, ◌+ℤ◌, leb_ℤ, false, scale,
  wrap_64, Option-cases, inl, inr,
}
use tiny_red.Strconv.{itoa, atoi, half_64}
use tiny_red.Strconv.RoundTrip.{atoi-itoa}
use tiny_red.Store.Types.{list_entry, elements, Entry}
use tiny_red.Store.Entries
use tiny_red.Store.Push.{get-set}
use tiny_red.Server.Types.{Server, panics}
use tiny_red.Server.Commands.Arguments.{with_argument, with_store}
use tiny_red.Server.Commands.Strings.{
  expires, refused, unit, set_options, set_entry, set_arguments, handle_set,
}
use tiny_red.Server.Commands.Lists.{
  normalize_index, elements_between, range_reply, range_of, range_entry, range_bounds, as_list,
  value_as_list, handle_lrange, pop_count, pop_arguments, handle_lpop,
}
use tiny_red.Server.Commands.Popping.{update_lem}

-- An option and its argument that are accepted leave the rest to the loop.
option_step :
    (o a : Bytes) (options : List Bytes) (now : ℤ) (before : Option ℤ) {t : Option ℤ}
    → set_options now before (o ∷ a ∷ options) ≡ expires t
    → (next : Option ℤ) × ((rest : List Bytes)
        → set_options now before (o ∷ a ∷ rest) ≡ set_options now next rest)
unfolding set_options
option_step o a options now before = elim (Option-cases (unit (to_lower o))) [
  | inl e ↦ rw (e, set_options) (λ k. cc)
  | inr (u, e) ↦ elim (Option-cases (atoi a)) [
    | inl f ↦ rw (e, set_options, f) (λ k. cc)
    | inr (n, f) ↦ rw (e, set_options, f) (λ k. (some (now +ℤ wrap_64 (scale u n)), λ rest. refl))
  ]
]

lone_option :
    (o : Bytes) (now : ℤ) (before : Option ℤ) {t : Option ℤ}
    → set_options now before (o ∷ []) ≢ expires t
unfolding set_options
lone_option o now before = elim (Option-cases (unit (to_lower o))) [
  | inl e ↦ rw (e, set_options) (λ k. cc)
  | inr (u, e) ↦ rw (e, set_options) (λ k. cc)
]

last_option :
    (options : List Bytes) (option : Bytes) (now : ℤ) (before : Option ℤ) {t : Option ℤ} {u : ℕ}
    → unit (to_lower option) ≡ some u
    → set_options now before options ≡ expires t
    → set_options now before (options ++ option ∷ []) ≡ refused panics
last_option [] option now before h k = unfold set_options in rw (h, set_options) refl
last_option (o ∷ []) option now before h k = elim (lone_option o now before k) [ ]
last_option (o ∷ a ∷ options) option now before h k =
    let (next, step) = option_step o a options now before k in
    step (options ++ option ∷ []) ∙ last_option options option now next h (sym (step options) ∙ k)

below_one : (i : ℤ) → normalize_index i 0 ≡ negsuc 0
unfolding normalize_index
below_one (pos a) = ground arith
below_one (negsuc a) = ground arith

starts_before : (a : ℕ) → leb_ℤ (pos 0) (negsuc a) ≡ false
starts_before a = ground arith

empty_range : (a : ℕ) (end : ℤ) → range_reply (negsuc a) end [] ≡ panics
unfolding range_reply elements_between
empty_range a end = rw (below_one (negsuc a), below_one end, starts_before a) refl

module _ {Z : Type 0} where
  -- SET whose options are accepted, with PX or EX once more behind them and no number, panics and
  -- changes nothing.
  pub set_panics :
      (command key value option : Bytes) (options : List Bytes) (c : ℕ) (s : Server Z)
      {t : Option ℤ} {u : ℕ}
      → unit (to_lower option) ≡ some u
      → set_options s.now none options ≡ expires t
      → handle_set
          (record { command = command; arguments = key ∷ value ∷ (options ++ option ∷ []) })
          c
          s
        ≡ (panics, s)
  unfolding handle_set set_arguments set_entry with_store
  set_panics command key value option options c s h k =
      rw (last_option options option s.now none h k) refl

  -- A list of the list type that LPOP has emptied, with an int64 count of at least its length, stays
  -- under its key, and LRANGE on it with two int64 bounds of which the first is negative panics.
  pub emptied_list_panics :
      (command key x : Bytes) (xs : List Bytes) (n a c d : ℕ) (end : ℤ) (s : Server Z) {e : Entry Z}
      → suc n < half_64
      → length xs ≤ n
      → Fits half_64 (negsuc a)
      → Fits half_64 end
      → Entries.get key s.store ≡ some e
      → e.entry_type ≡ list_entry
      → e.value ≡ elements (x ∷ xs)
      → let t =
          (handle_lpop
            (record { command = command; arguments = key ∷ itoa (pos (suc n)) ∷ [] })
            c
            s).1 in
        (handle_lrange
          (record { command = command; arguments = key ∷ itoa (negsuc a) ∷ itoa end ∷ [] })
          d
          t).0
        ≡ panics
  unfolding handle_lpop pop_arguments pop_count handle_lrange range_bounds range_entry as_list
      value_as_list range_of with_argument with_store
  emptied_list_panics command key x xs n a c d end s fits all start end_ known list_ values =
      rw
        (
          atoi-itoa (pos (suc n)) (omega arith, fits),
          update_lem (suc n) key s.store x xs known values,
          atoi-itoa (negsuc a) start,
          atoi-itoa end end_,
          get-set,
        )
        (rw (drop_all (suc n) (x ∷ xs) (omega arith))
          (rw (bytes_eq_refl key, list_) (empty_range a end)))
