-- ===== src/Rdb/Rounds.antt =====
-- rdb/rdb.go: the loop of `Load` comes to its end.
use tiny_red.Base.{ℕ, zero, suc, ◌≤◌, ◌<◌, ◌≡◌, refl, Option, none, some, [], ◌∷◌, arith, length, ℤ}
use tiny_red.Resp.Types.{eof}
use tiny_red.Resp.Reader.{Reader}
use tiny_red.Store.Types.{Store}
use tiny_red.Rdb.{RdbError, io, Parsed, parsed, failed, read_byte}
use tiny_red.Rdb.Loader.{Loading, loading_ends, load_header, load_round, load_records, load}
use tiny_red.Rdb.Within.{Within, after, load_round-Within, within_rules}

module _ {Z : Type 0} where
  -- What one round comes to, with `n` rounds behind it.
  next_round : ℤ → ℕ → Parsed (Option (Reader × Store Z)) → Store Z → Loading Z
  next_round now n (failed e) s = loading_ends (some e) s
  next_round now n (parsed none) s = loading_ends none s
  next_round now n (parsed (some (r, t))) s = load_records now n r t

  next_round_lem :
      (now : ℤ) (n : ℕ) (p : Parsed (Option (Reader × Store Z))) (s : Store Z)
      → elim p [
        | failed e ↦ loading_ends (some e) s
        | parsed none ↦ loading_ends none s
        | parsed (some (rest, t)) ↦ load_records now n rest t
      ]
        ≡ next_round now n p s
  unfolding next_round
  next_round_lem now n (failed e) s = refl
  next_round_lem now n (parsed none) s = refl
  next_round_lem now n (parsed (some (r, t))) s = refl

  load_records-round :
      (now : ℤ) (n : ℕ) (r : Reader) (s : Store Z)
      → load_records now (suc n) r s ≡ next_round now n (load_round now r s) s
  unfolding load_records
  load_records-round now n r s = next_round_lem now n (load_round now r s) s

  -- Two loads come to the same end.
  abbrev pub EndSame : Loading Z → Loading Z → Type 0
  EndSame x y =
      (e : Option RdbError) × (t : Store Z) × (x ≡ loading_ends e t) × (y ≡ loading_ends e t)

  next_round-EndSame :
      (now : ℤ) (k n m : ℕ) (p : Parsed (Option (Reader × Store Z))) (s : Store Z)
      → Within after k p
      → ((r : Reader) (t : Store Z)
          → length r ≤ k
          → EndSame (load_records now n r t) (load_records now m r t))
      → EndSame (next_round now n p s) (next_round now m p s)
  unfolding next_round Within after
  next_round-EndSame now k n m (failed e) s h ih = (some e, s, refl, refl)
  next_round-EndSame now k n m (parsed none) s h ih = (none, s, refl, refl)
  next_round-EndSame now k n m (parsed (some (r, t))) s h ih = ih r t h

  load_records-EndSame :
      (now : ℤ) (n m : ℕ) (r : Reader) (s : Store Z)
      → length r < n
      → n ≤ m
      → EndSame (load_records now n r s) (load_records now m r s)
  unfolding load_round read_byte next_round
  load_records-EndSame now zero m r s h k = absurd (omega arith)
  load_records-EndSame now (suc n) zero r s h k = absurd (omega arith)
  load_records-EndSame now (suc zero) (suc m) [] s h k =
      (some (io eof), s, load_records-round now 0 [] s, load_records-round now m [] s)
  load_records-EndSame now (suc zero) (suc m) (b ∷ r) s h k = absurd (omega arith)
  load_records-EndSame now (suc (suc n)) (suc m) r s h k =
      rw (load_records-round now (suc n) r s, load_records-round now m r s)
        (next_round-EndSame now n (suc n) m (load_round now r s) s
          (load_round-Within now n r s (omega arith))
          (λ t u l. load_records-EndSame now (suc n) m t u (omega arith) (omega arith)))

load_header-Within : (n : ℕ) (r : Reader) → length r ≤ n → Within (λ t. t) n (load_header r)
unfolding load_header
load_header-Within n r h = search within_rules

header-EndSame :
    {Z : Type 0} (now : ℤ) (k n m : ℕ) (p : Parsed Reader) (s : Store Z)
    → Within (λ t. t) k p
    → k < n
    → n ≤ m
    → EndSame
        (elim p [ failed e ↦ loading_ends (some e) s | parsed r ↦ load_records now n r s ])
        (elim p [ failed e ↦ loading_ends (some e) s | parsed r ↦ load_records now m r s ])
unfolding Within
header-EndSame now k n m (failed e) s h l b = (some e, s, refl, refl)
header-EndSame now k n m (parsed r) s h l b = load_records-EndSame now n m r s (omega arith) b

-- Load comes to its end on every file, damaged ones included: with more rounds than the file has bytes
-- it returns, with an error or none, and further rounds change neither that nor the store.
pub load-EndSame :
    {Z : Type 0} (now : ℤ) (n m : ℕ) (r : Reader) (s : Store Z)
    → length r < n
    → n ≤ m
    → (e : Option RdbError) × (t : Store Z) × (load now n (some r) s ≡ loading_ends e t)
      × (load now m (some r) s ≡ loading_ends e t)
unfolding load
load-EndSame now n m r s h k =
    header-EndSame now (length r) n m (load_header r) s
      (load_header-Within (length r) r (omega arith)) h k
