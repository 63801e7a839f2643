-- ===== src/Strconv.antt =====
-- `strconv.Itoa`, `strconv.Atoi` and `strconv.ParseInt` of Go's standard library, in base ten, as
-- resp/resp.go and the command handlers call them.
pub mod RoundTrip
use tiny_red.Base.{
  ℕ, zero, suc, ◌+◌, ◌-◌, ◌*◌, ◌/◌, ◌%◌, ◌^◌, ◌≡◌, refl, ◌&&◌, Option, none, some, [], ◌∷◌, Bytes,
  codes, ℤ, pos, negsuc, leb, ◌==◌, if◌then◌else◌,
}

infixl 5 ◌>>=◌
abbrev pub ◌>>=◌ {ℓ κ} : {A : Type ℓ} {B : Type κ} → Option A → (A → Option B) → Option B
none >>= f = none
some a >>= f = f a

-- The digits of `n` in front of `out`. Each round divides by ten, so `n` rounds are enough.
digits : ℕ → ℕ → Bytes → Bytes
digits zero n out = out
digits (suc f) n out =
    let more = digits f (n / 10) ((b'0' + n % 10) ∷ out) in if n == 0 then out else more

unfoldable pub format_uint : ℕ → Bytes
unfolding digits
format_uint n = if n == 0 then b'0' ∷ [] else digits n n []

unfoldable pub itoa : ℤ → Bytes
unfolding format_uint
itoa (pos n) = format_uint n
itoa (negsuc n) = b'-' ∷ format_uint (suc n)

-- The number that `s` spells behind `n`; `none` at a byte that is no digit.
scan : Bytes → ℕ → Option ℕ
scan [] n = some n
scan (c ∷ s) n = if leb b'0' c && leb c b'9' then scan s (n * 10 + (c - b'0')) else none

unfoldable pub parse_uint : Bytes → Option ℕ
unfolding scan
parse_uint [] = none
parse_uint (c ∷ s) = scan (c ∷ s) 0

-- `half` is 2 to the width less one. The result is in range, or there is an error.
non_negative : ℕ → ℕ → Option ℤ
non_negative half n = if leb half n then none else some (pos n)

negative : ℕ → ℕ → Option ℤ
negative half zero = some (pos 0)
negative half (suc n) = if leb half n then none else some (negsuc n)

unfoldable pub parse_int : ℕ → Bytes → Option ℤ
unfolding non_negative negative
parse_int half [] = none
parse_int half (c ∷ s) =
    if c == b'-'
    then (do n ← parse_uint s; negative half n)
    else if c == b'+'
    then (do n ← parse_uint s; non_negative half n)
    else do n ← parse_uint (c ∷ s); non_negative half n

abbrev pub half_32 : ℕ
half_32 = 2 ^ 31

abbrev pub half_64 : ℕ
half_64 = 2 ^ 63

unfoldable pub atoi : Bytes → Option ℤ
unfolding parse_int
atoi s = parse_int half_64 s

atoi-minimum : atoi (codes "-9223372036854775808") ≡ some (negsuc 9223372036854775807)
unfolding atoi parse_uint
atoi-minimum = refl

atoi-overflow : atoi (codes "9223372036854775808") ≡ none
unfolding atoi parse_uint
atoi-overflow = refl

itoa-minimum : itoa (negsuc 9223372036854775807) ≡ codes "-9223372036854775808"
unfolding itoa
itoa-minimum = refl
