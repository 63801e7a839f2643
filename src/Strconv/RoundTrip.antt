-- ===== src/Strconv/RoundTrip.antt =====
-- What is printed in decimal is read back.
use tiny_red.Base.{
  ℕ, zero, suc, ◌+◌, ◌/◌, ◌%◌, ◌≤◌, ◌<◌, ◌≡◌, ◌≢◌, refl, some, [], ◌∷◌, arith, Bytes, All, ℤ, pos,
  negsuc, Fits,
}
use tiny_red.Strconv.{digits, format_uint, itoa, scan, parse_uint, parse_int, atoi, half_64}

abbrev pub IsDigit : ℕ → Type 0
IsDigit c = (b'0' ≤ c) × (c ≤ b'9')

scan_last : (n : ℕ) (out : Bytes) → scan ((b'0' + n % 10) ∷ out) (n / 10) ≡ scan out n
unfolding scan
scan_last n out = ground arith

scan-digits : (f n : ℕ) (out : Bytes) → n ≤ f → scan (digits f n out) 0 ≡ scan out n
unfolding digits
scan-digits zero n out h = ground arith
scan-digits (suc f) n out h =
    ground (arith, scan-digits f (n / 10) ((b'0' + n % 10) ∷ out), scan_last n out)

digits-All : (f n : ℕ) (out : Bytes) → All IsDigit out → All IsDigit (digits f n out)
unfolding digits
digits-All zero n out h = h
digits-All (suc f) n out h = ground (arith, digits-All f (n / 10) ((b'0' + n % 10) ∷ out))

pub format_uint-All : (n : ℕ) → All IsDigit (format_uint n)
unfolding format_uint
format_uint-All n = ground (arith, digits-All n n [] tt)

digits-ne-nil : (f n : ℕ) (out : Bytes) → out ≢ [] → digits f n out ≢ []
unfolding digits
digits-ne-nil zero n out h = h
digits-ne-nil (suc f) n out h = ground (arith, digits-ne-nil f (n / 10) ((b'0' + n % 10) ∷ out))

digits_pos-ne-nil : (f n : ℕ) → 0 < n → n ≤ f → digits f n [] ≢ []
unfolding digits
digits_pos-ne-nil zero n p h = absurd (omega arith)
digits_pos-ne-nil (suc f) n p h = ground (arith, digits-ne-nil f (n / 10) ((b'0' + n % 10) ∷ []))

pub format_uint-ne-nil : (n : ℕ) → format_uint n ≢ []
unfolding format_uint
format_uint-ne-nil n = ground (arith, digits_pos-ne-nil n n)

parse_uint-scan : (s : Bytes) → s ≢ [] → parse_uint s ≡ scan s 0
unfolding parse_uint
parse_uint-scan [] h = absurd (h refl)
parse_uint-scan (c ∷ s) _ = refl

pub parse_uint-format_uint : (n : ℕ) → parse_uint (format_uint n) ≡ some n
parse_uint-format_uint n =
    rw (parse_uint-scan _ (format_uint-ne-nil n))
      (unfold format_uint scan in ground (arith, scan-digits n n []))

-- A text of digits carries no sign.
parse_int-digits :
    (half n : ℕ) (s : Bytes)
    → All IsDigit s
    → parse_uint s ≡ some n
    → n < half
    → parse_int half s ≡ some (pos n)
unfolding parse_int
parse_int-digits half n [] d h lt = unfold parse_uint in cc h
parse_int-digits half n (c ∷ s) d h lt = ground arith

pub parse_int-itoa : (half : ℕ) (a : ℤ) → Fits half a → parse_int half (itoa a) ≡ some a
unfolding itoa
parse_int-itoa half (pos n) h =
    parse_int-digits half n _ (format_uint-All n) (parse_uint-format_uint n) (omega arith)
parse_int-itoa half (negsuc n) h =
    unfold parse_int in ground (arith, parse_uint-format_uint (suc n))

pub atoi-itoa : (a : ℤ) → Fits half_64 a → atoi (itoa a) ≡ some a
unfolding atoi
atoi-itoa a h = parse_int-itoa half_64 a h

-- What is parsed is in the range of the width.
pub parse_int-Fits :
    (half : ℕ) (s : Bytes) {a : ℤ} → 0 < half → parse_int half s ≡ some a → Fits half a
unfolding parse_int
parse_int-Fits half [] p h = cc
parse_int-Fits half (c ∷ s) p h = ground arith

All-map : (P Q : ℕ → Type 0) → ((c : ℕ) → P c → Q c) → (s : Bytes) → All P s → All Q s
All-map P Q f [] h = tt
All-map P Q f (c ∷ s) (h, hs) = (f c h, All-map P Q f s hs)

-- A printed integer is made of digits and a minus sign.
pub itoa-All : (P : ℕ → Type 0) → P b'-' → ((c : ℕ) → IsDigit c → P c) → (a : ℤ) → All P (itoa a)
unfolding itoa
itoa-All P m d (pos n) = All-map IsDigit P d _ (format_uint-All n)
itoa-All P m d (negsuc n) = (m, All-map IsDigit P d _ (format_uint-All (suc n)))
