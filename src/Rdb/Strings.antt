-- ===== src/Rdb/Strings.antt =====
-- rdb/rdb.go: lengths and strings, written in each of the format's encodings, are read back.
use tiny_red.Base.{
  ℕ, ◌+◌, ◌-◌, ◌*◌, ◌/◌, ◌%◌, ◌^◌, ◌<◌, ◌≡◌, refl, false, [], ◌∷◌, ◌++◌, arith, Bytes, length, ℤ,
  Fits, unsigned, append_assoc, ◌∙◌,
}
use tiny_red.Strconv.{itoa}
use tiny_red.Resp.Reader.{Reader}
use tiny_red.Rdb.{
  parsed, read_byte, get_two_significant_bits, parse_length, length_of_format, parse_string,
  string_of, special_string, integer_string, big_endian, big_endian_from, parse_length_encoding,
  length_encoding,
}
use tiny_red.Rdb.Words.{
  get_two_significant_bits-div, bit_and_low, le_bytes, be_bytes, length-le_bytes, length-be_bytes,
  little_endian-le_bytes, big_endian-be_bytes, fill_exact, signed-unsigned, unsigned_below,
}

-- The lengths of 6, of 14 and of 32 bits.
pub data LengthFormat : Type 0 where
  six_bits fourteen_bits thirty_two_bits : LengthFormat

unfoldable pub write_length : LengthFormat → ℕ → Bytes
write_length LengthFormat.six_bits n = n ∷ []
write_length LengthFormat.fourteen_bits n = (64 + n / 256) ∷ n % 256 ∷ []
write_length LengthFormat.thirty_two_bits n = 128 ∷ be_bytes 4 n

unfoldable pub length_bound : LengthFormat → ℕ
length_bound LengthFormat.six_bits = 2 ^ 6
length_bound LengthFormat.fourteen_bits = 2 ^ 14
length_bound LengthFormat.thirty_two_bits = 2 ^ 32

sum_of_bytes : (n : ℕ) → big_endian (n / 256 ∷ n % 256 ∷ []) ≡ n
unfolding big_endian big_endian_from
sum_of_bytes n = omega arith

pub parse_length-write_length :
    (format : LengthFormat) (n : ℕ) (r : Reader)
    → n < length_bound format
    → parse_length (write_length format n ++ r) ≡ parsed (false, n, r)
unfolding parse_length write_length length_bound length_of_format read_byte get_two_significant_bits
parse_length-write_length LengthFormat.six_bits n r h =
    let e : n / 64 ≡ 0 = omega arith in
    let f : n % 64 ≡ n = omega arith in
    rw (get_two_significant_bits-div n (omega arith), bit_and_low n (omega arith), e, f) refl
parse_length-write_length LengthFormat.fourteen_bits n r h =
    let q : (64 + n / 256) / 64 ≡ 1 = omega arith in
    let m : (64 + n / 256) % 64 ≡ n / 256 = omega arith in
    rw
      (
        get_two_significant_bits-div (64 + n / 256) (omega arith),
        q,
        length_of_format,
        bit_and_low (64 + n / 256) (omega arith),
        m,
      )
      (rw (sum_of_bytes n) refl)
parse_length-write_length LengthFormat.thirty_two_bits n r h =
    rw (fill_exact (be_bytes 4 n) r 4 (length-be_bytes 4 n)) (rw (big_endian-be_bytes 4 n h) refl)

-- The forms of a string: its bytes behind a length, or a number of 8, 16 or 32 bits.
pub data StringForm : Type 0 where
  plain : LengthFormat → Bytes → StringForm
  int8 int16 int32 : ℤ → StringForm

unfoldable pub write_string : StringForm → Bytes
unfolding write_length
write_string (plain format s) = write_length format (length s) ++ s
write_string (int8 z) = 0xc0 ∷ le_bytes 1 (unsigned (2 ^ 7) z)
write_string (int16 z) = 0xc1 ∷ le_bytes 2 (unsigned (2 ^ 15) z)
write_string (int32 z) = 0xc2 ∷ le_bytes 4 (unsigned (2 ^ 31) z)

-- The string that a form stands for.
unfoldable pub form_text : StringForm → Bytes
form_text (plain format s) = s
form_text (int8 z) = itoa z
form_text (int16 z) = itoa z
form_text (int32 z) = itoa z

unfoldable pub FormFits : StringForm → Type 0
unfolding length_bound
FormFits (plain format s) = length s < length_bound format
FormFits (int8 z) = Fits (2 ^ 7) z
FormFits (int16 z) = Fits (2 ^ 15) z
FormFits (int32 z) = Fits (2 ^ 31) z

integer_string_lem :
    (k : ℕ) (z : ℤ) (r : Reader)
    → Fits (2 ^ (8 * k - 1)) z
    → 2 * 2 ^ (8 * k - 1) ≡ 256 ^ k
    → integer_string k (le_bytes k (unsigned (2 ^ (8 * k - 1)) z) ++ r) ≡ parsed (itoa z, r)
unfolding integer_string
integer_string_lem k z r h e =
    let u = unsigned (2 ^ (8 * k - 1)) z in
    rw (fill_exact (le_bytes k u) r k (length-le_bytes k u)) (
      rw
        (
          little_endian-le_bytes k u (omega (arith, unsigned_below (2 ^ (8 * k - 1)) z h, e)),
          signed-unsigned (2 ^ (8 * k - 1)) z h,
        )
        refl)

int8_lem :
    (z : ℤ) (r : Reader)
    → Fits (2 ^ 7) z
    → special_string 0 (le_bytes 1 (unsigned (2 ^ 7) z) ++ r) ≡ parsed (itoa z, r)
unfolding special_string le_bytes read_byte
int8_lem z r h =
    let e : unsigned (2 ^ 7) z % 256 ≡ unsigned (2 ^ 7) z =
      omega (arith, unsigned_below (2 ^ 7) z h) in
    rw (e, signed-unsigned (2 ^ 7) z h) refl

special_header :
    (r : Reader)
    → (parse_string (0xc0 ∷ r) ≡ special_string 0 r)
      × (parse_string (0xc1 ∷ r) ≡ special_string 1 r)
      × (parse_string (0xc2 ∷ r) ≡ special_string 2 r)
unfolding parse_string parse_length get_two_significant_bits length_of_format string_of read_byte
special_header r = (refl, refl, refl)

-- ParseString reads back a string that is written behind a length of 6, 14 or 32 bits, and a number
-- that is written in 8, 16 or 32 bits as its decimal text, negative ones included, and nothing behind
-- it is used up; the length and the number fit the form.
pub parse_string-write_string :
    (form : StringForm) (r : Reader)
    → FormFits form
    → parse_string (write_string form ++ r) ≡ parsed (form_text form, r)
unfolding parse_string write_string form_text FormFits string_of special_string
parse_string-write_string (plain format s) r h =
    rw (append_assoc, parse_length-write_length format (length s) (s ++ r) h)
      (fill_exact s r (length s) refl)
parse_string-write_string (int8 z) r h =
    (special_header (le_bytes 1 (unsigned (2 ^ 7) z) ++ r)).0 ∙ int8_lem z r h
parse_string-write_string (int16 z) r h =
    (special_header (le_bytes 2 (unsigned (2 ^ 15) z) ++ r)).1 ∙ integer_string_lem 2 z r h refl
parse_string-write_string (int32 z) r h =
    (special_header (le_bytes 4 (unsigned (2 ^ 31) z) ++ r)).2 ∙ integer_string_lem 4 z r h refl

pub parse_length_encoding-write_length :
    (format : LengthFormat) (n : ℕ) (r : Reader)
    → n < length_bound format
    → parse_length_encoding (write_length format n ++ r) ≡ parsed (n, r)
unfolding parse_length_encoding length_encoding
parse_length_encoding-write_length format n r h =
    rw (parse_length-write_length format n r h, parse_length_encoding) refl
