-- ===== src/Rdb.antt =====
-- rdb/rdb.go: the parts of the binary format, from the reader, as `Load` uses them.
pub mod Loader
pub mod Words
pub mod Strings
pub mod Format
pub mod Records
pub mod Within
pub mod Rounds
use Prim.Native.Nat.{bit_and}
use tiny_red.Base.{
  ℕ, ◌+◌, ◌-◌, ◌*◌, ◌/◌, ◌%◌, ◌^◌, Bool, true, false, Option, none, some, List, [], ◌∷◌, Bytes, ℤ,
  pos, negsuc, ◌+ℤ◌, scale, signed, signed_64, ◌==◌, if◌then◌else◌,
}
use tiny_red.Resp.Types.{IoError, eof, unexpected_eof}
use tiny_red.Resp.Reader.{Reader, read_full}
use tiny_red.Strconv.{itoa}

-- The errors of the parser, one constructor for each text.
pub data RdbError : Type 0 where
  io : IoError → RdbError
  invalid_magic invalid_length_encoding lzf_string invalid_string_header special_length : RdbError
  unknown_expire_unit unsupported_value_type unknown_value_type : RdbError

pub data Parsed {ℓ} (A : Type ℓ) : Type ℓ where
  parsed : A → Parsed A
  failed : RdbError → Parsed A

infixl 5 ◌>>=◌
abbrev pub ◌>>=◌ {ℓ κ} : {A : Type ℓ} {B : Type κ} → Parsed A → (A → Parsed B) → Parsed B
parsed a >>= f = f a
failed e >>= f = failed e

-- reader.ReadByte()
unfoldable pub read_byte : Reader → Parsed (ℕ × Reader)
read_byte [] = failed (io eof)
read_byte (b ∷ r) = parsed (b, r)

-- io.ReadFull(reader, buf) with a buffer of n bytes, at least one: no byte is io.EOF, fewer than n
-- are io.ErrUnexpectedEOF.
short_read : Reader → RdbError
short_read [] = io eof
short_read (b ∷ r) = io unexpected_eof

unfoldable pub fill : ℕ → Reader → Parsed (Bytes × Reader)
unfolding short_read
fill n r = elim (read_full n r) [ none ↦ failed (short_read r) | some buffer ↦ parsed buffer ]

-- binary.BigEndian.Uint16 and Uint32, and binary.LittleEndian.Uint16, Uint32 and Uint64, of a buffer
-- of the size.
unfoldable pub big_endian_from : ℕ → Bytes → ℕ
big_endian_from n [] = n
big_endian_from n (b ∷ bs) = big_endian_from (n * 256 + b) bs

unfoldable pub big_endian : Bytes → ℕ
unfolding big_endian_from
big_endian bs = big_endian_from 0 bs

unfoldable pub little_endian : Bytes → ℕ
little_endian [] = 0
little_endian (b ∷ bs) = b + 256 * little_endian bs

-- bits & 0xC0 >> 6
unfoldable pub get_two_significant_bits : ℕ → ℕ
get_two_significant_bits bits = bit_and bits 0xc0 / 2 ^ 6

abbrev pub len_enc_6bit : ℕ
len_enc_6bit = 0

abbrev pub len_enc_14bit : ℕ
len_enc_14bit = 1

abbrev pub len_enc_32bit : ℕ
len_enc_32bit = 2

abbrev pub len_enc_special : ℕ
len_enc_special = 3

-- The switch of `parseLength` behind its first byte.
unfoldable pub length_of_format : ℕ → ℕ → Reader → Parsed (Bool × ℕ × Reader)
length_of_format format bits r =
    if format == len_enc_6bit
    then parsed (false, bit_and bits 0x3f, r)
    else if format == len_enc_14bit
    then (do
      (second, r) ← read_byte r
      parsed (false, big_endian (bit_and bits 0x3f ∷ second ∷ []), r))
    else if format == len_enc_32bit
    then (do (buffer, r) ← fill 4 r; parsed (false, big_endian buffer, r))
    else if format == len_enc_special
    then parsed (true, bit_and bits 0x3f, r)
    else failed invalid_length_encoding

unfoldable pub parse_length : Reader → Parsed (Bool × ℕ × Reader)
unfolding length_of_format
parse_length r = do (bits, r) ← read_byte r; length_of_format (get_two_significant_bits bits) bits r

abbrev pub str_enc_int8 : ℕ
str_enc_int8 = 0

abbrev pub str_enc_int16 : ℕ
str_enc_int16 = 1

abbrev pub str_enc_int32 : ℕ
str_enc_int32 = 2

abbrev pub str_enc_lzf : ℕ
str_enc_lzf = 3

-- The integer encodings: the text of a signed number of n bytes.
unfoldable pub integer_string : ℕ → Reader → Parsed (Bytes × Reader)
integer_string n r = do
  (buffer, r) ← fill n r
  parsed (itoa (signed (2 ^ (8 * n - 1)) (little_endian buffer)), r)

unfoldable pub special_string : ℕ → Reader → Parsed (Bytes × Reader)
unfolding integer_string
special_string format r =
    if format == str_enc_int8
    then (do (number, r) ← read_byte r; parsed (itoa (signed (2 ^ 7) number), r))
    else if format == str_enc_int16
    then integer_string 2 r
    else if format == str_enc_int32
    then integer_string 4 r
    else if format == str_enc_lzf
    then failed lzf_string
    else failed invalid_string_header

unfoldable pub string_of : Bool → ℕ → Reader → Parsed (Bytes × Reader)
unfolding special_string
string_of false n r = fill n r
string_of true n r = special_string (n % 256) r

unfoldable pub parse_string : Reader → Parsed (Bytes × Reader)
unfolding string_of
parse_string r = do (is_special, size, r) ← parse_length r; string_of is_special size r

pub record RdbMetadata : Type 0 where
  pub key : Bytes
  pub value : Bytes

unfoldable pub handle_aux : Reader → Parsed (RdbMetadata × Reader)
handle_aux r = do
  (key, r) ← parse_string r
  (value, r) ← parse_string r
  parsed (record { key = key; value = value }, r)

unfoldable pub length_encoding : Bool → ℕ → Reader → Parsed (ℕ × Reader)
length_encoding true size r = failed special_length
length_encoding false size r = parsed (size, r)

unfoldable pub parse_length_encoding : Reader → Parsed (ℕ × Reader)
unfolding length_encoding
parse_length_encoding r = do
  (is_special, size, r) ← parse_length r
  length_encoding is_special size r

pub record DbMetaData : Type 0 where
  pub db_number : ℕ

unfoldable pub parse_db_meta_data : Reader → Parsed (DbMetaData × Reader)
parse_db_meta_data r = do
  (number, r) ← parse_length_encoding r
  parsed (record { db_number = number }, r)

pub record ResizeDbMetaData : Type 0 where
  pub hash_table_size : ℕ
  pub expire_hash_table_size : ℕ

unfoldable pub parse_resize_metadata : Reader → Parsed (ResizeDbMetaData × Reader)
parse_resize_metadata r = do
  (hash_size, r) ← parse_length_encoding r
  (expire_hash_size, r) ← parse_length_encoding r
  parsed (record { hash_table_size = hash_size; expire_hash_table_size = expire_hash_size }, r)
