-- ===== src/Resp/Types.antt =====
-- resp/resp.go: the kinds of values, their symbols, and what reading can result in.
use tiny_red.Base.{ℕ, Bytes, codes, ℤ}

-- The names of `TypeSymbols`.
pub data Kind : Type 0 where
  simple_string array simple_error integer bulk_string null bulk_error : Kind

unfoldable pub symbol : Kind → ℕ
symbol Kind.simple_string = b'+'
symbol Kind.array = b'*'
symbol Kind.simple_error = b'-'
symbol Kind.integer = b':'
symbol Kind.bulk_string = b'$'
symbol Kind.null = b'*'
symbol Kind.bulk_error = b'('

pub record SimpleError : Type 0 where
  pub error_type : Bytes
  pub message : Bytes

-- The values that `ReadResponse` returns.
pub data Response : Type 0 where
  simple_string : Bytes → Response
  simple_error : SimpleError → Response
  integer : ℤ → Response
  bulk_string : Bytes → Response

-- `io.EOF` and `io.ErrUnexpectedEOF`.
pub data IoError : Type 0 where
  eof unexpected_eof : IoError

-- The errors that reading returns, one constructor for each text, with what the text quotes.
pub data Error : Type 0 where
  unwrapped : IoError → Error
  reading : IoError → Error
  insufficient_data : ℕ → Error
  invalid_header : Bytes → Error
  invalid_size : Bytes → Error
  unexpected_type : ℕ → Error
  unsupported_type : ℕ → Error
  invalid_count : ℕ → Error
  missing_crlf : Error
  bulk_size : Error
  empty_error : Error
  not_integer : Error

-- A slice bound or a buffer length out of range panics.
pub data Result {ℓ} (A : Type ℓ) : Type ℓ where
  ok : A → Result A
  err : Error → Result A
  panic : Result A

infixl 5 ◌>>=◌
abbrev pub ◌>>=◌ {ℓ κ} : {A : Type ℓ} {B : Type κ} → Result A → (A → Result B) → Result B
ok a >>= f = f a
err e >>= f = err e
panic >>= f = panic

-- The error types and messages that the program names.
abbrev pub err_type : Bytes
err_type = codes "ERR"

abbrev pub wrong_type_code : Bytes
wrong_type_code = codes "WRONGTYPE"

abbrev pub error_message_wrong_type : Bytes
error_message_wrong_type = codes "Operation against a key holding the wrong kind of value"

abbrev pub error_message_not_integer : Bytes
error_message_not_integer = codes "value is not an integer or out of range"

abbrev pub error_message_not_number : Bytes
error_message_not_number = codes "value is not an number"

abbrev pub error_message_not_float : Bytes
error_message_not_float = codes "value is not float or out of range"
