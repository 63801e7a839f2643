-- ===== src/Resp/Unmarshal.antt =====
-- resp/resp.go: `ReadHeader`, `size`, the `Unmarshal` methods and `ReadResponse`.
use tiny_red.Base.{
  ℕ, zero, suc, ◌+◌, ◌-◌, not, none, some, List, [], ◌∷◌, ◌++◌, Bytes, cr, lf, crlf, bytes_eq,
  length, get_or, take, drop, ℤ, pos, negsuc, ltb, leb, ◌==◌, if◌then◌else◌,
}
use tiny_red.Strconv.{parse_int, atoi, half_32, half_64}
use tiny_red.Resp.Types.{
  Kind, symbol, SimpleError, Response, eof, unexpected_eof, unwrapped, reading, insufficient_data,
  invalid_header, invalid_size, unexpected_type, unsupported_type, invalid_count, missing_crlf,
  bulk_size, empty_error, not_integer, Result, ok, err, panic, ◌>>=◌,
}
use tiny_red.Resp.Reader.{Reader, read_bytes, read_full, slice}

-- What follows a call of `ReadBytes('\n')` in `ReadHeader`.
check_header : Bytes → Reader → Result (Bytes × Reader)
check_header line rest =
    if leb (length line) 1
    then err (insufficient_data (length line))
    else if get_or line (length line - 2) 0 == cr
    then ok (line, rest)
    else err (invalid_header line)

unfoldable pub header_end : Reader → Result (Bytes × Reader)
header_end [] = err (reading eof)
header_end (c ∷ r) = err (reading unexpected_eof)

unfoldable pub read_header : Reader → Result (Bytes × Reader)
unfolding check_header header_end
read_header r = elim (read_bytes lf r) [
  | none ↦ header_end r
  | some (line, rest) ↦ check_header line rest
]

-- The text of a header between its symbol and its end.
abbrev pub body : Bytes → Bytes
body line = slice 1 (length line - 2) line

unfoldable pub size : Bytes → Result ℤ
size line = elim (atoi (body line)) [ none ↦ err (invalid_size (body line)) | some n ↦ ok n ]

-- The first byte of a header that `ReadHeader` returned.
abbrev pub first : Bytes → ℕ
first line = get_or line 0 0

check_simple_string : Bytes → Reader → Result (Bytes × Reader)
check_simple_string line rest =
    if leb (length line) 3
    then err (invalid_count (length line))
    else if not (first line == symbol Kind.simple_string)
    then err (unexpected_type (first line))
    else if get_or line (length line - 2) 0 == cr
    then ok (body line, rest)
    else err missing_crlf

unfoldable pub unmarshal_simple_string : Reader → Result (Bytes × Reader)
unfolding check_simple_string symbol
unmarshal_simple_string r = elim (read_bytes lf r) [
  | none ↦ err (reading eof)
  | some (line, rest) ↦ check_simple_string line rest
]

-- The buffer of `n` bytes is filled, then its last two bytes are checked and cut off. The two slices
-- panic on a buffer of less than two bytes.
unfoldable pub read_payload : ℕ → Reader → Result (Bytes × Reader)
read_payload n r = elim (read_full n r) [
  | none ↦ err (reading unexpected_eof)
  | some (buffer, rest) ↦
      if ltb n 2
      then panic
      else if bytes_eq (drop (n - 2) buffer) crlf
      then ok (take (n - 2) buffer, rest)
      else err missing_crlf
]

-- `make([]byte, size+2)`: of size -1 and -2 the buffer has one byte and none, below that it panics.
unfoldable pub bulk_payload : ℤ → Reader → Result (Bytes × Reader)
bulk_payload (pos n) r = read_payload (n + 2) r
bulk_payload (negsuc zero) r = read_payload 1 r
bulk_payload (negsuc (suc zero)) r = read_payload 0 r
bulk_payload (negsuc (suc (suc n))) r = panic

unfoldable pub unmarshal_bulk_string : Reader → Result (Bytes × Reader)
unfolding symbol
unmarshal_bulk_string r = do
  (line, rest) ← read_header r
  if not (first line == symbol Kind.bulk_string)
      then err (unexpected_type (first line))
      else elim (parse_int half_32 (body line)) [
        | none ↦ err bulk_size
        | some n ↦ bulk_payload n rest
      ]

-- strings.SplitN(parts, " ", 2): the part before the first space, and the part behind it if any.
unfoldable pub split_at_space : Bytes → Bytes × Bytes
split_at_space [] = ([], [])
split_at_space (c ∷ s) =
    let more = split_at_space s in if c == b' ' then ([], s) else (c ∷ more.0, more.1)

unfoldable pub unmarshal_simple_error : Reader → Result (SimpleError × Reader)
unfolding symbol
unmarshal_simple_error r = do
  (line, rest) ← read_header r
  if not (first line == symbol Kind.simple_error)
      then err (unexpected_type (first line))
      else if bytes_eq (body line) []
      then err empty_error
      else let fields = split_at_space (body line) in
        ok (record { error_type = fields.0; message = fields.1 }, rest)

unfoldable pub unmarshal_integer : Reader → Result (ℤ × Reader)
unfolding symbol
unmarshal_integer r = do
  (line, rest) ← read_header r
  if not (first line == symbol Kind.integer)
      then err (unexpected_type (first line))
      else elim (parse_int half_64 (body line)) [ none ↦ err not_integer | some n ↦ ok (n, rest) ]

-- One round of the loop of `Array.Unmarshal`.
unfoldable pub unmarshal_element : Reader → Result (Bytes × Reader)
unfolding symbol
unmarshal_element [] = err (reading eof)
unmarshal_element (c ∷ r) =
    if c == symbol Kind.simple_string
    then unmarshal_simple_string (c ∷ r)
    else if c == symbol Kind.bulk_string
    then unmarshal_bulk_string (c ∷ r)
    else err (unexpected_type c)

unfoldable pub unmarshal_elements : ℕ → List Bytes → Reader → Result (List Bytes × Reader)
unmarshal_elements zero value r = ok (value, r)
unmarshal_elements (suc n) value r = do
  (v, rest) ← unmarshal_element r
  unmarshal_elements n (value ++ v ∷ []) rest

-- `for i := 0; i < size; i++`: no round for a negative size.
abbrev pub rounds : ℤ → ℕ
rounds (pos n) = n
rounds (negsuc n) = 0

unfoldable pub unmarshal_array : Reader → Result (List Bytes × Reader)
unfolding symbol
unmarshal_array r = do
  (line, rest) ← read_header r
  if not (first line == symbol Kind.array)
      then err (unexpected_type (first line))
      else do n ← size line; unmarshal_elements (rounds n) [] rest

unfoldable pub read_response : Reader → Result (Response × Reader)
unfolding symbol
read_response [] = err (unwrapped eof)
read_response (c ∷ r) =
    if c == symbol Kind.simple_string
    then (do (v, rest) ← unmarshal_simple_string (c ∷ r); ok (Response.simple_string v, rest))
    else if c == symbol Kind.simple_error
    then (do (v, rest) ← unmarshal_simple_error (c ∷ r); ok (Response.simple_error v, rest))
    else if c == symbol Kind.integer
    then (do (v, rest) ← unmarshal_integer (c ∷ r); ok (Response.integer v, rest))
    else if c == symbol Kind.bulk_string
    then (do (v, rest) ← unmarshal_bulk_string (c ∷ r); ok (Response.bulk_string v, rest))
    else err (unsupported_type c)
