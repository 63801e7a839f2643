-- ===== src/Resp/RoundTrip.antt =====
-- resp/resp.go: what `Marshal` writes, `Unmarshal` reads back, whatever follows on the connection.
use tiny_red.Base.{
  ℕ, ◌+◌, ◌-◌, ◌<◌, ◌≡◌, ◌≢◌, refl, some, false, ap, ◌∙◌, List, [], ◌∷◌, ◌++◌, map, arith, Bytes,
  crlf, bytes_eq, length, All, ℤ, pos, Fits, append_assoc, append-nil, length-append, length-map,
  take-append, drop-append,
}
use tiny_red.Strconv.{itoa, half_32, half_64}
use tiny_red.Strconv.RoundTrip.{parse_int-itoa, atoi-itoa}
use tiny_red.Resp.Types.{SimpleError, Response, ok}
use tiny_red.Resp.Reader.{read_full}
use tiny_red.Resp.Marshal.{
  concat, marshal_array, marshal_simple_string, marshal_bulk_string, marshal_simple_error,
  marshal_integer,
}
use tiny_red.Resp.Unmarshal.{
  bulk_payload, read_payload, split_at_space, size, unmarshal_simple_string, unmarshal_bulk_string,
  unmarshal_simple_error, unmarshal_integer, unmarshal_element, unmarshal_elements, unmarshal_array,
  read_response,
}
use tiny_red.Resp.Lines.{Inline, read_bytes_line, get_or_line, body_line, header_line, itoa-Inline}

pub read_full_exact :
    (s rest : Bytes) (n : ℕ) → length s ≡ n → read_full n (s ++ rest) ≡ some (s, rest)
unfolding read_full
read_full_exact s rest n h =
    rw (← h, take-append s rest, drop-append s rest) (ground (arith, length-append s rest))

payload_exact :
    (v rest : Bytes) → bulk_payload (pos (length v)) (v ++ (crlf ++ rest)) ≡ ok (v, rest)
unfolding bulk_payload read_payload bytes_eq
payload_exact v rest =
    let e : length v + 2 - 2 ≡ length v = omega arith in
    rw
      (
        ← append_assoc v crlf rest,
        read_full_exact (v ++ crlf) rest (length v + 2) (omega (arith, length-append v crlf)),
        read_payload,
      )
      (rw (e, take-append v crlf, drop-append v crlf) (ground arith))

-- A bulk string of any bytes, up to 2^31 - 1 of them, is read back, and nothing behind it is used up.
pub unmarshal-marshal_bulk_string :
    (v rest : Bytes)
    → length v < half_32
    → unmarshal_bulk_string (marshal_bulk_string v ++ rest) ≡ ok (v, rest)
unfolding unmarshal_bulk_string marshal_bulk_string
unmarshal-marshal_bulk_string v rest h = simp append_assoc (
    rw
      (
        header_line b'$' (itoa (pos (length v))) (v ++ (crlf ++ rest)) (omega arith)
            (itoa-Inline _),
        body_line,
        parse_int-itoa half_32 (pos (length v)) (omega arith),
      )
      (payload_exact v rest))

pub unmarshal-marshal_integer :
    (a : ℤ) (rest : Bytes)
    → Fits half_64 a
    → unmarshal_integer (marshal_integer a ++ rest) ≡ ok (a, rest)
unfolding unmarshal_integer marshal_integer
unmarshal-marshal_integer a rest h = simp append_assoc (
    rw (
      header_line b':' (itoa a) rest (omega arith) (itoa-Inline a),
      body_line,
      parse_int-itoa half_64 a h,
    ))

pub unmarshal-marshal_simple_string :
    (v rest : Bytes)
    → v ≢ []
    → Inline v
    → unmarshal_simple_string (marshal_simple_string v ++ rest) ≡ ok (v, rest)
unfolding unmarshal_simple_string marshal_simple_string
unmarshal-marshal_simple_string [] rest h i = absurd (h refl)
unmarshal-marshal_simple_string (c ∷ v) rest h i = simp append_assoc (
    rw (read_bytes_line (b'+' ∷ c ∷ v) rest (omega arith, i), unmarshal_simple_string)
      (rw (get_or_line (b'+' ∷ c ∷ v), body_line b'+' (c ∷ v))
        (ground (arith, length-append v crlf))))

split_at_space_lem : (t m : Bytes) → All (λ c. c ≢ b' ') t → split_at_space (t ++ b' ' ∷ m) ≡ (t, m)
unfolding split_at_space
split_at_space_lem [] m h = refl
split_at_space_lem (c ∷ t) m (h, hs) = ground (arith, split_at_space_lem t m hs)

cons_append-ne-nil : (t m : Bytes) → bytes_eq (t ++ b' ' ∷ m) [] ≡ false
unfolding bytes_eq
cons_append-ne-nil [] m = refl
cons_append-ne-nil (c ∷ t) m = refl

-- An error reply has its type up to the first space, and its message is the rest of the line.
pub unmarshal-marshal_simple_error :
    (e : SimpleError) (rest : Bytes)
    → All (λ c. c ≢ b' ') e.error_type
    → Inline (e.error_type ++ b' ' ∷ e.message)
    → unmarshal_simple_error (marshal_simple_error e ++ rest) ≡ ok (e, rest)
unfolding unmarshal_simple_error marshal_simple_error
unmarshal-marshal_simple_error e rest h i =
    let line = e.error_type ++ b' ' ∷ e.message in
    let shape : marshal_simple_error e ++ rest ≡ b'-' ∷ (line ++ (crlf ++ rest)) =
      simp append_assoc in
    rw (
      shape,
      header_line b'-' line rest (omega arith) i,
      body_line b'-' line,
      cons_append-ne-nil e.error_type e.message,
      split_at_space_lem e.error_type e.message h,
    )

element_bulk :
    (v rest : Bytes)
    → length v < half_32
    → unmarshal_element (marshal_bulk_string v ++ rest) ≡ ok (v, rest)
unfolding unmarshal_element marshal_bulk_string unmarshal_bulk_string
element_bulk v rest h = unmarshal-marshal_bulk_string v rest h

-- The elements, one after another.
elements_lem :
    (args done : List Bytes) (rest : Bytes)
    → All (λ v. length v < half_32) args
    → unmarshal_elements (length args) done (concat (map marshal_bulk_string args) ++ rest)
      ≡ ok (done ++ args, rest)
unfolding unmarshal_elements concat
elements_lem [] done rest h = rw append-nil
elements_lem (v ∷ args) done rest (h, hs) =
    let after = concat (map marshal_bulk_string args) in
    rw (append_assoc (marshal_bulk_string v) after rest, element_bulk v (after ++ rest) h)
      (elements_lem args (done ++ v ∷ []) rest hs
        ∙ ap (λ l. ok (l, rest)) (append_assoc done (v ∷ []) args))

size_lem : (c n : ℕ) → n < half_64 → size (c ∷ (itoa (pos n) ++ crlf)) ≡ ok (pos n)
unfolding size
size_lem c n h = rw (body_line c (itoa (pos n)), size, atoi-itoa (pos n) (omega arith))

-- An array of bulk strings is read back element by element, and what follows it stays to be read; each
-- element is shorter than 2^31 bytes and their number is below 2^63.
pub unmarshal-marshal_array :
    (args : List Bytes) (rest : Bytes)
    → All (λ v. length v < half_32) args
    → length args < half_64
    → unmarshal_array (marshal_array (map marshal_bulk_string args) ++ rest) ≡ ok (args, rest)
unfolding unmarshal_array
unmarshal-marshal_array args rest h n =
    let elements = concat (map marshal_bulk_string args) in
    let shape : marshal_array (map marshal_bulk_string args) ++ rest
        ≡ b'*' ∷ (itoa (pos (length args)) ++ (crlf ++ (elements ++ rest))) =
      unfold marshal_array in rw (length-map args marshal_bulk_string, append_assoc) in
    rw
      (
        shape,
        header_line b'*' (itoa (pos (length args))) (elements ++ rest) (omega arith)
            (itoa-Inline _),
        size_lem b'*' (length args) n,
      )
      (elements_lem args [] rest h)

-- What each reply is written as.
unfoldable pub marshal_response : Response → Bytes
marshal_response (Response.simple_string v) = marshal_simple_string v
marshal_response (Response.simple_error e) = marshal_simple_error e
marshal_response (Response.integer a) = marshal_integer a
marshal_response (Response.bulk_string v) = marshal_bulk_string v

-- The replies that the protocol can carry.
abbrev pub IsSendable : Response → Type 0
IsSendable (Response.simple_string v) = (v ≢ []) × Inline v
IsSendable (Response.simple_error e) =
    All (λ c. c ≢ b' ') e.error_type × Inline (e.error_type ++ b' ' ∷ e.message)
IsSendable (Response.integer a) = Fits half_64 a
IsSendable (Response.bulk_string v) = length v < half_32

-- ReadResponse of a reply written by the Marshal of its kind gives the same reply and leaves what
-- follows, for a simple string that is not empty and holds no line feed, an error with no space in its
-- type and no line feed, an int64, and a bulk string shorter than 2^31 bytes.
pub read_response-marshal_response :
    (r : Response) (rest : Bytes)
    → IsSendable r
    → read_response (marshal_response r ++ rest) ≡ ok (r, rest)
unfolding read_response marshal_response
read_response-marshal_response (Response.simple_string v) rest (h, i) =
    let e = unmarshal-marshal_simple_string v rest h i in
    unfold marshal_simple_string in rw (e, read_response)
read_response-marshal_response (Response.simple_error e) rest (h, i) =
    let e' = unmarshal-marshal_simple_error e rest h i in
    unfold marshal_simple_error in rw (e', read_response)
read_response-marshal_response (Response.integer a) rest h =
    let e = unmarshal-marshal_integer a rest h in unfold marshal_integer in rw (e, read_response)
read_response-marshal_response (Response.bulk_string v) rest h =
    let e = unmarshal-marshal_bulk_string v rest h in
    unfold marshal_bulk_string in rw (e, read_response)
