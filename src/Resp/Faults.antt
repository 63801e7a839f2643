-- ===== src/Resp/Faults.antt =====
-- resp/resp.go: inputs on which reading panics.
use tiny_red.Base.{ℕ, zero, suc, ◌≡◌, refl, ◌∷◌, ◌++◌, arith, Bytes, crlf, negsuc, Fits}
use tiny_red.Strconv.{itoa, half_32}
use tiny_red.Strconv.RoundTrip.{parse_int-itoa}
use tiny_red.Resp.Types.{panic}
use tiny_red.Resp.Reader.{read_full}
use tiny_red.Resp.Unmarshal.{bulk_payload, read_payload, unmarshal_bulk_string}
use tiny_red.Resp.Lines.{header_line, body_line, itoa-Inline}

negative_payload : (n : ℕ) (c : ℕ) (rest : Bytes) → bulk_payload (negsuc n) (c ∷ rest) ≡ panic
unfolding bulk_payload read_payload read_full
negative_payload zero c rest = ground arith
negative_payload (suc zero) c rest = ground arith
negative_payload (suc (suc n)) c rest = refl

-- Reading a bulk string whose length is negative and at least -2^31 panics as soon as one more byte
-- follows the header.
pub negative_bulk_length_panics :
    (n c : ℕ) (rest : Bytes)
    → Fits half_32 (negsuc n)
    → unmarshal_bulk_string (b'$' ∷ (itoa (negsuc n) ++ (crlf ++ c ∷ rest))) ≡ panic
unfolding unmarshal_bulk_string
negative_bulk_length_panics n c rest h =
    rw
      (
        header_line b'$' (itoa (negsuc n)) (c ∷ rest) (omega arith) (itoa-Inline _),
        body_line,
        parse_int-itoa half_32 (negsuc n) h,
      )
      (negative_payload n c rest)
