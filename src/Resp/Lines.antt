-- ===== src/Resp/Lines.antt =====
-- resp/resp.go: what `ReadHeader` returns on a line that ends in CRLF, and the text of such a line.
use tiny_red.Base.{
  ℕ, suc, ◌-◌, ◌≡◌, ◌≢◌, refl, some, [], ◌∷◌, ◌++◌, arith, Bytes, cr, lf, crlf, length, ℤ, get_or,
  All, length-append, take-append,
}
use tiny_red.Strconv.{itoa}
use tiny_red.Strconv.RoundTrip.{itoa-All}
use tiny_red.Resp.Types.{ok}
use tiny_red.Resp.Reader.{read_bytes, slice}
use tiny_red.Resp.Unmarshal.{read_header, body}

-- No line feed: such a text fits into a line.
abbrev pub Inline : Bytes → Type 0
Inline = All (λ c. c ≢ lf)

pub read_bytes_line :
    (s rest : Bytes) → Inline s → read_bytes lf (s ++ (crlf ++ rest)) ≡ some (s ++ crlf, rest)
unfolding read_bytes
read_bytes_line [] rest h = refl
read_bytes_line (c ∷ s) rest h = ground (arith, read_bytes_line s rest)

pub get_or_line : (s : Bytes) → get_or (s ++ crlf) (length (s ++ crlf) - 2) 0 ≡ cr
get_or_line [] = refl
get_or_line (c ∷ s) =
    let e : suc (length (s ++ crlf)) - 2 ≡ suc (length (s ++ crlf) - 2) =
      omega (arith, length-append s crlf) in
    rw e (get_or_line s)

pub body_line : (c : ℕ) (s : Bytes) → body (c ∷ (s ++ crlf)) ≡ s
unfolding slice
body_line c s =
    let e : suc (length (s ++ crlf)) - 2 - 1 ≡ length s = omega (arith, length-append s crlf) in
    rw e (take-append s crlf)

pub header_line :
    (c : ℕ) (s rest : Bytes)
    → c ≢ lf
    → Inline s
    → read_header (c ∷ (s ++ (crlf ++ rest))) ≡ ok (c ∷ (s ++ crlf), rest)
unfolding read_header
header_line c s rest hc hs =
    rw (read_bytes_line (c ∷ s) rest (hc, hs), read_header)
      (ground (arith, get_or_line (c ∷ s), length-append s crlf))

pub itoa-Inline : (a : ℤ) → Inline (itoa a)
itoa-Inline a = itoa-All (λ c. c ≢ lf) (omega arith) (λ c h. omega arith) a
