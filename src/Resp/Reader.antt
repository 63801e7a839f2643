-- ===== src/Resp/Reader.antt =====
-- The parts of Go's `bufio.Reader` and `io` that resp/resp.go calls. A reader is what is still to
-- come on the connection or in the file, up to its end.
use tiny_red.Base.{
  ℕ, ◌-◌, Option, none, some, [], ◌∷◌, Bytes, length, take, drop, leb, ◌==◌, if◌then◌else◌,
}

abbrev pub Reader : Type 0
Reader = Bytes

abbrev extend : ℕ → Option (Bytes × Reader) → Option (Bytes × Reader)
extend c none = none
extend c (some (line, rest)) = some (c ∷ line, rest)

-- reader.ReadBytes(delim): the bytes up to and with the first `delim`; `none` is the end of the
-- input before it.
unfoldable pub read_bytes : ℕ → Reader → Option (Bytes × Reader)
read_bytes delim [] = none
read_bytes delim (c ∷ rest) =
    let more = read_bytes delim rest in if c == delim then some (c ∷ [], rest) else extend c more

-- io.ReadFull(reader, buf) with a buffer of n bytes; `none` is the end of the input before it is full.
unfoldable pub read_full : ℕ → Reader → Option (Bytes × Reader)
read_full n r = if leb n (length r) then some (take n r, drop n r) else none

-- data[lo:hi], within the bounds.
unfoldable pub slice : ℕ → ℕ → Bytes → Bytes
slice lo hi s = take (hi - lo) (drop lo s)
