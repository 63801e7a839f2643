-- ===== src/Aof/Manifest.antt =====
-- aof/manifest.go: `FormatManifest` and `ParseManifest`.
use tiny_red.Base.{
  ℕ, zero, suc, ◌+◌, ◌%◌, ◌/◌, Bool, false, ◌||◌, ◌&&◌, none, some, List, ◌∷◌, ◌++◌, Bytes, codes,
  ℤ, ltb, leb, ◌==◌, if◌then◌else◌, [],
}
use tiny_red.Strconv.{itoa, atoi}

pub record Manifest : Type 0 where
  pub node_type : Bytes
  pub aof_filename : Bytes
  pub seq : ℤ
  pub file_type : ℕ

-- The two errors of ParseManifest, and its panic.
pub data Parsed : Type 0 where
  corrupted invalid_sequence index_panic : Parsed
  parsed : Manifest → Parsed

-- `unicode.IsSpace` in ASCII.
unfoldable pub is_space : ℕ → Bool
is_space c = c == 32 || (leb 9 c && leb c 13)

-- The white space beyond ASCII, by its UTF-8: U+0085 and U+00A0 have two bytes, the others three.
unfoldable pub is_space_2 : ℕ → List ℕ → Bool
is_space_2 c [] = false
is_space_2 c (b ∷ rest) = c == 0xC2 && (b == 0x85 || b == 0xA0)

-- U+1680, U+2000 to U+200A, U+2028, U+2029, U+202F, U+205F and U+3000.
unfoldable pub is_space_3 : ℕ → List ℕ → Bool
is_space_3 c (b ∷ a ∷ rest) =
    (c == 0xE1 && (b == 0x9A && a == 0x80))
    || (c == 0xE2
        && ((b == 0x80 && ((leb 0x80 a && leb a 0x8A) || (a == 0xA8 || (a == 0xA9 || a == 0xAF))))
            || (b == 0x81 && a == 0x9F)))
    || (c == 0xE3 && (b == 0x80 && a == 0x80))
is_space_3 c _ = false

-- How many bytes of white space begin a text. A byte that begins a character in UTF-8 is never in the
-- middle of one, so that the text before it does not matter, also where it is not valid.
unfoldable pub space_width : ℕ → Bytes → ℕ
unfolding is_space is_space_2 is_space_3
space_width c rest =
    if is_space c then 1 else if is_space_2 c rest then 2 else if is_space_3 c rest then 3 else 0

unfoldable pub word_before : Bytes → List Bytes → List Bytes
word_before [] words = words
word_before (c ∷ cs) words = (c ∷ cs) ∷ words

-- `strings.Fields`, with the number of bytes of white space that are still to be skipped and the part
-- of a word that is read already.
unfoldable pub fields_from : ℕ → Bytes → Bytes → List Bytes
unfolding space_width word_before
fields_from skip word [] = word_before word []
fields_from (suc skip) word (c ∷ cs) = fields_from skip word cs
fields_from zero word (c ∷ cs) = elim (space_width c cs) [
  | zero ↦ fields_from 0 (word ++ c ∷ []) cs
  | suc skip ↦ word_before word (fields_from skip [] cs)
]

unfoldable pub fields : Bytes → List Bytes
unfolding fields_from
fields content = fields_from 0 [] content

-- `%c` of a byte, as the UTF-8 of a code point below 256.
unfoldable pub format_char : ℕ → Bytes
format_char c = if ltb c 128 then c ∷ [] else (192 + c / 64) ∷ (128 + c % 64) ∷ []

unfoldable pub format_manifest : Manifest → Bytes
unfolding format_char
format_manifest m =
    m.node_type
    ++ 32
      ∷ (m.aof_filename
          ++ 32
            ∷ (codes "seq"
                ++ 32
                  ∷ (itoa m.seq
                      ++ 32 ∷ (codes "type" ++ 32 ∷ (format_char m.file_type ++ 10 ∷ [])))))

-- fields[5][0] is the file's type.
typed : Bytes → Bytes → ℤ → Bytes → Parsed
typed node_type filename seq [] = index_panic
typed node_type filename seq (c ∷ cs) =
    parsed (record { node_type = node_type; aof_filename = filename; seq = seq; file_type = c })

unfoldable pub manifest_of : List Bytes → Parsed
unfolding typed
manifest_of (a ∷ b ∷ c ∷ d ∷ e ∷ f ∷ rest) = elim (atoi d) [
  | none ↦ invalid_sequence
  | some seq ↦ typed a b seq f
]
manifest_of _ = corrupted

unfoldable pub parse_manifest : Bytes → Parsed
unfolding manifest_of fields
parse_manifest content = manifest_of (fields content)
