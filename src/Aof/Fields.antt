-- ===== src/Aof/Fields.antt =====
-- aof/manifest.go: a manifest that is written is read back.
use tiny_red.Base.{
  ℕ, ◌<◌, ◌≡◌, ◌≢◌, refl, sym, ap, ◌∙◌, true, false, ◌==◌, List, ◌∷◌, ◌++◌, append_assoc,
  append-nil, Fits, arith, All, Bytes, codes, ℤ, pos, negsuc, ltb, [],
}
use tiny_red.Strconv.{itoa, half_64}
use tiny_red.Strconv.RoundTrip.{IsDigit, format_uint-ne-nil, atoi-itoa, itoa-All}
use tiny_red.Aof.Manifest.{
  Manifest, parsed, is_space, is_space_2, is_space_3, space_width, word_before, fields_from, fields,
  format_char, format_manifest, manifest_of, parse_manifest,
}

-- An ASCII byte other than white space.
abbrev pub IsInWord : ℕ → Type 0
IsInWord c = (c < 128) × (is_space c ≡ false)

-- An ASCII word with something in it and no white space.
abbrev pub IsWord : Bytes → Type 0
IsWord w = (w ≢ []) × All IsInWord w

narrow_2 : (c : ℕ) (cs : Bytes) → c < 128 → is_space_2 c cs ≡ false
unfolding is_space_2
narrow_2 c [] h = refl
narrow_2 c (b ∷ rest) h = let e : (c == 0xC2) ≡ false = ground arith in rw e refl

narrow_3 : (c : ℕ) (cs : Bytes) → c < 128 → is_space_3 c cs ≡ false
unfolding is_space_3
narrow_3 c [] h = refl
narrow_3 c (b ∷ []) h = refl
narrow_3 c (b ∷ a ∷ rest) h =
    let one : (c == 0xE1) ≡ false = ground arith in
    let two : (c == 0xE2) ≡ false = ground arith in
    let three : (c == 0xE3) ≡ false = ground arith in rw (one, two, three) refl

narrow : (c : ℕ) (cs : Bytes) → c < 128 → (is_space_2 c cs ≡ false) × (is_space_3 c cs ≡ false)
narrow c cs h = (narrow_2 c cs h, narrow_3 c cs h)

width-IsInWord : (c : ℕ) (cs : Bytes) → IsInWord c → space_width c cs ≡ 0
unfolding space_width
width-IsInWord c cs (low, h) = let (two, three) = narrow c cs low in rw (h, two, three) refl

width_one : (c : ℕ) (cs : Bytes) → is_space c ≡ true → space_width c cs ≡ 1
unfolding space_width
width_one c cs h = rw h refl

word_before-some : (w : Bytes) (words : List Bytes) → w ≢ [] → word_before w words ≡ w ∷ words
unfolding word_before
word_before-some [] words h = absurd (h refl)
word_before-some (c ∷ cs) words h = refl

fields_from-word :
    (read w : Bytes) (c : ℕ) (rest : Bytes)
    → All IsInWord w
    → is_space c ≡ true
    → fields_from 0 read (w ++ c ∷ rest) ≡ word_before (read ++ w) (fields_from 0 [] rest)
unfolding fields_from
fields_from-word read [] c rest _ e =
    rw (fields_from, width_one c rest e)
      (ap (λ w. word_before w (fields_from 0 [] rest)) (sym (append-nil read)))
fields_from-word read (d ∷ w) c rest (h, hs) e =
    rw (fields_from, width-IsInWord d (w ++ c ∷ rest) h)
      (fields_from-word (read ++ d ∷ []) w c rest hs e
        ∙ ap (λ w. word_before w (fields_from 0 [] rest)) (append_assoc read (d ∷ []) w))

next_word :
    (w : Bytes) (c : ℕ) (rest : Bytes)
    → IsWord w
    → is_space c ≡ true
    → fields_from 0 [] (w ++ c ∷ rest) ≡ w ∷ fields_from 0 [] rest
next_word w c rest (some_in, h) e =
    fields_from-word [] w c rest h e ∙ word_before-some w (fields_from 0 [] rest) some_in

digit-IsInWord : (c : ℕ) → IsDigit c → IsInWord c
unfolding is_space
digit-IsInWord c h = (ground arith, ground arith)

itoa-ne-nil : (a : ℤ) → itoa a ≢ []
unfolding itoa
itoa-ne-nil (pos n) = format_uint-ne-nil n
itoa-ne-nil (negsuc n) = λ h. cc

no_fields : fields_from 0 [] [] ≡ []
unfolding fields_from word_before
no_fields = refl

itoa-IsWord : (a : ℤ) → IsWord (itoa a)
itoa-IsWord a =
    (itoa-ne-nil a, itoa-All IsInWord (unfold is_space in (omega arith, refl)) digit-IsInWord a)

char-IsWord : (c : ℕ) → IsInWord c → format_char c ≡ c ∷ []
unfolding format_char
char-IsWord c (low, h) = let on : ltb c 128 ≡ true = ground arith in rw on refl

last_word :
    (c : ℕ)
    → IsInWord c
    → is_space 10 ≡ true
    → fields_from 0 [] (format_char c ++ 10 ∷ []) ≡ (c ∷ []) ∷ []
last_word c f end =
    ap (λ w. fields_from 0 [] (w ++ 10 ∷ [])) (char-IsWord c f)
    ∙ (next_word (c ∷ []) 10 [] ((λ h. cc), (f, tt)) end ∙ ap (λ l. (c ∷ []) ∷ l) no_fields)

fields-format_manifest :
    (m : Manifest)
    → IsWord m.node_type
    → IsWord m.aof_filename
    → IsInWord m.file_type
    → fields (format_manifest m)
      ≡ m.node_type
        ∷ m.aof_filename
        ∷ codes "seq"
        ∷ itoa m.seq
        ∷ codes "type"
        ∷ (m.file_type ∷ [])
        ∷ []
unfolding fields format_manifest
fields-format_manifest m a b f =
    let space : is_space 32 ≡ true = unfold is_space in refl in
    let end : is_space 10 ≡ true = unfold is_space in refl in
    let seq : IsWord (codes "seq") =
      unfold is_space in
      (λ h. cc, ((omega arith, refl), ((omega arith, refl), ((omega arith, refl), tt)))) in
    let type : IsWord (codes "type") =
      unfold is_space in
      (
        λ h. cc,
        (
          (omega arith, refl),
          ((omega arith, refl), ((omega arith, refl), ((omega arith, refl), tt))),
        ),
      ) in
    let text5 = format_char m.file_type ++ 10 ∷ [] in
    let text4 = codes "type" ++ 32 ∷ text5 in
    let text3 = itoa m.seq ++ 32 ∷ text4 in
    next_word m.node_type 32 _ a space
    ∙ ap (λ l. m.node_type ∷ l)
        (next_word m.aof_filename 32 _ b space
          ∙ ap (λ l. m.aof_filename ∷ l)
              (next_word (codes "seq") 32 text3 seq space
                ∙ ap (λ l. codes "seq" ∷ l)
                    (next_word (itoa m.seq) 32 text4 (itoa-IsWord m.seq) space
                      ∙ ap (λ l. itoa m.seq ∷ l)
                          (next_word (codes "type") 32 text5 type space
                            ∙ ap (λ l. codes "type" ∷ l) (last_word m.file_type f end)))))

-- ParseManifest reads back a manifest that FormatManifest writes, whose type of node and file name are
-- not empty and are ASCII without white space, whose number is an int64 and whose type of file is an
-- ASCII byte other than white space.
pub parse_manifest-format_manifest :
    (m : Manifest)
    → IsWord m.node_type
    → IsWord m.aof_filename
    → Fits half_64 m.seq
    → IsInWord m.file_type
    → parse_manifest (format_manifest m) ≡ parsed m
unfolding parse_manifest manifest_of
parse_manifest-format_manifest m a b fits f =
    rw (fields-format_manifest m a b f, manifest_of, atoi-itoa m.seq fits) refl
