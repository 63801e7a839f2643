-- ===== src/Morton/Interleaving.antt =====
-- server/zorder_Morton_code.go: a code gives back the two numbers that it is made of.
use tiny_red.Base.{
  ℕ, zero, suc, ◌+◌, ◌-◌, ◌^◌, ◌≤◌, ◌<◌, ◌≡◌, refl, sym, ap, ◌∙◌, Bool, true, false, ◌&&◌, List, [],
  ◌∷◌, arith, ltb, ◌==◌, if◌then◌else◌, Bool-cases, inl, inr,
}
use tiny_red.Morton.{
  spread_int32_to_int64, interleave, compact_int64_to_int32, grid_latitude_number,
  grid_longitude_number, shift_left,
}
use tiny_red.Morton.Digits.{digit, digit-small, same_digits}
use tiny_red.Morton.Symbols.{
  Word, Stands, value_of, or_word, mask_word, cut_word, left_word, right_word, step_left_word,
  step_right_word, or_word_lem, mask_word_lem, cut_word_lem, left_word_lem, right_word_lem,
  step_left_lem, step_right_lem,
}

unfoldable spread_word : Word → Word
unfolding step_left_word
spread_word W = step_left_word 1 0x5555555555555555 (
    step_left_word 2 0x3333333333333333 (
      step_left_word 4 0x0F0F0F0F0F0F0F0F
        (step_left_word 8 0x00FF00FF00FF00FF (step_left_word 16 0x0000FFFF0000FFFF W))))

unfoldable interleave_word : Word → Word → Word
unfolding spread_word or_word left_word
interleave_word V W = or_word (spread_word V) (left_word 1 (spread_word W))

unfoldable compact_word : Word → Word
unfolding step_right_word mask_word cut_word
compact_word W = cut_word 32 (
    step_right_word 16 0x00000000FFFFFFFF (
      step_right_word 8 0x0000FFFF0000FFFF (
        step_right_word 4 0x00FF00FF00FF00FF (
          step_right_word 2 0x0F0F0F0F0F0F0F0F
            (step_right_word 1 0x3333333333333333 (mask_word 0x5555555555555555 W))))))

-- The digits of one number have the names from 0, and those of the other the names from 32.
unfoldable named : ℕ → Word
unfolding cut_word
named from = cut_word 32 (λ i. (from + i) ∷ [])

unfoldable is_name : List ℕ → ℕ → Bool
is_name [] j = false
is_name (i ∷ []) j = i == j
is_name (i ∷ k ∷ js) j = false

-- Whether the digits below `n` have the names from `from`.
unfoldable are_named : ℕ → ℕ → Word → Bool
unfolding is_name
are_named zero from W = true
are_named (suc n) from W = is_name (W n) (from + n) && are_named n from W

table_x : are_named 32 0 (compact_word (interleave_word (named 0) (named 32))) ≡ true
unfolding are_named compact_word interleave_word named digit
table_x = refl

table_y :
    are_named 32 32 (compact_word (right_word 1 (interleave_word (named 0) (named 32)))) ≡ true
unfolding are_named compact_word interleave_word named digit right_word
table_y = refl

is_name_lem : (js : List ℕ) (j : ℕ) → is_name js j ≡ true → js ≡ j ∷ []
unfolding is_name
is_name_lem [] j h = cc
is_name_lem (i ∷ []) j h = let same : i ≡ j = ground arith in ap (λ k. k ∷ []) same
is_name_lem (i ∷ k ∷ js) j h = cc

both : (b c : Bool) → (b && c) ≡ true → (b ≡ true) × (c ≡ true)
both true c h = (refl, h)
both false c h = cc

are_named_lem :
    (n from : ℕ) (W : Word) → are_named n from W ≡ true → (i : ℕ) → i < n → W i ≡ (from + i) ∷ []
unfolding are_named
are_named_lem zero from W h i l = absurd (omega arith)
are_named_lem (suc n) from W h i l =
    let (first, rest) = both (is_name (W n) (from + n)) (are_named n from W) h in
    elim (Bool-cases (i == n)) [
      | inl on ↦
          let last : i ≡ n = ground arith in
          ap W last ∙ (is_name_lem (W n) (from + n) first ∙ ap (λ k. (from + k) ∷ []) (sym last))
      | inr off ↦ let below : i < n = ground (arith, l) in are_named_lem n from W rest i below
    ]

compact_named :
    (from : ℕ) (W : Word)
    → are_named 32 from (compact_word W) ≡ true
    → (i : ℕ) → compact_word W i ≡ named from i
unfolding named
compact_named from W h i = elim (Bool-cases (ltb i 32)) [
  | inl on ↦
      let below : i < 32 = ground arith in rw on (are_named_lem 32 from (compact_word W) h i below)
  | inr off ↦ unfold compact_word cut_word in rw off refl
]

module _ (env : ℕ → ℕ) where
  named_lem :
      (n from : ℕ)
      → n < 2 ^ 32
      → ((i : ℕ) → i < 32 → env (from + i) ≡ digit n i)
      → Stands env n (named from)
  unfolding named cut_word value_of
  named_lem n from h e i = elim (Bool-cases (ltb i 32)) [
    | inl on ↦ let below : i < 32 = ground arith in rw on (omega (arith, e i below))
    | inr off ↦ let above : 32 ≤ i = ground arith in rw off (digit-small 32 i n h above)
  ]

  spread_lem :
      (n : ℕ) (W : Word) → Stands env n W → Stands env (spread_int32_to_int64 n) (spread_word W)
  unfolding spread_int32_to_int64 spread_word
  spread_lem n W h = step_left_lem env 1 _ _ _ (
      step_left_lem env 2 _ _ _ (
        step_left_lem env 4 _ _ _
          (step_left_lem env 8 _ _ _ (step_left_lem env 16 0x0000FFFF0000FFFF n W h))))

  interleave_lem :
      (m n : ℕ) (V W : Word)
      → Stands env m V
      → Stands env n W
      → Stands env (interleave m n) (interleave_word V W)
  unfolding interleave interleave_word
  interleave_lem m n V W h k =
      or_word_lem env (spread_int32_to_int64 m) (shift_left (spread_int32_to_int64 n) 1)
        (spread_word V) (left_word 1 (spread_word W)) (spread_lem m V h)
        (left_word_lem env 1 (spread_int32_to_int64 n) (spread_word W) (spread_lem n W k))

  compact_lem :
      (n : ℕ) (W : Word) → Stands env n W → Stands env (compact_int64_to_int32 n) (compact_word W)
  unfolding compact_int64_to_int32 compact_word
  compact_lem n W h = cut_word_lem env 32 _ _ (
      step_right_lem env 16 _ _ _ (
        step_right_lem env 8 _ _ _ (
          step_right_lem env 4 _ _ _ (
            step_right_lem env 2 _ _ _
              (step_right_lem env 1 _ _ _ (mask_word_lem env 0x5555555555555555 n W h))))))

  -- A word with the names of a number stands for that number.
  is_number :
      (r n from : ℕ) (W : Word)
      → Stands env r (compact_word W)
      → Stands env n (named from)
      → are_named 32 from (compact_word W) ≡ true
      → r ≡ n
  is_number r n from W h k table =
      same_digits (r + n) r n (omega arith) (omega arith)
        (λ i. h i ∙ (ap (value_of env) (compact_named from W table i) ∙ sym (k i)))

-- The digits of two numbers under their names.
digits_of : ℕ → ℕ → ℕ → ℕ
digits_of x y j = if ltb j 32 then digit x j else digit y (j - 32)

digits_of-low : (x y i : ℕ) → i < 32 → digits_of x y (0 + i) ≡ digit x i
unfolding digits_of
digits_of-low x y i h =
    let on : ltb (0 + i) 32 ≡ true = ground arith in
    let same : 0 + i ≡ i = omega arith in rw on (ap (digit x) same)

digits_of-high : (x y i : ℕ) → digits_of x y (32 + i) ≡ digit y i
unfolding digits_of
digits_of-high x y i =
    let off : ltb (32 + i) 32 ≡ false = ground arith in
    let same : 32 + i - 32 ≡ i = omega arith in rw off (ap (digit y) same)

-- The grid numbers that decode takes from the code of two numbers of 32 bits are those two numbers.
pub grid_numbers-interleave :
    (x y : ℕ)
    → x < 2 ^ 32
    → y < 2 ^ 32
    → (grid_latitude_number (interleave x y) ≡ x) × (grid_longitude_number (interleave x y) ≡ y)
unfolding grid_latitude_number grid_longitude_number
grid_numbers-interleave x y h k =
    let env = digits_of x y in
    let of_x : Stands env x (named 0) = named_lem env x 0 h (digits_of-low x y) in
    let of_y : Stands env y (named 32) = named_lem env y 32 k (λ i l. digits_of-high x y i) in
    let code = interleave_lem env x y (named 0) (named 32) of_x of_y in
    let W = interleave_word (named 0) (named 32) in
    (
      is_number env (compact_int64_to_int32 (interleave x y)) x 0 W
          (compact_lem env (interleave x y) W code) of_x table_x,
      is_number env _ y 32 (right_word 1 W)
          (compact_lem env _ (right_word 1 W) (right_word_lem env 1 (interleave x y) W code)) of_y
          table_y,
    )
