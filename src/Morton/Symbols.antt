-- ===== src/Morton/Symbols.antt =====
-- Words whose digits are named: each digit is a list of names, and is 1 where one of them is.
use Prim.Native.Nat.{max, bit_and, bit_or}
use native.Mathlib.Nat.{mod-lt, one-le-pow}
use tiny_red.Base.{
  ℕ, zero, suc, ◌+◌, ◌-◌, ◌*◌, ◌/◌, ◌%◌, ◌^◌, ◌≤◌, ◌<◌, ◌≡◌, refl, ◌∙◌, List, [], ◌∷◌, ◌++◌, arith,
  ltb, ◌==◌, if◌then◌else◌, Bool-cases, inl, inr,
}
use tiny_red.Morton.{shift_left, shift_right, step_left, step_right}
use tiny_red.Morton.Digits.{
  digit, digit-or, digit-and, digit-right, digit-left, digit-left_low, digit-small, digit-mod,
}

abbrev pub Word : Type 0
Word = ℕ → List ℕ

unfoldable pub or_word : Word → Word → Word
or_word V W i = V i ++ W i

unfoldable pub mask_word : ℕ → Word → Word
mask_word mask W i = if digit mask i == 1 then W i else []

unfoldable pub cut_word : ℕ → Word → Word
cut_word w W i = if ltb i w then W i else []

unfoldable pub left_word : ℕ → Word → Word
unfolding cut_word
left_word s W = cut_word 64 (λ i. if ltb i s then [] else W (i - s))

unfoldable pub right_word : ℕ → Word → Word
right_word s W i = W (s + i)

unfoldable pub step_left_word : ℕ → ℕ → Word → Word
unfolding mask_word or_word left_word
step_left_word s mask W = mask_word mask (or_word W (left_word s W))

unfoldable pub step_right_word : ℕ → ℕ → Word → Word
unfolding mask_word or_word right_word
step_right_word s mask W = mask_word mask (or_word W (right_word s W))

digit-bit : (i n : ℕ) → digit n i ≤ 1
unfolding digit
digit-bit zero n = omega arith
digit-bit (suc i) n = digit-bit i (n / 2)

module _ (env : ℕ → ℕ) where
  unfoldable pub value_of : List ℕ → ℕ
  value_of [] = 0
  value_of (j ∷ js) = max (env j) (value_of js)

  value_of-append : (V W : List ℕ) → value_of (V ++ W) ≡ max (value_of V) (value_of W)
  unfolding value_of
  value_of-append [] W = omega arith
  value_of-append (j ∷ js) W = omega (arith, value_of-append js W)

  -- The number has the digits of the word.
  abbrev pub Stands : ℕ → Word → Type 0
  Stands n W = (i : ℕ) → digit n i ≡ value_of (W i)

  pub or_word_lem :
      (m n : ℕ) (V W : Word) → Stands m V → Stands n W → Stands (bit_or m n) (or_word V W)
  unfolding or_word
  or_word_lem m n V W h k i = omega (arith, digit-or i m n, value_of-append (V i) (W i), h i, k i)

  pub mask_word_lem :
      (mask n : ℕ) (W : Word) → Stands n W → Stands (bit_and n mask) (mask_word mask W)
  unfolding mask_word value_of
  mask_word_lem mask n W h i =
      ground (arith, digit-and i n mask, digit-bit i mask, digit-bit i n, h i)

  pub cut_word_lem : (w n : ℕ) (W : Word) → Stands n W → Stands (n % 2 ^ w) (cut_word w W)
  unfolding cut_word value_of
  cut_word_lem w n W h i = elim (Bool-cases (ltb i w)) [
    | inl on ↦ let below : i < w = ground arith in rw on (digit-mod w i n below ∙ h i)
    | inr off ↦
        let above : w ≤ i = ground arith in
        rw off (digit-small w i (n % 2 ^ w) (mod-lt n (one-le-pow w 2 (omega arith))) above)
  ]

  pub right_word_lem : (s n : ℕ) (W : Word) → Stands n W → Stands (shift_right n s) (right_word s W)
  unfolding right_word
  right_word_lem s n W h i = digit-right s i (s + i) n refl ∙ h (s + i)

  pub left_word_lem : (s n : ℕ) (W : Word) → Stands n W → Stands (shift_left n s) (left_word s W)
  unfolding left_word value_of
  left_word_lem s n W h =
      cut_word_lem 64 (n * 2 ^ s) (λ i. if ltb i s then [] else W (i - s))
        (λ i. elim (Bool-cases (ltb i s)) [
          | inl on ↦ let below : i < s = ground arith in rw on (digit-left_low s i n below)
          | inr off ↦
              let above : i ≡ s + (i - s) = ground arith in
              rw off (digit-left s (i - s) i n above ∙ h (i - s))
        ])

  pub step_left_lem :
      (s mask n : ℕ) (W : Word) → Stands n W → Stands (step_left s mask n) (step_left_word s mask W)
  unfolding step_left_word
  step_left_lem s mask n W h =
      mask_word_lem mask (bit_or n (shift_left n s)) (or_word W (left_word s W))
        (or_word_lem n (shift_left n s) W (left_word s W) h (left_word_lem s n W h))

  pub step_right_lem :
      (s mask n : ℕ) (W : Word)
      → Stands n W
      → Stands (step_right s mask n) (step_right_word s mask W)
  unfolding step_right_word
  step_right_lem s mask n W h =
      mask_word_lem mask (bit_or n (shift_right n s)) (or_word W (right_word s W))
        (or_word_lem n (shift_right n s) W (right_word s W) h (right_word_lem s n W h))
