-- ===== src/Morton/Digits.antt =====
-- The binary digits of a number, and what the operations on words make of them.
use Prim.Native.Nat.{min, max, digits, bitwise, bit_and, bit_or, bit_and-bitwise, bit_or-bitwise}
use native.Mathlib.Nat.{
  pow-suc, pow-succ', one-le-pow, le_refl, div-one, mod-eq_of_lt, mod-lt, mul_assoc,
  mul-add-mod_self_left, div-add-mod, div-div-eq-div-mul,
}
use tiny_red.Base.{ℕ, zero, suc, ◌+◌, ◌*◌, ◌/◌, ◌%◌, ◌^◌, ◌≤◌, ◌<◌, ◌≡◌, refl, sym, ap, ◌∙◌, arith}

-- Digit `i`, counted from the lowest.
unfoldable pub digit : ℕ → ℕ → ℕ
digit n zero = n % 2
digit n (suc i) = digit (n / 2) i

module _ (z : ℕ → ℕ) (f : ℕ → ℕ → ℕ) where
  enough_fuel : (a b n k : ℕ) → a ≤ n → a ≤ k → digits z f n a b ≡ digits z f k a b
  enough_fuel zero b zero zero h l = refl
  enough_fuel zero b zero (suc k) h l = refl
  enough_fuel zero b (suc n) zero h l = refl
  enough_fuel zero b (suc n) (suc k) h l = refl
  enough_fuel (suc a) b zero k h l = absurd (omega arith)
  enough_fuel (suc a) b (suc n) zero h l = absurd (omega arith)
  enough_fuel (suc a) b (suc n) (suc k) h l =
      rw (enough_fuel (suc a / 2) (b / 2) n k (omega arith) (omega arith))

  first_digit :
      (a b : ℕ)
      → bitwise z f (suc a) b ≡ bitwise z f (suc a / 2) (b / 2) * 2 + f (suc a % 2) (b % 2)
  first_digit a b =
      omega (arith, enough_fuel (suc a / 2) (b / 2) a (suc a / 2) (omega arith) (le_refl _))

or_first : (a b : ℕ) → bit_or a b ≡ bit_or (a / 2) (b / 2) * 2 + max (a % 2) (b % 2)
or_first zero b = simp bit_or-bitwise (omega arith)
or_first (suc a) b = simp bit_or-bitwise (first_digit (λ b. b) max a b)

and_first : (a b : ℕ) → bit_and a b ≡ bit_and (a / 2) (b / 2) * 2 + min (a % 2) (b % 2)
and_first zero b = simp bit_and-bitwise (omega arith)
and_first (suc a) b = simp bit_and-bitwise (first_digit (λ b. zero) min a b)

pub digit-or : (i a b : ℕ) → digit (bit_or a b) i ≡ max (digit a i) (digit b i)
unfolding digit
digit-or zero a b = omega (arith, or_first a b)
digit-or (suc i) a b =
    let half : bit_or a b / 2 ≡ bit_or (a / 2) (b / 2) = omega (arith, or_first a b) in
    ap (λ n. digit n i) half ∙ digit-or i (a / 2) (b / 2)

pub digit-and : (i a b : ℕ) → digit (bit_and a b) i ≡ min (digit a i) (digit b i)
unfolding digit
digit-and zero a b = omega (arith, and_first a b)
digit-and (suc i) a b =
    let half : bit_and a b / 2 ≡ bit_and (a / 2) (b / 2) = omega (arith, and_first a b) in
    ap (λ n. digit n i) half ∙ digit-and i (a / 2) (b / 2)

pub digit-right : (s i j n : ℕ) → j ≡ s + i → digit (n / 2 ^ s) i ≡ digit n j
unfolding digit
digit-right zero i j n e = rw (div-one n) (ap (digit n) {x = i} {y = j} (omega (arith, e)))
digit-right (suc s) i zero n e = absurd (omega arith)
digit-right (suc s) i (suc j) n e =
    ap (λ k. digit k i) (ap (λ d. n / d) (pow-succ' 2 s) ∙ sym (div-div-eq-div-mul n 2 (2 ^ s)))
    ∙ digit-right s i j (n / 2) (omega arith)

twice : (n s : ℕ) → n * 2 ^ suc s ≡ 2 * (n * 2 ^ s)
twice n s = omega (arith, ap (λ (t : ℕ). n * t) (pow-suc 2 s))

half_left : (n s : ℕ) → n * 2 ^ suc s / 2 ≡ n * 2 ^ s
half_left n s = omega (arith, twice n s)

pub digit-left_low : (s i n : ℕ) → i < s → digit (n * 2 ^ s) i ≡ 0
unfolding digit
digit-left_low zero i n h = absurd (omega arith)
digit-left_low (suc s) zero n h = omega (arith, twice n s)
digit-left_low (suc s) (suc i) n h =
    ap (λ k. digit k i) (half_left n s) ∙ digit-left_low s i n (omega arith)

pub digit-left : (s i j n : ℕ) → j ≡ s + i → digit (n * 2 ^ s) j ≡ digit n i
unfolding digit
digit-left zero i j n e =
    let one : n * 2 ^ 0 ≡ n = omega arith in
    ap (λ k. digit k j) one ∙ ap (digit n) {x = j} {y = i} (omega (arith, e))
digit-left (suc s) i zero n e = absurd (omega arith)
digit-left (suc s) i (suc j) n e =
    ap (λ k. digit k j) (half_left n s) ∙ digit-left s i j n (omega arith)

pub digit-small : (w i n : ℕ) → n < 2 ^ w → w ≤ i → digit n i ≡ 0
unfolding digit
digit-small zero zero n h l = omega arith
digit-small zero (suc i) n h l = digit-small zero i (n / 2) (omega arith) (omega arith)
digit-small (suc w) zero n h l = absurd (omega arith)
digit-small (suc w) (suc i) n h l =
    digit-small w i (n / 2) (omega (arith, h, pow-suc 2 w)) (omega arith)

-- A number as twice a multiple of 2^w with a rest.
parts : (n w : ℕ) → 2 * (2 ^ w * (n / 2 ^ suc w)) + n % 2 ^ suc w ≡ n
parts n w =
    let doubled : 2 ^ suc w * (n / 2 ^ suc w) ≡ 2 * (2 ^ w * (n / 2 ^ suc w)) =
      ap (λ d. d * (n / 2 ^ suc w)) (pow-succ' 2 w) ∙ mul_assoc 2 (2 ^ w) (n / 2 ^ suc w) in
    omega (arith, doubled, div-add-mod n (2 ^ suc w))

half_mod : (n w : ℕ) → n % 2 ^ suc w / 2 ≡ n / 2 % 2 ^ w
half_mod n w =
    let rest = n % 2 ^ suc w in
    let below : rest < 2 ^ suc w = mod-lt n (omega (arith, one-le-pow (suc w) 2)) in
    let half : n / 2 ≡ 2 ^ w * (n / 2 ^ suc w) + rest / 2 = omega (arith, parts n w) in
    sym (
      ap (λ k. k % 2 ^ w) half
      ∙ (mul-add-mod_self_left (2 ^ w) (n / 2 ^ suc w) (rest / 2)
          ∙ mod-eq_of_lt (omega (arith, below, pow-suc 2 w))))

even_mod : (n w : ℕ) → n % 2 ^ suc w % 2 ≡ n % 2
even_mod n w = omega (arith, parts n w)

pub digit-mod : (w i n : ℕ) → i < w → digit (n % 2 ^ w) i ≡ digit n i
unfolding digit
digit-mod zero i n h = absurd (omega arith)
digit-mod (suc w) zero n h = even_mod n w
digit-mod (suc w) (suc i) n h =
    ap (λ k. digit k i) (half_mod n w) ∙ digit-mod w i (n / 2) (omega arith)

pub same_digits : (f a b : ℕ) → a ≤ f → b ≤ f → ((i : ℕ) → digit a i ≡ digit b i) → a ≡ b
unfolding digit
same_digits zero a b h l e = omega arith
same_digits (suc f) a b h l e =
    omega (arith, e 0, same_digits f (a / 2) (b / 2) (omega arith) (omega arith) (λ i. e (suc i)))
