-- ===== src/Base/Int.antt =====
-- Go's signed integers: an `int` or `int64` is an integer in the range of its width.
use Prim.Native.Nat.{ℕ, suc, ◌+◌, ◌-◌, ◌*◌, ◌/◌, ◌%◌, ◌^◌, ◌≤◌, ◌<◌}
use mathlib.Core.Bool.{Bool}
use tiny_red.Base.Tests.{ltb, leb, if◌then◌else◌}

-- `negsuc n` is -(n + 1).
pub data ℤ : Type 0 where
  pos : ℕ → ℤ
  negsuc : ℕ → ℤ

abbrev pub pos_part : ℤ → ℕ
pos_part (pos n) = n
pos_part (negsuc n) = 0

abbrev pub neg_part : ℤ → ℕ
neg_part (pos n) = 0
neg_part (negsuc n) = suc n

-- a - b, as an integer.
abbrev pub sub_ℕ : ℕ → ℕ → ℤ
sub_ℕ a b = if leb b a then pos (a - b) else negsuc (b - a - 1)

infixl 65 ◌+ℤ◌ ◌-ℤ◌
infix 50 ◌≤ℤ◌
abbrev pub ◌+ℤ◌ : ℤ → ℤ → ℤ
a +ℤ b = sub_ℕ (pos_part a + pos_part b) (neg_part a + neg_part b)

abbrev pub ◌-ℤ◌ : ℤ → ℤ → ℤ
a -ℤ b = sub_ℕ (pos_part a + neg_part b) (neg_part a + pos_part b)

abbrev pub ◌≤ℤ◌ : ℤ → ℤ → Type 0
a ≤ℤ b = pos_part a + neg_part b ≤ pos_part b + neg_part a

abbrev pub ltb_ℤ : ℤ → ℤ → Bool
ltb_ℤ a b = ltb (pos_part a + neg_part b) (pos_part b + neg_part a)

abbrev pub leb_ℤ : ℤ → ℤ → Bool
leb_ℤ a b = leb (pos_part a + neg_part b) (pos_part b + neg_part a)

-- The value lies in -half, ..., half - 1, where `half` is 2 to the width less one.
abbrev pub Fits : ℕ → ℤ → Type 0
Fits half a = (neg_part a ≤ half) × (pos_part a < half)

-- A product with a positive constant.
abbrev pub scale : ℕ → ℤ → ℤ
scale k a = sub_ℕ (k * pos_part a) (k * neg_part a)

-- The int64 with the bits of `m`, for m below 2^64.
abbrev pub signed_64 : ℕ → ℤ
signed_64 m = if ltb m (2 ^ 63) then pos m else negsuc (2 ^ 64 - m - 1)

-- What an int64 holds after an operation whose exact result is `a`.
unfoldable pub wrap_64 : ℤ → ℤ
wrap_64 (pos n) = signed_64 (n % 2 ^ 64)
wrap_64 (negsuc n) = signed_64 (2 ^ 64 - 1 - n % 2 ^ 64)

-- The signed integer with the bits of `m`, for m below twice `half`.
abbrev pub signed : ℕ → ℕ → ℤ
signed half m = if ltb m half then pos m else negsuc (2 * half - m - 1)

-- The bits of `a`, which `Fits half`.
abbrev pub unsigned : ℕ → ℤ → ℕ
unsigned half (pos n) = n
unsigned half (negsuc n) = 2 * half - 1 - n

-- Division by a positive constant that goes to zero, and its remainder, which has the sign of `a`.
abbrev pub quotient : ℤ → ℕ → ℤ
quotient (pos n) k = pos (n / k)
quotient (negsuc n) k = sub_ℕ 0 (suc n / k)

abbrev pub remainder : ℤ → ℕ → ℤ
remainder (pos n) k = pos (n % k)
remainder (negsuc n) k = sub_ℕ 0 (suc n % k)

-- Division by a positive constant that goes down.
abbrev pub floor_quotient : ℤ → ℕ → ℤ
floor_quotient (pos n) k = pos (n / k)
floor_quotient (negsuc n) k = negsuc (n / k)
