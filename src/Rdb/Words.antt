-- ===== src/Rdb/Words.antt =====
-- rdb/rdb.go: words of several bytes and the two top bits of a byte, written as the format has them,
-- are read back.
use Prim.Native.Nat.{bit_and}
use native.Mathlib.Nat.{pow-suc}
use tiny_red.Base.{
  ℕ, zero, suc, ◌+◌, ◌*◌, ◌/◌, ◌%◌, ◌^◌, ◌<◌, ◌≡◌, refl, Bool, true, ◌&&◌, [], ◌∷◌, ◌++◌, arith,
  Bytes, length, ℤ, pos, negsuc, Fits, signed, unsigned, ◌==◌, length-append,
}
use tiny_red.Resp.RoundTrip.{read_full_exact}
use tiny_red.Rdb.{
  parsed, fill, big_endian, little_endian, get_two_significant_bits, big_endian_from,
}

-- Two functions are tested for equality on the numbers below `n`, by evaluation.
agree : (ℕ → ℕ) → (ℕ → ℕ) → ℕ → Bool
agree f g zero = true
agree f g (suc n) = agree f g n && f n == g n

agree_below : (f g : ℕ → ℕ) (n b : ℕ) → b < n → agree f g n ≡ true → f b ≡ g b
unfolding agree
agree_below f g zero b below h = absurd (omega arith)
agree_below f g (suc n) b below h = ground (arith, agree_below f g n b)

pub get_two_significant_bits-div : (b : ℕ) → b < 256 → get_two_significant_bits b ≡ b / 64
unfolding agree get_two_significant_bits
get_two_significant_bits-div b h = agree_below get_two_significant_bits (λ n. n / 64) 256 b h refl

pub bit_and_low : (b : ℕ) → b < 256 → bit_and b 0x3f ≡ b % 64
unfolding agree
bit_and_low b h = agree_below (λ n. bit_and n 0x3f) (λ n. n % 64) 256 b h refl

-- The `k` low bytes of `n`, the lowest first.
unfoldable pub le_bytes : ℕ → ℕ → Bytes
le_bytes zero n = []
le_bytes (suc k) n = n % 256 ∷ le_bytes k (n / 256)

-- The `k` low bytes of `n`, the highest first.
unfoldable pub be_bytes : ℕ → ℕ → Bytes
be_bytes zero n = []
be_bytes (suc k) n = be_bytes k (n / 256) ++ (n % 256) ∷ []

pub length-le_bytes : (k n : ℕ) → length (le_bytes k n) ≡ k
unfolding le_bytes
length-le_bytes zero n = refl
length-le_bytes (suc k) n = omega (arith, length-le_bytes k (n / 256))

pub length-be_bytes : (k n : ℕ) → length (be_bytes k n) ≡ k
unfolding be_bytes
length-be_bytes zero n = refl
length-be_bytes (suc k) n =
    omega
      (arith, length-append (be_bytes k (n / 256)) ((n % 256) ∷ []), length-be_bytes k (n / 256))

pub little_endian-le_bytes : (k n : ℕ) → n < 256 ^ k → little_endian (le_bytes k n) ≡ n
unfolding little_endian le_bytes
little_endian-le_bytes zero n h = omega arith
little_endian-le_bytes (suc k) n h =
    omega (arith, pow-suc 256 k, little_endian-le_bytes k (n / 256) (omega (arith, pow-suc 256 k)))

pub fill_exact : (s r : Bytes) (n : ℕ) → length s ≡ n → fill n (s ++ r) ≡ parsed (s, r)
unfolding fill
fill_exact s r n h = rw (read_full_exact s r n h, fill) refl

pub signed-unsigned : (half : ℕ) (z : ℤ) → Fits half z → signed half (unsigned half z) ≡ z
signed-unsigned half (pos n) h = ground arith
signed-unsigned half (negsuc n) h = ground arith

pub unsigned_below : (half : ℕ) (z : ℤ) → Fits half z → unsigned half z < 2 * half
unsigned_below half (pos n) h = omega arith
unsigned_below half (negsuc n) h = omega arith

big_endian_from-append :
    (n b : ℕ) (bs : Bytes) → big_endian_from n (bs ++ b ∷ []) ≡ big_endian_from n bs * 256 + b
unfolding big_endian_from
big_endian_from-append n b [] = refl
big_endian_from-append n b (c ∷ bs) = big_endian_from-append (n * 256 + c) b bs

pub big_endian-be_bytes : (k n : ℕ) → n < 256 ^ k → big_endian (be_bytes k n) ≡ n
unfolding big_endian big_endian_from be_bytes
big_endian-be_bytes zero n h = omega arith
big_endian-be_bytes (suc k) n h = omega (
  arith,
  pow-suc 256 k,
  big_endian_from-append 0 (n % 256) (be_bytes k (n / 256)),
  big_endian-be_bytes k (n / 256) (omega (arith, pow-suc 256 k)),
)
