-- ===== src/Morton.antt =====
-- server/zorder_Morton_code.go: the code of two numbers of 32 bits, in uint64.
pub mod Digits
pub mod Symbols
pub mod Interleaving
pub mod Coordinates
use Prim.Native.Nat.{bit_and, bit_or}
use tiny_red.Base.{ℕ, ◌*◌, ◌/◌, ◌%◌, ◌^◌}

-- n << s and n >> s of a uint64.
abbrev pub shift_left : ℕ → ℕ → ℕ
shift_left n s = n * 2 ^ s % 2 ^ 64

abbrev pub shift_right : ℕ → ℕ → ℕ
shift_right n s = n / 2 ^ s

-- (n | (n << s)) & mask, and the same to the right.
abbrev pub step_left : ℕ → ℕ → ℕ → ℕ
step_left s mask n = bit_and (bit_or n (shift_left n s)) mask

abbrev pub step_right : ℕ → ℕ → ℕ → ℕ
step_right s mask n = bit_and (bit_or n (shift_right n s)) mask

unfoldable pub spread_int32_to_int64 : ℕ → ℕ
spread_int32_to_int64 v = step_left 1 0x5555555555555555 (
    step_left 2 0x3333333333333333 (
      step_left 4 0x0F0F0F0F0F0F0F0F
        (step_left 8 0x00FF00FF00FF00FF (step_left 16 0x0000FFFF0000FFFF v))))

unfoldable pub interleave : ℕ → ℕ → ℕ
unfolding spread_int32_to_int64
interleave x y = bit_or (spread_int32_to_int64 x) (shift_left (spread_int32_to_int64 y) 1)

unfoldable pub compact_int64_to_int32 : ℕ → ℕ
compact_int64_to_int32 v =
    step_right 16 0x00000000FFFFFFFF (
      step_right 8 0x0000FFFF0000FFFF (
        step_right 4 0x00FF00FF00FF00FF (
          step_right 2 0x0F0F0F0F0F0F0F0F
            (step_right 1 0x3333333333333333 (bit_and v 0x5555555555555555)))))
    % 2 ^ 32

-- The part of `decode` in front of the coordinates: the grid numbers of the latitude and the longitude.
unfoldable pub grid_latitude_number : ℕ → ℕ
unfolding compact_int64_to_int32
grid_latitude_number geo_code = compact_int64_to_int32 geo_code

unfoldable pub grid_longitude_number : ℕ → ℕ
unfolding compact_int64_to_int32
grid_longitude_number geo_code = compact_int64_to_int32 (shift_right geo_code 1)
