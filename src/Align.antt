-- ===== src/Align.antt =====
-- allocator.h: powers of two and the alignment of addresses. An `isize` is its 64-bit pattern, a
-- natural number below 2 ^ 64 that is negative from 2 ^ 63 on, so `num > 0` is `0 < num < 2 ^ 63`; a
-- failed assertion is `none`.
pub mod Power
pub mod Aligned
mod Tests
use cbasis.Base.{
  ℕ, ◌+◌, ◌-◌, ◌*◌, ◌/◌, ◌%◌, ◌^◌, bit_and, Bool, ◌&&◌, ltb, ◌==◌, Option, some, ◌>>=◌, ◌>>◌,
  require,
}

unfoldable pub is_power_of_two_or_zero : ℕ → Bool
is_power_of_two_or_zero n = bit_and n ((n + 2 ^ 64 - 1) % 2 ^ 64) == 0

unfoldable pub is_power_of_two : ℕ → Bool
is_power_of_two num = (ltb 0 num && ltb num (2 ^ 63)) && is_power_of_two_or_zero num

unfoldable pub align_forward : ℕ → ℕ → Option ℕ
align_forward ptr align_to =
    require (is_power_of_two align_to)
    >> some ((ptr + bit_and ((2 ^ 64 - ptr) % 2 ^ 64) (align_to - 1)) % 2 ^ 64)

unfoldable pub align_backward : ℕ → ℕ → Option ℕ
align_backward ptr align_to =
    require (is_power_of_two align_to) >> some (bit_and ptr (2 ^ 64 - 1 - (align_to - 1)))

unfoldable pub is_aligned : ℕ → ℕ → Option Bool
is_aligned ptr align = align_backward ptr align >>= λ p. some (ptr == p)
