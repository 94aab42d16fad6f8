-- ===== src/Utf/Bytes.antt =====
-- Bytes, the bytes that stand at a place of a buffer, and the masks of utf.h as arithmetic.
use cbasis.Base.{
  ℕ, ◌+◌, ◌-◌, ◌*◌, ◌/◌, ◌%◌, ◌^◌, ◌<◌, ◌≡◌, refl, List, get_or, bit_and, bit_or, bit_xor,
  tabulated, eq_of_table, bit_or_add, bit_or-lt, le-bit_or, arith,
}

abbrev pub IsByte : ℕ → Type 0
IsByte b = b < 256

abbrev pub IsBytes : List ℕ → Type 0
IsBytes buf = (i : ℕ) → IsByte (get_or buf i 0)

pub and_f0 : (b : ℕ) → IsByte b → bit_and b 0xF0 ≡ b / 16 * 16
unfolding tabulated
and_f0 b = eq_of_table (λ x. bit_and x 0xF0) (λ x. x / 16 * 16) 256 b refl

pub xor_80 : (b : ℕ) → IsByte b → bit_xor b 0x80 ≡ (b + 128) % 256
unfolding tabulated
xor_80 b = eq_of_table (λ x. bit_xor x 0x80) (λ x. (x + 128) % 256) 256 b refl

pub xor_c0 : (b : ℕ) → IsByte b → bit_xor b 0xC0 ≡ (3 - b / 64) * 64 + b % 64
unfolding tabulated
xor_c0 b = eq_of_table (λ x. bit_xor x 0xC0) (λ x. (3 - x / 64) * 64 + x % 64) 256 b refl

pub xor_e0 : (b : ℕ) → IsByte b → bit_xor b 0xE0 ≡ (7 - b / 32) * 32 + b % 32
unfolding tabulated
xor_e0 b = eq_of_table (λ x. bit_xor x 0xE0) (λ x. (7 - x / 32) * 32 + x % 32) 256 b refl

pub xor_f0 : (b : ℕ) → IsByte b → bit_xor b 0xF0 ≡ (15 - b / 16) * 16 + b % 16
unfolding tabulated
xor_f0 b = eq_of_table (λ x. bit_xor x 0xF0) (λ x. (15 - x / 16) * 16 + x % 16) 256 b refl

-- The fields of a sequence of two, three and four bytes are disjoint.
pub join_two : (a b : ℕ) → b < 64 → bit_or (a * 2 ^ 6) b ≡ a * 64 + b
join_two a b h = bit_or_add 6 a b h

pub join_three :
    (a b c : ℕ)
    → b < 64
    → c < 64
    → bit_or (bit_or (a * 2 ^ 12) (b * 2 ^ 6)) c ≡ a * 4096 + b * 64 + c
join_three a b c hb hc =
    ground (arith, bit_or_add 12 a (b * 64) (omega arith), bit_or_add 6 (a * 64 + b) c hc)

pub join_four :
    (a b c d : ℕ)
    → b < 64
    → c < 64
    → d < 64
    → bit_or (bit_or (bit_or (a * 2 ^ 18) (b * 2 ^ 12)) (c * 2 ^ 6)) d
      ≡ a * 262144 + b * 4096 + c * 64 + d
join_four a b c d hb hc hd = ground (
  arith,
  bit_or_add 18 a (b * 4096) (omega arith),
  bit_or_add 12 (a * 64 + b) (c * 64) (omega arith),
  bit_or_add 6 (a * 4096 + b * 64 + c) d hd,
)

-- The accumulated error passes 6 bits exactly when one of the parts does.
pub or_small : (a b : ℕ) → a < 64 → b < 64 → bit_or a b < 64
or_small a b = bit_or-lt 6 a b

pub or_parts : (a b : ℕ) → bit_or a b < 64 → (a < 64) × (b < 64)
or_parts a b h = omega (arith, le-bit_or a b)
