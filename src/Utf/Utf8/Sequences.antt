-- ===== src/Utf/Utf8/Sequences.antt =====
-- What the check that ends utf8_decode accepts, by the number of bytes, against the encoding of
-- the standard.
use cbasis.Base.{ℕ, ◌+◌, ◌/◌, ◌%◌, ◌<◌, ◌≤◌, ◌≡◌, true, some, pos, arith, bit_or, bit_xor, ◌+ℤ◌}
use cbasis.Utf.{Decoded, IsScalar}
use cbasis.Utf.Bytes.{
  IsByte, xor_80, xor_c0, xor_e0, xor_f0, join_two, join_three, join_four, or_small, or_parts,
}
use cbasis.Utf.Utf8.{utf8_finish, two_bytes, three_bytes, four_bytes, reject_surrogate}

abbrev pub Accepted : ℕ → ℕ → ℕ → Decoded
Accepted i len c = record { ok = true; code_point = c; index = pos (i + len) }

module _ (i a b : ℕ) (ha : IsByte a) (hb : IsByte b) where
  pub two_bytes_sound :
      (d : Decoded)
      → 0x80 ≤ a
      → a < 0xE0
      → utf8_finish (pos i) (some (two_bytes a b)) ≡ d
      → d.ok ≡ true
      → (d ≡ Accepted i 2 d.code_point)
        × (0x80 ≤ d.code_point)
        × (d.code_point < 0x800)
        × (a ≡ 0xC0 + d.code_point / 64)
        × (b ≡ 0x80 + d.code_point % 64)
  unfolding utf8_finish two_bytes ◌+ℤ◌
  two_bytes_sound d lo hi run ok =
      ground (arith, xor_80 b hb, xor_c0 a ha, join_two (bit_xor a 0xC0) (bit_xor b 0x80))

  pub three_bytes_sound :
      (c : ℕ) (d : Decoded)
      → IsByte c
      → 0xE0 ≤ a
      → a < 0xF0
      → utf8_finish (pos i) (reject_surrogate (three_bytes a b c)) ≡ d
      → d.ok ≡ true
      → (d ≡ Accepted i 3 d.code_point)
        × (0x800 ≤ d.code_point)
        × (d.code_point < 0x10000)
        × IsScalar d.code_point
        × (a ≡ 0xE0 + d.code_point / 4096)
        × (b ≡ 0x80 + d.code_point / 64 % 64)
        × (c ≡ 0x80 + d.code_point % 64)
  unfolding utf8_finish three_bytes ◌+ℤ◌
  three_bytes_sound c d hc lo hi run ok = ground (
    arith,
    xor_80 b hb,
    xor_80 c hc,
    xor_e0 a ha,
    or_parts (bit_xor b 0x80) (bit_xor c 0x80),
    join_three (bit_xor a 0xE0) (bit_xor b 0x80) (bit_xor c 0x80),
  )

  pub four_bytes_sound :
      (c e : ℕ) (d : Decoded)
      → IsByte c
      → IsByte e
      → 0xF0 ≤ a
      → utf8_finish (pos i) (some (four_bytes a b c e)) ≡ d
      → d.ok ≡ true
      → (d ≡ Accepted i 4 d.code_point)
        × (0x10000 ≤ d.code_point)
        × (d.code_point ≤ 0x10FFFF)
        × (a ≡ 0xF0 + d.code_point / 262144)
        × (b ≡ 0x80 + d.code_point / 4096 % 64)
        × (c ≡ 0x80 + d.code_point / 64 % 64)
        × (e ≡ 0x80 + d.code_point % 64)
  unfolding utf8_finish four_bytes ◌+ℤ◌
  four_bytes_sound c e d hc he lo run ok = ground (
    arith,
    xor_80 b hb,
    xor_80 c hc,
    xor_80 e he,
    xor_f0 a ha,
    or_parts (bit_xor b 0x80) (bit_xor c 0x80),
    or_parts (bit_or (bit_xor b 0x80) (bit_xor c 0x80)) (bit_xor e 0x80),
    join_four (bit_xor a 0xF0) (bit_xor b 0x80) (bit_xor c 0x80) (bit_xor e 0x80),
  )

module _ (i c : ℕ) where
  pub two_bytes_complete :
      0x80 ≤ c
      → c < 0x800
      → utf8_finish (pos i) (some (two_bytes (0xC0 + c / 64) (0x80 + c % 64))) ≡ Accepted i 2 c
  unfolding utf8_finish two_bytes ◌+ℤ◌
  two_bytes_complete lo hi = ground (
    arith,
    xor_80 (0x80 + c % 64) (omega arith),
    xor_c0 (0xC0 + c / 64) (omega arith),
    join_two (c / 64) (c % 64),
  )

  pub three_bytes_complete :
      0x800 ≤ c
      → c < 0x10000
      → IsScalar c
      → utf8_finish
          (pos i)
          (reject_surrogate (three_bytes (0xE0 + c / 4096) (0x80 + c / 64 % 64) (0x80 + c % 64)))
        ≡ Accepted i 3 c
  unfolding utf8_finish three_bytes ◌+ℤ◌
  three_bytes_complete lo hi s = ground (
    arith,
    xor_80 (0x80 + c % 64) (omega arith),
    xor_80 (0x80 + c / 64 % 64) (omega arith),
    xor_e0 (0xE0 + c / 4096) (omega arith),
    or_small (c / 64 % 64) (c % 64),
    join_three (c / 4096) (c / 64 % 64) (c % 64),
  )

  pub four_bytes_complete :
      0x10000 ≤ c
      → c ≤ 0x10FFFF
      → utf8_finish (pos i) (
          some (
            four_bytes
              (0xF0 + c / 262144)
              (0x80 + c / 4096 % 64)
              (0x80 + c / 64 % 64)
              (0x80 + c % 64)))
        ≡ Accepted i 4 c
  unfolding utf8_finish four_bytes ◌+ℤ◌
  four_bytes_complete lo hi = ground (
    arith,
    xor_80 (0x80 + c % 64) (omega arith),
    xor_80 (0x80 + c / 64 % 64) (omega arith),
    xor_80 (0x80 + c / 4096 % 64) (omega arith),
    xor_f0 (0xF0 + c / 262144) (omega arith),
    or_small (c / 4096 % 64) (c / 64 % 64),
    or_small (bit_or (c / 4096 % 64) (c / 64 % 64)) (c % 64),
    join_four (c / 262144) (c / 4096 % 64) (c / 64 % 64) (c % 64),
  )
