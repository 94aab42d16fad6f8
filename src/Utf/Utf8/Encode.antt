-- ===== src/Utf/Utf8/Encode.antt =====
-- utf8_encode writes the encoding of the standard, and utf8_decode reads it back.
use cbasis.Base.{
  Wrote, ℕ, ◌+◌, ◌/◌, ◌%◌, ◌<◌, ◌≤◌, ◌≡◌, refl, ◌∙◌, ltb_ℤ, pos_part, true, false, List, some, pos,
  length, arith, bit_or, bit_and, bit_and_mod, tabulated, eq_of_table, ◌-ℤ◌, ℤ,
}
use cbasis.Utf.{Encoded, IsScalar}
use cbasis.Utf.Output.{emit, refuse, emit-Wrote}
use cbasis.Utf.Utf8.{utf8_encode, utf8_decode}
use cbasis.Utf.Utf8.Spec.{utf8_bytes}
use cbasis.Utf.Utf8.Decode.{utf8_decode_complete}

or_80 : (b : ℕ) → b < 64 → bit_or b 0x80 ≡ 0x80 + b
unfolding tabulated
or_80 b = eq_of_table (λ x. bit_or x 0x80) (λ x. 0x80 + x) 64 b refl

or_c0 : (b : ℕ) → b < 32 → bit_or b 0xC0 ≡ 0xC0 + b
unfolding tabulated
or_c0 b = eq_of_table (λ x. bit_or x 0xC0) (λ x. 0xC0 + x) 32 b refl

or_e0 : (b : ℕ) → b < 16 → bit_or b 0xE0 ≡ 0xE0 + b
unfolding tabulated
or_e0 b = eq_of_table (λ x. bit_or x 0xE0) (λ x. 0xE0 + x) 16 b refl

or_f0 : (b : ℕ) → b < 8 → bit_or b 0xF0 ≡ 0xF0 + b
unfolding tabulated
or_f0 b = eq_of_table (λ x. bit_or x 0xF0) (λ x. 0xF0 + x) 8 b refl

-- The byte of six payload bits that the code forms by masks.
continuation : (x : ℕ) → bit_or (bit_and x 0x3F) 0x80 ≡ 0x80 + x % 64
continuation x = ground (arith, bit_and_mod 6 x, or_80 (x % 64))

-- Within the output, the code writes the bytes of the standard.
utf8_encode-emit :
    (out : List ℕ) (size c i : ℕ)
    → IsScalar c
    → i + length (utf8_bytes c) ≤ size
    → utf8_encode out size c (pos i) ≡ emit out (pos i) (utf8_bytes c)
unfolding utf8_encode utf8_bytes ◌-ℤ◌
utf8_encode-emit out size c i s fits = ground (
  arith,
  continuation c,
  continuation (c / 64),
  continuation (c / 4096),
  bit_and_mod 5 (c / 64),
  bit_and_mod 4 (c / 4096),
  bit_and_mod 3 (c / 262144),
  or_c0 (c / 64),
  or_e0 (c / 4096),
  or_f0 (c / 262144),
)

-- A scalar value whose encoding fits into the output is written there byte for byte, `*index`
-- moves behind it, and no other byte changes.
pub utf8_encode-Wrote :
    (out : List ℕ) (size c i : ℕ)
    → size ≤ length out
    → IsScalar c
    → i + length (utf8_bytes c) ≤ size
    → (after : List ℕ) × (utf8_encode out size c (pos i)
        ≡ some (record { ok = true; output = after; index = pos (i + length (utf8_bytes c)) }))
      × Wrote out i (utf8_bytes c) after
utf8_encode-Wrote out size c i room s fits =
    let (after, run, w) = emit-Wrote out (utf8_bytes c) i (omega arith) in
    (after, utf8_encode-emit out size c i s fits ∙ run, w)

-- Everything else is refused with nothing written: a negative index, a code point that is no
-- scalar value, and an encoding that does not fit.
pub utf8_encode-refuse :
    (out : List ℕ) (size c : ℕ) (index : ℤ)
    → ¬ (
        (ltb_ℤ index (pos 0) ≡ false)
        × IsScalar c
        × (pos_part index + length (utf8_bytes c) ≤ size))
    → utf8_encode out size c index ≡ refuse out index
unfolding utf8_encode utf8_bytes ◌-ℤ◌
utf8_encode-refuse out size c index bad = ground arith

-- What `utf8_encode` wrote, `utf8_decode` reads back, ending at the same index.
pub utf8_decode-utf8_encode :
    (out : List ℕ) (size c i : ℕ)
    → size ≤ length out
    → IsScalar c
    → i + length (utf8_bytes c) ≤ size
    → (e : Encoded) × (utf8_encode out size c (pos i) ≡ some e)
      × (utf8_decode e.output size (pos i)
          ≡ some (record { ok = true; code_point = c; index = e.index }))
utf8_decode-utf8_encode out size c i room s fits =
    let (after, run, w) = utf8_encode-Wrote out size c i room s fits in
    (_, run, utf8_decode_complete after size i c s w.stands fits)
