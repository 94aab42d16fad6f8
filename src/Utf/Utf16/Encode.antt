-- ===== src/Utf/Utf16/Encode.antt =====
-- utf16_encode writes the encoding of the standard, and utf16_decode reads it back.
use cbasis.Base.{
  Wrote, ℕ, ◌+◌, ◌-◌, ◌/◌, ◌%◌, ◌<◌, ◌≤◌, ◌≡◌, ◌∙◌, true, false, List, some, pos, ltb_ℤ, pos_part,
  length, arith, bit_or, bit_or_add, bit_and_mod, ◌-ℤ◌, ℤ,
}
use cbasis.Utf.{Encoded, IsScalar}
use cbasis.Utf.Output.{emit, refuse, emit-Wrote}
use cbasis.Utf.Utf16.{utf16_encode, utf16_decode, word_bytes, pair_bytes}
use cbasis.Utf.Utf16.Spec.{utf16_bytes}
use cbasis.Utf.Utf16.Decode.{utf16_decode_complete}

or_hi : (x : ℕ) → x < 1024 → bit_or 0xD800 x ≡ 0xD800 + x
or_hi x h = bit_or_add 10 54 x h

or_lo : (x : ℕ) → x < 1024 → bit_or 0xDC00 x ≡ 0xDC00 + x
or_lo x h = bit_or_add 10 55 x h

utf16_encode-emit :
    (out : List ℕ) (size c i endian : ℕ)
    → IsScalar c
    → i + length (utf16_bytes endian c) ≤ size
    → utf16_encode out size c (pos i) endian ≡ emit out (pos i) (utf16_bytes endian c)
unfolding utf16_encode word_bytes pair_bytes utf16_bytes ◌-ℤ◌
utf16_encode-emit out size c i endian s fits =
    let prime = c - 0x10000 in
    ground (
      arith,
      bit_and_mod 8 c,
      bit_and_mod 8 (0xD800 + prime / 1024),
      bit_and_mod 8 (0xDC00 + prime % 1024),
      bit_and_mod 10 prime,
      or_hi (prime / 1024),
      or_lo (prime % 1024),
    )

-- A scalar value whose encoding fits into the output is written there in the byte order `endian`,
-- `*index` moves behind it, and no other byte changes.
pub utf16_encode-Wrote :
    (out : List ℕ) (size c i endian : ℕ)
    → size ≤ length out
    → IsScalar c
    → i + length (utf16_bytes endian c) ≤ size
    → (after : List ℕ) × (utf16_encode out size c (pos i) endian
        ≡ some
            (record { ok = true; output = after; index = pos (i + length (utf16_bytes endian c)) }))
      × Wrote out i (utf16_bytes endian c) after
utf16_encode-Wrote out size c i endian room s fits =
    let (after, run, w) = emit-Wrote out (utf16_bytes endian c) i (omega arith) in
    (after, utf16_encode-emit out size c i endian s fits ∙ run, w)

-- Everything else is refused with nothing written: a negative index, a code point that is no
-- scalar value, and an encoding that does not fit.
pub utf16_encode-refuse :
    (out : List ℕ) (size c : ℕ) (index : ℤ) (endian : ℕ)
    → ¬ (
        (ltb_ℤ index (pos 0) ≡ false)
        × IsScalar c
        × (pos_part index + length (utf16_bytes endian c) ≤ size))
    → utf16_encode out size c index endian ≡ refuse out index
unfolding utf16_encode utf16_bytes ◌-ℤ◌
utf16_encode-refuse out size c index endian bad = ground arith

-- What `utf16_encode` wrote, `utf16_decode` reads back in the same byte order, ending at the same
-- index.
pub utf16_decode-utf16_encode :
    (out : List ℕ) (size c i endian : ℕ)
    → size ≤ length out
    → IsScalar c
    → i + length (utf16_bytes endian c) ≤ size
    → (e : Encoded) × (utf16_encode out size c (pos i) endian ≡ some e)
      × (utf16_decode e.output size (pos i) endian
          ≡ some (record { ok = true; code_point = c; index = e.index }))
utf16_decode-utf16_encode out size c i endian room s fits =
    let (after, run, w) = utf16_encode-Wrote out size c i endian room s fits in
    (_, run, utf16_decode_complete after size i endian c s w.stands fits)
