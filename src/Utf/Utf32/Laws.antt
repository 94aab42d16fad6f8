-- ===== src/Utf/Utf32/Laws.antt =====
-- utf32_decode and utf32_encode are inverse to each other on the scalar values.
use cbasis.Base.{
  Wrote, HasAt, ℕ, ◌+◌, ◌*◌, ◌/◌, ◌%◌, ◌^◌, ◌≤◌, ◌≡◌, ◌∙◌, true, false, List, some, pos, ltb_ℤ,
  pos_part, ◌==◌, if◌then◌else◌, length, get_or, get_elem?-eq-get_or, arith, bit_or, bit_or_add,
  bit_or_add_right, bit_or-zero, bit_or_comm, ◌+ℤ◌, ◌-ℤ◌, ℤ,
}
use cbasis.Utf.{Decoded, Encoded, IsScalar}
use cbasis.Utf.Bytes.{IsByte, IsBytes}
use cbasis.Utf.Output.{refuse, emit-Wrote}
use cbasis.Utf.Utf32.{read_long, utf32_decode_at, utf32_decode, long_bytes, utf32_encode}

zero-bit_or : (a : ℕ) → bit_or 0 a ≡ a
zero-bit_or a = bit_or_comm 0 a ∙ bit_or-zero a

-- The number of four bytes, by arithmetic.
read_long_lem :
    (endian a b c d : ℕ)
    → IsByte a
    → IsByte b
    → IsByte c
    → IsByte d
    → read_long endian a b c d ≡ (
        if endian == 0
        then a + b * 256 + c * 65536 + d * 16777216
        else a * 16777216 + b * 65536 + c * 256 + d)
unfolding read_long
read_long_lem endian a b c d ha hb hc hd = ground (
  arith,
  zero-bit_or a,
  zero-bit_or (a * 2 ^ 24),
  bit_or_add_right 8 b a,
  bit_or_add_right 16 c (b * 256 + a),
  bit_or_add_right 24 d (c * 65536 + (b * 256 + a)),
  bit_or_add 24 a (b * 65536),
  bit_or_add 16 (a * 256 + b) (c * 256),
  bit_or_add 8 (a * 65536 + b * 256 + c) d,
)

-- The bytes of a scalar value at `*index`, inside the input, are decoded to it, and `*index`
-- moves by 4.
pub utf32_decode_complete :
    (buf : List ℕ) (size i endian c : ℕ)
    → IsScalar c
    → HasAt buf i (long_bytes endian c)
    → i + 4 ≤ size
    → utf32_decode buf size (pos i) endian
      ≡ some (record { ok = true; code_point = c; index = pos (i + 4) })
unfolding utf32_decode utf32_decode_at long_bytes ◌+ℤ◌ ◌-ℤ◌
utf32_decode_complete buf size i endian c s h fits = ground (
  arith,
  read_long_lem endian (c % 256) (c / 256 % 256) (c / 65536 % 256) (c / 16777216 % 256),
  read_long_lem endian (c / 16777216 % 256) (c / 65536 % 256) (c / 256 % 256) (c % 256),
)

-- What `utf32_decode` accepts is a scalar value, and the four bytes that it moved `*index` over
-- are those that `utf32_encode` writes for it.
pub utf32_decode_sound :
    (buf : List ℕ) (size i endian : ℕ) (d : Decoded)
    → IsBytes buf
    → size ≤ length buf
    → utf32_decode buf size (pos i) endian ≡ some d
    → d.ok ≡ true
    → IsScalar d.code_point
      × HasAt buf i (long_bytes endian d.code_point)
      × (d.index ≡ pos (i + 4))
      × (i + 4 ≤ size)
unfolding utf32_decode utf32_decode_at long_bytes ◌+ℤ◌ ◌-ℤ◌
utf32_decode_sound buf size i endian d bytes fits run ok = ground (
  arith,
  get_elem?-eq-get_or buf i 0,
  get_elem?-eq-get_or buf (i + 1) 0,
  get_elem?-eq-get_or buf (i + 2) 0,
  get_elem?-eq-get_or buf (i + 3) 0,
  bytes i,
  bytes (i + 1),
  bytes (i + 2),
  bytes (i + 3),
  read_long_lem endian (get_or buf i 0) (get_or buf (i + 1) 0) (get_or buf (i + 2) 0)
      (get_or buf (i + 3) 0),
)

length-long_bytes : (endian c : ℕ) → length (long_bytes endian c) ≡ 4
unfolding long_bytes
length-long_bytes endian c = ground arith

-- What `utf32_encode` wrote, `utf32_decode` reads back in the same byte order, ending at the same
-- index; no byte outside the four changes.
pub utf32_decode-utf32_encode :
    (out : List ℕ) (size c i endian : ℕ)
    → size ≤ length out
    → IsScalar c
    → i + 4 ≤ size
    → (e : Encoded) × (utf32_encode out size c (pos i) endian ≡ some e)
      × (utf32_decode e.output size (pos i) endian
          ≡ some (record { ok = true; code_point = c; index = e.index }))
      × Wrote out i (long_bytes endian c) e.output
utf32_decode-utf32_encode out size c i endian room s fits =
    let four = length-long_bytes endian c in
    let (after, run, w) = emit-Wrote out (long_bytes endian c) i (omega arith) in
    let e : Encoded = record { ok = true; output = after; index = pos (i + 4) } in
    (
      e,
      unfold utf32_encode ◌-ℤ◌ in ground (arith, run),
      utf32_decode_complete after size i endian c s w.stands fits,
      w,
    )

-- Everything else is refused with nothing written: a negative index, a code point that is no
-- scalar value, and an output with less than four bytes left.
pub utf32_encode-refuse :
    (out : List ℕ) (size c : ℕ) (index : ℤ) (endian : ℕ)
    → ¬ ((ltb_ℤ index (pos 0) ≡ false) × IsScalar c × (pos_part index + 4 ≤ size))
    → utf32_encode out size c index endian ≡ refuse out index
unfolding utf32_encode ◌-ℤ◌
utf32_encode-refuse out size c index endian bad = ground arith
