-- ===== src/Utf/Utf16/Decode.antt =====
-- utf16_decode accepts exactly the encodings of the scalar values, in either byte order.
use cbasis.Base.{
  HasAt, ℕ, ◌+◌, ◌-◌, ◌*◌, ◌/◌, ◌%◌, ◌^◌, ◌<◌, ◌≤◌, ◌≡◌, ◌≢◌, true, List, some, none, pos, ◌==◌,
  if◌then◌else◌, length, get_or, get_elem?-eq-get_or, load, arith, bit_or, bit_and, bit_or_add,
  bit_and_mod, ◌+ℤ◌, ◌-ℤ◌, ℤ, pos_part,
}
use cbasis.Utf.{Decoded, IsScalar}
use cbasis.Utf.Bytes.{IsByte, IsBytes}
use cbasis.Utf.Utf16.{read_word, utf16_pair, utf16_decode_at, utf16_decode}
use cbasis.Utf.Utf16.Spec.{utf16_bytes}

-- The word of two bytes, by arithmetic.
read_word_lem :
    (endian a b : ℕ)
    → IsByte a
    → IsByte b
    → read_word endian a b ≡ (if endian == 0 then b * 256 + a else a * 256 + b)
unfolding read_word
read_word_lem endian a b ha hb = ground (arith, bit_or_add 8 b a, bit_or_add 8 a b)

-- A surrogate pair, by arithmetic.
pair_lem :
    (w1 w2 : ℕ)
    → bit_or (bit_and w1 0x3FF * 2 ^ 10) (bit_and w2 0x3FF) ≡ w1 % 1024 * 1024 + w2 % 1024
pair_lem w1 w2 =
    ground (arith, bit_and_mod 10 w1, bit_and_mod 10 w2, bit_or_add 10 (w1 % 1024) (w2 % 1024))

utf16_decode-inside :
    (buf : List ℕ) (size i endian : ℕ)
    → i + 2 ≤ size
    → utf16_decode buf size (pos i) endian ≡ utf16_decode_at buf i (size - i) endian
unfolding utf16_decode ◌-ℤ◌
utf16_decode-inside buf size i endian h = ground arith

utf16_decode-ok_inside :
    (buf : List ℕ) (size i endian : ℕ) (d : Decoded)
    → utf16_decode buf size (pos i) endian ≡ some d
    → d.ok ≡ true
    → i + 2 ≤ size
unfolding utf16_decode ◌-ℤ◌
utf16_decode-ok_inside buf size i endian d run ok = ground arith

-- A scalar value whose encoding in the byte order `endian` stands at `*index`, inside the input,
-- is decoded, and `*index` moves behind it.
pub utf16_decode_complete :
    (buf : List ℕ) (size i endian c : ℕ)
    → IsScalar c
    → HasAt buf i (utf16_bytes endian c)
    → i + length (utf16_bytes endian c) ≤ size
    → utf16_decode buf size (pos i) endian
      ≡ some (record { ok = true; code_point = c; index = pos (i + length (utf16_bytes endian c)) })
unfolding utf16_decode_at utf16_pair utf16_bytes ◌+ℤ◌
utf16_decode_complete buf size i endian c s h fits =
    let hi = 0xD800 + (c - 0x10000) / 1024 in
    let lo = 0xDC00 + (c - 0x10000) % 1024 in
    ground (
      arith,
      utf16_decode-inside buf size i endian,
      read_word_lem endian (c % 256) (c / 256),
      read_word_lem endian (c / 256) (c % 256),
      read_word_lem endian (hi % 256) (hi / 256),
      read_word_lem endian (hi / 256) (hi % 256),
      read_word_lem endian (lo % 256) (lo / 256),
      read_word_lem endian (lo / 256) (lo % 256),
      pair_lem hi lo,
    )

module _ (buf : List ℕ) (size i endian : ℕ) (bytes : IsBytes buf) (fits : size ≤ length buf)
    (d : Decoded) where
  loads : (k : ℕ) → i + k < size → load buf (i + k) ≡ some (get_or buf (i + k) 0)
  loads k h = get_elem?-eq-get_or buf (i + k) 0 (omega arith)

  -- What `utf16_decode` accepts is a scalar value, and the bytes that it moved `*index` over are
  -- the encoding of it in the byte order `endian`, inside the input.
  pub utf16_decode_sound :
      utf16_decode buf size (pos i) endian ≡ some d
      → d.ok ≡ true
      → IsScalar d.code_point
        × HasAt buf i (utf16_bytes endian d.code_point)
        × (d.index ≡ pos (i + length (utf16_bytes endian d.code_point)))
        × (i + length (utf16_bytes endian d.code_point) ≤ size)
  unfolding utf16_decode_at utf16_pair utf16_bytes ◌+ℤ◌
  utf16_decode_sound run ok =
      let a = get_or buf i 0 in
      let b = get_or buf (i + 1) 0 in
      let e = get_or buf (i + 2) 0 in
      let f = get_or buf (i + 3) 0 in
      ground (
        arith,
        utf16_decode-ok_inside buf size i endian d run ok,
        utf16_decode-inside buf size i endian,
        get_elem?-eq-get_or buf i 0,
        loads 1,
        loads 2,
        loads 3,
        bytes i,
        bytes (i + 1),
        bytes (i + 2),
        bytes (i + 3),
        read_word_lem endian a b,
        read_word_lem endian e f,
        pair_lem (read_word endian a b) (read_word endian e f),
      )

-- A decode that is given no more than the buffer holds never reads outside it.
pub utf16_decode-ne-none :
    (buf : List ℕ) (size : ℕ) (index : ℤ) (endian : ℕ)
    → size ≤ length buf
    → utf16_decode buf size index endian ≢ none
unfolding utf16_decode utf16_decode_at utf16_pair ◌-ℤ◌
utf16_decode-ne-none buf size index endian fits = ground (
  arith,
  get_elem?-eq-get_or buf (pos_part index) 0,
  get_elem?-eq-get_or buf (pos_part index + 1) 0,
  get_elem?-eq-get_or buf (pos_part index + 2) 0,
  get_elem?-eq-get_or buf (pos_part index + 3) 0,
)
