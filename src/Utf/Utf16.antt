-- ===== src/Utf/Utf16.antt =====
-- utf16_decode and utf16_encode of utf.h. `endian` is any number: 0 is little endian, all else big.
pub mod Spec
pub mod Decode
pub mod Encode
use cbasis.Base.{
  ℕ, ◌+◌, ◌-◌, ◌*◌, ◌/◌, ◌%◌, ◌^◌, true, false, ◌&&◌, ◌||◌, ltb, leb, ◌==◌, if◌then◌else◌, List, [],
  ◌∷◌, Option, some, load, ◌>>=◌, ℤ, pos, pos_part, ◌+ℤ◌, ◌-ℤ◌, ltb_ℤ, neg_part, bit_and, bit_or,
}
use cbasis.Utf.{Decoded, Encoded, no_code_point}
use cbasis.Utf.Output.{emit, refuse}

-- Two bytes read as a 16-bit number.
unfoldable pub read_word : ℕ → ℕ → ℕ → ℕ
read_word endian in0 in1 =
    if endian == 0 then bit_or (in1 * 2 ^ 8) in0 else bit_or (in0 * 2 ^ 8) in1

abbrev pub fail_at : ℕ → ℤ → Option Decoded
fail_at code_point index = some (record { ok = false; code_point = code_point; index = index })

-- What follows the first word `w1` where it is in the surrogate range.
unfoldable pub utf16_pair : List ℕ → ℕ → ℕ → ℕ → ℕ → Option Decoded
utf16_pair buf i rem endian w1 =
    if ltb w1 0xD800 || ltb 0xDBFF w1 || ltb rem 4
    then fail_at no_code_point (pos i)
    else (load buf (i + 2) >>= λ in2. load buf (i + 3) >>= λ in3.
        let w2 = read_word endian in2 in3 in
        if ltb w2 0xDC00 || ltb 0xDFFF w2
        then fail_at no_code_point (pos i)
        else some (record {
          ok = true;
          code_point = bit_or (bit_and w1 0x3FF * 2 ^ 10) (bit_and w2 0x3FF) + 0x10000;
          index = pos i +ℤ pos 4;
        }))

unfoldable pub utf16_decode_at : List ℕ → ℕ → ℕ → ℕ → Option Decoded
utf16_decode_at buf i rem endian = do
  in0 ← load buf i
  in1 ← load buf (i + 1)
  let w1 = read_word endian in0 in1
  if ltb w1 0xD800 || ltb 0xDFFF w1
      then some (record { ok = true; code_point = w1; index = pos i +ℤ pos 2 })
      else utf16_pair buf i rem endian w1

-- `rem == 0` is the end of the input.
unfoldable pub utf16_decode : List ℕ → ℕ → ℤ → ℕ → Option Decoded
utf16_decode buf size index endian =
    let rem = pos size -ℤ index in
    if ltb_ℤ rem (pos 2) || ltb_ℤ (pos size) rem
    then fail_at (if pos_part rem + neg_part rem == 0 then 0 else no_code_point) index
    else utf16_decode_at buf (pos_part index) (pos_part rem) endian

-- A 16-bit word as it is stored.
unfoldable pub word_bytes : ℕ → ℕ → List ℕ
word_bytes endian w =
    if endian == 0
    then bit_and w 0xFF ∷ (w / 2 ^ 8 % 256) ∷ []
    else (w / 2 ^ 8 % 256) ∷ bit_and w 0xFF ∷ []

unfoldable pub pair_bytes : ℕ → ℕ → ℕ → List ℕ
pair_bytes endian w1 w2 =
    if endian == 0
    then bit_and w1 0xFF ∷ (w1 / 2 ^ 8 % 256) ∷ bit_and w2 0xFF ∷ (w2 / 2 ^ 8 % 256) ∷ []
    else (w1 / 2 ^ 8 % 256) ∷ bit_and w1 0xFF ∷ (w2 / 2 ^ 8 % 256) ∷ bit_and w2 0xFF ∷ []

unfoldable pub utf16_encode : List ℕ → ℕ → ℕ → ℤ → ℕ → Option Encoded
utf16_encode out size c index endian =
    let rem = pos size -ℤ index in
    if ltb_ℤ rem (pos 2) || ltb_ℤ (pos size) rem
    then refuse out index
    else if ltb c 0x10000
    then if leb 0xD800 c && leb c 0xDFFF
      then refuse out index
      else emit out index (word_bytes endian c)
    else if ltb 0x10FFFF c || ltb_ℤ rem (pos 4)
    then refuse out index
    else let prime = c - 0x10000 in
      emit out index
        (pair_bytes endian (bit_or 0xD800 (prime / 2 ^ 10)) (bit_or 0xDC00 (bit_and prime 0x3FF)))
