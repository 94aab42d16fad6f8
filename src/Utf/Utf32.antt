-- ===== src/Utf/Utf32.antt =====
-- utf32_decode and utf32_encode of utf.h.
pub mod Laws
use cbasis.Base.{
  ℕ, ◌+◌, ◌*◌, ◌/◌, ◌%◌, ◌^◌, true, false, ◌&&◌, ◌||◌, ltb, leb, ◌==◌, if◌then◌else◌, List, [], ◌∷◌,
  Option, some, load, ◌>>=◌, ℤ, pos, pos_part, neg_part, ◌+ℤ◌, ◌-ℤ◌, ltb_ℤ, bit_or,
}
use cbasis.Utf.{Decoded, Encoded, no_code_point}
use cbasis.Utf.Output.{emit, refuse}

-- Four bytes read as a 32-bit number, by `|=` into 0.
unfoldable pub read_long : ℕ → ℕ → ℕ → ℕ → ℕ → ℕ
read_long endian in0 in1 in2 in3 =
    if endian == 0
    then bit_or (bit_or (bit_or (bit_or 0 in0) (in1 * 2 ^ 8)) (in2 * 2 ^ 16)) (in3 * 2 ^ 24)
    else bit_or (bit_or (bit_or (bit_or 0 (in0 * 2 ^ 24)) (in1 * 2 ^ 16)) (in2 * 2 ^ 8)) in3

unfoldable pub utf32_decode_at : List ℕ → ℕ → ℕ → Option Decoded
utf32_decode_at buf i endian = do
  in0 ← load buf i
  in1 ← load buf (i + 1)
  in2 ← load buf (i + 2)
  in3 ← load buf (i + 3)
  let code_point = read_long endian in0 in1 in2 in3
  if (leb 0xD800 code_point && leb code_point 0xDFFF) || ltb 0x10FFFF code_point
      then some (record { ok = false; code_point = no_code_point; index = pos i })
      else some (record { ok = true; code_point = code_point; index = pos i +ℤ pos 4 })

unfoldable pub utf32_decode : List ℕ → ℕ → ℤ → ℕ → Option Decoded
utf32_decode buf size index endian =
    let rem = pos size -ℤ index in
    if ltb_ℤ rem (pos 4) || ltb_ℤ (pos size) rem
    then some (record {
      ok = false;
      code_point = if pos_part rem + neg_part rem == 0 then 0 else no_code_point;
      index = index;
    })
    else utf32_decode_at buf (pos_part index) endian

unfoldable pub long_bytes : ℕ → ℕ → List ℕ
long_bytes endian c =
    if endian == 0
    then (c % 256) ∷ (c / 2 ^ 8 % 256) ∷ (c / 2 ^ 16 % 256) ∷ (c / 2 ^ 24 % 256) ∷ []
    else (c / 2 ^ 24 % 256) ∷ (c / 2 ^ 16 % 256) ∷ (c / 2 ^ 8 % 256) ∷ (c % 256) ∷ []

unfoldable pub utf32_encode : List ℕ → ℕ → ℕ → ℤ → ℕ → Option Encoded
utf32_encode out size c index endian =
    let rem = pos size -ℤ index in
    if (leb 0xD800 c && leb c 0xDFFF) || ltb 0x10FFFF c || ltb_ℤ rem (pos 4) || ltb_ℤ (pos size) rem
    then refuse out index
    else emit out index (long_bytes endian c)
