-- ===== src/Utf/Utf8.antt =====
-- utf8_decode and utf8_encode of utf.h. A buffer is a list of bytes, and a read or write outside
-- it is a fault, `none`. `*index` is signed: the guards at the top reject a negative one.
pub mod Spec
pub mod Sequences
pub mod Decode
pub mod Encode
use cbasis.Base.{
  ℕ, ◌+◌, ◌*◌, ◌/◌, ◌%◌, ◌^◌, Bool, true, false, ◌&&◌, ◌||◌, ltb, leb, ◌==◌, if◌then◌else◌, List,
  [], ◌∷◌, Option, some, none, load, store, ◌>>=◌, ℤ, pos, pos_part, ◌+ℤ◌, ◌-ℤ◌, ltb_ℤ, bit_and,
  bit_or, bit_xor,
}
use cbasis.Utf.{Decoded, Encoded, no_code_point}
use cbasis.Utf.Output.{emit, refuse}

-- The local variables that the branches of `utf8_decode` set.
pub record Sequence : Type 0 where
  pub code_point_len : ℕ
  pub code_point_min : ℕ
  pub code_point_max : ℕ
  pub code_point : ℕ
  pub code_error : ℕ

unfoldable pub two_bytes : ℕ → ℕ → Sequence
two_bytes first in1 = record {
  code_point_len = 2;
  code_point_min = 0x80;
  code_point_max = 0x07FF;
  code_point = bit_or (bit_xor first 0xC0 * 2 ^ 6) (bit_xor in1 0x80);
  code_error = bit_xor in1 0x80;
}

unfoldable pub three_bytes : ℕ → ℕ → ℕ → Sequence
three_bytes first in1 in2 = record {
  code_point_len = 3;
  code_point_min = 0x0800;
  code_point_max = 0xFFFF;
  code_point =
      bit_or (bit_or (bit_xor first 0xE0 * 2 ^ 12) (bit_xor in1 0x80 * 2 ^ 6)) (bit_xor in2 0x80);
  code_error = bit_or (bit_xor in1 0x80) (bit_xor in2 0x80);
}

unfoldable pub four_bytes : ℕ → ℕ → ℕ → ℕ → Sequence
four_bytes first in1 in2 in3 = record {
  code_point_len = 4;
  code_point_min = 0x10000;
  code_point_max = 0x10FFFF;
  code_point =
      bit_or
        (bit_or (bit_or (bit_xor first 0xF0 * 2 ^ 18) (bit_xor in1 0x80 * 2 ^ 12))
          (bit_xor in2 0x80 * 2 ^ 6))
        (bit_xor in3 0x80);
  code_error = bit_or (bit_or (bit_xor in1 0x80) (bit_xor in2 0x80)) (bit_xor in3 0x80);
}

-- The three branches on the first byte. The inner `none` is `goto error`.
unfoldable pub read_two : List ℕ → ℕ → ℕ → ℕ → Option (Option Sequence)
read_two buf i rem first =
    if ltb rem 2 then some none else (load buf (i + 1) >>= λ in1. some (some (two_bytes first in1)))

abbrev pub reject_surrogate : Sequence → Option Sequence
reject_surrogate s = if leb 0xD800 s.code_point && leb s.code_point 0xDFFF then none else some s

unfoldable pub read_three : List ℕ → ℕ → ℕ → ℕ → Option (Option Sequence)
read_three buf i rem first =
    if ltb rem 3
    then some none
    else (load buf (i + 1) >>= λ in1.
        load buf (i + 2) >>= λ in2. some (reject_surrogate (three_bytes first in1 in2)))

unfoldable pub read_four : List ℕ → ℕ → ℕ → ℕ → Option (Option Sequence)
read_four buf i rem first =
    if ltb rem 4
    then some none
    else (load buf (i + 1) >>= λ in1. load buf (i + 2) >>= λ in2.
        load buf (i + 3) >>= λ in3. some (some (four_bytes first in1 in2 in3)))

unfoldable pub utf8_branch : List ℕ → ℕ → ℕ → ℕ → Option (Option Sequence)
utf8_branch buf i rem first =
    if ltb (bit_and first 0xF0) 0xE0
    then read_two buf i rem first
    else if bit_and first 0xF0 == 0xE0
    then read_three buf i rem first
    else read_four buf i rem first

-- The check that the branches share, and the label `error`.
unfoldable pub utf8_finish : ℤ → Option Sequence → Decoded
utf8_finish index none = record { ok = false; code_point = no_code_point; index = index }
utf8_finish index (some s) =
    if ltb s.code_point s.code_point_min
      || ltb s.code_point_max s.code_point
      || ltb 0x3F s.code_error
    then record { ok = false; code_point = no_code_point; index = index }
    else record { ok = true; code_point = s.code_point; index = index +ℤ pos s.code_point_len }

-- What follows the guard on `rem`, which makes `*index` a number `i` and `rem` a positive one.
unfoldable pub utf8_decode_at : List ℕ → ℕ → ℕ → Option Decoded
utf8_decode_at buf i rem = do
  first ← load buf i
  if leb first 0x7F
      then some (record { ok = true; code_point = first; index = pos i +ℤ pos 1 })
      else (utf8_branch buf i rem first >>= λ s. some (utf8_finish (pos i) s))

unfoldable pub utf8_decode : List ℕ → ℕ → ℤ → Option Decoded
utf8_decode buf size index =
    let rem = pos size -ℤ index in
    if ltb_ℤ rem (pos 1) || ltb_ℤ (pos size) rem
    then some (record { ok = false; code_point = 0; index = index })
    else utf8_decode_at buf (pos_part index) (pos_part rem)

-- `rem > output_size` is a negative index.
unfoldable pub utf8_encode : List ℕ → ℕ → ℕ → ℤ → Option Encoded
utf8_encode out size c index =
    let rem = pos size -ℤ index in
    if ltb_ℤ (pos size) rem
    then refuse out index
    else if leb c 0x7F
    then if ltb_ℤ rem (pos 1) then refuse out index else emit out index (c % 256 ∷ [])
    else if leb c 0x07FF
    then if ltb_ℤ rem (pos 2)
      then refuse out index
      else emit out index
          (bit_or (bit_and (c / 2 ^ 6) 0x1F) 0xC0 ∷ bit_or (bit_and c 0x3F) 0x80 ∷ [])
    else if leb c 0xFFFF
    then if ltb_ℤ rem (pos 3)
      then refuse out index
      else if leb 0xD800 c && leb c 0xDFFF
      then refuse out index
      else emit out index (
          bit_or (bit_and (c / 2 ^ 12) 0x0F) 0xE0
          ∷ bit_or (bit_and (c / 2 ^ 6) 0x3F) 0x80
          ∷ bit_or (bit_and c 0x3F) 0x80
          ∷ [])
    else if leb c 0x10FFFF
    then if ltb_ℤ rem (pos 4)
      then refuse out index
      else emit out index (
          bit_or (bit_and (c / 2 ^ 18) 0x07) 0xF0
          ∷ bit_or (bit_and (c / 2 ^ 12) 0x3F) 0x80
          ∷ bit_or (bit_and (c / 2 ^ 6) 0x3F) 0x80
          ∷ bit_or (bit_and c 0x3F) 0x80
          ∷ [])
    else refuse out index
