-- ===== src/Base64/Steps.antt =====
-- The steps of base64_encode, and of the loop of base64_decode.
use cbasis.Base.{
  ℕ, zero, suc, ◌*◌, ◌/◌, ◌%◌, ◌^◌, ◌<◌, ◌≡◌, ◌≢◌, ◌⊎◌, refl, ap, false, List, [], ◌∷◌, ◌++◌,
  length, some, arith,
}
use cbasis.Base64.{
  has_flag, pad_if, encode_pad, decode_pad_always, encode_bytes, decode_chunks, Progress, continue,
  decode_block, decode_loop,
}
use cbasis.Base64.Chars.{
  Matching, value_1, value_2, first_bits, middle_bits, last_first_bits, last_middle_bits, low_bits,
}

unfoldable pub AllBytes : List ℕ → Type 0
AllBytes [] = Unit {0}
AllBytes (a ∷ rest) = (a < 2 ^ 8) × AllBytes rest

pub append_assoc : (xs ys zs : List ℕ) → (xs ++ ys) ++ zs ≡ xs ++ (ys ++ zs)
append_assoc [] ys zs = refl
append_assoc (x ∷ xs) ys zs = ap (◌∷◌ x) (append_assoc xs ys zs)

module _ (encoding decoding : List ℕ) (pad_char encode_flags decode_flags : ℕ) where
  pub loop_same :
      (fuel input_size : ℕ) (s t : Progress)
      → decode_chunks decoding s.rest s.in_i s.out ≡ decode_chunks decoding t.rest t.in_i t.out
      → decode_loop (suc fuel) decoding pad_char decode_flags input_size s
        ≡ decode_loop (suc fuel) decoding pad_char decode_flags input_size t
  unfolding decode_loop
  loop_same fuel input_size s t e = ground (arith, e)

  pub loop_end :
      (fuel input_size in_i : ℕ) (out : List ℕ)
      → decode_loop
          (suc fuel)
          decoding
          pad_char
          decode_flags
          input_size
          (record { rest = []; in_i = in_i; out = out })
        ≡ some (record { rest = []; in_i = in_i; out = out })
  unfolding decode_loop decode_chunks
  loop_end fuel input_size in_i out = ground arith

  -- The last block, when the loop goes on behind it and finds the end.
  pub loop_last :
      (fuel input_size : ℕ) (s : Progress) (in_i : ℕ) (out : List ℕ)
      → decode_chunks decoding s.rest s.in_i s.out ≡ some s
      → length s.rest ≢ 0
      → (input_size % 4 ≡ 0) ⊎ (has_flag decode_flags decode_pad_always ≡ false)
      → decode_block decoding pad_char decode_flags s
        ≡ some (continue (record { rest = []; in_i = in_i; out = out }))
      → 0 < fuel
      → decode_loop (suc fuel) decoding pad_char decode_flags input_size s
        ≡ some (record { rest = []; in_i = in_i; out = out })
  unfolding decode_loop
  loop_last zero input_size s in_i out chunks some_left padded block pos = absurd (omega arith)
  loop_last (suc fuel) input_size s in_i out chunks some_left padded block pos =
      ground (arith, chunks, padded, block, loop_end fuel input_size in_i out)

  module _ (tables : Matching encoding decoding) where
    pub encode_three :
        (a b c : ℕ) (rest out : List ℕ)
        → a < 2 ^ 8
        → b < 2 ^ 8
        → c < 2 ^ 8
        → encode_bytes encoding pad_char encode_flags rest ≡ some out
        → encode_bytes encoding pad_char encode_flags (a ∷ b ∷ c ∷ rest)
          ≡ some (
              tables.char (a / 4)
              ∷ tables.char (value_1 a b)
              ∷ tables.char (value_2 b c)
              ∷ tables.char (c % 64)
              ∷ out)
    unfolding encode_bytes
    encode_three a b c rest out ha hb hc run = ground (
      arith,
      tables.encodes (a / 4) (omega arith),
      first_bits a b hb,
      tables.encodes (value_1 a b) (omega arith),
      middle_bits b c hc,
      tables.encodes (value_2 b c) (omega arith),
      low_bits c,
      tables.encodes (c % 64) (omega arith),
      run,
    )

    pub encode_one :
        (a : ℕ)
        → a < 2 ^ 8
        → encode_bytes encoding pad_char encode_flags (a ∷ [])
          ≡ some (
              tables.char (a / 4)
              ∷ tables.char (a % 4 * 16)
              ∷ (pad_if (has_flag encode_flags encode_pad) pad_char
                  ++ pad_if (has_flag encode_flags encode_pad) pad_char))
    unfolding encode_bytes
    encode_one a ha = ground (
      arith,
      tables.encodes (a / 4) (omega arith),
      last_first_bits a,
      tables.encodes (a % 4 * 16) (omega arith),
    )

    pub encode_two :
        (a b : ℕ)
        → a < 2 ^ 8
        → b < 2 ^ 8
        → encode_bytes encoding pad_char encode_flags (a ∷ b ∷ [])
          ≡ some (
              tables.char (a / 4)
              ∷ tables.char (value_1 a b)
              ∷ tables.char (b % 16 * 4)
              ∷ pad_if (has_flag encode_flags encode_pad) pad_char)
    unfolding encode_bytes
    encode_two a b ha hb = ground (
      arith,
      tables.encodes (a / 4) (omega arith),
      first_bits a b hb,
      tables.encodes (value_1 a b) (omega arith),
      last_middle_bits b,
      tables.encodes (b % 16 * 4) (omega arith),
    )
