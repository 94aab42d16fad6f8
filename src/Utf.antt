-- ===== src/Utf.antt =====
-- utf.h: code points, and what the decoders and encoders return.
pub mod Bytes
pub mod Output
pub mod Utf8
pub mod Utf16
pub mod Utf32
mod Tests
use cbasis.Base.{ℕ, ◌≡◌, ◌↔◌, true, arith, Bool, ◌<◌, ◌≤◌, ◌⊎◌, ltb, leb, ◌&&◌, ◌||◌, List, ℤ}

-- The out parameters of a decoder beside its result: `*out_code_point` and `*index`.
pub record Decoded : Type 0 where
  pub ok : Bool
  pub code_point : ℕ
  pub index : ℤ

-- The output buffer of an encoder and its `*index`, beside its result.
pub record Encoded : Type 0 where
  pub ok : Bool
  pub output : List ℕ
  pub index : ℤ

-- `(uint32_t) -1`
abbrev pub no_code_point : ℕ
no_code_point = 0xFFFFFFFF

unfoldable pub utf_is_valid_codepoint : ℕ → Bool
utf_is_valid_codepoint code_point =
    (ltb code_point 0xD800 || ltb 0xDFFF code_point) && leb code_point 0x10FFFF

-- A Unicode scalar value: in range, and no surrogate.
abbrev pub IsScalar : ℕ → Type 0
IsScalar c = ((c < 0xD800) ⊎ (0xDFFF < c)) × (c ≤ 0x10FFFF)

-- `utf_is_valid_codepoint` holds exactly of the scalar values.
pub utf_is_valid_codepoint_iff : (c : ℕ) → (utf_is_valid_codepoint c ≡ true) ↔ IsScalar c
unfolding utf_is_valid_codepoint
utf_is_valid_codepoint_iff c = ground arith
