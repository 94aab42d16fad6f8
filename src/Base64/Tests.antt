-- ===== src/Base64/Tests.antt =====
-- Witnesses of the claims on base64.h, at "abcd" with the standard tables and '=' for padding.
use cbasis.Base.{ℕ, ◌≤◌, ◌≡◌, ◌==◌, ◌||◌, refl, List, [], ◌∷◌, length, some, arith}
use cbasis.Base64.{
  base64_encode_max_size, base64_decode_max_size, base64_encode, base64_decode, has_error_value,
  error_value,
}
use cbasis.Base64.Words.{has_error_value_iff}
use cbasis.Base64.Tables.{base64_encoding_std, base64_decoding_std, tables-Matching}
use cbasis.Base64.Steps.{AllBytes}
use cbasis.Base64.RoundTrip.{FlagsAgree, base64_decode-base64_encode}
use cbasis.Base64.Bounds.{base64_decode_bounds}

abbrev letters : List ℕ
letters = 97 ∷ 98 ∷ 99 ∷ 100 ∷ []

letters-AllBytes : AllBytes letters
unfolding AllBytes
letters-AllBytes = (omega arith, (omega arith, (omega arith, (omega arith, tt))))

padded : FlagsAgree base64_encoding_std base64_decoding_std 61 1 1
padded = record { padded = λ e. refl; plain = λ e. absurd (ground (arith, e)) }

base64_decode-base64_encode_example :
    (written : List ℕ) × (base64_encode 8 letters base64_encoding_std 61 1 ≡ some written)
    × (length written ≤ base64_encode_max_size (length letters))
    × ((size : ℕ)
        → base64_encode_max_size (length written) ≤ size
        → base64_decode size written base64_decoding_std 61 1 ≡ some (letters, length written))
unfolding base64_encode_max_size
base64_decode-base64_encode_example =
    base64_decode-base64_encode base64_encoding_std base64_decoding_std 61 1 1 tables-Matching.0
      refl padded letters 8 letters-AllBytes (omega arith)

base64_decode_bounds_example :
    (out : List ℕ) × (at : ℕ) × (base64_decode 8 letters base64_decoding_std 61 0 ≡ some (out, at))
    × (length out ≤ base64_decode_max_size (length letters))
    × (at ≤ length letters)
base64_decode_bounds_example =
    base64_decode_bounds base64_decoding_std (omega arith) 61 0 letters 8 letters-AllBytes

has_error_value_iff_example :
    has_error_value 0 255 1 254
    ≡ ((0 == error_value) || ((255 == error_value) || ((1 == error_value) || (254 == error_value))))
has_error_value_iff_example =
    has_error_value_iff 0 255 1 254 (omega arith) (omega arith) (omega arith) (omega arith)
