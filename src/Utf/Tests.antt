-- ===== src/Utf/Tests.antt =====
-- Runs of utf.h, and the theorems at the euro sign U+20AC and at U+1F600.
use cbasis.Base.{
  ℕ, zero, suc, ◌+◌, ◌≤◌, ◌≡◌, ◌≢◌, inl, inr, refl, true, false, List, [], ◌∷◌, some, none, length,
  replicate, HasAt, Wrote, store_all, pos, negsuc, ◌+ℤ◌, ◌-ℤ◌, arith,
}
use cbasis.Utf.{Decoded, Encoded, IsScalar}
use cbasis.Utf.Bytes.{IsBytes}
use cbasis.Utf.Output.{refuse, emit}
use cbasis.Utf.Utf8.{
  utf8_decode, utf8_decode_at, utf8_branch, read_two, read_three, read_four, two_bytes, three_bytes,
  four_bytes, utf8_finish, utf8_encode,
}
use cbasis.Utf.Utf8.Spec.{utf8_bytes}
use cbasis.Utf.Utf8.Decode.{utf8_decode_complete, utf8_decode_sound, utf8_decode-ne-none}
use cbasis.Utf.Utf8.Encode.{utf8_encode-Wrote, utf8_encode-refuse, utf8_decode-utf8_encode}
use cbasis.Utf.Utf16.{utf16_decode, utf16_decode_at, utf16_pair, read_word, utf16_encode}
use cbasis.Utf.Utf16.Spec.{utf16_bytes}
use cbasis.Utf.Utf16.Decode.{utf16_decode_complete, utf16_decode_sound}
use cbasis.Utf.Utf16.Encode.{utf16_decode-utf16_encode}
use cbasis.Utf.Utf32.{utf32_decode, utf32_decode_at, read_long, utf32_encode, long_bytes}
use cbasis.Utf.Utf32.Laws.{utf32_decode_sound}

runs : Unit {0}
unfolding utf8_decode utf8_decode_at utf8_branch read_two read_three read_four two_bytes three_bytes
    four_bytes utf8_finish utf8_encode emit store_all utf8_bytes ◌+ℤ◌ ◌-ℤ◌ utf16_decode
    utf16_decode_at utf16_pair read_word utf16_encode utf16_bytes utf32_decode utf32_decode_at
    read_long utf32_encode long_bytes
runs = tt

abbrev euro : List ℕ
euro = 0xE2 ∷ 0x82 ∷ 0xAC ∷ []

abbrev euro_decoded : Decoded
euro_decoded = record { ok = true; code_point = 0x20AC; index = pos 3 }

euro_runs : utf8_decode euro 3 (pos 0) ≡ some euro_decoded
unfolding runs
euro_runs = refl

-- An overlong encoding, a surrogate and a truncated sequence are errors.
rejected_runs :
    (utf8_decode (0xC0 ∷ 0x80 ∷ []) 2 (pos 0)
      ≡ some (record { ok = false; code_point = 0xFFFFFFFF; index = pos 0 }))
    × (utf8_decode (0xED ∷ 0xA0 ∷ 0x80 ∷ []) 3 (pos 0)
        ≡ some (record { ok = false; code_point = 0xFFFFFFFF; index = pos 0 }))
    × (utf8_decode euro 2 (pos 0)
        ≡ some (record { ok = false; code_point = 0xFFFFFFFF; index = pos 0 }))
    × (utf8_decode euro 3 (negsuc 0)
        ≡ some (record { ok = false; code_point = 0; index = negsuc 0 }))
unfolding runs
rejected_runs = (refl, refl, refl, refl)

euro-IsBytes : IsBytes euro
euro-IsBytes zero = omega arith
euro-IsBytes (suc zero) = omega arith
euro-IsBytes (suc (suc zero)) = omega arith
euro-IsBytes (suc (suc (suc i))) = omega arith

euro-IsScalar : IsScalar 0x20AC
euro-IsScalar = (inl (omega arith), omega arith)

smile-IsScalar : IsScalar 0x1F600
smile-IsScalar = (inr (omega arith), omega arith)

not_surrogate : ¬ IsScalar 0xD800
not_surrogate h = ground arith

utf8_decode-complete_example :
    utf8_decode euro 3 (pos 0)
    ≡ some (record { ok = true; code_point = 0x20AC; index = pos (0 + length (utf8_bytes 0x20AC)) })
utf8_decode-complete_example =
    utf8_decode_complete euro 3 0 0x20AC euro-IsScalar
      (unfold utf8_bytes in (refl, (refl, (refl, tt)))) (unfold utf8_bytes in omega arith)

utf8_decode-sound_example :
    IsScalar 0x20AC
    × HasAt euro 0 (utf8_bytes 0x20AC)
    × (pos 3 ≡ pos (0 + length (utf8_bytes 0x20AC)))
    × (0 + length (utf8_bytes 0x20AC) ≤ 3)
utf8_decode-sound_example =
    utf8_decode_sound euro 3 0 euro_decoded euro-IsBytes (omega arith) euro_runs refl

utf8_decode-ne-none_example : utf8_decode euro 2 (pos 0) ≢ none
utf8_decode-ne-none_example = utf8_decode-ne-none euro 2 (pos 0) (omega arith)

abbrev truncated : Decoded
truncated = record { ok = false; code_point = 0xFFFFFFFF; index = pos 0 }

abbrev room : List ℕ
room = replicate 8 0

utf8_encode-Wrote_example :
    (after : List ℕ) × (utf8_encode room 8 0x20AC (pos 2)
      ≡ some (record { ok = true; output = after; index = pos (2 + length (utf8_bytes 0x20AC)) }))
    × Wrote room 2 (utf8_bytes 0x20AC) after
utf8_encode-Wrote_example =
    utf8_encode-Wrote room 8 0x20AC 2 (omega arith) euro-IsScalar (unfold utf8_bytes in omega arith)

utf8_encode-refuse_example : utf8_encode room 8 0xD800 (pos 2) ≡ refuse room (pos 2)
utf8_encode-refuse_example = utf8_encode-refuse room 8 0xD800 (pos 2) (λ h. not_surrogate h.1)

utf8_decode-utf8_encode_example :
    (e : Encoded) × (utf8_encode room 8 0x1F600 (pos 2) ≡ some e)
    × (utf8_decode e.output 8 (pos 2)
        ≡ some (record { ok = true; code_point = 0x1F600; index = e.index }))
utf8_decode-utf8_encode_example =
    utf8_decode-utf8_encode room 8 0x1F600 2 (omega arith) smile-IsScalar
      (unfold utf8_bytes in omega arith)

abbrev smile : List ℕ
smile = 0x3D ∷ 0xD8 ∷ 0x00 ∷ 0xDE ∷ []

abbrev smile_decoded : Decoded
smile_decoded = record { ok = true; code_point = 0x1F600; index = pos 4 }

smile_runs : utf16_decode smile 4 (pos 0) 0 ≡ some smile_decoded
unfolding runs
smile_runs = refl

smile-IsBytes : IsBytes smile
smile-IsBytes zero = omega arith
smile-IsBytes (suc zero) = omega arith
smile-IsBytes (suc (suc zero)) = omega arith
smile-IsBytes (suc (suc (suc zero))) = omega arith
smile-IsBytes (suc (suc (suc (suc i)))) = omega arith

utf16_decode-complete_example :
    utf16_decode smile 4 (pos 0) 0
    ≡ some (record {
      ok = true;
      code_point = 0x1F600;
      index = pos (0 + length (utf16_bytes 0 0x1F600));
    })
utf16_decode-complete_example =
    utf16_decode_complete smile 4 0 0 0x1F600 smile-IsScalar
      (unfold utf16_bytes in (refl, (refl, (refl, (refl, tt))))) (unfold utf16_bytes in omega arith)

utf16_decode-sound_example :
    IsScalar 0x1F600
    × HasAt smile 0 (utf16_bytes 0 0x1F600)
    × (pos 4 ≡ pos (0 + length (utf16_bytes 0 0x1F600)))
    × (0 + length (utf16_bytes 0 0x1F600) ≤ 4)
utf16_decode-sound_example =
    utf16_decode_sound smile 4 0 0 smile-IsBytes (omega arith) smile_decoded smile_runs refl

utf16_decode-utf16_encode_example :
    (e : Encoded) × (utf16_encode room 8 0x1F600 (pos 2) 1 ≡ some e)
    × (utf16_decode e.output 8 (pos 2) 1
        ≡ some (record { ok = true; code_point = 0x1F600; index = e.index }))
utf16_decode-utf16_encode_example =
    utf16_decode-utf16_encode room 8 0x1F600 2 1 (omega arith) smile-IsScalar
      (unfold utf16_bytes in omega arith)

abbrev euro32 : List ℕ
euro32 = 0xAC ∷ 0x20 ∷ 0 ∷ 0 ∷ []

euro32-IsBytes : IsBytes euro32
euro32-IsBytes zero = omega arith
euro32-IsBytes (suc zero) = omega arith
euro32-IsBytes (suc (suc zero)) = omega arith
euro32-IsBytes (suc (suc (suc zero))) = omega arith
euro32-IsBytes (suc (suc (suc (suc i)))) = omega arith

abbrev euro32_decoded : Decoded
euro32_decoded = record { ok = true; code_point = 0x20AC; index = pos 4 }

euro32_runs : utf32_decode euro32 4 (pos 0) 0 ≡ some euro32_decoded
unfolding runs
euro32_runs = refl

utf32_decode-sound_example :
    IsScalar 0x20AC × HasAt euro32 0 (long_bytes 0 0x20AC) × (pos 4 ≡ pos (0 + 4)) × (0 + 4 ≤ 4)
utf32_decode-sound_example =
    utf32_decode_sound euro32 4 0 0 euro32_decoded euro32-IsBytes (omega arith) euro32_runs refl
