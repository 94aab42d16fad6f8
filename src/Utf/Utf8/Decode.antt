-- ===== src/Utf/Utf8/Decode.antt =====
-- utf8_decode accepts exactly the encodings of the scalar values.
use cbasis.Base.{
  HasAt, ℕ, ◌+◌, ◌-◌, ◌/◌, ◌<◌, ◌≤◌, ◌≡◌, refl, true, false, List, some, none, pos, leb, ltb_ℤ,
  pos_part, ◌||◌, if◌then◌else◌, ◌≢◌, sym, ◌∙◌, length, get_or, get_elem?-eq-get_or, arith, load,
  ◌+ℤ◌, ◌-ℤ◌, ℤ,
}
use native.Mathlib.Decide.{dec_lt}
use cbasis.Utf.{Decoded, IsScalar, no_code_point}
use cbasis.Utf.Bytes.{IsByte, IsBytes, and_f0}
use cbasis.Utf.Utf8.{
  utf8_decode, utf8_decode_at, utf8_branch, read_two, read_three, read_four, utf8_finish,
}
use cbasis.Utf.Utf8.Spec.{utf8_bytes}
use cbasis.Utf.Utf8.Sequences.{
  Accepted, two_bytes_sound, three_bytes_sound, four_bytes_sound, two_bytes_complete,
  three_bytes_complete, four_bytes_complete,
}

-- Inside the input the guard passes, and the rest of the function sees plain numbers.
utf8_decode-inside :
    (buf : List ℕ) (size i : ℕ)
    → i < size
    → utf8_decode buf size (pos i) ≡ utf8_decode_at buf i (size - i)
unfolding utf8_decode ◌-ℤ◌
utf8_decode-inside buf size i h = ground arith

utf8_decode-ok_inside :
    (buf : List ℕ) (size i : ℕ) (d : Decoded)
    → utf8_decode buf size (pos i) ≡ some d
    → d.ok ≡ true
    → i < size
unfolding utf8_decode ◌-ℤ◌
utf8_decode-ok_inside buf size i d run ok = ground arith

-- A scalar value whose encoding stands at `*index`, inside the input, is decoded, and `*index`
-- moves behind it.
pub utf8_decode_complete :
    (buf : List ℕ) (size i c : ℕ)
    → IsScalar c
    → HasAt buf i (utf8_bytes c)
    → i + length (utf8_bytes c) ≤ size
    → utf8_decode buf size (pos i) ≡ some (Accepted i (length (utf8_bytes c)) c)
unfolding utf8_decode_at utf8_branch read_two read_three read_four utf8_bytes ◌+ℤ◌
utf8_decode_complete buf size i c s h fits = ground (
  arith,
  utf8_decode-inside buf size i,
  two_bytes_complete i c,
  three_bytes_complete i c,
  four_bytes_complete i c,
  and_f0 (0xC0 + c / 64),
  and_f0 (0xE0 + c / 4096),
  and_f0 (0xF0 + c / 262144),
)

-- What an accepted decode says, in a form that each branch fills.
record Sound (buf : List ℕ) (size i : ℕ) (d : Decoded) : Type 0 where
  scalar : IsScalar d.code_point
  stands : HasAt buf i (utf8_bytes d.code_point)
  moved : d.index ≡ pos (i + length (utf8_bytes d.code_point))
  inside : i + length (utf8_bytes d.code_point) ≤ size

module _ (buf : List ℕ) (size i : ℕ) (bytes : IsBytes buf) (fits : size ≤ length buf) (d : Decoded)
    (inside : i < size) (run : utf8_decode_at buf i (size - i) ≡ some d) (ok : d.ok ≡ true) where
  abbrev in0 : ℕ
  in0 = get_or buf i 0

  loads : (k : ℕ) → i + k < size → load buf (i + k) ≡ some (get_or buf (i + k) 0)
  loads k h = get_elem?-eq-get_or buf (i + k) 0 (omega arith)

  first : load buf i ≡ some in0
  first = get_elem?-eq-get_or buf i 0 (omega arith)

  abbrev byte : (k : ℕ) → IsByte (get_or buf (i + k) 0)
  byte k = bytes (i + k)

  error : (utf8_finish (pos i) none).ok ≡ false
  error = unfold utf8_finish in refl

  one : in0 < 0x80 → Sound buf size i d
  unfolding utf8_decode_at utf8_bytes ◌+ℤ◌
  one h = ground (arith, first)

  two : 0x80 ≤ in0 → in0 < 0xE0 → Sound buf size i d
  unfolding utf8_decode_at utf8_branch read_two utf8_bytes
  two lo hi = ground (
    arith,
    first,
    error,
    loads 1,
    and_f0 in0 (bytes i),
    two_bytes_sound i in0 (get_or buf (i + 1) 0) (bytes i) (byte 1) d,
  )

  three : 0xE0 ≤ in0 → in0 < 0xF0 → Sound buf size i d
  unfolding utf8_decode_at utf8_branch read_three utf8_bytes
  three lo hi = ground (
    arith,
    first,
    error,
    loads 1,
    loads 2,
    and_f0 in0 (bytes i),
    three_bytes_sound i in0 (get_or buf (i + 1) 0) (bytes i) (byte 1) (get_or buf (i + 2) 0) d
        (byte 2),
  )

  four : 0xF0 ≤ in0 → Sound buf size i d
  unfolding utf8_decode_at utf8_branch read_four utf8_bytes
  four lo = ground (
    arith,
    first,
    error,
    loads 1,
    loads 2,
    loads 3,
    and_f0 in0 (bytes i),
    four_bytes_sound i in0 (get_or buf (i + 1) 0) (bytes i) (byte 1) (get_or buf (i + 2) 0)
        (get_or buf (i + 3) 0) d (byte 2) (byte 3),
  )

  decode_at-Sound : Sound buf size i d
  decode_at-Sound = elim (dec_lt in0 0x80) [
    | yes p ↦ one p
    | no p ↦ elim (dec_lt in0 0xE0) [
      | yes q ↦ two (omega arith) q
      | no q ↦ elim (dec_lt in0 0xF0) [ yes r ↦ three (omega arith) r | no r ↦ four (omega arith) ]
    ]
  ]

-- What `utf8_decode` accepts is a scalar value, and the bytes that it moved `*index` over are
-- the encoding of it, inside the input.
pub utf8_decode_sound :
    (buf : List ℕ) (size i : ℕ) (d : Decoded)
    → IsBytes buf
    → size ≤ length buf
    → utf8_decode buf size (pos i) ≡ some d
    → d.ok ≡ true
    → IsScalar d.code_point
      × HasAt buf i (utf8_bytes d.code_point)
      × (d.index ≡ pos (i + length (utf8_bytes d.code_point)))
      × (i + length (utf8_bytes d.code_point) ≤ size)
utf8_decode_sound buf size i d bytes fits run ok =
    let inside = utf8_decode-ok_inside buf size i d run ok in
    let s =
      decode_at-Sound buf size i bytes fits d inside
        (sym (utf8_decode-inside buf size i inside) ∙ run) ok in
    (s.scalar, s.stands, s.moved, s.inside)

-- A decode that is given no more than the buffer holds never reads outside it.
pub utf8_decode-ne-none :
    (buf : List ℕ) (size : ℕ) (index : ℤ) → size ≤ length buf → utf8_decode buf size index ≢ none
unfolding utf8_decode utf8_decode_at utf8_branch read_two read_three read_four ◌-ℤ◌
utf8_decode-ne-none buf size index fits = ground (
  arith,
  get_elem?-eq-get_or buf (pos_part index) 0,
  get_elem?-eq-get_or buf (pos_part index + 1) 0,
  get_elem?-eq-get_or buf (pos_part index + 2) 0,
  get_elem?-eq-get_or buf (pos_part index + 3) 0,
)

-- A decode that fails leaves `*index`, and reports 0 outside the input and -1 inside it.
pub utf8_decode-fails :
    (buf : List ℕ) (size : ℕ) (index : ℤ) (d : Decoded)
    → utf8_decode buf size index ≡ some d
    → d.ok ≡ false
    → (d.index ≡ index)
      × (d.code_point
          ≡ (if ltb_ℤ index (pos 0) || leb size (pos_part index) then 0 else no_code_point))
unfolding utf8_decode utf8_decode_at utf8_branch read_two read_three read_four utf8_finish ◌-ℤ◌
utf8_decode-fails buf size index d run failed = ground arith
