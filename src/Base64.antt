-- ===== src/Base64.antt =====
-- base64.h. The tables are lists, `encoding` of 64 characters and `decoding` of 256 values, and any in
-- their place; an access outside one is `none`. A pointer into the input is what is left of it, and
-- what stands before the output pointer is a list, which the caller's buffer has room for.
pub mod Words
pub mod Tables
pub mod Chars
pub mod Steps
pub mod LastBlock
pub mod RoundTrip
pub mod Reading
pub mod Bounds
mod Tests
use cbasis.Base.{
  ℕ, zero, suc, ◌+◌, ◌-◌, ◌*◌, ◌/◌, ◌%◌, ◌^◌, bit_and, bit_or, bit_xor, Bool, true, false, ◌&&◌,
  ◌||◌, not, ltb, leb, ◌==◌, if◌then◌else◌, List, [], ◌∷◌, ◌++◌, length, Option, none, some, load,
  ◌>>=◌, ◌>>◌, require,
}

-- Whether a flag is set.
abbrev pub has_flag : ℕ → ℕ → Bool
has_flag flags flag = not (bit_and flags flag == 0)

abbrev pub encode_pad : ℕ
encode_pad = 1

abbrev pub decode_pad_always : ℕ
decode_pad_always = 1

abbrev pub decode_pad_never : ℕ
decode_pad_never = 2

abbrev pub decode_partial_bytes : ℕ
decode_partial_bytes = 4

abbrev pub decode_concatenated : ℕ
decode_concatenated = 8

abbrev pub error_value : ℕ
error_value = 255

unfoldable pub base64_encode_max_size : ℕ → ℕ
base64_encode_max_size input_length = (input_length + 2) / 3 * 4

unfoldable pub base64_decode_max_size : ℕ → ℕ
base64_decode_max_size input_length = (input_length + 3) / 4 * 3

-- A pad character, if the flag asks for one.
abbrev pub pad_if : Bool → ℕ → List ℕ
pad_if wanted pad_char = if wanted then pad_char ∷ [] else []

-- The loop of base64_encode, and what it does with the one or two bytes left.
unfoldable pub encode_bytes : List ℕ → ℕ → ℕ → List ℕ → Option (List ℕ)
encode_bytes encoding pad_char flags [] = some []
encode_bytes encoding pad_char flags (a ∷ []) =
    let pad = has_flag flags encode_pad in
    load encoding (a / 2 ^ 2) >>= λ w. load encoding (bit_and a 0x03 * 2 ^ 4) >>= λ x.
    some (w ∷ x ∷ (pad_if pad pad_char ++ pad_if pad pad_char))
encode_bytes encoding pad_char flags (a ∷ b ∷ []) = load encoding (a / 2 ^ 2) >>= λ w.
    load encoding (bit_or (bit_and a 0x03 * 2 ^ 4) (b / 2 ^ 4)) >>= λ x.
    load encoding (bit_and b 0x0F * 2 ^ 2) >>= λ y.
    some (w ∷ x ∷ y ∷ pad_if (has_flag flags encode_pad) pad_char)
encode_bytes encoding pad_char flags (a ∷ b ∷ c ∷ rest) = load encoding (a / 2 ^ 2) >>= λ w.
    load encoding (bit_or (bit_and a 0x03 * 2 ^ 4) (b / 2 ^ 4)) >>= λ x.
    load encoding (bit_or (bit_and b 0x0F * 2 ^ 2) (c / 2 ^ 6)) >>= λ y.
    load encoding (bit_and c 0x3F) >>= λ z.
    encode_bytes encoding pad_char flags rest >>= λ out. some (w ∷ x ∷ y ∷ z ∷ out)

-- The characters written, whose number is what the function returns.
unfoldable pub base64_encode : ℕ → List ℕ → List ℕ → ℕ → ℕ → Option (List ℕ)
base64_encode output_size input encoding pad_char flags =
    if ltb output_size (base64_encode_max_size (length input))
    then some []
    else (encode_bytes encoding pad_char flags input >>= λ out.
        require (leb (length out) (base64_encode_max_size (length input))) >> some out)

-- The four values as one word, the first lowest, and the test whether one of its bytes is 255.
unfoldable pub has_error_value : ℕ → ℕ → ℕ → ℕ → Bool
has_error_value v0 v1 v2 v3 =
    let combined = v0 + 2 ^ 8 * (v1 + 2 ^ 8 * (v2 + 2 ^ 8 * v3)) in
    let diff = bit_xor combined 0xFFFFFFFF in
    not (
      bit_and (bit_and ((diff + 2 ^ 32 - 0x01010101) % 2 ^ 32) (0xFFFFFFFF - diff)) 0x80808080 == 0)

-- How far the decoder has come: what is left of the input, its index, and the output.
pub record Progress : Type 0 where
  pub rest : List ℕ
  pub in_i : ℕ
  pub out : List ℕ

-- The bytes of `n`: `n >> 16`, `n >> 8` and `n`, as many as there are.
abbrev pub top_byte : ℕ → ℕ
top_byte n = n / 2 ^ 16 % 2 ^ 8

abbrev pub middle_byte : ℕ → ℕ
middle_byte n = n / 2 ^ 8 % 2 ^ 8

-- The loop over chunks of four.
unfoldable pub decode_chunks : List ℕ → List ℕ → ℕ → List ℕ → Option Progress
decode_chunks decoding (a ∷ b ∷ c ∷ d ∷ rest) in_i out = load decoding a >>= λ v0.
    load decoding b >>= λ v1. load decoding c >>= λ v2. load decoding d >>= λ v3.
    let n = bit_or (bit_or (bit_or (v0 * 2 ^ 18) (v1 * 2 ^ 12)) (v2 * 2 ^ 6)) v3 in
    let more =
      decode_chunks decoding rest (in_i + 4)
        (out ++ (top_byte n ∷ middle_byte n ∷ n % 2 ^ 8 ∷ [])) in
    if has_error_value v0 v1 v2 v3
    then some (record { rest = a ∷ b ∷ c ∷ d ∷ rest; in_i = in_i; out = out })
    else more
decode_chunks decoding [] in_i out = some (record { rest = []; in_i = in_i; out = out })
decode_chunks decoding (a ∷ []) in_i out = some (record { rest = a ∷ []; in_i = in_i; out = out })
decode_chunks decoding (a ∷ b ∷ []) in_i out =
    some (record { rest = a ∷ b ∷ []; in_i = in_i; out = out })
decode_chunks decoding (a ∷ b ∷ c ∷ []) in_i out =
    some (record { rest = a ∷ b ∷ c ∷ []; in_i = in_i; out = out })

-- What the two loops over a block do: `goto loop_end`, or the values read, and in each case what is
-- left of the input.
pub data Block : Type 0 where
  stopped : List ℕ → Block
  read : List ℕ → List ℕ → Block

-- `find the first error value, if is padding then good (and we allow it)`
unfoldable pub read_values : ℕ → List ℕ → ℕ → ℕ → List ℕ → List ℕ → Option Block
read_values zero decoding pad_char flags rest vals = some (read vals rest)
read_values (suc left) decoding pad_char flags [] vals = some (read vals [])
read_values (suc left) decoding pad_char flags (curr ∷ rest) vals = load decoding curr >>= λ value.
    let more = read_values left decoding pad_char flags rest (vals ++ (value ∷ [])) in
    if value == error_value
    then (if not (curr == pad_char) || has_flag flags decode_pad_never
        then some (stopped (curr ∷ rest))
        else some (read vals (curr ∷ rest)))
    else more

-- `ensure the rest is pad char`: what is left of the input, and whether all of the block was.
unfoldable pub skip_pad : ℕ → ℕ → List ℕ → Bool × List ℕ
skip_pad zero pad_char rest = (true, rest)
skip_pad (suc left) pad_char [] = (true, [])
skip_pad (suc left) pad_char (curr ∷ rest) =
    let more = skip_pad left pad_char rest in
    if curr == pad_char then more else (false, curr ∷ rest)

-- The bytes of an incomplete block.
unfoldable pub block_bytes : List ℕ → List ℕ
block_bytes (v0 ∷ v1 ∷ []) = top_byte (bit_or (v0 * 2 ^ 18) (v1 * 2 ^ 12)) ∷ []
block_bytes (v0 ∷ v1 ∷ v2 ∷ []) =
    let n = bit_or (bit_or (v0 * 2 ^ 18) (v1 * 2 ^ 12)) (v2 * 2 ^ 6) in
    top_byte n ∷ middle_byte n ∷ []
block_bytes vals = []

-- What one round does behind the chunks: to go on, or to leave the loop.
pub data Round : Type 0 where
  continue : Progress → Round
  leave : Progress → Round

-- From the end of the block on: `s` is the progress at its start, `rest` what follows it.
unfoldable pub finish_block : ℕ → Progress → List ℕ → List ℕ → Round
finish_block flags s vals rest =
    let at = s.in_i + (length s.rest - length rest) in
    let next : Progress = record { rest = rest; in_i = at; out = s.out ++ block_bytes vals } in
    if (leb (length vals) 1 || leb 4 (length vals)) && not (has_flag flags decode_partial_bytes)
    then leave s
    else if not (length rest == 0) && not (has_flag flags decode_concatenated)
    then leave next
    else continue next

abbrev pub stop_at : Progress → List ℕ → Round
stop_at s rest =
    leave (record { rest = rest; in_i = s.in_i + (length s.rest - length rest); out = s.out })

unfoldable pub decode_block : List ℕ → ℕ → ℕ → Progress → Option Round
decode_block decoding pad_char flags s = read_values 4 decoding pad_char flags s.rest [] >>= λ b.
    some (elim b [
      | stopped rest ↦ stop_at s rest
      | read vals rest ↦
          let r = skip_pad (4 - length vals) pad_char rest in
          if r.0 then finish_block flags s vals r.1 else stop_at s r.1
    ])

-- The whole loop; `input_size` is that of the input.
unfoldable pub decode_loop : ℕ → List ℕ → ℕ → ℕ → ℕ → Progress → Option Progress
decode_loop zero decoding pad_char flags input_size s = none
decode_loop (suc fuel) decoding pad_char flags input_size s =
    decode_chunks decoding s.rest s.in_i s.out >>= λ t.
    let round = decode_block decoding pad_char flags t >>= λ r. elim r [
      | continue u ↦ decode_loop fuel decoding pad_char flags input_size u
      | leave u ↦ some u
    ] in
    if length t.rest == 0
    then some t
    else if not (input_size % 4 == 0) && has_flag flags decode_pad_always
    then some t
    else round

-- The bytes written, and `*finished_at_or_null`.
unfoldable pub base64_decode : ℕ → List ℕ → List ℕ → ℕ → ℕ → Option (List ℕ × ℕ)
base64_decode output_size input decoding pad_char flags =
    if ltb output_size (base64_encode_max_size (length input))
    then some ([], 0)
    else (decode_loop (length input + 1) decoding pad_char flags (length input)
          (record { rest = input; in_i = 0; out = [] })
        >>= λ s.
            require (
              leb (length s.out) (base64_encode_max_size (length input))
              && leb s.in_i (length input))
            >> some (s.out, s.in_i))
