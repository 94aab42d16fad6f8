-- ===== src/Base64/Bounds.antt =====
-- base64_decode of any input: it returns, and never writes more than base64_decode_max_size.
use cbasis.Base.{
  ℕ, zero, suc, ◌+◌, ◌-◌, ◌*◌, ◌/◌, ◌%◌, ◌^◌, ◌<◌, ◌≤◌, ◌≡◌, ◌≢◌, ◌⊎◌, inl, inr, refl, true, false,
  Bool-cases, ◌&&◌, ◌||◌, not, List, [], ◌∷◌, ◌++◌, length, length-append, leb, ◌==◌, some, arith,
}
use native.Mathlib.Decide.{ℕ_discrete, dec_lt}
use cbasis.Base64.{
  has_flag, decode_pad_always, decode_partial_bytes, decode_concatenated, base64_encode_max_size,
  base64_decode_max_size, decode_chunks, Progress, skip_pad, block_bytes, Round, continue, leave,
  finish_block, decode_block, decode_loop, base64_decode, stop_at,
}
use cbasis.Base64.Steps.{AllBytes}
use cbasis.Base64.Reading.{Within, chunks-Within, read_values-Reads}

block_bytes-le : (vals : List ℕ) → 4 * length (block_bytes vals) ≤ 3 * length vals
unfolding block_bytes
block_bytes-le [] = omega arith
block_bytes-le (a ∷ []) = omega arith
block_bytes-le (a ∷ b ∷ []) = omega arith
block_bytes-le (a ∷ b ∷ c ∷ []) = omega arith
block_bytes-le (a ∷ b ∷ c ∷ d ∷ rest) = omega arith

-- What is left behind the padding, and that it is all of a block that is accepted.
skipped :
    (left pad_char : ℕ) (rest : List ℕ)
    → AllBytes rest
    → (length (skip_pad left pad_char rest).1 ≤ length rest)
      × AllBytes (skip_pad left pad_char rest).1
      × ((skip_pad left pad_char rest).0 ≡ true
          → length (skip_pad left pad_char rest).1 ≡ length rest - left)
unfolding skip_pad AllBytes
skipped zero pad_char rest bytes = (omega arith, bytes, λ ok. omega arith)
skipped (suc left) pad_char [] bytes = (omega arith, bytes, λ ok. omega arith)
skipped (suc left) pad_char (c ∷ rest) (hc, hs) =
    let (le, bytes, all) = skipped left pad_char rest hs in
    elim (ℕ_discrete c pad_char) [
      | yes pad ↦ ground (arith, le, bytes, all, hc)
      | no other ↦ ground (arith, hc, hs)
    ]

module _ (decoding : List ℕ) (size : 2 ^ 8 ≤ length decoding) (pad_char flags : ℕ) where
  -- Where the loop ends.
  record Ended (n : ℕ) (s : Progress) : Type 0 where
    pub index : s.in_i ≤ n
    pub ratio : 4 * length s.out ≤ 3 * n

  Within-Ended : (n : ℕ) (s : Progress) → Within decoding size pad_char flags n s → Ended n s
  Within-Ended n s w = record {
    index = omega (arith, w.index);
    ratio = omega (arith, w.index, w.ratio);
  }

  -- What a round does behind the chunks.
  abbrev Rounds : ℕ → Progress → Round → Type 0
  Rounds n s r =
      ((u : Progress) × (r ≡ leave u) × Ended n u)
      ⊎ ((u : Progress) × (r ≡ continue u)
          × Within decoding size pad_char flags n u
          × (length u.rest < length s.rest))

  finish-Rounds :
      (n : ℕ) (s : Progress) (vals rest : List ℕ)
      → Within decoding size pad_char flags n s
      → AllBytes rest
      → length vals + length rest ≤ length s.rest
      → length rest < length s.rest
      → Rounds n s (finish_block flags s vals rest)
  unfolding finish_block
  finish-Rounds n s vals rest w bytes total less =
      let at = s.in_i + (length s.rest - length rest) in
      let next : Progress = record { rest = rest; in_i = at; out = s.out ++ block_bytes vals } in
      let within : Within decoding size pad_char flags n next = record {
        bytes = bytes;
        index = omega (arith, w.index);
        ratio = omega (arith, w.ratio, length-append s.out (block_bytes vals), block_bytes-le vals);
      } in
      elim (Bool-cases (
        (leb (length vals) 1 || leb 4 (length vals))
        && not (has_flag flags decode_partial_bytes))) [
          | inl short ↦ inl (s, ground (arith, short), Within-Ended n s w)
          | inr whole ↦
              elim (Bool-cases
                (not (length rest == 0) && not (has_flag flags decode_concatenated))) [
                  | inl ends ↦ inl (next, ground (arith, whole, ends), Within-Ended n next within)
                  | inr goes_on ↦ inr (next, ground (arith, whole, goes_on), within, less)
                ]
        ]

  stop-Rounds :
      (n : ℕ) (s : Progress) (rest : List ℕ)
      → Within decoding size pad_char flags n s
      → length rest ≤ length s.rest
      → Rounds n s (stop_at s rest)
  stop-Rounds n s rest w le = inl (
    record { rest = rest; in_i = s.in_i + (length s.rest - length rest); out = s.out },
    refl,
    record { index = omega (arith, w.index); ratio = omega (arith, w.index, w.ratio) },
  )

  block-Rounds :
      (n : ℕ) (s : Progress)
      → Within decoding size pad_char flags n s
      → length s.rest ≢ 0
      → (r : Round) × (decode_block decoding pad_char flags s ≡ some r) × Rounds n s r
  unfolding decode_block
  block-Rounds n s w some_left =
      elim (read_values-Reads decoding size pad_char flags 4 s.rest [] w.bytes) [
        | inl (rest, run, le) ↦ (stop_at s rest, ground (arith, run), stop-Rounds n s rest w le)
        | inr (vals, rest, run, total, lo, hi, bytes) ↦
            let r = skip_pad (4 - length vals) pad_char rest in
            let (le, bytes', all) = skipped (4 - length vals) pad_char rest bytes in
            elim (Bool-cases r.0) [
              | inr other ↦
                  (stop_at s r.1, ground (arith, run, other), stop-Rounds n s r.1 w (omega arith))
              | inl pad ↦
                  let left = all pad in
                  (
                    finish_block flags s vals r.1,
                    ground (arith, run, pad),
                    finish-Rounds n s vals r.1 w bytes' (omega arith) (omega arith),
                  )
            ]
      ]

  loop_stop :
      (fuel n : ℕ) (s t : Progress)
      → decode_chunks decoding s.rest s.in_i s.out ≡ some t
      → (length t.rest ≡ 0) ⊎ (not (n % 4 == 0) && has_flag flags decode_pad_always ≡ true)
      → decode_loop (suc fuel) decoding pad_char flags n s ≡ some t
  unfolding decode_loop
  loop_stop fuel n s t chunks (inl e) = ground (arith, chunks, e)
  loop_stop fuel n s t chunks (inr e) = ground (arith, chunks, e)

  loop_round :
      (fuel n : ℕ) (s t : Progress) (r : Round)
      → decode_chunks decoding s.rest s.in_i s.out ≡ some t
      → length t.rest ≢ 0
      → not (n % 4 == 0) && has_flag flags decode_pad_always ≡ false
      → decode_block decoding pad_char flags t ≡ some r
      → decode_loop (suc fuel) decoding pad_char flags n s
        ≡ elim r [ continue u ↦ decode_loop fuel decoding pad_char flags n u | leave u ↦ some u ]
  unfolding decode_loop
  loop_round fuel n s t r chunks some_left e block = ground (arith, chunks, e, block)

  loop-Ended :
      (fuel n : ℕ) (s : Progress)
      → length s.rest < fuel
      → Within decoding size pad_char flags n s
      → (t : Progress) × (decode_loop fuel decoding pad_char flags n s ≡ some t) × Ended n t
  loop-Ended zero n s enough w = absurd (omega arith)
  loop-Ended (suc fuel) n s enough w =
      let (t, chunks, w', le) =
        chunks-Within decoding size pad_char flags s.rest s.in_i s.out n w in
      elim (ℕ_discrete (length t.rest) 0) [
        | yes e ↦ (t, loop_stop fuel n s t chunks (inl e), Within-Ended n t w')
        | no some_left ↦ elim (Bool-cases (not (n % 4 == 0) && has_flag flags decode_pad_always)) [
          | inl refused ↦ (t, loop_stop fuel n s t chunks (inr refused), Within-Ended n t w')
          | inr allowed ↦
              let (r, block, rounds) = block-Rounds n t w' some_left in
              let run = loop_round fuel n s t r chunks some_left allowed block in
              elim rounds [
                | inl (u, e, ended) ↦ (u, ground (arith, run, e), ended)
                | inr (u, e, w'', less) ↦
                    let (v, run', ended) = loop-Ended fuel n u (omega arith) w'' in
                    (v, ground (arith, run, e, run'), ended)
              ]
        ]
      ]

  -- base64_decode returns on every input, with every decoding table of 256 values, pad character and
  -- flags; it writes at most base64_decode_max_size bytes of the input's size, and the position that it
  -- reports lies within the input.
  pub base64_decode_bounds :
      (input : List ℕ) (output_size : ℕ)
      → AllBytes input
      → (out : List ℕ) × (at : ℕ) × (base64_decode output_size input decoding pad_char flags
          ≡ some (out, at))
        × (length out ≤ base64_decode_max_size (length input))
        × (at ≤ length input)
  unfolding base64_decode base64_encode_max_size base64_decode_max_size
  base64_decode_bounds input output_size bytes =
      let n = length input in
      let (t, run, ended) =
        loop-Ended (n + 1) n (record { rest = input; in_i = 0; out = [] }) (omega arith)
          (record { bytes = bytes; index = omega arith; ratio = omega arith }) in
      elim (dec_lt output_size ((n + 2) / 3 * 4)) [
        | yes refused ↦ ([], 0, ground arith, omega arith, omega arith)
        | no room ↦ (
          t.out,
          t.in_i,
          ground (arith, run, ended.index, ended.ratio),
          omega (arith, ended.ratio),
          ended.index,
        )
      ]
