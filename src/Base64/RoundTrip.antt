-- ===== src/Base64/RoundTrip.antt =====
-- base64_decode of what base64_encode writes.
use cbasis.Base.{
  ℕ, suc, ◌+◌, ◌*◌, ◌/◌, ◌%◌, ◌^◌, ◌<◌, ◌≤◌, ◌≡◌, inl, inr, refl, sym, ap, ap₂, ◌∙◌, true, false,
  Bool-cases, List, [], ◌∷◌, ◌++◌, length, some, load, arith,
}
use mathlib.Core.List.{append-nil}
use cbasis.Base64.{
  has_flag, pad_if, encode_pad, decode_pad_always, decode_pad_never, error_value,
  base64_encode_max_size, encode_bytes, base64_encode, decode_chunks, decode_loop, base64_decode,
  continue, top_byte, middle_byte,
}
use cbasis.Base64.Chars.{Matching, value_1, value_2, chunk_run, bytes_of}
use cbasis.Base64.Steps.{
  AllBytes, append_assoc, loop_same, loop_end, loop_last, encode_three, encode_one, encode_two,
}
use cbasis.Base64.LastBlock.{two_plain, two_padded, three_plain, three_padded, padded_chunk}

module _ (encoding decoding : List ℕ) (pad_char encode_flags decode_flags : ℕ) where
  -- What is written for `input`, and how it is read again from where the loop stands.
  pub record Coded (input : List ℕ) : Type 0 where
    pub written : List ℕ
    pub encodes : encode_bytes encoding pad_char encode_flags input ≡ some written
    pub fits : length written ≤ base64_encode_max_size (length input)
    pub not_shorter : length input ≤ length written
    pub decodes :
        (fuel input_size in_i : ℕ) (out : List ℕ)
        → length input ≤ fuel
        → input_size % 4 ≡ length written % 4
        → decode_loop
            (suc fuel)
            decoding
            pad_char
            decode_flags
            input_size
            (record { rest = written; in_i = in_i; out = out })
          ≡ some (record { rest = []; in_i = in_i + length written; out = out ++ input })

  -- The flags agree on the padding.
  pub record FlagsAgree : Type 0 where
    pub padded :
        has_flag encode_flags encode_pad ≡ true → has_flag decode_flags decode_pad_never ≡ false
    pub plain :
        has_flag encode_flags encode_pad ≡ false → has_flag decode_flags decode_pad_always ≡ false

  module _ (tables : Matching encoding decoding)
      (pad_fails : load decoding pad_char ≡ some error_value) (agree : FlagsAgree) where
    no_bytes : Coded []
    unfolding encode_bytes base64_encode_max_size
    no_bytes = record {
      written = [];
      encodes = refl;
      fits = omega arith;
      not_shorter = omega arith;
      decodes = λ fuel input_size in_i out enough e.
          loop_end encoding decoding pad_char encode_flags decode_flags fuel input_size in_i out
          ∙ ap₂ (λ i o. some (record { rest = []; in_i = i; out = o })) (omega arith)
              (sym (append-nil out));
    }

    one_byte : (a : ℕ) → a < 2 ^ 8 → Coded (a ∷ [])
    unfolding base64_encode_max_size decode_chunks
    one_byte a ha =
        let w = tables.char (a / 4) in
        let x = tables.char (a % 4 * 16) in
        let lw = tables.decodes (a / 4) (omega arith) in
        let lx = tables.decodes (a % 4 * 16) (omega arith) in
        let byte : top_byte (a / 4 * 2 ^ 18 + a % 4 * 16 * 2 ^ 12) ≡ a = omega arith in
        let run = encode_one encoding decoding pad_char encode_flags decode_flags tables a ha in
        elim (Bool-cases (has_flag encode_flags encode_pad)) [
          | inl pad ↦ record {
            written = w ∷ x ∷ pad_char ∷ pad_char ∷ [];
            encodes = run ∙ ap (λ b. some (w ∷ x ∷ (pad_if b pad_char ++ pad_if b pad_char))) pad;
            fits = omega arith;
            not_shorter = omega arith;
            decodes = λ fuel input_size in_i out enough e.
                loop_last encoding decoding pad_char encode_flags decode_flags fuel input_size
                  (record { rest = w ∷ x ∷ pad_char ∷ pad_char ∷ []; in_i = in_i; out = out })
                  (in_i + 4) (out ++ (a ∷ []))
                  (padded_chunk decoding pad_char decode_flags w x pad_char (a / 4) (a % 4 * 16)
                    error_value in_i out lw lx pad_fails pad_fails (omega arith) (omega arith)
                    (omega arith))
                  (λ z. absurd (omega arith)) (inl (omega arith))
                  (two_padded decoding pad_char decode_flags w x (a / 4) (a % 4 * 16) in_i out lw lx
                      pad_fails (agree.padded pad) (omega arith) (omega arith)
                    ∙ ap
                        (λ n.
                          some (
                            continue
                              (record { rest = []; in_i = in_i + 4; out = out ++ (n ∷ []) })))
                        byte)
                  (omega arith);
          }
          | inr plain ↦ record {
            written = w ∷ x ∷ [];
            encodes = run ∙ ap (λ b. some (w ∷ x ∷ (pad_if b pad_char ++ pad_if b pad_char))) plain;
            fits = omega arith;
            not_shorter = omega arith;
            decodes = λ fuel input_size in_i out enough e.
                loop_last encoding decoding pad_char encode_flags decode_flags fuel input_size
                  (record { rest = w ∷ x ∷ []; in_i = in_i; out = out }) (in_i + 2)
                  (out ++ (a ∷ [])) refl (λ z. absurd (omega arith)) (inr (agree.plain plain))
                  (two_plain decoding pad_char decode_flags w x (a / 4) (a % 4 * 16) in_i out lw lx
                      (omega arith) (omega arith)
                    ∙ ap
                        (λ n.
                          some (
                            continue
                              (record { rest = []; in_i = in_i + 2; out = out ++ (n ∷ []) })))
                        byte)
                  (omega arith);
          }
        ]

    two_bytes : (a b : ℕ) → a < 2 ^ 8 → b < 2 ^ 8 → Coded (a ∷ b ∷ [])
    unfolding base64_encode_max_size decode_chunks
    two_bytes a b ha hb =
        let w = tables.char (a / 4) in
        let x = tables.char (value_1 a b) in
        let y = tables.char (b % 16 * 4) in
        let lw = tables.decodes (a / 4) (omega arith) in
        let lx = tables.decodes (value_1 a b) (omega arith) in
        let ly = tables.decodes (b % 16 * 4) (omega arith) in
        let n = a / 4 * 2 ^ 18 + value_1 a b * 2 ^ 12 + b % 16 * 4 * 2 ^ 6 in
        let byte_1 : top_byte n ≡ a = omega arith in
        let byte_2 : middle_byte n ≡ b = omega arith in
        let run =
          encode_two encoding decoding pad_char encode_flags decode_flags tables a b ha hb in
        elim (Bool-cases (has_flag encode_flags encode_pad)) [
          | inl pad ↦ record {
            written = w ∷ x ∷ y ∷ pad_char ∷ [];
            encodes = run ∙ ap (λ b. some (w ∷ x ∷ y ∷ pad_if b pad_char)) pad;
            fits = omega arith;
            not_shorter = omega arith;
            decodes = λ fuel input_size in_i out enough e.
                loop_last encoding decoding pad_char encode_flags decode_flags fuel input_size
                  (record { rest = w ∷ x ∷ y ∷ pad_char ∷ []; in_i = in_i; out = out }) (in_i + 4)
                  (out ++ (a ∷ b ∷ []))
                  (padded_chunk decoding pad_char decode_flags w x y (a / 4) (value_1 a b)
                    (b % 16 * 4) in_i out lw lx ly pad_fails (omega arith) (omega arith)
                    (omega arith))
                  (λ z. absurd (omega arith)) (inl (omega arith))
                  (three_padded decoding pad_char decode_flags w x y (a / 4) (value_1 a b)
                      (b % 16 * 4) in_i out lw lx ly pad_fails (agree.padded pad) (omega arith)
                      (omega arith) (omega arith)
                    ∙ ap₂
                        (λ m k. some (
                          continue
                            (record { rest = []; in_i = in_i + 4; out = out ++ (m ∷ k ∷ []) })))
                        byte_1 byte_2)
                  (omega arith);
          }
          | inr plain ↦ record {
            written = w ∷ x ∷ y ∷ [];
            encodes = run ∙ ap (λ b. some (w ∷ x ∷ y ∷ pad_if b pad_char)) plain;
            fits = omega arith;
            not_shorter = omega arith;
            decodes = λ fuel input_size in_i out enough e.
                loop_last encoding decoding pad_char encode_flags decode_flags fuel input_size
                  (record { rest = w ∷ x ∷ y ∷ []; in_i = in_i; out = out }) (in_i + 3)
                  (out ++ (a ∷ b ∷ [])) refl (λ z. absurd (omega arith)) (inr (agree.plain plain))
                  (three_plain decoding pad_char decode_flags w x y (a / 4) (value_1 a b)
                      (b % 16 * 4) in_i out lw lx ly (omega arith) (omega arith) (omega arith)
                    ∙ ap₂
                        (λ m k. some (
                          continue
                            (record { rest = []; in_i = in_i + 3; out = out ++ (m ∷ k ∷ []) })))
                        byte_1 byte_2)
                  (omega arith);
          }
        ]

    three_bytes :
        (a b c : ℕ) (rest : List ℕ)
        → a < 2 ^ 8
        → b < 2 ^ 8
        → c < 2 ^ 8
        → Coded rest
        → Coded (a ∷ b ∷ c ∷ rest)
    unfolding base64_encode_max_size
    three_bytes a b c rest ha hb hc s =
        let w = tables.char (a / 4) in
        let x = tables.char (value_1 a b) in
        let y = tables.char (value_2 b c) in
        let z = tables.char (c % 64) in
        let n = a * 2 ^ 16 + b * 2 ^ 8 + c in
        let byte_1 : top_byte n ≡ a = omega arith in
        let byte_2 : middle_byte n ≡ b = omega arith in
        let byte_3 : n % 2 ^ 8 ≡ c = omega arith in
        record {
          written = w ∷ x ∷ y ∷ z ∷ s.written;
          encodes =
              encode_three encoding decoding pad_char encode_flags decode_flags tables a b c rest
                s.written ha hb hc s.encodes;
          fits = omega (arith, s.fits);
          not_shorter = omega (arith, s.not_shorter);
          decodes = λ fuel input_size in_i out enough e.
              let next = out ++ (top_byte n ∷ middle_byte n ∷ n % 2 ^ 8 ∷ []) in
              loop_same encoding decoding pad_char encode_flags decode_flags fuel input_size
                (record { rest = w ∷ x ∷ y ∷ z ∷ s.written; in_i = in_i; out = out })
                (record { rest = s.written; in_i = in_i + 4; out = next })
                (chunk_run decoding w x y z (a / 4) (value_1 a b) (value_2 b c) (c % 64) n s.written
                  in_i out (tables.decodes (a / 4) (omega arith))
                  (tables.decodes (value_1 a b) (omega arith))
                  (tables.decodes (value_2 b c) (omega arith))
                  (tables.decodes (c % 64) (omega arith)) (omega arith) (omega arith) (omega arith)
                  (omega arith) (bytes_of a b c ha hb hc))
              ∙ s.decodes fuel input_size (in_i + 4) next (omega arith) (omega arith)
              ∙ ap₂ (λ i o. some (record { rest = []; in_i = i; out = o })) (omega arith)
                  (append_assoc out (top_byte n ∷ middle_byte n ∷ n % 2 ^ 8 ∷ []) rest
                    ∙ ap (λ bs. out ++ bs)
                        (ap₂ (λ m k. m ∷ k ∷ n % 2 ^ 8 ∷ rest) byte_1 byte_2
                          ∙ ap (λ m. a ∷ b ∷ m ∷ rest) byte_3));
        }

    coded : (input : List ℕ) → AllBytes input → Coded input
    unfolding AllBytes
    coded [] h = no_bytes
    coded (a ∷ []) (ha, h) = one_byte a ha
    coded (a ∷ b ∷ []) (ha, (hb, h)) = two_bytes a b ha hb
    coded (a ∷ b ∷ c ∷ rest) (ha, (hb, (hc, h))) = three_bytes a b c rest ha hb hc (coded rest h)

    -- base64_encode, given room, writes at most base64_encode_max_size characters, and base64_decode of
    -- them, given room, gives the input again and reports that it has read all. This holds for matching
    -- tables, a pad character to which the decoding table gives the error value, and all flags that
    -- agree: where one side pads, the other may not refuse padding, and where it does not, the other may
    -- not demand it.
    pub base64_decode-base64_encode :
        (input : List ℕ) (output_size : ℕ)
        → AllBytes input
        → base64_encode_max_size (length input) ≤ output_size
        → (written : List ℕ) × (base64_encode output_size input encoding pad_char encode_flags
            ≡ some written)
          × (length written ≤ base64_encode_max_size (length input))
          × ((size : ℕ)
              → base64_encode_max_size (length written) ≤ size
              → base64_decode size written decoding pad_char decode_flags
                ≡ some (input, length written))
    unfolding base64_encode base64_decode base64_encode_max_size
    base64_decode-base64_encode input output_size bytes room =
        let s = coded input bytes in
        let run = s.decodes (length s.written) (length s.written) 0 [] s.not_shorter refl in
        let next : length s.written + 1 ≡ suc (length s.written) = omega arith in
        (
          s.written,
          ground (arith, s.encodes, s.fits),
          s.fits,
          λ size enough. ground (arith, next, run, s.not_shorter),
        )
