-- ===== src/Base64/LastBlock.antt =====
-- base64_decode of a last block of two or three characters, with and without padding.
use cbasis.Base.{ℕ, ◌+◌, ◌*◌, ◌^◌, ◌<◌, ◌≡◌, false, List, [], ◌∷◌, ◌++◌, some, load, arith}
use cbasis.Base64.{
  has_flag, decode_pad_never, error_value, decode_chunks, read_values, skip_pad, block_bytes,
  continue, finish_block, decode_block, top_byte, middle_byte,
}
use cbasis.Base64.Words.{has_error_value_iff}
use cbasis.Base64.Chars.{join_two, join_three}

module _ (decoding : List ℕ) (pad_char flags : ℕ) where
  pub two_plain :
      (w x v0 v1 in_i : ℕ) (out : List ℕ)
      → load decoding w ≡ some v0
      → load decoding x ≡ some v1
      → v0 < 64
      → v1 < 64
      → decode_block decoding pad_char flags (record { rest = w ∷ x ∷ []; in_i = in_i; out = out })
        ≡ some (
            continue (record {
              rest = [];
              in_i = in_i + 2;
              out = out ++ (top_byte (v0 * 2 ^ 18 + v1 * 2 ^ 12) ∷ []);
            }))
  unfolding decode_block read_values skip_pad finish_block block_bytes
  two_plain w x v0 v1 in_i out lw lx h0 h1 = ground (arith, lw, lx, join_two v0 v1 h1)

  pub two_padded :
      (w x v0 v1 in_i : ℕ) (out : List ℕ)
      → load decoding w ≡ some v0
      → load decoding x ≡ some v1
      → load decoding pad_char ≡ some error_value
      → has_flag flags decode_pad_never ≡ false
      → v0 < 64
      → v1 < 64
      → decode_block decoding pad_char flags
          (record { rest = w ∷ x ∷ pad_char ∷ pad_char ∷ []; in_i = in_i; out = out })
        ≡ some (
            continue (record {
              rest = [];
              in_i = in_i + 4;
              out = out ++ (top_byte (v0 * 2 ^ 18 + v1 * 2 ^ 12) ∷ []);
            }))
  unfolding decode_block read_values skip_pad finish_block block_bytes
  two_padded w x v0 v1 in_i out lw lx lp allowed h0 h1 =
      ground (arith, lw, lx, lp, allowed, join_two v0 v1 h1)

  pub three_plain :
      (w x y v0 v1 v2 in_i : ℕ) (out : List ℕ)
      → load decoding w ≡ some v0
      → load decoding x ≡ some v1
      → load decoding y ≡ some v2
      → v0 < 64
      → v1 < 64
      → v2 < 64
      → decode_block decoding pad_char flags
          (record { rest = w ∷ x ∷ y ∷ []; in_i = in_i; out = out })
        ≡ some (
            continue (record {
              rest = [];
              in_i = in_i + 3;
              out =
                  out
                  ++ (top_byte (v0 * 2 ^ 18 + v1 * 2 ^ 12 + v2 * 2 ^ 6)
                      ∷ middle_byte (v0 * 2 ^ 18 + v1 * 2 ^ 12 + v2 * 2 ^ 6)
                      ∷ []);
            }))
  unfolding decode_block read_values skip_pad finish_block block_bytes
  three_plain w x y v0 v1 v2 in_i out lw lx ly h0 h1 h2 =
      ground (arith, lw, lx, ly, join_three v0 v1 v2 h1 h2)

  pub three_padded :
      (w x y v0 v1 v2 in_i : ℕ) (out : List ℕ)
      → load decoding w ≡ some v0
      → load decoding x ≡ some v1
      → load decoding y ≡ some v2
      → load decoding pad_char ≡ some error_value
      → has_flag flags decode_pad_never ≡ false
      → v0 < 64
      → v1 < 64
      → v2 < 64
      → decode_block decoding pad_char flags
          (record { rest = w ∷ x ∷ y ∷ pad_char ∷ []; in_i = in_i; out = out })
        ≡ some (
            continue (record {
              rest = [];
              in_i = in_i + 4;
              out =
                  out
                  ++ (top_byte (v0 * 2 ^ 18 + v1 * 2 ^ 12 + v2 * 2 ^ 6)
                      ∷ middle_byte (v0 * 2 ^ 18 + v1 * 2 ^ 12 + v2 * 2 ^ 6)
                      ∷ []);
            }))
  unfolding decode_block read_values skip_pad finish_block block_bytes
  three_padded w x y v0 v1 v2 in_i out lw lx ly lp allowed h0 h1 h2 =
      ground (arith, lw, lx, ly, lp, allowed, join_three v0 v1 v2 h1 h2)

  -- The loop over chunks stops at a padded block.
  pub padded_chunk :
      (w x y v0 v1 v2 in_i : ℕ) (out : List ℕ)
      → load decoding w ≡ some v0
      → load decoding x ≡ some v1
      → load decoding y ≡ some v2
      → load decoding pad_char ≡ some error_value
      → v0 < 2 ^ 8
      → v1 < 2 ^ 8
      → v2 < 2 ^ 8
      → decode_chunks decoding (w ∷ x ∷ y ∷ pad_char ∷ []) in_i out
        ≡ some (record { rest = w ∷ x ∷ y ∷ pad_char ∷ []; in_i = in_i; out = out })
  unfolding decode_chunks
  padded_chunk w x y v0 v1 v2 in_i out lw lx ly lp h0 h1 h2 =
      let bad = has_error_value_iff v0 v1 v2 error_value h0 h1 h2 (omega arith) in
      ground (arith, lw, lx, ly, lp, bad)
