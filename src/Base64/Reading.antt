-- ===== src/Base64/Reading.antt =====
-- The loops of base64_decode on any input: what they leave and how much they write.
use cbasis.Base.{
  ℕ, zero, suc, ◌+◌, ◌*◌, ◌%◌, ◌^◌, ◌<◌, ◌≤◌, ◌≡◌, ◌⊎◌, bit_or, inl, inr, refl, Bool-cases, ◌||◌,
  not, List, [], ◌∷◌, ◌++◌, length, length-append, get_or, get_elem?-eq-get_or, ◌==◌, Option, some,
  load, arith,
}
use native.Mathlib.Decide.{ℕ_discrete}
use cbasis.Base64.{
  has_flag, decode_pad_never, error_value, decode_chunks, has_error_value, Progress, Block, stopped,
  read, read_values, top_byte, middle_byte,
}
use cbasis.Base64.Steps.{AllBytes}

module _ (decoding : List ℕ) (size : 2 ^ 8 ≤ length decoding) (pad_char flags : ℕ) where
  -- Between two steps: at most three bytes are written for four characters read.
  pub record Within (input_size : ℕ) (s : Progress) : Type 0 where
    pub bytes : AllBytes s.rest
    pub index : s.in_i + length s.rest ≡ input_size
    pub ratio : 4 * length s.out ≤ 3 * s.in_i

  decoded : (c : ℕ) → c < 2 ^ 8 → load decoding c ≡ some (get_or decoding c 0)
  decoded c lt = get_elem?-eq-get_or decoding c 0 (omega arith)

  pub chunks-Within :
      (rest : List ℕ) (in_i : ℕ) (out : List ℕ) (n : ℕ)
      → Within n (record { rest = rest; in_i = in_i; out = out })
      → (t : Progress) × (decode_chunks decoding rest in_i out ≡ some t)
        × Within n t
        × (length t.rest ≤ length rest)
  unfolding decode_chunks AllBytes
  chunks-Within [] in_i out n s =
      (record { rest = []; in_i = in_i; out = out }, refl, s, omega arith)
  chunks-Within (a ∷ []) in_i out n s =
      (record { rest = a ∷ []; in_i = in_i; out = out }, refl, s, omega arith)
  chunks-Within (a ∷ b ∷ []) in_i out n s =
      (record { rest = a ∷ b ∷ []; in_i = in_i; out = out }, refl, s, omega arith)
  chunks-Within (a ∷ b ∷ c ∷ []) in_i out n s =
      (record { rest = a ∷ b ∷ c ∷ []; in_i = in_i; out = out }, refl, s, omega arith)
  chunks-Within (a ∷ b ∷ c ∷ d ∷ rest) in_i out n s =
      let (ha, (hb, (hc, (hd, hs)))) = s.bytes in
      let v0 = get_or decoding a 0 in
      let v1 = get_or decoding b 0 in
      let v2 = get_or decoding c 0 in
      let v3 = get_or decoding d 0 in
      let m = bit_or (bit_or (bit_or (v0 * 2 ^ 18) (v1 * 2 ^ 12)) (v2 * 2 ^ 6)) v3 in
      let next = out ++ (top_byte m ∷ middle_byte m ∷ m % 2 ^ 8 ∷ []) in
      elim (Bool-cases (has_error_value v0 v1 v2 v3)) [
        | inl bad ↦ (
          record { rest = a ∷ b ∷ c ∷ d ∷ rest; in_i = in_i; out = out },
          ground (arith, decoded a ha, decoded b hb, decoded c hc, decoded d hd, bad),
          s,
          omega arith,
        )
        | inr good ↦
            let (t, run, s', le) = chunks-Within rest (in_i + 4) next n (record {
              bytes = hs;
              index = omega (arith, s.index);
              ratio =
                  omega (
                    arith,
                    s.ratio,
                    length-append out (top_byte m ∷ middle_byte m ∷ m % 2 ^ 8 ∷ []),
                  );
            }) in
            (
              t,
              ground (arith, decoded a ha, decoded b hb, decoded c hc, decoded d hd, good, run),
              s',
              omega arith,
            )
      ]

  -- What the loop over the values of a block gives.
  abbrev pub Reads : ℕ → List ℕ → List ℕ → Option Block → Type 0
  Reads left rest vals run =
      ((rest' : List ℕ) × (run ≡ some (stopped rest')) × (length rest' ≤ length rest))
      ⊎ ((vals' : List ℕ) × (rest' : List ℕ) × (run ≡ some (read vals' rest'))
          × (length vals' + length rest' ≡ length vals + length rest)
          × (length vals ≤ length vals')
          × (length vals' ≤ length vals + left)
          × AllBytes rest')

  pub read_values-Reads :
      (left : ℕ) (rest vals : List ℕ)
      → AllBytes rest
      → Reads left rest vals (read_values left decoding pad_char flags rest vals)
  unfolding read_values AllBytes
  read_values-Reads zero rest vals bytes =
      inr (vals, rest, refl, refl, omega arith, omega arith, bytes)
  read_values-Reads (suc left) [] vals bytes =
      inr (vals, [], refl, refl, omega arith, omega arith, bytes)
  read_values-Reads (suc left) (c ∷ rest) vals (hc, hs) =
      let v = get_or decoding c 0 in
      let longer = length-append vals (v ∷ []) in
      elim (ℕ_discrete v error_value) [
        | yes bad ↦ elim (Bool-cases (not (c == pad_char) || has_flag flags decode_pad_never)) [
          | inl refused ↦ inl (c ∷ rest, ground (arith, decoded c hc, bad, refused), omega arith)
          | inr pad ↦ inr (
            vals,
            c ∷ rest,
            ground (arith, decoded c hc, bad, pad),
            refl,
            omega arith,
            omega arith,
            (hc, hs),
          )
        ]
        | no good ↦ elim (read_values-Reads left rest (vals ++ (v ∷ [])) hs) [
          | inl (rest', run, le) ↦ inl (rest', ground (arith, decoded c hc, good, run), omega arith)
          | inr (vals', rest', run, total, lo, hi, bytes') ↦ inr (
            vals',
            rest',
            ground (arith, decoded c hc, good, run),
            omega (arith, total, longer),
            omega (arith, lo, longer),
            omega (arith, hi, longer),
            bytes',
          )
        ]
      ]
