-- ===== src/Base64/Chars.antt =====
-- base64.h: four characters and the three bytes they stand for.
use cbasis.Base.{
  ℕ, ◌+◌, ◌*◌, ◌/◌, ◌%◌, ◌^◌, ◌<◌, ◌≡◌, bit_and, bit_or, ap, ◌∙◌, false, List, [], ◌∷◌, ◌++◌, some,
  load, bit_or_add, bit_and_mod, arith,
}
use cbasis.Base64.{decode_chunks, has_error_value, top_byte, middle_byte}
use cbasis.Base64.Words.{has_error_value_iff}

-- The tables match: the decoding of the character of each value is the value.
pub record Matching (encoding decoding : List ℕ) : Type 0 where
  pub char : ℕ → ℕ
  pub encodes : (i : ℕ) → i < 64 → load encoding i ≡ some (char i)
  pub decodes : (i : ℕ) → i < 64 → load decoding (char i) ≡ some i

-- The values of the four characters, as arithmetic.
abbrev pub value_1 : ℕ → ℕ → ℕ
value_1 a b = a % 4 * 16 + b / 16

abbrev pub value_2 : ℕ → ℕ → ℕ
value_2 b c = b % 16 * 4 + c / 64

pub first_bits : (a b : ℕ) → b < 2 ^ 8 → bit_or (bit_and a 0x03 * 2 ^ 4) (b / 2 ^ 4) ≡ value_1 a b
first_bits a b hb =
    ap (λ n. bit_or (n * 2 ^ 4) (b / 2 ^ 4)) (bit_and_mod 2 a)
    ∙ bit_or_add 4 (a % 2 ^ 2) (b / 2 ^ 4) (omega arith)
    ∙ omega arith

pub middle_bits : (b c : ℕ) → c < 2 ^ 8 → bit_or (bit_and b 0x0F * 2 ^ 2) (c / 2 ^ 6) ≡ value_2 b c
middle_bits b c hc =
    ap (λ n. bit_or (n * 2 ^ 2) (c / 2 ^ 6)) (bit_and_mod 4 b)
    ∙ bit_or_add 2 (b % 2 ^ 4) (c / 2 ^ 6) (omega arith)
    ∙ omega arith

pub last_first_bits : (a : ℕ) → bit_and a 0x03 * 2 ^ 4 ≡ a % 4 * 16
last_first_bits a = omega (arith, bit_and_mod 2 a)

pub last_middle_bits : (b : ℕ) → bit_and b 0x0F * 2 ^ 2 ≡ b % 16 * 4
last_middle_bits b = omega (arith, bit_and_mod 4 b)

pub low_bits : (c : ℕ) → bit_and c 0x3F ≡ c % 64
low_bits c = bit_and_mod 6 c

pub join_two :
    (v0 v1 : ℕ) → v1 < 64 → bit_or (v0 * 2 ^ 18) (v1 * 2 ^ 12) ≡ v0 * 2 ^ 18 + v1 * 2 ^ 12
join_two v0 v1 h = bit_or_add 18 v0 (v1 * 2 ^ 12) (omega arith)

pub join_three :
    (v0 v1 v2 : ℕ)
    → v1 < 64
    → v2 < 64
    → bit_or (bit_or (v0 * 2 ^ 18) (v1 * 2 ^ 12)) (v2 * 2 ^ 6)
      ≡ v0 * 2 ^ 18 + v1 * 2 ^ 12 + v2 * 2 ^ 6
join_three v0 v1 v2 h1 h2 =
    let high : v0 * 2 ^ 18 + v1 * 2 ^ 12 ≡ (v0 * 2 ^ 6 + v1) * 2 ^ 12 = omega arith in
    ap (λ n. bit_or n (v2 * 2 ^ 6)) (join_two v0 v1 h1 ∙ high)
    ∙ bit_or_add 12 (v0 * 2 ^ 6 + v1) (v2 * 2 ^ 6) (omega arith)
    ∙ omega arith

pub join_four :
    (v0 v1 v2 v3 : ℕ)
    → v1 < 64
    → v2 < 64
    → v3 < 64
    → bit_or (bit_or (bit_or (v0 * 2 ^ 18) (v1 * 2 ^ 12)) (v2 * 2 ^ 6)) v3
      ≡ v0 * 2 ^ 18 + v1 * 2 ^ 12 + v2 * 2 ^ 6 + v3
join_four v0 v1 v2 v3 h1 h2 h3 =
    let high : v0 * 2 ^ 18 + v1 * 2 ^ 12 + v2 * 2 ^ 6 ≡ (v0 * 2 ^ 12 + v1 * 2 ^ 6 + v2) * 2 ^ 6 =
      omega arith in
    ap (λ n. bit_or n v3) (join_three v0 v1 v2 h1 h2 ∙ high)
    ∙ bit_or_add 6 (v0 * 2 ^ 12 + v1 * 2 ^ 6 + v2) v3 (omega arith)
    ∙ omega arith

no_error :
    (v0 v1 v2 v3 : ℕ) → v0 < 64 → v1 < 64 → v2 < 64 → v3 < 64 → has_error_value v0 v1 v2 v3 ≡ false
no_error v0 v1 v2 v3 h0 h1 h2 h3 =
    has_error_value_iff v0 v1 v2 v3 (omega arith) (omega arith) (omega arith) (omega arith)
    ∙ ground arith

-- A chunk of four characters is decoded, and the loop goes on behind it.
pub chunk_run :
    (decoding : List ℕ) (w x y z v0 v1 v2 v3 n : ℕ) (rest : List ℕ) (in_i : ℕ) (out : List ℕ)
    → load decoding w ≡ some v0
    → load decoding x ≡ some v1
    → load decoding y ≡ some v2
    → load decoding z ≡ some v3
    → v0 < 64
    → v1 < 64
    → v2 < 64
    → v3 < 64
    → v0 * 2 ^ 18 + v1 * 2 ^ 12 + v2 * 2 ^ 6 + v3 ≡ n
    → decode_chunks decoding (w ∷ x ∷ y ∷ z ∷ rest) in_i out
      ≡ decode_chunks decoding rest
          (in_i + 4)
          (out ++ (top_byte n ∷ middle_byte n ∷ n % 2 ^ 8 ∷ []))
unfolding decode_chunks
chunk_run decoding w x y z v0 v1 v2 v3 n rest in_i out lw lx ly lz h0 h1 h2 h3 e =
    ground
      (arith, lw, lx, ly, lz, no_error v0 v1 v2 v3 h0 h1 h2 h3, join_four v0 v1 v2 v3 h1 h2 h3 ∙ e)

-- The chunk of three bytes stands for them.
pub bytes_of :
    (a b c : ℕ)
    → a < 2 ^ 8
    → b < 2 ^ 8
    → c < 2 ^ 8
    → a / 4 * 2 ^ 18 + value_1 a b * 2 ^ 12 + value_2 b c * 2 ^ 6 + c % 64
      ≡ a * 2 ^ 16 + b * 2 ^ 8 + c
bytes_of a b c ha hb hc = omega arith
