-- ===== src/Base64/Words.antt =====
-- The test of base64_decode whether a word has a byte of 255, against the bytes.
use cbasis.Base.{
  ℕ, ◌+◌, ◌-◌, ◌*◌, ◌%◌, ◌^◌, ◌<◌, ◌≡◌, ◌≢◌, bit_and, bit_xor, refl, sym, ap, subst, ◌∙◌, Bool,
  true, false, ◌||◌, ◌==◌, inl, inr, tabulated, eq_of_table, bit_and-le, bit_and_fields,
  bit_xor_ones, arith, Bool-cases,
}
use native.Mathlib.Decide.{ℕ_discrete}
use cbasis.Base64.{has_error_value, error_value}

-- The test on one byte more.
byte_and_rest :
    (s v w t h : ℕ)
    → s < 2 ^ 8
    → v < 2 ^ 8
    → bit_and (bit_and (t * 2 ^ 8 + s) (w * 2 ^ 8 + v)) (h * 2 ^ 8 + 0x80)
      ≡ bit_and (bit_and t w) h * 2 ^ 8 + bit_and (bit_and s v) 0x80
byte_and_rest s v w t h hs hv =
    ap (λ n. bit_and n (h * 2 ^ 8 + 0x80)) (bit_and_fields 8 s t v w hs hv)
    ∙ bit_and_fields 8 (bit_and s v) (bit_and t w) 0x80 h (omega (arith, bit_and-le s v))
        (omega arith)

-- A byte below 255 does not pass the test.
clear_byte : (v : ℕ) → v < 255 → bit_and (bit_and (254 - v) v) 0x80 ≡ 0
unfolding tabulated
clear_byte v h = eq_of_table (λ v. bit_and (bit_and (254 - v) v) 0x80) (λ v. 0) 255 v refl h

-- The test of `below` bits more significant, with the byte `v` below: `2 ^ 8 * M` is the modulus, `w`
-- the complement of the difference there, and `m` and `h` the constants.
abbrev test : ℕ → ℕ → ℕ → ℕ → ℕ
test M m h w = bit_and (bit_and ((M - 1 - w + M - m) % M) w) h

next_clear :
    (M m h v w s : ℕ)
    → v < 255
    → (2 ^ 8 * M - 1 - (w * 2 ^ 8 + v) + 2 ^ 8 * M - (m * 2 ^ 8 + 1)) % (2 ^ 8 * M)
      ≡ (M - 1 - w + M - m) % M * 2 ^ 8 + (254 - v)
    → test (2 ^ 8 * M) (m * 2 ^ 8 + 1) (h * 2 ^ 8 + 0x80) (w * 2 ^ 8 + v) ≡ test M m h w * 2 ^ 8
next_clear M m h v w s lt e =
    ap (λ n. bit_and (bit_and n (w * 2 ^ 8 + v)) (h * 2 ^ 8 + 0x80)) e
    ∙ byte_and_rest (254 - v) v w ((M - 1 - w + M - m) % M) h (omega arith) (omega arith)
    ∙ omega (arith, clear_byte v lt)

next_set :
    (M m h w t : ℕ)
    → (2 ^ 8 * M - 1 - (w * 2 ^ 8 + 255) + 2 ^ 8 * M - (m * 2 ^ 8 + 1)) % (2 ^ 8 * M)
      ≡ t * 2 ^ 8 + 255
    → test (2 ^ 8 * M) (m * 2 ^ 8 + 1) (h * 2 ^ 8 + 0x80) (w * 2 ^ 8 + 255) ≢ 0
next_set M m h w t e zero_test =
    let value =
      ap (λ n. bit_and (bit_and n (w * 2 ^ 8 + 255)) (h * 2 ^ 8 + 0x80)) e
      ∙ byte_and_rest 255 255 w t h (omega arith) (omega arith) in
    let high : bit_and (bit_and 255 255) 0x80 ≡ 0x80 = refl in
    absurd (omega (arith, value, high, zero_test))

-- `n` is not zero just when `bad` holds.
abbrev Tells : Bool → ℕ → Type 0
Tells bad n = (bad ≡ true → n ≢ 0) × (bad ≡ false → n ≡ 0)

-- One byte more, by its equations for this modulus.
next_byte :
    (M m h v w t : ℕ) (bad : Bool)
    → v < 2 ^ 8
    → Tells bad (test M m h w)
    → (v < 255
        → (2 ^ 8 * M - 1 - (w * 2 ^ 8 + v) + 2 ^ 8 * M - (m * 2 ^ 8 + 1)) % (2 ^ 8 * M)
          ≡ (M - 1 - w + M - m) % M * 2 ^ 8 + (254 - v))
    → (2 ^ 8 * M - 1 - (w * 2 ^ 8 + 255) + 2 ^ 8 * M - (m * 2 ^ 8 + 1)) % (2 ^ 8 * M)
      ≡ t * 2 ^ 8 + 255
    → Tells
        ((v == error_value) || bad)
        (test (2 ^ 8 * M) (m * 2 ^ 8 + 1) (h * 2 ^ 8 + 0x80) (w * 2 ^ 8 + v))
next_byte M m h v w t bad byte (tells_bad, tells_clear) clear_eq set_eq = elim (ℕ_discrete v 255) [
  | yes e ↦ (
    λ some_bad.
        subst (λ b. test (2 ^ 8 * M) (m * 2 ^ 8 + 1) (h * 2 ^ 8 + 0x80) (w * 2 ^ 8 + b) ≢ 0) (sym e)
          (next_set M m h w t set_eq),
    λ no_bad. absurd (ground (arith, e, no_bad)),
  )
  | no ne ↦
      let lt : v < 255 = omega arith in
      let value = next_clear M m h v w ((M - 1 - w + M - m) % M) lt (clear_eq lt) in
      (
        λ some_bad is_zero.
            tells_bad (ground (arith, ne, some_bad)) (omega (arith, value, is_zero)),
        λ no_bad. omega (arith, value, tells_clear (ground (arith, ne, no_bad))),
      )
]

as_test :
    (combined w : ℕ)
    → combined ≡ w
    → w < 2 ^ 32
    → bit_and
        (bit_and
          ((bit_xor combined 0xFFFFFFFF + 2 ^ 32 - 0x01010101) % 2 ^ 32)
          (0xFFFFFFFF - bit_xor combined 0xFFFFFFFF))
        0x80808080
      ≡ test (2 ^ 32) 0x01010101 0x80808080 w
as_test combined w e lt =
    let flipped : bit_xor combined 0xFFFFFFFF ≡ 2 ^ 32 - 1 - w =
      ap (λ n. bit_xor n 0xFFFFFFFF) e ∙ bit_xor_ones 32 w lt in
    let back : 0xFFFFFFFF - (2 ^ 32 - 1 - w) ≡ w = omega arith in
    ap (λ n. bit_and (bit_and ((n + 2 ^ 32 - 0x01010101) % 2 ^ 32) (0xFFFFFFFF - n)) 0x80808080)
      flipped
    ∙ ap (λ n. bit_and (bit_and ((2 ^ 32 - 1 - w + 2 ^ 32 - 0x01010101) % 2 ^ 32) n) 0x80808080)
        back

finish :
    (v0 v1 v2 v3 w : ℕ)
    → v0 < 2 ^ 8
    → v1 < 2 ^ 8
    → v2 < 2 ^ 8
    → v3 < 2 ^ 8
    → v0 + 2 ^ 8 * (v1 + 2 ^ 8 * (v2 + 2 ^ 8 * v3)) ≡ w
    → (bad : Bool) → Tells bad (test (2 ^ 32) 0x01010101 0x80808080 w)
    → has_error_value v0 v1 v2 v3 ≡ bad
unfolding has_error_value
finish v0 v1 v2 v3 w h0 h1 h2 h3 e bad (tells_bad, tells_clear) =
    let value = as_test (v0 + 2 ^ 8 * (v1 + 2 ^ 8 * (v2 + 2 ^ 8 * v3))) w e (omega arith) in
    elim (Bool-cases bad) [
      | inl set ↦ ground (arith, value, tells_bad set, set)
      | inr clear ↦ ground (arith, value, tells_clear clear, clear)
    ]

-- The test of base64_decode on the four values of a chunk at once, with its borrows, tells whether one
-- of them is the error value.
pub has_error_value_iff :
    (v0 v1 v2 v3 : ℕ)
    → v0 < 2 ^ 8
    → v1 < 2 ^ 8
    → v2 < 2 ^ 8
    → v3 < 2 ^ 8
    → has_error_value v0 v1 v2 v3 ≡ (
        (v0 == error_value)
        || ((v1 == error_value) || ((v2 == error_value) || (v3 == error_value))))
unfolding has_error_value
has_error_value_iff v0 v1 v2 v3 h0 h1 h2 h3 =
    let w3 = 0 * 2 ^ 8 + v3 in
    let w2 = w3 * 2 ^ 8 + v2 in
    let w1 = w2 * 2 ^ 8 + v1 in
    let w0 = w1 * 2 ^ 8 + v0 in
    let none_yet : Tells false (test 1 0 0 0) = (λ e. absurd (ground (arith, e)), λ e. refl) in
    let one = next_byte 1 0 0 v3 0 0 false h3 none_yet (λ lt. omega arith) (omega arith) in
    let two =
      next_byte (2 ^ 8) 1 0x80 v2 w3 ((2 ^ 8 - 1 - w3 + 2 ^ 8 - 2) % 2 ^ 8)
        ((v3 == error_value) || false) h2 one (λ lt. omega arith) (omega arith) in
    let three =
      next_byte (2 ^ 16) 0x0101 0x8080 v1 w2 ((2 ^ 16 - 1 - w2 + 2 ^ 16 - 0x0102) % 2 ^ 16)
        ((v2 == error_value) || ((v3 == error_value) || false)) h1 two (λ lt. omega arith)
        (omega arith) in
    let four =
      next_byte (2 ^ 24) 0x010101 0x808080 v0 w1 ((2 ^ 24 - 1 - w1 + 2 ^ 24 - 0x010102) % 2 ^ 24)
        ((v1 == error_value) || ((v2 == error_value) || ((v3 == error_value) || false))) h0 three
        (λ lt. omega arith) (omega arith) in
    finish v0 v1 v2 v3 w0 h0 h1 h2 h3 (omega arith)
      ((v0 == error_value)
        || ((v1 == error_value) || ((v2 == error_value) || ((v3 == error_value) || false))))
      four
    ∙ ground arith
