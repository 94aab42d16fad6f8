-- ===== src/Align/Power.antt =====
-- is_power_of_two decides the powers of two.
use cbasis.Base.{
  ℕ, suc, ◌+◌, ◌-◌, ◌/◌, ◌%◌, ◌^◌, ◌<◌, ◌≤◌, ◌≡◌, ◌↔◌, bit_and, refl, ap, ◌∙◌, true, by_halving,
  bit_and_lowest, bit_and_mod, arith,
}
use native.Mathlib.Nat.{pow-suc, one-le-pow, pow-le-pow_right, mod_self}
use native.Mathlib.Decide.{ℕ_discrete, dec_lt}
use cbasis.Align.{is_power_of_two, is_power_of_two_or_zero}

bit_and_self : (x : ℕ) → bit_and x x ≡ x
bit_and_self =
    by_halving (λ x. bit_and x x ≡ x) refl λ n ih. omega (arith, bit_and_lowest (suc n) (suc n), ih)

abbrev IsPower : ℕ → Type 0
IsPower n = (k : ℕ) × (n ≡ 2 ^ k)

bit_and-IsPower : (n : ℕ) → 0 < n → bit_and n (n - 1) ≡ 0 → IsPower n
bit_and-IsPower =
    by_halving (λ n. 0 < n → bit_and n (n - 1) ≡ 0 → IsPower n) (λ pos e. absurd (omega arith))
      λ n ih pos e. step (suc n) pos e ih
  where
    step :
        (n : ℕ)
        → 0 < n
        → bit_and n (n - 1) ≡ 0
        → (0 < n / 2 → bit_and (n / 2) (n / 2 - 1) ≡ 0 → IsPower (n / 2))
        → IsPower n
    step n pos e ih = elim (ℕ_discrete (n % 2) 0) [
      | yes even ↦
          let half : (n - 1) / 2 ≡ n / 2 - 1 = omega arith in
          let rest : bit_and (n / 2) (n / 2 - 1) ≡ 0 =
            omega (arith, bit_and_lowest n (n - 1), ap (bit_and (n / 2)) half, e) in
          let (k, is_k) = ih (omega arith) rest in (suc k, omega (arith, is_k, pow-suc 2 k))
      | no odd ↦
          let half : (n - 1) / 2 ≡ n / 2 = omega arith in
          (
            0,
            omega (
              arith,
              bit_and_lowest n (n - 1),
              ap (bit_and (n / 2)) half,
              bit_and_self (n / 2),
              e,
            ),
          )
    ]

pub bit_and-pow : (k : ℕ) → bit_and (2 ^ k) (2 ^ k - 1) ≡ 0
bit_and-pow k =
    let pos : 0 < 2 ^ k = one-le-pow k 2 (omega arith) in bit_and_mod k (2 ^ k) ∙ mod_self (2 ^ k)

wrapped : (n : ℕ) → 0 < n → n < 2 ^ 64 → (n + 2 ^ 64 - 1) % 2 ^ 64 ≡ n - 1
wrapped n pos lt = omega arith

pow_in_isize : (k : ℕ) → k < 63 → 2 ^ k < 2 ^ 63
pow_in_isize k lt =
    let less : 2 ^ k ≤ 2 ^ 62 =
      pow-le-pow_right {n = 2} (omega arith) {i = k} {j = 62} (omega arith) in
    omega arith

isize_pow : (k : ℕ) → 2 ^ k < 2 ^ 63 → k < 63
isize_pow k lt = elim (dec_lt k 63) [
  | yes p ↦ p
  | no p ↦
      let more : 2 ^ 63 ≤ 2 ^ k =
        pow-le-pow_right {n = 2} (omega arith) {i = 63} {j = k} (omega arith) in
      absurd (omega arith)
]

-- is_power_of_two holds of a 64-bit pattern just when it is a power of two that a signed `isize`
-- holds, 2 ^ k for a k below 63: not of 0, and of no pattern of a negative number, 2 ^ 63 among them.
pub is_power_of_two_iff :
    (num : ℕ) → num < 2 ^ 64 → (is_power_of_two num ≡ true) ↔ ((k : ℕ) × (k < 63) × (num ≡ 2 ^ k))
unfolding is_power_of_two is_power_of_two_or_zero
is_power_of_two_iff n lt = (
  λ e.
      let pos : 0 < n = ground (arith, e) in
      let small : n < 2 ^ 63 = ground (arith, e) in
      let (k, is_k) =
        bit_and-IsPower n pos (ground (arith, e, ap (bit_and n) (wrapped n pos lt))) in
      (k, isize_pow k (omega (arith, is_k)), is_k),
  λ (k, below, is_k).
      let some_k : 0 < 2 ^ k = one-le-pow k 2 (omega arith) in
      let pos : 0 < n = omega (arith, is_k) in
      let small : n < 2 ^ 63 = omega (arith, is_k, pow_in_isize k below) in
      let clear : bit_and n (n - 1) ≡ 0 = ap (λ m. bit_and m (m - 1)) is_k ∙ bit_and-pow k in
      ground (arith, clear, ap (bit_and n) (wrapped n pos lt)),
)
