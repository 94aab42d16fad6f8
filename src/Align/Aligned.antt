-- ===== src/Align/Aligned.antt =====
-- align_forward and align_backward give the nearest multiples of the alignment.
use cbasis.Base.{
  ℕ, zero, suc, ◌+◌, ◌-◌, ◌*◌, ◌/◌, ◌%◌, ◌^◌, ◌<◌, ◌≤◌, ◌≡◌, bit_and, refl, sym, ap, ◌∙◌, true,
  ◌==◌, some, bit_and_fields, bit_and_mod, bit_and-zero, double, arith,
}
use native.Mathlib.Nat.{
  pow-suc, one-le-pow, pow-le-pow_right, mul-le-mul_left, mul-mod_right, mul-mod_left, mul-sub,
  div-add-mod, div-add-mod', mod-lt, div-lt_iff_lt-mul, mul_comm, zero-mod, mod-eq_of_lt,
}
use native.Mathlib.Decide.{ℕ_discrete}
use cbasis.Align.{is_power_of_two, align_forward, align_backward, is_aligned}
use cbasis.Align.Power.{is_power_of_two_iff}

two_powers : (k j : ℕ) → 2 ^ (k + j) ≡ 2 ^ k * 2 ^ j
two_powers zero j = let e : zero + j ≡ j = omega arith in ap (λ n. 2 ^ n) e ∙ omega arith
two_powers (suc k) j =
    let next : suc k + j ≡ suc (k + j) = omega arith in
    ap (λ n. 2 ^ n) next
    ∙ omega (
      arith,
      pow-suc 2 (k + j),
      two_powers k j,
      mul_comm (2 ^ suc k) (2 ^ j),
      mul_comm (2 ^ k) (2 ^ j),
      double (2 ^ j) k,
    )

-- The distance to the next multiple of `p` is the remainder of the negative.
next_multiple :
    (p q ptr : ℕ)
    → 0 < p
    → p * q ≡ 2 ^ 64
    → ptr < 2 ^ 64
    → (ptr + (2 ^ 64 - ptr) % 2 ^ 64 % p) % p ≡ 0
next_multiple p q ptr pos whole lt = elim (ℕ_discrete ptr 0) [
  | yes e ↦
      let at_0 : ptr + (2 ^ 64 - ptr) % 2 ^ 64 % p ≡ 0 % p =
        omega (arith, ap (λ n. n % p) (wraps ptr e)) in
      ap (λ n. n % p) (at_0 ∙ zero-mod p) ∙ zero-mod p
  | no ne ↦
      let m = 2 ^ 64 - ptr in
      let small : m % 2 ^ 64 ≡ m = omega arith in
      let value : ptr + m % 2 ^ 64 % p ≡ p * (q - m / p) =
        omega (arith, ap (λ n. n % p) small, div-add-mod m p, mul-sub p q (m / p), whole) in
      ap (λ n. n % p) value ∙ mul-mod_right p (q - m / p)
]
  where
    wraps : (ptr : ℕ) → ptr ≡ 0 → (2 ^ 64 - ptr) % 2 ^ 64 ≡ 0
    wraps ptr e = omega arith

module _ (k j : ℕ) (split : k + j ≡ 64) where
  whole : 2 ^ k * 2 ^ j ≡ 2 ^ 64
  whole = sym (two_powers k j) ∙ ap (λ n. 2 ^ n) split

  pub is_power_of_two-pow : 1 < j → is_power_of_two (2 ^ k) ≡ true
  is_power_of_two-pow more =
      let two : 2 ^ 1 ≤ 2 ^ j =
        pow-le-pow_right {n = 2} (omega arith) {i = 1} {j = j} (omega arith) in
      let lt : 2 ^ k < 2 ^ 64 = omega (arith, whole, mul-le-mul_left (2 ^ k) two) in
      (is_power_of_two_iff (2 ^ k) lt).1 (k, omega arith, refl)

  masked : (ptr : ℕ) → ptr < 2 ^ 64 → bit_and ptr (2 ^ 64 - 1 - (2 ^ k - 1)) ≡ ptr / 2 ^ k * 2 ^ k
  masked ptr lt =
      let some_k : 0 < 2 ^ k = one-le-pow k 2 (omega arith) in
      let some_j : 0 < 2 ^ j = one-le-pow j 2 (omega arith) in
      let parts : ptr ≡ ptr / 2 ^ k * 2 ^ k + ptr % 2 ^ k = sym (div-add-mod' ptr (2 ^ k)) in
      let mask : 2 ^ 64 - 1 - (2 ^ k - 1) ≡ (2 ^ j - 1) * 2 ^ k + 0 =
        omega (arith, whole, mul-sub (2 ^ k) (2 ^ j) 1, mul_comm (2 ^ k) (2 ^ j - 1)) in
      let few : ptr / 2 ^ k < 2 ^ j =
        (div-lt_iff_lt-mul some_k).1 (omega (arith, whole, mul_comm (2 ^ k) (2 ^ j))) in
      ap (λ n. bit_and n (2 ^ 64 - 1 - (2 ^ k - 1))) parts
      ∙ ap (bit_and (ptr / 2 ^ k * 2 ^ k + ptr % 2 ^ k)) mask
      ∙ bit_and_fields k (ptr % 2 ^ k) (ptr / 2 ^ k) 0 (2 ^ j - 1) (mod-lt ptr some_k) some_k
      ∙ omega (
        arith,
        bit_and-zero (ptr % 2 ^ k),
        ap (λ n. n * 2 ^ k) (bit_and_mod j (ptr / 2 ^ k) ∙ mod-eq_of_lt few),
      )

-- For an alignment that is a power of two below 2 ^ 63, which an `isize` holds, and an address at least
-- the alignment before the end of the address space, the calls return: align_backward gives the last
-- multiple of the alignment up to the address, align_forward the first from the address on, and
-- is_aligned tells whether the address is one.
pub align_sound :
    (ptr k j : ℕ)
    → k + j ≡ 64
    → 1 < j
    → ptr + 2 ^ k ≤ 2 ^ 64
    → (before : ℕ) × (after : ℕ) × (align_backward ptr (2 ^ k) ≡ some before)
      × (align_forward ptr (2 ^ k) ≡ some after)
      × (is_aligned ptr (2 ^ k) ≡ some (ptr == before))
      × (before % 2 ^ k ≡ 0)
      × (before ≤ ptr)
      × (ptr < before + 2 ^ k)
      × (after % 2 ^ k ≡ 0)
      × (ptr ≤ after)
      × (after < ptr + 2 ^ k)
unfolding align_backward align_forward is_aligned
align_sound ptr k j split pos room =
    let some_k : 0 < 2 ^ k = one-le-pow k 2 (omega arith) in
    let lt : ptr < 2 ^ 64 = omega arith in
    let ok = is_power_of_two-pow k j split pos in
    let m = (2 ^ 64 - ptr) % 2 ^ 64 in
    let less : m % 2 ^ k < 2 ^ k = mod-lt m some_k in
    let no_wrap : (ptr + m % 2 ^ k) % 2 ^ 64 ≡ ptr + m % 2 ^ k = omega arith in
    let rest : ptr % 2 ^ k < 2 ^ k = mod-lt ptr some_k in
    (
      ptr / 2 ^ k * 2 ^ k,
      ptr + m % 2 ^ k,
      ground (arith, ok, masked k j split ptr lt),
      ground (arith, ok, bit_and_mod k m, no_wrap),
      ground (arith, ok, masked k j split ptr lt),
      mul-mod_left (ptr / 2 ^ k) (2 ^ k),
      omega (arith, div-add-mod' ptr (2 ^ k)),
      omega (arith, div-add-mod' ptr (2 ^ k), rest),
      next_multiple (2 ^ k) (2 ^ j) ptr some_k (whole k j split) lt,
      omega arith,
      omega (arith, less),
    )
