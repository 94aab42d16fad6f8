-- ===== src/Probe/Cover.antt =====
-- The probe sequence visits every slot of the table within `capacity` steps.
use cbasis.Base.{
  ℕ, zero, suc, ◌+◌, ◌-◌, ◌*◌, ◌/◌, ◌%◌, ◌^◌, ◌<◌, ◌≤◌, ◌≡◌, ◌≢◌, refl, sym, ap, ◌∙◌, arith,
}
use native.Mathlib.Decide.{ℕ_discrete, dec_lt}
use native.Mathlib.Nat.{pow-suc, one-le-pow, mod-add-mod, div-add-mod}
use cbasis.Probe.{probe}
use cbasis.Probe.Pigeonhole.{injective_hits}

triangle : ℕ → ℕ
triangle zero = 0
triangle (suc n) = triangle n + suc n

twice-triangle : (n : ℕ) → 2 * triangle n ≡ n * suc n
unfolding triangle
twice-triangle zero = refl
twice-triangle (suc n) = omega (arith, twice-triangle n)

probe-triangle : (k hash n : ℕ) → probe k hash n ≡ (hash + triangle n) % 2 ^ k
unfolding probe triangle
probe-triangle k hash zero = ap (λ t. t % 2 ^ k) (omega arith)
probe-triangle k hash (suc n) =
    ap (λ t. (t + suc n) % 2 ^ k) (probe-triangle k hash n)
    ∙ (mod-add-mod (hash + triangle n) (2 ^ k) (suc n) ∙ ap (λ t. t % 2 ^ k) (omega arith))

pub probe-lt : (k hash n : ℕ) → probe k hash n < 2 ^ k
probe-lt k hash n = rw (probe-triangle k hash n) (omega (arith, one-le-pow k 2))

-- A power of two that divides `a * b` with `a` odd divides `b`.
odd_cancel : (n a b q : ℕ) → a % 2 ≡ 1 → a * b ≡ 2 ^ n * q → (r : ℕ) × (b ≡ 2 ^ n * r)
odd_cancel zero a b q odd e = (b, omega arith)
odd_cancel (suc n) a b q odd e =
    let doubled : a * b ≡ 2 * (2 ^ n * q) = e ∙ omega (arith, ap (λ t. t * q) (pow-suc 2 n)) in
    let split : a ≡ 2 * (a / 2) + 1 = omega arith in
    let even : b ≡ 2 * (b / 2) = omega (arith, ap (λ t. t * b) split, doubled) in
    let halved : a * (b / 2) ≡ 2 ^ n * q = omega (arith, ap (λ t. a * t) even, doubled) in
    let (r, f) = odd_cancel n a (b / 2) q odd halved in
    (r, omega (arith, even, f, ap (λ t. t * r) (pow-suc 2 n)))

multiple_small : (x p r : ℕ) → x ≡ p * r → 0 < x → x < p → ⊥
multiple_small x p zero e pos small = omega arith
multiple_small x p (suc r) e pos small = omega arith

triangle-gap : (i d : ℕ) → 2 * triangle (i + d) ≡ 2 * triangle i + d * (2 * i + d + 1)
triangle-gap i d = omega (arith, twice-triangle (i + d), twice-triangle i)

-- Equal remainders differ by a multiple.
same_mod : (m x y : ℕ) → x ≤ y → x % m ≡ y % m → (q : ℕ) × (y ≡ x + m * q)
same_mod m x y le e =
    let dx = div-add-mod x m in
    let dy = div-add-mod y m in
    elim (dec_lt (y / m) (x / m)) [
      | yes p ↦
          let t : x / m ≡ y / m + suc (x / m - y / m - 1) = omega arith in
          absurd (omega (arith, dx, dy, ap (λ k. m * k) t))
      | no p ↦
          let t : y / m ≡ x / m + (y / m - x / m) = omega arith in
          (y / m - x / m, omega (arith, dx, dy, ap (λ k. m * k) t))
    ]

-- Two steps of one round never meet.
probe-ne : (k hash i d : ℕ) → 0 < d → i + d < 2 ^ k → probe k hash i ≢ probe k hash (i + d)
probe-ne k hash i d pos lt same =
    let gap = triangle-gap i d in
    let (q, e) =
      same_mod (2 ^ k) (hash + triangle i) (hash + triangle (i + d)) (omega (arith, gap))
        (sym (probe-triangle k hash i) ∙ (same ∙ probe-triangle k hash (i + d))) in
    let product : d * (2 * i + d + 1) ≡ 2 ^ suc k * q =
      omega (arith, gap, e, ap (λ t. t * q) (pow-suc 2 k)) in
    elim (ℕ_discrete (d % 2) 1) [
      | yes odd ↦
          let (r, f) = odd_cancel (suc k) d (2 * i + d + 1) q odd product in
          multiple_small _ _ r f (omega arith) (omega (arith, pow-suc 2 k))
      | no even ↦
          let (r, f) =
            odd_cancel (suc k) (2 * i + d + 1) d q (omega arith) (omega (arith, product)) in
          multiple_small _ _ r f pos (omega (arith, pow-suc 2 k))
    ]

-- In a table of `2 ^ k` slots the first `2 ^ k` steps of a probe visit every slot.
pub probe_covers :
    (k hash slot : ℕ) → slot < 2 ^ k → (n : ℕ) × (n < 2 ^ k) × (probe k hash n ≡ slot)
probe_covers k hash slot lt =
    injective_hits (2 ^ k) (probe k hash) slot (λ i _. probe-lt k hash i)
      (λ i j h l e.
        probe-ne k hash i (j - i) (omega arith) (omega arith) (e ∙ ap (probe k hash) (omega arith)))
      lt
