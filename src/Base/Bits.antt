-- ===== src/Base/Bits.antt =====
-- `|` of disjoint fields, `&` with a low mask and the bounds of `|`, as arithmetic.
use Prim.Native.Nat.{
  ℕ, zero, suc, ◌+◌, ◌-◌, ◌*◌, ◌/◌, ◌%◌, ◌^◌, ◌≤◌, ◌<◌, min, max, bit_and, bit_or, digits, bitwise,
  bit_xor, differ,
}
use Prim.Native.Nat.{bit_and-bitwise, bit_or-bitwise, bit_xor-bitwise}
use mathlib.Core.Path.{◌≡◌, refl, sym, ap, ◌∙◌}
use mathlib.Core.Bool.{Bool, true, false}
use native.Mathlib.Nat.{pow-suc, one-le-pow}
use native.Mathlib.Omega.{arith}
use cbasis.Base.Tests.{◌==◌, if◌then◌else◌}

-- A table of the values of `f` below a bound, compared with `g` from the top down.
unfoldable pub tabulated : (ℕ → ℕ) → (ℕ → ℕ) → ℕ → Bool
tabulated f g = elim [ zero ↦ true | suc (k → below) ↦ if f k == g k then below else false ]

-- Functions with one table agree at every value in it.
pub eq_of_table : (f g : ℕ → ℕ) (bound x : ℕ) → tabulated f g bound ≡ true → x < bound → f x ≡ g x
unfolding tabulated
eq_of_table f g (suc k) x e lt = ground (arith, eq_of_table f g k x)
eq_of_table f g zero x e lt = elim lt [ ]

-- Fuel beyond the first argument changes no digit; hence the equation for the lowest one.
module _ (z : ℕ → ℕ) (f : ℕ → ℕ → ℕ) where
  no_digits : (n b : ℕ) → digits z f n zero b ≡ z b
  no_digits (suc n) b = refl
  no_digits zero b = refl

  fuel_irrelevant : (a b : ℕ) {n m : ℕ} → a ≤ n → a ≤ m → digits z f n a b ≡ digits z f m a b
  fuel_irrelevant (suc a) b {n = suc n} {m = suc m} p q =
      let rest = fuel_irrelevant (suc a / 2) (b / 2) {n = n} {m = m} (omega arith) (omega arith) in
      ap (λ d. d * 2 + f (suc a % 2) (b % 2)) rest
  fuel_irrelevant (suc a) b {n = zero} p q = absurd (omega arith)
  fuel_irrelevant (suc a) b {n = suc n} {m = zero} p q = absurd (omega arith)
  fuel_irrelevant zero b {n} {m} p q = no_digits n b ∙ sym (no_digits m b)

  lowest_digit :
      (a b : ℕ)
      → bitwise z f (suc a) b ≡ bitwise z f (suc a / 2) (b / 2) * 2 + f (suc a % 2) (b % 2)
  lowest_digit a b =
      ap (λ d. d * 2 + f (suc a % 2) (b % 2))
        (fuel_irrelevant (suc a / 2) (b / 2) {n = a} {m = suc a / 2} (omega arith) (omega arith))

-- An operation that means `bitwise z f` is computed from the lowest digit up, if `f` with a zero
-- digit gives what `z` leaves of the other number.
module _ (op : ℕ → ℕ → ℕ) (z : ℕ → ℕ) (f : ℕ → ℕ → ℕ) (means : (x y : ℕ) → op x y ≡ bitwise z f x y)
    (ends : (y : ℕ) → z y ≡ z (y / 2) * 2 + f 0 (y % 2)) where
  from_lowest : (x y : ℕ) → op x y ≡ op (x / 2) (y / 2) * 2 + f (x % 2) (y % 2)
  from_lowest zero y =
      means zero y ∙ (ends y ∙ ap (λ d. d * 2 + f 0 (y % 2)) (sym (means zero (y / 2))))
  from_lowest (suc x) y =
      means (suc x) y
      ∙ (lowest_digit z f x y
          ∙ ap (λ d. d * 2 + f (suc x % 2) (y % 2)) (sym (means (suc x / 2) (y / 2))))

pub bit_or_lowest : (x y : ℕ) → bit_or x y ≡ bit_or (x / 2) (y / 2) * 2 + max (x % 2) (y % 2)
bit_or_lowest = from_lowest bit_or (λ y. y) max bit_or-bitwise (λ y. omega arith)

pub bit_and_lowest : (x y : ℕ) → bit_and x y ≡ bit_and (x / 2) (y / 2) * 2 + min (x % 2) (y % 2)
bit_and_lowest = from_lowest bit_and (λ y. 0) min bit_and-bitwise (λ y. omega arith)

halving_below {ℓ} :
    (P : ℕ → Type ℓ) → P 0 → ((n : ℕ) → P (suc n / 2) → P (suc n)) → (bound n : ℕ) → n ≤ bound → P n
halving_below P base step bound zero h = base
halving_below P base step zero (suc n) h = absurd (omega arith)
halving_below P base step (suc bound) (suc n) h =
    step n (halving_below P base step bound (suc n / 2) (omega arith))

-- Induction from the half of a number to the number.
pub by_halving {ℓ} : (P : ℕ → Type ℓ) → P 0 → ((n : ℕ) → P (suc n / 2) → P (suc n)) → (n : ℕ) → P n
by_halving P base step n = halving_below P base step n n (omega arith)

pub bit_or-zero : (a : ℕ) → bit_or a 0 ≡ a
bit_or-zero =
    by_halving (λ a. bit_or a 0 ≡ a) refl λ n ih. omega (arith, bit_or_lowest (suc n) 0, ih)

pub bit_and-zero : (a : ℕ) → bit_and a 0 ≡ 0
bit_and-zero =
    by_halving (λ a. bit_and a 0 ≡ 0) refl λ n ih. omega (arith, bit_and_lowest (suc n) 0, ih)

pub double : (q k : ℕ) → q * 2 ^ suc k ≡ 2 * (q * 2 ^ k)
double q k = omega (arith, ap (λ (t : ℕ). q * t) (pow-suc 2 k))

-- `(q << k) | r` is a sum when `r` fits into `k` bits.
pub bit_or_add : (k q r : ℕ) → r < 2 ^ k → bit_or (q * 2 ^ k) r ≡ q * 2 ^ k + r
bit_or_add zero q r h = ground (arith, bit_or-zero q)
bit_or_add (suc k) q r h =
    ground
      (arith, bit_or_lowest (q * 2 ^ suc k) r, double q k, bit_or_add k q (r / 2) (omega arith))

bit_and_low : (k q r : ℕ) → r < 2 ^ k → bit_and (q * 2 ^ k + r) (2 ^ k - 1) ≡ r
bit_and_low zero q r h = ground (arith, bit_and-zero q)
bit_and_low (suc k) q r h = ground (
  arith,
  bit_and_lowest (q * 2 ^ suc k + r) (2 ^ suc k - 1),
  double q k,
  pow-suc 2 k,
  bit_and_low k q (r / 2) (omega arith),
)

-- A mask of `k` low ones is the remainder by `2 ^ k`.
pub bit_and_mod : (k a : ℕ) → bit_and a (2 ^ k - 1) ≡ a % 2 ^ k
bit_and_mod k a = ground (arith, one-le-pow k 2, bit_and_low k (a / 2 ^ k) (a % 2 ^ k))

-- `|` only sets bits.
pub le-bit_or : (a b : ℕ) → (a ≤ bit_or a b) × (b ≤ bit_or a b)
le-bit_or =
    by_halving (λ a. (b : ℕ) → (a ≤ bit_or a b) × (b ≤ bit_or a b))
      (λ b. (omega arith, omega (arith, bit_or-bitwise 0 b)))
      λ n ih b. omega (arith, bit_or_lowest (suc n) b, ih (b / 2))

-- `|` of two numbers of `k` bits has `k` bits.
pub bit_or-lt : (k a b : ℕ) → a < 2 ^ k → b < 2 ^ k → bit_or a b < 2 ^ k
bit_or-lt zero a b p q = ground (arith, bit_or-zero a)
bit_or-lt (suc k) a b p q = omega (
  arith,
  bit_or_lowest a b,
  pow-suc 2 k,
  bit_or-lt k (a / 2) (b / 2) (omega (arith, pow-suc 2 k)) (omega (arith, pow-suc 2 k)),
)

bit_or_comm_fuel : (n a b : ℕ) → a ≤ n → b ≤ n → bit_or a b ≡ bit_or b a
bit_or_comm_fuel zero a b p q = ground arith
bit_or_comm_fuel (suc n) a b p q = omega (
  arith,
  bit_or_lowest a b,
  bit_or_lowest b a,
  bit_or_comm_fuel n (a / 2) (b / 2) (omega arith) (omega arith),
)

pub bit_or_comm : (a b : ℕ) → bit_or a b ≡ bit_or b a
bit_or_comm a b = bit_or_comm_fuel (a + b) a b (omega arith) (omega arith)

-- The same with the high field on the right.
pub bit_or_add_right : (k q r : ℕ) → r < 2 ^ k → bit_or r (q * 2 ^ k) ≡ q * 2 ^ k + r
bit_or_add_right k q r h = ground (arith, bit_or_comm r (q * 2 ^ k), bit_or_add k q r h)

-- `&` clears bits.
pub bit_and-le : (a b : ℕ) → bit_and a b ≤ a
bit_and-le =
    by_halving (λ a. (b : ℕ) → bit_and a b ≤ a) (λ b. omega (arith, bit_and-bitwise 0 b))
      λ n ih b. omega (arith, bit_and_lowest (suc n) b, ih (b / 2))

-- `&` of numbers in two fields.
pub bit_and_fields :
    (k x y u v : ℕ)
    → x < 2 ^ k
    → u < 2 ^ k
    → bit_and (y * 2 ^ k + x) (v * 2 ^ k + u) ≡ bit_and y v * 2 ^ k + bit_and x u
bit_and_fields zero x y u v hx hu =
    let e : y * 2 ^ zero + x ≡ y = omega arith in
    let e' : v * 2 ^ zero + u ≡ v = omega arith in
    ap (λ n. bit_and n (v * 2 ^ zero + u)) e ∙ ap (bit_and y) e' ∙ omega (arith, bit_and-le x u)
bit_and_fields (suc k) x y u v hx hu =
    let ex : (y * 2 ^ suc k + x) / 2 ≡ y * 2 ^ k + x / 2 = omega (arith, double y k) in
    let eu : (v * 2 ^ suc k + u) / 2 ≡ v * 2 ^ k + u / 2 = omega (arith, double v k) in
    omega (
      arith,
      bit_and_lowest (y * 2 ^ suc k + x) (v * 2 ^ suc k + u),
      ap (λ n. bit_and n ((v * 2 ^ suc k + u) / 2)) ex,
      ap (bit_and (y * 2 ^ k + x / 2)) eu,
      bit_and_fields k (x / 2) y (u / 2) v (omega (arith, pow-suc 2 k))
          (omega (arith, pow-suc 2 k)),
      bit_and_lowest x u,
      double (bit_and y v) k,
      double y k,
      double v k,
    )

bit_xor_lowest : (x y : ℕ) → bit_xor x y ≡ bit_xor (x / 2) (y / 2) * 2 + differ (x % 2) (y % 2)
bit_xor_lowest = from_lowest bit_xor (λ y. y) differ bit_xor-bitwise (λ y. ends y)
  where
    ends : (y : ℕ) → y ≡ y / 2 * 2 + differ 0 (y % 2)
    ends y = omega arith

differ_one : (b : ℕ) → b < 2 → differ b 1 ≡ 1 - b
differ_one zero h = refl
differ_one (suc zero) h = refl
differ_one (suc (suc b)) h = absurd (omega arith)

-- `^` with `k` ones is the distance from them.
pub bit_xor_ones : (k x : ℕ) → x < 2 ^ k → bit_xor x (2 ^ k - 1) ≡ 2 ^ k - 1 - x
bit_xor_ones zero x h = ground (arith, bit_xor-bitwise 0 0)
bit_xor_ones (suc k) x h =
    let half : (2 ^ suc k - 1) / 2 ≡ 2 ^ k - 1 = omega (arith, pow-suc 2 k, one-le-pow k 2) in
    let odd : (2 ^ suc k - 1) % 2 ≡ 1 = omega (arith, pow-suc 2 k, one-le-pow k 2) in
    omega (
      arith,
      bit_xor_lowest x (2 ^ suc k - 1),
      ap (bit_xor (x / 2)) half,
      ap (differ (x % 2)) odd,
      differ_one (x % 2) (omega arith),
      bit_xor_ones k (x / 2) (omega (arith, pow-suc 2 k)),
      pow-suc 2 k,
      one-le-pow k 2,
    )
