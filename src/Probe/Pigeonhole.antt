-- ===== src/Probe/Pigeonhole.antt =====
-- More values than places: an injective sequence below `m` of length `m` takes every value.
use cbasis.Base.{ℕ, zero, suc, ◌<◌, ◌≡◌, ◌≢◌, ◌⊎◌, inl, inr, subst, ◌==◌, if◌then◌else◌, arith}
use native.Mathlib.Decide.{dec_lt, ℕ_discrete}

abbrev pub InjectiveBelow : ℕ → (ℕ → ℕ) → Type 0
InjectiveBelow n f = (i j : ℕ) → i < j → j < n → f i ≢ f j

-- The last value takes the place of the largest one.
abbrev moved : ℕ → (ℕ → ℕ) → ℕ → ℕ
moved n f i = if f i == n then f (suc n) else f i

no_injection : (n : ℕ) (f : ℕ → ℕ) → ((i : ℕ) → i < suc n → f i < n) → InjectiveBelow (suc n) f → ⊥
no_injection zero f small inj = absurd (omega (arith, small 0 (omega arith)))
no_injection (suc n) f small inj =
    no_injection n (moved n f) (λ i h. ground (arith, small i, small (suc n), inj i (suc n)))
      λ i j h l. ground (arith, inj i j, inj i (suc n), inj j (suc n))

abbrev extended : ℕ → (ℕ → ℕ) → ℕ → ℕ → ℕ
extended m f y i = if i == m then y else f i

-- A bounded search.
find_below :
    (m : ℕ) (f : ℕ → ℕ) (y : ℕ) → ((i : ℕ) × (i < m) × (f i ≡ y)) ⊎ ((i : ℕ) → i < m → f i ≢ y)
find_below zero f y = inr (λ i h. elim h [ ])
find_below (suc m) f y = elim (find_below m f y) [
  | inl (i, h, e) ↦ inl (i, omega arith, e)
  | inr none_below ↦ elim (ℕ_discrete (f m) y) [
    | yes e ↦ inl (m, omega arith, e)
    | no ne ↦ inr (λ i h. elim (dec_lt i m) [
      | yes p ↦ none_below i p
      | no p ↦ λ e. ne (subst (λ k. f k ≡ y) (omega arith) e)
    ])
  ]
]

-- An injective sequence of `m` values below `m` takes every value below `m`.
pub injective_hits :
    (m : ℕ) (f : ℕ → ℕ) (y : ℕ)
    → ((i : ℕ) → i < m → f i < m)
    → InjectiveBelow m f
    → y < m
    → (i : ℕ) × (i < m) × (f i ≡ y)
injective_hits m f y small inj lt = elim (find_below m f y) [
  | inl hit ↦ hit
  | inr miss ↦ absurd (
      no_injection m (extended m f y) (λ i h. ground (arith, small i))
        λ i j h l. ground (arith, inj i j, miss i, miss j))
]
