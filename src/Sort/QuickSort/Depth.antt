-- ===== src/Sort/QuickSort/Depth.antt =====
-- The stack of quick_sort: the region in work halves with each push, so that 64 entries are enough.
use cbasis.Base.{
  ℕ, suc, ◌+◌, ◌-◌, ◌*◌, ◌^◌, ◌<◌, ◌≤◌, ◌≡◌, ◌⊎◌, inl, inr, List, [], ◌∷◌, length, some, double,
  arith,
}
use native.Mathlib.Nat.{mul-le-mul_right, pow-le-pow_right}
use native.Mathlib.Decide.{dec_lt}
use cbasis.Sort.QuickSort.{Region, push_larger}
use cbasis.Sort.QuickSort.Regions.{Together}

abbrev pub size_of : Region → ℕ
size_of r = r.end - r.lo

-- Regions of an array of `count` items, each small enough for its depth.
unfoldable pub Stacked : ℕ → List Region → Type 0
Stacked count [] = Unit {0}
Stacked count (r ∷ rs) =
    (r.lo ≤ r.end) × (r.end ≤ count) × (size_of r * 2 ^ length rs ≤ count) × Stacked count rs

-- What is left to do; each round takes something from it.
unfoldable pub work : List Region → ℕ
work [] = 0
work (r ∷ rs) = 2 * (size_of r - 1) + 1 + work rs

smaller_fits : (s s' k count : ℕ) → s * 2 ^ k ≤ count → s' ≤ s → s' * 2 ^ k ≤ count
smaller_fits s s' k count fits le = omega (arith, mul-le-mul_right (2 ^ k) le)

half_fits : (s s' k count : ℕ) → s * 2 ^ k ≤ count → 2 * s' ≤ s → s' * 2 ^ suc k ≤ count
half_fits s s' k count fits le = omega (arith, mul-le-mul_right (2 ^ k) le, double s' k)

room_left : (s k count : ℕ) → s * 2 ^ k ≤ count → 1 ≤ s → count < 2 ^ 63 → k < 64
room_left s k count fits pos small = elim (dec_lt k 64) [
  | yes lt ↦ lt
  | no ge ↦
      let deep : 2 ^ 64 ≤ 2 ^ k =
        pow-le-pow_right {n = 2} (omega arith) {i = 64} {j = k} (omega arith) in
      let one : 1 * 2 ^ k ≤ s * 2 ^ k = mul-le-mul_right (2 ^ k) pos in absurd (omega arith)
]

-- What a push for the region `r` gives: two regions within it that are apart, the smaller on top.
pub record Halved (r a b : Region) : Type 0 where
  pub a_lo : r.lo ≤ a.lo
  pub a_some : a.lo < a.end
  pub a_end : a.end ≤ r.end
  pub b_lo : r.lo ≤ b.lo
  pub b_some : b.lo < b.end
  pub b_end : b.end ≤ r.end
  pub smaller : 2 * size_of a ≤ size_of r
  pub apart : (a.end ≤ b.lo) ⊎ (b.end ≤ a.lo)

pub Halved-Stacked :
    (count : ℕ) (r a b : Region) (rs : List Region)
    → Halved r a b
    → Stacked count (r ∷ rs)
    → Stacked count (a ∷ b ∷ rs)
unfolding Stacked
Halved-Stacked count r a b rs h (lo, end, fits, rest) = (
  omega (arith, h.a_some),
  omega (arith, h.a_end),
  half_fits (size_of r) (size_of a) (length rs) count fits h.smaller,
  (
    omega (arith, h.b_some),
    omega (arith, h.b_end),
    smaller_fits (size_of r) (size_of b) (length rs) count fits (omega (arith, h.b_lo, h.b_end)),
    rest,
  ),
)

pub Halved-work :
    (r a b : Region) (rs : List Region) → Halved r a b → work (a ∷ b ∷ rs) < work (r ∷ rs)
unfolding work
Halved-work r a b rs h = elim h.apart [
  | inl e ↦ omega (arith, h.a_lo, h.a_some, h.a_end, h.b_lo, h.b_some, h.b_end, e)
  | inr e ↦ omega (arith, h.a_lo, h.a_some, h.a_end, h.b_lo, h.b_some, h.b_end, e)
]

-- The parts of a region, where the scans have met.
pub left_of : Region → ℕ → ℕ → Region
left_of r unbalanced k = record { lo = r.lo; end = k + 1; unbalanced = unbalanced }

pub right_of : Region → ℕ → ℕ → Region
right_of r unbalanced i = record { lo = i; end = r.end; unbalanced = unbalanced }

left_smaller :
    (r : Region) (unbalanced i k : ℕ)
    → r.lo < i
    → i < r.end
    → r.lo ≤ k
    → k + 1 < r.end
    → k < i
    → k + i + 1 < r.end + r.lo
    → Halved r (left_of r unbalanced k) (right_of r unbalanced i)
unfolding left_of right_of
left_smaller r unbalanced i k lo_i i_end lo_k k_end ki less_left = record {
  a_lo = omega arith;
  a_some = omega arith;
  a_end = omega arith;
  b_lo = omega arith;
  b_some = omega arith;
  b_end = omega arith;
  smaller = omega arith;
  apart = inl (omega arith);
}

right_smaller :
    (r : Region) (unbalanced i k : ℕ)
    → r.lo < i
    → i < r.end
    → r.lo ≤ k
    → k + 1 < r.end
    → k < i
    → r.end + r.lo ≤ k + i + 1
    → Halved r (right_of r unbalanced i) (left_of r unbalanced k)
unfolding left_of right_of
right_smaller r unbalanced i k lo_i i_end lo_k k_end ki less_right = record {
  a_lo = omega arith;
  a_some = omega arith;
  a_end = omega arith;
  b_lo = omega arith;
  b_some = omega arith;
  b_end = omega arith;
  smaller = omega arith;
  apart = inr (omega arith);
}

-- The push has room, and any two places of `r` on one side of the split stay together.
pub push_larger-Halved :
    (count : ℕ) (r : Region) (unbalanced i k : ℕ) (rs : List Region)
    → count < 2 ^ 63
    → Stacked count (r ∷ rs)
    → r.lo < i
    → i < r.end
    → r.lo ≤ k
    → k + 1 < r.end
    → k < i
    → (a : Region) × (b : Region) × (push_larger r unbalanced i k rs ≡ some (a ∷ b ∷ rs))
      × Halved r a b
      × ((x y : ℕ) → r.lo ≤ x → y < r.end → (y ≤ k) ⊎ (i ≤ x) → Together (a ∷ b ∷ rs) x y)
unfolding Stacked push_larger Together left_of right_of
push_larger-Halved count r unbalanced i k rs small (lo, end, fits, rest) lo_i i_end lo_k k_end ki =
    let room = room_left (size_of r) (length rs) count fits (omega arith) small in
    elim (dec_lt (k + i + 1) (r.end + r.lo)) [
      | yes left ↦ (
        left_of r unbalanced k,
        right_of r unbalanced i,
        ground arith,
        left_smaller r unbalanced i k lo_i i_end lo_k k_end ki left,
        λ x y lx ye side. elim side [
          | inl low ↦ inl (lx, omega arith)
          | inr high ↦ inr (inl (high, ye))
        ],
      )
      | no right ↦ (
        right_of r unbalanced i,
        left_of r unbalanced k,
        ground arith,
        right_smaller r unbalanced i k lo_i i_end lo_k k_end ki (omega arith),
        λ x y lx ye side. elim side [
          | inl low ↦ inr (inl (lx, omega arith))
          | inr high ↦ inl (high, ye)
        ],
      )
    ]
