-- ===== src/Base/Cells.antt =====
-- Lists as arrays of cells: swaps, and how often the items that a predicate selects occur.
use Prim.Native.Nat.{ℕ, zero, suc, ◌+◌, ◌<◌}
use mathlib.Core.Path.{◌≡◌, refl, ap, subst, ◌∙◌}
use mathlib.Core.Bool.{Bool, true, false}
use mathlib.Core.List.{List, [], ◌∷◌}
use native.Mathlib.Omega.{arith}
use native.Mathlib.Decide.{ℕ_discrete}
use cbasis.Base.Tests.{◌==◌, if◌then◌else◌}
use cbasis.Base.Lists.{length, get_or, set, length-set, get_or-set_ne}

-- 1 for a test that holds.
abbrev pub to_ℕ : Bool → ℕ
to_ℕ true = 1
to_ℕ false = 0

module _ {ℓ} {A : Type ℓ} where
  unfoldable pub tally : (A → Bool) → List A → ℕ
  tally p [] = 0
  tally p (x ∷ xs) = to_ℕ (p x) + tally p xs

  pub tally-set :
      (p : A → Bool) (xs : List A) (i : ℕ) (v d : A)
      → i < length xs
      → tally p (set xs i v) + to_ℕ (p (get_or xs i d)) ≡ tally p xs + to_ℕ (p v)
  unfolding tally
  tally-set p [] i v d h = absurd (omega arith)
  tally-set p (x ∷ xs) zero v d h = omega arith
  tally-set p (x ∷ xs) (suc i) v d h = omega (arith, tally-set p xs i v d (omega arith))

  -- The cells of a list after a write, by one test.
  pub get_or-set :
      (xs : List A) (i j : ℕ) (v d : A)
      → i < length xs
      → get_or (set xs i v) j d ≡ (if i == j then v else get_or xs j d)
  get_or-set [] i j v d h = absurd (omega arith)
  get_or-set (x ∷ xs) zero zero v d h = ground arith
  get_or-set (x ∷ xs) zero (suc j) v d h = ground arith
  get_or-set (x ∷ xs) (suc i) zero v d h = ground arith
  get_or-set (x ∷ xs) (suc i) (suc j) v d h = ground (arith, get_or-set xs i j v d)

  pub set-set_self : (xs : List A) (i : ℕ) (v w : A) → set (set xs i v) i w ≡ set xs i w
  set-set_self [] i v w = refl
  set-set_self (x ∷ xs) zero v w = refl
  set-set_self (x ∷ xs) (suc i) v w = ap (◌∷◌ x) (set-set_self xs i v w)

  pub set_self : (xs : List A) (i : ℕ) (d : A) → set xs i (get_or xs i d) ≡ xs
  set_self [] i d = refl
  set_self (x ∷ xs) zero d = refl
  set_self (x ∷ xs) (suc i) d = ap (◌∷◌ x) (set_self xs i d)

  -- The cells `i` and `j` exchanged.
  abbrev pub swapped : List A → ℕ → ℕ → A → List A
  swapped xs i j d = set (set xs i (get_or xs j d)) j (get_or xs i d)

  pub length-swapped : (xs : List A) (i j : ℕ) (d : A) → length (swapped xs i j d) ≡ length xs
  length-swapped xs i j d =
      length-set (set xs i (get_or xs j d)) j (get_or xs i d) ∙ length-set xs i (get_or xs j d)

  pub get_or-swapped :
      (xs : List A) (i j k : ℕ) (d : A)
      → i < length xs
      → j < length xs
      → get_or (swapped xs i j d) k d
        ≡ (if j == k then get_or xs i d else if i == k then get_or xs j d else get_or xs k d)
  get_or-swapped xs i j k d hi hj = ground (
    arith,
    get_or-set (set xs i (get_or xs j d)) j k (get_or xs i d) d,
    get_or-set xs i k (get_or xs j d) d,
    length-set xs i (get_or xs j d),
  )

  same_index :
      (p : A → Bool) (xs : List A) (i j : ℕ) (d : A)
      → i < length xs
      → i ≡ j
      → tally p (swapped xs i j d) ≡ tally p xs
  same_index p xs i j d hi e =
      subst (λ k. tally p (swapped xs i k d) ≡ tally p xs) e
        (ap (tally p) (set-set_self xs i (get_or xs i d) (get_or xs i d) ∙ set_self xs i d))

  pub tally-swapped :
      (p : A → Bool) (xs : List A) (i j : ℕ) (d : A)
      → i < length xs
      → j < length xs
      → tally p (swapped xs i j d) ≡ tally p xs
  tally-swapped p xs i j d hi hj = elim (ℕ_discrete i j) [
    | yes e ↦ same_index p xs i j d hi e
    | no ne ↦ omega (
      arith,
      tally-set p (set xs i (get_or xs j d)) j (get_or xs i d) d
          (omega (arith, length-set xs i (get_or xs j d))),
      tally-set p xs i (get_or xs j d) d hi,
      ap (λ x. to_ℕ (p x)) (get_or-set_ne xs i j (get_or xs j d) d ne),
    )
  ]
