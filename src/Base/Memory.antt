-- ===== src/Base/Memory.antt =====
-- Memory as a list of cells. A read or a write outside it is a fault, `none`; so is a failed
-- assertion. `do` blocks chain such steps.
use Prim.Native.Nat.{ℕ, zero, suc, ◌+◌, ◌≤◌, ◌<◌}
use mathlib.Core.Path.{◌≡◌, refl, ◌∙◌}
use mathlib.Core.Logic.{◌⊎◌, inl}
use mathlib.Core.Bool.{Bool, true, false}
use mathlib.Core.List.{List, [], ◌∷◌, ◌++◌}
use mathlib.Core.Option.{Option, none, some}
use native.Mathlib.Omega.{arith}
use cbasis.Base.Lists.{
  length, get_elem?, get_or, set, length-set, get_or-set_self, get_or-set_ne, get_elem?-eq-get_or,
}

infixl 5 ◌>>=◌ ◌>>◌
abbrev pub ◌>>=◌ {ℓ κ} : {A : Type ℓ} {B : Type κ} → Option A → (A → Option B) → Option B
none >>= f = none
some a >>= f = f a

abbrev pub ◌>>◌ {ℓ} : {B : Type ℓ} → Option (Unit {0}) → Option B → Option B
m >> k = m >>= λ _. k

-- An assertion: `none` when it fails.
abbrev pub require : Bool → Option (Unit {0})
require true = some tt
require false = none

-- A chain that succeeds has succeeded at each step.
pub bind_some {ℓ κ} :
    {A : Type ℓ} {B : Type κ} (m : Option A) (f : A → Option B) {b : B}
    → (m >>= f) ≡ some b
    → (a : A) × (m ≡ some a) × (f a ≡ some b)
bind_some none f e = cc
bind_some (some a) f e = (a, refl, e)

pub of_require {ℓ} :
    {A : Type ℓ} (b : Bool) (k : Option A) {a : A}
    → (require b >> k) ≡ some a
    → (b ≡ true) × (k ≡ some a)
of_require true k e = (refl, e)
of_require false k e = cc

module _ {ℓ} {A : Type ℓ} where
  abbrev pub load : List A → ℕ → Option A
  load = get_elem?

  abbrev pub store : List A → ℕ → A → Option (List A)
  store [] i v = none
  store (x ∷ xs) zero v = some (v ∷ xs)
  store (x ∷ xs) (suc i) v = store xs i v >>= λ ys. some (x ∷ ys)

  pub store-set : (xs : List A) (i : ℕ) (v : A) → i < length xs → store xs i v ≡ some (set xs i v)
  store-set [] i v h = absurd (omega arith)
  store-set (x ∷ xs) zero v h = refl
  store-set (x ∷ xs) (suc i) v h = ground (arith, store-set xs i v)

  pub load-fits : (xs : List A) (i : ℕ) {v : A} → load xs i ≡ some v → i < length xs
  load-fits [] i e = cc
  load-fits (x ∷ xs) zero e = omega arith
  load-fits (x ∷ xs) (suc i) e = omega (arith, load-fits xs i e)

  pub store-fits :
      (xs : List A) (i : ℕ) (v : A) {ys : List A} → store xs i v ≡ some ys → i < length xs
  store-fits [] i v e = cc
  store-fits (x ∷ xs) zero v e = omega arith
  store-fits (x ∷ xs) (suc i) v e =
      let (zs, there, _) = bind_some (store xs i v) (λ zs. some (x ∷ zs)) e in
      omega (arith, store-fits xs i v there)

  pub load-append :
      (pre : List A) (x : A) (post : List A) → load (pre ++ (x ∷ post)) (length pre) ≡ some x
  load-append [] x post = refl
  load-append (y ∷ pre) x post = load-append pre x post

-- `bytes` stand in `buf` from index `i` on.
abbrev pub HasAt : List ℕ → ℕ → List ℕ → Type 0
HasAt buf i [] = Unit {0}
HasAt buf i (b ∷ bs) = (load buf i ≡ some b) × HasAt buf (i + 1) bs

-- `memcpy` and consecutive assignments: `bytes` are stored from index `i` on.
unfoldable pub store_all : List ℕ → ℕ → List ℕ → Option (List ℕ)
store_all buf i [] = some buf
store_all buf i (b ∷ bs) = store buf i b >>= λ buf'. store_all buf' (i + 1) bs

-- `after` is `before` with `bytes` written from index `i` on, and nothing else changed.
pub record Wrote (before : List ℕ) (i : ℕ) (bytes after : List ℕ) : Type 0 where
  pub same_length : length after ≡ length before
  pub stands : HasAt after i bytes
  pub outside : (j : ℕ) → (j < i) ⊎ (i + length bytes ≤ j) → get_or after j 0 ≡ get_or before j 0

HasAt-cell : (buf : List ℕ) (i b : ℕ) → i < length buf → get_or buf i 0 ≡ b → load buf i ≡ some b
HasAt-cell buf i b h e = ground (arith, get_elem?-eq-get_or buf i 0)

-- Assignments inside the buffer do not fault.
pub store_all-Wrote :
    (bs buf : List ℕ) (i : ℕ)
    → i + length bs ≤ length buf
    → (after : List ℕ) × (store_all buf i bs ≡ some after) × Wrote buf i bs after
unfolding store_all
store_all-Wrote [] buf i h =
    (buf, refl, record { same_length = refl; stands = tt; outside = λ j p. refl })
store_all-Wrote (b ∷ bs) buf i h =
    let (after, run, w) =
      store_all-Wrote bs (set buf i b) (i + 1) (omega (arith, length-set buf i b)) in
    (
      after,
      ground (arith, store-set buf i b, run),
      record {
        same_length = w.same_length ∙ length-set buf i b;
        stands = (
          HasAt-cell after i b (omega (arith, w.same_length, length-set buf i b))
              (w.outside i (inl (omega arith)) ∙ get_or-set_self buf i b 0 (omega arith)),
          w.stands,
        );
        outside = λ j p. ground (arith, w.outside j, get_or-set_ne buf i j b 0);
      },
    )
