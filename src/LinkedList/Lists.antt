-- ===== src/LinkedList/Lists.antt =====
-- Lists of addresses: the handle, membership, and that no address stands twice.
use native.Mathlib.Decide.{ℕ_discrete}
use cbasis.Base.{
  ℕ, ◌≡◌, refl, ap, ◌⊎◌, inl, inr, Bool, true, false, ◌||◌, ◌==◌, List, [], ◌∷◌, ◌++◌, arith,
}

abbrev pub head_or : ℕ → List ℕ → ℕ
head_or d [] = d
head_or d (x ∷ xs) = x

abbrev pub last_or : ℕ → List ℕ → ℕ
last_or d [] = d
last_or d (x ∷ xs) = last_or x xs

abbrev pub elem : ℕ → List ℕ → Bool
elem a [] = false
elem a (x ∷ xs) = a == x || elem a xs

abbrev pub Distinct : List ℕ → Type 0
Distinct [] = Unit {0}
Distinct (x ∷ xs) = (elem x xs ≡ false) × Distinct xs

-- No address of the one list stands in the other.
abbrev pub Apart : List ℕ → List ℕ → Type 0
Apart [] ys = Unit {0}
Apart (x ∷ xs) ys = (elem x ys ≡ false) × Apart xs ys

pub elem-append : (a : ℕ) (xs ys : List ℕ) → elem a (xs ++ ys) ≡ (elem a xs || elem a ys)
elem-append a [] ys = refl
elem-append a (x ∷ xs) ys = ground (arith, elem-append a xs ys)

pub last_or-append :
    (d : ℕ) (xs : List ℕ) (y : ℕ) (ys : List ℕ) → last_or d (xs ++ (y ∷ ys)) ≡ last_or y ys
last_or-append d [] y ys = refl
last_or-append d (x ∷ xs) y ys = last_or-append x xs y ys

pub Distinct-parts :
    (xs ys : List ℕ) → Distinct (xs ++ ys) → Distinct xs × Distinct ys × Apart xs ys
Distinct-parts [] ys d = (tt, d, tt)
Distinct-parts (x ∷ xs) ys d = ground (arith, elem-append x xs ys, Distinct-parts xs ys)

pub Distinct-append :
    (xs ys : List ℕ) → Distinct xs → Distinct ys → Apart xs ys → Distinct (xs ++ ys)
Distinct-append [] ys dx dy a = dy
Distinct-append (x ∷ xs) ys dx dy a = ground (arith, elem-append x xs ys, Distinct-append xs ys)

-- What stands in the second list does not stand in the first.
pub Apart-elem : (xs ys : List ℕ) (a : ℕ) → Apart xs ys → elem a ys ≡ true → elem a xs ≡ false
Apart-elem [] ys a h m = refl
Apart-elem (x ∷ xs) ys a h m = ground (arith, Apart-elem xs ys a)

-- The second list may change to one with no more of the first list's addresses.
pub Apart-other :
    (xs ys zs : List ℕ)
    → ((a : ℕ) → elem a xs ≡ true → elem a ys ≡ false → elem a zs ≡ false)
    → Apart xs ys
    → Apart xs zs
Apart-other [] ys zs h a = tt
Apart-other (x ∷ xs) ys zs h a =
    (h x (ground arith) a.0, Apart-other xs ys zs (λ b m. h b (ground arith)) a.1)

-- An address in a list cuts it in two.
pub record Cut (a : ℕ) (xs : List ℕ) : Type 0 where
  pub before : List ℕ
  pub behind : List ℕ
  pub whole : xs ≡ before ++ (a ∷ behind)
  pub not_before : elem a before ≡ false

pub cut : (a : ℕ) (xs : List ℕ) → elem a xs ≡ true → Cut a xs
cut a [] m = absurd (ground arith)
cut a (x ∷ xs) m = elim (ℕ_discrete a x) [
  | yes e ↦ record {
    before = [];
    behind = xs;
    whole = ap (λ y. y ∷ xs) (omega arith);
    not_before = refl;
  }
  | no ne ↦
      let c : Cut a xs = cut a xs (ground arith) in
      record {
        before = x ∷ c.before;
        behind = c.behind;
        whole = ap (λ ys. x ∷ ys) c.whole;
        not_before = ground (arith, c.not_before);
      }
]

-- A list is empty or handle in an item.
pub by_end : (xs : List ℕ) → (xs ≡ []) ⊎ ((ys : List ℕ) × (y : ℕ) × (xs ≡ ys ++ (y ∷ [])))
by_end [] = inl refl
by_end (x ∷ xs) = elim (by_end xs) [
  | inl e ↦ inr ([], x, ap (λ ys. x ∷ ys) e)
  | inr (ys, y, e) ↦ inr (x ∷ ys, y, ap (λ zs. x ∷ zs) e)
]

pub elem-last_or : (x : ℕ) (xs : List ℕ) → elem (last_or x xs) (x ∷ xs) ≡ true
elem-last_or x [] = ground arith
elem-last_or x (y ∷ ys) = ground (arith, elem-last_or y ys)
