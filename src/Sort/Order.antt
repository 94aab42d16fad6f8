-- ===== src/Sort/Order.antt =====
-- What the sorts of sort.h ask of the comparison, and what it is to be sorted.
use cbasis.Base.{ℕ, ◌<◌, ◌≤◌, ◌≡◌, Bool, true, false, Bool-cases, inl, inr, List, get_or, arith}

-- `is_less` is the strict part of a total preorder.
pub record StrictWeak {ℓ} {A : Type ℓ} (less : A → A → Bool) : Type ℓ where
  pub asym : (a b : A) → less a b ≡ true → less b a ≡ false
  pub trans : (a b c : A) → less b a ≡ false → less c b ≡ false → less c a ≡ false

module _ {ℓ} {A : Type ℓ} (less : A → A → Bool) where
  -- `a` may stand before `b`.
  abbrev pub Le : A → A → Type 0
  Le a b = less b a ≡ false

  -- The cells from `lo` to before `hi` are in order.
  abbrev pub SortedIn : List A → A → ℕ → ℕ → Type 0
  SortedIn xs d lo hi = (a b : ℕ) → lo ≤ a → a < b → b < hi → Le (get_or xs a d) (get_or xs b d)

module _ {ℓ} {A : Type ℓ} (less : A → A → Bool) (order : StrictWeak less) where
  pub le_refl : (a : A) → Le less a a
  le_refl a = elim (Bool-cases (less a a)) [ inl lt ↦ order.asym a a lt | inr le ↦ le ]

  pub lt_of_lt_le : (a b c : A) → less a b ≡ true → Le less b c → less a c ≡ true
  lt_of_lt_le a b c lt le = elim (Bool-cases (less a c)) [
    | inl yes_lt ↦ yes_lt
    | inr not_lt ↦ ground (arith, order.trans b c a le not_lt, lt)
  ]
