-- ===== src/Sort/Permuted.antt =====
-- Rearrangements of a range of an array.
use cbasis.Base.{
  ℕ, ◌<◌, ◌≤◌, ◌≡◌, ◌⊎◌, inl, inr, refl, ◌∙◌, Bool, List, length, get_or, tally, swapped,
  length-swapped, get_or-swapped, tally-swapped, arith,
}
use native.Mathlib.Decide.{ℕ_discrete, dec_lt}

module _ {ℓ} {A : Type ℓ} (d : A) where
  -- `ys` has the items of `xs`, each as often, and only the cells from `lo` to before `hi` have changed,
  -- each to an item that was in this range.
  pub record Permuted (lo hi : ℕ) (xs ys : List A) : Type ℓ where
    pub same_length : length ys ≡ length xs
    pub same_items : (p : A → Bool) → tally p ys ≡ tally p xs
    pub outside : (i : ℕ) → (i < lo) ⊎ (hi ≤ i) → get_or ys i d ≡ get_or xs i d
    pub drawn :
        (i : ℕ) → lo ≤ i → i < hi → (j : ℕ) × (lo ≤ j) × (j < hi) × (get_or ys i d ≡ get_or xs j d)

  pub Permuted-refl : (lo hi : ℕ) (xs : List A) → Permuted lo hi xs xs
  Permuted-refl lo hi xs = record {
    same_length = refl;
    same_items = λ p. refl;
    outside = λ i o. refl;
    drawn = λ i l h. (i, l, h, refl);
  }

  pub Permuted-trans :
      {lo hi : ℕ} {xs ys zs : List A}
      → Permuted lo hi xs ys
      → Permuted lo hi ys zs
      → Permuted lo hi xs zs
  Permuted-trans p q = record {
    same_length = q.same_length ∙ p.same_length;
    same_items = λ f. q.same_items f ∙ p.same_items f;
    outside = λ i o. q.outside i o ∙ p.outside i o;
    drawn = λ i l h.
        let (j, jl, jh, e) = q.drawn i l h in
        let (k, kl, kh, e') = p.drawn j jl jh in (k, kl, kh, e ∙ e');
  }

  wide_drawn :
      {lo hi : ℕ} (lo' hi' : ℕ) {xs ys : List A}
      → lo' ≤ lo
      → hi ≤ hi'
      → Permuted lo hi xs ys
      → (i : ℕ) → lo' ≤ i
      → i < hi'
      → (j : ℕ) × (lo' ≤ j) × (j < hi') × (get_or ys i d ≡ get_or xs j d)
  wide_drawn {lo = lo} {hi = hi} lo' hi' l h p i il ih = elim (dec_lt i lo) [
    | yes below ↦ (i, il, ih, p.outside i (inl below))
    | no from_lo ↦ elim (dec_lt i hi) [
      | yes within ↦
          let (j, jl, jh, e) = p.drawn i (omega arith) within in (j, omega arith, omega arith, e)
      | no above ↦ (i, il, ih, p.outside i (inr (omega arith)))
    ]
  ]

  -- A wider range.
  pub Permuted-wide :
      {lo hi : ℕ} (lo' hi' : ℕ) {xs ys : List A}
      → lo' ≤ lo
      → hi ≤ hi'
      → Permuted lo hi xs ys
      → Permuted lo' hi' xs ys
  Permuted-wide lo' hi' l h p = record {
    same_length = p.same_length;
    same_items = p.same_items;
    outside = λ i o. p.outside i (ground (arith, o));
    drawn = wide_drawn lo' hi' l h p;
  }

  drawn_swap :
      (lo hi i j : ℕ) (xs : List A)
      → lo ≤ i
      → i < hi
      → lo ≤ j
      → j < hi
      → hi ≤ length xs
      → (k : ℕ) → lo ≤ k
      → k < hi
      → (m : ℕ) × (lo ≤ m) × (m < hi) × (get_or (swapped xs i j d) k d ≡ get_or xs m d)
  drawn_swap lo hi i j xs il ih jl jh room k kl kh = elim (ℕ_discrete j k) [
    | yes e ↦ (i, il, ih, ground (arith, get_or-swapped xs i j k d))
    | no ne ↦ elim (ℕ_discrete i k) [
      | yes e' ↦ (j, jl, jh, ground (arith, get_or-swapped xs i j k d))
      | no ne' ↦ (k, kl, kh, ground (arith, get_or-swapped xs i j k d))
    ]
  ]

  pub swapped-Permuted :
      (lo hi i j : ℕ) (xs : List A)
      → lo ≤ i
      → i < hi
      → lo ≤ j
      → j < hi
      → hi ≤ length xs
      → Permuted lo hi xs (swapped xs i j d)
  swapped-Permuted lo hi i j xs il ih jl jh room = record {
    same_length = length-swapped xs i j d;
    same_items = λ p. tally-swapped p xs i j d (omega arith) (omega arith);
    outside = λ k o. ground (arith, o, get_or-swapped xs i j k d);
    drawn = drawn_swap lo hi i j xs il ih jl jh room;
  }
