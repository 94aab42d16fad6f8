-- ===== src/Sort/Merge/Ranges.antt =====
-- How often the items of a range pass a test.
use cbasis.Base.{
  ℕ, zero, suc, ◌+◌, ◌-◌, ◌<◌, ◌≤◌, ◌≡◌, inr, refl, sym, ap, ap₂, ◌∙◌, Bool, List, [], ◌∷◌, length,
  get_or, tally, to_ℕ, arith,
}
use cbasis.Sort.Permuted.{Permuted}

module _ {ℓ} {A : Type ℓ} (d : A) where
  unfoldable pub tally_range : (A → Bool) → List A → ℕ → ℕ → ℕ
  tally_range p xs lo zero = 0
  tally_range p xs lo (suc n) = to_ℕ (p (get_or xs lo d)) + tally_range p xs (lo + 1) n

  pub tally_range-same :
      (p : A → Bool) (n : ℕ) (xs ys : List A) (lo lo' : ℕ)
      → ((i : ℕ) → i < n → get_or ys (lo' + i) d ≡ get_or xs (lo + i) d)
      → tally_range p ys lo' n ≡ tally_range p xs lo n
  unfolding tally_range
  tally_range-same p zero xs ys lo lo' same = refl
  tally_range-same p (suc n) xs ys lo lo' same =
      ap₂ ◌+◌
        (ap (λ x. to_ℕ (p x))
          (ap (λ k. get_or ys k d) (omega arith)
            ∙ same 0 (omega arith)
            ∙ ap (λ k. get_or xs k d) (omega arith)))
        (tally_range-same p n xs ys (lo + 1) (lo' + 1) (λ i lt.
          ap (λ k. get_or ys k d) (omega arith)
          ∙ same (i + 1) (omega arith)
          ∙ ap (λ k. get_or xs k d) (omega arith)))

  pub tally_range-split :
      (p : A → Bool) (m n : ℕ) (xs : List A) (lo : ℕ)
      → tally_range p xs lo (m + n) ≡ tally_range p xs lo m + tally_range p xs (lo + m) n
  unfolding tally_range
  tally_range-split p zero n xs lo =
      let size : zero + n ≡ n = omega arith in
      let at : lo ≡ lo + zero = omega arith in
      ap (tally_range p xs lo) size ∙ ap (λ k. tally_range p xs k n) at ∙ omega arith
  tally_range-split p (suc m) n xs lo =
      let size : suc m + n ≡ suc (m + n) = omega arith in
      let at : lo + 1 + m ≡ lo + suc m = omega arith in
      ap (tally_range p xs lo) size
      ∙ omega (arith, tally_range-split p m n xs (lo + 1), ap (λ k. tally_range p xs k n) at)

  shifted :
      (p : A → Bool) (x : A) (xs : List A) (lo n : ℕ)
      → tally_range p (x ∷ xs) (suc lo) n ≡ tally_range p xs lo n
  shifted p x xs lo n = tally_range-same p n xs (x ∷ xs) lo (suc lo) (λ i lt. ground arith)

  whole : (p : A → Bool) (xs : List A) → tally p xs ≡ tally_range p xs 0 (length xs)
  unfolding tally tally_range
  whole p [] = refl
  whole p (x ∷ xs) = ap (◌+◌ (to_ℕ (p x))) (
      whole p xs
      ∙ sym (shifted p x xs 0 (length xs))
      ∙ ap (λ k. tally_range p (x ∷ xs) k (length xs)) (omega arith))

  -- A rearrangement of a range keeps them.
  pub Permuted-tally_range :
      (p : A → Bool) (n : ℕ) (xs ys : List A)
      → n ≤ length xs
      → Permuted d 0 n xs ys
      → tally_range p ys 0 n ≡ tally_range p xs 0 n
  Permuted-tally_range p n xs ys room s =
      let rest = length xs - n in
      let back : n + rest ≡ length xs = omega arith in
      let tail =
        tally_range-same p rest xs ys n n (λ i lt. s.outside (n + i) (inr (omega arith))) in
      let total_x =
        whole p xs ∙ ap (tally_range p xs 0) (sym back) ∙ tally_range-split p n rest xs 0 in
      let total_y =
        whole p ys
        ∙ ap (tally_range p ys 0) (s.same_length ∙ sym back)
        ∙ tally_range-split p n rest ys 0 in
      let at : 0 + n ≡ n = omega arith in
      omega (
        arith,
        total_x,
        total_y,
        s.same_items p,
        tail,
        ap (λ k. tally_range p xs k rest) at,
        ap (λ k. tally_range p ys k rest) at,
      )
