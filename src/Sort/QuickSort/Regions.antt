-- ===== src/Sort/QuickSort/Regions.antt =====
-- The regions that quick_sort has still to sort: two items that are not in order lie in one of them.
use cbasis.Base.{ℕ, ◌<◌, ◌≤◌, ◌⊎◌, inl, inr, ap₂, ◌∙◌, Bool, List, [], ◌∷◌, get_or, arith}
use native.Mathlib.Decide.{dec_lt}
use cbasis.Sort.QuickSort.{Region}
use cbasis.Sort.Order.{Le}
use cbasis.Sort.Permuted.{Permuted}

-- Both places lie in one region.
unfoldable pub Together : List Region → ℕ → ℕ → Type 0
Together [] a b = ⊥
Together (r ∷ rs) a b = ((r.lo ≤ a) × (b < r.end)) ⊎ Together rs a b

-- No region overlaps `r`.
abbrev pub Clear : Region → List Region → Type 0
Clear r rs = (a b : ℕ) → a < b → Together rs a b → (b < r.lo) ⊎ (r.end ≤ a)

unfoldable pub Disjoint : List Region → Type 0
Disjoint [] = Unit {0}
Disjoint (r ∷ rs) = Clear r rs × Disjoint rs

module _ {ℓ} {A : Type ℓ} (less : A → A → Bool) (d : A) where
  abbrev pub Ordered : List A → ℕ → List Region → Type 0
  Ordered xs count rs =
      (a b : ℕ) → a < b → b < count → Together rs a b ⊎ Le less (get_or xs a d) (get_or xs b d)

  -- One place in the region and one outside are in order.
  across :
      (xs : List A) (count : ℕ) (r : Region) (rs : List Region)
      → Clear r rs
      → Ordered xs count (r ∷ rs)
      → (a b : ℕ) → a < b
      → b < count
      → ((a < r.lo) × (r.lo ≤ b) × (b < r.end)) ⊎ ((r.lo ≤ a) × (a < r.end) × (r.end ≤ b))
      → Le less (get_or xs a d) (get_or xs b d)
  unfolding Together
  across xs count r rs clear ordered a b ab bc apart = elim (ordered a b ab bc) [
    | inr le ↦ le
    | inl (inl (la, be)) ↦ absurd (ground (arith, apart))
    | inl (inr t) ↦ absurd (ground (arith, apart, clear a b ab t))
  ]

  in_order :
      (xs ys : List A) (count : ℕ) (r : Region) (rs : List Region)
      → r.end ≤ count
      → Permuted d r.lo r.end xs ys
      → Clear r rs
      → Ordered xs count (r ∷ rs)
      → (a b : ℕ) → a < b
      → b < count
      → (a < r.lo) ⊎ (r.end ≤ b)
      → Together rs a b ⊎ Le less (get_or ys a d) (get_or ys b d)
  unfolding Together
  in_order xs ys count r rs ec p clear ordered a b ab bc (inl before) = elim (dec_lt b r.lo) [
    | yes b_before ↦ ground (arith, p.outside a, p.outside b, ordered a b)
    | no b_in ↦ elim (dec_lt b r.end) [
      | no b_after ↦ ground (arith, p.outside a, p.outside b, ordered a b)
      | yes b_within ↦
          let (m, lo, hi, e) = p.drawn b (omega arith) b_within in
          inr (
            ap₂ less e (p.outside a (inl before))
            ∙ across xs count r rs clear ordered a m (omega arith) (omega arith)
                (inl (before, lo, hi)))
    ]
  ]
  in_order xs ys count r rs ec p clear ordered a b ab bc (inr after) = elim (dec_lt a r.lo) [
    | yes a_before ↦ ground (arith, p.outside a, p.outside b, ordered a b)
    | no a_in ↦ elim (dec_lt a r.end) [
      | no a_after ↦ ground (arith, p.outside a, p.outside b, ordered a b)
      | yes a_within ↦
          let (m, lo, hi, e) = p.drawn a (omega arith) a_within in
          inr (
            ap₂ less (p.outside b (inr after)) e
            ∙ across xs count r rs clear ordered m b (omega arith) bc (inr (lo, hi, after)))
    ]
  ]

  -- The region `r` is rearranged, and the regions `new` take its place.
  pub replace-Ordered :
      (xs ys : List A) (count : ℕ) (r : Region) (rs new : List Region)
      → r.end ≤ count
      → Permuted d r.lo r.end xs ys
      → Clear r rs
      → Ordered xs count (r ∷ rs)
      → ((a b : ℕ) → Together rs a b → Together new a b)
      → ((a b : ℕ)
          → r.lo ≤ a
          → a < b
          → b < r.end
          → Together new a b ⊎ Le less (get_or ys a d) (get_or ys b d))
      → Ordered ys count new
  replace-Ordered xs ys count r rs new ec p clear ordered keep inside a b ab bc =
      elim (dec_lt a r.lo) [
        | yes before ↦ elim (in_order xs ys count r rs ec p clear ordered a b ab bc (inl before)) [
          | inl t ↦ inl (keep a b t)
          | inr le ↦ inr le
        ]
        | no from_lo ↦ elim (dec_lt b r.end) [
          | yes within ↦ inside a b (omega arith) ab within
          | no after ↦
              elim (in_order xs ys count r rs ec p clear ordered a b ab bc (inr (omega arith))) [
                | inl t ↦ inl (keep a b t)
                | inr le ↦ inr le
              ]
        ]
      ]
