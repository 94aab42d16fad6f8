-- ===== src/Sort/LowerBound.antt =====
-- sort.h: the binary searches. `items` is a pointer into the array, here its distance from the start,
-- and the prefetches are left out. `search_for` is compared as the second argument, as in the code.
use cbasis.Base.{
  ℕ, zero, suc, ◌+◌, ◌-◌, ◌/◌, ◌<◌, ◌≤◌, ◌≡◌, ◌≢◌, inl, inr, refl, sym, subst, ◌∙◌, Bool, true,
  false, Bool-cases, List, [], ◌∷◌, length, get_or, ltb, ◌==◌, if◌then◌else◌, Option, none, some,
  load, ◌>>=◌, ◌>>◌, require, get_elem?-eq-get_or, arith,
}
use native.Mathlib.Decide.{dec_lt, ℕ_discrete}
use cbasis.Sort.Order.{StrictWeak, Le, SortedIn}

module _ {ℓ} {A : Type ℓ} (less : A → A → Bool) where
  -- `while (count > 1) {…}`
  unfoldable pub narrow : ℕ → List A → A → ℕ → ℕ → Option ℕ
  narrow zero sorted_items search_for items count = none
  narrow (suc fuel) sorted_items search_for items count =
      let half = (count + 1) / 2 in
      let rest = load sorted_items (items + (half - 1)) >>= λ x.
      narrow fuel sorted_items search_for (items + (if less x search_for then half else 0))
        (count - half) in
      if ltb 1 count then rest else some items

  unfoldable pub lower_bound_no_fail : A → List A → ℕ → Option ℕ
  lower_bound_no_fail search_for sorted_items item_count =
      narrow (item_count + 1) sorted_items search_for 0 item_count >>= λ i.
      require (ltb i item_count) >> some i

  unfoldable pub lower_bound : A → List A → ℕ → Option ℕ
  lower_bound search_for sorted_items item_count =
      let rest = lower_bound_no_fail search_for sorted_items item_count >>= λ at.
      load sorted_items at >>= λ x. some (at + (if less x search_for then 1 else 0)) in
      if item_count == 0 then some 0 else rest

module _ {ℓ} {A : Type ℓ} (less : A → A → Bool) (order : StrictWeak less) (d : A) where
  -- The items before `i` are smaller than `v`, and those from `j` on are not.
  pub record Bounds (xs : List A) (v : A) (n i j : ℕ) : Type 0 where
    pub before : (m : ℕ) → m < i → less (get_or xs m d) v ≡ true
    pub from : (m : ℕ) → j ≤ m → m < n → Le less v (get_or xs m d)

  cut_low :
      (xs : List A) (v : A) (n i j h : ℕ)
      → SortedIn less xs d 0 n
      → Bounds xs v n i j
      → h < n
      → less (get_or xs h d) v ≡ true
      → Bounds xs v n (h + 1) j
  cut_low xs v n i j h s b hn lt = record {
    before = λ m mh. elim (ℕ_discrete m h) [
      | yes e ↦ subst (λ k. less (get_or xs k d) v ≡ true) (sym e) lt
      | no ne ↦ ground (
        arith,
        Bool-cases (less (get_or xs m d) v),
        order.trans v (get_or xs m d) (get_or xs h d),
        s m h (omega arith) (omega arith) hn,
        lt,
      )
    ];
    from = b.from;
  }

  cut_high :
      (xs : List A) (v : A) (n i j h : ℕ)
      → SortedIn less xs d 0 n
      → Bounds xs v n i j
      → less (get_or xs h d) v ≡ false
      → Bounds xs v n i h
  cut_high xs v n i j h s b ge = record {
    before = b.before;
    from = λ m hm mn. elim (ℕ_discrete m h) [
      | yes e ↦ subst (λ k. Le less v (get_or xs k d)) (sym e) ge
      | no ne ↦
          order.trans v (get_or xs h d) (get_or xs m d) ge (s h m (omega arith) (omega arith) mn)
    ];
  }

  wider : (xs : List A) (v : A) (n i j j' : ℕ) → Bounds xs v n i j → j ≤ j' → Bounds xs v n i j'
  wider xs v n i j j' b le = record {
    before = b.before;
    from = λ m jm mn. b.from m (omega arith) mn;
  }

  narrow_end :
      (fuel : ℕ) (xs : List A) (v : A) (i count : ℕ)
      → count ≤ 1
      → narrow less (suc fuel) xs v i count ≡ some i
  unfolding narrow
  narrow_end fuel xs v i count few = ground arith

  narrow_step :
      (fuel : ℕ) (xs : List A) (v : A) (i count half step : ℕ)
      → 1 < count
      → (count + 1) / 2 ≡ half
      → i + (half - 1) < length xs
      → (if less (get_or xs (i + (half - 1)) d) v then half else 0) ≡ step
      → narrow less (suc fuel) xs v i count ≡ narrow less fuel xs v (i + step) (count - half)
  unfolding narrow
  narrow_step fuel xs v i count half step more e room e' =
      ground (arith, e, e', get_elem?-eq-get_or xs (i + (half - 1)) d)

  -- The answer stays within the part that is left.
  narrow-Bounds :
      (fuel : ℕ) (xs : List A) (v : A) (n i count : ℕ)
      → count < fuel
      → 1 ≤ count
      → i + count ≤ n
      → n ≤ length xs
      → SortedIn less xs d 0 n
      → Bounds xs v n i (i + count)
      → (r : ℕ) × (narrow less fuel xs v i count ≡ some r) × (r < n) × Bounds xs v n r (r + 1)
  narrow-Bounds zero xs v n i count enough pos le room s b = absurd (omega arith)
  narrow-Bounds (suc fuel) xs v n i count enough pos le room s b = elim (dec_lt 1 count) [
    | no one ↦ (
      i,
      narrow_end fuel xs v i count (omega arith),
      omega arith,
      wider xs v n i (i + count) (i + 1) b (omega arith),
    )
    | yes more ↦
        let half = (count + 1) / 2 in
        let h = i + (half - 1) in
        elim (Bool-cases (less (get_or xs h d) v)) [
          | inl lt ↦
              let next : h + 1 ≡ i + half = omega arith in
              let (r, run, r_lt, b') =
                narrow-Bounds fuel xs v n (i + half) (count - half) (omega arith) (omega arith)
                  (omega arith) room s
                  (wider xs v n (i + half) (i + count) (i + half + (count - half))
                    (subst (λ k. Bounds xs v n k (i + count)) next
                      (cut_low xs v n i (i + count) h s b (omega arith) lt))
                    (omega arith)) in
              (
                r,
                narrow_step fuel xs v i count half half more refl (omega arith) (ground (arith, lt))
                    ∙ run,
                r_lt,
                b',
              )
          | inr ge ↦
              let (r, run, r_lt, b') =
                narrow-Bounds fuel xs v n (i + 0) (count - half) (omega arith) (omega arith)
                  (omega arith) room s
                  (subst (λ k. Bounds xs v n k (i + 0 + (count - half))) (omega arith)
                    (wider xs v n i h (i + 0 + (count - half))
                      (cut_high xs v n i (i + count) h s b ge) (omega arith))) in
              (
                r,
                narrow_step fuel xs v i count half 0 more refl (omega arith) (ground (arith, ge))
                    ∙ run,
                r_lt,
                b',
              )
        ]
  ]

  no_fail_run :
      (xs : List A) (v : A) (n r : ℕ)
      → narrow less (n + 1) xs v 0 n ≡ some r
      → r < n
      → lower_bound_no_fail less v xs n ≡ some r
  unfolding lower_bound_no_fail
  no_fail_run xs v n r run lt = ground (arith, run)

  lower_bound_run :
      (xs : List A) (v : A) (n r : ℕ)
      → n ≢ 0
      → r < length xs
      → lower_bound_no_fail less v xs n ≡ some r
      → lower_bound less v xs n ≡ some (r + (if less (get_or xs r d) v then 1 else 0))
  unfolding lower_bound
  lower_bound_run xs v n r ne room run = ground (arith, run, get_elem?-eq-get_or xs r d)

  no_fail-Bounds :
      (xs : List A) (v : A) (n : ℕ)
      → n ≢ 0
      → n ≤ length xs
      → SortedIn less xs d 0 n
      → (r : ℕ) × (lower_bound_no_fail less v xs n ≡ some r) × (r < n) × Bounds xs v n r (r + 1)
  no_fail-Bounds xs v n ne room s =
      let (r, run, lt, b) =
        narrow-Bounds (n + 1) xs v n 0 n (omega arith) (omega arith) (omega arith) room s (record {
          before = λ m h. absurd (omega arith);
          from = λ m lo h. absurd (omega arith);
        }) in
      (r, no_fail_run xs v n r run lt, lt, b)

  -- lower_bound of sorted items returns the one index, at most their number, before which all items are
  -- smaller than `search_for` and from which on none is. Where there are items, lower_bound_no_fail
  -- returns the index of one, which is this index or the one before it.
  pub lower_bound_sound :
      (sorted_items : List A) (search_for : A) (item_count : ℕ)
      → item_count ≤ length sorted_items
      → SortedIn less sorted_items d 0 item_count
      → (i : ℕ) × (lower_bound less search_for sorted_items item_count ≡ some i)
        × (i ≤ item_count)
        × Bounds sorted_items search_for item_count i i
        × (item_count ≢ 0
            → (r : ℕ) × (lower_bound_no_fail less search_for sorted_items item_count ≡ some r)
              × (r < item_count)
              × (r ≤ i)
              × (i ≤ r + 1))
  unfolding lower_bound
  lower_bound_sound xs v n room s = elim (ℕ_discrete n 0) [
    | yes e ↦ (
      0,
      ground (arith, e),
      omega arith,
      record { before = λ m h. absurd (omega arith); from = λ m lo h. absurd (omega arith) },
      λ ne. absurd (ne e),
    )
    | no ne ↦
        let (r, run, lt, b) = no_fail-Bounds xs v n ne room s in
        let run' = lower_bound_run xs v n r ne (omega arith) run in
        elim (Bool-cases (less (get_or xs r d) v)) [
          | inl less_r ↦ (
            r + 1,
            ground (arith, run', less_r),
            omega arith,
            cut_low xs v n r (r + 1) r s b lt less_r,
            λ some_items. (r, run, lt, omega arith, omega arith),
          )
          | inr ge ↦ (
            r,
            ground (arith, run', ge),
            omega arith,
            cut_high xs v n r (r + 1) r s b ge,
            λ some_items. (r, run, lt, omega arith, omega arith),
          )
        ]
  ]

module _ {ℓ} {A : Type ℓ} (less : A → A → Bool) where
  -- Of three items, the first smaller than `search_for` and the second not, lower_bound finds the
  -- second, and lower_bound_no_fail the first, although not all items are smaller.
  pub lower_bound_no_fail_early :
      (x y z search_for : A)
      → less x search_for ≡ true
      → less y search_for ≡ false
      → (lower_bound less search_for (x ∷ y ∷ z ∷ []) 3 ≡ some 1)
        × (lower_bound_no_fail less search_for (x ∷ y ∷ z ∷ []) 3 ≡ some 0)
  unfolding lower_bound lower_bound_no_fail narrow
  lower_bound_no_fail_early x y z v lt ge = (ground (arith, lt, ge), ground (arith, lt, ge))
