-- ===== src/Sort/QuickSort/Split.antt =====
-- A region of more than two items is split in two that are not empty.
use cbasis.Base.{
  ℕ, zero, suc, ◌+◌, ◌-◌, ◌/◌, ◌<◌, ◌≤◌, ◌≡◌, inl, inr, ◌∙◌, Bool, Bool-cases, List, length, get_or,
  some, swapped, length-swapped, get_elem?-eq-get_or, arith,
}
use cbasis.Sort.QuickSort.{order_items, partition, split_region}
use cbasis.Sort.Order.{StrictWeak, le_refl}
use cbasis.Sort.BubbleDown.{swap_items-swapped}
use cbasis.Sort.QuickSort.Partition.{
  Parts, swapped-Parted, exchanged_run, partition_step, partition-Parts,
}
use cbasis.Sort.QuickSort.Scan.{scanned}
use cbasis.Sort.Permuted.{Permuted, Permuted-refl, Permuted-trans, swapped-Permuted}

module _ {ℓ} {A : Type ℓ} (less : A → A → Bool) (order : StrictWeak less) (d : A) where
  ordered :
      (items : List A) (lo end a b : ℕ)
      → lo ≤ a
      → a < end
      → lo ≤ b
      → b < end
      → end ≤ length items
      → (ys : List A) × (order_items less items a b ≡ some ys) × Permuted d lo end items ys
  unfolding order_items
  ordered items lo end a b la ae lb be room =
      let at_a = get_elem?-eq-get_or items a d (omega arith) in
      let at_b = get_elem?-eq-get_or items b d (omega arith) in
      elim (Bool-cases (less (get_or items a d) (get_or items b d))) [
        | inl lt ↦ (
          swapped items a b d,
          ground (arith, at_a, at_b, lt, swap_items-swapped less items a b d),
          swapped-Permuted d lo end a b items la ae lb be room,
        )
        | inr le ↦ (items, ground (arith, at_a, at_b, le), Permuted-refl d lo end items)
      ]

  -- The first round can stop at the pivot's place.
  first-Parts :
      (fuel : ℕ) (items : List A) (lo hi j : ℕ)
      → lo < j
      → j < hi
      → hi < length items
      → hi + 5 ≤ fuel
      → Parts less order d items
          (get_or items j d)
          lo
          (hi + 1)
          (partition less fuel items (get_or items j d) lo hi)
  first-Parts zero items lo hi j lj jh room enough = absurd (omega arith)
  first-Parts (suc fuel) items lo hi j lj jh room enough =
      let pivot = get_or items j d in
      let (i, k, run, run', i_lo, i_hi, k_lo, k_hi, low, high, at, at') =
        scanned less order d items pivot lo (hi + 1) lo hi j j (omega arith) (omega arith)
          (omega arith) room (le_refl less order pivot) (le_refl less order pivot)
          (λ m l h. absurd (omega arith)) (λ m l h. absurd (omega arith)) in
      let w = swapped items i k d in
      let (ys, i2, k2, run'', p, over, parted) =
        partition-Parts less order d fuel w pivot lo (hi + 1) (i + 1) (k - 1) (omega arith)
          (omega arith) (omega (arith, length-swapped items i k d))
          (swapped-Parted less order d items pivot lo (hi + 1) i k (omega arith) (omega arith)
            (omega arith) (omega arith) (omega arith) (omega arith) low high at at') in
      (
        ys,
        i2,
        k2,
        partition_step less order d fuel items w pivot lo hi i k (i + 1) (k - 1) (omega arith) run
              run' (exchanged_run less order d items i k (omega arith) (omega arith) (omega arith))
            ∙ run'',
        Permuted-trans d
            (swapped-Permuted d lo (hi + 1) i k items (omega arith) (omega arith) (omega arith)
              (omega arith) (omega arith))
            p,
        over,
        parted,
      )

  split_steps :
      (items xs ys zs : List A) (lo hi : ℕ)
      → order_items less items hi lo ≡ some xs
      → order_items less xs (lo + (hi - lo) / 2) lo ≡ some ys
      → order_items less ys hi (lo + (hi - lo) / 2) ≡ some zs
      → lo + (hi - lo) / 2 < length zs
      → split_region less items lo hi
        ≡ partition less (hi + 5) zs (get_or zs (lo + (hi - lo) / 2) d) lo hi
  unfolding split_region
  split_steps items xs ys zs lo hi run run' run'' room =
      ground (arith, run, run', run'', get_elem?-eq-get_or zs (lo + (hi - lo) / 2) d)

  pub split_region-Parts :
      (items : List A) (lo hi : ℕ)
      → lo + 1 < hi
      → hi < length items
      → (pivot : A) × Parts less order d items pivot lo (hi + 1) (split_region less items lo hi)
  split_region-Parts items lo hi big room =
      let j = lo + (hi - lo) / 2 in
      let (xs, run1, p1) =
        ordered items lo (hi + 1) hi lo (omega arith) (omega arith) (omega arith) (omega arith)
          (omega arith) in
      let (ys, run2, p2) =
        ordered xs lo (hi + 1) j lo (omega arith) (omega arith) (omega arith) (omega arith)
          (omega (arith, p1.same_length)) in
      let (zs, run3, p3) =
        ordered ys lo (hi + 1) hi j (omega arith) (omega arith) (omega arith) (omega arith)
          (omega (arith, p1.same_length, p2.same_length)) in
      let size : length zs ≡ length items =
        omega (arith, p1.same_length, p2.same_length, p3.same_length) in
      let (out, i, k, run, p, over, parted) =
        first-Parts (hi + 5) zs lo hi j (omega arith) (omega arith) (omega (arith, size))
          (omega arith) in
      (
        get_or zs j d,
        (
          out,
          i,
          k,
          split_steps items xs ys zs lo hi run1 run2 run3 (omega (arith, size)) ∙ run,
          Permuted-trans d (Permuted-trans d (Permuted-trans d p1 p2) p3) p,
          over,
          parted,
        ),
      )
