-- ===== src/Sort/QuickSort/Partition.antt =====
-- The partition of quick_sort.
use cbasis.Base.{
  ℕ, zero, suc, ◌+◌, ◌-◌, ◌<◌, ◌≤◌, ◌≡◌, ◌∙◌, Bool, List, length, get_or, Option, some, swapped,
  length-swapped, get_or-swapped, arith,
}
use native.Mathlib.Decide.{dec_lt}
use cbasis.Sort.QuickSort.{scan_right, scan_left, exchange_misplaced, partition}
use cbasis.Sort.Order.{StrictWeak, Le}
use cbasis.Sort.BubbleDown.{swap_items-swapped}
use cbasis.Sort.Permuted.{Permuted, Permuted-refl, Permuted-trans, swapped-Permuted}
use cbasis.Sort.QuickSort.Scan.{AllLow, AllHigh, scanned}

module _ {ℓ} {A : Type ℓ} (less : A → A → Bool) (order : StrictWeak less) (d : A) where
  -- The loop after its first round.
  pub record Parted (xs : List A) (pivot : A) (lo end i k : ℕ) : Type ℓ where
    pub past_lo : lo < i
    pub in_end : i < end
    pub from_lo : lo ≤ k
    pub past_end : k + 1 < end
    pub low : AllLow less order d xs pivot lo i
    pub high : AllHigh less order d xs pivot k end

  swapped-AllLow :
      (xs : List A) (pivot : A) (lo i k : ℕ)
      → i ≤ k
      → k < length xs
      → AllLow less order d xs pivot lo i
      → Le less (get_or xs k d) pivot
      → AllLow less order d (swapped xs i k d) pivot lo (i + 1)
  swapped-AllLow xs pivot lo i k le room low at m l h =
      ground (arith, get_or-swapped xs i k m d, low m, at)

  swapped-AllHigh :
      (xs : List A) (pivot : A) (i k end : ℕ)
      → i ≤ k
      → k < length xs
      → 0 < k
      → AllHigh less order d xs pivot k end
      → Le less pivot (get_or xs i d)
      → AllHigh less order d (swapped xs i k d) pivot (k - 1) end
  swapped-AllHigh xs pivot i k end le room pos high at m l h =
      ground (arith, get_or-swapped xs i k m d, high m, at)

  pub exchanged_run :
      (items : List A) (i k : ℕ)
      → i ≤ k
      → 0 < k
      → k < length items
      → exchange_misplaced less items i k ≡ some (swapped items i k d, i + 1, k - 1)
  unfolding exchange_misplaced
  exchanged_run items i k le pos room = ground (arith, swap_items-swapped less items i k d)

  kept_run :
      (items : List A) (i k : ℕ) → k < i → exchange_misplaced less items i k ≡ some (items, i, k)
  unfolding exchange_misplaced
  kept_run items i k lt = ground arith

  partition_end :
      (fuel : ℕ) (items : List A) (pivot : A) (i k : ℕ)
      → 0 < fuel
      → k < i
      → partition less fuel items pivot i k ≡ some (items, i, k)
  unfolding partition
  partition_end zero items pivot i k pos lt = absurd (omega arith)
  partition_end (suc fuel) items pivot i k pos lt = ground arith

  pub partition_step :
      (fuel : ℕ) (items ys : List A) (pivot : A) (i k i1 k1 i2 k2 : ℕ)
      → i ≤ k
      → scan_right less (length items) items pivot i ≡ some i1
      → scan_left less (length items) items pivot k ≡ some k1
      → exchange_misplaced less items i1 k1 ≡ some (ys, i2, k2)
      → partition less (suc fuel) items pivot i k ≡ partition less fuel ys pivot i2 k2
  unfolding partition
  partition_step fuel items ys pivot i k i1 k1 i2 k2 le run run' run'' =
      ground (arith, run, run', run'')

  pub swapped-Parted :
      (xs : List A) (pivot : A) (lo end i k : ℕ)
      → lo ≤ i
      → i + 1 < end
      → lo < k
      → k < end
      → i ≤ k
      → end ≤ length xs
      → AllLow less order d xs pivot lo i
      → AllHigh less order d xs pivot k end
      → Le less pivot (get_or xs i d)
      → Le less (get_or xs k d) pivot
      → Parted (swapped xs i k d) pivot lo end (i + 1) (k - 1)
  swapped-Parted xs pivot lo end i k il ie lk ke le room low high at at' = record {
    past_lo = omega arith;
    in_end = ie;
    from_lo = omega arith;
    past_end = omega arith;
    low = swapped-AllLow xs pivot lo i k le (omega arith) low at';
    high = swapped-AllHigh xs pivot i k end le (omega arith) (omega arith) high at;
  }

  -- The result of a partition.
  abbrev pub Parts : List A → A → ℕ → ℕ → Option (List A × ℕ × ℕ) → Type ℓ
  Parts items pivot lo end run =
      (ys : List A) × (i : ℕ) × (k : ℕ) × (run ≡ some (ys, i, k))
      × Permuted d lo end items ys
      × (k < i)
      × Parted ys pivot lo end i k

  pub partition-Parts :
      (fuel : ℕ) (items : List A) (pivot : A) (lo end i k : ℕ)
      → 0 < fuel
      → k + 2 ≤ i + fuel
      → end ≤ length items
      → Parted items pivot lo end i k
      → Parts items pivot lo end (partition less fuel items pivot i k)
  partition-Parts zero items pivot lo end i k pos enough room s = absurd (omega arith)
  partition-Parts (suc fuel) items pivot lo end i k pos enough room s =
      let past_lo = s.past_lo in
      let in_end = s.in_end in
      let from_lo = s.from_lo in
      let past_end = s.past_end in
      elim (dec_lt k i) [
        | yes over ↦ (
          items,
          i,
          k,
          partition_end (suc fuel) items pivot i k (omega arith) over,
          Permuted-refl d lo end items,
          over,
          s,
        )
        | no more ↦
            let (i', k', run, run', i_lo, i_hi, k_lo, k_hi, low, high, at, at') =
              scanned less order d items pivot lo end i k (k + 1) (i - 1) (omega arith)
                (omega arith) (omega arith) (omega arith)
                (s.high (k + 1) (omega arith) (omega arith))
                (s.low (i - 1) (omega arith) (omega arith)) s.low s.high in
            elim (dec_lt k' i') [
              | yes apart ↦
                  let (ys, i2, k2, run'', p, over, parted) =
                    partition-Parts fuel items pivot lo end i' k' (omega arith) (omega arith) room
                      (record {
                        past_lo = omega arith;
                        in_end = omega arith;
                        from_lo = omega arith;
                        past_end = omega arith;
                        low = low;
                        high = high;
                      }) in
                  (
                    ys,
                    i2,
                    k2,
                    partition_step fuel items items pivot i k i' k' i' k' (omega arith) run run'
                          (kept_run items i' k' apart)
                        ∙ run'',
                    p,
                    over,
                    parted,
                  )
              | no within ↦
                  let w = swapped items i' k' d in
                  let (ys, i2, k2, run'', p, over, parted) =
                    partition-Parts fuel w pivot lo end (i' + 1) (k' - 1) (omega arith)
                      (omega arith) (omega (arith, length-swapped items i' k' d))
                      (swapped-Parted items pivot lo end i' k' (omega arith) (omega arith)
                        (omega arith) (omega arith) (omega arith) room low high at at') in
                  (
                    ys,
                    i2,
                    k2,
                    partition_step fuel items w pivot i k i' k' (i' + 1) (k' - 1) (omega arith) run
                          run' (exchanged_run items i' k' (omega arith) (omega arith) (omega arith))
                        ∙ run'',
                    Permuted-trans d
                        (swapped-Permuted d lo end i' k' items (omega arith) (omega arith)
                          (omega arith) (omega arith) room)
                        p,
                    over,
                    parted,
                  )
            ]
      ]
