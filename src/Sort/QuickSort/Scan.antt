-- ===== src/Sort/QuickSort/Scan.antt =====
-- The scans of a partition.
use cbasis.Base.{
  ℕ, zero, suc, ◌+◌, ◌-◌, ◌<◌, ◌≤◌, ◌≡◌, ◌≢◌, inl, inr, sym, subst, Bool, true, Bool-cases, List,
  length, get_or, some, get_elem?-eq-get_or, arith,
}
use native.Mathlib.Decide.{ℕ_discrete}
use cbasis.Sort.QuickSort.{scan_right, scan_left}
use cbasis.Sort.Order.{StrictWeak, Le}

module _ {ℓ} {A : Type ℓ} (less : A → A → Bool) (order : StrictWeak less) (d : A) where
  -- All cells from `lo` to before `i` are no larger than the pivot.
  abbrev pub AllLow : List A → A → ℕ → ℕ → Type 0
  AllLow xs pivot lo i = (m : ℕ) → lo ≤ m → m < i → Le less (get_or xs m d) pivot

  -- All cells from behind `k` to before `end` are no smaller.
  abbrev pub AllHigh : List A → A → ℕ → ℕ → Type 0
  AllHigh xs pivot k end = (m : ℕ) → k < m → m < end → Le less pivot (get_or xs m d)

  -- A scan to the right stops no later than at `r`, where it can.
  scan_right-AllLow :
      (fuel : ℕ) (items : List A) (pivot : A) (lo i r : ℕ)
      → i ≤ r
      → r < i + fuel
      → r < length items
      → Le less pivot (get_or items r d)
      → AllLow items pivot lo i
      → (i' : ℕ) × (scan_right less fuel items pivot i ≡ some i')
        × (i ≤ i')
        × (i' ≤ r)
        × AllLow items pivot lo i'
        × Le less pivot (get_or items i' d)
  unfolding scan_right
  scan_right-AllLow zero items pivot lo i r ir enough room stop low = absurd (omega arith)
  scan_right-AllLow (suc fuel) items pivot lo i r ir enough room stop low =
      let at = get_elem?-eq-get_or items i d (omega arith) in
      elim (Bool-cases (less (get_or items i d) pivot)) [
        | inr here ↦ (i, ground (arith, at, here), omega arith, ir, low, here)
        | inl on ↦
            let further : i ≢ r =
              λ e. ground (arith, subst (λ n. less (get_or items n d) pivot ≡ true) e on, stop) in
            let (i', run, lo', hi', low', at') =
              scan_right-AllLow fuel items pivot lo (i + 1) r (omega arith) (omega arith) room stop
                (λ m l h. elim (ℕ_discrete m i) [
                  | yes e ↦
                      subst (λ n. Le less (get_or items n d) pivot) (sym e)
                        (order.asym (get_or items i d) pivot on)
                  | no ne ↦ low m l (omega arith)
                ]) in
            (i', ground (arith, at, on, run), omega arith, hi', low', at')
      ]

  scan_left-AllHigh :
      (fuel : ℕ) (items : List A) (pivot : A) (end k l : ℕ)
      → l ≤ k
      → k < l + fuel
      → k < length items
      → Le less (get_or items l d) pivot
      → AllHigh items pivot k end
      → (k' : ℕ) × (scan_left less fuel items pivot k ≡ some k')
        × (l ≤ k')
        × (k' ≤ k)
        × AllHigh items pivot k' end
        × Le less (get_or items k' d) pivot
  unfolding scan_left
  scan_left-AllHigh zero items pivot end k l lk enough room stop high = absurd (omega arith)
  scan_left-AllHigh (suc fuel) items pivot end k l lk enough room stop high =
      let at = get_elem?-eq-get_or items k d room in
      elim (Bool-cases (less pivot (get_or items k d))) [
        | inr here ↦ (k, ground (arith, at, here), lk, omega arith, high, here)
        | inl on ↦
            let further : l ≢ k =
              λ e. ground (arith, subst (λ n. Le less (get_or items n d) pivot) e stop, on) in
            let (k', run, lo', hi', high', at') =
              scan_left-AllHigh fuel items pivot end (k - 1) l (omega arith) (omega arith)
                (omega arith) stop
                (λ m lo h. elim (ℕ_discrete m k) [
                  | yes e ↦
                      subst (λ n. Le less pivot (get_or items n d)) (sym e)
                        (order.asym pivot (get_or items k d) on)
                  | no ne ↦ high m (omega arith) h
                ]) in
            (k', ground (arith, at, on, run), lo', omega arith, high', at')
      ]

  -- What both scans of a round give, where they can stop at `r` and at `l`.
  abbrev pub Scanned : List A → A → ℕ → ℕ → ℕ → ℕ → ℕ → ℕ → Type 0
  Scanned items pivot lo end i k r l =
      (i' : ℕ) × (k' : ℕ) × (scan_right less (length items) items pivot i ≡ some i')
      × (scan_left less (length items) items pivot k ≡ some k')
      × (i ≤ i')
      × (i' ≤ r)
      × (l ≤ k')
      × (k' ≤ k)
      × AllLow items pivot lo i'
      × AllHigh items pivot k' end
      × Le less pivot (get_or items i' d)
      × Le less (get_or items k' d) pivot

  pub scanned :
      (items : List A) (pivot : A) (lo end i k r l : ℕ)
      → i ≤ r
      → r < length items
      → l ≤ k
      → k < length items
      → Le less pivot (get_or items r d)
      → Le less (get_or items l d) pivot
      → AllLow items pivot lo i
      → AllHigh items pivot k end
      → Scanned items pivot lo end i k r l
  scanned items pivot lo end i k r l ir room lk room' stop stop' low high =
      let (i', run, i_lo, i_hi, low', at) =
        scan_right-AllLow (length items) items pivot lo i r ir (omega arith) room stop low in
      let (k', run', k_lo, k_hi, high', at') =
        scan_left-AllHigh (length items) items pivot end k l lk (omega arith) room' stop' high in
      (i', k', run, run', i_lo, i_hi, k_lo, k_hi, low', high', at, at')
