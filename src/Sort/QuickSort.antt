-- ===== src/Sort/QuickSort.antt =====
-- sort.h: quick_sort and hqsort. A region `[lo, hi]` is kept as `lo` and `end = hi + 1`, so that it is
-- one of natural numbers when there are no items. `los`, `his` and `unbalances` are one list of
-- regions, the last pushed first; the region in work is a region too. `k` never passes below 0: there
-- the model is `none`. The room for the pivot and the swaps is left out: they are values.
pub mod Scan
pub mod Partition
pub mod Split
pub mod Regions
pub mod Depth
pub mod Round
pub mod Sound
use cbasis.Base.{
  ℕ, zero, suc, ◌+◌, ◌-◌, ◌*◌, ◌/◌, ◌%◌, ◌^◌, Bool, true, false, ◌||◌, ltb, leb, ◌==◌,
  if◌then◌else◌, List, [], ◌∷◌, length, Option, none, some, load, ◌>>=◌, ◌>>◌, require, to_ℕ,
}
use cbasis.Sort.{insertion_sort_to, heap_sort_from, insertion_sort, swap_items, heap_sort}

pub record Region : Type 0 where
  pub lo : ℕ
  pub end : ℕ
  pub unbalanced : ℕ

-- `while (n_copy >>= 1) ++log2_n;`
unfoldable pub floor_log2 : ℕ → ℕ → ℕ
floor_log2 zero n = 0
floor_log2 (suc fuel) n = let rest = floor_log2 fuel (n / 2) in if n / 2 == 0 then 0 else 1 + rest

-- `(uint64_t)l_size < (uint64_t)size/8 || (uint64_t)r_size < (uint64_t)size/8`, with
-- `l_size = k - lo` and `r_size = hi - i`.
unfoldable pub is_highly_unbalanced : ℕ → ℕ → ℕ → ℕ → ℕ → Bool
is_highly_unbalanced lo hi size i k =
    ltb ((k + 2 ^ 64 - lo) % 2 ^ 64) (size / 8) || ltb ((hi + 2 ^ 64 - i) % 2 ^ 64) (size / 8)

-- A push, and the region that comes next. An entry that is not there is not written.
unfoldable pub push_larger : Region → ℕ → ℕ → ℕ → List Region → Option (List Region)
push_larger r unbalanced i k stack =
    let left : Region = record { lo = r.lo; end = k + 1; unbalanced = unbalanced } in
    let right : Region = record { lo = i; end = r.end; unbalanced = unbalanced } in
    require (ltb (length stack) 64)
    >> (if ltb (k + i + 1) (r.end + r.lo)
        then some (left ∷ right ∷ stack)
        else some (right ∷ left ∷ stack))

module _ {ℓ} {A : Type ℓ} (less : A → A → Bool) where
  -- `if (is_less(AT(a), AT(b), context)) SWAP_DYN(AT(a), AT(b), swap_space);`
  unfoldable pub order_items : List A → ℕ → ℕ → Option (List A)
  order_items items a b = load items a >>= λ x.
      load items b >>= λ y. if less x y then swap_items less items a b else some items

  -- `while (is_less(AT(i), pivot, context)) i++;`
  unfoldable pub scan_right : ℕ → List A → A → ℕ → Option ℕ
  scan_right zero items pivot i = none
  scan_right (suc fuel) items pivot i = load items i >>= λ x.
      let rest = scan_right fuel items pivot (i + 1) in if less x pivot then rest else some i

  -- `while (is_less(pivot, AT(k), context)) k--;`
  unfoldable pub scan_left : ℕ → List A → A → ℕ → Option ℕ
  scan_left zero items pivot k = none
  scan_left (suc fuel) items pivot k = load items k >>= λ x.
      let rest = require (ltb 0 k) >> scan_left fuel items pivot (k - 1) in
      if less pivot x then rest else some k

  -- `if (i <= k) { SWAP_DYN(AT(i), AT(k), swap_space); i++; k--; }`
  unfoldable pub exchange_misplaced : List A → ℕ → ℕ → Option (List A × ℕ × ℕ)
  exchange_misplaced items i k =
      if leb i k
      then (swap_items less items i k >>= λ items'.
          require (ltb 0 k) >> some (items', i + 1, k - 1))
      else some (items, i, k)

  -- `while (i <= k) {…}`
  unfoldable pub partition : ℕ → List A → A → ℕ → ℕ → Option (List A × ℕ × ℕ)
  partition zero items pivot i k = none
  partition (suc fuel) items pivot i k =
      let rest = scan_right (length items) items pivot i >>= λ i'.
      scan_left (length items) items pivot k >>= λ k'.
      exchange_misplaced items i' k' >>= λ r. partition fuel r.0 pivot r.1 r.2 in
      if leb i k then rest else some (items, i, k)

  -- The median of three, and the partition.
  unfoldable pub split_region : List A → ℕ → ℕ → Option (List A × ℕ × ℕ)
  split_region items lo hi =
      let j = lo + (hi - lo) / 2 in
      order_items items hi lo >>= λ items1. order_items items1 j lo >>= λ items2.
      order_items items2 hi j >>= λ items3.
      load items3 j >>= λ pivot. partition (hi + 5) items3 pivot lo hi

  -- The heap sort behind the inner loop.
  unfoldable pub sort_unbalanced : Region → ℕ → List A → Option (List A)
  sort_unbalanced r unbalanced items =
      if unbalanced == 0 then heap_sort less items r.lo (r.end - r.lo) else some items

  -- One round of the inner loop for the region `r`, with what follows when it ends there.
  unfoldable pub sort_region : List A → Region → List Region → Option (List A × List Region)
  sort_region items r stack =
      let size = r.end - r.lo in
      if leb size insertion_sort_to
      then (insertion_sort less items r.lo size >>= λ items1.
          sort_unbalanced r r.unbalanced items1 >>= λ items2. some (items2, stack))
      else (split_region items r.lo (r.end - 1) >>= λ s.
          let unbalanced =
            r.unbalanced - to_ℕ (is_highly_unbalanced r.lo (r.end - 1) size s.1 s.2) in
          if unbalanced == 0
          then (sort_unbalanced r unbalanced s.0 >>= λ items2. some (items2, stack))
          else (push_larger r unbalanced s.1 s.2 stack >>= λ regions. some (s.0, regions)))

  -- `for(;;)`, until the stack is empty.
  unfoldable pub sort_regions : ℕ → List A → List Region → Option (List A)
  sort_regions zero items regions = none
  sort_regions (suc fuel) items [] = some items
  sort_regions (suc fuel) items (r ∷ stack) =
      sort_region items r stack >>= λ s. sort_regions fuel s.0 s.1

  unfoldable pub quick_sort : List A → ℕ → ℕ → Option (List A)
  quick_sort items from item_count =
      let whole : Region = record {
        lo = 0;
        end = item_count;
        unbalanced = floor_log2 item_count item_count;
      } in
      if leb from item_count
      then heap_sort less items 0 item_count
      else sort_regions (2 * item_count + 3) items (whole ∷ [])

  unfoldable pub hqsort : List A → ℕ → Option (List A)
  hqsort items item_count = quick_sort items heap_sort_from item_count
