-- ===== src/Sort/QuickSort/Sound.antt =====
-- quick_sort and hqsort sort and keep the items, and their stack is large enough.
use cbasis.Base.{
  ℕ, zero, suc, ◌+◌, ◌*◌, ◌^◌, ◌<◌, ◌≤◌, ◌≡◌, inl, inr, refl, subst, ◌∙◌, Bool, List, [], ◌∷◌,
  length, some, arith,
}
use native.Mathlib.Decide.{dec_lt}
use cbasis.Sort.{heap_sort, heap_sort_from}
use cbasis.Sort.QuickSort.{Region, floor_log2, sort_region, sort_regions, quick_sort, hqsort}
use cbasis.Sort.Order.{StrictWeak, SortedIn}
use cbasis.Sort.Permuted.{Permuted, Permuted-refl, Permuted-trans, Permuted-wide}
use cbasis.Sort.HeapSort.{heap_sort_sound}
use cbasis.Sort.QuickSort.Regions.{Together, Disjoint}
use cbasis.Sort.QuickSort.Depth.{Stacked, work}
use cbasis.Sort.QuickSort.Round.{Pending, sort_region-Advances}

module _ {ℓ} {A : Type ℓ} (less : A → A → Bool) (order : StrictWeak less) (d : A) where
  all_done :
      (items : List A) (count : ℕ)
      → Pending less order d count items []
      → SortedIn less items d 0 count
  unfolding Together
  all_done items count s a b la ab bc = elim (s.ordered a b ab bc) [
    | inl t ↦ absurd t
    | inr le ↦ le
  ]

  regions_step :
      (fuel : ℕ) (items ys : List A) (r : Region) (rs new : List Region)
      → sort_region less items r rs ≡ some (ys, new)
      → sort_regions less (suc fuel) items (r ∷ rs) ≡ sort_regions less fuel ys new
  unfolding sort_regions
  regions_step fuel items ys r rs new run = ground (arith, run)

  sort_regions-Sorts :
      (fuel : ℕ) (items : List A) (count : ℕ) (rs : List Region)
      → work rs < fuel
      → count ≤ length items
      → count < 2 ^ 63
      → Pending less order d count items rs
      → (ys : List A) × (sort_regions less fuel items rs ≡ some ys)
        × Permuted d 0 count items ys
        × SortedIn less ys d 0 count
  unfolding sort_regions Stacked
  sort_regions-Sorts zero items count rs enough room small s = absurd (omega arith)
  sort_regions-Sorts (suc fuel) items count [] enough room small s =
      (items, refl, Permuted-refl d 0 count items, all_done items count s)
  sort_regions-Sorts (suc fuel) items count (r ∷ rs) enough room small s =
      let (ys, new, run, p, s', less_work) =
        sort_region-Advances less order d items count r rs room small s in
      let (zs, run', q, sorted) =
        sort_regions-Sorts fuel ys count new (omega arith) (omega (arith, p.same_length)) small
          s' in
      (
        zs,
        regions_step fuel items ys r rs new run ∙ run',
        Permuted-trans d (Permuted-wide d 0 count (omega arith) s.stacked.1 p) q,
        sorted,
      )

  whole : ℕ → Region
  whole n = record { lo = 0; end = n; unbalanced = floor_log2 n n }

  whole-Pending : (items : List A) (n : ℕ) → Pending less order d n items (whole n ∷ [])
  unfolding Stacked Disjoint Together whole
  whole-Pending items n = record {
    stacked = (omega arith, omega arith, omega arith, tt);
    disjoint = ((λ a b ab t. absurd t), tt);
    ordered = λ a b ab bn. inl (inl (omega arith, bn));
  }

  loop_run :
      (items : List A) (from n : ℕ)
      → n < from
      → quick_sort less items from n ≡ sort_regions less (2 * n + 3) items (whole n ∷ [])
  unfolding quick_sort whole
  loop_run items from n lt = ground arith

  heap_run :
      (items : List A) (from n : ℕ)
      → from ≤ n
      → quick_sort less items from n ≡ heap_sort less items 0 n
  unfolding quick_sort
  heap_run items from n le = ground arith

  whole-work : (n : ℕ) → work (whole n ∷ []) < 2 * n + 3
  unfolding work whole
  whole-work n = omega arith

  -- quick_sort of the first `item_count` items of an array, a number below 2 ^ 63, returns, whatever the
  -- bound from which it is a heap sort: no access leaves the array and its stack of 64 entries does not
  -- overflow. It puts the items in order, and only rearranges them: the array has the same items, each
  -- as often, and the others are as they were.
  pub quick_sort_sound :
      (items : List A) (heap_from item_count : ℕ)
      → item_count ≤ length items
      → item_count < 2 ^ 63
      → (ys : List A) × (quick_sort less items heap_from item_count ≡ some ys)
        × Permuted d 0 item_count items ys
        × SortedIn less ys d 0 item_count
  quick_sort_sound items from n room small = elim (dec_lt n from) [
    | yes few ↦
        let (ys, run, p, s) =
          sort_regions-Sorts (2 * n + 3) items n (whole n ∷ []) (whole-work n) room small
            (whole-Pending items n) in
        (ys, loop_run items from n few ∙ run, p, s)
    | no many ↦
        let zero_add : 0 + n ≡ n = omega arith in
        let (ys, run, p, s) = heap_sort_sound less order d items 0 n (omega arith) in
        (
          ys,
          heap_run items from n (omega arith) ∙ run,
          subst (λ m. Permuted d 0 m items ys) zero_add p,
          subst (SortedIn less ys d 0) zero_add s,
        )
  ]

  pub hqsort_sound :
      (items : List A) (item_count : ℕ)
      → item_count ≤ length items
      → item_count < 2 ^ 63
      → (ys : List A) × (hqsort less items item_count ≡ some ys)
        × Permuted d 0 item_count items ys
        × SortedIn less ys d 0 item_count
  unfolding hqsort
  hqsort_sound items n room small = quick_sort_sound items heap_sort_from n room small
