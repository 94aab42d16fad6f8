-- ===== src/Sort/Tests.antt =====
-- Witnesses of the claims on sort.h, for numbers in their order.
use cbasis.Base.{
  ℕ, ◌+◌, ◌<◌, ◌≤◌, ◌≡◌, ◌≢◌, ◌⊎◌, Bool, true, false, ltb, List, [], ◌∷◌, length, get_or, some,
  arith,
}
use cbasis.Sort.{insertion_sort, heap_sort}
use cbasis.Sort.Order.{StrictWeak, SortedIn}
use cbasis.Sort.Permuted.{Permuted}
use cbasis.Sort.Insertion.{insertion_sort_sound}
use cbasis.Sort.HeapSort.{heap_sort_sound}
use cbasis.Sort.QuickSort.{quick_sort}
use cbasis.Sort.QuickSort.Sound.{quick_sort_sound}
use cbasis.Sort.Merge.{Buffers, merge_sorted, merge_sort}
use cbasis.Sort.Merge.Ranges.{tally_range}
use cbasis.Sort.Merge.Sound.{merge_sorted_sound}
use cbasis.Sort.Merge.MergeSort.{Holds, merge_sort_sound}
use cbasis.Sort.LowerBound.{lower_bound, lower_bound_no_fail, Bounds, lower_bound_sound}

by_size : StrictWeak {A = ℕ} ltb
by_size = record { asym = λ a b lt. ground arith; trans = λ a b c ab bc. ground arith }

abbrev numbers : List ℕ
numbers =
    30 ∷ 2 ∷ 17 ∷ 5 ∷ 5 ∷ 90 ∷ 41 ∷ 3 ∷ 8 ∷ 77 ∷ 12 ∷ 64 ∷ 1 ∷ 29 ∷ 33 ∷ 6 ∷ 58 ∷ 21 ∷ 19 ∷ 7 ∷ 45
    ∷ 0 ∷ 82 ∷ 11 ∷ 36 ∷ 9 ∷ 70 ∷ 25 ∷ 14 ∷ 50 ∷ 4 ∷ 61 ∷ 27 ∷ 38 ∷ 16 ∷ 10 ∷ 99 ∷ 23 ∷ 55 ∷ 13 ∷ []

abbrev left : List ℕ
left = 1 ∷ 4 ∷ 9 ∷ []

abbrev right : List ℕ
right = 2 ∷ 4 ∷ 7 ∷ []

insertion_sort_sound_example :
    (ys : List ℕ) × (insertion_sort ltb numbers 1 8 ≡ some ys)
    × Permuted 0 1 (1 + 8) numbers ys
    × SortedIn ltb ys 0 1 (1 + 8)
insertion_sort_sound_example = insertion_sort_sound ltb by_size 0 numbers 1 8 (omega arith)

heap_sort_sound_example :
    (ys : List ℕ) × (heap_sort ltb numbers 0 40 ≡ some ys)
    × Permuted 0 0 (0 + 40) numbers ys
    × SortedIn ltb ys 0 0 (0 + 40)
heap_sort_sound_example = heap_sort_sound ltb by_size 0 numbers 0 40 (omega arith)

quick_sort_sound_example :
    (ys : List ℕ) × (quick_sort ltb numbers 2800 40 ≡ some ys)
    × Permuted 0 0 40 numbers ys
    × SortedIn ltb ys 0 0 40
quick_sort_sound_example =
    quick_sort_sound ltb by_size 0 numbers 2800 40 (omega arith) (omega arith)

left-SortedIn : SortedIn ltb left 0 0 (0 + 3)
left-SortedIn a b la ab bh = ground arith

right-SortedIn : SortedIn ltb right 0 0 (0 + 3)
right-SortedIn a b la ab bh = ground arith

merge_sorted_sound_example :
    (ys : List ℕ) × (merge_sorted ltb numbers 2 left 0 3 right 0 3 ≡ some ys)
    × (length ys ≡ length numbers)
    × SortedIn ltb ys 0 2 (2 + (3 + 3))
    × ((p : ℕ → Bool)
        → tally_range 0 p ys 2 (3 + 3) ≡ tally_range 0 p left 0 3 + tally_range 0 p right 0 3)
    × ((i : ℕ) → (i < 2) ⊎ (2 + (3 + 3) ≤ i) → get_or ys i 0 ≡ get_or numbers i 0)
merge_sorted_sound_example =
    merge_sorted_sound ltb by_size 0 numbers left right 2 0 3 0 3 left-SortedIn right-SortedIn
      (λ m lt. omega arith) (λ m lt. omega arith) (omega arith)

merge_sort_sound_example :
    (t : Buffers ℕ) × (merge_sort ltb numbers numbers false 40 ≡ some t)
    × Holds ltb by_size 0 numbers 40 t
    × (false ≡ false → t.a_is_input ≡ true)
merge_sort_sound_example =
    merge_sort_sound ltb by_size 0 numbers numbers false 40 (omega arith) (omega arith)

lower_bound_sound_example :
    (i : ℕ) × (lower_bound ltb 5 left 3 ≡ some i)
    × (i ≤ 3)
    × Bounds ltb by_size 0 left 5 3 i i
    × (◌≢◌ {A = ℕ} 3 0
        → (r : ℕ) × (lower_bound_no_fail ltb 5 left 3 ≡ some r) × (r < 3) × (r ≤ i) × (i ≤ r + 1))
lower_bound_sound_example = lower_bound_sound ltb by_size 0 left 5 3 (omega arith) left-SortedIn
