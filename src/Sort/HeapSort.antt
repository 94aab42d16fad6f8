-- ===== src/Sort/HeapSort.antt =====
-- heap_sort sorts its range and keeps the items.
use cbasis.Base.{
  ℕ, ◌+◌, ◌/◌, ◌<◌, ◌≤◌, ◌≡◌, ap, ◌∙◌, Bool, List, length, ltb, if◌then◌else◌, some, ◌>>=◌, arith,
}
use native.Mathlib.Decide.{dec_lt}
use cbasis.Sort.{
  make_heap, pop_one, pop_two, insertion_sort, heap_sort, insertion_sort_to,
  heap_sort_two_phase_bubbling_from,
}
use cbasis.Sort.Order.{StrictWeak, SortedIn}
use cbasis.Sort.Heap.{HeapFrom}
use cbasis.Sort.BubbleDown.{cell}
use cbasis.Sort.PopTwo.{Ends, pop_two-Ends}
use cbasis.Sort.MakeHeap.{make_heap-Heaps}
use cbasis.Sort.PopOne.{Heap-Loose, pop_one-Ends}
use cbasis.Sort.Tail.{Tail, insertion_sort-Tail}
use cbasis.Sort.Permuted.{Permuted, Permuted-refl, Permuted-trans}

module _ {ℓ} {A : Type ℓ} (less : A → A → Bool) (order : StrictWeak less) (d : A) where
  -- The first part: a heap, when there are items enough.
  made :
      (items : List A) (base n : ℕ)
      → base + n ≤ length items
      → (ys : List A) × ((if ltb insertion_sort_to n
            then make_heap less (n / 2) items base n
            else some items)
          ≡ some ys)
        × Permuted d base (base + n) items ys
        × (insertion_sort_to < n → HeapFrom less 0 n (cell ys base d))
  made items base n room = elim (dec_lt insertion_sort_to n) [
    | no small ↦
        (items, ground arith, Permuted-refl d base (base + n) items, λ big. absurd (small big))
    | yes big ↦
        let (ys, run, p, h) =
          make_heap-Heaps less order d (n / 2) items base n (omega arith) room
            (λ p c kp lo hi lt. absurd (omega arith)) in
        (ys, ground (arith, run), p, λ _. h)
  ]

  -- The second: either loop.
  popped :
      (items : List A) (base n : ℕ)
      → base + n ≤ length items
      → (insertion_sort_to < n → HeapFrom less 0 n (cell items base d))
      → Ends less order d items base n n (
          if ltb n heap_sort_two_phase_bubbling_from
          then pop_two less (n + 1) items base n
          else pop_one less (n + 1) items base n)
  popped items base n room h =
      let t : Tail less n n (cell items base d) = record {
        tail = λ a b na ab bc. absurd (omega arith);
        below = λ i j ni nj jc. absurd (omega arith);
      } in
      elim (dec_lt n heap_sort_two_phase_bubbling_from) [
        | yes small ↦
            let (ys, m, run, m_le, q, t') =
              pop_two-Ends less order d (n + 1) items base n n (omega arith) (omega arith) room h
                t in
            (ys, m, ground (arith, run), m_le, q, t')
        | no large ↦
            let (ys, m, run, m_le, q, t') =
              pop_one-Ends less order d (n + 1) items base n n (omega arith) (omega arith) room
                (λ big. Heap-Loose less order d n (cell items base d) (omega arith) (h big)) t in
            (ys, m, ground (arith, run), m_le, q, t')
      ]

  heap_sort_steps :
      (items mid low ys : List A) (base n m : ℕ)
      → (if ltb insertion_sort_to n then make_heap less (n / 2) items base n else some items)
        ≡ some mid
      → (if ltb n heap_sort_two_phase_bubbling_from
          then pop_two less (n + 1) mid base n
          else pop_one less (n + 1) mid base n)
        ≡ some (low, m)
      → insertion_sort less low base m ≡ some ys
      → heap_sort less items base n ≡ some ys
  unfolding heap_sort
  heap_sort_steps items mid low ys base n m run run' run'' =
      ap
        (λ r. r >>= λ heap.
          (if ltb n heap_sort_two_phase_bubbling_from
            then pop_two less (n + 1) heap base n
            else pop_one less (n + 1) heap base n)
          >>= λ s. insertion_sort less s.0 base s.1)
        run
      ∙ ap (λ r. r >>= λ s. insertion_sort less s.0 base s.1) run'
      ∙ run''

  -- heap_sort of a range within an array returns, whatever the number of items, puts the range in
  -- order, and only rearranges it: the array has the same items, each as often, and the cells outside
  -- the range are as they were.
  pub heap_sort_sound :
      (items : List A) (base item_count : ℕ)
      → base + item_count ≤ length items
      → (ys : List A) × (heap_sort less items base item_count ≡ some ys)
        × Permuted d base (base + item_count) items ys
        × SortedIn less ys d base (base + item_count)
  heap_sort_sound items base n room =
      let (mid, run, p, h) = made items base n room in
      let (low, m, run', m_le, q, t) = popped mid base n (omega (arith, p.same_length)) h in
      let (ys, run'', r, s) =
        insertion_sort-Tail less order d base m n low m_le
          (omega (arith, p.same_length, q.same_length)) t in
      (
        ys,
        heap_sort_steps items mid low ys base n m run run' run'',
        Permuted-trans d (Permuted-trans d p q) r,
        s,
      )
