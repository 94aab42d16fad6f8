-- ===== src/Sort/PopTwo.antt =====
-- The loop of heap_sort that takes two items off the heap.
use cbasis.Base.{
  ℕ, zero, suc, ◌+◌, ◌-◌, ◌<◌, ◌≤◌, ◌≡◌, inl, inr, ap, ap₂, ◌∙◌, Bool, Bool-cases, List, length,
  ◌==◌, if◌then◌else◌, Option, some, swapped, length-swapped, get_elem?-eq-get_or, arith,
}
use native.Mathlib.Decide.{dec_lt}
use cbasis.Sort.{bubble_down, pop_two, insertion_sort_to}
use cbasis.Sort.Order.{StrictWeak, Le, le_refl}
use cbasis.Sort.Heap.{exchanged, HeapFrom, Sifting}
use cbasis.Sort.BubbleDown.{
  cell, bubble_down-Heaps, swap_items-swapped, cell-swapped, Sifting-cells,
}
use cbasis.Sort.Tail.{Tail, Tail-cells, Permuted-Tail}
use cbasis.Sort.Permuted.{Permuted, Permuted-refl, Permuted-trans, Permuted-wide, swapped-Permuted}
use cbasis.Sort.MakeHeap.{one_more, dominates}

module _ {ℓ} {A : Type ℓ} (less : A → A → Bool) (order : StrictWeak less) (d : A) where
  -- The exchanges of a round of the loop.
  abbrev two_off : (ℕ → A) → ℕ → ℕ → ℕ → A
  two_off f n b = exchanged (exchanged f 0 (n - 1)) b (n - 2)

  two_off-Sifting :
      (f : ℕ → A) (n b : ℕ)
      → 3 < n
      → 1 ≤ b
      → b ≤ 2
      → b < n - 2
      → HeapFrom less 0 n f
      → Sifting less 1 (n - 2) b (two_off f n b)
  two_off-Sifting f n b big lo hi inside h = record {
    edges = λ p c kp ne clo chi lt. ground (arith, h p c);
    bridge = λ p c kp plo phi clo chi lt. absurd (omega arith);
  }

  -- Every item but the root is no larger than the larger child `b`.
  under :
      (f : ℕ → A) (n b : ℕ)
      → HeapFrom less 0 n f
      → Le less (f 1) (f b)
      → Le less (f 2) (f b)
      → (c : ℕ) → c < n
      → 1 ≤ c
      → Le less (f c) (f b)
  under f n b h one two c lt pos =
      dominates less order (suc c) n b c f (λ p k kp lo hi klt. h p k (omega arith) lo hi klt) one
        two lt pos (omega arith)

  two_off-Tail :
      (f : ℕ → A) (n count b : ℕ)
      → 4 < n
      → n ≤ count
      → 1 ≤ b
      → b ≤ 2
      → HeapFrom less 0 n f
      → ((c : ℕ) → c < n → 1 ≤ c → Le less (f c) (f b))
      → Tail less n count f
      → Tail less (n - 2) count (two_off f n b)
  two_off-Tail f n count b big le lo hi h u t = record {
    tail = λ i j ni ij jc. ground (arith, h 0 b, t.tail i j, t.below 0 j, t.below b j);
    below = λ i j ni nj jc. ground (
      arith,
      u i,
      u (n - 1),
      u (n - 2),
      h 0 b,
      order.trans (f i) (f b) (f 0),
      order.trans (f (n - 1)) (f b) (f 0),
      order.trans (f (n - 2)) (f b) (f 0),
      t.below i j,
      t.below (n - 1) j,
      t.below (n - 2) j,
    );
  }

  pop_step :
      (fuel : ℕ) (items : List A) (base n b : ℕ) (ys zs : List A)
      → insertion_sort_to < n
      → base + n ≤ length items
      → (if less (cell items base d 1) (cell items base d 2) then 2 else 1) ≡ b
      → b < n - 2
      → bubble_down less
          (n - 2)
          (swapped (swapped items (base + 0) (base + (n - 1)) d) (base + b) (base + (n - 2)) d)
          base
          b
          (n - 2)
        ≡ some ys
      → bubble_down less (n - 2) ys base 0 (n - 2) ≡ some zs
      → pop_two less (suc fuel) items base n ≡ pop_two less fuel zs base (n - 2)
  unfolding pop_two
  pop_step fuel items base n b ys zs big room is_b inside run run' = ground (
    arith,
    get_elem?-eq-get_or items (base + 1) d,
    get_elem?-eq-get_or items (base + 2) d,
    is_b,
    swap_items-swapped less items (base + 0) (base + (n - 1)) d,
    swap_items-swapped less (swapped items (base + 0) (base + (n - 1)) d) (base + b)
        (base + (n - 2)) d,
    length-swapped items (base + 0) (base + (n - 1)) d,
    run,
    run',
  )

  pop_end :
      (fuel : ℕ) (items : List A) (base n : ℕ)
      → n ≤ insertion_sort_to
      → pop_two less (suc fuel) items base n ≡ some (items, n)
  unfolding pop_two
  pop_end fuel items base n small = ground arith

  exchanged_cells :
      {f g : ℕ → A} (i j k : ℕ) → ((m : ℕ) → g m ≡ f m) → exchanged g i j k ≡ exchanged f i j k
  exchanged_cells {f = f} {g = g} i j k same =
      ap₂ (λ x y. if j == k then x else if i == k then y else g k) (same i) (same j)
      ∙ ap (λ z. if j == k then f i else if i == k then f j else z) (same k)

  larger_child :
      (f : ℕ → A)
      → (b : ℕ) × ((if less (f 1) (f 2) then 2 else 1) ≡ b)
        × (1 ≤ b)
        × (b ≤ 2)
        × Le less (f 1) (f b)
        × Le less (f 2) (f b)
  larger_child f = elim (Bool-cases (less (f 1) (f 2))) [
    | inl lt ↦ (
      2,
      ground arith,
      omega arith,
      omega arith,
      order.asym (f 1) (f 2) lt,
      le_refl less order (f 2),
    )
    | inr le ↦ (1, ground arith, omega arith, omega arith, le_refl less order (f 1), le)
  ]

  cells_two_off :
      (items : List A) (base n b i : ℕ)
      → 3 < n
      → b < n
      → base + n ≤ length items
      → cell
          (swapped (swapped items (base + 0) (base + (n - 1)) d) (base + b) (base + (n - 2)) d)
          base
          d
          i
        ≡ two_off (cell items base d) n b i
  cells_two_off items base n b i big lt room =
      let mid = swapped items (base + 0) (base + (n - 1)) d in
      let size = length-swapped items (base + 0) (base + (n - 1)) d in
      cell-swapped mid base b (n - 2) d i (omega (arith, size)) (omega (arith, size))
      ∙ exchanged_cells b (n - 2) i
          (λ k. cell-swapped items base 0 (n - 1) d k (omega arith) (omega arith))

  -- How the loop of a heap sort ends.
  abbrev pub Ends : List A → ℕ → ℕ → ℕ → Option (List A × ℕ) → Type ℓ
  Ends items base n count run =
      (ys : List A) × (m : ℕ) × (run ≡ some (ys, m))
      × (m ≤ n)
      × Permuted d base (base + count) items ys
      × Tail less m count (cell ys base d)

  pub pop_two-Ends :
      (fuel : ℕ) (items : List A) (base n count : ℕ)
      → n < fuel
      → n ≤ count
      → base + count ≤ length items
      → (insertion_sort_to < n → HeapFrom less 0 n (cell items base d))
      → Tail less n count (cell items base d)
      → Ends items base n count (pop_two less fuel items base n)
  pop_two-Ends zero items base n count enough le room h t = absurd (omega arith)
  pop_two-Ends (suc fuel) items base n count enough le room h t =
      elim (dec_lt insertion_sort_to n) [
        | no small ↦ (
          items,
          n,
          pop_end fuel items base n (omega arith),
          omega arith,
          Permuted-refl d base (base + count) items,
          t,
        )
        | yes big ↦
            let f = cell items base d in
            let (b, is_b, b_lo, b_hi, one, two) = larger_child f in
            let heap = h big in
            let w1 = swapped items (base + 0) (base + (n - 1)) d in
            let w = swapped w1 (base + b) (base + (n - 2)) d in
            let size1 = length-swapped items (base + 0) (base + (n - 1)) d in
            let size = length-swapped w1 (base + b) (base + (n - 2)) d in
            let same =
              λ (i : ℕ). cells_two_off items base n b i (omega arith) (omega arith) (omega arith) in
            let (ys, run, p, h1) =
              bubble_down-Heaps less order d (n - 2) w base b (n - 2) 1 b_lo (omega arith)
                (omega arith) (omega (arith, size, size1))
                (Sifting-cells less order d same
                  (two_off-Sifting f n b (omega arith) b_lo b_hi (omega arith) heap)) in
            let (zs, run', q, h0) =
              bubble_down-Heaps less order d (n - 2) ys base 0 (n - 2) 0 (omega arith) (omega arith)
                (omega arith) (omega (arith, p.same_length, size, size1)) (one_more less h1) in
            let pq = Permuted-trans d p q in
            let t' = Permuted-Tail less d base (n - 2) count w zs pq (
              Tail-cells less same (
                two_off-Tail f n count b (omega arith) le b_lo b_hi heap (under f n b heap one two)
                  t)) in
            let (out, m, run'', m_le, r, t'') =
              pop_two-Ends fuel zs base (n - 2) count (omega arith) (omega arith)
                (omega (arith, pq.same_length, size, size1)) (λ _. h0) t' in
            (
              out,
              m,
              pop_step fuel items base n b ys zs big (omega arith) is_b (omega arith) run run'
                  ∙ run'',
              omega arith,
              Permuted-trans d
                  (Permuted-trans d
                    (swapped-Permuted d base (base + count) (base + 0) (base + (n - 1)) items
                      (omega arith) (omega arith) (omega arith) (omega arith) room)
                    (Permuted-trans d
                      (swapped-Permuted d base (base + count) (base + b) (base + (n - 2)) w1
                        (omega arith) (omega arith) (omega arith) (omega arith)
                        (omega (arith, size1)))
                      (Permuted-wide d base (base + count) (omega arith) (omega arith) pq)))
                  r,
              t'',
            )
      ]
