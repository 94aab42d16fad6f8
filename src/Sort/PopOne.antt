-- ===== src/Sort/PopOne.antt =====
-- The loop of heap_sort that takes one item off the heap.
use cbasis.Base.{
  ℕ, zero, suc, ◌+◌, ◌-◌, ◌<◌, ◌≤◌, ◌≡◌, refl, sym, ap, subst, ◌∙◌, Bool, List, length, set,
  length-set, some, store-set, swapped, length-swapped, get_elem?-eq-get_or, arith,
}
use native.Mathlib.Decide.{ℕ_discrete, dec_lt}
use cbasis.Sort.{bubble_down_two_phase, pop_one, insertion_sort_to}
use cbasis.Sort.Order.{StrictWeak, Le, le_refl}
use cbasis.Sort.Heap.{exchanged, HeapFrom}
use cbasis.Sort.BubbleDown.{cell, cell-swapped}
use cbasis.Sort.Hole.{Sinking, Loose}
use cbasis.Sort.Sink.{Sinking-cells}
use cbasis.Sort.TwoPhase.{bubble_down_two_phase-Loosens}
use cbasis.Sort.PopTwo.{Ends}
use cbasis.Sort.MakeHeap.{dominates}
use cbasis.Sort.Tail.{Tail, Tail-cells, Permuted-Tail}
use cbasis.Sort.Permuted.{Permuted-refl, Permuted-trans, Permuted-wide, swapped-Permuted}

module _ {ℓ} {A : Type ℓ} (less : A → A → Bool) (order : StrictWeak less) (d : A) where
  pub Heap-Loose : (n : ℕ) (f : ℕ → A) → 2 < n → HeapFrom less 0 n f → Loose less n f
  Heap-Loose n f big h = record {
    edges = λ p c kp lo hi lt. h p c kp lo hi (omega arith);
    top = λ c lt. elim (ℕ_discrete c 0) [
      | yes e ↦ subst (λ k. Le less (f k) (f 0)) (sym e) (le_refl less order (f 0))
      | no ne ↦
          dominates less order (suc c) n 0 c f (λ p k kp lo hi klt. h p k (omega arith) lo hi klt)
            (h 0 1 (omega arith) (omega arith) (omega arith) (omega arith))
            (h 0 2 (omega arith) (omega arith) (omega arith) (omega arith)) lt (omega arith)
            (omega arith)
    ];
  }

  Loose-Sinking : (n : ℕ) (f : ℕ → A) → Loose less (n + 1) f → Sinking less n 0 (exchanged f n 0)
  Loose-Sinking n f l = record {
    edges = λ p c np nc lo hi lt. ground (arith, l.edges p c);
    bridge = λ p c lo hi clo chi lt. absurd (omega arith);
    top = λ c lt nc nh. absurd (nh refl);
  }

  exchanged-Tail :
      (f : ℕ → A) (n count : ℕ)
      → n < count
      → Loose less (n + 1) f
      → Tail less (n + 1) count f
      → Tail less n count (exchanged f n 0)
  exchanged-Tail f n count le l t = record {
    tail = λ i j ni ij jc. ground (arith, t.tail i j, t.below 0 j, t.below n j);
    below = λ i j ni nj jc. ground (arith, l.top i, l.top n, t.below i j, t.below n j);
  }

  pop_end :
      (fuel : ℕ) (items : List A) (base n : ℕ)
      → n ≤ insertion_sort_to
      → pop_one less (suc fuel) items base n ≡ some (items, n)
  unfolding pop_one
  pop_end fuel items base n small = ground arith

  pop_step :
      (fuel : ℕ) (items : List A) (base n : ℕ) (ys : List A)
      → insertion_sort_to < n + 1
      → base + (n + 1) ≤ length items
      → bubble_down_two_phase less
          (set items (base + n) (cell items base d 0))
          base
          (cell items base d n)
          0
          n
        ≡ some ys
      → pop_one less (suc fuel) items base (n + 1) ≡ pop_one less fuel ys base n
  unfolding pop_one
  pop_step fuel items base n ys big room run =
      let back : n + 1 - 1 ≡ n = omega arith in
      ground (
        arith,
        get_elem?-eq-get_or items (base + n) d,
        get_elem?-eq-get_or items (base + 0) d,
        store-set items (base + n) (cell items base d 0),
        back,
        run,
      )

  pub pop_one-Ends :
      (fuel : ℕ) (items : List A) (base n count : ℕ)
      → n < fuel
      → n ≤ count
      → base + count ≤ length items
      → (insertion_sort_to < n → Loose less n (cell items base d))
      → Tail less n count (cell items base d)
      → Ends less order d items base n count (pop_one less fuel items base n)
  pop_one-Ends zero items base n count enough le room h t = absurd (omega arith)
  pop_one-Ends (suc fuel) items base zero count enough le room h t = (
    items,
    zero,
    pop_end fuel items base zero (omega arith),
    omega arith,
    Permuted-refl d base (base + count) items,
    t,
  )
  pop_one-Ends (suc fuel) items base (suc n) count enough le room h t =
      elim (dec_lt insertion_sort_to (suc n)) [
        | no small ↦ (
          items,
          suc n,
          pop_end fuel items base (suc n) (omega arith),
          omega arith,
          Permuted-refl d base (base + count) items,
          t,
        )
        | yes big ↦
            let f = cell items base d in
            let next : suc n ≡ n + 1 = omega arith in
            let loose = subst (λ k. Loose less k f) next (h big) in
            let w = swapped items (base + n) (base + 0) d in
            let size = length-swapped items (base + n) (base + 0) d in
            let same = λ (i : ℕ). cell-swapped items base n 0 d i (omega arith) (omega arith) in
            let (ys, run, p, loose') =
              bubble_down_two_phase-Loosens less order d (set items (base + n) (f 0)) base n (f n)
                (omega arith) (omega (arith, length-set items (base + n) (f 0)))
                (Sinking-cells less same (Loose-Sinking n f loose)) in
            let t' = Permuted-Tail less d base n count w ys p (
              Tail-cells less same (
                exchanged-Tail f n count (omega arith) loose
                  (subst (λ k. Tail less k count f) next t))) in
            let (out, m, run', m_le, q, t'') =
              pop_one-Ends fuel ys base n count (omega arith) (omega arith)
                (omega (arith, p.same_length, size)) (λ _. loose') t' in
            (
              out,
              m,
              ap (pop_one less (suc fuel) items base) next
                  ∙ pop_step fuel items base n ys (omega arith) (omega arith) run
                  ∙ run',
              omega arith,
              Permuted-trans d
                  (Permuted-trans d
                    (swapped-Permuted d base (base + count) (base + n) (base + 0) items
                      (omega arith) (omega arith) (omega arith) (omega arith) room)
                    (Permuted-wide d base (base + count) (omega arith) (omega arith) p))
                  q,
              t'',
            )
      ]
