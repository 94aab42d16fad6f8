-- ===== src/Sort/MakeHeap.antt =====
-- Making the heap.
use cbasis.Base.{
  ℕ, zero, suc, ◌+◌, ◌-◌, ◌/◌, ◌<◌, ◌≤◌, ◌≡◌, refl, sym, subst, ◌∙◌, Bool, List, length, some,
  arith,
}
use native.Mathlib.Decide.{ℕ_discrete, dec_lt}
use cbasis.Sort.{bubble_down, make_heap}
use cbasis.Sort.Order.{StrictWeak, Le}
use cbasis.Sort.Heap.{HeapFrom, Sifting}
use cbasis.Sort.BubbleDown.{cell, Heaps, bubble_down-Heaps}
use cbasis.Sort.Permuted.{Permuted-refl, Permuted-trans}

module _ {ℓ} {A : Type ℓ} (less : A → A → Bool) where
  pub one_more : {n k : ℕ} {f : ℕ → A} → HeapFrom less (suc k) n f → Sifting less k n k f
  one_more h = record {
    edges = λ p c kp ne lo hi lt. h p c (omega arith) lo hi lt;
    bridge = λ p c kp lo hi clo chi lt. absurd (omega arith);
  }

  -- The larger child of the root is no smaller than any other item but the root.
  pub dominates :
      (order : StrictWeak less) (fuel n b c : ℕ) (f : ℕ → A)
      → HeapFrom less 1 n f
      → Le less (f 1) (f b)
      → Le less (f 2) (f b)
      → c < n
      → 1 ≤ c
      → c < fuel
      → Le less (f c) (f b)
  dominates order zero n b c f h one two lt pos enough = absurd (omega arith)
  dominates order (suc fuel) n b c f h one two lt pos enough = elim (dec_lt c 3) [
    | yes small ↦ elim (ℕ_discrete c 1) [
      | yes e ↦ subst (λ k. Le less (f k) (f b)) (sym e) one
      | no ne ↦ subst (λ k. Le less (f k) (f b)) (omega arith) two
    ]
    | no big ↦
        order.trans (f c) (f ((c - 1) / 2)) (f b)
          (h ((c - 1) / 2) c (omega arith) (omega arith) (omega arith) lt)
          (dominates order fuel n b ((c - 1) / 2) f h one two (omega arith) (omega arith)
            (omega arith))
  ]

module _ {ℓ} {A : Type ℓ} (less : A → A → Bool) (order : StrictWeak less) (d : A) where
  make_step :
      (node : ℕ) (items ys : List A) (base item_count : ℕ)
      → node < item_count
      → bubble_down less item_count items base node item_count ≡ some ys
      → make_heap less (suc node) items base item_count ≡ make_heap less node ys base item_count
  unfolding make_heap
  make_step node items ys base item_count lt run = ground (arith, run)

  pub make_heap-Heaps :
      (node : ℕ) (items : List A) (base n : ℕ)
      → node ≤ n
      → base + n ≤ length items
      → HeapFrom less node n (cell items base d)
      → Heaps less order d items base 0 n (make_heap less node items base n)
  unfolding make_heap
  make_heap-Heaps zero items base n le room h =
      (items, refl, Permuted-refl d base (base + n) items, h)
  make_heap-Heaps (suc node) items base n le room h =
      let (mid, run, p, h') =
        bubble_down-Heaps less order d n items base node n node (omega arith) (omega arith)
          (omega arith) room (one_more less h) in
      let (ys, run', q, h'') =
        make_heap-Heaps node mid base n (omega arith) (omega (arith, p.same_length)) h' in
      (ys, make_step node items mid base n (omega arith) run ∙ run', Permuted-trans d p q, h'')
