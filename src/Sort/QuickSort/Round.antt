-- ===== src/Sort/QuickSort/Round.antt =====
-- One round of quick_sort: the region on top is sorted, or two smaller ones take its place.
use cbasis.Base.{
  ℕ, ◌+◌, ◌-◌, ◌^◌, ◌<◌, ◌≤◌, ◌≡◌, ◌≢◌, ◌⊎◌, inl, inr, subst, Bool, List, ◌∷◌, length, get_or,
  Option, some, to_ℕ, arith,
}
use native.Mathlib.Decide.{dec_lt, ℕ_discrete}
use cbasis.Sort.{insertion_sort, insertion_sort_to}
use cbasis.Sort.QuickSort.{
  Region, split_region, is_highly_unbalanced, push_larger, sort_unbalanced, sort_region,
}
use cbasis.Sort.Order.{StrictWeak, Le, SortedIn}
use cbasis.Sort.Permuted.{Permuted, Permuted-refl, Permuted-trans}
use cbasis.Sort.Insertion.{insertion_sort_sound}
use cbasis.Sort.HeapSort.{heap_sort_sound}
use cbasis.Sort.QuickSort.Partition.{Parted}
use cbasis.Sort.QuickSort.Split.{split_region-Parts}
use cbasis.Sort.QuickSort.Regions.{Together, Disjoint, Ordered, replace-Ordered}
use cbasis.Sort.QuickSort.Depth.{
  size_of, Stacked, work, Halved, Halved-Stacked, Halved-work, push_larger-Halved,
}

Halved-Disjoint :
    (r a b : Region) (rs : List Region) → Halved r a b → Disjoint (r ∷ rs) → Disjoint (a ∷ b ∷ rs)
unfolding Disjoint Together
Halved-Disjoint r a b rs h (clear, rest) = (
  λ x y xy t. elim t [
    | inl (bx, yb) ↦ elim h.apart [ inl e ↦ inr (omega arith) | inr e ↦ inl (omega arith) ]
    | inr t' ↦ elim (clear x y xy t') [
      | inl e ↦ inl (omega (arith, h.a_lo))
      | inr e ↦ inr (omega (arith, h.a_end))
    ]
  ],
  (
    λ x y xy t. elim (clear x y xy t) [
      | inl e ↦ inl (omega (arith, h.b_lo))
      | inr e ↦ inr (omega (arith, h.b_end))
    ],
    rest,
  ),
)

module _ {ℓ} {A : Type ℓ} (less : A → A → Bool) (order : StrictWeak less) (d : A) where
  -- The state between two rounds.
  pub record Pending (count : ℕ) (xs : List A) (rs : List Region) : Type ℓ where
    pub stacked : Stacked count rs
    pub disjoint : Disjoint rs
    pub ordered : Ordered less d xs count rs

  -- What a round gives.
  abbrev Advances : List A → ℕ → Region → List Region → Option (List A × List Region) → Type ℓ
  Advances items count r rs run =
      (ys : List A) × (new : List Region) × (run ≡ some (ys, new))
      × Permuted d r.lo r.end items ys
      × Pending count ys new
      × (work new < work (r ∷ rs))

  -- The region is done.
  done :
      (items ys : List A) (count : ℕ) (r : Region) (rs : List Region)
      → Pending count items (r ∷ rs)
      → Permuted d r.lo r.end items ys
      → SortedIn less ys d r.lo r.end
      → Pending count ys rs × (work rs < work (r ∷ rs))
  unfolding Stacked Disjoint work
  done items ys count r rs s p sorted = (
    record {
      stacked = s.stacked.3;
      disjoint = s.disjoint.1;
      ordered =
          replace-Ordered less d items ys count r rs rs s.stacked.1 p s.disjoint.0 s.ordered
            (λ a b t. t) (λ a b la ab bh. inr (sorted a b la ab bh));
    },
    omega arith,
  )

  sort_unbalanced-Sorted :
      (items : List A) (r : Region) (unbalanced : ℕ)
      → r.lo ≤ r.end
      → r.end ≤ length items
      → SortedIn less items d r.lo r.end ⊎ (unbalanced ≡ 0)
      → (ys : List A) × (sort_unbalanced less r unbalanced items ≡ some ys)
        × Permuted d r.lo r.end items ys
        × SortedIn less ys d r.lo r.end
  unfolding sort_unbalanced
  sort_unbalanced-Sorted items r unbalanced lo end why = elim (ℕ_discrete unbalanced 0) [
    | yes e ↦
        let back : r.lo + (r.end - r.lo) ≡ r.end = omega arith in
        let (ys, run, p, s) =
          heap_sort_sound less order d items r.lo (r.end - r.lo) (omega arith) in
        (
          ys,
          ground (arith, e, run),
          subst (λ n. Permuted d r.lo n items ys) back p,
          subst (SortedIn less ys d r.lo) back s,
        )
    | no ne ↦ elim why [
      | inl s ↦ (items, ground arith, Permuted-refl d r.lo r.end items, s)
      | inr e ↦ absurd (ne e)
    ]
  ]

  small_step :
      (items xs ys : List A) (r : Region) (rs : List Region)
      → size_of r ≤ insertion_sort_to
      → insertion_sort less items r.lo (size_of r) ≡ some xs
      → sort_unbalanced less r r.unbalanced xs ≡ some ys
      → sort_region less items r rs ≡ some (ys, rs)
  unfolding sort_region
  small_step items xs ys r rs small run run' = ground (arith, run, run')

  small-Advances :
      (items : List A) (count : ℕ) (r : Region) (rs : List Region)
      → size_of r ≤ insertion_sort_to
      → count ≤ length items
      → Pending count items (r ∷ rs)
      → Advances items count r rs (sort_region less items r rs)
  unfolding Stacked
  small-Advances items count r rs small room s =
      let (lo, end, fits, rest) = s.stacked in
      let back : r.lo + size_of r ≡ r.end = omega arith in
      let (xs, run, p, sorted) =
        insertion_sort_sound less order d items r.lo (size_of r) (omega arith) in
      let p' = subst (λ n. Permuted d r.lo n items xs) back p in
      let (ys, run', q, sorted') =
        sort_unbalanced-Sorted xs r r.unbalanced lo (omega (arith, p.same_length))
          (inl (subst (SortedIn less xs d r.lo) back sorted)) in
      let pq = Permuted-trans d p' q in
      let (pending, less_work) = done items ys count r rs s pq sorted' in
      (ys, rs, small_step items xs ys r rs small run run', pq, pending, less_work)

  -- What is left of `unbalanced` after a split.
  abbrev left_over : Region → ℕ → ℕ → ℕ
  left_over r i k = r.unbalanced - to_ℕ (is_highly_unbalanced r.lo (r.end - 1) (size_of r) i k)

  heap_step :
      (items zs ys : List A) (r : Region) (rs : List Region) (i k : ℕ)
      → insertion_sort_to < size_of r
      → split_region less items r.lo (r.end - 1) ≡ some (zs, i, k)
      → left_over r i k ≡ 0
      → sort_unbalanced less r (left_over r i k) zs ≡ some ys
      → sort_region less items r rs ≡ some (ys, rs)
  unfolding sort_region
  heap_step items zs ys r rs i k big run e run' = ground (arith, run, e, run')

  push_step :
      (items zs : List A) (r : Region) (rs new : List Region) (i k : ℕ)
      → insertion_sort_to < size_of r
      → split_region less items r.lo (r.end - 1) ≡ some (zs, i, k)
      → left_over r i k ≢ 0
      → push_larger r (left_over r i k) i k rs ≡ some new
      → sort_region less items r rs ≡ some (zs, new)
  unfolding sort_region
  push_step items zs r rs new i k big run ne run' = ground (arith, run, run')

  -- The partition leaves in order what it separates.
  separated :
      (zs : List A) (pivot : A) (r a b : Region) (rs : List Region) (i k : ℕ)
      → k < i
      → Parted less order d zs pivot r.lo r.end i k
      → ((x y : ℕ) → r.lo ≤ x → y < r.end → (y ≤ k) ⊎ (i ≤ x) → Together (a ∷ b ∷ rs) x y)
      → (x y : ℕ) → r.lo ≤ x
      → x < y
      → y < r.end
      → Together (a ∷ b ∷ rs) x y ⊎ Le less (get_or zs x d) (get_or zs y d)
  separated zs pivot r a b rs i k ki s cover x y lx xy ye = elim (dec_lt k y) [
    | no low ↦ inl (cover x y lx ye (inl (omega arith)))
    | yes y_high ↦ elim (dec_lt x i) [
      | no high ↦ inl (cover x y lx ye (inr (omega arith)))
      | yes x_low ↦ inr (
          order.trans (get_or zs x d) pivot (get_or zs y d) (s.low x lx x_low) (s.high y y_high ye))
    ]
  ]

  push-Advances :
      (items zs : List A) (pivot : A) (count : ℕ) (r : Region) (rs : List Region) (i k : ℕ)
      → insertion_sort_to < size_of r
      → count < 2 ^ 63
      → Pending count items (r ∷ rs)
      → split_region less items r.lo (r.end - 1) ≡ some (zs, i, k)
      → Permuted d r.lo r.end items zs
      → k < i
      → Parted less order d zs pivot r.lo r.end i k
      → left_over r i k ≢ 0
      → Advances items count r rs (sort_region less items r rs)
  unfolding Stacked Disjoint Together
  push-Advances items zs pivot count r rs i k big small s run p ki parted ne =
      let (a, b, run', halved, cover) =
        push_larger-Halved count r (left_over r i k) i k rs small s.stacked parted.past_lo
          parted.in_end parted.from_lo parted.past_end ki in
      (
        zs,
        a ∷ b ∷ rs,
        push_step items zs r rs (a ∷ b ∷ rs) i k big run ne run',
        p,
        record {
          stacked = Halved-Stacked count r a b rs halved s.stacked;
          disjoint = Halved-Disjoint r a b rs halved s.disjoint;
          ordered =
              replace-Ordered less d items zs count r rs (a ∷ b ∷ rs) s.stacked.1 p s.disjoint.0
                s.ordered (λ x y t. inr (inr t)) (separated zs pivot r a b rs i k ki parted cover);
        },
        Halved-work r a b rs halved,
      )

  large-Advances :
      (items : List A) (count : ℕ) (r : Region) (rs : List Region)
      → insertion_sort_to < size_of r
      → count ≤ length items
      → count < 2 ^ 63
      → Pending count items (r ∷ rs)
      → Advances items count r rs (sort_region less items r rs)
  unfolding Stacked
  large-Advances items count r rs big room small s =
      let (lo, end, fits, rest) = s.stacked in
      let back : r.end - 1 + 1 ≡ r.end = omega arith in
      let (pivot, (zs, i, k, run, p, ki, parted)) =
        split_region-Parts less order d items r.lo (r.end - 1) (omega arith) (omega arith) in
      let p' = subst (λ n. Permuted d r.lo n items zs) back p in
      let parted' = subst (λ n. Parted less order d zs pivot r.lo n i k) back parted in
      elim (ℕ_discrete (left_over r i k) 0) [
        | no ne ↦ push-Advances items zs pivot count r rs i k big small s run p' ki parted' ne
        | yes e ↦
            let (ys, run', q, sorted) =
              sort_unbalanced-Sorted zs r (left_over r i k) lo (omega (arith, p'.same_length))
                (inr e) in
            let pq = Permuted-trans d p' q in
            let (pending, less_work) = done items ys count r rs s pq sorted in
            (ys, rs, heap_step items zs ys r rs i k big run e run', pq, pending, less_work)
      ]

  pub sort_region-Advances :
      (items : List A) (count : ℕ) (r : Region) (rs : List Region)
      → count ≤ length items
      → count < 2 ^ 63
      → Pending count items (r ∷ rs)
      → Advances items count r rs (sort_region less items r rs)
  sort_region-Advances items count r rs room small s = elim (dec_lt insertion_sort_to (size_of r)) [
    | yes big ↦ large-Advances items count r rs big room small s
    | no few ↦ small-Advances items count r rs (omega arith) room s
  ]
