-- ===== src/Sort/Merge/Runs.antt =====
-- merge_sort: arrays of sorted runs of one width, made by insertion sorts and by merges.
use cbasis.Base.{
  ℕ, zero, suc, ◌+◌, ◌-◌, ◌*◌, ◌<◌, ◌≤◌, ◌≡◌, min, inl, ap₂, subst, ◌∙◌, Bool, List, length, get_or,
  some, arith,
}
use native.Mathlib.Nat.{mul-le-mul_right}
use native.Mathlib.Decide.{dec_lt}
use cbasis.Sort.{insertion_sort, insertion_sort_to}
use cbasis.Sort.Merge.{merge_sorted, sort_runs, merge_runs}
use cbasis.Sort.Order.{StrictWeak, SortedIn}
use cbasis.Sort.Permuted.{Permuted, Permuted-refl, Permuted-trans, Permuted-wide}
use cbasis.Sort.Insertion.{insertion_sort_sound}

module _ {ℓ} {A : Type ℓ} (less : A → A → Bool) (order : StrictWeak less) (d : A) where
  -- The runs before the `j`-th are sorted.
  abbrev pub RunsSorted : List A → ℕ → ℕ → ℕ → Type 0
  RunsSorted xs n width j =
      (k : ℕ) → k < j → SortedIn less xs d (k * width) (min (k * width + width) n)

  -- All are, when the next begins behind the end.
  pub all_runs :
      (xs : List A) (n width j : ℕ)
      → n ≤ j * width
      → RunsSorted xs n width j
      → (k : ℕ) → SortedIn less xs d (k * width) (min (k * width + width) n)
  all_runs xs n width j over s k = elim (dec_lt k j) [
    | yes lt ↦ s k lt
    | no ge ↦
        let far : j * width ≤ k * width = mul-le-mul_right width (omega arith) in
        λ a b la ab bh. absurd (omega arith)
  ]

  -- A change of the next run and of nothing before it.
  pub next_run :
      (xs ys : List A) (n width j : ℕ)
      → RunsSorted xs n width j
      → ((i : ℕ) → i < j * width → get_or ys i d ≡ get_or xs i d)
      → SortedIn less ys d (j * width) (min (j * width + width) n)
      → RunsSorted ys n width (j + 1)
  next_run xs ys n width j s same new k lt = elim (dec_lt k j) [
    | no ge ↦
        let e : j ≡ k = omega arith in
        subst (λ i. SortedIn less ys d (i * width) (min (i * width + width) n)) e new
    | yes before ↦
        let full : (k + 1) * width ≤ j * width = mul-le-mul_right width (omega arith) in
        λ a b la ab bh.
          ap₂ less (same b (omega arith)) (same a (omega arith)) ∙ s k before a b la ab bh
  ]

  sort_runs_end :
      (fuel : ℕ) (a : List A) (i n : ℕ) → n ≤ i → sort_runs less (suc fuel) a i n ≡ some a
  unfolding sort_runs
  sort_runs_end fuel a i n le = ground arith

  sort_runs_step :
      (fuel : ℕ) (a b : List A) (i n : ℕ)
      → i < n
      → insertion_sort less a i (min insertion_sort_to (n - i)) ≡ some b
      → sort_runs less (suc fuel) a i n ≡ sort_runs less fuel b (i + insertion_sort_to) n
  unfolding sort_runs
  sort_runs_step fuel a b i n lt run = ground (arith, run)

  pub sort_runs-RunsSorted :
      (fuel : ℕ) (a : List A) (i n j : ℕ)
      → i ≡ j * insertion_sort_to
      → 0 < fuel
      → n + 1 ≤ i + fuel
      → n ≤ length a
      → RunsSorted a n insertion_sort_to j
      → (ys : List A) × (sort_runs less fuel a i n ≡ some ys)
        × Permuted d 0 n a ys
        × ((k : ℕ)
            → SortedIn less ys d
                (k * insertion_sort_to)
                (min (k * insertion_sort_to + insertion_sort_to) n))
  sort_runs-RunsSorted zero a i n j at pos enough room s = absurd (omega arith)
  sort_runs-RunsSorted (suc fuel) a i n j at pos enough room s = elim (dec_lt i n) [
    | no over ↦ (
      a,
      sort_runs_end fuel a i n (omega arith),
      Permuted-refl d 0 n a,
      all_runs a n insertion_sort_to j (omega arith) s,
    )
    | yes more ↦
        let size = min insertion_sort_to (n - i) in
        let end : i + size ≡ min (j * insertion_sort_to + insertion_sort_to) n = omega arith in
        let (b, run, p, sorted) = insertion_sort_sound less order d a i size (omega arith) in
        let (ys, run', q, s') =
          sort_runs-RunsSorted fuel b (i + insertion_sort_to) n (j + 1) (omega arith) (omega arith)
            (omega arith) (omega (arith, p.same_length))
            (next_run a b n insertion_sort_to j s (λ k lt. p.outside k (inl (omega arith)))
              (subst (λ k. SortedIn less b d k (min (j * insertion_sort_to + insertion_sort_to) n))
                at (subst (SortedIn less b d i) end sorted))) in
        (
          ys,
          sort_runs_step fuel a b i n more run ∙ run',
          Permuted-trans d (Permuted-wide d 0 n (omega arith) (omega arith) p) q,
          s',
        )
  ]

  pub merge_runs_end :
      (fuel : ℕ) (a b : List A) (width i n : ℕ)
      → n ≤ i
      → merge_runs less (suc fuel) a b width i n ≡ some b
  unfolding merge_runs
  merge_runs_end fuel a b width i n le = ground arith

  pub merge_runs_step :
      (fuel : ℕ) (a b c : List A) (width i n : ℕ)
      → i < n
      → merge_sorted less b i a i (min width (n - i)) a (i + width) (min width (n - i - width))
        ≡ some c
      → merge_runs less (suc fuel) a b width i n ≡ merge_runs less fuel a c width (i + 2 * width) n
  unfolding merge_runs
  merge_runs_step fuel a b c width i n lt run = ground (arith, run)
