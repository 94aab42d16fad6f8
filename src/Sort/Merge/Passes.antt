-- ===== src/Sort/Merge/Passes.antt =====
-- merge_sort: a pass of merges doubles the width of the sorted runs.
use cbasis.Base.{
  ℕ, zero, suc, ◌+◌, ◌-◌, ◌*◌, ◌<◌, ◌≤◌, ◌≡◌, min, inl, inr, refl, sym, ap, subst, ◌∙◌, Bool, List,
  length, get_or, Option, some, arith,
}
use native.Mathlib.Decide.{dec_lt, ℕ_discrete}
use cbasis.Sort.Merge.{merge_runs}
use cbasis.Sort.Order.{StrictWeak, SortedIn}
use cbasis.Sort.Merge.Ranges.{tally_range, tally_range-same, tally_range-split}
use cbasis.Sort.Merge.Sound.{merge_sorted_sound}
use cbasis.Sort.Merge.Runs.{RunsSorted, all_runs, next_run, merge_runs_end, merge_runs_step}

module _ {ℓ} {A : Type ℓ} (less : A → A → Bool) (order : StrictWeak less) (d : A) where
  abbrev pub AllRuns : List A → ℕ → ℕ → Type 0
  AllRuns xs n width = (k : ℕ) → SortedIn less xs d (k * width) (min (k * width + width) n)

  first_run :
      (xs : List A) (n width i j : ℕ)
      → i ≡ j * (2 * width)
      → AllRuns xs n width
      → SortedIn less xs d i (i + min width (n - i))
  first_run xs n width i j at s a b la ab bh =
      let even : 2 * j * width ≡ i = omega (arith, at) in
      s (2 * j) a b (omega arith) ab (omega arith)

  second_run :
      (xs : List A) (n width i j : ℕ)
      → i ≡ j * (2 * width)
      → AllRuns xs n width
      → SortedIn less xs d (i + width) (i + width + min width (n - i - width))
  second_run xs n width i j at s a b la ab bh =
      let odd : (2 * j + 1) * width ≡ i + width = omega (arith, at) in
      s (2 * j + 1) a b (omega arith) ab (omega arith)

  -- The second run begins where the first ends, or is empty.
  second_start :
      (p : A → Bool) (xs : List A) (n width i : ℕ)
      → tally_range d p xs (i + width) (min width (n - i - width))
        ≡ tally_range d p xs (i + min width (n - i)) (min width (n - i - width))
  unfolding tally_range
  second_start p xs n width i = elim (ℕ_discrete (min width (n - i - width)) 0) [
    | yes e ↦
        ap (tally_range d p xs (i + width)) e
        ∙ sym (ap (tally_range d p xs (i + min width (n - i))) e)
    | no ne ↦
        let at : i + width ≡ i + min width (n - i) = omega arith in
        ap (λ k. tally_range d p xs k (min width (n - i - width))) at
  ]

  tally_pair :
      (p : A → Bool) (a b c : List A) (i l m : ℕ)
      → tally_range d p b 0 i ≡ tally_range d p a 0 i
      → ((k : ℕ) → k < i → get_or c k d ≡ get_or b k d)
      → tally_range d p c i (l + m) ≡ tally_range d p a i l + tally_range d p a (i + l) m
      → tally_range d p c 0 (i + (l + m)) ≡ tally_range d p a 0 (i + (l + m))
  tally_pair p a b c i l m old same new =
      let at : 0 + i ≡ i = omega arith in
      let kept = tally_range-same d p i b c 0 0 (λ k lt.
        let here : 0 + k ≡ k = omega arith in
        subst (λ j. get_or c j d ≡ get_or b j d) (sym here) (same k lt)) in
      omega (
        arith,
        tally_range-split d p i (l + m) c 0,
        tally_range-split d p i (l + m) a 0,
        tally_range-split d p l m a i,
        ap (λ k. tally_range d p c k (l + m)) at,
        ap (λ k. tally_range d p a k (l + m)) at,
        kept,
        old,
        new,
      )

  -- The result of a pass.
  abbrev pub Passed : List A → List A → ℕ → ℕ → Option (List A) → Type ℓ
  Passed a b width n run =
      (ys : List A) × (run ≡ some ys)
      × (length ys ≡ length b)
      × AllRuns ys n width
      × ((p : A → Bool) → tally_range d p ys 0 n ≡ tally_range d p a 0 n)
      × ((i : ℕ) → n ≤ i → get_or ys i d ≡ get_or b i d)

  pub merge_runs-Passed :
      (fuel : ℕ) (a b : List A) (width i n j : ℕ)
      → i ≡ j * (2 * width)
      → 0 < width
      → 0 < fuel
      → n + 1 ≤ i + fuel
      → n ≤ length a
      → n ≤ length b
      → AllRuns a n width
      → RunsSorted less order d b n (2 * width) j
      → ((p : A → Bool) → tally_range d p b 0 (min i n) ≡ tally_range d p a 0 (min i n))
      → Passed a b (2 * width) n (merge_runs less fuel a b width i n)
  merge_runs-Passed zero a b width i n j at w_pos pos enough room_a room_b s t same =
      absurd (omega arith)
  merge_runs-Passed (suc fuel) a b width i n j at w_pos pos enough room_a room_b s t same =
      elim (dec_lt i n) [
        | no over ↦
            let all : min i n ≡ n = omega arith in
            (
              b,
              merge_runs_end less order d fuel a b width i n (omega arith),
              refl,
              all_runs less order d b n (2 * width) j (omega arith) t,
              λ p. subst (λ k. tally_range d p b 0 k ≡ tally_range d p a 0 k) all (same p),
              λ k le. refl,
            )
        | yes more ↦
            let l = min width (n - i) in
            let m = min width (n - i - width) in
            let part : min i n ≡ i = omega arith in
            let end : i + (l + m) ≡ min (i + 2 * width) n = omega arith in
            let (c, run, size, sorted, items, outside) =
              merge_sorted_sound less order d b a a i i l (i + width) m
                (first_run a n width i j at s) (second_run a n width i j at s) (λ k lt. omega arith)
                (λ k lt. omega arith) (omega arith) in
            let (ys, run', size', s', items', outside') =
              merge_runs-Passed fuel a c width (i + 2 * width) n (j + 1) (omega arith) w_pos
                (omega arith) (omega arith) room_a (omega (arith, size)) s
                (next_run less order d b c n (2 * width) j t (λ k lt. outside k (inl (omega arith)))
                  (λ x y lx xy yh. sorted x y (omega arith) xy (omega arith)))
                (λ p.
                  subst (λ k. tally_range d p c 0 k ≡ tally_range d p a 0 k) end
                    (tally_pair p a b c i l m
                      (subst (λ k. tally_range d p b 0 k ≡ tally_range d p a 0 k) part (same p))
                      (λ k lt. outside k (inl lt))
                      (omega (arith, items p, second_start p a n width i)))) in
            (
              ys,
              merge_runs_step less order d fuel a b c width i n more run ∙ run',
              size' ∙ size,
              s',
              items',
              λ k le. outside' k le ∙ outside k (inr (omega arith)),
            )
      ]
