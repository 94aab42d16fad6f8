-- ===== src/Sort/Merge/Loop.antt =====
-- The steps of merge_sorted.
use cbasis.Base.{
  ℕ, zero, suc, ◌+◌, ◌-◌, ◌<◌, ◌≤◌, ◌≡◌, refl, sym, subst, ◌∙◌, Bool, true, false, List, length,
  get_or, set, length-set, some, store-set, get_elem?-eq-get_or, arith,
}
use native.Mathlib.Decide.{ℕ_discrete}
use cbasis.Sort.Merge.{copy_items, merge_loop}
use cbasis.Sort.Order.{StrictWeak, Le, SortedIn}
use cbasis.Sort.Merge.Step.{Merging, Merging-take}

module _ {ℓ} {A : Type ℓ} (less : A → A → Bool) (order : StrictWeak less) (d : A) where
  copy_step :
      (count : ℕ) (output from : List A) (at i at' i' : ℕ)
      → at < length output
      → i < length from
      → at + 1 ≡ at'
      → i + 1 ≡ i'
      → copy_items (suc count) output at from i
        ≡ copy_items count (set output at (get_or from i d)) at' from i'
  unfolding copy_items
  copy_step count output from at i at' i' room room' e e' =
      ground (arith, e, e', get_elem?-eq-get_or from i d, store-set output at (get_or from i d))

  -- What is left of one run, when the other is used up.
  pub copy_items-Merging :
      (left : ℕ) (before output a b : List A) (at total a_at a_len b_at b_len ai bi n : ℕ)
      → Merging less order d before output at total a a_at a_len b b_at b_len ai bi n
      → SortedIn less a d a_at (a_at + a_len)
      → b_len ≤ bi
      → ai + left ≡ a_len
      → ((m : ℕ) → m < a_len → a_at + m < length a)
      → at + n + left ≤ length output
      → n + left ≤ total
      → (ys : List A) × (copy_items left output (at + n) a (a_at + ai) ≡ some ys)
        × Merging less order d before ys at total a a_at a_len b b_at b_len a_len bi (n + left)
  unfolding copy_items
  copy_items-Merging zero before output a b at total a_at a_len b_at b_len ai bi n s sa over e
        room_a room fits =
      let all : ai ≡ a_len = omega arith in
      let same : n ≡ n + zero = omega arith in
      (
        output,
        refl,
        subst
            (λ k.
              Merging less order d before output at total a a_at a_len b b_at b_len k bi (n + zero))
            all
            (subst
              (λ k. Merging less order d before output at total a a_at a_len b b_at b_len ai bi k)
              same s),
      )
  copy_items-Merging (suc left) before output a b at total a_at a_len b_at b_len ai bi n s sa over e
        room_a room fits =
      let x = get_or a (a_at + ai) d in
      let next : n + 1 + left ≡ n + suc left = omega arith in
      let (ys, run, s') =
        copy_items-Merging left before (set output (at + n) x) a b at total a_at a_len b_at b_len
          (ai + 1) bi (n + 1)
          (Merging-take less order d before output a b at total a_at a_len b_at b_len ai bi n s sa
            (omega arith) (omega arith) (omega arith) (λ m lo hi. absurd (omega arith)))
          sa over (omega arith) room_a (omega (arith, length-set output (at + n) x))
          (omega arith) in
      (
        ys,
        copy_step left output a (at + n) (a_at + ai) (at + (n + 1)) (a_at + (ai + 1)) (omega arith)
              (room_a ai (omega arith)) (omega arith) (omega arith)
            ∙ run,
        subst (λ k. Merging less order d before ys at total a a_at a_len b b_at b_len a_len bi k)
            next s',
      )

  pub loop_copy_a :
      (fuel : ℕ) (output a b : List A) (at a_at a_len b_at b_len ai bi : ℕ)
      → ai < a_len
      → b_len ≤ bi
      → merge_loop less (suc fuel) output at a a_at a_len b b_at b_len ai bi
        ≡ copy_items (a_len - ai) output (at + (ai + bi)) a (a_at + ai)
  unfolding merge_loop
  loop_copy_a fuel output a b at a_at a_len b_at b_len ai bi lt le = ground arith

  pub loop_copy_b :
      (fuel : ℕ) (output a b : List A) (at a_at a_len b_at b_len ai bi : ℕ)
      → a_len ≤ ai
      → merge_loop less (suc fuel) output at a a_at a_len b b_at b_len ai bi
        ≡ copy_items (b_len - bi) output (at + (ai + bi)) b (b_at + bi)
  unfolding merge_loop
  loop_copy_b fuel output a b at a_at a_len b_at b_len ai bi le = ground arith

  pub loop_a :
      (fuel : ℕ) (output a b : List A) (at a_at a_len b_at b_len ai bi : ℕ)
      → ai < a_len
      → bi < b_len
      → a_at + ai < length a
      → b_at + bi < length b
      → at + (ai + bi) < length output
      → less (get_or a (a_at + ai) d) (get_or b (b_at + bi) d) ≡ true
      → merge_loop less (suc fuel) output at a a_at a_len b b_at b_len ai bi
        ≡ merge_loop less fuel
            (set output (at + (ai + bi)) (get_or a (a_at + ai) d))
            at
            a
            a_at
            a_len
            b
            b_at
            b_len
            (ai + 1)
            bi
  unfolding merge_loop
  loop_a fuel output a b at a_at a_len b_at b_len ai bi al bl room_a room_b room lt = ground (
    arith,
    lt,
    get_elem?-eq-get_or a (a_at + ai) d,
    get_elem?-eq-get_or b (b_at + bi) d,
    store-set output (at + (ai + bi)) (get_or a (a_at + ai) d),
  )

  pub loop_b :
      (fuel : ℕ) (output a b : List A) (at a_at a_len b_at b_len ai bi : ℕ)
      → ai < a_len
      → bi < b_len
      → a_at + ai < length a
      → b_at + bi < length b
      → at + (ai + bi) < length output
      → less (get_or a (a_at + ai) d) (get_or b (b_at + bi) d) ≡ false
      → merge_loop less (suc fuel) output at a a_at a_len b b_at b_len ai bi
        ≡ merge_loop less fuel
            (set output (at + (ai + bi)) (get_or b (b_at + bi) d))
            at
            a
            a_at
            a_len
            b
            b_at
            b_len
            ai
            (bi + 1)
  unfolding merge_loop
  loop_b fuel output a b at a_at a_len b_at b_len ai bi al bl room_a room_b room ge = ground (
    arith,
    ge,
    get_elem?-eq-get_or a (a_at + ai) d,
    get_elem?-eq-get_or b (b_at + bi) d,
    store-set output (at + (ai + bi)) (get_or b (b_at + bi) d),
  )

  -- What the next item of a sorted run is no larger than.
  pub rest_of_run :
      (xs : List A) (at len i m : ℕ) (x : A)
      → SortedIn less xs d at (at + len)
      → Le less x (get_or xs (at + i) d)
      → i ≤ m
      → m < len
      → Le less x (get_or xs (at + m) d)
  rest_of_run xs at len i m x s le im ml = elim (ℕ_discrete m i) [
    | yes e ↦ subst (λ k. Le less x (get_or xs (at + k) d)) (sym e) le
    | no ne ↦
        order.trans x (get_or xs (at + i) d) (get_or xs (at + m) d) le
          (s (at + i) (at + m) (omega arith) (omega arith) (omega arith))
  ]
