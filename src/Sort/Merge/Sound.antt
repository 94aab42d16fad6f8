-- ===== src/Sort/Merge/Sound.antt =====
-- merge_sorted merges two sorted runs.
use cbasis.Base.{
  ℕ, zero, suc, ◌+◌, ◌-◌, ◌<◌, ◌≤◌, ◌≡◌, ◌⊎◌, inl, inr, refl, subst, ◌∙◌, Bool, Bool-cases, List,
  length, get_or, set, length-set, Option, some, arith,
}
use native.Mathlib.Decide.{dec_lt}
use cbasis.Sort.Merge.{merge_loop, merge_sorted}
use cbasis.Sort.Order.{StrictWeak, SortedIn}
use cbasis.Sort.Merge.Ranges.{tally_range}
use cbasis.Sort.Merge.Step.{Merging, Merging-flip, Merging-take}
use cbasis.Sort.Merge.Loop.{
  copy_items-Merging, loop_copy_a, loop_copy_b, loop_a, loop_b, rest_of_run,
}

module _ {ℓ} {A : Type ℓ} (less : A → A → Bool) (order : StrictWeak less) (d : A) where
  -- A loop that merges all items.
  abbrev Merged : List A → ℕ → List A → ℕ → ℕ → List A → ℕ → ℕ → Option (List A) → Type ℓ
  Merged before at a a_at a_len b b_at b_len run =
      (ys : List A) × (run ≡ some ys)
      × Merging less order d before ys at (a_len + b_len) a a_at a_len b b_at b_len a_len b_len
          (a_len + b_len)

  finish_a :
      (fuel : ℕ) (before output a b : List A) (at a_at a_len b_at b_len ai bi : ℕ)
      → Merging less order d before output at
          (a_len + b_len)
          a
          a_at
          a_len
          b
          b_at
          b_len
          ai
          bi
          (ai + bi)
      → SortedIn less a d a_at (a_at + a_len)
      → ((m : ℕ) → m < a_len → a_at + m < length a)
      → at + (a_len + b_len) ≤ length output
      → ai < a_len
      → bi ≡ b_len
      → Merged before at a a_at a_len b b_at b_len
          (merge_loop less (suc fuel) output at a a_at a_len b b_at b_len ai bi)
  finish_a fuel before output a b at a_at a_len b_at b_len ai bi s sa room_a room al e =
      let left = a_len - ai in
      let all : ai + bi + left ≡ a_len + b_len = omega arith in
      let (ys, run, s') =
        copy_items-Merging less order d left before output a b at (a_len + b_len) a_at a_len b_at
          b_len ai bi (ai + bi) s sa (omega arith) (omega arith) room_a (omega arith)
          (omega arith) in
      (
        ys,
        loop_copy_a less order d fuel output a b at a_at a_len b_at b_len ai bi al (omega arith)
            ∙ run,
        subst
            (λ k.
              Merging less order d before ys at (a_len + b_len) a a_at a_len b b_at b_len a_len k
                (a_len + b_len))
            e
            (subst
              (λ k.
                Merging less order d before ys at (a_len + b_len) a a_at a_len b b_at b_len a_len bi
                  k)
              all s'),
      )

  finish_b :
      (fuel : ℕ) (before output a b : List A) (at a_at a_len b_at b_len ai bi : ℕ)
      → Merging less order d before output at
          (a_len + b_len)
          a
          a_at
          a_len
          b
          b_at
          b_len
          ai
          bi
          (ai + bi)
      → SortedIn less b d b_at (b_at + b_len)
      → ((m : ℕ) → m < b_len → b_at + m < length b)
      → at + (a_len + b_len) ≤ length output
      → ai ≡ a_len
      → bi ≤ b_len
      → Merged before at a a_at a_len b b_at b_len
          (merge_loop less (suc fuel) output at a a_at a_len b b_at b_len ai bi)
  finish_b fuel before output a b at a_at a_len b_at b_len ai bi s sb room_b room e bl =
      let left = b_len - bi in
      let all : ai + bi + left ≡ a_len + b_len = omega arith in
      let (ys, run, s') =
        copy_items-Merging less order d left before output b a at (a_len + b_len) b_at b_len a_at
          a_len bi ai (ai + bi) (Merging-flip less order d s) sb (omega arith) (omega arith) room_b
          (omega arith) (omega arith) in
      (
        ys,
        loop_copy_b less order d fuel output a b at a_at a_len b_at b_len ai bi (omega arith) ∙ run,
        subst
            (λ k.
              Merging less order d before ys at (a_len + b_len) a a_at a_len b b_at b_len k b_len
                (a_len + b_len))
            e
            (subst
              (λ k.
                Merging less order d before ys at (a_len + b_len) a a_at a_len b b_at b_len ai b_len
                  k)
              all (Merging-flip less order d s')),
      )

  merge_loop-Merging :
      (fuel : ℕ) (before output a b : List A) (at a_at a_len b_at b_len ai bi : ℕ)
      → a_len + b_len < fuel + (ai + bi)
      → Merging less order d before output at
          (a_len + b_len)
          a
          a_at
          a_len
          b
          b_at
          b_len
          ai
          bi
          (ai + bi)
      → SortedIn less a d a_at (a_at + a_len)
      → SortedIn less b d b_at (b_at + b_len)
      → ((m : ℕ) → m < a_len → a_at + m < length a)
      → ((m : ℕ) → m < b_len → b_at + m < length b)
      → at + (a_len + b_len) ≤ length output
      → ai ≤ a_len
      → bi ≤ b_len
      → Merged before at a a_at a_len b b_at b_len
          (merge_loop less fuel output at a a_at a_len b b_at b_len ai bi)
  merge_loop-Merging zero before output a b at a_at a_len b_at b_len ai bi enough s sa sb room_a
        room_b room al bl =
      absurd (omega arith)
  merge_loop-Merging (suc fuel) before output a b at a_at a_len b_at b_len ai bi enough s sa sb
        room_a room_b room al bl =
      let total = a_len + b_len in
      let x = get_or a (a_at + ai) d in
      let y = get_or b (b_at + bi) d in
      elim (dec_lt ai a_len) [
        | no a_done ↦
            finish_b fuel before output a b at a_at a_len b_at b_len ai bi s sb room_b room
              (omega arith) bl
        | yes a_left ↦ elim (dec_lt bi b_len) [
          | no b_done ↦
              finish_a fuel before output a b at a_at a_len b_at b_len ai bi s sa room_a room a_left
                (omega arith)
          | yes b_left ↦ elim (Bool-cases (less x y)) [
            | inl lt ↦
                let next : ai + bi + 1 ≡ ai + 1 + bi = omega arith in
                let (ys, run, s') =
                  merge_loop-Merging fuel before (set output (at + (ai + bi)) x) a b at a_at a_len
                    b_at b_len (ai + 1) bi (omega arith)
                    (subst
                      (λ k.
                        Merging less order d before (set output (at + (ai + bi)) x) at total a a_at
                          a_len b b_at b_len (ai + 1) bi k)
                      next
                      (Merging-take less order d before output a b at total a_at a_len b_at b_len ai
                        bi (ai + bi) s sa a_left (omega arith) (omega arith)
                        (λ m lo hi.
                          rest_of_run less order d b b_at b_len bi m x sb (order.asym x y lt) lo
                            hi)))
                    sa sb room_a room_b (omega (arith, length-set output (at + (ai + bi)) x))
                    (omega arith) bl in
                (
                  ys,
                  loop_a less order d fuel output a b at a_at a_len b_at b_len ai bi a_left b_left
                        (room_a ai a_left) (room_b bi b_left) (omega arith) lt
                      ∙ run,
                  s',
                )
            | inr ge ↦
                let next : ai + bi + 1 ≡ ai + (bi + 1) = omega arith in
                let (ys, run, s') =
                  merge_loop-Merging fuel before (set output (at + (ai + bi)) y) a b at a_at a_len
                    b_at b_len ai (bi + 1) (omega arith)
                    (subst
                      (λ k.
                        Merging less order d before (set output (at + (ai + bi)) y) at total a a_at
                          a_len b b_at b_len ai (bi + 1) k)
                      next
                      (Merging-flip less order d (
                        Merging-take less order d before output b a at total b_at b_len a_at a_len
                          bi ai (ai + bi) (Merging-flip less order d s) sb b_left (omega arith)
                          (omega arith)
                          (λ m lo hi. rest_of_run less order d a a_at a_len ai m y sa ge lo hi))))
                    sa sb room_a room_b (omega (arith, length-set output (at + (ai + bi)) y)) al
                    (omega arith) in
                (
                  ys,
                  loop_b less order d fuel output a b at a_at a_len b_at b_len ai bi a_left b_left
                        (room_a ai a_left) (room_b bi b_left) (omega arith) ge
                      ∙ run,
                  s',
                )
          ]
        ]
      ]

  -- merge_sorted of two sorted runs within their arrays, to an output with room for both, returns; the
  -- items it writes are in order, they are those of both runs, each as often, and the output is
  -- unchanged elsewhere.
  pub merge_sorted_sound :
      (output a b : List A) (at a_at a_len b_at b_len : ℕ)
      → SortedIn less a d a_at (a_at + a_len)
      → SortedIn less b d b_at (b_at + b_len)
      → ((m : ℕ) → m < a_len → a_at + m < length a)
      → ((m : ℕ) → m < b_len → b_at + m < length b)
      → at + (a_len + b_len) ≤ length output
      → (ys : List A) × (merge_sorted less output at a a_at a_len b b_at b_len ≡ some ys)
        × (length ys ≡ length output)
        × SortedIn less ys d at (at + (a_len + b_len))
        × ((p : A → Bool)
            → tally_range d p ys at (a_len + b_len)
              ≡ tally_range d p a a_at a_len + tally_range d p b b_at b_len)
        × ((i : ℕ) → (i < at) ⊎ (at + (a_len + b_len) ≤ i) → get_or ys i d ≡ get_or output i d)
  unfolding merge_sorted tally_range
  merge_sorted_sound output a b at a_at a_len b_at b_len sa sb room_a room_b room =
      let (ys, run, s) =
        merge_loop-Merging (a_len + b_len + 1) output output a b at a_at a_len b_at b_len 0 0
          (omega arith)
          (record {
            same_length = refl;
            count = refl;
            sorted = λ i j la ij jh. absurd (omega arith);
            below_a = λ k m ak kh am ml. absurd (omega arith);
            below_b = λ k m ak kh bm ml. absurd (omega arith);
            same_items = λ p. refl;
            outside = λ i o. refl;
          })
          sa sb room_a room_b room (omega arith) (omega arith) in
      (ys, run, s.same_length, s.sorted, s.same_items, s.outside)
