-- ===== src/Sort/Sink.antt =====
-- The first phase of heap_bubble_down_two_phase.
use cbasis.Base.{
  ℕ, zero, suc, ◌+◌, ◌-◌, ◌*◌, ◌/◌, ◌<◌, ◌≤◌, ◌≡◌, ◌≢◌, inl, inr, sym, ap₂, subst, ◌∙◌, Bool,
  Bool-cases, List, length, set, length-set, get_or-set_ne, if◌then◌else◌, Option, some, store-set,
  get_elem?-eq-get_or, arith,
}
use native.Mathlib.Decide.{dec_lt}
use cbasis.Sort.{sink}
use cbasis.Sort.Order.{StrictWeak, Le, le_refl}
use cbasis.Sort.BubbleDown.{cell, cell-swapped}
use cbasis.Sort.Insertion.{hole_swap}
use cbasis.Sort.Hole.{Sinking, sink-Sinking}
use cbasis.Sort.Permuted.{Permuted, Permuted-refl, Permuted-trans, swapped-Permuted}

module _ {ℓ} {A : Type ℓ} (less : A → A → Bool) where
  pub Sinking-cells :
      {n hole : ℕ} {f g : ℕ → A}
      → ((i : ℕ) → g i ≡ f i)
      → Sinking less n hole f
      → Sinking less n hole g
  Sinking-cells same s = record {
    edges = λ p c np nc lo hi lt. ground (arith, same p, same c, s.edges p c);
    bridge = λ p c lo hi clo chi lt. ground (arith, same p, same c, s.bridge p c);
    top = λ c lt nc nh. ground (arith, same 0, same c, s.top c);
  }

module _ {ℓ} {A : Type ℓ} (less : A → A → Bool) (order : StrictWeak less) (d : A) where
  -- The place of the larger child.
  larger :
      (f : ℕ → A) (hole : ℕ)
      → (i : ℕ) × ((if less (f (2 * hole + 2)) (f (2 * hole + 1))
            then 2 * hole + 1
            else 2 * hole + 2)
          ≡ i)
        × (2 * hole + 1 ≤ i)
        × (i ≤ 2 * hole + 2)
        × Le less (f (2 * hole + 1)) (f i)
        × Le less (f (2 * hole + 2)) (f i)
  larger f hole = elim (Bool-cases (less (f (2 * hole + 2)) (f (2 * hole + 1)))) [
    | inl lt ↦ (
      2 * hole + 1,
      ground arith,
      omega arith,
      omega arith,
      le_refl less order (f (2 * hole + 1)),
      order.asym (f (2 * hole + 2)) (f (2 * hole + 1)) lt,
    )
    | inr le ↦ (
      2 * hole + 2,
      ground arith,
      omega arith,
      omega arith,
      le,
      le_refl less order (f (2 * hole + 2)),
    )
  ]

  sink_end :
      (fuel : ℕ) (items : List A) (base hole m : ℕ)
      → m ≤ hole
      → sink less (suc fuel) items base hole m ≡ some (items, hole)
  unfolding sink
  sink_end fuel items base hole m le = ground arith

  sink_step :
      (fuel : ℕ) (items : List A) (base hole m i : ℕ)
      → hole < m
      → base + (2 * hole + 2) < length items
      → (if less (cell items base d (2 * hole + 2)) (cell items base d (2 * hole + 1))
          then 2 * hole + 1
          else 2 * hole + 2)
        ≡ i
      → sink less (suc fuel) items base hole m
        ≡ sink less fuel (set items (base + hole) (cell items base d i)) base i m
  unfolding sink
  sink_step fuel items base hole m i lt room is_i =
      let load_right = get_elem?-eq-get_or items (base + (2 * hole + 2)) d room in
      let load_left = get_elem?-eq-get_or items (base + (2 * hole + 1)) d (omega arith) in
      elim (Bool-cases
        (less (cell items base d (2 * hole + 2)) (cell items base d (2 * hole + 1)))) [
          | inl left ↦ ground (
            arith,
            load_right,
            load_left,
            store-set items (base + hole) (cell items base d (2 * hole + 1)),
          )
          | inr right ↦ ground (
            arith,
            load_right,
            load_left,
            store-set items (base + hole) (cell items base d (2 * hole + 2)),
          )
        ]

  abbrev pub Sinks : List A → ℕ → ℕ → A → Option (List A × ℕ) → Type ℓ
  Sinks w base n v run =
      (ys : List A) × (h : ℕ) × (run ≡ some (ys, h))
      × Permuted d base (base + n) w (set ys (base + h) v)
      × Sinking less n h (cell (set ys (base + h) v) base d)
      × ((n - 1) / 2 ≤ h)
      × (h < n)
      × (length ys ≡ length w)

  pub sink-Sinks :
      (fuel : ℕ) (items : List A) (base n hole : ℕ) (v : A)
      → hole < n
      → n ≤ hole + fuel
      → base + n ≤ length items
      → Sinking less n hole (cell (set items (base + hole) v) base d)
      → Sinks (set items (base + hole) v) base n v (sink less fuel items base hole ((n - 1) / 2))
  sink-Sinks zero items base n hole v lt enough room s = absurd (omega arith)
  sink-Sinks (suc fuel) items base n hole v lt enough room s =
      let w = set items (base + hole) v in
      let size = length-set items (base + hole) v in
      elim (dec_lt hole ((n - 1) / 2)) [
        | no leaf ↦ (
          items,
          hole,
          sink_end fuel items base hole ((n - 1) / 2) (omega arith),
          Permuted-refl d base (base + n) w,
          s,
          omega arith,
          lt,
          sym size,
        )
        | yes inner ↦
            let (i, is_i, lo, hi, left, right) = larger (cell w base d) hole in
            let other = λ (k : ℕ) (ne : hole ≢ k).
              get_or-set_ne items (base + hole) (base + k) v d (λ e. ne (omega arith)) in
            let moved =
              hole_swap items (base + hole) (base + i) v d (omega arith) (λ e. omega arith) in
            let s' =
              Sinking-cells less
                (λ k. cell-swapped w base hole i d k (omega (arith, size)) (omega (arith, size)))
                (sink-Sinking less order n hole i (cell w base d) s lo hi (omega arith) left
                  right) in
            let items' = set items (base + hole) (cell items base d i) in
            let (ys, h, run, p, s'', leaf, h_lt, size'') =
              sink-Sinks fuel items' base n i v (omega arith) (omega arith)
                (omega (arith, length-set items (base + hole) (cell items base d i)))
                (subst (λ z. Sinking less n i (cell z base d)) (sym moved) s') in
            (
              ys,
              h,
              sink_step fuel items base hole ((n - 1) / 2) i inner (omega arith) (
                    ap₂ (λ x y. if less x y then 2 * hole + 1 else 2 * hole + 2)
                      (sym (other (2 * hole + 2) (λ e. omega arith)))
                      (sym (other (2 * hole + 1) (λ e. omega arith)))
                    ∙ is_i)
                  ∙ run,
              Permuted-trans d
                  (swapped-Permuted d base (base + n) (base + hole) (base + i) w (omega arith)
                    (omega arith) (omega arith) (omega arith) (omega (arith, size)))
                  (subst (λ z. Permuted d base (base + n) z (set ys (base + h) v)) moved p),
              s'',
              leaf,
              h_lt,
              omega (
                arith,
                size'',
                size,
                length-set items' (base + i) v,
                length-set items (base + hole) (cell items base d i),
              ),
            )
      ]
