-- ===== src/Sort/TwoPhase.antt =====
-- The second phase of heap_bubble_down_two_phase, and both.
use cbasis.Base.{
  ℕ, zero, suc, ◌+◌, ◌-◌, ◌/◌, ◌<◌, ◌≤◌, ◌≡◌, ◌⊎◌, inl, inr, sym, ap₂, subst, ◌∙◌, Bool, true,
  false, Bool-cases, List, length, set, length-set, get_or-set_self, get_or-set_ne, Option, some,
  store-set, get_elem?-eq-get_or, arith,
}
use native.Mathlib.Decide.{dec_lt}
use cbasis.Sort.{rise, bubble_down_two_phase}
use cbasis.Sort.Order.{StrictWeak}
use cbasis.Sort.BubbleDown.{cell, cell-swapped}
use cbasis.Sort.Insertion.{hole_swap}
use cbasis.Sort.Hole.{Sinking, Rising, Loose, Sinking-Rising, rise-Rising, Rising-Loose}
use cbasis.Sort.Permuted.{Permuted, Permuted-refl, Permuted-trans, swapped-Permuted}
use cbasis.Sort.Sink.{sink-Sinks}

module _ {ℓ} {A : Type ℓ} (less : A → A → Bool) where
  Rising-cells :
      {n hole : ℕ} {f g : ℕ → A}
      → ((i : ℕ) → g i ≡ f i)
      → Rising less n hole f
      → Rising less n hole g
  Rising-cells same s = record {
    edges = λ p c nc lo hi lt. ground (arith, same p, same c, s.edges p c);
    bridge = λ p c lo hi clo chi lt. ground (arith, same p, same c, s.bridge p c);
    top = λ c lt nc. ground (arith, same 0, same c, s.top c);
  }

module _ {ℓ} {A : Type ℓ} (less : A → A → Bool) (order : StrictWeak less) (d : A) where
  rise_end :
      (fuel : ℕ) (items : List A) (base : ℕ) (v : A) (hole : ℕ)
      → base + hole < length items
      → (hole ≡ 0) ⊎ (less (cell items base d ((hole - 1) / 2)) v ≡ false)
      → rise less (suc fuel) items base v 0 hole ≡ some (set items (base + hole) v)
  unfolding rise
  rise_end fuel items base v hole room why = ground (
    arith,
    why,
    get_elem?-eq-get_or items (base + (hole - 1) / 2) d,
    store-set items (base + hole) v,
  )

  rise_step :
      (fuel : ℕ) (items : List A) (base : ℕ) (v : A) (hole : ℕ)
      → base + hole < length items
      → 0 < hole
      → less (cell items base d ((hole - 1) / 2)) v ≡ true
      → rise less (suc fuel) items base v 0 hole
        ≡ rise less fuel
            (set items (base + hole) (cell items base d ((hole - 1) / 2)))
            base
            v
            0
            ((hole - 1) / 2)
  unfolding rise
  rise_step fuel items base v hole room pos lt = ground (
    arith,
    lt,
    get_elem?-eq-get_or items (base + (hole - 1) / 2) d,
    store-set items (base + hole) (cell items base d ((hole - 1) / 2)),
  )

  -- The result of a step that leaves a heap but for the last cell.
  abbrev pub Loosens : List A → ℕ → ℕ → Option (List A) → Type ℓ
  Loosens w base n run =
      (ys : List A) × (run ≡ some ys)
      × Permuted d base (base + n) w ys
      × Loose less n (cell ys base d)

  rise-Loosens :
      (fuel : ℕ) (items : List A) (base n hole : ℕ) (v : A)
      → hole < n
      → hole < fuel
      → base + n ≤ length items
      → Rising less n hole (cell (set items (base + hole) v) base d)
      → Loosens (set items (base + hole) v) base n (rise less fuel items base v 0 hole)
  rise-Loosens zero items base n hole v lt enough room s = absurd (omega arith)
  rise-Loosens (suc fuel) items base n hole v lt enough room s =
      let w = set items (base + hole) v in
      let q = (hole - 1) / 2 in
      let size = length-set items (base + hole) v in
      elim (dec_lt 0 hole) [
        | no root ↦ (
          w,
          rise_end fuel items base v hole (omega arith) (inl (omega arith)),
          Permuted-refl d base (base + n) w,
          Rising-Loose less order n hole (cell w base d) s lt (inl (omega arith)),
        )
        | yes pos ↦
            let at_q = get_or-set_ne items (base + hole) (base + q) v d (λ e. omega arith) in
            let at_hole = get_or-set_self items (base + hole) v d (omega arith) in
            elim (Bool-cases (less (cell items base d q) v)) [
              | inr fits ↦ (
                w,
                rise_end fuel items base v hole (omega arith) (inr fits),
                Permuted-refl d base (base + n) w,
                Rising-Loose less order n hole (cell w base d) s lt
                    (inr (q, omega arith, omega arith, ap₂ less at_q at_hole ∙ fits)),
              )
              | inl up ↦
                  let items' = set items (base + hole) (cell items base d q) in
                  let moved =
                    hole_swap items (base + hole) (base + q) v d (omega arith) (λ e. omega arith) in
                  let s' =
                    Rising-cells less
                      (λ k.
                        cell-swapped w base hole q d k (omega (arith, size)) (omega (arith, size)))
                      (rise-Rising less order n hole q (cell w base d) s (omega arith) (omega arith)
                        lt (ap₂ less at_q at_hole ∙ up)) in
                  let (ys, run, p, loose) =
                    rise-Loosens fuel items' base n q v (omega arith) (omega arith)
                      (omega (arith, length-set items (base + hole) (cell items base d q)))
                      (subst (λ z. Rising less n q (cell z base d)) (sym moved) s') in
                  (
                    ys,
                    rise_step fuel items base v hole (omega arith) pos up ∙ run,
                    Permuted-trans d
                        (swapped-Permuted d base (base + n) (base + hole) (base + q) w (omega arith)
                          (omega arith) (omega arith) (omega arith) (omega (arith, size)))
                        (subst (λ z. Permuted d base (base + n) z ys) moved p),
                    loose,
                  )
            ]
      ]

  -- Both phases.
  pub bubble_down_two_phase-Loosens :
      (items : List A) (base n : ℕ) (v : A)
      → 2 < n
      → base + n ≤ length items
      → Sinking less n 0 (cell (set items (base + 0) v) base d)
      → Loosens (set items (base + 0) v) base n (bubble_down_two_phase less items base v 0 n)
  unfolding bubble_down_two_phase
  bubble_down_two_phase-Loosens items base n v big room s =
      let (mid, h, run, p, s', leaf, h_lt, size) =
        sink-Sinks less order d (n + 1) items base n 0 v (omega arith) (omega arith) room s in
      let (ys, run', q, loose) =
        rise-Loosens (n + 1) mid base n h v h_lt (omega arith)
          (omega (arith, size, length-set items (base + 0) v))
          (Sinking-Rising less order n h (cell (set mid (base + h) v) base d) s' leaf
            (λ e. omega arith)) in
      (ys, ground (arith, run, run'), Permuted-trans d p q, loose)
