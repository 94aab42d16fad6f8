-- ===== src/Sort/BubbleDown.antt =====
-- heap_bubble_down_traditional makes a heap of a range that is one but for its top.
use cbasis.Base.{
  ℕ, zero, suc, ◌+◌, ◌*◌, ◌<◌, ◌≤◌, ◌≡◌, ◌≢◌, ◌⊎◌, inl, inr, refl, sym, ap, ap₂, subst, ◌∙◌, Bool,
  true, Bool-cases, List, length, get_or, set, length-set, swapped, get_or-swapped, length-swapped,
  ◌==◌, if◌then◌else◌, Option, some, store-set, get_elem?-eq-get_or, arith,
}
use native.Mathlib.Decide.{ℕ_discrete, dec_lt}
use cbasis.Sort.{bigger_of, swap_items, bubble_down}
use cbasis.Sort.Order.{StrictWeak, Le, le_refl, lt_of_lt_le}
use cbasis.Sort.Heap.{exchanged, HeapFrom, Sifting, Sifting-edges, exchanged-Sifting}
use cbasis.Sort.Permuted.{Permuted, Permuted-refl, Permuted-trans, swapped-Permuted}

-- The cells of a range, from 0 on.
abbrev pub cell {ℓ} : {A : Type ℓ} → List A → ℕ → A → ℕ → A
cell items base d k = get_or items (base + k) d

pub swap_items-swapped {ℓ} :
    {A : Type ℓ} (less : A → A → Bool) (items : List A) (i j : ℕ) (d : A)
    → i < length items
    → j < length items
    → swap_items less items i j ≡ some (swapped items i j d)
unfolding swap_items
swap_items-swapped less items i j d hi hj = ground (
  arith,
  get_elem?-eq-get_or items i d,
  get_elem?-eq-get_or items j d,
  store-set items i (get_or items j d),
  store-set (set items i (get_or items j d)) j (get_or items i d),
  length-set items i (get_or items j d),
)

same_offset : (base j k : ℕ) → (base + j == base + k) ≡ (j == k)
same_offset base j k = ground arith

pub cell-swapped {ℓ} :
    {A : Type ℓ} (items : List A) (base i j : ℕ) (d : A) (k : ℕ)
    → base + i < length items
    → base + j < length items
    → cell (swapped items (base + i) (base + j) d) base d k ≡ exchanged (cell items base d) i j k
cell-swapped items base i j d k hi hj =
    get_or-swapped items (base + i) (base + j) (base + k) d hi hj
    ∙ ap₂
        (λ t u.
          if t then cell items base d i else if u then cell items base d j else cell items base d k)
        (same_offset base j k) (same_offset base i k)

module _ {ℓ} {A : Type ℓ} (less : A → A → Bool) (order : StrictWeak less) (d : A) where
  -- What one comparison with a child gives.
  record Picked (f : ℕ → A) (last m child r : ℕ) : Type 0 where
    pub is : (r ≡ m) ⊎ ((r ≡ child) × (child < last) × (less (f m) (f child) ≡ true))
    pub covers : child < last → Le less (f child) (f r)

  picked :
      (items : List A) (base last m child : ℕ)
      → m < last
      → base + last ≤ length items
      → (r : ℕ) × (bigger_of less items base last m child ≡ some r)
        × Picked (cell items base d) last m child r
  unfolding bigger_of
  picked items base last m child lt room = elim (dec_lt child last) [
    | no outside ↦ (m, ground arith, record { is = inl refl; covers = λ h. absurd (outside h) })
    | yes inside ↦ elim (Bool-cases (less (cell items base d m) (cell items base d child))) [
      | inl bigger ↦ (
        child,
        ground (
          arith,
          get_elem?-eq-get_or items (base + m) d,
          get_elem?-eq-get_or items (base + child) d,
        ),
        record {
          is = inr (refl, inside, bigger);
          covers = λ h. le_refl less order (cell items base d child);
        },
      )
      | inr not_bigger ↦ (
        m,
        ground (
          arith,
          get_elem?-eq-get_or items (base + m) d,
          get_elem?-eq-get_or items (base + child) d,
        ),
        record { is = inl refl; covers = λ h. not_bigger },
      )
    ]
  ]

  -- What both give.
  abbrev Chosen : (ℕ → A) → ℕ → ℕ → ℕ → Type 0
  Chosen f last top m =
      ((m ≡ top) × ((c : ℕ) → 2 * top + 1 ≤ c → c ≤ 2 * top + 2 → c < last → Le less (f c) (f top)))
      ⊎ ((2 * top + 1 ≤ m)
          × (m ≤ 2 * top + 2)
          × (m < last)
          × (less (f top) (f m) ≡ true)
          × ((c : ℕ) → 2 * top + 1 ≤ c → c ≤ 2 * top + 2 → c < last → Le less (f c) (f m)))

  two_children :
      (P : ℕ → Type 0) (top : ℕ)
      → P (2 * top + 1)
      → P (2 * top + 2)
      → (c : ℕ) → 2 * top + 1 ≤ c
      → c ≤ 2 * top + 2
      → P c
  two_children P top left right c lo hi = elim (ℕ_discrete c (2 * top + 1)) [
    | yes e ↦ subst P (sym e) left
    | no ne ↦ subst P (omega arith) right
  ]

  chosen :
      (f : ℕ → A) (last top l m : ℕ)
      → Picked f last top (2 * top + 1) l
      → Picked f last l (2 * top + 2) m
      → Chosen f last top m
  chosen f last top l m p q = elim p.is [
    | inl l_top ↦ elim q.is [
      | inl m_l ↦ inl (
        omega arith,
        two_children (λ c. c < last → Le less (f c) (f top)) top (λ h. ground (arith, p.covers h))
            (λ h. ground (arith, q.covers h)),
      )
      | inr (m_right, inside, lt) ↦ inr (
        omega arith,
        omega arith,
        omega arith,
        ground arith,
        two_children (λ c. c < last → Le less (f c) (f m)) top
            (λ h.
              order.trans (f (2 * top + 1)) (f top) (f m) (ground (arith, p.covers h))
                (ground (arith, order.asym (f l) (f (2 * top + 2)) lt)))
            q.covers,
      )
    ]
    | inr (l_left, inside, lt) ↦ elim q.is [
      | inl m_l ↦ inr (
        omega arith,
        omega arith,
        omega arith,
        ground arith,
        two_children (λ c. c < last → Le less (f c) (f m)) top (λ h. ground (arith, p.covers h))
            q.covers,
      )
      | inr (m_right, inside', lt') ↦ inr (
        omega arith,
        omega arith,
        omega arith,
        ground (
          arith,
          lt_of_lt_le less order (f top) (f (2 * top + 1)) (f (2 * top + 2)) lt
              (ground (arith, order.asym (f l) (f (2 * top + 2)) lt')),
        ),
        two_children (λ c. c < last → Le less (f c) (f m)) top
            (λ h. ground (arith, order.asym (f l) (f (2 * top + 2)) lt')) q.covers,
      )
    ]
  ]

  -- A heap property of the cells, by cells that agree.
  pub Sifting-cells :
      {k n top : ℕ} {f g : ℕ → A}
      → ((i : ℕ) → g i ≡ f i)
      → Sifting less k n top f
      → Sifting less k n top g
  Sifting-cells same s = record {
    edges = λ p c kp ne lo hi lt. ground (arith, same p, same c, s.edges p c);
    bridge = λ p c kp lo hi clo chi lt. ground (arith, same p, same c, s.bridge p c);
  }

  bubble_stop :
      (fuel : ℕ) (items : List A) (base top last l : ℕ)
      → bigger_of less items base last top (2 * top + 1) ≡ some l
      → bigger_of less items base last l (2 * top + 2) ≡ some top
      → bubble_down less (suc fuel) items base top last ≡ some items
  unfolding bubble_down
  bubble_stop fuel items base top last l run run' = ground (arith, run, run')

  bubble_step :
      (fuel : ℕ) (items : List A) (base top last l m : ℕ)
      → bigger_of less items base last top (2 * top + 1) ≡ some l
      → bigger_of less items base last l (2 * top + 2) ≡ some m
      → m ≢ top
      → base + top < length items
      → base + m < length items
      → bubble_down less (suc fuel) items base top last
        ≡ bubble_down less fuel (swapped items (base + top) (base + m) d) base m last
  unfolding bubble_down
  bubble_step fuel items base top last l m run run' ne ht hm =
      ground (arith, run, run', swap_items-swapped less items (base + top) (base + m) d)

  -- The result of a step that makes a heap of the range.
  abbrev pub Heaps : List A → ℕ → ℕ → ℕ → Option (List A) → Type ℓ
  Heaps items base k last run =
      (ys : List A) × (run ≡ some ys)
      × Permuted d base (base + last) items ys
      × HeapFrom less k last (cell ys base d)

  pub bubble_down-Heaps :
      (fuel : ℕ) (items : List A) (base top last k : ℕ)
      → k ≤ top
      → top < last
      → last ≤ top + fuel
      → base + last ≤ length items
      → Sifting less k last top (cell items base d)
      → Heaps items base k last (bubble_down less fuel items base top last)
  bubble_down-Heaps zero items base top last k kt lt enough room s = absurd (omega arith)
  bubble_down-Heaps (suc fuel) items base top last k kt lt enough room s =
      let (l, run, p) = picked items base last top (2 * top + 1) lt room in
      let l_lt : l < last = ground (arith, p.is) in
      let (m, run', q) = picked items base last l (2 * top + 2) l_lt room in
      elim (chosen (cell items base d) last top l m p q) [
        | inl (e, done) ↦ (
          items,
          bubble_stop fuel items base top last l run (run' ∙ ap some e),
          Permuted-refl d base (base + last) items,
          Sifting-edges less s done,
        )
        | inr (lo, hi, inside, up, best) ↦
            let w = swapped items (base + top) (base + m) d in
            let s' =
              Sifting-cells (λ i. cell-swapped items base top m d i (omega arith) (omega arith))
                (exchanged-Sifting less order m s kt lo hi inside up best) in
            let (ys, run'', perm, heap) =
              bubble_down-Heaps fuel w base m last k (omega arith) inside (omega arith)
                (omega (arith, length-swapped items (base + top) (base + m) d)) s' in
            (
              ys,
              bubble_step fuel items base top last l m run run' (λ e. omega arith) (omega arith)
                    (omega arith)
                  ∙ run'',
              Permuted-trans d
                  (swapped-Permuted d base (base + last) (base + top) (base + m) items (omega arith)
                    (omega arith) (omega arith) (omega arith) room)
                  perm,
              heap,
            )
      ]
