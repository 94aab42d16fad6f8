-- ===== src/Sort/Heap.antt =====
-- Heaps as numbered items: what the steps of the heap sort do to the order along the edges.
use cbasis.Base.{ℕ, ◌+◌, ◌*◌, ◌<◌, ◌≤◌, ◌≡◌, ◌≢◌, ap, Bool, true, ◌==◌, if◌then◌else◌, arith}
use native.Mathlib.Decide.{ℕ_discrete}
use cbasis.Sort.Order.{StrictWeak, Le}

-- `f` with the items `i` and `j` exchanged.
abbrev pub exchanged {ℓ} : {A : Type ℓ} → (ℕ → A) → ℕ → ℕ → ℕ → A
exchanged f i j k = if j == k then f i else if i == k then f j else f k

module _ {ℓ} {A : Type ℓ} (less : A → A → Bool) where
  -- From the node `k` on, no child below `n` is larger than its parent.
  abbrev pub HeapFrom : ℕ → ℕ → (ℕ → A) → Type 0
  HeapFrom k n f = (p c : ℕ) → k ≤ p → 2 * p + 1 ≤ c → c ≤ 2 * p + 2 → c < n → Le less (f c) (f p)

  -- The same but for the children of `top`, which are at least no larger than its parent.
  pub record Sifting (k n top : ℕ) (f : ℕ → A) : Type 0 where
    pub edges :
        (p c : ℕ) → k ≤ p → p ≢ top → 2 * p + 1 ≤ c → c ≤ 2 * p + 2 → c < n → Le less (f c) (f p)
    pub bridge :
        (p c : ℕ)
        → k ≤ p
        → 2 * p + 1 ≤ top
        → top ≤ 2 * p + 2
        → 2 * top + 1 ≤ c
        → c ≤ 2 * top + 2
        → c < n
        → Le less (f c) (f p)

  pub Sifting-edges :
      {k n top : ℕ} {f : ℕ → A}
      → Sifting k n top f
      → ((c : ℕ) → 2 * top + 1 ≤ c → c ≤ 2 * top + 2 → c < n → Le less (f c) (f top))
      → HeapFrom k n f
  Sifting-edges {top = top} s done p c kp lo hi lt = elim (ℕ_discrete p top) [
    | no ne ↦ s.edges p c kp ne lo hi lt
    | yes e ↦ ground (arith, done c, ap (λ x. x) e)
  ]

  -- Exchanging `top` with the larger of its children.
  pub exchanged-Sifting :
      (order : StrictWeak less) {k n top : ℕ} {f : ℕ → A} (m : ℕ)
      → Sifting k n top f
      → k ≤ top
      → 2 * top + 1 ≤ m
      → m ≤ 2 * top + 2
      → m < n
      → less (f top) (f m) ≡ true
      → ((c : ℕ) → 2 * top + 1 ≤ c → c ≤ 2 * top + 2 → c < n → Le less (f c) (f m))
      → Sifting k n m (exchanged f top m)
  exchanged-Sifting order {k = k} {n = n} {top = top} {f = f} m s kt lo hi lt up best = record {
    edges = λ p c kp ne plo phi clt.
        ground (arith, s.edges p c, s.bridge p m, best c, order.asym (f top) (f m));
    bridge = λ p c kp plo phi clo chi clt. ground (arith, s.edges m c);
  }
