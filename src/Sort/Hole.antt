-- ===== src/Sort/Hole.antt =====
-- A heap with a free place, which first sinks to a leaf and then rises until the item fits.
use cbasis.Base.{
  ℕ, suc, ◌+◌, ◌-◌, ◌*◌, ◌/◌, ◌<◌, ◌≤◌, ◌≡◌, ◌≢◌, ◌⊎◌, inl, inr, sym, subst, Bool, true, arith,
}
use native.Mathlib.Decide.{ℕ_discrete}
use cbasis.Sort.Order.{StrictWeak, Le, le_refl}
use cbasis.Sort.Heap.{exchanged, HeapFrom}
use cbasis.Sort.MakeHeap.{dominates}

module _ {ℓ} {A : Type ℓ} (less : A → A → Bool) where
  -- The first phase at `hole`: nothing is known of the item there.
  pub record Sinking (n hole : ℕ) (f : ℕ → A) : Type 0 where
    pub edges :
        (p c : ℕ)
        → p ≢ hole
        → c ≢ hole
        → 2 * p + 1 ≤ c
        → c ≤ 2 * p + 2
        → c < n
        → Le less (f c) (f p)
    pub bridge :
        (p c : ℕ)
        → 2 * p + 1 ≤ hole
        → hole ≤ 2 * p + 2
        → 2 * hole + 1 ≤ c
        → c ≤ 2 * hole + 2
        → c < n
        → Le less (f c) (f p)
    pub top : (c : ℕ) → c < n → c ≢ hole → hole ≢ 0 → Le less (f c) (f 0)

  -- The second: the item there is no smaller than its children, but for the last cell.
  pub record Rising (n hole : ℕ) (f : ℕ → A) : Type 0 where
    pub edges :
        (p c : ℕ) → c ≢ hole → 2 * p + 1 ≤ c → c ≤ 2 * p + 2 → c < n - 1 → Le less (f c) (f p)
    pub bridge :
        (p c : ℕ)
        → 2 * p + 1 ≤ hole
        → hole ≤ 2 * p + 2
        → 2 * hole + 1 ≤ c
        → c ≤ 2 * hole + 2
        → c < n - 1
        → Le less (f c) (f p)
    pub top : (c : ℕ) → c < n → c ≢ hole → Le less (f c) (f 0)

  -- A heap but for its last cell, with the largest item at the root.
  pub record Loose (n : ℕ) (f : ℕ → A) : Type 0 where
    pub edges : HeapFrom less 0 (n - 1) f
    pub top : (c : ℕ) → c < n → Le less (f c) (f 0)

  module _ (order : StrictWeak less) where
    sibling :
        (f : ℕ → A) (hole i : ℕ)
        → Le less (f (2 * hole + 1)) (f i)
        → Le less (f (2 * hole + 2)) (f i)
        → (c : ℕ) → 2 * hole + 1 ≤ c
        → c ≤ 2 * hole + 2
        → Le less (f c) (f i)
    sibling f hole i left right c lo hi = elim (ℕ_discrete c (2 * hole + 1)) [
      | yes e ↦ subst (λ k. Le less (f k) (f i)) (sym e) left
      | no ne ↦ subst (λ k. Le less (f k) (f i)) (omega arith) right
    ]

    new_root :
        (n i : ℕ) (f : ℕ → A)
        → Sinking n 0 f
        → 1 ≤ i
        → Le less (f 1) (f i)
        → Le less (f 2) (f i)
        → (c : ℕ) → c < n
        → 1 ≤ c
        → Le less (f c) (f i)
    new_root n i f s lo one two c lt pos =
        dominates less order (suc c) n i c f
          (λ p k kp plo phi klt. s.edges p k (λ e. omega arith) (λ e. omega arith) plo phi klt) one
          two lt pos (omega arith)

    sink_top :
        (n hole i : ℕ) (f : ℕ → A)
        → Sinking n hole f
        → 2 * hole + 1 ≤ i
        → i ≤ 2 * hole + 2
        → i < n
        → Le less (f (2 * hole + 1)) (f i)
        → Le less (f (2 * hole + 2)) (f i)
        → (c : ℕ) → c < n
        → c ≢ i
        → Le less (exchanged f hole i c) (exchanged f hole i 0)
    sink_top n hole i f s lo hi lt left right c clt ne = elim (ℕ_discrete hole 0) [
      | yes e ↦ elim (ℕ_discrete c 0) [
        | yes c0 ↦
            subst (λ k. Le less (exchanged f hole i k) (exchanged f hole i 0)) (sym c0)
              (le_refl less order (exchanged f hole i 0))
        | no c_pos ↦ ground (
          arith,
          new_root n i f (subst (λ h. Sinking n h f) e s) (omega arith)
              (subst (λ h. Le less (f (2 * h + 1)) (f i)) e left)
              (subst (λ h. Le less (f (2 * h + 2)) (f i)) e right) c,
        )
      ]
      | no pos ↦ ground (arith, s.top c, s.top i)
    ]

    pub sink-Sinking :
        (n hole i : ℕ) (f : ℕ → A)
        → Sinking n hole f
        → 2 * hole + 1 ≤ i
        → i ≤ 2 * hole + 2
        → i < n
        → Le less (f (2 * hole + 1)) (f i)
        → Le less (f (2 * hole + 2)) (f i)
        → Sinking n i (exchanged f hole i)
    sink-Sinking n hole i f s lo hi lt left right = record {
      edges = λ p c pi ci plo phi clt.
          ground (arith, s.edges p c, s.bridge p i, sibling f hole i left right c);
      bridge = λ p c plo phi clo chi clt. ground (arith, s.edges i c);
      top = λ c clt ne i_pos. sink_top n hole i f s lo hi lt left right c clt ne;
    }

    pub Sinking-Rising :
        (n hole : ℕ) (f : ℕ → A)
        → Sinking n hole f
        → (n - 1) / 2 ≤ hole
        → hole ≢ 0
        → Rising n hole f
    Sinking-Rising n hole f s leaf pos = record {
      edges = λ p c ne lo hi lt. elim (ℕ_discrete p hole) [
        | yes e ↦ absurd (omega arith)
        | no other ↦ s.edges p c other ne lo hi (omega arith)
      ];
      bridge = λ p c plo phi clo chi lt. absurd (omega arith);
      top = λ c lt ne. s.top c lt ne pos;
    }

    pub rise-Rising :
        (n hole q : ℕ) (f : ℕ → A)
        → Rising n hole f
        → 2 * q + 1 ≤ hole
        → hole ≤ 2 * q + 2
        → hole < n
        → less (f q) (f hole) ≡ true
        → Rising n q (exchanged f hole q)
    rise-Rising n hole q f s lo hi lt up = record {
      edges = λ p c ne clo chi clt. ground (
        arith,
        order.asym (f q) (f hole),
        s.edges p c,
        s.edges q c,
        s.bridge q c,
        order.trans (f c) (f q) (f hole),
      );
      bridge = λ p c plo phi clo chi clt.
          ground (arith, s.edges p q, s.edges q c, order.trans (f c) (f q) (f p));
      top = λ c clt ne. ground (
        arith,
        s.top c,
        s.top q,
        order.asym (f q) (f hole),
        order.trans (f c) (f 0) (f hole),
        order.trans (f q) (f 0) (f hole),
      );
    }

    pub Rising-Loose :
        (n hole : ℕ) (f : ℕ → A)
        → Rising n hole f
        → hole < n
        → (hole ≡ 0) ⊎ ((q : ℕ) × (2 * q + 1 ≤ hole) × (hole ≤ 2 * q + 2) × Le less (f hole) (f q))
        → Loose n f
    Rising-Loose n hole f s lt (inl at_root) = record {
      edges = λ p c kp lo hi clt. s.edges p c (λ e. omega arith) lo hi clt;
      top = λ c clt. elim (ℕ_discrete c hole) [
        | yes e ↦
            subst (λ k. Le less (f k) (f 0)) (sym (omega (arith, e, at_root)))
              (le_refl less order (f 0))
        | no ne ↦ s.top c clt ne
      ];
    }
    Rising-Loose n hole f s lt (inr (q, lo, hi, fits)) = record {
      edges = λ p c kp clo chi clt. elim (ℕ_discrete c hole) [
        | yes e ↦ ground arith
        | no ne ↦ s.edges p c ne clo chi clt
      ];
      top = λ c clt. elim (ℕ_discrete c hole) [
        | yes e ↦
            subst (λ k. Le less (f k) (f 0)) (sym e)
              (order.trans (f hole) (f q) (f 0) fits (s.top q (omega arith) (λ e'. omega arith)))
        | no ne ↦ s.top c clt ne
      ];
    }
