-- ===== src/Sort/Tail.antt =====
-- Heap sort between two rounds: the cells from `n` on are in order, and no smaller than those before.
use cbasis.Base.{
  ℕ, ◌+◌, ◌-◌, ◌<◌, ◌≤◌, ◌≡◌, inr, sym, ap, ap₂, subst, ◌∙◌, Bool, List, length, get_or, some,
  arith,
}
use native.Mathlib.Decide.{dec_lt}
use cbasis.Sort.{insertion_sort}
use cbasis.Sort.Order.{StrictWeak, Le, SortedIn}
use cbasis.Sort.BubbleDown.{cell}
use cbasis.Sort.Permuted.{Permuted, Permuted-wide}
use cbasis.Sort.Insertion.{insertion_sort_sound}

module _ {ℓ} {A : Type ℓ} (less : A → A → Bool) where
  pub record Tail (n count : ℕ) (f : ℕ → A) : Type 0 where
    pub tail : (a b : ℕ) → n ≤ a → a < b → b < count → Le less (f a) (f b)
    pub below : (i j : ℕ) → i < n → n ≤ j → j < count → Le less (f i) (f j)

  pub Tail-cells :
      {n count : ℕ} {f g : ℕ → A} → ((i : ℕ) → g i ≡ f i) → Tail n count f → Tail n count g
  Tail-cells same t = record {
    tail = λ a b na ab bc. ground (arith, same a, same b, t.tail a b);
    below = λ i j ni nj jc. ground (arith, same i, same j, t.below i j);
  }

  drawn_below :
      (d : A) (base n count : ℕ) (xs ys : List A)
      → Permuted d base (base + n) xs ys
      → Tail n count (cell xs base d)
      → (i j : ℕ) → i < n
      → n ≤ j
      → j < count
      → Le less (cell ys base d i) (cell ys base d j)
  drawn_below d base n count xs ys p t i j ni nj jc =
      let (m, lo, hi, e) = p.drawn (base + i) (omega arith) (omega arith) in
      let back : base + (m - base) ≡ m = omega arith in
      ap₂ less (p.outside (base + j) (inr (omega arith))) (e ∙ ap (λ k. get_or xs k d) (sym back))
      ∙ t.below (m - base) j (omega arith) nj jc

  -- Rearranging the cells before `n` keeps this.
  pub Permuted-Tail :
      (d : A) (base n count : ℕ) (xs ys : List A)
      → Permuted d base (base + n) xs ys
      → Tail n count (cell xs base d)
      → Tail n count (cell ys base d)
  Permuted-Tail d base n count xs ys p t = record {
    tail = λ a b na ab bc.
        ap₂ less (p.outside (base + b) (inr (omega arith)))
          (p.outside (base + a) (inr (omega arith)))
        ∙ t.tail a b na ab bc;
    below = drawn_below d base n count xs ys p t;
  }

  joined :
      (d : A) (base n count : ℕ) (ys : List A)
      → SortedIn less ys d base (base + n)
      → Tail n count (cell ys base d)
      → SortedIn less ys d base (base + count)
  joined d base n count ys s t a b la ab hb =
      let at_a : base + (a - base) ≡ a = omega arith in
      let at_b : base + (b - base) ≡ b = omega arith in
      elim (dec_lt b (base + n)) [
        | yes both ↦ s a b la ab both
        | no b_tail ↦
            subst (λ k. Le less (get_or ys k d) (get_or ys b d)) at_a
              (subst (λ k. Le less (cell ys base d (a - base)) (get_or ys k d)) at_b
                (elim (dec_lt a (base + n)) [
                  | yes a_low ↦
                      t.below (a - base) (b - base) (omega arith) (omega arith) (omega arith)
                  | no a_tail ↦
                      t.tail (a - base) (b - base) (omega arith) (omega arith) (omega arith)
                ]))
      ]

  -- The insertion sort of the cells before `n` ends the work.
  pub insertion_sort-Tail :
      (order : StrictWeak less) (d : A) (base n count : ℕ) (xs : List A)
      → n ≤ count
      → base + count ≤ length xs
      → Tail n count (cell xs base d)
      → (ys : List A) × (insertion_sort less xs base n ≡ some ys)
        × Permuted d base (base + count) xs ys
        × SortedIn less ys d base (base + count)
  insertion_sort-Tail order d base n count xs le room t =
      let (ys, run, p, s) = insertion_sort_sound less order d xs base n (omega arith) in
      let t' = Permuted-Tail d base n count xs ys p t in
      (
        ys,
        run,
        Permuted-wide d base (base + count) (omega arith) (omega arith) p,
        joined d base n count ys s t',
      )
