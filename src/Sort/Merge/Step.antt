-- ===== src/Sort/Merge/Step.antt =====
-- merge_sorted: each round writes the least item that is left.
use cbasis.Base.{
  ℕ, ◌+◌, ◌<◌, ◌≤◌, ◌≡◌, ◌≢◌, ◌⊎◌, sym, ap, ap₂, subst, ◌∙◌, Bool, List, length, get_or, set,
  length-set, get_or-set_self, get_or-set_ne, to_ℕ, arith,
}
use native.Mathlib.Decide.{ℕ_discrete}
use cbasis.Sort.Order.{StrictWeak, Le, SortedIn}
use cbasis.Sort.Merge.Ranges.{tally_range, tally_range-same, tally_range-split}

module _ {ℓ} {A : Type ℓ} (less : A → A → Bool) (order : StrictWeak less) (d : A) where
  -- The first `ai` and `bi` items of the runs are merged to the first `n` of the output.
  pub record Merging (before output : List A) (at total : ℕ) (a : List A) (a_at a_len : ℕ)
      (b : List A) (b_at b_len ai bi n : ℕ) : Type ℓ where
    pub same_length : length output ≡ length before
    pub count : n ≡ ai + bi
    pub sorted : SortedIn less output d at (at + n)
    pub below_a :
        (k m : ℕ)
        → at ≤ k
        → k < at + n
        → ai ≤ m
        → m < a_len
        → Le less (get_or output k d) (get_or a (a_at + m) d)
    pub below_b :
        (k m : ℕ)
        → at ≤ k
        → k < at + n
        → bi ≤ m
        → m < b_len
        → Le less (get_or output k d) (get_or b (b_at + m) d)
    pub same_items :
        (p : A → Bool)
        → tally_range d p output at n ≡ tally_range d p a a_at ai + tally_range d p b b_at bi
    pub outside : (i : ℕ) → (i < at) ⊎ (at + total ≤ i) → get_or output i d ≡ get_or before i d

  -- The roles of the runs exchanged.
  pub Merging-flip :
      {before output a b : List A} {at total a_at a_len b_at b_len ai bi n : ℕ}
      → Merging before output at total a a_at a_len b b_at b_len ai bi n
      → Merging before output at total b b_at b_len a a_at a_len bi ai n
  Merging-flip {ai = ai} {bi = bi} s = record {
    same_length = s.same_length;
    count = omega (arith, s.count);
    sorted = s.sorted;
    below_a = s.below_b;
    below_b = s.below_a;
    same_items = λ p. omega (arith, s.same_items p);
    outside = s.outside;
  }

  -- One more item.
  tally_range_next :
      (p : A → Bool) (xs : List A) (lo n : ℕ)
      → tally_range d p xs lo (n + 1) ≡ tally_range d p xs lo n + to_ℕ (p (get_or xs (lo + n) d))
  unfolding tally_range
  tally_range_next p xs lo n = tally_range-split d p n 1 xs lo ∙ omega arith

  tally_range-set :
      (p : A → Bool) (xs : List A) (lo n i : ℕ) (v : A)
      → lo + n ≤ i
      → tally_range d p (set xs i v) lo n ≡ tally_range d p xs lo n
  tally_range-set p xs lo n i v out =
      tally_range-same d p n xs (set xs i v) lo lo
        (λ k lt. get_or-set_ne xs i (lo + k) v d (λ e. omega arith))

  -- The next item of `a` is written, no larger than what is left of `b`.
  pub Merging-take :
      (before output a b : List A) (at total a_at a_len b_at b_len ai bi n : ℕ)
      → Merging before output at total a a_at a_len b b_at b_len ai bi n
      → SortedIn less a d a_at (a_at + a_len)
      → ai < a_len
      → at + n < length output
      → n < total
      → ((m : ℕ) → bi ≤ m → m < b_len → Le less (get_or a (a_at + ai) d) (get_or b (b_at + m) d))
      → Merging before
          (set output (at + n) (get_or a (a_at + ai) d))
          at
          total
          a
          a_at
          a_len
          b
          b_at
          b_len
          (ai + 1)
          bi
          (n + 1)
  Merging-take before output a b at total a_at a_len b_at b_len ai bi n s sa lt room fits least =
      let x = get_or a (a_at + ai) d in
      let here = get_or-set_self output (at + n) x d room in
      let there = λ (k : ℕ) (ne : at + n ≢ k). get_or-set_ne output (at + n) k x d ne in
      record {
        same_length = length-set output (at + n) x ∙ s.same_length;
        count = omega (arith, s.count);
        sorted = λ i j la ij jh. elim (ℕ_discrete j (at + n)) [
          | yes e ↦
              subst
                (λ k.
                  Le less (get_or (set output (at + n) x) i d) (get_or (set output (at + n) x) k d))
                (sym e)
                (ap₂ less here (there i (λ e'. omega arith))
                  ∙ s.below_a i ai la (omega arith) (omega arith) lt)
          | no ne ↦
              ap₂ less (there j (λ e. ne (sym e))) (there i (λ e. omega arith))
              ∙ s.sorted i j la ij (omega arith)
        ];
        below_a = λ k m ak kh am ml. elim (ℕ_discrete k (at + n)) [
          | yes e ↦
              subst (λ i. Le less (get_or (set output (at + n) x) i d) (get_or a (a_at + m) d))
                (sym e)
                (ap (less (get_or a (a_at + m) d)) here
                  ∙ sa (a_at + ai) (a_at + m) (omega arith) (omega arith) (omega arith))
          | no ne ↦
              ap (less (get_or a (a_at + m) d)) (there k (λ e. ne (sym e)))
              ∙ s.below_a k m ak (omega arith) (omega arith) ml
        ];
        below_b = λ k m ak kh bm ml. elim (ℕ_discrete k (at + n)) [
          | yes e ↦
              subst (λ i. Le less (get_or (set output (at + n) x) i d) (get_or b (b_at + m) d))
                (sym e) (ap (less (get_or b (b_at + m) d)) here ∙ least m bm ml)
          | no ne ↦
              ap (less (get_or b (b_at + m) d)) (there k (λ e. ne (sym e)))
              ∙ s.below_b k m ak (omega arith) bm ml
        ];
        same_items = λ p. omega (
          arith,
          tally_range_next p (set output (at + n) x) at n,
          tally_range-set p output at n (at + n) x (omega arith),
          ap (λ y. to_ℕ (p y)) here,
          tally_range_next p a a_at ai,
          s.same_items p,
        );
        outside = λ i o. there i (λ e. ground (arith, o)) ∙ s.outside i o;
      }
