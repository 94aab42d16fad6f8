-- ===== src/Sort/Insertion.antt =====
-- insertion_sort sorts its range and keeps the items.
use cbasis.Base.{
  ℕ, zero, suc, ◌+◌, ◌-◌, ◌<◌, ◌≤◌, ◌≡◌, ◌≢◌, inl, inr, refl, sym, ap, ap₂, subst, ◌∙◌, Bool, true,
  false, Bool-cases, List, length, get_or, set, length-set, set-set_self, get_or-set_self,
  get_or-set_ne, swapped, get_or-swapped, Option, some, load, store-set, get_elem?-eq-get_or, arith,
}
use native.Mathlib.Decide.{ℕ_discrete}
use cbasis.Sort.{shift_right, insert_item, insertion_loop, insertion_sort}
use cbasis.Sort.Order.{StrictWeak, Le, SortedIn}
use cbasis.Sort.Permuted.{Permuted, Permuted-refl, Permuted-trans, Permuted-wide, swapped-Permuted}

-- To move an item into the free place `i` and free its own, `j`, is a swap in the array that has
-- `v` in the free place.
pub hole_swap {ℓ} :
    {A : Type ℓ} (items : List A) (i j : ℕ) (v d : A)
    → i < length items
    → i ≢ j
    → set (set items i (get_or items j d)) j v ≡ swapped (set items i v) i j d
hole_swap items i j v d lt ne =
    ap₂ (λ x w. set (set items i x) j w) (sym (get_or-set_ne items i j v d ne))
      (sym (get_or-set_self items i v d lt))
    ∙ ap (λ ys. set ys j (get_or (set items i v) i d))
        (sym (set-set_self items i v (get_or (set items i v) j d)))

pred_suc : (n : ℕ) → suc n - 1 ≡ n
pred_suc n = omega arith

module _ {ℓ} {A : Type ℓ} (less : A → A → Bool) (order : StrictWeak less) (d : A) where
  -- All pairs are in order but for those whose second is `hole`.
  abbrev SortedBut : List A → ℕ → ℕ → ℕ → Type 0
  SortedBut xs lo hi hole =
      (a b : ℕ) → lo ≤ a → a < b → b < hi → b ≢ hole → Le less (get_or xs a d) (get_or xs b d)

  -- The result of a step on the range.
  abbrev Sorts : List A → ℕ → ℕ → Option (List A) → Type ℓ
  Sorts xs lo hi run =
      (ys : List A) × (run ≡ some ys) × Permuted d lo hi xs ys × SortedIn less ys d lo hi

  swap_down :
      (w : List A) (lo hi i j : ℕ)
      → i ≡ suc j
      → lo ≤ j
      → i < hi
      → hi ≤ length w
      → SortedBut w lo hi i
      → less (get_or w i d) (get_or w j d) ≡ true
      → SortedBut (swapped w i j d) lo hi j
  swap_down w lo hi i j next low high room s lt a b la ab hb ne = ground (
    arith,
    get_or-swapped w i j a d,
    get_or-swapped w i j b d,
    order.asym (get_or w i d) (get_or w j d) lt,
    s a b,
    s a j,
    s j b,
    s i b,
  )

  -- The free place has reached its item's.
  stop_here :
      (w : List A) (lo hi i j : ℕ)
      → i ≡ suc j
      → lo ≤ j
      → i < hi
      → SortedBut w lo hi i
      → less (get_or w i d) (get_or w j d) ≡ false
      → SortedIn less w d lo hi
  stop_here w lo hi i j next low high s le a b la ab hb = elim (ℕ_discrete b i) [
    | no ne ↦ s a b la ab hb ne
    | yes e ↦
        subst (λ n. Le less (get_or w a d) (get_or w n d)) (sym e)
          (elim (ℕ_discrete a j) [
            | yes e' ↦ subst (λ n. Le less (get_or w n d) (get_or w i d)) (sym e') le
            | no ne ↦
                order.trans (get_or w a d) (get_or w j d) (get_or w i d)
                  (s a j la (omega arith) (omega arith) (λ q. omega arith)) le
          ])
  ]

  shift_step :
      (items : List A) (base : ℕ) (v : A) (j : ℕ) (x : A)
      → less v x ≡ true
      → load items (base + j) ≡ some x
      → base + suc j < length items
      → shift_right less items base v (suc j)
        ≡ shift_right less (set items (base + suc j) x) base v j
  unfolding shift_right
  shift_step items base v j x lt at room = ground (arith, lt, at, store-set items (base + suc j) x)

  shift_stop :
      (items : List A) (base : ℕ) (v : A) (j : ℕ) (x : A)
      → less v x ≡ false
      → load items (base + j) ≡ some x
      → base + suc j < length items
      → shift_right less items base v (suc j) ≡ some (set items (base + suc j) v)
  unfolding shift_right
  shift_stop items base v j x lt at room = ground (arith, lt, at, store-set items (base + suc j) v)

  shift-Sorts :
      (j : ℕ) (items : List A) (base hi : ℕ) (v : A)
      → base + j < hi
      → hi ≤ length items
      → SortedBut (set items (base + j) v) base hi (base + j)
      → Sorts (set items (base + j) v) base hi (shift_right less items base v j)
  unfolding shift_right
  shift-Sorts zero items base hi v high room s = (
    set items (base + zero) v,
    store-set items (base + zero) v (omega arith),
    Permuted-refl d base hi (set items (base + zero) v),
    λ a b la ab hb. s a b la ab hb (λ e. omega arith),
  )
  shift-Sorts (suc j) items base hi v high room s =
      let w = set items (base + suc j) v in
      let x = get_or items (base + j) d in
      let lt : base + suc j < length items = omega arith in
      let ne : base + suc j ≢ base + j = λ e. omega arith in
      let at_i : get_or w (base + suc j) d ≡ v = get_or-set_self items (base + suc j) v d lt in
      let at_j : get_or w (base + j) d ≡ x = get_or-set_ne items (base + suc j) (base + j) v d ne in
      let size : length w ≡ length items = length-set items (base + suc j) v in
      elim (Bool-cases (less v x)) [
        | inl further ↦
            let items' = set items (base + suc j) x in
            let moved : set items' (base + j) v ≡ swapped w (base + suc j) (base + j) d =
              hole_swap items (base + suc j) (base + j) v d lt ne in
            let s' =
              swap_down w base hi (base + suc j) (base + j) (omega arith) (omega arith) high
                (omega (arith, size)) s (ap₂ less at_i at_j ∙ further) in
            let (ys, run, p, sorted) =
              shift-Sorts j items' base hi v (omega arith)
                (omega (arith, length-set items (base + suc j) x))
                (subst (λ z. SortedBut z base hi (base + j)) (sym moved) s') in
            (
              ys,
              shift_step items base v j x further
                    (get_elem?-eq-get_or items (base + j) d (omega arith)) lt
                  ∙ run,
              Permuted-trans d
                  (swapped-Permuted d base hi (base + suc j) (base + j) w (omega arith) high
                    (omega arith) (omega arith) (omega (arith, size)))
                  (subst (λ z. Permuted d base hi z ys) moved p),
              sorted,
            )
        | inr stop ↦ (
          w,
          shift_stop items base v j x stop (get_elem?-eq-get_or items (base + j) d (omega arith))
              lt,
          Permuted-refl d base hi w,
          stop_here w base hi (base + suc j) (base + j) (omega arith) (omega arith) high s
              (ap₂ less at_i at_j ∙ stop),
        )
      ]

  prefix_but :
      (items : List A) (lo hi i : ℕ)
      → hi ≡ suc i
      → SortedIn less items d lo i
      → SortedBut items lo hi i
  prefix_but items lo hi i last s a b la ab hb ne = s a b la ab (omega arith)

  insert_step :
      (items : List A) (base j : ℕ) (x y : A)
      → load items (base + suc j) ≡ some x
      → load items (base + j) ≡ some y
      → less x y ≡ true
      → base + suc j < length items
      → insert_item less items base j ≡ shift_right less (set items (base + suc j) y) base x j
  unfolding insert_item
  insert_step items base j x y at_i at_j lt room =
      ground (arith, at_i, at_j, lt, store-set items (base + suc j) y)

  insert_stop :
      (items : List A) (base j : ℕ) (x y : A)
      → load items (base + suc j) ≡ some x
      → load items (base + j) ≡ some y
      → less x y ≡ false
      → insert_item less items base j ≡ some items
  unfolding insert_item
  insert_stop items base j x y at_i at_j le = ground (arith, at_i, at_j, le)

  insert-Sorts :
      (items : List A) (base j hi : ℕ)
      → hi ≡ suc (base + suc j)
      → hi ≤ length items
      → SortedIn less items d base (base + suc j)
      → Sorts items base hi (insert_item less items base j)
  insert-Sorts items base j hi last room s =
      let x = get_or items (base + suc j) d in
      let y = get_or items (base + j) d in
      let load_i = get_elem?-eq-get_or items (base + suc j) d (omega arith) in
      let load_j = get_elem?-eq-get_or items (base + j) d (omega arith) in
      let next : base + suc j ≡ suc (base + j) = omega arith in
      let but = prefix_but items base hi (base + suc j) last s in
      elim (Bool-cases (less x y)) [
        | inr stop ↦ (
          items,
          insert_stop items base j x y load_i load_j stop,
          Permuted-refl d base hi items,
          stop_here items base hi (base + suc j) (base + j) next (omega arith) (omega arith) but
              stop,
        )
        | inl lt ↦
            let items' = set items (base + suc j) y in
            let w = swapped items (base + suc j) (base + j) d in
            let s' =
              swap_down items base hi (base + suc j) (base + j) next (omega arith) (omega arith)
                room but lt in
            let (ys, run, p, sorted) =
              shift-Sorts j items' base hi x (omega arith)
                (omega (arith, length-set items (base + suc j) y)) s' in
            (
              ys,
              insert_step items base j x y load_i load_j lt (omega arith) ∙ run,
              Permuted-trans d
                  (swapped-Permuted d base hi (base + suc j) (base + j) items (omega arith)
                    (omega arith) (omega arith) (omega arith) room)
                  p,
              sorted,
            )
      ]

  loop-Sorts :
      (rounds j : ℕ) (items : List A) (base hi : ℕ)
      → hi ≡ base + suc j + rounds
      → hi ≤ length items
      → SortedIn less items d base (base + suc j)
      → Sorts items base hi (insertion_loop less rounds j items base)
  unfolding insertion_loop
  loop-Sorts zero j items base hi last room s = (
    items,
    refl,
    Permuted-refl d base hi items,
    subst (SortedIn less items d base) (omega arith) s,
  )
  loop-Sorts (suc rounds) j items base hi last room s =
      let (mid, run, p, sorted) =
        insert-Sorts items base j (suc (base + suc j)) refl (omega arith) s in
      let (ys, run', q, sorted') =
        loop-Sorts rounds (suc j) mid base hi (omega arith) (omega (arith, p.same_length))
          (subst (SortedIn less mid d base) (omega arith) sorted) in
      (
        ys,
        ground (arith, run, run'),
        Permuted-trans d (Permuted-wide d base hi (omega arith) (omega arith) p) q,
        sorted',
      )

  -- insertion_sort of a range within an array returns, puts the range in order, and only rearranges it:
  -- the array has the same items, each as often, and the cells outside the range are as they were.
  pub insertion_sort_sound :
      (items : List A) (base item_count : ℕ)
      → base + item_count ≤ length items
      → (ys : List A) × (insertion_sort less items base item_count ≡ some ys)
        × Permuted d base (base + item_count) items ys
        × SortedIn less ys d base (base + item_count)
  unfolding insertion_sort insertion_loop
  insertion_sort_sound items base zero room =
      (items, refl, Permuted-refl d base (base + zero) items, λ a b la ab hb. absurd (omega arith))
  insertion_sort_sound items base (suc n) room =
      let (ys, run, p, s) =
        loop-Sorts n 0 items base (base + suc n) (omega arith) room
          (λ a b la ab hb. absurd (omega arith)) in
      (ys, ap (λ r. insertion_loop less r 0 items base) (pred_suc n) ∙ run, p, s)
