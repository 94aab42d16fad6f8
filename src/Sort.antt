-- ===== src/Sort.antt =====
-- sort.h: sorting arrays of items in place, merging and binary search. An array is the list of its
-- items, and the item at `AT(i)` its cell `i`; a `memcpy` of one item is a load and a store. Where a
-- function is called on `AT(lo)`, its model takes `lo` as `base`. An access outside the array is
-- `none`. The order is a parameter, `less`; its `context` is left out.
pub mod Order
pub mod Permuted
pub mod Insertion
pub mod Heap
pub mod BubbleDown
pub mod Tail
pub mod MakeHeap
pub mod PopTwo
pub mod Hole
pub mod Sink
pub mod TwoPhase
pub mod PopOne
pub mod HeapSort
pub mod QuickSort
pub mod LowerBound
pub mod Merge
mod Tests
use cbasis.Base.{
  ℕ, zero, suc, ◌+◌, ◌-◌, ◌*◌, ◌/◌, Bool, true, false, ◌&&◌, ltb, leb, ◌==◌, if◌then◌else◌, List,
  [], ◌∷◌, Option, none, some, load, store, ◌>>=◌, ◌>>◌, require,
}

abbrev pub insertion_sort_to : ℕ
insertion_sort_to = 32

abbrev pub heap_sort_two_phase_bubbling_from : ℕ
heap_sort_two_phase_bubbling_from = 1300

abbrev pub heap_sort_from : ℕ
heap_sort_from = 2800

module _ {ℓ} {A : Type ℓ} (less : A → A → Bool) where
  -- The `do` loop of insertion_sort from its test on, with `i` the place that is free, and the store
  -- behind it; `value` is `*space_for_one_item`.
  unfoldable pub shift_right : List A → ℕ → A → ℕ → Option (List A)
  shift_right items base value zero = store items (base + zero) value
  shift_right items base value (suc j) = load items (base + j) >>= λ x.
      let rest = store items (base + suc j) x >>= λ items'. shift_right items' base value j in
      if less value x then rest else store items (base + suc j) value

  -- One round of the outer loop, with `iter` one more than `j`.
  unfoldable pub insert_item : List A → ℕ → ℕ → Option (List A)
  insert_item items base j = load items (base + suc j) >>= λ x. load items (base + j) >>= λ y.
      if less x y
      then (store items (base + suc j) y >>= λ items'. shift_right items' base x j)
      else some items

  unfoldable pub insertion_loop : ℕ → ℕ → List A → ℕ → Option (List A)
  insertion_loop zero j items base = some items
  insertion_loop (suc rounds) j items base =
      insert_item items base j >>= λ items'. insertion_loop rounds (suc j) items' base

  -- insertion_sort(AT(base), …, item_count, …)
  unfoldable pub insertion_sort : List A → ℕ → ℕ → Option (List A)
  insertion_sort items base item_count = insertion_loop (item_count - 1) 0 items base

  -- SWAP_DYN
  unfoldable pub swap_items : List A → ℕ → ℕ → Option (List A)
  swap_items items i j =
      load items i >>= λ x. load items j >>= λ y. store items i y >>= λ items'. store items' j x

  -- `if (child < heap_one_past_last && is_less(AT(max_i), AT(child), context)) max_i = child;`
  unfoldable pub bigger_of : List A → ℕ → ℕ → ℕ → ℕ → Option ℕ
  bigger_of items base last max_i child =
      if ltb child last
      then (load items (base + max_i) >>= λ x.
          load items (base + child) >>= λ y. some (if less x y then child else max_i))
      else some max_i

  -- heap_bubble_down_traditional
  unfoldable pub bubble_down : ℕ → List A → ℕ → ℕ → ℕ → Option (List A)
  bubble_down zero items base top last = none
  bubble_down (suc fuel) items base top last = bigger_of items base last top (2 * top + 1) >>= λ l.
      bigger_of items base last l (2 * top + 2) >>= λ max_i.
      let rest = swap_items items (base + top) (base + max_i) >>= λ items'.
      bubble_down fuel items' base max_i last in
      if max_i == top then some items else rest

  -- The loop that makes the heap; it runs through the nodes below its argument, from the last on.
  unfoldable pub make_heap : ℕ → List A → ℕ → ℕ → Option (List A)
  make_heap zero items base item_count = some items
  make_heap (suc node) items base item_count =
      require (ltb node item_count)
      >> (bubble_down item_count items base node item_count >>= λ items'.
          make_heap node items' base item_count)

  -- The first loop of heap_bubble_down_two_phase: the free place sinks.
  unfoldable pub sink : ℕ → List A → ℕ → ℕ → ℕ → Option (List A × ℕ)
  sink zero items base hole max_non_leaf = none
  sink (suc fuel) items base hole max_non_leaf =
      let rest = load items (base + (2 * hole + 2)) >>= λ x.
      load items (base + (2 * hole + 1)) >>= λ y.
      (if less x y
        then (store items (base + hole) y >>= λ items'.
            sink fuel items' base (2 * hole + 1) max_non_leaf)
        else (store items (base + hole) x >>= λ items'.
            sink fuel items' base (2 * hole + 2) max_non_leaf)) in
      if ltb hole max_non_leaf then rest else some (items, hole)

  -- The second: it rises again, until `value` fits, and is filled.
  unfoldable pub rise : ℕ → List A → ℕ → A → ℕ → ℕ → Option (List A)
  rise zero items base value top hole = none
  rise (suc fuel) items base value top hole =
      let parent = (hole - 1) / 2 in
      let rest = load items (base + parent) >>= λ x.
      (if less x value
        then (store items (base + hole) x >>= λ items'. rise fuel items' base value top parent)
        else store items (base + hole) value) in
      if ltb top hole then rest else store items (base + hole) value

  unfoldable pub bubble_down_two_phase : List A → ℕ → A → ℕ → ℕ → Option (List A)
  bubble_down_two_phase items base value top last =
      sink (last + 1) items base top ((last - 1) / 2) >>= λ r.
      rise (last + 1) r.0 base value top r.1

  -- The loop for fewer than 1300 items, which takes two items off the heap.
  unfoldable pub pop_two : ℕ → List A → ℕ → ℕ → Option (List A × ℕ)
  pop_two zero items base n = none
  pop_two (suc fuel) items base n =
      let rest = load items (base + 1) >>= λ x. load items (base + 2) >>= λ y.
      let bigger = if less x y then 2 else 1 in
      swap_items items (base + 0) (base + (n - 1)) >>= λ items1.
      swap_items items1 (base + bigger) (base + (n - 2)) >>= λ items2.
      require (ltb bigger (n - 2))
      >> (bubble_down (n - 2) items2 base bigger (n - 2) >>= λ items3.
          bubble_down (n - 2) items3 base 0 (n - 2) >>= λ items4.
          pop_two fuel items4 base (n - 2)) in
      if ltb insertion_sort_to n then rest else some (items, n)

  -- The loop for more.
  unfoldable pub pop_one : ℕ → List A → ℕ → ℕ → Option (List A × ℕ)
  pop_one zero items base n = none
  pop_one (suc fuel) items base n =
      let rest = load items (base + (n - 1)) >>= λ value. load items (base + 0) >>= λ x.
      store items (base + (n - 1)) x >>= λ items1.
      bubble_down_two_phase items1 base value 0 (n - 1) >>= λ items2.
      pop_one fuel items2 base (n - 1) in
      if ltb insertion_sort_to n then rest else some (items, n)

  -- heap_sort(AT(base), …, item_count, …)
  unfoldable pub heap_sort : List A → ℕ → ℕ → Option (List A)
  heap_sort items base item_count =
      (if ltb insertion_sort_to item_count
        then make_heap (item_count / 2) items base item_count
        else some items)
      >>= λ heap.
          (if ltb item_count heap_sort_two_phase_bubbling_from
            then pop_two (item_count + 1) heap base item_count
            else pop_one (item_count + 1) heap base item_count)
          >>= λ r. insertion_sort r.0 base r.1
