-- ===== src/Sort/Merge.antt =====
-- sort.h: merge_sorted and merge_sort. A pointer into an array is the array and the place in it. The
-- number of items `b_len`, which merge_sort also passes below 0, is a natural number: there is no item
-- in either case, and merge_sort passes some item in `a` then. `insertion_sort` uses the first cell of
-- `temp`, which is left out: what `temp` holds before it is written by a merge is never read.
pub mod Ranges
pub mod Step
pub mod Loop
pub mod Sound
pub mod Runs
pub mod Passes
pub mod MergeSort
use cbasis.Base.{
  ℕ, zero, suc, ◌+◌, ◌-◌, ◌*◌, min, Bool, true, false, not, ltb, if◌then◌else◌, List, Option, none,
  some, load, store, ◌>>=◌,
}
use cbasis.Sort.{insertion_sort, insertion_sort_to}

-- memcpy of `count` items
unfoldable pub copy_items {ℓ} : {A : Type ℓ} → ℕ → List A → ℕ → List A → ℕ → Option (List A)
copy_items zero output at from i = some output
copy_items (suc count) output at from i = load from i >>= λ x.
    store output at x >>= λ output'. copy_items count output' (at + 1) from (i + 1)

pub record Buffers {ℓ} (A : Type ℓ) : Type ℓ where
  pub a : List A
  pub b : List A
  -- Whether `a` is `input`.
  pub a_is_input : Bool

module _ {ℓ} {A : Type ℓ} (less : A → A → Bool) where
  -- `while(ai < a_len && bi < b_len) {…}`, and the memcpy of what is left.
  unfoldable pub merge_loop :
      ℕ → List A → ℕ → List A → ℕ → ℕ → List A → ℕ → ℕ → ℕ → ℕ → Option (List A)
  merge_loop zero output at a a_at a_len b b_at b_len ai bi = none
  merge_loop (suc fuel) output at a a_at a_len b b_at b_len ai bi =
      let rest = load a (a_at + ai) >>= λ x. load b (b_at + bi) >>= λ y.
      (if less x y
        then (store output (at + (ai + bi)) x >>= λ output'.
            merge_loop fuel output' at a a_at a_len b b_at b_len (ai + 1) bi)
        else (store output (at + (ai + bi)) y >>= λ output'.
            merge_loop fuel output' at a a_at a_len b b_at b_len ai (bi + 1))) in
      if ltb ai a_len
      then (if ltb bi b_len
          then rest
          else copy_items (a_len - ai) output (at + (ai + bi)) a (a_at + ai))
      else copy_items (b_len - bi) output (at + (ai + bi)) b (b_at + bi)

  unfoldable pub merge_sorted : List A → ℕ → List A → ℕ → ℕ → List A → ℕ → ℕ → Option (List A)
  merge_sorted output at a a_at a_len b b_at b_len =
      merge_loop (a_len + b_len + 1) output at a a_at a_len b b_at b_len 0 0

  -- `for (isize i = 0; i < N; i += INSERTION_SORT_TO)`
  unfoldable pub sort_runs : ℕ → List A → ℕ → ℕ → Option (List A)
  sort_runs zero a i n = none
  sort_runs (suc fuel) a i n =
      let rest = insertion_sort less a i (min insertion_sort_to (n - i)) >>= λ a'.
      sort_runs fuel a' (i + insertion_sort_to) n in
      if ltb i n then rest else some a

  -- `for (isize i = 0; i < N; i += 2*width)`
  unfoldable pub merge_runs : ℕ → List A → List A → ℕ → ℕ → ℕ → Option (List A)
  merge_runs zero a b width i n = none
  merge_runs (suc fuel) a b width i n =
      let rest =
        merge_sorted b i a i (min width (n - i)) a (i + width) (min width (n - i - width)) >>= λ b'.
        merge_runs fuel a b' width (i + 2 * width) n in
      if ltb i n then rest else some b

  -- `for (isize width = INSERTION_SORT_TO; width < N; width = 2 * width)`, which exchanges the buffers.
  unfoldable pub merge_passes : ℕ → Buffers A → ℕ → ℕ → Option (Buffers A)
  merge_passes zero s width n = none
  merge_passes (suc fuel) s width n =
      let rest = merge_runs (n + 1) s.a s.b width 0 n >>= λ b'.
      merge_passes fuel (record { a = b'; b = s.a; a_is_input = not s.a_is_input }) (2 * width) n in
      if ltb width n then rest else some s

  -- The result is the buffer whose pointer is returned, the other, and whether it is `input`.
  unfoldable pub merge_sort : List A → List A → Bool → ℕ → Option (Buffers A)
  merge_sort input temp dont_copy_back n = sort_runs (n + 1) input 0 n >>= λ runs.
      merge_passes (n + 1) (record { a = runs; b = temp; a_is_input = true }) insertion_sort_to n
      >>= λ s.
          if dont_copy_back
          then some s
          else (if s.a_is_input
              then some s
              else (copy_items n s.b 0 s.a 0 >>= λ input'.
                  some (record { a = input'; b = s.a; a_is_input = true })))
