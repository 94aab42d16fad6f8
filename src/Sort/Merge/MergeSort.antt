-- ===== src/Sort/Merge/MergeSort.antt =====
-- merge_sort sorts and keeps the items.
use cbasis.Base.{
  ℕ, zero, suc, ◌+◌, ◌*◌, ◌<◌, ◌≤◌, ◌≡◌, ◌⊎◌, min, inl, inr, refl, sym, ap, ◌∙◌, Bool, true, false,
  Bool-cases, not, List, length, some, arith,
}
use native.Mathlib.Decide.{dec_lt}
use cbasis.Sort.{insertion_sort_to}
use cbasis.Sort.Merge.{Buffers, copy_items, merge_runs, sort_runs, merge_passes, merge_sort}
use cbasis.Sort.Order.{StrictWeak, SortedIn}
use cbasis.Sort.Merge.Ranges.{tally_range, Permuted-tally_range}
use cbasis.Sort.Merge.Loop.{copy_items-Merging}
use cbasis.Sort.Merge.Runs.{sort_runs-RunsSorted}
use cbasis.Sort.Merge.Passes.{AllRuns, merge_runs-Passed}

module _ {ℓ} {A : Type ℓ} (less : A → A → Bool) (order : StrictWeak less) (d : A) where
  -- A buffer in order, with the items of `xs`.
  pub record Holds (xs : List A) (n : ℕ) (s : Buffers A) : Type ℓ where
    pub room_a : n ≤ length s.a
    pub room_b : n ≤ length s.b
    pub sorted : SortedIn less s.a d 0 n
    pub same_items : (p : A → Bool) → tally_range d p s.a 0 n ≡ tally_range d p xs 0 n

  passes_end :
      (fuel : ℕ) (s : Buffers A) (width n : ℕ)
      → n ≤ width
      → merge_passes less (suc fuel) s width n ≡ some s
  unfolding merge_passes
  passes_end fuel s width n le = ground arith

  passes_step :
      (fuel : ℕ) (s : Buffers A) (b : List A) (width n : ℕ)
      → width < n
      → merge_runs less (n + 1) s.a s.b width 0 n ≡ some b
      → merge_passes less (suc fuel) s width n
        ≡ merge_passes less fuel
            (record { a = b; b = s.a; a_is_input = not s.a_is_input })
            (2 * width)
            n
  unfolding merge_passes
  passes_step fuel s b width n lt run = ground (arith, run)

  no_items : (p : A → Bool) (xs ys : List A) → tally_range d p xs 0 0 ≡ tally_range d p ys 0 0
  unfolding tally_range
  no_items p xs ys = refl

  merge_passes-Holds :
      (fuel : ℕ) (xs : List A) (s : Buffers A) (width n : ℕ)
      → 0 < width
      → 0 < fuel
      → n + 1 ≤ width + fuel
      → n ≤ length s.a
      → n ≤ length s.b
      → AllRuns less order d s.a n width
      → ((p : A → Bool) → tally_range d p s.a 0 n ≡ tally_range d p xs 0 n)
      → (t : Buffers A) × (merge_passes less fuel s width n ≡ some t) × Holds xs n t
  merge_passes-Holds zero xs s width n w_pos pos enough room_a room_b runs items =
      absurd (omega arith)
  merge_passes-Holds (suc fuel) xs s width n w_pos pos enough room_a room_b runs items =
      elim (dec_lt width n) [
        | no one ↦ (
          s,
          passes_end fuel s width n (omega arith),
          record {
            room_a = room_a;
            room_b = room_b;
            sorted = λ a b la ab bn. runs 0 a b (omega arith) ab (omega arith);
            same_items = items;
          },
        )
        | yes more ↦
            let (c, run, size, runs', items', outside) =
              merge_runs-Passed less order d (n + 1) s.a s.b width 0 n 0 (omega arith) w_pos
                (omega arith) (omega arith) room_a room_b runs (λ k lt. absurd (omega arith))
                (λ p.
                  let none_yet : min 0 n ≡ 0 = omega arith in
                  ap (tally_range d p s.b 0) none_yet
                  ∙ no_items p s.b s.a
                  ∙ sym (ap (tally_range d p s.a 0) none_yet)) in
            let (t, run', holds) =
              merge_passes-Holds fuel xs (record { a = c; b = s.a; a_is_input = not s.a_is_input })
                (2 * width) n (omega arith) (omega arith) (omega arith) (omega (arith, size)) room_a
                runs' (λ p. items' p ∙ items p) in
            (t, passes_step fuel s c width n more run ∙ run', holds)
      ]

  -- The copy back.
  copied-Holds :
      (xs : List A) (n : ℕ) (s : Buffers A)
      → Holds xs n s
      → (ys : List A) × (copy_items n s.b 0 s.a 0 ≡ some ys)
        × Holds xs n (record { a = ys; b = s.a; a_is_input = true })
  unfolding tally_range
  copied-Holds xs n s h =
      let at : 0 + n ≡ n = omega arith in
      let (ys, run, m) =
        copy_items-Merging less order d n s.b s.b s.a s.a 0 n 0 n 0 0 0 0 0
          (record {
            same_length = refl;
            count = refl;
            sorted = λ i j la ij jh. absurd (omega arith);
            below_a = λ k i ak kh am ml. absurd (omega arith);
            below_b = λ k i ak kh bm ml. absurd (omega arith);
            same_items = λ p. refl;
            outside = λ i o. refl;
          })
          (λ i j la ij jn. h.sorted i j la ij (omega arith)) (omega arith) (omega arith)
          (λ k lt. omega (arith, h.room_a)) (omega (arith, h.room_b)) (omega arith) in
      (
        ys,
        run,
        record {
          room_a = omega (arith, m.same_length, h.room_b);
          room_b = h.room_a;
          sorted = λ i j la ij jn. m.sorted i j la ij (omega arith);
          same_items =
              λ p. omega (arith, m.same_items p, h.same_items p, ap (tally_range d p ys 0) at);
        },
      )

  merge_sort_keep :
      (input temp runs : List A) (dont_copy_back : Bool) (n : ℕ) (s : Buffers A)
      → sort_runs less (n + 1) input 0 n ≡ some runs
      → merge_passes less
          (n + 1)
          (record { a = runs; b = temp; a_is_input = true })
          insertion_sort_to
          n
        ≡ some s
      → (dont_copy_back ≡ true) ⊎ (s.a_is_input ≡ true)
      → merge_sort less input temp dont_copy_back n ≡ some s
  unfolding merge_sort
  merge_sort_keep input temp runs dont_copy_back n s run run' why = ground (arith, run, run', why)

  merge_sort_back :
      (input temp runs : List A) (n : ℕ) (s : Buffers A) (ys : List A)
      → sort_runs less (n + 1) input 0 n ≡ some runs
      → merge_passes less
          (n + 1)
          (record { a = runs; b = temp; a_is_input = true })
          insertion_sort_to
          n
        ≡ some s
      → s.a_is_input ≡ false
      → copy_items n s.b 0 s.a 0 ≡ some ys
      → merge_sort less input temp false n ≡ some (record { a = ys; b = s.a; a_is_input = true })
  unfolding merge_sort
  merge_sort_back input temp runs n s ys run run' e run'' = ground (arith, run, run', e, run'')

  -- merge_sort of the first `item_count` items of `input`, with a `temp` that has room for as many,
  -- returns a buffer whose first items are those of `input`, each as often, in order. It is `input`
  -- unless `dont_copy_back` is given.
  pub merge_sort_sound :
      (input temp : List A) (dont_copy_back : Bool) (item_count : ℕ)
      → item_count ≤ length input
      → item_count ≤ length temp
      → (t : Buffers A) × (merge_sort less input temp dont_copy_back item_count ≡ some t)
        × Holds input item_count t
        × (dont_copy_back ≡ false → t.a_is_input ≡ true)
  merge_sort_sound input temp dont_copy_back n room_a room_b =
      let (runs, run, p, sorted) =
        sort_runs-RunsSorted less order d (n + 1) input 0 n 0 (omega arith) (omega arith)
          (omega arith) room_a (λ k lt. absurd (omega arith)) in
      let (s, run', h) =
        merge_passes-Holds (n + 1) input (record { a = runs; b = temp; a_is_input = true })
          insertion_sort_to n (omega arith) (omega arith) (omega arith)
          (omega (arith, p.same_length)) room_b sorted
          (λ q. Permuted-tally_range d q n input runs room_a p) in
      elim (Bool-cases dont_copy_back) [
        | inl stays ↦ (
          s,
          merge_sort_keep input temp runs dont_copy_back n s run run' (inl stays),
          h,
          λ back. absurd (ground (arith, stays, back)),
        )
        | inr back ↦ elim (Bool-cases s.a_is_input) [
          | inl here ↦ (
            s,
            merge_sort_keep input temp runs dont_copy_back n s run run' (inr here),
            h,
            λ b. here,
          )
          | inr there ↦
              let (ys, run'', h') = copied-Holds input n s h in
              (
                record { a = ys; b = s.a; a_is_input = true },
                ap (λ c. merge_sort less input temp c n) back
                    ∙ merge_sort_back input temp runs n s ys run run' there run'',
                h',
                λ b. refl,
              )
        ]
      ]
