-- ===== src/Hash/InsertLoop.antt =====
-- Where the loop of _hash_find_or_insert stops in a valid table.
use cbasis.Base.{
  ℕ, zero, suc, ◌+◌, ◌^◌, ◌<◌, ◌≤◌, ◌≡◌, ◌≢◌, inl, inr, ◌∙◌, subst, Bool-cases, true, false, Option,
  some, none, arith,
}
use native.Mathlib.Decide.{dec_lt}
use cbasis.Probe.{probe}
use cbasis.Probe.Cover.{probe-lt}
use cbasis.Hash.Table.{Entry, Hash}
use cbasis.Hash.Update.{present, free, insert_loop, or_index}
use cbasis.Hash.Count.{entry_at, is_empty, is_removed, is_used}
use cbasis.Hash.Valid.{IsValid, empty_test, removed_test, loads}
use cbasis.Hash.Search.{next_index, past_full}

module _ {k : ℕ} {t : Hash} (v : IsValid k t) (hash : ℕ) where
  abbrev pub here : ℕ → Entry
  here n = entry_at t.entries (probe k hash n)

  -- One round with `insert_only`.
  only-free :
      (fuel n : ℕ)
      → is_used t.empty_value (here n) ≡ false
      → insert_loop (suc fuel) t hash true (probe k hash n) (n + 1) none
        ≡ some (free (probe k hash n))
  unfolding insert_loop
  only-free fuel n u = ground (arith, loads v (probe k hash n) (probe-lt k hash n))

  only-passed :
      (fuel n : ℕ)
      → n < 2 ^ k
      → is_used t.empty_value (here n) ≡ true
      → insert_loop (suc fuel) t hash true (probe k hash n) (n + 1) none
        ≡ insert_loop fuel t hash true (probe k hash (suc n)) (suc n + 1) none
  unfolding insert_loop
  only-passed fuel n lt u =
      ground
        (arith, loads v (probe k hash n) (probe-lt k hash n), next_index v hash n, v.capacity_is)

  pub used_full : (e : Entry) → is_used t.empty_value e ≡ true → is_empty t.empty_value e ≡ false
  used_full e u = ground arith

  pub only_loop :
      (fuel n last : ℕ)
      → n ≤ last
      → last < n + fuel
      → last < 2 ^ k
      → is_empty t.empty_value (here last) ≡ true
      → ((j : ℕ) → j < n → is_used t.empty_value (here j) ≡ true)
      → (m : ℕ) × (insert_loop fuel t hash true (probe k hash n) (n + 1) none
          ≡ some (free (probe k hash m)))
        × (m < 2 ^ k)
        × (is_used t.empty_value (here m) ≡ false)
        × ((j : ℕ) → j < m → is_empty t.empty_value (here j) ≡ false)
  only_loop zero n last le enough small e before = absurd (omega arith)
  only_loop (suc fuel) n last le enough small e before =
      elim (Bool-cases (is_used t.empty_value (here n))) [
        | inr stop ↦
            (n, only-free fuel n stop, omega arith, stop, λ j p. used_full (here j) (before j p))
        | inl used ↦
            let further : suc n ≤ last = past_full v hash n last le e (used_full (here n) used) in
            let (m, run, m_lt, unused, full) =
              only_loop fuel (suc n) last further (omega arith) small e (λ j p. elim (dec_lt j n) [
                | yes earlier ↦ before j earlier
                | no now ↦ subst (λ i. is_used t.empty_value (here i) ≡ true) (omega arith) used
              ]) in
            (m, only-passed fuel n (omega arith) used ∙ run, m_lt, unused, full)
      ]

  -- One round without `insert_only`.
  pub set-empty :
      (fuel n : ℕ) (g : Option ℕ)
      → is_empty t.empty_value (here n) ≡ true
      → insert_loop (suc fuel) t hash false (probe k hash n) (n + 1) g
        ≡ some (free (or_index g (probe k hash n)))
  unfolding insert_loop
  set-empty fuel n g e = ground (
    arith,
    loads v (probe k hash n) (probe-lt k hash n),
    empty_test t (here n) v.empty_small (v.value_small (probe k hash n)),
  )

  pub set-present :
      (fuel n : ℕ) (g : Option ℕ)
      → is_used t.empty_value (here n) ≡ true
      → (here n).hash ≡ hash
      → insert_loop (suc fuel) t hash false (probe k hash n) (n + 1) g
        ≡ some (present (probe k hash n))
  unfolding insert_loop
  set-present fuel n g u same = ground (
    arith,
    loads v (probe k hash n) (probe-lt k hash n),
    empty_test t (here n) v.empty_small (v.value_small (probe k hash n)),
    removed_test t (here n) v.empty_small (v.value_small (probe k hash n)),
  )

  pub set-other :
      (fuel n : ℕ) (g : Option ℕ)
      → n < 2 ^ k
      → is_used t.empty_value (here n) ≡ true
      → (here n).hash ≢ hash
      → insert_loop (suc fuel) t hash false (probe k hash n) (n + 1) g
        ≡ insert_loop fuel t hash false (probe k hash (suc n)) (suc n + 1) g
  unfolding insert_loop
  set-other fuel n g lt u other = ground (
    arith,
    loads v (probe k hash n) (probe-lt k hash n),
    empty_test t (here n) v.empty_small (v.value_small (probe k hash n)),
    removed_test t (here n) v.empty_small (v.value_small (probe k hash n)),
    next_index v hash n,
    v.capacity_is,
  )

  pub set-removed :
      (fuel n : ℕ) (g : Option ℕ)
      → n < 2 ^ k
      → is_removed t.empty_value (here n) ≡ true
      → insert_loop (suc fuel) t hash false (probe k hash n) (n + 1) g
        ≡ insert_loop fuel t hash false (probe k hash (suc n)) (suc n + 1) (some (probe k hash n))
  unfolding insert_loop
  set-removed fuel n g lt r = ground (
    arith,
    loads v (probe k hash n) (probe-lt k hash n),
    empty_test t (here n) v.empty_small (v.value_small (probe k hash n)),
    removed_test t (here n) v.empty_small (v.value_small (probe k hash n)),
    next_index v hash n,
    v.capacity_is,
  )
