-- ===== src/Hash/Search.antt =====
-- Where the search loop of hash.h stops in a valid table.
use cbasis.Base.{
  ℕ, zero, suc, ◌+◌, ◌%◌, ◌^◌, ◌<◌, ◌≤◌, ◌≡◌, ◌≢◌, ◌⊎◌, inl, inr, ◌∙◌, sym, ap, refl, subst, Bool,
  Bool-cases, true, false, ◌==◌, ◌&&◌, some, bit_and, arith,
}
use native.Mathlib.Decide.{dec_lt}
use mathlib.Core.Bool.{false≢true}
use cbasis.Probe.{probe}
use cbasis.Probe.Cover.{probe-lt}
use cbasis.Hash.Table.{
  Entry, Hash, HashIter, mask, find_loop, hash_find_next, start_index, hash_find,
}
use cbasis.Hash.Count.{entry_at, is_empty, is_used}
use cbasis.Hash.Valid.{IsValid, empty_test, removed_test, mask_mod, loads, meets_empty}

-- How a search from step `n` ends: at step `m`, with all steps before it passed over.
pub record Stops (k : ℕ) (t : Hash) (hash n last : ℕ) (it : HashIter) : Type 0 where
  pub steps : ℕ
  pub from : n ≤ steps
  pub upto : steps ≤ last
  pub index_is : it.index ≡ probe k hash steps
  pub iter_is : it.iter ≡ steps + 1
  pub ends :
      ((it.found ≡ true)
        × (is_used t.empty_value (entry_at t.entries it.index) ≡ true)
        × ((entry_at t.entries it.index).hash ≡ hash))
      ⊎ ((it.found ≡ false) × (is_empty t.empty_value (entry_at t.entries it.index) ≡ true))
  pub passed :
      (j : ℕ)
      → n ≤ j
      → j < steps
      → (is_empty t.empty_value (entry_at t.entries (probe k hash j)) ≡ false)
        × ((is_used t.empty_value (entry_at t.entries (probe k hash j)) ≡ false)
            ⊎ ((entry_at t.entries (probe k hash j)).hash ≢ hash))

plus_one : (n : ℕ) → n + 1 ≡ suc n
plus_one n = omega arith

module _ {k : ℕ} {t : Hash} (v : IsValid k t) (hash : ℕ) where
  abbrev here : ℕ → Entry
  here n = entry_at t.entries (probe k hash n)

  abbrev wanted : ℕ → Bool
  wanted n = ((here n).hash == hash) && is_used t.empty_value (here n)

  pub next_index : (n : ℕ) → bit_and (probe k hash n + (n + 1)) (mask t) ≡ probe k hash (suc n)
  unfolding probe
  next_index n =
      mask_mod v (probe k hash n + (n + 1)) ∙ ap (λ i. (probe k hash n + i) % 2 ^ k) (plus_one n)

  next_iter : (n : ℕ) → n < 2 ^ k → (n + 1 + 1) % 2 ^ 32 ≡ suc n + 1
  next_iter n lt = omega (arith, v.small)

  -- One round of the loop at step `n`.
  round-empty :
      (fuel n : ℕ)
      → is_empty t.empty_value (here n) ≡ true
      → find_loop (suc fuel) t hash (probe k hash n) (n + 1)
        ≡ some (record { found = false; index = probe k hash n; iter = n + 1 })
  unfolding find_loop
  round-empty fuel n e = ground (
    arith,
    loads v (probe k hash n) (probe-lt k hash n),
    empty_test t (here n) v.empty_small (v.value_small (probe k hash n)),
  )

  round-wanted :
      (fuel n : ℕ)
      → wanted n ≡ true
      → find_loop (suc fuel) t hash (probe k hash n) (n + 1)
        ≡ some (record { found = true; index = probe k hash n; iter = n + 1 })
  unfolding find_loop
  round-wanted fuel n e = ground (
    arith,
    loads v (probe k hash n) (probe-lt k hash n),
    empty_test t (here n) v.empty_small (v.value_small (probe k hash n)),
    removed_test t (here n) v.empty_small (v.value_small (probe k hash n)),
  )

  round-passed :
      (fuel n : ℕ)
      → n < 2 ^ k
      → is_empty t.empty_value (here n) ≡ false
      → wanted n ≡ false
      → find_loop (suc fuel) t hash (probe k hash n) (n + 1)
        ≡ find_loop fuel t hash (probe k hash (suc n)) (suc n + 1)
  unfolding find_loop
  round-passed fuel n lt e w = ground (
    arith,
    loads v (probe k hash n) (probe-lt k hash n),
    empty_test t (here n) v.empty_small (v.value_small (probe k hash n)),
    removed_test t (here n) v.empty_small (v.value_small (probe k hash n)),
    next_index n,
    next_iter n lt,
    v.capacity_is,
  )

  abbrev Passed : ℕ → Type 0
  Passed j =
      (is_empty t.empty_value (here j) ≡ false)
      × ((is_used t.empty_value (here j) ≡ false) ⊎ ((here j).hash ≢ hash))

  wanted_parts :
      (n : ℕ) → wanted n ≡ true → (is_used t.empty_value (here n) ≡ true) × ((here n).hash ≡ hash)
  wanted_parts n hit = ground arith

  unwanted :
      (n : ℕ) → wanted n ≡ false → (is_used t.empty_value (here n) ≡ false) ⊎ ((here n).hash ≢ hash)
  unwanted n miss = ground arith

  pub past_full :
      (n last : ℕ)
      → n ≤ last
      → is_empty t.empty_value (here last) ≡ true
      → is_empty t.empty_value (here n) ≡ false
      → suc n ≤ last
  past_full n last le e full = elim (dec_lt n last) [
    | yes p ↦ p
    | no p ↦
        let same : last ≡ n = omega arith in
        absurd (false≢true (sym full ∙ (ap (λ j. is_empty t.empty_value (here j)) (sym same) ∙ e)))
  ]

  pub loop-Stops :
      (fuel n last : ℕ)
      → n ≤ last
      → last < n + fuel
      → last < 2 ^ k
      → is_empty t.empty_value (here last) ≡ true
      → (it : HashIter) × (find_loop fuel t hash (probe k hash n) (n + 1) ≡ some it)
        × Stops k t hash n last it
  loop-Stops zero n last le enough small e = absurd (omega arith)
  loop-Stops (suc fuel) n last le enough small e =
      elim (Bool-cases (is_empty t.empty_value (here n))) [
        | inl stop ↦ (
          record { found = false; index = probe k hash n; iter = n + 1 },
          round-empty fuel n stop,
          record {
            steps = n;
            from = omega arith;
            upto = le;
            index_is = refl;
            iter_is = refl;
            ends = inr (refl, stop);
            passed = λ j p q. absurd (omega arith);
          },
        )
        | inr full ↦ elim (Bool-cases (wanted n)) [
          | inl hit ↦ (
            record { found = true; index = probe k hash n; iter = n + 1 },
            round-wanted fuel n hit,
            record {
              steps = n;
              from = omega arith;
              upto = le;
              index_is = refl;
              iter_is = refl;
              ends = inl (refl, (wanted_parts n hit).0, (wanted_parts n hit).1);
              passed = λ j p q. absurd (omega arith);
            },
          )
          | inr miss ↦
              let further : suc n ≤ last = past_full n last le e full in
              let (it, run, s) = loop-Stops fuel (suc n) last further (omega arith) small e in
              (
                it,
                round-passed fuel n (omega arith) full miss ∙ run,
                record {
                  steps = s.steps;
                  from = omega (arith, s.from);
                  upto = s.upto;
                  index_is = s.index_is;
                  iter_is = s.iter_is;
                  ends = s.ends;
                  passed = λ j p q. elim (dec_lt n j) [
                    | yes later ↦ s.passed j later q
                    | no now ↦ subst Passed (omega arith) (full, unwanted n miss)
                  ];
                },
              )
        ]
      ]

  pub find-Stops :
      0 < t.count
      → (it : HashIter) × (hash_find t hash ≡ some it) × Stops k t hash 0 (meets_empty v hash).0 it
  unfolding hash_find hash_find_next start_index probe
  find-Stops pos =
      let (last, small, e) = meets_empty v hash in
      let (it, run, s) =
        loop-Stops (t.capacity + 1) 0 last (omega arith) (omega (arith, v.capacity_is)) small e in
      (it, ground (arith, mask_mod v hash, run), s)
