-- ===== src/Hash/RemoveAll.antt =====
-- hash_remove_with_hash: all entries with the hash go, and no other.
use cbasis.Base.{
  ℕ, zero, suc, ◌+◌, ◌^◌, ◌<◌, ◌≤◌, ◌≡◌, ◌≢◌, inl, inr, ◌∙◌, sym, ap, ap₂, refl, true, false, some,
  arith,
}
use native.Mathlib.Decide.{dec_lt}
use mathlib.Core.Bool.{false≢true}
use cbasis.Probe.{probe}
use cbasis.Probe.Cover.{probe-lt}
use cbasis.Hash.Table.{Hash, HashIter, hash_find_next, start_index}
use cbasis.Hash.Update.{remove_with_hash_loop, hash_remove_with_hash, hash_remove}
use cbasis.Hash.Count.{entry_at, is_empty, is_used}
use cbasis.Hash.Valid.{IsValid, meets_empty, mask_mod}
use cbasis.Hash.Find.{absent, unused_of_none}
use cbasis.Hash.Remove.{without, without-IsValid, hash_remove-without}
use cbasis.Hash.Round.{Cleared, Over, from_start, next-Stops, still-Over, still_empty, rest-Cleared}

nothing_left :
    {k : ℕ} {t : Hash} {hash : ℕ}
    → IsValid k t
    → ((i : ℕ)
        → i < 2 ^ k
        → is_used t.empty_value (entry_at t.entries i) ≡ true
        → (entry_at t.entries i).hash ≢ hash)
    → Cleared k hash t t
nothing_left v absent = record {
  valid = v;
  same_empty = refl;
  none_left = absent;
  kept = λ i other. refl;
  not_added = λ i u. refl;
}

-- One round of the loop, by what the search returns.
round-absent :
    (fuel : ℕ) (t : Hash) (hash index iter n : ℕ) (it : HashIter)
    → hash_find_next t hash index iter ≡ some it
    → it.found ≡ false
    → remove_with_hash_loop (suc fuel) t hash index iter n ≡ some (n, t)
unfolding remove_with_hash_loop
round-absent fuel t hash index iter n it run f = ground (arith, run, f)

round-found :
    (fuel : ℕ) (t t' : Hash) (hash index iter n : ℕ) (it : HashIter)
    → hash_find_next t hash index iter ≡ some it
    → it.found ≡ true
    → hash_remove t it.index ≡ some (true, t')
    → remove_with_hash_loop (suc fuel) t hash index iter n
      ≡ remove_with_hash_loop fuel t' hash it.index it.iter (n + 1)
unfolding remove_with_hash_loop
round-found fuel t t' hash index iter n it run f gone = ground (arith, run, f, gone)

abbrev Runs : ℕ → ℕ → Hash → ℕ → ℕ → ℕ → Type 0
Runs k fuel t hash n c =
    (c' : ℕ) × (t' : Hash) × (remove_with_hash_loop fuel t hash (probe k hash n) (n + 1) c
      ≡ some (c', t'))
    × (t'.count + c' ≡ t.count + c)
    × Cleared k hash t t'

loop_clears :
    (fuel : ℕ) {k : ℕ} {t : Hash} (hash n last c : ℕ)
    → IsValid k t
    → t.count < fuel
    → n ≤ last
    → last < 2 ^ k
    → is_empty t.empty_value (entry_at t.entries (probe k hash last)) ≡ true
    → ((j : ℕ) → j < n → Over k t hash j)
    → Runs k fuel t hash n c
unfolding hash_find_next from_start
loop_clears zero hash n last c v enough le small e over = absurd (omega arith)
loop_clears (suc fuel) {k = k} {t = t} hash n last c v enough le small e over =
    elim (dec_lt 0 t.count) [
      | no out ↦
          let stop : HashIter = record { found = false; index = probe k hash n; iter = n + 1 } in
          (
            c,
            t,
            round-absent fuel t hash (probe k hash n) (n + 1) c stop (ground arith) refl,
            refl,
            nothing_left v (λ i lt u. absurd (
                false≢true
                  (sym (unused_of_none v (omega arith) i (omega (arith, v.capacity_is))) ∙ u))),
          )
      | yes pos ↦
          let (it, run, s) = next-Stops v hash n last pos le small e in
          elim s.ends [
            | inr (f, at_empty) ↦ (
              c,
              t,
              round-absent fuel t hash (probe k hash n) (n + 1) c it run f,
              refl,
              nothing_left v (absent v (from_start over s) at_empty),
            )
            | inl (f, used, same) ↦
                let lt : it.index < 2 ^ k = omega (arith, s.index_is, probe-lt k hash s.steps) in
                let (c', t', more, total, cleared) =
                  loop_clears fuel hash s.steps last (c + 1) (without-IsValid v it.index lt used)
                    (omega arith) s.upto small
                    (still_empty v hash it.index lt used (probe k hash last) e)
                    (λ j p.
                      still-Over v hash it.index lt used j
                        ((from_start over s).passed j (omega arith) p)) in
                (
                  c',
                  t',
                  round-found fuel t (without t it.index) hash (probe k hash n) (n + 1) c it run f
                        (hash_remove-without v it.index lt used)
                      ∙ (ap₂
                            (λ i m.
                              remove_with_hash_loop fuel (without t it.index) hash i m (c + 1))
                            s.index_is s.iter_is
                          ∙ more),
                  omega (arith, total),
                  rest-Cleared v hash it.index lt used same cleared,
                )
          ]
    ]

-- In a valid table hash_remove_with_hash returns, the table that it leaves is valid and has no used
-- entry with the hash, every slot whose entry has another hash is as it was, no slot has a new used
-- entry, and the number returned is that by which the count fell.
pub hash_remove_with_hash_sound :
    (k : ℕ) (t : Hash) (hash : ℕ)
    → IsValid k t
    → (n : ℕ) × (t' : Hash) × (hash_remove_with_hash t hash ≡ some (n, t'))
      × (t'.count + n ≡ t.count)
      × Cleared k hash t t'
unfolding hash_remove_with_hash start_index probe
hash_remove_with_hash_sound k t hash v =
    let (last, small, e) = meets_empty v hash in
    let (n, t', run, total, cleared) =
      loop_clears (t.capacity + 1) hash 0 last 0 v (omega (arith, v.spare, v.capacity_is))
        (omega arith) small e (λ j p. absurd (omega arith)) in
    (
      n,
      t',
      ap (λ i. remove_with_hash_loop (t.capacity + 1) t hash i 1 0) (mask_mod v hash) ∙ run,
      omega (arith, total),
      cleared,
    )
