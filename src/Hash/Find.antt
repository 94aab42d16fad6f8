-- ===== src/Hash/Find.antt =====
-- hash_find: it always returns, what it returns has the hash, and it misses nothing.
use cbasis.Base.{
  ℕ, ◌^◌, ◌<◌, ◌≡◌, ◌≢◌, inl, inr, ◌∙◌, sym, ap, subst, Bool, true, false, Option, some, arith,
}
use native.Mathlib.Decide.{dec_lt}
use mathlib.Core.Bool.{false≢true}
use cbasis.Probe.{probe}
use cbasis.Probe.Cover.{probe-lt}
use cbasis.Hash.Table.{Entry, Hash, HashIter, hash_find_next, start_index, hash_find}
use cbasis.Hash.Count.{entry_at, is_empty, is_used, tally_zero}
use cbasis.Hash.Valid.{IsValid, meets_empty}
use cbasis.Hash.Search.{Stops, find-Stops}

same_iter : {r : Option HashIter} {it it' : HashIter} → r ≡ some it' → r ≡ some it → it' ≡ it
same_iter p q = ground arith

-- How a search ends, by its result.
ends_found :
    {k : ℕ} {t : Hash} {hash n last : ℕ} {it : HashIter}
    → Stops k t hash n last it
    → it.found ≡ true
    → (is_used t.empty_value (entry_at t.entries it.index) ≡ true)
      × ((entry_at t.entries it.index).hash ≡ hash)
ends_found s f = elim s.ends [
  | inl (g, used, same) ↦ (used, same)
  | inr (g, e) ↦ absurd (false≢true (sym g ∙ f))
]

ends_absent :
    {k : ℕ} {t : Hash} {hash n last : ℕ} {it : HashIter}
    → Stops k t hash n last it
    → it.found ≡ false
    → is_empty t.empty_value (entry_at t.entries it.index) ≡ true
ends_absent s f = elim s.ends [
  | inl (g, used, same) ↦ absurd (false≢true (sym f ∙ g))
  | inr (g, e) ↦ e
]

-- In a valid table hash_find returns for every hash: its loop stops at an entry with the hash or
-- at an empty slot before its rounds end and before its ASSERT can fail.
pub hash_find_total :
    (k : ℕ) (t : Hash) (hash : ℕ) → IsValid k t → (it : HashIter) × (hash_find t hash ≡ some it)
unfolding hash_find hash_find_next
hash_find_total k t hash v = elim (dec_lt 0 t.count) [
  | yes pos ↦ let (it, run, s) = find-Stops v hash pos in (it, run)
  | no empty ↦ (record { found = false; index = start_index t hash; iter = 1 }, ground arith)
]

-- What hash_find finds in a valid table is a used entry of the table, and has the hash asked for.
pub hash_find_found :
    (k : ℕ) (t : Hash) (hash : ℕ) (it : HashIter)
    → IsValid k t
    → hash_find t hash ≡ some it
    → it.found ≡ true
    → (it.index < t.capacity)
      × (is_used t.empty_value (entry_at t.entries it.index) ≡ true)
      × ((entry_at t.entries it.index).hash ≡ hash)
unfolding hash_find hash_find_next
hash_find_found k t hash it v run f = elim (dec_lt 0 t.count) [
  | yes pos ↦
      let (it', run', s) = find-Stops v hash pos in
      let same : it' ≡ it = (same_iter run' run) in
      let s' = subst (λ x. Stops k t hash 0 (meets_empty v hash).0 x) same s in
      let (used, equal) = ends_found s' f in
      (omega (arith, s'.index_is, probe-lt k hash s'.steps, v.capacity_is), used, equal)
  | no empty ↦ absurd (ground arith)
]

pub empty_unused : (v : ℕ) (e : Entry) → is_empty v e ≡ true → is_used v e ≡ true → ⊥
empty_unused v e p q = ground arith

full_missed : {b : Bool} → b ≡ true → b ≡ false → ⊥
full_missed p q = false≢true (sym q ∙ p)

-- No used slot lies on the probe of `hash` behind the empty slot where the search stopped.
missed :
    {k : ℕ} {t : Hash} {hash last : ℕ} {it : HashIter}
    → IsValid k t
    → Stops k t hash 0 last it
    → is_empty t.empty_value (entry_at t.entries it.index) ≡ true
    → (n : ℕ) → is_used t.empty_value (entry_at t.entries (probe k hash n)) ≡ true
    → (entry_at t.entries (probe k hash n)).hash ≡ hash
    → ((j : ℕ) → j < n → is_empty t.empty_value (entry_at t.entries (probe k hash j)) ≡ false)
    → ⊥
missed {k = k} {t = t} {hash = hash} {it = it} v s e n used same unbroken =
    let stop : is_empty t.empty_value (entry_at t.entries (probe k hash s.steps)) ≡ true =
      ap (λ i. is_empty t.empty_value (entry_at t.entries i)) (sym s.index_is) ∙ e in
    elim (dec_lt s.steps n) [
      | yes behind ↦ full_missed stop (unbroken s.steps behind)
      | no le ↦ elim (dec_lt n s.steps) [
        | yes before ↦ elim (s.passed n (omega arith) before).1 [
          | inl unused ↦ full_missed used unused
          | inr other ↦ other same
        ]
        | no ge ↦
            let at : s.steps ≡ n = omega arith in
            empty_unused t.empty_value (entry_at t.entries (probe k hash n))
              (subst (λ i. is_empty t.empty_value (entry_at t.entries (probe k hash i)) ≡ true) at
                stop)
              used
      ]
    ]

-- Where a search of the whole probe stops at an empty slot, no used entry has the hash.
pub absent :
    {k : ℕ} {t : Hash} {hash last : ℕ} {it : HashIter}
    → IsValid k t
    → Stops k t hash 0 last it
    → is_empty t.empty_value (entry_at t.entries it.index) ≡ true
    → (i : ℕ) → i < 2 ^ k
    → is_used t.empty_value (entry_at t.entries i) ≡ true
    → (entry_at t.entries i).hash ≢ hash
absent {k = k} {t = t} v s e i lt used same =
    let r = v.reached i lt used in
    let at : probe k _ r.steps ≡ i = ap (λ h. probe k h r.steps) (sym same) ∙ r.arrives in
    missed v s e r.steps (ap (λ j. is_used t.empty_value (entry_at t.entries j)) at ∙ used)
      (ap (λ j. (entry_at t.entries j).hash) at ∙ same)
      (λ j p.
        subst (λ h. is_empty t.empty_value (entry_at t.entries (probe k h j)) ≡ false) same
          (r.unbroken j p))

pub unused_of_none :
    {k : ℕ} {t : Hash}
    → IsValid k t
    → t.count ≡ 0
    → (i : ℕ) → i < t.capacity
    → is_used t.empty_value (entry_at t.entries i) ≡ false
unused_of_none {t = t} v zero_count i lt =
    tally_zero (is_used t.empty_value) t.entries (v.used_count ∙ zero_count) i
      (omega (arith, v.width, v.capacity_is))

-- Where hash_find finds nothing in a valid table, no used entry of the table has the hash: what
-- was inserted is never missed.
pub hash_find_absent :
    (k : ℕ) (t : Hash) (hash : ℕ) (it : HashIter)
    → IsValid k t
    → hash_find t hash ≡ some it
    → it.found ≡ false
    → (i : ℕ) → i < t.capacity
    → is_used t.empty_value (entry_at t.entries i) ≡ true
    → (entry_at t.entries i).hash ≢ hash
unfolding hash_find hash_find_next
hash_find_absent k t hash it v run f i lt used same = elim (dec_lt 0 t.count) [
  | yes pos ↦
      let (it', run', s) = find-Stops v hash pos in
      let s' = subst (λ x. Stops k t hash 0 (meets_empty v hash).0 x) (same_iter run' run) s in
      absent v s' (ends_absent s' f) i (omega (arith, v.capacity_is)) used same
  | no empty ↦ full_missed used (unused_of_none v (omega arith) i lt)
]
