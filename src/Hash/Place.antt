-- ===== src/Hash/Place.antt =====
-- The search for an empty slot in `_hash_copy_rehash`.
use cbasis.Base.{
  ℕ, zero, suc, ◌+◌, ◌-◌, ◌%◌, ◌^◌, ◌<◌, ◌≤◌, ◌≡◌, ◌∙◌, sym, ap, refl, subst, true, false,
  Bool-cases, inl, inr, set, store-set, some, bit_and, arith,
}
use Prim.Native.Nat.{◌∣◌}
use native.Mathlib.Nat.{mod-mod_of_dvd, dvd-mul_right_of_dvd, dvd_refl, pow-suc, pow-le-pow_right}
use native.Mathlib.Decide.{dec_lt}
use cbasis.Probe.{probe}
use cbasis.Probe.Cover.{probe-lt}
use cbasis.Hash.Table.{Entry, Hash, mask}
use cbasis.Hash.Rehash.{place}
use cbasis.Hash.Count.{entry_at, is_empty}
use cbasis.Hash.Valid.{IsValid, empty_test, loads, mask_mod, meets_empty}
use cbasis.Hash.Search.{next_index, past_full}
use cbasis.Hash.InsertLoop.{here}

-- Where the entry is stored.
pub record Placed (k : ℕ) (t : Hash) (hash i : ℕ) : Type 0 where
  pub steps : ℕ
  pub steps_lt : steps < 2 ^ k
  pub arrives : probe k hash steps ≡ i
  pub at_empty : is_empty t.empty_value (entry_at t.entries i) ≡ true
  pub unbroken :
      (j : ℕ) → j < steps → is_empty t.empty_value (entry_at t.entries (probe k hash j)) ≡ false

module _ {k : ℕ} {t : Hash} (v : IsValid k t) (hash : ℕ) (e : Entry) where
  place-empty :
      (fuel n : ℕ)
      → is_empty t.empty_value (here v hash n) ≡ true
      → place (suc fuel) t.entries t.empty_value (mask t) e (probe k hash n) (n + 1)
        ≡ some (set t.entries (probe k hash n) e)
  unfolding place
  place-empty fuel n stop = ground (
    arith,
    loads v (probe k hash n) (probe-lt k hash n),
    empty_test t (here v hash n) v.empty_small (v.value_small (probe k hash n)),
    store-set t.entries (probe k hash n) e (omega (arith, v.width, probe-lt k hash n)),
  )

  place-full :
      (fuel n : ℕ)
      → is_empty t.empty_value (here v hash n) ≡ false
      → place (suc fuel) t.entries t.empty_value (mask t) e (probe k hash n) (n + 1)
        ≡ place fuel t.entries t.empty_value (mask t) e (probe k hash (suc n)) (suc n + 1)
  unfolding place
  place-full fuel n full = ground (
    arith,
    loads v (probe k hash n) (probe-lt k hash n),
    empty_test t (here v hash n) v.empty_small (v.value_small (probe k hash n)),
    next_index v hash n,
  )

  place_loop :
      (fuel n last : ℕ)
      → n ≤ last
      → last < n + fuel
      → last < 2 ^ k
      → is_empty t.empty_value (here v hash last) ≡ true
      → ((j : ℕ) → j < n → is_empty t.empty_value (here v hash j) ≡ false)
      → (i : ℕ) × (place fuel t.entries t.empty_value (mask t) e (probe k hash n) (n + 1)
          ≡ some (set t.entries i e))
        × Placed k t hash i
  place_loop zero n last le enough small stop before = absurd (omega arith)
  place_loop (suc fuel) n last le enough small stop before =
      elim (Bool-cases (is_empty t.empty_value (here v hash n))) [
        | inl now ↦ (
          probe k hash n,
          place-empty fuel n now,
          record {
            steps = n;
            steps_lt = omega arith;
            arrives = refl;
            at_empty = now;
            unbroken = before;
          },
        )
        | inr full ↦
            let (i, run, placed) =
              place_loop fuel (suc n) last (past_full v hash n last le stop full) (omega arith)
                small stop
                (λ j p. elim (dec_lt j n) [
                  | yes earlier ↦ before j earlier
                  | no at_n ↦
                      subst (λ m. is_empty t.empty_value (here v hash m) ≡ false) (omega arith) full
                ]) in
            (i, place-full fuel n full ∙ run, placed)
      ]

-- The source takes the hash in 32 bits first.
dvd_pow : (k d : ℕ) → 2 ^ k ∣ 2 ^ (k + d)
dvd_pow k zero = subst (λ n. 2 ^ k ∣ 2 ^ n) (omega arith) (dvd_refl (2 ^ k))
dvd_pow k (suc d) =
    subst (λ n. 2 ^ k ∣ 2 ^ n) (omega arith)
      (subst (λ x. 2 ^ k ∣ x) (sym (pow-suc 2 (k + d)))
        (dvd-mul_right_of_dvd (2 ^ k) (dvd_pow k d) 2))

k_bound : (k : ℕ) → 2 ^ k ≤ 2 ^ 31 → k ≤ 31
k_bound k h = elim (dec_lt 31 k) [
  | yes big ↦
      absurd (omega (arith, pow-le-pow_right {n = 2} (omega arith) {i = 32} {j = k} (omega arith)))
  | no le ↦ omega arith
]

low_bits : (k hash : ℕ) → k ≤ 31 → hash % 2 ^ 32 % 2 ^ k ≡ hash % 2 ^ k
low_bits k hash h =
    let whole : k + (32 - k) ≡ 32 = omega arith in
    mod-mod_of_dvd (2 ^ k) hash (subst (λ n. 2 ^ k ∣ 2 ^ n) whole (dvd_pow k (32 - k)))

-- In a valid table the search ends: the entry is stored in the first empty slot of its probe.
pub place-Placed :
    {k : ℕ} {t : Hash}
    → IsValid k t
    → (e : Entry)
    → (i : ℕ) × (place
          (t.capacity + 1)
          t.entries
          t.empty_value
          (mask t)
          e
          (bit_and (e.hash % 2 ^ 32) (mask t))
          1
        ≡ some (set t.entries i e))
      × Placed k t e.hash i
unfolding probe
place-Placed {k = k} {t = t} v e =
    let (last, small, stop) = meets_empty v e.hash in
    let (i, run, placed) =
      place_loop v e.hash e (t.capacity + 1) 0 last (omega arith) (omega (arith, v.capacity_is))
        small stop (λ j p. absurd (omega arith)) in
    (
      i,
      ap (λ s. place (t.capacity + 1) t.entries t.empty_value (mask t) e s 1)
            (mask_mod v (e.hash % 2 ^ 32) ∙ low_bits k e.hash (k_bound k v.small))
          ∙ run,
      placed,
    )
