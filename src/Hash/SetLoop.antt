-- ===== src/Hash/SetLoop.antt =====
-- Where the loop of _hash_find_or_insert stops without insert_only.
use cbasis.Base.{
  ℕ, zero, suc, ◌+◌, ◌^◌, ◌<◌, ◌≤◌, ◌≡◌, inl, inr, ◌∙◌, refl, subst, Bool-cases, true, false,
  Option, some, none, arith,
}
use native.Mathlib.Decide.{dec_lt, ℕ_discrete}
use cbasis.Probe.{probe}
use cbasis.Probe.Cover.{probe-lt}
use cbasis.Hash.Table.{Entry, Hash}
use cbasis.Hash.Update.{Slot, present, free, insert_loop, or_index}
use cbasis.Hash.Count.{entry_at, is_empty, is_removed, is_used}
use cbasis.Hash.Valid.{IsValid}
use cbasis.Hash.Search.{past_full}
use cbasis.Hash.Round.{Over}
use cbasis.Hash.InsertLoop.{here, set-empty, set-present, set-other, set-removed}

-- A slot that is not used, with only full slots before it on the probe.
pub record Vacant (k : ℕ) (t : Hash) (hash n i : ℕ) : Type 0 where
  pub steps : ℕ
  pub steps_lt : steps < n
  pub arrives : probe k hash steps ≡ i
  pub unused : is_used t.empty_value (entry_at t.entries i) ≡ false

-- The empty slot that ends the probe, all before it being passed over.
pub record Ended (k : ℕ) (t : Hash) (hash : ℕ) (n : ℕ) : Type 0 where
  pub stop : ℕ
  pub from : n ≤ stop
  pub stop_lt : stop < 2 ^ k
  pub at_empty : is_empty t.empty_value (entry_at t.entries (probe k hash stop)) ≡ true
  pub over : (j : ℕ) → j < stop → Over k t hash j

-- The gravestone remembered.
abbrev Grave : ℕ → Hash → ℕ → ℕ → Option ℕ → Type 0
Grave k t hash n none = Unit {0}
Grave k t hash n (some i) = Vacant k t hash n i

abbrev pub Outcome : ℕ → Hash → ℕ → Slot → Type 0
Outcome k t hash (free i) = (m : ℕ) × Vacant k t hash (m + 1) i × Ended k t hash m
Outcome k t hash (present i) =
    (i < 2 ^ k)
    × (is_used t.empty_value (entry_at t.entries i) ≡ true)
    × ((entry_at t.entries i).hash ≡ hash)

later :
    (k : ℕ) (t : Hash) (hash : ℕ) {n : ℕ} (m : ℕ) (g : Option ℕ)
    → n ≤ m
    → Grave k t hash n g
    → Grave k t hash m g
later k t hash m none le _ = tt
later k t hash m (some i) le w = record {
  steps = w.steps;
  steps_lt = omega (arith, w.steps_lt);
  arrives = w.arrives;
  unused = w.unused;
}

-- The slot taken at the empty slot of step `n`.
taken :
    {k : ℕ} {t : Hash} (hash n : ℕ) (g : Option ℕ)
    → Grave k t hash n g
    → is_used t.empty_value (entry_at t.entries (probe k hash n)) ≡ false
    → Vacant k t hash (n + 1) (or_index g (probe k hash n))
taken hash n none _ u = record { steps = n; steps_lt = omega arith; arrives = refl; unused = u }
taken hash n (some i) w u = record {
  steps = w.steps;
  steps_lt = omega (arith, w.steps_lt);
  arrives = w.arrives;
  unused = w.unused;
}

kinds : (v : ℕ) (e : Entry) → is_empty v e ≡ false → is_used v e ≡ false → is_removed v e ≡ true
kinds v e p q = ground arith

empty_not_used : (v : ℕ) (e : Entry) → is_empty v e ≡ true → is_used v e ≡ false
empty_not_used v e p = ground arith

up_to :
    (k : ℕ) (t : Hash) (hash : ℕ) {n : ℕ}
    → ((j : ℕ) → j < n → Over k t hash j)
    → Over k t hash n
    → (j : ℕ) → j < suc n
    → Over k t hash j
up_to k t hash {n = n} over at j p = elim (dec_lt j n) [
  | yes earlier ↦ over j earlier
  | no now ↦ subst (λ i. Over k t hash i) (omega arith) at
]

pub set_loop :
    {k : ℕ} {t : Hash} (v : IsValid k t) (hash fuel n last : ℕ) (g : Option ℕ)
    → n ≤ last
    → last < n + fuel
    → last < 2 ^ k
    → is_empty t.empty_value (entry_at t.entries (probe k hash last)) ≡ true
    → Grave k t hash n g
    → ((j : ℕ) → j < n → Over k t hash j)
    → (slot : Slot) × (insert_loop fuel t hash false (probe k hash n) (n + 1) g ≡ some slot)
      × Outcome k t hash slot
set_loop v hash zero n last g le enough small e w over = absurd (omega arith)
set_loop {k = k} {t = t} v hash (suc fuel) n last g le enough small e w over =
    elim (Bool-cases (is_empty t.empty_value (here v hash n))) [
      | inl stop ↦ (
        free (or_index g (probe k hash n)),
        set-empty v hash fuel n g stop,
        (
          n,
          taken hash n g w (empty_not_used t.empty_value (here v hash n) stop),
          record {
            stop = n;
            from = omega arith;
            stop_lt = omega arith;
            at_empty = stop;
            over = over;
          },
        ),
      )
      | inr full ↦
          let further : suc n ≤ last = past_full v hash n last le e full in
          elim (Bool-cases (is_used t.empty_value (here v hash n))) [
            | inl used ↦ elim (ℕ_discrete (here v hash n).hash hash) [
              | yes same ↦ (
                present (probe k hash n),
                set-present v hash fuel n g used same,
                (probe-lt k hash n, used, same),
              )
              | no other ↦
                  let (slot, run, out) =
                    set_loop v hash fuel (suc n) last g further (omega arith) small e
                      (later k t hash (suc n) g (omega arith) w)
                      (up_to k t hash over (full, inr other)) in
                  (slot, set-other v hash fuel n g (omega arith) used other ∙ run, out)
            ]
            | inr unused ↦
                let r = kinds t.empty_value (here v hash n) full unused in
                let (slot, run, out) =
                  set_loop v hash fuel (suc n) last (some (probe k hash n)) further (omega arith)
                    small e
                    (record { steps = n; steps_lt = omega arith; arrives = refl; unused = unused })
                    (up_to k t hash over (full, inl unused)) in
                (slot, set-removed v hash fuel n g (omega arith) r ∙ run, out)
          ]
    ]
