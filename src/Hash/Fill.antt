-- ===== src/Hash/Fill.antt =====
-- Filling a slot that is not used keeps a table valid, where the slot is on the probe of the hash.
use cbasis.Base.{
  ℕ, ◌+◌, ◌-◌, ◌^◌, ◌<◌, ◌≡◌, ◌∙◌, sym, ap, subst, true, false, ◌==◌, not, ◌&&◌, set, length-set,
  store-set, some, arith,
}
use native.Mathlib.Decide.{ℕ_discrete}
use cbasis.Probe.{probe}
use cbasis.Hash.Table.{Entry, Hash, removed_value}
use cbasis.Hash.Update.{fill_slot}
use cbasis.Hash.Count.{entry_at, is_empty, is_removed, is_used, to_ℕ, tally, tally-set}
use cbasis.Hash.Valid.{IsValid, Reached, loads, removed_test}
use cbasis.Hash.Change.{at_self, at_other, stays_full, keeps-Reached}

abbrev pub filled : Hash → ℕ → Entry → Hash
filled t i e = record t {
  entries = set t.entries i e;
  count = t.count + 1;
  gravestone_count = t.gravestone_count - to_ℕ (is_removed t.empty_value (entry_at t.entries i));
}

-- The ASSERT on the value: it is neither the empty one nor the removed one.
pub value_ok :
    (t : Hash) (hash value : ℕ)
    → t.empty_value < 2 ^ 64
    → value < 2 ^ 64
    → is_used t.empty_value (record { hash = hash; value = value }) ≡ true
    → (not (value == t.empty_value) && not (value == removed_value t)) ≡ true
value_ok t hash value small h used = ground arith

module _ {k : ℕ} {t : Hash} (v : IsValid k t) (i : ℕ) (lt : i < 2 ^ k) (e : Entry)
    (small : e.value < 2 ^ 64) (used : is_used t.empty_value e ≡ true)
    (unused : is_used t.empty_value (entry_at t.entries i) ≡ false)
    (room : t.count + t.gravestone_count + 1 < 2 ^ k) where
  full : is_empty t.empty_value e ≡ false
  full = ground arith

  used_tally :
      tally (is_used t.empty_value) (set t.entries i e)
      ≡ tally (is_used t.empty_value) t.entries + 1
  used_tally =
      ground (arith, tally-set (is_used t.empty_value) t.entries i e (omega (arith, v.width)))

  removed_tally :
      tally (is_removed t.empty_value) (set t.entries i e)
        + to_ℕ (is_removed t.empty_value (entry_at t.entries i))
      ≡ tally (is_removed t.empty_value) t.entries
  removed_tally =
      ground (arith, tally-set (is_removed t.empty_value) t.entries i e (omega (arith, v.width)))

  value_bound : (j : ℕ) → (entry_at (set t.entries i e) j).value < 2 ^ 64
  value_bound j = elim (ℕ_discrete i j) [
    | yes same ↦
        subst (λ n. (entry_at (set t.entries i e) n).value < 2 ^ 64) same
          (omega (arith, small, ap (λ x. x.value) (at_self v i lt e)))
    | no other ↦ omega (arith, ap (λ x. x.value) (at_other v i lt e j other), v.value_small j)
  ]

  pub filled-IsValid : Reached k t.empty_value (set t.entries i e) i → IsValid k (filled t i e)
  filled-IsValid here = record {
    width = length-set t.entries i e ∙ v.width;
    capacity_is = v.capacity_is;
    small = v.small;
    empty_small = v.empty_small;
    value_small = value_bound;
    used_count = omega (arith, used_tally, v.used_count);
    removed_count = omega (arith, removed_tally, v.removed_count);
    spare = omega (arith, room);
    reached = λ s s_lt u. elim (ℕ_discrete i s) [
      | yes same ↦ subst (λ n. Reached k t.empty_value (set t.entries i e) n) same here
      | no other ↦ keeps-Reached v i lt e full s other (
          v.reached s s_lt
            (ap (λ x. is_used t.empty_value x) (sym (at_other v i lt e s other)) ∙ u))
    ];
  }

  pub fill_slot-filled : fill_slot t i e.hash e.value ≡ some (filled t i e)
  unfolding fill_slot
  fill_slot-filled = ground (
    arith,
    loads v i lt,
    store-set t.entries i e (omega (arith, v.width)),
    removed_test t (entry_at t.entries i) v.empty_small (v.value_small i),
    v.removed_count,
    removed_tally,
    v.spare,
    v.small,
  )

  -- A slot that `n` full steps lead to.
  pub filled-Reached :
      (n : ℕ)
      → n < 2 ^ k
      → probe k e.hash n ≡ i
      → ((j : ℕ) → j < n → is_empty t.empty_value (entry_at t.entries (probe k e.hash j)) ≡ false)
      → Reached k t.empty_value (set t.entries i e) i
  filled-Reached n n_lt at unbroken =
      let same : (entry_at (set t.entries i e) i).hash ≡ e.hash =
        ap (λ x. x.hash) (at_self v i lt e) in
      record {
        steps = n;
        steps_lt = n_lt;
        arrives = ap (λ h. probe k h n) same ∙ at;
        unbroken = λ j p.
            subst (λ h. is_empty t.empty_value (entry_at (set t.entries i e) (probe k h j)) ≡ false)
              (sym same) (stays_full v i lt e full _ (unbroken j p));
      }
