-- ===== src/Hash/Remove.antt =====
-- hash_remove: the entry goes, a gravestone keeps the probes of the others whole.
use cbasis.Base.{
  ℕ, ◌+◌, ◌-◌, ◌^◌, ◌<◌, ◌≡◌, ◌≢◌, ◌∙◌, sym, ap, subst, true, false, set, length-set, store-set,
  some, arith,
}
use native.Mathlib.Decide.{ℕ_discrete}
use cbasis.Hash.Table.{Entry, Hash, removed_value}
use cbasis.Hash.Update.{hash_remove}
use cbasis.Hash.Count.{entry_at, kind, is_empty, is_removed, is_used, tally, tally-set}
use cbasis.Hash.Valid.{IsValid, loads}
use cbasis.Hash.Change.{at_self, at_other, keeps-Reached}

abbrev pub gravestone : Hash → ℕ → Entry
gravestone t i = record { hash = (entry_at t.entries i).hash; value = removed_value t }

-- The table without its entry at `i`.
abbrev pub without : Hash → ℕ → Hash
without t i = record t {
  entries = set t.entries i (gravestone t i);
  count = t.count - 1;
  gravestone_count = t.gravestone_count + 1;
}

kind-gravestone :
    (t : Hash) (i : ℕ) → t.empty_value < 2 ^ 64 → kind t.empty_value (gravestone t i) ≡ 1
kind-gravestone t i h = omega arith

module _ {k : ℕ} {t : Hash} (v : IsValid k t) (i : ℕ) (lt : i < 2 ^ k)
    (used : is_used t.empty_value (entry_at t.entries i) ≡ true) where
  pub gravestone_full : is_empty t.empty_value (gravestone t i) ≡ false
  gravestone_full = ground (arith, kind-gravestone t i v.empty_small)

  pub gravestone_unused : is_used t.empty_value (gravestone t i) ≡ false
  gravestone_unused = ground (arith, kind-gravestone t i v.empty_small)

  used_tally :
      tally (is_used t.empty_value) (set t.entries i (gravestone t i)) + 1
      ≡ tally (is_used t.empty_value) t.entries
  used_tally = ground (
    arith,
    tally-set (is_used t.empty_value) t.entries i (gravestone t i) (omega (arith, v.width)),
    gravestone_unused,
  )

  removed_tally :
      tally (is_removed t.empty_value) (set t.entries i (gravestone t i))
      ≡ tally (is_removed t.empty_value) t.entries + 1
  removed_tally = ground (
    arith,
    tally-set (is_removed t.empty_value) t.entries i (gravestone t i) (omega (arith, v.width)),
    kind-gravestone t i v.empty_small,
  )

  value_bound : (j : ℕ) → (entry_at (set t.entries i (gravestone t i)) j).value < 2 ^ 64
  value_bound j = elim (ℕ_discrete i j) [
    | yes same ↦
        subst (λ n. (entry_at (set t.entries i (gravestone t i)) n).value < 2 ^ 64) same
          (omega (arith, ap (λ e. e.value) (at_self v i lt (gravestone t i))))
    | no other ↦
        omega (arith, ap (λ e. e.value) (at_other v i lt (gravestone t i) j other), v.value_small j)
  ]

  -- A used entry of the new table stands at another slot.
  pub used_elsewhere :
      (s : ℕ) → is_used t.empty_value (entry_at (set t.entries i (gravestone t i)) s) ≡ true → i ≢ s
  used_elsewhere s u same =
      let at : entry_at (set t.entries i (gravestone t i)) s ≡ gravestone t i =
        ap (λ n. entry_at (set t.entries i (gravestone t i)) n) (sym same)
        ∙ at_self v i lt (gravestone t i) in
      ground (arith, ap (λ e. is_used t.empty_value e) at, gravestone_unused)

  pub without-IsValid : IsValid k (without t i)
  without-IsValid = record {
    width = length-set t.entries i _ ∙ v.width;
    capacity_is = v.capacity_is;
    small = v.small;
    empty_small = v.empty_small;
    value_small = value_bound;
    used_count = omega (arith, used_tally, v.used_count);
    removed_count = omega (arith, removed_tally, v.removed_count);
    spare = omega (arith, used_tally, v.used_count, v.spare);
    reached = λ s small u.
        let ne : i ≢ s = used_elsewhere s u in
        keeps-Reached v i lt (gravestone t i) gravestone_full s ne (
          v.reached s small (ap (λ e. is_used t.empty_value e) (sym (at_other v i lt _ s ne)) ∙ u));
  }

  pub hash_remove-without : hash_remove t i ≡ some (true, without t i)
  unfolding hash_remove
  hash_remove-without = ground (
    arith,
    loads v i lt,
    store-set t.entries i (gravestone t i) (omega (arith, v.width)),
    v.capacity_is,
    v.used_count,
    v.removed_count,
    v.spare,
    v.small,
    used_tally,
  )

-- Removing a used entry of a valid table succeeds and leaves a valid table, in which the slot is
-- used no more, every other slot is as it was, and the count is one less.
pub hash_remove_sound :
    (k : ℕ) (t : Hash) (i : ℕ)
    → IsValid k t
    → i < t.capacity
    → is_used t.empty_value (entry_at t.entries i) ≡ true
    → (t' : Hash) × (hash_remove t i ≡ some (true, t'))
      × IsValid k t'
      × (t'.count + 1 ≡ t.count)
      × (is_used t'.empty_value (entry_at t'.entries i) ≡ false)
      × ((j : ℕ) → i ≢ j → entry_at t'.entries j ≡ entry_at t.entries j)
hash_remove_sound k t i v h used =
    let lt : i < 2 ^ k = omega (arith, v.capacity_is) in
    (
      without t i,
      hash_remove-without v i lt used,
      without-IsValid v i lt used,
      omega (arith, used_tally v i lt used, v.used_count),
      ap (λ e. is_used t.empty_value e) (at_self v i lt (gravestone t i))
          ∙ gravestone_unused v i lt used,
      at_other v i lt (gravestone t i),
    )
