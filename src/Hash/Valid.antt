-- ===== src/Hash/Valid.antt =====
-- The invariant of a table that has entries: its capacity is a power of two, it counts what it
-- holds, some slot is empty, and every used entry is on the probe of its hash before the first
-- empty slot.
use cbasis.Base.{
  ℕ, ◌+◌, ◌%◌, ◌^◌, ◌<◌, ◌≤◌, ◌≡◌, ◌∙◌, ap, true, false, ◌==◌, List, length, load,
  get_elem?-eq-get_or, some, bit_and, bit_and_mod, arith,
}
use native.Mathlib.Nat.{one-le-pow}
use cbasis.Probe.{probe}
use cbasis.Probe.Cover.{probe_covers}
use cbasis.Hash.Table.{Entry, Hash, removed_value, mask}
use cbasis.Hash.Count.{entry_at, is_empty, is_removed, is_used, tally, tally_kinds, tally_pos}

-- The slot `s` is on the probe of its hash: `n` steps lead to it, none over an empty slot.
pub record Reached (k v : ℕ) (es : List Entry) (s : ℕ) : Type 0 where
  pub steps : ℕ
  pub steps_lt : steps < 2 ^ k
  pub arrives : probe k (entry_at es s).hash steps ≡ s
  pub unbroken :
      (j : ℕ) → j < steps → is_empty v (entry_at es (probe k (entry_at es s).hash j)) ≡ false

pub record IsValid (k : ℕ) (t : Hash) : Type 0 where
  pub width : length t.entries ≡ 2 ^ k
  pub capacity_is : t.capacity ≡ 2 ^ k
  pub small : 2 ^ k ≤ 2 ^ 31
  pub empty_small : t.empty_value < 2 ^ 64
  pub value_small : (i : ℕ) → (entry_at t.entries i).value < 2 ^ 64
  pub used_count : tally (is_used t.empty_value) t.entries ≡ t.count
  pub removed_count : tally (is_removed t.empty_value) t.entries ≡ t.gravestone_count
  pub spare : t.count + t.gravestone_count < 2 ^ k
  pub reached :
      (s : ℕ)
      → s < 2 ^ k
      → is_used t.empty_value (entry_at t.entries s) ≡ true
      → Reached k t.empty_value t.entries s

-- The tests of the code, by the kind of an entry.
pub empty_test :
    (t : Hash) (e : Entry)
    → t.empty_value < 2 ^ 64
    → e.value < 2 ^ 64
    → (e.value == t.empty_value) ≡ is_empty t.empty_value e
empty_test t e hv he = ground arith

pub removed_test :
    (t : Hash) (e : Entry)
    → t.empty_value < 2 ^ 64
    → e.value < 2 ^ 64
    → (e.value == removed_value t) ≡ is_removed t.empty_value e
removed_test t e hv he = ground arith

module _ {k : ℕ} {t : Hash} (v : IsValid k t) where
  -- `& mask` takes the remainder by the capacity.
  pub mask_mod : (x : ℕ) → bit_and x (mask t) ≡ x % 2 ^ k
  mask_mod x =
      ap (λ m. bit_and x m) (omega (arith, v.capacity_is, v.small, one-le-pow k 2))
      ∙ bit_and_mod k x

  pub loads : (i : ℕ) → i < 2 ^ k → load t.entries i ≡ some (entry_at t.entries i)
  loads i h = get_elem?-eq-get_or t.entries i _ (omega (arith, v.width))

  -- Some step of every probe meets an empty slot.
  pub meets_empty :
      (hash : ℕ)
      → (n : ℕ) × (n < 2 ^ k)
        × (is_empty t.empty_value (entry_at t.entries (probe k hash n)) ≡ true)
  meets_empty hash =
      let (s, lt, e) = tally_pos (is_empty t.empty_value) t.entries (
        omega (
          arith,
          tally_kinds t.empty_value t.entries,
          v.used_count,
          v.removed_count,
          v.spare,
          v.width,
        )) in
      let (n, small, at) = probe_covers k hash s (omega (arith, v.width)) in
      (n, small, ap (λ i. is_empty t.empty_value (entry_at t.entries i)) at ∙ e)
