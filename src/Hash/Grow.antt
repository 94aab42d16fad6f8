-- ===== src/Hash/Grow.antt =====
-- The capacity that a rehash takes, and the table that it fills.
use cbasis.Base.{
  ℕ, zero, suc, ◌+◌, ◌*◌, ◌/◌, ◌%◌, ◌^◌, ◌<◌, ◌≤◌, ◌≡◌, ◌∙◌, sym, ap, refl, subst, Bool, false,
  List, replicate, length-replicate, some, arith,
}
use native.Mathlib.Nat.{pow-suc, one-le-pow, mul_assoc, mul_comm}
use native.Mathlib.Decide.{dec_lt}
use cbasis.Hash.Table.{Entry, Hash}
use cbasis.Hash.Rehash.{place_all, copy_rehash, hash_clear, grow_to}
use cbasis.Hash.Count.{entry_at, is_removed, is_used, tally}
use cbasis.Hash.Content.{holds, select, tally-replicate, empty_entry, kind-empty_entry}
use cbasis.Hash.Valid.{IsValid}
use cbasis.Hash.CopyAll.{table, place_all-Copied}

entry_at-replicate : (n i : ℕ) (e : Entry) → i < n → entry_at (replicate n e) i ≡ e
entry_at-replicate zero i e h = absurd (omega arith)
entry_at-replicate (suc n) zero e h = refl
entry_at-replicate (suc n) (suc i) e h = entry_at-replicate n i e (omega arith)

value_replicate :
    (n i : ℕ) (e : Entry) → e.value < 2 ^ 64 → (entry_at (replicate n e) i).value < 2 ^ 64
value_replicate zero i e h = omega arith
value_replicate (suc n) zero e h = h
value_replicate (suc n) (suc i) e h = value_replicate n i e h

empty_parts :
    (v : ℕ)
    → v < 2 ^ 64
    → (is_used v (empty_entry v) ≡ false) × (is_removed v (empty_entry v) ≡ false)
empty_parts v h = (ground (arith, kind-empty_entry v h), ground (arith, kind-empty_entry v h))

cleared-IsValid :
    (k : ℕ) (base : Hash)
    → base.capacity ≡ 2 ^ k
    → 2 ^ k ≤ 2 ^ 31
    → base.empty_value < 2 ^ 64
    → IsValid k (table base (replicate base.capacity (empty_entry base.empty_value)) 0)
cleared-IsValid k base cap small ev = record {
  width = length-replicate base.capacity (empty_entry base.empty_value) ∙ cap;
  capacity_is = cap;
  small = small;
  empty_small = ev;
  value_small = λ i. value_replicate base.capacity i (empty_entry base.empty_value) ev;
  used_count =
      tally-replicate (is_used base.empty_value) _ base.capacity
        (empty_parts base.empty_value ev).0;
  removed_count =
      tally-replicate (is_removed base.empty_value) _ base.capacity
        (empty_parts base.empty_value ev).1;
  spare = omega (arith, one-le-pow k 2);
  reached = λ s lt u. absurd (
      ground (
        arith,
        u,
        ap (λ e. is_used base.empty_value e)
            (entry_at-replicate base.capacity s (empty_entry base.empty_value)
              (omega (arith, cap))),
        (empty_parts base.empty_value ev).0,
      ));
}

holds-cleared :
    (v n : ℕ) (p : Entry → Bool) → v < 2 ^ 64 → holds v (replicate n (empty_entry v)) p ≡ 0
holds-cleared v n p h =
    tally-replicate (select v p) (empty_entry v) n (ground (arith, (empty_parts v h).0))

-- What a table must satisfy to be copied from.
pub record Source (t : Hash) : Type 0 where
  pub empty_small : t.empty_value < 2 ^ 64
  pub value_small : (i : ℕ) → (entry_at t.entries i).value < 2 ^ 64
  pub used_count : tally (is_used t.empty_value) t.entries ≡ t.count

-- `t'` has the entries of `t`, with a capacity of `2 ^ k` and no gravestone.
pub record Rehashed (k : ℕ) (t t' : Hash) : Type 0 where
  pub valid : IsValid k t'
  pub same_allocator : t'.has_allocator ≡ t.has_allocator
  pub same_count : t'.count ≡ t.count
  pub no_gravestone : t'.gravestone_count ≡ 0
  pub same_empty : t'.empty_value ≡ t.empty_value
  pub content :
      (p : Entry → Bool) → holds t.empty_value t'.entries p ≡ holds t.empty_value t.entries p

-- The number of rehashes plays no part.
rehashed_times-IsValid :
    {k : ℕ} {t : Hash} (n : ℕ) → IsValid k t → IsValid k (record t { rehashed_times = n })
rehashed_times-IsValid n v = record {
  width = v.width;
  capacity_is = v.capacity_is;
  small = v.small;
  empty_small = v.empty_small;
  value_small = v.value_small;
  used_count = v.used_count;
  removed_count = v.removed_count;
  spare = v.spare;
  reached = v.reached;
}

copy_rehash-run :
    (to from : Hash) (es : List Entry)
    → place_all from from.entries (table to (replicate to.capacity (empty_entry to.empty_value)) 0)
      ≡ some es
    → copy_rehash to from
      ≡ some (record (table to es from.count) { rehashed_times = (to.rehashed_times + 1) % 2 ^ 32 })
unfolding copy_rehash hash_clear
copy_rehash-run to from es run = ground (arith, run)

pub copy_rehash-Rehashed :
    (k : ℕ) (to from : Hash)
    → Source from
    → from.empty_value ≡ to.empty_value
    → to.has_allocator ≡ from.has_allocator
    → to.capacity ≡ 2 ^ k
    → 2 ^ k ≤ 2 ^ 31
    → from.count < 2 ^ k
    → (t' : Hash) × (copy_rehash to from ≡ some t') × Rehashed k from t'
copy_rehash-Rehashed k to from s same allocates cap_is small room =
    let ev : to.empty_value < 2 ^ 64 = omega (arith, s.empty_small, same) in
    let counted : tally (is_used to.empty_value) from.entries ≡ from.count =
      ap (λ x. tally (is_used x) from.entries) (sym same) ∙ s.used_count in
    let empty = empty_entry to.empty_value in
    let (es, run, valid, content) =
      place_all-Copied (record to { count = 0; gravestone_count = 0 }) from from.entries
        (replicate to.capacity empty) 0 same (cleared-IsValid k to cap_is small ev) s.value_small
        (omega (arith, counted, room)) in
    (
      record (table to es from.count) { rehashed_times = (to.rehashed_times + 1) % 2 ^ 32 },
      copy_rehash-run to from es run,
      record {
        valid =
            rehashed_times-IsValid ((to.rehashed_times + 1) % 2 ^ 32)
              (subst (λ n. IsValid k (table to es n)) (omega (arith, counted)) valid);
        same_allocator = allocates;
        same_count = refl;
        no_gravestone = refl;
        same_empty = sym same;
        content = λ p.
            subst (λ x. holds x es p ≡ holds x from.entries p) (sym same)
              (omega (arith, content p, holds-cleared to.empty_value to.capacity p ev));
      },
    )

double_middle : (a b : ℕ) → a * 2 * b ≡ a * (b * 2)
double_middle a b = mul_assoc a 2 b ∙ ap (λ x. a * x) (mul_comm 2 b)

rounds_double : (m fuel : ℕ) → 2 ^ suc m * 2 ^ fuel ≡ 2 ^ m * 2 ^ suc fuel
rounds_double m fuel =
    ap (λ x. x * 2 ^ fuel) (pow-suc 2 m)
    ∙ (double_middle (2 ^ m) (2 ^ fuel) ∙ ap (λ x. 2 ^ m * x) (sym (pow-suc 2 fuel)))

-- The doubling stops: `rehash_to` is `2 ^ m` and the rounds left reach 2 ^ 32.
pub grow_to-Fits :
    (fuel m required : ℕ)
    → required ≤ 3 * 2 ^ 28
    → 2 ^ m ≤ 2 ^ 31
    → 2 ^ 32 ≤ 2 ^ m * 2 ^ fuel
    → 16 ≤ 2 ^ m
    → (n : ℕ) × (grow_to fuel (2 ^ m) required ≡ some (2 ^ n))
      × (required ≤ 2 ^ n * 3 / 4)
      × (2 ^ n ≤ 2 ^ 31)
      × (16 ≤ 2 ^ n)
unfolding grow_to
grow_to-Fits zero m required bound small enough low = absurd (omega arith)
grow_to-Fits (suc fuel) m required bound small enough low = elim (dec_lt (2 ^ m * 3 / 4) required) [
  | no fits ↦ (m, ground arith, omega arith, small, low)
  | yes short ↦
      let double : 2 ^ m * 2 ≡ 2 ^ suc m = sym (pow-suc 2 m) in
      let (n, run, fits, n_small, n_low) =
        grow_to-Fits fuel (suc m) required bound (omega (arith, double))
          (omega (arith, double, rounds_double m fuel)) (omega (arith, double)) in
      (n, ground (arith, run, double), fits, n_small, n_low)
]
