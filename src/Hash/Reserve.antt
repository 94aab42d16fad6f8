-- ===== src/Hash/Reserve.antt =====
-- hash_reserve, and the whole of hash_insert.
use cbasis.Base.{
  ℕ, ◌+◌, ◌*◌, ◌/◌, ◌%◌, ◌^◌, ◌<◌, ◌≤◌, ◌≡◌, ◌⊎◌, ◌∙◌, refl, Bool, true, false, Bool-cases, inl,
  inr, leb, List, some, arith,
}
use cbasis.Hash.Table.{Entry, Hash}
use cbasis.Hash.Rehash.{copy_rehash, required_size, rehash_capacity, hash_copy_rehash, hash_reserve}
use cbasis.Hash.Content.{holds}
use cbasis.Hash.Valid.{IsValid}
use cbasis.Hash.Grow.{Source, copy_rehash-Rehashed, grow_to-Fits}

-- A table as the functions of hash.h leave it: still without entries, or valid.
pub record Usable (t : Hash) : Type 0 where
  pub can_allocate : t.has_allocator ≡ true
  pub source : Source t
  pub state : (t.capacity ≡ 0) ⊎ ((k : ℕ) × IsValid k t)

pub valid-Usable : {k : ℕ} {t : Hash} → IsValid k t → t.has_allocator ≡ true → Usable t
valid-Usable {k = k} v can = record {
  can_allocate = can;
  source = record {
    empty_small = v.empty_small;
    value_small = v.value_small;
    used_count = v.used_count;
  };
  state = inr (k, v);
}

-- `t'` holds what `t` does and has room for `n` entries beside its gravestones.
pub record Reserved (k n : ℕ) (t t' : Hash) : Type 0 where
  pub valid : IsValid k t'
  pub same_allocator : t'.has_allocator ≡ t.has_allocator
  pub same_count : t'.count ≡ t.count
  pub same_empty : t'.empty_value ≡ t.empty_value
  pub room : n + t'.gravestone_count < 2 ^ k
  pub content :
      (p : Entry → Bool) → holds t.empty_value t'.entries p ≡ holds t.empty_value t.entries p

rehash_capacity-Fits :
    (from : Hash) (to_size : ℕ)
    → to_size ≤ 3 * 2 ^ 28
    → from.count + from.gravestone_count ≤ 3 * 2 ^ 28
    → (n : ℕ) × (rehash_capacity from to_size ≡ some (2 ^ n))
      × (to_size ≤ 2 ^ n * 3 / 4)
      × (2 ^ n ≤ 2 ^ 31)
      × (16 ≤ 2 ^ n)
unfolding rehash_capacity
rehash_capacity-Fits from to_size small few =
    let bound : required_size from to_size ≤ 3 * 2 ^ 28 = ground arith in
    let enough : to_size ≤ required_size from to_size = ground arith in
    let (n, run, fits, n_small, n_low) =
      grow_to-Fits 64 4 (required_size from to_size) bound (omega arith) (omega arith)
        (omega arith) in
    (n, ground (arith, run, n_small), omega (arith, fits, enough), n_small, n_low)

module _ (alloc : ℕ → List Entry) where
  copy_self :
      (t : Hash) (to_size n : ℕ)
      → t.has_allocator ≡ true
      → rehash_capacity t to_size ≡ some n
      → hash_copy_rehash alloc true t t to_size
        ≡ copy_rehash (record t { entries = alloc n; capacity = n }) t
  unfolding hash_copy_rehash
  copy_self t to_size n can run = ground (arith, can, run)

  reserve-kept :
      (t : Hash) (to_size : ℕ)
      → leb (t.capacity * 3 % 2 ^ 32 / 4) (to_size + t.gravestone_count) ≡ false
      → hash_reserve alloc t to_size ≡ some t
  unfolding hash_reserve
  reserve-kept t to_size enough = ground (arith, enough)

  reserve-grown :
      (t : Hash) (to_size : ℕ)
      → leb (t.capacity * 3 % 2 ^ 32 / 4) (to_size + t.gravestone_count) ≡ true
      → hash_reserve alloc t to_size ≡ hash_copy_rehash alloc true t t to_size
  unfolding hash_reserve
  reserve-grown t to_size short = ground (arith, short)

  kept-Reserved :
      (t : Hash) (to_size : ℕ)
      → leb (t.capacity * 3 % 2 ^ 32 / 4) (to_size + t.gravestone_count) ≡ false
      → (t.capacity ≡ 0) ⊎ ((k : ℕ) × IsValid k t)
      → (k : ℕ) × Reserved k to_size t t
  kept-Reserved t to_size enough (inl none_yet) = absurd (ground arith)
  kept-Reserved t to_size enough (inr (k, v)) = (
    k,
    record {
      valid = v;
      same_allocator = refl;
      same_count = refl;
      same_empty = refl;
      room = ground (arith, enough, v.capacity_is);
      content = λ p. refl;
    },
  )

-- hash_reserve of a table that is valid or has no entries yet, for more entries than it has and at
-- most 3 * 2 ^ 28, with at most as many entries and gravestones now: it returns, and leaves a valid
-- table with the same entries, each as often as before, and room for `to_size` of them.
pub hash_reserve_sound :
    (alloc : ℕ → List Entry) (t : Hash) (to_size : ℕ)
    → Usable t
    → t.count < to_size
    → to_size ≤ 3 * 2 ^ 28
    → t.count + t.gravestone_count ≤ 3 * 2 ^ 28
    → (k : ℕ) × (t' : Hash) × (hash_reserve alloc t to_size ≡ some t') × Reserved k to_size t t'
hash_reserve_sound alloc t to_size u more small few =
    elim (Bool-cases (leb (t.capacity * 3 % 2 ^ 32 / 4) (to_size + t.gravestone_count))) [
      | inr enough ↦
          let (k, kept) = kept-Reserved alloc t to_size enough u.state in
          (k, t, reserve-kept alloc t to_size enough, kept)
      | inl short ↦
          let (n, run, fits, n_small, n_low) = rehash_capacity-Fits t to_size small few in
          let (t', copied, r) =
            copy_rehash-Rehashed n (record t { entries = alloc (2 ^ n); capacity = 2 ^ n }) t
              u.source refl refl refl n_small (omega arith) in
          (
            n,
            t',
            reserve-grown alloc t to_size short
                ∙ (copy_self alloc t to_size (2 ^ n) u.can_allocate run ∙ copied),
            record {
              valid = r.valid;
              same_allocator = r.same_allocator;
              same_count = r.same_count;
              same_empty = r.same_empty;
              room = omega (arith, r.no_gravestone);
              content = r.content;
            },
          )
    ]
