-- ===== src/Hash/Table.antt =====
-- The table of hash.h, and the functions that only read it. A failed ASSERT or TEST and an access
-- outside `entries` are `none`; so is a loop that runs out of its fuel, `capacity + 1` rounds,
-- which the ASSERT on `iter` rules out before.
use cbasis.Base.{
  ℕ, zero, suc, ◌+◌, ◌-◌, ◌%◌, ◌^◌, Bool, true, false, ◌&&◌, not, ltb, leb, ◌==◌, if◌then◌else◌,
  List, Option, none, some, load, ◌>>=◌, ◌>>◌, require, bit_and,
}

pub record Entry : Type 0 where
  pub hash : ℕ
  pub value : ℕ

-- `has_allocator` is `allocator != NULL`; NULL `entries` are the empty list.
pub record Hash : Type 0 where
  pub has_allocator : Bool
  pub entries : List Entry
  pub count : ℕ
  pub capacity : ℕ
  pub gravestone_count : ℕ
  pub rehashed_times : ℕ
  pub empty_value : ℕ

abbrev pub removed_value : Hash → ℕ
removed_value t = (t.empty_value + 1) % 2 ^ 64

-- `entry->value - table->empty_value > 1`, in 64 bits.
abbrev pub hash_entry_is_used : Hash → Entry → Bool
hash_entry_is_used t e = ltb 1 ((e.value + 2 ^ 64 - t.empty_value) % 2 ^ 64)

-- `capacity - 1` in 32 bits.
abbrev pub mask : Hash → ℕ
mask t = (t.capacity + 2 ^ 32 - 1) % 2 ^ 32

-- The result of `_hash_find_next` with the iterator; `entry` is `entries[index]`, or NULL where
-- nothing was found.
pub record HashIter : Type 0 where
  pub found : Bool
  pub index : ℕ
  pub iter : ℕ

unfoldable pub find_loop : ℕ → Hash → ℕ → ℕ → ℕ → Option HashIter
find_loop zero t hash index iter = none
find_loop (suc fuel) t hash index iter = load t.entries index >>= λ e.
    let rest =
      require (leb iter t.capacity)
      >> find_loop fuel t hash (bit_and (index + iter) (mask t)) ((iter + 1) % 2 ^ 32) in
    if e.value == t.empty_value
    then some (record { found = false; index = index; iter = iter })
    else if e.hash == hash && not (e.value == removed_value t)
    then some (record { found = true; index = index; iter = iter })
    else rest

unfoldable pub hash_find_next : Hash → ℕ → ℕ → ℕ → Option HashIter
hash_find_next t hash index iter =
    if ltb 0 t.count
    then find_loop (t.capacity + 1) t hash index iter
    else some (record { found = false; index = index; iter = iter })

-- `_hash_it_make` sets `index` to this and `iter` to 1.
unfoldable pub start_index : Hash → ℕ → ℕ
start_index t hash = bit_and hash (mask t)

unfoldable pub hash_find : Hash → ℕ → Option HashIter
hash_find t hash = hash_find_next t hash (start_index t hash) 1

-- With `iter` 0 the iteration begins, else it steps behind the entry returned last.
unfoldable pub hash_iterate : Hash → ℕ → ℕ → ℕ → Option HashIter
hash_iterate t hash index iter =
    if iter == 0
    then hash_find_next t hash (start_index t hash) 1
    else hash_find_next t hash (bit_and (index + iter) (mask t)) ((iter + 1) % 2 ^ 32)

-- The loop body does not step the iterator: a round starts where the one before found an entry.
unfoldable pub find_with_value_loop : ℕ → Hash → ℕ → ℕ → ℕ → ℕ → Option HashIter
find_with_value_loop zero t hash value index iter = none
find_with_value_loop (suc fuel) t hash value index iter = hash_find_next t hash index iter >>= λ it.
    let rest = find_with_value_loop fuel t hash value it.index it.iter in
    if it.found
    then (load t.entries it.index >>= λ e. if e.value == value then some it else rest)
    else some it

unfoldable pub hash_find_with_value : ℕ → Hash → ℕ → ℕ → Option HashIter
hash_find_with_value fuel t hash value =
    find_with_value_loop fuel t hash value (start_index t hash) 1
