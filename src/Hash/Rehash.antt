-- ===== src/Hash/Rehash.antt =====
-- Allocation, clearing and rehashing. The memory that `_hash_alloc` returns is a parameter: its
-- contents are unspecified.
use cbasis.Base.{
  ℕ, zero, suc, ◌+◌, ◌-◌, ◌*◌, ◌/◌, ◌%◌, ◌^◌, Bool, true, ltb, leb, ◌==◌, if◌then◌else◌, List, [],
  ◌∷◌, Option, none, some, load, store, ◌>>=◌, ◌>>◌, require, length, replicate, bit_and,
}
use cbasis.Hash.Table.{Entry, Hash, hash_entry_is_used, mask}

-- `capacity` entries, all empty.
unfoldable pub hash_clear : Hash → Hash
hash_clear t = record t {
  entries = replicate t.capacity (record { hash = 0; value = t.empty_value });
  count = 0;
  gravestone_count = 0;
}

-- The search for an empty slot of `_hash_copy_rehash`, and the store.
unfoldable pub place : ℕ → List Entry → ℕ → ℕ → Entry → ℕ → ℕ → Option (List Entry)
place zero entries empty_value mask entry i it = none
place (suc fuel) entries empty_value mask entry i it = load entries i >>= λ slot.
    let rest = place fuel entries empty_value mask entry (bit_and (i + it) mask) (it + 1) in
    if slot.value == empty_value then store entries i entry else rest

-- The loop over the entries of `from`.
unfoldable pub place_all : Hash → List Entry → Hash → Option (List Entry)
place_all from [] to = some to.entries
place_all from (e ∷ es) to =
    if hash_entry_is_used from e
    then (place (to.capacity + 1) to.entries to.empty_value (mask to) e
          (bit_and (e.hash % 2 ^ 32) (mask to)) 1
        >>= λ entries. place_all from es (record to { entries = entries }))
    else place_all from es to

-- `_hash_copy_rehash`, without backlinks.
unfoldable pub copy_rehash : Hash → Hash → Option Hash
copy_rehash to from =
    let cleared = hash_clear to in
    place_all from from.entries cleared >>= λ entries. some (record cleared {
      entries = entries;
      count = from.count;
      rehashed_times = (to.rehashed_times + 1) % 2 ^ 32;
    })

-- `while(rehash_to*3/4 < required) rehash_to *= 2`
unfoldable pub grow_to : ℕ → ℕ → ℕ → Option ℕ
grow_to zero rehash_to required = none
grow_to (suc fuel) rehash_to required =
    let rest = grow_to fuel (rehash_to * 2) required in
    if ltb (rehash_to * 3 / 4) required then rest else some rehash_to

abbrev pub required_size : Hash → ℕ → ℕ
required_size from to_size =
    let required =
      if ltb from.count from.gravestone_count
      then from.count
      else (from.gravestone_count + from.count) % 2 ^ 32 in
    if ltb required to_size then to_size else required

-- 64 doublings pass every `isize`.
unfoldable pub rehash_capacity : Hash → ℕ → Option ℕ
rehash_capacity from to_size = grow_to 64 16 (required_size from to_size) >>= λ rehash_to.
    require (leb rehash_to (2 ^ 32 - 1)) >> some rehash_to

-- The function copies neither the count nor the number of rehashes.
unfoldable pub hash_copy_simple : Bool → Hash → Hash → Option Hash
hash_copy_simple same to from =
    if same
    then some to
    else ((if to.capacity == from.capacity
          then some to
          else (require to.has_allocator >> some (record to { capacity = from.capacity })))
        >>= λ resized. some (record resized {
          entries = from.entries;
          gravestone_count = from.gravestone_count;
          empty_value = from.empty_value;
        }))

abbrev pub fresh_table : ℕ → Hash
fresh_table empty_value = record {
  has_allocator = true;
  entries = [];
  count = 0;
  capacity = 0;
  gravestone_count = 0;
  rehashed_times = 0;
  empty_value = empty_value;
}

module _ (alloc : ℕ → List Entry) where
  -- `same` is `to_table->entries == from_table->entries`: then the old entries are read from a
  -- copy of the table, and freed.
  unfoldable pub hash_copy_rehash : Bool → Hash → Hash → ℕ → Option Hash
  hash_copy_rehash same to from to_size = rehash_capacity from to_size >>= λ rehash_to.
      let grown = record to { entries = alloc rehash_to; capacity = rehash_to } in
      if same
      then (require to.has_allocator >> copy_rehash grown from)
      else if ltb to.capacity rehash_to
      then (require to.has_allocator >> copy_rehash grown from)
      else copy_rehash to from

  -- `capacity*3/4` in 32 bits.
  unfoldable pub hash_reserve : Hash → ℕ → Option Hash
  hash_reserve t to_size =
      let rehashed = hash_copy_rehash true t t to_size in
      if leb (t.capacity * 3 % 2 ^ 32 / 4) (to_size + t.gravestone_count) then rehashed else some t

  -- A temporary copy, from which the table is filled again. The entries of the two are the same
  -- pointer only where both are NULL.
  unfoldable pub hash_rehash_in_place : Hash → ℕ → Option Hash
  hash_rehash_in_place t to_size =
      let null = length t.entries == 0 in
      hash_copy_simple null (fresh_table t.empty_value) t >>= λ temp.
      hash_copy_rehash null t temp to_size
