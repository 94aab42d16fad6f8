-- ===== src/Hash/Update.antt =====
-- Insertion and removal.
use cbasis.Base.{
  ℕ, zero, suc, ◌+◌, ◌-◌, ◌%◌, ◌^◌, Bool, true, false, ◌&&◌, not, ltb, leb, ◌==◌, if◌then◌else◌,
  List, Option, none, some, load, store, ◌>>=◌, ◌>>◌, require, bit_and,
}
use cbasis.Hash.Table.{
  Entry, Hash, removed_value, hash_entry_is_used, mask, start_index, hash_find_next,
}
use cbasis.Hash.Rehash.{hash_reserve}

-- Where the loop of `_hash_find_or_insert` ends: at an entry with the hash, or at a slot to fill.
pub data Slot : Type 0 where
  present free : ℕ → Slot

-- `empty_index` of the source is the last gravestone passed, or -1.
abbrev pub or_index : Option ℕ → ℕ → ℕ
or_index none i = i
or_index (some g) i = g

unfoldable pub insert_loop : ℕ → Hash → ℕ → Bool → ℕ → ℕ → Option ℕ → Option Slot
insert_loop zero t hash insert_only i it empty_index = none
insert_loop (suc fuel) t hash insert_only i it empty_index = load t.entries i >>= λ e.
    let is_removed = e.value == removed_value t in
    let passed = if is_removed && not insert_only then some i else empty_index in
    let rest =
      require (leb it t.capacity)
      >> insert_loop fuel t hash insert_only (bit_and (i + it) (mask t)) (it + 1) passed in
    if insert_only
    then (if hash_entry_is_used t e then rest else some (free i))
    else if e.value == t.empty_value
    then some (free (or_index empty_index i))
    else if not is_removed && (e.hash == hash)
    then some (present i)
    else rest

-- Filling a slot: a gravestone that is written over is counted no more.
unfoldable pub fill_slot : Hash → ℕ → ℕ → ℕ → Option Hash
fill_slot t i hash value = load t.entries i >>= λ e.
    store t.entries i (record { hash = hash; value = value }) >>= λ entries. some (record t {
      entries = entries;
      count = (t.count + 1) % 2 ^ 32;
      gravestone_count =
          if e.value == removed_value t
          then (t.gravestone_count + 2 ^ 32 - 1) % 2 ^ 32
          else t.gravestone_count;
    })

-- The result of `_hash_find_or_insert` with `*index`.
pub record Inserted : Type 0 where
  pub inserted : Bool
  pub index : ℕ
  pub table : Hash

unfoldable pub finish_insert : Hash → ℕ → ℕ → Slot → Option Inserted
finish_insert t hash value (present i) = some (record { inserted = false; index = i; table = t })
finish_insert t hash value (free i) =
    fill_slot t i hash value >>= λ t'. some (record { inserted = true; index = i; table = t' })

-- After the reserve.
unfoldable pub insert_reserved : Hash → ℕ → ℕ → Bool → Option Inserted
insert_reserved t hash value insert_only =
    require (not (value == t.empty_value) && not (value == removed_value t))
    >> (insert_loop (t.capacity + 1) t hash insert_only (bit_and hash (mask t)) 1 none
        >>= finish_insert t hash value)

unfoldable pub hash_remove : Hash → ℕ → Option (Bool × Hash)
hash_remove t found =
    if ltb found t.capacity
    then (require (ltb 0 t.count)
        >> (load t.entries found >>= λ e.
            store t.entries found (record e { value = removed_value t }) >>= λ entries. some (
              true,
              record t {
                entries = entries;
                count = (t.count + 2 ^ 32 - 1) % 2 ^ 32;
                gravestone_count = (t.gravestone_count + 1) % 2 ^ 32;
              },
            )))
    else some (false, t)

-- The loop of `hash_remove_with_hash`: each round removes what it finds.
unfoldable pub remove_with_hash_loop : ℕ → Hash → ℕ → ℕ → ℕ → ℕ → Option (ℕ × Hash)
remove_with_hash_loop zero t hash index iter count = none
remove_with_hash_loop (suc fuel) t hash index iter count =
    hash_find_next t hash index iter >>= λ it.
    let rest = λ (t' : Hash). remove_with_hash_loop fuel t' hash it.index it.iter (count + 1) in
    if it.found then (hash_remove t it.index >>= λ r. rest r.1) else some (count, t)

unfoldable pub hash_remove_with_hash : Hash → ℕ → Option (ℕ × Hash)
hash_remove_with_hash t hash =
    remove_with_hash_loop (t.capacity + 1) t hash (start_index t hash) 1 0

-- The loop of `hash_remove_with_value` does not step past an entry that it keeps.
unfoldable pub remove_with_value_loop : ℕ → Hash → ℕ → ℕ → ℕ → ℕ → ℕ → Option (ℕ × Hash)
remove_with_value_loop zero t hash value index iter count = none
remove_with_value_loop (suc fuel) t hash value index iter count =
    hash_find_next t hash index iter >>= λ it.
    let next =
      λ (t' : Hash) (n : ℕ). remove_with_value_loop fuel t' hash value it.index it.iter n in
    if it.found
    then (load t.entries it.index >>= λ e.
        if e.value == value
        then (hash_remove t it.index >>= λ r. next r.1 (if r.0 then count + 1 else count))
        else next t count)
    else some (count, t)

unfoldable pub hash_remove_with_value : ℕ → Hash → ℕ → ℕ → Option (ℕ × Hash)
hash_remove_with_value fuel t hash value =
    remove_with_value_loop fuel t hash value (start_index t hash) 1 0

module _ (alloc : ℕ → List Entry) where
  unfoldable pub hash_find_or_insert : Hash → ℕ → ℕ → Bool → Option Inserted
  hash_find_or_insert t hash value insert_only =
      hash_reserve alloc t (t.count + 1) >>= λ t'. insert_reserved t' hash value insert_only

  unfoldable pub hash_insert : Hash → ℕ → ℕ → Option Inserted
  hash_insert t hash value = hash_find_or_insert t hash value true

  unfoldable pub hash_set : Hash → ℕ → ℕ → Option Inserted
  hash_set t hash value = hash_find_or_insert t hash value false >>= λ r.
      if r.inserted
      then some r
      else (load r.table.entries r.index >>= λ e.
          store r.table.entries r.index (record e { value = value }) >>= λ entries.
          some (record r { table = record (r.table) { entries = entries } }))
