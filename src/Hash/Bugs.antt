-- ===== src/Hash/Bugs.antt =====
-- What hash_find_with_value, hash_remove_with_value and hash_rehash_in_place do where an entry
-- with the hash has another value, and where a table has entries.
use cbasis.Base.{
  ℕ, zero, suc, ◌+◌, ◌%◌, ◌^◌, ◌<◌, ◌≡◌, ◌≢◌, ◌⊎◌, inl, inr, ◌∙◌, sym, refl, subst, Bool,
  Bool-cases, true, false, ◌==◌, ltb, length, load, List, Option, some, none, bit_and, arith,
}
use cbasis.Hash.Table.{
  Entry, Hash, HashIter, mask, find_loop, hash_find_next, start_index, find_with_value_loop,
  hash_find, hash_find_with_value,
}
use cbasis.Hash.Update.{remove_with_value_loop, hash_remove_with_value}
use cbasis.Hash.Rehash.{
  hash_copy_simple, hash_rehash_in_place, hash_copy_rehash, copy_rehash, rehash_capacity,
  fresh_table,
}

-- A search that starts where it would stop.
record Stays (t : Hash) (hash value index iter : ℕ) : Type 0 where
  pub at : Entry
  pub loaded : load t.entries index ≡ some at
  pub other : at.value ≢ value
  pub again :
      hash_find_next t hash index iter ≡ some (record { found = true; index = index; iter = iter })

find_stuck :
    (fuel : ℕ) (t : Hash) (hash value index iter : ℕ)
    → Stays t hash value index iter
    → find_with_value_loop fuel t hash value index iter ≡ none
unfolding find_with_value_loop
find_stuck zero t hash value index iter s = refl
find_stuck (suc fuel) t hash value index iter s =
    ground (arith, s.again, s.loaded, s.other, find_stuck fuel t hash value index iter s)

remove_stuck :
    (fuel : ℕ) (t : Hash) (hash value index iter n : ℕ)
    → Stays t hash value index iter
    → remove_with_value_loop fuel t hash value index iter n ≡ none
unfolding remove_with_value_loop
remove_stuck zero t hash value index iter n s = refl
remove_stuck (suc fuel) t hash value index iter n s =
    ground (arith, s.again, s.loaded, s.other, remove_stuck fuel t hash value index iter n s)

-- A round of the search stops, or leaves the rest to the next.
stop_or_step :
    (fuel : ℕ) (t : Hash) (hash index iter : ℕ) (it : HashIter)
    → find_loop (suc fuel) t hash index iter ≡ some it
    → ((it.index ≡ index)
        × (it.iter ≡ iter)
        × ((n : ℕ) → find_loop (suc n) t hash index iter ≡ some it))
      ⊎ (find_loop fuel t hash (bit_and (index + iter) (mask t)) ((iter + 1) % 2 ^ 32) ≡ some it)
unfolding find_loop
stop_or_step fuel t hash index iter it run = ground (arith, run)

find_again :
    (fuel : ℕ) (t : Hash) (hash index iter : ℕ) (it : HashIter)
    → find_loop fuel t hash index iter ≡ some it
    → (n : ℕ) → find_loop (suc n) t hash it.index it.iter ≡ some it
unfolding find_loop
find_again zero t hash index iter it run n = absurd (ground arith)
find_again (suc fuel) t hash index iter it run n =
    elim (stop_or_step fuel t hash index iter it run) [
      | inl (same_index, same_iter, again) ↦
          subst (λ i. find_loop (suc n) t hash i it.iter ≡ some it) (sym same_index)
            (subst (λ j. find_loop (suc n) t hash index j ≡ some it) (sym same_iter) (again n))
      | inr later ↦ find_again fuel t hash _ _ it later n
    ]

plus_one : (n : ℕ) → n + 1 ≡ suc n
plus_one n = omega arith

next_again :
    (t : Hash) (hash index iter : ℕ) (it : HashIter)
    → hash_find_next t hash index iter ≡ some it
    → it.found ≡ true
    → hash_find_next t hash it.index it.iter ≡ some it
unfolding hash_find_next
next_again t hash index iter it run found = elim (Bool-cases (ltb 0 t.count)) [
  | inl some_used ↦
      let again =
        find_again (t.capacity + 1) t hash index iter it (ground (arith, run)) t.capacity in
      ground (arith, again, plus_one t.capacity)
  | inr no_used ↦ absurd (ground (arith, run))
]

first-Stays :
    (t : Hash) (hash value : ℕ) (it : HashIter) (e : Entry)
    → hash_find t hash ≡ some it
    → it.found ≡ true
    → load t.entries it.index ≡ some e
    → e.value ≢ value
    → Stays t hash value it.index it.iter
unfolding hash_find
first-Stays t hash value it e run found at other = record {
  at = e;
  loaded = at;
  other = other;
  again = next_again t hash (start_index t hash) 1 it run found ∙ ground (arith, found);
}

-- Where the first entry that hash_find finds has another value, hash_find_with_value does not
-- return, whatever the number of rounds: its loop does not step the iterator.
pub hash_find_with_value_stuck :
    (t : Hash) (hash value : ℕ) (it : HashIter) (e : Entry)
    → hash_find t hash ≡ some it
    → it.found ≡ true
    → load t.entries it.index ≡ some e
    → e.value ≢ value
    → (fuel : ℕ) → hash_find_with_value fuel t hash value ≡ none
unfolding hash_find_with_value find_with_value_loop hash_find
hash_find_with_value_stuck t hash value it e run found at other zero = refl
hash_find_with_value_stuck t hash value it e run found at other (suc fuel) = ground (
  arith,
  run,
  find_stuck fuel t hash value it.index it.iter (first-Stays t hash value it e run found at other),
)

-- Where the first entry that hash_find finds has another value, hash_remove_with_value does not
-- return either.
pub hash_remove_with_value_stuck :
    (t : Hash) (hash value : ℕ) (it : HashIter) (e : Entry)
    → hash_find t hash ≡ some it
    → it.found ≡ true
    → load t.entries it.index ≡ some e
    → e.value ≢ value
    → (fuel : ℕ) → hash_remove_with_value fuel t hash value ≡ none
unfolding hash_remove_with_value remove_with_value_loop hash_find
hash_remove_with_value_stuck t hash value it e run found at other zero = refl
hash_remove_with_value_stuck t hash value it e run found at other (suc fuel) = ground (
  arith,
  run,
  remove_stuck fuel t hash value it.index it.iter 0
      (first-Stays t hash value it e run found at other),
)

some_or_none : {A : Type 0} (m : Option A) → ((a : A) × (m ≡ some a)) ⊎ (m ≡ none)
some_or_none none = inr refl
some_or_none (some a) = inl (a, refl)

copy_rehash-count : (to from t' : Hash) → copy_rehash to from ≡ some t' → t'.count ≡ from.count
unfolding copy_rehash
copy_rehash-count to from t' run = ground (arith, run)

hash_copy_rehash-count :
    (alloc : ℕ → List Entry) (same : Bool) (to from t' : Hash) (to_size : ℕ)
    → hash_copy_rehash alloc same to from to_size ≡ some t'
    → t'.count ≡ from.count
unfolding hash_copy_rehash
hash_copy_rehash-count alloc same to from t' to_size run =
    elim (some_or_none (rehash_capacity from to_size)) [
      | inl (n, at) ↦ ground (
        arith,
        run,
        at,
        copy_rehash-count (record to { entries = alloc n; capacity = n }) from t',
        copy_rehash-count to from t',
      )
      | inr failed ↦ absurd (ground (arith, run, failed))
    ]

hash_copy_simple-count :
    (to from t' : Hash) → hash_copy_simple false to from ≡ some t' → t'.count ≡ to.count
unfolding hash_copy_simple
hash_copy_simple-count to from t' run = ground (arith, run)

in_place-count :
    (alloc : ℕ → List Entry) (t t' : Hash) (to_size : ℕ)
    → 0 < length t.entries
    → hash_rehash_in_place alloc t to_size ≡ some t'
    → t'.count ≡ 0
unfolding hash_rehash_in_place
in_place-count alloc t t' to_size pos run =
    let null : (length t.entries == 0) ≡ false = ground arith in
    elim (some_or_none (hash_copy_simple false (fresh_table t.empty_value) t)) [
      | inl (temp, at) ↦
          hash_copy_rehash-count alloc false t temp t' to_size (ground (arith, run, at, null))
          ∙ hash_copy_simple-count (fresh_table t.empty_value) t temp at
      | inr failed ↦ absurd (ground (arith, run, failed, null))
    ]

-- Where hash_rehash_in_place of a table with entries returns, the count of the table is 0 and
-- hash_find finds nothing in it, for no hash: hash_copy_simple does not copy the count.
pub hash_rehash_in_place_loses :
    (alloc : ℕ → List Entry) (t t' : Hash) (to_size : ℕ)
    → 0 < length t.entries
    → hash_rehash_in_place alloc t to_size ≡ some t'
    → (t'.count ≡ 0)
      × ((hash : ℕ) → (it : HashIter) × (hash_find t' hash ≡ some it) × (it.found ≡ false))
unfolding hash_find hash_find_next
hash_rehash_in_place_loses alloc t t' to_size pos run =
    let empty = in_place-count alloc t t' to_size pos run in
    (
      empty,
      λ hash. (
        record { found = false; index = start_index t' hash; iter = 1 },
        ground (arith, empty),
        refl,
      ),
    )
