-- ===== src/Hash/Tests.antt =====
-- A table of hash.h with two entries of one hash, and the theorems at it.
mod Growth
mod Amiss
use cbasis.Base.{
  ℕ, zero, suc, ◌+◌, ◌^◌, ◌<◌, ◌≡◌, ◌≢◌, ◌⊎◌, inl, ◌==◌, refl, true, false, List, [], ◌∷◌, ◌++◌,
  replicate, some, none, arith,
}
use cbasis.Probe.{probe}
use cbasis.Probe.Cover.{probe_covers}
use cbasis.Hash.Table.{
  Entry, Hash, HashIter, hash_find, hash_find_next, find_loop, start_index, hash_find_with_value,
}
use cbasis.Hash.Rehash.{
  hash_reserve, hash_rehash_in_place, hash_copy_rehash, hash_copy_simple, copy_rehash, hash_clear,
  place_all, place, rehash_capacity, grow_to,
}
use cbasis.Hash.Update.{
  Inserted, insert_reserved, hash_remove, hash_remove_with_hash, hash_remove_with_value,
}
use cbasis.Hash.Count.{entry_at, is_used, is_empty, tally}
use cbasis.Hash.Valid.{IsValid, Reached}
use cbasis.Hash.Find.{hash_find_total, hash_find_found, hash_find_absent}
use cbasis.Hash.Remove.{hash_remove_sound}
use cbasis.Hash.RemoveAll.{hash_remove_with_hash_sound}
use cbasis.Hash.Round.{Cleared}
use cbasis.Hash.Insert.{insert_only_sound, find_or_insert_sound, Added, FoundOrAdded}
use cbasis.Hash.FindInserted.{find-insert_reserved}
use cbasis.Hash.Reserve.{Usable, Reserved, valid-Usable, hash_reserve_sound}
use cbasis.Hash.Multiset.{Grown, FoundIn, hash_insert_sound, hash_find_or_insert_sound}
use cbasis.Hash.Content.{holds}
use cbasis.Hash.Bugs.{
  hash_find_with_value_stuck, hash_remove_with_value_stuck, hash_rehash_in_place_loses,
}

-- Both entries start at slot 1; the second stands one step on.
abbrev two : Hash
two = record {
  has_allocator = true;
  entries =
      record { hash = 0; value = 0 }
      ∷ record { hash = 5; value = 7 }
      ∷ record { hash = 5; value = 9 }
      ∷ record { hash = 0; value = 0 }
      ∷ [];
  count = 2;
  capacity = 4;
  gravestone_count = 0;
  rehashed_times = 1;
  empty_value = 0;
}

two-value_small : (i : ℕ) → (entry_at two.entries i).value < 2 ^ 64
two-value_small zero = omega arith
two-value_small (suc zero) = omega arith
two-value_small (suc (suc zero)) = omega arith
two-value_small (suc (suc (suc zero))) = omega arith
two-value_small (suc (suc (suc (suc i)))) = omega arith

first-Reached : Reached 2 0 two.entries 1
unfolding probe
first-Reached = record {
  steps = 0;
  steps_lt = omega arith;
  arrives = refl;
  unbroken = λ j p. absurd (omega arith);
}

second_unbroken : (j : ℕ) → j < 1 → is_empty 0 (entry_at two.entries (probe 2 5 j)) ≡ false
unfolding probe
second_unbroken zero p = refl
second_unbroken (suc j) p = absurd (omega arith)

second-Reached : Reached 2 0 two.entries 2
unfolding probe
second-Reached = record {
  steps = 1;
  steps_lt = omega arith;
  arrives = refl;
  unbroken = second_unbroken;
}

two-Reached :
    (s : ℕ) → s < 2 ^ 2 → is_used 0 (entry_at two.entries s) ≡ true → Reached 2 0 two.entries s
two-Reached zero lt u = absurd (ground arith)
two-Reached (suc zero) lt u = first-Reached
two-Reached (suc (suc zero)) lt u = second-Reached
two-Reached (suc (suc (suc zero))) lt u = absurd (ground arith)
two-Reached (suc (suc (suc (suc s)))) lt u = absurd (omega arith)

two-IsValid : IsValid 2 two
unfolding tally
two-IsValid = record {
  width = refl;
  capacity_is = refl;
  small = omega arith;
  empty_small = omega arith;
  value_small = two-value_small;
  used_count = refl;
  removed_count = refl;
  spare = omega arith;
  reached = two-Reached;
}

abbrev blank_entries : ℕ → List Entry
blank_entries n = replicate n (record { hash = 0; value = 0 })

abbrev at_one : HashIter
at_one = record { found = true; index = 1; iter = 1 }

abbrev nowhere : HashIter
nowhere = record { found = false; index = 3; iter = 1 }

finds_five : hash_find two 5 ≡ some at_one
unfolding hash_find hash_find_next find_loop start_index
finds_five = refl

finds_no_three : hash_find two 3 ≡ some nowhere
unfolding hash_find hash_find_next find_loop start_index
finds_no_three = refl

hash_find_absent_example : (entry_at two.entries 2).hash ≢ 3
hash_find_absent_example =
    hash_find_absent 2 two 3 nowhere two-IsValid finds_no_three refl 2 (omega arith) refl

hash_find_total_example : (it : HashIter) × (hash_find two 3 ≡ some it)
hash_find_total_example = hash_find_total 2 two 3 two-IsValid

hash_remove_sound_example :
    (t' : Hash) × (hash_remove two 1 ≡ some (true, t'))
    × IsValid 2 t'
    × (t'.count + 1 ≡ two.count)
    × (is_used t'.empty_value (entry_at t'.entries 1) ≡ false)
    × ((j : ℕ) → 1 ≢ j → entry_at t'.entries j ≡ entry_at two.entries j)
hash_remove_sound_example = hash_remove_sound 2 two 1 two-IsValid (omega arith) refl

hash_remove_with_hash_sound_example :
    (n : ℕ) × (t' : Hash) × (hash_remove_with_hash two 5 ≡ some (n, t'))
    × (t'.count + n ≡ two.count)
    × Cleared 2 5 two t'
hash_remove_with_hash_sound_example = hash_remove_with_hash_sound 2 two 5 two-IsValid
