-- ===== src/Hash/Tests/Amiss.antt =====
-- The table of the tests in the functions of hash.h that go amiss.
use cbasis.Base.{ℕ, ◌≡◌, ◌≢◌, refl, false, ◌∷◌, ◌++◌, some, none, arith}
use cbasis.Hash.Table.{Hash, HashIter, hash_find, hash_find_with_value}
use cbasis.Hash.Rehash.{
  hash_rehash_in_place, hash_copy_rehash, hash_copy_simple, copy_rehash, hash_clear, place_all,
  place, rehash_capacity, grow_to,
}
use cbasis.Hash.Bugs.{hash_find_with_value_stuck, hash_rehash_in_place_loses}
use cbasis.Hash.Tests.{two, at_one, finds_five}
use cbasis.Hash.Tests.{blank_entries}

not_nine : ◌≢◌ {A = ℕ} 7 9
not_nine e = omega arith

hash_find_with_value_stuck_example : hash_find_with_value 1000 two 5 9 ≡ none
hash_find_with_value_stuck_example =
    hash_find_with_value_stuck two 5 9 at_one (record { hash = 5; value = 7 }) finds_five refl refl
      not_nine 1000

abbrev in_place : Hash
in_place = record two {
  entries =
      blank_entries 5
      ++ (record { hash = 5; value = 7 } ∷ record { hash = 5; value = 9 } ∷ blank_entries 9);
  count = 0;
  capacity = 16;
  rehashed_times = 2;
}

rehashes : hash_rehash_in_place blank_entries two 2 ≡ some in_place
unfolding hash_rehash_in_place hash_copy_rehash hash_copy_simple copy_rehash hash_clear place_all
    place rehash_capacity grow_to
rehashes = refl

hash_rehash_in_place_loses_example :
    (in_place.count ≡ 0)
    × ((hash : ℕ) → (it : HashIter) × (hash_find in_place hash ≡ some it) × (it.found ≡ false))
hash_rehash_in_place_loses_example =
    hash_rehash_in_place_loses blank_entries two in_place 2 (omega arith) rehashes
