-- ===== src/Hash/Tests/Growth.antt =====
-- Insertions into the table of the tests, and into one without entries.
use cbasis.Base.{ℕ, ◌≡◌, ◌⊎◌, inl, ◌==◌, refl, true, [], some, arith}
use cbasis.Hash.Table.{Hash, HashIter, hash_find}
use cbasis.Hash.Rehash.{hash_reserve}
use cbasis.Hash.Update.{Inserted, insert_reserved}
use cbasis.Hash.Count.{tally}
use cbasis.Hash.FindInserted.{FindsInserted, find-insert_reserved}
use cbasis.Hash.Reserve.{Usable, Reserved, valid-Usable, hash_reserve_sound}
use cbasis.Hash.Update.{hash_set}
use cbasis.Hash.Set.{Replaced, hash_set_sound}
use cbasis.Hash.Multiset.{Grown, hash_insert_sound}
use cbasis.Hash.Content.{holds}
use cbasis.Hash.Tests.{two, two-IsValid}
use cbasis.Hash.Update.{hash_insert}
use cbasis.Hash.Tests.{blank_entries}

find-insert_reserved_example :
    (r : Inserted) × (it : HashIter) × (insert_reserved two 6 11 true ≡ some r)
    × (hash_find r.table 6 ≡ some it)
    × FindsInserted two 6 11 r it
find-insert_reserved_example =
    find-insert_reserved 2 two 6 11 true two-IsValid (omega arith) refl (omega arith)

-- A table without entries, as hash_init leaves it.
abbrev fresh : Hash
fresh = record two { entries = []; count = 0; capacity = 0; rehashed_times = 0 }

fresh-Usable : Usable fresh
unfolding tally
fresh-Usable = record {
  can_allocate = refl;
  source = record { empty_small = omega arith; value_small = λ i. omega arith; used_count = refl };
  state = inl refl;
}

hash_reserve_sound_example :
    (k : ℕ) × (t' : Hash) × (hash_reserve blank_entries fresh 100 ≡ some t')
    × Reserved k 100 fresh t'
hash_reserve_sound_example =
    hash_reserve_sound blank_entries fresh 100 fresh-Usable (omega arith) (omega arith)
      (omega arith)

hash_insert_sound_example :
    (k : ℕ) × (r : Inserted) × (hash_insert blank_entries two 6 11 ≡ some r) × Grown k two 6 11 r
hash_insert_sound_example =
    hash_insert_sound blank_entries two 6 11 (valid-Usable two-IsValid refl) (omega arith)
      (omega arith) refl

hash_set_sound_example :
    (k : ℕ) × (r : Inserted) × (hash_set blank_entries two 5 11 ≡ some r)
    × (((holds two.empty_value two.entries (λ e. e.hash == 5) ≡ 0) × Grown k two 5 11 r)
        ⊎ Replaced k two 5 11 r)
hash_set_sound_example =
    hash_set_sound blank_entries two 5 11 (valid-Usable two-IsValid refl) (omega arith)
      (omega arith) refl
