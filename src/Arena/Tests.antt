-- ===== src/Arena/Tests.antt =====
-- Witnesses of the claims on the arena: one of 64 KiB, with commits of 4 KiB that succeed.
use cbasis.Base.{ℕ, ◌+◌, ◌%◌, ◌^◌, ◌<◌, ◌≤◌, ◌≡◌, inr, refl, Bool, true, false, none, some, arith}
use cbasis.Arena.{Arena, arena_reset_ptr, arena_push_nonzero, arena_push}
use cbasis.Arena.Push.{Valid, arena_push_nonzero_sound, arena_push_overruns}

abbrev always : ℕ → ℕ → Bool
always from to = true

abbrev fresh : Arena
fresh = record {
  start = 65536;
  used_to = 65536;
  commit_to = 65536;
  reserved_to = 131072;
  commit_granularity = 4096;
}

-- Two granules are committed, the second is free.
abbrev granule_free : Arena
granule_free = record {
  start = 65536;
  used_to = 69632;
  commit_to = 73728;
  reserved_to = 131072;
  commit_granularity = 4096;
}

fresh-Valid : Valid fresh
fresh-Valid = record {
  from_start = omega arith;
  committed = omega arith;
  reserved = omega arith;
  granular = omega arith;
}

arena_push_nonzero_sound_example :
    (b : Arena) × (out : ℕ) × (error : Bool) × (arena_push_nonzero always true fresh 100 (2 ^ 3)
      ≡ some (b, out, error))
    × (out % 2 ^ 3 ≡ 0)
    × (fresh.used_to ≤ out)
    × (out < fresh.used_to + 2 ^ 3)
    × (b.used_to ≡ out + 100)
    × (error ≡ false → Valid b)
    × (error ≡ true → b ≡ arena_reset_ptr fresh (out + 100))
arena_push_nonzero_sound_example =
    arena_push_nonzero_sound always fresh 100 3 61 fresh-Valid refl (omega arith) (omega arith)
      (inr refl)

granule_free-Valid : Valid granule_free
granule_free-Valid = record {
  from_start = omega arith;
  committed = omega arith;
  reserved = omega arith;
  granular = omega arith;
}

-- 5000 bytes need 904 more than are free; the commit counts its granule from the end of the use.
arena_push_overruns_example :
    ((b : Arena) × (out : ℕ) × (arena_push_nonzero always true granule_free 5000 (2 ^ 3)
        ≡ some (b, out, false))
      × (b.used_to ≡ out + 5000)
      × (b.commit_to < b.used_to))
    × (arena_push always granule_free 5000 (2 ^ 3) ≡ none)
arena_push_overruns_example =
    arena_push_overruns always granule_free 5000 3 61 granule_free-Valid refl (omega arith)
      (omega arith) (omega arith) (omega arith) (omega arith) (λ from to. refl)
