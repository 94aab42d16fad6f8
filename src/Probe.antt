-- ===== src/Probe.antt =====
-- The probe sequence of hash.h and map.h: from the slot of the hash the step grows by one each time,
-- `index = (index + iter) & (capacity - 1); iter += 1`, with a capacity that is a power of two.
pub mod Pigeonhole
pub mod Cover
use cbasis.Base.{ℕ, zero, suc, ◌+◌, ◌%◌, ◌^◌}

-- The slot after `n` steps in a table of `2 ^ k` slots.
unfoldable pub probe : ℕ → ℕ → ℕ → ℕ
probe k hash zero = hash % 2 ^ k
probe k hash (suc n) = (probe k hash n + suc n) % 2 ^ k
