-- ===== src/Align/Tests.antt =====
-- Witnesses of the claims on alignment: 64 is a power of two, and 100 lies between two multiples of 16.
use cbasis.Base.{ℕ, ◌+◌, ◌%◌, ◌^◌, ◌<◌, ◌≤◌, ◌≡◌, ◌↔◌, ◌==◌, refl, true, some, arith}
use cbasis.Align.{is_power_of_two, align_forward, align_backward, is_aligned}
use cbasis.Align.Power.{is_power_of_two_iff}
use cbasis.Align.Aligned.{align_sound}

is_power_of_two_iff_example : (is_power_of_two 64 ≡ true) ↔ ((k : ℕ) × (k < 63) × (64 ≡ 2 ^ k))
is_power_of_two_iff_example = is_power_of_two_iff 64 (omega arith)

align_sound_example :
    (before : ℕ) × (after : ℕ) × (align_backward 100 (2 ^ 4) ≡ some before)
    × (align_forward 100 (2 ^ 4) ≡ some after)
    × (is_aligned 100 (2 ^ 4) ≡ some (100 == before))
    × (before % 2 ^ 4 ≡ 0)
    × (before ≤ 100)
    × (100 < before + 2 ^ 4)
    × (after % 2 ^ 4 ≡ 0)
    × (100 ≤ after)
    × (after < 100 + 2 ^ 4)
align_sound_example = align_sound 100 4 60 refl (omega arith) (omega arith)
