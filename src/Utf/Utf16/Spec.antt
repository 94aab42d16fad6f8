-- ===== src/Utf/Utf16/Spec.antt =====
-- UTF-16 as the standard describes it: the units of a code point, and their two byte orders.
use cbasis.Base.{ℕ, ◌+◌, ◌-◌, ◌/◌, ◌%◌, ltb, ◌==◌, if◌then◌else◌, List, [], ◌∷◌, ◌++◌}

unfoldable pub unit_bytes : ℕ → ℕ → List ℕ
unit_bytes endian w = if endian == 0 then (w % 256) ∷ (w / 256) ∷ [] else (w / 256) ∷ (w % 256) ∷ []

unfoldable pub utf16_bytes : ℕ → ℕ → List ℕ
unfolding unit_bytes
utf16_bytes endian c =
    if ltb c 0x10000
    then unit_bytes endian c
    else unit_bytes endian (0xD800 + (c - 0x10000) / 1024)
      ++ unit_bytes endian (0xDC00 + (c - 0x10000) % 1024)
