-- ===== src/Utf/Output.antt =====
-- How the encoders of utf.h write: consecutive assignments `out[0] = …; out[1] = …`, and then
-- `*index += len`.
use cbasis.Base.{
  store_all-Wrote, store_all, Wrote, ℕ, ◌+◌, ◌≤◌, ◌≡◌, true, false, List, Option, some, length,
  ◌>>=◌, ℤ, pos, pos_part, ◌+ℤ◌, arith,
}
use cbasis.Utf.{Encoded}

unfoldable pub emit : List ℕ → ℤ → List ℕ → Option Encoded
emit out index bytes = do
  out' ← store_all out (pos_part index) bytes
  some (record { ok = true; output = out'; index = index +ℤ pos (length bytes) })

abbrev pub refuse : List ℕ → ℤ → Option Encoded
refuse out index = some (record { ok = false; output = out; index = index })

-- What `emit` returns.
pub emit-Wrote :
    (out bytes : List ℕ) (i : ℕ)
    → i + length bytes ≤ length out
    → (after : List ℕ) × (emit out (pos i) bytes
        ≡ some (record { ok = true; output = after; index = pos (i + length bytes) }))
      × Wrote out i bytes after
unfolding emit ◌+ℤ◌
emit-Wrote out bytes i h =
    let (after, run, w) = store_all-Wrote bytes out i h in (after, ground (arith, run), w)
