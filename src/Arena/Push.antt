-- ===== src/Arena/Push.antt =====
-- What a push on an arena gives, and where it goes beyond the committed memory.
use cbasis.Base.{
  ℕ, ◌+◌, ◌-◌, ◌*◌, ◌/◌, ◌%◌, ◌^◌, ◌<◌, ◌≤◌, ◌≡◌, ◌⊎◌, inl, inr, refl, ap, Bool, true, false,
  Bool-cases, none, some, arith,
}
use native.Mathlib.Nat.{div-add-mod', mod-lt}
use native.Mathlib.Decide.{dec_lt, ℕ_discrete}
use cbasis.Align.{align_forward}
use cbasis.Align.Aligned.{align_sound}
use cbasis.Arena.{
  Arena, div_ceil, arena_reset_ptr, arena_commit_no_inline, arena_commit_ptr, arena_push_nonzero,
  arena_push,
}

-- DIV_CEIL(a, b)*b is the first multiple of `b` from `a` on.
pub div_ceil-le : (a b : ℕ) → 0 < b → (a ≤ div_ceil a b * b) × (div_ceil a b * b < a + b)
unfolding div_ceil
div_ceil-le a b pos = elim (ℕ_discrete (a % b) 0) [
  | yes e ↦
      let value : div_ceil a b * b ≡ (a / b + 0) * b =
        ap (λ (n : ℕ). (a / b + n) * b) (ground (arith, e)) in
      (omega (arith, value, div-add-mod' a b, e), omega (arith, value, div-add-mod' a b, e, pos))
  | no ne ↦
      let value : div_ceil a b * b ≡ (a / b + 1) * b =
        ap (λ (n : ℕ). (a / b + n) * b) (ground (arith, ne)) in
      let more : (a / b + 1) * b ≡ a / b * b + b = omega arith in
      (
        omega (arith, value, more, div-add-mod' a b, mod-lt a pos),
        omega (arith, value, more, div-add-mod' a b, ne),
      )
]

pub record Valid (a : Arena) : Type 0 where
  pub from_start : a.start ≤ a.used_to
  pub committed : a.used_to ≤ a.commit_to
  pub reserved : a.commit_to ≤ a.reserved_to
  pub granular : 0 < a.commit_granularity

module _ (commits : ℕ → ℕ → Bool) where
  commit_done :
      (reports : Bool) (a : Arena) (to : ℕ)
      → to ≤ a.commit_to
      → arena_commit_ptr commits reports a to ≡ some (a, false)
  unfolding arena_commit_ptr
  commit_done reports a to le = ground arith

  -- Where the commit ends that a push asks for.
  abbrev pub commit_end : Arena → ℕ → ℕ
  commit_end a to =
      a.used_to + div_ceil (to - a.commit_to) a.commit_granularity * a.commit_granularity

  abbrev pub committed_arena : Arena → ℕ → Arena
  committed_arena a to = record {
    start = a.start;
    used_to = a.used_to;
    commit_to = to;
    reserved_to = a.reserved_to;
    commit_granularity = a.commit_granularity;
  }

  commit_more :
      (reports : Bool) (a : Arena) (to : ℕ)
      → a.commit_to < to
      → commit_end a to ≤ a.reserved_to
      → commits a.commit_to (commit_end a to) ≡ true
      → arena_commit_ptr commits reports a to ≡ some (committed_arena a (commit_end a to), false)
  unfolding arena_commit_ptr arena_commit_no_inline
  commit_more reports a to lt room ok = ground (arith, lt, room, ok)

  commit_fails :
      (a : Arena) (to : ℕ)
      → a.commit_to < to
      → (a.reserved_to < commit_end a to) ⊎ (commits a.commit_to (commit_end a to) ≡ false)
      → arena_commit_ptr commits true a to ≡ some (a, true)
  unfolding arena_commit_ptr arena_commit_no_inline
  commit_fails a to lt (inl over) = ground (arith, lt, over)
  commit_fails a to lt (inr refused) = ground (arith, lt, refused)

  push_run :
      (reports : Bool) (a b : Arena) (size align out : ℕ) (error : Bool)
      → align_forward a.used_to align ≡ some out
      → arena_commit_ptr commits reports a (out + size) ≡ some (b, error)
      → arena_push_nonzero commits reports a size align
        ≡ some (arena_reset_ptr b (out + size), out, error)
  unfolding arena_push_nonzero
  push_run reports a b size align out error at run = ground (arith, at, run)

  -- A commit that is reported, on an arena with all its committed memory in use or with room.
  committed :
      (a : Arena) (to : ℕ)
      → Valid a
      → a.used_to ≤ to
      → (to ≤ a.commit_to) ⊎ (a.used_to ≡ a.commit_to)
      → (b : Arena) × (error : Bool) × (arena_commit_ptr commits true a to ≡ some (b, error))
        × (b.start ≡ a.start)
        × (error ≡ true → b ≡ a)
        × (error ≡ false
            → (to ≤ b.commit_to) × (b.commit_to ≤ b.reserved_to) × (0 < b.commit_granularity))
  committed a to v le why = elim (dec_lt a.commit_to to) [
    | no room ↦ (
      a,
      false,
      commit_done true a to (omega arith),
      refl,
      λ e. absurd (ground (arith, e)),
      λ e. (omega arith, v.reserved, v.granular),
    )
    | yes more ↦
        let (enough, less) = div_ceil-le (to - a.commit_to) a.commit_granularity v.granular in
        let full : a.used_to ≡ a.commit_to = ground (arith, why, more) in
        elim (dec_lt a.reserved_to (commit_end a to)) [
          | yes over ↦ (
            a,
            true,
            commit_fails a to more (inl over),
            refl,
            λ e. refl,
            λ e. absurd (ground (arith, e)),
          )
          | no fits ↦ elim (Bool-cases (commits a.commit_to (commit_end a to))) [
            | inl ok ↦ (
              committed_arena a (commit_end a to),
              false,
              commit_more true a to more (omega arith) ok,
              refl,
              λ e. absurd (ground (arith, e)),
              λ e. (omega (arith, full, enough), omega arith, v.granular),
            )
            | inr refused ↦ (
              a,
              true,
              commit_fails a to more (inr refused),
              refl,
              λ e. refl,
              λ e. absurd (ground (arith, e)),
            )
          ]
        ]
  ]

  -- A push on a valid arena, with the error argument given and an alignment that is a power of two
  -- below 2 ^ 63 and does not pass the end of the address space, of a block that fits into the
  -- committed memory, or where none of that is free, returns a block that is aligned to `2 ^ k`, as
  -- near to the end of what is in use as it can be, and ends where the use now ends. Without an error
  -- the arena is valid again, so that the block is committed; with one only the end of the use has
  -- changed.
  pub arena_push_nonzero_sound :
      (a : Arena) (size k j : ℕ)
      → Valid a
      → k + j ≡ 64
      → 1 < j
      → a.used_to + 2 ^ k ≤ 2 ^ 64
      → (a.used_to + 2 ^ k + size ≤ a.commit_to) ⊎ (a.used_to ≡ a.commit_to)
      → (b : Arena) × (out : ℕ) × (error : Bool) × (arena_push_nonzero commits true a size (2 ^ k)
          ≡ some (b, out, error))
        × (out % 2 ^ k ≡ 0)
        × (a.used_to ≤ out)
        × (out < a.used_to + 2 ^ k)
        × (b.used_to ≡ out + size)
        × (error ≡ false → Valid b)
        × (error ≡ true → b ≡ arena_reset_ptr a (out + size))
  unfolding arena_reset_ptr
  arena_push_nonzero_sound a size k j v split pos room why =
      let (before, out, run_back, run, run_is, back_even, back_lo, back_hi, even, lo, hi) =
        align_sound a.used_to k j split pos room in
      let (c, error, commit, same, failed, done) =
        committed a (out + size) v (omega arith) (ground (arith, why, hi)) in
      (
        arena_reset_ptr c (out + size),
        out,
        error,
        push_run true a c size (2 ^ k) out error run commit,
        even,
        lo,
        hi,
        refl,
        λ e.
            let (enough, reserved, granular) = done e in
            record {
              from_start = omega (arith, same, v.from_start);
              committed = enough;
              reserved = reserved;
              granular = granular;
            },
        λ e. ap (λ d. arena_reset_ptr d (out + size)) (failed e),
      )

  -- Wherever a granule or more of the committed memory of a valid arena is free, as it can be after a reset, and
  -- a block needs more than what is free, arena_push_nonzero commits too little: for an alignment that
  -- is a power of two below 2 ^ 63 and does not pass the end of the address space, with room for the
  -- block in the reserved memory and commits that succeed, it reports no error though the block ends
  -- behind the committed memory, and arena_push writes there.
  pub arena_push_overruns :
      (a : Arena) (size k j : ℕ)
      → Valid a
      → k + j ≡ 64
      → 1 < j
      → a.used_to + 2 ^ k ≤ 2 ^ 64
      → a.used_to + a.commit_granularity ≤ a.commit_to
      → a.commit_to < a.used_to + size
      → a.used_to + 2 ^ k + size ≤ a.reserved_to
      → ((from to : ℕ) → commits from to ≡ true)
      → ((b : Arena) × (out : ℕ) × (arena_push_nonzero commits true a size (2 ^ k)
            ≡ some (b, out, false))
          × (b.used_to ≡ out + size)
          × (b.commit_to < b.used_to))
        × (arena_push commits a size (2 ^ k) ≡ none)
  unfolding arena_push arena_reset_ptr
  arena_push_overruns a size k j v split pos room free more reserved ok =
      let (before, out, run_back, at, run_is, back_even, back_lo, back_hi, even, lo, hi) =
        align_sound a.used_to k j split pos room in
      let to = out + size in
      let needs : a.commit_to < to = omega arith in
      let (enough, less) = div_ceil-le (to - a.commit_to) a.commit_granularity v.granular in
      let short : commit_end a to < to = omega (arith, less) in
      let some_size : 0 < size = omega (arith, v.committed) in
      let c = committed_arena a (commit_end a to) in
      let commit = λ (reports : Bool).
        commit_more reports a to needs (omega arith) (ok a.commit_to (commit_end a to)) in
      let run = push_run true a c size (2 ^ k) out false at (commit true) in
      let run' = push_run false a c size (2 ^ k) out false at (commit false) in
      ((arena_reset_ptr c to, out, run, refl, short), ground (arith, run', short, some_size))
