-- ===== src/Arena.antt =====
-- arena.h: an arena of reserved addresses that are committed as they are used. Addresses are natural
-- numbers. The platform is a parameter: `commits from to` tells whether committing the memory from the
-- one address to the other succeeds, `reserve size` gives the reserved memory, or fails, and
-- `granularity` is that of allocations. `reports` tells whether `error_or_null` is given: without it an
-- error is a panic, `none`. Writing to memory that is not committed is `none` too. The statistics
-- and the name are left out.
pub mod Push
mod Tests
use cbasis.Base.{
  ℕ, ◌+◌, ◌-◌, ◌*◌, ◌/◌, ◌%◌, ◌^◌, Bool, true, false, ◌&&◌, ◌||◌, ltb, leb, ◌==◌, if◌then◌else◌,
  Option, none, some, ◌>>=◌, ◌>>◌, require,
}
use cbasis.Align.{is_power_of_two, align_forward}

pub record Arena : Type 0 where
  -- `data`
  pub start : ℕ
  pub used_to : ℕ
  pub commit_to : ℕ
  pub reserved_to : ℕ
  pub commit_granularity : ℕ

-- DIV_CEIL
unfoldable pub div_ceil : ℕ → ℕ → ℕ
div_ceil a b = a / b + (if ltb 0 (a % b) then 1 else 0)

-- ARENA_DEF_RESERVE_SIZE and ARENA_DEF_COMMIT_SIZE
abbrev pub def_reserve_size : ℕ
def_reserve_size = 16 * 2 ^ 30

abbrev pub def_commit_size : ℕ
def_commit_size = 4 * 2 ^ 20

-- On an arena that is not in use.
unfoldable pub arena_init : (ℕ → Option ℕ) → ℕ → ℕ → ℕ → Option Arena
arena_init reserve granularity reserve_size_or_zero commit_granularity_or_zero =
    let reserve_size =
      if ltb 0 reserve_size_or_zero then reserve_size_or_zero else def_reserve_size in
    let commit_granularity =
      if ltb 0 commit_granularity_or_zero then commit_granularity_or_zero else def_commit_size in
    let reserved = div_ceil reserve_size granularity * granularity in
    reserve reserved >>= λ start. some (record {
      start = start;
      used_to = start;
      commit_to = start;
      reserved_to = start + reserved;
      commit_granularity = div_ceil commit_granularity granularity * granularity;
    })

unfoldable pub arena_reset_ptr : Arena → ℕ → Arena
arena_reset_ptr a position = record {
  start = a.start;
  used_to = position;
  commit_to = a.commit_to;
  reserved_to = a.reserved_to;
  commit_granularity = a.commit_granularity;
}

unfoldable pub arena_reset : Arena → ℕ → Arena
arena_reset a to = arena_reset_ptr a (a.start + to)

module _ (commits : ℕ → ℕ → Bool) (reports : Bool) where
  -- The arena, and whether an error was reported.
  unfoldable pub arena_commit_no_inline : Arena → ℕ → Option (Arena × Bool)
  arena_commit_no_inline a to =
      let size = to - a.commit_to in
      let commit = div_ceil size a.commit_granularity * a.commit_granularity in
      let new_commit_to = a.used_to + commit in
      let committed : Arena = record {
        start = a.start;
        used_to = a.used_to;
        commit_to = new_commit_to;
        reserved_to = a.reserved_to;
        commit_granularity = a.commit_granularity;
      } in
      if ltb a.reserved_to new_commit_to
      then (require reports >> some (a, true))
      else if commits a.commit_to new_commit_to
      then some (committed, false)
      else (require reports >> some (a, true))

  unfoldable pub arena_commit_ptr : Arena → ℕ → Option (Arena × Bool)
  arena_commit_ptr a to =
      if ltb a.commit_to to then arena_commit_no_inline a to else some (a, false)

  unfoldable pub arena_push_nonzero : Arena → ℕ → ℕ → Option (Arena × ℕ × Bool)
  arena_push_nonzero a size align = align_forward a.used_to align >>= λ out.
      arena_commit_ptr a (out + size) >>= λ r. some (arena_reset_ptr r.0 (out + size), out, r.1)

  -- arena_allocator_func with ALLOCATOR_MODE_ALLOC
  unfoldable pub arena_reallocate : Arena → ℕ → ℕ → ℕ → ℕ → Option (Arena × ℕ × Bool)
  arena_reallocate a new_size old_ptr old_size align =
      require (old_ptr == a.start)
      >> (require (a.start + old_size == a.used_to)
          >> (require (is_power_of_two align)
              >> arena_push_nonzero (arena_reset_ptr a a.start) new_size align))

module _ (commits : ℕ → ℕ → Bool) where
  unfoldable pub arena_commit : Arena → ℕ → Option Arena
  arena_commit a to = arena_commit_ptr commits false a (a.start + to) >>= λ r. some r.0

  unfoldable pub arena_push : Arena → ℕ → ℕ → Option (Arena × ℕ)
  arena_push a size align = arena_push_nonzero commits false a size align >>= λ r.
      require (size == 0 || leb (r.1 + size) r.0.commit_to) >> some (r.0, r.1)
