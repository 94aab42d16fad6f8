-- ===== src/Scratch.antt =====
-- scratch.h: scratch arenas, with SCRATCH_ARENA_DEBUG off and the two channels of the default.
-- Addresses are numbers. The words `frames` at the start of a stack's memory are a list, and
-- `curr_frame` and `frame_ptr` are indices into it: a frame behind the list is `none`, since its word
-- is memory of the allocations, and so is a failed assertion. The platform is a parameter, as for the
-- arena: `commits from to`, `reserve size` and `granularity`; `reports` tells whether an error
-- argument is given. The name and the counts of events are left out, and so is what the memory holds.
mod Stack
pub mod Outcomes
mod Push
mod State
pub mod Blocks
pub mod CallSafe
pub mod Safety
pub mod Start
pub mod Consistent
pub mod Failures
pub mod LastFrames
mod Tests
use cbasis.Base.{
  ℕ, zero, suc, ◌+◌, ◌-◌, ◌*◌, ◌/◌, ◌%◌, ◌^◌, min, Bool, true, false, not, ◌&&◌, ◌||◌, ltb, leb,
  ◌==◌, if◌then◌else◌, Option, none, some, ◌>>=◌, ◌>>◌, require, List, [], ◌∷◌, load, store,
  replicate,
}
use cbasis.Align.{align_forward}
use cbasis.Arena.{div_ceil, def_commit_size, def_reserve_size}

-- SCRATCH_ARENA_CHANNELS
abbrev pub channels : ℕ
channels = 2

-- SCRATCH_ARENA_DEF_STACK_SIZE
abbrev pub def_stack_size : ℕ
def_stack_size = 256

pub record ScratchStack : Type 0 where
  -- `reserved_from`, which is where the frames stand
  pub reserved_from : ℕ
  pub frames : List ℕ
  pub curr_frame : ℕ
  pub commit_to : ℕ
  pub reserved_to : ℕ

pub record ScratchArena : Type 0 where
  -- `stacks`
  pub even_stack : ScratchStack
  pub odd_stack : ScratchStack
  pub frame_count : ℕ
  pub frame_capacity : ℕ
  pub reserved_from : ℕ
  pub reserved_size : ℕ
  pub commit_granularity : ℕ

-- The arena and the allocator are left out; `stack` is the index of the stack.
pub record Scratch : Type 0 where
  pub stack : ℕ
  pub frame_ptr : ℕ
  pub level : ℕ

unfoldable pub stack_at : ScratchArena → ℕ → ScratchStack
stack_at a i = if i == 0 then a.even_stack else a.odd_stack

unfoldable pub with_stack : ScratchArena → ℕ → ScratchStack → ScratchArena
with_stack a i s = if i == 0 then record a { even_stack = s } else record a { odd_stack = s }

-- _ROUND_UP
unfoldable pub round_up : ℕ → ℕ → ℕ
round_up val to = (val + to - 1) / to * to

-- One stack of an arena that is initialised.
unfoldable pub init_stack : ℕ → ℕ → ℕ → ℕ → Option ScratchStack
init_stack start size frames frames_commit_size = do
  fresh ← store (replicate frames 0) 0 (start + frames * 8)
  some (record {
    reserved_from = start;
    frames = fresh;
    curr_frame = 0;
    commit_to = start + frames_commit_size;
    reserved_to = start + size;
  })

-- On an arena that is not in use, with the sizes as given or the defaults. `none` is an error, too.
unfoldable pub scratch_arena_init :
    (ℕ → Option ℕ) → (ℕ → ℕ → Bool) → ℕ → ℕ → ℕ → ℕ → Option ScratchArena
scratch_arena_init reserve commits granularity reserve_size_or_zero commit_granularity_or_zero
      level_count_or_zero =
    let commit_granularity =
      round_up
        (if ltb 0 commit_granularity_or_zero then commit_granularity_or_zero else def_commit_size)
        granularity in
    let reserve_size =
      round_up (if ltb 0 reserve_size_or_zero then reserve_size_or_zero else def_reserve_size)
        (granularity * channels) in
    let levels = if ltb 0 level_count_or_zero then level_count_or_zero else def_stack_size in
    let level_count = round_up (min levels (reserve_size / 8)) channels in
    let frames_commit_size = round_up (level_count * 8 / channels) commit_granularity in
    let half = reserve_size / channels in
    do
      start ← reserve reserve_size
      require (commits start (start + frames_commit_size))
      require (commits (start + half) (start + half + frames_commit_size))
      even ← init_stack start half (level_count / channels) frames_commit_size
      odd ← init_stack (start + half) half (level_count / channels) frames_commit_size
      some (record {
        even_stack = even;
        odd_stack = odd;
        frame_count = 0;
        frame_capacity = level_count % 2 ^ 32;
        reserved_from = 0;
        reserved_size = reserve_size;
        commit_granularity = commit_granularity;
      })

-- The memory that scratch_arena_deinit gives back, by its address and its size.
unfoldable pub scratch_arena_deinit : ScratchArena → Option (ℕ × ℕ)
scratch_arena_deinit a =
    if a.reserved_from == 0 then none else some (a.reserved_from, a.reserved_size)

-- The writes of a rise to `n` frames from index `i` on.
unfoldable pub raise_frames : ℕ → List ℕ → ℕ → ℕ → Option (List ℕ)
raise_frames zero frames i used_to = some frames
raise_frames (suc n) frames i used_to =
    store frames i used_to >>= λ written. raise_frames n written (i + 1) used_to

unfoldable pub store_if : Bool → List ℕ → ℕ → ℕ → Option (List ℕ)
store_if test frames i used_to = if test then store frames i used_to else some frames

-- The frames after a fall or a rise to `frame_ptr`.
unfoldable pub reach_frame : ScratchStack → ℕ → Option (List ℕ)
reach_frame s frame_ptr = do
  used_to ← load s.frames s.curr_frame
  fallen ← store_if (ltb frame_ptr s.curr_frame) s.frames frame_ptr used_to
  if ltb s.curr_frame frame_ptr
      then raise_frames (frame_ptr - s.curr_frame) fallen (s.curr_frame + 1) used_to
      else some fallen

-- The block is given: the frame ends at its end.
unfoldable pub use_frame : ScratchStack → List ℕ → ℕ → ℕ → ℕ → ℕ → Option (ScratchStack × Option ℕ)
use_frame s frames frame_ptr commit_to out size = do
  written ← store frames frame_ptr (out + size)
  some (record s { frames = written; curr_frame = frame_ptr; commit_to = commit_to }, some out)

-- The block is refused: only the frames have changed.
unfoldable pub refuse_block : Bool → ScratchStack → List ℕ → Option (ScratchStack × Option ℕ)
refuse_block reports s frames = require reports >> some (record s { frames = frames }, none)

module _ (commits : ℕ → ℕ → Bool) (granularity : ℕ) (reports : Bool) where
  -- _scratch_handle_unusual_push; NULL is `none`
  unfoldable pub handle_unusual_push :
      ScratchStack → ℕ → ℕ → ℕ → ℕ → Option (ScratchStack × Option ℕ)
  handle_unusual_push s commit_granularity frame_ptr size align = do
    frames ← reach_frame s frame_ptr
    used_to ← load frames frame_ptr
    out ← align_forward used_to align
    let new_commit_to = s.commit_to + div_ceil size commit_granularity * commit_granularity
    if ltb s.commit_to (out + size)
        then (require (s.commit_to % granularity == 0)
            >> (if ltb s.reserved_to new_commit_to
                then refuse_block reports s frames
                else if commits s.commit_to new_commit_to
                then use_frame s frames frame_ptr new_commit_to out size
                else refuse_block reports s frames))
        else use_frame s frames frame_ptr s.commit_to out size

  -- On one stack: the usual push, or the unusual one.
  unfoldable pub push_on : ScratchStack → ℕ → ℕ → ℕ → ℕ → Option (ScratchStack × Option ℕ)
  push_on s commit_granularity frame_ptr size align = do
    used_to ← load s.frames frame_ptr
    out ← align_forward used_to align
    if not (s.curr_frame == frame_ptr) || ltb s.commit_to (out + size)
        then handle_unusual_push s commit_granularity frame_ptr size align
        else use_frame s s.frames frame_ptr s.commit_to out size

  -- scratch_push_nonzero_generic
  unfoldable pub scratch_push_nonzero :
      ScratchArena → Scratch → ℕ → ℕ → Option (ScratchArena × Option ℕ)
  scratch_push_nonzero a scratch size align = do
    require (leb scratch.level a.frame_count)
    r ← push_on (stack_at a scratch.stack) a.commit_granularity scratch.frame_ptr size align
    some (with_stack a scratch.stack r.0, r.1)

  -- scratch_push_generic: `memset` of NULL is a fault.
  unfoldable pub scratch_push : ScratchArena → Scratch → ℕ → ℕ → Option (ScratchArena × ℕ)
  scratch_push a scratch size align = do
    r ← scratch_push_nonzero a scratch size align
    out ← r.1
    some (r.0, out)

unfoldable pub acquire_on : ScratchStack → Option ScratchStack
acquire_on s = do
  used_to ← load s.frames s.curr_frame
  written ← store s.frames (s.curr_frame + 1) used_to
  some (record s { frames = written; curr_frame = s.curr_frame + 1 })

-- What scratch_acquire gives for a level.
unfoldable pub scratch_of : ℕ → Scratch
scratch_of level = record {
  stack = level % channels;
  frame_ptr = level / channels + 1;
  level = level;
}

unfoldable pub scratch_acquire : ScratchArena → Option (ScratchArena × Scratch)
scratch_acquire a = do
  require (ltb a.frame_count a.frame_capacity)
  s ← acquire_on (stack_at a (a.frame_count % channels))
  some (
    record (with_stack a (a.frame_count % channels) s) { frame_count = a.frame_count + 1 },
    scratch_of a.frame_count,
  )

unfoldable pub release_on : ScratchStack → ℕ → ScratchStack
release_on s frame_ptr = record s { curr_frame = min s.curr_frame (frame_ptr - 1) }

unfoldable pub scratch_release : ScratchArena → Scratch → Option ScratchArena
scratch_release a scratch = do
  require (leb scratch.level a.frame_count)
  some
      (record (with_stack a scratch.stack
        (release_on (stack_at a scratch.stack) scratch.frame_ptr)) { frame_count = scratch.level })

-- The first `n` frames lie between the two addresses.
unfoldable pub levels_in_order : ℕ → List ℕ → ℕ → ℕ → Bool
levels_in_order zero frames used_from used_to = true
levels_in_order (suc n) [] used_from used_to = false
levels_in_order (suc n) (level ∷ frames) used_from used_to =
    (leb used_from level && leb level used_to) && levels_in_order n frames used_from used_to

-- The tests of scratch_arena_test_consistency on one stack.
unfoldable pub stack_is_consistent : ScratchStack → ℕ → Option Bool
stack_is_consistent s frame_capacity =
    let frame_limit = frame_capacity / channels in
    let used_from = s.reserved_from + frame_limit * 8 in
    do
      used_to ← load s.frames s.curr_frame
      some (
          leb s.curr_frame frame_limit
          && ((leb used_from used_to && (leb used_to s.commit_to && leb s.commit_to s.reserved_to))
              && levels_in_order s.curr_frame s.frames used_from used_to))

unfoldable pub arena_is_consistent : ScratchArena → Option Bool
arena_is_consistent a = if a.reserved_from == 0 then some true else (do
  even ← stack_is_consistent a.even_stack a.frame_capacity
  odd ← stack_is_consistent a.odd_stack a.frame_capacity
  some (
      (leb 1 a.commit_granularity && (leb 1 a.reserved_size && leb 1 a.frame_capacity))
      && (even && odd)))
