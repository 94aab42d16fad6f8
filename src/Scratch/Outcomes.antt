-- ===== src/Scratch/Outcomes.antt =====
-- What can come of a push on one stack.
use cbasis.Base.{ℕ, ◌+◌, ◌*◌, ◌%◌, ◌^◌, ◌≤◌, ◌<◌, ◌≡◌, ◌≢◌, length}
use cbasis.Scratch.{ScratchStack}
use cbasis.Scratch.Stack.{frame, Multiple}

-- The frames in use end between the frames themselves and the end of the committed memory.
pub record StackOk (granularity : ℕ) (s : ScratchStack) : Type 0 where
  pub in_frames : s.curr_frame < length s.frames
  pub lower : (j : ℕ) → j ≤ s.curr_frame → s.reserved_from + length s.frames * 8 ≤ frame s j
  pub upper : (j : ℕ) → j ≤ s.curr_frame → frame s j ≤ s.commit_to
  pub reserved : s.commit_to ≤ s.reserved_to
  pub paged : Multiple s.commit_to granularity
  pub no_wrap : s.reserved_to + granularity ≤ 2 ^ 64

-- The same memory, and no less of it committed.
pub record SameMemory (s t : ScratchStack) : Type 0 where
  pub same_start : t.reserved_from ≡ s.reserved_from
  pub same_end : t.reserved_to ≡ s.reserved_to
  pub same_length : length t.frames ≡ length s.frames
  pub no_less : s.commit_to ≤ t.commit_to

-- A block of `size` bytes at `out` was pushed on the frame `k`.
pub record Pushed (granularity : ℕ) (s : ScratchStack) (k size align : ℕ) (t : ScratchStack)
    (out : ℕ) : Type 0 where
  pub memory : SameMemory s t
  pub even : out % align ≡ 0
  pub above : frame s s.curr_frame ≤ out
  pub current : t.curr_frame ≡ k
  pub at_frame : frame t k ≡ out + size
  pub old : (j : ℕ) → j ≤ s.curr_frame → j < k → frame t j ≡ frame s j
  pub raised : (j : ℕ) → s.curr_frame < j → j < k → frame t j ≡ frame s s.curr_frame
  pub committed : out + size ≤ t.commit_to
  pub reserved : t.commit_to ≤ t.reserved_to
  pub paged : Multiple t.commit_to granularity

-- The block was refused: at most the frame `k` and those behind the current one have changed.
pub record Refused (s : ScratchStack) (k : ℕ) (t : ScratchStack) : Type 0 where
  pub memory : SameMemory s t
  pub current : t.curr_frame ≡ s.curr_frame
  pub same_commit : t.commit_to ≡ s.commit_to
  pub at_frame : frame t k ≡ frame s s.curr_frame
  pub old : (j : ℕ) → j ≤ s.curr_frame → j ≢ k → frame t j ≡ frame s j
