-- ===== src/Scratch/Tests.antt =====
-- A scratch arena of two stacks with four frames each, in three pages from address 4096.
use cbasis.Base
use cbasis.Base.{
  zero, suc, ℕ, ◌+◌, ◌*◌, ◌^◌, ◌≤◌, ◌<◌, ◌≡◌, refl, Bool, true, false, leb, ltb, ◌==◌,
  if◌then◌else◌, Option, none, some, ◌>>=◌, List, [], ◌∷◌, arith, Bool-cases, inl, inr, ◌-◌,
}
use cbasis.Align.{align_forward, is_power_of_two, is_power_of_two_or_zero}
use cbasis.Arena.{div_ceil}
use cbasis.Scratch.{
  ScratchStack, ScratchArena, stack_at, with_stack, round_up, init_stack, scratch_arena_init,
  store_if, reach_frame, use_frame, refuse_block, handle_unusual_push, push_on,
  scratch_push_nonzero, acquire_on, scratch_of, scratch_acquire, release_on, scratch_release,
  stack_is_consistent,
}
use cbasis.Scratch.Outcomes.{StackOk}
use cbasis.Scratch.Blocks.{Each, Separate}
use cbasis.Scratch.Safety.{acquire, push, Calls, start, next}
use cbasis.Scratch.Start.{Lawful, Inside, live_blocks_apart}
use cbasis.Scratch.Consistent.{Kept, Step, Steps, consistent-Steps}
use cbasis.Scratch.Failures.{refused_fall_breaks}
use cbasis.Scratch.LastFrames.{acquire_many, acquire_behind_frames}

abbrev two_pages : ℕ → Option ℕ
two_pages size = if size == 8192 then some 4096 else none

abbrev in_pages : ℕ → ℕ → Bool
in_pages from to = leb to 12288

law : Lawful two_pages in_pages 4096
law = record {
  positive = omega arith;
  on_page = λ size start e. (1, ground (arith, e));
  no_wrap = λ size start e. ground (arith, e);
  only_reserved = λ size start from to e c. ground (arith, e, c);
}

abbrev stack : ℕ → List ℕ → ℕ → ScratchStack
stack at frames curr = record {
  reserved_from = at;
  frames = frames;
  curr_frame = curr;
  commit_to = at + 4096;
  reserved_to = at + 4096;
}

abbrev arena : ScratchStack → ScratchStack → ℕ → ScratchArena
arena even odd count = record {
  even_stack = even;
  odd_stack = odd;
  frame_count = count;
  frame_capacity = 8;
  reserved_from = 0;
  reserved_size = 8192;
  commit_granularity = 4096;
}

abbrev odd_start : ScratchStack
odd_start = stack 8192 (8224 ∷ 0 ∷ 0 ∷ 0 ∷ []) 0

abbrev fresh : ScratchArena
fresh = arena (stack 4096 (4128 ∷ 0 ∷ 0 ∷ 0 ∷ []) 0) odd_start 0

made : scratch_arena_init two_pages in_pages 4096 8192 4096 8 ≡ some fresh
unfolding scratch_arena_init init_stack round_up
made = refl

abbrev one : ScratchArena
one = arena (stack 4096 (4128 ∷ 4128 ∷ 0 ∷ 0 ∷ []) 1) odd_start 1

abbrev used : ScratchArena
used = arena (stack 4096 (4128 ∷ 4228 ∷ 0 ∷ 0 ∷ []) 1) odd_start 1

abbrev two : ScratchArena
two = arena (stack 4096 (4128 ∷ 4228 ∷ 0 ∷ 0 ∷ []) 1) (stack 8192 (8224 ∷ 8224 ∷ 0 ∷ 0 ∷ []) 1) 2

got_one : scratch_acquire fresh ≡ some (one, scratch_of 0)
unfolding scratch_acquire stack_at with_stack acquire_on
got_one = refl

pushed_one :
    scratch_push_nonzero in_pages 4096 false one (scratch_of 0) 100 (2 ^ 3) ≡ some (used, some 4128)
unfolding scratch_push_nonzero stack_at with_stack push_on use_frame align_forward is_power_of_two
    is_power_of_two_or_zero scratch_of
pushed_one = refl

got_two : scratch_acquire used ≡ some (two, scratch_of 1)
unfolding scratch_acquire stack_at with_stack acquire_on
got_two = refl

calls : Calls in_pages 4096 fresh two (record { level = 0; from = 4128; to = 4228 } ∷ [])
calls =
    next
      (next (next start (acquire got_one))
        (push false 0 100 3 61 4128 (omega arith) refl (omega arith) (512, refl) pushed_one))
      (acquire got_two)

live_blocks_apart_example :
    Separate (record { level = 0; from = 4128; to = 4228 } ∷ [])
    × Each (Inside two) (record { level = 0; from = 4128; to = 4228 } ∷ [])
live_blocks_apart_example = live_blocks_apart two_pages in_pages 4096 law 8192 4096 8 made calls

acquire_behind_frames_example :
    (t : ScratchArena) × (acquire_many (fresh.frame_capacity - 2) fresh ≡ some t)
    × (t.frame_count ≡ t.frame_capacity - 2)
    × (2 ≤ t.frame_capacity)
    × (scratch_acquire t ≡ none)
acquire_behind_frames_example =
    acquire_behind_frames two_pages in_pages 4096 8192 4096 8 (omega arith) made

released :
    scratch_release one (scratch_of 0)
    ≡ some (arena (stack 4096 (4128 ∷ 4128 ∷ 0 ∷ 0 ∷ []) 0) odd_start 0)
unfolding scratch_release stack_at with_stack release_on scratch_of
released = refl

-- Three frames in use, which end at 4128, 4200 and 4300.
abbrev deep : ScratchStack
deep = stack 4096 (4128 ∷ 4128 ∷ 4200 ∷ 4300 ∷ []) 3

deep_ok : StackOk 4096 deep
deep_ok = record {
  in_frames = omega arith;
  lower = λ j le. cells j le;
  upper = λ j le. tops j le;
  reserved = omega arith;
  paged = (2, refl);
  no_wrap = omega arith;
}
  where
    cells : (j : ℕ) → j ≤ 3 → 4128 ≤ Base.get_or deep.frames j 0
    cells zero le = omega arith
    cells (suc zero) le = omega arith
    cells (suc (suc zero)) le = omega arith
    cells (suc (suc (suc j))) le = three j (omega arith)
      where
        three : (i : ℕ) → i ≤ 0 → 4128 ≤ Base.get_or (4300 ∷ []) i 0
        three zero le = omega arith
        three (suc i) le = absurd (omega arith)

    tops : (j : ℕ) → j ≤ 3 → Base.get_or deep.frames j 0 ≤ 8192
    tops zero le = omega arith
    tops (suc zero) le = omega arith
    tops (suc (suc zero)) le = omega arith
    tops (suc (suc (suc j))) le = three j (omega arith)
      where
        three : (i : ℕ) → i ≤ 0 → Base.get_or (4300 ∷ []) i 0 ≤ 8192
        three zero le = omega arith
        three (suc i) le = absurd (omega arith)

deep_refused :
    push_on in_pages 4096 true deep 4096 1 8000 (2 ^ 3)
    ≡ some (stack 4096 (4128 ∷ 4300 ∷ 4200 ∷ 4300 ∷ []) 3, none)
unfolding push_on handle_unusual_push refuse_block reach_frame store_if use_frame align_forward
    is_power_of_two is_power_of_two_or_zero div_ceil
deep_refused = refl

refused_fall_breaks_example :
    stack_is_consistent (release_on (stack 4096 (4128 ∷ 4300 ∷ 4200 ∷ 4300 ∷ []) 3) 3) 8
    ≡ some false
refused_fall_breaks_example =
    refused_fall_breaks in_pages 4096 4096 deep 1 2 8000 3 61 8 (omega arith) (1, refl)
      (omega arith) deep_ok refl (omega arith) (512, refl) (omega arith) (omega arith) (omega arith)
      deep_refused

bottom : (P : ℕ → Type 0) → P 4128 → (j : ℕ) → j ≤ 0 → P (Base.get_or fresh.even_stack.frames j 0)
bottom P p zero le = p
bottom P p (suc j) le = absurd (omega arith)

first-Kept : Kept 4096 8 fresh.even_stack
first-Kept = record {
  ok = record {
    in_frames = omega arith;
    lower = bottom (λ n. 4128 ≤ n) (omega arith);
    upper = bottom (λ n. n ≤ 8192) (omega arith);
    reserved = omega arith;
    paged = (2, refl);
    no_wrap = omega arith;
  };
  ordered = λ i j le in_use. ordered i j le in_use;
  capacity_is = refl;
}
  where
    ordered :
        (i j : ℕ)
        → i ≤ j
        → j ≤ 0
        → Base.get_or fresh.even_stack.frames i 0 ≤ Base.get_or fresh.even_stack.frames j 0
    ordered zero zero le in_use = omega arith
    ordered (suc i) zero le in_use = absurd (omega arith)
    ordered i (suc j) le in_use = absurd (omega arith)

acquired_first : acquire_on fresh.even_stack ≡ some one.even_stack
unfolding acquire_on
acquired_first = refl

pushed_first :
    push_on in_pages 4096 false one.even_stack 4096 1 100 (2 ^ 3)
    ≡ some (used.even_stack, some 4128)
unfolding push_on use_frame align_forward is_power_of_two is_power_of_two_or_zero
pushed_first = refl

steps : Steps in_pages 4096 fresh.even_stack (release_on used.even_stack 1)
steps =
    Steps.next
      (Steps.next (Steps.next Steps.start (Step.acquire acquired_first)) (
        Step.push false 4096 1 100 3 61 4128 (omega arith) (1, refl) (omega arith) refl
          (omega arith) (512, refl) pushed_first))
      (Step.release 1)

consistent-Steps_example :
    (stack_is_consistent (release_on used.even_stack 1) 8 ≡ some true)
    × Kept 4096 8 (release_on used.even_stack 1)
consistent-Steps_example = consistent-Steps 8 first-Kept steps
