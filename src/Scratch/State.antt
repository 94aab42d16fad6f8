-- ===== src/Scratch/State.antt =====
-- Blocks that were given out, and what each operation on a stack keeps of the order between them and
-- the frames.
use cbasis.Base.{
  ℕ, ◌+◌, ◌*◌, ◌/◌, ◌≤◌, ◌<◌, ◌≡◌, refl, sym, ap, ◌∙◌, subst, ◌⊎◌, inl, inr, some, arith, set,
  length, get_or-set, store-set, length-set, get_elem?-eq-get_or,
}
use native.Mathlib.Decide.{dec_lt, ℕ_discrete}
use cbasis.Scratch.{ScratchStack, acquire_on, release_on}
use cbasis.Scratch.Stack.{frame, Multiple}
use cbasis.Scratch.Outcomes.{StackOk, SameMemory, Pushed, Refused}

-- A block of memory, with the level of the scratch that it was pushed on.
pub record Block : Type 0 where
  pub level : ℕ
  pub from : ℕ
  pub to : ℕ

-- The frame of a level, `frame_ptr` as an index.
abbrev pub frame_of : ℕ → ℕ
frame_of level = level / 2 + 1

-- A block stands behind the frames and ends before where its frame ends, and every frame on it.
pub record InStack (s : ScratchStack) (b : Block) : Type 0 where
  pub start : s.reserved_from + length s.frames * 8 ≤ b.from
  pub ordered : b.from ≤ b.to
  pub below :
      (j : ℕ) → j ≤ s.curr_frame → (frame_of b.level ≤ j) ⊎ (j ≡ s.curr_frame) → b.to ≤ frame s j

-- Every block that is live ends before where the next one on the stack starts.
pub below_top : {s : ScratchStack} {b : Block} → InStack s b → b.to ≤ frame s s.curr_frame
below_top {s} i = i.below s.curr_frame (omega arith) (inr refl)

module _ {granularity : ℕ} {s : ScratchStack} (ok : StackOk granularity s) where
  module _ {k size align out : ℕ} {t : ScratchStack} (p : Pushed granularity s k size align t out)
      (room : k < length s.frames) where
    -- A frame after the push, compared with the stack before.
    pub frame-cases :
        (j : ℕ)
        → j ≤ k
        → (frame t j ≡ out + size)
          ⊎ ((j ≤ s.curr_frame) × (frame t j ≡ frame s j))
          ⊎ (frame t j ≡ frame s s.curr_frame)
    frame-cases j le = elim (ℕ_discrete j k) [
      | yes e ↦ inl (ap (frame t) e ∙ p.at_frame)
      | no ne ↦ elim (dec_lt s.curr_frame j) [
        | yes lt ↦ inr (inr (p.raised j lt (omega arith)))
        | no ge ↦ inr (inl (omega arith, p.old j (omega arith) (omega arith)))
      ]
    ]

    pub Pushed-StackOk : StackOk granularity t
    Pushed-StackOk = record {
      in_frames = omega (arith, p.current, p.memory.same_length);
      lower = λ j le. ground (
        arith,
        frame-cases j (omega (arith, p.current)),
        ok.lower j,
        ok.lower s.curr_frame,
        p.above,
        p.memory.same_start,
        p.memory.same_length,
      );
      upper = λ j le. ground (
        arith,
        frame-cases j (omega (arith, p.current)),
        ok.upper j,
        ok.upper s.curr_frame,
        p.committed,
        p.memory.no_less,
      );
      reserved = p.reserved;
      paged = p.paged;
      no_wrap = omega (arith, p.memory.same_end, ok.no_wrap);
    }

    pub Pushed-InStack : {b : Block} → InStack s b → InStack t b
    Pushed-InStack {b} i = record {
      start = omega (arith, p.memory.same_start, p.memory.same_length, i.start);
      ordered = i.ordered;
      below = λ j le why. ground (
        arith,
        frame-cases j (omega (arith, p.current)),
        below_top i,
        p.above,
        i.below j,
        why,
        p.current,
      );
    }

    pub Pushed-new :
        (level : ℕ)
        → frame_of level ≡ k
        → InStack t (record { level = level; from = out; to = out + size })
    Pushed-new level e = record {
      start =
          omega (arith, p.memory.same_start, p.memory.same_length, ok.lower s.curr_frame, p.above);
      ordered = omega arith;
      below = λ j le why.
          let at : j ≡ k = ground (arith, why, p.current, e) in
          omega (arith, ap (frame t) at, p.at_frame);
    }

  module _ {k : ℕ} {t : ScratchStack} (r : Refused s k t) where
    refused-cases :
        (j : ℕ) → j ≤ s.curr_frame → (frame t j ≡ frame s j) ⊎ (frame t j ≡ frame s s.curr_frame)
    refused-cases j le = elim (ℕ_discrete j k) [
      | yes e ↦ inr (ap (frame t) e ∙ r.at_frame)
      | no ne ↦ inl (r.old j le ne)
    ]

    pub Refused-StackOk : StackOk granularity t
    Refused-StackOk = record {
      in_frames = omega (arith, r.current, r.memory.same_length, ok.in_frames);
      lower = λ j le. ground (
        arith,
        refused-cases j (omega (arith, r.current)),
        ok.lower j,
        ok.lower s.curr_frame,
        r.memory.same_start,
        r.memory.same_length,
        r.current,
      );
      upper = λ j le. ground (
        arith,
        refused-cases j (omega (arith, r.current)),
        ok.upper j,
        ok.upper s.curr_frame,
        r.same_commit,
        r.current,
      );
      reserved = omega (arith, r.same_commit, r.memory.same_end, ok.reserved);
      paged = subst (λ c. Multiple c granularity) (sym r.same_commit) ok.paged;
      no_wrap = omega (arith, r.memory.same_end, ok.no_wrap);
    }

    pub Refused-InStack : {b : Block} → InStack s b → InStack t b
    Refused-InStack {b} i = record {
      start = omega (arith, r.memory.same_start, r.memory.same_length, i.start);
      ordered = i.ordered;
      below = λ j le why. ground (
        arith,
        refused-cases j (omega (arith, r.current)),
        below_top i,
        i.below j,
        why,
        r.current,
      );
    }

  -- scratch_acquire repeats the top frame.
  pub acquired : ScratchStack
  acquired = record s {
    frames = set s.frames (s.curr_frame + 1) (frame s s.curr_frame);
    curr_frame = s.curr_frame + 1;
  }

  pub acquired-curr : acquired.curr_frame ≡ s.curr_frame + 1
  unfolding acquired
  acquired-curr = refl

  module _ (fits : s.curr_frame + 1 < length s.frames) where
    pub acquire_on-acquired : acquire_on s ≡ some acquired
    unfolding acquire_on acquired
    acquire_on-acquired = ground (
      arith,
      get_elem?-eq-get_or s.frames s.curr_frame 0 ok.in_frames,
      store-set s.frames (s.curr_frame + 1) (frame s s.curr_frame),
      fits,
    )

    pub acquired-cases :
        (j : ℕ)
        → j ≤ s.curr_frame + 1
        → ((j ≤ s.curr_frame) × (frame acquired j ≡ frame s j))
          ⊎ ((j ≡ s.curr_frame + 1) × (frame acquired j ≡ frame s s.curr_frame))
    unfolding acquired
    acquired-cases j le =
        ground (arith, get_or-set s.frames (s.curr_frame + 1) j (frame s s.curr_frame) 0, fits)

    pub acquired-StackOk : StackOk granularity acquired
    unfolding acquired
    acquired-StackOk =
        let long = length-set s.frames (s.curr_frame + 1) (frame s s.curr_frame) in
        record {
          in_frames = omega (arith, long, fits);
          lower =
              λ j le. ground (arith, acquired-cases j le, long, ok.lower j, ok.lower s.curr_frame);
          upper = λ j le. ground (arith, acquired-cases j le, ok.upper j, ok.upper s.curr_frame);
          reserved = ok.reserved;
          paged = ok.paged;
          no_wrap = ok.no_wrap;
        }

    pub acquired-InStack : {b : Block} → InStack s b → InStack acquired b
    unfolding acquired
    acquired-InStack i = record {
      start = omega (arith, i.start, length-set s.frames (s.curr_frame + 1) (frame s s.curr_frame));
      ordered = i.ordered;
      below = λ j le why. ground (arith, acquired-cases j le, below_top i, i.below j, why);
    }

  pub acquired-SameMemory : SameMemory s acquired
  unfolding acquired
  acquired-SameMemory = record {
    same_start = refl;
    same_end = refl;
    same_length = length-set s.frames (s.curr_frame + 1) (frame s s.curr_frame);
    no_less = omega arith;
  }

  module _ (k : ℕ) where
    pub release_on-SameMemory : SameMemory s (release_on s k)
    unfolding release_on
    release_on-SameMemory = record {
      same_start = refl;
      same_end = refl;
      same_length = refl;
      no_less = omega arith;
    }

    pub release_on-StackOk : StackOk granularity (release_on s k)
    unfolding release_on
    release_on-StackOk = record {
      in_frames = omega (arith, ok.in_frames);
      lower = λ j le. ok.lower j (omega arith);
      upper = λ j le. ok.upper j (omega arith);
      reserved = ok.reserved;
      paged = ok.paged;
      no_wrap = ok.no_wrap;
    }

    -- The blocks of earlier frames stay; the frame that is released is not the first.
    pub release_on-InStack :
        {b : Block} → 0 < k → frame_of b.level < k → InStack s b → InStack (release_on s k) b
    unfolding release_on
    release_on-InStack {b} pos lt i = record {
      start = i.start;
      ordered = i.ordered;
      below = λ j le why. i.below j (omega arith) (ground (arith, why));
    }
