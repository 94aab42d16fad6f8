-- ===== src/Scratch/Consistent.antt =====
-- The tests of scratch_arena_test_consistency, which every successful operation keeps.
use cbasis.Base.{
  ℕ, zero, suc, ◌+◌, ◌*◌, ◌/◌, ◌^◌, ◌≤◌, ◌<◌, ◌≡◌, refl, sym, ap, ◌∙◌, subst, ◌⊎◌, inl, inr, Bool,
  true, false, Option, none, some, require, ◌>>◌, List, [], ◌∷◌, arith, length, get_or,
  get_elem?-eq-get_or,
}
use native.Mathlib.Decide.{dec_lt, ℕ_discrete}
use cbasis.Scratch.{
  ScratchStack, push_on, acquire_on, release_on, levels_in_order, stack_is_consistent,
}
use cbasis.Scratch.Stack.{frame, Multiple}
use cbasis.Scratch.Push.{push_on-Outcome}
use cbasis.Scratch.Outcomes.{StackOk, Pushed}
use cbasis.Scratch.State.{
  frame-cases, Pushed-StackOk, acquired, acquired-curr, acquire_on-acquired, acquired-cases,
  acquired-StackOk, acquired-SameMemory, release_on-StackOk,
}
use cbasis.Scratch.CallSafe.{acquire_on-fits, push_on-fits}

-- No frame ends before an earlier one.
abbrev pub Ordered : ScratchStack → Type 0
Ordered s = (i j : ℕ) → i ≤ j → j ≤ s.curr_frame → frame s i ≤ frame s j

levels_in_order-true :
    (n : ℕ) (fs : List ℕ) (lo hi : ℕ)
    → n ≤ length fs
    → ((j : ℕ) → j < n → (lo ≤ get_or fs j 0) × (get_or fs j 0 ≤ hi))
    → levels_in_order n fs lo hi ≡ true
unfolding levels_in_order
levels_in_order-true zero fs lo hi le h = refl
levels_in_order-true (suc n) [] lo hi le h = absurd (omega arith)
levels_in_order-true (suc n) (f ∷ fs) lo hi le h =
    ground
      (arith, h 0, levels_in_order-true n fs lo hi (omega arith) (λ j lt. h (suc j) (omega arith)))

-- A stack as the operations leave it: its frames are where `capacity` says.
pub record Kept (granularity capacity : ℕ) (s : ScratchStack) : Type 0 where
  pub ok : StackOk granularity s
  pub ordered : Ordered s
  pub capacity_is : capacity / 2 ≡ length s.frames

Kept-consistent :
    {granularity capacity : ℕ} {s : ScratchStack}
    → Kept granularity capacity s
    → stack_is_consistent s capacity ≡ some true
unfolding stack_is_consistent
Kept-consistent {capacity} {s} k =
    let top = get_elem?-eq-get_or s.frames s.curr_frame 0 k.ok.in_frames in
    let order =
      levels_in_order-true s.curr_frame s.frames (s.reserved_from + capacity / 2 * 8)
        (frame s s.curr_frame) (omega (arith, k.ok.in_frames))
        (λ j lt. (
          omega (arith, k.ok.lower j (omega arith), k.capacity_is),
          k.ordered j s.curr_frame (omega arith) (omega arith),
        )) in
    ground (
      arith,
      top,
      order,
      k.capacity_is,
      k.ok.in_frames,
      k.ok.lower s.curr_frame,
      k.ok.upper s.curr_frame,
      k.ok.reserved,
    )

module _ (granularity capacity : ℕ) (s : ScratchStack) (k : Kept granularity capacity s) where
  acquires : (t : ScratchStack) → acquire_on s ≡ some t → Kept granularity capacity t
  acquires t e =
      let fits = acquire_on-fits s t e in
      let same : acquired k.ok ≡ t = cc (acquire_on-acquired k.ok fits, e) in
      let at = acquired-cases k.ok fits in
      let made : Kept granularity capacity (acquired k.ok) = record {
        ok = acquired-StackOk k.ok fits;
        ordered = λ i j le in_use.
            let le' : j ≤ s.curr_frame + 1 = omega (arith, acquired-curr k.ok) in
            ground
              (arith, at i (omega arith), at j le', k.ordered i j le, k.ordered i s.curr_frame);
        capacity_is = k.capacity_is ∙ sym (acquired-SameMemory k.ok).same_length;
      } in
      subst (Kept granularity capacity) same made

  pushes :
      (cg k' size align : ℕ) {t : ScratchStack} {out : ℕ}
      → k' < length s.frames
      → Pushed granularity s k' size align t out
      → Kept granularity capacity t
  pushes cg k' size align {t} {out} room p =
      let at = frame-cases k.ok p room in
      record {
        ok = Pushed-StackOk k.ok p room;
        ordered = λ i j le in_use. ordered i j le (omega (arith, p.current));
        capacity_is = k.capacity_is ∙ sym p.memory.same_length;
      }
    where
      ordered : (i j : ℕ) → i ≤ j → j ≤ k' → frame t i ≤ frame t j
      ordered i j le in_use = elim (ℕ_discrete i j) [
        | yes e ↦ omega (arith, ap (frame t) e)
        | no ne ↦ ground (
          arith,
          frame-cases k.ok p room j in_use,
          old i (omega arith),
          k.ordered i j le,
          k.ordered i s.curr_frame,
          p.above,
        )
      ]
        where
          old :
              (m : ℕ)
              → m < k'
              → ((m ≤ s.curr_frame) × (frame t m ≡ frame s m))
                ⊎ ((s.curr_frame < m) × (frame t m ≡ frame s s.curr_frame))
          old m lt = elim (dec_lt s.curr_frame m) [
            | yes above ↦ inr (above, p.raised m above lt)
            | no below ↦ inl (omega arith, p.old m (omega arith) lt)
          ]

  releases : (k' : ℕ) → Kept granularity capacity (release_on s k')
  unfolding release_on
  releases k' = record {
    ok = release_on-StackOk k.ok k';
    ordered = λ i j le in_use. k.ordered i j le (omega arith);
    capacity_is = k.capacity_is;
  }

-- A successful operation on one stack: with a granularity of commits that is a multiple of the
-- platform's, and an alignment that divides it.
pub data Step (commits : ℕ → ℕ → Bool) (granularity : ℕ) (s : ScratchStack)
    : ScratchStack → Type 0 where
  acquire : {t : ScratchStack} → acquire_on s ≡ some t → Step commits granularity s t
  push :
      {t : ScratchStack} (reports : Bool) (cg frame_ptr size k j out : ℕ)
      → 0 < cg
      → Multiple cg granularity
      → 0 < granularity
      → k + j ≡ 64
      → 1 < j
      → Multiple granularity (2 ^ k)
      → push_on commits granularity reports s cg frame_ptr size (2 ^ k) ≡ some (t, some out)
      → Step commits granularity s t
  release : (frame_ptr : ℕ) → Step commits granularity s (release_on s frame_ptr)

pub data Steps (commits : ℕ → ℕ → Bool) (granularity : ℕ) (s : ScratchStack)
    : ScratchStack → Type 0 where
  start : Steps commits granularity s s
  next :
      {t u : ScratchStack}
      → Steps commits granularity s t
      → Step commits granularity t u
      → Steps commits granularity s u

Step-Kept :
    {commits : ℕ → ℕ → Bool} {granularity : ℕ} {s t : ScratchStack} (capacity : ℕ)
    → Kept granularity capacity s
    → Step commits granularity s t
    → Kept granularity capacity t
Step-Kept {granularity} {s} capacity k (acquire {t} e) = acquires granularity capacity s k t e
Step-Kept {commits} {granularity} {s} capacity kept
      (push {t} reports cg frame_ptr size k j out cg_pos paged g_pos split pos fine e) =
    let room = push_on-fits commits granularity reports s cg frame_ptr size (2 ^ k) e in
    elim (push_on-Outcome commits granularity reports cg cg_pos paged g_pos s kept.ok frame_ptr size
      k j room split pos fine) [
        | inl (t', out', ran, p) ↦
            let same : t' ≡ t = cc (ran, e) in
            subst (Kept granularity capacity) same
              (pushes granularity capacity s kept cg frame_ptr size (2 ^ k) room p)
        | inr (t', ran, r) ↦ absurd (never reports t' (sym ran ∙ e))
      ]
  where
    never :
        (b : Bool) (u : ScratchStack) {v : ScratchStack} {o : ℕ}
        → ◌≡◌ {A = Option (ScratchStack × Option ℕ)}
            (require b >> some (u, none))
            (some (v, some o))
        → ⊥
    never true u q = cc
    never false u q = cc
Step-Kept {granularity} {s} capacity k (release frame_ptr) =
    releases granularity capacity s k frame_ptr

-- From a stack that is in order, after any number of successful acquisitions, pushes and releases the
-- tests of scratch_arena_test_consistency hold, and the stack is in order.
pub consistent-Steps :
    {commits : ℕ → ℕ → Bool} {granularity : ℕ} {s t : ScratchStack} (capacity : ℕ)
    → Kept granularity capacity s
    → Steps commits granularity s t
    → (stack_is_consistent t capacity ≡ some true) × Kept granularity capacity t
consistent-Steps capacity k start = (Kept-consistent k, k)
consistent-Steps capacity k (next steps step) =
    let k' = Step-Kept capacity (consistent-Steps capacity k steps).1 step in
    (Kept-consistent k', k')
