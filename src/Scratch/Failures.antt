-- ===== src/Scratch/Failures.antt =====
-- Where the scratch arena does not keep its promises: a refused push on an outer scratch.
use cbasis.Base.{
  ℕ, zero, suc, ◌+◌, ◌-◌, ◌*◌, ◌/◌, ◌^◌, ◌<◌, ◌≡◌, refl, sym, ◌∙◌, subst, inl, inr, Bool, true,
  false, ◌&&◌, leb, Option, none, some, ◌>>=◌, List, [], ◌∷◌, arith, load, length, get_or,
  get_elem?-eq-get_or, min,
}
use cbasis.Scratch.{
  ScratchStack, channels, push_on, release_on, levels_in_order, stack_is_consistent,
}
use cbasis.Scratch.Stack.{frame, Multiple}
use cbasis.Scratch.Push.{push_on-Outcome}
use cbasis.Scratch.Outcomes.{StackOk, Refused}
use cbasis.Scratch.CallSafe.{push_on-fits}

levels_in_order-false :
    (n : ℕ) (fs : List ℕ) (lo hi j : ℕ)
    → j < n
    → hi < get_or fs j 0
    → levels_in_order n fs lo hi ≡ false
unfolding levels_in_order
levels_in_order-false zero fs lo hi j lt h = absurd (omega arith)
levels_in_order-false (suc n) [] lo hi j lt h = refl
levels_in_order-false (suc n) (f ∷ fs) lo hi zero lt h = ground arith
levels_in_order-false (suc n) (f ∷ fs) lo hi (suc j) lt h =
    ground (arith, levels_in_order-false n fs lo hi j (omega arith) h)

-- On a stack in order, with an alignment that divides the granularity: if a push on the frame of an
-- outer scratch is refused, and then the frames above `m` are released, where the frame `m` is above
-- the outer one and ends before the top did, the tests of scratch_arena_test_consistency fail. The
-- refused push has left the outer frame raised to the top.
pub refused_fall_breaks :
    (commits : ℕ → ℕ → Bool) (granularity cg : ℕ) (s : ScratchStack) (k m size a b capacity : ℕ)
    {t : ScratchStack}
    → 0 < cg
    → Multiple cg granularity
    → 0 < granularity
    → StackOk granularity s
    → a + b ≡ 64
    → 1 < b
    → Multiple granularity (2 ^ a)
    → k < m
    → m < s.curr_frame
    → frame s m < frame s s.curr_frame
    → push_on commits granularity true s cg k size (2 ^ a) ≡ some (t, none)
    → stack_is_consistent (release_on t (m + 1)) capacity ≡ some false
unfolding stack_is_consistent release_on
refused_fall_breaks commits granularity cg s k m size a b capacity {t} cg_pos paged g_pos ok split
      pos fine km mc lower e =
    elim (push_on-Outcome commits granularity true cg cg_pos paged g_pos s ok k size a b
      (push_on-fits commits granularity true s cg k size (2 ^ a) e) split pos fine) [
        | inl (t', out, ran, p) ↦ absurd (other (sym ran ∙ e))
        | inr (t', ran, r') ↦
            let same : t' ≡ t = cc (ran, e) in
            let r : Refused s k t = subst (Refused s k) same r' in
            let curr : min t.curr_frame (m + 1 - 1) ≡ m = omega (arith, r.current) in
            let fits : m < length t.frames = omega (arith, r.memory.same_length, ok.in_frames) in
            let top = get_elem?-eq-get_or t.frames m 0 fits in
            let at_m : frame t m ≡ frame s m = r.old m (omega arith) (omega arith) in
            let bad =
              levels_in_order-false m t.frames (t.reserved_from + capacity / channels * 8)
                (frame t m) k km (omega (arith, r.at_frame, at_m)) in
            subst (Fails t) (sym curr) (fails t m top bad)
      ]
  where
    other :
        {u v : ScratchStack} {o : ℕ}
        → ◌≡◌ {A = Option (ScratchStack × Option ℕ)} (some (u, some o)) (some (v, none))
        → ⊥
    other q = cc

    Fails : ScratchStack → ℕ → Type 0
    Fails u c =
        (load u.frames c >>= λ used_to. some (
          leb c (capacity / channels)
          && ((leb (u.reserved_from + capacity / channels * 8) used_to
                && (leb used_to u.commit_to && leb u.commit_to u.reserved_to))
              && levels_in_order c u.frames (u.reserved_from + capacity / channels * 8) used_to)))
        ≡ some false

    fails :
        (u : ScratchStack) (c : ℕ)
        → load u.frames c ≡ some (frame u c)
        → levels_in_order c u.frames (u.reserved_from + capacity / channels * 8) (frame u c) ≡ false
        → Fails u c
    fails u c top bad = ground (arith, top, bad)
