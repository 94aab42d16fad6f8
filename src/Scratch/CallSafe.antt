-- ===== src/Scratch/CallSafe.antt =====
-- Acquisitions and pushes on an arena keep its live blocks apart.
use cbasis.Base.{
  ℕ, ◌+◌, ◌%◌, ◌^◌, ◌≤◌, ◌<◌, ◌≡◌, refl, sym, ap, ◌∙◌, subst, ◌⊎◌, inl, inr, Bool, true, false, ltb,
  leb, Option, none, some, ◌>>◌, require, List, ◌∷◌, arith, load, store, length, bind_some,
  of_require, load-fits, store-fits,
}
use cbasis.Scratch.{
  ScratchStack, ScratchArena, Scratch, stack_at, with_stack, push_on, scratch_push_nonzero,
  acquire_on, scratch_of, scratch_acquire,
}
use cbasis.Scratch.Stack.{Multiple}
use cbasis.Scratch.Push.{push_on-Outcome}
use cbasis.Scratch.Outcomes.{StackOk, SameMemory, Pushed, Refused}
use cbasis.Scratch.State.{
  Block, frame_of, InStack, Pushed-StackOk, Pushed-InStack, Pushed-new, Refused-StackOk,
  Refused-InStack, acquired, acquire_on-acquired, acquired-StackOk, acquired-InStack,
  acquired-SameMemory,
}
use cbasis.Scratch.Blocks.{
  Apart, InArena, Safe, Each-map, stack_at-StackOk, with_stack-Valid, with_stack-InArena,
  with_stack-new, free-Apart,
}

pub parity_of : (level : ℕ) → (level % 2 ≡ 0) ⊎ (level % 2 ≡ 1)
parity_of level = ground arith

pub acquire_on-fits :
    (s t : ScratchStack) → acquire_on s ≡ some t → s.curr_frame + 1 < length s.frames
unfolding acquire_on
acquire_on-fits s t e =
    let (u, _, rest) = bind_some (load s.frames s.curr_frame) _ e in
    let (w, there, _) = bind_some (store s.frames (s.curr_frame + 1) u) _ rest in
    store-fits s.frames (s.curr_frame + 1) u there

pub push_on-fits :
    (commits : ℕ → ℕ → Bool) (granularity : ℕ) (reports : Bool) (s : ScratchStack)
    (cg k size align : ℕ) {r : ScratchStack × Option ℕ}
    → push_on commits granularity reports s cg k size align ≡ some r
    → k < length s.frames
unfolding push_on
push_on-fits commits granularity reports s cg k size align e =
    let (u, there, _) = bind_some (load s.frames k) _ e in load-fits s.frames k there

module _ {granularity : ℕ} {a : ScratchArena} {bs : List Block} (safe : Safe granularity a bs) where
  pub Safe-count : (n : ℕ) → Safe granularity (record a { frame_count = n }) bs
  Safe-count n = record {
    valid = record {
      even_ok = safe.valid.even_ok;
      odd_ok = safe.valid.odd_ok;
      in_turn = safe.valid.in_turn;
      cg_pos = safe.valid.cg_pos;
      cg_paged = safe.valid.cg_paged;
      g_pos = safe.valid.g_pos;
    };
    blocks = safe.blocks;
    separate = safe.separate;
  }

  -- The same blocks with another state of one stack, in which they stay.
  with_stack-Safe :
      (i : ℕ) (parity : (i ≡ 0) ⊎ (i ≡ 1)) (s : ScratchStack)
      → StackOk granularity s
      → SameMemory (stack_at a i) s
      → ((b : Block) → InStack (stack_at a i) b → InStack s b)
      → Safe granularity (with_stack a i s) bs
  with_stack-Safe i parity s ok m keep = record {
    valid = with_stack-Valid safe.valid i parity s ok m;
    blocks =
        Each-map (InArena a) (InArena (with_stack a i s)) bs
          (λ b. with_stack-InArena safe.valid i parity s b (λ _. keep b)) safe.blocks;
    separate = safe.separate;
  }

module _ (commits : ℕ → ℕ → Bool) {granularity : ℕ} {a t : ScratchArena} {bs : List Block}
    (safe : Safe granularity a bs) where
  pub acquire-Safe : {h : Scratch} → scratch_acquire a ≡ some (t, h) → Safe granularity t bs
  unfolding scratch_acquire
  acquire-Safe e =
      let i : ℕ = a.frame_count % 2 in
      let s : ScratchStack = stack_at a i in
      let p = parity_of a.frame_count in
      let (_, rest) = of_require (ltb a.frame_count a.frame_capacity) _ e in
      let (s', ran, done) = bind_some (acquire_on s) _ rest in
      let ok = stack_at-StackOk safe.valid i p s in
      let fits = acquire_on-fits s s' ran in
      let same : acquired ok ≡ s' = cc (acquire_on-acquired ok fits) in
      let m : SameMemory s (acquired ok) = acquired-SameMemory ok in
      let safe' =
        with_stack-Safe safe i p (acquired ok) (acquired-StackOk ok fits) m
          (λ b. acquired-InStack ok fits) in
      let final : record (with_stack a i (acquired ok)) { frame_count = a.frame_count + 1 } ≡ t =
        ground (arith, same, done) in
      subst (λ u. Safe granularity u bs) final (Safe-count safe' (a.frame_count + 1))

module _ (commits : ℕ → ℕ → Bool) {granularity : ℕ} {a : ScratchArena} {bs : List Block}
    (safe : Safe granularity a bs) (reports : Bool) (level size k j : ℕ) (split : k + j ≡ 64)
    (pos : 1 < j) (fine : Multiple granularity (2 ^ k)) where
  abbrev here : ScratchStack
  here = stack_at a (level % 2)

  abbrev pushed : Option (ScratchStack × Option ℕ)
  pushed =
      push_on commits granularity reports here a.commit_granularity (frame_of level) size (2 ^ k)

  -- What is left of a push of the arena: a push on its stack.
  push-parts :
      {t : ScratchArena} {o : Option ℕ}
      → scratch_push_nonzero commits granularity reports a (scratch_of level) size (2 ^ k)
        ≡ some (t, o)
      → (s : ScratchStack) × (pushed ≡ some (s, o)) × (with_stack a (level % 2) s ≡ t)
  unfolding scratch_push_nonzero scratch_of
  push-parts e =
      let (_, rest) = of_require (leb level a.frame_count) _ e in
      let ((s, o'), ran, done) = bind_some pushed _ rest in
      (s, ground (arith, ran, done), ground (arith, done))

  outcome :
      {r : ScratchStack × Option ℕ}
      → pushed ≡ some r
      → ((s : ScratchStack) × (out : ℕ) × (pushed ≡ some (s, some out))
          × Pushed granularity here (frame_of level) size (2 ^ k) s out)
        ⊎ ((s : ScratchStack) × (pushed ≡ (require reports >> some (s, none)))
            × Refused here (frame_of level) s)
  outcome ran =
      push_on-Outcome commits granularity reports a.commit_granularity safe.valid.cg_pos
        safe.valid.cg_paged safe.valid.g_pos here
        (stack_at-StackOk safe.valid (level % 2) (parity_of level) here) (frame_of level) size k j
        (push_on-fits commits granularity reports here a.commit_granularity (frame_of level) size
          (2 ^ k) ran)
        split pos fine

  memory_end :
      (s : ScratchStack) (out : ℕ)
      → Pushed granularity here (frame_of level) size (2 ^ k) s out
      → out + size ≤ here.reserved_to
  memory_end s out p = omega (arith, p.committed, p.reserved, p.memory.same_end)

  pub push-Safe :
      {t : ScratchArena} (out : ℕ)
      → scratch_push_nonzero commits granularity reports a (scratch_of level) size (2 ^ k)
        ≡ some (t, some out)
      → Safe granularity t (record { level = level; from = out; to = out + size } ∷ bs)
  push-Safe {t} out e =
      let (s, ran, whole) = push-parts e in
      let fits =
        push_on-fits commits granularity reports here a.commit_granularity (frame_of level) size
          (2 ^ k) ran in
      let i : ℕ = level % 2 in
      let par = parity_of level in
      let ok = stack_at-StackOk safe.valid i par here in
      elim (outcome ran) [
        | inl (s', out', ran', p) ↦
            let same_out : out' ≡ out = cc (ran, ran') in
            let same : s' ≡ s = cc (ran, ran') in
            let ok' = Pushed-StackOk ok p fits in
            let safe' =
              with_stack-Safe safe i par s' ok' p.memory (λ b. Pushed-InStack ok p fits) in
            let b : Block = record { level = level; from = out'; to = out' + size } in
            let new = with_stack-new safe.valid i par s' b refl (Pushed-new ok p fits level refl) in
            let apart =
              Each-map (InArena a) (Apart b) bs
                (λ c there.
                  free-Apart safe.valid i par here b c there p.above (omega arith)
                    (memory_end s' out' p))
                safe.blocks in
            let final : Safe granularity (with_stack a i s') (b ∷ bs) = record {
              valid = safe'.valid;
              blocks = (new, safe'.blocks);
              separate = (apart, safe.separate);
            } in
            subst
              (λ u. Safe granularity u (record { level = level; from = out; to = out + size } ∷ bs))
              (ap (with_stack a i) same ∙ whole)
              (subst
                (λ o.
                  Safe granularity (with_stack a i s')
                    (record { level = level; from = o; to = o + size } ∷ bs))
                same_out final)
        | inr (s', ran', r) ↦ absurd (never reports s' (sym ran' ∙ ran))
      ]
    where
      never :
          (b : Bool) (u : ScratchStack) {v : ScratchStack}
          → ◌≡◌ {A = Option (ScratchStack × Option ℕ)}
              (require b >> some (u, none))
              (some (v, some out))
          → ⊥
      never true u q = cc
      never false u q = cc

  pub refuse-Safe :
      {t : ScratchArena}
      → scratch_push_nonzero commits granularity reports a (scratch_of level) size (2 ^ k)
        ≡ some (t, none)
      → Safe granularity t bs
  refuse-Safe {t} e =
      let (s, ran, whole) = push-parts e in
      let i : ℕ = level % 2 in
      let par = parity_of level in
      let ok = stack_at-StackOk safe.valid i par here in
      elim (outcome ran) [
        | inl (s', out', ran', p) ↦ absurd (never (sym ran' ∙ ran))
        | inr (s', ran', r) ↦
            let same : s' ≡ s = left reports s' s (sym ran' ∙ ran) in
            subst (λ u. Safe granularity u bs) (ap (with_stack a i) same ∙ whole)
              (with_stack-Safe safe i par s' (Refused-StackOk ok r) r.memory
                (λ b. Refused-InStack ok r))
      ]
    where
      never :
          {u v : ScratchStack} {o : ℕ}
          → ◌≡◌ {A = Option (ScratchStack × Option ℕ)} (some (u, some o)) (some (v, none))
          → ⊥
      never q = cc

      left :
          (b : Bool) (u v : ScratchStack)
          → ◌≡◌ {A = Option (ScratchStack × Option ℕ)}
              (require b >> some (u, none))
              (some (v, none))
          → u ≡ v
      left true u v q = cc
      left false u v q = cc
