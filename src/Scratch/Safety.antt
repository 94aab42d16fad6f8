-- ===== src/Scratch/Safety.antt =====
-- The arena under any sequence of calls that keeps to its scratches: no block that is given out
-- overlaps a block that is live.
use cbasis.Base.{
  ℕ, ◌+◌, ◌%◌, ◌^◌, ◌<◌, ◌≡◌, subst, Bool, leb, none, some, List, [], ◌∷◌, arith, of_require,
}
use cbasis.Scratch.{
  ScratchStack, ScratchArena, Scratch, stack_at, with_stack, scratch_push_nonzero, scratch_of,
  scratch_acquire, release_on, scratch_release,
}
use cbasis.Scratch.Stack.{Multiple}
use cbasis.Scratch.State.{
  Block, frame_of, release_on-SameMemory, release_on-StackOk, release_on-InStack,
}
use cbasis.Scratch.Blocks.{
  older, Valid, InArena, Safe, Each-map, Each-older, Separate-older, older-lt, Each-both,
  stack_at-StackOk, with_stack-Valid, with_stack-InArena,
}
use cbasis.Scratch.CallSafe.{Safe-count, acquire-Safe, parity_of, push-Safe, refuse-Safe}

-- The calls of a client that uses only scratches that it has not released, and alignments that divide
-- the allocation granularity. A block is added to those that are live, and a release drops the blocks
-- of its scratch and of those acquired later.
module _ (commits : ℕ → ℕ → Bool) (granularity : ℕ) where
  pub data Call (a : ScratchArena) (bs : List Block) : ScratchArena → List Block → Type 0 where
    acquire : {t : ScratchArena} {h : Scratch} → scratch_acquire a ≡ some (t, h) → Call a bs t bs
    push :
        {t : ScratchArena} (reports : Bool) (level size k j out : ℕ)
        → level < a.frame_count
        → k + j ≡ 64
        → 1 < j
        → Multiple granularity (2 ^ k)
        → scratch_push_nonzero commits granularity reports a (scratch_of level) size (2 ^ k)
          ≡ some (t, some out)
        → Call a bs t (record { level = level; from = out; to = out + size } ∷ bs)
    refuse :
        {t : ScratchArena} (reports : Bool) (level size k j : ℕ)
        → level < a.frame_count
        → k + j ≡ 64
        → 1 < j
        → Multiple granularity (2 ^ k)
        → scratch_push_nonzero commits granularity reports a (scratch_of level) size (2 ^ k)
          ≡ some (t, none)
        → Call a bs t bs
    release :
        {t : ScratchArena} (level : ℕ)
        → level < a.frame_count
        → scratch_release a (scratch_of level) ≡ some t
        → Call a bs t (older level bs)

  pub data Calls (a : ScratchArena) : ScratchArena → List Block → Type 0 where
    start : Calls a a []
    next : {t u : ScratchArena} {bs cs : List Block} → Calls a t bs → Call t bs u cs → Calls a u cs

module _ {granularity : ℕ} {a t : ScratchArena} {bs : List Block} (safe : Safe granularity a bs)
    (level : ℕ) where
  release-Safe : scratch_release a (scratch_of level) ≡ some t → Safe granularity t (older level bs)
  unfolding scratch_release scratch_of
  release-Safe e =
      let i : ℕ = level % 2 in
      let par = parity_of level in
      let s : ScratchStack = stack_at a i in
      let ok = stack_at-StackOk safe.valid i par s in
      let s' : ScratchStack = release_on s (frame_of level) in
      let ok' = release_on-StackOk ok (frame_of level) in
      let m = release_on-SameMemory ok (frame_of level) in
      let (_, done) = of_require (leb level a.frame_count) _ e in
      let both =
        Each-both (λ b. b.level < level) (InArena a) (older level bs) (older-lt level bs)
          (Each-older (InArena a) level bs safe.blocks) in
      let in_arena =
        Each-map (λ b. (b.level < level) × InArena a b) (InArena (with_stack a i s'))
          (older level bs)
          (λ b (lt, there).
            with_stack-InArena safe.valid i par s' b
              (λ same.
                release_on-InStack ok (frame_of level) (omega arith) (earlier b.level lt same))
              there)
          both in
      let safe' : Safe granularity (with_stack a i s') (older level bs) = record {
        valid = with_stack-Valid safe.valid i par s' ok' m;
        blocks = in_arena;
        separate = Separate-older level bs safe.separate;
      } in
      let final : record (with_stack a i s') { frame_count = level } ≡ t = cc (done) in
      subst (λ u. Safe granularity u (older level bs)) final (Safe-count safe' level)
    where
      earlier : (n : ℕ) → n < level → n % 2 ≡ level % 2 → frame_of n < frame_of level
      earlier n lt same = omega arith

Call-Safe :
    {commits : ℕ → ℕ → Bool} {granularity : ℕ} {a t : ScratchArena} {bs cs : List Block}
    → Call commits granularity a bs t cs
    → Safe granularity a bs
    → Safe granularity t cs
Call-Safe {commits} (acquire e) safe = acquire-Safe commits safe e
Call-Safe {commits} (push reports level size k j out live split pos fine e) safe =
    push-Safe commits safe reports level size k j split pos fine out e
Call-Safe {commits} (refuse reports level size k j live split pos fine e) safe =
    refuse-Safe commits safe reports level size k j split pos fine e
Call-Safe (release level live e) safe = release-Safe safe level e

pub Calls-Safe :
    {commits : ℕ → ℕ → Bool} {granularity : ℕ} {a t : ScratchArena} {bs : List Block}
    → Valid granularity a
    → Calls commits granularity a t bs
    → Safe granularity t bs
Calls-Safe v start = record { valid = v; blocks = tt; separate = tt }
Calls-Safe v (next calls call) = Call-Safe call (Calls-Safe v calls)
