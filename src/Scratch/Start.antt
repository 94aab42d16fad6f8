-- ===== src/Scratch/Start.antt =====
-- The arena that scratch_arena_init makes, and what holds of every arena that calls lead to from it.
use cbasis.Base.{
  ℕ, ◌+◌, ◌-◌, ◌*◌, ◌/◌, ◌%◌, ◌^◌, ◌≤◌, ◌<◌, ◌≡◌, refl, sym, ap, ◌∙◌, subst, inl, inr, Bool, true,
  ltb, if◌then◌else◌, Option, some, List, arith, store, set, length, get_or, get_or-set, store-set,
  length-set, replicate, length-replicate, min, bind_some, of_require, store-fits,
}
use native.Mathlib.Nat.{div-add-mod', mod-lt}
use cbasis.Arena.{def_commit_size, def_reserve_size}
use cbasis.Scratch.{
  ScratchStack, ScratchArena, channels, def_stack_size, round_up, init_stack, scratch_arena_init,
  stack_at,
}
use cbasis.Scratch.Stack.{frame, Multiple}
use cbasis.Scratch.Outcomes.{StackOk}
use cbasis.Scratch.State.{Block, below_top}
use cbasis.Scratch.Blocks.{Each, Separate, Valid, InArena, Each-map}
use cbasis.Scratch.Safety.{Calls, Calls-Safe}

le-round_up : (val to : ℕ) → 0 < to → val ≤ round_up val to
unfolding round_up
le-round_up val to pos = omega (arith, div-add-mod' (val + to - 1) to, mod-lt (val + to - 1) pos)

pub round_up-Multiple : (val to : ℕ) → Multiple (round_up val to) to
unfolding round_up
round_up-Multiple val to = ((val + to - 1) / to, refl)

-- The stack in a part of the reserved memory.
module _ (granularity start size frames fcs : ℕ) {s : ScratchStack}
    (made : init_stack start size frames fcs ≡ some s) where
  pub init_stack-parts :
      (0 < frames)
      × (s.reserved_to ≡ start + size)
      × (s.reserved_from ≡ start)
      × (s.commit_to ≡ start + fcs)
      × (s.curr_frame ≡ 0)
      × (length s.frames ≡ frames)
      × (frame s 0 ≡ start + frames * 8)
  unfolding init_stack
  init_stack-parts =
      let fresh : List ℕ = replicate frames 0 in
      let plain : length fresh ≡ frames = length-replicate frames 0 in
      let v : ℕ = start + frames * 8 in
      let (fs, there, done) = bind_some (store fresh 0 v) _ made in
      let fits = store-fits fresh 0 v there in
      let same : set fresh 0 v ≡ fs = cc (store-set fresh 0 v fits, there) in
      let long = ap (λ ys. length ys) (sym same) ∙ (length-set fresh 0 v ∙ plain) in
      let top = ap (λ ys. get_or ys 0 0) (sym same) ∙ get_or-set fresh 0 0 v 0 fits in
      (
        omega (arith, fits, plain),
        ground (arith, done),
        ground (arith, done),
        ground (arith, done),
        ground (arith, done),
        ground (arith, done, long),
        ground (arith, done, top),
      )

  init_stack-StackOk :
      frames * 8 ≤ fcs
      → fcs ≤ size
      → Multiple (start + fcs) granularity
      → start + size + granularity ≤ 2 ^ 64
      → StackOk granularity s
  init_stack-StackOk enough inside paged small =
      let (pos, to, from, commit, curr, long, top) = init_stack-parts in
      let zero_frame = λ (j : ℕ) (le : j ≤ s.curr_frame).
        let e : j ≡ 0 = omega (arith, curr) in ap (frame s) e ∙ top in
      record {
        in_frames = omega (arith, pos, curr, long);
        lower = λ j le. omega (arith, zero_frame j le, from, long);
        upper = λ j le. omega (arith, zero_frame j le, commit, enough);
        reserved = omega (arith, to, commit, inside);
        paged = subst (λ c. Multiple c granularity) (sym commit) paged;
        no_wrap = omega (arith, to, small);
      }

-- The arithmetic of the sizes: the frames fit into what is committed for them.
frames-le : (q cg : ℕ) → 0 < cg → q * 8 ≤ round_up (q * 2 * 8 / 2) cg
frames-le q cg pos =
    let half : q * 2 * 8 / 2 ≡ q * 8 = omega arith in
    omega (arith, half, le-round_up (q * 2 * 8 / 2) cg pos)

pos-round_up : (val to : ℕ) → 0 < val → 0 < to → 0 < round_up val to
pos-round_up val to pos p = omega (arith, le-round_up val to p)

assoc : (x y : ℕ) → x * (y * 2) ≡ x * y + x * y
assoc x y = grind arith

halves : (s x y : ℕ) → s ≡ x * (y * 2) → s / 2 ≡ x * y
halves s x y q = omega (arith, q, assoc x y)

frames_fit : (n x c : ℕ) → 0 < c → n ≡ x * 2 → n / 2 * 8 ≤ round_up (n * 8 / 2) c
frames_fit n x c pos q =
    let at : x * 2 / 2 * 8 ≤ round_up (x * 2 * 8 / 2) c = omega (arith, frames-le x c pos) in
    subst (λ r. r / 2 * 8 ≤ round_up (r * 8 / 2) c) (sym q) at

-- Sums of multiples.
add3 : (x z p w c g : ℕ) → x ≡ p * g → z ≡ w * c → Multiple c g → Multiple (x + z) g
add3 x z p w c g ex ez (r, ec) = (p + w * r, grind (arith, ex, ez, ec))

add4 :
    (x y z p m w c g : ℕ)
    → x ≡ p * g
    → y ≡ m * g
    → z ≡ w * c
    → Multiple c g
    → Multiple (x + y + z) g
add4 x y z p m w c g ex ey ez (r, ec) = (p + m + w * r, grind (arith, ex, ey, ez, ec))

-- The sizes that scratch_arena_init computes.
abbrev pub sizes : ℕ → ℕ → ℕ → ℕ → ℕ × ℕ × ℕ × ℕ
sizes granularity reserve commit levels =
    let cg = round_up (if ltb 0 commit then commit else def_commit_size) granularity in
    let size =
      round_up (if ltb 0 reserve then reserve else def_reserve_size) (granularity * channels) in
    let count =
      round_up (min (if ltb 0 levels then levels else def_stack_size) (size / 8)) channels in
    (cg, size, count, round_up (count * 8 / channels) cg)

-- What is asked of the platform: memory is reserved at a multiple of the granularity, so that the next
-- multiple after its end is an address, and only reserved memory is committed.
pub record Lawful (reserve : ℕ → Option ℕ) (commits : ℕ → ℕ → Bool) (granularity : ℕ) : Type 0 where
  pub positive : 0 < granularity
  pub on_page : (size start : ℕ) → reserve size ≡ some start → Multiple start granularity
  pub no_wrap : (size start : ℕ) → reserve size ≡ some start → start + size + granularity ≤ 2 ^ 64
  pub only_reserved :
      (size start from to : ℕ)
      → reserve size ≡ some start
      → commits from to ≡ true
      → to ≤ start + size

-- A block in the committed memory of a stack, behind the frames.
abbrev pub Bounded : ScratchStack → Block → Type 0
Bounded s b =
    (s.reserved_from + length s.frames * 8 ≤ b.from) × (b.from ≤ b.to) × (b.to ≤ s.commit_to)

abbrev pub Inside : ScratchArena → Block → Type 0
Inside t b = Bounded (stack_at t (b.level % 2)) b

module _ (reserve : ℕ → Option ℕ) (commits : ℕ → ℕ → Bool) (granularity : ℕ)
    (law : Lawful reserve commits granularity) (rs cs ls : ℕ) {a : ScratchArena} where
  init-Valid :
      scratch_arena_init reserve commits granularity rs cs ls ≡ some a → Valid granularity a
  unfolding scratch_arena_init
  init-Valid e =
      let (cg, size, count, fcs) = sizes granularity rs cs ls in
      let half : ℕ = size / channels in
      let (start, at, rest) = bind_some (reserve size) _ e in
      let (c0, rest') = of_require (commits start (start + fcs)) _ rest in
      let (c1, rest'') = of_require (commits (start + half) (start + half + fcs)) _ rest' in
      let (s0, made0, rest3) = bind_some (init_stack start half (count / channels) fcs) _ rest'' in
      let (s1, made1, done) =
        bind_some (init_stack (start + half) half (count / channels) fcs) _ rest3 in
      let cg_pos : 0 < cg =
        pos-round_up (if ltb 0 cs then cs else def_commit_size) granularity (ground arith)
          law.positive in
      let (m, size_is) =
        round_up-Multiple (if ltb 0 rs then rs else def_reserve_size) (granularity * channels) in
      let halved : half ≡ m * granularity = halves size m granularity size_is in
      let whole : size ≡ half + half = omega (arith, size_is, halved, assoc m granularity) in
      let inside : fcs ≤ half =
        omega
          (arith, law.only_reserved size start (start + half) (start + half + fcs) at c1, whole) in
      let (q, count_is) =
        round_up-Multiple (min (if ltb 0 ls then ls else def_stack_size) (size / 8)) channels in
      let frames : count / channels ≡ q = omega (arith, count_is) in
      let enough : count / channels * 8 ≤ fcs = frames_fit count q cg cg_pos count_is in
      let (p, start_is) = law.on_page size start at in
      let cg_paged = round_up-Multiple (if ltb 0 cs then cs else def_commit_size) granularity in
      let (w, fcs_is) = round_up-Multiple (count * 8 / channels) cg in
      let room = law.no_wrap size start at in
      let ok0 =
        init_stack-StackOk granularity start half (count / channels) fcs made0 enough inside
          (add3 start fcs p w cg granularity start_is fcs_is cg_paged)
          (omega (arith, whole, room)) in
      let ok1 =
        init_stack-StackOk granularity (start + half) half (count / channels) fcs made1 enough
          inside (add4 start half fcs p m w cg granularity start_is halved fcs_is cg_paged)
          (omega (arith, whole, room)) in
      let parts0 = init_stack-parts granularity start half (count / channels) fcs made0 in
      let parts1 = init_stack-parts granularity (start + half) half (count / channels) fcs made1 in
      let made : Valid granularity (record {
        even_stack = s0;
        odd_stack = s1;
        frame_count = 0;
        frame_capacity = count % 2 ^ 32;
        reserved_from = 0;
        reserved_size = size;
        commit_granularity = cg;
      }) =
        record {
          even_ok = ok0;
          odd_ok = ok1;
          in_turn = omega (arith, parts0.1, parts1.2);
          cg_pos = cg_pos;
          cg_paged = cg_paged;
          g_pos = law.positive;
        } in
      subst (Valid granularity) (cc (done)) made

  -- On a lawful platform, whatever calls are made on the arena that scratch_arena_init makes, if they use
  -- only scratches that are not released, and alignments that divide the granularity: no two live
  -- blocks overlap, and each lies in the committed memory of the stack of its level, behind the frames. (A call that
  -- faults, such as the acquisition of a frame behind the frame words, is none of them.)
  pub live_blocks_apart :
      {t : ScratchArena} {bs : List Block}
      → scratch_arena_init reserve commits granularity rs cs ls ≡ some a
      → Calls commits granularity a t bs
      → Separate bs × Each (Inside t) bs
  unfolding stack_at
  live_blocks_apart {t} {bs} e calls =
      let safe = Calls-Safe (init-Valid e) calls in
      (
        safe.separate,
        Each-map (InArena t) (Inside t) bs (λ b there. inside safe.valid b there) safe.blocks,
      )
    where
      inside : Valid granularity t → (b : Block) → InArena t b → Inside t b
      inside v b (inl (even, i)) =
          let at : stack_at t (b.level % 2) ≡ t.even_stack = ground (arith, even) in
          subst (λ s. Bounded s b) (sym at)
            (
              i.start,
              i.ordered,
              omega (arith, below_top i, v.even_ok.upper t.even_stack.curr_frame (omega arith)),
            )
      inside v b (inr (odd, i)) =
          let at : stack_at t (b.level % 2) ≡ t.odd_stack = ground (arith, odd) in
          subst (λ s. Bounded s b) (sym at)
            (
              i.start,
              i.ordered,
              omega (arith, below_top i, v.odd_ok.upper t.odd_stack.curr_frame (omega arith)),
            )
