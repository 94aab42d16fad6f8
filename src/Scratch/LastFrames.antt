-- ===== src/Scratch/LastFrames.antt =====
-- Acquisitions of all but two frames of a scratch arena, and the one after them, whose frame stands
-- behind the frame words of its stack.
use native.Mathlib.Decide.{ℕ_discrete}
use cbasis.Base.{
  ◌^◌, ℕ, zero, suc, ◌+◌, ◌-◌, ◌*◌, ◌/◌, ◌%◌, ◌≤◌, ◌<◌, ◌≡◌, refl, sym, ap, ◌∙◌, subst, Bool, ltb,
  if◌then◌else◌, Option, none, some, ◌>>=◌, List, [], ◌∷◌, arith, store, set, length,
  get_elem?-eq-get_or, store-set, length-set, min, bind_some, of_require,
}
use cbasis.Scratch.{
  round_up, ScratchStack, ScratchArena, Scratch, channels, stack_at, with_stack, def_stack_size,
  init_stack, scratch_arena_init, acquire_on, scratch_of, scratch_acquire,
}
use cbasis.Scratch.Stack.{frame}
use cbasis.Scratch.Start.{init_stack-parts, sizes, round_up-Multiple}

store-none : (xs : List ℕ) (i v : ℕ) → length xs ≤ i → store xs i v ≡ none
store-none [] i v le = refl
store-none (x ∷ xs) zero v le = absurd (omega arith)
store-none (x ∷ xs) (suc i) v le = ground (arith, store-none xs i v)

-- The first `n` acquisitions on an arena.
unfoldable pub acquire_many : ℕ → ScratchArena → Option ScratchArena
acquire_many zero a = some a
acquire_many (suc n) a = acquire_many n a >>= λ b. scratch_acquire b >>= λ r. some r.0

acquire_on_runs :
    (s : ScratchStack)
    → s.curr_frame + 1 < length s.frames
    → (t : ScratchStack) × (acquire_on s ≡ some t)
      × (t.curr_frame ≡ s.curr_frame + 1)
      × (length t.frames ≡ length s.frames)
unfolding acquire_on
acquire_on_runs s fits =
    let top = get_elem?-eq-get_or s.frames s.curr_frame 0 (omega arith) in
    let fs : List ℕ = set s.frames (s.curr_frame + 1) (frame s s.curr_frame) in
    (
      record s { frames = fs; curr_frame = s.curr_frame + 1 },
      ground (arith, top, store-set s.frames (s.curr_frame + 1) (frame s s.curr_frame)),
      refl,
      length-set s.frames (s.curr_frame + 1) (frame s s.curr_frame),
    )

acquire_on_stuck :
    (s : ScratchStack)
    → 0 < length s.frames
    → s.curr_frame + 1 ≡ length s.frames
    → acquire_on s ≡ none
unfolding acquire_on
acquire_on_stuck s pos e =
    let top = get_elem?-eq-get_or s.frames s.curr_frame 0 (omega arith) in
    ground (arith, top, store-none s.frames (s.curr_frame + 1) (frame s s.curr_frame) (omega arith))

-- After `n` acquisitions on stacks of `f` frames each.
record Filled (f n : ℕ) (t : ScratchArena) : Type 0 where
  pub count : t.frame_count ≡ n
  pub capacity : t.frame_capacity ≡ f * 2
  even_curr : t.even_stack.curr_frame ≡ (n + 1) / 2
  even_frames : length t.even_stack.frames ≡ f
  odd_curr : t.odd_stack.curr_frame ≡ n / 2
  odd_frames : length t.odd_stack.frames ≡ f

next_even :
    (f n : ℕ) (t : ScratchArena)
    → Filled f n t
    → n + 2 < f * 2
    → n % 2 ≡ 0
    → (u : ScratchArena) × (h : Scratch) × (scratch_acquire t ≡ some (u, h)) × Filled f (n + 1) u
unfolding scratch_acquire stack_at with_stack
next_even f n t p lt even =
    let (s, ran, curr, long) =
      acquire_on_runs t.even_stack (omega (arith, p.even_curr, p.even_frames)) in
    let count_even : t.frame_count % 2 ≡ 0 = ground (arith, p.count) in
    (
      record t { even_stack = s; frame_count = t.frame_count + 1 },
      scratch_of t.frame_count,
      ground (arith, ran, count_even, p.count, p.capacity),
      record {
        count = omega (arith, p.count);
        capacity = p.capacity;
        even_curr = omega (arith, curr, p.even_curr);
        even_frames = long ∙ p.even_frames;
        odd_curr = omega (arith, p.odd_curr);
        odd_frames = p.odd_frames;
      },
    )

next_odd :
    (f n : ℕ) (t : ScratchArena)
    → Filled f n t
    → n + 2 < f * 2
    → n % 2 ≡ 1
    → (u : ScratchArena) × (h : Scratch) × (scratch_acquire t ≡ some (u, h)) × Filled f (n + 1) u
unfolding scratch_acquire stack_at with_stack
next_odd f n t p lt odd =
    let (s, ran, curr, long) =
      acquire_on_runs t.odd_stack (omega (arith, p.odd_curr, p.odd_frames)) in
    let count_odd : t.frame_count % 2 ≡ 1 = ground (arith, p.count) in
    (
      record t { odd_stack = s; frame_count = t.frame_count + 1 },
      scratch_of t.frame_count,
      ground (arith, ran, count_odd, p.count, p.capacity),
      record {
        count = omega (arith, p.count);
        capacity = p.capacity;
        even_curr = omega (arith, p.even_curr);
        even_frames = p.even_frames;
        odd_curr = omega (arith, curr, p.odd_curr);
        odd_frames = long ∙ p.odd_frames;
      },
    )

next_either :
    (f n : ℕ) (t : ScratchArena)
    → Filled f n t
    → n + 2 < f * 2
    → (u : ScratchArena) × (h : Scratch) × (scratch_acquire t ≡ some (u, h)) × Filled f (n + 1) u
next_either f n t p lt = elim (ℕ_discrete (n % 2) 0) [
  | yes even ↦ next_even f n t p lt even
  | no odd ↦ next_odd f n t p lt (omega arith)
]

fills :
    (f : ℕ) (a : ScratchArena)
    → Filled f 0 a
    → (n : ℕ) → n + 2 ≤ f * 2
    → (t : ScratchArena) × (acquire_many n a ≡ some t) × Filled f n t
unfolding acquire_many
fills f a p zero le = (a, refl, p)
fills f a p (suc n) le =
    let (t, ran, filled) = fills f a p n (omega arith) in
    let (u, h, step, filled') = next_either f n t filled (omega arith) in
    (u, ground (arith, ran, step), subst (λ c. Filled f c u) (omega arith) filled')

stuck : (f : ℕ) (t : ScratchArena) → 0 < f → Filled f (f * 2 - 2) t → scratch_acquire t ≡ none
unfolding scratch_acquire stack_at
stuck f t pos p =
    let e =
      acquire_on_stuck t.even_stack (omega (arith, p.even_frames))
        (omega (arith, p.even_curr, p.even_frames)) in
    let even : t.frame_count % 2 ≡ 0 = omega (arith, p.count) in ground (arith, e, even)

doubled : (n q : ℕ) → n ≡ q * 2 → n ≡ n / 2 * 2
doubled n q e = omega arith

few :
    (ls size : ℕ)
    → ls + 1 < 2 ^ 32
    → round_up (min (if ltb 0 ls then ls else def_stack_size) (size / 8)) channels < 2 ^ 32
unfolding round_up
few ls size small = halved (if ltb 0 ls then ls else def_stack_size) (ground arith)
  where
    halved : (v : ℕ) → v + 1 < 2 ^ 32 → (min v (size / 8) + 2 - 1) / 2 * 2 < 2 ^ 32
    halved v lt = omega arith

init-Filled :
    (reserve : ℕ → Option ℕ) (commits : ℕ → ℕ → Bool) (granularity rs cs ls : ℕ) {a : ScratchArena}
    → ls + 1 < 2 ^ 32
    → scratch_arena_init reserve commits granularity rs cs ls ≡ some a
    → (f : ℕ) × (0 < f) × Filled f 0 a
unfolding scratch_arena_init
init-Filled reserve commits granularity rs cs ls {a} small e =
    let (cg, size, count, fcs) = sizes granularity rs cs ls in
    let half : ℕ = size / channels in
    let f : ℕ = count / channels in
    let (start, at, rest) = bind_some (reserve size) _ e in
    let (c0, rest') = of_require (commits start (start + fcs)) _ rest in
    let (c1, rest'') = of_require (commits (start + half) (start + half + fcs)) _ rest' in
    let (s0, made0, rest3) = bind_some (init_stack start half f fcs) _ rest'' in
    let (s1, made1, done) = bind_some (init_stack (start + half) half f fcs) _ rest3 in
    let parts0 = init_stack-parts granularity start half f fcs made0 in
    let parts1 = init_stack-parts granularity (start + half) half f fcs made1 in
    let (q, count_is) =
      round_up-Multiple (min (if ltb 0 ls then ls else def_stack_size) (size / 8)) channels in
    let filled : Filled f 0 a = record {
      count = ground (arith, done);
      capacity =
          ap (λ (o : ScratchArena). o.frame_capacity) (sym (got done))
          ∙ (kept count (few ls size small) ∙ doubled count q count_is);
      even_curr = ap (λ (o : ScratchArena). o.even_stack.curr_frame) (sym (got done)) ∙ parts0.4;
      even_frames =
          ap (λ (o : ScratchArena). length o.even_stack.frames) (sym (got done)) ∙ parts0.5;
      odd_curr = ap (λ (o : ScratchArena). o.odd_stack.curr_frame) (sym (got done)) ∙ parts1.4;
      odd_frames = ap (λ (o : ScratchArena). length o.odd_stack.frames) (sym (got done)) ∙ parts1.5;
    } in
    (f, parts0.0, filled)
  where
    kept : (n : ℕ) → n < 2 ^ 32 → n % 2 ^ 32 ≡ n
    kept n lt = omega arith

    got : {x y : ScratchArena} → ◌≡◌ {A = Option ScratchArena} (some x) (some y) → x ≡ y
    got q = cc

-- On an arena that scratch_arena_init makes, with a number of levels in 32 bits, all but two of its
-- frames can be acquired one after the other. The acquisition after them writes behind the frame words
-- of its stack, though fewer frames than the capacity are in use, which is what scratch_acquire asserts.
pub acquire_behind_frames :
    (reserve : ℕ → Option ℕ) (commits : ℕ → ℕ → Bool) (granularity rs cs ls : ℕ) {a : ScratchArena}
    → ls + 1 < 2 ^ 32
    → scratch_arena_init reserve commits granularity rs cs ls ≡ some a
    → (t : ScratchArena) × (acquire_many (a.frame_capacity - 2) a ≡ some t)
      × (t.frame_count ≡ t.frame_capacity - 2)
      × (2 ≤ t.frame_capacity)
      × (scratch_acquire t ≡ none)
acquire_behind_frames reserve commits granularity rs cs ls {a} small e =
    let (f, pos, filled) = init-Filled reserve commits granularity rs cs ls small e in
    let (t, ran, p) = fills f a filled (a.frame_capacity - 2) (omega (arith, filled.capacity)) in
    let at : a.frame_capacity - 2 ≡ f * 2 - 2 = omega (arith, filled.capacity) in
    (
      t,
      ran,
      omega (arith, p.count, p.capacity, filled.capacity),
      omega (arith, p.capacity),
      stuck f t pos (subst (λ c. Filled f c t) at p),
    )
