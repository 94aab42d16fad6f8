-- ===== src/Scratch/Blocks.antt =====
-- The blocks that are live in an arena, and how they stand to its stacks.
use cbasis.Base.{
  ℕ, ◌%◌, ◌≤◌, ◌<◌, ◌≡◌, sym, ap, subst, ◌⊎◌, inl, inr, ltb, if◌then◌else◌, List, [], ◌∷◌, arith,
}
use cbasis.Scratch.{ScratchStack, ScratchArena, stack_at, with_stack}
use cbasis.Scratch.Stack.{frame, Multiple}
use cbasis.Scratch.Outcomes.{StackOk, SameMemory}
use cbasis.Scratch.State.{Block, InStack, below_top}

abbrev pub Each : (Block → Type 0) → List Block → Type 0
Each P [] = Unit {0}
Each P (b ∷ bs) = P b × Each P bs

abbrev pub Apart : Block → Block → Type 0
Apart b c = (b.to ≤ c.from) ⊎ (c.to ≤ b.from)

-- No two blocks overlap.
abbrev pub Separate : List Block → Type 0
Separate [] = Unit {0}
Separate (b ∷ bs) = Each (Apart b) bs × Separate bs

-- The blocks that are live after the release of a level.
unfoldable pub older : ℕ → List Block → List Block
older level [] = []
older level (b ∷ bs) = if ltb b.level level then b ∷ older level bs else older level bs

-- Both stacks are in order, and each block is in the stack of its level.
pub record Valid (granularity : ℕ) (a : ScratchArena) : Type 0 where
  pub even_ok : StackOk granularity a.even_stack
  pub odd_ok : StackOk granularity a.odd_stack
  pub in_turn : a.even_stack.reserved_to ≤ a.odd_stack.reserved_from
  pub cg_pos : 0 < a.commit_granularity
  pub cg_paged : Multiple a.commit_granularity granularity
  pub g_pos : 0 < granularity

abbrev pub InArena : ScratchArena → Block → Type 0
InArena a b =
    ((b.level % 2 ≡ 0) × InStack a.even_stack b) ⊎ ((b.level % 2 ≡ 1) × InStack a.odd_stack b)

pub record Safe (granularity : ℕ) (a : ScratchArena) (bs : List Block) : Type 0 where
  pub valid : Valid granularity a
  pub blocks : Each (InArena a) bs
  pub separate : Separate bs

pub Each-map :
    (P Q : Block → Type 0) (bs : List Block) → ((b : Block) → P b → Q b) → Each P bs → Each Q bs
Each-map P Q [] f e = tt
Each-map P Q (b ∷ bs) f (p, e) = (f b p, Each-map P Q bs f e)

pub Each-older :
    (P : Block → Type 0) (level : ℕ) (bs : List Block) → Each P bs → Each P (older level bs)
unfolding older
Each-older P level [] e = tt
Each-older P level (b ∷ bs) e = ground (arith, Each-older P level bs e.1)

pub Separate-older : (level : ℕ) (bs : List Block) → Separate bs → Separate (older level bs)
unfolding older
Separate-older level [] s = tt
Separate-older level (b ∷ bs) s =
    ground (arith, Each-older (Apart b) level bs s.0, Separate-older level bs s.1)

pub older-lt : (level : ℕ) (bs : List Block) → Each (λ b. b.level < level) (older level bs)
unfolding older
older-lt level [] = tt
older-lt level (b ∷ bs) = ground (arith, older-lt level bs)

pub Each-both :
    (P Q : Block → Type 0) (bs : List Block) → Each P bs → Each Q bs → Each (λ b. P b × Q b) bs
Each-both P Q [] p q = tt
Each-both P Q (b ∷ bs) p q = ((p.0, q.0), Each-both P Q bs p.1 q.1)

module _ {granularity : ℕ} {a : ScratchArena} (v : Valid granularity a) where
  -- The arena with another state of the stack `i`.
  module _ (i : ℕ) (parity : (i ≡ 0) ⊎ (i ≡ 1)) (s : ScratchStack) where
    with-cases :
        ((i ≡ 0) × (stack_at a i ≡ a.even_stack) × (with_stack a i s ≡ record a { even_stack = s }))
        ⊎ ((i ≡ 1) × (stack_at a i ≡ a.odd_stack) × (with_stack a i s ≡ record a { odd_stack = s }))
    unfolding stack_at with_stack
    with-cases = elim parity [
      | inl e ↦ inl (e, ground (arith, e), ground (arith, e))
      | inr e ↦ inr (e, ground (arith, e), ground (arith, e))
    ]

    pub stack_at-StackOk : StackOk granularity (stack_at a i)
    stack_at-StackOk = elim with-cases [
      | inl (_, e, _) ↦ subst (StackOk granularity) (sym e) v.even_ok
      | inr (_, e, _) ↦ subst (StackOk granularity) (sym e) v.odd_ok
    ]

    module _ (ok : StackOk granularity s) (m : SameMemory (stack_at a i) s) where
      pub with_stack-Valid : Valid granularity (with_stack a i s)
      with_stack-Valid = elim with-cases [
        | inl (_, at, e) ↦ subst (Valid granularity) (sym e) (record {
          even_ok = ok;
          odd_ok = v.odd_ok;
          in_turn =
              omega (arith, v.in_turn, m.same_end, ap (λ (t : ScratchStack). t.reserved_to) at);
          cg_pos = v.cg_pos;
          cg_paged = v.cg_paged;
          g_pos = v.g_pos;
        })
        | inr (_, at, e) ↦ subst (Valid granularity) (sym e) (record {
          even_ok = v.even_ok;
          odd_ok = ok;
          in_turn =
              omega (arith, v.in_turn, m.same_start, ap (λ (t : ScratchStack). t.reserved_from) at);
          cg_pos = v.cg_pos;
          cg_paged = v.cg_paged;
          g_pos = v.g_pos;
        })
      ]

    -- A block stays if it does so where it is in the stack `i`.
    pub with_stack-InArena :
        (b : Block)
        → (b.level % 2 ≡ i → InStack (stack_at a i) b → InStack s b)
        → InArena a b
        → InArena (with_stack a i s) b
    with_stack-InArena b keep there = elim with-cases [
      | inl (e0, at, e) ↦
          subst (λ c. InArena c b) (sym e)
            (elim there [
              | inl (even, in_even) ↦
                  inl (
                    even,
                    keep (omega (arith, e0, even)) (subst (λ t. InStack t b) (sym at) in_even),
                  )
              | inr odd ↦ inr odd
            ])
      | inr (e1, at, e) ↦
          subst (λ c. InArena c b) (sym e)
            (elim there [
              | inl even ↦ inl even
              | inr (odd, in_odd) ↦
                  inr
                    (odd, keep (omega (arith, e1, odd)) (subst (λ t. InStack t b) (sym at) in_odd))
            ])
    ]

    pub with_stack-new : (b : Block) → b.level % 2 ≡ i → InStack s b → InArena (with_stack a i s) b
    with_stack-new b e there = elim with-cases [
      | inl (e0, _, q) ↦ subst (λ c. InArena c b) (sym q) (inl (omega (arith, e, e0), there))
      | inr (e1, _, q) ↦ subst (λ c. InArena c b) (sym q) (inr (omega (arith, e, e1), there))
    ]

    -- A block in the free part of the stack `i` is apart from every live one.
    pub free-Apart :
        (b c : Block)
        → InArena a c
        → frame (stack_at a i) (stack_at a i).curr_frame ≤ b.from
        → b.from ≤ b.to
        → b.to ≤ (stack_at a i).reserved_to
        → Apart b c
    free-Apart b c there lo order hi = elim with-cases [
      | inl (e0, at, _) ↦ elim there [
        | inl (_, in_even) ↦ inr (
            omega
              (arith, below_top in_even, ap (λ (t : ScratchStack). frame t t.curr_frame) at, lo))
        | inr (_, in_odd) ↦ inl (
            omega (arith, v.in_turn, in_odd.start, hi, ap (λ (t : ScratchStack). t.reserved_to) at))
      ]
      | inr (e1, at, _) ↦ elim there [
        | inl (_, in_even) ↦ inr (
            omega (
              arith,
              v.in_turn,
              below_top in_even,
              v.even_ok.upper a.even_stack.curr_frame (omega arith),
              v.even_ok.reserved,
              lo,
              v.odd_ok.lower a.odd_stack.curr_frame (omega arith),
              ap (λ (t : ScratchStack). frame t t.curr_frame) at,
            ))
        | inr (_, in_odd) ↦ inr (
            omega (arith, below_top in_odd, ap (λ (t : ScratchStack). frame t t.curr_frame) at, lo))
      ]
    ]
