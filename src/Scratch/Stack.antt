-- ===== src/Scratch/Stack.antt =====
-- The frames of one stack: what a fall, a rise and a write to a frame leave.
use cbasis.Base.{
  ℕ, zero, suc, ◌+◌, ◌-◌, ◌*◌, ◌/◌, ◌%◌, ◌≤◌, ◌<◌, ◌≡◌, ◌≢◌, refl, sym, ap, ◌∙◌, ◌⊎◌, inl, some,
  List, arith, load, set, length, get_or, get_or-set, store-set, length-set, get_elem?-eq-get_or,
}
use native.Mathlib.Decide.{dec_lt, ℕ_discrete}
use native.Mathlib.Nat.{div-add-mod'}
use cbasis.Scratch.{ScratchStack, raise_frames, reach_frame, store_if}

abbrev pub frame : ScratchStack → ℕ → ℕ
frame s j = get_or s.frames j 0

-- The frames `fs` after a fall or a rise of `s` to the frame `k`.
pub record Reached (s : ScratchStack) (k : ℕ) (fs : List ℕ) : Type 0 where
  pub same_length : length fs ≡ length s.frames
  pub at_frame : get_or fs k 0 ≡ frame s s.curr_frame
  pub old : (j : ℕ) → j ≤ s.curr_frame → j ≢ k → get_or fs j 0 ≡ frame s j
  pub raised : (j : ℕ) → s.curr_frame < j → j ≤ k → get_or fs j 0 ≡ frame s s.curr_frame

record Raised (fs : List ℕ) (i n v : ℕ) (gs : List ℕ) : Type 0 where
  same_length : length gs ≡ length fs
  inside : (j : ℕ) → i ≤ j → j < i + n → get_or gs j 0 ≡ v
  outside : (j : ℕ) → (j < i) ⊎ (i + n ≤ j) → get_or gs j 0 ≡ get_or fs j 0

raise_frames-Raised :
    (n : ℕ) (fs : List ℕ) (i v : ℕ)
    → i + n ≤ length fs
    → (gs : List ℕ) × (raise_frames n fs i v ≡ some gs) × Raised fs i n v gs
unfolding raise_frames
raise_frames-Raised zero fs i v room = (
  fs,
  refl,
  record { same_length = refl; inside = λ j p q. absurd (omega arith); outside = λ j p. refl },
)
raise_frames-Raised (suc n) fs i v room =
    let (gs, run, r) =
      raise_frames-Raised n (set fs i v) (i + 1) v (omega (arith, length-set fs i v)) in
    (
      gs,
      ground (arith, store-set fs i v, run),
      record {
        same_length = r.same_length ∙ length-set fs i v;
        inside = λ j p q. elim (ℕ_discrete j i) [
          | yes e ↦ r.outside j (inl (omega arith)) ∙ ground (arith, get_or-set fs i j v 0)
          | no ne ↦ r.inside j (omega arith) (omega arith)
        ];
        outside = λ j p. ground (arith, r.outside j, get_or-set fs i j v 0);
      },
    )

-- A stack that stands on `k` already.
pub Reached-self : (s : ScratchStack) (k : ℕ) → s.curr_frame ≡ k → Reached s k s.frames
Reached-self s k e = record {
  same_length = refl;
  at_frame = ap (λ j. get_or s.frames j 0) (sym e);
  old = λ j p ne. refl;
  raised = λ j p q. absurd (omega arith);
}

module _ (s : ScratchStack) (k : ℕ) (in_frames : s.curr_frame < length s.frames)
    (room : k < length s.frames) where
  top : load s.frames s.curr_frame ≡ some (frame s s.curr_frame)
  top = get_elem?-eq-get_or s.frames s.curr_frame 0 in_frames

  falls : k < s.curr_frame → (fs : List ℕ) × (reach_frame s k ≡ some fs) × Reached s k fs
  unfolding reach_frame store_if
  falls lt =
      let v : ℕ = frame s s.curr_frame in
      (
        set s.frames k v,
        ground (arith, top, store-set s.frames k v),
        record {
          same_length = length-set s.frames k v;
          at_frame = ground (arith, get_or-set s.frames k k v 0);
          old = λ j p ne. ground (arith, get_or-set s.frames k j v 0);
          raised = λ j p q. absurd (omega arith);
        },
      )

  rises : s.curr_frame < k → (fs : List ℕ) × (reach_frame s k ≡ some fs) × Reached s k fs
  unfolding reach_frame store_if
  rises lt =
      let v : ℕ = frame s s.curr_frame in
      let (gs, run, r) =
        raise_frames-Raised (k - s.curr_frame) s.frames (s.curr_frame + 1) v (omega arith) in
      (
        gs,
        ground (arith, top, run),
        record {
          same_length = r.same_length;
          at_frame = r.inside k (omega arith) (omega arith);
          old = λ j p ne. r.outside j (inl (omega arith));
          raised = λ j p q. r.inside j (omega arith) (omega arith);
        },
      )

  stays : s.curr_frame ≡ k → reach_frame s k ≡ some s.frames
  unfolding reach_frame store_if
  stays e = ground (arith, top)

  pub reach_frame-Reached : (fs : List ℕ) × (reach_frame s k ≡ some fs) × Reached s k fs
  reach_frame-Reached = elim (dec_lt k s.curr_frame) [
    | yes lt ↦ falls lt
    | no le ↦ elim (dec_lt s.curr_frame k) [
      | yes lt ↦ rises lt
      | no ge ↦ let e : s.curr_frame ≡ k = omega arith in (s.frames, stays e, Reached-self s k e)
    ]
  ]

-- `a` is a multiple of `b`.
abbrev pub Multiple : ℕ → ℕ → Type 0
Multiple a b = (q : ℕ) × (a ≡ q * b)

pub Multiple-trans : (a b c : ℕ) → Multiple a b → Multiple b c → Multiple a c
Multiple-trans a b c (q, e) (r, f) = (q * r, grind (arith, e, f))

-- The first multiple from a number on is not above a multiple that is not below it.
pub aligned-le : (out c b : ℕ) → out % b ≡ 0 → Multiple c b → out < c + b → out ≤ c
aligned-le out c b even (q, e) lt = elim (dec_lt c out) [
  | no ge ↦ omega arith
  | yes more ↦ elim (dec_lt q (out / b)) [
    | no le ↦
        let d : ℕ = q - out / b in
        let apart : q ≡ out / b + d = omega arith in
        absurd
          (omega (arith, div-add-mod' out b, e, ap (λ (t : ℕ). t * b) apart, dist (out / b) d b))
    | yes above ↦
        let d : ℕ = out / b - (q + 1) in
        let apart : out / b ≡ q + (1 + d) = omega arith in
        absurd (
          omega (
            arith,
            div-add-mod' out b,
            e,
            ap (λ (t : ℕ). t * b) apart,
            dist q (1 + d) b,
            dist 1 d b,
          ))
  ]
]
  where
    dist : (x y z : ℕ) → (x + y) * z ≡ x * z + y * z
    dist x y z = grind arith
