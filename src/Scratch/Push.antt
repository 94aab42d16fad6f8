-- ===== src/Scratch/Push.antt =====
-- What a push on one stack does, on every branch.
use cbasis.Base.{
  ℕ, zero, suc, ◌+◌, ◌-◌, ◌*◌, ◌%◌, ◌^◌, ◌≤◌, ◌<◌, ◌≡◌, ◌≢◌, refl, sym, ap, ◌∙◌, subst, ◌⊎◌, inl,
  inr, Bool, true, ltb, ◌==◌, if◌then◌else◌, Option, none, some, ◌>>◌, require, List, arith, load,
  set, length, get_or, get_or-set, store-set, length-set, get_elem?-eq-get_or, bit_and, Bool-cases,
  lt→ltb, le→ltb,
}
use native.Mathlib.Decide.{dec_lt, ℕ_discrete}
use native.Mathlib.Nat.{mul-mod_left}
use cbasis.Align.{align_forward}
use cbasis.Align.Aligned.{align_sound, is_power_of_two-pow}
use cbasis.Arena.{div_ceil}
use cbasis.Arena.Push.{div_ceil-le}
use cbasis.Scratch.{
  ScratchStack, reach_frame, use_frame, refuse_block, handle_unusual_push, push_on,
}
use cbasis.Scratch.Stack.{
  frame, Reached, Reached-self, reach_frame-Reached, Multiple, Multiple-trans, aligned-le,
}
use cbasis.Scratch.Outcomes.{StackOk, Pushed, Refused}

module _ (commits : ℕ → ℕ → Bool) (granularity : ℕ) (reports : Bool) (cg : ℕ) (cg_pos : 0 < cg)
    (cg_paged : Multiple cg granularity) (g_pos : 0 < granularity) (s : ScratchStack)
    (ok : StackOk granularity s) (k size a b : ℕ) (room : k < length s.frames) (split : a + b ≡ 64)
    (b_pos : 1 < b) (fine : Multiple granularity (2 ^ a)) where
  -- The block, or the refusal, which is a panic if no error argument is given.
  abbrev pub Outcome : Option (ScratchStack × Option ℕ) → Type 0
  Outcome r =
      ((t : ScratchStack) × (out : ℕ) × (r ≡ some (t, some out))
        × Pushed granularity s k size (2 ^ a) t out)
      ⊎ ((t : ScratchStack) × (r ≡ (require reports >> some (t, none))) × Refused s k t)

  align-le : 2 ^ a ≤ granularity
  align-le = at fine
    where
      at : Multiple granularity (2 ^ a) → 2 ^ a ≤ granularity
      at (zero, e) = absurd (omega arith)
      at (suc q, e) = grind (arith, e)

  abbrev new_commit : ℕ
  new_commit = s.commit_to + div_ceil size cg * cg

  new_commit-paged : Multiple new_commit granularity
  new_commit-paged = sum ok.paged cg_paged
    where
      sum :
          Multiple s.commit_to granularity
          → Multiple cg granularity
          → Multiple (s.commit_to + div_ceil size cg * cg) granularity
      sum (q, e) (r, f) = (q + div_ceil size cg * r, grind (arith, e, f))

  module _ (fs : List ℕ) (reached : Reached s k fs) (out : ℕ) (even : out % 2 ^ a ≡ 0)
      (from_top : frame s s.curr_frame ≤ out) where
    given : ℕ → ScratchStack
    given ct = record {
      reserved_from = s.reserved_from;
      frames = set fs k (out + size);
      curr_frame = k;
      commit_to = ct;
      reserved_to = s.reserved_to;
    }

    k_fits : k < length fs
    k_fits = omega (arith, reached.same_length, room)

    uses :
        (ct : ℕ)
        → s.commit_to ≤ ct
        → out + size ≤ ct
        → ct ≤ s.reserved_to
        → Multiple ct granularity
        → (use_frame s fs k ct out size ≡ some (given ct, some out))
          × Pushed granularity s k size (2 ^ a) (given ct) out
    unfolding use_frame given
    uses ct more enough in_reserve paged =
        let cell = λ (j : ℕ). get_or-set fs k j (out + size) 0 k_fits in
        (
          ground (arith, store-set fs k (out + size), k_fits),
          record {
            memory = record {
              same_start = refl;
              same_end = refl;
              same_length = length-set fs k (out + size) ∙ reached.same_length;
              no_less = more;
            };
            even = even;
            above = from_top;
            current = refl;
            at_frame = ground (arith, cell k);
            old = λ j p q. ground (arith, cell j, reached.old j);
            raised = λ j p q. ground (arith, cell j, reached.raised j);
            committed = enough;
            reserved = in_reserve;
            paged = paged;
          },
        )

    left : ScratchStack
    left = record {
      reserved_from = s.reserved_from;
      frames = fs;
      curr_frame = s.curr_frame;
      commit_to = s.commit_to;
      reserved_to = s.reserved_to;
    }

    refuses :
        (refuse_block reports s fs ≡ (require reports >> some (left, none))) × Refused s k left
    unfolding refuse_block left
    refuses = (
      refl,
      record {
        memory = record {
          same_start = refl;
          same_end = refl;
          same_length = reached.same_length;
          no_less = omega arith;
        };
        current = refl;
        same_commit = refl;
        at_frame = reached.at_frame;
        old = reached.old;
      },
    )

    -- The end of handle_unusual_push.
    last_part : Option (ScratchStack × Option ℕ)
    last_part =
        if ltb s.commit_to (out + size)
        then (require (s.commit_to % granularity == 0)
            >> (if ltb s.reserved_to new_commit
                then refuse_block reports s fs
                else if commits s.commit_to new_commit
                then use_frame s fs k new_commit out size
                else refuse_block reports s fs))
        else use_frame s fs k s.commit_to out size

    on_page : (s.commit_to % granularity == 0) ≡ true
    on_page = page ok.paged
      where
        page : Multiple s.commit_to granularity → (s.commit_to % granularity == 0) ≡ true
        page (q, e) =
            let z : s.commit_to % granularity ≡ 0 =
              ap (λ n. n % granularity) e ∙ mul-mod_left q granularity in
            ground (arith, z)

    refused_part : last_part ≡ refuse_block reports s fs → Outcome last_part
    refused_part e = inr (left, e ∙ refuses.0, refuses.1)

    last_part-Outcome : out < s.commit_to + 2 ^ a → Outcome last_part
    unfolding last_part
    last_part-Outcome lt = elim (dec_lt s.commit_to (out + size)) [
      | no fits ↦
          let r = uses s.commit_to (omega arith) (omega arith) ok.reserved ok.paged in
          inl (given s.commit_to, out, rw (le→ltb s.commit_to (out + size) (omega arith)) r.0, r.1)
      | yes more ↦
          let test = lt→ltb s.commit_to (out + size) more in
          elim (dec_lt s.reserved_to new_commit) [
            | yes over ↦ refused_part (rw (test, on_page, lt→ltb s.reserved_to new_commit over))
            | no inside ↦
                let test' = le→ltb s.reserved_to new_commit (omega arith) in
                elim (Bool-cases (commits s.commit_to new_commit)) [
                  | inr refused ↦ refused_part (rw (test, on_page, test', refused))
                  | inl done ↦
                      let (enough, _) = div_ceil-le size cg cg_pos in
                      let start =
                        aligned-le out s.commit_to (2 ^ a) even (Multiple-trans _ _ _ ok.paged fine)
                          lt in
                      let r =
                        uses new_commit (omega arith) (omega arith) (omega arith)
                          new_commit-paged in
                      inl (given new_commit, out, rw (test, on_page, test', done) r.0, r.1)
                ]
          ]
    ]

  align_room : (fs : List ℕ) → Reached s k fs → frame s s.curr_frame + 2 ^ a ≤ 2 ^ 64
  align_room fs reached =
      omega (arith, ok.upper s.curr_frame (omega arith), ok.reserved, ok.no_wrap, align-le)

  unusual_eq :
      (fs : List ℕ) (reached : Reached s k fs) (out : ℕ) (even : out % 2 ^ a ≡ 0)
      (from_top : frame s s.curr_frame ≤ out)
      → reach_frame s k ≡ some fs
      → align_forward (frame s s.curr_frame) (2 ^ a) ≡ some out
      → handle_unusual_push commits granularity reports s cg k size (2 ^ a)
        ≡ last_part fs reached out even from_top
  unfolding handle_unusual_push last_part
  unusual_eq fs reached out even from_top run at =
      let top : load fs k ≡ some (frame s s.curr_frame) =
        get_elem?-eq-get_or fs k 0 (k_fits fs reached out even from_top)
        ∙ ap some reached.at_frame in
      rw (run, top, at)

  unusual : Outcome (handle_unusual_push commits granularity reports s cg k size (2 ^ a))
  unusual =
      let (fs, run, reached) = reach_frame-Reached s k ok.in_frames room in
      let (before, out, _, at, _, _, _, _, even, lo, hi) =
        align_sound (frame s s.curr_frame) a b split b_pos (align_room fs reached) in
      let e = unusual_eq fs reached out even lo run at in
      subst Outcome (sym e) (
        last_part-Outcome fs reached out even lo
          (omega (arith, ok.upper s.curr_frame (omega arith), hi)))

  usual :
      (out : ℕ)
      → s.curr_frame ≡ k
      → out % 2 ^ a ≡ 0
      → frame s s.curr_frame ≤ out
      → out + size ≤ s.commit_to
      → Outcome (use_frame s s.frames k s.commit_to out size)
  usual out e even lo fits =
      let reached = Reached-self s k e in
      let r =
        uses s.frames reached out even lo s.commit_to (omega arith) fits ok.reserved ok.paged in
      inl (given s.frames reached out even lo s.commit_to, out, r.0, r.1)

  -- The test that the usual push makes on the address in the frame, whatever that is.
  module _ (u out : ℕ) (there : load s.frames k ≡ some u)
      (at : align_forward u (2 ^ a) ≡ some out) where
    other_frame :
        s.curr_frame ≢ k
        → push_on commits granularity reports s cg k size (2 ^ a)
          ≡ handle_unusual_push commits granularity reports s cg k size (2 ^ a)
    unfolding push_on
    other_frame ne = ground (arith, there, at)

    beyond :
        s.commit_to < out + size
        → push_on commits granularity reports s cg k size (2 ^ a)
          ≡ handle_unusual_push commits granularity reports s cg k size (2 ^ a)
    unfolding push_on
    beyond lt = ground (arith, there, at)

    inside_commit :
        s.curr_frame ≡ k
        → out + size ≤ s.commit_to
        → push_on commits granularity reports s cg k size (2 ^ a)
          ≡ use_frame s s.frames k s.commit_to out size
    unfolding push_on
    inside_commit e le = ground (arith, there, at)

  aligns : (u : ℕ) → (out : ℕ) × (align_forward u (2 ^ a) ≡ some out)
  unfolding align_forward
  aligns u = (
    (u + bit_and ((2 ^ 64 - u) % 2 ^ 64) (2 ^ a - 1)) % 2 ^ 64,
    ground (arith, is_power_of_two-pow a b split b_pos),
  )

  pub push_on-Outcome : Outcome (push_on commits granularity reports s cg k size (2 ^ a))
  push_on-Outcome =
      let there = get_elem?-eq-get_or s.frames k 0 room in
      elim (ℕ_discrete s.curr_frame k) [
        | no ne ↦
            let (out, at) = aligns (frame s k) in
            subst Outcome (sym (other_frame (frame s k) out there at ne)) unusual
        | yes e ↦
            let top : frame s s.curr_frame ≡ frame s k = ap (λ j. get_or s.frames j 0) e in
            let small : frame s k + 2 ^ a ≤ 2 ^ 64 = omega (
              arith,
              top,
              ok.upper s.curr_frame (omega arith),
              ok.reserved,
              ok.no_wrap,
              align-le,
            ) in
            let (before, out, _, at, _, _, _, _, even, lo, hi) =
              align_sound (frame s k) a b split b_pos small in
            elim (dec_lt s.commit_to (out + size)) [
              | yes lt ↦ subst Outcome (sym (beyond (frame s k) out there at lt)) unusual
              | no ge ↦
                  subst Outcome (sym (inside_commit (frame s k) out there at e (omega arith)))
                    (usual out e even (omega arith) (omega arith))
            ]
      ]
