-- ===== src/LinkedList/Commands.antt =====
-- Runs of the functions on bilists against runs on lists of nodes. The specification knows no
-- addresses inside nodes: it is `none` where a caller breaks the rules.
use native.Mathlib.Decide.{ℕ_discrete}
use cbasis.Base.{
  ℕ, ◌≡◌, ◌≢◌, refl, sym, ap, ◌∙◌, subst, inl, inr, Bool, true, false, not, ◌&&◌, ◌==◌,
  if◌then◌else◌, List, [], ◌∷◌, ◌++◌, arith, some, Option, ◌>>=◌, ◌>>◌, require, bind_some,
  of_require, Bool-cases,
}
use cbasis.LinkedList.{
  Node, node, Heap, Handle, bilist_insert, bilist_push_back, bilist_push_front, bilist_remove,
  bilist_pop_back, bilist_pop_front,
}
use cbasis.LinkedList.Lists.{head_or, last_or, elem, Distinct, elem-last_or}
use cbasis.LinkedList.Seg.{Seg, IsBilist}
use cbasis.LinkedList.Insert.{Gives}
use cbasis.LinkedList.Ops.{
  insert_after, erase, New, eq_test, ne_test, insert_lem, push_back_lem, push_front_lem, remove_lem,
}

pub data Command : Type 0 where
  insert : ℕ → ℕ → Command
  push_back : ℕ → Command
  push_front : ℕ → Command
  remove : ℕ → Command
  pop_back : Command
  pop_front : Command

unfoldable pub init : List ℕ → List ℕ
init [] = []
init (x ∷ []) = []
init (x ∷ y ∷ ys) = x ∷ init (y ∷ ys)

abbrev pub tail : List ℕ → List ℕ
tail [] = []
tail (x ∷ xs) = xs

abbrev pub is_cons : List ℕ → Bool
is_cons [] = false
is_cons (x ∷ xs) = true

-- A pop says whether there was a node; the other functions say nothing.
abbrev pub Outcome : Type 0
Outcome = (Heap × Handle) × Bool

abbrev pub silent : Option (Heap × Handle) → Option Outcome
silent r = r >>= λ s. some (s, true)

abbrev outcome : List ℕ → Bool → Option (List ℕ × Bool)
outcome xs b = some (xs, b)

module _ (null : ℕ) where
  unfoldable pub execute : Bool → Command → Heap → Handle → Option Outcome
  execute debug (insert after p) h l = silent (bilist_insert null debug h l after p)
  execute debug (push_back p) h l = silent (bilist_push_back null debug h l p)
  execute debug (push_front p) h l = silent (bilist_push_front null debug h l p)
  execute debug (remove p) h l = silent (bilist_remove null debug h l p)
  execute debug pop_back h l = bilist_pop_back null debug h l
  execute debug pop_front h l = bilist_pop_front null debug h l

  unfoldable pub run : Bool → List Command → Heap → Handle → Option ((Heap × Handle) × List Bool)
  run debug [] h l = some ((h, l), [])
  run debug (c ∷ cs) h l =
      execute debug c h l >>= λ r. run debug cs r.0.0 r.0.1 >>= λ s. some (s.0, r.1 ∷ s.1)

  -- `nodes` are the addresses of the caller's nodes.
  module _ (nodes : ℕ → Bool) where
    unfoldable pub may_add : ℕ → List ℕ → Bool
    may_add p xs = nodes p && (not (p == null) && not (elem p xs))

    -- What each command is to do to the list.
    unfoldable pub specified : Command → List ℕ → Option (List ℕ × Bool)
    specified (insert after p) xs =
        require (may_add p xs)
        >> (if after == null
            then some (p ∷ xs, true)
            else (require (elem after xs) >> some (insert_after after p xs, true)))
    specified (push_back p) xs = require (may_add p xs) >> some (xs ++ (p ∷ []), true)
    specified (push_front p) xs = require (may_add p xs) >> some (p ∷ xs, true)
    specified (remove p) xs = require (elem p xs) >> some (erase p xs, true)
    specified pop_back xs = some (init xs, is_cons xs)
    specified pop_front xs = some (tail xs, is_cons xs)

    unfoldable pub specified_run : List Command → List ℕ → Option (List ℕ × List Bool)
    specified_run [] xs = some (xs, [])
    specified_run (c ∷ cs) xs =
        specified c xs >>= λ r. specified_run cs r.0 >>= λ s. some (s.0, r.1 ∷ s.1)

    abbrev pub Owns : Heap → Type 0
    Owns h = (a : ℕ) → nodes a ≡ true → (n : Node) × (h a ≡ some n)

    Seg-at :
        (h : Heap) (b : ℕ) (xs : List ℕ) (s a : ℕ)
        → Seg h b xs s
        → elem a xs ≡ true
        → (n : Node) × (h a ≡ some n)
    Seg-at h b [] s a seg m = absurd (ground arith)
    Seg-at h b (x ∷ xs) s a seg m = elim (Bool-cases (a == x)) [
      | inl e ↦ (node (head_or s xs) b, ground (arith, seg.0))
      | inr ne ↦ Seg-at h x xs s a seg.1 (ground arith)
    ]

    -- The command returns and leaves a heap with the same nodes that spells `ys`.
    record Does (r : Option Outcome) (ys : List ℕ) (out : Bool) : Type 0 where
      heap : Heap
      both : Handle
      returns : r ≡ some ((heap, both), out)
      spells : IsBilist null heap both ys
      owns : Owns heap

    Gives-Owns :
        {h : Heap} {r : Option (Heap × Handle)} {ys : List ℕ}
        → Owns h
        → (g : Gives null h r ys) → Owns g.heap
    Gives-Owns {ys} o g a m = elim (Bool-cases (elem a ys)) [
      | inl i ↦ Seg-at g.heap null ys null a g.spells.linked i
      | inr out ↦ let (n, e) = o a m in (n, g.kept a out ∙ e)
    ]

    Gives-Does :
        {h : Heap} {r : Option (Heap × Handle)} {ys : List ℕ}
        → Owns h
        → Gives null h r ys
        → Does (silent r) ys true
    Gives-Does o g = record {
      heap = g.heap;
      both = g.handle;
      returns = ap silent g.returns;
      spells = g.spells;
      owns = Gives-Owns o g;
    }

    New-may_add : (h : Heap) (p : ℕ) (xs : List ℕ) → Owns h → may_add p xs ≡ true → New null h p xs
    unfolding may_add
    New-may_add h p xs o m =
        let (n, e) = o p (ground arith) in
        record {
          node_next = n.next;
          node_prev = n.prev;
          owned = e;
          not_null = ground arith;
          outside = ground arith;
        }

    erase-last :
        (x : ℕ) (xs : List ℕ) → Distinct (x ∷ xs) → erase (last_or x xs) (x ∷ xs) ≡ init (x ∷ xs)
    unfolding erase init
    erase-last x [] d = ground arith
    erase-last x (y ∷ ys) d = ground (arith, erase-last y ys d.1, elem-last_or y ys, other)
      where
        other : x ≡ last_or y ys → elem x (y ∷ ys) ≡ elem (last_or y ys) (y ∷ ys)
        other e = ap (λ a. elem a (y ∷ ys)) e

    erase-head : (x : ℕ) (xs : List ℕ) → erase x (x ∷ xs) ≡ xs
    unfolding erase
    erase-head x xs = ground arith

    Does-cast :
        {r s : Option Outcome} {xs ys : List ℕ} {b c : Bool}
        → s ≡ r
        → xs ≡ ys
        → b ≡ c
        → Does r xs b
        → Does s ys c
    Does-cast e q t d = record {
      heap = d.heap;
      both = d.both;
      returns = e ∙ (d.returns ∙ ap (λ v. some ((d.heap, d.both), v)) t);
      spells = subst (λ zs. IsBilist null d.heap d.both zs) q d.spells;
      owns = d.owns;
    }

    module _ (debug : Bool) (h : Heap) (l : Handle) (o : Owns h) where
      stays : {xs : List ℕ} → IsBilist null h l xs → Does (some ((h, l), false)) xs false
      stays is = record { heap = h; both = l; returns = refl; spells = is; owns = o }

      not_nil : (a : ℕ) (xs : List ℕ) → elem null xs ≡ false → elem a xs ≡ true → a ≢ null
      not_nil a xs out m e = differ (sym m ∙ (ap (λ b. elem b xs) e ∙ out))
        where
          differ : true ≡ false → ⊥
          differ q = cc

      pops_back :
          (xs : List ℕ)
          → IsBilist null h l xs
          → Does (bilist_pop_back null debug h l) (init xs) (is_cons xs)
      unfolding bilist_pop_back init
      pops_back [] is = Does-cast (rw (eq_test l.last null is.finishes)) refl refl (stays is)
      pops_back (x ∷ xs) is =
          let m = ap (λ a. elem a (x ∷ xs)) is.finishes ∙ elem-last_or x xs in
          let ne = not_nil l.last (x ∷ xs) is.not_null m in
          Does-cast (rw (ne_test l.last null ne))
            (ap (λ a. erase a (x ∷ xs)) is.finishes ∙ erase-last x xs is.distinct) refl
            (Gives-Does o (remove_lem null debug h l (x ∷ xs) l.last is m ne))

      pops_front :
          (xs : List ℕ)
          → IsBilist null h l xs
          → Does (bilist_pop_front null debug h l) (tail xs) (is_cons xs)
      unfolding bilist_pop_front
      pops_front [] is = Does-cast (rw (eq_test l.first null is.starts)) refl refl (stays is)
      pops_front (x ∷ xs) is =
          let m : elem l.first (x ∷ xs) ≡ true = ground (arith, is.starts) in
          let ne = not_nil l.first (x ∷ xs) is.not_null m in
          Does-cast (rw (ne_test l.first null ne))
            (ap (λ a. erase a (x ∷ xs)) is.starts ∙ erase-head x xs) refl
            (Gives-Does o (remove_lem null debug h l (x ∷ xs) l.first is m ne))

      finish :
          {r : Option Outcome} {xs ys : List ℕ} {b c : Bool}
          → outcome xs b ≡ some (ys, c)
          → Does r xs b
          → Does r ys c
      finish e d = Does-cast refl (cc) (cc) d

      inserts :
          (after p : ℕ) (xs ys : List ℕ) (b : Bool)
          → IsBilist null h l xs
          → New null h p xs
          → (if after == null
              then outcome (p ∷ xs) true
              else (require (elem after xs) >> outcome (insert_after after p xs) true))
            ≡ some (ys, b)
          → Does (silent (bilist_insert null debug h l after p)) ys b
      inserts after p xs ys b is new e = elim (ℕ_discrete after null) [
        | yes q ↦
            finish (sym (rw (eq_test after null q)) ∙ e)
              (Gives-Does o ((insert_lem null debug h l xs after p is new).0 q))
        | no ne ↦
            let r =
              of_require (elem after xs) (outcome (insert_after after p xs) true)
                (sym (rw (ne_test after null ne)) ∙ e) in
            finish r.1 (Gives-Does o ((insert_lem null debug h l xs after p is new).1 r.0))
      ]

      executes :
          (c : Command) (xs ys : List ℕ) (b : Bool)
          → IsBilist null h l xs
          → specified c xs ≡ some (ys, b)
          → Does (execute debug c h l) ys b
      unfolding execute specified
      executes (insert after p) xs ys b is e =
          let r = of_require (may_add p xs) _ e in
          inserts after p xs ys b is (New-may_add h p xs o r.0) r.1
      executes (push_back p) xs ys b is e =
          let r = of_require (may_add p xs) _ e in
          finish r.1
            (Gives-Does o (push_back_lem null debug h l xs p is (New-may_add h p xs o r.0)))
      executes (push_front p) xs ys b is e =
          let r = of_require (may_add p xs) _ e in
          finish r.1
            (Gives-Does o (push_front_lem null debug h l xs p is (New-may_add h p xs o r.0)))
      executes (remove p) xs ys b is e =
          let r = of_require (elem p xs) _ e in
          finish r.1
            (Gives-Does o (remove_lem null debug h l xs p is r.0 (not_nil p xs is.not_null r.0)))
      executes pop_back xs ys b is e = finish e (pops_back xs is)
      executes pop_front xs ys b is e = finish e (pops_front xs is)

  -- Take any commands that the list specification allows, on a heap that spells a list and has all
  -- nodes of the caller, with or without the checks of the links. They return, with the results of the
  -- specification; the heap then spells the list that it gives, and still has all those nodes.
  pub run-refines :
      (nodes : ℕ → Bool) (debug : Bool) (cs : List Command) (h : Heap) (l : Handle) (xs ys : List ℕ)
      (out : List Bool)
      → Owns nodes h
      → IsBilist null h l xs
      → specified_run nodes cs xs ≡ some (ys, out)
      → (g : Heap) × (m : Handle) × (run debug cs h l ≡ some ((g, m), out))
        × IsBilist null g m ys
        × Owns nodes g
  unfolding run specified_run
  run-refines nodes debug [] h l xs ys out o is e =
      let same : xs ≡ ys = cc in
      let none_said : ◌≡◌ {A = List Bool} [] out = cc in
      (
        h,
        l,
        ap (λ (q : List Bool). some ((h, l), q)) none_said,
        subst (λ zs. IsBilist null h l zs) same is,
        o,
      )
  run-refines nodes debug (c ∷ cs) h l xs ys out o is e =
      let ((zs, b), e1, rest) = bind_some (specified nodes c xs) _ e in
      let ((ws, bs), e2, done) = bind_some (specified_run nodes cs zs) _ rest in
      let d = executes nodes debug h l o c xs zs b is e1 in
      let (g, m, ran, spells, owns) =
        run-refines nodes debug cs d.heap d.both zs ws bs d.owns d.spells e2 in
      (
        g,
        m,
        ground (arith, d.returns, ran, done),
        subst (λ vs. IsBilist null g m vs) (cc) spells,
        owns,
      )
