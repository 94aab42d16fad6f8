-- ===== src/LinkedList/Single.antt =====
-- Chains and lists, which are linked by `next` alone.
use native.Mathlib.Decide.{ℕ_discrete}
use cbasis.Base.{
  ℕ, ◌≡◌, ◌≢◌, refl, sym, ap, ◌∙◌, subst, ◌⊎◌, inl, inr, true, false, ◌==◌, List, drop, [], ◌∷◌,
  ◌++◌, arith, none, some, Option,
}
use cbasis.LinkedList.{
  Node, node, Heap, write, set_next, Handle, handle, both_or_none, chain_push, chain_pop, list_push,
  list_push_front, list_pop,
}
use cbasis.LinkedList.Lists.{
  head_or, last_or, elem, Distinct, elem-append, last_or-append, Apart-elem, Distinct-parts,
  Distinct-append, elem-last_or, by_end,
}
use cbasis.LinkedList.Seg.{both_or_none_lem, write_self, write_ne}
use cbasis.LinkedList.Nexts.{
  Apart-single, Nexts, Nexts-append, Nexts-parts, Nexts-write, link_node, ne_test, next_at, node_at,
}

module _ (null : ℕ) where
  pub record IsChain (h : Heap) (first : ℕ) (xs : List ℕ) : Type 0 where
    pub starts : first ≡ head_or null xs
    pub linked : Nexts h xs null
    pub distinct : Distinct xs
    pub not_null : elem null xs ≡ false

  -- A push on a chain of a node that is not nil and not in the chain puts it in front, and the pop that
  -- follows gives back the chain from before.
  pub chain_pop-chain_push :
      (h : Heap) (first p : ℕ) (xs : List ℕ) (n : Node)
      → IsChain h first xs
      → h p ≡ some n
      → p ≢ null
      → elem p xs ≡ false
      → (g : Heap) × (chain_push null h first p ≡ some (g, p))
        × IsChain g p (p ∷ xs)
        × (chain_pop null g p ≡ some first)
        × IsChain g first xs
  unfolding chain_push chain_pop
  chain_pop-chain_push h first p xs n is e ne out =
      let k = link_node h p first n e in
      let m : Node = node first k.old.prev in
      let kept = Nexts-write h xs null p m out is.linked in
      let at = write_self h p m in
      let read : next_at (write h p m) p ≡ some (head_or null xs) = ground (arith, at, is.starts) in
      (
        write h p m,
        ground (arith, k.run),
        record {
          starts = refl;
          linked = (read, kept);
          distinct = (out, is.distinct);
          not_null = ground (arith, is.not_null);
        },
        ground (arith, at),
        record {
          starts = is.starts;
          linked = kept;
          distinct = is.distinct;
          not_null = is.not_null;
        },
      )

  pub record IsList (h : Heap) (l : Handle) (xs : List ℕ) : Type 0 where
    pub chain : IsChain h l.first xs
    pub finishes : l.last ≡ last_or null xs

  valid_list : {h : Heap} {l : Handle} {xs : List ℕ} → IsList h l xs → both_or_none null l ≡ true
  valid_list {l} {xs} is = both_or_none_lem null l xs is.chain.starts is.finishes is.chain.not_null

  -- The operation returns, and its heap spells `ys`.
  abbrev pub Spells : Option (Heap × Handle) → List ℕ → Type 0
  Spells r ys = (g : Heap) × (m : Handle) × (r ≡ some (g, m)) × IsList g m ys

  only :
      (h : Heap) (p : ℕ) (n : Node)
      → p ≢ null
      → h p ≡ some n
      → (g : Heap) × (set_next h p null ≡ some g) × IsList g (handle p p) (p ∷ [])
  only h p n ne e =
      let k = link_node h p null n e in
      let m : Node = node null k.old.prev in
      (
        write h p m,
        k.run,
        record {
          chain = record {
            starts = refl;
            linked = (ground (arith, write_self h p m), tt);
            distinct = (refl, tt);
            not_null = ground arith;
          };
          finishes = refl;
        },
      )

  module _ (h : Heap) (l : Handle) (p : ℕ) (n : Node) (e : h p ≡ some n) (ne : p ≢ null) where
    pushes_front :
        (xs : List ℕ)
        → IsList h l xs
        → elem p xs ≡ false
        → Spells (list_push_front null h l p) (p ∷ xs)
    unfolding list_push_front
    pushes_front [] is out =
        let (g, r, ok) = only h p n ne e in
        (g, handle p p, ground (arith, valid_list is, is.chain.starts, r), ok)
    pushes_front (x ∷ xs) is out =
        let k = link_node h p l.first n e in
        let m : Node = node l.first k.old.prev in
        (
          write h p m,
          handle p l.last,
          ground (arith, valid_list is, is.chain.starts, is.chain.not_null, k.run),
          record {
            chain = record {
              starts = refl;
              linked = (
                ground (arith, write_self h p m, is.chain.starts),
                Nexts-write h (x ∷ xs) null p m out is.chain.linked,
              );
              distinct = (out, is.chain.distinct);
              not_null = ground (arith, is.chain.not_null);
            };
            finishes = is.finishes;
          },
        )

    behind :
        (ys : List ℕ) (y : ℕ)
        → IsList h l (ys ++ (y ∷ []))
        → elem p (ys ++ (y ∷ [])) ≡ false
        → n.next ≡ null
        → Spells (list_push null h l p) ((ys ++ (y ∷ [])) ++ (p ∷ []))
    unfolding list_push
    behind ys y is out isolated =
        let c = is.chain in
        let parts = Nexts-parts h ys (y ∷ []) null c.linked in
        let d = Distinct-parts ys (y ∷ []) c.distinct in
        let (m, at, m_next) = node_at h y parts.1.0 in
        let k = link_node h y p m at in
        let m1 : Node = node p k.old.prev in
        let g : Heap = write h y m1 in
        let p_y : p ≢ y = ground (arith, elem-append p ys (y ∷ []), out) in
        let k' = link_node g p null n (write_ne h y p m1 p_y ∙ e) in
        let m2 : Node = node null k'.old.prev in
        let p_ys : elem p ys ≡ false = ground (arith, elem-append p ys (y ∷ []), out) in
        let y_ys = Apart-elem ys (y ∷ []) y d.2 (ground arith) in
        let y_p : y ≢ p = λ q. p_y (sym q) in
        let at_end : l.last ≡ y = is.finishes ∙ last_or-append null ys y [] in
        let y_null : y ≢ null = ground (arith, elem-append null ys (y ∷ []), c.not_null) in
        let whole = ys ++ (y ∷ []) in
        let g' : Heap = write g p m2 in
        (
          g',
          handle l.first p,
          ground
              (arith, valid_list is, e, k.run, k'.run, at_end, nonempty ys y c.starts c.not_null),
          record {
            chain = record {
              starts = c.starts ∙ front ys y;
              linked =
                  Nexts-append g' whole (p ∷ []) null
                    (Nexts-append g' ys (y ∷ []) p
                      (Nexts-write g ys y p m2 p_ys (Nexts-write h ys y y m1 y_ys parts.0))
                      (ground (arith, write_ne g p y m2 y_p, write_self h y m1), tt))
                    (ground (arith, write_self g p m2), tt);
              distinct =
                  Distinct-append whole (p ∷ []) c.distinct (refl, tt) (Apart-single whole p out);
              not_null = ground (arith, elem-append null whole (p ∷ []), c.not_null);
            };
            finishes = sym (last_or-append null whole p []);
          },
        )
      where
        front :
            (zs : List ℕ) (z : ℕ)
            → head_or null (zs ++ (z ∷ [])) ≡ head_or null ((zs ++ (z ∷ [])) ++ (p ∷ []))
        front [] z = refl
        front (w ∷ zs) z = refl

        nonempty :
            (zs : List ℕ) (z : ℕ)
            → l.first ≡ head_or null (zs ++ (z ∷ []))
            → elem null (zs ++ (z ∷ [])) ≡ false
            → (l.first == null) ≡ false
        nonempty [] z s o = ground arith
        nonempty (w ∷ zs) z s o = ground arith

    pushes_back :
        (xs : List ℕ)
        → IsList h l xs
        → elem p xs ≡ false
        → n.next ≡ null
        → Spells (list_push null h l p) (xs ++ (p ∷ []))
    unfolding list_push
    pushes_back xs is out isolated = elim (by_end xs) [
      | inl nothing ↦
          let is' = subst (IsList h l) nothing is in
          let (g, r, ok) = only h p n ne e in
          (
            g,
            handle p p,
            ground (arith, valid_list is', is'.chain.starts, e, r),
            subst (λ zs. IsList g (handle p p) (zs ++ (p ∷ []))) (sym nothing) ok,
          )
      | inr (ys, y, whole) ↦
          subst (λ zs. Spells (list_push null h l p) (zs ++ (p ∷ []))) (sym whole)
            (behind ys y (subst (IsList h l) whole is) (ap (elem p) (sym whole) ∙ out) isolated)
    ]

  push_cases :
      (h : Heap) (l : Handle) (p : ℕ) (n : Node)
      → h p ≡ some n
      → p ≢ null
      → (xs : List ℕ) → IsList h l xs
      → elem p xs ≡ false
      → ((n.next ≡ null) × Spells (list_push null h l p) (xs ++ (p ∷ [])))
        ⊎ ((n.next ≢ null) × (list_push null h l p ≡ none))
  unfolding list_push
  push_cases h l p n e ne xs is out = elim (ℕ_discrete n.next null) [
    | yes isolated ↦ inl (isolated, pushes_back h l p n e ne xs is out isolated)
    | no linked ↦ inr (linked, ground (arith, e))
  ]

  pop_step :
      (h : Heap) (l : Handle) (n : Node)
      → both_or_none null l ≡ true
      → (l.first == l.last) ≡ false
      → h l.first ≡ some n
      → list_pop null h l ≡ some (handle n.next l.last)
  unfolding list_pop
  pop_step h l n v f e = rw (v, f, e)

  pops :
      (h : Heap) (l : Handle) (x : ℕ) (xs : List ℕ)
      → IsList h l (x ∷ xs)
      → (m : Handle) × (list_pop null h l ≡ some m) × IsList h m xs
  unfolding list_pop
  pops h l x [] is = (
    handle null null,
    ground (arith, valid_list is, is.chain.starts, is.finishes),
    record {
      chain = record { starts = refl; linked = tt; distinct = tt; not_null = refl };
      finishes = refl;
    },
  )
  pops h l x (y ∷ ys) is =
      let c = is.chain in
      let (m, at, m_next) = node_at h x c.linked.0 in
      let apart : x ≢ last_or y ys = λ q.
        differ (sym (elem-last_or y ys) ∙ (ap (λ a. elem a (y ∷ ys)) (sym q) ∙ c.distinct.0)) in
      (
        handle y l.last,
        pop_step h l m (valid_list is)
              (ap (λ a. a == l.last) c.starts ∙ (ap (λ a. x == a) is.finishes ∙ ne_test x _ apart))
              (ap h c.starts ∙ at)
            ∙ ap (λ a. some (handle a l.last)) m_next,
        record {
          chain = record {
            starts = refl;
            linked = c.linked.1;
            distinct = c.distinct.1;
            not_null = ground (arith, c.not_null);
          };
          finishes = is.finishes;
        },
      )
    where
      differ : true ≡ false → ⊥
      differ q = cc

  empty_pop : (h : Heap) (l : Handle) → IsList h l [] → list_pop null h l ≡ some (handle null null)
  unfolding list_pop
  empty_pop h l is = ground (arith, valid_list is, is.chain.starts, is.finishes)

  -- On a heap that spells `xs`, with a node outside `xs` that is not nil: list_push appends it when its `next` is nil,
  -- and fails otherwise; list_push_front puts it in front; and list_pop drops the first node, if any,
  -- and writes nothing.
  pub list_serves :
      (h : Heap) (l : Handle) (xs : List ℕ) (p : ℕ) (n : Node)
      → IsList h l xs
      → h p ≡ some n
      → p ≢ null
      → elem p xs ≡ false
      → (((n.next ≡ null) × Spells (list_push null h l p) (xs ++ (p ∷ [])))
          ⊎ ((n.next ≢ null) × (list_push null h l p ≡ none)))
        × Spells (list_push_front null h l p) (p ∷ xs)
        × ((m : Handle) × (list_pop null h l ≡ some m) × IsList h m (drop 1 xs))
  list_serves h l [] p n is e ne out = (
    push_cases h l p n e ne [] is out,
    pushes_front h l p n e ne [] is out,
    (
      handle null null,
      empty_pop h l is,
      record {
        chain = record { starts = refl; linked = tt; distinct = tt; not_null = refl };
        finishes = refl;
      },
    ),
  )
  list_serves h l (x ∷ xs) p n is e ne out = (
    push_cases h l p n e ne (x ∷ xs) is out,
    pushes_front h l p n e ne (x ∷ xs) is out,
    pops h l x xs is,
  )

  -- A node that list_pop takes from a list with more nodes cannot be pushed at its end again: its
  -- `next` still points into the list, and the assertion of list_push fails.
  pub list_push-list_pop :
      (h : Heap) (l : Handle) (x y : ℕ) (ys : List ℕ)
      → IsList h l (x ∷ y ∷ ys)
      → (m : Handle) × (list_pop null h l ≡ some m)
        × IsList h m (y ∷ ys)
        × (list_push null h m x ≡ none)
  unfolding list_push
  list_push-list_pop h l x y ys is =
      let (m, run, rest) = pops h l x (y ∷ ys) is in
      let (n, at, n_next) = node_at h x is.chain.linked.0 in
      (m, run, rest, ground (arith, at, n_next, is.chain.not_null))
