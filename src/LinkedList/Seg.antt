-- ===== src/LinkedList/Seg.antt =====
-- What a segment of a doubly linked list is, and which writes keep it.
use cbasis.Base.{
  ℕ, ◌≡◌, ◌≢◌, ap, ◌∙◌, subst, ◌⊎◌, inl, inr, Bool, true, false, List, [], ◌∷◌, ◌++◌, arith, some,
}
use cbasis.LinkedList.{
  Node, node, Heap, write, set_next, set_prev, Handle, both_or_none, linked_next, linked_prev,
  require_linked, require_valid,
}
use cbasis.LinkedList.Lists.{
  head_or, last_or, elem, Distinct, last_or-append, Cut, cut, by_end, elem-last_or,
}

-- The nodes of `xs` are linked with each other, with `before` and with `stop`.
abbrev pub Seg : Heap → ℕ → List ℕ → ℕ → Type 0
Seg h before [] stop = Unit {0}
Seg h before (x ∷ xs) stop = (h x ≡ some (node (head_or stop xs) before)) × Seg h x xs stop

pub Seg-write :
    (h : Heap) (before : ℕ) (xs : List ℕ) (stop p : ℕ) (n : Node)
    → elem p xs ≡ false
    → Seg h before xs stop
    → Seg (write h p n) before xs stop
unfolding write
Seg-write h b [] s p n out seg = tt
Seg-write h b (x ∷ xs) s p n out seg = ground (arith, Seg-write h x xs s p n)

pub Seg-parts :
    (h : Heap) (b : ℕ) (xs ys : List ℕ) (s : ℕ)
    → Seg h b (xs ++ ys) s
    → Seg h b xs (head_or s ys) × Seg h (last_or b xs) ys s
Seg-parts h b [] ys s seg = (tt, seg)
Seg-parts h b (x ∷ []) ys s seg = ((seg.0, tt), seg.1)
Seg-parts h b (x ∷ y ∷ xs) ys s seg =
    let r = Seg-parts h x (y ∷ xs) ys s seg.1 in ((seg.0, r.0), r.1)

pub Seg-append :
    (h : Heap) (b : ℕ) (xs ys : List ℕ) (s : ℕ)
    → Seg h b xs (head_or s ys)
    → Seg h (last_or b xs) ys s
    → Seg h b (xs ++ ys) s
Seg-append h b [] ys s l r = r
Seg-append h b (x ∷ []) ys s l r = (l.0, r)
Seg-append h b (x ∷ y ∷ xs) ys s l r = (l.0, Seg-append h x (y ∷ xs) ys s l.1 r)

pub set_next_lem :
    (h : Heap) (p q r s : ℕ) → h p ≡ some (node r s) → set_next h p q ≡ some (write h p (node q s))
unfolding set_next
set_next_lem h p q r s e = rw e

pub set_prev_lem :
    (h : Heap) (p q r s : ℕ) → h p ≡ some (node r s) → set_prev h p q ≡ some (write h p (node r q))
unfolding set_prev
set_prev_lem h p q r s e = rw e

pub write_self : (h : Heap) (p : ℕ) (n : Node) → write h p n p ≡ some n
unfolding write
write_self h p n = ground arith

pub write_ne : (h : Heap) (p a : ℕ) (n : Node) → a ≢ p → write h p n a ≡ h a
unfolding write
write_ne h p a n ne = ground arith

module _ (null : ℕ) where
  -- The list between `first` and `last` that the heap spells is `xs`.
  pub record IsBilist (h : Heap) (l : Handle) (xs : List ℕ) : Type 0 where
    pub starts : l.first ≡ head_or null xs
    pub finishes : l.last ≡ last_or null xs
    pub linked : Seg h null xs null
    pub distinct : Distinct xs
    pub not_null : elem null xs ≡ false

  pub both_or_none_lem :
      (l : Handle) (xs : List ℕ)
      → l.first ≡ head_or null xs
      → l.last ≡ last_or null xs
      → elem null xs ≡ false
      → both_or_none null l ≡ true
  unfolding both_or_none
  both_or_none_lem l [] f g e = ground arith
  both_or_none_lem l (x ∷ xs) f g e =
      ground (arith, elem-last_or x xs, ap (λ y. elem y (x ∷ xs)) g, cases)
    where
      cases : (l.last ≡ null) → elem l.last (x ∷ xs) ≡ elem null (x ∷ xs)
      cases q = ap (λ y. elem y (x ∷ xs)) q

  next_ok :
      (h : Heap) (p b : ℕ) (ys : List ℕ) → Seg h b (p ∷ ys) null → linked_next null h p ≡ some true
  unfolding linked_next
  next_ok h p b [] seg = ground (arith, seg.0)
  next_ok h p b (y ∷ ys) seg = ground (arith, seg.0, seg.1.0)

  prev_ok :
      (h : Heap) (p n : ℕ) (xs : List ℕ)
      → Seg h null xs p
      → h p ≡ some (node n (last_or null xs))
      → linked_prev null h p ≡ some true
  unfolding linked_prev
  prev_ok h p n xs seg e = elim (by_end xs) [
    | inl none_before ↦
        let at : h p ≡ some (node n null) =
          e ∙ ap (λ ys. some (node n (last_or null ys))) none_before in
        ground (arith, at)
    | inr (ys, y, whole) ↦
        let at : h p ≡ some (node n y) =
          e
          ∙ ap (λ (k : ℕ). some (node n k))
              (ap (last_or null) whole ∙ last_or-append null ys y []) in
        let parts = Seg-parts h null ys (y ∷ []) p (subst (λ zs. Seg h null zs p) whole seg) in
        ground (arith, at, parts.1.0)
  ]

  nothing_next : (h : Heap) (p : ℕ) → p ≡ null → linked_next null h p ≡ some true
  unfolding linked_next
  nothing_next h p e = ground arith

  nothing_prev : (h : Heap) (p : ℕ) → p ≡ null → linked_prev null h p ≡ some true
  unfolding linked_prev
  nothing_prev h p e = ground arith

  module _ (debug : Bool) (h : Heap) (l : Handle) where
    require_linked_lem :
        (xs : List ℕ) (p : ℕ)
        → Seg h null xs null
        → (p ≡ null) ⊎ (elem p xs ≡ true)
        → require_linked null debug h p ≡ some tt
    unfolding require_linked
    require_linked_lem xs p seg (inl e) = ground (arith, nothing_next h p e, nothing_prev h p e)
    require_linked_lem xs p seg (inr m) =
        let c : Cut p xs = cut p xs m in
        let parts =
          Seg-parts h null c.before (p ∷ c.behind) null
            (subst (λ ys. Seg h null ys null) c.whole seg) in
        ground (
          arith,
          next_ok h p (last_or null c.before) c.behind parts.1,
          prev_ok h p (head_or null c.behind) c.before parts.0 parts.1.0,
        )

    -- The assertions of the functions on bilists hold for a list and a node in it, or nil.
    pub require_valid_lem :
        (xs : List ℕ) (p at : ℕ)
        → IsBilist h l xs
        → p ≢ null
        → (at ≡ null) ⊎ (elem at xs ≡ true)
        → require_valid null debug h l p at ≡ some tt
    unfolding require_valid
    require_valid_lem xs p at v ne m = ground (
      arith,
      both_or_none_lem l xs v.starts v.finishes v.not_null,
      require_linked_lem xs at v.linked m,
      require_linked_lem xs l.first v.linked (first_in xs v.starts),
      require_linked_lem xs l.last v.linked (last_in xs v.finishes),
    )
      where
        first_in :
            (ys : List ℕ) → l.first ≡ head_or null ys → (l.first ≡ null) ⊎ (elem l.first ys ≡ true)
        first_in [] e = inl e
        first_in (y ∷ ys) e = inr (ground arith)

        last_in :
            (ys : List ℕ) → l.last ≡ last_or null ys → (l.last ≡ null) ⊎ (elem l.last ys ≡ true)
        last_in [] e = inl e
        last_in (y ∷ ys) e = inr (ap (λ k. elem k (y ∷ ys)) e ∙ elem-last_or y ys)
