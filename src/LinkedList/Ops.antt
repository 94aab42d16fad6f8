-- ===== src/LinkedList/Ops.antt =====
-- The functions on bilists against insertion and removal on lists of nodes.
use native.Mathlib.Decide.{ℕ_discrete}
use cbasis.Base.{
  ℕ, ◌≡◌, ◌≢◌, refl, sym, ap, ◌∙◌, subst, ◌⊎◌, inl, inr, Bool, true, false, ◌==◌, if◌then◌else◌,
  List, [], ◌∷◌, ◌++◌, arith, some, Option,
}
use cbasis.LinkedList.{
  node, Heap, Handle, require_valid, insert_behind, bilist_insert_cond, bilist_insert,
  bilist_push_back, bilist_push_front, remove_first, remove_last, remove_between, bilist_remove,
}
use cbasis.LinkedList.Lists.{
  head_or, last_or, elem, Distinct, elem-append, last_or-append, Cut, cut, by_end, Distinct-parts,
  elem-last_or,
}
use cbasis.LinkedList.Seg.{IsBilist, require_valid_lem}
use cbasis.LinkedList.Insert.{Gives, insert_into_empty_lem, insert_front_lem, insert_behind_lem}
use cbasis.LinkedList.Remove.{remove_first_lem, remove_last_lem, remove_between_lem}

-- `p` behind the first `after`.
unfoldable pub insert_after : ℕ → ℕ → List ℕ → List ℕ
insert_after after p [] = []
insert_after after p (x ∷ xs) = if x == after then x ∷ p ∷ xs else x ∷ insert_after after p xs

-- Without the first `p`.
unfoldable pub erase : ℕ → List ℕ → List ℕ
erase p [] = []
erase p (x ∷ xs) = if x == p then xs else x ∷ erase p xs

insert_after-cut :
    (a p : ℕ) (pre post : List ℕ)
    → elem a pre ≡ false
    → insert_after a p (pre ++ (a ∷ post)) ≡ pre ++ (a ∷ p ∷ post)
unfolding insert_after
insert_after-cut a p [] post o = ground arith
insert_after-cut a p (x ∷ pre) post o = ground (arith, insert_after-cut a p pre post)

erase-cut :
    (p : ℕ) (pre post : List ℕ) → elem p pre ≡ false → erase p (pre ++ (p ∷ post)) ≡ pre ++ post
unfolding erase
erase-cut p [] post o = ground arith
erase-cut p (x ∷ pre) post o = ground (arith, erase-cut p pre post)

-- Another way to run the same operation, and another way to write the same list.
Gives-cast :
    {null : ℕ} {h : Heap} {r s : Option (Heap × Handle)} {xs ys : List ℕ}
    → s ≡ r
    → xs ≡ ys
    → Gives null h r xs
    → Gives null h s ys
Gives-cast {null} {h} {s} {xs} e q g =
    subst (λ zs. Gives null h s zs) q (subst (λ t. Gives null h t xs) (sym e) g)

pub eq_test : (a b : ℕ) → a ≡ b → (a == b) ≡ true
eq_test a b e = ground arith

pub ne_test : (a b : ℕ) → a ≢ b → (a == b) ≡ false
ne_test a b ne = ground arith

pub nonempty :
    {null : ℕ} {h : Heap} {l : Handle} (x : ℕ) (xs : List ℕ)
    → IsBilist null h l (x ∷ xs)
    → (l.first == null) ≡ false
nonempty {null} {l} x xs is =
    ap (λ a. a == null) is.starts ∙ ne_test x null (λ e. absurd (ground (arith, is.not_null)))

-- A node outside the list.
pub record New (null : ℕ) (h : Heap) (p : ℕ) (xs : List ℕ) : Type 0 where
  pub node_next : ℕ
  pub node_prev : ℕ
  pub owned : h p ≡ some (node node_next node_prev)
  pub not_null : p ≢ null
  pub outside : elem p xs ≡ false

module _ (null : ℕ) (debug : Bool) (h : Heap) (l : Handle) where
  cond_behind :
      (after p : ℕ)
      → require_valid null debug h l p after ≡ some tt
      → (l.first == null) ≡ false
      → bilist_insert_cond null debug h l after false p ≡ insert_behind null h l after p
  unfolding bilist_insert_cond
  cond_behind after p e f = rw (e, f)

  pub insert_cond_front :
      (xs : List ℕ) (after p : ℕ)
      → IsBilist null h l xs
      → (after ≡ null) ⊎ (elem after xs ≡ true)
      → New null h p xs
      → Gives null h (bilist_insert_cond null debug h l after true p) (p ∷ xs)
  unfolding bilist_insert_cond
  insert_cond_front [] after p is m new =
      Gives-cast
        (ground (arith, require_valid_lem null debug h l [] p after is new.not_null m, is.starts))
        refl (insert_into_empty_lem null h l p new.node_next new.node_prev new.owned new.not_null)
  insert_cond_front (x ∷ xs) after p is m new =
      Gives-cast
        (ground (
          arith,
          require_valid_lem null debug h l (x ∷ xs) p after is new.not_null m,
          is.starts,
          is.not_null,
        ))
        refl
        (insert_front_lem null h l p new.node_next new.node_prev new.owned new.not_null x xs is
          new.outside)

  pub insert_cond_behind :
      (xs : List ℕ) (after p : ℕ)
      → IsBilist null h l xs
      → elem after xs ≡ true
      → New null h p xs
      → Gives null h (bilist_insert_cond null debug h l after false p) (insert_after after p xs)
  insert_cond_behind [] after p is m new = absurd (ground arith)
  insert_cond_behind (x ∷ xs) after p is m new =
      let c : Cut after (x ∷ xs) = cut after (x ∷ xs) m in
      Gives-cast
        (cond_behind after p
          (require_valid_lem null debug h l (x ∷ xs) p after is new.not_null (inr m))
          (nonempty x xs is))
        (sym (
          ap (insert_after after p) c.whole
          ∙ insert_after-cut after p c.before c.behind c.not_before))
        (insert_behind_lem null h l p new.node_next new.node_prev new.owned new.not_null after
          c.before c.behind (subst (λ ys. IsBilist null h l ys) c.whole is)
          (ap (elem p) (sym c.whole) ∙ new.outside))

  pub insert_lem :
      (xs : List ℕ) (after p : ℕ)
      → IsBilist null h l xs
      → New null h p xs
      → (after ≡ null → Gives null h (bilist_insert null debug h l after p) (p ∷ xs))
        × (elem after xs ≡ true
            → Gives null h (bilist_insert null debug h l after p) (insert_after after p xs))
  unfolding bilist_insert
  insert_lem xs after p is new = (
    λ e.
        let test : (after == null) ≡ true = ground arith in
        Gives-cast (ap (λ b. bilist_insert_cond null debug h l after b p) test) refl
          (insert_cond_front xs after p is (inl e) new),
    λ m.
        let test : (after == null) ≡ false = in_list m in
        Gives-cast (ap (λ b. bilist_insert_cond null debug h l after b p) test) refl
          (insert_cond_behind xs after p is m new),
  )
    where
      in_list : elem after xs ≡ true → (after == null) ≡ false
      in_list m = elim (ℕ_discrete after null) [
        | yes e ↦ absurd (differ (sym m ∙ (ap (λ a. elem a xs) e ∙ is.not_null)))
        | no ne ↦ ground arith
      ]
        where
          differ : true ≡ false → ⊥
          differ q = cc

  insert_after-last :
      (x : ℕ) (xs : List ℕ) (p : ℕ)
      → Distinct (x ∷ xs)
      → insert_after (last_or x xs) p (x ∷ xs) ≡ (x ∷ xs) ++ (p ∷ [])
  unfolding insert_after
  insert_after-last x [] p d = ground arith
  insert_after-last x (y ∷ ys) p d =
      ground (arith, insert_after-last y ys p d.1, elem-last_or y ys, other)
    where
      other : x ≡ last_or y ys → elem x (y ∷ ys) ≡ elem (last_or y ys) (y ∷ ys)
      other e = ap (λ a. elem a (y ∷ ys)) e

  pub push_back_lem :
      (xs : List ℕ) (p : ℕ)
      → IsBilist null h l xs
      → New null h p xs
      → Gives null h (bilist_push_back null debug h l p) (xs ++ (p ∷ []))
  unfolding bilist_push_back bilist_insert_cond
  push_back_lem [] p is new =
      Gives-cast
        (ground (
          arith,
          require_valid_lem null debug h l [] p l.last is new.not_null (inl is.finishes),
          is.starts,
        ))
        refl (insert_into_empty_lem null h l p new.node_next new.node_prev new.owned new.not_null)
  push_back_lem (x ∷ xs) p is new =
      Gives-cast refl
        (ap (λ a. insert_after a p (x ∷ xs)) is.finishes ∙ insert_after-last x xs p is.distinct)
        (insert_cond_behind (x ∷ xs) l.last p is
          (ap (λ a. elem a (x ∷ xs)) is.finishes ∙ elem-last_or x xs) new)

  pub push_front_lem :
      (xs : List ℕ) (p : ℕ)
      → IsBilist null h l xs
      → New null h p xs
      → Gives null h (bilist_push_front null debug h l p) (p ∷ xs)
  unfolding bilist_push_front
  push_front_lem [] p is new = insert_cond_front [] l.last p is (inl is.finishes) new
  push_front_lem (x ∷ xs) p is new =
      insert_cond_front (x ∷ xs) l.last p is
        (inr (ap (λ a. elem a (x ∷ xs)) is.finishes ∙ elem-last_or x xs)) new

  cond_remove :
      (p : ℕ)
      → require_valid null debug h l p p ≡ some tt
      → bilist_remove null debug h l p ≡ (
          if l.first == p
          then remove_first null h l
          else if l.last == p
          then remove_last null h l
          else remove_between null h l p)
  unfolding bilist_remove
  cond_remove p e = rw e

  remove_tail :
      (p : ℕ)
      → require_valid null debug h l p p ≡ some tt
      → (l.first == p) ≡ false
      → (l.last == p) ≡ true
      → bilist_remove null debug h l p ≡ remove_last null h l
  remove_tail p e f g = cond_remove p e ∙ rw (f, g)

  remove_mid :
      (p : ℕ)
      → require_valid null debug h l p p ≡ some tt
      → (l.first == p) ≡ false
      → (l.last == p) ≡ false
      → bilist_remove null debug h l p ≡ remove_between null h l p
  remove_mid p e f g = cond_remove p e ∙ rw (f, g)

  -- Which branch is taken for a node `p` behind `y`.
  behind_first :
      (pre : List ℕ) (y p : ℕ) (post : List ℕ)
      → Distinct (pre ++ (y ∷ p ∷ post))
      → head_or null (pre ++ (y ∷ p ∷ post)) ≢ p
  behind_first [] y p post d e = absurd (ground (arith, d.0))
  behind_first (x ∷ pre) y p post d e =
      absurd (ground (arith, d.0, elem-append x pre (y ∷ p ∷ post)))

  not_last : (p z : ℕ) (zs : List ℕ) → elem p (z ∷ zs) ≡ false → last_or z zs ≢ p
  not_last p z [] o e = absurd (ground arith)
  not_last p z (w ∷ ws) o e = not_last p w ws (ground arith) e

  remove_behind :
      (pre : List ℕ) (y p : ℕ) (post : List ℕ)
      → IsBilist null h l (pre ++ (y ∷ p ∷ post))
      → require_valid null debug h l p p ≡ some tt
      → Gives null h (bilist_remove null debug h l p) (pre ++ (y ∷ post))
  remove_behind pre y p [] is ok =
      Gives-cast
        (remove_tail p ok
          (ap (λ a. a == p) is.starts ∙ ne_test _ p (behind_first pre y p [] is.distinct))
          (eq_test l.last p (is.finishes ∙ last_or-append null pre y (p ∷ []))))
        refl (remove_last_lem null h l p pre y is)
  remove_behind pre y p (z ∷ zs) is ok =
      let d = (Distinct-parts pre (y ∷ p ∷ z ∷ zs) is.distinct).1.1 in
      Gives-cast
        (remove_mid p ok
          (ap (λ a. a == p) is.starts ∙ ne_test _ p (behind_first pre y p (z ∷ zs) is.distinct))
          (ap (λ a. a == p) (is.finishes ∙ last_or-append null pre y (p ∷ z ∷ zs))
            ∙ ne_test _ p (not_last p z zs d.0)))
        refl (remove_between_lem null h l p pre y z zs is)

  append_mid : (ys : List ℕ) (y : ℕ) (zs : List ℕ) → (ys ++ (y ∷ [])) ++ zs ≡ ys ++ (y ∷ zs)
  append_mid [] y zs = refl
  append_mid (x ∷ ys) y zs = ap (λ t. x ∷ t) (append_mid ys y zs)

  remove_at :
      (pre : List ℕ) (p : ℕ) (post : List ℕ)
      → IsBilist null h l (pre ++ (p ∷ post))
      → require_valid null debug h l p p ≡ some tt
      → Gives null h (bilist_remove null debug h l p) (pre ++ post)
  remove_at pre p post is ok = elim (by_end pre) [
    | inl e ↦
        let is' = subst (λ ys. IsBilist null h l (ys ++ (p ∷ post))) e is in
        Gives-cast (ground (arith, cond_remove p ok, is'.starts)) (ap (λ ys. ys ++ post) (sym e))
          (remove_first_lem null h l p post is')
    | inr (ys, y, e) ↦
        let q = λ (zs : List ℕ). ap (λ t. t ++ zs) e ∙ append_mid ys y zs in
        Gives-cast refl (sym (q post))
          (remove_behind ys y p post (subst (λ zs. IsBilist null h l zs) (q (p ∷ post)) is) ok)
  ]

  pub remove_lem :
      (xs : List ℕ) (p : ℕ)
      → IsBilist null h l xs
      → elem p xs ≡ true
      → p ≢ null
      → Gives null h (bilist_remove null debug h l p) (erase p xs)
  remove_lem xs p is m ne =
      let c : Cut p xs = cut p xs m in
      Gives-cast refl (sym (ap (erase p) c.whole ∙ erase-cut p c.before c.behind c.not_before)) (
        remove_at c.before p c.behind (subst (λ ys. IsBilist null h l ys) c.whole is)
          (require_valid_lem null debug h l xs p p is ne (inr m)))
