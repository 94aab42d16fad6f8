-- ===== src/LinkedList/Insert.antt =====
-- Insertion into a bilist: at the front, and behind a node wherever it stands.
use cbasis.Base.{
  ℕ, ◌≡◌, ◌≢◌, refl, sym, ap, ◌∙◌, true, false, ◌==◌, if◌then◌else◌, List, [], ◌∷◌, ◌++◌, arith,
  some, Option,
}
use cbasis.LinkedList.{
  Node, node, Heap, write, set_next, set_prev, Handle, handle, insert_into_empty, insert_front,
  insert_behind,
}
use cbasis.LinkedList.Lists.{
  head_or, last_or, elem, Distinct, elem-append, last_or-append, Apart, Apart-elem, Apart-other,
  Distinct-parts, Distinct-append,
}
use cbasis.LinkedList.Seg.{
  Seg, Seg-write, Seg-parts, Seg-append, set_next_lem, set_prev_lem, write_self, write_ne, IsBilist,
}

-- The operation returns; its heap spells `ys`, and is `h` outside the nodes of `ys`.
pub record Gives (null : ℕ) (h : Heap) (r : Option (Heap × Handle)) (ys : List ℕ) : Type 0 where
  pub heap : Heap
  pub handle : Handle
  pub returns : r ≡ some (heap, handle)
  pub spells : IsBilist null heap handle ys
  pub kept : (a : ℕ) → elem a ys ≡ false → heap a ≡ h a

module _ (null : ℕ) (h : Heap) (l : Handle) (p u v : ℕ) (owned : h p ≡ some (node u v))
    (ne : p ≢ null) where
  pub insert_into_empty_lem : Gives null h (insert_into_empty null h p) (p ∷ [])
  unfolding insert_into_empty
  insert_into_empty_lem =
      let e = set_next_lem h p null u v owned in
      let g : Heap = write h p (node null v) in
      let e' = set_prev_lem g p null null v (write_self h p (node null v)) in
      record {
        heap = write g p (node null null);
        handle = handle p p;
        returns = ground (arith, e, e');
        spells = record {
          starts = refl;
          finishes = refl;
          linked = (write_self g p (node null null), tt);
          distinct = (refl, tt);
          not_null = ground arith;
        };
        kept = λ a out.
            let other : a ≢ p = ground arith in
            write_ne g p a (node null null) other ∙ write_ne h p a (node null v) other;
      }

  pub insert_front_lem :
      (x : ℕ) (xs : List ℕ)
      → IsBilist null h l (x ∷ xs)
      → elem p (x ∷ xs) ≡ false
      → Gives null h (insert_front null h l p) (p ∷ x ∷ xs)
  unfolding insert_front
  insert_front_lem x xs is out =
      let apart : x ≢ p = ground arith in
      let nx : ℕ = head_or null xs in
      let e = set_prev_lem h p null u v owned in
      let g : Heap = write h p (node u null) in
      let e' = set_next_lem g p x u null (write_self h p (node u null)) in
      let g' : Heap = write g p (node x null) in
      let at : g' x ≡ some (node nx null) =
        write_ne g p x (node x null) apart ∙ (write_ne h p x (node u null) apart ∙ is.linked.0) in
      let e'' = set_prev_lem g' x p nx null at in
      let g'' : Heap = write g' x (node nx p) in
      record {
        heap = g'';
        handle = handle p l.last;
        returns = ground (arith, e, e', e'', is.starts, is.not_null);
        spells = record {
          starts = refl;
          finishes = is.finishes;
          linked = (
            write_ne g' x p (node nx p) (λ q. apart (sym q)) ∙ write_self g p (node x null),
            (
              write_self g' x (node nx p),
              Seg-write g' x xs null x (node nx p) is.distinct.0 (
                  Seg-write g x xs null p (node x null) (ground arith)
                    (Seg-write h x xs null p (node u null) (ground arith) is.linked.1)),
            ),
          );
          distinct = (out, is.distinct);
          not_null = ground (arith, is.not_null);
        };
        kept = λ a o.
            let a_p : a ≢ p = ground arith in
            write_ne g' x a (node nx p) (ground arith)
            ∙ (write_ne g p a (node x null) a_p ∙ write_ne h p a (node u null) a_p);
      }

  module _ (after : ℕ) (pre : List ℕ) where
    -- What holds of the lists before and after an insertion.
    record Fresh (post : List ℕ) : Type 0 where
      not_pre : elem p pre ≡ false
      not_post : elem p post ≡ false
      not_after : p ≢ after
      after_pre : elem after pre ≡ false
      after_post : elem after post ≡ false
      post_distinct : Distinct post
      pre_distinct : Distinct pre
      pre_post : Apart pre (after ∷ post)

    fresh :
        (post : List ℕ)
        → Distinct (pre ++ (after ∷ post))
        → elem p (pre ++ (after ∷ post)) ≡ false
        → Fresh post
    fresh post d out =
        let e = elem-append p pre (after ∷ post) in
        let parts = Distinct-parts pre (after ∷ post) d in
        record {
          not_pre = ground (arith, e);
          not_post = ground (arith, e);
          not_after = ground (arith, e);
          after_pre = Apart-elem pre (after ∷ post) after parts.2 (ground arith);
          after_post = parts.1.0;
          post_distinct = parts.1.1;
          pre_distinct = parts.0;
          pre_post = parts.2;
        }

    Distinct-inserted : (post : List ℕ) → Fresh post → Distinct (pre ++ (after ∷ p ∷ post))
    Distinct-inserted post f =
        Distinct-append pre (after ∷ p ∷ post) f.pre_distinct
          (ground (arith, f.not_after, f.after_post), (f.not_post, f.post_distinct))
          (Apart-other pre (after ∷ post) (after ∷ p ∷ post)
            (λ a m o. ground (arith, pre_not a m, o)) f.pre_post)
      where
        pre_not : (a : ℕ) → elem a pre ≡ true → a ≢ p
        pre_not a m e = differ (sym m ∙ (ap (λ b. elem b pre) e ∙ f.not_pre))
          where
            differ : true ≡ false → ⊥
            differ q = cc

    -- The end of the list moves when it was `after`.
    last_with :
        (post : List ℕ)
        → Fresh post
        → l.last ≡ last_or null (pre ++ (after ∷ post))
        → (if after == l.last then p else l.last) ≡ last_or null (pre ++ (after ∷ p ∷ post))
    last_with [] f e =
        ground (arith, e ∙ last_or-append null pre after [], last_or-append null pre after (p ∷ []))
    last_with (y ∷ ys) f e =
        let old : l.last ≡ last_or y ys = e ∙ last_or-append null pre after (y ∷ ys) in
        let new = last_or-append null pre after (p ∷ y ∷ ys) in
        ground (arith, old, new, not_last y ys f.after_post)
      where
        not_last : (z : ℕ) (zs : List ℕ) → elem after (z ∷ zs) ≡ false → after ≢ last_or z zs
        not_last z [] o = ground arith
        not_last z (w ∷ ws) o = ground (arith, not_last w ws)

    null_with :
        (post : List ℕ)
        → elem null (pre ++ (after ∷ post)) ≡ false
        → elem null (pre ++ (after ∷ p ∷ post)) ≡ false
    null_with post o =
        ground
          (arith, elem-append null pre (after ∷ post), elem-append null pre (after ∷ p ∷ post), o)

    starts_with :
        (ys zs : List ℕ) → head_or null (pre ++ (after ∷ ys)) ≡ head_or null (pre ++ (after ∷ zs))
    starts_with ys zs = same pre
      where
        same : (ws : List ℕ) → head_or null (ws ++ (after ∷ ys)) ≡ head_or null (ws ++ (after ∷ zs))
        same [] = refl
        same (w ∷ ws) = refl

    -- The writes to `p` and `after`, in a heap where what follows is already linked to `p`.
    hook :
        (g : Heap) (post : List ℕ) (pv : ℕ)
        → Fresh post
        → g after ≡ some (node (head_or null post) pv)
        → pv ≡ last_or null pre
        → g p ≡ some (node u v)
        → Seg g null pre after
        → Seg g p post null
        → (a : Heap) × (b : Heap) × (c : Heap) × (set_next g p (head_or null post) ≡ some a)
          × (set_prev a p after ≡ some b)
          × (set_next b after p ≡ some c)
          × Seg c null (pre ++ (after ∷ p ∷ post)) null
          × ((x : ℕ) → x ≢ p → x ≢ after → c x ≡ g x)
    hook g post pv f at e_pv at_p left right =
        let nx : ℕ = head_or null post in
        let n1 : Node = node nx v in
        let n2 : Node = node nx after in
        let n3 : Node = node p pv in
        let a : Heap = write g p n1 in
        let b : Heap = write a p n2 in
        let c : Heap = write b after n3 in
        let after_p : after ≢ p = λ q. f.not_after (sym q) in
        let b_after : b after ≡ some (node nx pv) =
          write_ne a p after n2 after_p ∙ (write_ne g p after n1 after_p ∙ at) in
        let c_after : c after ≡ some (node p (last_or null pre)) =
          write_self b after n3 ∙ ap (λ (k : ℕ). some (node p k)) e_pv in
        let c_p : c p ≡ some (node nx after) =
          write_ne b after p n3 f.not_after ∙ write_self a p n2 in
        (
          a,
          b,
          c,
          set_next_lem g p nx u v at_p,
          set_prev_lem a p after nx v (write_self g p n1),
          set_next_lem b after p nx pv b_after,
          Seg-append c null pre (after ∷ p ∷ post) null
              (Seg-write b null pre after after n3 f.after_pre (
                Seg-write a null pre after p n2 f.not_pre
                  (Seg-write g null pre after p n1 f.not_pre left)))
              (
                c_after,
                (
                  c_p,
                  Seg-write b p post null after n3 f.after_post (
                      Seg-write a p post null p n2 f.not_post
                        (Seg-write g p post null p n1 f.not_post right)),
                ),
              ),
          λ x x_p x_after.
              write_ne b after x n3 x_after ∙ (write_ne a p x n2 x_p ∙ write_ne g p x n1 x_p),
        )

    -- The list with `p` behind `after`.
    abbrev inserted : List ℕ → List ℕ
    inserted post = pre ++ (after ∷ p ∷ post)

    spelled :
        (c : Heap) (post : List ℕ)
        → IsBilist null h l (pre ++ (after ∷ post))
        → Fresh post
        → Seg c null (inserted post) null
        → IsBilist null c (handle l.first (if after == l.last then p else l.last)) (inserted post)
    spelled c post is f seg = record {
      starts = is.starts ∙ starts_with post (p ∷ post);
      finishes = last_with post f is.finishes;
      linked = seg;
      distinct = Distinct-inserted post f;
      not_null = null_with post is.not_null;
    }

    elem_inserted :
        (post : List ℕ) (x : ℕ)
        → elem x (inserted post) ≡ false
        → (x ≢ p) × (x ≢ after) × (elem x post ≡ false)
    elem_inserted post x o =
        let e = elem-append x pre (after ∷ p ∷ post) in
        (ground (arith, e), ground (arith, e), ground (arith, e))

    pub insert_behind_lem :
        (post : List ℕ)
        → IsBilist null h l (pre ++ (after ∷ post))
        → elem p (pre ++ (after ∷ post)) ≡ false
        → Gives null h (insert_behind null h l after p) (inserted post)
    unfolding insert_behind
    insert_behind_lem [] is out =
        let f = fresh [] is.distinct out in
        let parts = Seg-parts h null pre (after ∷ []) null is.linked in
        let (a, b, c, ea, eb, ec, seg, kept) =
          hook h [] (last_or null pre) f parts.1.0 refl owned parts.0 tt in
        record {
          heap = c;
          handle = handle l.first (if after == l.last then p else l.last);
          returns = ground (arith, parts.1.0, ea, eb, ec);
          spells = spelled c [] is f seg;
          kept = λ x o. let q = elem_inserted [] x o in kept x q.0 q.1;
        }
    insert_behind_lem (y ∷ ys) is out =
        let f = fresh (y ∷ ys) is.distinct out in
        let parts = Seg-parts h null pre (after ∷ y ∷ ys) null is.linked in
        let ny : ℕ = head_or null ys in
        let g : Heap = write h y (node ny p) in
        let eg = set_prev_lem h y p ny after parts.1.1.0 in
        let y_after : after ≢ y = ground (arith, f.after_post) in
        let y_p : p ≢ y = ground (arith, f.not_post) in
        let g_after = write_ne h y after (node ny p) y_after ∙ parts.1.0 in
        let y_null : y ≢ null =
          ground (arith, elem-append null pre (after ∷ y ∷ ys), is.not_null) in
        let y_pre : elem y pre ≡ false =
          Apart-elem pre (after ∷ y ∷ ys) y f.pre_post (ground arith) in
        let (a, b, c, ea, eb, ec, seg, kept) =
          hook g (y ∷ ys) (last_or null pre) f g_after refl (write_ne h y p (node ny p) y_p ∙ owned)
            (Seg-write h null pre after y (node ny p) y_pre parts.0)
            (
              write_self h y (node ny p),
              Seg-write h y ys null y (node ny p) f.post_distinct.0 parts.1.1.1,
            ) in
        record {
          heap = c;
          handle = handle l.first (if after == l.last then p else l.last);
          returns = ground (arith, parts.1.0, y_null, eg, g_after, ea, eb, ec);
          spells = spelled c (y ∷ ys) is f seg;
          kept = λ x o.
              let q = elem_inserted (y ∷ ys) x o in
              kept x q.0 q.1 ∙ write_ne h y x (node ny p) (ground (arith, q.2));
        }
