-- ===== src/LinkedList/Remove.antt =====
-- Removal from a bilist: of the first node, the last, or one between two others.
use cbasis.Base.{ℕ, ◌≡◌, ◌≢◌, refl, sym, ◌∙◌, false, List, [], ◌∷◌, ◌++◌, arith, some}
use cbasis.LinkedList.{
  Node, node, Heap, write, Handle, handle, remove_first, remove_last, remove_between,
}
use cbasis.LinkedList.Lists.{
  head_or, last_or, elem, Distinct, elem-append, last_or-append, Apart, Apart-elem, Apart-other,
  Distinct-parts, Distinct-append,
}
use cbasis.LinkedList.Seg.{
  Seg-write, Seg-parts, Seg-append, set_next_lem, set_prev_lem, write_self, write_ne, IsBilist,
}
use cbasis.LinkedList.Insert.{Gives}

module _ (null : ℕ) (h : Heap) (l : Handle) (x : ℕ) where
  pub remove_first_lem :
      (xs : List ℕ) → IsBilist null h l (x ∷ xs) → Gives null h (remove_first null h l) xs
  unfolding remove_first
  remove_first_lem [] is = record {
    heap = h;
    handle = handle null null;
    returns = ground (arith, is.starts, is.linked.0);
    spells = record { starts = refl; finishes = refl; linked = tt; distinct = tt; not_null = refl };
    kept = λ a o. refl;
  }
  remove_first_lem (y ∷ ys) is =
      let ny : ℕ = head_or null ys in
      let e = set_prev_lem h y null ny x is.linked.1.0 in
      record {
        heap = write h y (node ny null);
        handle = handle y l.last;
        returns = ground (arith, is.starts, is.linked.0, e, is.not_null);
        spells = record {
          starts = refl;
          finishes = is.finishes;
          linked = (
            write_self h y (node ny null),
            Seg-write h y ys null y (node ny null) is.distinct.1.0 is.linked.1.1,
          );
          distinct = is.distinct.1;
          not_null = ground (arith, is.not_null);
        };
        kept = λ a o. write_ne h y a (node ny null) (ground arith);
      }

  -- `x` stands behind `y`.
  module _ (pre : List ℕ) (y : ℕ) where
    abbrev whole : List ℕ → List ℕ
    whole post = pre ++ (y ∷ x ∷ post)

    abbrev left : List ℕ → List ℕ
    left post = pre ++ (y ∷ post)

    record Placed (post : List ℕ) : Type 0 where
      y_pre : elem y pre ≡ false
      y_post : elem y post ≡ false
      x_y : x ≢ y
      null_y : y ≢ null
      left_distinct : Distinct (left post)
      left_null : elem null (left post) ≡ false
      pre_post : Apart pre (y ∷ x ∷ post)

    placed : (post : List ℕ) → Distinct (whole post) → elem null (whole post) ≡ false → Placed post
    placed post d o =
        let parts = Distinct-parts pre (y ∷ x ∷ post) d in
        let e = elem-append null pre (y ∷ x ∷ post) in
        record {
          y_pre = Apart-elem pre (y ∷ x ∷ post) y parts.2 (ground arith);
          y_post = ground (arith, parts.1.0);
          x_y = ground (arith, parts.1.0);
          null_y = ground (arith, e, o);
          left_distinct =
              Distinct-append pre (y ∷ post) parts.0 (ground (arith, parts.1.0), parts.1.1.1)
                (Apart-other pre (y ∷ x ∷ post) (y ∷ post) (λ a m q. ground (arith, q)) parts.2);
          left_null = ground (arith, e, o, elem-append null pre (y ∷ post));
          pre_post = parts.2;
        }

    starts_left : (post : List ℕ) → head_or null (whole post) ≡ head_or null (left post)
    starts_left post = same pre
      where
        same : (ws : List ℕ) → head_or null (ws ++ (y ∷ x ∷ post)) ≡ head_or null (ws ++ (y ∷ post))
        same [] = refl
        same (w ∷ ws) = refl

    outside : (post : List ℕ) (a : ℕ) → elem a (left post) ≡ false → (a ≢ y) × (elem a post ≡ false)
    outside post a o =
        let e = elem-append a pre (y ∷ post) in (ground (arith, e), ground (arith, e))

    pub remove_last_lem :
        IsBilist null h l (whole []) → Gives null h (remove_last null h l) (left [])
    unfolding remove_last
    remove_last_lem is =
        let f = placed [] is.distinct is.not_null in
        let parts = Seg-parts h null pre (y ∷ x ∷ []) null is.linked in
        let pv : ℕ = last_or null pre in
        let e = set_next_lem h y null x pv parts.1.0 in
        let at_last : l.last ≡ x = is.finishes ∙ last_or-append null pre y (x ∷ []) in
        record {
          heap = write h y (node null pv);
          handle = handle l.first y;
          returns = ground (arith, at_last, parts.1.1.0, f.null_y, e);
          spells = record {
            starts = is.starts ∙ starts_left [];
            finishes = sym (last_or-append null pre y []);
            linked =
                Seg-append (write h y (node null pv)) null pre (y ∷ []) null
                  (Seg-write h null pre y y (node null pv) f.y_pre parts.0)
                  (write_self h y (node null pv), tt);
            distinct = f.left_distinct;
            not_null = f.left_null;
          };
          kept = λ a o. write_ne h y a (node null pv) (outside [] a o).0;
        }

    pub remove_between_lem :
        (z : ℕ) (zs : List ℕ)
        → IsBilist null h l (whole (z ∷ zs))
        → Gives null h (remove_between null h l x) (left (z ∷ zs))
    unfolding remove_between
    remove_between_lem z zs is =
        let f = placed (z ∷ zs) is.distinct is.not_null in
        let parts = Seg-parts h null pre (y ∷ x ∷ z ∷ zs) null is.linked in
        let d = (Distinct-parts pre (y ∷ x ∷ z ∷ zs) is.distinct).1 in
        let pv : ℕ = last_or null pre in
        let nz : ℕ = head_or null zs in
        let n1 : Node = node nz y in
        let n2 : Node = node z pv in
        let g : Heap = write h z n1 in
        let g' : Heap = write g y n2 in
        let x_z : x ≢ z = ground (arith, d.1.0) in
        let y_z : y ≢ z = ground (arith, f.y_post) in
        let null_z : z ≢ null =
          ground (arith, elem-append null pre (y ∷ x ∷ z ∷ zs), is.not_null) in
        let e = set_prev_lem h z y nz x parts.1.1.1.0 in
        let g_x : g x ≡ some (node z y) = write_ne h z x n1 x_z ∙ parts.1.1.0 in
        let e' = set_next_lem g y z x pv (write_ne h z y n1 y_z ∙ parts.1.0) in
        let z_pre = Apart-elem pre (y ∷ x ∷ z ∷ zs) z f.pre_post (ground arith) in
        record {
          heap = g';
          handle = l;
          returns = ground (arith, parts.1.1.0, null_z, e, g_x, f.null_y, e');
          spells = record {
            starts = is.starts ∙ starts_left (z ∷ zs);
            finishes =
                is.finishes
                ∙ (last_or-append null pre y (x ∷ z ∷ zs)
                    ∙ sym (last_or-append null pre y (z ∷ zs)));
            linked =
                Seg-append g' null pre (y ∷ z ∷ zs) null
                  (Seg-write g null pre y y n2 f.y_pre (Seg-write h null pre y z n1 z_pre parts.0))
                  (
                    write_self g y n2,
                    (
                      write_ne g y z n2 (λ q. y_z (sym q)) ∙ write_self h z n1,
                      Seg-write g z zs null y n2 (ground (arith, f.y_post))
                          (Seg-write h z zs null z n1 d.1.1.0 parts.1.1.1.1),
                    ),
                  );
            distinct = f.left_distinct;
            not_null = f.left_null;
          };
          kept = λ a o.
              let q = outside (z ∷ zs) a o in
              write_ne g y a n2 q.0 ∙ write_ne h z a n1 (ground (arith, q.1));
        }
