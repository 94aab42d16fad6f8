-- ===== src/LinkedList/Nexts.antt =====
-- Runs of nodes that are linked by `next` alone, and writes to one.
use cbasis.Base.{
  ℕ, ◌≡◌, ◌≢◌, refl, false, ◌==◌, List, [], ◌∷◌, ◌++◌, arith, none, some, Option, ◌>>=◌,
}
use cbasis.LinkedList.{Node, node, Heap, write, set_next}
use cbasis.LinkedList.Lists.{head_or, elem, Apart}

abbrev pub next_at : Heap → ℕ → Option ℕ
next_at h a = h a >>= λ n. some n.next

-- The nodes of `xs` lead from one to the next, and the last to `stop`.
abbrev pub Nexts : Heap → List ℕ → ℕ → Type 0
Nexts h [] stop = Unit {0}
Nexts h (x ∷ xs) stop = (next_at h x ≡ some (head_or stop xs)) × Nexts h xs stop

pub Nexts-write :
    (h : Heap) (xs : List ℕ) (stop p : ℕ) (n : Node)
    → elem p xs ≡ false
    → Nexts h xs stop
    → Nexts (write h p n) xs stop
unfolding write
Nexts-write h [] s p n out c = tt
Nexts-write h (x ∷ xs) s p n out c = ground (arith, Nexts-write h xs s p n)

pub Nexts-parts :
    (h : Heap) (xs ys : List ℕ) (s : ℕ)
    → Nexts h (xs ++ ys) s
    → Nexts h xs (head_or s ys) × Nexts h ys s
Nexts-parts h [] ys s c = (tt, c)
Nexts-parts h (x ∷ []) ys s c = ((c.0, tt), c.1)
Nexts-parts h (x ∷ y ∷ xs) ys s c = let r = Nexts-parts h (y ∷ xs) ys s c.1 in ((c.0, r.0), r.1)

pub Nexts-append :
    (h : Heap) (xs ys : List ℕ) (s : ℕ)
    → Nexts h xs (head_or s ys)
    → Nexts h ys s
    → Nexts h (xs ++ ys) s
Nexts-append h [] ys s l r = r
Nexts-append h (x ∷ []) ys s l r = (l.0, r)
Nexts-append h (x ∷ y ∷ xs) ys s l r = (l.0, Nexts-append h (y ∷ xs) ys s l.1 r)

pub Apart-single : (xs : List ℕ) (q : ℕ) → elem q xs ≡ false → Apart xs (q ∷ [])
Apart-single [] q o = tt
Apart-single (x ∷ xs) q o = (ground arith, Apart-single xs q (ground arith))

pub ne_test : (a b : ℕ) → a ≢ b → (a == b) ≡ false
ne_test a b ne = ground arith

-- A node whose `next` is set.
pub record Linked (h : Heap) (p q : ℕ) : Type 0 where
  pub old : Node
  pub run : set_next h p q ≡ some (write h p (node q old.prev))

pub link_node : (h : Heap) (p q : ℕ) (n : Node) → h p ≡ some n → Linked h p q
unfolding set_next
link_node h p q n e = record { old = n; run = rw e }

pub node_at :
    (h : Heap) (p : ℕ) {q : ℕ} → next_at h p ≡ some q → (n : Node) × (h p ≡ some n) × (n.next ≡ q)
node_at h p e = found (h p) e
  where
    found :
        {r : ℕ} (o : Option Node)
        → (o >>= λ n. some n.next) ≡ some r
        → (n : Node) × (o ≡ some n) × (n.next ≡ r)
    found none c = cc
    found (some n) c = (n, refl, cc)
