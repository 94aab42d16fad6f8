-- ===== src/LinkedList.antt =====
-- list.h: intrusive linked lists. Nodes stand at addresses; a node that is read or written at an
-- address that holds none is `none`, and so is a failed assertion. `null` is the value that the
-- macros take for nil, and `debug` tells whether LIST_DEBUB is on. Chains and lists use no `prev`.
mod Lists
mod Seg
pub mod Nexts
pub mod Single
mod Insert
mod Remove
pub mod Ops
pub mod Commands
mod Tests
use cbasis.Base.{
  ℕ, Bool, true, false, not, ◌==◌, if◌then◌else◌, Option, none, some, ◌>>=◌, ◌>>◌, require,
}

pub record Node : Type 0 where
  pub next : ℕ
  pub prev : ℕ

abbrev pub node : ℕ → ℕ → Node
node next prev = record { next = next; prev = prev }

abbrev pub Heap : Type 0
Heap = ℕ → Option Node

unfoldable pub write : Heap → ℕ → Node → Heap
write h p n a = if a == p then some n else h a

-- `p->next = q`
unfoldable pub set_next : Heap → ℕ → ℕ → Option Heap
set_next h p q = do n ← h p; some (write h p (node q n.prev))

-- `p->prev = q`
unfoldable pub set_prev : Heap → ℕ → ℕ → Option Heap
set_prev h p q = do n ← h p; some (write h p (node n.next q))

pub record Handle : Type 0 where
  pub first : ℕ
  pub last : ℕ

abbrev pub handle : ℕ → ℕ → Handle
handle first last = record { first = first; last = last }

module _ (null : ℕ) where
  -- ((first) == NULL) == ((last) == NULL)
  unfoldable pub both_or_none : Handle → Bool
  both_or_none l = if l.first == null then l.last == null else not (l.last == null)

  unfoldable pub chain_push : Heap → ℕ → ℕ → Option (Heap × ℕ)
  chain_push h first p = do require (not (p == null)); g ← set_next h p first; some (g, p)

  unfoldable pub chain_pop : Heap → ℕ → Option ℕ
  chain_pop h first = if first == null then some first else (do n ← h first; some n.next)

  unfoldable pub list_push : Heap → Handle → ℕ → Option (Heap × Handle)
  list_push h l p = do
    require (not (p == null))
    n ← h p
    require (n.next == null)
    require (both_or_none l)
    if l.first == null
        then (do g ← set_next h p null; some (g, handle p p))
        else (do g ← set_next h l.last p; g' ← set_next g p null; some (g', handle l.first p))

  -- The comma stands outside the conditional, so that `first` is assigned in both cases.
  unfoldable pub list_push_front : Heap → Handle → ℕ → Option (Heap × Handle)
  list_push_front h l p = do
    require (not (p == null))
    require (both_or_none l)
    let linked : Option (Heap × Handle) =
        if l.first == null
        then (do g ← set_next h p null; some (g, handle p p))
        else (do g ← set_next h p l.first; some (g, l))
    r ← linked
    some (r.0, handle p r.1.last)

  unfoldable pub list_pop : Heap → Handle → Option Handle
  list_pop h l = do
    require (both_or_none l)
    if l.first == l.last
        then some (handle null null)
        else (do n ← h l.first; some (handle n.next l.last))

  -- The two conjuncts of `_is_properly_linked`.
  unfoldable pub linked_next : Heap → ℕ → Option Bool
  linked_next h p =
      if p == null
      then some true
      else (do n ← h p; if n.next == null then some true else (do m ← h n.next; some (m.prev == p)))

  unfoldable pub linked_prev : Heap → ℕ → Option Bool
  linked_prev h p =
      if p == null
      then some true
      else (do n ← h p; if n.prev == null then some true else (do m ← h n.prev; some (m.next == p)))

  unfoldable pub insert_into_empty : Heap → ℕ → Option (Heap × Handle)
  insert_into_empty h p = do g ← set_next h p null; g' ← set_prev g p null; some (g', handle p p)

  unfoldable pub insert_front : Heap → Handle → ℕ → Option (Heap × Handle)
  insert_front h l p = do
    g ← set_prev h p null
    g' ← set_next g p l.first
    g'' ← if l.first == null then some g' else set_prev g' l.first p
    some (g'', handle p l.last)

  unfoldable pub insert_behind : Heap → Handle → ℕ → ℕ → Option (Heap × Handle)
  insert_behind h l after p = do
    a ← h after
    g ← if a.next == null then some h else set_prev h a.next p
    a' ← g after
    g' ← set_next g p a'.next
    g'' ← set_prev g' p after
    g''' ← set_next g'' after p
    some (g''', handle l.first (if after == l.last then p else l.last))

  unfoldable pub remove_first : Heap → Handle → Option (Heap × Handle)
  remove_first h l = do
    n ← h l.first
    if n.next == null
        then some (h, handle n.next null)
        else (do g ← set_prev h n.next null; some (g, handle n.next l.last))

  unfoldable pub remove_last : Heap → Handle → Option (Heap × Handle)
  remove_last h l = do
    n ← h l.last
    if n.prev == null
        then some (h, handle null n.prev)
        else (do g ← set_next h n.prev null; some (g, handle l.first n.prev))

  unfoldable pub remove_between : Heap → Handle → ℕ → Option (Heap × Handle)
  remove_between h l p = do
    n ← h p
    g ← if n.next == null then some h else set_prev h n.next n.prev
    n' ← g p
    g' ← if n'.prev == null then some g else set_next g n'.prev n'.next
    some (g', l)

  module _ (debug : Bool) where
    -- `_is_properly_linked` in an assertion.
    unfoldable pub require_linked : Heap → ℕ → Option (Unit {0})
    require_linked h p =
        if debug
        then (do a ← linked_next h p; require a; b ← linked_prev h p; require b)
        else some tt

    -- The assertion of bilist_insert_nil_cond and bilist_remove_nil, where `at` is `after` or `node`.
    unfoldable pub require_valid : Heap → Handle → ℕ → ℕ → Option (Unit {0})
    require_valid h l p at = do
      require (not (p == null))
      require (both_or_none l)
      require_linked h at
      require_linked h l.first
      require_linked h l.last

    unfoldable pub bilist_insert_cond : Heap → Handle → ℕ → Bool → ℕ → Option (Heap × Handle)
    bilist_insert_cond h l after insert_first p = do
      require_valid h l p after
      if l.first == null
          then insert_into_empty h p
          else if insert_first
          then insert_front h l p
          else insert_behind h l after p

    unfoldable pub bilist_insert : Heap → Handle → ℕ → ℕ → Option (Heap × Handle)
    bilist_insert h l after p = bilist_insert_cond h l after (after == null) p

    unfoldable pub bilist_push_back : Heap → Handle → ℕ → Option (Heap × Handle)
    bilist_push_back h l p = bilist_insert_cond h l l.last false p

    unfoldable pub bilist_push_front : Heap → Handle → ℕ → Option (Heap × Handle)
    bilist_push_front h l p = bilist_insert_cond h l l.last true p

    unfoldable pub bilist_remove : Heap → Handle → ℕ → Option (Heap × Handle)
    bilist_remove h l p = do
      require_valid h l p p
      if l.first == p
          then remove_first h l
          else if l.last == p
          then remove_last h l
          else remove_between h l p

    -- The result is whether a node was removed.
    unfoldable pub bilist_pop_back : Heap → Handle → Option ((Heap × Handle) × Bool)
    bilist_pop_back h l =
        if l.last == null
        then some ((h, l), false)
        else (do r ← bilist_remove h l l.last; some (r, true))

    unfoldable pub bilist_pop_front : Heap → Handle → Option ((Heap × Handle) × Bool)
    bilist_pop_front h l =
        if l.first == null
        then some ((h, l), false)
        else (do r ← bilist_remove h l l.first; some (r, true))
