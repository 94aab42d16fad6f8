-- ===== src/Hash/Insert.antt =====
-- _hash_find_or_insert after its reserve, in both of its modes.
use cbasis.Base.{
  ℕ, ◌+◌, ◌^◌, ◌<◌, ◌≡◌, ◌≢◌, ◌⊎◌, inl, inr, ◌∙◌, ap, refl, Bool, true, false, some, none, bit_and,
  arith,
}
use cbasis.Probe.{probe}
use cbasis.Probe.Cover.{probe-lt}
use cbasis.Hash.Table.{Entry, Hash, mask}
use cbasis.Hash.Update.{Slot, present, free, insert_loop, Inserted, finish_insert, insert_reserved}
use cbasis.Hash.Count.{entry_at, is_empty, is_used, to_ℕ}
use cbasis.Hash.Valid.{IsValid, meets_empty, mask_mod}
use cbasis.Hash.Search.{Stops}
use cbasis.Hash.Find.{absent}
use cbasis.Hash.Content.{holds, holds-set}
use cbasis.Hash.Change.{at_self, at_other}
use cbasis.Hash.Fill.{filled, value_ok, filled-IsValid, filled-Reached, fill_slot-filled}
use cbasis.Hash.InsertLoop.{only_loop}
use cbasis.Hash.SetLoop.{Ended, Outcome, set_loop}

abbrev pub entry : ℕ → ℕ → Entry
entry hash value = record { hash = hash; value = value }

-- `t'` is `t` with the entry at the slot `i`, which was not used.
pub record Added (k : ℕ) (t : Hash) (i hash value : ℕ) (t' : Hash) : Type 0 where
  pub valid : IsValid k t'
  pub in_range : i < 2 ^ k
  pub was_unused : is_used t.empty_value (entry_at t.entries i) ≡ false
  pub added : entry_at t'.entries i ≡ entry hash value
  pub others : (j : ℕ) → i ≢ j → entry_at t'.entries j ≡ entry_at t.entries j
  pub counted : t'.count ≡ t.count + 1
  pub same_empty : t'.empty_value ≡ t.empty_value
  pub same_allocator : t'.has_allocator ≡ t.has_allocator
  pub content :
      (p : Entry → Bool)
      → holds t.empty_value t'.entries p
        ≡ holds t.empty_value t.entries p + to_ℕ (p (entry hash value))

module _ {k : ℕ} {t : Hash} (v : IsValid k t) (hash value : ℕ) (small : value < 2 ^ 64)
    (used : is_used t.empty_value (entry hash value) ≡ true)
    (room : t.count + t.gravestone_count + 1 < 2 ^ k) where
  filled-Added :
      (n i : ℕ)
      → n < 2 ^ k
      → probe k hash n ≡ i
      → is_used t.empty_value (entry_at t.entries i) ≡ false
      → ((j : ℕ) → j < n → is_empty t.empty_value (entry_at t.entries (probe k hash j)) ≡ false)
      → Added k t i hash value (filled t i (entry hash value))
  filled-Added n i n_lt at unused full =
      let lt : i < 2 ^ k = omega (arith, at, probe-lt k hash n) in
      record {
        valid =
            filled-IsValid v i lt (entry hash value) small used unused room
              (filled-Reached v i lt (entry hash value) small used unused room n n_lt at full);
        in_range = lt;
        was_unused = unused;
        added = at_self v i lt (entry hash value);
        others = at_other v i lt (entry hash value);
        counted = refl;
        same_empty = refl;
        same_allocator = refl;
        content = λ p.
            holds-set t.empty_value t.entries i (entry hash value) p (omega (arith, v.width)) unused
              used;
      }

  -- The run, by where the loop stops.
  run-free :
      (only : Bool) (i : ℕ)
      → i < 2 ^ k
      → is_used t.empty_value (entry_at t.entries i) ≡ false
      → insert_loop (t.capacity + 1) t hash only (bit_and hash (mask t)) 1 none ≡ some (free i)
      → insert_reserved t hash value only
        ≡ some (record { inserted = true; index = i; table = filled t i (entry hash value) })
  unfolding insert_reserved finish_insert
  run-free only i lt unused run = ground (
    arith,
    value_ok t hash value v.empty_small small used,
    run,
    fill_slot-filled v i lt (entry hash value) small used unused room,
  )

  run-present :
      (i : ℕ)
      → insert_loop (t.capacity + 1) t hash false (bit_and hash (mask t)) 1 none ≡ some (present i)
      → insert_reserved t hash value false
        ≡ some (record { inserted = false; index = i; table = t })
  unfolding insert_reserved finish_insert
  run-present i run = ground (arith, value_ok t hash value v.empty_small small used, run)

  start_at :
      (only : Bool) (slot : Slot)
      → insert_loop (t.capacity + 1) t hash only (probe k hash 0) 1 none ≡ some slot
      → insert_loop (t.capacity + 1) t hash only (bit_and hash (mask t)) 1 none ≡ some slot
  unfolding probe
  start_at only slot run =
      ap (λ i. insert_loop (t.capacity + 1) t hash only i 1 none) (mask_mod v hash) ∙ run

-- With insert_only (hash_insert), when the table is valid, a slot stays empty behind the new entry
-- and the value is neither the empty one nor the removed one: the call returns, it reports an
-- insertion, the entry stands at the index returned, which was not used, every other slot is as
-- it was, and the table is valid again.
pub insert_only_sound :
    (k : ℕ) (t : Hash) (hash value : ℕ)
    → IsValid k t
    → value < 2 ^ 64
    → is_used t.empty_value (record { hash = hash; value = value }) ≡ true
    → t.count + t.gravestone_count + 1 < 2 ^ k
    → (r : Inserted) × (insert_reserved t hash value true ≡ some r)
      × (r.inserted ≡ true)
      × Added k t r.index hash value r.table
insert_only_sound k t hash value v small used room =
    let (last, last_lt, e) = meets_empty v hash in
    let (m, run, m_lt, unused, full) =
      only_loop v hash (t.capacity + 1) 0 last (omega arith) (omega (arith, v.capacity_is)) last_lt
        e (λ j p. absurd (omega arith)) in
    (
      record {
        inserted = true;
        index = probe k hash m;
        table = filled t (probe k hash m) (entry hash value);
      },
      run-free v hash value small used room true (probe k hash m) (probe-lt k hash m) unused
          (start_at v hash value small used room true (free (probe k hash m)) run),
      refl,
      filled-Added v hash value small used room m (probe k hash m) m_lt refl unused full,
    )

-- What _hash_find_or_insert returns without insert_only.
abbrev pub FoundOrAdded : ℕ → Hash → ℕ → ℕ → Inserted → Type 0
FoundOrAdded k t hash value r =
    ((r.inserted ≡ true)
      × Added k t r.index hash value r.table
      × ((i : ℕ)
          → i < 2 ^ k
          → is_used t.empty_value (entry_at t.entries i) ≡ true
          → (entry_at t.entries i).hash ≢ hash))
    ⊎ ((r.inserted ≡ false)
        × (r.table ≡ t)
        × (r.index < 2 ^ k)
        × (is_used t.empty_value (entry_at t.entries r.index) ≡ true)
        × ((entry_at t.entries r.index).hash ≡ hash))

-- A probe that ends has no used entry with the hash.
Ended-absent :
    {k : ℕ} {t : Hash} {hash n : ℕ}
    → IsValid k t
    → Ended k t hash n
    → (i : ℕ) → i < 2 ^ k
    → is_used t.empty_value (entry_at t.entries i) ≡ true
    → (entry_at t.entries i).hash ≢ hash
Ended-absent {k = k} {t = t} {hash = hash} v s =
    let stop : Stops k t hash 0 s.stop
        (record { found = false; index = probe k hash s.stop; iter = s.stop + 1 }) =
      record {
        steps = s.stop;
        from = omega arith;
        upto = omega arith;
        index_is = refl;
        iter_is = refl;
        ends = inr (refl, s.at_empty);
        passed = λ j p q. s.over j q;
      } in
    absent v stop s.at_empty

by_slot :
    {k : ℕ} {t : Hash} (v : IsValid k t) (hash value : ℕ)
    → value < 2 ^ 64
    → is_used t.empty_value (entry hash value) ≡ true
    → t.count + t.gravestone_count + 1 < 2 ^ k
    → (slot : Slot)
    → insert_loop (t.capacity + 1) t hash false (bit_and hash (mask t)) 1 none ≡ some slot
    → Outcome k t hash slot
    → (r : Inserted) × (insert_reserved t hash value false ≡ some r) × FoundOrAdded k t hash value r
by_slot {t = t} v hash value small used room (present i) run out = (
  record { inserted = false; index = i; table = t },
  run-present v hash value small used room i run,
  inr (refl, refl, out.0, out.1, out.2),
)
by_slot {k = k} {t = t} v hash value small used room (free i) run (m, w, s) = (
  record { inserted = true; index = i; table = filled t i (entry hash value) },
  run-free v hash value small used room false i (omega (arith, w.arrives, probe-lt k hash w.steps))
      w.unused run,
  inl (
    refl,
    filled-Added v hash value small used room w.steps i
        (omega (arith, w.steps_lt, s.from, s.stop_lt)) w.arrives w.unused
        (λ j p. (s.over j (omega (arith, w.steps_lt, s.from))).0),
    Ended-absent v s,
  ),
)

-- Without insert_only (hash_find_or_insert, hash_set), under the same conditions: the call
-- returns; either it inserts, as with insert_only, and then no used entry had the hash, or it
-- changes nothing and returns the index of a used entry with the hash.
pub find_or_insert_sound :
    (k : ℕ) (t : Hash) (hash value : ℕ)
    → IsValid k t
    → value < 2 ^ 64
    → is_used t.empty_value (record { hash = hash; value = value }) ≡ true
    → t.count + t.gravestone_count + 1 < 2 ^ k
    → (r : Inserted) × (insert_reserved t hash value false ≡ some r) × FoundOrAdded k t hash value r
find_or_insert_sound k t hash value v small used room =
    let (last, last_lt, e) = meets_empty v hash in
    let (slot, run, out) =
      set_loop v hash (t.capacity + 1) 0 last none (omega arith) (omega (arith, v.capacity_is))
        last_lt e tt (λ j p. absurd (omega arith)) in
    by_slot v hash value small used room slot (start_at v hash value small used room false slot run)
      out
