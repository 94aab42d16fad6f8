-- ===== src/Hash/Set.antt =====
-- hash_set: the value of an entry with the hash is replaced, or the entry is added.
use cbasis.Base.{
  ℕ, ◌+◌, ◌*◌, ◌^◌, ◌<◌, ◌≤◌, ◌≡◌, ◌⊎◌, ◌∙◌, sym, ap, ap₂, refl, subst, Bool, true, false, inl, inr,
  ◌==◌, List, set, length-set, store-set, store, load, some, arith,
}
use native.Mathlib.Decide.{ℕ_discrete}
use cbasis.Probe.{probe}
use cbasis.Hash.Table.{Entry, Hash}
use cbasis.Hash.Update.{Inserted, hash_set, hash_find_or_insert}
use cbasis.Hash.Count.{entry_at, is_used, is_empty, is_removed, tally-set, to_ℕ}
use cbasis.Hash.Content.{holds, select}
use cbasis.Hash.Valid.{IsValid, Reached, loads}
use cbasis.Hash.Change.{at_self, at_other, stays_full, keeps-Reached}
use cbasis.Hash.Reserve.{Usable}
use cbasis.Hash.Multiset.{Grown, FoundIn, hash_find_or_insert_sound}

abbrev pub revalued : Hash → ℕ → Entry → Hash
revalued t i e = record t { entries = set t.entries i e }

module _ {k : ℕ} {t : Hash} (v : IsValid k t) (i : ℕ) (lt : i < 2 ^ k) (e : Entry)
    (small : e.value < 2 ^ 64) (used : is_used t.empty_value e ≡ true)
    (was_used : is_used t.empty_value (entry_at t.entries i) ≡ true)
    (same_hash : (entry_at t.entries i).hash ≡ e.hash) where
  full : is_empty t.empty_value e ≡ false
  full = ground arith

  value_bound : (j : ℕ) → (entry_at (set t.entries i e) j).value < 2 ^ 64
  value_bound j = elim (ℕ_discrete i j) [
    | yes same ↦
        subst (λ n. (entry_at (set t.entries i e) n).value < 2 ^ 64) same
          (omega (arith, small, ap (λ x. x.value) (at_self v i lt e)))
    | no other ↦ omega (arith, ap (λ x. x.value) (at_other v i lt e j other), v.value_small j)
  ]

  at_self-Reached : Reached k t.empty_value (set t.entries i e) i
  at_self-Reached =
      let r = v.reached i lt was_used in
      let same : (entry_at (set t.entries i e) i).hash ≡ (entry_at t.entries i).hash =
        ap (λ x. x.hash) (at_self v i lt e) ∙ sym same_hash in
      record {
        steps = r.steps;
        steps_lt = r.steps_lt;
        arrives = ap (λ h. probe k h r.steps) same ∙ r.arrives;
        unbroken = λ j p.
            subst (λ h. is_empty t.empty_value (entry_at (set t.entries i e) (probe k h j)) ≡ false)
              (sym same) (stays_full v i lt e full _ (r.unbroken j p));
      }

  revalued-IsValid : IsValid k (revalued t i e)
  revalued-IsValid = record {
    width = length-set t.entries i e ∙ v.width;
    capacity_is = v.capacity_is;
    small = v.small;
    empty_small = v.empty_small;
    value_small = value_bound;
    used_count = ground (
      arith,
      tally-set (is_used t.empty_value) t.entries i e (omega (arith, v.width)),
      v.used_count,
    );
    removed_count = ground (
      arith,
      tally-set (is_removed t.empty_value) t.entries i e (omega (arith, v.width)),
      v.removed_count,
    );
    spare = v.spare;
    reached = λ s s_lt u. elim (ℕ_discrete i s) [
      | yes same ↦ subst (λ n. Reached k t.empty_value (set t.entries i e) n) same at_self-Reached
      | no other ↦ keeps-Reached v i lt e full s other (
          v.reached s s_lt
            (ap (λ x. is_used t.empty_value x) (sym (at_other v i lt e s other)) ∙ u))
    ];
  }

  holds-revalued :
      (p : Entry → Bool)
      → holds t.empty_value (set t.entries i e) p + to_ℕ (p (entry_at t.entries i))
        ≡ holds t.empty_value t.entries p + to_ℕ (p e)
  holds-revalued p =
      ground (arith, tally-set (select t.empty_value p) t.entries i e (omega (arith, v.width)))

-- `r` is the result of replacing the value of an entry with the hash.
pub record Replaced (k : ℕ) (t : Hash) (hash value : ℕ) (r : Inserted) : Type 0 where
  pub valid : IsValid k r.table
  pub not_inserted : r.inserted ≡ false
  pub placed : entry_at r.table.entries r.index ≡ record { hash = hash; value = value }
  pub counted : r.table.count ≡ t.count
  pub old : Entry
  pub old_hash : old.hash ≡ hash
  pub content :
      (p : Entry → Bool)
      → holds t.empty_value r.table.entries p + to_ℕ (p old)
        ≡ holds t.empty_value t.entries p + to_ℕ (p (record { hash = hash; value = value }))

abbrev new_entry : ℕ → ℕ → Entry
new_entry hash value = record { hash = hash; value = value }

set-inserted :
    (alloc : ℕ → List Entry) (t : Hash) (hash value : ℕ) (r : Inserted)
    → hash_find_or_insert alloc t hash value false ≡ some r
    → r.inserted ≡ true
    → hash_set alloc t hash value ≡ some r
unfolding hash_set
set-inserted alloc t hash value r run yes_inserted = ground (arith, run, yes_inserted)

set-found :
    (alloc : ℕ → List Entry) (t : Hash) (hash value : ℕ) (r : Inserted) (e : Entry)
    (es : List Entry)
    → hash_find_or_insert alloc t hash value false ≡ some r
    → r.inserted ≡ false
    → load r.table.entries r.index ≡ some e
    → store r.table.entries r.index (new_entry e.hash value) ≡ some es
    → hash_set alloc t hash value ≡ some (record r { table = record (r.table) { entries = es } })
unfolding hash_set
set-found alloc t hash value r e es run not_inserted at put =
    ground (arith, run, not_inserted, at, put)

found-Replaced :
    (alloc : ℕ → List Entry) (k : ℕ) (t : Hash) (hash value : ℕ) (r : Inserted)
    → value < 2 ^ 64
    → is_used t.empty_value (new_entry hash value) ≡ true
    → hash_find_or_insert alloc t hash value false ≡ some r
    → FoundIn k t hash r
    → (r' : Inserted) × (hash_set alloc t hash value ≡ some r') × Replaced k t hash value r'
found-Replaced alloc k t hash value r small used run f =
    let old = entry_at r.table.entries r.index in
    let new = new_entry old.hash value in
    let same_new : new ≡ new_entry hash value = ap (λ h. new_entry h value) f.same_hash in
    let new_used : is_used r.table.empty_value new ≡ true =
      ap (λ x. is_used x new) f.same_empty ∙ used in
    let old_used : is_used r.table.empty_value old ≡ true =
      ap (λ x. is_used x old) f.same_empty ∙ f.used in
    (
      record r { table = revalued r.table r.index new },
      set-found alloc t hash value r old (set r.table.entries r.index new) run f.not_inserted
          (loads f.valid r.index f.in_range)
          (store-set r.table.entries r.index new (omega (arith, f.in_range, f.valid.width))),
      record {
        valid = revalued-IsValid f.valid r.index f.in_range new small new_used old_used refl;
        not_inserted = f.not_inserted;
        placed = at_self f.valid r.index f.in_range new ∙ same_new;
        counted = f.counted;
        old = old;
        old_hash = f.same_hash;
        content = λ p.
            subst
              (λ x.
                holds x (set r.table.entries r.index new) p + to_ℕ (p old)
                ≡ holds t.empty_value t.entries p + to_ℕ (p (new_entry hash value)))
              f.same_empty
              (holds-revalued f.valid r.index f.in_range new small new_used old_used refl p
                ∙ (ap (λ x. holds x r.table.entries p + to_ℕ (p new)) f.same_empty
                    ∙ ap₂ ◌+◌ (f.content p) (ap (λ x. to_ℕ (p x)) same_new)));
      },
    )

-- hash_set, under the conditions of hash_insert: it returns; either the table held no entry with
-- the hash, and the result is that of hash_insert, or the value of one entry with the hash is
-- replaced: the new table is valid, has as many entries, and holds what it held but for that entry.
pub hash_set_sound :
    (alloc : ℕ → List Entry) (t : Hash) (hash value : ℕ)
    → Usable t
    → t.count + t.gravestone_count + 1 ≤ 3 * 2 ^ 28
    → value < 2 ^ 64
    → is_used t.empty_value (record { hash = hash; value = value }) ≡ true
    → (k : ℕ) × (r : Inserted) × (hash_set alloc t hash value ≡ some r)
      × (((holds t.empty_value t.entries (λ e. e.hash == hash) ≡ 0) × Grown k t hash value r)
          ⊎ Replaced k t hash value r)
hash_set_sound alloc t hash value u few small used =
    let (k, r, run, out) = hash_find_or_insert_sound alloc t hash value u few small used in
    elim out [
      | inl (none_before, g) ↦
          (k, r, set-inserted alloc t hash value r run g.inserted, inl (none_before, g))
      | inr f ↦
          let (r', set_run, replaced) = found-Replaced alloc k t hash value r small used run f in
          (k, r', set_run, inr replaced)
    ]
