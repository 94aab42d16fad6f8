-- ===== src/Hash/Multiset.antt =====
-- hash_insert and hash_find_or_insert as operations on the multiset of the entries.
use cbasis.Base.{
  ℕ, ◌+◌, ◌*◌, ◌^◌, ◌<◌, ◌≤◌, ◌≡◌, ◌≢◌, ◌⊎◌, ◌∙◌, sym, ap, subst, Bool, true, false, inl, inr, ◌==◌,
  List, some, arith,
}
use cbasis.Hash.Table.{Entry, Hash}
use cbasis.Hash.Rehash.{hash_reserve}
use cbasis.Hash.Update.{Inserted, hash_insert, hash_find_or_insert, insert_reserved}
use cbasis.Hash.Count.{entry_at, is_used, to_ℕ}
use cbasis.Hash.Content.{holds, select, tally_none}
use cbasis.Hash.Valid.{IsValid}
use cbasis.Hash.Insert.{entry, Added, insert_only_sound, find_or_insert_sound}
use cbasis.Hash.Reserve.{Usable, Reserved, valid-Usable, hash_reserve_sound}

-- `r` is the result of adding the entry to `t`.
pub record Grown (k : ℕ) (t : Hash) (hash value : ℕ) (r : Inserted) : Type 0 where
  pub valid : IsValid k r.table
  pub usable : Usable r.table
  pub inserted : r.inserted ≡ true
  pub added : entry_at r.table.entries r.index ≡ record { hash = hash; value = value }
  pub counted : r.table.count ≡ t.count + 1
  pub same_empty : r.table.empty_value ≡ t.empty_value
  pub content :
      (p : Entry → Bool)
      → holds t.empty_value r.table.entries p
        ≡ holds t.empty_value t.entries p + to_ℕ (p (record { hash = hash; value = value }))

-- `r` is the result of finding an entry of `t`.
pub record FoundIn (k : ℕ) (t : Hash) (hash : ℕ) (r : Inserted) : Type 0 where
  pub valid : IsValid k r.table
  pub usable : Usable r.table
  pub not_inserted : r.inserted ≡ false
  pub in_range : r.index < 2 ^ k
  pub used : is_used t.empty_value (entry_at r.table.entries r.index) ≡ true
  pub same_hash : (entry_at r.table.entries r.index).hash ≡ hash
  pub counted : r.table.count ≡ t.count
  pub same_empty : r.table.empty_value ≡ t.empty_value
  pub content :
      (p : Entry → Bool) → holds t.empty_value r.table.entries p ≡ holds t.empty_value t.entries p

Added-Grown :
    {k k' n : ℕ} {t t' : Hash} {hash value : ℕ} {r : Inserted}
    → t.has_allocator ≡ true
    → Reserved k' n t t'
    → r.inserted ≡ true
    → Added k t' r.index hash value r.table
    → Grown k t hash value r
Added-Grown {t = t} {t' = t'} {hash = hash} {value = value} {r = r} can s yes_inserted a = record {
  valid = a.valid;
  usable = valid-Usable a.valid (a.same_allocator ∙ (s.same_allocator ∙ can));
  inserted = yes_inserted;
  added = a.added;
  counted = omega (arith, a.counted, s.same_count);
  same_empty = a.same_empty ∙ s.same_empty;
  content = λ p.
      subst
        (λ x.
          holds x r.table.entries p ≡ holds t.empty_value t.entries p + to_ℕ (p (entry hash value)))
        s.same_empty
        (a.content p
          ∙ ap (λ n. n + to_ℕ (p (entry hash value)))
              (ap (λ x. holds x t'.entries p) s.same_empty ∙ s.content p));
}

found-FoundIn :
    {k n : ℕ} {t t' : Hash} {hash : ℕ} {r : Inserted}
    → t.has_allocator ≡ true
    → Reserved k n t t'
    → r.inserted ≡ false
    → r.table ≡ t'
    → r.index < 2 ^ k
    → is_used t'.empty_value (entry_at t'.entries r.index) ≡ true
    → (entry_at t'.entries r.index).hash ≡ hash
    → FoundIn k t hash r
found-FoundIn {k = k} {t = t} {t' = t'} {r = r} can s not_inserted same lt used equal = record {
  valid = subst (λ x. IsValid k x) (sym same) s.valid;
  usable = subst (λ x. Usable x) (sym same) (valid-Usable s.valid (s.same_allocator ∙ can));
  not_inserted = not_inserted;
  in_range = lt;
  used =
      ap (λ x. is_used t.empty_value (entry_at x.entries r.index)) same
      ∙ (ap (λ x. is_used x (entry_at t'.entries r.index)) (sym s.same_empty) ∙ used);
  same_hash = ap (λ x. (entry_at x.entries r.index).hash) same ∙ equal;
  counted = ap (λ x. x.count) same ∙ s.same_count;
  same_empty = ap (λ x. x.empty_value) same ∙ s.same_empty;
  content = λ p. ap (λ x. holds t.empty_value x.entries p) same ∙ s.content p;
}

whole_run :
    (alloc : ℕ → List Entry) (t t' : Hash) (hash value : ℕ) (only : Bool) (r : Inserted)
    → hash_reserve alloc t (t.count + 1) ≡ some t'
    → insert_reserved t' hash value only ≡ some r
    → hash_find_or_insert alloc t hash value only ≡ some r
unfolding hash_find_or_insert
whole_run alloc t t' hash value only r run then_run = ground (arith, run, then_run)

-- hash_insert of a value that is neither the empty one nor the removed one, on a table that is valid
-- or has no entries yet, with fewer than 3 * 2 ^ 28 entries and gravestones: it returns, growing the
-- table where it must, the new table is valid and can be used again, it holds the entries that it held and the new one,
-- each as often as before, and the index returned is that of the new entry.
pub hash_insert_sound :
    (alloc : ℕ → List Entry) (t : Hash) (hash value : ℕ)
    → Usable t
    → t.count + t.gravestone_count + 1 ≤ 3 * 2 ^ 28
    → value < 2 ^ 64
    → is_used t.empty_value (record { hash = hash; value = value }) ≡ true
    → (k : ℕ) × (r : Inserted) × (hash_insert alloc t hash value ≡ some r) × Grown k t hash value r
unfolding hash_insert
hash_insert_sound alloc t hash value u few small used =
    let (k, t', run, s) =
      hash_reserve_sound alloc t (t.count + 1) u (omega arith) (omega arith) (omega arith) in
    let (r, then_run, yes_inserted, a) =
      insert_only_sound k t' hash value s.valid small
        (ap (λ x. is_used x (entry hash value)) s.same_empty ∙ used)
        (omega (arith, s.room, s.same_count)) in
    (
      k,
      r,
      whole_run alloc t t' hash value true r run then_run,
      Added-Grown {r = r} u.can_allocate s yes_inserted a,
    )

absent-holds :
    {k' n : ℕ} {t t' : Hash} (hash : ℕ)
    → Reserved k' n t t'
    → ((i : ℕ)
        → i < 2 ^ k'
        → is_used t'.empty_value (entry_at t'.entries i) ≡ true
        → (entry_at t'.entries i).hash ≢ hash)
    → holds t.empty_value t.entries (λ e. e.hash == hash) ≡ 0
absent-holds {t = t} {t' = t'} hash s absent =
    sym (ap (λ x. holds x t'.entries (λ e. e.hash == hash)) s.same_empty ∙ s.content _)
    ∙ tally_none (select t'.empty_value (λ e. e.hash == hash)) t'.entries
        (λ i lt. ground (arith, absent i (omega (arith, s.valid.width))))

-- _hash_find_or_insert without insert_only, under the conditions of hash_insert: it returns; either
-- the table held no entry with the hash, and the result is that of hash_insert, or the table holds
-- the same entries as before, is valid and can be used again, and the index returned is that of a used entry with the hash.
pub hash_find_or_insert_sound :
    (alloc : ℕ → List Entry) (t : Hash) (hash value : ℕ)
    → Usable t
    → t.count + t.gravestone_count + 1 ≤ 3 * 2 ^ 28
    → value < 2 ^ 64
    → is_used t.empty_value (record { hash = hash; value = value }) ≡ true
    → (k : ℕ) × (r : Inserted) × (hash_find_or_insert alloc t hash value false ≡ some r)
      × (((holds t.empty_value t.entries (λ e. e.hash == hash) ≡ 0) × Grown k t hash value r)
          ⊎ FoundIn k t hash r)
hash_find_or_insert_sound alloc t hash value u few small used =
    let (k, t', run, s) =
      hash_reserve_sound alloc t (t.count + 1) u (omega arith) (omega arith) (omega arith) in
    let (r, then_run, out) =
      find_or_insert_sound k t' hash value s.valid small
        (ap (λ x. is_used x (entry hash value)) s.same_empty ∙ used)
        (omega (arith, s.room, s.same_count)) in
    (
      k,
      r,
      whole_run alloc t t' hash value false r run then_run,
      elim out [
        | inl (yes_inserted, a, absent) ↦
            inl (absent-holds hash s absent, Added-Grown {r = r} u.can_allocate s yes_inserted a)
        | inr (not_inserted, same, lt, r_used, r_hash) ↦
            inr (found-FoundIn {r = r} u.can_allocate s not_inserted same lt r_used r_hash)
      ],
    )
