-- ===== src/Hash/FindInserted.antt =====
-- hash_find after an insertion.
use cbasis.Base.{
  ℕ, ◌+◌, ◌^◌, ◌<◌, ◌≡◌, ◌⊎◌, inl, inr, ◌∙◌, sym, ap, ap₂, refl, subst, Bool, Bool-cases, true,
  false, some, arith,
}
use native.Mathlib.Decide.{ℕ_discrete}
use cbasis.Hash.Table.{Hash, HashIter, hash_find}
use cbasis.Hash.Update.{Inserted, insert_reserved}
use cbasis.Hash.Count.{entry_at, is_used}
use cbasis.Hash.Valid.{IsValid}
use cbasis.Hash.Find.{hash_find_total, hash_find_absent, hash_find_found}
use cbasis.Hash.Insert.{entry, Added, insert_only_sound, find_or_insert_sound}

-- A search of `t` for the hash finds a used entry with it.
record Hit (t : Hash) (hash : ℕ) (it : HashIter) : Type 0 where
  pub run : hash_find t hash ≡ some it
  pub found : it.found ≡ true
  pub in_range : it.index < t.capacity
  pub used : is_used t.empty_value (entry_at t.entries it.index) ≡ true
  pub hash_is : (entry_at t.entries it.index).hash ≡ hash

-- What is used in a valid table is found.
present-Hit :
    (k : ℕ) (t : Hash) (hash i : ℕ)
    → IsValid k t
    → i < 2 ^ k
    → is_used t.empty_value (entry_at t.entries i) ≡ true
    → (entry_at t.entries i).hash ≡ hash
    → (it : HashIter) × Hit t hash it
present-Hit k t hash i v lt used same =
    let (it, run) = hash_find_total k t hash v in
    elim (Bool-cases it.found) [
      | inl found ↦
          let (in_range, found_used, found_hash) = hash_find_found k t hash it v run found in
          (
            it,
            record {
              run = run;
              found = found;
              in_range = in_range;
              used = found_used;
              hash_is = found_hash;
            },
          )
      | inr lost ↦
          absurd
            (hash_find_absent k t hash it v run lost i (omega (arith, lt, v.capacity_is)) used same)
    ]

-- How a search for the hash relates to the insertion `r` of an entry before it: the search finds a
-- used entry with the hash; the slot of the insertion has the hash, and the value too if the entry is
-- new; what is found is that slot, or an entry that had the hash before.
pub record FindsInserted (t : Hash) (hash value : ℕ) (r : Inserted) (it : HashIter) : Type 0 where
  pub found : it.found ≡ true
  pub in_range : it.index < r.table.capacity
  pub used : is_used r.table.empty_value (entry_at r.table.entries it.index) ≡ true
  pub hash_is : (entry_at r.table.entries it.index).hash ≡ hash
  pub stands : (entry_at r.table.entries r.index).hash ≡ hash
  pub new : (r.inserted ≡ false) ⊎ (entry_at r.table.entries r.index ≡ entry hash value)
  pub which :
      (it.index ≡ r.index)
      ⊎ ((is_used t.empty_value (entry_at t.entries it.index) ≡ true)
          × ((entry_at t.entries it.index).hash ≡ hash))

Added-FindsInserted :
    (k : ℕ) (t : Hash) (hash value : ℕ) (r : Inserted)
    → is_used t.empty_value (entry hash value) ≡ true
    → Added k t r.index hash value r.table
    → (it : HashIter) × (hash_find r.table hash ≡ some it) × FindsInserted t hash value r it
Added-FindsInserted k t hash value r used a =
    let (it, h) =
      present-Hit k r.table hash r.index a.valid a.in_range
        (ap₂ (λ x e. is_used x e) a.same_empty a.added ∙ used) (ap (λ e. e.hash) a.added) in
    (
      it,
      h.run,
      record {
        found = h.found;
        in_range = h.in_range;
        used = h.used;
        hash_is = h.hash_is;
        stands = ap (λ e. e.hash) a.added;
        new = inr a.added;
        which = elim (ℕ_discrete it.index r.index) [
          | yes same ↦ inl same
          | no other ↦
              let as_before = a.others it.index (λ e. other (sym e)) in
              inr (
                ap₂ (λ x e. is_used x e) (sym a.same_empty) (sym as_before) ∙ h.used,
                ap (λ e. e.hash) (sym as_before) ∙ h.hash_is,
              )
        ];
      },
    )

present-FindsInserted :
    (k : ℕ) (t : Hash) (hash value i : ℕ)
    → IsValid k t
    → i < 2 ^ k
    → is_used t.empty_value (entry_at t.entries i) ≡ true
    → (entry_at t.entries i).hash ≡ hash
    → (it : HashIter) × (hash_find t hash ≡ some it)
      × FindsInserted t hash value (record { inserted = false; index = i; table = t }) it
present-FindsInserted k t hash value i v lt used same =
    let (it, h) = present-Hit k t hash i v lt used same in
    (
      it,
      h.run,
      record {
        found = h.found;
        in_range = h.in_range;
        used = h.used;
        hash_is = h.hash_is;
        stands = same;
        new = inl refl;
        which = inr (h.used, h.hash_is);
      },
    )

-- What was inserted is found: in a valid table, with a 64-bit value that is neither the empty one nor the
-- removed one and a slot that stays empty, the insertion in either mode returns, and hash_find of the
-- hash in the table that it leaves returns and finds a used entry with the hash. The slot that the
-- insertion returns has the hash, and holds the value too where it reports a new entry. The entry found
-- is the one in that slot, or one that had the hash before.
pub find-insert_reserved :
    (k : ℕ) (t : Hash) (hash value : ℕ) (only : Bool)
    → IsValid k t
    → value < 2 ^ 64
    → is_used t.empty_value (record { hash = hash; value = value }) ≡ true
    → t.count + t.gravestone_count + 1 < 2 ^ k
    → (r : Inserted) × (it : HashIter) × (insert_reserved t hash value only ≡ some r)
      × (hash_find r.table hash ≡ some it)
      × FindsInserted t hash value r it
find-insert_reserved k t hash value true v small used room =
    let (r, run, yes_inserted, a) = insert_only_sound k t hash value v small used room in
    let (it, at, found) = Added-FindsInserted k t hash value r used a in (r, it, run, at, found)
find-insert_reserved k t hash value false v small used room =
    let (r, run, out) = find_or_insert_sound k t hash value v small used room in
    elim out [
      | inl (i, a, none_before) ↦
          let (it, at, found) = Added-FindsInserted k t hash value r used a in
          (r, it, run, at, found)
      | inr (i, same, lt, u, h) ↦
          let (it, at, found) = present-FindsInserted k t hash value r.index v lt u h in
          let is_r : record { inserted = false; index = r.index; table = t } ≡ r = cc (i, same) in
          (
            r,
            it,
            run,
            ap (λ t'. hash_find t' hash) same ∙ at,
            subst (λ r'. FindsInserted t hash value r' it) is_r found,
          )
    ]
