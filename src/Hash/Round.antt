-- ===== src/Hash/Round.antt =====
-- What one round of hash_remove_with_hash leaves to the next.
use cbasis.Base.{
  ℕ, ◌+◌, ◌^◌, ◌<◌, ◌≤◌, ◌≡◌, ◌≢◌, ◌⊎◌, inl, ◌∙◌, sym, ap, subst, true, false, set, some, arith,
}
use native.Mathlib.Decide.{ℕ_discrete, dec_lt}
use cbasis.Probe.{probe}
use cbasis.Hash.Table.{Hash, HashIter, hash_find_next}
use cbasis.Hash.Count.{entry_at, is_empty, is_used}
use cbasis.Hash.Valid.{IsValid}
use cbasis.Hash.Search.{Stops, loop-Stops}
use cbasis.Hash.Find.{empty_unused}
use cbasis.Hash.Change.{at_self, at_other}
use cbasis.Hash.Remove.{without, gravestone, gravestone_full, gravestone_unused, used_elsewhere}

-- `t'` is `t` without the entries that have the hash.
pub record Cleared (k : ℕ) (hash : ℕ) (t t' : Hash) : Type 0 where
  pub valid : IsValid k t'
  pub same_empty : t'.empty_value ≡ t.empty_value
  pub none_left :
      (i : ℕ)
      → i < 2 ^ k
      → is_used t.empty_value (entry_at t'.entries i) ≡ true
      → (entry_at t'.entries i).hash ≢ hash
  pub kept :
      (i : ℕ) → (entry_at t.entries i).hash ≢ hash → entry_at t'.entries i ≡ entry_at t.entries i
  pub not_added :
      (i : ℕ)
      → is_used t.empty_value (entry_at t'.entries i) ≡ true
      → entry_at t'.entries i ≡ entry_at t.entries i

abbrev pub Over : ℕ → Hash → ℕ → ℕ → Type 0
Over k t hash j =
    (is_empty t.empty_value (entry_at t.entries (probe k hash j)) ≡ false)
    × ((is_used t.empty_value (entry_at t.entries (probe k hash j)) ≡ false)
        ⊎ ((entry_at t.entries (probe k hash j)).hash ≢ hash))

-- A search that stopped from step `n` on, all steps before `n` being passed over too.
unfoldable pub from_start :
    {k : ℕ} {t : Hash} {hash n last : ℕ} {it : HashIter}
    → ((j : ℕ) → j < n → Over k t hash j)
    → Stops k t hash n last it
    → Stops k t hash 0 last it
from_start {n = n} over s = record {
  steps = s.steps;
  from = omega arith;
  upto = s.upto;
  index_is = s.index_is;
  iter_is = s.iter_is;
  ends = s.ends;
  passed = λ j p q. elim (dec_lt j n) [
    | yes before ↦ over j before
    | no after ↦ s.passed j (omega arith) q
  ];
}

module _ {k : ℕ} {t : Hash} (v : IsValid k t) (hash : ℕ) where
  -- The call of `_hash_find_next` in the loop, at step `n`.
  pub next-Stops :
      (n last : ℕ)
      → 0 < t.count
      → n ≤ last
      → last < 2 ^ k
      → is_empty t.empty_value (entry_at t.entries (probe k hash last)) ≡ true
      → (it : HashIter) × (hash_find_next t hash (probe k hash n) (n + 1) ≡ some it)
        × Stops k t hash n last it
  unfolding hash_find_next
  next-Stops n last pos le small e =
      let (it, run, s) =
        loop-Stops v hash (t.capacity + 1) n last le (omega (arith, v.capacity_is)) small e in
      (it, ground (arith, run), s)

  module _ (i : ℕ) (lt : i < 2 ^ k)
      (used : is_used t.empty_value (entry_at t.entries i) ≡ true) where
    -- What was passed over still is when an entry is removed.
    pub still-Over : (j : ℕ) → Over k t hash j → Over k (without t i) hash j
    still-Over j over = elim (ℕ_discrete i (probe k hash j)) [
      | yes same ↦
          subst
            (λ s.
              (is_empty t.empty_value (entry_at (set t.entries i (gravestone t i)) s) ≡ false)
              × ((is_used t.empty_value (entry_at (set t.entries i (gravestone t i)) s) ≡ false)
                  ⊎ ((entry_at (set t.entries i (gravestone t i)) s).hash ≢ hash)))
            same
            (
              ap (λ e. is_empty t.empty_value e) (at_self v i lt (gravestone t i))
                  ∙ gravestone_full v i lt used,
              inl (
                  ap (λ e. is_used t.empty_value e) (at_self v i lt (gravestone t i))
                  ∙ gravestone_unused v i lt used),
            )
      | no other ↦
          subst
            (λ e.
              (is_empty t.empty_value e ≡ false)
              × ((is_used t.empty_value e ≡ false) ⊎ (e.hash ≢ hash)))
            (sym (at_other v i lt (gravestone t i) (probe k hash j) other)) over
    ]

    pub still_empty :
        (s : ℕ)
        → is_empty t.empty_value (entry_at t.entries s) ≡ true
        → is_empty t.empty_value (entry_at (set t.entries i (gravestone t i)) s) ≡ true
    still_empty s e =
        ap (λ x. is_empty t.empty_value x)
          (at_other v i lt (gravestone t i) s (λ same.
            empty_unused t.empty_value (entry_at t.entries s) e
              (ap (λ n. is_used t.empty_value (entry_at t.entries n)) (sym same) ∙ used)))
        ∙ e

    -- Removing an entry with the hash, and then the rest.
    pub rest-Cleared :
        {t' : Hash}
        → (entry_at t.entries i).hash ≡ hash
        → Cleared k hash (without t i) t'
        → Cleared k hash t t'
    rest-Cleared same c = record {
      valid = c.valid;
      same_empty = c.same_empty;
      none_left = c.none_left;
      kept = λ j other.
          let ne : i ≢ j = λ eq. other (ap (λ n. (entry_at t.entries n).hash) (sym eq) ∙ same) in
          let at = at_other v i lt (gravestone t i) j ne in
          c.kept j (λ h. other (ap (λ e. e.hash) (sym at) ∙ h)) ∙ at;
      not_added = λ j u.
          let before = c.not_added j u in
          let ne =
            used_elsewhere v i lt used j (ap (λ e. is_used t.empty_value e) (sym before) ∙ u) in
          before ∙ at_other v i lt (gravestone t i) j ne;
    }
