-- ===== src/Hash/Change.antt =====
-- Writing a full entry over a full slot of a table keeps every other entry within reach.
use cbasis.Base.{
  ℕ, ◌^◌, ◌<◌, ◌≡◌, ◌≢◌, ◌∙◌, sym, ap, subst, false, List, set, get_or-set_self, get_or-set_ne,
  arith,
}
use native.Mathlib.Decide.{ℕ_discrete}
use cbasis.Probe.{probe}
use cbasis.Hash.Table.{Entry, Hash}
use cbasis.Hash.Count.{entry_at, is_empty}
use cbasis.Hash.Valid.{IsValid, Reached}

module _ {k : ℕ} {t : Hash} (v : IsValid k t) (i : ℕ) (lt : i < 2 ^ k) (e : Entry) where
  abbrev changed : List Entry
  changed = set t.entries i e

  pub at_self : entry_at changed i ≡ e
  at_self = get_or-set_self t.entries i e _ (omega (arith, v.width))

  pub at_other : (j : ℕ) → i ≢ j → entry_at changed j ≡ entry_at t.entries j
  at_other j ne = get_or-set_ne t.entries i j e _ ne

  pub stays_full :
      is_empty t.empty_value e ≡ false
      → (j : ℕ) → is_empty t.empty_value (entry_at t.entries j) ≡ false
      → is_empty t.empty_value (entry_at changed j) ≡ false
  stays_full full j was = elim (ℕ_discrete i j) [
    | yes same ↦
        subst (λ n. is_empty t.empty_value (entry_at changed n) ≡ false) same
          (ap (λ x. is_empty t.empty_value x) at_self ∙ full)
    | no other ↦ ap (λ x. is_empty t.empty_value x) (at_other j other) ∙ was
  ]

  pub keeps-Reached :
      is_empty t.empty_value e ≡ false
      → (s : ℕ) → i ≢ s
      → Reached k t.empty_value t.entries s
      → Reached k t.empty_value changed s
  keeps-Reached full s ne r =
      let same : (entry_at changed s).hash ≡ (entry_at t.entries s).hash =
        ap (λ x. x.hash) (at_other s ne) in
      record {
        steps = r.steps;
        steps_lt = r.steps_lt;
        arrives = ap (λ h. probe k h r.steps) same ∙ r.arrives;
        unbroken = λ j p.
            subst (λ h. is_empty t.empty_value (entry_at changed (probe k h j)) ≡ false) (sym same)
              (stays_full full _ (r.unbroken j p));
      }
