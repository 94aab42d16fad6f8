-- ===== src/Hash/Count.antt =====
-- Counting the entries of a table of hash.h by their kind: empty, removed, used.
use cbasis.Base.{
  ℕ, zero, suc, ◌+◌, ◌-◌, ◌%◌, ◌^◌, ◌<◌, ◌≡◌, inl, inr, Bool, true, false, ltb, ◌==◌, Bool-cases,
  List, [], ◌∷◌, length, get_or, set, arith,
}
use cbasis.Hash.Table.{Entry}

abbrev pub blank : Entry
blank = record { hash = 0; value = 0 }

abbrev pub entry_at : List Entry → ℕ → Entry
entry_at es i = get_or es i blank

-- `entry.value - empty_value` in 64 bits: 0 is empty, 1 removed, and more is used.
abbrev pub kind : ℕ → Entry → ℕ
kind empty_value e = (e.value + 2 ^ 64 - empty_value) % 2 ^ 64

abbrev pub is_empty : ℕ → Entry → Bool
is_empty v e = kind v e == 0

abbrev pub is_removed : ℕ → Entry → Bool
is_removed v e = kind v e == 1

abbrev pub is_used : ℕ → Entry → Bool
is_used v e = ltb 1 (kind v e)

abbrev pub to_ℕ : Bool → ℕ
to_ℕ true = 1
to_ℕ false = 0

unfoldable pub tally : (Entry → Bool) → List Entry → ℕ
tally p [] = 0
tally p (e ∷ es) = to_ℕ (p e) + tally p es

-- Every entry is of one kind.
pub tally_kinds :
    (v : ℕ) (es : List Entry)
    → tally (is_empty v) es + tally (is_removed v) es + tally (is_used v) es ≡ length es
unfolding tally
tally_kinds v [] = omega arith
tally_kinds v (e ∷ es) = ground (arith, tally_kinds v es)

-- A positive count has an entry that it counts.
pub tally_pos :
    (p : Entry → Bool) (es : List Entry)
    → 0 < tally p es
    → (i : ℕ) × (i < length es) × (p (entry_at es i) ≡ true)
unfolding tally
tally_pos p [] h = absurd (omega arith)
tally_pos p (e ∷ es) h = elim (Bool-cases (p e)) [
  | inl here ↦ (0, omega arith, here)
  | inr there ↦ let (i, lt, q) = tally_pos p es (ground arith) in (suc i, omega arith, q)
]

pub tally_zero :
    (p : Entry → Bool) (es : List Entry)
    → tally p es ≡ 0
    → (i : ℕ) → i < length es
    → p (entry_at es i) ≡ false
unfolding tally
tally_zero p [] h i lt = absurd (omega arith)
tally_zero p (e ∷ es) h zero lt = ground arith
tally_zero p (e ∷ es) h (suc i) lt = tally_zero p es (ground arith) i (omega arith)

pub tally-set :
    (p : Entry → Bool) (es : List Entry) (i : ℕ) (e : Entry)
    → i < length es
    → tally p (set es i e) + to_ℕ (p (entry_at es i)) ≡ tally p es + to_ℕ (p e)
unfolding tally
tally-set p [] i e h = absurd (omega arith)
tally-set p (x ∷ es) zero e h = omega arith
tally-set p (x ∷ es) (suc i) e h = omega (arith, tally-set p es i e (omega arith))
