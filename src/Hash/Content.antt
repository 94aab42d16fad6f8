-- ===== src/Hash/Content.antt =====
-- The abstract view of a table: how many used entries it has, of those that a predicate selects.
use cbasis.Base.{
  ℕ, zero, suc, ◌+◌, ◌^◌, ◌<◌, ◌≡◌, refl, Bool, true, false, ◌&&◌, List, [], ◌∷◌, length, set,
  replicate, arith,
}
use cbasis.Hash.Table.{Entry}
use cbasis.Hash.Count.{entry_at, is_used, kind, to_ℕ, tally, tally-set}

-- The used entries that `p` selects. That two tables agree for every `p` says that they hold the
-- same entries, each as often.
abbrev pub select : ℕ → (Entry → Bool) → Entry → Bool
select v p e = is_used v e && p e

abbrev pub holds : ℕ → List Entry → (Entry → Bool) → ℕ
holds v es p = tally (select v p) es

abbrev pub empty_entry : ℕ → Entry
empty_entry v = record { hash = 0; value = v }

pub kind-empty_entry : (v : ℕ) → v < 2 ^ 64 → kind v (empty_entry v) ≡ 0
kind-empty_entry v h = omega arith

pub tally-replicate :
    (q : Entry → Bool) (e : Entry) (n : ℕ) → q e ≡ false → tally q (replicate n e) ≡ 0
unfolding tally
tally-replicate q e zero h = refl
tally-replicate q e (suc n) h = ground (arith, tally-replicate q e n h)

-- Writing a used entry over a slot that is not used adds it.
pub holds-set :
    (v : ℕ) (es : List Entry) (i : ℕ) (e : Entry) (p : Entry → Bool)
    → i < length es
    → is_used v (entry_at es i) ≡ false
    → is_used v e ≡ true
    → holds v (set es i e) p ≡ holds v es p + to_ℕ (p e)
holds-set v es i e p lt unused used = ground (arith, tally-set (select v p) es i e lt)

pub tally_none :
    (q : Entry → Bool) (es : List Entry)
    → ((i : ℕ) → i < length es → q (entry_at es i) ≡ false)
    → tally q es ≡ 0
unfolding tally
tally_none q [] h = refl
tally_none q (e ∷ es) h =
    ground (arith, h 0 (omega arith), tally_none q es (λ i lt. h (suc i) (omega arith)))
