-- ===== src/Hash/CopyAll.antt =====
-- `_hash_copy_rehash`: the used entries are placed into a cleared table.
use cbasis.Base.{
  ℕ, suc, ◌+◌, ◌-◌, ◌%◌, ◌^◌, ◌<◌, ◌≡◌, ap, refl, subst, Bool, true, false, Bool-cases, inl, inr,
  List, [], ◌∷◌, set, some, bit_and, arith,
}
use cbasis.Probe.Cover.{probe-lt}
use cbasis.Hash.Table.{Entry, Hash, mask}
use cbasis.Hash.Rehash.{place, place_all}
use cbasis.Hash.Count.{entry_at, is_empty, is_removed, is_used, to_ℕ, tally}
use cbasis.Hash.Content.{holds, holds-set}
use cbasis.Hash.Valid.{IsValid}
use cbasis.Hash.Fill.{filled-IsValid, filled-Reached}
use cbasis.Hash.Place.{Placed, place-Placed}

-- `base` with `c` entries and no gravestone.
abbrev pub table : Hash → List Entry → ℕ → Hash
table base es c = record base { entries = es; count = c; gravestone_count = 0 }

empty_unused : (v : ℕ) (e : Entry) → is_empty v e ≡ true → is_used v e ≡ false
empty_unused v e p = ground arith

empty_not_removed : (v : ℕ) (e : Entry) → is_empty v e ≡ true → 0 - to_ℕ (is_removed v e) ≡ 0
empty_not_removed v e p = omega arith

-- Placing one entry.
Placed-IsValid :
    {k : ℕ} (base : Hash) (es : List Entry) (c i : ℕ) (e : Entry)
    → IsValid k (table base es c)
    → Placed k (table base es c) e.hash i
    → e.value < 2 ^ 64
    → is_used base.empty_value e ≡ true
    → c + 1 < 2 ^ k
    → IsValid k (table base (set es i e) (c + 1))
Placed-IsValid {k = k} base es c i e v q small used room =
    let unused = empty_unused base.empty_value (entry_at es i) q.at_empty in
    let lt : i < 2 ^ k = omega (arith, q.arrives, probe-lt k e.hash q.steps) in
    let enough : c + 0 + 1 < 2 ^ k = omega arith in
    subst
      (λ g. IsValid k (record base { entries = set es i e; count = c + 1; gravestone_count = g }))
      (empty_not_removed base.empty_value (entry_at es i) q.at_empty)
      (filled-IsValid v i lt e small used unused enough
        (filled-Reached v i lt e small used unused enough q.steps q.steps_lt q.arrives q.unbroken))

abbrev pub Copied : ℕ → Hash → List Entry → Hash → List Entry → ℕ → Type 0
Copied k base es from more c =
    (es' : List Entry) × (place_all from more (record base { entries = es }) ≡ some es')
    × IsValid k (table base es' (c + tally (is_used base.empty_value) more))
    × ((p : Entry → Bool)
        → holds base.empty_value es' p
          ≡ holds base.empty_value es p + holds base.empty_value more p)

step-used :
    (base from : Hash) (more es : List Entry) (c i : ℕ) (e : Entry) (es' : List Entry)
    → from.empty_value ≡ base.empty_value
    → is_used base.empty_value e ≡ true
    → place
        (base.capacity + 1)
        es
        base.empty_value
        (mask base)
        e
        (bit_and (e.hash % 2 ^ 32) (mask base))
        1
      ≡ some (set es i e)
    → place_all from more (record base { entries = set es i e }) ≡ some es'
    → place_all from (e ∷ more) (record base { entries = es }) ≡ some es'
unfolding place_all
step-used base from more es c i e es' same used run rest =
    ground (arith, ap (λ x. is_used x e) same, used, run, rest)

step-unused :
    (base from : Hash) (more es : List Entry) (e : Entry) (es' : List Entry)
    → from.empty_value ≡ base.empty_value
    → is_used base.empty_value e ≡ false
    → place_all from more (record base { entries = es }) ≡ some es'
    → place_all from (e ∷ more) (record base { entries = es }) ≡ some es'
unfolding place_all
step-unused base from more es e es' same unused rest =
    ground (arith, ap (λ x. is_used x e) same, unused, rest)

pub place_all-Copied :
    {k : ℕ} (base from : Hash) (more es : List Entry) (c : ℕ)
    → from.empty_value ≡ base.empty_value
    → IsValid k (table base es c)
    → ((i : ℕ) → (entry_at more i).value < 2 ^ 64)
    → c + tally (is_used base.empty_value) more < 2 ^ k
    → Copied k base es from more c
unfolding place_all tally
place_all-Copied {k = k} base from [] es c same v small room =
    (es, refl, subst (λ n. IsValid k (table base es n)) (omega arith) v, λ p. omega arith)
place_all-Copied {k = k} base from (e ∷ more) es c same v small room =
    elim (Bool-cases (is_used base.empty_value e)) [
      | inl used ↦
          let (i, run, q) = place-Placed v e in
          let v' = Placed-IsValid base es c i e v q (small 0) used (ground (arith, used, room)) in
          let (es', run', valid, content) =
            place_all-Copied base from more (set es i e) (c + 1) same v' (λ j. small (suc j))
              (ground (arith, used, room)) in
          (
            es',
            step-used base from more es c i e es' same used run run',
            subst (λ n. IsValid k (table base es' n)) (ground (arith, used)) valid,
            λ p. ground (
              arith,
              content p,
              used,
              holds-set base.empty_value es i e p
                  (omega (arith, v.width, q.arrives, probe-lt k e.hash q.steps))
                  (empty_unused base.empty_value (entry_at es i) q.at_empty) used,
            ),
          )
      | inr unused ↦
          let (es', run', valid, content) =
            place_all-Copied base from more es c same v (λ j. small (suc j))
              (ground (arith, unused, room)) in
          (
            es',
            step-unused base from more es e es' same unused run',
            subst (λ n. IsValid k (table base es' n)) (ground (arith, unused)) valid,
            λ p. ground (arith, content p, unused),
          )
    ]
