-- ===== src/Array/Valid.antt =====
-- The invariant of an array, and growth: set_capacity and reserve.
use cbasis.Base.{
  ℕ, zero, suc, ◌+◌, ◌-◌, ◌*◌, ◌/◌, ◌≤◌, ◌<◌, ◌≡◌, ◌^◌, refl, ap, ◌∙◌, true, ltb, ◌==◌, List, [],
  ◌∷◌, some, length, take, take-agree, bit_and, min, arith, if◌then◌else◌, inl, inr, ◌⊎◌,
}
use native.Mathlib.Decide.{dec_lt}
use cbasis.Array.{
  Allocator, GenericArray, is_some, is_null, bool_eq, generic_array_is_consistent, call_realloc,
  isize, generic_array_set_capacity, generic_array_reserve,
}

-- An array that owns its memory: an allocator is set, the memory holds `capacity` items and its size
-- fits an `isize`, and the item size and alignment are those of a type.
pub record IsValid (gen : GenericArray) : Type 0 where
  pub sized : length gen.bytes ≡ gen.capacity * gen.item_size
  pub counted : gen.count ≤ gen.capacity
  pub fits : gen.item_size * gen.capacity < 2 ^ 63
  pub owned : 0 < gen.capacity → is_some gen.allocator ≡ true
  pub item_pos : 0 < gen.item_size
  pub align_pos : 0 < gen.item_align
  pub align_power : bit_and gen.item_align (gen.item_align - 1) ≡ 0

-- The items as bytes.
abbrev pub contents : GenericArray → List ℕ
contents gen = take (gen.count * gen.item_size) gen.bytes

-- An allocator that serves every request for a block that it gave out.
abbrev pub Serves : Allocator → Type 0
Serves a =
    (size : ℕ) (old : List ℕ) (align : ℕ)
    → (block : List ℕ) × (a.realloc size old (length old) align ≡ some block)

is_null-length :
    (xs : List ℕ) (n m : ℕ) → length xs ≡ n * m → 0 < m → bool_eq (is_null xs) (n == 0) ≡ true
is_null-length [] zero m e h = refl
is_null-length [] (suc n) m e h = absurd (grind arith)
is_null-length (x ∷ xs) zero m e h = absurd (grind arith)
is_null-length (x ∷ xs) (suc n) m e h = ground arith

-- The check that the code asserts holds of every valid array.
pub generic_array_is_consistent_lem :
    {gen : GenericArray} → IsValid gen → generic_array_is_consistent gen ≡ true
unfolding generic_array_is_consistent
generic_array_is_consistent_lem {gen} v =
    ground (arith, is_null-length gen.bytes gen.capacity gen.item_size)

pub mul_mono : (a b n : ℕ) → a ≤ b → a * n ≤ b * n
mul_mono a b n h = grind arith

-- What changes when the capacity is set: the memory, and the items beyond it are dropped.
pub record Resized (gen : GenericArray) (capacity : ℕ) (gen' : GenericArray) : Type 0 where
  pub valid : IsValid gen'
  pub allocator : gen'.allocator ≡ gen.allocator
  pub capacity_is : gen'.capacity ≡ capacity
  pub count_is : gen'.count ≡ min capacity gen.count
  pub item_size : gen'.item_size ≡ gen.item_size
  pub item_align : gen'.item_align ≡ gen.item_align
  pub kept : contents gen' ≡ take (gen'.count * gen.item_size) gen.bytes

module _ {gen : GenericArray} {a : Allocator} (v : IsValid gen) (own : gen.allocator ≡ some a)
    (serves : Serves a) where
  pub set_capacity-Resized :
      (capacity : ℕ)
      → gen.item_size * capacity < 2 ^ 63
      → (gen' : GenericArray) × (generic_array_set_capacity gen capacity ≡ some gen')
        × Resized gen capacity gen'
  unfolding generic_array_set_capacity call_realloc isize
  set_capacity-Resized capacity small =
      let size = gen.item_size * capacity in
      let (block, run) = serves size gen.bytes gen.item_align in
      let n = if ltb capacity gen.count then capacity else gen.count in
      let block_size = a.realloc_size size gen.bytes gen.item_align block run in
      let old_size : length gen.bytes ≡ gen.item_size * gen.capacity = omega (arith, v.sized) in
      let in_new = mul_mono n capacity gen.item_size (ground arith) in
      let in_old = mul_mono n gen.capacity gen.item_size (ground arith) in
      let keeps = a.realloc_keeps size gen.bytes gen.item_align block run in
      let gen' : GenericArray = record gen { bytes = block; capacity = capacity; count = n } in
      let valid : IsValid gen' = record {
        sized = omega (arith, block_size);
        counted = ground arith;
        fits = small;
        owned = λ _. rw own;
        item_pos = v.item_pos;
        align_pos = v.align_pos;
        align_power = v.align_power;
      } in
      (
        gen',
        ground (
          arith,
          own,
          run,
          v.fits,
          generic_array_is_consistent_lem v,
          generic_array_is_consistent_lem valid,
          ap (λ (k : ℕ). a.realloc size gen.bytes k gen.item_align) old_size,
        ),
        record {
          valid = valid;
          allocator = refl;
          capacity_is = refl;
          count_is = ground arith;
          item_size = refl;
          item_align = refl;
          kept =
              take-agree (n * gen.item_size) block gen.bytes (omega (arith, block_size, in_new))
                (omega (arith, v.sized, in_old))
                λ j p. keeps j (omega (arith, v.sized, in_old, in_new));
        },
      )

-- The capacity that `generic_array_reserve` sets where it grows.
abbrev pub grown : GenericArray → ℕ → ℕ
grown gen to_fit =
    (if ltb to_fit (gen.capacity * 3 / 2 + 8) then gen.capacity * 3 / 2 + 8 else to_fit) + 1

-- There is room for more than `to_fit` items, or no size that the growth computes overflows.
abbrev pub GrowthFits : GenericArray → ℕ → Type 0
GrowthFits gen to_fit =
    (to_fit < gen.capacity)
    ⊎ ((gen.capacity * 3 < 2 ^ 63) × (gen.item_size * grown gen to_fit < 2 ^ 63))

-- What fits as a number of bytes fits as a number of items.
pub items_fit : (size n : ℕ) → 0 < size → size * n < 2 ^ 63 → n < 2 ^ 63
items_fit size n pos lt = omega (arith, mul_mono 1 size n pos)

-- The number of items asked for fits an `isize` then.
pub GrowthFits-lt :
    {gen : GenericArray} (to_fit : ℕ) → IsValid gen → GrowthFits gen to_fit → to_fit < 2 ^ 63
GrowthFits-lt {gen} to_fit v (inl room) =
    omega (arith, items_fit gen.item_size gen.capacity v.item_pos v.fits)
GrowthFits-lt {gen} to_fit v (inr (tripled, small)) =
    ground (arith, items_fit gen.item_size (grown gen to_fit) v.item_pos small)

-- What `generic_array_reserve` gives: room for `to_fit` items and the same items. It leaves the array
-- that has room for more than `to_fit`, and sets the capacity of any other, of capacity `to_fit` too.
pub record Reserved (gen : GenericArray) (to_fit : ℕ) (gen' : GenericArray) : Type 0 where
  pub valid : IsValid gen'
  pub allocator : gen'.allocator ≡ gen.allocator
  pub room : to_fit < gen'.capacity
  pub count_is : gen'.count ≡ gen.count
  pub item_size : gen'.item_size ≡ gen.item_size
  pub kept : contents gen' ≡ contents gen
  pub stays : to_fit < gen.capacity → gen' ≡ gen
  pub grows : gen.capacity ≤ to_fit → gen'.capacity ≡ grown gen to_fit
  pub growth : (gen'.capacity ≡ gen.capacity) ⊎ (gen.capacity * 3 / 2 + 8 < gen'.capacity)

module _ {gen : GenericArray} {a : Allocator} (v : IsValid gen) (own : gen.allocator ≡ some a)
    (serves : Serves a) where
  -- On a valid array with an allocator that serves every request, and where no size of the growth
  -- overflows, `generic_array_reserve` of as many items as there are or more succeeds and keeps the array
  -- valid and the items. It changes
  -- nothing where the capacity is above `to_fit`; where it is `to_fit` or less it becomes one more than
  -- the larger of `to_fit` and half as much again and 8.
  pub reserve-Reserved :
      (to_fit : ℕ)
      → gen.count ≤ to_fit
      → GrowthFits gen to_fit
      → (gen' : GenericArray) × (generic_array_reserve gen to_fit ≡ some gen')
        × Reserved gen to_fit gen'
  unfolding generic_array_reserve isize
  reserve-Reserved to_fit fits small = elim (dec_lt to_fit gen.capacity) [
    | yes p ↦ (
      gen,
      ground (arith, generic_array_is_consistent_lem v),
      record {
        valid = v;
        allocator = refl;
        room = p;
        count_is = refl;
        item_size = refl;
        kept = refl;
        stays = λ _. refl;
        grows = λ le. absurd (omega arith);
        growth = inl refl;
      },
    )
    | no p ↦
        let step = gen.capacity * 3 / 2 + 8 in
        let target = grown gen to_fit in
        let tripled : gen.capacity * 3 < 2 ^ 63 = ground (arith, small) in
        let bytes_fit : gen.item_size * target < 2 ^ 63 = ground (arith, small) in
        let target_fits = items_fit gen.item_size target v.item_pos bytes_fit in
        let (gen', run, r) = set_capacity-Resized v own serves target bytes_fit in
        let large : (to_fit < target) × (step < target) = ground arith in
        let same : gen'.count ≡ gen.count = omega (arith, r.count_is, large) in
        (
          gen',
          ground (arith, generic_array_is_consistent_lem v, tripled, target_fits, run),
          record {
            valid = r.valid;
            allocator = r.allocator;
            room = omega (arith, r.capacity_is, large);
            count_is = same;
            item_size = r.item_size;
            kept = r.kept ∙ ap (λ k. take (k * gen.item_size) gen.bytes) same;
            stays = λ lt. absurd (omega arith);
            grows = λ _. r.capacity_is;
            growth = inr (omega (arith, r.capacity_is, large));
          },
        )
  ]
