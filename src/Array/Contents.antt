-- ===== src/Array/Contents.antt =====
-- The operations of array.h on the items: push, append, pop, resize.
use cbasis.Base.{
  ℕ, zero, suc, ◌+◌, ◌-◌, ◌*◌, ◌≤◌, ◌<◌, ◌≡◌, ◌≢◌, refl, sym, ap, ap₂, ◌∙◌, true, List, [], ◌∷◌,
  ◌++◌, some, length, take, drop, take-add, take-of_le, take-take, length-append, length-take,
  length-drop, length-replicate, replicate, arith, store_all, store_all-Wrote, take-Wrote,
}
use native.Mathlib.Decide.{dec_lt}
use mathlib.Core.List.{append-nil}
use cbasis.Array.{
  Allocator, GenericArray, array_push, array_pop, generic_array_reserve, generic_array_append,
  generic_array_resize, read_item, isize, generic_array_is_consistent,
}
use cbasis.Array.Valid.{
  IsValid, contents, Serves, GrowthFits, GrowthFits-lt, generic_array_is_consistent_lem,
  reserve-Reserved, mul_mono,
}

-- `gen'` is `gen` with `n` items behind its own, whose bytes are `bs`.
pub record Appended (gen : GenericArray) (n : ℕ) (bs : List ℕ) (gen' : GenericArray) : Type 0 where
  pub valid : IsValid gen'
  pub allocator : gen'.allocator ≡ gen.allocator
  pub item_size : gen'.item_size ≡ gen.item_size
  pub count_is : gen'.count ≡ gen.count + n
  pub contents_are : contents gen' ≡ contents gen ++ bs

-- Bytes stored behind the items of an array that has the room.
store_items :
    (gen : GenericArray) (n at : ℕ) (bs : List ℕ)
    → IsValid gen
    → gen.count + n ≤ gen.capacity
    → length bs ≡ n * gen.item_size
    → at ≡ gen.count * gen.item_size
    → (bytes : List ℕ) × (store_all gen.bytes at bs ≡ some bytes)
      × Appended gen n bs (record gen { bytes = bytes; count = gen.count + n })
store_items gen n at bs v room size e =
    let inside = mul_mono (gen.count + n) gen.capacity gen.item_size room in
    let fits : at + length bs ≤ length gen.bytes = omega (arith, v.sized, inside) in
    let (bytes, run, w) = store_all-Wrote bs gen.bytes at fits in
    (
      bytes,
      run,
      record {
        valid = record {
          sized = w.same_length ∙ v.sized;
          counted = room;
          fits = v.fits;
          owned = v.owned;
          item_pos = v.item_pos;
          align_pos = v.align_pos;
          align_power = v.align_power;
        };
        allocator = refl;
        item_size = refl;
        count_is = refl;
        contents_are =
            ap (λ k. take k bytes) (omega arith)
            ∙ (take-Wrote gen.bytes bytes bs at w fits ∙ ap (λ k. take k gen.bytes ++ bs) e);
      },
    )

one-le-mul : (a b : ℕ) → 0 < a → b ≢ 0 → 1 ≤ a * b
one-le-mul a b h k = grind arith

-- A reserve for `n` more items, followed by a store of their bytes.
record Grown (gen : GenericArray) (n to_fit : ℕ) (bs : List ℕ) : Type 0 where
  base : GenericArray
  reserves : generic_array_reserve gen to_fit ≡ some base
  count_is : base.count ≡ gen.count
  item_size : base.item_size ≡ gen.item_size
  bytes : List ℕ
  stores : (at : ℕ) → at ≡ gen.count * gen.item_size → store_all base.bytes at bs ≡ some bytes
  appended : Appended gen n bs (record base { bytes = bytes; count = base.count + n })

module _ {gen : GenericArray} {a : Allocator} (v : IsValid gen) (own : gen.allocator ≡ some a)
    (serves : Serves a) where
  grow-Grown :
      (n to_fit : ℕ) (bs : List ℕ)
      → to_fit ≡ gen.count + n
      → length bs ≡ n * gen.item_size
      → GrowthFits gen to_fit
      → Grown gen n to_fit bs
  grow-Grown n to_fit bs e size small =
      let (base, run, r) = reserve-Reserved v own serves to_fit (omega arith) small in
      let at = base.count * base.item_size in
      let same : at ≡ gen.count * gen.item_size = ap₂ ◌*◌ r.count_is r.item_size in
      let (bytes, stored, p) =
        store_items base n at bs r.valid (omega (arith, r.room, r.count_is))
          (size ∙ ap (λ k. n * k) (sym r.item_size)) refl in
      record {
        base = base;
        reserves = run;
        count_is = r.count_is;
        item_size = r.item_size;
        bytes = bytes;
        stores = λ k h. ap (λ j. store_all base.bytes j bs) (h ∙ sym same) ∙ stored;
        appended = record {
          valid = p.valid;
          allocator = p.allocator ∙ r.allocator;
          item_size = r.item_size;
          count_is = ap (λ k. k + n) r.count_is;
          contents_are = p.contents_are ∙ ap (λ t. t ++ bs) r.kept;
        };
      }

  -- On a valid array with an allocator that serves every request, and where no size of the growth
  -- overflows, `array_push` of an item of the item size succeeds, keeps the array valid and puts the
  -- item behind the others.
  pub array_push-Appended :
      (item : List ℕ)
      → length item ≡ gen.item_size
      → GrowthFits gen (gen.count + 1)
      → (gen' : GenericArray) × (array_push gen item ≡ some gen') × Appended gen 1 item gen'
  unfolding array_push isize
  array_push-Appended item size small =
      let g = grow-Grown 1 (gen.count + 1) item refl (omega arith) small in
      (
        record g.base { bytes = g.bytes; count = g.base.count + 1 },
        ground (
          arith,
          GrowthFits-lt (gen.count + 1) v small,
          g.reserves,
          g.stores (g.base.count * g.base.item_size) (ap₂ ◌*◌ g.count_is g.item_size),
        ),
        g.appended,
      )

  -- Under the same conditions `generic_array_append` succeeds, keeps the array valid, and puts the `data_count` first items
  -- of the memory that it is given behind the others.
  pub generic_array_append-Appended :
      (items : List ℕ) (data_count : ℕ)
      → gen.item_size * data_count ≤ length items
      → GrowthFits gen (gen.count + data_count)
      → (gen' : GenericArray) × (generic_array_append gen items data_count ≡ some gen')
        × Appended gen data_count (take (gen.item_size * data_count) items) gen'
  unfolding generic_array_append isize
  generic_array_append-Appended items data_count room small =
      let bs = take (gen.item_size * data_count) items in
      let g =
        grow-Grown data_count (gen.count + data_count) bs refl
          (omega (arith, length-take (gen.item_size * data_count) items)) small in
      (
        record g.base { bytes = g.bytes; count = g.base.count + data_count },
        ground (
          arith,
          one-le-mul gen.item_size data_count v.item_pos,
          GrowthFits-lt (gen.count + data_count) v small,
          generic_array_is_consistent_lem g.appended.valid,
          g.reserves,
          ap (λ (k : ℕ). k * data_count) g.item_size,
          ap (λ (k : ℕ). take k items) (ap (λ (k : ℕ). k * data_count) g.item_size),
          g.stores (g.base.item_size * g.base.count)
              (omega (arith, ap₂ ◌*◌ g.count_is g.item_size)),
        ),
        g.appended,
      )

pred_suc : (n : ℕ) → suc n - 1 ≡ n
pred_suc n = omega arith

pub suc-mul : (n m : ℕ) → 0 < n → (n - 1) * m + m ≡ n * m
suc-mul zero m h = absurd (omega arith)
suc-mul (suc n) m h = ap (λ k. k * m + m) (pred_suc n) ∙ omega arith

-- `array_pop` of a valid array that is not empty returns the bytes of the last item, keeps the
-- array valid and leaves the others.
pub array_pop_lem :
    {gen : GenericArray}
    → IsValid gen
    → 0 < gen.count
    → (item : List ℕ) × (gen' : GenericArray) × (array_pop gen ≡ some (item, gen'))
      × IsValid gen'
      × (length item ≡ gen.item_size)
      × (gen.count ≡ gen'.count + 1)
      × (contents gen ≡ contents gen' ++ item)
unfolding array_pop read_item
array_pop_lem {gen} v h =
    let at = (gen.count - 1) * gen.item_size in
    let next : at + gen.item_size ≡ gen.count * gen.item_size = suc-mul gen.count gen.item_size h in
    let inside = mul_mono gen.count gen.capacity gen.item_size v.counted in
    (
      take gen.item_size (drop at gen.bytes),
      record gen { count = gen.count - 1 },
      ground (arith, v.sized, next, inside),
      record {
        sized = v.sized;
        counted = omega (arith, v.counted);
        fits = v.fits;
        owned = v.owned;
        item_pos = v.item_pos;
        align_pos = v.align_pos;
        align_power = v.align_power;
      },
      omega (
        arith,
        v.sized,
        next,
        inside,
        length-take gen.item_size (drop at gen.bytes),
        length-drop at gen.bytes,
      ),
      omega arith,
      ap (λ k. take k gen.bytes) (sym next) ∙ take-add at gen.item_size gen.bytes,
    )

append_cancel :
    (xs ys us vs : List ℕ) → length xs ≡ length us → xs ++ ys ≡ us ++ vs → (xs ≡ us) × (ys ≡ vs)
append_cancel [] ys [] vs h e = (refl, e)
append_cancel [] ys (u ∷ us) vs h e = absurd (omega arith)
append_cancel (x ∷ xs) ys [] vs h e = absurd (omega arith)
append_cancel (x ∷ xs) ys (u ∷ us) vs h e =
    let (p, q) = append_cancel xs ys us vs (omega arith) (cc) in (cc, q)

-- A pop after a push gives back the bytes of the item, and the array as it was before.
pub array_pop-array_push :
    {gen : GenericArray} {a : Allocator} (item : List ℕ)
    → IsValid gen
    → gen.allocator ≡ some a
    → Serves a
    → length item ≡ gen.item_size
    → GrowthFits gen (gen.count + 1)
    → (pushed popped : GenericArray) × (array_push gen item ≡ some pushed)
      × (array_pop pushed ≡ some (item, popped))
      × (popped.count ≡ gen.count)
      × (contents popped ≡ contents gen)
array_pop-array_push {gen} item v own serves size small =
    let (pushed, run, p) = array_push-Appended v own serves item size small in
    let (x, popped, run', v', x_size, fewer, split) =
      array_pop_lem p.valid (omega (arith, p.count_is)) in
    let same : popped.count ≡ gen.count = omega (arith, p.count_is) in
    let length_eq : length (contents popped) ≡ length (contents gen) = omega (
      arith,
      ap length (sym split ∙ p.contents_are),
      length-append (contents popped) x,
      length-append (contents gen) item,
      p.item_size,
    ) in
    let (before, last) =
      append_cancel (contents popped) x (contents gen) item length_eq
        (sym split ∙ p.contents_are) in
    (pushed, popped, run, run' ∙ ap (λ y. some (y, popped)) last, same, before)

zero_of_sub : (n m k : ℕ) → n ≤ m → (n - m) * k ≡ 0
zero_of_sub n m k h = let e : n - m ≡ 0 = omega arith in ap (λ (j : ℕ). j * k) e ∙ omega arith

-- Storing nothing changes nothing.
store_all-nil :
    (xs ys : List ℕ) (at n : ℕ) → n ≡ 0 → store_all xs at (replicate n 0) ≡ some ys → xs ≡ ys
unfolding store_all
store_all-nil xs ys at zero e h = cc
store_all-nil xs ys at (suc n) e h = absurd (omega arith)

abbrev Resizes : GenericArray → ℕ → Type 0
Resizes gen to_size =
    (gen' : GenericArray) × (generic_array_resize gen to_size true ≡ some gen')
    × IsValid gen'
    × (gen'.count ≡ to_size)
    × (contents gen'
        ≡ take (to_size * gen.item_size) (contents gen)
          ++ replicate ((to_size - gen.count) * gen.item_size) 0)

shrink-Resizes :
    {gen : GenericArray} (to_size : ℕ) → IsValid gen → to_size < gen.count → Resizes gen to_size
unfolding generic_array_resize generic_array_reserve
shrink-Resizes {gen} to_size v less =
    let valid : IsValid (record gen { count = to_size }) = record {
      sized = v.sized;
      counted = omega (arith, v.counted);
      fits = v.fits;
      owned = v.owned;
      item_pos = v.item_pos;
      align_pos = v.align_pos;
      align_power = v.align_power;
    } in
    let under = mul_mono to_size gen.count gen.item_size (omega arith) in
    let none_new : (to_size - gen.count) * gen.item_size ≡ 0 =
      zero_of_sub to_size gen.count gen.item_size (omega arith) in
    (
      record gen { count = to_size },
      ground (
        arith,
        v.counted,
        generic_array_is_consistent_lem v,
        generic_array_is_consistent_lem valid,
      ),
      valid,
      refl,
      sym (take-take (to_size * gen.item_size) (gen.count * gen.item_size) gen.bytes under)
          ∙ (sym (append-nil _)
              ∙ ap (λ k. take (to_size * gen.item_size) (contents gen) ++ replicate k 0)
                  (sym none_new)),
    )

module _ {gen : GenericArray} {a : Allocator} (v : IsValid gen) (own : gen.allocator ≡ some a)
    (serves : Serves a) where
  grow-Resizes : (to_size : ℕ) → gen.count ≤ to_size → GrowthFits gen to_size → Resizes gen to_size
  unfolding generic_array_resize
  grow-Resizes to_size more small =
      let n = to_size - gen.count in
      let bs : List ℕ = replicate (n * gen.item_size) 0 in
      let g = grow-Grown v own serves n to_size bs (omega arith) (length-replicate _ _) small in
      let whole : take (to_size * gen.item_size) (contents gen) ≡ contents gen =
        take-of_le (to_size * gen.item_size) (contents gen) (
          omega (
            arith,
            length-take (gen.count * gen.item_size) gen.bytes,
            mul_mono gen.count to_size gen.item_size more,
          )) in
      let p = g.appended in
      let all : g.base.count + n ≡ to_size = omega (arith, g.count_is) in
      let consistent : generic_array_is_consistent
            (record g.base { bytes = g.bytes; count = to_size })
          ≡ true =
        ap (λ c. generic_array_is_consistent (record g.base { bytes = g.bytes; count = c }))
          (sym all)
        ∙ generic_array_is_consistent_lem p.valid in
      let at : g.base.count * g.base.item_size ≡ gen.count * gen.item_size =
        ap₂ ◌*◌ g.count_is g.item_size in
      let zeros : replicate ((to_size - g.base.count) * g.base.item_size) 0 ≡ bs =
        ap₂ (λ c s. replicate ((to_size - c) * s) 0) g.count_is g.item_size in
      (
        record g.base { bytes = g.bytes; count = g.base.count + n },
        ground (
          arith,
          g.reserves,
          g.count_is,
          consistent,
          zeros,
          g.stores (g.base.count * g.base.item_size) at,
          zero_of_sub to_size gen.count gen.item_size,
          store_all-nil g.base.bytes g.bytes (g.base.count * g.base.item_size) (n * gen.item_size),
        ),
        p.valid,
        omega (arith, g.count_is),
        p.contents_are ∙ ap (λ t. t ++ bs) (sym whole),
      )

-- On a valid array with an allocator that serves every request, and where no size of the growth
-- overflows, `generic_array_resize` with zeroing succeeds and keeps the array valid: it drops the items
-- beyond `to_size`, or puts zero bytes behind the others up to `to_size` items.
pub generic_array_resize_lem :
    {gen : GenericArray} {a : Allocator} (to_size : ℕ)
    → IsValid gen
    → gen.allocator ≡ some a
    → Serves a
    → GrowthFits gen to_size
    → (gen' : GenericArray) × (generic_array_resize gen to_size true ≡ some gen')
      × IsValid gen'
      × (gen'.count ≡ to_size)
      × (contents gen'
          ≡ take (to_size * gen.item_size) (contents gen)
            ++ replicate ((to_size - gen.count) * gen.item_size) 0)
generic_array_resize_lem {gen} to_size v own serves small = elim (dec_lt to_size gen.count) [
  | yes p ↦ shrink-Resizes to_size v p
  | no p ↦ grow-Resizes v own serves to_size (omega arith) small
]
