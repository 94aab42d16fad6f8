-- ===== src/Array/Remove.antt =====
-- array_remove_unordered: the last item takes the place of the removed one.
use cbasis.Base.{
  ℕ, ◌+◌, ◌-◌, ◌*◌, ◌<◌, ◌≤◌, ◌≡◌, ◌⊎◌, ◌∙◌, ap, length, get_or, take, drop, some, store_all-Wrote,
  HasAt-get_or, get_or-take, get_or-drop, length-take, length-drop, arith,
}
use cbasis.Array.{GenericArray, read_item, array_remove_unordered}
use cbasis.Array.Valid.{IsValid, mul_mono}
use cbasis.Array.Contents.{suc-mul}

-- `gen'` is `gen` without the item at `index`: the last item stands there, and no other byte of the
-- memory has changed.
pub record Removed (gen : GenericArray) (index : ℕ) (gen' : GenericArray) : Type 0 where
  pub valid : IsValid gen'
  pub count_is : gen'.count + 1 ≡ gen.count
  pub moved :
      (j : ℕ)
      → j < gen.item_size
      → get_or gen'.bytes (index * gen.item_size + j) 0
        ≡ get_or gen.bytes (gen'.count * gen.item_size + j) 0
  pub kept :
      (p : ℕ)
      → (p < index * gen.item_size) ⊎ (index * gen.item_size + gen.item_size ≤ p)
      → get_or gen'.bytes p 0 ≡ get_or gen.bytes p 0

add_sub_one : (n : ℕ) → n + 1 - 1 ≡ n
add_sub_one n = omega arith

-- array_remove_unordered of an index within a valid array returns, keeps the array valid, puts the
-- last item in the place of the removed one and leaves the others.
pub array_remove_unordered-Removed :
    (gen : GenericArray) (index : ℕ)
    → IsValid gen
    → index < gen.count
    → (gen' : GenericArray) × (array_remove_unordered gen index ≡ some gen')
      × Removed gen index gen'
unfolding array_remove_unordered read_item
array_remove_unordered-Removed gen index v h =
    let last = (gen.count - 1) * gen.item_size in
    let item = take gen.item_size (drop last gen.bytes) in
    let next : last + gen.item_size ≡ gen.count * gen.item_size =
      suc-mul gen.count gen.item_size (omega arith) in
    let inside = mul_mono gen.count gen.capacity gen.item_size v.counted in
    let size : length item ≡ gen.item_size = omega (
      arith,
      v.sized,
      next,
      inside,
      length-take gen.item_size (drop last gen.bytes),
      length-drop last gen.bytes,
    ) in
    let room : index * gen.item_size + length item ≤ length gen.bytes = omega (
      arith,
      size,
      v.sized,
      inside,
      suc-mul (index + 1) gen.item_size (omega arith),
      mul_mono (index + 1) gen.count gen.item_size (omega arith),
      ap (λ k. k * gen.item_size) (add_sub_one index),
    ) in
    let (after, run, w) = store_all-Wrote item gen.bytes (index * gen.item_size) room in
    (
      record gen { bytes = after; count = gen.count - 1 },
      ground (arith, v.sized, next, inside, run),
      record {
        valid = record {
          sized = w.same_length ∙ v.sized;
          counted = omega (arith, v.counted);
          fits = v.fits;
          owned = v.owned;
          item_pos = v.item_pos;
          align_pos = v.align_pos;
          align_power = v.align_power;
        };
        count_is = omega arith;
        moved = λ j p.
            HasAt-get_or after (index * gen.item_size) item j w.stands (omega (arith, size))
              (omega (arith, room, w.same_length))
            ∙ (get_or-take gen.item_size j (drop last gen.bytes) 0 p
                ∙ get_or-drop last j gen.bytes 0);
        kept = λ p out. w.outside p (ground (arith, out, size));
      },
    )
