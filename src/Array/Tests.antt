-- ===== src/Array/Tests.antt =====
-- An allocator that copies, runs of array.h on it, and the theorems at an array of two items.
use cbasis.Base.{
  ℕ, ◌-◌, ◌<◌, ◌≡◌, refl, inr, ◌∙◌, List, [], ◌∷◌, ◌*◌, true, ◌++◌, some, ◌>>=◌, length, get_or,
  take, replicate, length-append, length-take, length-replicate, get_or-take, store_all,
  get_or-append_left, min, arith,
}
use cbasis.Array.{
  Allocator, GenericArray, generic_array_is_consistent, call_realloc, generic_array_set_capacity,
  generic_array_reserve, generic_array_resize, array_push, isize,
}
use cbasis.Array.Valid.{IsValid, contents, Serves, Reserved, reserve-Reserved}
use cbasis.Array.Contents.{Appended, array_push-Appended, generic_array_resize_lem}

abbrev copy_block : ℕ → List ℕ → List ℕ
copy_block size old = take size old ++ replicate (size - length old) 0

length-copy_block : (size : ℕ) (old : List ℕ) → length (copy_block size old) ≡ size
length-copy_block size old = omega (
  arith,
  length-append (take size old) (replicate (size - length old) 0),
  length-take size old,
  length-replicate {A = ℕ} (size - length old) 0,
)

copy_block-keeps :
    (size : ℕ) (old : List ℕ) (j : ℕ)
    → j < min size (length old)
    → get_or (copy_block size old) j 0 ≡ get_or old j 0
copy_block-keeps size old j h =
    get_or-append_left (take size old) _ j 0 (omega (arith, length-take size old))
    ∙ get_or-take size j old 0 (omega arith)

some_copy :
    (size : ℕ) (old block : List ℕ)
    → some (copy_block size old) ≡ some block
    → copy_block size old ≡ block
some_copy size old block e = cc

size_law :
    (size : ℕ) (old : List ℕ) (align : ℕ) (block : List ℕ)
    → some (copy_block size old) ≡ some block
    → length block ≡ size
size_law size old align block e =
    ground (arith, some_copy size old block e, length-copy_block size old)

keeps_law :
    (size : ℕ) (old : List ℕ) (align : ℕ) (block : List ℕ)
    → some (copy_block size old) ≡ some block
    → (j : ℕ) → j < min size (length old)
    → get_or block j 0 ≡ get_or old j 0
keeps_law size old align block e j h =
    ground (arith, some_copy size old block e, copy_block-keeps size old j)

abbrev copying : Allocator
copying = record {
  realloc = λ size old old_size align. some (copy_block size old);
  realloc_size = size_law;
  realloc_keeps = keeps_law;
}

copying-Serves : Serves copying
copying-Serves size old align = (copy_block size old, refl)

-- Two items of two bytes in memory for three.
abbrev two_items : GenericArray
two_items = record {
  allocator = some copying;
  bytes = 1 ∷ 2 ∷ 3 ∷ 4 ∷ 5 ∷ 6 ∷ [];
  count = 2;
  capacity = 3;
  item_size = 2;
  item_align = 2;
}

two_items-IsValid : IsValid two_items
two_items-IsValid = record {
  sized = refl;
  counted = omega arith;
  fits = omega arith;
  owned = λ _. refl;
  item_pos = omega arith;
  align_pos = omega arith;
  align_power = refl;
}

push_runs :
    (array_push two_items (7 ∷ 8 ∷ []) >>= (λ g. some (contents g)))
    ≡ some (1 ∷ 2 ∷ 3 ∷ 4 ∷ 7 ∷ 8 ∷ [])
unfolding array_push generic_array_reserve generic_array_set_capacity call_realloc
    generic_array_is_consistent store_all isize
push_runs = refl

reserve-Reserved_example :
    (gen' : GenericArray) × (generic_array_reserve two_items 5 ≡ some gen')
    × Reserved two_items 5 gen'
reserve-Reserved_example =
    reserve-Reserved {gen = two_items} two_items-IsValid refl copying-Serves 5 (omega arith)
      (inr (omega arith, omega arith))

array_push-Appended_example :
    (gen' : GenericArray) × (array_push two_items (7 ∷ 8 ∷ []) ≡ some gen')
    × Appended two_items 1 (7 ∷ 8 ∷ []) gen'
array_push-Appended_example =
    array_push-Appended {gen = two_items} two_items-IsValid refl copying-Serves (7 ∷ 8 ∷ []) refl
      (inr (omega arith, omega arith))

-- Two items of zero bytes behind the two items.
generic_array_resize_lem_example :
    (gen' : GenericArray) × (generic_array_resize two_items 4 true ≡ some gen')
    × IsValid gen'
    × (gen'.count ≡ 4)
    × (contents gen' ≡ take (4 * 2) (contents two_items) ++ replicate ((4 - 2) * 2) 0)
generic_array_resize_lem_example =
    generic_array_resize_lem {gen = two_items} 4 two_items-IsValid refl copying-Serves
      (inr (omega arith, omega arith))
