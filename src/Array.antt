-- ===== src/Array.antt =====
-- array.h: the untyped functions behind the typed macros, byte by byte, and the macros. A pointer
-- to allocated memory is the list of its bytes, NULL the empty one. A failed REQUIRE, CHECK_BOUNDS
-- or consistency check, an access outside the memory, an allocator panic and an overflow of
-- `isize` are `none`. An offset in memory fits where the memory does, which has below 2 ^ 63 bytes.
pub mod Valid
pub mod Contents
pub mod Remove
mod Tests
use cbasis.Base.{
  ℕ, zero, suc, ◌+◌, ◌-◌, ◌*◌, ◌/◌, ◌≤◌, ◌<◌, ◌≡◌, Bool, true, false, ◌&&◌, ltb, leb, ◌==◌, ◌^◌,
  if◌then◌else◌, List, [], ◌∷◌, Option, none, some, ◌>>=◌, ◌>>◌, require, length, get_or, take,
  drop, replicate, store_all, bit_and, min,
}

-- The allocator interface of allocator.h, mode ALLOCATOR_MODE_ALLOC: `realloc new_size old_ptr
-- old_size align`, with no error argument, so that a failure panics. What array.h relies on: a
-- block that is returned has the size asked for and keeps the bytes of the old one.
pub record Allocator : Type 0 where
  pub realloc : ℕ → List ℕ → ℕ → ℕ → Option (List ℕ)
  pub realloc_size :
      (size : ℕ) (old : List ℕ) (align : ℕ) (block : List ℕ)
      → realloc size old (length old) align ≡ some block
      → length block ≡ size
  pub realloc_keeps :
      (size : ℕ) (old : List ℕ) (align : ℕ) (block : List ℕ)
      → realloc size old (length old) align ≡ some block
      → (j : ℕ) → j < min size (length old)
      → get_or block j 0 ≡ get_or old j 0

-- `Generic_Array` with the `Untyped_Array` that it points to.
pub record GenericArray : Type 0 where
  pub allocator : Option Allocator
  pub bytes : List ℕ
  pub count : ℕ
  pub capacity : ℕ
  pub item_size : ℕ
  pub item_align : ℕ

-- A pointer is compared to NULL.
abbrev pub is_null : List ℕ → Bool
is_null [] = true
is_null (b ∷ bs) = false

abbrev pub is_some : Option Allocator → Bool
is_some none = false
is_some (some a) = true

abbrev pub bool_eq : Bool → Bool → Bool
bool_eq true b = b
bool_eq false true = false
bool_eq false false = true

-- `0 <= capacity` and `0 <= count` hold of every number.
unfoldable pub generic_array_is_consistent : GenericArray → Bool
generic_array_is_consistent gen =
    (if ltb 0 gen.capacity then is_some gen.allocator else true)
    && leb gen.count gen.capacity
    && bool_eq (is_null gen.bytes) (gen.capacity == 0)
    && ltb 0 gen.item_size
    && ((bit_and gen.item_align (gen.item_align - 1) == 0) && ltb 0 gen.item_align)

-- `(*allocator)(allocator, …)`; a NULL function pointer is a fault.
unfoldable pub call_realloc : Option Allocator → ℕ → List ℕ → ℕ → ℕ → Option (List ℕ)
call_realloc none size old old_size align = none
call_realloc (some a) size old old_size align = a.realloc size old old_size align

-- A result of arithmetic on `isize`, which is not defined where it overflows.
unfoldable pub isize : ℕ → Option ℕ
isize n = require (ltb n (2 ^ 63)) >> some n

-- `memset(gen.array, 0, sizeof *gen.array)`, beside the memory that goes back to the allocator.
unfoldable pub generic_array_deinit : GenericArray → Option GenericArray
generic_array_deinit gen =
    let cleared = record gen { allocator = none; bytes = []; count = 0; capacity = 0 } in
    require (generic_array_is_consistent gen)
    >> (if ltb 0 gen.capacity
        then (isize (gen.capacity * gen.item_size) >>= λ old_size.
            call_realloc gen.allocator 0 gen.bytes old_size gen.item_align >>= λ _. some cleared)
        else some cleared)

unfoldable pub generic_array_init : GenericArray → Allocator → Option GenericArray
generic_array_init gen a = do
  cleared ← generic_array_deinit gen
  let gen' = record cleared { allocator = some a }
  require (generic_array_is_consistent gen')
  some gen'

unfoldable pub generic_array_set_capacity : GenericArray → ℕ → Option GenericArray
generic_array_set_capacity gen capacity = do
  require (generic_array_is_consistent gen)
  require (is_some gen.allocator)
  old_byte_size ← isize (gen.item_size * gen.capacity)
  new_byte_size ← isize (gen.item_size * capacity)
  block ← call_realloc gen.allocator new_byte_size gen.bytes old_byte_size gen.item_align
  let count = if ltb capacity gen.count then capacity else gen.count
  let gen' = record gen { bytes = block; capacity = capacity; count = count }
  require (generic_array_is_consistent gen')
  some gen'

unfoldable pub generic_array_reserve : GenericArray → ℕ → Option GenericArray
generic_array_reserve gen to_fit =
    require (generic_array_is_consistent gen)
    >> (if ltb to_fit gen.capacity
        then some gen
        else (isize (gen.capacity * 3) >>= λ tripled. isize (tripled / 2 + 8) >>= λ growth_step.
            isize ((if ltb to_fit growth_step then growth_step else to_fit) + 1) >>= λ new_capacity.
            generic_array_set_capacity gen new_capacity))

unfoldable pub generic_array_resize : GenericArray → ℕ → Bool → Option GenericArray
generic_array_resize gen to_size zero_new = do
  gen' ← generic_array_reserve gen to_size
  bytes ←
      if zero_new && ltb gen'.count to_size
      then store_all gen'.bytes (gen'.count * gen'.item_size)
          (replicate ((to_size - gen'.count) * gen'.item_size) 0)
      else some gen'.bytes
  let resized = record gen' { bytes = bytes; count = to_size }
  require (generic_array_is_consistent resized)
  some resized

-- `items` is the memory that `data` points to; `memcpy` reads `item_size * data_count` bytes of it.
unfoldable pub generic_array_append : GenericArray → List ℕ → ℕ → Option GenericArray
generic_array_append gen items data_count = do
  require (if data_count == 0 then true else leb 1 (length items))
  to_fit ← isize (gen.count + data_count)
  gen' ← generic_array_reserve gen to_fit
  require (leb (gen'.item_size * data_count) (length items))
  bytes ←
      store_all gen'.bytes (gen'.item_size * gen'.count) (take (gen'.item_size * data_count) items)
  let appended = record gen' { bytes = bytes; count = gen'.count + data_count }
  require (generic_array_is_consistent appended)
  some appended

-- The bytes of the item at an index: a read of `data[index]`.
unfoldable pub read_item : GenericArray → ℕ → Option (List ℕ)
read_item gen index = do
  require (leb (index * gen.item_size + gen.item_size) (length gen.bytes))
  some (take gen.item_size (drop (index * gen.item_size) gen.bytes))

-- The macros. An item is given by its bytes.
unfoldable pub array_push : GenericArray → List ℕ → Option GenericArray
array_push gen item = do
  to_fit ← isize (gen.count + 1)
  gen' ← generic_array_reserve gen to_fit
  bytes ← store_all gen'.bytes (gen'.count * gen'.item_size) item
  some (record gen' { bytes = bytes; count = gen'.count + 1 })

unfoldable pub array_pop : GenericArray → Option (List ℕ × GenericArray)
array_pop gen = do
  require (ltb 0 gen.count)
  item ← read_item gen (gen.count - 1)
  some (item, record gen { count = gen.count - 1 })

unfoldable pub array_last : GenericArray → Option (List ℕ)
array_last gen = do require (ltb 0 gen.count); read_item gen (gen.count - 1)

-- The assignment reads the last item and stores it at `index`.
unfoldable pub array_remove_unordered : GenericArray → ℕ → Option GenericArray
array_remove_unordered gen index = do
  require (ltb 0 gen.count)
  item ← read_item gen (gen.count - 1)
  bytes ← store_all gen.bytes (index * gen.item_size) item
  some (record gen { bytes = bytes; count = gen.count - 1 })

unfoldable pub array_clear : GenericArray → GenericArray
array_clear gen = record gen { count = 0 }

unfoldable pub array_assign : GenericArray → List ℕ → ℕ → Option GenericArray
array_assign gen items item_count = generic_array_append (array_clear gen) items item_count
