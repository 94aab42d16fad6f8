-- ===== src/Lib.antt =====
-- Models and proofs for cbasis, a C base library of mostly header-only modules: containers,
-- allocators, text encodings and a platform layer. The modules are independent but for the
-- allocator interface, a function pointer that containers call for memory.
--
-- Base: what the models share: tests on numbers, lists with native indices, memory as a list of
--   cells whose accesses are checked, what writes and exchanges do to the cells and to how often
--   an item occurs, signed integers, bit operations as arithmetic.
-- Utf: utf.h. Utf/Utf8, Utf/Utf16 and Utf/Utf32 hold a decoder and an encoder each, one branch or
--   shared check to a definition (`utf8_decode`, `utf8_branch`, `utf8_finish`, ...); Spec files
--   describe the encodings by arithmetic, independently of the code.
-- Array: array.h. The record `GenericArray` is `Generic_Array` with its `Untyped_Array`;
--   `generic_array_*` and `array_*` are the functions and macros of those names, with their
--   consistency checks, and with `isize` arithmetic that faults where it overflows (`GrowthFits` says
--   that no size of a growth does).
-- Probe: the probe sequence of the tables: its arithmetic, and that it visits every slot.
-- Hash: hash.h. Table holds the record and the searches (`hash_find_next` is `_hash_find_next`
--   with the iterator spelled out), Rehash the copies and the growth, Update insertion and
--   removal (`insert_reserved` is `_hash_find_or_insert` after its hash_reserve). Valid states
--   the invariant; Search, InsertLoop, SetLoop and Round follow one loop each; Find, Insert,
--   FindInserted, Remove and RemoveAll draw the theorems; Place, CopyAll, Grow and Reserve follow
--   a rehash, and Content, Multiset and Set say what a table holds, each entry as often as it
--   does, whatever its order; Bugs shows what three functions do amiss. The loops run on fuel: a
--   search has capacity + 1 rounds, which are enough since a valid table has an empty slot and
--   the probe meets it within capacity steps; the doubling of the capacity has 64 rounds, which
--   pass every `isize`. `_hash_check_consistency` is left out: it tests a macro that is never
--   defined, and does nothing. The `hash_backlink_*` functions are modelled where they have no
--   backlinks.
--
-- Sort: sort.h, over any items and any comparison `less`. Sort.antt has the insertion sort and the
--   heap sort, QuickSort the quick sort, Merge the merges, LowerBound the binary searches. Order
--   says what is asked of the comparison, Permuted what a sort may do to an array: `Permuted d lo
--   hi xs ys` has `ys` of the same length, with the same items each as often, changed only from
--   `lo` to before `hi`. Heap and Hole follow the order of a heap through the two ways to bubble
--   down, BubbleDown and TwoPhase the code; after two phases the last cell need not be in its
--   place (`Loose`), which PopOne shows to be enough. Tail is what both loops of heap_sort keep.
--   QuickSort/Regions says what order there is between rounds, Depth that the stack of 64 regions
--   is enough for any number of items below 2 ^ 63. The loops run on fuel: bubbling down visits
--   each index at most once, a partition moves both indices each round, a region of s items takes
--   at most 2 * s - 1 rounds, a merge pass at least doubles the width. The buffers that hold one
--   or two items are left out.
--
-- Base64: base64.h. `encode_bytes`, `decode_chunks`, `decode_block` and `decode_loop` are the loops
--   of base64_encode and base64_decode; Tables has the tables of the source. Words shows what the
--   test of four values in one word tells, Steps and LastBlock what a round does with what was
--   encoded, Reading with any input. Each round but the last reads a character, so that one round
--   more than there are characters is enough.
-- Align: the alignment of addresses in allocator.h, on 64-bit patterns. Arena: arena.h, with addresses as numbers and
--   the calls of the platform as parameters: any commit may fail.
-- LinkedList: list.h, over nodes at addresses and any nil value. Seg is a run of linked nodes, Insert
--   and Remove follow the three branches each of insertion and removal, Ops puts them against lists
--   of addresses, Commands runs of the functions; Nexts is a run of nodes linked one way, Single has
--   the chains and lists of such.
-- Scratch: scratch.h. Scratch.antt has both stacks of frames and all calls; Stack follows a fall and a
--   rise, Outcomes and Push a push on every branch, State and Blocks what each call keeps of the live
--   blocks, CallSafe and Safety the calls of a client in any order (`Call`), Start the arena at first,
--   with what is asked of the platform (`Lawful`); Consistent is about the tests of the code, Failures
--   and LastFrames about what goes amiss.
--
-- A value of type `uint8_t`, `uint32_t` or `isize` that cannot be negative is a natural number; the
-- casts are written out. `none` is undefined behaviour or a panic: an access outside a buffer, a
-- failed assertion, an allocation that fails with no error argument.
-- The operating system, floating point, timing and logging are not modelled.
mod Base
pub mod Utf
pub mod Array
pub mod Probe
pub mod Hash
pub mod Sort
pub mod Base64
pub mod Align
pub mod Arena
pub mod LinkedList
pub mod Scratch
