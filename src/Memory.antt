-- ===== src/Memory.antt =====
-- The heap of lib/src/memory/heap.h: every block begins with a header, and the free blocks form a doubly
-- linked list that ends in NULL. The memory gives the header at an address; NULL is 0. Pointers have four
-- bytes, so the header has 12 bytes and that of a free block 16.
pub mod Allocate
pub mod Free
pub mod FreeList
pub mod Unlink
pub mod Replace
pub mod FirstFit
pub mod Inv
pub mod Split
pub mod SplitInv
pub mod TakeInv
pub mod Allocation
pub mod Merge
pub mod FreeInv
pub mod JoinPrevious
pub mod JoinThree
pub mod JoinNext
pub mod Freeing
pub mod Initial
pub mod Resize
pub mod Sweep
pub mod Collect
pub mod Keeps
pub mod Swept
pub mod Garbage
pub mod NoGarbage
mod Tests
use mjvmk.Base.{ℕ, ◌+◌, ◌*◌, ◌%◌, Bool, not, ◌==◌, ltb, if◌then◌else◌, update, bit_and, bit_or}

-- `freeListBlockHeader`. The key is kept as its two parts: the size in its upper 24 bits, and the eight
-- flags. `back` and `forward` are the unions of the source.
pub record Header : Type 0 where
  pub size : ℕ
  pub flags : ℕ
  pub back : ℕ
  pub forward : ℕ
  pub previous_free : ℕ

-- `pFreeList`, `pHeap` and `pHeapEnd`.
pub record Heap : Type 0 where
  pub blocks : ℕ → Header
  pub free_list : ℕ
  pub heap : ℕ
  pub heap_end : ℕ

abbrev pub block_header_size : ℕ
block_header_size = 12

abbrev pub minimum_block_size : ℕ
minimum_block_size = 16

abbrev pub non_collectible_bit : ℕ
non_collectible_bit = 16

-- `isAllocatedNonCollectibleMask` and `isFree`, of the flags.
abbrev pub is_non_collectible : ℕ → Bool
is_non_collectible mask = not (bit_and mask 16 == 0)

abbrev pub is_free_flags : ℕ → Bool
is_free_flags flags = bit_and flags 28 == 0

-- `isAllocatedNonCollectible`.
abbrev pub is_allocated_non_collectible : ℕ → Heap → Bool
is_allocated_non_collectible b h = is_non_collectible (h.blocks b).flags

abbrev pub is_free : ℕ → Heap → Bool
is_free b h = is_free_flags (h.blocks b).flags

abbrev pub get_size : ℕ → Heap → ℕ
get_size b h = (h.blocks b).size

abbrev pub set_header : ℕ → (Header → Header) → Heap → Heap
set_header b f h = record h { blocks = update h.blocks b (f (h.blocks b)) }

-- The shift of the size into the key drops what is above 24 bits.
abbrev pub set_size_and_set_free : ℕ → ℕ → Heap → Heap
set_size_and_set_free b n h = set_header b (λ x. record x { size = n % 16777216; flags = 0 }) h

abbrev pub set_key_flags : ℕ → ℕ → Heap → Heap
set_key_flags b mask h = set_header b (λ x. record x { flags = bit_or x.flags mask }) h

abbrev pub set_free : ℕ → Heap → Heap
set_free b h = set_header b (λ x. record x { flags = 0 }) h

abbrev pub set_back : ℕ → ℕ → Heap → Heap
set_back b v h = set_header b (λ x. record x { back = v }) h

abbrev pub set_forward : ℕ → ℕ → Heap → Heap
set_forward b v h = set_header b (λ x. record x { forward = v }) h

abbrev pub set_previous_free : ℕ → ℕ → Heap → Heap
set_previous_free b v h = set_header b (λ x. record x { previous_free = v }) h

-- `isNotPastHeapEnd`, `getFollowingBlock` and `getBlockHeader`.
abbrev pub is_not_past_heap_end : ℕ → Heap → Bool
is_not_past_heap_end b h = ltb b h.heap_end

abbrev pub following_block : ℕ → Heap → ℕ
following_block b h = b + get_size b h
