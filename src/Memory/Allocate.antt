-- ===== src/Memory/Allocate.antt =====
-- `initializeHeap`, `addToFreeList`, `allocateBlock` and the two totals of lib/src/memory/memoryAlloc.c. The heap access
-- monitor makes each call one step. The configuration is ps/x86, with a concurrent garbage collector.
use mjvmk.Base.{
  ℕ, zero, suc, ◌+◌, ◌-◌, ◌*◌, ◌%◌, Option, none, some, ◌&&◌, ◌==◌, ltb, leb, if◌then◌else◌, bit_or,
}
use mjvmk.Memory.{
  Header, Heap, block_header_size, minimum_block_size, is_non_collectible,
  is_allocated_non_collectible, get_size, set_header, set_size_and_set_free, set_key_flags,
  set_back, set_forward, set_previous_free, is_not_past_heap_end,
}

-- Where `psInitializeHeap` succeeds: its memory starts at `start`, and its bytes are the headers `bytes`.
unfoldable pub initialize_heap : ℕ → ℕ → (ℕ → Header) → Heap
initialize_heap start size bytes =
    let fresh : Heap = record {
      blocks = bytes;
      free_list = start;
      heap = start;
      heap_end = start + size;
    } in
    set_size_and_set_free start size
      (set_header start (λ x. record x { previous_free = 0; forward = 0; back = 0 }) fresh)

-- The blocks that the garbage collector releases come first.
unfoldable pub add_to_free_list : ℕ → ℕ → Heap → Heap
add_to_free_list released last h =
    let h₁ : Heap = set_forward last h.free_list h in
    let h₂ : Heap = if h.free_list == 0 then h₁ else set_previous_free h.free_list last h₁ in
    record h₂ { free_list = released }

-- `requiredSize`, a UINT32.
unfoldable pub required_size : ℕ → ℕ
required_size size =
    let needed : ℕ = (size + block_header_size) % 4294967296 in
    if ltb needed minimum_block_size then minimum_block_size else needed

-- The loop over the free list, from the block `current` behind `previous`: the first block that is big
-- enough, and the one before it.
unfoldable pub find_block : ℕ → ℕ → Heap → ℕ → ℕ → Option (ℕ × ℕ)
find_block zero required h previous current = none
find_block (suc fuel) required h previous current =
    let later = find_block fuel required h current (h.blocks current).forward in
    if current == 0
    then none
    else if leb required (get_size current h)
    then some (previous, current)
    else later

-- `numContainedBlocks` is the upper half of the word that `forward` shares with the pointers.
abbrev pub set_contained : ℕ → ℕ → Heap → Heap
set_contained b items h =
    set_header b (λ x. record x { forward = x.forward % 65536 + 65536 * items }) h

-- `concurrentGCBlackenMask` in the branches for collectible blocks.
abbrev pub allocation_mask : ℕ → ℕ
allocation_mask mask = if is_non_collectible mask then mask else bit_or mask 1

-- The rear of a free block that is big enough for two: the new block and the heap.
unfoldable pub split_block : ℕ → ℕ → ℕ → ℕ → Heap → ℕ × Heap
split_block free required mask items h =
    let extra : ℕ = get_size free h - required in
    let block : ℕ = free + extra in
    let next : ℕ = block + required in
    let h₁ : Heap =
      if is_non_collectible mask
      then set_forward block (if is_not_past_heap_end next h then next else 0)
          (set_back block free h)
      else set_contained block items h in
    let h₂ : Heap =
      if is_not_past_heap_end next h₁ && is_allocated_non_collectible next h₁
      then set_back next block h₁
      else h₁ in
    let h₃ : Heap = set_size_and_set_free block required h₂ in
    let h₄ : Heap = set_key_flags block (allocation_mask mask) h₃ in
    (block, set_size_and_set_free free extra h₄)

-- `*ppPreviousPtr = pNextBlock`, and the pointer back.
unfoldable pub remove_from_free_list : ℕ → ℕ → Heap → Heap
remove_from_free_list previous block h =
    let next : ℕ = (h.blocks block).forward in
    let h₁ : Heap =
      if previous == 0 then record h { free_list = next } else set_forward previous next h in
    if next == 0 then h₁ else set_previous_free next previous h₁

-- A free block as a whole.
unfoldable pub take_block : ℕ → ℕ → ℕ → ℕ → Heap → ℕ × Heap
take_block previous block mask items h =
    let block_size : ℕ = get_size block h in
    let h₁ : Heap = remove_from_free_list previous block h in
    let next : ℕ = block + block_size in
    let h₂ : Heap =
      if is_non_collectible mask
      then set_forward block (if is_not_past_heap_end next h₁ then next else 0) h₁
      else set_contained block items h₁ in
    (block, set_key_flags block (allocation_mask mask) h₂)

-- What `allocateBlock` does with the block that the loop has found.
unfoldable pub serve : ℕ → ℕ → ℕ → ℕ → Heap → Option (ℕ × ℕ) → Option (ℕ × Heap)
serve required mask items offset h none = none
serve required mask items offset h (some (previous, block)) =
    let given : ℕ × Heap =
      if leb minimum_block_size (get_size block h - required)
      then split_block block required mask items h
      else take_block previous block mask items h in
    some (given.0 + block_header_size + offset, given.1)

-- `allocateBlock`: the location and the heap, or `none` for SC_FAILURE.
unfoldable pub allocate_block : ℕ → ℕ → ℕ → ℕ → ℕ → Heap → Option (ℕ × Heap)
allocate_block fuel size mask items offset h =
    serve (required_size size) mask items offset h
      (find_block fuel (required_size size) h 0 h.free_list)

unfoldable pub get_total_memory : Heap → ℕ
get_total_memory h = h.heap_end - h.heap

-- The loop of `getTotalAvailableMemory`, a UINT32.
unfoldable pub total_from : ℕ → ℕ → Heap → ℕ → ℕ
total_from zero total h block = total
total_from (suc fuel) total h block =
    let rest =
      total_from fuel ((total + get_size block h) % 4294967296) h (h.blocks block).forward in
    if block == 0 then total else rest

unfoldable pub get_total_available_memory : ℕ → Heap → ℕ
get_total_available_memory fuel h = total_from fuel 0 h h.free_list
