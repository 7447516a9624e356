-- ===== src/Memory/Collect.antt =====
-- The garbage collection of lib/src/memory/garbageCollect.c, and the allocations of
-- lib/src/memory/memoryAlloc.c that fall back on it. The mark function is a parameter, as in the source. One
-- thread collects, so that garbageCollectionInProgress is false at each call; the monitors make each step one.
use mjvmk.Base.{ℕ, zero, suc, ◌*◌, ◌%◌, Option, none, some, ◌==◌, if◌then◌else◌, bit_and}
use mjvmk.Memory.{Heap, set_header, is_not_past_heap_end, following_block, non_collectible_bit}
use mjvmk.Memory.Allocate.{add_to_free_list, allocate_block}
use mjvmk.Memory.Sweep.{Walk, sweep}

-- `setWhite`: the two lowest flags are cleared.
abbrev pub set_white : ℕ → Heap → Heap
set_white b h = set_header b (λ x. record x { flags = bit_and x.flags 252 }) h

-- The loop of `whiten`.
unfoldable pub whiten_from : ℕ → ℕ → Heap → Heap
whiten_from zero b h = h
whiten_from (suc fuel) b h =
    let h₁ : Heap = set_white b h in
    let rest = whiten_from fuel (following_block b h₁) h₁ in
    if is_not_past_heap_end b h then rest else h

unfoldable pub whiten : ℕ → Heap → Heap
whiten fuel h = whiten_from fuel h.heap h

-- `runGarbageCollection` with the mark function.
unfoldable pub run_garbage_collection : ℕ → (Heap → Heap) → ℕ → Heap → Walk
run_garbage_collection fuel mark last h = sweep fuel last (mark h)

-- `addToFreeList`, where a block was released.
unfoldable pub add_released : Walk → Heap
add_released w = if w.released == 0 then w.heap else add_to_free_list w.released w.last w.heap

-- `garbageCollect`.
unfoldable pub garbage_collect : ℕ → (Heap → Heap) → ℕ → Heap → Heap
garbage_collect fuel mark last h = add_released (run_garbage_collection fuel mark last h)

-- An allocation that may have failed: the location and the heap, or `none` with the heap.
abbrev pub Allocation : Type 0
Allocation = Option ℕ × Heap

-- The heap of an allocation that fails is as it was.
abbrev pub allocation_of : Heap → Option (ℕ × Heap) → Allocation
allocation_of h none = (none, h)
allocation_of h (some (location, g)) = (some location, g)

-- `garbageCollectForMemory`.
unfoldable pub garbage_collect_for_memory :
    ℕ → (Heap → Heap) → ℕ → ℕ → ℕ → ℕ → ℕ → Heap → Allocation
garbage_collect_for_memory fuel mark last size mask items offset h =
    let collected : Heap = garbage_collect fuel mark last h in
    allocation_of collected (allocate_block fuel size mask items offset collected)

-- `collectibleMemoryAlloc`, in terms of what the first attempt gives.
unfoldable pub or_collect :
    ℕ → (Heap → Heap) → ℕ → ℕ → ℕ → ℕ → ℕ → Heap → Option (ℕ × Heap) → Allocation
or_collect fuel mark last size mask items offset h (some (location, g)) = (some location, g)
or_collect fuel mark last size mask items offset h none =
    garbage_collect_for_memory fuel mark last size mask items offset h

unfoldable pub collectible_memory_alloc : ℕ → (Heap → Heap) → ℕ → ℕ → ℕ → ℕ → ℕ → Heap → Allocation
collectible_memory_alloc fuel mark last size mask items offset h =
    or_collect fuel mark last size mask items offset h
      (allocate_block fuel size mask items offset h)

-- `memoryAlloc`: where both attempts fail, pMem is the NULL that allocateBlock leaves.
unfoldable pub memory_alloc : ℕ → (Heap → Heap) → ℕ → ℕ → Heap → Allocation
memory_alloc fuel mark last size h =
    or_collect fuel mark last size non_collectible_bit 0 0 h
      (allocate_block fuel size non_collectible_bit 0 0 h)

-- The headers of `memoryCalloc`; numBytes is a UINT32. The bytes that are set to zero are behind the header.
unfoldable pub memory_calloc : ℕ → (Heap → Heap) → ℕ → ℕ → ℕ → Heap → Allocation
memory_calloc fuel mark last num size h = memory_alloc fuel mark last ((num * size) % 4294967296) h

-- `memoryCallocMonitor` of a location that holds a monitor already, or 0. `monitor_size` is
-- sizeof(monitorStruct).
unfoldable pub memory_calloc_monitor : ℕ → (Heap → Heap) → ℕ → ℕ → ℕ → Heap → Allocation
memory_calloc_monitor fuel mark last monitor_size monitor h =
    let allocated : Allocation = memory_alloc fuel mark last monitor_size h in
    if monitor == 0 then allocated else (some monitor, h)
