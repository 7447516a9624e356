-- ===== src/Memory/Free.antt =====
-- `memoryFree` and the table that grows, of lib/src/memory/memoryAlloc.c. The heap access monitor makes a call one step.
use mjvmk.Base.{ℕ, zero, suc, ◌+◌, ◌-◌, ◌%◌, Bool, not, ◌&&◌, ◌==◌, ltb, if◌then◌else◌}
use mjvmk.Memory.{
  Heap, block_header_size, is_allocated_non_collectible, is_free, get_size, set_size_and_set_free,
  set_free, set_back, set_forward, set_previous_free, is_not_past_heap_end, following_block,
}

-- A free block leaves the free list.
unfoldable pub unlink_free : ℕ → Heap → Heap
unlink_free b h =
    let previous : ℕ = (h.blocks b).previous_free in
    let next : ℕ = (h.blocks b).forward in
    let h₁ : Heap =
      if previous == 0 then record h { free_list = next } else set_forward previous next h in
    if next == 0 then h₁ else set_previous_free next previous h₁

-- The block `new` takes the place of the free block `old` on the free list.
unfoldable pub replace_free : ℕ → ℕ → Heap → Heap
replace_free old new h =
    let previous : ℕ = (h.blocks old).previous_free in
    let next : ℕ = (h.blocks old).forward in
    let h₁ : Heap =
      if previous == 0 then record h { free_list = new } else set_forward previous new h in
    let h₂ : Heap = set_previous_free new previous h₁ in
    let h₃ : Heap = if next == 0 then h₂ else set_previous_free next new h₂ in
    set_forward new next h₃

-- The neighbour behind a block that joins learns of its new neighbour.
unfoldable pub tell_neighbour : ℕ → ℕ → Heap → Heap
tell_neighbour neighbour block h =
    if is_not_past_heap_end neighbour h && is_allocated_non_collectible neighbour h
    then set_back neighbour block h
    else h

-- The four branches of `memoryFree`: the block joins both neighbours, the previous one or the next one, or
-- stays alone.
unfoldable pub join_three : ℕ → ℕ → ℕ → Heap → Heap
join_three previous block next h =
    let h₁ : Heap = unlink_free next h in
    let h₂ : Heap = tell_neighbour (following_block next h₁) previous h₁ in
    set_size_and_set_free previous (get_size previous h₂ + get_size block h₂ + get_size next h₂) h₂

unfoldable pub join_previous : ℕ → ℕ → ℕ → Heap → Heap
join_previous previous block next h =
    let h₁ : Heap =
      if not (next == 0) && is_allocated_non_collectible next h
      then set_back next previous h
      else h in
    set_size_and_set_free previous (get_size previous h₁ + get_size block h₁) h₁

unfoldable pub join_next : ℕ → ℕ → Heap → Heap
join_next block next h =
    let h₁ : Heap = replace_free next block h in
    let h₂ : Heap = tell_neighbour (following_block next h₁) block h₁ in
    set_size_and_set_free block (get_size block h₂ + get_size next h₂) h₂

unfoldable pub free_alone : ℕ → Heap → Heap
free_alone block h =
    let h₁ : Heap = set_previous_free block 0 (set_forward block h.free_list h) in
    let h₂ : Heap = if h.free_list == 0 then h₁ else set_previous_free h.free_list block h₁ in
    set_free block (record h₂ { free_list = block })

-- `memoryFree` of an allocated non-collectible block.
unfoldable pub memory_free : ℕ → Heap → Heap
memory_free mem h =
    let block : ℕ = mem - block_header_size in
    let next : ℕ = (h.blocks block).forward in
    let previous : ℕ = (h.blocks block).back in
    let next_is_free : Bool = not (next == 0) && is_free next h in
    if not (previous == 0) && is_free previous h
    then (if next_is_free
        then join_three previous block next h
        else join_previous previous block next h)
    else (if next_is_free then join_next block next h else free_alone block h)

-- The loop of `resizeTable` that adds blocks to a UINT16 until the table is large enough.
unfoldable pub new_table_size : ℕ → ℕ → ℕ → ℕ → ℕ
new_table_size zero block_size required size = size
new_table_size (suc fuel) block_size required size =
    let larger = new_table_size fuel block_size required ((size + block_size) % 65536) in
    if ltb size required then larger else size
