-- ===== src/Memory/Sweep.antt =====
-- The sweep of lib/src/memory/garbageCollect.c: one walk through the blocks of the heap, which joins
-- unreferenced blocks and collects them in a list. The masks are those of garbageCollect.h.
use mjvmk.Base.{ℕ, zero, suc, ◌+◌, ◌-◌, Bool, not, ◌&&◌, ◌||◌, ◌==◌, if◌then◌else◌, bit_and}
use mjvmk.Memory.{
  Heap, is_free, get_size, set_size_and_set_free, set_free, set_back, set_forward,
  set_previous_free, is_not_past_heap_end, following_block,
}
use mjvmk.Memory.Free.{unlink_free, tell_neighbour}

-- The flags that `getBlackAndAllocatedFlagBits` leaves, and the cases that go on at the next block:
-- NON_COLLECTIBLE_BIT, REFERENCED_MASK, the three black masks and FREE_MASK.
abbrev pub is_skipped_flags : ℕ → Bool
is_skipped_flags flags =
    (bit_and flags 29 == 16)
    || (bit_and flags 29 == 17)
    || (bit_and flags 29 == 13)
    || (bit_and flags 29 == 9)
    || (bit_and flags 29 == 5)
    || (bit_and flags 29 == 0)

abbrev pub is_skipped : ℕ → Heap → Bool
is_skipped b h = is_skipped_flags (h.blocks b).flags

-- `isReferenced` and `isNotReferenced`.
abbrev pub is_referenced : ℕ → Heap → Bool
is_referenced b h = not (bit_and (h.blocks b).flags 17 == 0)

abbrev pub is_absorbed : ℕ → Heap → Bool
is_absorbed b h = is_not_past_heap_end b h && not (is_referenced b h)

-- The variables of `sweep`: pCollectibleBlock, pPreviousContiguous, pReleasedMemoryBlocks and
-- *ppLastInReleasedList, with the heap.
pub record Walk : Type 0 where
  pub heap : Heap
  pub block : ℕ
  pub previous : ℕ
  pub released : ℕ
  pub last : ℕ

-- The `do` loop from a block on: the free blocks leave the free list, up to the first referenced one.
unfoldable pub absorb : ℕ → ℕ → Heap → ℕ × Heap
absorb zero b h = (b, h)
absorb (suc fuel) b h =
    let h₁ : Heap = if is_free b h then unlink_free b h else h in
    let rest = absorb fuel (following_block b h₁) h₁ in if is_absorbed b h then rest else (b, h)

-- The blocks up to `next` join the free block before them.
unfoldable pub join_to_previous : ℕ → ℕ → ℕ → Heap → Heap
join_to_previous previous joined next h =
    tell_neighbour next previous (set_size_and_set_free previous (get_size previous h + joined) h)

-- The block itself becomes free, with those up to `next`.
unfoldable pub free_up_to : Bool → ℕ → ℕ → Heap → Heap
free_up_to absorbs block next h =
    if absorbs
    then tell_neighbour next block (set_size_and_set_free block (next - block) h)
    else set_free block h

-- The block comes first in the list of released blocks.
unfoldable pub release : ℕ → Walk → Heap → Walk
release block w h =
    let h₁ : Heap =
      set_previous_free block 0 (set_back block w.previous (set_forward block w.released h)) in
    let h₂ : Heap = if w.released == 0 then h₁ else set_previous_free w.released block h₁ in
    record w { heap = h₂; released = block; last = if w.released == 0 then block else w.last }

-- The body of the walk for a block that is not skipped: the block behind the collected ones, and the state.
unfoldable pub collect : ℕ → Walk → ℕ × Walk
collect fuel w =
    let first : ℕ = following_block w.block w.heap in
    let absorbs : Bool = is_absorbed first w.heap in
    let absorbed : ℕ × Heap = absorb fuel first w.heap in
    let next : ℕ = absorbed.0 in
    let h : Heap = absorbed.1 in
    let joined : ℕ = if absorbs then next - w.block else get_size w.block h in
    if not (w.previous == 0) && is_free w.previous h
    then (next, record w { heap = join_to_previous w.previous joined next h })
    else (next, release w.block w (free_up_to absorbs w.block next h))

-- The walk, one round for each block that is skipped or collected. Behind collected blocks, the next one is
-- not looked at again.
unfoldable pub walk : ℕ → Walk → Walk
walk zero w = w
walk (suc fuel) w =
    let skipped : ℕ = following_block w.block w.heap in
    let after_skip = walk fuel (record w { previous = w.block; block = skipped }) in
    let collected : ℕ × Walk = collect fuel w in
    let next : ℕ = collected.0 in
    let w₁ : Walk = collected.1 in
    let behind : ℕ = following_block next w₁.heap in
    let after_collection = walk fuel (record w₁ { previous = next; block = behind }) in
    if is_skipped w.block w.heap
    then (if is_not_past_heap_end skipped w.heap then after_skip else w)
    else if is_not_past_heap_end next w₁.heap && is_not_past_heap_end behind w₁.heap
    then after_collection
    else w₁

-- `sweep`. `last` is what *ppLastInReleasedList holds before.
unfoldable pub sweep : ℕ → ℕ → Heap → Walk
sweep fuel last h =
    walk fuel (record { heap = h; block = h.heap; previous = 0; released = 0; last = last })
