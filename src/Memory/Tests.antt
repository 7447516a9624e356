-- ===== src/Memory/Tests.antt =====
-- The theorems about the heap at a heap of 1000 bytes that starts at address 100.
use mjvmk.Base.{
  ℕ, ◌+◌, ◌≤◌, ◌<◌, ◌≡◌, ◌↔◌, Bool, true, if◌then◌else◌, Bool-cases, inl, inr, none, some, List, [],
  ◌∷◌, ◌==◌, arith, refl,
}
use mjvmk.LinkedList.Chain.{has}
use mjvmk.Memory.{
  Header, Heap, get_size, is_free, is_allocated_non_collectible, non_collectible_bit,
}
use mjvmk.Memory.Sweep.{is_referenced, sweep, walk, collect, release, free_up_to, absorb}
use mjvmk.Memory.Collect.{garbage_collect, run_garbage_collection, add_released}
use mjvmk.Memory.NoGarbage.{IsFilled, garbage_collect-IsFilled, garbage_collect-keeps_blocks}
use mjvmk.Memory.Keeps.{IsMarked}
use mjvmk.Memory.Swept.{IsSettled}
use mjvmk.Memory.Allocate.{add_to_free_list, initialize_heap, allocate_block, required_size}
use mjvmk.Memory.Free.{memory_free}
use mjvmk.Memory.Inv.{IsCoherent}
use mjvmk.Memory.FirstFit.{allocate_block-fails}
use mjvmk.Memory.Split.{after, block, taken-split}
use mjvmk.Memory.SplitInv.{with_block, split_block-IsCoherent}
use mjvmk.Memory.Allocation.{Allocated, allocate_block-Allocated}
use mjvmk.Memory.Freeing.{Freed, memory_free-Freed}
use mjvmk.Memory.Initial.{initialize_heap-IsCoherent}

abbrev unused : ℕ → Header
unused a = record { size = 7; flags = 7; back = 7; forward = 7; previous_free = 7 }

abbrev fresh_heap : Heap
fresh_heap = initialize_heap 100 1000 unused

abbrev at_start : ℕ → Bool
at_start y = 100 == y

fresh-IsCoherent : IsCoherent fresh_heap at_start (100 ∷ [])
fresh-IsCoherent =
    initialize_heap-IsCoherent 100 1000 unused (omega arith) (omega arith) (omega arith)

initialize_heap-IsCoherent_example : IsCoherent fresh_heap at_start (100 ∷ [])
initialize_heap-IsCoherent_example =
    initialize_heap-IsCoherent 100 1000 unused (omega arith) (omega arith) (omega arith)

fits : required_size 24 ≤ get_size 100 fresh_heap
unfolding required_size initialize_heap
fits = omega arith

allocate_block-Allocated_example :
    (location : ℕ) × (g : Heap) × (allocate_block 1 24 non_collectible_bit 0 0 fresh_heap
      ≡ some (location, g))
    × Allocated 24 0 fresh_heap at_start location g
allocate_block-Allocated_example =
    allocate_block-Allocated 1 24 0 fresh_heap at_start (100 ∷ []) 100 fresh-IsCoherent
      (omega arith) (omega arith) refl fits

allocate_block-fails_example :
    (allocate_block 1 2000 non_collectible_bit 0 0 fresh_heap ≡ none)
    ↔ ((x : ℕ) → has x (100 ∷ []) ≡ true → get_size x fresh_heap < required_size 2000)
allocate_block-fails_example =
    allocate_block-fails 1 2000 non_collectible_bit 0 0 fresh_heap (100 ∷ []) (omega arith)
      (fresh-IsCoherent.linked)

-- The heap with a block of 36 bytes at its end.
abbrev one_block : Heap
one_block = after 100 36 fresh_heap

free_at_start : is_free 100 fresh_heap ≡ true
unfolding initialize_heap
free_at_start = refl

room : 36 + 16 ≤ get_size 100 fresh_heap
unfolding initialize_heap
room = omega arith

sized : get_size 100 fresh_heap ≡ 1000
unfolding initialize_heap
sized = refl

one-IsCoherent : IsCoherent one_block (with_block (block 100 36 fresh_heap) at_start) (100 ∷ [])
one-IsCoherent =
    split_block-IsCoherent fresh_heap at_start (100 ∷ []) fresh-IsCoherent 100 36 refl free_at_start
      (omega arith) room

in_use : is_allocated_non_collectible (block 100 36 fresh_heap) one_block ≡ true
in_use =
    rw
      (taken-split 100 36 fresh_heap (omega arith) (omega (arith, sized)) (omega (arith, sized))
        (block 100 36 fresh_heap))
      (ground (arith, sized))

memory_free-Freed_example :
    Freed one_block
      (with_block (block 100 36 fresh_heap) at_start)
      (block 100 36 fresh_heap)
      (memory_free (block 100 36 fresh_heap + 12) one_block)
memory_free-Freed_example =
    memory_free-Freed one_block (with_block (block 100 36 fresh_heap) at_start) (100 ∷ [])
      (block 100 36 fresh_heap) one-IsCoherent (ground arith) in_use

-- A block that is not collectible at 100, and a white collectible block behind it.
abbrev with_garbage : Heap
with_garbage = record {
  blocks = λ b. record {
    size = if b == 100 then 40 else 60;
    flags = if b == 100 then 16 else if b == 140 then 12 else 0;
    back = 0;
    forward = 0;
    previous_free = 0;
  };
  free_list = 0;
  heap = 100;
  heap_end = 200;
}

with_garbage-IsMarked : IsMarked with_garbage
with_garbage-IsMarked y = elim (Bool-cases (y == 100)) [
  | inl e ↦ rw e (omega arith, refl)
  | inr n ↦ elim (Bool-cases (y == 140)) [
    | inl e ↦ rw (n, e) (omega arith, refl)
    | inr m ↦ rw (n, m) (omega arith, refl)
  ]
]

-- The collectible block comes on the free list.
garbage_collect-frees :
    ((garbage_collect 2 (λ h. h) 0 with_garbage).free_list ≡ 140)
    × (is_free 140 (garbage_collect 2 (λ h. h) 0 with_garbage) ≡ true)
unfolding garbage_collect run_garbage_collection sweep walk collect release free_up_to absorb
    add_released add_to_free_list
garbage_collect-frees = (refl, refl)

garbage_collect-IsFilled_example : IsFilled 100 200 (garbage_collect 2 (λ h. h) 0 with_garbage)
garbage_collect-IsFilled_example =
    garbage_collect-IsFilled 2 (λ h. h) 0 100 (140 ∷ []) with_garbage with_garbage-IsMarked
      (refl, omega arith, (refl, omega arith, refl)) (omega arith) (omega arith)

-- A referenced block at 160 behind a free and a white one.
abbrev with_live : Heap
with_live = record {
  blocks = λ b. record {
    size = if b == 160 then 40 else if b == 140 then 20 else 40;
    flags = if b == 160 then 16 else if b == 140 then 12 else 0;
    back = 0;
    forward = 0;
    previous_free = 0;
  };
  free_list = 100;
  heap = 100;
  heap_end = 200;
}

with_live-IsMarked : IsMarked with_live
with_live-IsMarked y = elim (Bool-cases (y == 160)) [
  | inl e ↦ rw e (omega arith, refl)
  | inr n ↦ elim (Bool-cases (y == 140)) [
    | inl e ↦ rw (n, e) (omega arith, refl)
    | inr m ↦ rw (n, m) (omega arith, refl)
  ]
]

garbage_collect-keeps_blocks_example :
    (qs : List ℕ) × IsSettled (garbage_collect 3 (λ h. h) 0 with_live) 100 qs 200
    × ((y : ℕ)
        → has y (100 ∷ 140 ∷ 160 ∷ []) ≡ true
        → is_referenced y with_live ≡ true
        → (has y qs ≡ true)
          × (((garbage_collect 3 (λ h. h) 0 with_live).blocks y).flags ≡ (with_live.blocks y).flags)
          × (get_size y (garbage_collect 3 (λ h. h) 0 with_live) ≡ get_size y with_live))
garbage_collect-keeps_blocks_example =
    garbage_collect-keeps_blocks 3 (λ h. h) 0 100 (140 ∷ 160 ∷ []) with_live with_live-IsMarked
      (refl, omega arith, (refl, omega arith, (refl, omega arith, refl))) (omega arith)
      (omega arith)
