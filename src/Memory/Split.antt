-- ===== src/Memory/Split.antt =====
-- `allocateBlock` of lib/src/memory/memoryAlloc.c where it splits a free block in two.
use mjvmk.Base.{
  ℕ, ◌+◌, ◌-◌, ◌<◌, ◌≡◌, true, false, ◌==◌, ◌&&◌, ltb, if◌then◌else◌, arith, refl, Bool-cases, inl,
  inr,
}
use mjvmk.Memory.{Heap, get_size, is_free, is_allocated_non_collectible, non_collectible_bit}
use mjvmk.Memory.Allocate.{split_block}
use mjvmk.Memory.Inv.{next_or_null}

-- A request for a block that is not collectible, served from the free block `free`.
module _ (free required : ℕ) (h : Heap) where
  abbrev pub block : ℕ
  block = free + (get_size free h - required)

  abbrev pub after : Heap
  after = (split_block free required non_collectible_bit 0 h).1

  module _ (positive : 0 < required) (more : required < get_size free h)
      (small : get_size free h < 16777216) where
    pub size-split :
        (y : ℕ)
        → get_size y after ≡ (
            if free == y
            then get_size free h - required
            else if block == y
            then required
            else get_size y h)
    unfolding split_block
    size-split y = ground arith

    pub flags-split :
        (y : ℕ)
        → (after.blocks y).flags
          ≡ (if free == y then 0 else if block == y then 16 else (h.blocks y).flags)
    unfolding split_block
    flags-split y = ground arith

    pub back-split :
        (y : ℕ)
        → (after.blocks y).back ≡ (
            if (free + get_size free h == y)
              && (ltb y h.heap_end && is_allocated_non_collectible y h)
            then block
            else if block == y
            then free
            else (h.blocks y).back)
    unfolding split_block
    back-split y = ground arith

    pub forward-split :
        (y : ℕ)
        → (after.blocks y).forward
          ≡ (if block == y then next_or_null (free + get_size free h) h else (h.blocks y).forward)
    unfolding split_block
    forward-split y = ground arith

    pub previous_free-split : (y : ℕ) → (after.blocks y).previous_free ≡ (h.blocks y).previous_free
    unfolding split_block
    previous_free-split y = ground arith

    pub variables-split :
        (after.free_list ≡ h.free_list) × (after.heap ≡ h.heap) × (after.heap_end ≡ h.heap_end)
    unfolding split_block
    variables-split = (ground arith, ground arith, ground arith)

    pub free-split :
        (y : ℕ)
        → is_free y after ≡ (if free == y then true else if block == y then false else is_free y h)
    free-split y = elim (Bool-cases (free == y)) [
      | inl e ↦ rw (flags-split y, e) refl
      | inr n ↦ elim (Bool-cases (block == y)) [
        | inl e ↦ rw (flags-split y, n, e) refl
        | inr m ↦ rw (flags-split y, n, m) refl
      ]
    ]

    pub taken-split :
        (y : ℕ)
        → is_allocated_non_collectible y after ≡ (
            if free == y
            then false
            else if block == y
            then true
            else is_allocated_non_collectible y h)
    taken-split y = elim (Bool-cases (free == y)) [
      | inl e ↦ rw (flags-split y, e) refl
      | inr n ↦ elim (Bool-cases (block == y)) [
        | inl e ↦ rw (flags-split y, n, e) refl
        | inr m ↦ rw (flags-split y, n, m) refl
      ]
    ]
