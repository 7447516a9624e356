-- ===== src/Memory/Inv.antt =====
-- When the headers in the heap of lib/src/memory/heap.h fit together.
use mjvmk.Base.{
  ℕ, ◌+◌, ◌≤◌, ◌<◌, ◌≡◌, ◌≢◌, Bool, true, false, List, ◌&&◌, ◌||◌, ltb, if◌then◌else◌, refl,
  Bool-cases, inl, inr,
}
use mjvmk.LinkedList.Chain.{has, Distinct}
use mjvmk.Memory.{Heap, get_size, is_free, is_allocated_non_collectible}
use mjvmk.Memory.FreeList.{IsFreeList}

-- A block that points to the block before it: free or not collectible.
abbrev pub points_back : ℕ → Heap → Bool
points_back x h = is_free x h || is_allocated_non_collectible x h

-- The address behind a block, or NULL at the end of the heap.
abbrev pub next_or_null : ℕ → Heap → ℕ
next_or_null a h = if ltb a h.heap_end then a else 0

-- The blocks are at the addresses where `starts` holds, and `frees` lists the free ones in the order of
-- the free list: the blocks fill the heap, free blocks and those that are not collectible know the block
-- before them and the latter the one behind them, and no two free blocks are neighbours.
pub record IsCoherent (h : Heap) (starts : ℕ → Bool) (frees : List ℕ) : Type 0 where
  pub positive : 0 < h.heap
  pub small : h.heap_end < h.heap + 16777216
  pub first : starts h.heap ≡ true
  pub inside :
      (x : ℕ)
      → starts x ≡ true
      → (h.heap ≤ x) × (16 ≤ get_size x h) × (x + get_size x h ≤ h.heap_end)
  pub tiled :
      (x : ℕ) → starts x ≡ true → x + get_size x h < h.heap_end → starts (x + get_size x h) ≡ true
  pub apart : (x y : ℕ) → starts x ≡ true → starts y ≡ true → x < y → x + get_size x h ≤ y
  pub first_back : points_back h.heap h ≡ true → (h.blocks h.heap).back ≡ 0
  pub back_start :
      (x : ℕ)
      → starts x ≡ true
      → points_back x h ≡ true
      → x ≢ h.heap
      → starts (h.blocks x).back ≡ true
  pub back_ends :
      (x : ℕ)
      → starts x ≡ true
      → points_back x h ≡ true
      → x ≢ h.heap
      → (h.blocks x).back + get_size (h.blocks x).back h ≡ x
  pub forward_next :
      (x : ℕ)
      → starts x ≡ true
      → is_allocated_non_collectible x h ≡ true
      → (h.blocks x).forward ≡ next_or_null (x + get_size x h) h
  pub no_free_neighbours :
      (x : ℕ)
      → starts x ≡ true
      → is_free x h ≡ true
      → starts (x + get_size x h) ≡ true
      → is_free (x + get_size x h) h ≡ false
  pub unmarked : (x : ℕ) → starts x ≡ true → is_free x h ≡ true → (h.blocks x).flags ≡ 0
  pub listed : (x : ℕ) → has x frees ≡ (starts x && is_free x h)
  pub linked : IsFreeList h 0 h.free_list frees
  pub distinct : Distinct frees

-- A block that is not collectible is not free.
pub IsCoherent-taken_not_free :
    (h : Heap) (starts : ℕ → Bool) (frees : List ℕ)
    → IsCoherent h starts frees
    → (x : ℕ) → starts x ≡ true
    → is_allocated_non_collectible x h ≡ true
    → is_free x h ≡ false
IsCoherent-taken_not_free h starts frees v x s t = elim (Bool-cases (is_free x h)) [
  | inl f ↦ let unset : is_allocated_non_collectible x h ≡ false = rw (v.unmarked x s f) refl in cc
  | inr n ↦ n
]
