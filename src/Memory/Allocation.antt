-- ===== src/Memory/Allocation.antt =====
-- `allocateBlock` of lib/src/memory/memoryAlloc.c for a block that is not collectible, as a whole.
use mjvmk.Base.{
  ℕ, ◌+◌, ◌-◌, ◌≤◌, ◌<◌, ◌≡◌, ◌≢◌, Bool, true, false, some, List, leb, arith, refl, length,
  Bool-cases, Option-cases, inl, inr, leb→le, ap, ◌∙◌,
}
use mjvmk.LinkedList.Chain.{has}
use mjvmk.LinkedList.Removes.{erase}
use mjvmk.Memory.{Heap, get_size, is_free, is_allocated_non_collectible, non_collectible_bit}
use mjvmk.Memory.Allocate.{allocate_block, required_size, serve, split_block, take_block}
use mjvmk.Memory.FirstFit.{
  first_fit, first_fit-none, first_fit-some, first_fit-previous, allocate_block-serve,
  le-required_size,
}
use mjvmk.Memory.Inv.{IsCoherent}
use mjvmk.Memory.Split.{free-split, block, after, size-split, taken-split}
use mjvmk.Memory.SplitInv.{with_block, split_block-IsCoherent, new}
use mjvmk.Memory.TakeInv.{free_lem, taken, take_block-IsCoherent, sizes, taken_lem}

-- A heap `g` in which the block in front of `location` has been allocated out of the heap `h`: the headers
-- fit together, the block is big enough and is none of the blocks that were in use, and those are still in
-- use with their sizes.
pub record Allocated (size offset : ℕ) (h : Heap) (starts : ℕ → Bool) (location : ℕ) (g : Heap)
    : Type 0 where
  pub starts_after : ℕ → Bool
  pub frees_after : List ℕ
  pub at : ℕ
  pub intact : IsCoherent g starts_after frees_after
  pub located : location ≡ at + 12 + offset
  pub started : starts_after at ≡ true
  pub marked : is_allocated_non_collectible at g ≡ true
  pub large : size + 12 ≤ get_size at g
  pub fresh : (y : ℕ) → starts y ≡ true → is_free y h ≡ false → y ≢ at
  pub others :
      (y : ℕ)
      → starts y ≡ true
      → is_free y h ≡ false
      → (starts_after y ≡ true) × (get_size y g ≡ get_size y h) × (is_free y g ≡ false)

module _ (size offset : ℕ) (h : Heap) (starts : ℕ → Bool) (frees : List ℕ)
    (v : IsCoherent h starts frees) (b : ℕ) (start : starts b ≡ true)
    (is_a_free : is_free b h ≡ true) (small : size + 12 < 4294967296)
    (fits : required_size size ≤ get_size b h) where
  split-Allocated :
      16 ≤ get_size b h - required_size size
      → Allocated size offset h starts
          (block b (required_size size) h + 12 + offset)
          (after b (required_size size) h)
  split-Allocated more =
      let n = le-required_size size small in
      let limit = v.inside b start in
      let sized =
        size-split b (required_size size) h (omega arith) (omega arith)
          (omega (arith, limit, v.small)) in
      let mark =
        taken-split b (required_size size) h (omega arith) (omega arith)
          (omega (arith, limit, v.small)) in
      let freed =
        free-split b (required_size size) h (omega arith) (omega arith)
          (omega (arith, limit, v.small)) in
      let fresh_block =
        new h starts frees v b (required_size size) start is_a_free n.1
          (omega (arith, fits, more)) in
      record {
        starts_after = with_block (block b (required_size size) h) starts;
        frees_after = frees;
        at = block b (required_size size) h;
        intact =
            split_block-IsCoherent h starts frees v b (required_size size) start is_a_free n.1
              (omega (arith, fits, more));
        located = refl;
        started = ground arith;
        marked = ground (arith, mark (block b (required_size size) h), more, fits, n);
        large = ground (arith, sized (block b (required_size size) h), more, fits, n);
        fresh = λ y s f e. ground (arith, s, e, fresh_block);
        others = λ y s f. (
          ground (arith, s),
          ground (arith, f, s, is_a_free, fresh_block, sized y),
          ground (arith, f, s, is_a_free, fresh_block, freed y),
        );
      }

  take-Allocated : Allocated size offset h starts (b + 12 + offset) (taken b h)
  take-Allocated =
      let n = le-required_size size small in
      record {
        starts_after = starts;
        frees_after = erase b frees;
        at = b;
        intact = take_block-IsCoherent h starts frees v b start is_a_free;
        located = refl;
        started = start;
        marked = ground (arith, taken_lem h starts frees v b start is_a_free b);
        large = omega (arith, n, fits, sizes h starts frees v b start is_a_free b);
        fresh = λ y s f e. ground (arith, f, e, is_a_free);
        others = λ y s f. (
          s,
          sizes h starts frees v b start is_a_free y,
          ground (arith, f, free_lem h starts frees v b start is_a_free y),
        );
      }

serve-split :
    (required offset : ℕ) (h : Heap) (at : ℕ × ℕ)
    → leb 16 (get_size at.1 h - required) ≡ true
    → serve required non_collectible_bit 0 offset h (some at)
      ≡ some (block at.1 required h + 12 + offset, after at.1 required h)
unfolding serve split_block
serve-split required offset h at more = rw more refl

serve-take :
    (required offset : ℕ) (h : Heap) (at : ℕ × ℕ)
    → leb 16 (get_size at.1 h - required) ≡ false
    → (h.blocks at.1).previous_free ≡ at.0
    → serve required non_collectible_bit 0 offset h (some at)
      ≡ some (at.1 + 12 + offset, taken at.1 h)
unfolding serve take_block
serve-take required offset h at less before = rw (less, before) refl

-- What is served from the first fit.
serve-Allocated :
    (size offset : ℕ) (h : Heap) (starts : ℕ → Bool) (frees : List ℕ) (at : ℕ × ℕ)
    → IsCoherent h starts frees
    → size + 12 < 4294967296
    → first_fit (required_size size) h 0 frees ≡ some at
    → (location : ℕ) × (g : Heap) × (serve
          (required_size size)
          non_collectible_bit
          0
          offset
          h
          (some at)
        ≡ some (location, g))
      × Allocated size offset h starts location g
serve-Allocated size offset h starts frees at v small e =
    let hit = first_fit-some (required_size size) h 0 frees at e in
    let before = first_fit-previous (required_size size) h 0 h.free_list frees at v.linked e in
    let both = v.listed at.1 in
    let start : starts at.1 ≡ true = ground (arith, both, hit.0) in
    let is_a_free : is_free at.1 h ≡ true = ground (arith, both, hit.0) in
    elim (Bool-cases (leb 16 (get_size at.1 h - required_size size))) [
      | inl more ↦ (
        block at.1 (required_size size) h + 12 + offset,
        after at.1 (required_size size) h,
        serve-split (required_size size) offset h at more,
        split-Allocated size offset h starts frees v at.1 start is_a_free small hit.1
            (leb→le _ _ more),
      )
      | inr less ↦ (
        at.1 + 12 + offset,
        taken at.1 h,
        serve-take (required_size size) offset h at less before,
        take-Allocated size offset h starts frees v at.1 start is_a_free small hit.1,
      )
    ]

-- In a heap whose headers fit together, where a free block is large enough for a request of less than
-- 2 ^ 32 - 12 bytes and its header, `allocateBlock` for a block that is not collectible succeeds, on as many rounds as there are
-- free blocks: the headers still fit together, the new block holds the bytes asked for, it is none of the
-- blocks that were in use, and those are still in use with their sizes.
pub allocate_block-Allocated :
    (fuel size offset : ℕ) (h : Heap) (starts : ℕ → Bool) (frees : List ℕ) (x : ℕ)
    → IsCoherent h starts frees
    → length frees ≤ fuel
    → size + 12 < 4294967296
    → has x frees ≡ true
    → required_size size ≤ get_size x h
    → (location : ℕ) × (g : Heap) × (allocate_block fuel size non_collectible_bit 0 offset h
        ≡ some (location, g))
      × Allocated size offset h starts location g
allocate_block-Allocated fuel size offset h starts frees x v enough small i large =
    elim (Option-cases (first_fit (required_size size) h 0 frees)) [
      | inl failed ↦
          absurd
            (omega (arith, large, (first_fit-none (required_size size) h 0 frees).0 failed x i))
      | inr (at, e) ↦
          let served = serve-Allocated size offset h starts frees at v small e in
          (
            served.0,
            served.1,
            allocate_block-serve fuel size non_collectible_bit 0 offset h frees enough v.linked
                ∙ (ap (serve (required_size size) non_collectible_bit 0 offset h) e ∙ served.2),
            served.3,
          )
    ]
