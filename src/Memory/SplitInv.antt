-- ===== src/Memory/SplitInv.antt =====
-- The headers fit together after `allocateBlock` of lib/src/memory/memoryAlloc.c has split a free block.
use mjvmk.Base.{
  ℕ, ◌+◌, ◌-◌, ◌≤◌, ◌<◌, ◌≡◌, ◌≢◌, Bool, true, false, List, ◌==◌, ◌&&◌, ◌||◌, ltb, if◌then◌else◌,
  arith, Bool-cases, inl, inr, sym, ◌∙◌,
}
use mjvmk.LinkedList.Chain.{has}
use mjvmk.Memory.{Heap, get_size, is_free, is_allocated_non_collectible}
use mjvmk.Memory.FreeList.{IsFreeList, IsFreeList-frame}
use mjvmk.Memory.Inv.{IsCoherent, points_back, next_or_null}
use mjvmk.Memory.Split.{
  block, after, flags-split, size-split, back-split, forward-split, previous_free-split,
  variables-split, free-split, taken-split,
}

abbrev pub with_block : ℕ → (ℕ → Bool) → ℕ → Bool
with_block c starts y = (c == y) || starts y

module _ (h : Heap) (starts : ℕ → Bool) (frees : List ℕ) (v : IsCoherent h starts frees)
    (free required : ℕ) (start : starts free ≡ true) (is_a_free : is_free free h ≡ true)
    (enough : 16 ≤ required) (rest : required + 16 ≤ get_size free h) where
  abbrev pub c : ℕ
  c = block free required h

  abbrev pub g : Heap
  g = after free required h

  fits : get_size free h < 16777216
  fits = omega (arith, v.inside free start, v.small)

  size_lem :
      (y : ℕ)
      → get_size y g ≡ (
          if free == y
          then get_size free h - required
          else if c == y
          then required
          else get_size y h)
  size_lem = size-split free required h (omega arith) (omega arith) fits

  free_lem :
      (y : ℕ) → is_free y g ≡ (if free == y then true else if c == y then false else is_free y h)
  free_lem = free-split free required h (omega arith) (omega arith) fits

  taken_lem :
      (y : ℕ)
      → is_allocated_non_collectible y g
        ≡ (if free == y then false else if c == y then true else is_allocated_non_collectible y h)
  taken_lem = taken-split free required h (omega arith) (omega arith) fits

  variables : (g.free_list ≡ h.free_list) × (g.heap ≡ h.heap) × (g.heap_end ≡ h.heap_end)
  variables = variables-split free required h (omega arith) (omega arith) fits

  pub new : starts c ≡ false
  new = elim (Bool-cases (starts c)) [
    | inl s ↦ absurd (omega (arith, v.apart free c start s (omega arith)))
    | inr n ↦ n
  ]

  -- The block is old, or the new one.
  inside_lem :
      (y : ℕ)
      → with_block c starts y ≡ true
      → (g.heap ≤ y) × (16 ≤ get_size y g) × (y + get_size y g ≤ g.heap_end)
  inside_lem y s =
      let i = v.inside free start in
      elim (Bool-cases (c == y)) [
        | inl e ↦ (
          ground (arith, e, i, variables, size_lem y),
          ground (arith, e, i, variables, size_lem y),
          ground (arith, e, i, variables, size_lem y),
        )
        | inr n ↦
            let o = v.inside y (ground (arith, s, n)) in
            (
              ground (arith, o, variables),
              ground (arith, o, i, n, size_lem y),
              ground (arith, o, i, n, variables, size_lem y),
            )
      ]

  tiled_lem :
      (y : ℕ)
      → with_block c starts y ≡ true
      → y + get_size y g < g.heap_end
      → with_block c starts (y + get_size y g) ≡ true
  tiled_lem y s l = elim (Bool-cases (c == y)) [
    | inl e ↦ ground (arith, e, v.tiled free start, variables, size_lem y)
    | inr n ↦ elim (Bool-cases (free == y)) [
      | inl e ↦ ground (arith, e, n, size_lem y)
      | inr m ↦ rw (size_lem y, n, m) (ground (arith, n, m, s, v.tiled y, variables, size_lem y, l))
    ]
  ]

  apart_lem :
      (x y : ℕ)
      → with_block c starts x ≡ true
      → with_block c starts y ≡ true
      → x < y
      → x + get_size x g ≤ y
  apart_lem x y s t l = ground (
    arith,
    s,
    t,
    l,
    start,
    size_lem x,
    v.apart x y,
    v.apart free y,
    v.apart x free,
    v.apart free x,
    v.inside free,
  )

  -- The block behind the one that is split, if there is one, is not free.
  behind : (y : ℕ) → free + get_size free h ≡ y → starts y ≡ true → is_free y h ≡ false
  behind y e s = ground (arith, e, s, start, is_a_free, v.no_free_neighbours free)

  back_lem :
      (y : ℕ)
      → (g.blocks y).back ≡ (
          if (free + get_size free h == y) && (ltb y h.heap_end && is_allocated_non_collectible y h)
          then c
          else if c == y
          then free
          else (h.blocks y).back)
  back_lem = back-split free required h (omega arith) (omega arith) fits

  first_back_lem : points_back g.heap g ≡ true → (g.blocks g.heap).back ≡ 0
  first_back_lem p =
      let i = v.inside free start in
      let same : g.heap ≡ h.heap = variables.1 in
      rw same (
        ground (
          arith,
          rw same at p,
          i,
          v.first,
          new,
          is_a_free,
          v.first_back,
          back_lem h.heap,
          free_lem h.heap,
          taken_lem h.heap,
        ))

  -- A block that points back in the new heap and is not the new block did so in the old one.
  points_back_lem : (y : ℕ) → (c == y) ≡ false → points_back y g ≡ true → points_back y h ≡ true
  points_back_lem y n p = ground (arith, p, n, is_a_free, free_lem y, taken_lem y)

  back_start_lem :
      (y : ℕ)
      → with_block c starts y ≡ true
      → points_back y g ≡ true
      → y ≢ g.heap
      → with_block c starts (g.blocks y).back ≡ true
  back_start_lem y s p ne = elim (Bool-cases (c == y)) [
    | inl e ↦ rw (back_lem y) (ground (arith, e, start))
    | inr n ↦
        rw (back_lem y) (ground (arith, n, ne, s, variables, v.back_start y, points_back_lem y n p))
  ]

  back_ends_lem :
      (y : ℕ)
      → with_block c starts y ≡ true
      → points_back y g ≡ true
      → y ≢ g.heap
      → (g.blocks y).back + get_size (g.blocks y).back g ≡ y
  back_ends_lem y s p ne = elim (Bool-cases (c == y)) [
    | inl e ↦
        let b : (g.blocks y).back ≡ free = ground (arith, e, back_lem y) in
        rw b (ground (arith, e, size_lem free))
    | inr n ↦ elim (Bool-cases (free + get_size free h == y)) [
      | inl at ↦
          let b : (g.blocks y).back ≡ c =
            ground (arith, at, n, s, back_lem y, behind y, points_back_lem y n p, v.inside y) in
          rw b (ground (arith, at, size_lem c))
      | inr other ↦
          let b : (g.blocks y).back ≡ (h.blocks y).back = ground (arith, other, n, back_lem y) in
          let old = points_back_lem y n p in
          let ne' : y ≢ h.heap = (λ e. ne (e ∙ sym variables.1)) in
          let before = v.back_start y (ground (arith, s, n)) old ne' in
          let ends = v.back_ends y (ground (arith, s, n)) old ne' in
          rw b (ground (arith, other, ends, before, new, size_lem (h.blocks y).back))
    ]
  ]

  forward_next_lem :
      (y : ℕ)
      → with_block c starts y ≡ true
      → is_allocated_non_collectible y g ≡ true
      → (g.blocks y).forward ≡ next_or_null (y + get_size y g) g
  forward_next_lem y s t =
      let f = forward-split free required h (omega arith) (omega arith) fits y in
      elim (Bool-cases (c == y)) [
        | inl e ↦ ground (arith, e, f, variables, size_lem y)
        | inr n ↦ ground (arith, n, s, t, f, variables, size_lem y, taken_lem y, v.forward_next y)
      ]

  no_free_neighbours_lem :
      (y : ℕ)
      → with_block c starts y ≡ true
      → is_free y g ≡ true
      → with_block c starts (y + get_size y g) ≡ true
      → is_free (y + get_size y g) g ≡ false
  no_free_neighbours_lem y s f t = elim (Bool-cases (free == y)) [
    | inl e ↦
        let at : y + get_size y g ≡ c = ground (arith, e, size_lem y) in
        rw at (ground (arith, free_lem c))
    | inr n ↦
        let old : (c == y) ≡ false = ground (arith, f, n, free_lem y) in
        let size : get_size y g ≡ get_size y h = ground (arith, n, old, size_lem y) in
        rw size (
          ground (
            arith,
            n,
            old,
            s,
            f,
            rw size at t,
            is_a_free,
            free_lem y,
            free_lem (y + get_size y h),
            v.no_free_neighbours y,
          ))
  ]

  unmarked_lem :
      (y : ℕ) → with_block c starts y ≡ true → is_free y g ≡ true → (g.blocks y).flags ≡ 0
  unmarked_lem y s f =
      let marks = flags-split free required h (omega arith) (omega arith) fits y in
      elim (Bool-cases (free == y)) [
        | inl e ↦ ground (arith, e, marks)
        | inr n ↦
            let old : (c == y) ≡ false = ground (arith, f, n, free_lem y) in
            rw (marks, n, old)
              (v.unmarked y (ground (arith, s, old)) (ground (arith, f, n, old, free_lem y)))
      ]

  listed_lem : (y : ℕ) → has y frees ≡ (with_block c starts y && is_free y g)
  listed_lem y = ground (arith, v.listed y, free_lem y, start, new, is_a_free)

  linked_lem : IsFreeList g 0 g.free_list frees
  linked_lem = rw (variables.0) (
      IsFreeList-frame h g 0 h.free_list frees
        (λ y i. (
          ground (
            arith,
            i,
            new,
            v.listed y,
            forward-split free required h (omega arith) (omega arith) fits y,
          ),
          previous_free-split free required h (omega arith) (omega arith) fits y,
        ))
        v.linked)

  -- A free block, and a required size that leaves a block behind: after the split the blocks of the heap
  -- are the old ones and the new one, and the free list is the same.
  pub split_block-IsCoherent : IsCoherent g (with_block c starts) frees
  split_block-IsCoherent = record {
    positive = omega (arith, variables, v.positive);
    small = omega (arith, variables, v.small);
    first = ground (arith, variables, v.first);
    inside = inside_lem;
    tiled = tiled_lem;
    apart = apart_lem;
    first_back = first_back_lem;
    back_start = back_start_lem;
    back_ends = back_ends_lem;
    forward_next = forward_next_lem;
    no_free_neighbours = no_free_neighbours_lem;
    unmarked = unmarked_lem;
    listed = listed_lem;
    linked = linked_lem;
    distinct = v.distinct;
  }
