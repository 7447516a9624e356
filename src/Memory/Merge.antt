-- ===== src/Memory/Merge.antt =====
-- Blocks that become one free block: what all branches of `memoryFree` of lib/src/memory/memoryAlloc.c have in common.
use mjvmk.Base.{
  ℕ, ◌+◌, ◌≤◌, ◌<◌, ◌≡◌, ◌≢◌, Bool, true, false, List, ◌==◌, ◌&&◌, not, ltb, if◌then◌else◌, arith,
  refl, Bool-cases, inl, inr, sym, ◌∙◌,
}
use mjvmk.LinkedList.Chain.{has, Distinct}
use mjvmk.Memory.{Heap, get_size, is_free, is_allocated_non_collectible}
use mjvmk.Memory.FreeList.{IsFreeList}
use mjvmk.Memory.Inv.{IsCoherent, points_back, next_or_null}

-- The blocks that begin inside another one are gone.
abbrev pub without_inner : ℕ → ℕ → (ℕ → Bool) → ℕ → Bool
without_inner a total starts y = starts y && not (ltb a y && ltb y (a + total))

-- The heap `g` has one free block of `total` bytes where `h` has whole blocks from `a` on, the headers
-- outside are the same, and the next block that is not collectible points back to it.
pub record IsMerge (h : Heap) (starts : ℕ → Bool) (a total : ℕ) (g : Heap) : Type 0 where
  pub start : starts a ≡ true
  pub back_known : points_back a h ≡ true
  pub covers : get_size a h ≤ total
  pub ends : a + total ≤ h.heap_end
  pub whole : a + total < h.heap_end → starts (a + total) ≡ true
  pub next_in_use : starts (a + total) ≡ true → is_free (a + total) h ≡ false
  pub previous_in_use : (y : ℕ) → starts y ≡ true → y + get_size y h ≡ a → is_free y h ≡ false
  pub same_heap : g.heap ≡ h.heap
  pub same_end : g.heap_end ≡ h.heap_end
  pub size_after :
      (y : ℕ) → starts y ≡ true → get_size y g ≡ (if a == y then total else get_size y h)
  pub flags_after : (y : ℕ) → (g.blocks y).flags ≡ (if a == y then 0 else (h.blocks y).flags)
  pub back_after :
      (y : ℕ)
      → without_inner a total starts y ≡ true
      → points_back y h ≡ true
      → (g.blocks y).back ≡ (if a + total == y then a else (h.blocks y).back)
  pub forward_after :
      (y : ℕ)
      → starts y ≡ true
      → is_allocated_non_collectible y h ≡ true
      → (a == y) ≡ false
      → (g.blocks y).forward ≡ (h.blocks y).forward

module _ (h : Heap) (starts : ℕ → Bool) (frees : List ℕ) (v : IsCoherent h starts frees)
    (a total : ℕ) (g : Heap) (m : IsMerge h starts a total g) (frees_after : List ℕ) where
  abbrev after : ℕ → Bool
  after = without_inner a total starts

  large : 16 ≤ total
  large = omega (arith, m.covers, v.inside a m.start)

  old : (y : ℕ) → after y ≡ true → starts y ≡ true
  old y s = ground (arith, s)

  pub free_lem : (y : ℕ) → is_free y g ≡ (if a == y then true else is_free y h)
  free_lem y = elim (Bool-cases (a == y)) [
    | inl e ↦ rw (m.flags_after y, e) refl
    | inr n ↦ rw (m.flags_after y, n) refl
  ]

  taken_lem :
      (y : ℕ)
      → is_allocated_non_collectible y g
        ≡ (if a == y then false else is_allocated_non_collectible y h)
  taken_lem y = elim (Bool-cases (a == y)) [
    | inl e ↦ rw (m.flags_after y, e) refl
    | inr n ↦ rw (m.flags_after y, n) refl
  ]

  points_back_lem : (y : ℕ) → points_back y g ≡ true → points_back y h ≡ true
  points_back_lem y p = elim (Bool-cases (a == y)) [
    | inl e ↦ ground (arith, e, m.back_known)
    | inr n ↦ ground (arith, n, p, free_lem y, taken_lem y)
  ]

  -- An old block lies before the new one or behind it, or is it.
  inside_lem :
      (y : ℕ)
      → after y ≡ true
      → (g.heap ≤ y) × (16 ≤ get_size y g) × (y + get_size y g ≤ g.heap_end)
  inside_lem y s =
      let i = v.inside y (old y s) in
      let size = m.size_after y (old y s) in
      (
        omega (arith, i, m.same_heap),
        ground (arith, i, large, size),
        ground (arith, i, m.ends, m.same_end, size),
      )

  tiled_lem :
      (y : ℕ) → after y ≡ true → y + get_size y g < g.heap_end → after (y + get_size y g) ≡ true
  tiled_lem y s l =
      let size = m.size_after y (old y s) in
      elim (Bool-cases (a == y)) [
        | inl e ↦
            let at : y + get_size y g ≡ a + total = ground (arith, e, size) in
            rw at (ground (arith, m.whole, at, l, m.same_end))
        | inr n ↦
            let at : get_size y g ≡ get_size y h = ground (arith, n, size) in
            rw at (
              ground
                (arith, n, s, rw at at l, m.same_end, v.tiled y, v.apart y a, v.inside y, m.start))
      ]

  apart_lem : (x y : ℕ) → after x ≡ true → after y ≡ true → x < y → x + get_size x g ≤ y
  apart_lem x y s t l = ground (arith, s, t, l, m.size_after x (old x s), v.apart x y)

  -- The block before `y` is as it was, where `y` is neither the new block's end nor inside it.
  kept_lem :
      (y q : ℕ)
      → after y ≡ true
      → (a + total == y) ≡ false
      → starts q ≡ true
      → q + get_size q h ≡ y
      → after q ≡ true
  kept_lem y q s far o e = ground (
    arith,
    s,
    far,
    o,
    e,
    v.inside y (old y s),
    v.inside q o,
    m.whole,
    m.ends,
    v.apart q (a + total),
  )

  first_back_lem : points_back g.heap g ≡ true → (g.blocks g.heap).back ≡ 0
  first_back_lem p =
      let same = m.same_heap in
      let here : after h.heap ≡ true = ground (arith, v.first, v.inside a m.start) in
      let knows : points_back h.heap h ≡ true = points_back_lem h.heap (rw same at p) in
      let before = v.inside a m.start in
      rw same (ground (arith, large, before, m.back_after h.heap here knows, v.first_back knows))

  back_start_lem :
      (y : ℕ)
      → after y ≡ true
      → points_back y g ≡ true
      → y ≢ g.heap
      → after (g.blocks y).back ≡ true
  back_start_lem y s p ne =
      let knows = points_back_lem y p in
      let back = m.back_after y s knows in
      let ne' : y ≢ h.heap = (λ e. ne (e ∙ sym m.same_heap)) in
      elim (Bool-cases (a + total == y)) [
        | inl e ↦
            let b : (g.blocks y).back ≡ a = ground (arith, e, back) in
            rw b (ground (arith, m.start))
        | inr n ↦
            let b : (g.blocks y).back ≡ (h.blocks y).back = ground (arith, n, back) in
            rw b (
              kept_lem y (h.blocks y).back s n (v.back_start y (old y s) knows ne')
                (v.back_ends y (old y s) knows ne'))
      ]

  back_ends_lem :
      (y : ℕ)
      → after y ≡ true
      → points_back y g ≡ true
      → y ≢ g.heap
      → (g.blocks y).back + get_size (g.blocks y).back g ≡ y
  back_ends_lem y s p ne =
      let knows = points_back_lem y p in
      let back = m.back_after y s knows in
      let ne' : y ≢ h.heap = (λ e. ne (e ∙ sym m.same_heap)) in
      elim (Bool-cases (a + total == y)) [
        | inl e ↦
            let b : (g.blocks y).back ≡ a = ground (arith, e, back) in
            rw b (ground (arith, e, m.size_after a m.start))
        | inr n ↦
            let b : (g.blocks y).back ≡ (h.blocks y).back = ground (arith, n, back) in
            let started = v.back_start y (old y s) knows ne' in
            let ends = v.back_ends y (old y s) knows ne' in
            let other : (a == (h.blocks y).back) ≡ false =
              apart_from y (h.blocks y).back s n started ends in
            rw b (ground (arith, other, ends, m.size_after (h.blocks y).back started))
      ]
    where
      apart_from :
          (y q : ℕ)
          → after y ≡ true
          → (a + total == y) ≡ false
          → starts q ≡ true
          → q + get_size q h ≡ y
          → (a == q) ≡ false
      apart_from y q s n o e = ground (arith, s, n, o, e, m.covers, v.inside q o)

  forward_next_lem :
      (y : ℕ)
      → after y ≡ true
      → is_allocated_non_collectible y g ≡ true
      → (g.blocks y).forward ≡ next_or_null (y + get_size y g) g
  forward_next_lem y s t =
      let n : (a == y) ≡ false = ground (arith, t, taken_lem y) in
      let knew : is_allocated_non_collectible y h ≡ true = ground (arith, n, t, taken_lem y) in
      ground (
        arith,
        n,
        m.size_after y (old y s),
        m.same_end,
        v.forward_next y (old y s) knew,
        m.forward_after y (old y s) knew n,
      )

  no_free_neighbours_lem :
      (y : ℕ)
      → after y ≡ true
      → is_free y g ≡ true
      → after (y + get_size y g) ≡ true
      → is_free (y + get_size y g) g ≡ false
  no_free_neighbours_lem y s f t =
      let size = m.size_after y (old y s) in
      elim (Bool-cases (a == y)) [
        | inl e ↦
            let at : y + get_size y g ≡ a + total = ground (arith, e, size) in
            rw at (ground (arith, large, rw at at t, m.next_in_use, free_lem (a + total)))
        | inr n ↦
            let at : get_size y g ≡ get_size y h = ground (arith, n, size) in
            rw at (
              ground (
                arith,
                n,
                f,
                rw at at t,
                old y s,
                free_lem y,
                free_lem (y + get_size y h),
                m.previous_in_use y,
                v.no_free_neighbours y,
              ))
      ]

  unmarked_lem : (y : ℕ) → after y ≡ true → is_free y g ≡ true → (g.blocks y).flags ≡ 0
  unmarked_lem y s f = ground (arith, f, m.flags_after y, free_lem y, v.unmarked y (old y s))

  -- The new heap's headers fit together, where its free list has the free blocks.
  pub merge-IsCoherent :
      ((x : ℕ) → has x frees_after ≡ (after x && (if a == x then true else is_free x h)))
      → IsFreeList g 0 g.free_list frees_after
      → Distinct frees_after
      → IsCoherent g after frees_after
  merge-IsCoherent listed linked distinct = record {
    positive = omega (arith, m.same_heap, v.positive);
    small = omega (arith, m.same_heap, m.same_end, v.small);
    first = ground (arith, m.same_heap, v.first, v.inside a m.start);
    inside = inside_lem;
    tiled = tiled_lem;
    apart = apart_lem;
    first_back = first_back_lem;
    back_start = back_start_lem;
    back_ends = back_ends_lem;
    forward_next = forward_next_lem;
    no_free_neighbours = no_free_neighbours_lem;
    unmarked = unmarked_lem;
    listed = λ x. ground (arith, listed x, free_lem x);
    linked = linked;
    distinct = distinct;
  }
