-- ===== src/Memory/JoinPrevious.antt =====
-- The branch of `memoryFree` of lib/src/memory/memoryAlloc.c that joins the block with the previous one only.
use mjvmk.Base.{
  ℕ, ◌+◌, ◌<◌, ◌≡◌, Bool, true, false, List, ◌==◌, ◌&&◌, not, if◌then◌else◌, arith, Bool-cases, inl,
  inr, ==_iff,
}
use mjvmk.Memory.{Heap, get_size, is_free, is_allocated_non_collectible}
use mjvmk.Memory.Free.{join_previous}
use mjvmk.Memory.FreeList.{IsFreeList-frame}
use mjvmk.Memory.Inv.{IsCoherent, points_back}
use mjvmk.Memory.Merge.{without_inner, IsMerge, merge-IsCoherent}
use mjvmk.Memory.FreeInv.{not_free, next_lem, next_in_use, before_free}

-- The free block `p` ends where the block `b` starts.
module _ (h : Heap) (starts : ℕ → Bool) (frees : List ℕ) (v : IsCoherent h starts frees) (p b : ℕ)
    (before : starts p ≡ true) (is_a_free : is_free p h ≡ true) (touch : p + get_size p h ≡ b)
    (start : starts b ≡ true) (in_use : is_allocated_non_collectible b h ≡ true)
    (next_busy : (not ((h.blocks b).forward == 0) && is_free (h.blocks b).forward h) ≡ false) where
  abbrev pub total : ℕ
  total = get_size p h + get_size b h

  abbrev pub g : Heap
  g = join_previous p b (h.blocks b).forward h

  fits : get_size p h + get_size b h < 16777216
  fits = omega (arith, touch, v.small, v.inside p before, v.inside b start)

  sizes : (y : ℕ) → get_size y g ≡ (if p == y then total else get_size y h)
  unfolding join_previous
  sizes y = ground (arith, fits)

  flags : (y : ℕ) → (g.blocks y).flags ≡ (if p == y then 0 else (h.blocks y).flags)
  unfolding join_previous
  flags y = ground arith

  backs :
      (y : ℕ)
      → (g.blocks y).back ≡ (
          if not ((h.blocks b).forward == 0)
            && (((h.blocks b).forward == y) && is_allocated_non_collectible y h)
          then p
          else (h.blocks y).back)
  unfolding join_previous
  backs y = ground arith

  links :
      (y : ℕ)
      → ((g.blocks y).forward ≡ (h.blocks y).forward)
        × ((g.blocks y).previous_free ≡ (h.blocks y).previous_free)
  unfolding join_previous
  links y = (ground arith, ground arith)

  variables : (g.free_list ≡ h.free_list) × (g.heap ≡ h.heap) × (g.heap_end ≡ h.heap_end)
  unfolding join_previous
  variables = (ground arith, ground arith, ground arith)

  following : p + total ≡ b + get_size b h
  following = omega (arith, touch)

  back_after_lem :
      (y : ℕ)
      → without_inner p total starts y ≡ true
      → points_back y h ≡ true
      → (g.blocks y).back ≡ (if p + total == y then p else (h.blocks y).back)
  back_after_lem y s knows = elim (Bool-cases (b + get_size b h == y)) [
    | inl e ↦
        let at : b + get_size b h ≡ y = (==_iff _ _).0 e in
        let started : starts (b + get_size b h) ≡ true = ground (arith, s, at) in
        let next = next_lem h starts frees v b start in_use started in
        let busy = next_in_use h starts frees v b start in_use next_busy started in
        ground (arith, at, following, next, busy, knows, backs y)
    | inr n ↦ ground (arith, n, following, backs y, v.forward_next b start in_use)
  ]

  pub previous_IsMerge : IsMerge h starts p total g
  previous_IsMerge = record {
    start = before;
    back_known = ground (arith, is_a_free);
    covers = omega arith;
    ends = omega (arith, following, v.inside b start);
    whole = rw following (v.tiled b start);
    next_in_use = rw following (next_in_use h starts frees v b start in_use next_busy);
    previous_in_use = λ y s e. before_free h starts frees v y p s before is_a_free e;
    same_heap = variables.1;
    same_end = variables.2;
    size_after = λ y s. sizes y;
    flags_after = flags;
    back_after = back_after_lem;
    forward_after = λ y s t n. (links y).0;
  }

  -- The block joins the previous one, which keeps its place on the free list.
  pub join_previous-IsCoherent : IsCoherent g (without_inner p total starts) frees
  join_previous-IsCoherent =
      merge-IsCoherent h starts frees v p total g previous_IsMerge frees
        (λ x. ground (
          arith,
          v.listed x,
          v.apart p x,
          v.apart b x,
          v.apart x b,
          v.inside x,
          start,
          before,
          touch,
          is_a_free,
          not_free h starts frees v b start in_use,
        ))
        (rw (variables.0) (IsFreeList-frame h g 0 h.free_list frees (λ y i. links y) v.linked))
        v.distinct
