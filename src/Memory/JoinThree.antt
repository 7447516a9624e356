-- ===== src/Memory/JoinThree.antt =====
-- The branch of `memoryFree` of lib/src/memory/memoryAlloc.c that joins the block with both neighbours.
use mjvmk.Base.{
  ℕ, ◌+◌, ◌<◌, ◌≡◌, ◌≢◌, Bool, true, false, List, ◌==◌, ◌&&◌, ltb, if◌then◌else◌, arith, Bool-cases,
  inl, inr, ◌∙◌, ==_iff,
}
use mjvmk.LinkedList.Removes.{erase, Distinct-erase, has-erase_iff}
use mjvmk.Memory.{Heap, get_size, is_free, is_allocated_non_collectible}
use mjvmk.Memory.Free.{join_three, unlink_free, tell_neighbour}
use mjvmk.Memory.FreeList.{IsFreeList-frame}
use mjvmk.Memory.Unlink.{
  rest-unlink, limits-unlink, unlink_free-IsFreeList, forward-unlink_other, previous-has,
}
use mjvmk.Memory.Inv.{IsCoherent, points_back}
use mjvmk.Memory.Merge.{without_inner, IsMerge, merge-IsCoherent}
use mjvmk.Memory.FreeInv.{not_free, not_listed, in_list, before_free}

-- The free block `p`, the block `b` and the free block `n` follow each other.
module _ (h : Heap) (starts : ℕ → Bool) (frees : List ℕ) (v : IsCoherent h starts frees) (p b n : ℕ)
    (before : starts p ≡ true) (is_a_free : is_free p h ≡ true) (touch : p + get_size p h ≡ b)
    (start : starts b ≡ true) (in_use : is_allocated_non_collectible b h ≡ true)
    (behind : starts n ≡ true) (next_free : is_free n h ≡ true)
    (follow : b + get_size b h ≡ n) where
  abbrev pub total : ℕ
  total = get_size p h + get_size b h + get_size n h

  abbrev pub g : Heap
  g = join_three p b n h

  abbrev pub u : Heap
  u = unlink_free n h

  fits : total < 16777216
  fits = omega (arith, touch, follow, v.small, v.inside p before, v.inside n behind)

  kept :
      (y : ℕ)
      → (get_size y u ≡ get_size y h)
        × ((u.blocks y).flags ≡ (h.blocks y).flags)
        × ((u.blocks y).back ≡ (h.blocks y).back)
  kept = rest-unlink h n

  sizes : (y : ℕ) → get_size y g ≡ (if p == y then total else get_size y h)
  unfolding join_three tell_neighbour
  sizes y = ground (arith, fits, kept y, kept p, kept b, kept n)

  flags : (y : ℕ) → (g.blocks y).flags ≡ (if p == y then 0 else (h.blocks y).flags)
  unfolding join_three tell_neighbour
  flags y = ground (arith, kept y)

  backs :
      (y : ℕ)
      → (g.blocks y).back ≡ (
          if (n + get_size n h == y) && (ltb y h.heap_end && is_allocated_non_collectible y h)
          then p
          else (h.blocks y).back)
  unfolding join_three tell_neighbour
  backs y = ground (arith, kept y, kept n, limits-unlink h n)

  links :
      (y : ℕ)
      → ((g.blocks y).forward ≡ (u.blocks y).forward)
        × ((g.blocks y).previous_free ≡ (u.blocks y).previous_free)
  unfolding join_three tell_neighbour
  links y = (ground arith, ground arith)

  variables : (g.free_list ≡ u.free_list) × (g.heap ≡ h.heap) × (g.heap_end ≡ h.heap_end)
  unfolding join_three tell_neighbour
  variables = (ground arith, ground (arith, limits-unlink h n), ground (arith, limits-unlink h n))

  following : p + total ≡ n + get_size n h
  following = omega (arith, touch, follow)

  next_in_use : starts (n + get_size n h) ≡ true → is_free (n + get_size n h) h ≡ false
  next_in_use = v.no_free_neighbours n behind next_free

  back_after_lem :
      (y : ℕ)
      → without_inner p total starts y ≡ true
      → points_back y h ≡ true
      → (g.blocks y).back ≡ (if p + total == y then p else (h.blocks y).back)
  back_after_lem y s knows = elim (Bool-cases (n + get_size n h == y)) [
    | inl e ↦
        let at : n + get_size n h ≡ y = (==_iff _ _).0 e in
        let busy : is_free y h ≡ false = ground (arith, s, at, next_in_use) in
        ground (arith, at, following, busy, knows, backs y, v.inside y, s)
    | inr o ↦ ground (arith, o, following, backs y)
  ]

  -- Only a free block on the list gets another `forward`.
  forward_lem :
      (y : ℕ)
      → starts y ≡ true
      → is_allocated_non_collectible y h ≡ true
      → (g.blocks y).forward ≡ (h.blocks y).forward
  forward_lem y s t =
      let inside = in_list h starts frees v n behind next_free in
      let before = previous-has h 0 h.free_list frees n v.linked inside in
      let out = not_listed h starts frees v y s t in
      let nonzero : y ≢ 0 = omega (arith, v.positive, v.inside y s) in
      let ne : (h.blocks n).previous_free ≢ y = (λ e. ground (arith, e, before, out, nonzero)) in
      (links y).0 ∙ forward-unlink_other h n y ne

  pub three_IsMerge : IsMerge h starts p total g
  three_IsMerge = record {
    start = before;
    back_known = ground (arith, is_a_free);
    covers = omega arith;
    ends = omega (arith, following, v.inside n behind);
    whole = rw following (v.tiled n behind);
    next_in_use = rw following next_in_use;
    previous_in_use = λ y s e. before_free h starts frees v y p s before is_a_free e;
    same_heap = variables.1;
    same_end = variables.2;
    size_after = λ y s. sizes y;
    flags_after = flags;
    back_after = back_after_lem;
    forward_after = λ y s t o. forward_lem y s t;
  }

  -- The three blocks are one, which keeps the place of the first on the free list.
  pub join_three-IsCoherent : IsCoherent g (without_inner p total starts) (erase n frees)
  join_three-IsCoherent =
      merge-IsCoherent h starts frees v p total g three_IsMerge (erase n frees)
        (λ x. ground (
          arith,
          has-erase_iff x n frees v.distinct,
          v.listed x,
          v.apart p x,
          v.apart b x,
          v.apart x b,
          v.apart n x,
          v.apart x n,
          v.inside x,
          start,
          before,
          behind,
          touch,
          follow,
          is_a_free,
          not_free h starts frees v b start in_use,
        ))
        (rw (variables.0) (
          IsFreeList-frame u g 0 u.free_list (erase n frees) (λ y i. links y)
            (unlink_free-IsFreeList h n frees v.linked v.distinct
              (in_list h starts frees v n behind next_free))))
        (Distinct-erase n frees v.distinct)
