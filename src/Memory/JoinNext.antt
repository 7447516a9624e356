-- ===== src/Memory/JoinNext.antt =====
-- The branch of `memoryFree` of lib/src/memory/memoryAlloc.c that joins the block with the next one only.
use mjvmk.Base.{
  ℕ, ◌+◌, ◌<◌, ◌≡◌, ◌≢◌, Bool, true, false, List, ◌==◌, ◌&&◌, not, ltb, if◌then◌else◌, arith,
  Bool-cases, inl, inr, ◌∙◌, ==_iff,
}
use mjvmk.Memory.{Heap, get_size, is_free, is_allocated_non_collectible}
use mjvmk.Memory.Free.{join_next, replace_free, tell_neighbour}
use mjvmk.Memory.FreeList.{IsFreeList-frame}
use mjvmk.Memory.Unlink.{previous-has}
use mjvmk.Memory.Replace.{
  swap, has-swap, Distinct-swap, rest-replace, limits-replace, replace_free-IsFreeList,
  forward-replace_other,
}
use mjvmk.Memory.Inv.{IsCoherent, points_back}
use mjvmk.Memory.Merge.{without_inner, IsMerge, merge-IsCoherent}
use mjvmk.Memory.FreeInv.{not_listed, in_list, previous_lem}

-- The block `b` and the free block `n` follow each other.
module _ (h : Heap) (starts : ℕ → Bool) (frees : List ℕ) (v : IsCoherent h starts frees) (b n : ℕ)
    (start : starts b ≡ true) (in_use : is_allocated_non_collectible b h ≡ true)
    (behind : starts n ≡ true) (next_free : is_free n h ≡ true) (follow : b + get_size b h ≡ n)
    (previous_busy : (not ((h.blocks b).back == 0) && is_free (h.blocks b).back h) ≡ false) where
  abbrev pub total : ℕ
  total = get_size b h + get_size n h

  abbrev pub g : Heap
  g = join_next b n h

  abbrev pub u : Heap
  u = replace_free n b h

  fits : total < 16777216
  fits = omega (arith, follow, v.small, v.inside b start, v.inside n behind)

  kept :
      (y : ℕ)
      → (get_size y u ≡ get_size y h)
        × ((u.blocks y).flags ≡ (h.blocks y).flags)
        × ((u.blocks y).back ≡ (h.blocks y).back)
  kept = rest-replace h n b

  sizes : (y : ℕ) → get_size y g ≡ (if b == y then total else get_size y h)
  unfolding join_next tell_neighbour
  sizes y = ground (arith, fits, kept y, kept b, kept n)

  flags : (y : ℕ) → (g.blocks y).flags ≡ (if b == y then 0 else (h.blocks y).flags)
  unfolding join_next tell_neighbour
  flags y = ground (arith, kept y)

  backs :
      (y : ℕ)
      → (g.blocks y).back ≡ (
          if (n + get_size n h == y) && (ltb y h.heap_end && is_allocated_non_collectible y h)
          then b
          else (h.blocks y).back)
  unfolding join_next tell_neighbour
  backs y = ground (arith, kept y, kept n, limits-replace h n b)

  links :
      (y : ℕ)
      → ((g.blocks y).forward ≡ (u.blocks y).forward)
        × ((g.blocks y).previous_free ≡ (u.blocks y).previous_free)
  unfolding join_next tell_neighbour
  links y = (ground arith, ground arith)

  variables : (g.free_list ≡ u.free_list) × (g.heap ≡ h.heap) × (g.heap_end ≡ h.heap_end)
  unfolding join_next tell_neighbour
  variables =
      (ground arith, ground (arith, limits-replace h n b), ground (arith, limits-replace h n b))

  following : b + total ≡ n + get_size n h
  following = omega (arith, follow)

  next_in_use : starts (n + get_size n h) ≡ true → is_free (n + get_size n h) h ≡ false
  next_in_use = v.no_free_neighbours n behind next_free

  back_after_lem :
      (y : ℕ)
      → without_inner b total starts y ≡ true
      → points_back y h ≡ true
      → (g.blocks y).back ≡ (if b + total == y then b else (h.blocks y).back)
  back_after_lem y s knows = elim (Bool-cases (n + get_size n h == y)) [
    | inl e ↦
        let at : n + get_size n h ≡ y = (==_iff _ _).0 e in
        let busy : is_free y h ≡ false = ground (arith, s, at, next_in_use) in
        ground (arith, at, following, busy, knows, backs y, v.inside y, s)
    | inr o ↦ ground (arith, o, following, backs y)
  ]

  -- Only the block and free blocks on the list get another `forward`.
  forward_lem :
      (y : ℕ)
      → starts y ≡ true
      → is_allocated_non_collectible y h ≡ true
      → (b == y) ≡ false
      → (g.blocks y).forward ≡ (h.blocks y).forward
  forward_lem y s t o =
      let inside = in_list h starts frees v n behind next_free in
      let before = previous-has h 0 h.free_list frees n v.linked inside in
      let out = not_listed h starts frees v y s t in
      let nonzero : y ≢ 0 = omega (arith, v.positive, v.inside y s) in
      let ne : (h.blocks n).previous_free ≢ y = (λ e. ground (arith, e, before, out, nonzero)) in
      (links y).0 ∙ forward-replace_other h n b y (λ e. ground (arith, e, o)) ne

  pub next_IsMerge : IsMerge h starts b total g
  next_IsMerge = record {
    start = start;
    back_known = ground (arith, in_use);
    covers = omega arith;
    ends = omega (arith, following, v.inside n behind);
    whole = rw following (v.tiled n behind);
    next_in_use = rw following next_in_use;
    previous_in_use = λ y s e.
        let at = previous_lem h starts frees v b start in_use y s e in
        ground (arith, previous_busy, at);
    same_heap = variables.1;
    same_end = variables.2;
    size_after = λ y s. sizes y;
    flags_after = flags;
    back_after = back_after_lem;
    forward_after = forward_lem;
  }

  -- The two blocks are one, which takes the place of the next block on the free list.
  pub join_next-IsCoherent : IsCoherent g (without_inner b total starts) (swap n b frees)
  join_next-IsCoherent =
      let inside = in_list h starts frees v n behind next_free in
      let out = not_listed h starts frees v b start in_use in
      merge-IsCoherent h starts frees v b total g next_IsMerge (swap n b frees)
        (λ x. ground (
          arith,
          has-swap x n b frees v.distinct out inside,
          v.listed x,
          v.apart b x,
          v.apart n x,
          v.apart x n,
          v.inside x,
          start,
          behind,
          follow,
          next_free,
        ))
        (rw (variables.0) (
          IsFreeList-frame u g 0 u.free_list (swap n b frees) (λ y i. links y)
            (replace_free-IsFreeList h n b frees v.linked v.distinct inside out
              (λ e. omega (arith, e, v.positive, v.inside b start)))))
        (Distinct-swap n b frees v.distinct out)
