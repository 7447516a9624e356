-- ===== src/Memory/TakeInv.antt =====
-- The headers fit together after `allocateBlock` of lib/src/memory/memoryAlloc.c has taken a whole free block.
use mjvmk.Base.{
  ℕ, ◌+◌, ◌≡◌, ◌≢◌, Bool, true, false, List, ◌==◌, if◌then◌else◌, arith, refl, Bool-cases, inl, inr,
  ◌∙◌, bit_or, zero-bit_or,
}
use mjvmk.LinkedList.Chain.{has}
use mjvmk.LinkedList.Removes.{erase, Distinct-erase, has-erase_iff}
use mjvmk.Memory.{Heap, get_size, is_free, is_allocated_non_collectible, non_collectible_bit}
use mjvmk.Memory.Allocate.{take_block}
use mjvmk.Memory.Free.{unlink_free}
use mjvmk.Memory.FreeList.{IsFreeList, IsFreeList-frame}
use mjvmk.Memory.Unlink.{
  unlink_free-IsFreeList, remove_from_free_list-unlink_free, rest-unlink, limits-unlink,
  forward-unlink_other, previous-has,
}
use mjvmk.Memory.Inv.{IsCoherent, points_back, next_or_null, IsCoherent-taken_not_free}

-- A request for a block that is not collectible, served by all of the free block `b`.
module _ (b : ℕ) (h : Heap) where
  abbrev pub taken : Heap
  taken = (take_block (h.blocks b).previous_free b non_collectible_bit 0 h).1

  abbrev pub unlinked : Heap
  unlinked = unlink_free b h

  header-take : (y : ℕ) → (b == y) ≡ false → taken.blocks y ≡ unlinked.blocks y
  unfolding take_block
  header-take y n = rw (remove_from_free_list-unlink_free h b) (ground (arith, n))

  size-take : (y : ℕ) → get_size y taken ≡ get_size y unlinked
  unfolding take_block
  size-take y = rw (remove_from_free_list-unlink_free h b) (ground arith)

  back-take : (y : ℕ) → (taken.blocks y).back ≡ (unlinked.blocks y).back
  unfolding take_block
  back-take y = rw (remove_from_free_list-unlink_free h b) (ground arith)

  previous_free-take : (y : ℕ) → (taken.blocks y).previous_free ≡ (unlinked.blocks y).previous_free
  unfolding take_block
  previous_free-take y = rw (remove_from_free_list-unlink_free h b) (ground arith)

  flags-take : (taken.blocks b).flags ≡ bit_or (unlinked.blocks b).flags 16
  unfolding take_block
  flags-take = rw (remove_from_free_list-unlink_free h b) (ground arith)

  forward-take : (taken.blocks b).forward ≡ next_or_null (b + get_size b h) unlinked
  unfolding take_block
  forward-take = rw (remove_from_free_list-unlink_free h b) (ground arith)

  variables-take :
      (taken.free_list ≡ unlinked.free_list)
      × (taken.heap ≡ unlinked.heap)
      × (taken.heap_end ≡ unlinked.heap_end)
  unfolding take_block
  variables-take =
      rw (remove_from_free_list-unlink_free h b) (ground arith, ground arith, ground arith)

module _ (h : Heap) (starts : ℕ → Bool) (frees : List ℕ) (v : IsCoherent h starts frees) (b : ℕ)
    (start : starts b ≡ true) (is_a_free : is_free b h ≡ true) where
  abbrev pub g : Heap
  g = taken b h

  variables :
      (g.free_list ≡ (unlinked b h).free_list) × (g.heap ≡ h.heap) × (g.heap_end ≡ h.heap_end)
  variables = let t = variables-take b h in let u = limits-unlink h b in (t.0, t.1 ∙ u.0, t.2 ∙ u.1)

  pub sizes : (y : ℕ) → get_size y g ≡ get_size y h
  sizes y = size-take b h y ∙ (rest-unlink h b y).0

  backs : (y : ℕ) → (g.blocks y).back ≡ (h.blocks y).back
  backs y = back-take b h y ∙ (rest-unlink h b y).2

  flags : (y : ℕ) → (g.blocks y).flags ≡ (if b == y then 16 else (h.blocks y).flags)
  flags y = elim (Bool-cases (b == y)) [
    | inl e ↦
        ground (
          arith,
          e,
          flags-take b h,
          rest-unlink h b b,
          v.unmarked b start is_a_free,
          zero-bit_or 16,
        )
    | inr n ↦ ground (arith, n, header-take b h y n, rest-unlink h b y)
  ]

  pub free_lem : (y : ℕ) → is_free y g ≡ (if b == y then false else is_free y h)
  free_lem y = elim (Bool-cases (b == y)) [
    | inl e ↦ rw (flags y, e) refl
    | inr n ↦ rw (flags y, n) refl
  ]

  pub taken_lem :
      (y : ℕ)
      → is_allocated_non_collectible y g
        ≡ (if b == y then true else is_allocated_non_collectible y h)
  taken_lem y = elim (Bool-cases (b == y)) [
    | inl e ↦ rw (flags y, e) refl
    | inr n ↦ rw (flags y, n) refl
  ]

  points_back_lem : (y : ℕ) → points_back y g ≡ true → points_back y h ≡ true
  points_back_lem y p = ground (arith, p, is_a_free, free_lem y, taken_lem y)

  in_list : has b frees ≡ true
  in_list = ground (arith, v.listed b, start, is_a_free)

  -- The block before on the free list is free, so it is no block that points on.
  forward_lem :
      (y : ℕ)
      → (b == y) ≡ false
      → starts y ≡ true
      → is_free y h ≡ false
      → (g.blocks y).forward ≡ (h.blocks y).forward
  forward_lem y n s f =
      let before = previous-has h 0 h.free_list frees b v.linked in_list in
      let out : has y frees ≡ false = ground (arith, v.listed y, f) in
      let nonzero : y ≢ 0 = omega (arith, v.positive, v.inside y s) in
      let ne : (h.blocks b).previous_free ≢ y = (λ e. ground (arith, e, before, out, nonzero)) in
      ground (arith, header-take b h y n, forward-unlink_other h b y ne)

  kept : (y : ℕ) → has y (erase b frees) ≡ true → (b == y) ≡ false
  kept y i = ground (arith, i, has-erase_iff y b frees v.distinct)

  linked_lem : IsFreeList g 0 g.free_list (erase b frees)
  linked_lem = rw (variables.0) (
      IsFreeList-frame (unlinked b h) g 0 (unlinked b h).free_list (erase b frees)
        (λ y i. (ground (arith, header-take b h y (kept y i)), previous_free-take b h y))
        (unlink_free-IsFreeList h b frees v.linked v.distinct in_list))

  forward_next_lem :
      (y : ℕ)
      → starts y ≡ true
      → is_allocated_non_collectible y g ≡ true
      → (g.blocks y).forward ≡ next_or_null (y + get_size y g) g
  forward_next_lem y s t = elim (Bool-cases (b == y)) [
    | inl e ↦ ground (arith, e, forward-take b h, sizes y, variables, limits-unlink h b)
    | inr n ↦
        let busy : is_free y h ≡ false =
          IsCoherent-taken_not_free h starts frees v y s (ground (arith, n, t, taken_lem y)) in
        ground
          (arith, n, forward_lem y n s busy, v.forward_next y s, taken_lem y, t, sizes y, variables)
  ]

  -- A free block as a whole: the blocks of the heap stay, and it leaves the free list.
  pub take_block-IsCoherent : IsCoherent g starts (erase b frees)
  take_block-IsCoherent = record {
    positive = omega (arith, variables, v.positive);
    small = omega (arith, variables, v.small);
    first = ground (arith, variables, v.first);
    inside = λ y s. (
      omega (arith, v.inside y s, variables),
      omega (arith, v.inside y s, sizes y),
      omega (arith, v.inside y s, sizes y, variables),
    );
    tiled = λ y s l. ground (arith, v.tiled y s, sizes y, variables, l);
    apart = λ x y s t l. ground (arith, v.apart x y s t l, sizes x);
    first_back =
        λ p. ground (arith, variables, backs g.heap, v.first_back, points_back_lem g.heap p);
    back_start =
        λ y s p ne. ground (arith, variables, ne, backs y, v.back_start y s (points_back_lem y p));
    back_ends = λ y s p ne. ground (
      arith,
      variables,
      ne,
      backs y,
      sizes (h.blocks y).back,
      v.back_ends y s (points_back_lem y p),
    );
    forward_next = forward_next_lem;
    no_free_neighbours = λ y s f t.
        ground (
          arith,
          s,
          f,
          t,
          sizes y,
          free_lem y,
          free_lem (y + get_size y h),
          v.no_free_neighbours y,
        );
    unmarked = λ y s f. ground (arith, f, flags y, free_lem y, v.unmarked y s);
    listed = λ y. ground (arith, v.listed y, free_lem y, has-erase_iff y b frees v.distinct);
    linked = linked_lem;
    distinct = Distinct-erase b frees v.distinct;
  }
