-- ===== src/Memory/Initial.antt =====
-- The heap that `initializeHeap` of lib/src/memory/memoryAlloc.c makes.
use mjvmk.Base.{ℕ, ◌+◌, ◌≤◌, ◌<◌, ◌≡◌, true, false, [], ◌∷◌, ◌==◌, arith, refl}
use mjvmk.Memory.{Header, Heap, get_size, is_free, is_allocated_non_collectible}
use mjvmk.Memory.Allocate.{initialize_heap}
use mjvmk.Memory.Inv.{IsCoherent, next_or_null}

module _ (start size : ℕ) (bytes : ℕ → Header) (positive : 0 < start) (large : 16 ≤ size)
    (small : size < 16777216) where
  abbrev g : Heap
  g = initialize_heap start size bytes

  header :
      (y : ℕ)
      → start ≡ y
      → (get_size y g ≡ size)
        × ((g.blocks y).flags ≡ 0)
        × ((g.blocks y).back ≡ 0)
        × ((g.blocks y).forward ≡ 0)
        × ((g.blocks y).previous_free ≡ 0)
  unfolding initialize_heap
  header y e = (ground (arith, small), ground arith, ground arith, ground arith, ground arith)

  variables : (g.free_list ≡ start) × (g.heap ≡ start) × (g.heap_end ≡ start + size)
  unfolding initialize_heap
  variables = (refl, refl, refl)

  start_free : is_free start g ≡ true
  start_free = rw ((header start refl).1) refl

  in_use :
      (y : ℕ)
      → start ≡ y
      → is_allocated_non_collectible y g ≡ true
      → (g.blocks y).forward ≡ next_or_null (y + get_size y g) g
  in_use y e t =
      let unset : is_allocated_non_collectible y g ≡ false = rw ((header y e).1) refl in
      absurd (ground (arith, unset, t))

  -- A memory of 16 bytes or more and less than 2 ^ 24 is one free block, whose headers fit together.
  pub initialize_heap-IsCoherent : IsCoherent g (λ y. start == y) (start ∷ [])
  initialize_heap-IsCoherent = record {
    positive = omega (arith, variables);
    small = omega (arith, variables);
    first = ground (arith, variables);
    inside = λ y s.
        let h = header y (ground (arith, s)) in
        (ground (arith, s, variables), omega (arith, h), ground (arith, s, h, variables));
    tiled = λ y s l. absurd (ground (arith, s, header y (ground (arith, s)), variables, l));
    apart = λ x y s t l. absurd (ground (arith, s, t, l));
    first_back = λ p. rw (variables.1) ((header start refl).2);
    back_start = λ y s p ne. absurd (ground (arith, s, ne, variables));
    back_ends = λ y s p ne. absurd (ground (arith, s, ne, variables));
    forward_next = λ y s t. in_use y (ground (arith, s)) t;
    no_free_neighbours =
        λ y s f t. absurd (ground (arith, s, t, header y (ground (arith, s)), large));
    unmarked = λ y s f. (header y (ground (arith, s))).1;
    listed = λ y. ground (arith, start_free);
    linked = (variables.0, (λ e. omega (arith, e)), (header start refl).4, (header start refl).3);
    distinct = (refl, tt);
  }
