-- ===== src/Memory/FreeInv.antt =====
-- The two branches of `memoryFree` of lib/src/memory/memoryAlloc.c where the next block is in use.
use mjvmk.Base.{
  ℕ, ◌+◌, ◌≡◌, ◌≢◌, Bool, true, false, List, [], ◌∷◌, ◌==◌, ◌&&◌, not, if◌then◌else◌, arith,
  Bool-cases, inl, inr, sym, ◌∙◌,
}
use mjvmk.LinkedList.Chain.{has}
use mjvmk.Memory.{Heap, get_size, is_free, is_allocated_non_collectible}
use mjvmk.Memory.Free.{free_alone}
use mjvmk.Memory.FreeList.{IsFreeList, IsFreeList-behind}
use mjvmk.Memory.Inv.{IsCoherent, points_back, IsCoherent-taken_not_free}
use mjvmk.Memory.Merge.{without_inner, IsMerge, merge-IsCoherent}

module _ (h : Heap) (starts : ℕ → Bool) (frees : List ℕ) (v : IsCoherent h starts frees) where
  -- Two blocks with the same end are one.
  pub same_end :
      (x y : ℕ) → starts x ≡ true → starts y ≡ true → x + get_size x h ≡ y + get_size y h → x ≡ y
  same_end x y s t e =
      ground (arith, e, v.apart x y s t, v.apart y x t s, v.inside x s, v.inside y t)

  -- The block before, where there is one, is the one that a block points back to.
  pub back_lem :
      (x y : ℕ)
      → starts x ≡ true
      → starts y ≡ true
      → points_back y h ≡ true
      → x + get_size x h ≡ y
      → (h.blocks y).back ≡ x
  back_lem x y s t knows e =
      let ne : y ≢ h.heap = (λ z. omega (arith, z, e, v.inside x s)) in
      same_end (h.blocks y).back x (v.back_start y t knows ne) s (v.back_ends y t knows ne ∙ sym e)

  -- A block before a free one is in use.
  pub before_free :
      (x y : ℕ)
      → starts x ≡ true
      → starts y ≡ true
      → is_free y h ≡ true
      → x + get_size x h ≡ y
      → is_free x h ≡ false
  before_free x y s t f e = elim (Bool-cases (is_free x h)) [
    | inl g ↦ ground (arith, e, s, t, f, v.no_free_neighbours x s g)
    | inr n ↦ n
  ]

  pub in_list : (x : ℕ) → starts x ≡ true → is_free x h ≡ true → has x frees ≡ true
  in_list x s f = ground (arith, v.listed x, s, f)

  module _ (b : ℕ) (start : starts b ≡ true)
      (in_use : is_allocated_non_collectible b h ≡ true) where
    pub not_free : is_free b h ≡ false
    not_free = IsCoherent-taken_not_free h starts frees v b start in_use

    pub not_listed : has b frees ≡ false
    not_listed = ground (arith, v.listed b, not_free)

    -- The next block, where there is one, is the one that the block points to.
    pub next_lem :
        starts (b + get_size b h) ≡ true
        → ((h.blocks b).forward ≡ b + get_size b h) × ((h.blocks b).forward ≢ 0)
    next_lem s =
        let at : (h.blocks b).forward ≡ b + get_size b h =
          ground (arith, v.forward_next b start in_use, v.inside (b + get_size b h) s) in
        (at, (λ e. omega (arith, at, e, v.inside b start)))

    pub previous_lem :
        (y : ℕ) → starts y ≡ true → y + get_size y h ≡ b → ((h.blocks b).back ≡ y) × (y ≢ 0)
    previous_lem y s e = (
      back_lem y b s start (ground (arith, in_use)) e,
      (λ z. omega (arith, z, v.positive, v.inside y s)),
    )

  module _ (b : ℕ) (start : starts b ≡ true) (in_use : is_allocated_non_collectible b h ≡ true)
      (next_busy : (not ((h.blocks b).forward == 0) && is_free (h.blocks b).forward h)
        ≡ false) where
    pub next_in_use : starts (b + get_size b h) ≡ true → is_free (b + get_size b h) h ≡ false
    next_in_use s = let at = next_lem b start in_use s in ground (arith, next_busy, at)

    module _
        (previous_busy : (not ((h.blocks b).back == 0) && is_free (h.blocks b).back h)
          ≡ false) where
      pub alone-IsMerge : IsMerge h starts b (get_size b h) (free_alone b h)
      unfolding free_alone
      alone-IsMerge = record {
        start = start;
        back_known = ground (arith, in_use);
        covers = omega arith;
        ends = omega (arith, v.inside b start);
        whole = v.tiled b start;
        next_in_use = next_in_use;
        previous_in_use = λ y s e.
            let at = previous_lem b start in_use y s e in ground (arith, previous_busy, at);
        same_heap = ground arith;
        same_end = ground arith;
        size_after = λ y s. ground arith;
        flags_after = λ y. ground arith;
        back_after = λ y s p. ground (arith, back_lem b y start (ground (arith, s)) p);
        forward_after = λ y s t n. ground (arith, n);
      }

      forward-alone : (y : ℕ) → b ≢ y → ((free_alone b h).blocks y).forward ≡ (h.blocks y).forward
      unfolding free_alone
      forward-alone y n = ground arith

      previous_free-alone :
          (y : ℕ)
          → b ≢ y
          → ((free_alone b h).blocks y).previous_free ≡ (
              if not (h.free_list == 0) && (h.free_list == y)
              then b
              else (h.blocks y).previous_free)
      unfolding free_alone
      previous_free-alone y n = ground arith

      front-alone :
          ((free_alone b h).free_list ≡ b)
          × (h.free_list ≢ b → ((free_alone b h).blocks b).previous_free ≡ 0)
          × (((free_alone b h).blocks b).forward ≡ h.free_list)
      unfolding free_alone
      front-alone = (ground arith, λ n. ground arith, ground arith)

      -- The block comes first on the free list.
      alone-IsFreeList : IsFreeList (free_alone b h) 0 (free_alone b h).free_list (b ∷ frees)
      alone-IsFreeList =
          let out = not_listed b start in_use in
          let nonzero : b ≢ 0 = (λ e. omega (arith, e, v.positive, v.inside b start)) in
          let apart = first_ne frees v.linked out nonzero in
          (
            front-alone.0,
            nonzero,
            front-alone.1 apart,
            rw (front-alone.2) (
                IsFreeList-behind h (free_alone b h) b h.free_list frees v.linked v.distinct out
                  forward-alone previous_free-alone),
          )
        where
          first_ne :
              (xs : List ℕ)
              → IsFreeList h 0 h.free_list xs
              → has b xs ≡ false
              → b ≢ 0
              → h.free_list ≢ b
          first_ne [] l o z e = ground (arith, l, z, e)
          first_ne (x ∷ xs) l o z e = ground (arith, l.0, o, e)

      pub free_alone-IsCoherent :
          IsCoherent (free_alone b h) (without_inner b (get_size b h) starts) (b ∷ frees)
      free_alone-IsCoherent =
          merge-IsCoherent h starts frees v b (get_size b h) (free_alone b h) alone-IsMerge
            (b ∷ frees) (λ x. ground (arith, v.listed x, v.apart b x, v.inside x, start))
            alone-IsFreeList (not_listed b start in_use, v.distinct)
