-- ===== src/Memory/Replace.antt =====
-- A block that takes the place of another one on the free list of lib/src/memory/memoryAlloc.c.
use mjvmk.Base.{
  ℕ, ◌≡◌, ◌≢◌, true, false, List, [], ◌∷◌, ◌==◌, ◌&&◌, ◌||◌, not, if◌then◌else◌, arith, refl,
  Bool-cases, inl, inr,
}
use mjvmk.LinkedList.Chain.{has, Distinct, has-ne}
use mjvmk.Memory.{Heap}
use mjvmk.Memory.Free.{replace_free}
use mjvmk.Memory.FreeList.{IsFreeList, IsFreeList-frame}
use mjvmk.Memory.Unlink.{has_zero, forward-has, previous-has}

abbrev pub swap : ℕ → ℕ → List ℕ → List ℕ
swap old new [] = []
swap old new (x ∷ xs) = if old == x then new ∷ xs else x ∷ swap old new xs

pub has-swap :
    (y old new : ℕ) (xs : List ℕ)
    → Distinct xs
    → has new xs ≡ false
    → has old xs ≡ true
    → has y (swap old new xs) ≡ ((y == new) || (has y xs && not (y == old)))
has-swap y old new [] d o i = absurd (ground (arith, i))
has-swap y old new (x ∷ xs) d o i = elim (Bool-cases (old == x)) [
  | inl e ↦ rw e (ground (arith, e, d.0))
  | inr n ↦ rw n (ground (arith, n, d.0, o, i, has-swap y old new xs d.1))
]

has-swap_out :
    (y old new : ℕ) (xs : List ℕ) → y ≢ new → has y xs ≡ false → has y (swap old new xs) ≡ false
has-swap_out y old new [] n o = refl
has-swap_out y old new (x ∷ xs) n o = ground (arith, n, o, has-swap_out y old new xs n)

pub Distinct-swap :
    (old new : ℕ) (xs : List ℕ) → Distinct xs → has new xs ≡ false → Distinct (swap old new xs)
Distinct-swap old new [] d o = tt
Distinct-swap old new (x ∷ xs) d o = elim (Bool-cases (old == x)) [
  | inl e ↦ rw e ((ground (arith, o), d.1))
  | inr n ↦ rw n (
      (
        has-swap_out x old new xs (λ e. ground (arith, e, o)) d.0,
        Distinct-swap old new xs d.1 (ground (arith, o)),
      ))
]

module _ (h : Heap) (old new : ℕ) where
  abbrev g : Heap
  g = replace_free old new h

  forward-replace :
      (y : ℕ)
      → (g.blocks y).forward ≡ (
          if new == y
          then (h.blocks old).forward
          else if not ((h.blocks old).previous_free == 0) && ((h.blocks old).previous_free == y)
          then new
          else (h.blocks y).forward)
  unfolding replace_free
  forward-replace y = ground arith

  previous_free-replace :
      (y : ℕ)
      → (g.blocks y).previous_free ≡ (
          if not ((h.blocks old).forward == 0) && ((h.blocks old).forward == y)
          then new
          else if new == y
          then (h.blocks old).previous_free
          else (h.blocks y).previous_free)
  unfolding replace_free
  previous_free-replace y = ground arith

  free_list-replace : g.free_list ≡ (if (h.blocks old).previous_free == 0 then new else h.free_list)
  unfolding replace_free
  free_list-replace = ground arith

  pub rest-replace :
      (y : ℕ)
      → ((g.blocks y).size ≡ (h.blocks y).size)
        × ((g.blocks y).flags ≡ (h.blocks y).flags)
        × ((g.blocks y).back ≡ (h.blocks y).back)
  unfolding replace_free
  rest-replace y = (ground arith, ground arith, ground arith)

  pub limits-replace : (g.heap ≡ h.heap) × (g.heap_end ≡ h.heap_end)
  unfolding replace_free
  limits-replace = (ground arith, ground arith)

  pub forward-replace_other :
      (y : ℕ)
      → new ≢ y
      → (h.blocks old).previous_free ≢ y
      → (g.blocks y).forward ≡ (h.blocks y).forward
  forward-replace_other y n o = ground (arith, n, o, forward-replace y)

  replace-IsFreeList :
      (previous p : ℕ) (xs : List ℕ)
      → IsFreeList h previous p xs
      → Distinct xs
      → has previous xs ≡ false
      → has old xs ≡ true
      → has new xs ≡ false
      → new ≢ 0
      → new ≢ previous
      → IsFreeList g previous (if p == old then new else p) (swap old new xs)
  replace-IsFreeList previous p [] l d o i out nz np = absurd (ground (arith, i))
  replace-IsFreeList previous p (a ∷ xs) l d o i out nz np = elim (Bool-cases (old == a)) [
    | inl e ↦
        let same : a ≡ old = ground (arith, e) in
        let here : (p == old) ≡ true = ground (arith, same, l.0) in
        let ahead = forward-has h previous p (a ∷ xs) old l i in
        let far : (h.blocks old).forward ≢ new = (λ f. ground (arith, f, ahead, out, nz)) in
        let onward : (g.blocks new).forward ≡ (h.blocks a).forward =
          ground (arith, same, forward-replace new) in
        rw (here, e)
          ((
            refl,
            nz,
            ground (arith, previous_free-replace new, far, same, l.2),
            rw onward (
                head xs same l.3 (ground (arith, l.2, same)) d (ground (arith, out))
                  (ground (arith, o))),
          ))
    | inr n ↦
        let inside : has old xs ≡ true = ground (arith, n, i) in
        let other : (a == old) ≡ false = ground (arith, n) in
        let ahead = forward-has h a (h.blocks a).forward xs old l.3 inside in
        let before = previous-has h a (h.blocks a).forward xs old l.3 inside in
        let na : new ≢ a = (λ e. ground (arith, e, out)) in
        let ih =
          replace-IsFreeList a (h.blocks a).forward xs l.3 d.1 d.0 inside (ground (arith, out)) nz
            na in
        let onward : (g.blocks a).forward
            ≡ (if (h.blocks a).forward == old then new else (h.blocks a).forward) =
          ground (arith, forward-replace a, before, l.1, d.0, na) in
        rw (n, l.0, other)
          ((refl, l.1, ground (arith, previous_free-replace a, ahead, l.2, d.0, na), rw onward ih))
  ]
    where
      head :
          (ys : List ℕ)
          → a ≡ old
          → IsFreeList h a (h.blocks a).forward ys
          → (h.blocks old).previous_free ≡ previous
          → Distinct (a ∷ ys)
          → has new ys ≡ false
          → has previous ys ≡ false
          → IsFreeList g new (h.blocks a).forward ys
      head [] same k q d out o = k
      head (b ∷ ys) same k q d out o =
          let f : (h.blocks old).forward ≡ b = ground (arith, same, k.0) in
          let own : (g.blocks b).forward ≡ (h.blocks b).forward =
            forward-replace_other b (λ e. ground (arith, e, out)) (λ e. ground (arith, e, q, o)) in
          (
            k.0,
            k.1,
            ground (arith, previous_free-replace b, f, k.1),
            rw own (
                IsFreeList-frame h g b (h.blocks b).forward ys
                  (λ y i. (
                    forward-replace_other y (λ e. ground (arith, e, out, i))
                        (λ e. ground (arith, e, q, o, i)),
                    ground (
                      arith,
                      previous_free-replace y,
                      f,
                      i,
                      d.1.0,
                      has-ne y new ys i (ground (arith, out)),
                    ),
                  ))
                  k.3),
          )

  -- Of the whole free list: the new block stands where the old one stood.
  pub replace_free-IsFreeList :
      (xs : List ℕ)
      → IsFreeList h 0 h.free_list xs
      → Distinct xs
      → has old xs ≡ true
      → has new xs ≡ false
      → new ≢ 0
      → IsFreeList g 0 g.free_list (swap old new xs)
  replace_free-IsFreeList xs l d i out nz =
      let zero_out = has_zero h 0 h.free_list xs l in
      let before = previous-has h 0 h.free_list xs old l i in
      let start : g.free_list ≡ (if h.free_list == old then new else h.free_list) =
        ground (arith, free_list-replace, before, zero_out) in
      rw start (replace-IsFreeList 0 h.free_list xs l d zero_out i out nz nz)
