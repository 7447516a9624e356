-- ===== src/Memory/FreeList.antt =====
-- The free list of lib/src/memory/memoryAlloc.c as a list of blocks.
use mjvmk.Base.{ℕ, ◌≡◌, ◌≢◌, true, false, List, [], ◌∷◌, ◌==◌, ◌&&◌, not, if◌then◌else◌, arith}
use mjvmk.LinkedList.Chain.{has, Distinct}
use mjvmk.Memory.{Heap}

-- From the pointer `p` the blocks `xs` follow up to NULL, and each points back to the one before it.
abbrev pub IsFreeList : Heap → ℕ → ℕ → List ℕ → Type 0
IsFreeList h previous p [] = p ≡ 0
IsFreeList h previous p (x ∷ xs) =
    (p ≡ x)
    × (x ≢ 0)
    × ((h.blocks x).previous_free ≡ previous)
    × IsFreeList h x (h.blocks x).forward xs

-- No write touches the list.
pub IsFreeList-frame :
    (h g : Heap) (previous p : ℕ) (xs : List ℕ)
    → ((y : ℕ)
        → has y xs ≡ true
        → ((g.blocks y).forward ≡ (h.blocks y).forward)
          × ((g.blocks y).previous_free ≡ (h.blocks y).previous_free))
    → IsFreeList h previous p xs
    → IsFreeList g previous p xs
IsFreeList-frame h g previous p [] same l = l
IsFreeList-frame h g previous p (x ∷ xs) same l =
    let here = same x (ground arith) in
    (
      l.0,
      l.1,
      ground (arith, here.1, l.2),
      rw (here.0)
          (IsFreeList-frame h g x (h.blocks x).forward xs (λ y i. same y (ground (arith, i))) l.3),
    )

-- A list whose first block now points back to a new one, `b`, that is not on it.
pub IsFreeList-behind :
    (h g : Heap) (b p : ℕ) (xs : List ℕ)
    → IsFreeList h 0 p xs
    → Distinct xs
    → has b xs ≡ false
    → ((y : ℕ) → b ≢ y → (g.blocks y).forward ≡ (h.blocks y).forward)
    → ((y : ℕ)
        → b ≢ y
        → (g.blocks y).previous_free
          ≡ (if not (p == 0) && (p == y) then b else (h.blocks y).previous_free))
    → IsFreeList g b p xs
IsFreeList-behind h g b p [] l d o same before = l
IsFreeList-behind h g b p (x ∷ xs) l d o same before =
    let ne : b ≢ x = (λ e. ground (arith, e, o)) in
    (
      l.0,
      l.1,
      ground (arith, before x ne, l.0, l.1),
      rw (same x ne) (
          IsFreeList-frame h g x (h.blocks x).forward xs
            (λ y i.
              let far : b ≢ y = has-ne_list y b xs i (ground (arith, o)) in
              (same y far, ground (arith, before y far, l.0, i, d.0)))
            l.3),
    )
  where
    has-ne_list : (y b : ℕ) (ys : List ℕ) → has y ys ≡ true → has b ys ≡ false → b ≢ y
    has-ne_list y b ys i o e = ground (arith, e, i, o)
