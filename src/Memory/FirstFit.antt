-- ===== src/Memory/FirstFit.antt =====
-- The search of `allocateBlock` of lib/src/memory/memoryAlloc.c: first fit.
use mjvmk.Base.{
  ℕ, zero, suc, ◌+◌, ◌≤◌, ◌<◌, ◌≡◌, ◌↔◌, true, Option, none, some, List, [], ◌∷◌, ◌==◌, leb,
  if◌then◌else◌, arith, refl, length, Bool-cases, inl, inr, leb→le, Option-cases, none-ne-some,
  some_inj, ap, ne→not_==, sym,
}
use mjvmk.LinkedList.Chain.{has}
use mjvmk.Memory.{Heap, get_size}
use mjvmk.Memory.Allocate.{serve, find_block, required_size, allocate_block}
use mjvmk.Memory.FreeList.{IsFreeList}

-- The first block of a list that is big enough, and the one before it.
abbrev pub first_fit : ℕ → Heap → ℕ → List ℕ → Option (ℕ × ℕ)
first_fit required h previous [] = none
first_fit required h previous (x ∷ xs) =
    if leb required (get_size x h) then some (previous, x) else first_fit required h x xs

-- On a free list of at most as many blocks as there are rounds, the loop is the search on the list.
pub find_block-first_fit :
    (fuel required : ℕ) (h : Heap) (previous p : ℕ) (xs : List ℕ)
    → length xs ≤ fuel
    → IsFreeList h previous p xs
    → find_block fuel required h previous p ≡ first_fit required h previous xs
unfolding find_block
find_block-first_fit zero required h previous p [] enough l = refl
find_block-first_fit zero required h previous p (x ∷ xs) enough l = absurd (omega arith)
find_block-first_fit (suc n) required h previous p [] enough l = rw l refl
find_block-first_fit (suc n) required h previous p (x ∷ xs) enough l =
    rw
      (
        l.0,
        ne→not_== x 0 l.1,
        find_block-first_fit n required h x (h.blocks x).forward xs (omega arith) l.3,
      )
      refl

pub first_fit-none :
    (required : ℕ) (h : Heap) (previous : ℕ) (xs : List ℕ)
    → (first_fit required h previous xs ≡ none)
      ↔ ((x : ℕ) → has x xs ≡ true → get_size x h < required)
first_fit-none required h previous [] = (λ e x i. absurd (ground (arith, i)), λ f. refl)
first_fit-none required h previous (x ∷ xs) = elim (Bool-cases (leb required (get_size x h))) [
  | inl fits ↦ rw fits (
      (
        λ e. absurd (none-ne-some (sym e)),
        λ f. absurd (omega (arith, leb→le _ _ fits, f x (ground arith))),
      ))
  | inr small ↦
      let rest = first_fit-none required h x xs in
      rw small (
        (
          λ e y i. elim (Bool-cases (y == x)) [
            | inl same ↦ ground (arith, same, small)
            | inr other ↦ rest.0 e y (ground (arith, i, other))
          ],
          λ f. rest.1 (λ y i. f y (ground (arith, i))),
        ))
]

pub first_fit-some :
    (required : ℕ) (h : Heap) (previous : ℕ) (xs : List ℕ) (at : ℕ × ℕ)
    → first_fit required h previous xs ≡ some at
    → (has at.1 xs ≡ true) × (required ≤ get_size at.1 h)
first_fit-some required h previous [] at e = absurd (none-ne-some e)
first_fit-some required h previous (x ∷ xs) at e = elim (Bool-cases (leb required (get_size x h))) [
  | inl fits ↦
      let hit : some (previous, x) ≡ some at = ground (arith, e, fits) in
      let same : x ≡ at.1 = ap (λ (a : ℕ × ℕ). a.1) (some_inj hit) in
      (ground (arith, same), ground (arith, same, fits))
  | inr small ↦
      let rest = first_fit-some required h x xs at (ground (arith, e, small)) in
      (ground (arith, rest.0), rest.1)
]

-- The block before the first fit is the one that it points back to.
pub first_fit-previous :
    (required : ℕ) (h : Heap) (previous p : ℕ) (xs : List ℕ) (at : ℕ × ℕ)
    → IsFreeList h previous p xs
    → first_fit required h previous xs ≡ some at
    → (h.blocks at.1).previous_free ≡ at.0
first_fit-previous required h previous p [] at l e = absurd (none-ne-some e)
first_fit-previous required h previous p (x ∷ xs) at l e =
    elim (Bool-cases (leb required (get_size x h))) [
      | inl fits ↦
          let hit : some (previous, x) ≡ some at = ground (arith, e, fits) in
          let same : x ≡ at.1 = ap (λ (a : ℕ × ℕ). a.1) (some_inj hit) in
          let before : previous ≡ at.0 = ap (λ (a : ℕ × ℕ). a.0) (some_inj hit) in
          ground (arith, same, before, l.2)
      | inr small ↦
          first_fit-previous required h x (h.blocks x).forward xs at l.3 (ground (arith, e, small))
    ]

pub allocate_block-serve :
    (fuel size mask items offset : ℕ) (h : Heap) (xs : List ℕ)
    → length xs ≤ fuel
    → IsFreeList h 0 h.free_list xs
    → allocate_block fuel size mask items offset h
      ≡ serve (required_size size) mask items offset h (first_fit (required_size size) h 0 xs)
unfolding allocate_block
allocate_block-serve fuel size mask items offset h xs enough l =
    ap (serve (required_size size) mask items offset h)
      (find_block-first_fit fuel (required_size size) h 0 h.free_list xs enough l)

-- With as many rounds as there are free blocks, or more, `allocateBlock` fails exactly when every free
-- block is smaller than the required size.
pub allocate_block-fails :
    (fuel size mask items offset : ℕ) (h : Heap) (xs : List ℕ)
    → length xs ≤ fuel
    → IsFreeList h 0 h.free_list xs
    → (allocate_block fuel size mask items offset h ≡ none)
      ↔ ((x : ℕ) → has x xs ≡ true → get_size x h < required_size size)
unfolding serve
allocate_block-fails fuel size mask items offset h xs enough l =
    elim (Option-cases (first_fit (required_size size) h 0 xs)) [
      | inl failed ↦
          rw (allocate_block-serve fuel size mask items offset h xs enough l)
            ((λ e. (first_fit-none (required_size size) h 0 xs).0 failed, λ f. rw failed refl))
      | inr (at, e) ↦
          let hit = first_fit-some (required_size size) h 0 xs at e in
          rw (allocate_block-serve fuel size mask items offset h xs enough l, e)
            ((λ c. absurd (none-ne-some (sym c)), λ f. absurd (omega (arith, hit.1, f at.1 hit.0))))
    ]

required_size-wraps :
    (size : ℕ) → 4294967284 ≤ size → size < 4294967296 → required_size size ≡ required_size 4
unfolding required_size
required_size-wraps size low high = ground arith

-- The required size holds the header and the bytes asked for, and the header of a free block.
pub le-required_size :
    (size : ℕ)
    → size + 12 < 4294967296
    → (size + 12 ≤ required_size size) × (16 ≤ required_size size)
unfolding required_size
le-required_size size small = (ground arith, ground arith)

-- A request of 2 ^ 32 - 12 bytes or more is served like one of four bytes, since the required size wraps
-- around.
pub allocate_block-wraps :
    (fuel size mask items offset : ℕ) (h : Heap)
    → 4294967284 ≤ size
    → size < 4294967296
    → allocate_block fuel size mask items offset h ≡ allocate_block fuel 4 mask items offset h
unfolding allocate_block
allocate_block-wraps fuel size mask items offset h low high =
    rw (allocate_block, required_size-wraps size low high) refl
