-- ===== src/Memory/Freeing.antt =====
-- `memoryFree` of lib/src/memory/memoryAlloc.c as a whole.
use mjvmk.Base.{
  ℕ, ◌+◌, ◌-◌, ◌≤◌, ◌≡◌, ◌≢◌, Bool, true, false, List, ◌∷◌, ◌==◌, ◌&&◌, not, if◌then◌else◌, arith,
  refl, Bool-cases, inl, inr,
}
use mjvmk.LinkedList.Removes.{erase}
use mjvmk.Memory.{Heap, get_size, is_free, is_allocated_non_collectible}
use mjvmk.Memory.Free.{memory_free, join_three, join_previous, join_next, free_alone}
use mjvmk.Memory.Inv.{IsCoherent, points_back}
use mjvmk.Memory.Merge.{without_inner, IsMerge, free_lem}
use mjvmk.Memory.Replace.{swap}
use mjvmk.Memory.FreeInv.{alone-IsMerge, free_alone-IsCoherent}
use mjvmk.Memory.JoinPrevious.{previous_IsMerge, join_previous-IsCoherent}
use mjvmk.Memory.JoinThree.{three_IsMerge, join_three-IsCoherent}
use mjvmk.Memory.JoinNext.{next_IsMerge, join_next-IsCoherent}

-- A heap `g` in which the block `b` of the heap `h` is free: the headers fit together, the block lies
-- within a free block, and the other blocks in use are still in use with their sizes.
pub record Freed (h : Heap) (starts : ℕ → Bool) (b : ℕ) (g : Heap) : Type 0 where
  pub starts_after : ℕ → Bool
  pub frees_after : List ℕ
  pub around : ℕ
  pub intact : IsCoherent g starts_after frees_after
  pub started : starts_after around ≡ true
  pub available : is_free around g ≡ true
  pub reaches : around ≤ b
  pub holds : b + get_size b h ≤ around + get_size around g
  pub others :
      (y : ℕ)
      → starts y ≡ true
      → is_free y h ≡ false
      → y ≢ b
      → (starts_after y ≡ true) × (get_size y g ≡ get_size y h) × (is_free y g ≡ false)

module _ (h : Heap) (starts : ℕ → Bool) (frees : List ℕ) (v : IsCoherent h starts frees) where
  -- Of whichever blocks the new one is made.
  merge-Freed :
      (a total b : ℕ) (g : Heap) (frees_after : List ℕ)
      → IsMerge h starts a total g
      → IsCoherent g (without_inner a total starts) frees_after
      → a ≤ b
      → b + get_size b h ≤ a + total
      → ((y : ℕ)
          → starts y ≡ true
          → is_free y h ≡ false
          → y ≢ b
          → (without_inner a total starts y ≡ true) × ((a == y) ≡ false))
      → Freed h starts b g
  merge-Freed a total b g frees_after m intact low high outside = record {
    starts_after = without_inner a total starts;
    frees_after = frees_after;
    around = a;
    intact = intact;
    started = ground (arith, m.start);
    available = ground (arith, free_lem h starts frees v a total g m frees_after a);
    reaches = low;
    holds = ground (arith, high, m.size_after a m.start);
    others = λ y s f n.
        let out = outside y s f n in
        (
          out.0,
          ground (arith, out.1, m.size_after y s),
          ground (arith, out.1, f, free_lem h starts frees v a total g m frees_after y),
        );
  }

  module _ (b : ℕ) (start : starts b ≡ true)
      (in_use : is_allocated_non_collectible b h ≡ true) where
    -- The free block that the block points back to, or on to.
    previous_lem :
        (not ((h.blocks b).back == 0) && is_free (h.blocks b).back h) ≡ true
        → (starts (h.blocks b).back ≡ true)
          × (is_free (h.blocks b).back h ≡ true)
          × ((h.blocks b).back + get_size (h.blocks b).back h ≡ b)
    previous_lem t =
        let knows : points_back b h ≡ true = ground (arith, in_use) in
        let ne : b ≢ h.heap = (λ e. ground (arith, e, t, knows, v.first_back)) in
        (v.back_start b start knows ne, ground (arith, t), v.back_ends b start knows ne)

    next_lem :
        (not ((h.blocks b).forward == 0) && is_free (h.blocks b).forward h) ≡ true
        → (starts (h.blocks b).forward ≡ true)
          × (is_free (h.blocks b).forward h ≡ true)
          × (b + get_size b h ≡ (h.blocks b).forward)
    next_lem t =
        let next = v.forward_next b start in_use in
        (ground (arith, t, next, v.tiled b start), ground (arith, t), ground (arith, t, next))

    -- The four branches.
    three-Freed :
        (p n : ℕ)
        → (starts p ≡ true) × (is_free p h ≡ true) × (p + get_size p h ≡ b)
        → (starts n ≡ true) × (is_free n h ≡ true) × (b + get_size b h ≡ n)
        → Freed h starts b (join_three p b n h)
    three-Freed p n before behind =
        merge-Freed p (get_size p h + get_size b h + get_size n h) b (join_three p b n h)
          (erase n frees)
          (three_IsMerge h starts frees v p b n before.0 before.1 before.2 start in_use behind.0
            behind.1 behind.2)
          (join_three-IsCoherent h starts frees v p b n before.0 before.1 before.2 start in_use
            behind.0 behind.1 behind.2)
          (omega (arith, before)) (omega (arith, before))
          (λ y s f o. (
            ground (
              arith,
              s,
              f,
              o,
              before,
              behind,
              start,
              v.apart p y,
              v.apart b y,
              v.apart y b,
              v.apart n y,
              v.apart y n,
              v.inside y,
            ),
            ground (arith, f, before),
          ))

    previous-Freed :
        (p : ℕ)
        → (starts p ≡ true) × (is_free p h ≡ true) × (p + get_size p h ≡ b)
        → (not ((h.blocks b).forward == 0) && is_free (h.blocks b).forward h) ≡ false
        → Freed h starts b (join_previous p b (h.blocks b).forward h)
    previous-Freed p before busy =
        merge-Freed p (get_size p h + get_size b h) b (join_previous p b (h.blocks b).forward h)
          frees (previous_IsMerge h starts frees v p b before.0 before.1 before.2 start in_use busy)
          (join_previous-IsCoherent h starts frees v p b before.0 before.1 before.2 start in_use
            busy)
          (omega (arith, before)) (omega (arith, before))
          (λ y s f o. (
            ground
                (arith, s, f, o, before, start, v.apart p y, v.apart b y, v.apart y b, v.inside y),
            ground (arith, f, before),
          ))

    next-Freed :
        (n : ℕ)
        → (not ((h.blocks b).back == 0) && is_free (h.blocks b).back h) ≡ false
        → (starts n ≡ true) × (is_free n h ≡ true) × (b + get_size b h ≡ n)
        → Freed h starts b (join_next b n h)
    next-Freed n busy behind =
        merge-Freed b (get_size b h + get_size n h) b (join_next b n h) (swap n b frees)
          (next_IsMerge h starts frees v b n start in_use behind.0 behind.1 behind.2 busy)
          (join_next-IsCoherent h starts frees v b n start in_use behind.0 behind.1 behind.2 busy)
          (omega arith) (omega arith)
          (λ y s f o. (
            ground
                (arith, s, f, o, behind, start, v.apart b y, v.apart n y, v.apart y n, v.inside y),
            ground (arith, o),
          ))

    alone-Freed :
        (not ((h.blocks b).back == 0) && is_free (h.blocks b).back h) ≡ false
        → (not ((h.blocks b).forward == 0) && is_free (h.blocks b).forward h) ≡ false
        → Freed h starts b (free_alone b h)
    alone-Freed before behind =
        merge-Freed b (get_size b h) b (free_alone b h) (b ∷ frees)
          (alone-IsMerge h starts frees v b start in_use behind before)
          (free_alone-IsCoherent h starts frees v b start in_use behind before) (omega arith)
          (omega arith) (λ y s f o. (ground (arith, s, o, start, v.apart b y), ground (arith, o)))

    dispatch-Freed : Freed h starts b (
        if not ((h.blocks b).back == 0) && is_free (h.blocks b).back h
        then (if not ((h.blocks b).forward == 0) && is_free (h.blocks b).forward h
            then join_three (h.blocks b).back b (h.blocks b).forward h
            else join_previous (h.blocks b).back b (h.blocks b).forward h)
        else (if not ((h.blocks b).forward == 0) && is_free (h.blocks b).forward h
            then join_next b (h.blocks b).forward h
            else free_alone b h))
    dispatch-Freed =
        elim (Bool-cases (not ((h.blocks b).back == 0) && is_free (h.blocks b).back h)) [
          | inl p ↦
              elim (Bool-cases
                (not ((h.blocks b).forward == 0) && is_free (h.blocks b).forward h)) [
                  | inl n ↦ rw (p, n) (three-Freed _ _ (previous_lem p) (next_lem n))
                  | inr n ↦ rw (p, n) (previous-Freed _ (previous_lem p) n)
                ]
          | inr p ↦
              elim (Bool-cases
                (not ((h.blocks b).forward == 0) && is_free (h.blocks b).forward h)) [
                  | inl n ↦ rw (p, n) (next-Freed _ p (next_lem n))
                  | inr n ↦ rw (p, n) (alone-Freed p n)
                ]
        ]

-- The dispatch on the two neighbours.
module _ (b : ℕ) (h : Heap) where
  back_to_header : b + 12 - 12 ≡ b
  back_to_header = omega arith

  memory_free-cases : memory_free (b + 12) h ≡ (
      if not ((h.blocks b).back == 0) && is_free (h.blocks b).back h
      then (if not ((h.blocks b).forward == 0) && is_free (h.blocks b).forward h
          then join_three (h.blocks b).back b (h.blocks b).forward h
          else join_previous (h.blocks b).back b (h.blocks b).forward h)
      else (if not ((h.blocks b).forward == 0) && is_free (h.blocks b).forward h
          then join_next b (h.blocks b).forward h
          else free_alone b h))
  unfolding memory_free
  memory_free-cases = rw back_to_header refl

-- In a heap whose headers fit together, `memoryFree` of a block that is not collectible: the headers still
-- fit together, the block lies within a free block, and the other blocks in use are still in use with their
-- sizes.
pub memory_free-Freed :
    (h : Heap) (starts : ℕ → Bool) (frees : List ℕ) (b : ℕ)
    → IsCoherent h starts frees
    → starts b ≡ true
    → is_allocated_non_collectible b h ≡ true
    → Freed h starts b (memory_free (b + 12) h)
memory_free-Freed h starts frees b v start in_use =
    rw (memory_free-cases b h) (dispatch-Freed h starts frees v b start in_use)
