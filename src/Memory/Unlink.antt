-- ===== src/Memory/Unlink.antt =====
-- A block that leaves the free list of lib/src/memory/memoryAlloc.c: `unlink_free` of the joins, and the same writes
-- where `allocateBlock` takes a whole block.
use mjvmk.Base.{
  ℕ, ◌≡◌, ◌≢◌, true, false, List, [], ◌∷◌, ◌==◌, ◌&&◌, ◌||◌, not, if◌then◌else◌, arith, refl,
  Bool-cases, inl, inr, ==_iff,
}
use mjvmk.LinkedList.Chain.{has, Distinct}
use mjvmk.LinkedList.Removes.{erase}
use mjvmk.Memory.{Heap}
use mjvmk.Memory.Allocate.{remove_from_free_list}
use mjvmk.Memory.Free.{unlink_free}
use mjvmk.Memory.FreeList.{IsFreeList, IsFreeList-frame}

pub has_zero :
    (h : Heap) (previous p : ℕ) (xs : List ℕ) → IsFreeList h previous p xs → has 0 xs ≡ false
has_zero h previous p [] l = refl
has_zero h previous p (x ∷ xs) l = ground (arith, l.1, has_zero h x (h.blocks x).forward xs l.3)

-- What the pointers of a block on the list lead to.
pub forward-has :
    (h : Heap) (previous p : ℕ) (xs : List ℕ) (x : ℕ)
    → IsFreeList h previous p xs
    → has x xs ≡ true
    → (((h.blocks x).forward == 0) || has (h.blocks x).forward xs) ≡ true
forward-has h previous p [] x l i = absurd (ground (arith, i))
forward-has h previous p (a ∷ xs) x l i = elim (Bool-cases (x == a)) [
  | inl e ↦ let same : x ≡ a = (==_iff x a).0 e in ground (arith, same, head xs l.3)
  | inr n ↦ ground (arith, n, i, forward-has h a (h.blocks a).forward xs x l.3)
]
  where
    head :
        (ys : List ℕ)
        → IsFreeList h a (h.blocks a).forward ys
        → (((h.blocks a).forward == 0)
            || (((h.blocks a).forward == a) || has (h.blocks a).forward ys))
          ≡ true
    head [] k = ground (arith, k)
    head (b ∷ ys) k = ground (arith, k.0)

pub previous-has :
    (h : Heap) (previous p : ℕ) (xs : List ℕ) (x : ℕ)
    → IsFreeList h previous p xs
    → has x xs ≡ true
    → (if p == x then (h.blocks x).previous_free == previous else has (h.blocks x).previous_free xs)
      ≡ true
previous-has h previous p [] x l i = absurd (ground (arith, i))
previous-has h previous p (a ∷ xs) x l i = elim (Bool-cases (x == a)) [
  | inl e ↦ ground (arith, e, l.0, l.2)
  | inr n ↦ ground (arith, n, i, l.0, previous-has h a (h.blocks a).forward xs x l.3)
]

module _ (h : Heap) (x : ℕ) where
  forward-unlink :
      (y : ℕ)
      → ((unlink_free x h).blocks y).forward ≡ (
          if not ((h.blocks x).previous_free == 0) && ((h.blocks x).previous_free == y)
          then (h.blocks x).forward
          else (h.blocks y).forward)
  unfolding unlink_free
  forward-unlink y = ground arith

  previous_free-unlink :
      (y : ℕ)
      → ((unlink_free x h).blocks y).previous_free ≡ (
          if not ((h.blocks x).forward == 0) && ((h.blocks x).forward == y)
          then (h.blocks x).previous_free
          else (h.blocks y).previous_free)
  unfolding unlink_free
  previous_free-unlink y = ground arith

  free_list-unlink :
      (unlink_free x h).free_list
      ≡ (if (h.blocks x).previous_free == 0 then (h.blocks x).forward else h.free_list)
  unfolding unlink_free
  free_list-unlink = ground arith

  -- The rest of the headers is as before.
  pub rest-unlink :
      (y : ℕ)
      → (((unlink_free x h).blocks y).size ≡ (h.blocks y).size)
        × (((unlink_free x h).blocks y).flags ≡ (h.blocks y).flags)
        × (((unlink_free x h).blocks y).back ≡ (h.blocks y).back)
  unfolding unlink_free
  rest-unlink y = (ground arith, ground arith, ground arith)

  pub limits-unlink : ((unlink_free x h).heap ≡ h.heap) × ((unlink_free x h).heap_end ≡ h.heap_end)
  unfolding unlink_free
  limits-unlink = (ground arith, ground arith)

  -- Only neighbours on the list get another `forward`.
  pub forward-unlink_other :
      (y : ℕ)
      → (h.blocks x).previous_free ≢ y
      → ((unlink_free x h).blocks y).forward ≡ (h.blocks y).forward
  forward-unlink_other y ne = ground (arith, ne, forward-unlink y)

  -- The list without the block, from the place where it is entered.
  unlink-IsFreeList :
      (previous p : ℕ) (xs : List ℕ)
      → IsFreeList h previous p xs
      → Distinct xs
      → has previous xs ≡ false
      → has x xs ≡ true
      → IsFreeList
          (unlink_free x h)
          previous
          (if p == x then (h.blocks x).forward else p)
          (erase x xs)
  unlink-IsFreeList previous p [] l d o i = absurd (ground (arith, i))
  unlink-IsFreeList previous p (a ∷ xs) l d o i = elim (Bool-cases (x == a)) [
    | inl e ↦ let same : a ≡ x = ground (arith, e) in rw (e, l.0) (ground_head xs same l d o)
    | inr n ↦
        let inside : has x xs ≡ true = ground (arith, n, i) in
        let other : (a == x) ≡ false = ground (arith, n) in
        let ahead = forward-has h a (h.blocks a).forward xs x l.3 inside in
        let before = previous-has h a (h.blocks a).forward xs x l.3 inside in
        let ih = unlink-IsFreeList a (h.blocks a).forward xs l.3 d.1 d.0 inside in
        let onward : ((unlink_free x h).blocks a).forward
            ≡ (if (h.blocks a).forward == x then (h.blocks x).forward else (h.blocks a).forward) =
          ground (arith, forward-unlink a, before, l.1, d.0) in
        rw (n, l.0, other)
          ((refl, l.1, ground (arith, previous_free-unlink a, ahead, l.2, d.0), rw onward ih))
  ]
    where
      ground_head :
          (ys : List ℕ)
          → a ≡ x
          → IsFreeList h previous p (a ∷ ys)
          → Distinct (a ∷ ys)
          → has previous (a ∷ ys) ≡ false
          → IsFreeList (unlink_free x h) previous (if a == x then (h.blocks x).forward else a) ys
      ground_head [] same l d o = ground (arith, same, l.3)
      ground_head (b ∷ ys) same l d o =
          let f : (h.blocks x).forward ≡ b = ground (arith, same, l.3.0) in
          let q : (h.blocks x).previous_free ≡ previous = ground (arith, same, l.2) in
          let own : ((unlink_free x h).blocks b).forward ≡ (h.blocks b).forward =
            forward-unlink_other b (λ e. ground (arith, e, q, o)) in
          (
            ground (arith, same, f),
            l.3.1,
            ground (arith, previous_free-unlink b, f, q, l.3.1),
            rw own (
                IsFreeList-frame h (unlink_free x h) b (h.blocks b).forward ys
                  (λ y i. (
                    forward-unlink_other y (λ e. ground (arith, e, q, o, i)),
                    ground (arith, previous_free-unlink y, f, i, d.1.0),
                  ))
                  l.3.3),
          )

  -- Of the whole free list: the block is gone, and the others are in order.
  pub unlink_free-IsFreeList :
      (xs : List ℕ)
      → IsFreeList h 0 h.free_list xs
      → Distinct xs
      → has x xs ≡ true
      → IsFreeList (unlink_free x h) 0 (unlink_free x h).free_list (erase x xs)
  unlink_free-IsFreeList xs l d i =
      let zero_out = has_zero h 0 h.free_list xs l in
      let before = previous-has h 0 h.free_list xs x l i in
      let start : (unlink_free x h).free_list
          ≡ (if h.free_list == x then (h.blocks x).forward else h.free_list) =
        ground (arith, free_list-unlink, before, zero_out) in
      rw start (unlink-IsFreeList 0 h.free_list xs l d zero_out i)

-- `allocateBlock` knows the block before from its search.
pub remove_from_free_list-unlink_free :
    (h : Heap) (x : ℕ) → remove_from_free_list (h.blocks x).previous_free x h ≡ unlink_free x h
unfolding remove_from_free_list unlink_free
remove_from_free_list-unlink_free h x = refl
