-- ===== src/Memory/NoGarbage.antt =====
-- The whole walk of the sweep of lib/src/memory/garbageCollect.c.
use mjvmk.Base.{
  ℕ, zero, suc, ◌+◌, ◌<◌, ◌≤◌, ◌≡◌, refl, sym, ◌∙◌, true, false, Bool, ◌&&◌, ◌||◌, if◌then◌else◌,
  List, [], ◌∷◌, length, arith, Bool-cases, inl, inr,
}
use mjvmk.LinkedList.Chain.{has}
use mjvmk.Memory.{Heap, get_size, is_not_past_heap_end, following_block}
use mjvmk.Memory.Sweep.{is_skipped, is_referenced, Walk, collect, walk, sweep}
use mjvmk.Memory.Collect.{garbage_collect, run_garbage_collection, add_released}
use mjvmk.Memory.Keeps.{IsMarked, collect-Keeps, garbage_collect-Keeps, add_released-SameMarks}
use mjvmk.Memory.Swept.{IsSettled, IsSettled-frame, IsTiled, is_settled, skipped_lem, IsTiled-le}
use mjvmk.Memory.Garbage.{Stay, Cleared, IsPrevious, collect-Cleared, collect-heap_end}

-- Settled blocks fill the heap.
abbrev pub IsFilled : ℕ → ℕ → Heap → Type 0
IsFilled start end h = (qs : List ℕ) × IsSettled h start qs end

-- They do, with the blocks `known` that were referenced in `old` among them.
abbrev pub IsFilledFrom : Heap → (ℕ → Bool) → ℕ → ℕ → Heap → Type 0
IsFilledFrom old known start end h =
    (qs : List ℕ) × IsSettled h start qs end × Stay old known (λ y. has y qs)

-- The blocks of a walk: those behind it, the one at hand and those before it.
abbrev pub known_to : ℕ → List ℕ → List ℕ → ℕ → Bool
known_to b ps xs y = has y (b ∷ ps) || has y xs

module _ (start end : ℕ) (small : end < 16777216) where
  -- What the walk does next, given that it does it right from there on.
  module _ (fuel : ℕ)
      (ih : (w : Walk) (ps xs : List ℕ)
        → IsMarked w.heap
        → IsSettled w.heap start ps w.block
        → IsPrevious ps w.previous
        → 0 < get_size w.block w.heap
        → IsTiled w.heap (following_block w.block w.heap) xs end
        → end ≡ w.heap.heap_end
        → length xs < fuel
        → IsFilledFrom w.heap (known_to w.block ps xs) start end ((walk fuel w).heap)) where
    -- Behind a settled block.
    go_on :
        (w : Walk) (b : ℕ) (ps xs : List ℕ)
        → IsMarked w.heap
        → IsSettled w.heap start ps b
        → 0 < get_size b w.heap
        → is_settled b w.heap ≡ true
        → IsTiled w.heap (following_block b w.heap) xs end
        → end ≡ w.heap.heap_end
        → length xs ≤ fuel
        → IsFilledFrom w.heap (known_to b ps xs) start end (
            (if is_not_past_heap_end (following_block b w.heap) w.heap
              then walk fuel (record w { previous = b; block = following_block b w.heap })
              else w).heap)
    go_on w b ps [] v s size settled t e enough =
        let over : is_not_past_heap_end (following_block b w.heap) w.heap ≡ false =
          ground (arith, t, e) in
        rw over (b ∷ ps, (t, size, settled, s), λ y r k. ground (arith, k))
    go_on w b ps (x ∷ xs) v s size settled t e enough =
        let less : x < end =
          omega (arith, t.1, IsTiled-le w.heap (x + get_size x w.heap) xs end (t.2)) in
        let more : is_not_past_heap_end (following_block b w.heap) w.heap ≡ true =
          ground (arith, t.0, less, e) in
        let rest =
          ih (record w { previous = b; block = following_block b w.heap }) (b ∷ ps) xs v
            (refl, size, settled, s) refl (rw (t.0) (t.1)) (rw (t.0) (t.2)) e
            (omega (arith, enough)) in
        rw more (rest.0, rest.1, λ y r k. rest.2 y r (ground (arith, k, t.0)))

    -- Behind collected blocks.
    collected_on :
        (old : Heap) (known : ℕ → Bool) (w : Walk) (next most : ℕ)
        → ((y : ℕ) → is_referenced y old ≡ true → is_referenced y w.heap ≡ true)
        → IsMarked w.heap
        → end ≡ w.heap.heap_end
        → Cleared old known start end most next w.heap
        → most ≤ fuel
        → IsFilledFrom old known start end (
            (if is_not_past_heap_end next w.heap
                && is_not_past_heap_end (following_block next w.heap) w.heap
              then walk fuel (record w { previous = next; block = following_block next w.heap })
              else w).heap)
    collected_on old known w next most live v e (qs, [], s, t, short, stops, stay) enough =
        let over : is_not_past_heap_end next w.heap ≡ false = ground (arith, t, e) in
        rw over (qs, rw (sym t) s, λ y r k. ground (arith, stay y r k))
    collected_on old known w next most live v e (qs, z ∷ zs, s, t, short, stops, stay) enough =
        let up = IsTiled-le w.heap (z + get_size z w.heap) zs end (t.2) in
        let less : next < end = omega (arith, t.0, t.1, up) in
        let inside : is_not_past_heap_end next w.heap ≡ true = ground (arith, less, e) in
        let referenced = stops less in
        let settled : is_settled next w.heap ≡ true = ground (arith, referenced) in
        let sized : 0 < get_size next w.heap = rw (t.0) (t.1) in
        let tiled : IsTiled w.heap (following_block next w.heap) zs end = rw (t.0) (t.2) in
        let rest = go_on w next qs zs v s sized settled tiled e (omega (arith, short, enough)) in
        rw inside (rest.0, rest.1, λ y r k. rest.2 y (live y r) (ground (arith, stay y r k, t.0)))

  pub walk-IsFilled :
      (fuel : ℕ) (w : Walk) (ps xs : List ℕ)
      → IsMarked w.heap
      → IsSettled w.heap start ps w.block
      → IsPrevious ps w.previous
      → 0 < get_size w.block w.heap
      → IsTiled w.heap (following_block w.block w.heap) xs end
      → end ≡ w.heap.heap_end
      → length xs < fuel
      → IsFilledFrom w.heap (known_to w.block ps xs) start end ((walk fuel w).heap)
  unfolding walk
  walk-IsFilled zero w ps xs v s p size t e enough = absurd (omega (arith, enough))
  walk-IsFilled (suc fuel) w ps xs v s p size t e enough =
      elim (Bool-cases (is_skipped w.block w.heap)) [
        | inl skip ↦ rw skip (
            go_on fuel (walk-IsFilled fuel) w w.block ps xs v s size
              (skipped_lem w.heap w.block v skip) t e (omega (arith, enough)))
        | inr not_skipped ↦
            let kept = collect-Keeps fuel w v not_skipped in
            let cleared =
              collect-Cleared fuel start end w ps xs v not_skipped s p size t e small
                (omega (arith, enough)) in
            rw not_skipped (
              collected_on fuel (walk-IsFilled fuel) w.heap (known_to w.block ps xs)
                ((collect fuel w).1) ((collect fuel w).0) (length xs) (λ y r. rw ((kept.0 y r).0) r)
                (kept.1) (e ∙ sym (collect-heap_end fuel w)) cleared (omega (arith, enough)))
      ]

pub garbage_collect-IsFilledFrom :
    (fuel : ℕ) (mark : Heap → Heap) (last b : ℕ) (bs : List ℕ) (h : Heap)
    → IsMarked (mark h)
    → IsTiled (mark h) (mark h).heap (b ∷ bs) (mark h).heap_end
    → (mark h).heap_end < 16777216
    → length bs < fuel
    → IsFilledFrom
        (mark h)
        (λ y. has y (b ∷ bs))
        (mark h).heap
        (mark h).heap_end
        (garbage_collect fuel mark last h)
unfolding garbage_collect run_garbage_collection sweep
garbage_collect-IsFilledFrom fuel mark last b bs h v t small enough =
    let start : Walk = record {
      heap = mark h;
      block = (mark h).heap;
      previous = 0;
      released = 0;
      last = last;
    } in
    let w = walk fuel start in
    let filled =
      walk-IsFilled (mark h).heap (mark h).heap_end small fuel start [] bs v refl refl
        (rw (t.0) (t.1)) (rw (t.0) (t.2)) refl enough in
    (
      filled.0,
      IsSettled-frame w.heap (add_released w) (mark h).heap (filled.0) (mark h).heap_end
          (λ y l. add_released-SameMarks w y) (filled.1),
      λ y r k. filled.2 y r (ground (arith, k, t.0)),
    )

-- garbageCollect where the mark function leaves a heap with possible flags that the blocks `b ∷ bs` fill, below
-- the address 2 ^ 24, on as many rounds as there are blocks, or more: blocks fill the heap again, and each of
-- them is free or referenced, so that no garbage is left.
pub garbage_collect-IsFilled :
    (fuel : ℕ) (mark : Heap → Heap) (last b : ℕ) (bs : List ℕ) (h : Heap)
    → IsMarked (mark h)
    → IsTiled (mark h) (mark h).heap (b ∷ bs) (mark h).heap_end
    → (mark h).heap_end < 16777216
    → length bs < fuel
    → IsFilled (mark h).heap (mark h).heap_end (garbage_collect fuel mark last h)
garbage_collect-IsFilled fuel mark last b bs h v t small enough =
    let filled = garbage_collect-IsFilledFrom fuel mark last b bs h v t small enough in
    (filled.0, filled.1)

-- garbageCollect where the mark function leaves a heap with possible flags that the blocks `b ∷ bs`
-- fill, below the address 2 ^ 24, on as many rounds as there are blocks, or more: blocks fill the
-- heap again, and every block that the mark function left referenced is still a block of its own
-- among them, with its flags and its size.
pub garbage_collect-keeps_blocks :
    (fuel : ℕ) (mark : Heap → Heap) (last b : ℕ) (bs : List ℕ) (h : Heap)
    → IsMarked (mark h)
    → IsTiled (mark h) (mark h).heap (b ∷ bs) (mark h).heap_end
    → (mark h).heap_end < 16777216
    → length bs < fuel
    → let g : Heap = garbage_collect fuel mark last h in
      (qs : List ℕ) × IsSettled g (mark h).heap qs (mark h).heap_end
      × ((y : ℕ)
          → has y (b ∷ bs) ≡ true
          → is_referenced y (mark h) ≡ true
          → (has y qs ≡ true)
            × ((g.blocks y).flags ≡ ((mark h).blocks y).flags)
            × (get_size y g ≡ get_size y (mark h)))
garbage_collect-keeps_blocks fuel mark last b bs h v t small enough =
    let filled = garbage_collect-IsFilledFrom fuel mark last b bs h v t small enough in
    let kept = garbage_collect-Keeps fuel mark last h v in
    (filled.0, filled.1, λ y i r. (filled.2 y r i, (kept.0 y r).0, (kept.0 y r).1))
