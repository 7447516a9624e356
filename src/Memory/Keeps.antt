-- ===== src/Memory/Keeps.antt =====
-- What the sweep of lib/src/memory/garbageCollect.c leaves alone.
use mjvmk.Base.{
  ℕ, zero, suc, ◌-◌, ◌<◌, ◌≡◌, ◌∙◌, refl, Bool, true, false, not, ◌&&◌, ◌||◌, ◌==◌, if◌then◌else◌,
  bit_and, arith, Bool-cases, inl, inr, holds_below, holds_below_at,
}
use mjvmk.Memory.{Heap, is_free, is_free_flags, get_size, is_not_past_heap_end, following_block}
use mjvmk.Memory.Free.{unlink_free, tell_neighbour}
use mjvmk.Memory.Allocate.{add_to_free_list}
use mjvmk.Memory.Collect.{garbage_collect, run_garbage_collection, add_released}
use mjvmk.Memory.Sweep.{
  is_skipped_flags, is_skipped, is_referenced, is_absorbed, Walk, absorb, join_to_previous,
  free_up_to, release, collect, walk, sweep,
}

-- The flags of a block are eight bits, and a block is not both collectible and not collectible, nor free and
-- black: the cases that the source says never occur.
abbrev pub is_possible_flags : ℕ → Bool
is_possible_flags flags =
    (bit_and flags 29 == 0)
    || (bit_and flags 29 == 16)
    || (bit_and flags 29 == 17)
    || (bit_and flags 29 == 12)
    || (bit_and flags 29 == 8)
    || (bit_and flags 29 == 4)
    || (bit_and flags 29 == 13)
    || (bit_and flags 29 == 9)
    || (bit_and flags 29 == 5)

abbrev pub IsMarked : Heap → Type 0
IsMarked h = (y : ℕ) → ((h.blocks y).flags < 256) × (is_possible_flags (h.blocks y).flags ≡ true)

-- A block that is not skipped or that is free is not referenced.
abbrev unreferenced_test : ℕ → Bool
unreferenced_test f =
    not (is_possible_flags f)
    || ((is_skipped_flags f || (bit_and f 17 == 0))
        && (not (is_free_flags f) || (bit_and f 17 == 0)))

unreferenced_table : holds_below 256 unreferenced_test ≡ true
unreferenced_table = refl

pub unreferenced_lem :
    (h : Heap) (b : ℕ)
    → IsMarked h
    → (is_skipped b h ≡ false → is_referenced b h ≡ false)
      × (is_free b h ≡ true → is_referenced b h ≡ false)
unreferenced_lem h b v =
    let f = (h.blocks b).flags in
    let all = holds_below_at 256 unreferenced_test f unreferenced_table (v b).0 in
    (λ s. ground (arith, all, (v b).1, s), λ s. ground (arith, all, (v b).1, s))

-- The blocks that are referenced keep their flags and sizes, and the flags stay possible.
abbrev pub Keeps : Heap → Heap → Type 0
Keeps h g =
    ((y : ℕ)
      → is_referenced y h ≡ true
      → ((g.blocks y).flags ≡ (h.blocks y).flags) × (get_size y g ≡ get_size y h))
    × IsMarked g

Keeps-trans : (h g k : Heap) → Keeps h g → Keeps g k → Keeps h k
Keeps-trans h g k a b = (
  λ y r.
      let first = a.0 y r in
      let second = b.0 y (rw (first.0) r) in (second.0 ∙ first.0, second.1 ∙ first.1),
  b.1,
)

-- No flag and no size changes.
abbrev pub SameMarks : Heap → Heap → Type 0
SameMarks h g = (y : ℕ) → ((g.blocks y).flags ≡ (h.blocks y).flags) × (get_size y g ≡ get_size y h)

SameMarks-Keeps : (h g : Heap) → IsMarked h → SameMarks h g → Keeps h g
SameMarks-Keeps h g v s = (λ y r. s y, λ y. rw ((s y).0) (v y))

-- One unreferenced block becomes free.
abbrev pub FreesOne : ℕ → Heap → Heap → Type 0
FreesOne b h g =
    (y : ℕ)
    → ((g.blocks y).flags ≡ (if b == y then 0 else (h.blocks y).flags))
      × ((b == y) ≡ false → get_size y g ≡ get_size y h)

FreesOne-Keeps :
    (b : ℕ) (h g : Heap) → IsMarked h → is_referenced b h ≡ false → FreesOne b h g → Keeps h g
FreesOne-Keeps b h g v u s = (
  λ y r. elim (Bool-cases (b == y)) [
    | inl e ↦ absurd (ground (arith, e, u, r))
    | inr n ↦ (ground (arith, n, (s y).0), (s y).1 n)
  ],
  λ y. elim (Bool-cases (b == y)) [
    | inl e ↦
        let at : (g.blocks y).flags ≡ 0 = ground (arith, e, (s y).0) in rw at (omega arith, refl)
    | inr n ↦
        let at : (g.blocks y).flags ≡ (h.blocks y).flags = ground (arith, n, (s y).0) in rw at (v y)
  ],
)

pub tell_neighbour-SameMarks : (n b : ℕ) (h : Heap) → SameMarks h (tell_neighbour n b h)
unfolding tell_neighbour
tell_neighbour-SameMarks n b h y = (ground arith, ground arith)

pub unlink_free-SameMarks : (b : ℕ) (h : Heap) → SameMarks h (unlink_free b h)
unfolding unlink_free
unlink_free-SameMarks b h y = (ground arith, ground arith)

pub absorb-SameMarks : (fuel b : ℕ) (h : Heap) → SameMarks h ((absorb fuel b h).1)
unfolding absorb
absorb-SameMarks zero b h y = (refl, refl)
absorb-SameMarks (suc fuel) b h y =
    let h₁ : Heap = if is_free b h then unlink_free b h else h in
    elim (Bool-cases (is_absorbed b h)) [
      | inr stop ↦ rw stop (refl, refl)
      | inl more ↦
          let rest = absorb-SameMarks fuel (following_block b h₁) h₁ y in
          let one = unlink_free-SameMarks b h y in
          rw more (
            rest.0 ∙ here (is_free b h) (λ k. (k.blocks y).flags) (one.0),
            rest.1 ∙ here (is_free b h) (λ k. (k.blocks y).size) (one.1),
          )
    ]
  where
    here :
        (t : Bool) (f : Heap → ℕ)
        → f (unlink_free b h) ≡ f h
        → f (if t then unlink_free b h else h) ≡ f h
    here true f e = e
    here false f e = refl

pub join_to_previous-FreesOne :
    (p joined next : ℕ) (h : Heap) → FreesOne p h (join_to_previous p joined next h)
unfolding join_to_previous tell_neighbour
join_to_previous-FreesOne p joined next h y = (ground arith, λ n. ground (arith, n))

pub free_up_to-FreesOne :
    (absorbs : Bool) (b next : ℕ) (h : Heap) → FreesOne b h (free_up_to absorbs b next h)
unfolding free_up_to tell_neighbour
free_up_to-FreesOne true b next h y = (ground arith, λ n. ground (arith, n))
free_up_to-FreesOne false b next h y = (ground arith, λ n. ground (arith, n))

pub release-SameMarks : (b : ℕ) (w : Walk) (h : Heap) → SameMarks h ((release b w h).heap)
unfolding release
release-SameMarks b w h y = (ground arith, ground arith)

pub collect-Keeps :
    (fuel : ℕ) (w : Walk)
    → IsMarked w.heap
    → is_skipped w.block w.heap ≡ false
    → Keeps w.heap ((collect fuel w).1.heap)
unfolding collect
collect-Keeps fuel w v s =
    let first = following_block w.block w.heap in
    let absorbs = is_absorbed first w.heap in
    let absorbed = absorb fuel first w.heap in
    let h = absorbed.1 in
    let next = absorbed.0 in
    let joined : ℕ = if absorbs then next - w.block else get_size w.block h in
    let same = absorb-SameMarks fuel first w.heap in
    let kept = SameMarks-Keeps w.heap h v same in
    elim (Bool-cases (not (w.previous == 0) && is_free w.previous h)) [
      | inl joins ↦
          let free : is_free w.previous h ≡ true = ground (arith, joins) in
          rw joins (
            Keeps-trans w.heap h (join_to_previous w.previous joined next h) kept (
              FreesOne-Keeps w.previous h (join_to_previous w.previous joined next h) (kept.1)
                ((unreferenced_lem h w.previous (kept.1)).1 free)
                (join_to_previous-FreesOne w.previous joined next h)))
      | inr alone ↦
          let unreferenced : is_referenced w.block h ≡ false =
            rw ((same w.block).0) ((unreferenced_lem w.heap w.block v).0 s) in
          let k = free_up_to absorbs w.block next h in
          let freed =
            FreesOne-Keeps w.block h k (kept.1) unreferenced
              (free_up_to-FreesOne absorbs w.block next h) in
          rw alone (
            Keeps-trans w.heap h ((release w.block w k).heap) kept (
              Keeps-trans h k ((release w.block w k).heap) freed (
                SameMarks-Keeps k ((release w.block w k).heap) (freed.1)
                  (release-SameMarks w.block w k))))
    ]

-- The sweep, on any number of rounds, from a heap whose flags are possible: every block that is referenced
-- keeps its flags and its size, and the flags stay possible.
pub walk-Keeps : (fuel : ℕ) (w : Walk) → IsMarked w.heap → Keeps w.heap ((walk fuel w).heap)
unfolding walk
walk-Keeps zero w v = (λ y r. (refl, refl), v)
walk-Keeps (suc fuel) w v =
    let skipped = following_block w.block w.heap in
    let collected = collect fuel w in
    let next = collected.0 in
    let w₁ = collected.1 in
    let behind = following_block next w₁.heap in
    elim (Bool-cases (is_skipped w.block w.heap)) [
      | inl skip ↦ elim (Bool-cases (is_not_past_heap_end skipped w.heap)) [
        | inl more ↦
            rw (skip, more) (walk-Keeps fuel (record w { previous = w.block; block = skipped }) v)
        | inr end ↦ rw (skip, end) (λ y r. (refl, refl), v)
      ]
      | inr not_skipped ↦
          let kept = collect-Keeps fuel w v not_skipped in
          elim (Bool-cases
            (is_not_past_heap_end next w₁.heap && is_not_past_heap_end behind w₁.heap)) [
              | inl more ↦
                  rw (not_skipped, more)
                    (Keeps-trans w.heap w₁.heap
                      ((walk fuel (record w₁ { previous = next; block = behind })).heap) kept
                      (walk-Keeps fuel (record w₁ { previous = next; block = behind }) (kept.1)))
              | inr end ↦ rw (not_skipped, end) kept
            ]
    ]

pub add_released-SameMarks : (w : Walk) → SameMarks w.heap (add_released w)
unfolding add_released add_to_free_list
add_released-SameMarks w y = (ground arith, ground arith)

-- garbageCollect, with any mark function, on any number of rounds: where the flags that the mark function
-- leaves are possible, every block that is then referenced keeps its flags and its size.
pub garbage_collect-Keeps :
    (fuel : ℕ) (mark : Heap → Heap) (last : ℕ) (h : Heap)
    → IsMarked (mark h)
    → Keeps (mark h) (garbage_collect fuel mark last h)
unfolding garbage_collect run_garbage_collection sweep
garbage_collect-Keeps fuel mark last h v =
    let start : Walk = record {
      heap = mark h;
      block = (mark h).heap;
      previous = 0;
      released = 0;
      last = last;
    } in
    let swept = walk-Keeps fuel start v in
    Keeps-trans (mark h) ((walk fuel start).heap) (add_released (walk fuel start)) swept (
      SameMarks-Keeps ((walk fuel start).heap) (add_released (walk fuel start)) (swept.1)
        (add_released-SameMarks (walk fuel start)))
