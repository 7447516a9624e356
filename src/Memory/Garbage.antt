-- ===== src/Memory/Garbage.antt =====
-- The sweep of lib/src/memory/garbageCollect.c comes to the end of the heap and leaves no garbage.
use mjvmk.Base.{
  ℕ, zero, suc, ◌+◌, ◌-◌, ◌%◌, ◌<◌, ◌≤◌, ◌≡◌, ◌≢◌, refl, ap, ◌∙◌, Bool, true, false, not, ◌&&◌,
  ◌||◌, sym, ne→not_==, ◌==◌, if◌then◌else◌, List, [], ◌∷◌, length, arith, Bool-cases, inl, inr,
}
use mjvmk.LinkedList.Chain.{has}
use mjvmk.Memory.{Heap, is_free, get_size, following_block}
use mjvmk.Memory.Free.{unlink_free, tell_neighbour}
use mjvmk.Memory.Sweep.{
  is_skipped, is_referenced, is_absorbed, Walk, absorb, join_to_previous, free_up_to, release,
  collect,
}
use mjvmk.Memory.Keeps.{
  IsMarked, unreferenced_lem, SameMarks, FreesOne, absorb-SameMarks, join_to_previous-FreesOne,
  free_up_to-FreesOne, release-SameMarks,
}
use mjvmk.Memory.Swept.{
  IsSettled, IsTiled, IsSettled-frame, IsTiled-frame, IsTiled-le, Absorbed, absorb-Absorbed,
  unlink_free-heap_end,
}

-- The blocks of the set `known` that were referenced in the heap `h` are in the set `now`.
abbrev pub Stay : Heap → (ℕ → Bool) → (ℕ → Bool) → Type 0
Stay h known now = (y : ℕ) → is_referenced y h ≡ true → known y ≡ true → now y ≡ true

-- What a collection leaves: settled blocks up to `next`, and behind it the rest of the heap, which begins
-- with a referenced block if it is not empty. The blocks `known` that were referenced in `old` are among them.
abbrev pub Cleared : Heap → (ℕ → Bool) → ℕ → ℕ → ℕ → ℕ → Heap → Type 0
Cleared old known start end most next g =
    (qs : List ℕ) × (zs : List ℕ) × IsSettled g start qs next
    × IsTiled g next zs end
    × (length zs ≤ most)
    × (next < end → is_referenced next g ≡ true)
    × Stay old known (λ y. has y qs || has y zs)

module _ (old : Heap) (known : ℕ → Bool) (start end most a next : ℕ) (h g : Heap) (ps zs : List ℕ)
    (s : IsSettled h start ps a) (t : IsTiled h next zs end) (short : length zs ≤ most)
    (up : a < next) (stops : next < end → is_referenced next h ≡ true) (freed : FreesOne a h g)
    (sized : get_size a g ≡ next - a)
    (stay : Stay old known (λ y. has y (a ∷ ps) || has y zs)) where
  other :
      (y : ℕ) → a ≢ y → ((g.blocks y).flags ≡ (h.blocks y).flags) × (get_size y g ≡ get_size y h)
  other y ne =
      let n : (a == y) ≡ false = ground (arith, ne) in
      (ground (arith, n, (freed y).0), (freed y).1 n)

  free-Cleared : Cleared old known start end most next g
  free-Cleared =
      let flags : (g.blocks a).flags ≡ 0 = ground (arith, (freed a).0) in
      (
        a ∷ ps,
        zs,
        (
          omega (arith, sized, up),
          omega (arith, sized, up),
          rw flags refl,
          IsSettled-frame h g start ps a (λ y l. other y (λ e. omega (arith, e, l))) s,
        ),
        IsTiled-frame h g next zs end (λ y l. (other y (λ e. omega (arith, e, l, up))).1) t,
        short,
        λ l. rw ((other next (λ e. omega (arith, e, up))).0) (stops l),
        stay,
      )

Cleared-same :
    (old : Heap) (known : ℕ → Bool) (start end most next : ℕ) (h g : Heap)
    → SameMarks h g
    → Cleared old known start end most next h
    → Cleared old known start end most next g
Cleared-same old known start end most next h g same (qs, zs, s, t, short, stops, stay) = (
  qs,
  zs,
  IsSettled-frame h g start qs next (λ y l. same y) s,
  IsTiled-frame h g next zs end (λ y l. (same y).1) t,
  short,
  λ l. rw ((same next).0) (stops l),
  stay,
)

absorb-none : (fuel b : ℕ) (h : Heap) → is_absorbed b h ≡ false → absorb fuel b h ≡ (b, h)
unfolding absorb
absorb-none zero b h stop = refl
absorb-none (suc fuel) b h stop = rw stop refl

join_size :
    (p joined next : ℕ) (h : Heap)
    → get_size p (join_to_previous p joined next h) ≡ (get_size p h + joined) % 16777216
unfolding join_to_previous tell_neighbour
join_size p joined next h = ground arith

free_size :
    (b next : ℕ) (h : Heap)
    → (get_size b (free_up_to true b next h) ≡ (next - b) % 16777216)
      × (get_size b (free_up_to false b next h) ≡ get_size b h)
unfolding free_up_to tell_neighbour
free_size b next h = (ground arith, ground arith)

-- The block that the walk has just left is the last of the settled ones, or NULL.
abbrev pub IsPrevious : List ℕ → ℕ → Type 0
IsPrevious [] previous = previous ≡ 0
IsPrevious (p ∷ ps) previous = previous ≡ p

module _ (fuel start end : ℕ) (w : Walk) (ps xs : List ℕ) (v : IsMarked w.heap)
    (not_skipped : is_skipped w.block w.heap ≡ false) (s : IsSettled w.heap start ps w.block)
    (previous : IsPrevious ps w.previous) (size : 0 < get_size w.block w.heap)
    (t : IsTiled w.heap (following_block w.block w.heap) xs end) (ends : end ≡ w.heap.heap_end)
    (small : end < 16777216) (enough : length xs ≤ fuel) where
  abbrev first : ℕ
  first = following_block w.block w.heap

  abbrev next : ℕ
  next = (absorb fuel first w.heap).0

  abbrev h : Heap
  h = (absorb fuel first w.heap).1

  same : SameMarks w.heap h
  same = absorb-SameMarks fuel first w.heap

  absorbed : Absorbed w.heap first end xs next
  absorbed = rw ends (absorb-Absorbed fuel first w.heap xs (rw ends at t) enough)

  joined_lem :
      (if is_absorbed first w.heap then next - w.block else get_size w.block h) ≡ next - w.block
  joined_lem = elim (Bool-cases (is_absorbed first w.heap)) [
    | inl more ↦ rw more refl
    | inr stop ↦
        let none_taken : next ≡ first = ap (λ r. r.0) (absorb-none fuel first w.heap stop) in
        rw (stop, (same w.block).1) (omega (arith, none_taken))
  ]

  below_end : next ≤ end
  below_end = IsTiled-le w.heap next (absorbed.0) end (absorbed.1)

  above : w.block < next
  above = omega (arith, size, absorbed.3)

  rest_tiles : IsTiled h next (absorbed.0) end
  rest_tiles = IsTiled-frame w.heap h next (absorbed.0) end (λ y l. (same y).1) (absorbed.1)

  rest_stops : next < end → is_referenced next h ≡ true
  rest_stops l = rw ((same next).0) (absorbed.4 l)

  freed_size :
      get_size w.block (free_up_to (is_absorbed first w.heap) w.block next h) ≡ next - w.block
  freed_size = elim (Bool-cases (is_absorbed first w.heap)) [
    | inl more ↦ rw more ((free_size w.block next h).0 ∙ omega (arith, below_end, small))
    | inr stop ↦ rw stop ((free_size w.block next h).1 ∙ rw stop at joined_lem)
  ]

  -- The blocks behind the walk, the one at hand and those before it.
  abbrev known : ℕ → Bool
  known y = has y (w.block ∷ ps) || has y xs

  alone-Stay : Stay w.heap known (λ y. has y (w.block ∷ ps) || has y (absorbed.0))
  alone-Stay y r k = elim (Bool-cases (has y (w.block ∷ ps))) [
    | inl here ↦ rw here refl
    | inr not_here ↦ let i : has y xs ≡ true = rw not_here at k in rw not_here (absorbed.5 y r i)
  ]

  unreferenced : is_referenced w.block w.heap ≡ false
  unreferenced = (unreferenced_lem w.heap w.block v).0 not_skipped

  apart_lem : (y : ℕ) → is_referenced y w.heap ≡ true → w.block ≢ y
  apart_lem y r e = ground (arith, ap (λ b. is_referenced b w.heap) e, unreferenced, r)

  join-Stay : Stay w.heap known (λ y. has y ps || has y (absorbed.0))
  join-Stay y r k =
      let other : (y == w.block) ≡ false = ne→not_== y w.block (λ e. apart_lem y r (sym e)) in
      let kept = alone-Stay y r k in rw other at kept

  alone-Cleared :
      Cleared w.heap known start end
        (length xs)
        next
        ((release w.block w (free_up_to (is_absorbed first w.heap) w.block next h)).heap)
  alone-Cleared =
      let k = free_up_to (is_absorbed first w.heap) w.block next h in
      Cleared-same w.heap known start end (length xs) next k ((release w.block w k).heap)
        (release-SameMarks w.block w k)
        (free-Cleared w.heap known start end (length xs) w.block next h k ps (absorbed.0)
          (IsSettled-frame w.heap h start ps w.block (λ y l. same y) s) rest_tiles (absorbed.2)
          above rest_stops (free_up_to-FreesOne (is_absorbed first w.heap) w.block next h)
          freed_size alone-Stay)

  join-Cleared :
      (qs : List ℕ)
      → IsSettled w.heap start qs w.block
      → IsPrevious qs w.previous
      → w.previous ≢ 0
      → (joined : ℕ) → joined ≡ next - w.block
      → Stay w.heap known (λ y. has y qs || has y (absorbed.0))
      → Cleared w.heap known start end (length xs) next (join_to_previous w.previous joined next h)
  join-Cleared [] k at ne joined e stay = absurd (ne at)
  join-Cleared (p ∷ qs) k at ne joined e stay =
      let g = join_to_previous p joined next h in
      let before : p < w.block = omega (arith, k.0, k.1) in
      let sized : get_size p g ≡ next - p =
        join_size p joined next h ∙ omega (arith, (same p).1, k.0, e, above, below_end, small) in
      rw at (
        free-Cleared w.heap known start end (length xs) p next h g qs (absorbed.0)
          (IsSettled-frame w.heap h start qs p (λ y l. same y) (k.3)) rest_tiles (absorbed.2)
          (omega (arith, before, above)) rest_stops (join_to_previous-FreesOne p joined next h)
          sized stay)

  pub collect-Cleared :
      Cleared w.heap known start end (length xs) ((collect fuel w).0) ((collect fuel w).1.heap)
  unfolding collect
  collect-Cleared = elim (Bool-cases (not (w.previous == 0) && is_free w.previous h)) [
    | inl joins ↦
        let ne : w.previous ≢ 0 = (λ e. ground (arith, e, joins)) in
        rw joins (
          join-Cleared ps s previous ne
            (if is_absorbed first w.heap then next - w.block else get_size w.block h) joined_lem
            join-Stay)
    | inr alone ↦ rw alone alone-Cleared
  ]

absorb-heap_end : (fuel b : ℕ) (h : Heap) → (absorb fuel b h).1.heap_end ≡ h.heap_end
unfolding absorb
absorb-heap_end zero b h = refl
absorb-heap_end (suc fuel) b h =
    let h₁ : Heap = if is_free b h then unlink_free b h else h in
    elim (Bool-cases (is_absorbed b h)) [
      | inr stop ↦ rw stop refl
      | inl more ↦ rw more (absorb-heap_end fuel (following_block b h₁) h₁ ∙ end_lem (is_free b h))
    ]
  where
    end_lem : (f : Bool) → (if f then unlink_free b h else h).heap_end ≡ h.heap_end
    end_lem true = unlink_free-heap_end b h
    end_lem false = refl

pub collect-heap_end : (fuel : ℕ) (w : Walk) → (collect fuel w).1.heap.heap_end ≡ w.heap.heap_end
unfolding collect join_to_previous free_up_to release tell_neighbour
collect-heap_end fuel w =
    let kept = absorb-heap_end fuel (following_block w.block w.heap) w.heap in ground (arith, kept)
