-- ===== src/Memory/Swept.antt =====
-- The blocks that the sweep of lib/src/memory/garbageCollect.c has behind it and those before it.
use mjvmk.Base.{
  ℕ, zero, suc, ◌+◌, ◌<◌, ◌≤◌, ◌≡◌, refl, sym, ap, ◌∙◌, Bool, true, false, not, ◌||◌, ◌==◌,
  if◌then◌else◌, bit_and, List, [], ◌∷◌, length, arith, Bool-cases, inl, inr, holds_below,
  holds_below_at,
}
use mjvmk.LinkedList.Chain.{has}
use mjvmk.Memory.{Heap, is_free, is_free_flags, get_size, following_block}
use mjvmk.Memory.Free.{unlink_free}
use mjvmk.Memory.Sweep.{is_skipped, is_skipped_flags, is_referenced, is_absorbed, absorb}
use mjvmk.Memory.Keeps.{IsMarked, SameMarks, unlink_free-SameMarks}

-- A block that is free or referenced is no garbage.
abbrev pub is_settled : ℕ → Heap → Bool
is_settled b h = is_free b h || is_referenced b h

-- The blocks from `start` to `q`, the last one first: each ends where the next one starts, and none is garbage.
abbrev pub IsSettled : Heap → ℕ → List ℕ → ℕ → Type 0
IsSettled h start [] q = start ≡ q
IsSettled h start (p ∷ ps) q =
    (p + get_size p h ≡ q) × (0 < get_size p h) × (is_settled p h ≡ true) × IsSettled h start ps p

-- The blocks from `p` to `end`, the first one first.
abbrev pub IsTiled : Heap → ℕ → List ℕ → ℕ → Type 0
IsTiled h p [] end = p ≡ end
IsTiled h p (x ∷ xs) end = (p ≡ x) × (0 < get_size x h) × IsTiled h (x + get_size x h) xs end

pub IsSettled-frame :
    (h g : Heap) (start : ℕ) (ps : List ℕ) (q : ℕ)
    → ((y : ℕ) → y < q → ((g.blocks y).flags ≡ (h.blocks y).flags) × (get_size y g ≡ get_size y h))
    → IsSettled h start ps q
    → IsSettled g start ps q
IsSettled-frame h g start [] q same s = s
IsSettled-frame h g start (p ∷ ps) q same s =
    let less : p < q = omega (arith, s.0, s.1) in
    let at = same p less in
    (
      rw (at.1) (s.0),
      rw (at.1) (s.1),
      rw (at.0) (s.2),
      IsSettled-frame h g start ps p (λ y l. same y (omega (arith, l, less))) (s.3),
    )

pub IsTiled-frame :
    (h g : Heap) (p : ℕ) (xs : List ℕ) (end : ℕ)
    → ((y : ℕ) → p ≤ y → get_size y g ≡ get_size y h)
    → IsTiled h p xs end
    → IsTiled g p xs end
IsTiled-frame h g p [] end same t = t
IsTiled-frame h g p (x ∷ xs) end same t =
    let at : get_size x g ≡ get_size x h = same x (omega (arith, t.0)) in
    (
      t.0,
      rw at (t.1),
      rw at (
          IsTiled-frame h g (x + get_size x h) xs end (λ y l. same y (omega (arith, l, t.0)))
            (t.2)),
    )

-- The tiles lead upwards.
pub IsTiled-le : (h : Heap) (p : ℕ) (xs : List ℕ) (end : ℕ) → IsTiled h p xs end → p ≤ end
IsTiled-le h p [] end t = omega (arith, t)
IsTiled-le h p (x ∷ xs) end t = omega (arith, t.0, IsTiled-le h (x + get_size x h) xs end (t.2))

-- A skipped block is settled.
abbrev skipped_test : ℕ → Bool
skipped_test f = not (is_skipped_flags f) || (is_free_flags f || not (bit_and f 17 == 0))

skipped_table : holds_below 256 skipped_test ≡ true
skipped_table = refl

pub skipped_lem : (h : Heap) (b : ℕ) → IsMarked h → is_skipped b h ≡ true → is_settled b h ≡ true
skipped_lem h b v s =
    let all = holds_below_at 256 skipped_test (h.blocks b).flags skipped_table (v b).0 in
    ground (arith, all, s)

pub unlink_free-heap_end : (b : ℕ) (h : Heap) → (unlink_free b h).heap_end ≡ h.heap_end
unfolding unlink_free
unlink_free-heap_end b h = ground arith

-- Where the loop of the sweep stops: at the end of the heap or at a referenced block. No referenced block is
-- passed over.
abbrev pub Absorbed : Heap → ℕ → ℕ → List ℕ → ℕ → Type 0
Absorbed h b end xs next =
    (zs : List ℕ) × IsTiled h next zs end
    × (length zs ≤ length xs)
    × (b ≤ next)
    × (next < end → is_referenced next h ≡ true)
    × ((y : ℕ) → is_referenced y h ≡ true → has y xs ≡ true → has y zs ≡ true)

pub absorb-Absorbed :
    (fuel b : ℕ) (h : Heap) (xs : List ℕ)
    → IsTiled h b xs h.heap_end
    → length xs ≤ fuel
    → Absorbed h b h.heap_end xs ((absorb fuel b h).0)
unfolding absorb
absorb-Absorbed zero b h [] t enough =
    ([], t, omega arith, omega arith, λ l. absurd (omega (arith, l, t)), λ y r i. i)
absorb-Absorbed zero b h (x ∷ xs) t enough = absurd (omega (arith, enough))
absorb-Absorbed (suc fuel) b h [] t enough =
    let stop : is_absorbed b h ≡ false = ground (arith, t) in
    rw stop ([], t, omega arith, omega arith, λ l. absurd (omega (arith, l, t)), λ y r i. i)
absorb-Absorbed (suc fuel) b h (x ∷ xs) t enough = elim (Bool-cases (is_absorbed b h)) [
  | inr stop ↦
      rw stop (x ∷ xs, t, omega arith, omega arith, λ l. ground (arith, l, stop), λ y r i. i)
  | inl more ↦
      let h₁ : Heap = if is_free b h then unlink_free b h else h in
      let same : SameMarks h h₁ = same_lem (is_free b h) in
      let ends : h₁.heap_end ≡ h.heap_end = end_lem (is_free b h) in
      let here : following_block b h₁ ≡ x + get_size x h =
        ap (λ k. b + k) ((same b).1) ∙ ap (λ k. k + get_size k h) (t.0) in
      let tiled : IsTiled h₁ (following_block b h₁) xs h₁.heap_end =
        rw (here, ends)
          (IsTiled-frame h h₁ (x + get_size x h) xs h.heap_end (λ y l. (same y).1) (t.2)) in
      let passed : is_referenced x h ≡ false = ground (arith, more, t.0) in
      rw more (
        further h₁ passed same ends ((absorb fuel (following_block b h₁) h₁).0)
          (absorb-Absorbed fuel (following_block b h₁) h₁ xs tiled (omega (arith, enough))))
]
  where
    same_lem : (f : Bool) → SameMarks h (if f then unlink_free b h else h)
    same_lem true y = unlink_free-SameMarks b h y
    same_lem false y = (refl, refl)

    end_lem : (f : Bool) → (if f then unlink_free b h else h).heap_end ≡ h.heap_end
    end_lem true = unlink_free-heap_end b h
    end_lem false = refl

    behind :
        (y : ℕ) (r : Bool)
        → r ≡ true
        → is_referenced x h ≡ false
        → has y (x ∷ xs) ≡ true
        → is_referenced y h ≡ r
        → has y xs ≡ true
    behind y r e passed i same = elim (Bool-cases (y == x)) [
      | inl at ↦ absurd (ground (arith, at, e, passed, same))
      | inr other ↦ ground (arith, other, i)
    ]

    further :
        (g : Heap)
        → is_referenced x h ≡ false
        → SameMarks h g
        → g.heap_end ≡ h.heap_end
        → (next : ℕ) → Absorbed g (following_block b g) g.heap_end xs next
        → Absorbed h b h.heap_end (x ∷ xs) next
    further g passed same ends next (zs, tiled, shorter, above, stops, kept) = (
      zs,
      IsTiled-frame g h next zs h.heap_end (λ y l. sym ((same y).1)) (rw ends at tiled),
      omega (arith, shorter),
      omega (arith, above),
      λ l.
          let marks : (g.blocks next).flags ≡ (h.blocks next).flags = (same next).0 in
          let inside : next < g.heap_end = rw ends l in rw (sym marks) (stops inside),
      λ y r i.
          let there : is_referenced y g ≡ true = rw ((same y).0) r in
          kept y there (behind y (is_referenced y h) r passed i refl),
    )
