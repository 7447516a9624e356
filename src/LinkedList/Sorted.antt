-- ===== src/LinkedList/Sorted.antt =====
-- `doubleListAddOneSorted` of lib/src/types/linkedList.c on rings of entries.
use mjvmk.Base.{
  ℕ, zero, suc, ◌≤◌, ◌≡◌, ◌≢◌, Bool, true, false, List, [], ◌∷◌, ◌==◌, ◌||◌, if◌then◌else◌, arith,
  refl, ◌∙◌, Bool-cases, inl, inr, length, subst, ne→not_==, sym, ap,
}
use mjvmk.LinkedList.{Links, link_alone, link_behind, find_slot, add_one_sorted}
use mjvmk.LinkedList.Chain.{has, Distinct, Linked, Chain, IsRing, has-ne, frame}
use mjvmk.LinkedList.Refines.{Same, link_before-Chain, link_before-Same}

-- Before the first entry that the new one is less than.
abbrev pub insert : (ℕ → ℕ → Bool) → ℕ → List ℕ → List ℕ
insert comparator x [] = x ∷ []
insert comparator x (y ∷ ys) = if comparator x y then x ∷ y ∷ ys else y ∷ insert comparator x ys

module _ (comparator : ℕ → ℕ → Bool) (x : ℕ) where
  has-insert :
      (y : ℕ) (xs : List ℕ) → y ≢ x → has y xs ≡ false → has y (insert comparator x xs) ≡ false
  has-insert y [] ne o = ground arith
  has-insert y (z ∷ zs) ne o = elim (Bool-cases (comparator x z)) [
    | inl e ↦ rw e (ground arith)
    | inr n ↦ rw n (ground (arith, o, has-insert y zs ne))
  ]

  Distinct-insert :
      (xs : List ℕ) → Distinct xs → has x xs ≡ false → Distinct (insert comparator x xs)
  Distinct-insert [] d o = (refl, tt)
  Distinct-insert (z ∷ zs) d o = elim (Bool-cases (comparator x z)) [
    | inl e ↦ rw e ((o, (d.0, d.1)))
    | inr n ↦ rw n (
        (
          has-insert z zs (λ e. ground (arith, e, o)) d.0,
          Distinct-insert zs d.1 (ground (arith, o)),
        ))
  ]

module _ (h : Links) (before x : ℕ) where
  next-link_behind :
      (y : ℕ)
      → x ≢ before
      → (link_behind before x h).next y
        ≡ (if before == y then x else if x == y then h.next before else h.next y)
  unfolding link_behind
  next-link_behind y ne = ground arith

  previous-link_behind :
      (y : ℕ)
      → x ≢ before
      → (link_behind before x h).previous y
        ≡ (if h.next before == y then x else if x == y then before else h.previous y)
  unfolding link_behind
  previous-link_behind y ne = ground arith

-- The three new links, and the entries behind them.
behind-Chain :
    (h : Links) (t x z : ℕ) (zs : List ℕ) (b : ℕ)
    → Distinct (t ∷ z ∷ zs)
    → has x (t ∷ z ∷ zs) ≡ false
    → x ≢ b
    → has b (z ∷ zs) ≡ false
    → Chain h t (z ∷ zs) b
    → Chain (link_behind t x h) t (x ∷ z ∷ zs) b
behind-Chain h t x z zs b d out xb o l =
    let ne : x ≢ t = (λ e. ground (arith, out, e)) in
    let n = next-link_behind h t x in
    let p = previous-link_behind h t x in
    (
      (ground (arith, n t ne), ground (arith, p x ne, l.0.0, out)),
      (
        (ground (arith, n x ne, l.0.0, ne), ground (arith, p z ne, l.0.0)),
        frame h (link_behind t x h) z zs b l.1
            (λ y i. ground (
              arith,
              n y ne,
              i,
              d.0,
              out,
              has-ne y t (z ∷ zs) i d.0,
              has-ne y x (z ∷ zs) i (ground (arith, out)),
            ))
            (λ y i. ground (
              arith,
              p y ne,
              l.0.0,
              has-ne y z (b ∷ zs) i (ground (arith, o, d.1.0)),
              has-ne y x (b ∷ zs) i (ground (arith, out, xb)),
            )),
      ),
    )

module _ (comparator : ℕ → ℕ → Bool) (x b : ℕ) (h : Links) where
  find_slot-zero : (t : ℕ) → find_slot comparator x b h zero t ≡ t
  unfolding find_slot
  find_slot-zero t = refl

  find_slot-stop :
      (n t : ℕ)
      → ((h.next t == b) || comparator x (h.next t)) ≡ true
      → find_slot comparator x b h (suc n) t ≡ t
  unfolding find_slot
  find_slot-stop n t e = rw e refl

  find_slot-step :
      (n t : ℕ)
      → ((h.next t == b) || comparator x (h.next t)) ≡ false
      → find_slot comparator x b h (suc n) t ≡ find_slot comparator x b h n (h.next t)
  unfolding find_slot
  find_slot-step n t e = rw e refl

  -- The entry `s` of the chain from `t` is the one to add behind.
  abbrev IsSlot : ℕ → List ℕ → ℕ → Type 0
  IsSlot t zs s =
      (has s (t ∷ zs) ≡ true)
      × (has (h.next s) (b ∷ zs) ≡ true)
      × Chain (link_behind s x h) t (insert comparator x zs) b

  IsSlot-end : (t : ℕ) → x ≢ t → x ≢ b → Linked h t b → IsSlot t [] t
  IsSlot-end t ne xb l =
      let n = next-link_behind h t x in
      let p = previous-link_behind h t x in
      (
        ground arith,
        ground (arith, l.0),
        (
          (ground (arith, n t ne), ground (arith, p x ne, l.0, xb)),
          (ground (arith, n x ne, l.0, ne), ground (arith, p b ne, l.0)),
        ),
      )

  -- One entry further on.
  IsSlot-later :
      (t z s : ℕ) (zs : List ℕ)
      → Distinct (t ∷ z ∷ zs)
      → has x (t ∷ z ∷ zs) ≡ false
      → has b (z ∷ zs) ≡ false
      → Linked h t z
      → comparator x z ≡ false
      → IsSlot z zs s
      → IsSlot t (z ∷ zs) s
  IsSlot-later t z s zs d out o l c i =
      let xs : x ≢ s = (λ e. ground (arith, e, out, i.0)) in
      (
        ground (arith, i.0),
        ground (arith, i.1),
        rw c (
          (
            ground (arith, next-link_behind h s x t xs, has-ne s t (z ∷ zs) i.0 d.0, l.0, out),
            ground (
              arith,
              previous-link_behind h s x z xs,
              has-ne (h.next s) z (b ∷ zs) i.1 (ground (arith, o, d.1.0)),
              l.1,
              out,
            ),
          ),
          i.2,
        ),
      )

  -- The loop finds the slot, on as many rounds as there are entries left.
  find_slot-IsSlot :
      (zs : List ℕ) (t fuel : ℕ)
      → length zs ≤ fuel
      → Distinct (t ∷ zs)
      → has x (t ∷ zs) ≡ false
      → x ≢ b
      → has b zs ≡ false
      → Chain h t zs b
      → IsSlot t zs (find_slot comparator x b h fuel t)
  find_slot-IsSlot [] t zero enough d out xb o l =
      subst (IsSlot t []) (sym (find_slot-zero t)) (IsSlot-end t (λ e. ground (arith, e, out)) xb l)
  find_slot-IsSlot [] t (suc n) enough d out xb o l =
      rw (find_slot-stop n t (ground (arith, l.0)))
        (IsSlot-end t (λ e. ground (arith, e, out)) xb l)
  find_slot-IsSlot (z ∷ zs) t zero enough d out xb o l = absurd (omega arith)
  find_slot-IsSlot (z ∷ zs) t (suc n) enough d out xb o l = elim (Bool-cases (comparator x z)) [
    | inl c ↦
        rw (find_slot-stop n t (ground (arith, l.0.0, c)))
          ((ground arith, ground (arith, l.0.0), rw c (behind-Chain h t x z zs b d out xb o l)))
    | inr c ↦
        let stepped : find_slot comparator x b h (suc n) t ≡ find_slot comparator x b h n z =
          find_slot-step n t (ground (arith, l.0.0, c, o))
          ∙ ap (find_slot comparator x b h n) l.0.0 in
        subst (IsSlot t (z ∷ zs)) (sym stepped) (
          IsSlot-later t z (find_slot comparator x b h n z) zs d out o l.0 c (
            find_slot-IsSlot zs z n (omega arith) d.1 (ground (arith, out)) xb (ground (arith, o))
              l.1))
  ]

-- `doubleListAddOneSorted` with as many rounds as the list has entries, or more, puts an entry that is not
-- on the list before the first one that it is less than, and touches no other entry.
pub add_one_sorted-IsRing :
    (comparator : ℕ → ℕ → Bool) (h : Links) (p : ℕ) (xs : List ℕ) (x fuel : ℕ)
    → length xs ≤ fuel
    → IsRing h p xs
    → x ≢ 0
    → has x xs ≡ false
    → IsRing
        (add_one_sorted fuel comparator p x h).1
        (add_one_sorted fuel comparator p x h).0
        (insert comparator x xs)
      × ((y : ℕ) → has y xs ≡ false → y ≢ x → Same h (add_one_sorted fuel comparator p x h).1 y)
unfolding add_one_sorted link_alone
add_one_sorted-IsRing comparator h p [] x fuel enough r nz out =
    rw (ne→not_== x 0 nz, r)
      (
        (refl, (ground arith, ground arith), (refl, tt), ground arith),
        λ y o ne. (ground arith, ground arith),
      )
add_one_sorted-IsRing comparator h p (a ∷ xs) x fuel enough r nz out =
    elim (Bool-cases (comparator x a)) [
      | inl c ↦
          let both = link_before-Chain h a xs x r.1 r.2 out in
          rw (ne→not_== x 0 nz, r.0, full, c)
            (
              (refl, (both.0, both.1), (out, (r.2.0, r.2.1)), ground arith),
              λ y o ne. link_before-Same h a xs x y r.1 out o ne,
            )
      | inr c ↦
          let slot =
            find_slot-IsSlot comparator x a h xs a fuel (omega arith) r.2 out
              (λ e. ground (arith, e, out)) r.2.0 r.1 in
          let ne_slot : x ≢ find_slot comparator x a h fuel a =
            (λ e. ground (arith, e, out, slot.0)) in
          rw (ne→not_== x 0 nz, r.0, full, c)
            (
              (
                refl,
                slot.2,
                (
                  has-insert comparator x a xs (λ e. ground (arith, e, out)) r.2.0,
                  Distinct-insert comparator x xs r.2.1 (ground (arith, out)),
                ),
                ground (arith, r.3, has-insert comparator x 0 xs),
              ),
              λ y o ne. (
                ground (
                  arith,
                  next-link_behind h (find_slot comparator x a h fuel a) x y ne_slot,
                  has-ne _ y (a ∷ xs) slot.0 o,
                ),
                ground (
                  arith,
                  previous-link_behind h (find_slot comparator x a h fuel a) x y ne_slot,
                  has-ne _ y (a ∷ xs) slot.1 o,
                ),
              ),
            )
    ]
  where
    full : (a == 0) ≡ false
    full = ground (arith, r.3)
