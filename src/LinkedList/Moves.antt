-- ===== src/LinkedList/Moves.antt =====
-- Removing, rotating and moving entries: the functions of lib/src/types/linkedList.c on whole lists.
use mjvmk.Base.{
  ℕ, ◌≡◌, true, false, List, [], ◌∷◌, ◌==◌, arith, refl, Bool-cases, inl, inr, ==_iff, ==_refl,
}
use mjvmk.Ready
use mjvmk.LinkedList.{Links, remove_one, remove_one_from_front, rotate_one_front_to_end}
use mjvmk.LinkedList.Chain.{
  has, Chain, IsRing, has-append, has-last, has-ne, Chain-last, Chain-append, Distinct-append,
}
use mjvmk.LinkedList.Refines.{Same}
use mjvmk.LinkedList.Removes.{
  erase, unlink, has-erase, Distinct-erase, previous-has, next-has, next-unlink, previous-unlink,
  unlink-Chain, unlink_first-Chain,
}

-- An entry outside a ring keeps its pointers when one of the ring is unlinked.
unlink-Same :
    (h : Links) (a : ℕ) (xs : List ℕ) (x y : ℕ)
    → Chain h a xs a
    → has x (a ∷ xs) ≡ true
    → has y (a ∷ xs) ≡ false
    → Same h (unlink x h) y
unlink-Same h a xs x y l i out = (
  next-unlink h x y (has-ne (h.previous x) y (a ∷ xs) previous_in out),
  previous-unlink h x y (has-ne (h.next x) y (a ∷ xs) (next-has h a xs a x l i) out),
)
  where
    previous_in : has (h.previous x) (a ∷ xs) ≡ true
    previous_in = elim (Bool-cases (x == a)) [
      | inl e ↦ ground (arith, e, Chain-last h a xs a l, has-last a xs)
      | inr n ↦ previous-has h a xs a x l (ground (arith, n, i))
    ]

-- `doubleListRemoveOne` of the first entry is `doubleListRemoveOneFromFront`.
remove_first-IsRing :
    (h : Links) (a : ℕ) (xs : List ℕ)
    → IsRing h a (a ∷ xs)
    → IsRing (remove_one a a h).1 (remove_one a a h).0 xs
      × ((y : ℕ) → has y (a ∷ xs) ≡ false → Same h (remove_one a a h).1 y)
unfolding remove_one unlink
remove_first-IsRing h a [] r =
    let alone : h.next a ≡ a = r.1.0 in
    rw (==_refl a) (rw alone (rw (==_refl a) ((refl, λ y o. (refl, refl)))))
remove_first-IsRing h a (b ∷ xs) r =
    let after : h.next a ≡ b = r.1.0.0 in
    let two : (a == h.next a) ≡ false = ground (arith, after, r.2.0) in
    rw (==_refl a) (
      rw two (
        (after, unlink_first-Chain h a b xs r.2 r.1, r.2.1, ground (arith, r.3)),
        λ y o. unlink-Same h a (b ∷ xs) a y r.1 (ground arith) o,
      ))

-- `doubleListRemoveOne` erases an entry that is on the list and touches no other.
pub remove_one-IsRing :
    (h : Links) (p : ℕ) (xs : List ℕ) (x : ℕ)
    → IsRing h p xs
    → has x xs ≡ true
    → IsRing (remove_one p x h).1 (remove_one p x h).0 (erase x xs)
      × ((y : ℕ) → has y xs ≡ false → Same h (remove_one p x h).1 y)
unfolding remove_one unlink
remove_one-IsRing h p [] x r i = absurd (ground arith)
remove_one-IsRing h p (a ∷ xs) x r i = elim (Bool-cases (x == a)) [
  | inl e ↦
      let same : x ≡ a = (==_iff x a).0 e in
      rw e (rw (same, r.0) (remove_first-IsRing h a xs (refl, r.1, r.2, r.3)))
  | inr n ↦
      let inside : has x xs ≡ true = ground (arith, n, i) in
      let other : (p == x) ≡ false = ground (arith, n, r.0) in
      rw (n, other)
        (
          (
            r.0,
            unlink-Chain h a xs a x r.2 r.2.0 r.1 inside,
            (has-erase a x xs r.2.0, Distinct-erase x xs r.2.1),
            ground (arith, r.3, has-erase 0 x xs),
          ),
          λ y o. unlink-Same h a xs x y r.1 i o,
        )
]

-- On a list with an entry the two removals of its first entry are the same.
remove_one_from_front-remove_one :
    (h : Links) (a : ℕ) (xs : List ℕ)
    → IsRing h a (a ∷ xs)
    → remove_one_from_front a h ≡ (a, (remove_one a a h).0, (remove_one a a h).1)
unfolding remove_one_from_front remove_one
remove_one_from_front-remove_one h a [] r =
    let full : (a == 0) ≡ false = ground (arith, r.3) in
    let alone : h.next a ≡ a = r.1.0 in rw full (rw (alone, ==_refl a) refl)
remove_one_from_front-remove_one h a (b ∷ xs) r =
    let full : (a == 0) ≡ false = ground (arith, r.3) in
    let after : h.next a ≡ b = r.1.0.0 in
    let two : (h.next a == a) ≡ false = ground (arith, after, r.2.0) in
    let two' : (a == h.next a) ≡ false = ground (arith, after, r.2.0) in
    rw full (rw (two, two', ==_refl a) refl)

-- `doubleListRemoveOneFromFront` gives back the first entry, leaves the others in order, and touches no
-- entry outside the list.
pub remove_one_from_front-IsRing :
    (h : Links) (p a : ℕ) (xs : List ℕ)
    → IsRing h p (a ∷ xs)
    → ((remove_one_from_front p h).0 ≡ a)
      × IsRing (remove_one_from_front p h).2 (remove_one_from_front p h).1 xs
      × ((y : ℕ) → has y (a ∷ xs) ≡ false → Same h (remove_one_from_front p h).2 y)
remove_one_from_front-IsRing h p a xs r =
    let here : IsRing h a (a ∷ xs) = (refl, r.1, r.2, r.3) in
    let removed = remove_first-IsRing h a xs here in
    rw (r.0, remove_one_from_front-remove_one h a xs here) ((refl, removed.0, removed.1))

-- `doubleListRotateOneFrontToEnd` rotates a list without a write to it.
pub rotate_one_front_to_end-IsRing :
    (h : Links) (p : ℕ) (xs : List ℕ)
    → IsRing h p xs
    → IsRing h (rotate_one_front_to_end p h) (Ready.rotate_one xs)
unfolding rotate_one_front_to_end
rotate_one_front_to_end-IsRing h p [] r = rw r refl
rotate_one_front_to_end-IsRing h p (a ∷ []) r =
    let full : (a == 0) ≡ false = ground (arith, r.3) in rw (r.0, full) ((r.1.0, r.1, r.2, r.3))
rotate_one_front_to_end-IsRing h p (a ∷ b ∷ xs) r =
    let full : (a == 0) ≡ false = ground (arith, r.3) in
    rw (r.0, full)
      ((
        r.1.0.0,
        Chain-append h b xs a [] b r.1.1 r.1.0,
        Distinct-append (b ∷ xs) (a ∷ []) r.2.1 (refl, tt)
            (λ c i. let ne = has-ne c a (b ∷ xs) i r.2.0 in ground arith),
        ground (arith, r.3, has-append 0 (b ∷ xs) (a ∷ [])),
      ))
