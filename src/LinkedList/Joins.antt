-- ===== src/LinkedList/Joins.antt =====
-- Moving entries from one list of lib/src/types/linkedList.c to another.
use mjvmk.Base.{
  ℕ, ◌≡◌, true, false, List, [], ◌∷◌, ◌++◌, ◌==◌, if◌then◌else◌, arith, refl, Bool-cases, inl, inr,
}
use mathlib.Core.List.{append-nil}
use mjvmk.LinkedList.{
  Links, remove_one_from_front, move_all_to_end, move_one_front_to_end, add_one_to_end,
}
use mjvmk.LinkedList.Chain.{
  has, Distinct, last, Chain, IsRing, has-append, has-last, has-ne, Chain-last, Chain-append,
  Distinct-append, retarget,
}
use mjvmk.LinkedList.Refines.{Same, IsRing-frame, add_one_to_end-IsRing}
use mjvmk.LinkedList.Moves.{remove_one_from_front-IsRing}

-- The chain of a ring, where its last entry now leads to the first entry of another ring.
joined-Chain :
    (h g : Links) (a : ℕ) (xs : List ℕ) (b : ℕ) (ys : List ℕ)
    → Chain h a xs a
    → Distinct (a ∷ xs)
    → ((c : ℕ) → has c (a ∷ xs) ≡ true → has c (b ∷ ys) ≡ false)
    → h.previous b ≡ last b ys
    → ((y : ℕ)
        → g.next y ≡ (if h.previous a == y then b else if h.previous b == y then a else h.next y))
    → ((y : ℕ)
        → g.previous y
          ≡ (if b == y then h.previous a else if a == y then h.previous b else h.previous y))
    → Chain g a xs b
joined-Chain h g a xs b ys l d apart e n p =
    let end : h.previous a ≡ last a xs = Chain-last h a xs a l in
    let out = apart a (ground arith) in
    retarget h g a xs a b d l
      (λ y i o.
        let far = has-ne (last b ys) y (b ∷ ys) (has-last b ys) (apart y i) in
        ground (arith, n y, o, end, e, far))
      (λ y i.
        let far = apart y (ground (arith, i)) in
        let first = has-ne y a xs i d.0 in ground (arith, p y, far, first))
      (ground (arith, n (last a xs), end), ground (arith, p b, end))

-- `doubleListMoveAllToEnd` of a list that has no entry of the other one: the destination holds the
-- entries of both in order, the source is empty, and no other entry is touched.
pub move_all_to_end-IsRing :
    (h : Links) (p q : ℕ) (xs ys : List ℕ)
    → IsRing h p xs
    → IsRing h q ys
    → ((c : ℕ) → has c xs ≡ true → has c ys ≡ false)
    → IsRing (move_all_to_end p q h).2 (move_all_to_end p q h).0 (xs ++ ys)
      × ((move_all_to_end p q h).1 ≡ 0)
      × ((y : ℕ) → has y xs ≡ false → has y ys ≡ false → Same h (move_all_to_end p q h).2 y)
unfolding move_all_to_end
move_all_to_end-IsRing h p q [] [] r s apart = rw (r, s) ((refl, refl, λ y o o'. (refl, refl)))
move_all_to_end-IsRing h p q (a ∷ xs) [] r s apart =
    rw (s, append-nil xs) ((r, refl, λ y o o'. (refl, refl)))
move_all_to_end-IsRing h p q [] (b ∷ ys) r s apart =
    let some_to_move : (b == 0) ≡ false = ground (arith, s.3) in
    rw (r, s.0, some_to_move) (((refl, s.1, s.2, s.3), refl, λ y o o'. (refl, refl)))
move_all_to_end-IsRing h p q (a ∷ xs) (b ∷ ys) r s apart =
    let some_to_move : (b == 0) ≡ false = ground (arith, s.3) in
    let full : (a == 0) ≡ false = ground (arith, r.3) in
    let end_a : h.previous a ≡ last a xs = Chain-last h a xs a r.1 in
    let end_b : h.previous b ≡ last b ys = Chain-last h b ys b s.1 in
    let ends =
      has-ne (last b ys) (last a xs) (b ∷ ys) (has-last b ys) (apart (last a xs) (has-last a xs)) in
    let firsts = apart a (ground arith) in
    rw (r.0, s.0, some_to_move, full)
      (
        (
          refl,
          Chain-append _ a xs b ys a
              (joined-Chain h _ a xs b ys r.1 r.2 apart end_b (λ y. ground arith)
                (λ y. ground (arith, firsts)))
              (joined-Chain h _ b ys a xs s.1 s.2 (λ c i. has_not c i) end_a
                (λ y. ground (arith, ends, end_a, end_b)) (λ y. ground (arith, firsts))),
          Distinct-append (a ∷ xs) (b ∷ ys) r.2 s.2 apart,
          ground (arith, r.3, s.3, has-append 0 (a ∷ xs) (b ∷ ys)),
        ),
        refl,
        λ y o o'.
            let far_a = has-ne (last a xs) y (a ∷ xs) (has-last a xs) o in
            let far_b = has-ne (last b ys) y (b ∷ ys) (has-last b ys) o' in
            (ground (arith, far_a, far_b, end_a, end_b), ground (arith, o, o')),
      )
  where
    has_not : (c : ℕ) → has c (b ∷ ys) ≡ true → has c (a ∷ xs) ≡ false
    has_not c i = elim (Bool-cases (has c (a ∷ xs))) [
      | inl e ↦ (let o = apart c e in cc)
      | inr n ↦ n
    ]

-- `doubleListMoveOneFrontToEnd` from a list with entries to another list, which has none of them: the
-- first entry goes to the end of the other list, and the rest stays in order.
pub move_one_front_to_end-IsRing :
    (h : Links) (p q : ℕ) (xs : List ℕ) (x : ℕ) (ys : List ℕ)
    → IsRing h p xs
    → IsRing h q (x ∷ ys)
    → ((c : ℕ) → has c xs ≡ true → has c (x ∷ ys) ≡ false)
    → IsRing (move_one_front_to_end p q h).2 (move_one_front_to_end p q h).0 (xs ++ (x ∷ []))
      × IsRing (move_one_front_to_end p q h).2 (move_one_front_to_end p q h).1 ys
unfolding move_one_front_to_end
move_one_front_to_end-IsRing h p q xs x ys r s apart =
    let taken = remove_one_from_front-IsRing h q x ys s in
    let rest = IsRing-frame h (remove_one_from_front q h).2 p xs (λ y i. taken.2 y (apart y i)) r in
    let free : has x xs ≡ false = not_in xs apart in
    let added =
      add_one_to_end-IsRing (remove_one_from_front q h).2 p xs x rest (λ e. ground (arith, e, s.3))
        free in
    rw (taken.0) (
      added.0,
      IsRing-frame (remove_one_from_front q h).2
          (add_one_to_end p x (remove_one_from_front q h).2).1 (remove_one_from_front q h).1 ys
          (λ y i. added.1 y (absent y i) (has-ne y x ys i s.2.0)) taken.1,
    )
  where
    not_in : (zs : List ℕ) → ((c : ℕ) → has c zs ≡ true → has c (x ∷ ys) ≡ false) → has x zs ≡ false
    not_in zs apart = elim (Bool-cases (has x zs)) [
      | inl e ↦ absurd (ground (arith, apart x e))
      | inr n ↦ n
    ]

    absent : (y : ℕ) → has y ys ≡ true → has y xs ≡ false
    absent y i = elim (Bool-cases (has y xs)) [
      | inl e ↦ absurd (ground (arith, i, apart y e))
      | inr n ↦ n
    ]
