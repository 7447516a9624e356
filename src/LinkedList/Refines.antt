-- ===== src/LinkedList/Refines.antt =====
-- The functions of lib/src/types/linkedList.c on rings of entries, against the functions on lists that the
-- scheduler's model uses.
use mjvmk.Base.{ℕ, ◌≡◌, ◌≢◌, true, false, List, [], ◌∷◌, ◌++◌, ◌==◌, if◌then◌else◌, arith, refl}
use mjvmk.LinkedList.{Links, link_alone, link_before, add_one_to_end}
use mjvmk.LinkedList.Chain.{
  has, Distinct, last, Linked, Chain, IsRing, has-append, has-last, has-ne, Chain-last,
  Chain-append, Distinct-append, retarget, frame,
}

-- The pointers of an entry are the same in two memories.
abbrev pub Same : Links → Links → ℕ → Type 0
Same h g y = (g.next y ≡ h.next y) × (g.previous y ≡ h.previous y)

-- A ring that no write touches.
pub IsRing-frame :
    (h g : Links) (p : ℕ) (xs : List ℕ)
    → ((y : ℕ) → has y xs ≡ true → Same h g y)
    → IsRing h p xs
    → IsRing g p xs
IsRing-frame h g p [] same r = r
IsRing-frame h g p (x ∷ xs) same r =
    (r.0, frame h g x xs x r.1 (λ y i. (same y i).0) (λ y i. (same y i).1), r.2, r.3)

module _ (h : Links) (a x : ℕ) where
  next-link_before :
      (y : ℕ)
      → x ≢ a
      → (link_before a x h).next y
        ≡ (if h.previous a == y then x else if x == y then a else h.next y)
  unfolding link_before
  next-link_before y ne = ground arith

  previous-link_before :
      (y : ℕ)
      → x ≢ a
      → (link_before a x h).previous y
        ≡ (if a == y then x else if x == y then h.previous a else h.previous y)
  unfolding link_before
  previous-link_before y ne = ground arith

-- A new entry in front of the first one of a ring: the chain from it ends at the new one.
pub link_before-Chain :
    (h : Links) (a : ℕ) (xs : List ℕ) (x : ℕ)
    → Chain h a xs a
    → Distinct (a ∷ xs)
    → has x (a ∷ xs) ≡ false
    → Linked (link_before a x h) x a × Chain (link_before a x h) a xs x
link_before-Chain h a xs x l d out =
    let ne : x ≢ a = (λ e. ground (arith, out, e)) in
    let end : h.previous a ≡ last a xs = Chain-last h a xs a l in
    let far = has-ne (last a xs) x (a ∷ xs) (has-last a xs) out in
    let n = next-link_before h a x in
    let p = previous-link_before h a x in
    (
      (ground (arith, n x ne, end, far), ground (arith, p a ne)),
      retarget h (link_before a x h) a xs a x d l
          (λ y i o. let other = has-ne y x (a ∷ xs) i out in ground (arith, n y ne, end, other, o))
          (λ y i.
            let other = has-ne y x (a ∷ xs) (ground (arith, i)) out in
            let first = has-ne y a xs i d.0 in ground (arith, p y ne, other, first))
          (ground (arith, n (last a xs) ne, end), ground (arith, p x ne, end, ne)),
    )

-- It changes no entry outside the ring.
pub link_before-Same :
    (h : Links) (a : ℕ) (xs : List ℕ) (x y : ℕ)
    → Chain h a xs a
    → has x (a ∷ xs) ≡ false
    → has y (a ∷ xs) ≡ false
    → y ≢ x
    → Same h (link_before a x h) y
link_before-Same h a xs x y l out far other =
    let ne : x ≢ a = (λ e. ground (arith, out, e)) in
    let end : h.previous a ≡ last a xs = Chain-last h a xs a l in
    let apart = has-ne (last a xs) y (a ∷ xs) (has-last a xs) far in
    (
      ground (arith, next-link_before h a x y ne, end, apart, other),
      ground (arith, previous-link_before h a x y ne, far, other),
    )

-- `doubleListAddOneToEnd` appends an entry that is not on the list.
pub add_one_to_end-IsRing :
    (h : Links) (p : ℕ) (xs : List ℕ) (x : ℕ)
    → IsRing h p xs
    → x ≢ 0
    → has x xs ≡ false
    → IsRing (add_one_to_end p x h).1 (add_one_to_end p x h).0 (xs ++ (x ∷ []))
      × ((y : ℕ) → has y xs ≡ false → y ≢ x → Same h (add_one_to_end p x h).1 y)
unfolding add_one_to_end link_alone
add_one_to_end-IsRing h p [] x r nz out = rw r (
  (refl, (ground arith, ground arith), (refl, tt), ground arith),
  λ y o ne. (ground arith, ground arith),
)
add_one_to_end-IsRing h p (a ∷ xs) x r nz out =
    let full : (a == 0) ≡ false = ground (arith, r.3) in
    let both = link_before-Chain h a xs x r.1 r.2 out in
    rw (r.0, full)
      (
        (
          refl,
          Chain-append (link_before a x h) a xs x [] a both.1 both.0,
          Distinct-append (a ∷ xs) (x ∷ []) r.2 (refl, tt)
              (λ b i. let ne = has-ne b x (a ∷ xs) i out in ground arith),
          ground (arith, has-append 0 (a ∷ xs) (x ∷ []), r.3),
        ),
        λ y o ne. link_before-Same h a xs x y r.1 out o ne,
      )
