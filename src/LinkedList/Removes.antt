-- ===== src/LinkedList/Removes.antt =====
-- The removals of lib/src/types/linkedList.c on rings of entries.
use mjvmk.Base.{
  ℕ, ◌≡◌, ◌≢◌, true, false, List, [], ◌∷◌, ◌==◌, ◌&&◌, not, if◌then◌else◌, arith, refl, sym, ◌∙◌,
  Bool-cases, inl, inr, ==_iff, some,
}
use mjvmk.Ready
use mjvmk.LinkedList.{Links, set_next, set_previous}
use mjvmk.LinkedList.Chain.{has, Distinct, last, Linked, Chain, has-ne, Chain-last, retarget, frame}

-- The list without the first occurrence of an entry.
abbrev pub erase : ℕ → List ℕ → List ℕ
erase x [] = []
erase x (y ∷ ys) = if x == y then ys else y ∷ erase x ys

-- What the removal writes where the list has more than one entry.
unfoldable pub unlink : ℕ → Links → Links
unlink x h = set_previous (h.next x) (h.previous x) (set_next (h.previous x) (h.next x) h)

-- On a list that has the entry this is the function on the scheduler's lists.
pub remove_one-erase :
    (x : ℕ) (xs : List ℕ) → has x xs ≡ true → Ready.remove_one x xs ≡ some (erase x xs)
remove_one-erase x [] i = absurd (ground arith)
remove_one-erase x (y ∷ ys) i = elim (Bool-cases (x == y)) [
  | inl e ↦ rw e refl
  | inr n ↦ rw (n, remove_one-erase x ys (ground arith)) refl
]

pub has-erase : (y x : ℕ) (xs : List ℕ) → has y xs ≡ false → has y (erase x xs) ≡ false
has-erase y x [] o = refl
has-erase y x (z ∷ zs) o = ground (arith, has-erase y x zs)

pub Distinct-erase : (x : ℕ) (xs : List ℕ) → Distinct xs → Distinct (erase x xs)
Distinct-erase x [] d = tt
Distinct-erase x (y ∷ ys) d = elim (Bool-cases (x == y)) [
  | inl e ↦ rw e (d.1)
  | inr n ↦ rw n ((has-erase y x ys d.0, Distinct-erase x ys d.1))
]

-- Where the entries differ, exactly the others remain.
pub has-erase_iff :
    (y x : ℕ) (xs : List ℕ) → Distinct xs → has y (erase x xs) ≡ (has y xs && not (y == x))
has-erase_iff y x [] d = refl
has-erase_iff y x (z ∷ zs) d = ground (arith, d.0, has-erase_iff y x zs d.1)

-- The neighbours of an entry of a chain belong to the chain or to its ends.
pub previous-has :
    (h : Links) (a : ℕ) (xs : List ℕ) (b x : ℕ)
    → Chain h a xs b
    → has x xs ≡ true
    → has (h.previous x) (a ∷ xs) ≡ true
previous-has h a [] b x l i = absurd (ground arith)
previous-has h a (y ∷ ys) b x l i = elim (Bool-cases (x == y)) [
  | inl e ↦ ground (arith, e, l.0.1)
  | inr n ↦ ground (arith, n, i, previous-has h y ys b x l.1)
]

pub next-has :
    (h : Links) (a : ℕ) (xs : List ℕ) (b x : ℕ)
    → Chain h a xs b
    → has x (a ∷ xs) ≡ true
    → has (h.next x) (b ∷ xs) ≡ true
next-has h a [] b x l i = ground (arith, i, l.0)
next-has h a (y ∷ ys) b x l i = elim (Bool-cases (x == a)) [
  | inl e ↦ ground (arith, e, l.0.0)
  | inr n ↦ ground (arith, n, i, next-has h y ys b x l.1)
]

module _ (h : Links) (x : ℕ) where
  pub next-unlink : (y : ℕ) → h.previous x ≢ y → (unlink x h).next y ≡ h.next y
  unfolding unlink
  next-unlink y ne = ground arith

  pub previous-unlink : (y : ℕ) → h.next x ≢ y → (unlink x h).previous y ≡ h.previous y
  unfolding unlink
  previous-unlink y ne = ground arith

  Linked-unlink : (a b : ℕ) → h.previous x ≡ a → h.next x ≡ b → Linked (unlink x h) a b
  unfolding unlink
  Linked-unlink a b e f = (ground (arith, e, f), ground (arith, e, f))

-- Unlinking an entry between the ends of a chain leaves a chain of the others.
pub unlink-Chain :
    (h : Links) (a : ℕ) (xs : List ℕ) (b x : ℕ)
    → Distinct (a ∷ xs)
    → has b xs ≡ false
    → Chain h a xs b
    → has x xs ≡ true
    → Chain (unlink x h) a (erase x xs) b
unlink-Chain h a [] b x d o l i = absurd (ground arith)
unlink-Chain h a (y ∷ ys) b x d o l i = elim (Bool-cases (x == y)) [
  | inl e ↦ let same : x ≡ y = (==_iff x y).0 e in rw e (found ys d o l same)
  | inr n ↦
      let inside : has x ys ≡ true = ground (arith, n, i) in
      let p = previous-has h y ys b x l.1 inside in
      let q = next-has h y ys b x l.1 (ground (arith, inside)) in
      rw n (
        (
          (
            next-unlink h x a (has-ne (h.previous x) a (y ∷ ys) p d.0) ∙ l.0.0,
            previous-unlink h x y (has-ne (h.next x) y (b ∷ ys) q (ground (arith, o, d.1.0)))
                ∙ l.0.1,
          ),
          unlink-Chain h y ys b x d.1 (ground (arith, o)) l.1 inside,
        ))
]
  where
    found :
        (zs : List ℕ)
        → Distinct (a ∷ y ∷ zs)
        → has b (y ∷ zs) ≡ false
        → Chain h a (y ∷ zs) b
        → x ≡ y
        → Chain (unlink x h) a zs b
    found [] d o l e = Linked-unlink h x a b (ground (arith, e, l.0.1)) (ground (arith, e, l.1.0))
    found (z ∷ zs) d o l e =
        let before : h.previous x ≡ a = ground (arith, e, l.0.1) in
        let after : h.next x ≡ z = ground (arith, e, l.1.0.0) in
        (
          Linked-unlink h x a z before after,
          frame h (unlink x h) z zs b l.1.1
              (λ w i. next-unlink h x w (λ f. ground (arith, f, before, i, d.0)))
              (λ w i. previous-unlink h x w (λ f. ground (arith, f, after, i, o, d.1.1.0))),
        )

-- The first entry leaves a ring of two or more.
pub unlink_first-Chain :
    (h : Links) (a b : ℕ) (xs : List ℕ)
    → Distinct (a ∷ b ∷ xs)
    → Chain h a (b ∷ xs) a
    → Chain (unlink a h) b xs b
unlink_first-Chain h a b xs d l =
    let end : h.previous a ≡ last b xs = Chain-last h b xs a l.1 in
    retarget h (unlink a h) b xs a b d.1 l.1 (λ y i o. next-unlink h a y (λ f. o (sym f ∙ end)))
      (λ y i. previous-unlink h a y (λ f. ground (arith, f, l.0.0, i, d.1.0)))
      (Linked-unlink h a (last b xs) b end l.0.0)
