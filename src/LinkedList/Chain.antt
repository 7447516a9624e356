-- ===== src/LinkedList/Chain.antt =====
-- What the memory of lib/src/types/linkedList.c holds: chains of entries that point to each other, and the
-- rings that a list pointer stands for.
use mjvmk.Base.{ℕ, ◌≡◌, ◌≢◌, Bool, true, false, List, [], ◌∷◌, ◌++◌, ◌==◌, ◌||◌, arith, refl}
use mjvmk.LinkedList.{Links}

abbrev pub has : ℕ → List ℕ → Bool
has a [] = false
has a (x ∷ xs) = (a == x) || has a xs

abbrev pub Distinct : List ℕ → Type 0
Distinct [] = Unit
Distinct (x ∷ xs) = (has x xs ≡ false) × Distinct xs

abbrev pub last : ℕ → List ℕ → ℕ
last a [] = a
last a (x ∷ xs) = last x xs

-- `a` and `b` are neighbours.
abbrev pub Linked : Links → ℕ → ℕ → Type 0
Linked h a b = (h.next a ≡ b) × (h.previous b ≡ a)

-- From `a` the entries `xs` and then `b` follow.
abbrev pub Chain : Links → ℕ → List ℕ → ℕ → Type 0
Chain h a [] b = Linked h a b
Chain h a (x ∷ xs) b = Linked h a x × Chain h x xs b

-- The list pointer `p` stands for the entries `xs`.
abbrev pub IsRing : Links → ℕ → List ℕ → Type 0
IsRing h p [] = p ≡ 0
IsRing h p (x ∷ xs) = (p ≡ x) × Chain h x xs x × Distinct (x ∷ xs) × (has 0 (x ∷ xs) ≡ false)

pub has-append : (a : ℕ) (xs ys : List ℕ) → has a (xs ++ ys) ≡ (has a xs || has a ys)
has-append a [] ys = refl
has-append a (x ∷ xs) ys = ground (arith, has-append a xs ys)

pub has-last : (a : ℕ) (xs : List ℕ) → has (last a xs) (a ∷ xs) ≡ true
has-last a [] = ground arith
has-last a (x ∷ xs) = ground (arith, has-last x xs)

-- An entry at hand in one list and missing in another are two.
pub has-ne : (a b : ℕ) (xs : List ℕ) → has a xs ≡ true → has b xs ≡ false → a ≢ b
has-ne a b xs i o e = ground (arith, i, o, e)

-- The previous entry of the end of a chain is its last.
pub Chain-last :
    (h : Links) (a : ℕ) (xs : List ℕ) (b : ℕ) → Chain h a xs b → h.previous b ≡ last a xs
Chain-last h a [] b c = c.1
Chain-last h a (x ∷ xs) b c = Chain-last h x xs b c.1

pub Chain-append :
    (h : Links) (a : ℕ) (xs : List ℕ) (b : ℕ) (ys : List ℕ) (c : ℕ)
    → Chain h a xs b
    → Chain h b ys c
    → Chain h a (xs ++ (b ∷ ys)) c
Chain-append h a [] b ys c l r = (l, r)
Chain-append h a (x ∷ xs) b ys c l r = (l.0, Chain-append h x xs b ys c l.1 r)

pub Chain-left :
    (h : Links) (a : ℕ) (xs : List ℕ) (b : ℕ) (ys : List ℕ) (c : ℕ)
    → Chain h a (xs ++ (b ∷ ys)) c
    → Chain h a xs b
Chain-left h a [] b ys c l = l.0
Chain-left h a (x ∷ xs) b ys c l = (l.0, Chain-left h x xs b ys c l.1)

pub Chain-right :
    (h : Links) (a : ℕ) (xs : List ℕ) (b : ℕ) (ys : List ℕ) (c : ℕ)
    → Chain h a (xs ++ (b ∷ ys)) c
    → Chain h b ys c
Chain-right h a [] b ys c l = l.1
Chain-right h a (x ∷ xs) b ys c l = Chain-right h x xs b ys c l.1

pub Distinct-right : (xs ys : List ℕ) → Distinct (xs ++ ys) → Distinct ys
Distinct-right [] ys d = d
Distinct-right (x ∷ xs) ys d = Distinct-right xs ys d.1

pub Distinct-append :
    (xs ys : List ℕ)
    → Distinct xs
    → Distinct ys
    → ((a : ℕ) → has a xs ≡ true → has a ys ≡ false)
    → Distinct (xs ++ ys)
Distinct-append [] ys d e apart = e
Distinct-append (x ∷ xs) ys d e apart = (
  ground (arith, d.0, has-append x xs ys, apart x),
  Distinct-append xs ys d.1 e (λ a i. ground (arith, i, apart a)),
)

-- A chain whose last entry now leads to `c`: nothing else of it has changed.
pub retarget :
    (h g : Links) (a : ℕ) (xs : List ℕ) (b c : ℕ)
    → Distinct (a ∷ xs)
    → Chain h a xs b
    → ((y : ℕ) → has y (a ∷ xs) ≡ true → y ≢ last a xs → g.next y ≡ h.next y)
    → ((y : ℕ) → has y xs ≡ true → g.previous y ≡ h.previous y)
    → Linked g (last a xs) c
    → Chain g a xs c
retarget h g a [] b c d l same before end = end
retarget h g a (x ∷ xs) b c d l same before end =
    let apart = has-ne (last x xs) a (x ∷ xs) (has-last x xs) d.0 in
    (
      (ground (arith, same a, apart, l.0.0), ground (arith, before x, l.0.1)),
      retarget h g x xs b c d.1 l.1 (λ y i. same y (ground (arith, i)))
          (λ y i. before y (ground (arith, i))) end,
    )

-- A chain that no write touches.
pub frame :
    (h g : Links) (a : ℕ) (xs : List ℕ) (b : ℕ)
    → Chain h a xs b
    → ((y : ℕ) → has y (a ∷ xs) ≡ true → g.next y ≡ h.next y)
    → ((y : ℕ) → has y (b ∷ xs) ≡ true → g.previous y ≡ h.previous y)
    → Chain g a xs b
frame h g a [] b l same before = (ground (arith, same a, l.0), ground (arith, before b, l.1))
frame h g a (x ∷ xs) b l same before = (
  (ground (arith, same a, l.0.0), ground (arith, before x, l.0.1)),
  frame h g x xs b l.1 (λ y i. same y (ground (arith, i))) (λ y i. before y (ground (arith, i))),
)
