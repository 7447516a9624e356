-- ===== src/Classes/Nearest.antt =====
-- What the searches of jvm/src/resolution/resolve/lookup.c and the test of superclasses of jvm/src/class/typeCheck.c find along
-- the superclasses of a class.
use mjvmk.Base.{
  ℕ, zero, suc, ◌++◌, ◌≤◌, ◌<◌, ◌≡◌, ◌≢◌, ◌↔◌, true, Option, none, some, List, [], ◌∷◌, ◌==◌,
  if◌then◌else◌, length, get_or, arith, refl, Bool-cases, Option-cases, inl, inr, ne→not_==,
  some_inj, none-ne-some, ==_iff, not_==→ne, ap, sym, ◌∙◌,
}
use mjvmk.Classes.{ClassDef}
use mjvmk.Classes.Lookup.{search_down, found_in, search_up, lookup_instance_field}
use mjvmk.Classes.TypeCheck.{member, is_parent_class}

-- The class `c` and its superclasses up to the one that has none are `line`.
abbrev pub IsLine : (ℕ → ClassDef) → ℕ → List ℕ → Type 0
IsLine classes c [] = c ≡ 0
IsLine classes c (x ∷ xs) = (c ≡ x) × (x ≢ 0) × IsLine classes (classes x).super_class xs

-- The nearest class of a line that has the member.
abbrev pub nearest :
    (ℕ → ClassDef) → (ClassDef → List ℕ) → (ClassDef → ℕ) → ℕ → List ℕ → Option (ℕ × ℕ)
nearest classes keys count key [] = none
nearest classes keys count key (x ∷ xs) =
    found_in x (search_down (keys (classes x)) key (count (classes x)))
      (nearest classes keys count key xs)

-- The loop over the superclasses is the search along the line, on as many rounds as there are classes.
pub search_up-nearest :
    (classes : ℕ → ClassDef) (keys : ClassDef → List ℕ) (count : ClassDef → ℕ) (key : ℕ)
    (xs : List ℕ) (fuel c : ℕ)
    → c ≢ 0
    → IsLine classes c xs
    → length xs ≤ fuel
    → search_up fuel classes keys count c key ≡ nearest classes keys count key xs
unfolding search_up
search_up-nearest classes keys count key [] fuel c nz l enough = absurd (nz l)
search_up-nearest classes keys count key (x ∷ xs) zero c nz l enough = absurd (omega arith)
search_up-nearest classes keys count key (x ∷ xs) (suc n) c nz l enough = rw (l.0) (
    ap (found_in x (search_down (keys (classes x)) key (count (classes x)))) (
      rest xs l.2 (omega arith)
        (search_up-nearest classes keys count key xs n (classes x).super_class)))
  where
    rest :
        (ys : List ℕ)
        → IsLine classes (classes x).super_class ys
        → length ys ≤ n
        → ((classes x).super_class ≢ 0
            → IsLine classes (classes x).super_class ys
            → length ys ≤ n
            → search_up n classes keys count (classes x).super_class key
              ≡ nearest classes keys count key ys)
        → (if (classes x).super_class == 0
            then none
            else search_up n classes keys count (classes x).super_class key)
          ≡ nearest classes keys count key ys
    rest [] k small ih = rw k refl
    rest (y ∷ ys) k small ih =
        let nonzero : (classes x).super_class ≢ 0 = (λ e. k.1 (sym (k.0) ∙ e)) in
        rw (ne→not_== (classes x).super_class 0 nonzero) (ih nonzero k small)

search_down-none :
    (keys : List ℕ) (key n : ℕ)
    → (search_down keys key n ≡ none) ↔ ((i : ℕ) → i < n → get_or keys i 0 ≢ key)
unfolding search_down
search_down-none keys key zero = (λ e i l. absurd (omega (arith, l)), λ f. refl)
search_down-none keys key (suc n) = elim (Bool-cases (get_or keys n 0 == key)) [
  | inl hit ↦
      rw hit
        ((λ e. absurd (none-ne-some (sym e)), λ f. absurd (f n (omega arith) ((==_iff _ _).0 hit))))
  | inr miss ↦
      let rest = search_down-none keys key n in
      rw miss (
        (
          λ e i l. elim (Bool-cases (i == n)) [
            | inl same ↦ (λ k.
                not_==→ne _ _ miss (ap (λ j. get_or keys j 0) (sym ((==_iff i n).0 same)) ∙ k))
            | inr other ↦ rest.0 e i (ground (arith, l, other))
          ],
          λ f. rest.1 (λ i l. f i (omega (arith, l))),
        ))
]

search_down-some :
    (keys : List ℕ) (key n i : ℕ)
    → search_down keys key n ≡ some i
    → (i < n) × (get_or keys i 0 ≡ key)
unfolding search_down
search_down-some keys key zero i e = absurd (none-ne-some e)
search_down-some keys key (suc n) i e = elim (Bool-cases (get_or keys n 0 == key)) [
  | inl hit ↦
      let at : n ≡ i = some_inj (rw hit at e) in
      (omega (arith, at), ap (λ j. get_or keys j 0) (sym at) ∙ (==_iff _ _).0 hit)
  | inr miss ↦
      let rest = search_down-some keys key n i (rw miss at e) in (omega (arith, rest), rest.1)
]

module _ (classes : ℕ → ClassDef) (keys : ClassDef → List ℕ) (count : ClassDef → ℕ) (key : ℕ) where
  -- The class `x` has no such member among its first ones.
  abbrev pub Lacks : ℕ → Type 0
  Lacks x = (i : ℕ) → i < count (classes x) → get_or (keys (classes x)) i 0 ≢ key

  pub nearest-none :
      (xs : List ℕ)
      → (nearest classes keys count key xs ≡ none) ↔ ((x : ℕ) → member x xs ≡ true → Lacks x)
  nearest-none [] = (λ e x m. absurd (ground (arith, m)), λ f. refl)
  nearest-none (x ∷ xs) =
      let here = search_down-none (keys (classes x)) key (count (classes x)) in
      let rest = nearest-none xs in
      elim (Option-cases (search_down (keys (classes x)) key (count (classes x)))) [
        | inl miss ↦ rw miss (
            (
              λ e y m. elim (Bool-cases (y == x)) [
                | inl same ↦ rw ((==_iff y x).0 same) (here.0 miss)
                | inr other ↦ rest.0 e y (ground (arith, m, other))
              ],
              λ f. rest.1 (λ y m. f y (ground (arith, m))),
            ))
        | inr (i, hit) ↦
            let found = search_down-some (keys (classes x)) key (count (classes x)) i hit in
            rw hit (
              (
                λ e. absurd (none-ne-some (sym e)),
                λ f. absurd (f x (ground arith) i found.0 found.1),
              ))
      ]

  nearest-some :
      (xs : List ℕ) (found : ℕ × ℕ)
      → nearest classes keys count key xs ≡ some found
      → (member found.0 xs ≡ true)
        × (found.1 < count (classes found.0))
        × (get_or (keys (classes found.0)) found.1 0 ≡ key)
  nearest-some [] found e = absurd (none-ne-some e)
  nearest-some (x ∷ xs) found e =
      elim (Option-cases (search_down (keys (classes x)) key (count (classes x)))) [
        | inl miss ↦
            let rest = nearest-some xs found (rw miss at e) in
            (ground (arith, rest.0), rest.1, rest.2)
        | inr (i, hit) ↦
            let here = search_down-some (keys (classes x)) key (count (classes x)) i hit in
            let at : (x, i) ≡ found = some_inj (rw hit at e) in
            rw (sym at) ((ground arith, here.0, here.1))
      ]

  -- What is found is a member of the first class that has one.
  pub nearest-first :
      (xs : List ℕ) (found : ℕ × ℕ)
      → nearest classes keys count key xs ≡ some found
      → (before : List ℕ) × (behind : List ℕ) × (xs ≡ before ++ (found.0 ∷ behind))
        × ((x : ℕ) → member x before ≡ true → Lacks x)
        × (found.1 < count (classes found.0))
        × (get_or (keys (classes found.0)) found.1 0 ≡ key)
  nearest-first [] found e = absurd (none-ne-some e)
  nearest-first (x ∷ xs) found e =
      elim (Option-cases (search_down (keys (classes x)) key (count (classes x)))) [
        | inl miss ↦
            let here = search_down-none (keys (classes x)) key (count (classes x)) in
            let (before, behind, split, lacking, small, same) =
              nearest-first xs found (rw miss at e) in
            (
              x ∷ before,
              behind,
              ap (λ l. x ∷ l) split,
              λ y m. elim (Bool-cases (y == x)) [
                | inl e₁ ↦ rw ((==_iff y x).0 e₁) (here.0 miss)
                | inr other ↦ lacking y (ground (arith, m, other))
              ],
              small,
              same,
            )
        | inr (i, hit) ↦
            let here = search_down-some (keys (classes x)) key (count (classes x)) i hit in
            let at : (x, i) ≡ found = some_inj (rw hit at e) in
            rw (sym at) (([], xs, refl, (λ y m. absurd (ground (arith, m))), here.0, here.1))
      ]

-- Along the line of a class and its superclasses, on as many rounds as there are classes,
-- `lookupInstanceField` fails exactly when none of them has a field with the key, and what it finds is a field
-- of one of them with that key.
pub lookup_instance_field-finds :
    (classes : ℕ → ClassDef) (c key fuel : ℕ) (xs : List ℕ)
    → c ≢ 0
    → IsLine classes c xs
    → length xs ≤ fuel
    → ((lookup_instance_field fuel classes c key ≡ none) ↔ (
        (x : ℕ)
        → member x xs ≡ true
        → Lacks classes (λ d. d.instance_fields) (λ d. length d.instance_fields) key x))
      × ((found : ℕ × ℕ)
          → lookup_instance_field fuel classes c key ≡ some found
          → (member found.0 xs ≡ true)
            × (found.1 < length (classes found.0).instance_fields)
            × (get_or (classes found.0).instance_fields found.1 0 ≡ key))
unfolding lookup_instance_field
lookup_instance_field-finds classes c key fuel xs nz l enough =
    let fields : ClassDef → List ℕ = (λ (d : ClassDef). d.instance_fields) in
    let count : ClassDef → ℕ = (λ (d : ClassDef). length d.instance_fields) in
    rw (search_up-nearest classes fields count key xs fuel c nz l enough)
      ((nearest-none classes fields count key xs, nearest-some classes fields count key xs))

-- Where `ys` is the line of the superclasses of a class, `isParentClass` holds of it exactly for the classes of the line.
pub is_parent_class-line :
    (classes : ℕ → ClassDef) (parent : ℕ) (ys : List ℕ) (fuel child : ℕ)
    → parent ≢ 0
    → IsLine classes (classes child).super_class ys
    → length ys < fuel
    → is_parent_class fuel classes parent child ≡ member parent ys
unfolding is_parent_class
is_parent_class-line classes parent ys zero child nz l enough = absurd (omega (arith, enough))
is_parent_class-line classes parent [] (suc n) child nz l enough =
    rw l (rw (ne→not_== parent 0 nz) refl)
is_parent_class-line classes parent (y ∷ ys) (suc n) child nz l enough =
    rw
      (
        l.0,
        ne→not_== y 0 l.1,
        is_parent_class-line classes parent ys n y nz l.2 (omega (arith, enough)),
      )
      (ground arith)
