-- ===== src/Classes/StaticFields.antt =====
-- The path that `lookupStaticField` of jvm/src/resolution/resolve/lookup.c takes through the interfaces of a class and the
-- superclasses behind them.
use mjvmk.Base.{
  ℕ, zero, suc, ◌+◌, ◌-◌, ◌++◌, ◌<◌, ◌≡◌, ◌≢◌, ◌↔◌, true, false, none, some, List, [], ◌∷◌, ◌==◌,
  length, get_or, arith, refl, ne→not_==,
}
use mjvmk.LinkedList.Chain.{last}
use mjvmk.Classes.{ClassDef}
use mjvmk.Classes.Lookup.{static_field_from, lookup_static_field}
use mjvmk.Classes.TypeCheck.{member}
use mjvmk.Classes.Nearest.{IsLine, nearest, nearest-none, nearest-first, Lacks}

-- The first n of a list of interfaces, from the last one down.
abbrev pub backwards : List ℕ → ℕ → List ℕ
backwards interfaces zero = []
backwards interfaces (suc n) = get_or interfaces n 0 ∷ backwards interfaces n

abbrev pub static_count : ClassDef → ℕ
static_count d = length d.static_fields

static_field_from-nearest :
    (classes : ℕ → ClassDef) (interfaces : List ℕ) (key : ℕ) (ys : List ℕ) (fuel left c : ℕ)
    → ((i : ℕ) → i < left → get_or interfaces i 0 ≢ 0)
    → IsLine classes (classes (last c (backwards interfaces left))).super_class ys
    → left + length ys < fuel
    → static_field_from fuel classes interfaces left c key
      ≡ nearest classes
          (λ d. d.static_fields)
          static_count
          key
          (c ∷ (backwards interfaces left ++ ys))
unfolding static_field_from
static_field_from-nearest classes interfaces key ys zero left c given l enough =
    absurd (omega (arith, enough))
static_field_from-nearest classes interfaces key ys (suc fuel) (suc n) c given l enough =
    let next : ℕ = get_or interfaces n 0 in
    let more : (suc n == 0) ≡ false = ground arith in
    let one_less : suc n - 1 ≡ n = omega arith in
    rw
      (
        more,
        one_less,
        ne→not_== next 0 (given n (omega arith)),
        static_field_from-nearest classes interfaces key ys fuel n next
            (λ i h. given i (omega arith)) l (omega (arith, enough)),
      )
      refl
static_field_from-nearest classes interfaces key [] (suc fuel) zero c given l enough = rw l refl
static_field_from-nearest classes interfaces key (y ∷ ys) (suc fuel) zero c given l enough =
    rw
      (
        l.0,
        ne→not_== y 0 (l.1),
        static_field_from-nearest classes interfaces key ys fuel zero y
            (λ i h. absurd (omega arith)) (l.2) (omega (arith, enough)),
      )
      refl

-- `lookupStaticField` of a class, whose interfaces are not NULL, goes through the class, its
-- interfaces from the last to the first, and the line of the superclasses of the first interface,
-- or of the class where it has no interface. On a round for each of these, or more, it fails
-- exactly when none of them has a static field with the key, and what it finds is a static field
-- with that key of one of them, before which none has such a field.
pub lookup_static_field-finds :
    (classes : ℕ → ClassDef) (c key fuel : ℕ) (ys : List ℕ)
    → let interfaces : List ℕ = (classes c).super_interfaces in
      let back : List ℕ = backwards interfaces (length interfaces) in
      ((i : ℕ) → i < length interfaces → get_or interfaces i 0 ≢ 0)
      → IsLine classes (classes (last c back)).super_class ys
      → length interfaces + length ys < fuel
      → ((lookup_static_field fuel classes c key ≡ none) ↔ (
          (x : ℕ)
          → member x (c ∷ (back ++ ys)) ≡ true
          → Lacks classes (λ d. d.static_fields) static_count key x))
        × ((found : ℕ × ℕ)
            → lookup_static_field fuel classes c key ≡ some found
            → (before : List ℕ) × (behind : List ℕ) × (c ∷ (back ++ ys)
                ≡ before ++ (found.0 ∷ behind))
              × ((x : ℕ)
                  → member x before ≡ true
                  → Lacks classes (λ d. d.static_fields) static_count key x)
              × (found.1 < static_count (classes found.0))
              × (get_or (classes found.0).static_fields found.1 0 ≡ key))
unfolding lookup_static_field
lookup_static_field-finds classes c key fuel ys given l enough =
    let interfaces : List ℕ = (classes c).super_interfaces in
    let fields : ClassDef → List ℕ = (λ (d : ClassDef). d.static_fields) in
    let path : List ℕ = c ∷ (backwards interfaces (length interfaces) ++ ys) in
    rw
      (static_field_from-nearest classes interfaces key ys fuel (length interfaces) c given l
        enough)
      ((
        nearest-none classes fields static_count key path,
        nearest-first classes fields static_count key path,
      ))
