-- ===== src/Classes/Tests.antt =====
-- The theorems about class definitions at three classes, 10, 20 and 30, each the child of the next, and an
-- interface 40 of the class 10.
use mjvmk.Base.{
  ℕ, suc, zero, ◌<◌, ◌≡◌, ◌≢◌, ◌↔◌, true, false, none, some, List, [], ◌∷◌, ◌++◌, ◌==◌,
  if◌then◌else◌, length, get_or, arith, refl,
}
use mjvmk.Classes.{ClassDef}
use mjvmk.Classes.Lookup.{lookup_instance_field, lookup_static_field}
use mjvmk.Classes.TypeCheck.{member, is_parent_class}
use mjvmk.Classes.Nearest.{IsLine, Lacks, lookup_instance_field-finds, is_parent_class-line}
use mjvmk.Classes.StaticFields.{lookup_static_field-finds, static_count}

abbrev classes : ℕ → ClassDef
classes c = record {
  is_array = false;
  is_primitive_array = false;
  is_interface = c == 40;
  element_class = 0;
  super_class = if c == 10 then 20 else if c == 20 then 30 else 0;
  super_interfaces = if c == 10 then 40 ∷ [] else [];
  instance_fields = if c == 20 then 5 ∷ 6 ∷ [] else 7 ∷ [];
  static_fields = if c == 20 then 8 ∷ [] else [];
  instance_methods = [];
  static_methods = [];
  virtual_method_count = 0;
}

abbrev line : List ℕ
line = 10 ∷ 20 ∷ 30 ∷ []

line-IsLine : IsLine classes 10 line
line-IsLine = (
  refl,
  (λ e. omega (arith, e)),
  (refl, (λ e. omega (arith, e)), (refl, (λ e. omega (arith, e)), refl)),
)

lookup_instance_field-finds_example :
    ((lookup_instance_field 3 classes 10 6 ≡ none) ↔ (
      (x : ℕ)
      → member x line ≡ true
      → Lacks classes (λ d. d.instance_fields) (λ d. length d.instance_fields) 6 x))
    × ((found : ℕ × ℕ)
        → lookup_instance_field 3 classes 10 6 ≡ some found
        → (member found.0 line ≡ true)
          × (found.1 < length (classes found.0).instance_fields)
          × (get_or (classes found.0).instance_fields found.1 0 ≡ 6))
lookup_instance_field-finds_example =
    lookup_instance_field-finds classes 10 6 3 line (omega arith) line-IsLine (omega arith)

is_parent_class-line_example : is_parent_class 3 classes 30 10 ≡ member 30 (20 ∷ 30 ∷ [])
is_parent_class-line_example =
    is_parent_class-line classes 30 (20 ∷ 30 ∷ []) 3 10 (omega arith)
      (refl, (λ e. omega (arith, e)), (refl, (λ e. omega (arith, e)), refl)) (omega arith)

-- The class 20, above the class 10, has a static field with the key 8, but is not on the way: 40 is.
only_forty : (i : ℕ) → i < 1 → get_or (classes 10).super_interfaces i 0 ≢ 0
only_forty zero h = (λ e. omega (arith, e))
only_forty (suc i) h = absurd (omega (arith, h))

lookup_static_field-finds_example :
    ((lookup_static_field 2 classes 10 8 ≡ none) ↔ (
      (x : ℕ)
      → member x (10 ∷ 40 ∷ []) ≡ true
      → Lacks classes (λ d. d.static_fields) static_count 8 x))
    × ((found : ℕ × ℕ)
        → lookup_static_field 2 classes 10 8 ≡ some found
        → (before : List ℕ) × (behind : List ℕ) × (10 ∷ 40 ∷ [] ≡ before ++ (found.0 ∷ behind))
          × ((x : ℕ)
              → member x before ≡ true
              → Lacks classes (λ d. d.static_fields) static_count 8 x)
          × (found.1 < static_count (classes found.0))
          × (get_or (classes found.0).static_fields found.1 0 ≡ 8))
lookup_static_field-finds_example =
    lookup_static_field-finds classes 10 8 2 [] only_forty refl (omega arith)
