-- ===== src/Classes/TypeCheck.antt =====
-- The type checks of jvm/src/class/typeCheck.c. The loops over classes run on fuel; `object` is java.lang.Object.
use mjvmk.Base.{ℕ, zero, suc, Bool, true, false, ◌||◌, not, List, [], ◌∷◌, ◌==◌, if◌then◌else◌}
use mjvmk.Classes.{ClassDef}

abbrev pub member : ℕ → List ℕ → Bool
member x [] = false
member x (y ∷ ys) = (x == y) || member x ys

unfoldable pub is_super_interface : (ℕ → ClassDef) → ℕ → ℕ → Bool
is_super_interface classes target source =
    if (classes source).is_array || not (classes target).is_interface
    then false
    else member target (classes source).super_interfaces

unfoldable pub is_parent_class : ℕ → (ℕ → ClassDef) → ℕ → ℕ → Bool
is_parent_class zero classes parent child = false
is_parent_class (suc fuel) classes parent child =
    let up : ℕ = (classes child).super_class in
    let later = is_parent_class fuel classes parent up in
    if parent == up then true else if up == 0 then false else later

-- Where the source is no array.
abbrev pub is_instance_of_class : ℕ → (ℕ → ClassDef) → ℕ → ℕ → ℕ → Bool
is_instance_of_class fuel classes object target source =
    if (classes source).is_interface
    then is_super_interface classes target source || (target == object)
    else if (classes target).is_interface
    then is_super_interface classes target source
    else is_parent_class fuel classes target source

-- The first fuel is for the depth of arrays, the second for the superclasses.
unfoldable pub is_instance_of : ℕ → ℕ → (ℕ → ClassDef) → ℕ → ℕ → ℕ → Bool
is_instance_of zero fuel classes object target source = false
is_instance_of (suc depth) fuel classes object target source =
    let elements =
      is_instance_of depth fuel classes object (classes target).element_class
        (classes source).element_class in
    if target == source
    then true
    else if not (classes source).is_array
    then is_instance_of_class fuel classes object target source
    else if not (classes target).is_array
    then target == object
    else if (classes source).is_primitive_array || (classes target).is_primitive_array
    then false
    else elements
