-- ===== src/Classes/Lookup.antt =====
-- The searches of jvm/src/resolution/resolve/lookup.c. A member found is its class and its index there; `none`
-- is the error code. The loops over classes run on fuel.
use mjvmk.Base.{
  ℕ, zero, suc, ◌-◌, Bool, Option, none, some, List, ◌==◌, if◌then◌else◌, length, get_or,
}
use mjvmk.Classes.{ClassDef}

-- The inner loop, from the end of a list of `count` members.
unfoldable pub search_down : List ℕ → ℕ → ℕ → Option ℕ
search_down keys key zero = none
search_down keys key (suc n) =
    let rest = search_down keys key n in if get_or keys n 0 == key then some n else rest

-- A member of the class `c`, or what the search goes on to find.
abbrev pub found_in : ℕ → Option ℕ → Option (ℕ × ℕ) → Option (ℕ × ℕ)
found_in c none later = later
found_in c (some i) later = some (c, i)

-- The outer loop over the superclasses.
unfoldable pub search_up :
    ℕ → (ℕ → ClassDef) → (ClassDef → List ℕ) → (ClassDef → ℕ) → ℕ → ℕ → Option (ℕ × ℕ)
search_up zero classes keys count c key = none
search_up (suc fuel) classes keys count c key =
    let up : ℕ = (classes c).super_class in
    let later = search_up fuel classes keys count up key in
    found_in c (search_down (keys (classes c)) key (count (classes c)))
      (if up == 0 then none else later)

unfoldable pub lookup_instance_field : ℕ → (ℕ → ClassDef) → ℕ → ℕ → Option (ℕ × ℕ)
lookup_instance_field fuel classes c key =
    search_up fuel classes (λ d. d.instance_fields) (λ d. length d.instance_fields) c key

-- The loop of `lookupStaticField`: `interfaces` are those of the first class, and `left` of them are still
-- to come.
unfoldable pub static_field_from : ℕ → (ℕ → ClassDef) → List ℕ → ℕ → ℕ → ℕ → Option (ℕ × ℕ)
static_field_from zero classes interfaces left c key = none
static_field_from (suc fuel) classes interfaces left c key =
    let next : ℕ = if left == 0 then (classes c).super_class else get_or interfaces (left - 1) 0 in
    let later = static_field_from fuel classes interfaces (left - 1) next key in
    found_in c (search_down (classes c).static_fields key (length (classes c).static_fields))
      (if next == 0 then none else later)

unfoldable pub lookup_static_field : ℕ → (ℕ → ClassDef) → ℕ → ℕ → Option (ℕ × ℕ)
lookup_static_field fuel classes c key =
    static_field_from fuel classes (classes c).super_interfaces
      (length (classes c).super_interfaces) c key

-- The loop of `lookupSuperInterfaceMethod` over the first `count` interfaces, from the last.
unfoldable pub interface_method_from : (ℕ → ClassDef) → List ℕ → ℕ → ℕ → Option (ℕ × ℕ)
interface_method_from classes interfaces key zero = none
interface_method_from classes interfaces key (suc n) =
    let i : ℕ = get_or interfaces n 0 in
    found_in i (search_down (classes i).instance_methods key (length (classes i).instance_methods))
      (interface_method_from classes interfaces key n)

unfoldable pub lookup_super_interface_method : (ℕ → ClassDef) → ℕ → ℕ → Option (ℕ × ℕ)
lookup_super_interface_method classes c key =
    interface_method_from classes (classes c).super_interfaces key
      (length (classes c).super_interfaces)

unfoldable pub lookup_method : ℕ → (ℕ → ClassDef) → ℕ → ℕ → Bool → Option (ℕ × ℕ)
lookup_method fuel classes c key is_virtual =
    let own : Option (ℕ × ℕ) =
      search_up fuel classes (λ d. d.instance_methods)
        (λ d. if is_virtual then d.virtual_method_count else length d.instance_methods) c key in
    elim own [ none ↦ lookup_super_interface_method classes c key | some found ↦ some found ]

unfoldable pub lookup_static_method : ℕ → (ℕ → ClassDef) → ℕ → ℕ → Option (ℕ × ℕ)
lookup_static_method fuel classes c key =
    search_up fuel classes (λ d. d.static_methods) (λ d. length d.static_methods) c key
