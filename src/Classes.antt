-- ===== src/Classes.antt =====
-- Class definitions as the resolution and the type checks see them: jvm/src/elements/base.h. A class is an
-- address, and NULL is 0.
pub mod Lookup
pub mod TypeCheck
pub mod Nearest
pub mod StaticFields
mod Tests
use mjvmk.Base.{ℕ, Bool, List}

-- `commonClassDef` and the headers that follow it. A field or a method stands for its key; a list that is
-- NULL is empty. The three tests are those of the package key and the access flags.
pub record ClassDef : Type 0 where
  pub is_array : Bool
  pub is_primitive_array : Bool
  pub is_interface : Bool
  pub element_class : ℕ
  pub super_class : ℕ
  pub super_interfaces : List ℕ
  pub instance_fields : List ℕ
  pub static_fields : List ℕ
  pub instance_methods : List ℕ
  pub static_methods : List ℕ
  pub virtual_method_count : ℕ
