-- ===== src/Strings/Names.antt =====
-- Class names of jvm/src/string/stringPool.c: the package and the name in a full name, and the bits of
-- jvm/src/elements/keys.h that a package key has for arrays.
use mjvmk.Base.{
  ℕ, zero, suc, ◌+◌, ◌-◌, ◌*◌, ◌/◌, ◌%◌, Bool, true, false, not, Option, none, some, List, [], ◌∷◌,
  ◌==◌, ltb, ◌&&◌, if◌then◌else◌, bit_and, bit_or,
}
use mjvmk.Strings.{Entry, HashTable}
use mjvmk.Strings.Pool.{get_utf8_string_by_chars}

-- `ARRAY_ARRAY_TYPE`, `OBJECT_ARRAY_TYPE` and the character that ends a package's name.
abbrev pub array_array_type : ℕ
array_array_type = 91

abbrev pub object_array_type : ℕ
object_array_type = 76

abbrev pub slash : ℕ
slash = 47

-- The `length` bytes at an address.
abbrev pub text_at : (ℕ → ℕ) → ℕ → ℕ → List ℕ
text_at bytes p zero = []
text_at bytes p (suc length) = bytes p ∷ text_at bytes (p + 1) length

-- `packageLength` after the loop of `parseClassName` over the first `length` bytes: the loop that finds no
-- slash there ends at the byte before the name, whatever that byte is.
unfoldable pub package_length : (ℕ → ℕ) → ℕ → ℕ → ℕ
package_length bytes full_name zero = 0
package_length bytes full_name (suc length) =
    let rest = package_length bytes full_name length in
    if bytes (full_name + length) == slash then suc length else rest

-- The pointers and lengths of `classIdentifierStruct`; the package name of no package is NULL.
pub record ParsedName : Type 0 where
  pub package_name : ℕ
  pub package_name_length : ℕ
  pub name : ℕ
  pub name_length : ℕ

unfoldable pub parse_class_name : (ℕ → ℕ) → ℕ → ℕ → ParsedName
parse_class_name bytes full_name full_name_length =
    let prefix : ℕ = package_length bytes full_name full_name_length in
    record {
      package_name = if ltb 1 prefix then full_name else 0;
      package_name_length = if ltb 1 prefix then prefix - 1 else 0;
      name = full_name + prefix;
      name_length = full_name_length - prefix;
    }

abbrev pub primitive_array_bit : ℕ
primitive_array_bit = 2048

-- `addArrayDepthToPackageKey`, `getArrayDepth`, `getPackageStringKey` and `isPrimitiveArrayPackageKey`.
unfoldable pub add_array_depth_to_package_key : ℕ → ℕ → ℕ
add_array_depth_to_package_key key depth = bit_or key (depth * 4096) % 65536

unfoldable pub get_array_depth : ℕ → ℕ
get_array_depth key = bit_and key 61440 / 4096

unfoldable pub get_package_string_key : ℕ → ℕ
get_package_string_key key = bit_and key 2047

unfoldable pub is_primitive_array_package_key : ℕ → Bool
is_primitive_array_package_key key = not (bit_and key primitive_array_bit == 0)

-- `classIdentifierStruct`: the two keys and the parts of the name.
pub record ClassIdentifier : Type 0 where
  pub name_key : ℕ
  pub package_key : ℕ
  pub parsed : ParsedName

-- The `do` loop of `getClassParams`: the array depth, a UINT8, and the address and length behind the
-- brackets.
unfoldable pub skip_brackets : ℕ → (ℕ → ℕ) → ℕ → ℕ → ℕ → ℕ × ℕ × ℕ
skip_brackets zero bytes depth p length = (depth, p, length)
skip_brackets (suc fuel) bytes depth p length =
    let rest = skip_brackets fuel bytes ((depth + 1) % 256) (p + 1) ((length + 65535) % 65536) in
    if bytes p == array_array_type then rest else (depth, p, length)

-- The key bits at the end of `getClassParams`.
unfoldable pub array_package_key : ℕ → Bool → ℕ → ℕ
array_package_key depth is_primitive key =
    let deep : ℕ = add_array_depth_to_package_key key depth in
    if depth == 0 then key else if is_primitive then bit_or deep primitive_array_bit else deep

-- The package's part of `getClassParams`: a look-up that fails leaves the name's entry in place, whose key is
-- then taken. The flag says that the call succeeds.
unfoldable pub package_key_of : ℕ → Entry → Option Entry × HashTable → Bool × ℕ × HashTable
package_key_of empty_key entry (none, table) = (false, entry.name_key, table)
package_key_of empty_key entry (some e, table) = (true, e.name_key, table)

-- What `getClassParams` does once the name has its entry, or not.
unfoldable pub with_name_entry :
    Bool
    → Bool
    → (ℕ → ℕ)
    → ℕ
    → ℕ
    → Bool
    → ParsedName
    → Option Entry × HashTable
    → Bool × Option ClassIdentifier × HashTable
with_name_entry is_signed allocates bytes empty_key depth is_primitive parsed (none, table) =
    (false, none, table)
with_name_entry is_signed allocates bytes empty_key depth is_primitive parsed (some e, table) =
    let keyed : Bool × ℕ × HashTable =
      if ltb 0 parsed.package_name_length
      then package_key_of empty_key e (
          get_utf8_string_by_chars is_signed allocates (λ t. t)
            (text_at bytes parsed.package_name parsed.package_name_length) table)
      else (true, empty_key, table) in
    (
      keyed.0,
      some (record {
        name_key = e.name_key;
        package_key = array_package_key depth is_primitive (keyed.1);
        parsed = parsed;
      }),
      keyed.2,
    )

-- `getClassParams` of a name at an address: whether it succeeds, the identifier where it is written, and the
-- pool. `allocates` and `allocates_package` are what memoryAlloc does in the two look-ups.
unfoldable pub get_class_params :
    ℕ
    → Bool
    → Bool
    → Bool
    → (ℕ → ℕ)
    → ℕ
    → ℕ
    → ℕ
    → HashTable
    → Bool × Option ClassIdentifier × HashTable
get_class_params fuel is_signed allocates allocates_package bytes empty_key full_name length table =
    let skipped : ℕ × ℕ × ℕ = skip_brackets fuel bytes 0 full_name length in
    let depth : ℕ = skipped.0 in
    let p : ℕ = skipped.1 in
    let is_array : Bool = bytes full_name == array_array_type in
    let is_object : Bool = is_array && (bytes p == object_array_type) in
    let parsed : ParsedName =
      if is_object
      then parse_class_name bytes (p + 1) ((skipped.2 + 65534) % 65536)
      else parse_class_name bytes p (skipped.2) in
    with_name_entry is_signed allocates_package bytes empty_key depth (not is_object) parsed (
      get_utf8_string_by_chars is_signed allocates (λ t. t)
        (text_at bytes parsed.name parsed.name_length) table)
