-- ===== src/Strings/ClassKeys.antt =====
-- The keys that `getClassParams` of jvm/src/string/stringPool.c gives to a class, and the strings they stand for.
use mjvmk.Base.{ℕ, ◌<◌, ◌≡◌, refl, Bool, true, some, ltb, arith}
use mjvmk.Strings.{Entry, HashTable}
use mjvmk.Strings.Pool.{get_utf8_string_by_chars, get_utf8_string_by_key}
use mjvmk.Strings.Keys.{IsPool, HasRoom, IsEntered, get_utf8_string_by_chars-IsEntered}
use mjvmk.Strings.Names.{
  text_at, ParsedName, ClassIdentifier, array_package_key, get_array_depth, get_package_string_key,
  package_key_of, with_name_entry,
}
use mjvmk.Strings.ClassNames.{array_package_key-parts}

-- The keys stand for these strings and this array depth.
abbrev pub StandsFor : (ℕ → ℕ) → ℕ → ParsedName → ClassIdentifier → HashTable → Type 0
StandsFor bytes depth parsed id table =
    (get_utf8_string_by_key id.name_key table ≡ some (text_at bytes parsed.name parsed.name_length))
    × (get_utf8_string_by_key (get_package_string_key id.package_key) table
        ≡ some (text_at bytes parsed.package_name parsed.package_name_length))
    × (get_array_depth id.package_key ≡ depth)

-- The two look-ups of getClassParams for a class in a package, in a well-formed pool with a key left for each
-- string and no other thread: where both succeed, the package's key is below 2048 and the array depth below 16,
-- the call succeeds, and in the pool the name's key stands for the name, the package's part of the package key
-- for the package, and its array bits for the array depth.
pub with_name_entry-StandsFor :
    (is_signed a b : Bool) (bytes : ℕ → ℕ) (empty_key depth : ℕ) (is_primitive : Bool)
    (parsed : ParsedName) (table : HashTable)
    → IsPool is_signed table
    → HasRoom is_signed (text_at bytes parsed.name parsed.name_length) table
    → (e d : Entry) (t u : HashTable)
    → get_utf8_string_by_chars is_signed a
        (λ s. s)
        (text_at bytes parsed.name parsed.name_length)
        table
      ≡ (some e, t)
    → HasRoom is_signed (text_at bytes parsed.package_name parsed.package_name_length) t
    → get_utf8_string_by_chars is_signed b
        (λ s. s)
        (text_at bytes parsed.package_name parsed.package_name_length)
        t
      ≡ (some d, u)
    → 0 < parsed.package_name_length
    → d.name_key < 2048
    → depth < 16
    → (id : ClassIdentifier) × (with_name_entry is_signed b bytes empty_key depth is_primitive
          parsed
          (get_utf8_string_by_chars is_signed a
            (λ s. s)
            (text_at bytes parsed.name parsed.name_length)
            table)
        ≡ (true, some id, u))
      × StandsFor bytes depth parsed id u
unfolding with_name_entry package_key_of
with_name_entry-StandsFor is_signed a b bytes empty_key depth is_primitive parsed table v room e d t
      u first room' second some_package small shallow =
    let name = text_at bytes parsed.name parsed.name_length in
    let in_package = text_at bytes parsed.package_name parsed.package_name_length in
    let one : IsEntered is_signed name table (some e, t) =
      rw first at (get_utf8_string_by_chars-IsEntered is_signed a name table v room) in
    let two : IsEntered is_signed in_package t (some d, u) =
      rw second at (get_utf8_string_by_chars-IsEntered is_signed b in_package t (one.3) room') in
    let parts = array_package_key-parts depth is_primitive d.name_key shallow small in
    let named : ltb 0 parsed.package_name_length ≡ true = ground (arith, some_package) in
    (
      record {
        name_key = e.name_key;
        package_key = array_package_key depth is_primitive d.name_key;
        parsed = parsed;
      },
      rw (first, named, second) refl,
      (two.2 e.name_key name (one.1), rw (parts.1) (two.1), parts.0),
    )
