-- ===== src/Strings/Tests.antt =====
-- Runs of the functions of jvm/src/string at inputs, and the claims' witnesses.
use mjvmk.Base.{
  ℕ, ◌+◌, ◌-◌, ◌<◌, ◌≡◌, ◌↔◌, ◌≢◌, ◌⊎◌, refl, true, false, Option, none, some, List, [], ◌∷◌,
  get_or, arith,
}
use mjvmk.Strings.{Entry, HashTable}
use mjvmk.Strings.Pool.{
  create_string_pool, hash_from, find_by_chars, find_by_key, found_or_added, add_global_utf8_string,
  get_utf8_string_by_chars, get_utf8_string_by_key,
}
use mjvmk.Strings.Keys.{
  IsPool, HasRoom, create_string_pool-IsPool, IsServed, get_utf8_string_by_chars-IsServed,
  IsEntered, get_utf8_string_by_chars-IsEntered, get_utf8_string_by_chars-same_key,
}
use mjvmk.Strings.Utf8.{
  verify_utf8_string, get_unicode_length, length_from, char_length, fill_characters,
  get_unicode_char_from_utf8_char,
}
use mjvmk.Strings.Encoding.{encode, encode_all}
use mjvmk.Strings.Decoding.{fill_characters-encode}
use mjvmk.Strings.Signed.{get_unicode_length-signed}
use mjvmk.Strings.Names.{ParsedName, ClassIdentifier, with_name_entry, parse_class_name, slash}
use mjvmk.Strings.ClassKeys.{StandsFor, with_name_entry-StandsFor}
use mjvmk.Strings.ClassNames.{parse_class_name-splits}
use mjvmk.Strings.Intern.{
  Interned, InternTable, Constant, find_matching_unicode_string, intern_string, found_or_entered,
  enter_string, instantiate_interned_string,
}
use mjvmk.Strings.Interned.{first_with_text, decode_from, find_matching_unicode_string-first}
use mjvmk.Strings.Interning.{intern_string-twice}

abbrev two_letters : List ℕ
two_letters = 97 ∷ 98 ∷ []

abbrev new_pool : HashTable
new_pool = create_string_pool 256

new_pool-IsPool : IsPool true new_pool
new_pool-IsPool = create_string_pool-IsPool true 256 (omega arith)

new_pool-HasRoom : HasRoom true two_letters new_pool
unfolding create_string_pool hash_from
new_pool-HasRoom = omega arith

get_utf8_string_by_chars-IsServed_example :
    IsServed true two_letters (get_utf8_string_by_chars true true (λ t. t) two_letters new_pool)
get_utf8_string_by_chars-IsServed_example =
    get_utf8_string_by_chars-IsServed true true (λ t. t) two_letters new_pool new_pool-IsPool
      new_pool-IsPool new_pool-HasRoom

get_utf8_string_by_chars-IsEntered_example :
    IsEntered true two_letters new_pool
      (get_utf8_string_by_chars true true (λ t. t) two_letters new_pool)
get_utf8_string_by_chars-IsEntered_example =
    get_utf8_string_by_chars-IsEntered true true two_letters new_pool new_pool-IsPool
      new_pool-HasRoom

abbrev one_entry : Entry × HashTable
one_entry = add_global_utf8_string true two_letters new_pool

second_room : HasRoom true (97 ∷ []) one_entry.1
unfolding create_string_pool hash_from add_global_utf8_string
second_room = omega arith

abbrev two_entries : Entry × HashTable
two_entries = add_global_utf8_string true (97 ∷ []) one_entry.1

first_added :
    get_utf8_string_by_chars true true (λ s. s) two_letters new_pool
    ≡ (some one_entry.0, one_entry.1)
unfolding get_utf8_string_by_chars found_or_added create_string_pool find_by_chars hash_from
first_added = refl

second_added :
    get_utf8_string_by_chars true true (λ s. s) (97 ∷ []) one_entry.1
    ≡ (some two_entries.0, two_entries.1)
unfolding get_utf8_string_by_chars found_or_added create_string_pool find_by_chars hash_from
    add_global_utf8_string
second_added = refl

get_utf8_string_by_chars-same_key_example :
    (one_entry.0.name_key ≡ two_entries.0.name_key) ↔ (two_letters ≡ 97 ∷ [])
get_utf8_string_by_chars-same_key_example =
    get_utf8_string_by_chars-same_key true true true two_letters (97 ∷ []) new_pool new_pool-IsPool
      new_pool-HasRoom one_entry.0 two_entries.0 one_entry.1 two_entries.1 first_added second_room
      second_added

-- Another thread adds the same string between the search and the critical section: the string has two
-- entries with two keys.
abbrev raced : Option Entry × HashTable
raced =
    get_utf8_string_by_chars true true (λ t. (add_global_utf8_string true two_letters t).1)
      two_letters new_pool

raced_keys :
    (get_utf8_string_by_key 359 raced.1 ≡ some two_letters)
    × (get_utf8_string_by_key 615 raced.1 ≡ some two_letters)
unfolding get_utf8_string_by_chars get_utf8_string_by_key found_or_added create_string_pool
    find_by_chars find_by_key hash_from add_global_utf8_string
raced_keys = (refl, refl)

-- A letter, an e with an accent and the euro sign, at the address 5.
abbrev three_characters : List ℕ
three_characters = 65 ∷ 233 ∷ 8364 ∷ []

abbrev encoded : List ℕ
encoded = 65 ∷ 195 ∷ 169 ∷ 226 ∷ 130 ∷ 172 ∷ []

abbrev bytes_of : List ℕ → ℕ → ℕ
bytes_of xs p = get_or xs p 0

abbrev padded : ℕ → ℕ
padded = bytes_of (0 ∷ 0 ∷ 0 ∷ 0 ∷ 0 ∷ encoded)

fill_characters-encode_example :
    (verify_utf8_string padded 5 6 ≡ true)
    × (get_unicode_length false padded 5 6 ≡ 3)
    × ((j : ℕ)
        → j < 3
        → fill_characters 3 false padded 5 0 (λ i. 0) j ≡ get_or three_characters j 0)
unfolding encode encode_all
fill_characters-encode_example =
    fill_characters-encode three_characters padded 5 (λ i. 0) (λ c i. ground (arith, i))
      (omega arith) (refl, (refl, (refl, (refl, (refl, (refl, refl))))))

get_unicode_length-signed_example :
    (get_unicode_length true (λ p. 195) 0 6 ≡ 6)
    × ((q : ℕ) → get_unicode_char_from_utf8_char true (λ p. 195) q ≡ (65475, 1))
get_unicode_length-signed_example =
    get_unicode_length-signed (λ p. 195) 0 6 (λ q. omega arith) (omega arith)

-- The bytes of `a/b`.
abbrev in_package : ℕ → ℕ
in_package = bytes_of (97 ∷ 47 ∷ 98 ∷ [])

-- They stand at the address 5.
abbrev from_five : ℕ → ℕ
from_five p = in_package (p - 5)

parse_class_name-splits_example :
    ((parse_class_name from_five 5 3).name + (parse_class_name from_five 5 3).name_length ≡ 5 + 3)
    × ((i : ℕ)
        → i < (parse_class_name from_five 5 3).name_length
        → from_five ((parse_class_name from_five 5 3).name + i) ≢ slash)
    × (((from_five (5 + (parse_class_name from_five 5 3).package_name_length) ≡ slash)
          × ((parse_class_name from_five 5 3).name
              ≡ 5 + (parse_class_name from_five 5 3).package_name_length + 1))
        ⊎ (((parse_class_name from_five 5 3).package_name_length ≡ 0)
            × ((parse_class_name from_five 5 3).name ≡ 5)))
    × (0 < (parse_class_name from_five 5 3).package_name_length
        → (parse_class_name from_five 5 3).package_name ≡ 5)
    × ((parse_class_name from_five 5 3).package_name_length ≡ 0
        → (parse_class_name from_five 5 3).package_name ≡ 0)
parse_class_name-splits_example = parse_class_name-splits from_five 5 3

-- The constant `a/b`, an interned `a/` and an interned `a/b`.
abbrev constant : Constant
constant = record { is_signed = true; bytes = in_package; start = 0; end = 3 }

abbrev interned : List Interned
interned =
    record { instance_at = 1000; values = 0; offset = 0; length = 2 }
    ∷ record { instance_at = 2000; values = 0; offset = 0; length = 3 }
    ∷ []

find_matching_unicode_string-first_example :
    find_matching_unicode_string 3 constant in_package interned
    ≡ first_with_text 3 constant in_package interned
unfolding decode_from get_unicode_char_from_utf8_char
find_matching_unicode_string-first_example =
    find_matching_unicode_string-first constant in_package 3 (omega arith) interned

abbrev no_strings : InternTable
no_strings = record { entry_count = 64; count = 0; entries = λ i. [] }

abbrev after_interning : Option Interned × InternTable × (ℕ → ℕ)
after_interning = intern_string (some (3000, 500)) true in_package 0 3 no_strings (λ a. 0)

abbrev new_string : Interned
new_string = record { instance_at = 3000; values = 500; offset = 0; length = 3 }

intern_string-twice_example :
    intern_string none true in_package 0 3 after_interning.1 after_interning.2
    ≡ (some new_string, after_interning.1, after_interning.2)
unfolding intern_string found_or_entered enter_string instantiate_interned_string
    find_matching_unicode_string get_unicode_length length_from char_length
intern_string-twice_example =
    intern_string-twice true in_package 0 3 (omega arith) no_strings (λ a. 0) (some (3000, 500))
      none new_string after_interning.1 after_interning.2 refl

-- The parts of `a/b`, and the pool before, between and after its look-ups.
abbrev parsed : ParsedName
parsed = record { package_name = 0; package_name_length = 1; name = 2; name_length = 1 }

abbrev name_entry : Entry × HashTable
name_entry = add_global_utf8_string true (98 ∷ []) new_pool

abbrev package_entry : Entry × HashTable
package_entry = add_global_utf8_string true (97 ∷ []) name_entry.1

name_added :
    get_utf8_string_by_chars true true (λ s. s) (98 ∷ []) new_pool
    ≡ (some name_entry.0, name_entry.1)
unfolding get_utf8_string_by_chars found_or_added create_string_pool find_by_chars hash_from
name_added = refl

package_added :
    get_utf8_string_by_chars true true (λ s. s) (97 ∷ []) name_entry.1
    ≡ (some package_entry.0, package_entry.1)
unfolding get_utf8_string_by_chars found_or_added create_string_pool find_by_chars hash_from
    add_global_utf8_string
package_added = refl

name_room : HasRoom true (98 ∷ []) new_pool
unfolding create_string_pool hash_from
name_room = omega arith

package_room : HasRoom true (97 ∷ []) name_entry.1
unfolding create_string_pool hash_from add_global_utf8_string
package_room = omega arith

package_key_small : package_entry.0.name_key < 2048
unfolding create_string_pool hash_from add_global_utf8_string
package_key_small = omega arith

with_name_entry-StandsFor_example :
    (id : ClassIdentifier) × (with_name_entry true true in_package 1 0 false parsed
        (get_utf8_string_by_chars true true (λ s. s) (98 ∷ []) new_pool)
      ≡ (true, some id, package_entry.1))
    × StandsFor in_package 0 parsed id package_entry.1
with_name_entry-StandsFor_example =
    with_name_entry-StandsFor true true true in_package 1 0 false parsed new_pool new_pool-IsPool
      name_room name_entry.0 package_entry.0 name_entry.1 package_entry.1 name_added package_room
      package_added (omega arith) package_key_small (omega arith)
