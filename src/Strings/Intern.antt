-- ===== src/Strings/Intern.antt =====
-- The interned strings of jvm/src/string/stringPool.c: Java strings by the UTF-8 characters of their constants.
-- A string's characters lie in a memory of UINT16 characters, at the address of its array's values.
use mjvmk.Base.{
  ℕ, zero, suc, ◌+◌, ◌%◌, Bool, true, false, Option, none, some, List, [], ◌∷◌, ◌==◌, ltb,
  if◌then◌else◌, update,
}
use mjvmk.Strings.Pool.{get_string_hash}
use mjvmk.Strings.Names.{text_at}
use mjvmk.Strings.Utf8.{get_unicode_char_from_utf8_char, get_unicode_length, fill_characters}

-- `internedStringInstanceStruct`: the instance's address, the address of its character array's values, and its
-- fields `offset` and `length`.
pub record Interned : Type 0 where
  pub instance_at : ℕ
  pub values : ℕ
  pub offset : ℕ
  pub length : ℕ

-- The `hashTableStruct` of the interned strings.
pub record InternTable : Type 0 where
  pub entry_count : ℕ
  pub count : ℕ
  pub entries : ℕ → List Interned

-- The UTF-8 bytes from `start` to `end`, and the memory of characters.
pub record Constant : Type 0 where
  pub is_signed : Bool
  pub bytes : ℕ → ℕ
  pub start : ℕ
  pub end : ℕ

-- The loop of `findMatchingUnicodeString` over the characters: `isMatch` and `jstringLength`.
unfoldable pub match_from : ℕ → Constant → (ℕ → ℕ) → ℕ → ℕ → ℕ → Bool × ℕ
match_from zero constant characters p unicode count = (true, count)
match_from (suc fuel) constant characters p unicode count =
    let read : ℕ × ℕ = get_unicode_char_from_utf8_char constant.is_signed constant.bytes p in
    let rest =
      match_from fuel constant characters (p + read.1) (unicode + 1) ((count + 1) % 65536) in
    if ltb p constant.end
    then (if read.0 == characters unicode then rest else (false, count))
    else (true, count)

unfoldable pub match_string : ℕ → Constant → (ℕ → ℕ) → Interned → Bool × ℕ
match_string fuel constant characters s =
    match_from fuel constant characters constant.start (s.values + s.offset) 0

-- The inner loop of `findMatchingUnicodeString` once the length of the constant is known.
unfoldable pub find_with_length : ℕ → Constant → (ℕ → ℕ) → ℕ → List Interned → Option Interned
find_with_length fuel constant characters jstring_length [] = none
find_with_length fuel constant characters jstring_length (s ∷ ss) =
    let rest = find_with_length fuel constant characters jstring_length ss in
    if jstring_length == s.length
    then (if (match_string fuel constant characters s).0 then some s else rest)
    else rest

unfoldable pub find_matching_unicode_string :
    ℕ → Constant → (ℕ → ℕ) → List Interned → Option Interned
find_matching_unicode_string fuel constant characters [] = none
find_matching_unicode_string fuel constant characters (s ∷ ss) =
    let rest = find_matching_unicode_string fuel constant characters ss in
    let matched : Bool × ℕ = match_string fuel constant characters s in
    if matched.0
    then (if matched.1 == s.length
        then some s
        else find_with_length fuel constant characters (matched.1) ss)
    else rest

-- The instance that `instantiateInternedString` makes, and its characters. The object and its array are
-- allocated at the addresses of `allocated`, or not.
unfoldable pub instantiate_interned_string :
    Option (ℕ × ℕ) → Constant → ℕ → (ℕ → ℕ) → Option (Interned × (ℕ → ℕ))
instantiate_interned_string none constant utf8_length characters = none
instantiate_interned_string (some (instance_at, values)) constant utf8_length characters =
    let unicode_length : ℕ =
      get_unicode_length constant.is_signed constant.bytes constant.start utf8_length in
    some (
      record { instance_at = instance_at; values = values; offset = 0; length = unicode_length },
      fill_characters unicode_length constant.is_signed constant.bytes constant.start values
          characters,
    )

-- The end of `internString`: the new instance comes first in its list.
unfoldable pub enter_string :
    ℕ
    → InternTable
    → (ℕ → ℕ)
    → Option (Interned × (ℕ → ℕ))
    → Option Interned × InternTable × (ℕ → ℕ)
enter_string index table characters none = (none, table, characters)
enter_string index table characters (some (s, filled)) = (
  some s,
  record table {
    entries = update table.entries index (s ∷ table.entries index);
    count = (table.count + 1) % 65536;
  },
  filled,
)

unfoldable pub found_or_entered :
    Option (ℕ × ℕ)
    → Constant
    → ℕ
    → ℕ
    → InternTable
    → (ℕ → ℕ)
    → Option Interned
    → Option Interned × InternTable × (ℕ → ℕ)
found_or_entered allocated constant utf8_length index table characters (some s) =
    (some s, table, characters)
found_or_entered allocated constant utf8_length index table characters none =
    enter_string index table characters
      (instantiate_interned_string allocated constant utf8_length characters)

-- `internString` of the `utf8_length` bytes at `start`: the instance, or `none` for an error, the table and
-- the characters.
unfoldable pub intern_string :
    Option (ℕ × ℕ)
    → Bool
    → (ℕ → ℕ)
    → ℕ
    → ℕ
    → InternTable
    → (ℕ → ℕ)
    → Option Interned × InternTable × (ℕ → ℕ)
intern_string allocated is_signed bytes start utf8_length table characters =
    let constant : Constant = record {
      is_signed = is_signed;
      bytes = bytes;
      start = start;
      end = start + utf8_length;
    } in
    let index : ℕ =
      get_string_hash is_signed (text_at bytes start utf8_length) % table.entry_count in
    found_or_entered allocated constant utf8_length index table characters
      (find_matching_unicode_string utf8_length constant characters (table.entries index))
