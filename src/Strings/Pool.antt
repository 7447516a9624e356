-- ===== src/Strings/Pool.antt =====
-- The pool of UTF-8 strings of jvm/src/string/stringPool.c, a hash table, and the keys that stand for the
-- strings. A NameKey and the hash are UINT16.
use mjvmk.Base.{
  ℕ, ◌+◌, ◌*◌, ◌%◌, Bool, Option, none, some, List, [], ◌∷◌, ◌==◌, ltb, if◌then◌else◌, update,
}
use mjvmk.Strings.{Entry, HashTable, same_text}

abbrev pub utf8_string_table_size : ℕ
utf8_string_table_size = 256

abbrev pub intern_string_table_size : ℕ
intern_string_table_size = 64

-- `createStringPool`, where its memory is allocated.
unfoldable pub create_string_pool : ℕ → HashTable
create_string_pool entry_count = record {
  entry_count = entry_count;
  count = 0;
  entries = λ index. [];
}

-- A `char` in the arithmetic of a UINT16: where it is signed, its sign is extended.
abbrev pub extend_char : Bool → ℕ → ℕ
extend_char is_signed c = if is_signed then (if ltb c 128 then c else c + 65280) else c

-- `getStringHash`, from the value of the characters before.
unfoldable pub hash_from : Bool → ℕ → List ℕ → ℕ
hash_from is_signed value [] = value
hash_from is_signed value (c ∷ cs) =
    hash_from is_signed ((value * 37 + extend_char is_signed c) % 65536) cs

abbrev pub get_string_hash : Bool → List ℕ → ℕ
get_string_hash is_signed string = hash_from is_signed 0 string

-- The search of `getUTF8StringByChars` and that of `getUTF8StringByKey` through the list of an index.
unfoldable pub find_by_chars : List ℕ → List Entry → Option Entry
find_by_chars string [] = none
find_by_chars string (e ∷ es) =
    let rest = find_by_chars string es in if same_text e.string string then some e else rest

unfoldable pub find_by_key : ℕ → List Entry → Option (List ℕ)
find_by_key key [] = none
find_by_key key (e ∷ es) =
    let rest = find_by_key key es in if key == e.name_key then some e.string else rest

-- The key that the next entry counts on from: the index, or the first entry's key.
abbrev pub last_key : ℕ → List Entry → ℕ
last_key index [] = index
last_key index (e ∷ es) = e.name_key

-- The critical section of `getUTF8StringByChars`, and `addGlobalUTF8String`.
unfoldable pub add_global_utf8_string : Bool → List ℕ → HashTable → Entry × HashTable
add_global_utf8_string is_signed string table =
    let index : ℕ = get_string_hash is_signed string % table.entry_count in
    let next : List Entry = table.entries index in
    let entry : Entry = record {
      name_key = (table.entry_count + last_key index next) % 65536;
      string = string;
    } in
    (
      entry,
      record table {
        entries = update table.entries index (entry ∷ next);
        count = (table.count + 1) % 65536;
      },
    )

abbrev pub bucket_of : Bool → List ℕ → HashTable → List Entry
bucket_of is_signed string table =
    table.entries (get_string_hash is_signed string % table.entry_count)

-- What `getUTF8StringByChars` does after its search. `table` is the pool as the other threads have left
-- it when the critical section begins.
unfoldable pub found_or_added :
    Bool → Bool → List ℕ → HashTable → HashTable → Option Entry → Option Entry × HashTable
found_or_added is_signed allocates string before table (some e) = (some e, before)
found_or_added is_signed allocates string before table none =
    let added : Entry × HashTable = add_global_utf8_string is_signed string table in
    if allocates then (some (added.0), added.1) else (none, table)

-- `getUTF8StringByChars`: the entry, or `none` for ERROR_CODE_OUT_OF_MEMORY, and the pool. The search is
-- outside the critical section; `others` is what other threads do between them.
unfoldable pub get_utf8_string_by_chars :
    Bool → Bool → (HashTable → HashTable) → List ℕ → HashTable → Option Entry × HashTable
get_utf8_string_by_chars is_signed allocates others string table =
    found_or_added is_signed allocates string table (others table)
      (find_by_chars string (bucket_of is_signed string table))

unfoldable pub get_utf8_string_by_key : ℕ → HashTable → Option (List ℕ)
get_utf8_string_by_key key table = find_by_key key (table.entries (key % table.entry_count))
