-- ===== src/Strings/Keys.antt =====
-- The keys that the pool of jvm/src/string/stringPool.c gives to strings.
use mjvmk.Base.{
  ℕ, ◌+◌, ◌%◌, ◌<◌, ◌≡◌, ◌↔◌, refl, sym, ap, ◌∙◌, Bool, true, false, Option, none, some, List, ◌==◌,
  arith, Bool-cases, Option-cases, inl, inr, some_inj, ==_iff, ==_refl,
}
use native.Mathlib.Nat.{add-mod_left, mod-lt}
use mjvmk.Strings.{Entry, HashTable}
use mjvmk.Strings.Pool.{
  create_string_pool, get_string_hash, find_by_chars, find_by_key, last_key, add_global_utf8_string,
  bucket_of, found_or_added, get_utf8_string_by_chars, get_utf8_string_by_key,
}
use mjvmk.Strings.Buckets.{
  IsBucket, same_text_refl, last_key-mod, find_by_key-le, find_by_chars-found,
}

-- Every list of the table stands at the index of its strings, and its keys count upwards.
abbrev pub IsPool : Bool → HashTable → Type 0
IsPool is_signed table =
    (0 < table.entry_count)
    × ((i : ℕ) → i < table.entry_count → IsBucket is_signed table.entry_count i (table.entries i))

-- The next key of the string's list is a UINT16.
abbrev pub HasRoom : Bool → List ℕ → HashTable → Type 0
HasRoom is_signed string table =
    table.entry_count
      + last_key (get_string_hash is_signed string % table.entry_count)
          (bucket_of is_signed string table)
    < 65536

-- A new pool is well formed.
pub create_string_pool-IsPool :
    (is_signed : Bool) (n : ℕ) → 0 < n → IsPool is_signed (create_string_pool n)
unfolding create_string_pool
create_string_pool-IsPool is_signed n pos = (pos, λ i l. l)

module _ (is_signed : Bool) (string : List ℕ) (table : HashTable) (v : IsPool is_signed table)
    (room : HasRoom is_signed string table) where
  abbrev index : ℕ
  index = get_string_hash is_signed string % table.entry_count

  abbrev added : Entry × HashTable
  added = add_global_utf8_string is_signed string table

  index-lt : index < table.entry_count
  index-lt = mod-lt (get_string_hash is_signed string) (v.0)

  key_lem : added.0.name_key ≡ table.entry_count + last_key index (table.entries index)
  unfolding add_global_utf8_string
  key_lem = omega (arith, room)

  key-mod : added.0.name_key % table.entry_count ≡ index
  key-mod = rw key_lem (
      add-mod_left table.entry_count (last_key index (table.entries index))
      ∙ last_key-mod is_signed table.entry_count index (table.entries index) (v.1 index index-lt))

  pub add_global_utf8_string-IsPool : IsPool is_signed (added.1)
  unfolding add_global_utf8_string
  add_global_utf8_string-IsPool = (
    v.0,
    λ i l. elim (Bool-cases (index == i)) [
      | inl e ↦
          let at : i ≡ index = sym ((==_iff index i).0 e) in
          rw (at, ==_refl index) (key_lem, ground arith, refl, v.1 index index-lt)
      | inr n ↦ rw n (v.1 i l)
    ],
  )

  pub add_global_utf8_string-by_key :
      get_utf8_string_by_key (added.0.name_key) (added.1) ≡ some string
  unfolding add_global_utf8_string get_utf8_string_by_key find_by_key
  add_global_utf8_string-by_key = rw key-mod (ground arith)

  pub add_global_utf8_string-keeps :
      (key : ℕ) (s : List ℕ)
      → get_utf8_string_by_key key table ≡ some s
      → get_utf8_string_by_key key (added.1) ≡ some s
  unfolding add_global_utf8_string get_utf8_string_by_key find_by_key
  add_global_utf8_string-keeps key s f = elim (Bool-cases (index == key % table.entry_count)) [
    | inl e ↦
        let at : key % table.entry_count ≡ index =
          sym ((==_iff index (key % table.entry_count)).0 e) in
        let bucket = v.1 index index-lt in
        let found : find_by_key key (table.entries index) ≡ some s = rw at at f in
        let older =
          find_by_key-le is_signed table.entry_count index (table.entries index) key s bucket
            found in
        let ne : (key == added.0.name_key) ≡ false = ground (arith, older, key_lem, v.0) in
        rw (at, ==_refl index, ne) found
    | inr n ↦ rw n f
  ]

-- What the next search for a string finds.
abbrev search : Bool → List ℕ → HashTable → Option Entry
search is_signed string table = find_by_chars string (bucket_of is_signed string table)

module _ (is_signed : Bool) (string : List ℕ) (table : HashTable) (v : IsPool is_signed table) where
  search-found :
      (e : Entry)
      → search is_signed string table ≡ some e
      → (e.string ≡ string) × (get_utf8_string_by_key e.name_key table ≡ some string)
  unfolding get_utf8_string_by_key
  search-found e f =
      let index = get_string_hash is_signed string % table.entry_count in
      let found =
        find_by_chars-found is_signed table.entry_count index (table.entries index) string e
          (v.1 index (mod-lt (get_string_hash is_signed string) (v.0))) f in
      (found.0, rw (found.2) (found.1))

  search-added :
      search is_signed string (add_global_utf8_string is_signed string table).1
      ≡ some (add_global_utf8_string is_signed string table).0
  unfolding add_global_utf8_string find_by_chars
  search-added =
      rw (==_refl (get_string_hash is_signed string % table.entry_count), same_text_refl string)
        refl

-- A call's result: an entry with the string, found by its key in a well-formed pool, or none.
abbrev pub IsServed : Bool → List ℕ → Option Entry × HashTable → Type 0
IsServed is_signed string (none, after) = IsPool is_signed after
IsServed is_signed string (some e, after) =
    (e.string ≡ string)
    × (get_utf8_string_by_key e.name_key after ≡ some string)
    × IsPool is_signed after

-- A call of getUTF8StringByChars on a well-formed pool gives an entry that has the string and by whose key
-- getUTF8StringByKey finds the string, or fails, and leaves a well-formed pool. The other threads may change
-- the pool between the search and the critical section, if they leave it well formed and the string's list
-- then has a key left.
pub get_utf8_string_by_chars-IsServed :
    (is_signed allocates : Bool) (others : HashTable → HashTable) (string : List ℕ)
    (table : HashTable)
    → IsPool is_signed table
    → IsPool is_signed (others table)
    → HasRoom is_signed string (others table)
    → IsServed is_signed string (get_utf8_string_by_chars is_signed allocates others string table)
unfolding get_utf8_string_by_chars found_or_added add_global_utf8_string
get_utf8_string_by_chars-IsServed is_signed allocates others string table v w room =
    elim (Option-cases (search is_signed string table)) [
      | inl missing ↦ rw missing (added_lem allocates)
      | inr (d, found) ↦
          let served = search-found is_signed string table v d found in
          rw found (served.0, served.1, v)
    ]
  where
    added_lem :
        (allocates : Bool)
        → IsServed is_signed string
            (found_or_added is_signed allocates string table (others table) none)
    added_lem true = (
      refl,
      add_global_utf8_string-by_key is_signed string (others table) w room,
      add_global_utf8_string-IsPool is_signed string (others table) w room,
    )
    added_lem false = w

-- A call's result where no other thread interferes: the next search for the string finds the same entry, and
-- the keys given before still stand for their strings.
abbrev pub IsEntered : Bool → List ℕ → HashTable → Option Entry × HashTable → Type 0
IsEntered is_signed string table (none, after) = after ≡ table
IsEntered is_signed string table (some e, after) =
    (search is_signed string after ≡ some e)
    × (get_utf8_string_by_key e.name_key after ≡ some string)
    × ((key : ℕ) (s : List ℕ)
        → get_utf8_string_by_key key table ≡ some s
        → get_utf8_string_by_key key after ≡ some s)
    × IsPool is_signed after

-- A call of getUTF8StringByChars on a well-formed pool, in whose list for the string there is a key left and
-- which no other thread changes meanwhile, fails without a change, or gives the entry that the next search for
-- the string finds, by whose key the string is found, and keeps what every earlier key stands for.
pub get_utf8_string_by_chars-IsEntered :
    (is_signed allocates : Bool) (string : List ℕ) (table : HashTable)
    → IsPool is_signed table
    → HasRoom is_signed string table
    → IsEntered is_signed string table
        (get_utf8_string_by_chars is_signed allocates (λ t. t) string table)
unfolding get_utf8_string_by_chars found_or_added
get_utf8_string_by_chars-IsEntered is_signed allocates string table v room =
    elim (Option-cases (search is_signed string table)) [
      | inl missing ↦ rw missing (added_lem allocates)
      | inr (d, found) ↦
          let served = search-found is_signed string table v d found in
          rw found (found, served.1, (λ key s f. f), v)
    ]
  where
    added_lem :
        (allocates : Bool)
        → IsEntered is_signed string table
            (found_or_added is_signed allocates string table table none)
    added_lem true = (
      search-added is_signed string table v,
      add_global_utf8_string-by_key is_signed string table v room,
      add_global_utf8_string-keeps is_signed string table v room,
      add_global_utf8_string-IsPool is_signed string table v room,
    )
    added_lem false = refl

found_again :
    (is_signed b : Bool) (x : List ℕ) (t : HashTable) (e d : Entry) (u : HashTable)
    → search is_signed x t ≡ some e
    → get_utf8_string_by_chars is_signed b (λ s. s) x t ≡ (some d, u)
    → some d ≡ some e
unfolding get_utf8_string_by_chars found_or_added
found_again is_signed b x t e d u f g =
    let same : get_utf8_string_by_chars is_signed b (λ s. s) x t ≡ (some e, t) = rw f refl in
    ap (λ r. r.0) (sym g ∙ same)

-- Two strings that are looked up one after the other, in a well-formed pool that has a key left for each and
-- that no other thread changes meanwhile, get the same key exactly if they are the same string.
pub get_utf8_string_by_chars-same_key :
    (is_signed a b : Bool) (x y : List ℕ) (table : HashTable)
    → IsPool is_signed table
    → HasRoom is_signed x table
    → (e d : Entry) (t u : HashTable)
    → get_utf8_string_by_chars is_signed a (λ s. s) x table ≡ (some e, t)
    → HasRoom is_signed y t
    → get_utf8_string_by_chars is_signed b (λ s. s) y t ≡ (some d, u)
    → (e.name_key ≡ d.name_key) ↔ (x ≡ y)
get_utf8_string_by_chars-same_key is_signed a b x y table v room e d t u first room' second =
    let one : IsEntered is_signed x table (some e, t) =
      rw first at (get_utf8_string_by_chars-IsEntered is_signed a x table v room) in
    let two : IsEntered is_signed y t (some d, u) =
      rw second at (get_utf8_string_by_chars-IsEntered is_signed b y t (one.3) room') in
    (
      λ k. some_inj (sym (two.2 e.name_key x (one.1)) ∙ rw k (two.1)),
      λ same.
          ap (λ z. z.name_key)
            (some_inj (sym (found_again is_signed b x t e d u (one.0) (rw (sym same) at second)))),
    )
