-- ===== src/ClassTable.antt =====
-- The class table of jvm/src/class/table.c, an open hash table in an array of entries, with the
-- structures of jvm/src/elements/base.h. An entry is named by its index.
pub mod Probe
pub mod Full
pub mod Table
pub mod Keep
mod Tests
use mathlib.Core.Option
use mjvmk.Base.{
  ℕ, zero, suc, ◌+◌, ◌%◌, ◌^◌, Bool, true, false, Option, none, some, ◌==◌, if◌then◌else◌, update,
}

pub data ClassStatus : Type 0 where
  in_error inexistent referenced loaded prepared : ClassStatus

-- The status is a number in the source: `status != CLASS_STATUS_INEXISTENT`.
abbrev pub is_inexistent : ClassStatus → Bool
is_inexistent inexistent = true
is_inexistent _ = false

-- `status < CLASS_STATUS_LOADED`.
abbrev pub is_below_loaded : ClassStatus → Bool
is_below_loaded loaded = false
is_below_loaded prepared = false
is_below_loaded _ = true

pub record ClassEntry : Type 0 where
  pub key : ℕ
  pub status : ClassStatus

pub record ClassTable : Type 0 where
  pub size : ℕ
  pub count : ℕ
  pub entries : ℕ → ClassEntry

-- `initializeClassTable`, with the memory that the table takes: all its bytes are zero.
unfoldable pub initialize_class_table : ClassTable
initialize_class_table = record {
  size = 256;
  count = 0;
  entries = λ i. record { key = 0; status = inexistent };
}

unfoldable pub get_hash_index : ℕ → ℕ → ℕ
get_hash_index key n = key % n % 2 ^ 16

-- What `findClassTableIndex` returns, with `*actualIndex`.
pub data Found : Type 0 where
  success : ℕ → Found
  no_class_def_found : ℕ → Found
  class_table_full : Found

-- The loop of `findClassTableIndex` from the index `i` on, where `h` is `hashedIndex`; `none` is out
-- of fuel.
unfoldable pub find_class_table_index : ℕ → (ℕ → ClassEntry) → ℕ → ℕ → ℕ → ℕ → Option Found
find_class_table_index zero es key n h i = none
find_class_table_index (suc fuel) es key n h i =
    let next : ℕ = (i + 1) % 2 ^ 16 % n in
    let later = find_class_table_index fuel es key n h next in
    if is_inexistent (es i).status
    then some (no_class_def_found i)
    else (if (es i).key == key
        then some (success i)
        else (if next == h then some class_table_full else later))

-- The loop of `classIsInTableGeneric`: the entry of the key, or a null pointer.
unfoldable pub entry_from : ℕ → (ℕ → ClassEntry) → ℕ → ℕ → ℕ → ℕ → Option (Option ℕ)
entry_from zero es key n h i = none
entry_from (suc fuel) es key n h i =
    let next : ℕ = get_hash_index ((i + 1) % 2 ^ 16) n in
    let later = entry_from fuel es key n h next in
    if is_inexistent (es i).status
    then some none
    else (if (es i).key == key then some (some i) else (if next == h then some none else later))

unfoldable pub class_is_in_table : ClassTable → ℕ → Option (Option ℕ)
class_is_in_table t key =
    let h : ℕ = get_hash_index key t.size in entry_from t.size t.entries key t.size h h

-- The search from the index `i`, with fuel for one round of the table.
unfoldable pub find_class : ClassTable → ℕ → ℕ → Option Found
find_class t key i = find_class_table_index t.size t.entries key t.size i i

-- The slot is reserved: the key, the status and the count. The rest of the entry stays as it is.
unfoldable pub reserve : ℕ → ℕ → ClassTable → ClassTable
reserve i key t = record t {
  count = (t.count + 1) % 2 ^ 16;
  entries = update t.entries i (record { key = key; status = referenced });
}

-- The second search of `getClassInTableGeneric`, in the critical region, and what follows it: the
-- entry, or a null pointer where the table is full.
unfoldable pub reserve_in_critical : ClassTable → ℕ → Option Found → Option (Option ℕ × ClassTable)
reserve_in_critical t key none = none
reserve_in_critical t key (some (success i)) = some (some i, t)
reserve_in_critical t key (some class_table_full) = some (none, t)
reserve_in_critical t key (some (no_class_def_found i)) = some (some i, reserve i key t)

-- `getClassInTableGeneric`: the first search is in the table `before`, the second one in the
-- table `now` that other threads may have made of it.
unfoldable pub after_first_search : ClassTable → ℕ → Option Found → Option (Option ℕ × ClassTable)
after_first_search now key none = none
after_first_search now key (some (success i)) = some (some i, now)
after_first_search now key (some class_table_full) = some (none, now)
after_first_search now key (some (no_class_def_found i)) =
    reserve_in_critical now key (find_class now key i)

unfoldable pub get_class_in_table : ClassTable → ClassTable → ℕ → Option (Option ℕ × ClassTable)
get_class_in_table before now key =
    after_first_search now key (find_class before key (get_hash_index key before.size))

-- `getClassDefInTable`, with the entry for its class definition: a key that is not in the table gets
-- an entry.
unfoldable pub entry_with_def : Option ℕ × ClassTable → Option ℕ × ClassTable
entry_with_def (none, t) = (none, t)
entry_with_def (some i, t) = (if is_below_loaded (t.entries i).status then none else some i, t)

unfoldable pub get_class_def_in_table : ClassTable → ClassTable → ℕ → Option (Option ℕ × ClassTable)
get_class_def_in_table before now key =
    Option.map entry_with_def (get_class_in_table before now key)
