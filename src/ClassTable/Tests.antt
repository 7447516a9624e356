-- ===== src/ClassTable/Tests.antt =====
-- The theorems about the class table at a table of three entries, two of them with colliding keys.
use mjvmk.Base.{ℕ, zero, suc, ◌<◌, ◌≡◌, false, Option, none, some, ◌==◌, arith, refl, if◌then◌else◌}
use mjvmk.ClassTable.{
  ClassEntry, ClassTable, Found, success, referenced, loaded, inexistent, is_inexistent,
  get_hash_index, find_class, find_class_table_index, entry_from, initialize_class_table,
  get_class_in_table, class_is_in_table, reserve, reserve_in_critical, after_first_search,
  get_class_def_in_table, entry_with_def,
}
use mjvmk.ClassTable.Probe.{find_class-terminates}
use mjvmk.ClassTable.Keep.{get_class_in_table-keeps}
use mjvmk.ClassTable.Table.{
  IsTable, Registered, initialize_class_table-IsTable, get_class_in_table-Registered,
}

find_class-terminates_example : (r : Found) × (find_class initialize_class_table 7 255 ≡ some r)
unfolding initialize_class_table
find_class-terminates_example =
    find_class-terminates initialize_class_table 7 255 (omega arith) (omega arith)

abbrev colliding : ℕ → ClassEntry
colliding i =
    if i == 2
    then record { key = 5; status = loaded }
    else (if i == 0
        then record { key = 8; status = referenced }
        else record { key = 0; status = inexistent })

abbrev small_table : ClassTable
small_table = record { size = 3; count = 2; entries = colliding }

second_key : find_class small_table 8 2 ≡ some (success 0)
unfolding find_class find_class_table_index
second_key = refl

get_class_in_table-Registered_example :
    (result : Option ℕ × ClassTable) × (get_class_in_table initialize_class_table
        initialize_class_table 259
      ≡ some result)
    × Registered 259 result
get_class_in_table-Registered_example =
    get_class_in_table-Registered initialize_class_table 259 initialize_class_table-IsTable

-- A key that is not in the table gets an entry, though no class definition is found for it.
get_class_def_reserves :
    get_class_def_in_table small_table small_table 4 ≡ some (none, reserve 1 4 small_table)
unfolding get_class_def_in_table get_class_in_table after_first_search reserve_in_critical reserve
    find_class find_class_table_index get_hash_index entry_with_def
get_class_def_reserves = refl

small_reach :
    (j : ℕ)
    → j < 3
    → is_inexistent (colliding j).status ≡ false
    → find_class small_table (colliding j).key (get_hash_index (colliding j).key 3)
      ≡ some (success j)
unfolding find_class find_class_table_index get_hash_index
small_reach zero h e = refl
small_reach (suc zero) h e = ground (arith, e)
small_reach (suc (suc zero)) h e = refl
small_reach (suc (suc (suc j))) h e = absurd (omega (arith, h))

small_table-IsTable : IsTable small_table
small_table-IsTable = record { size-pos = omega arith; size-lt = omega arith; reach = small_reach }

get_class_in_table-keeps_example : class_is_in_table (reserve 1 4 small_table) 8 ≡ some (some 0)
unfolding get_class_in_table after_first_search reserve_in_critical reserve find_class
    find_class_table_index get_hash_index class_is_in_table entry_from
get_class_in_table-keeps_example =
    get_class_in_table-keeps small_table 4 8 0 small_table-IsTable refl
      (some 1, reserve 1 4 small_table) refl
