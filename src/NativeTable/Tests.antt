-- ===== src/NativeTable/Tests.antt =====
-- The theorem about the table of native functions at the empty table, and its 129th function.
use mjvmk.Base.{◌≡◌, true, false, refl, arith, inl}
use mjvmk.Memory.Free.{new_table_size}
use mjvmk.NativeTable.{
  NativeTable, add_native_function, add_native_function_lookup, add_native_function_entry,
  lookup_added, entry_added, int8_to_uint16,
}
use mjvmk.NativeTable.Registered.{IsRegistered, add_native_function-IsRegistered}

abbrev empty_table : NativeTable
empty_table = record {
  lookup_table = λ i. record { class_key = 0; method_key = 0; native_function_index = 0 };
  lookup_size = 0;
  entry_table = λ i. 0;
  entry_size = 0;
  count = 0;
  entered = 0;
}

add_native_function-IsRegistered_example :
    IsRegistered 7 8 4096 empty_table (add_native_function true true 7 8 4096 empty_table)
add_native_function-IsRegistered_example =
    add_native_function-IsRegistered 7 8 4096 empty_table (omega arith, omega arith, inl refl)
      (omega arith) true true

-- With 128 functions, both tables are full; the entry table grows to 65472 entries.
abbrev full_table : NativeTable
full_table = record empty_table { lookup_size = 128; entry_size = 128; count = 128 }

full_table-grows :
    ((add_native_function true true 7 8 4096 full_table).1.entry_size ≡ 65472)
    × ((add_native_function true true 7 8 4096 full_table).1.lookup_size ≡ 192)
unfolding add_native_function add_native_function_lookup add_native_function_entry lookup_added
    entry_added int8_to_uint16 new_table_size
full_table-grows = (refl, refl)

-- An error leaves the monitor entered.
full_table-fails : (add_native_function true false 7 8 4096 full_table).1.entered ≡ 1
unfolding add_native_function add_native_function_lookup add_native_function_entry lookup_added
    entry_added int8_to_uint16 new_table_size
full_table-fails = refl
