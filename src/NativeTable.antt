-- ===== src/NativeTable.antt =====
-- The table of native functions of jvm/src/class/nativeTable.c. Both tables are read and written at an index.
pub mod Registered
mod Tests
use mjvmk.Base.{
  ℕ, zero, suc, ◌+◌, ◌-◌, ◌%◌, Bool, not, Option, none, some, ◌&&◌, ◌==◌, ltb, leb, if◌then◌else◌,
  update,
}
use mjvmk.Memory.Free.{new_table_size}

-- `nativeFunctionLookupStruct`, whose index is that of the entry.
pub record NativeFunctionLookup : Type 0 where
  pub class_key : ℕ
  pub method_key : ℕ
  pub native_function_index : ℕ

-- The variables of nativeTable.c, and how often the current thread has entered the monitor of the table.
pub record NativeTable : Type 0 where
  pub lookup_table : ℕ → NativeFunctionLookup
  pub lookup_size : ℕ
  pub entry_table : ℕ → ℕ
  pub entry_size : ℕ
  pub count : ℕ
  pub entered : ℕ

abbrev pub native_table_block_size : ℕ
native_table_block_size = 64

-- `resizeTable` of a table with `size` entries, where its memory is allocated. 1024 rounds of 64 entries go
-- once through all sizes of a UINT16.
abbrev pub resized : ℕ → ℕ → ℕ
resized required size = new_table_size 1024 native_table_block_size required size

-- `addNativeFunctionLookup`, or `none` where its table cannot grow.
unfoldable pub add_native_function_lookup : Bool → ℕ → ℕ → ℕ → NativeTable → Option NativeTable
add_native_function_lookup allocates class_key method_key index t =
    let grows : Bool = leb t.lookup_size index in
    let size : ℕ = if grows then resized ((index + 1) % 65536) t.lookup_size else t.lookup_size in
    let entry : NativeFunctionLookup = record {
      class_key = class_key;
      method_key = method_key;
      native_function_index = index;
    } in
    if grows && not allocates
    then none
    else some (record t { lookup_size = size; lookup_table = update t.lookup_table index entry })

-- The cast of `nativeFunctionIndex + 1` to INT8, passed on as a UINT16.
unfoldable pub int8_to_uint16 : ℕ → ℕ
int8_to_uint16 n = let low : ℕ = n % 256 in if ltb low 128 then low else low + 65280

-- `addNativeFunctionEntry`, or `none` where its table cannot grow. Its index is an INT16 that is not negative.
unfoldable pub add_native_function_entry : Bool → ℕ → ℕ → NativeTable → Option NativeTable
add_native_function_entry allocates index function t =
    let grows : Bool = leb t.entry_size index in
    let size : ℕ =
      if grows then resized (int8_to_uint16 (index + 1)) t.entry_size else t.entry_size in
    if grows && not allocates
    then none
    else some (record t { entry_size = size; entry_table = update t.entry_table index function })

-- What `addNativeFunction` does after its two calls: each error returns with the monitor entered.
unfoldable pub entry_added : ℕ → NativeTable → Option NativeTable → Option ℕ × NativeTable
entry_added index before none = (none, before)
entry_added index before (some t) =
    (some index, record t { count = (index + 1) % 65536; entered = t.entered - 1 })

unfoldable pub lookup_added :
    Bool → ℕ → ℕ → NativeTable → Option NativeTable → Option ℕ × NativeTable
lookup_added allocates index function before none = (none, before)
lookup_added allocates index function before (some t) =
    entry_added index t (add_native_function_entry allocates index function t)

-- `addNativeFunction`: the index, or `none` for an error, and the table. The two flags say whether
-- resizeTable gets the memory that it may need for each of the tables.
unfoldable pub add_native_function : Bool → Bool → ℕ → ℕ → ℕ → NativeTable → Option ℕ × NativeTable
add_native_function allocates_lookup allocates_entry class_key method_key function t =
    let t₁ : NativeTable = record t { entered = t.entered + 1 } in
    lookup_added allocates_entry t.count function t₁
      (add_native_function_lookup allocates_lookup class_key method_key t.count t₁)

-- The loop of `getNativeFunctionIndex` over the `remaining` entries from `i` on.
unfoldable pub index_from : ℕ → ℕ → ℕ → ℕ → NativeTable → Option ℕ
index_from zero i class_key method_key t = none
index_from (suc remaining) i class_key method_key t =
    let rest = index_from remaining (i + 1) class_key method_key t in
    if ((t.lookup_table i).class_key == class_key) && ((t.lookup_table i).method_key == method_key)
    then some i
    else rest

unfoldable pub get_native_function_index : ℕ → ℕ → NativeTable → Option ℕ
get_native_function_index class_key method_key t = index_from t.count 0 class_key method_key t
