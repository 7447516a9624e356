-- ===== src/NativeTable/Registered.antt =====
-- Native functions that are added to the table of jvm/src/class/nativeTable.c and looked up.
use mjvmk.Base.{
  ℕ, zero, suc, ◌+◌, ◌%◌, ◌<◌, ◌≤◌, ◌≡◌, ◌∙◌, refl, sym, ap, subst, leb→le, not_leb→lt, Bool, not,
  Option, none, some, ◌&&◌, ◌==◌, leb, if◌then◌else◌, update, arith, Bool-cases, inl, inr, ◌⊎◌,
  none-ne-some, ==_refl,
}
use mjvmk.NativeTable.{
  NativeFunctionLookup, NativeTable, resized, add_native_function_lookup, int8_to_uint16,
  add_native_function_entry, entry_added, lookup_added, add_native_function, index_from,
  get_native_function_index,
}
use mjvmk.Memory.Free.{new_table_size}
use mjvmk.Memory.Resize.{new_table_size-ends}

-- All entries lie within the tables. The entry table has none of the sizes between 128 and 65472, which the
-- cast to INT8 leaves out.
abbrev pub IsWithin : NativeTable → Type 0
IsWithin t =
    (t.count ≤ t.lookup_size)
    × (t.count ≤ t.entry_size)
    × ((t.entry_size ≡ 0) ⊎ (t.entry_size ≡ 64) ⊎ (t.entry_size ≡ 128) ⊎ (32768 ≤ t.entry_size))

-- Tables that agree below an index.
abbrev Agrees : ℕ → NativeTable → NativeTable → Type 0
Agrees n t u = (j : ℕ) → j < n → u.lookup_table j ≡ t.lookup_table j

index_from-keeps :
    (remaining i class_key method_key found : ℕ) (t u : NativeTable)
    → Agrees (i + remaining) t u
    → index_from remaining i class_key method_key t ≡ some found
    → index_from (suc remaining) i class_key method_key u ≡ some found
unfolding index_from
index_from-keeps zero i c m found t u same f = absurd (none-ne-some f)
index_from-keeps (suc remaining) i c m found t u same f =
    let at : u.lookup_table i ≡ t.lookup_table i = same i (omega arith) in
    elim (Bool-cases
      (((t.lookup_table i).class_key == c) && ((t.lookup_table i).method_key == m))) [
        | inl here ↦ rw (at, here) (rw here at f)
        | inr other ↦
            rw (at, other)
              (index_from-keeps remaining (i + 1) c m found t u (λ j l. same j (omega (arith, l)))
                (rw other at f))
      ]

index_from-new :
    (remaining i class_key method_key : ℕ) (t u : NativeTable)
    → Agrees (i + remaining) t u
    → (u.lookup_table (i + remaining)).class_key ≡ class_key
    → (u.lookup_table (i + remaining)).method_key ≡ method_key
    → index_from remaining i class_key method_key t ≡ none
    → index_from (suc remaining) i class_key method_key u ≡ some (i + remaining)
unfolding index_from
index_from-new zero i c m t u same a b f =
    let at : i + 0 ≡ i = omega arith in
    let first : (u.lookup_table i).class_key ≡ c = rw at at a in
    let second : (u.lookup_table i).method_key ≡ m = rw at at b in
    rw (first, second, ==_refl c, ==_refl m, at) refl
index_from-new (suc remaining) i c m t u same a b f =
    let at : u.lookup_table i ≡ t.lookup_table i = same i (omega arith) in
    let far : i + suc remaining ≡ i + 1 + remaining = omega arith in
    elim (Bool-cases
      (((t.lookup_table i).class_key == c) && ((t.lookup_table i).method_key == m))) [
        | inl here ↦ absurd (ground (arith, rw here at f))
        | inr other ↦
            rw (at, other, far)
              (index_from-new remaining (i + 1) c m t u (λ j l. same j (omega (arith, l)))
                (rw far at a) (rw far at b) (rw other at f))
      ]

-- What a call of addNativeFunction leaves.
abbrev pub IsRegistered : ℕ → ℕ → ℕ → NativeTable → Option ℕ × NativeTable → Type 0
IsRegistered class_key method_key function t (none, u) =
    (u.entered ≡ t.entered + 1) × (u.count ≡ t.count)
IsRegistered class_key method_key function t (some index, u) =
    (index ≡ t.count)
    × (u.entry_table index ≡ function)
    × (get_native_function_index class_key method_key t ≡ none
        → get_native_function_index class_key method_key u ≡ some index)
    × ((c m found : ℕ)
        → get_native_function_index c m t ≡ some found
        → get_native_function_index c m u ≡ some found)
    × ((j : ℕ) → j < index → u.entry_table j ≡ t.entry_table j)
    × (u.entered ≡ t.entered)
    × IsWithin u

-- The entry table grows at three sizes only.
grown :
    (resized (int8_to_uint16 1) 0 ≡ 64)
    × (resized (int8_to_uint16 65) 64 ≡ 128)
    × (resized (int8_to_uint16 129) 128 ≡ 65472)
unfolding int8_to_uint16 new_table_size
grown = (refl, refl, refl)

abbrev IsEntrySize : ℕ → Type 0
IsEntrySize size = (size ≡ 0) ⊎ (size ≡ 64) ⊎ (size ≡ 128) ⊎ (32768 ≤ size)

-- The entry table at its end grows beyond the index.
entry_size_lem :
    (count size : ℕ)
    → IsEntrySize size
    → count < 32767
    → count ≤ size
    → size ≤ count
    → (count + 1 ≤ resized (int8_to_uint16 (count + 1)) size)
      × IsEntrySize (resized (int8_to_uint16 (count + 1)) size)
entry_size_lem count size kind small above below =
    let at : count ≡ size = omega (arith, above, below) in
    elim kind [
      | inl e ↦
          let full : count ≡ 0 = omega (arith, at, e) in
          rw (full, e) (rw (grown.0) (omega arith, inr (inl refl)))
      | inr (inl e) ↦
          let full : count ≡ 64 = omega (arith, at, e) in
          rw (full, e) (rw (grown.1) (omega arith, inr (inr (inl refl))))
      | inr (inr (inl e)) ↦
          let full : count ≡ 128 = omega (arith, at, e) in
          rw (full, e) (rw (grown.2) (omega arith, inr (inr (inr (omega arith)))))
      | inr (inr (inr l)) ↦ absurd (omega (arith, l, at, small))
    ]

lookup_size_lem :
    (count size : ℕ)
    → count < 32767
    → count ≤ size
    → size ≤ count
    → count + 1 ≤ resized ((count + 1) % 65536) size
lookup_size_lem count size small above below =
    let whole : (count + 1) % 65536 ≡ count + 1 = omega (arith, small) in
    let ends =
      new_table_size-ends 1024 64 (count + 1) size (omega arith) (omega (arith, small))
        (omega (arith, above)) in
    rw whole (ends.0)

module _ (class_key method_key function : ℕ) (t : NativeTable) (v : IsWithin t)
    (small : t.count < 32767) where
  lookup_within : (t.count + 1) % 65536 ≤ (
      if leb t.lookup_size t.count
      then resized ((t.count + 1) % 65536) t.lookup_size
      else t.lookup_size)
  lookup_within = elim (Bool-cases (leb t.lookup_size t.count)) [
    | inl full ↦
        let at_end : t.lookup_size ≤ t.count = leb→le _ _ full in
        rw full (omega (arith, small, lookup_size_lem t.count t.lookup_size small (v.0) at_end))
    | inr space ↦ rw space (omega (arith, small, not_leb→lt _ _ space))
  ]

  entry_within :
      ((t.count + 1) % 65536 ≤ (
        if leb t.entry_size t.count
        then resized (int8_to_uint16 (t.count + 1)) t.entry_size
        else t.entry_size))
      × IsEntrySize (
          if leb t.entry_size t.count
          then resized (int8_to_uint16 (t.count + 1)) t.entry_size
          else t.entry_size)
  entry_within = elim (Bool-cases (leb t.entry_size t.count)) [
    | inl full ↦
        let at_end : t.entry_size ≤ t.count = leb→le _ _ full in
        let larger = entry_size_lem t.count t.entry_size (v.2) small (v.1) at_end in
        rw full (omega (arith, small, larger.0), larger.1)
    | inr space ↦ rw space (omega (arith, small, not_leb→lt _ _ space), v.2)
  ]

  module _ (u : NativeTable) (counted : u.count ≡ suc t.count) (same : Agrees t.count t u) where
    same_below : Agrees (0 + t.count) t u
    same_below j l = same j (omega (arith, l))

    found_new :
        (u.lookup_table t.count).class_key ≡ class_key
        → (u.lookup_table t.count).method_key ≡ method_key
        → get_native_function_index class_key method_key t ≡ none
        → get_native_function_index class_key method_key u ≡ some t.count
    unfolding get_native_function_index
    found_new a b missing =
        let at : t.count ≡ 0 + t.count = omega arith in
        subst (λ n. index_from n 0 class_key method_key u ≡ some t.count) (sym counted)
          (index_from-new t.count 0 class_key method_key t u same_below
              (ap (λ k. (u.lookup_table k).class_key) (sym at) ∙ a)
              (ap (λ k. (u.lookup_table k).method_key) (sym at) ∙ b) missing
            ∙ ap some (sym at))

    found_old :
        (c m found : ℕ)
        → get_native_function_index c m t ≡ some found
        → get_native_function_index c m u ≡ some found
    unfolding get_native_function_index
    found_old c m found f =
        subst (λ n. index_from n 0 c m u ≡ some found) (sym counted)
          (index_from-keeps t.count 0 c m found t u same_below f)

  -- From a table whose entries lie within it, with fewer than 32767 functions: addNativeFunction fails and
  -- returns with the monitor still entered once more, or gives the next index, where the function then stands.
  -- The pair of keys is found at that index if it was not found before, every pair that was found before is
  -- found at the same index, where the same function stands, and the entries lie within the tables again.
  pub add_native_function-IsRegistered :
      (allocates_lookup allocates_entry : Bool)
      → IsRegistered class_key method_key function t
          (add_native_function allocates_lookup allocates_entry class_key method_key function t)
  unfolding add_native_function lookup_added entry_added add_native_function_lookup
      add_native_function_entry
  add_native_function-IsRegistered allocates_lookup allocates_entry =
      elim (Bool-cases (leb t.lookup_size t.count && not allocates_lookup)) [
        | inl fails ↦ rw fails (refl, refl)
        | inr ok ↦ elim (Bool-cases (leb t.entry_size t.count && not allocates_entry)) [
          | inl fails ↦ rw (ok, fails) (refl, refl)
          | inr fine ↦
              let counted : (t.count + 1) % 65536 ≡ suc t.count = omega (arith, small) in
              let changed : (j : ℕ) (e : NativeFunctionLookup)
                  → j < t.count
                  → update t.lookup_table t.count e j ≡ t.lookup_table j =
                λ j e l. ground (arith, l) in
              let written : (e : NativeFunctionLookup)
                  → update t.lookup_table t.count e t.count ≡ e =
                λ e. ground arith in
              rw (ok, fine)
                (
                  refl,
                  ground arith,
                  found_new _ counted (λ j l. changed j _ l) (ap (λ e. e.class_key) (written _))
                      (ap (λ e. e.method_key) (written _)),
                  found_old _ counted (λ j l. changed j _ l),
                  λ j l. ground (arith, l),
                  omega arith,
                  (lookup_within, entry_within.0, entry_within.1),
                )
        ]
      ]
