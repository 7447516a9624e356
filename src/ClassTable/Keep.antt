-- ===== src/ClassTable/Keep.antt =====
-- The class table of jvm/src/class/table.c: the entries of the keys that a call does not register.
use mathlib.Core.Option
use mjvmk.Base.{ℕ, ◌≡◌, Option, none, some, some_inj, none-ne-some, sym, ap, subst, ◌∙◌}
use mjvmk.ClassTable.{
  ClassTable, Found, success, no_class_def_found, class_table_full, get_hash_index, find_class,
  class_is_in_table, reserve, reserve_in_critical, after_first_search, get_class_in_table,
}
use mjvmk.ClassTable.Probe.{entry_of, find_class-terminates}
use mjvmk.ClassTable.Table.{
  IsTable, hash-lt, reserve-other, reserve-IsTable, class_is_in_table-find, second_search,
  find-is-vacant, reserved,
}

entry_of-success :
    (o : Option Found) (j : ℕ) → Option.map entry_of o ≡ some (some j) → o ≡ some (success j)
entry_of-success none j e = absurd (none-ne-some e)
entry_of-success (some (success i)) j e = ap (λ k. some (success k)) (some_inj (some_inj e))
entry_of-success (some (no_class_def_found i)) j e = absurd (none-ne-some (some_inj e))
entry_of-success (some class_table_full) j e = absurd (none-ne-some (some_inj e))

module _ (t : ClassTable) (key k j : ℕ) (v : IsTable t)
    (there : class_is_in_table t k ≡ some (some j)) where
  searched : find_class t k (get_hash_index k t.size) ≡ some (success j)
  searched = entry_of-success _ j (sym (class_is_in_table-find t k v) ∙ there)

  reserved-keeps :
      (w : ℕ)
      → find_class t key (get_hash_index key t.size) ≡ some (no_class_def_found w)
      → class_is_in_table (reserve w key t) k ≡ some (some j)
  unfolding reserve
  reserved-keeps w e =
      let vacant = find-is-vacant t key w _ e in
      class_is_in_table-find (reserve w key t) k (reserve-IsTable t w key v vacant e)
      ∙ ap (Option.map entry_of) (reserve-other t w key k _ j vacant searched)

  search-keeps :
      (r : Found) (result : Option ℕ × ClassTable)
      → find_class t key (get_hash_index key t.size) ≡ some r
      → after_first_search t key (some r) ≡ some result
      → class_is_in_table result.1 k ≡ some (some j)
  unfolding after_first_search
  search-keeps (success i) result e f =
      subst (λ x. class_is_in_table x.1 k ≡ some (some j)) (some_inj f) there
  search-keeps class_table_full result e f =
      subst (λ x. class_is_in_table x.1 k ≡ some (some j)) (some_inj f) there
  search-keeps (no_class_def_found w) result e f =
      let vacant = find-is-vacant t key w _ e in
      let left =
        sym (reserved t key w)
        ∙ sym (ap (reserve_in_critical t key) (second_search t key w v vacant))
        ∙ f in
      subst (λ x. class_is_in_table x.1 k ≡ some (some j)) (some_inj left) (reserved-keeps w e)

  -- A key that `classIsInTableGeneric` finds in a table in good order, it finds at the same entry after
  -- `getClassInTableGeneric` for any key, with no other thread in between.
  pub get_class_in_table-keeps :
      (result : Option ℕ × ClassTable)
      → get_class_in_table t t key ≡ some result
      → class_is_in_table result.1 k ≡ some (some j)
  unfolding get_class_in_table
  get_class_in_table-keeps result e =
      let first =
        find_class-terminates t key (get_hash_index key t.size) v.size-lt (hash-lt v key) in
      search-keeps first.0 result first.1 (sym (ap (after_first_search t key) first.1) ∙ e)
