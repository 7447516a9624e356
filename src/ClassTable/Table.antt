-- ===== src/ClassTable/Table.antt =====
-- The class table of jvm/src/class/table.c: its invariant, and `getClassInTableGeneric`.
use mathlib.Core.Option
use mjvmk.Base.{
  ℕ, ◌-◌, ◌^◌, ◌<◌, ◌≡◌, true, false, Option, none, some, arith, refl, Bool-cases, inl, inr,
  some_inj, none-ne-some, sym, ap, ◌∙◌, ◌==◌, ==_iff, not_==→ne, update_self, update_ne, subst, ◌≢◌,
}
use mjvmk.ClassTable.{
  ClassTable, Found, success, no_class_def_found, class_table_full, referenced, is_inexistent,
  get_hash_index, find_class, find_class_table_index, class_is_in_table, initialize_class_table,
  reserve, reserve_in_critical, after_first_search, get_class_in_table,
}
use mjvmk.ClassTable.Full.{IsOther, find_class-full}
use mjvmk.ClassTable.Probe.{
  entry_of, entry_from-find, find-taken, find-own, find-vacant, step-vacant, find_class-terminates,
}

-- Every entry in use is where the search for its key ends.
pub record IsTable (t : ClassTable) : Type 0 where
  pub size-pos : 0 < t.size
  pub size-lt : t.size < 2 ^ 16
  pub reach :
      (j : ℕ)
      → j < t.size
      → is_inexistent (t.entries j).status ≡ false
      → find_class t (t.entries j).key (get_hash_index (t.entries j).key t.size) ≡ some (success j)

pub hash-lt : {t : ClassTable} → IsTable t → (key : ℕ) → get_hash_index key t.size < t.size
unfolding get_hash_index
hash-lt {t} v key = omega (arith, v.size-pos, v.size-lt)

-- `initializeClassTable` gives a table in good order.
pub initialize_class_table-IsTable : IsTable initialize_class_table
unfolding initialize_class_table
initialize_class_table-IsTable = record {
  size-pos = omega arith;
  size-lt = omega arith;
  reach = λ j h e. ground (arith, e);
}

-- In a table in good order no two entries in use have the same key.
pub IsTable-unique :
    (t : ClassTable)
    → IsTable t
    → (i j : ℕ) → i < t.size
    → j < t.size
    → is_inexistent (t.entries i).status ≡ false
    → is_inexistent (t.entries j).status ≡ false
    → (t.entries i).key ≡ (t.entries j).key
    → i ≡ j
IsTable-unique t v i j hi hj ui uj same =
    let searched = ap (λ k. find_class t k (get_hash_index k t.size)) same in
    ap index_of (some_inj (sym (v.reach i hi ui) ∙ searched ∙ v.reach j hj uj))
  where
    index_of : Found → ℕ
    index_of (success k) = k
    index_of _ = 0

-- A slot that the search for a key found vacant is reserved for the key: the search for the key then
-- ends there.
reserve-own :
    (t : ClassTable) (v key i : ℕ)
    → is_inexistent (t.entries v).status ≡ true
    → find_class t key i ≡ some (no_class_def_found v)
    → find_class (reserve v key t) key i ≡ some (success v)
unfolding find_class reserve
reserve-own t v key i vacant e = find-own t.entries key t.size i v vacant t.size i e

pub reserve-other :
    (t : ClassTable) (v k key i j : ℕ)
    → is_inexistent (t.entries v).status ≡ true
    → find_class t key i ≡ some (success j)
    → find_class (reserve v k t) key i ≡ some (success j)
unfolding find_class reserve
reserve-other t v k key i j vacant e = find-taken t.entries key t.size i v k vacant t.size i j e

pub reserve-size : (t : ClassTable) (v key : ℕ) → (reserve v key t).size ≡ t.size
unfolding reserve
reserve-size t v key = refl

reserve_self : (t : ClassTable) (v key : ℕ) → ((reserve v key t).entries v).key ≡ key
unfolding reserve
reserve_self t v key =
    ap (λ x. x.key) (update_self t.entries v (record { key = key; status = referenced }))

reserve-ne : (t : ClassTable) (v key j : ℕ) → v ≢ j → (reserve v key t).entries j ≡ t.entries j
unfolding reserve
reserve-ne t v key j other = update_ne t.entries v j _ other

pub reserve-IsTable :
    (t : ClassTable) (v key : ℕ)
    → IsTable t
    → is_inexistent (t.entries v).status ≡ true
    → find_class t key (get_hash_index key t.size) ≡ some (no_class_def_found v)
    → IsTable (reserve v key t)
unfolding reserve
reserve-IsTable t v key w vacant e = record {
  size-pos = rw (reserve-size t v key) w.size-pos;
  size-lt = rw (reserve-size t v key) w.size-lt;
  reach = λ j hj uj. elim (Bool-cases (v == j)) [
    | inl same ↦
        subst
          (λ i.
            find_class (reserve v key t) ((reserve v key t).entries i).key
              (get_hash_index ((reserve v key t).entries i).key (reserve v key t).size)
            ≡ some (success i))
          ((==_iff v j).0 same) (rw (reserve_self t v key) (reserve-own t v key _ vacant e))
    | inr other ↦
        let there = reserve-ne t v key j (not_==→ne v j other) in
        rw (ap (λ x. x.key) there) (
          rw (reserve-size t v key) (
            reserve-other t v key (t.entries j).key _ j vacant (
              w.reach j (subst (λ n. j < n) (reserve-size t v key) hj)
                (sym (ap (λ x. is_inexistent x.status) there) ∙ uj))))
  ];
}

pub class_is_in_table-find :
    (t : ClassTable) (key : ℕ)
    → IsTable t
    → class_is_in_table t key ≡ Option.map entry_of (find_class t key (get_hash_index key t.size))
unfolding class_is_in_table find_class
class_is_in_table-find t key v =
    entry_from-find t.size t.entries key t.size _ _ v.size-lt v.size-pos

pub second_search :
    (t : ClassTable) (key v : ℕ)
    → IsTable t
    → is_inexistent (t.entries v).status ≡ true
    → find_class t key v ≡ some (no_class_def_found v)
unfolding find_class
second_search t key v w vacant =
    subst (λ f. find_class_table_index f t.entries key t.size v v ≡ some (no_class_def_found v))
      (omega (arith, w.size-pos)) (step-vacant t.entries key t.size v (t.size - 1) v vacant)

pub find-is-vacant :
    (t : ClassTable) (key v i : ℕ)
    → find_class t key i ≡ some (no_class_def_found v)
    → is_inexistent (t.entries v).status ≡ true
unfolding find_class
find-is-vacant t key v i e = find-vacant t.entries key t.size i v t.size i e

-- What `getClassInTableGeneric` leaves: a table in good order where `classIsInTableGeneric` finds the
-- entry that was returned, or nothing where there was none; in that case every entry is in use, for another
-- key.
pub record Registered (key : ℕ) (result : Option ℕ × ClassTable) : Type 0 where
  pub in_order : IsTable (result.1)
  pub found : class_is_in_table result.1 key ≡ some result.0
  pub full : result.0 ≡ none → (j : ℕ) → j < result.1.size → IsOther (result.1.entries j) key

pub reserved :
    (t : ClassTable) (key v : ℕ)
    → reserve_in_critical t key (some (no_class_def_found v)) ≡ some (some v, reserve v key t)
unfolding reserve_in_critical
reserved t key v = refl

find_class-Registered :
    (t : ClassTable) (key : ℕ)
    → IsTable t
    → (r : Found) → find_class t key (get_hash_index key t.size) ≡ some r
    → (result : Option ℕ × ClassTable) × (after_first_search t key (some r) ≡ some result)
      × Registered key result
unfolding after_first_search reserve
find_class-Registered t key w (success i) e = (
  (some i, t),
  refl,
  record {
    in_order = w;
    found = class_is_in_table-find t key w ∙ ap (Option.map entry_of) e;
    full = λ nothing. absurd (none-ne-some (sym nothing));
  },
)
find_class-Registered t key w class_table_full e = (
  (none, t),
  refl,
  record {
    in_order = w;
    found = class_is_in_table-find t key w ∙ ap (Option.map entry_of) e;
    full = λ nothing j hj.
        find_class-full t key (get_hash_index key t.size) w.size-lt (hash-lt w key) e j hj;
  },
)
find_class-Registered t key w (no_class_def_found v) e =
    let vacant = find-is-vacant t key v _ e in
    let w' = reserve-IsTable t v key w vacant e in
    (
      (some v, reserve v key t),
      ap (reserve_in_critical t key) (second_search t key v w vacant) ∙ reserved t key v,
      record {
        in_order = w';
        found =
            class_is_in_table-find (reserve v key t) key w'
            ∙ ap (Option.map entry_of) (reserve-own t v key _ vacant e);
        full = λ nothing. absurd (none-ne-some (sym nothing));
      },
    )

-- With no other thread in between, `getClassInTableGeneric` has a result for every key, and it leaves
-- the table in good order; `classIsInTableGeneric` then finds the key at the entry that was returned,
-- or, where no entry was returned, does not find it: every entry of the table is then in use, for another
-- key.
pub get_class_in_table-Registered :
    (t : ClassTable) (key : ℕ)
    → IsTable t
    → (result : Option ℕ × ClassTable) × (get_class_in_table t t key ≡ some result)
      × Registered key result
unfolding get_class_in_table
get_class_in_table-Registered t key w =
    let searched =
      find_class-terminates t key (get_hash_index key t.size) w.size-lt (hash-lt w key) in
    let done = find_class-Registered t key w searched.0 searched.1 in
    (done.0, ap (after_first_search t key) searched.1 ∙ done.1, done.2)
