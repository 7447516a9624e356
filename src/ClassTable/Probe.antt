-- ===== src/ClassTable/Probe.antt =====
-- The search loop of jvm/src/class/table.c: its end, and the searches after a slot is reserved.
use mathlib.Core.Option
use mjvmk.Base.{
  ℕ, zero, suc, ◌+◌, ◌%◌, ◌^◌, ◌<◌, ◌≡◌, ◌≢◌, ◌⊎◌, inl, inr, Bool, true, false, Option, none, some,
  ◌==◌, arith, refl, Bool-cases, update, update_self, update_ne, ltb, ltb→lt, not_ltb→le,
  mod_unique, ==_iff, ==_refl, not_==→ne, ne→not_==, some_inj, none-ne-some, subst, sym, ap, ◌∙◌,
}
use mjvmk.ClassTable.{
  ClassEntry, ClassTable, Found, success, no_class_def_found, class_table_full, referenced,
  is_inexistent, find_class_table_index, entry_from, get_hash_index, find_class,
}

-- The index after `i` in a table of `n` entries.
abbrev pub next_index : ℕ → ℕ → ℕ
next_index n i = (i + 1) % 2 ^ 16 % n

next_index-cases :
    (n i : ℕ)
    → n < 2 ^ 16
    → i < n
    → ((i + 1 < n) × (next_index n i ≡ i + 1)) ⊎ ((i + 1 ≡ n) × (next_index n i ≡ 0))
next_index-cases n i small h = elim (Bool-cases (ltb (i + 1) n)) [
  | inl b ↦
      let more : i + 1 < n = ltb→lt _ _ b in
      inl (more, mod_unique ((i + 1) % 2 ^ 16) n 0 (i + 1) (omega arith) more)
  | inr b ↦
      let last : i + 1 ≡ n = omega (arith, not_ltb→le _ _ b) in
      inr (last, mod_unique ((i + 1) % 2 ^ 16) n 1 0 (omega (arith, last)) (omega arith))
]

module _ (es : ℕ → ClassEntry) (key n h : ℕ) where
  -- One step of the loop, by the slot.
  pub step-vacant :
      (fuel i : ℕ)
      → is_inexistent (es i).status ≡ true
      → find_class_table_index (suc fuel) es key n h i ≡ some (no_class_def_found i)
  unfolding find_class_table_index
  step-vacant fuel i e = rw e refl

  pub step-hit :
      (fuel i : ℕ)
      → is_inexistent (es i).status ≡ false
      → (es i).key ≡ key
      → find_class_table_index (suc fuel) es key n h i ≡ some (success i)
  unfolding find_class_table_index
  step-hit fuel i e k = rw e (rw k (rw (==_refl key) refl))

  pub step-round :
      (fuel i : ℕ)
      → is_inexistent (es i).status ≡ false
      → (es i).key ≢ key
      → next_index n i ≡ h
      → find_class_table_index (suc fuel) es key n h i ≡ some class_table_full
  unfolding find_class_table_index
  step-round fuel i e k r = rw e (rw (ne→not_== _ key k) (rw r (rw (==_refl h) refl)))

  pub step-next :
      (fuel i : ℕ)
      → is_inexistent (es i).status ≡ false
      → (es i).key ≢ key
      → next_index n i ≢ h
      → find_class_table_index (suc fuel) es key n h i
        ≡ find_class_table_index fuel es key n h (next_index n i)
  unfolding find_class_table_index
  step-next fuel i e k r = rw e (rw (ne→not_== _ key k) (rw (ne→not_== _ h r) refl))

-- After `k` steps from the index `h` the loop is at the index `i`.
unfoldable pub IsAfter : ℕ → ℕ → ℕ → ℕ → Type 0
IsAfter n h k i = (i ≡ h + k) ⊎ (i + n ≡ h + k)

pub IsAfter-next :
    (n h k i : ℕ)
    → n < 2 ^ 16
    → h < n
    → i < n
    → k < n
    → IsAfter n h k i
    → (next_index n i < n) × IsAfter n h (k + 1) (next_index n i)
unfolding IsAfter
IsAfter-next n h k i small hh hi hk a = elim (next_index-cases n i small hi) [
  | inl (more, e) ↦ rw e (more, ground (arith, a))
  | inr (last, e) ↦ rw e (omega arith, ground (arith, a, last))
]

IsAfter-round : (n h i : ℕ) → h < n → i < n → IsAfter n h n i → i ≡ h
unfolding IsAfter
IsAfter-round n h i hh hi a = ground (arith, a)

loop-terminates :
    (es : ℕ → ClassEntry) (key n h : ℕ)
    → n < 2 ^ 16
    → h < n
    → (fuel k i : ℕ) → i < n
    → fuel + k ≡ n
    → IsAfter n h k i
    → (0 < k → i ≢ h)
    → (r : Found) × (find_class_table_index fuel es key n h i ≡ some r)
loop-terminates es key n h small hh zero k i hi total after fresh =
    let round : k ≡ n = omega (arith, total) in
    absurd (
      fresh (omega (arith, total))
        (IsAfter-round n h i hh hi (subst (λ j. IsAfter n h j i) round after)))
loop-terminates es key n h small hh (suc fuel) k i hi total after fresh =
    elim (Bool-cases (is_inexistent (es i).status)) [
      | inl e ↦ (no_class_def_found i, step-vacant es key n h fuel i e)
      | inr e ↦ elim (Bool-cases ((es i).key == key)) [
        | inl c ↦ (success i, step-hit es key n h fuel i e ((==_iff _ key).0 c))
        | inr c ↦ elim (Bool-cases (next_index n i == h)) [
          | inl r ↦ (
            class_table_full,
            step-round es key n h fuel i e (not_==→ne _ key c) ((==_iff _ h).0 r),
          )
          | inr r ↦
              let there = IsAfter-next n h k i small hh hi (omega (arith, total)) after in
              let rest =
                loop-terminates es key n h small hh fuel (k + 1) (next_index n i) there.0
                  (omega (arith, total)) there.1 (λ _. not_==→ne _ h r) in
              (rest.0, step-next es key n h fuel i e (not_==→ne _ key c) (not_==→ne _ h r) ∙ rest.1)
        ]
      ]
    ]

-- The search from an index of a table of less than 2 ^ 16 entries comes to an end within one round.
pub find_class-terminates :
    (t : ClassTable) (key i : ℕ)
    → t.size < 2 ^ 16
    → i < t.size
    → (r : Found) × (find_class t key i ≡ some r)
unfolding find_class IsAfter
find_class-terminates t key i small h =
    loop-terminates t.entries key t.size i small h t.size 0 i h (omega arith) (inl (omega arith))
      (λ z. absurd (omega (arith, z)))

-- The result of the search with the entry where it succeeds, which is what `classIsInTableGeneric` gives.
abbrev pub entry_of : Found → Option ℕ
entry_of (success i) = some i
entry_of (no_class_def_found i) = none
entry_of class_table_full = none

-- `classIsInTableGeneric` and `findClassTableIndex` search in the same way: on the same fuel, indices and
-- table, the entry of the one is that of the other, or a null pointer where the other fails.
pub entry_from-find :
    (fuel : ℕ) (es : ℕ → ClassEntry) (key n h i : ℕ)
    → n < 2 ^ 16
    → 0 < n
    → entry_from fuel es key n h i ≡ Option.map entry_of (find_class_table_index fuel es key n h i)
unfolding entry_from find_class_table_index get_hash_index
entry_from-find zero es key n h i small pos = refl
entry_from-find (suc fuel) es key n h i small pos =
    let same : (i + 1) % 2 ^ 16 % n % 2 ^ 16 ≡ next_index n i = omega arith in
    elim (Bool-cases (is_inexistent (es i).status)) [
      | inl e ↦ rw (e, entry_from, find_class_table_index) refl
      | inr e ↦ elim (Bool-cases ((es i).key == key)) [
        | inl c ↦ rw (e, entry_from, find_class_table_index) (rw c refl)
        | inr c ↦ elim (Bool-cases (next_index n i == h)) [
          | inl r ↦ rw (e, entry_from, find_class_table_index) (rw c (rw same (rw r refl)))
          | inr r ↦
              rw (e, entry_from, find_class_table_index)
                (rw c (rw same (rw r (entry_from-find fuel es key n h _ small pos))))
        ]
      ]
    ]

not_success : (i j : ℕ) → Path (Option Found) (some (no_class_def_found i)) (some (success j)) → ⊥
not_success i j e = none-ne-some (some_inj (ap (Option.map entry_of) e))

not_success_full : (j : ℕ) → Path (Option Found) (some class_table_full) (some (success j)) → ⊥
not_success_full j e = none-ne-some (some_inj (ap (Option.map entry_of) e))

abbrev vacant_of : Found → ℕ
vacant_of (no_class_def_found i) = i
vacant_of _ = 0

abbrev is_full : Found → Option Bool
is_full class_table_full = none
is_full _ = some true

module _ (es : ℕ → ClassEntry) (key n h : ℕ) (v k : ℕ)
    (vacant : is_inexistent (es v).status ≡ true) where
  -- The entries with the slot `v` taken by the key `k`.
  abbrev pub taken : ℕ → ClassEntry
  taken = update es v (record { key = k; status = referenced })

  taken-other : (i : ℕ) → is_inexistent (es i).status ≡ false → taken i ≡ es i
  taken-other i e = update_ne es v i _ (λ same. ground (arith, vacant, e, same))

  status : (i : ℕ) → is_inexistent (es i).status ≡ false → is_inexistent (taken i).status ≡ false
  status i e = ap (λ x. is_inexistent x.status) (taken-other i e) ∙ e

  key_of : (i : ℕ) → is_inexistent (es i).status ≡ false → (taken i).key ≡ (es i).key
  key_of i e = ap (λ x. x.key) (taken-other i e)

  -- A key that the search finds, it finds after the vacant slot is taken.
  pub find-taken :
      (fuel i j : ℕ)
      → find_class_table_index fuel es key n h i ≡ some (success j)
      → find_class_table_index fuel taken key n h i ≡ some (success j)
  unfolding find_class_table_index
  find-taken zero i j e = absurd (none-ne-some e)
  find-taken (suc fuel) i j e = elim (Bool-cases (is_inexistent (es i).status)) [
    | inl x ↦ absurd (not_success i j (sym (step-vacant es key n h fuel i x) ∙ e))
    | inr x ↦ elim (Bool-cases ((es i).key == key)) [
      | inl c ↦
          step-hit taken key n h fuel i (status i x) (key_of i x ∙ (==_iff _ key).0 c)
          ∙ sym (step-hit es key n h fuel i x ((==_iff _ key).0 c))
          ∙ e
      | inr c ↦ elim (Bool-cases (next_index n i == h)) [
        | inl r ↦ absurd (
            not_success_full j
              (sym (step-round es key n h fuel i x (not_==→ne _ key c) ((==_iff _ h).0 r)) ∙ e))
        | inr r ↦
            step-next taken key n h fuel i (status i x)
              (λ q. not_==→ne _ key c (sym (key_of i x) ∙ q)) (not_==→ne _ h r)
            ∙ find-taken fuel (next_index n i) j
                (sym (step-next es key n h fuel i x (not_==→ne _ key c) (not_==→ne _ h r)) ∙ e)
      ]
    ]
  ]

-- Where the search ends without the key, the slot is not in use.
pub find-vacant :
    (es : ℕ → ClassEntry) (key n h v : ℕ) (fuel i : ℕ)
    → find_class_table_index fuel es key n h i ≡ some (no_class_def_found v)
    → is_inexistent (es v).status ≡ true
unfolding find_class_table_index
find-vacant es key n h v zero i e = absurd (none-ne-some e)
find-vacant es key n h v (suc fuel) i e = elim (Bool-cases (is_inexistent (es i).status)) [
  | inl x ↦
      let same : i ≡ v = ap vacant_of (some_inj (sym (step-vacant es key n h fuel i x) ∙ e)) in
      subst (λ j. is_inexistent (es j).status ≡ true) same x
  | inr x ↦ elim (Bool-cases ((es i).key == key)) [
    | inl c ↦ absurd (not_success v i (sym e ∙ step-hit es key n h fuel i x ((==_iff _ key).0 c)))
    | inr c ↦ elim (Bool-cases (next_index n i == h)) [
      | inl r ↦
          let full =
            sym e ∙ step-round es key n h fuel i x (not_==→ne _ key c) ((==_iff _ h).0 r) in
          absurd (none-ne-some (some_inj (ap (Option.map is_full) (sym full))))
      | inr r ↦
          find-vacant es key n h v fuel (next_index n i)
            (sym (step-next es key n h fuel i x (not_==→ne _ key c) (not_==→ne _ h r)) ∙ e)
    ]
  ]
]

-- The key that takes the vacant slot that its search ended at is found there.
module _ (es : ℕ → ClassEntry) (key n h : ℕ) (v : ℕ)
    (vacant : is_inexistent (es v).status ≡ true) where
  abbrev pub own : ℕ → ClassEntry
  own = taken es key n h v key vacant

  own-hit : (fuel : ℕ) → find_class_table_index (suc fuel) own key n h v ≡ some (success v)
  own-hit fuel =
      let there = update_self es v (record { key = key; status = referenced }) in
      step-hit own key n h fuel v (ap (λ x. is_inexistent x.status) there) (ap (λ x. x.key) there)

  pub find-own :
      (fuel i : ℕ)
      → find_class_table_index fuel es key n h i ≡ some (no_class_def_found v)
      → find_class_table_index fuel own key n h i ≡ some (success v)
  unfolding find_class_table_index
  find-own zero i e = absurd (none-ne-some e)
  find-own (suc fuel) i e = elim (Bool-cases (is_inexistent (es i).status)) [
    | inl x ↦
        let same : i ≡ v = ap vacant_of (some_inj (sym (step-vacant es key n h fuel i x) ∙ e)) in
        subst (λ j. find_class_table_index (suc fuel) own key n h j ≡ some (success v)) (sym same)
          (own-hit fuel)
    | inr x ↦ elim (Bool-cases ((es i).key == key)) [
      | inl c ↦ absurd (not_success v i (sym e ∙ step-hit es key n h fuel i x ((==_iff _ key).0 c)))
      | inr c ↦ elim (Bool-cases (next_index n i == h)) [
        | inl r ↦
            let full =
              sym e ∙ step-round es key n h fuel i x (not_==→ne _ key c) ((==_iff _ h).0 r) in
            absurd (none-ne-some (some_inj (ap (Option.map is_full) (sym full))))
        | inr r ↦
            step-next own key n h fuel i (status es key n h v key vacant i x)
              (λ q. not_==→ne _ key c (sym (key_of es key n h v key vacant i x) ∙ q))
              (not_==→ne _ h r)
            ∙ find-own fuel (next_index n i)
                (sym (step-next es key n h fuel i x (not_==→ne _ key c) (not_==→ne _ h r)) ∙ e)
      ]
    ]
  ]
