-- ===== src/ClassTable/Full.antt =====
-- The search of jvm/src/class/table.c that comes back to its start: every entry is in use.
use mjvmk.Base.{
  ℕ, zero, suc, ◌+◌, ◌-◌, ◌^◌, ◌<◌, ◌≡◌, ◌≢◌, false, Option, none, some, ◌==◌, arith, Bool-cases,
  inl, inr, ltb, ltb→lt, not_ltb→le, ==_iff, not_==→ne, some_inj, none-ne-some, refl, subst, sym,
  ap, ◌∙◌,
}
use mjvmk.ClassTable.{
  ClassEntry, ClassTable, Found, success, no_class_def_found, class_table_full, is_inexistent,
  find_class_table_index, find_class,
}
use mjvmk.ClassTable.Probe.{next_index, step-vacant, step-hit, step-next, IsAfter, IsAfter-next}

-- The entry is in use, for another key.
abbrev pub IsOther : ClassEntry → ℕ → Type 0
IsOther e key = (is_inexistent e.status ≡ false) × (e.key ≢ key)

abbrev is_full : Found → Option ℕ
is_full class_table_full = none
is_full _ = some 0

not_full :
    (r : Found) → is_full r ≡ some 0 → Path (Option Found) (some r) (some class_table_full) → ⊥
not_full r other e = none-ne-some (ap is_full (sym (some_inj e)) ∙ other)

same_index : (n h k i j : ℕ) → i < n → j < n → IsAfter n h k i → IsAfter n h k j → i ≡ j
unfolding IsAfter
same_index n h k i j hi hj a b = ground (arith, a, b)

round_length : (n h k : ℕ) → IsAfter n h (k + 1) h → k + 1 ≡ n
unfolding IsAfter
round_length n h k a = ground (arith, a)

-- Every index comes up in a round.
reached : (n h j : ℕ) → h < n → j < n → (e : ℕ) × (e < n) × IsAfter n h e j
unfolding IsAfter
reached n h j hh hj = elim (Bool-cases (ltb j h)) [
  | inl b ↦
      let before : j < h = ltb→lt j h b in
      (j + n - h, omega (arith, before, hh), inr (omega (arith, before, hh)))
  | inr b ↦
      let behind = not_ltb→le j h b in
      (j - h, omega (arith, behind, hj), inl (omega (arith, behind)))
]

module _ (es : ℕ → ClassEntry) (key n h : ℕ) (small : n < 2 ^ 16) (hh : h < n) where
  -- The entries of the first k steps.
  abbrev Seen : ℕ → Type 0
  Seen k = (e j : ℕ) → e < k → j < n → IsAfter n h e j → IsOther (es j) key

  Seen-next : (k i : ℕ) → i < n → IsAfter n h k i → IsOther (es i) key → Seen k → Seen (k + 1)
  Seen-next k i hi after other seen e j less hj a = elim (Bool-cases (ltb e k)) [
    | inl b ↦ seen e j (ltb→lt e k b) hj a
    | inr b ↦
        let last : e ≡ k = omega (arith, not_ltb→le e k b, less) in
        subst (λ x. IsOther (es x) key)
          (same_index n h k i j hi hj after (subst (λ x. IsAfter n h x j) last a)) other
  ]

  full_round :
      (fuel k i : ℕ)
      → i < n
      → fuel + k ≡ n
      → IsAfter n h k i
      → Seen k
      → find_class_table_index fuel es key n h i ≡ some class_table_full
      → Seen n
  unfolding find_class_table_index
  full_round zero k i hi total after seen r = absurd (none-ne-some r)
  full_round (suc fuel) k i hi total after seen r =
      elim (Bool-cases (is_inexistent (es i).status)) [
        | inl e ↦
            absurd
              (not_full (no_class_def_found i) refl (sym (step-vacant es key n h fuel i e) ∙ r))
        | inr e ↦ elim (Bool-cases ((es i).key == key)) [
          | inl c ↦ absurd (
              not_full (success i) refl
                (sym (step-hit es key n h fuel i e ((==_iff _ key).0 c)) ∙ r))
          | inr c ↦
              let apart = not_==→ne _ key c in
              let there = IsAfter-next n h k i small hh hi (omega (arith, total)) after in
              let more = Seen-next k i hi after (e, apart) seen in
              elim (Bool-cases (next_index n i == h)) [
                | inl back ↦
                    let start = (==_iff (next_index n i) h).0 back in
                    subst Seen
                      (round_length n h k (subst (λ x. IsAfter n h (k + 1) x) start (there.1))) more
                | inr on ↦
                    full_round fuel (k + 1) (next_index n i) (there.0) (omega (arith, total))
                      (there.1) more
                      (sym (step-next es key n h fuel i e apart (not_==→ne _ h on)) ∙ r)
              ]
        ]
      ]

-- Where the search finds the table full, every entry is in use, for another key.
pub find_class-full :
    (t : ClassTable) (key h : ℕ)
    → t.size < 2 ^ 16
    → h < t.size
    → find_class t key h ≡ some class_table_full
    → (j : ℕ) → j < t.size
    → IsOther (t.entries j) key
unfolding find_class IsAfter
find_class-full t key h small hh r j hj =
    let at = reached t.size h j hh hj in
    full_round t.entries key t.size h small hh t.size 0 h hh (omega arith) (inl (omega arith))
      (λ e k less. absurd (omega (arith, less))) r (at.0) j (at.1) hj (at.2)
