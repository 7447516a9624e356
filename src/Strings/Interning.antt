-- ===== src/Strings/Interning.antt =====
-- The array that a new interned string of jvm/src/string/stringPool.c is filled with, and interning twice.
use mjvmk.Base.{
  ℕ, zero, suc, ◌+◌, ◌%◌, ◌<◌, ◌≤◌, ◌≡◌, refl, subst, ◌∙◌, Bool, true, Option, none, some, ◌∷◌, ltb,
  update, length, arith, Bool-cases, Option-cases, inl, inr, ==_refl,
}
use mjvmk.Strings.Buckets.{same_text_refl}
use mjvmk.Strings.Pool.{get_string_hash}
use mjvmk.Strings.Names.{text_at}
use mjvmk.Strings.Utf8.{
  starts_two, starts_three, is_continuation, get_unicode_char_from_utf8_char, char_length,
  length_from, get_unicode_length, fill_characters,
}
use mjvmk.Strings.Intern.{
  Interned, InternTable, Constant, find_matching_unicode_string, instantiate_interned_string,
  enter_string, found_or_entered, intern_string,
}
use mjvmk.Strings.Interned.{
  decode_from, has_text, first_with_text, find_matching_unicode_string-first,
}

-- The characters that the array is filled with are those that the search compares.
module _ (is_signed : Bool) (bytes : ℕ → ℕ) (start end : ℕ) where
  abbrev constant : Constant
  constant = record { is_signed = is_signed; bytes = bytes; start = start; end = end }

  read_length_lem :
      (p : ℕ)
      → char_length is_signed bytes p ≡ (get_unicode_char_from_utf8_char is_signed bytes p).1
  unfolding char_length get_unicode_char_from_utf8_char
  read_length_lem p = elim (Bool-cases (starts_two is_signed (bytes p))) [
    | inl two ↦ elim (Bool-cases (is_continuation (bytes (p + 1)))) [
      | inl next ↦ rw (two, next) refl
      | inr end ↦ rw (two, end) refl
    ]
    | inr not_two ↦ elim (Bool-cases (starts_three is_signed (bytes p))) [
      | inr one ↦ rw (not_two, one) refl
      | inl three ↦ elim (Bool-cases (is_continuation (bytes (p + 1)))) [
        | inr end ↦ rw (not_two, three, end) refl
        | inl next ↦ elim (Bool-cases (is_continuation (bytes (p + 2)))) [
          | inl last ↦ rw (not_two, three, next, last) refl
          | inr end ↦ rw (not_two, three, next, end) refl
        ]
      ]
    ]
  ]

  length_from_lem :
      (fuel p total : ℕ)
      → total + length (decode_from fuel constant p) < 65536
      → length_from fuel is_signed bytes end p total ≡ total + length (decode_from fuel constant p)
  unfolding length_from decode_from
  length_from_lem zero p total room = omega arith
  length_from_lem (suc fuel) p total room =
      let read = get_unicode_char_from_utf8_char is_signed bytes p in
      elim (Bool-cases (ltb p end)) [
        | inr over ↦ rw over (omega arith)
        | inl inside ↦
            let more : total + suc (length (decode_from fuel constant (p + read.1))) < 65536 =
              rw inside at room in
            let next : (total + 1) % 65536 ≡ total + 1 = omega (arith, more) in
            let rest = length_from_lem fuel (p + read.1) (total + 1) (omega (arith, more)) in
            rw (inside, read_length_lem p, next) (rest ∙ omega arith)
      ]

  fill-before :
      (remaining p i : ℕ) (values : ℕ → ℕ) (j : ℕ)
      → j < i
      → fill_characters remaining is_signed bytes p i values j ≡ values j
  unfolding fill_characters
  fill-before zero p i values j l = refl
  fill-before (suc remaining) p i values j l =
      let read = get_unicode_char_from_utf8_char is_signed bytes p in
      fill-before remaining (p + read.1) (i + 1) (update values i (read.0)) j (omega (arith, l))
      ∙ ground (arith, l)

  fill_lem :
      (fuel p i : ℕ) (values : ℕ → ℕ)
      → text_at
          (fill_characters (length (decode_from fuel constant p)) is_signed bytes p i values)
          i
          (length (decode_from fuel constant p))
        ≡ decode_from fuel constant p
  unfolding fill_characters decode_from
  fill_lem zero p i values = refl
  fill_lem (suc fuel) p i values =
      let read = get_unicode_char_from_utf8_char is_signed bytes p in
      let remaining = length (decode_from fuel constant (p + read.1)) in
      elim (Bool-cases (ltb p end)) [
        | inr over ↦ rw over refl
        | inl inside ↦
            let first =
              fill-before remaining (p + read.1) (i + 1) (update values i (read.0)) i
                (omega arith) in
            let here : update values i (read.0) i ≡ read.0 = ground arith in
            rw (inside, first, here, fill_lem fuel (p + read.1) (i + 1) (update values i (read.0)))
              refl
      ]

  length-decode_from : (fuel p : ℕ) → length (decode_from fuel constant p) ≤ fuel
  unfolding decode_from
  length-decode_from zero p = omega arith
  length-decode_from (suc fuel) p =
      let read = get_unicode_char_from_utf8_char is_signed bytes p in
      let rest = length-decode_from fuel (p + read.1) in
      elim (Bool-cases (ltb p end)) [
        | inr over ↦ rw over (omega arith)
        | inl inside ↦ rw inside (omega (arith, rest))
      ]

module _ (is_signed : Bool) (bytes : ℕ → ℕ) (start utf8_length : ℕ) (small : utf8_length < 65536)
    (table : InternTable) (characters : ℕ → ℕ) where
  abbrev text : Constant
  text = constant is_signed bytes start (start + utf8_length)

  abbrev home : ℕ
  home = get_string_hash is_signed (text_at bytes start utf8_length) % table.entry_count

  room : length (decode_from utf8_length text start) < 65536
  room = omega (
    arith,
    small,
    length-decode_from is_signed bytes start (start + utf8_length) utf8_length start,
  )

  -- A new instance has the constant's text.
  abbrev unicode_length : ℕ
  unicode_length = get_unicode_length is_signed bytes start utf8_length

  abbrev filled : ℕ → ℕ → ℕ
  filled values = fill_characters unicode_length is_signed bytes start values characters

  abbrev new_string : ℕ → ℕ → Interned
  new_string instance_at values = record {
    instance_at = instance_at;
    values = values;
    offset = 0;
    length = unicode_length;
  }

  unicode_length_lem : unicode_length ≡ length (decode_from utf8_length text start)
  unfolding get_unicode_length
  unicode_length_lem =
      length_from_lem is_signed bytes start (start + utf8_length) utf8_length start 0
        (omega (arith, room))
      ∙ omega arith

  new_lem :
      (instance_at values : ℕ)
      → has_text utf8_length text (filled values) (new_string instance_at values) ≡ true
  new_lem instance_at values =
      let whole =
        fill_lem is_signed bytes start (start + utf8_length) utf8_length start values characters in
      let at : values + 0 ≡ values = omega arith in
      rw (at, unicode_length_lem, whole) (same_text_refl (decode_from utf8_length text start))

  -- The next search finds the instance.
  abbrev IsEntered : Option Interned × InternTable × (ℕ → ℕ) → Type 0
  IsEntered (none, t, c) = t ≡ t
  IsEntered (some s, t, c) =
      (find_matching_unicode_string utf8_length text c (t.entries home) ≡ some s)
      × (t.entry_count ≡ table.entry_count)

  entered_lem :
      (allocated : Option (ℕ × ℕ))
      → IsEntered (
          enter_string home table characters
            (instantiate_interned_string allocated text utf8_length characters))
  unfolding enter_string instantiate_interned_string first_with_text
  entered_lem none = refl
  entered_lem (some (instance_at, values)) =
      let first =
        find_matching_unicode_string-first text (filled values) utf8_length room
          (new_string instance_at values ∷ table.entries home) in
      rw (==_refl home) (first ∙ rw (new_lem instance_at values) refl, refl)

  intern_string-IsEntered :
      (allocated : Option (ℕ × ℕ))
      → IsEntered (intern_string allocated is_signed bytes start utf8_length table characters)
  unfolding intern_string found_or_entered
  intern_string-IsEntered allocated =
      elim (Option-cases
        (find_matching_unicode_string utf8_length text characters (table.entries home))) [
          | inr (s, found) ↦ rw found (found, refl)
          | inl missing ↦ rw missing (entered_lem allocated)
        ]

-- Interning a constant of fewer than 65536 bytes a second time, after it has given an instance, gives the same
-- instance and changes neither the table nor the characters, whatever could be allocated for it.
pub intern_string-twice :
    (is_signed : Bool) (bytes : ℕ → ℕ) (start utf8_length : ℕ)
    → utf8_length < 65536
    → (table : InternTable) (characters : ℕ → ℕ) (allocated later : Option (ℕ × ℕ))
    → (s : Interned) (t : InternTable) (c : ℕ → ℕ)
    → intern_string allocated is_signed bytes start utf8_length table characters ≡ (some s, t, c)
    → intern_string later is_signed bytes start utf8_length t c ≡ (some s, t, c)
unfolding intern_string found_or_entered
intern_string-twice is_signed bytes start utf8_length small table characters allocated later s t c
      e =
    let entered : IsEntered is_signed bytes start utf8_length small table characters
        (some s, t, c) =
      subst (IsEntered is_signed bytes start utf8_length small table characters) e (
        intern_string-IsEntered is_signed bytes start utf8_length small table characters
          allocated) in
    rw (entered.1, entered.0) refl
