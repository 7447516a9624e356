-- ===== src/Strings/Interned.antt =====
-- The search for an interned string of jvm/src/string/stringPool.c against a plain one.
use mjvmk.Base.{
  ℕ, zero, suc, ◌+◌, ◌%◌, ◌<◌, ◌≡◌, refl, ap, ◌∙◌, Bool, true, false, ◌&&◌, Option, none, some,
  List, [], ◌∷◌, ◌==◌, ltb, if◌then◌else◌, length, arith, Bool-cases, inl, inr,
}
use mjvmk.Strings.{same_text}
use mjvmk.Strings.Names.{text_at}
use mjvmk.Strings.Utf8.{get_unicode_char_from_utf8_char}
use mjvmk.Strings.Intern.{
  Interned, Constant, match_from, match_string, find_with_length, find_matching_unicode_string,
}

-- The characters of a constant from an address on.
unfoldable pub decode_from : ℕ → Constant → ℕ → List ℕ
decode_from zero constant p = []
decode_from (suc fuel) constant p =
    let read : ℕ × ℕ = get_unicode_char_from_utf8_char constant.is_signed constant.bytes p in
    let rest = decode_from fuel constant (p + read.1) in
    if ltb p constant.end then read.0 ∷ rest else []

-- A Java string has the characters of the constant.
abbrev pub has_text : ℕ → Constant → (ℕ → ℕ) → Interned → Bool
has_text fuel constant characters s =
    same_text (decode_from fuel constant constant.start)
      (text_at characters (s.values + s.offset) s.length)

-- The first string that has them.
unfoldable pub first_with_text : ℕ → Constant → (ℕ → ℕ) → List Interned → Option Interned
first_with_text fuel constant characters [] = none
first_with_text fuel constant characters (s ∷ ss) =
    let rest = first_with_text fuel constant characters ss in
    if has_text fuel constant characters s then some s else rest

length-text_at : (f : ℕ → ℕ) (p n : ℕ) → length (text_at f p n) ≡ n
length-text_at f p zero = refl
length-text_at f p (suc n) = ap suc (length-text_at f (p + 1) n)

same_text-length : (xs ys : List ℕ) → (length xs == length ys) ≡ false → same_text xs ys ≡ false
same_text-length [] [] n = absurd (ground (arith, n))
same_text-length [] (y ∷ ys) n = refl
same_text-length (x ∷ xs) [] n = refl
same_text-length (x ∷ xs) (y ∷ ys) n =
    let rest = same_text-length xs ys (ground (arith, n)) in ground (arith, rest)

module _ (constant : Constant) (characters : ℕ → ℕ) where
  match_lem :
      (fuel p unicode count : ℕ)
      → count + length (decode_from fuel constant p) < 65536
      → ((match_from fuel constant characters p unicode count).0
          ≡ same_text
              (decode_from fuel constant p)
              (text_at characters unicode (length (decode_from fuel constant p))))
        × ((match_from fuel constant characters p unicode count).0 ≡ true
            → (match_from fuel constant characters p unicode count).1
              ≡ count + length (decode_from fuel constant p))
  unfolding match_from decode_from
  match_lem zero p unicode count room = (refl, λ m. omega arith)
  match_lem (suc fuel) p unicode count room =
      let read = get_unicode_char_from_utf8_char constant.is_signed constant.bytes p in
      elim (Bool-cases (ltb p constant.end)) [
        | inr over ↦ rw over (refl, λ m. omega arith)
        | inl inside ↦
            let more : count + suc (length (decode_from fuel constant (p + read.1))) < 65536 =
              rw inside at room in
            let next : (count + 1) % 65536 ≡ count + 1 = omega (arith, more) in
            let ih = match_lem fuel (p + read.1) (unicode + 1) (count + 1) (omega (arith, more)) in
            elim (Bool-cases (read.0 == characters unicode)) [
              | inl e ↦ rw (inside, e, next) (ih.0, λ m. ih.1 m ∙ omega arith)
              | inr n ↦ rw (inside, n) (refl, λ m. absurd (ground (arith, m)))
            ]
      ]

  module _ (fuel : ℕ) (room : length (decode_from fuel constant constant.start) < 65536) where
    abbrev size : ℕ
    size = length (decode_from fuel constant constant.start)

    test_lem :
        (s : Interned)
        → has_text fuel constant characters s
          ≡ ((match_string fuel constant characters s).0 && (size == s.length))
    unfolding match_string
    test_lem s =
        let matched =
          (match_lem fuel constant.start (s.values + s.offset) 0 (omega (arith, room))).0 in
        elim (Bool-cases (size == s.length)) [
          | inl e ↦ let at : s.length ≡ size = ground (arith, e) in rw at (ground (arith, matched))
          | inr n ↦
              let measured = length-text_at characters (s.values + s.offset) s.length in
              let other =
                same_text-length (decode_from fuel constant constant.start)
                  (text_at characters (s.values + s.offset) s.length) (rw measured n) in
              ground (arith, n, other)
        ]

    size_lem :
        (s : Interned)
        → (match_string fuel constant characters s).0 ≡ true
        → (match_string fuel constant characters s).1 ≡ size
    unfolding match_string
    size_lem s m =
        (match_lem fuel constant.start (s.values + s.offset) 0 (omega (arith, room))).1 m
        ∙ omega arith

    find_with_length_lem :
        (ss : List Interned)
        → find_with_length fuel constant characters size ss
          ≡ first_with_text fuel constant characters ss
    unfolding find_with_length first_with_text
    find_with_length_lem [] = refl
    find_with_length_lem (s ∷ ss) = rw (test_lem s, find_with_length_lem ss) (ground arith)

    -- The search of findMatchingUnicodeString, which compares lengths first once it knows that of a constant
    -- of fewer than 65536 characters, finds the first string of the list that has the constant's text.
    pub find_matching_unicode_string-first :
        (ss : List Interned)
        → find_matching_unicode_string fuel constant characters ss
          ≡ first_with_text fuel constant characters ss
    unfolding find_matching_unicode_string first_with_text
    find_matching_unicode_string-first [] = refl
    find_matching_unicode_string-first (s ∷ ss) =
        let rest = find_matching_unicode_string-first ss in
        elim (Bool-cases (match_string fuel constant characters s).0) [
          | inl m ↦ rw (test_lem s, m, size_lem s m, find_with_length_lem ss) (ground arith)
          | inr n ↦ rw (test_lem s, n, rest) refl
        ]
