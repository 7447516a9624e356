-- ===== src/Strings/Encoding.antt =====
-- The modified UTF-8 of the class file format, and one character of it as jvm/src/string/javaString.c reads it.
use mjvmk.Base.{
  ℕ, suc, ◌+◌, ◌*◌, ◌/◌, ◌%◌, ◌<◌, ◌≤◌, ◌≡◌, refl, ap, true, false, ◌||◌, ◌==◌, ltb, leb,
  if◌then◌else◌, bit_and, List, [], ◌∷◌, ◌++◌, length, arith, byte_mask_lem, Bool-cases, inl, inr,
  ◌⊎◌,
}
use mjvmk.LinkedList.Chain.{has}
use mjvmk.Strings.Utf8.{
  starts_two, starts_three, is_continuation, get_unicode_char_from_utf8_char, char_length,
  verify_from,
}

-- The bytes of a character and of a text.
unfoldable pub encode : ℕ → List ℕ
encode c =
    if (c == 0) || leb 128 c
    then (if ltb c 2048
        then (192 + c / 64) ∷ (128 + c % 64) ∷ []
        else (224 + c / 4096) ∷ (128 + c / 64 % 64) ∷ (128 + c % 64) ∷ [])
    else c ∷ []

unfoldable pub encode_all : List ℕ → List ℕ
encode_all [] = []
encode_all (c ∷ cs) = encode c ++ encode_all cs

-- The memory at an address has these bytes.
abbrev pub Holds : (ℕ → ℕ) → ℕ → List ℕ → Type 0
Holds bytes p [] = p ≡ p
Holds bytes p (x ∷ xs) = (bytes p ≡ x) × Holds bytes (p + 1) xs

-- Every character is a UINT16.
abbrev pub IsText : List ℕ → Type 0
IsText cs = (c : ℕ) → has c cs ≡ true → c < 65536

pub Holds-append :
    (bytes : ℕ → ℕ) (p : ℕ) (xs ys : List ℕ)
    → Holds bytes p (xs ++ ys)
    → Holds bytes p xs × Holds bytes (p + length xs) ys
Holds-append bytes p [] ys h = (refl, rw (at_start p) h)
  where
    at_start : (p : ℕ) → p + 0 ≡ p
    at_start p = omega arith
Holds-append bytes p (x ∷ xs) ys h =
    let rest = Holds-append bytes (p + 1) xs ys h.1 in
    let at : p + suc (length xs) ≡ p + 1 + length xs = omega arith in
    ((h.0, rest.0), rw at (rest.1))

continuation_lem : (x : ℕ) → x < 256 → is_continuation x ≡ (x / 64 == 2)
continuation_lem x l = ground (arith, byte_mask_lem x l)

abbrev pub Reads : (ℕ → ℕ) → ℕ → ℕ → ℕ → Type 0
Reads bytes p c n =
    (get_unicode_char_from_utf8_char false bytes p ≡ (c, n)) × (char_length false bytes p ≡ n)

module _ (bytes : ℕ → ℕ) (p c : ℕ) where
  char_one : bytes p ≡ c → c < 128 → Reads bytes p c 1
  unfolding get_unicode_char_from_utf8_char char_length
  char_one a l =
      let two : starts_two false c ≡ false = ground (arith, l) in
      let three : starts_three false c ≡ false = ground (arith, l) in
      (rw (a, two, three) refl, rw (a, two, three) refl)

  char_two : bytes p ≡ 192 + c / 64 → bytes (p + 1) ≡ 128 + c % 64 → c < 2048 → Reads bytes p c 2
  unfolding get_unicode_char_from_utf8_char char_length
  char_two a b l =
      let two : starts_two false (192 + c / 64) ≡ true = ground (arith, l) in
      let next : is_continuation (128 + c % 64) ≡ true =
        ground (arith, continuation_lem (128 + c % 64) (omega arith)) in
      let high = byte_mask_lem (192 + c / 64) (omega (arith, l)) in
      let low = byte_mask_lem (128 + c % 64) (omega arith) in
      let joined : bit_and (192 + c / 64) 31 * 64 + bit_and (128 + c % 64) 63 ≡ c =
        omega (arith, high.2, low.1, l) in
      (rw (a, b, two, next) (ap (λ x. (x, 2)) joined), rw (a, b, two, next) refl)

  char_three :
      bytes p ≡ 224 + c / 4096
      → bytes (p + 1) ≡ 128 + c / 64 % 64
      → bytes (p + 2) ≡ 128 + c % 64
      → c < 65536
      → Reads bytes p c 3
  unfolding get_unicode_char_from_utf8_char char_length
  char_three a b d l =
      let two : starts_two false (224 + c / 4096) ≡ false = ground (arith, l) in
      let three : starts_three false (224 + c / 4096) ≡ true = ground (arith, l) in
      let next : is_continuation (128 + c / 64 % 64) ≡ true =
        ground (arith, continuation_lem (128 + c / 64 % 64) (omega arith)) in
      let last : is_continuation (128 + c % 64) ≡ true =
        ground (arith, continuation_lem (128 + c % 64) (omega arith)) in
      let high = byte_mask_lem (224 + c / 4096) (omega (arith, l)) in
      let middle = byte_mask_lem (128 + c / 64 % 64) (omega arith) in
      let low = byte_mask_lem (128 + c % 64) (omega arith) in
      let joined : (bit_and (224 + c / 4096) 15 * 64 + bit_and (128 + c / 64 % 64) 63) * 64
            + bit_and (128 + c % 64) 63
          ≡ c =
        omega (arith, high.3, middle.1, low.1, l) in
      (
        rw (a, b, d, two, three, next, last) (ap (λ x. (x, 3)) joined),
        rw (a, b, d, two, three, next, last) refl,
      )

-- The three shapes of a character's bytes.
pub encode-cases :
    (c : ℕ)
    → ((0 < c) × (c < 128) × (encode c ≡ c ∷ []))
      ⊎ ((c < 2048) × (encode c ≡ (192 + c / 64) ∷ (128 + c % 64) ∷ []))
      ⊎ ((2048 ≤ c) × (encode c ≡ (224 + c / 4096) ∷ (128 + c / 64 % 64) ∷ (128 + c % 64) ∷ []))
unfolding encode
encode-cases c = elim (Bool-cases ((c == 0) || leb 128 c)) [
  | inl long ↦ elim (Bool-cases (ltb c 2048)) [
    | inl l ↦ inr (inl (ground (arith, l), rw (long, l) refl))
    | inr n ↦ inr (inr (ground (arith, n), rw (long, n) refl))
  ]
  | inr one ↦ inl (ground (arith, one), ground (arith, one), rw one refl)
]

module _ (bytes : ℕ → ℕ) (p c : ℕ) (small : c < 65536) where
  pub decode-encode : Holds bytes p (encode c) → Reads bytes p c (length (encode c))
  decode-encode h = elim (encode-cases c) [
    | inl (pos, l, e) ↦
        let held : Holds bytes p (c ∷ []) = rw e at h in rw e (char_one bytes p c (held.0) l)
    | inr (inl (l, e)) ↦
        let held : Holds bytes p ((192 + c / 64) ∷ (128 + c % 64) ∷ []) = rw e at h in
        rw e (char_two bytes p c (held.0) (held.1.0) l)
    | inr (inr (l, e)) ↦
        let held : Holds bytes p ((224 + c / 4096) ∷ (128 + c / 64 % 64) ∷ (128 + c % 64) ∷ []) =
          rw e at h in
        let at : p + 1 + 1 ≡ p + 2 = omega arith in
        rw e (char_three bytes p c (held.0) (held.1.0) (rw at at (held.1.1.0)) small)
  ]

  -- The verification goes on behind the character.
  pub verify-encode :
      (fuel end : ℕ)
      → Holds bytes p (encode c)
      → p + length (encode c) ≤ end
      → verify_from (suc fuel) bytes end p ≡ verify_from fuel bytes end (p + length (encode c))
  unfolding verify_from
  verify-encode fuel end h l = elim (encode-cases c) [
    | inl (pos, small, e) ↦
        let held : Holds bytes p (c ∷ []) = rw e at h in
        let inside : p + 1 ≤ end = rw e at l in rw e (ground (arith, held.0, pos, small, inside))
    | inr (inl (small, e)) ↦
        let held : Holds bytes p ((192 + c / 64) ∷ (128 + c % 64) ∷ []) = rw e at h in
        let inside : p + 2 ≤ end = rw e at l in
        let next : is_continuation (128 + c % 64) ≡ true =
          ground (arith, continuation_lem (128 + c % 64) (omega arith)) in
        let follows : is_continuation (bytes (p + 1)) ≡ true = rw (held.1.0) next in
        rw e (ground (arith, held.0, follows, small, inside))
    | inr (inr (large, e)) ↦
        let held : Holds bytes p ((224 + c / 4096) ∷ (128 + c / 64 % 64) ∷ (128 + c % 64) ∷ []) =
          rw e at h in
        let inside : p + 3 ≤ end = rw e at l in
        let at : p + 1 + 1 ≡ p + 2 = omega arith in
        let third : bytes (p + 2) ≡ 128 + c % 64 = rw at at (held.1.1.0) in
        let next : is_continuation (128 + c / 64 % 64) ≡ true =
          ground (arith, continuation_lem (128 + c / 64 % 64) (omega arith)) in
        let last : is_continuation (128 + c % 64) ≡ true =
          ground (arith, continuation_lem (128 + c % 64) (omega arith)) in
        let follows : is_continuation (bytes (p + 1)) ≡ true = rw (held.1.0) next in
        let closes : is_continuation (bytes (p + 2)) ≡ true = rw third last in
        rw e (ground (arith, held.0, follows, closes, large, small, inside))
  ]

pub encode-pos : (c : ℕ) → 0 < length (encode c)
encode-pos c = elim (encode-cases c) [
  | inl (a, b, e) ↦ rw e (omega arith)
  | inr (inl (a, e)) ↦ rw e (omega arith)
  | inr (inr (a, e)) ↦ rw e (omega arith)
]
