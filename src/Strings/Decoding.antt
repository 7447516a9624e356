-- ===== src/Strings/Decoding.antt =====
-- A text in modified UTF-8 as the loops of jvm/src/string/javaString.c read it.
use mjvmk.Base.{
  ℕ, zero, suc, ◌+◌, ◌%◌, ◌<◌, ◌≤◌, ◌≡◌, refl, ◌∙◌, true, false, ltb, update, List, [], ◌∷◌, length,
  length-append, get_or, arith,
}
use mjvmk.Strings.Utf8.{
  get_unicode_char_from_utf8_char, length_from, get_unicode_length, verify_from, verify_utf8_string,
  fill_characters,
}
use mjvmk.Strings.Encoding.{
  encode, encode_all, Holds, IsText, Holds-append, Reads, decode-encode, verify-encode, encode-pos,
}

-- A text in memory: its first character, and the rest behind that.
module _ (bytes : ℕ → ℕ) (c : ℕ) (cs : List ℕ) (t : IsText (c ∷ cs)) (p : ℕ)
    (h : Holds bytes p (encode_all (c ∷ cs))) where
  length-encode_all : length (encode_all (c ∷ cs)) ≡ length (encode c) + length (encode_all cs)
  unfolding encode_all
  length-encode_all = length-append (encode c) (encode_all cs)

  first_small : c < 65536
  first_small = t c (ground arith)

  rest-IsText : IsText cs
  rest-IsText d i = t d (ground (arith, i))

  parts : Holds bytes p (encode c) × Holds bytes (p + length (encode c)) (encode_all cs)
  unfolding encode_all
  parts = Holds-append bytes p (encode c) (encode_all cs) h

  first_read : Reads bytes p c (length (encode c))
  first_read = decode-encode bytes p c first_small (parts.0)

module _ (bytes : ℕ → ℕ) (end : ℕ) where
  length_from-encode_all :
      (cs : List ℕ) (fuel p total : ℕ)
      → IsText cs
      → Holds bytes p (encode_all cs)
      → p + length (encode_all cs) ≡ end
      → length (encode_all cs) ≤ fuel
      → total + length cs < 65536
      → length_from fuel false bytes end p total ≡ total + length cs
  unfolding length_from encode_all
  length_from-encode_all [] zero p total t h at enough room = omega arith
  length_from-encode_all [] (suc fuel) p total t h at enough room =
      let over : ltb p end ≡ false = ground (arith, at) in rw over (omega arith)
  length_from-encode_all (c ∷ cs) zero p total t h at enough room =
      absurd (omega (arith, enough, length-encode_all bytes c cs t p h, encode-pos c))
  length_from-encode_all (c ∷ cs) (suc fuel) p total t h at enough room =
      let whole = length-encode_all bytes c cs t p h in
      let read = first_read bytes c cs t p h in
      let inside : ltb p end ≡ true = ground (arith, at, whole, encode-pos c) in
      let count : (total + 1) % 65536 ≡ total + 1 = omega (arith, room) in
      let rest =
        length_from-encode_all cs fuel (p + length (encode c)) (total + 1)
          (rest-IsText bytes c cs t p h) ((parts bytes c cs t p h).1) (omega (arith, at, whole))
          (omega (arith, enough, whole, encode-pos c)) (omega (arith, room)) in
      rw (inside, read.1, count) (rest ∙ omega arith)

  done : (fuel p : ℕ) → end ≤ p → verify_from fuel bytes end p ≡ true
  unfolding verify_from
  done zero p l = refl
  done (suc fuel) p l = ground (arith, l)

  verify_from-encode_all :
      (cs : List ℕ) (fuel p : ℕ)
      → IsText cs
      → Holds bytes p (encode_all cs)
      → p + length (encode_all cs) ≡ end
      → length (encode_all cs) ≤ fuel
      → verify_from fuel bytes end p ≡ true
  unfolding encode_all
  verify_from-encode_all [] zero p t h at enough = done zero p (omega (arith, at))
  verify_from-encode_all [] (suc fuel) p t h at enough = done (suc fuel) p (omega (arith, at))
  verify_from-encode_all (c ∷ cs) zero p t h at enough =
      absurd (omega (arith, enough, length-encode_all bytes c cs t p h, encode-pos c))
  verify_from-encode_all (c ∷ cs) (suc fuel) p t h at enough =
      let whole = length-encode_all bytes c cs t p h in
      verify-encode bytes p c (first_small bytes c cs t p h) fuel end ((parts bytes c cs t p h).0)
        (omega (arith, at, whole))
      ∙ verify_from-encode_all cs fuel (p + length (encode c)) (rest-IsText bytes c cs t p h)
          ((parts bytes c cs t p h).1) (omega (arith, at, whole))
          (omega (arith, enough, whole, encode-pos c))

module _ (bytes : ℕ → ℕ) where
  -- The loop writes no character before its index.
  fill-before :
      (cs : List ℕ) (p i : ℕ) (values : ℕ → ℕ) (j : ℕ)
      → j < i
      → fill_characters (length cs) false bytes p i values j ≡ values j
  unfolding fill_characters
  fill-before [] p i values j l = refl
  fill-before (c ∷ cs) p i values j l =
      let read = get_unicode_char_from_utf8_char false bytes p in
      fill-before cs (p + read.1) (i + 1) (update values i (read.0)) j (omega (arith, l))
      ∙ ground (arith, l)

  fill_characters-encode_all :
      (cs : List ℕ) (p i : ℕ) (values : ℕ → ℕ) (j : ℕ)
      → IsText cs
      → Holds bytes p (encode_all cs)
      → j < length cs
      → fill_characters (length cs) false bytes p i values (i + j) ≡ get_or cs j 0
  unfolding fill_characters encode_all
  fill_characters-encode_all [] p i values j t h l = absurd (omega (arith, l))
  fill_characters-encode_all (c ∷ cs) p i values zero t h l =
      let read = first_read bytes c cs t p h in
      rw (fill_characters, read.0)
        (fill-before cs (p + length (encode c)) (i + 1) (update values i c) (i + 0) (omega arith)
          ∙ ground arith)
  fill_characters-encode_all (c ∷ cs) p i values (suc j) t h l =
      let read = first_read bytes c cs t p h in
      let at : i + suc j ≡ i + 1 + j = omega arith in
      rw (fill_characters, read.0, at)
        (fill_characters-encode_all cs (p + length (encode c)) (i + 1) (update values i c) j
          (rest-IsText bytes c cs t p h) ((parts bytes c cs t p h).1) (omega (arith, l)))

length-le-encode_all : (cs : List ℕ) → length cs ≤ length (encode_all cs)
unfolding encode_all
length-le-encode_all [] = omega arith
length-le-encode_all (c ∷ cs) =
    omega (arith, length-append (encode c) (encode_all cs), length-le-encode_all cs, encode-pos c)

-- A text of characters below 65536 stands at an address in fewer than 65536 bytes of modified UTF-8. Where
-- `char` is unsigned, verifyUTF8String accepts these bytes, getUnicodeLength counts the characters, and the
-- loop of instantiateCharacterArray writes them into the array in their order.
pub fill_characters-encode :
    (cs : List ℕ) (bytes : ℕ → ℕ) (p : ℕ) (values : ℕ → ℕ)
    → IsText cs
    → length (encode_all cs) < 65536
    → Holds bytes p (encode_all cs)
    → (verify_utf8_string bytes p (length (encode_all cs)) ≡ true)
      × (get_unicode_length false bytes p (length (encode_all cs)) ≡ length cs)
      × ((j : ℕ)
          → j < length cs
          → fill_characters (length cs) false bytes p 0 values j ≡ get_or cs j 0)
unfolding verify_utf8_string get_unicode_length
fill_characters-encode cs bytes p values t small h = (
  verify_from-encode_all bytes (p + length (encode_all cs)) cs (length (encode_all cs)) p t h refl
      (omega arith),
  length_from-encode_all bytes (p + length (encode_all cs)) cs (length (encode_all cs)) p 0 t h refl
        (omega arith) (omega (arith, small, length-le-encode_all cs))
      ∙ omega arith,
  λ j l.
      at_zero (fill_characters (length cs) false bytes p 0 values) j
        (fill_characters-encode_all bytes cs p 0 values j t h l),
)
  where
    at_zero : (f : ℕ → ℕ) (j : ℕ) {v : ℕ} → f (0 + j) ≡ v → f j ≡ v
    at_zero f j e = let at : 0 + j ≡ j = omega arith in rw at at e
