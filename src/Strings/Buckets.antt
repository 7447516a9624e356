-- ===== src/Strings/Buckets.antt =====
-- The lists of entries of the pool of jvm/src/string/stringPool.c: the keys of a list grow towards its
-- front, in steps of the table's size.
use mjvmk.Base.{
  ℕ, ◌+◌, ◌%◌, ◌<◌, ◌≤◌, ◌≡◌, refl, subst, ◌∙◌, Bool, true, false, some, List, [], ◌∷◌, ◌==◌, arith,
  Bool-cases, inl, inr, some_inj, none-ne-some,
}
use native.Mathlib.Nat.{add-mod_left, mod-eq_of_lt}
use mjvmk.Strings.{Entry, same_text}
use mjvmk.Strings.Pool.{get_string_hash, find_by_chars, find_by_key, last_key}

-- The list of the index `i` in a table of `n` indices.
abbrev pub IsBucket : Bool → ℕ → ℕ → List Entry → Type 0
IsBucket is_signed n i [] = i < n
IsBucket is_signed n i (e ∷ es) =
    (e.name_key ≡ n + last_key i es)
    × (e.name_key < 65536)
    × (get_string_hash is_signed e.string % n ≡ i)
    × IsBucket is_signed n i es

pub same_text-eq : (xs ys : List ℕ) → same_text xs ys ≡ true → xs ≡ ys
same_text-eq [] [] h = refl
same_text-eq [] (y ∷ ys) h = absurd (ground (arith, h))
same_text-eq (x ∷ xs) [] h = absurd (ground (arith, h))
same_text-eq (x ∷ xs) (y ∷ ys) h =
    let heads : x ≡ y = ground (arith, h) in rw (heads, same_text-eq xs ys (ground (arith, h))) refl

pub same_text_refl : (xs : List ℕ) → same_text xs xs ≡ true
same_text_refl [] = refl
same_text_refl (x ∷ xs) = ground (arith, same_text_refl xs)

module _ (is_signed : Bool) (n i : ℕ) where
  pub index-lt : (es : List Entry) → IsBucket is_signed n i es → i < n
  index-lt [] b = b
  index-lt (e ∷ es) b = index-lt es b.3

  -- Every key of the list stands for its index.
  pub last_key-mod : (es : List Entry) → IsBucket is_signed n i es → last_key i es % n ≡ i
  last_key-mod [] b = mod-eq_of_lt b
  last_key-mod (e ∷ es) b = rw (b.0) (add-mod_left n (last_key i es) ∙ last_key-mod es b.3)

  pub find_by_key-le :
      (es : List Entry) (key : ℕ) (s : List ℕ)
      → IsBucket is_signed n i es
      → find_by_key key es ≡ some s
      → key ≤ last_key i es
  unfolding find_by_key
  find_by_key-le [] key s b f = absurd (none-ne-some f)
  find_by_key-le (e ∷ es) key s b f = elim (Bool-cases (key == e.name_key)) [
    | inl h ↦ ground (arith, h)
    | inr h ↦ ground (arith, b.0, find_by_key-le es key s b.3 (rw h at f))
  ]

  -- What a search by the characters finds has these characters, and a key by which it is found.
  pub find_by_chars-found :
      (es : List Entry) (string : List ℕ) (e : Entry)
      → IsBucket is_signed n i es
      → find_by_chars string es ≡ some e
      → (e.string ≡ string) × (find_by_key e.name_key es ≡ some string) × (e.name_key % n ≡ i)
  unfolding find_by_chars find_by_key
  find_by_chars-found [] string e b f = absurd (none-ne-some f)
  find_by_chars-found (d ∷ es) string e b f = elim (Bool-cases (same_text d.string string)) [
    | inl h ↦
        let text : d.string ≡ string = same_text-eq d.string string h in
        subst
          (λ x.
            (x.string ≡ string)
            × (find_by_key x.name_key (d ∷ es) ≡ some string)
            × (x.name_key % n ≡ i))
          (some_inj (rw h at f)) (text, ground (arith, text), last_key-mod (d ∷ es) b)
    | inr h ↦
        let found = find_by_chars-found es string e b.3 (rw h at f) in
        let older = find_by_key-le es e.name_key string b.3 (found.1) in
        let ne : (e.name_key == d.name_key) ≡ false = ground (arith, older, b.0, index-lt es b.3) in
        (found.0, rw ne (found.1), found.2)
  ]
