-- ===== src/Strings/ClassNames.antt =====
-- What `parseClassName` and the package keys of jvm/src/string/stringPool.c and jvm/src/elements/keys.h keep of
-- a class name.
use mjvmk.Base.{
  ℕ, zero, suc, ◌+◌, ◌-◌, ◌*◌, ◌/◌, ◌%◌, ◌<◌, ◌≤◌, ◌≡◌, ◌≢◌, ◌⊎◌, inl, inr, Bool, true, false, not,
  ◌==◌, ltb, if◌then◌else◌, bit_and, bit_or, arith, Bool-cases, bit_and_2047, bit_and_2048,
  bit_and_61440, bit_or_2048, bit_or-eq-add_left,
}
use mjvmk.Strings.Names.{
  slash, package_length, parse_class_name, add_array_depth_to_package_key, get_array_depth,
  get_package_string_key, is_primitive_array_package_key, array_package_key,
}

-- The prefix ends with the last slash.
package_length_lem :
    (bytes : ℕ → ℕ) (p n : ℕ)
    → (package_length bytes p n ≤ n)
      × (0 < package_length bytes p n → bytes (p + (package_length bytes p n - 1)) ≡ slash)
      × ((i : ℕ) → package_length bytes p n ≤ i → i < n → bytes (p + i) ≢ slash)
unfolding package_length
package_length_lem bytes p zero =
    (omega arith, λ l. absurd (omega (arith, l)), λ i a b. absurd (omega (arith, b)))
package_length_lem bytes p (suc n) =
    let ih = package_length_lem bytes p n in
    elim (Bool-cases (bytes (p + n) == slash)) [
      | inl e ↦ rw e (omega arith, λ l. ground (arith, e), λ i a b. absurd (omega (arith, a, b)))
      | inr ne ↦ rw ne (omega (arith, ih.0), ih.1, λ i a b. last i a b ne (ih.2 i a))
    ]
  where
    last :
        (i : ℕ)
        → package_length bytes p n ≤ i
        → i < suc n
        → (bytes (p + n) == slash) ≡ false
        → (i < n → bytes (p + i) ≢ slash)
        → bytes (p + i) ≢ slash
    last i a b ne ih = elim (Bool-cases (ltb i n)) [
      | inl l ↦ ih (ground (arith, l))
      | inr o ↦ let at : i ≡ n = ground (arith, o, b) in rw at (λ e. ground (arith, e, ne))
    ]

-- parseClassName splits a full name at its last slash: the name runs from behind that slash to the
-- end and has no slash, and the package is what precedes it; a full name without a slash is all
-- name, with no package. The package's address is that of the full name where the package is not
-- empty, and NULL where it is.
pub parse_class_name-splits :
    (bytes : ℕ → ℕ) (full_name length : ℕ)
    → ((parse_class_name bytes full_name length).name
          + (parse_class_name bytes full_name length).name_length
        ≡ full_name + length)
      × ((i : ℕ)
          → i < (parse_class_name bytes full_name length).name_length
          → bytes ((parse_class_name bytes full_name length).name + i) ≢ slash)
      × (((bytes (full_name + (parse_class_name bytes full_name length).package_name_length)
              ≡ slash)
            × ((parse_class_name bytes full_name length).name
                ≡ full_name + (parse_class_name bytes full_name length).package_name_length + 1))
          ⊎ (((parse_class_name bytes full_name length).package_name_length ≡ 0)
              × ((parse_class_name bytes full_name length).name ≡ full_name)))
      × (0 < (parse_class_name bytes full_name length).package_name_length
          → (parse_class_name bytes full_name length).package_name ≡ full_name)
      × ((parse_class_name bytes full_name length).package_name_length ≡ 0
          → (parse_class_name bytes full_name length).package_name ≡ 0)
unfolding parse_class_name
parse_class_name-splits bytes full_name length =
    let prefix = package_length bytes full_name length in
    let known = package_length_lem bytes full_name length in
    (
      omega (arith, known.0),
      λ i l.
          let at : full_name + prefix + i ≡ full_name + (prefix + i) = omega arith in
          rw at (known.2 (prefix + i) (omega arith) (omega (arith, l, known.0))),
      elim (Bool-cases (ltb 0 prefix)) [
        | inl some_slash ↦
            let shorter : (if ltb 1 prefix then prefix - 1 else 0) ≡ prefix - 1 = ground arith in
            rw shorter (
              inl (known.1 (positive prefix some_slash), omega (arith, positive prefix some_slash)))
        | inr no_slash ↦ inr (ground (arith, no_slash), ground (arith, no_slash))
      ],
      λ l. ground (arith, l),
      λ e. ground (arith, e),
    )
  where
    positive : (n : ℕ) → ltb 0 n ≡ true → 0 < n
    positive n l = ground (arith, l)

-- The parts of a key by their places.
places :
    (v key bit depth : ℕ)
    → v ≡ key + bit * 2048 + depth * 4096
    → key < 2048
    → bit < 2
    → depth < 16
    → (bit_and v 61440 / 4096 ≡ depth) × (bit_and v 2047 ≡ key) × (bit_and v 2048 ≡ bit * 2048)
places v key bit depth e small one shallow = (
  omega (arith, bit_and_61440 v, e, small, one, shallow),
  omega (arith, bit_and_2047 v, e, small, one, shallow),
  omega (arith, bit_and_2048 v, e, small, one, shallow),
)

-- The package key of a class whose package has a key below 2048 gives back this key and the array depth, up
-- to 15; of an array class it also tells whether the elements are primitive.
pub array_package_key-parts :
    (depth : ℕ) (is_primitive : Bool) (key : ℕ)
    → depth < 16
    → key < 2048
    → (get_array_depth (array_package_key depth is_primitive key) ≡ depth)
      × (get_package_string_key (array_package_key depth is_primitive key) ≡ key)
      × (0 < depth
          → is_primitive_array_package_key (array_package_key depth is_primitive key)
            ≡ is_primitive)
unfolding array_package_key add_array_depth_to_package_key get_array_depth get_package_string_key
    is_primitive_array_package_key
array_package_key-parts depth is_primitive key shallow small = elim (Bool-cases (depth == 0)) [
  | inl e ↦
      let none_deep : depth ≡ 0 = ground (arith, e) in
      let at = places key key 0 depth (omega (arith, none_deep)) small (omega arith) shallow in
      rw e (at.0, at.1, λ l. absurd (omega (arith, l, none_deep)))
  | inr n ↦ rw n (array_lem is_primitive)
]
  where
    deep : bit_or key (depth * 4096) % 65536 ≡ key + depth * 4096
    deep = omega (arith, bit_or-eq-add_left 12 depth key (omega (arith, small)), small, shallow)

    array_lem :
        (b : Bool)
        → (bit_and
                (if b
                  then bit_or (bit_or key (depth * 4096) % 65536) 2048
                  else bit_or key (depth * 4096) % 65536)
                61440
              / 4096
            ≡ depth)
          × (bit_and
                (if b
                  then bit_or (bit_or key (depth * 4096) % 65536) 2048
                  else bit_or key (depth * 4096) % 65536)
                2047
              ≡ key)
          × (0 < depth
              → not (
                  bit_and
                    (if b
                      then bit_or (bit_or key (depth * 4096) % 65536) 2048
                      else bit_or key (depth * 4096) % 65536)
                    2048
                  == 0)
                ≡ b)
    array_lem true =
        let whole = bit_or_2048 (key + depth * 4096) (omega (arith, small)) in
        let at =
          places (key + depth * 4096 + 2048) key 1 depth (omega arith) small (omega arith)
            shallow in
        rw (deep, whole) (at.0, at.1, λ l. ground (arith, at.2))
    array_lem false =
        let at =
          places (key + depth * 4096) key 0 depth (omega arith) small (omega arith) shallow in
        rw deep (at.0, at.1, λ l. ground (arith, at.2))
