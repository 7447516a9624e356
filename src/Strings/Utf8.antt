-- ===== src/Strings/Utf8.antt =====
-- The conversion of UTF-8 characters of jvm/src/string/javaString.c. Bytes are read at addresses, since the
-- code reads behind a string that ends inside a character. Whether a `char` is signed is the compiler's
-- choice: `is_signed` says it.
use mjvmk.Base.{
  ℕ, zero, suc, ◌+◌, ◌*◌, ◌/◌, ◌%◌, Bool, true, false, ◌&&◌, ◌||◌, ◌==◌, ltb, leb, if◌then◌else◌,
  bit_and, update,
}
use mjvmk.Strings.Pool.{extend_char}

-- `c >> 4` of a `char` as an int: a negative one stays negative, and is given by its 32 bits.
abbrev pub high_bits : Bool → ℕ → ℕ
high_bits is_signed c =
    if is_signed then (if ltb c 128 then c / 16 else c / 16 + 4294967280) else c / 16

-- `case 0x0C` and `case 0x0D`, and `case 0x0E`.
abbrev pub starts_two : Bool → ℕ → Bool
starts_two is_signed c = (high_bits is_signed c == 12) || (high_bits is_signed c == 13)

abbrev pub starts_three : Bool → ℕ → Bool
starts_three is_signed c = high_bits is_signed c == 14

-- `(c2 & 0xC0) == 0x80`.
abbrev pub is_continuation : ℕ → Bool
is_continuation c = bit_and c 192 == 128

-- `getUnicodeCharFromUTF8Char`: the character, a UINT16, and its length.
unfoldable pub get_unicode_char_from_utf8_char : Bool → (ℕ → ℕ) → ℕ → ℕ × ℕ
get_unicode_char_from_utf8_char is_signed bytes p =
    let c : ℕ = bytes p in
    let c2 : ℕ = bytes (p + 1) in
    let c3 : ℕ = bytes (p + 2) in
    if starts_two is_signed c
    then (if is_continuation c2 then (bit_and c 31 * 64 + bit_and c2 63, 2) else (0, 1))
    else if starts_three is_signed c
    then (if is_continuation c2
        then (if is_continuation c3
            then ((bit_and c 15 * 64 + bit_and c2 63) * 64 + bit_and c3 63, 3)
            else (0, 2))
        else (0, 1))
    else (extend_char is_signed c, 1)

-- `charLength` of `getUnicodeLength`.
unfoldable pub char_length : Bool → (ℕ → ℕ) → ℕ → ℕ
char_length is_signed bytes p =
    if starts_two is_signed (bytes p)
    then (if is_continuation (bytes (p + 1)) then 2 else 1)
    else if starts_three is_signed (bytes p)
    then (if is_continuation (bytes (p + 1))
        then (if is_continuation (bytes (p + 2)) then 3 else 2)
        else 1)
    else 1

-- The loop of `getUnicodeLength` from the address `p` up to `end`.
unfoldable pub length_from : ℕ → Bool → (ℕ → ℕ) → ℕ → ℕ → ℕ → ℕ
length_from zero is_signed bytes end p total = total
length_from (suc fuel) is_signed bytes end p total =
    let rest =
      length_from fuel is_signed bytes end (p + char_length is_signed bytes p)
        ((total + 1) % 65536) in
    if ltb p end then rest else total

unfoldable pub get_unicode_length : Bool → (ℕ → ℕ) → ℕ → ℕ → ℕ
get_unicode_length is_signed bytes p length = length_from length is_signed bytes (p + length) p 0

-- The loop of `verifyUTF8String`, whose characters are unsigned. The two bytes behind `0xE` are read as one
-- UINT16.
unfoldable pub verify_from : ℕ → (ℕ → ℕ) → ℕ → ℕ → Bool
verify_from zero bytes end p = true
verify_from (suc fuel) bytes end p =
    let one = verify_from fuel bytes end (p + 1) in
    let two = verify_from fuel bytes end (p + 2) in
    let three = verify_from fuel bytes end (p + 3) in
    let high : ℕ = bytes p / 16 in
    if ltb p end
    then (if bytes p == 0
        then false
        else if (high == 15) || (leb 8 high && ltb high 12)
        then false
        else if high == 14
        then (if ltb (p + 2) end
              && (is_continuation (bytes (p + 1)) && is_continuation (bytes (p + 2)))
            then three
            else false)
        else if (high == 12) || (high == 13)
        then (if ltb (p + 1) end && is_continuation (bytes (p + 1)) then two else false)
        else one)
    else true

unfoldable pub verify_utf8_string : (ℕ → ℕ) → ℕ → ℕ → Bool
verify_utf8_string bytes p length = verify_from length bytes (p + length) p

-- The loop of `instantiateCharacterArray` that writes the character `i` and those after it.
unfoldable pub fill_characters : ℕ → Bool → (ℕ → ℕ) → ℕ → ℕ → (ℕ → ℕ) → ℕ → ℕ
fill_characters zero is_signed bytes p i values = values
fill_characters (suc remaining) is_signed bytes p i values =
    let read : ℕ × ℕ = get_unicode_char_from_utf8_char is_signed bytes p in
    fill_characters remaining is_signed bytes (p + read.1) (i + 1) (update values i (read.0))
