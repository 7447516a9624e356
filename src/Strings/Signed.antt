-- ===== src/Strings/Signed.antt =====
-- The functions of jvm/src/string/javaString.c where `char` is signed.
use mjvmk.Base.{ℕ, zero, suc, ◌+◌, ◌%◌, ◌<◌, ◌≡◌, refl, ◌∙◌, true, false, ltb, length, arith}
use mjvmk.Strings.Pool.{extend_char}
use mjvmk.Strings.Utf8.{
  starts_two, starts_three, get_unicode_char_from_utf8_char, char_length, length_from,
  get_unicode_length,
}

signed_one :
    (bytes : ℕ → ℕ) (p : ℕ)
    → bytes p < 256
    → (get_unicode_char_from_utf8_char true bytes p ≡ (extend_char true (bytes p), 1))
      × (char_length true bytes p ≡ 1)
unfolding get_unicode_char_from_utf8_char char_length
signed_one bytes p l =
    let two : starts_two true (bytes p) ≡ false = ground (arith, l) in
    let three : starts_three true (bytes p) ≡ false = ground (arith, l) in
    (rw (two, three) refl, rw (two, three) refl)

signed_length :
    (bytes : ℕ → ℕ) (fuel p total : ℕ)
    → ((q : ℕ) → bytes q < 256)
    → total + fuel < 65536
    → length_from fuel true bytes (p + fuel) p total ≡ total + fuel
unfolding length_from
signed_length bytes zero p total small room = omega arith
signed_length bytes (suc fuel) p total small room =
    let inside : ltb p (p + suc fuel) ≡ true = ground arith in
    let count : (total + 1) % 65536 ≡ total + 1 = omega (arith, room) in
    let at : p + suc fuel ≡ p + 1 + fuel = omega arith in
    rw (inside, (signed_one bytes p (small p)).1, count, at)
      (signed_length bytes fuel (p + 1) (total + 1) small (omega (arith, room)) ∙ omega arith)

-- Where `char` is signed, getUnicodeLength counts every byte of a string of fewer than 65536 bytes as one
-- character, and getUnicodeCharFromUTF8Char gives each byte, extended by its sign, as a character of length
-- one: no character of two or three bytes is recognized.
pub get_unicode_length-signed :
    (bytes : ℕ → ℕ) (p length : ℕ)
    → ((q : ℕ) → bytes q < 256)
    → length < 65536
    → (get_unicode_length true bytes p length ≡ length)
      × ((q : ℕ) → get_unicode_char_from_utf8_char true bytes q ≡ (extend_char true (bytes q), 1))
unfolding get_unicode_length
get_unicode_length-signed bytes p length small room = (
  signed_length bytes length p 0 small (omega (arith, room)) ∙ omega arith,
  λ q. (signed_one bytes q (small q)).0,
)
