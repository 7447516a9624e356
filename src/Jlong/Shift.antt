-- ===== src/Jlong/Shift.antt =====
-- Shifts of a jlong against products and quotients of 64-bit numbers.
use mjvmk.Base.{
  ℕ, ◌+◌, ◌-◌, ◌*◌, ◌/◌, ◌%◌, ◌^◌, ◌≤◌, ◌<◌, ◌≡◌, inl, inr, refl, sym, ap, ◌∙◌, none, some, arith,
  leb, bit_or, bit_or-eq-add, bit_or-eq-add_left, Bool-cases, leb→le, not_leb→lt, pow-mul-pow-sub,
  pow-pos, pow-add, two_digits-lt, mul-mod-mul, mod_unique, div_unique, div-lt_of_lt-mul,
}
use native.Mathlib.Nat.{div-add-mod', mod-lt, mul_comm, div-div-eq-div-mul, mul-lt-mul_of_pos_right}
use mjvmk.Jlong.{
  Jlong, IsJlong, value, modulus, word, shift_left, unsigned_shift_right, shift_right,
}

-- With `p` the shift, `q * p` is the word: its low `q` part moves up and its high part is carried.
left_digits :
    (p q h h' l l' : ℕ)
    → ((h * q + h') * (q * p) + (l * q + l')) * p
      ≡ h * (q * p * (q * p)) + ((h' * p + l) * (q * p) + l' * p)
left_digits p q h h' l l' = omega arith

right_digits :
    (p q h h' l l' : ℕ)
    → (h * p + h') * (q * p) + (l * p + l') ≡ (h * (q * p) + (l + h' * q)) * p + l'
right_digits p q h h' l l' = omega arith

left_words :
    (p q h l : ℕ)
    → 0 < p
    → 0 < q
    → l < q * p
    → (h * (q * p) + l) * p % (q * p * (q * p)) ≡ (h % q * p + l / q) * (q * p) + l % q * p
left_words p q h l hp hq hl = mod_unique _ _ (h / q) _ expand (
    two_digits-lt (h % q * p + l / q) (l % q * p) (q * p) (q * p)
      (two_digits-lt (h % q) (l / q) q p (mod-lt h hq)
        (div-lt_of_lt-mul l p q hq (omega (arith, mul_comm p q))))
      (mul-lt-mul_of_pos_right (mod-lt l hq) hp))
  where
    expand :
        (h * (q * p) + l) * p
        ≡ h / q * (q * p * (q * p)) + ((h % q * p + l / q) * (q * p) + l % q * p)
    expand =
        ap (λ t. (t * (q * p) + l) * p) (sym (div-add-mod' h q))
        ∙ ap (λ t. ((h / q * q + h % q) * (q * p) + t) * p) (sym (div-add-mod' l q))
        ∙ left_digits p q (h / q) (h % q) (l / q) (l % q)

right_words : (p q h l : ℕ) → 0 < p → (h * (q * p) + l) / p ≡ h / p * (q * p) + (l / p + h % p * q)
right_words p q h l hp = div_unique _ p _ (l % p) expand (mod-lt l hp)
  where
    expand : h * (q * p) + l ≡ (h / p * (q * p) + (l / p + h % p * q)) * p + l % p
    expand =
        ap (λ t. t * (q * p) + l) (sym (div-add-mod' h p))
        ∙ ap (λ t. (h / p * p + h % p) * (q * p) + t) (sym (div-add-mod' l p))
        ∙ right_digits p q (h / p) (h % p) (l / p) (l % p)

module _ (s : ℕ) (small : s < 32) where
  word_factors : 2 ^ (32 - s) * 2 ^ s ≡ word
  word_factors = mul_comm (2 ^ (32 - s)) (2 ^ s) ∙ pow-mul-pow-sub 32 s (omega arith)

  -- A word shifted left keeps its low part.
  shifted_word : (x : ℕ) → x * 2 ^ s % word ≡ x % 2 ^ (32 - s) * 2 ^ s
  shifted_word x =
      ap (λ w. x * 2 ^ s % w) (sym word_factors)
      ∙ mul-mod-mul x (2 ^ s) (2 ^ (32 - s)) (pow-pos s) (pow-pos (32 - s))

  carried-lt : (x : ℕ) → x < word → x / 2 ^ (32 - s) < 2 ^ s
  carried-lt x h =
      div-lt_of_lt-mul x (2 ^ s) (2 ^ (32 - s)) (pow-pos (32 - s))
        (omega (arith, word_factors, mul_comm (2 ^ (32 - s)) (2 ^ s)))

  left_value :
      (h l : ℕ)
      → l < word
      → bit_or (h * 2 ^ s % word) (l / 2 ^ (32 - s)) * word + l * 2 ^ s % word
        ≡ (h * word + l) * 2 ^ s % modulus
  left_value h l hl = omega (arith, joined, shifted_word l, whole)
    where
      joined :
          bit_or (h * 2 ^ s % word) (l / 2 ^ (32 - s)) ≡ h % 2 ^ (32 - s) * 2 ^ s + l / 2 ^ (32 - s)
      joined =
          ap (λ t. bit_or t (l / 2 ^ (32 - s))) (shifted_word h)
          ∙ bit_or-eq-add s (h % 2 ^ (32 - s)) (l / 2 ^ (32 - s)) (carried-lt l hl)

      whole :
          (h * word + l) * 2 ^ s % modulus
          ≡ (h % 2 ^ (32 - s) * 2 ^ s + l / 2 ^ (32 - s)) * word + l % 2 ^ (32 - s) * 2 ^ s
      whole = rw word_factors at (
          left_words (2 ^ s) (2 ^ (32 - s)) h l (pow-pos s) (pow-pos (32 - s))
            (omega (arith, word_factors)))

  shifted_down : (x : ℕ) → x * 2 ^ (32 - s) % word ≡ x % 2 ^ s * 2 ^ (32 - s)
  shifted_down x =
      ap (λ w. x * 2 ^ (32 - s) % w) (sym (pow-mul-pow-sub 32 s (omega arith)))
      ∙ mul-mod-mul x (2 ^ (32 - s)) (2 ^ s) (pow-pos (32 - s)) (pow-pos s)

  right_value :
      (h l : ℕ)
      → l < word
      → h / 2 ^ s * word + bit_or (l / 2 ^ s) (h * 2 ^ (32 - s) % word) ≡ (h * word + l) / 2 ^ s
  right_value h l hl = omega (arith, joined, whole)
    where
      joined : bit_or (l / 2 ^ s) (h * 2 ^ (32 - s) % word) ≡ l / 2 ^ s + h % 2 ^ s * 2 ^ (32 - s)
      joined =
          ap (λ t. bit_or (l / 2 ^ s) t) (shifted_down h)
          ∙ bit_or-eq-add_left (32 - s) (h % 2 ^ s) (l / 2 ^ s)
              (div-lt_of_lt-mul l (2 ^ (32 - s)) (2 ^ s) (pow-pos s) (omega (arith, word_factors)))

      whole : (h * word + l) / 2 ^ s ≡ h / 2 ^ s * word + (l / 2 ^ s + h % 2 ^ s * 2 ^ (32 - s))
      whole = rw word_factors at (right_words (2 ^ s) (2 ^ (32 - s)) h l (pow-pos s))

module _ (s : ℕ) (large : 32 ≤ s) where
  pow_large : 2 ^ s ≡ 2 ^ (s - 32) * word
  pow_large = ap (λ k. 2 ^ k) (omega arith) ∙ pow-add 2 (s - 32) 32

  left_value_large :
      (h l : ℕ) → l * 2 ^ (s - 32) % word * word + 0 ≡ (h * word + l) * 2 ^ s % modulus
  left_value_large h l = sym (
      mod_unique _ modulus (h * 2 ^ (s - 32) + l * 2 ^ (s - 32) / word) _
        (omega (arith, ap (λ t. (h * word + l) * t) pow_large)) (omega arith))

  right_value_large : (h l : ℕ) → l < word → 0 * word + h / 2 ^ (s - 32) ≡ (h * word + l) / 2 ^ s
  right_value_large h l hl = omega (arith, divided)
    where
      divided : (h * word + l) / 2 ^ s ≡ h / 2 ^ (s - 32)
      divided =
          ap (λ t. (h * word + l) / t) (pow_large ∙ mul_comm (2 ^ (s - 32)) word)
          ∙ sym (div-div-eq-div-mul (h * word + l) word (2 ^ (s - 32)))
          ∙ ap (λ t. t / 2 ^ (s - 32)) (div_unique (h * word + l) word h l refl hl)

-- By 1 to 63 places `jlongShiftLeft` is defined, and multiplies by a power of two modulo 2 ^ 64.
pub shift_left-value :
    (a : Jlong) (s : ℕ)
    → IsJlong a
    → 0 < s
    → s < 64
    → (r : Jlong) × (shift_left a s ≡ some r) × (value r ≡ value a * 2 ^ s % modulus)
unfolding shift_left
shift_left-value a s ha pos_s lt_s = elim (Bool-cases (leb 32 s)) [
  | inl large ↦ (
    record { high = a.low * 2 ^ (s - 32) % word; low = 0 },
    ground arith,
    left_value_large s (leb→le 32 s large) a.high a.low,
  )
  | inr small ↦ (
    record {
      high = bit_or (a.high * 2 ^ s % word) (a.low / 2 ^ (32 - s));
      low = a.low * 2 ^ s % word;
    },
    ground arith,
    left_value s (not_leb→lt 32 s small) a.high a.low ha.low_word,
  )
]

-- By 1 to 63 places `jlongUnsignedShiftRight` is defined, and divides by a power of two.
pub unsigned_shift_right-value :
    (a : Jlong) (s : ℕ)
    → IsJlong a
    → 0 < s
    → s < 64
    → (r : Jlong) × (unsigned_shift_right a s ≡ some r) × (value r ≡ value a / 2 ^ s)
unfolding unsigned_shift_right
unsigned_shift_right-value a s ha pos_s lt_s = elim (Bool-cases (leb 32 s)) [
  | inl large ↦ (
    record { high = 0; low = a.high / 2 ^ (s - 32) },
    ground arith,
    right_value_large s (leb→le 32 s large) a.high a.low ha.low_word,
  )
  | inr small ↦ (
    record { high = a.high / 2 ^ s; low = bit_or (a.low / 2 ^ s) (a.high * 2 ^ (32 - s) % word) },
    ground arith,
    right_value s (not_leb→lt 32 s small) a.high a.low ha.low_word,
  )
]

-- A shift by 0 places is undefined in all three functions, and `jlongShiftRight` is undefined for
-- every shift by 32 places or more, where it shifts the high word by the whole distance.
pub shift_undefined :
    (a : Jlong) (s : ℕ)
    → 32 ≤ s
    → (shift_left a 0 ≡ none)
      × (unsigned_shift_right a 0 ≡ none)
      × (shift_right a 0 ≡ none)
      × (shift_right a s ≡ none)
unfolding shift_left unsigned_shift_right shift_right
shift_undefined a s h = (ground arith, ground arith, ground arith, ground arith)
