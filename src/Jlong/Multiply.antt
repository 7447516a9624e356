-- ===== src/Jlong/Multiply.antt =====
-- The result of `jlongMultiply` of jvm/src/elements/types.c as a number.
use mjvmk.Base.{ℕ, ◌+◌, ◌*◌, ◌/◌, ◌%◌, ◌≤◌, ◌<◌, ◌≡◌, ap, ◌∙◌, arith}
use native.Mathlib.Nat.{mul-le-mul, mod-eq_of_lt, div-eq_of_lt}
use mathlib.Core.Path.{ap₂}
use mjvmk.Jlong.{Jlong, IsJlong, value, modulus, word, increment, multiply}
use mjvmk.Jlong.Arith.{increment-value}

-- A product of two 16-bit numbers is a word.
halves-lt : (x y : ℕ) → x < 65536 → y < 65536 → x * y < word
halves-lt x y hx hy =
    let bound : x * y ≤ 65535 * 65535 =
      mul-le-mul {n₂ = 65535} {m₂ = 65535} (omega arith) (omega arith) in
    omega arith

-- The three partial products added to a jlong, one after the other.
add_three :
    (r x y z : Jlong)
    → IsJlong r
    → IsJlong x
    → IsJlong y
    → IsJlong z
    → value (increment (increment (increment r x) y) z)
      ≡ (value r + value x + value y + value z) % modulus
add_three r x y z hr hx hy hz =
    let (i₁, e₁) = increment-value r x hr hx in
    let (i₂, e₂) = increment-value (increment r x) y i₁ hy in
    let (i₃, e₃) = increment-value (increment (increment r x) y) z i₂ hz in omega arith

module _ (a b : Jlong) where
  -- `jlongMultiply` adds the four partial products of the low words with no shift between them, and
  -- the three products with a high word, the product of both high words included, to the high word.
  pub multiply-value :
      IsJlong a
      → IsJlong b
      → value (multiply a b)
        ≡ ((a.low * b.high + b.low * a.high + a.high * b.high) * word
            + a.low % 65536 * (b.low % 65536)
            + a.low % 65536 * (b.low / 65536)
            + a.low / 65536 * (b.low % 65536)
            + a.low / 65536 * (b.low / 65536))
          % modulus
  unfolding multiply
  multiply-value ha hb = omega (
    arith,
    halves-lt (a.low % 65536) (b.low % 65536) (omega arith) (omega arith),
    halves-lt (a.low % 65536) (b.low / 65536) (omega arith) (omega arith),
    halves-lt (a.low / 65536) (b.low % 65536) (omega arith) (omega arith),
    halves-lt (a.low / 65536) (b.low / 65536) (omega arith) (omega arith),
    add_three
        (record {
          high = (a.low * b.high % word + b.low * a.high % word + a.high * b.high % word) % word;
          low = a.low % 65536 * (b.low % 65536) % word;
        })
        (record { high = 0; low = a.low % 65536 * (b.low / 65536) % word })
        (record { high = 0; low = a.low / 65536 * (b.low % 65536) % word })
        (record { high = 0; low = a.low / 65536 * (b.low / 65536) % word }) (omega arith)
        (omega arith) (omega arith) (omega arith),
  )

multiply_words :
    (x y : ℕ)
    → x < 65536
    → y < 65536
    → value (multiply (record { high = 0; low = x }) (record { high = 0; low = y })) ≡ x * y
multiply_words x y hx hy = omega (
  arith,
  multiply-value (record { high = 0; low = x }) (record { high = 0; low = y }) (omega arith)
      (omega arith),
  ap₂ (λ s t. s * t) (mod-eq_of_lt hx) (mod-eq_of_lt hy),
  ap (λ t. x % 65536 * t) (div-eq_of_lt hy),
  ap (λ t. t * (y % 65536)) (div-eq_of_lt hx),
  ap (λ t. t * (y / 65536)) (div-eq_of_lt hx),
  halves-lt x y hx hy,
)

-- Two longs below 2 ^ 16 are multiplied as they should be.
pub multiply-small :
    (a b : Jlong)
    → a.high ≡ 0
    → b.high ≡ 0
    → a.low < 65536
    → b.low < 65536
    → value (multiply a b) ≡ value a * value b
multiply-small a b ha hb la lb =
    ap₂ (λ s t. value (multiply s t)) (narrow a ha) (narrow b hb)
    ∙ multiply_words a.low b.low la lb
    ∙ ap₂ (λ s t. s * t) (omega arith) (omega arith)
  where
    narrow : (c : Jlong) → c.high ≡ 0 → c ≡ record { high = 0; low = c.low }
    narrow c h = ground arith

-- A multiple of 2 ^ 16 below 2 ^ 32 times one loses its factor 2 ^ 16.
pub multiply-unshifted :
    (a : Jlong) (n : ℕ)
    → a.high ≡ 0
    → a.low ≡ n * 65536
    → n < 65536
    → value (multiply a (record { high = 0; low = 1 })) ≡ n
multiply-unshifted a n ha hn h =
    omega (arith, multiply-value a (record { high = 0; low = 1 }) (omega arith) (omega arith))
