-- ===== src/Jlong/Arith.antt =====
-- Addition, subtraction, negation, order and conversion of a jlong, against 64-bit numbers.
use mjvmk.Base.{
  ℕ, ◌+◌, ◌-◌, ◌*◌, ◌/◌, ◌%◌, ◌≤◌, ◌<◌, ◌≡◌, ◌≢◌, ◌↔◌, refl, true, false, some, arith, ltb,
  if◌then◌else◌,
}
use native.Mathlib.Nat.{div-add-mod'}
use mjvmk.Jlong.{
  Jlong, IsJlong, value, modulus, word, less_than, of_int, to_int, increment, decrement, negate,
  divide, remainder,
}

-- `jlongIncrement` adds modulo 2 ^ 64: the carry out of the low words reaches the high word.
pub increment-value :
    (a b : Jlong)
    → IsJlong a
    → IsJlong b
    → IsJlong (increment a b) × (value (increment a b) ≡ (value a + value b) % modulus)
unfolding increment
increment-value a b ha hb = (ground arith, ground arith)

-- `jlongDecrement` subtracts modulo 2 ^ 64.
pub decrement-value :
    (a b : Jlong)
    → IsJlong a
    → IsJlong b
    → IsJlong (decrement a b) × (value (decrement a b) ≡ (value a + modulus - value b) % modulus)
unfolding decrement
decrement-value a b ha hb = (ground arith, ground arith)

-- `jlongNegate` is the two's complement: adding the result gives zero, modulo 2 ^ 64.
pub negate-value :
    (a : Jlong) → IsJlong a → IsJlong (negate a) × ((value a + value (negate a)) % modulus ≡ 0)
unfolding negate
negate-value a ha = (ground arith, ground arith)

-- `jlongLessThan` decides the unsigned order of the 64-bit patterns.
pub less_than-iff-lt :
    (a b : Jlong) → IsJlong a → IsJlong b → (less_than a b ≡ true) ↔ (value a < value b)
unfolding less_than
less_than-iff-lt a b ha hb = (λ h. ground arith, λ h. ground arith)

-- Where the signs differ, `jlongLessThan` gives the opposite of the order of signed longs.
pub less_than-signs :
    (a b : Jlong)
    → a.high < 2147483648
    → 2147483648 ≤ b.high
    → (less_than a b ≡ true) × (less_than b a ≡ false)
unfolding less_than
less_than-signs a b ha hb = (ground arith, ground arith)

-- `jint2Long` extends the sign: it keeps an int below 2 ^ 31, and adds 2 ^ 64 - 2 ^ 32 to any
-- other.
-- `jlong2Int` takes the int back.
pub of_int-value :
    (i : ℕ)
    → i < word
    → IsJlong (of_int i)
      × (value (of_int i) ≡ (if ltb i 2147483648 then i else i + modulus - word))
      × (to_int (of_int i) ≡ i)
unfolding of_int to_int
of_int-value i h = (ground arith, ground arith, refl)

-- On longs whose high words are zero, `jlongDivide` and `jlongRemainder` are the quotient and the
-- remainder, and both are undefined exactly at a zero divisor.
pub divide-remainder :
    (a b : Jlong)
    → a.high ≡ 0
    → b.high ≡ 0
    → b.low ≢ 0
    → (q : Jlong) × (r : Jlong) × (divide a b ≡ some q)
      × (remainder a b ≡ some r)
      × (value q * value b + value r ≡ value a)
      × (value r < value b)
unfolding divide remainder
divide-remainder a b ha hb ne = (
  record { high = 0; low = a.low / b.low },
  record { high = 0; low = a.low % b.low },
  ground arith,
  ground arith,
  rw (ha, hb) (omega (arith, div-add-mod' a.low b.low)),
  ground arith,
)
