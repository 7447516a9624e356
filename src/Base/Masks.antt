-- ===== src/Base/Masks.antt =====
-- The masks of a C `&` as `/` and `%`: those of a byte by evaluation, those of a longer word by the law of
-- the lowest digit.
use Prim.Native.Nat.{
  ℕ, zero, suc, ◌+◌, ◌*◌, ◌/◌, ◌%◌, ◌<◌, ◌≤◌, min, bit_and, bit_or, digits, bit_and-bitwise,
}
use mathlib.Core.Path.{◌≡◌, refl}
use mathlib.Core.Bool.{Bool, true, ◌&&◌}
use native.Mathlib.Omega.{arith}
use mjvmk.Base.Bits.{bit_or_step, bit_or-zero}
use mjvmk.Base.Tests.{◌==◌}

-- A test of every number below a bound.
abbrev pub holds_below : ℕ → (ℕ → Bool) → Bool
holds_below zero test = true
holds_below (suc n) test = test n && holds_below n test

pub holds_below_at :
    (n : ℕ) (test : ℕ → Bool) (x : ℕ) → holds_below n test ≡ true → x < n → test x ≡ true
holds_below_at zero test x h l = absurd (omega arith)
holds_below_at (suc n) test x h l = ground (arith, holds_below_at n test x)

byte_masks :
    holds_below 256 (λ x.
      (bit_and x 192 == x / 64 * 64)
      && (bit_and x 63 == x % 64)
      && (bit_and x 31 == x % 32)
      && (bit_and x 15 == x % 16))
    ≡ true
byte_masks = refl

pub byte_mask_lem :
    (x : ℕ)
    → x < 256
    → (bit_and x 192 ≡ x / 64 * 64)
      × (bit_and x 63 ≡ x % 64)
      × (bit_and x 31 ≡ x % 32)
      × (bit_and x 15 ≡ x % 16)
byte_mask_lem x l =
    let all =
      holds_below_at 256
        (λ x.
          (bit_and x 192 == x / 64 * 64)
          && (bit_and x 63 == x % 64)
          && (bit_and x 31 == x % 32)
          && (bit_and x 15 == x % 16))
        x byte_masks l in
    (ground (arith, all), ground (arith, all), ground (arith, all), ground (arith, all))

-- The and of two words by `rounds` steps of the digit loop.
abbrev and_in : ℕ → ℕ → ℕ → ℕ
and_in rounds x y = digits (λ bit. 0) min rounds x y

and_in-surplus : (x y r s : ℕ) → x ≤ s → x ≤ r → and_in s x y ≡ and_in r x y
and_in-surplus zero y zero zero hs hr = refl
and_in-surplus zero y (suc r) zero hs hr = refl
and_in-surplus zero y zero (suc s) hs hr = refl
and_in-surplus zero y (suc r) (suc s) hs hr = refl
and_in-surplus (suc x) y zero s hs hr = absurd (omega (arith, hr))
and_in-surplus (suc x) y (suc r) zero hs hr = absurd (omega (arith, hs))
and_in-surplus (suc x) y (suc r) (suc s) hs hr =
    let halves = and_in-surplus (suc x / 2) (y / 2) r s (omega arith) (omega arith) in
    omega (arith, halves)

pub bit_and_step : (x y : ℕ) → bit_and x y ≡ bit_and (x / 2) (y / 2) * 2 + min (x % 2) (y % 2)
bit_and_step zero y =
    let whole = bit_and-bitwise 0 y in
    let half = bit_and-bitwise 0 (y / 2) in omega (arith, whole, half)
bit_and_step (suc x) y =
    let surplus = and_in-surplus (suc x / 2) (y / 2) (suc x / 2) x (omega arith) (omega arith) in
    let half = bit_and-bitwise (suc x / 2) (y / 2) in
    let whole = bit_and-bitwise (suc x) y in omega (arith, surplus, half, whole)

zero_below : (bound x : ℕ) → x ≤ bound → bit_and x 0 ≡ 0
zero_below bound zero le = refl
zero_below zero (suc x) le = absurd (omega (arith, le))
zero_below (suc bound) (suc x) le =
    omega (arith, zero_below bound (suc x / 2) (omega arith), bit_and_step (suc x) 0)

pub bit_and-zero : (x : ℕ) → bit_and x 0 ≡ 0
bit_and-zero x = zero_below x x (omega arith)

-- A mask of ones below and of a word above them.
pub bit_and-ones : (x : ℕ) → bit_and x 1 ≡ x % 2
bit_and-ones x = omega (arith, bit_and_step x 1, bit_and-zero (x / 2))

-- The lowest digit of base 16, of a mask with four ones or four zeros there.
and_four_ones : (x m : ℕ) → bit_and x (m * 16 + 15) ≡ bit_and (x / 16) m * 16 + x % 16
and_four_ones x m =
    let one = bit_and_step x (m * 16 + 15) in
    let two = bit_and_step (x / 2) (m * 8 + 7) in
    let three = bit_and_step (x / 2 / 2) (m * 4 + 3) in
    let four = bit_and_step (x / 2 / 2 / 2) (m * 2 + 1) in
    let a : (m * 16 + 15) / 2 ≡ m * 8 + 7 = omega arith in
    let b : (m * 8 + 7) / 2 ≡ m * 4 + 3 = omega arith in
    let c : (m * 4 + 3) / 2 ≡ m * 2 + 1 = omega arith in
    let d : (m * 2 + 1) / 2 ≡ m = omega arith in
    let e : x / 2 / 2 / 2 / 2 ≡ x / 16 = omega arith in
    omega (arith, rw a at one, rw b at two, rw c at three, rw (d, e) at four)

and_four_zeros : (x m : ℕ) → bit_and x (m * 16) ≡ bit_and (x / 16) m * 16
and_four_zeros x m =
    let one = bit_and_step x (m * 16) in
    let two = bit_and_step (x / 2) (m * 8) in
    let three = bit_and_step (x / 2 / 2) (m * 4) in
    let four = bit_and_step (x / 2 / 2 / 2) (m * 2) in
    let a : m * 16 / 2 ≡ m * 8 = omega arith in
    let b : m * 8 / 2 ≡ m * 4 = omega arith in
    let c : m * 4 / 2 ≡ m * 2 = omega arith in
    let d : m * 2 / 2 ≡ m = omega arith in
    let e : x / 2 / 2 / 2 / 2 ≡ x / 16 = omega arith in
    omega (arith, rw a at one, rw b at two, rw c at three, rw (d, e) at four)

and_fifteen : (x : ℕ) → bit_and x 15 ≡ x % 16
and_fifteen x = omega (arith, and_four_ones x 0, bit_and-zero (x / 16))

and_seven : (x : ℕ) → bit_and x 7 ≡ x % 8
and_seven x = omega (arith, bit_and_step x 7, bit_and_step (x / 2) 3, bit_and-ones (x / 2 / 2))

or_four_zeros : (x m : ℕ) → bit_or x (m * 16) ≡ bit_or (x / 16) m * 16 + x % 16
or_four_zeros x m =
    let one = bit_or_step x (m * 16) in
    let two = bit_or_step (x / 2) (m * 8) in
    let three = bit_or_step (x / 2 / 2) (m * 4) in
    let four = bit_or_step (x / 2 / 2 / 2) (m * 2) in
    let a : m * 16 / 2 ≡ m * 8 = omega arith in
    let b : m * 8 / 2 ≡ m * 4 = omega arith in
    let c : m * 4 / 2 ≡ m * 2 = omega arith in
    let d : m * 2 / 2 ≡ m = omega arith in
    let e : x / 2 / 2 / 2 / 2 ≡ x / 16 = omega arith in
    omega (arith, rw a at one, rw b at two, rw c at three, rw (d, e) at four)

-- The masks of a package key.
pub bit_and_2047 : (x : ℕ) → bit_and x 2047 ≡ x % 2048
bit_and_2047 x =
    omega (arith, and_four_ones x 127, and_four_ones (x / 16) 7, and_seven (x / 16 / 16))

pub bit_and_2048 : (x : ℕ) → bit_and x 2048 ≡ x / 2048 % 2 * 2048
bit_and_2048 x = omega (
  arith,
  and_four_zeros x 128,
  and_four_zeros (x / 16) 8,
  bit_and_step (x / 16 / 16) 8,
  bit_and_step (x / 16 / 16 / 2) 4,
  bit_and_step (x / 16 / 16 / 2 / 2) 2,
  bit_and-ones (x / 16 / 16 / 2 / 2 / 2),
)

pub bit_and_61440 : (x : ℕ) → bit_and x 61440 ≡ x / 4096 % 16 * 4096
bit_and_61440 x = omega (
  arith,
  and_four_zeros x 3840,
  and_four_zeros (x / 16) 240,
  and_four_zeros (x / 16 / 16) 15,
  and_fifteen (x / 16 / 16 / 16),
)

-- The bit above eleven.
pub bit_or_2048 : (x : ℕ) → x / 2048 % 2 ≡ 0 → bit_or x 2048 ≡ x + 2048
bit_or_2048 x clear =
    let four = or_four_zeros x 128 in
    let eight = or_four_zeros (x / 16) 8 in
    let nine = bit_or_step (x / 16 / 16) 8 in
    let ten = bit_or_step (x / 16 / 16 / 2) 4 in
    let eleven = bit_or_step (x / 16 / 16 / 2 / 2) 2 in
    let twelve = bit_or_step (x / 16 / 16 / 2 / 2 / 2) 1 in
    omega (
      arith,
      clear,
      four,
      eight,
      nine,
      ten,
      eleven,
      twelve,
      bit_or-zero (x / 16 / 16 / 2 / 2 / 2 / 2),
    )
