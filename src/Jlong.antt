-- ===== src/Jlong.antt =====
-- The struct `jlong` of jvm/src/elements/types.h and the functions of jvm/src/elements/types.c: a
-- Java long as two 32-bit words. A macro that assigns to its first argument returns the new value.
-- A C shift by 32 or more, and a division by zero, are undefined: `none`.
pub mod Arith
pub mod Shift
pub mod Multiply
mod Tests
use mjvmk.Base.{
  ℕ, ◌+◌, ◌-◌, ◌*◌, ◌/◌, ◌%◌, ◌^◌, ◌<◌, Bool, ◌&&◌, ◌||◌, Option, none, some, ltb, leb, ◌==◌,
  if◌then◌else◌, bit_and, bit_or, bit_xor, ◌>>=◌,
}

abbrev pub word : ℕ
word = 4294967296

pub record Jlong : Type 0 where
  pub high : ℕ
  pub low : ℕ

abbrev pub jlong_zero : Jlong
jlong_zero = record { high = 0; low = 0 }

abbrev pub jlong_one : Jlong
jlong_one = record { high = 0; low = 1 }

pub less_than : Jlong → Jlong → Bool
less_than a b = ltb a.high b.high || ((a.high == b.high) && ltb a.low b.low)

pub greater_than : Jlong → Jlong → Bool
greater_than a b = less_than b a

pub to_int : Jlong → ℕ
to_int a = a.low

-- The sign bit of the `INT32`, shifted down arithmetically, fills the high word.
pub of_int : ℕ → Jlong
of_int i = record { high = if ltb i 2147483648 then 0 else word - 1; low = i }

pub increment : Jlong → Jlong → Jlong
increment a b =
    let low : ℕ = (a.low + b.low) % word in
    record {
      high = (a.high + (b.high + (if ltb low b.low then 1 else 0)) % word) % word;
      low = low;
    }

pub decrement : Jlong → Jlong → Jlong
decrement a b = record {
  high = (a.high + word - (b.high + (if ltb a.low b.low then 1 else 0)) % word) % word;
  low = (a.low + word - b.low) % word;
}

pub negate : Jlong → Jlong
negate a =
    let low : ℕ = (word - a.low) % word in
    record { high = (word - (a.high + (if low == 0 then 0 else 1)) % word) % word; low = low }

pub bitwise_xor : Jlong → Jlong → Jlong
bitwise_xor a b = record { high = bit_xor a.high b.high; low = bit_xor a.low b.low }

pub bitwise_or : Jlong → Jlong → Jlong
bitwise_or a b = record { high = bit_or a.high b.high; low = bit_or a.low b.low }

pub bitwise_and : Jlong → Jlong → Jlong
bitwise_and a b = record { high = bit_and a.high b.high; low = bit_and a.low b.low }

-- `x << s` and `x >> s` on a UINT32.
pub shl : ℕ → ℕ → Option ℕ
shl x s = if ltb s 32 then some (x * 2 ^ s % word) else none

pub shr : ℕ → ℕ → Option ℕ
shr x s = if ltb s 32 then some (x / 2 ^ s) else none

-- `x >> s` on an INT32: the vacated bits are copies of the sign bit.
pub sar : ℕ → ℕ → Option ℕ
sar x s =
    if ltb s 32
    then some (if ltb x 2147483648 then x / 2 ^ s else word - 1 - (word - 1 - x) / 2 ^ s)
    else none

pub shift_left : Jlong → ℕ → Option Jlong
unfolding shl shr
shift_left a s =
    if leb 32 s then (do h ← shl a.low (s - 32); some (record { high = h; low = 0 })) else (do
      h ← shl a.high s
      carried ← shr a.low (32 - s)
      l ← shl a.low s
      some (record { high = bit_or h carried; low = l }))

pub shift_right : Jlong → ℕ → Option Jlong
unfolding shl shr sar
shift_right a s =
    if leb 32 s
    then (do l ← sar a.high (s - 32); h ← sar a.high s; some (record { high = h; low = l }))
    else (do
      l ← shr a.low s
      carried ← shl a.high (32 - s)
      h ← sar a.high s
      some (record { high = h; low = bit_or l carried }))

pub unsigned_shift_right : Jlong → ℕ → Option Jlong
unfolding shl shr
unsigned_shift_right a s =
    if leb 32 s then (do l ← shr a.high (s - 32); some (record { high = 0; low = l })) else (do
      l ← shr a.low s
      carried ← shl a.high (32 - s)
      h ← shr a.high s
      some (record { high = h; low = bit_or l carried }))

-- The three calls of `jlongShiftLeft` in the body discard what they return, so the middle and high
-- partial products are added as they are.
pub multiply : Jlong → Jlong → Jlong
multiply a b =
    let first : ℕ = a.low % 65536 * (b.low % 65536) % word in
    let fifth : ℕ = a.low * b.high % word in
    let sixth : ℕ = b.low * a.high % word in
    let seventh : ℕ = a.high * b.high % word in
    let second : Jlong = record { high = 0; low = a.low % 65536 * (b.low / 65536) % word } in
    let third : Jlong = record { high = 0; low = a.low / 65536 * (b.low % 65536) % word } in
    let fourth : Jlong = record { high = 0; low = a.low / 65536 * (b.low / 65536) % word } in
    let result : Jlong = record { high = (fifth + sixth + seventh) % word; low = first } in
    increment (increment (increment result second) third) fourth

pub divide : Jlong → Jlong → Option Jlong
divide a b = if b.low == 0 then none else some (record { high = 0; low = a.low / b.low })

pub remainder : Jlong → Jlong → Option Jlong
remainder a b = if b.low == 0 then none else some (record { high = 0; low = a.low % b.low })

-- The number that a jlong stands for, as 64 bits, and the range of its words.
abbrev pub value : Jlong → ℕ
value a = a.high * word + a.low

abbrev pub modulus : ℕ
modulus = 18446744073709551616

pub record IsJlong (a : Jlong) : Type 0 where
  pub high_word : a.high < word
  pub low_word : a.low < word
