-- ===== src/Base/Bits.antt =====
-- Laws of `|` at variables: the digit law, and the or of a shifted word with one below it.
use Prim.Native.Nat.{
  ℕ, zero, suc, ◌+◌, ◌*◌, ◌/◌, ◌%◌, ◌^◌, ◌≤◌, ◌<◌, max, bit_or, digits, bit_or-bitwise,
}
use mathlib.Core.Path.{◌≡◌, refl, sym, ap, ◌∙◌}
use native.Mathlib.Nat.{pow-suc, mul_assoc}
use native.Mathlib.Omega.{arith}

-- The or of two words by `rounds` steps of the digit loop.
abbrev or_in : ℕ → ℕ → ℕ → ℕ
or_in rounds x y = digits (λ bit. bit) max rounds x y

-- Steps beyond the first word's size change nothing.
or_in-surplus : (x y r s : ℕ) → x ≤ s → x ≤ r → or_in s x y ≡ or_in r x y
or_in-surplus zero y zero zero hs hr = refl
or_in-surplus zero y (suc r) (suc s) hs hr = refl
or_in-surplus zero y zero (suc s) hs hr = refl
or_in-surplus zero y (suc r) zero hs hr = refl
or_in-surplus (suc x) y zero s hs hr = absurd (omega (arith, hr))
or_in-surplus (suc x) y (suc r) zero hs hr = absurd (omega (arith, hs))
or_in-surplus (suc x) y (suc r) (suc s) hs hr =
    let halves = or_in-surplus (suc x / 2) (y / 2) r s (omega arith) (omega arith) in
    omega (arith, halves)

pub zero-bit_or : (y : ℕ) → bit_or 0 y ≡ y
zero-bit_or = bit_or-bitwise 0

pub bit_or_step : (x y : ℕ) → bit_or x y ≡ bit_or (x / 2) (y / 2) * 2 + max (x % 2) (y % 2)
bit_or_step zero y =
    let whole = zero-bit_or y in let half = zero-bit_or (y / 2) in omega (arith, whole, half)
bit_or_step (suc x) y =
    let surplus = or_in-surplus (suc x / 2) (y / 2) (suc x / 2) x (omega arith) (omega arith) in
    let half = bit_or-bitwise (suc x / 2) (y / 2) in
    let whole = bit_or-bitwise (suc x) y in omega (arith, surplus, half, whole)

or_zero_below : (bound x : ℕ) → x ≤ bound → bit_or x 0 ≡ x
or_zero_below bound zero le = zero-bit_or zero
or_zero_below zero (suc x) le = absurd (omega (arith, le))
or_zero_below (suc bound) (suc x) le =
    let half = or_zero_below bound (suc x / 2) (omega arith) in
    omega (arith, half, bit_or_step (suc x) 0)

pub bit_or-zero : (x : ℕ) → bit_or x 0 ≡ x
bit_or-zero x = or_zero_below x x (omega arith)

-- One step of the or of an even word, on either side.
bit_or-double : (w y : ℕ) → bit_or (w * 2) y ≡ bit_or w (y / 2) * 2 + y % 2
bit_or-double w y =
    let half : w * 2 / 2 ≡ w = omega arith in
    omega (arith, ap (λ h. bit_or h (y / 2)) half, bit_or_step (w * 2) y)

bit_or-double_right : (y w : ℕ) → bit_or y (w * 2) ≡ bit_or (y / 2) w * 2 + y % 2
bit_or-double_right y w =
    let half : w * 2 / 2 ≡ w = omega arith in
    omega (arith, ap (bit_or (y / 2)) half, bit_or_step y (w * 2))

shifted_by_suc : (w k : ℕ) → w * 2 ^ suc k ≡ w * 2 ^ k * 2
shifted_by_suc w k = ap (λ p. w * p) (pow-suc 2 k) ∙ sym (mul_assoc w (2 ^ k) 2)

-- A word shifted left by `k` places and one of `k` bits have no place in common, so `|` adds them.
pub bit_or-eq-add : (k x y : ℕ) → y < 2 ^ k → bit_or (x * 2 ^ k) y ≡ x * 2 ^ k + y
bit_or-eq-add zero x y below =
    let nothing : y ≡ 0 = omega (arith, below) in
    ap (bit_or (x * 2 ^ 0)) nothing ∙ bit_or-zero (x * 2 ^ 0) ∙ omega (arith, nothing)
bit_or-eq-add (suc k) x y below =
    let upper = bit_or-eq-add k x (y / 2) (omega (arith, below, pow-suc 2 k)) in
    let joined = bit_or-double (x * 2 ^ k) y in
    ap (λ w. bit_or w y) (shifted_by_suc x k) ∙ omega (arith, joined, upper, shifted_by_suc x k)

pub bit_or-eq-add_left : (k x y : ℕ) → y < 2 ^ k → bit_or y (x * 2 ^ k) ≡ y + x * 2 ^ k
bit_or-eq-add_left zero x y below =
    let nothing : y ≡ 0 = omega (arith, below) in
    ap (λ w. bit_or w (x * 2 ^ 0)) nothing ∙ zero-bit_or (x * 2 ^ 0) ∙ omega (arith, nothing)
bit_or-eq-add_left (suc k) x y below =
    let upper = bit_or-eq-add_left k x (y / 2) (omega (arith, below, pow-suc 2 k)) in
    let joined = bit_or-double_right y (x * 2 ^ k) in
    ap (bit_or y) (shifted_by_suc x k) ∙ omega (arith, joined, upper, shifted_by_suc x k)
