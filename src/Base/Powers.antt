-- ===== src/Base/Powers.antt =====
-- Powers of two, and `/` and `%` by the two factors of a product.
use Prim.Native.Nat.{ℕ, zero, suc, ◌+◌, ◌-◌, ◌*◌, ◌/◌, ◌%◌, ◌^◌, ◌≤◌, ◌<◌}
use mathlib.Core.Path.{◌≡◌, sym, ap, ◌∙◌}
use native.Mathlib.Nat.{
  pow-suc, pow-zero, mul_assoc, mul-one, add-zero, add-suc, add-mul, mod-eq_of_lt, div-eq_of_lt,
  mul-add-mod_self_right, mod-lt, div-add-mod', mul-add-div_right, one-le-pow,
  mul-lt-mul_of_pos_right,
}
use native.Mathlib.Omega.{arith}

pub pow-add : (b m n : ℕ) → b ^ (m + n) ≡ b ^ m * b ^ n
pow-add b m zero = rw (add-zero, pow-zero) (sym (mul-one (b ^ m)))
pow-add b m (suc n) =
    rw (add-suc, pow-suc b (m + n), pow-suc b n, pow-add b m n) (mul_assoc (b ^ m) (b ^ n) b)

pub pow-mul-pow-sub : (n s : ℕ) → s ≤ n → 2 ^ s * 2 ^ (n - s) ≡ 2 ^ n
pow-mul-pow-sub n s h = sym (pow-add 2 s (n - s)) ∙ ap (λ k. 2 ^ k) (omega arith)

pub pow-pos : (s : ℕ) → 0 < 2 ^ s
pow-pos s = one-le-pow s 2 (omega arith)

pub mod_unique : (n m q r : ℕ) → n ≡ q * m + r → r < m → n % m ≡ r
mod_unique n m q r e h = rw e (mul-add-mod_self_right q m r ∙ mod-eq_of_lt h)

pub div_unique : (n m q r : ℕ) → n ≡ q * m + r → r < m → n / m ≡ q
div_unique n m q r e h =
    rw e (mul-add-div_right (omega arith) q r ∙ ap (λ k. q + k) (div-eq_of_lt h) ∙ add-zero q)

pub mul-mod-mul : (x p q : ℕ) → 0 < p → 0 < q → (x * p) % (q * p) ≡ x % q * p
mul-mod-mul x p q hp hq =
    mod_unique (x * p) (q * p) (x / q) (x % q * p) expand (mul-lt-mul_of_pos_right (mod-lt x hq) hp)
  where
    expand : x * p ≡ x / q * (q * p) + x % q * p
    expand =
        ap (λ t. t * p) (sym (div-add-mod' x q))
        ∙ add-mul (x / q * q) (x % q) p
        ∙ ap (λ t. t + x % q * p) (mul_assoc (x / q) q p)

pub div-lt_of_lt-mul : (x p q : ℕ) → 0 < q → x < p * q → x / q < p
div-lt_of_lt-mul x p q hq h = grind arith

-- A number of two digits, the higher below `m` and the lower below `n`.
pub two_digits-lt : (a b m n : ℕ) → a < m → b < n → a * n + b < m * n
two_digits-lt a b m n ha hb = grind arith
