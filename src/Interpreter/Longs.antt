-- ===== src/Interpreter/Longs.antt =====
-- The stack that the handlers of jvm/src/execute/handlers/arithmeticHandlers.c leave.
use mathlib.Core.Option
use mjvmk.Base.{
  ℕ, ◌+◌, ◌-◌, ◌*◌, ◌%◌, ◌≤◌, ◌<◌, ◌≡◌, ◌≢◌, Option, some, arith, refl, ap, ap₂, sym, subst, ◌/◌,
  ◌∙◌, bit_and, ne→not_==,
}
use native.Mathlib.Nat.{div-add-mod'}
use mjvmk.Jlong.{
  Jlong, IsJlong, value, modulus, increment, decrement, shift_left, unsigned_shift_right,
}
use mjvmk.Jlong.Shift.{shift_left-value, unsigned_shift_right-value}
use mjvmk.Jlong.Arith.{increment-value, decrement-value}
use mjvmk.Interpreter.{Frame, get_int, get_long, set_long, decrement_stack_by, next_by}
use mjvmk.Interpreter.Arithmetic.{
  continues, ladd, lsub, idiv, irem, lshl, lushr, long_shift_handler, int_handler,
}

-- A frame with two longs on the stack.
module _ (f : Frame) (enough : 4 ≤ f.sp) where
  ladd-top : get_long 1 (ladd f) ≡ increment (get_long 3 f) (get_long 1 f)
  unfolding ladd
  ladd-top = ground arith

  lsub-top : get_long 1 (lsub f) ≡ decrement (get_long 3 f) (get_long 1 f)
  unfolding lsub
  lsub-top = ground arith

  -- With two longs of 32-bit words on the stack, `LADD` and `LSUB` leave one long, which is the sum and
  -- the difference modulo 2 ^ 64.
  pub ladd-lsub :
      IsJlong (get_long 3 f)
      → IsJlong (get_long 1 f)
      → ((ladd f).sp ≡ f.sp - 2)
        × (value (get_long 1 (ladd f)) ≡ (value (get_long 3 f) + value (get_long 1 f)) % modulus)
        × ((lsub f).sp ≡ f.sp - 2)
        × (value (get_long 1 (lsub f))
            ≡ (value (get_long 3 f) + modulus - value (get_long 1 f)) % modulus)
  unfolding ladd lsub
  ladd-lsub ha hb = (
    refl,
    ap value ladd-top ∙ (increment-value (get_long 3 f) (get_long 1 f) ha hb).1,
    refl,
    ap value lsub-top ∙ (decrement-value (get_long 3 f) (get_long 1 f) ha hb).1,
  )

  long_shift-loses :
      (r : Jlong) (shift : Jlong → ℕ → Option Jlong)
      → shift (get_long 2 f) (bit_and (get_int 0 f) 63) ≡ some r
      → (f' : Frame) × (long_shift_handler shift f ≡ some f')
        × (get_long 1 f' ≡ get_long 2 f)
        × ((f'.fields (f.sp - 3)).object ≡ 1)
  long_shift-loses r shift e = (
    next_by 1 (decrement_stack_by 1 (set_long 3 r f)),
    ap (Option.map (λ v. next_by 1 (decrement_stack_by 1 (set_long 3 v f)))) e,
    ground arith,
    ground arith,
  )

  -- With a long of 32-bit words below an int on the stack and one more entry below them, and a distance
  -- (the int's low six bits) from 1 to 63, `LSHL` and `LUSHR` leave the long as it was on top, though it
  -- is not shifted: they write the result one entry too low, and the indicator of a long on the entry
  -- below the long.
  pub lshl-lushr-loses :
      IsJlong (get_long 2 f)
      → 0 < bit_and (get_int 0 f) 63
      → bit_and (get_int 0 f) 63 < 64
      → ((f' : Frame) × (lshl f ≡ some f')
          × (get_long 1 f' ≡ get_long 2 f)
          × ((f'.fields (f.sp - 3)).object ≡ 1))
        × ((f' : Frame) × (lushr f ≡ some f')
            × (get_long 1 f' ≡ get_long 2 f)
            × ((f'.fields (f.sp - 3)).object ≡ 1))
  unfolding lshl lushr
  lshl-lushr-loses h lo hi =
      let left = shift_left-value (get_long 2 f) (bit_and (get_int 0 f) 63) h lo hi in
      let right = unsigned_shift_right-value (get_long 2 f) (bit_and (get_int 0 f) 63) h lo hi in
      (
        long_shift-loses left.0 shift_left left.1,
        long_shift-loses right.0 unsigned_shift_right right.1,
      )

div-mod : (a b : ℕ) → b ≢ 0 → (a / b * b + a % b ≡ a) × (a % b < b)
div-mod a b ne = (omega (arith, div-add-mod' a b), ground arith)

-- With two ints on the stack and a divisor that is not zero, `IDIV` and `IREM` leave the quotient and the
-- remainder of the ints as unsigned numbers.
pub idiv-irem :
    (f : Frame)
    → 2 ≤ f.sp
    → get_int 0 f ≢ 0
    → (q : Frame) × (r : Frame) × (idiv f ≡ continues q)
      × (irem f ≡ continues r)
      × (get_int 0 q * get_int 0 f + get_int 0 r ≡ get_int 1 f)
      × (get_int 0 r < get_int 0 f)
unfolding idiv irem
idiv-irem f enough ne =
    let parts = div-mod (get_int 1 f) (get_int 0 f) ne in
    let q : Frame = int_handler (λ a b. a / b) f in
    let r : Frame = int_handler (λ a b. a % b) f in
    let quotient : get_int 0 q ≡ get_int 1 f / get_int 0 f = ground arith in
    let remainder : get_int 0 r ≡ get_int 1 f % get_int 0 f = ground arith in
    (
      q,
      r,
      rw (ne→not_== (get_int 0 f) 0 ne) refl,
      rw (ne→not_== (get_int 0 f) 0 ne) refl,
      ap₂ (λ x y. x * get_int 0 f + y) quotient remainder ∙ parts.0,
      subst (λ x. x < get_int 0 f) (sym remainder) parts.1,
    )
