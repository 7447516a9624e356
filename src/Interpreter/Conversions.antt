-- ===== src/Interpreter/Conversions.antt =====
-- The integer handlers of jvm/src/execute/handlers/conversionHandlers.c. The narrow conversions are to
-- unsigned types.
use mjvmk.Base.{ℕ, ◌+◌, ◌%◌, ◌≤◌, ◌<◌, ◌≡◌, arith, refl, subst, sym, ap, ◌∙◌}
use mjvmk.Jlong.{IsJlong, word, to_int, of_int}
use mjvmk.Jlong.Arith.{of_int-value}
use mjvmk.Interpreter.{
  Frame, get_int, get_long, set_int, set_long, increment_stack_by, decrement_stack_by, next_by,
}

abbrev pub narrow_conversion : ℕ → Frame → Frame
narrow_conversion size f = next_by 1 (set_int 0 (get_int 0 f % size) f)

unfoldable pub i2b : Frame → Frame
i2b = narrow_conversion 256

unfoldable pub i2c : Frame → Frame
i2c = narrow_conversion 65536

unfoldable pub i2s : Frame → Frame
i2s = narrow_conversion 65536

unfoldable pub l2i : Frame → Frame
l2i f = next_by 1 (decrement_stack_by 1 (set_int 1 (to_int (get_long 1 f)) f))

unfoldable pub i2l : Frame → Frame
i2l f = next_by 1 (increment_stack_by 1 (set_long 0 (of_int (get_int 0 f)) f))

i2l-top : (f : Frame) → get_long 1 (i2l f) ≡ of_int (get_int 0 f)
unfolding i2l
i2l-top f = ground arith

l2i-top : (f : Frame) → 1 ≤ f.sp → get_int 0 (l2i f) ≡ to_int (get_long 1 f)
unfolding l2i
l2i-top f enough = ground arith

-- An int of 32 bits on the stack: `I2L` leaves a long of 32-bit words, with one field more on the stack,
-- and `L2I` then leaves the int, with the stack as high as before.
pub i2l-l2i :
    (f : Frame)
    → get_int 0 f < word
    → IsJlong (get_long 1 (i2l f))
      × ((i2l f).sp ≡ f.sp + 1)
      × (get_int 0 (l2i (i2l f)) ≡ get_int 0 f)
      × ((l2i (i2l f)).sp ≡ f.sp)
unfolding i2l l2i
i2l-l2i f small =
    let there = of_int-value (get_int 0 f) small in
    (
      subst IsJlong (sym (i2l-top f)) there.0,
      refl,
      l2i-top (i2l f) (omega arith) ∙ ap to_int (i2l-top f) ∙ there.2,
      omega arith,
    )
