-- ===== src/Interpreter/Variables.antt =====
-- Local variables and the operand stack: the handlers of jvm/src/execute/handlers/localHandlers.c, and the
-- int cases of `MATH_QUICK`.
use mjvmk.Base.{ℕ, ◌+◌, ◌-◌, ◌≤◌, ◌<◌, ◌≡◌, false, arith, refl}
use mjvmk.Jlong.{word}
use mjvmk.Interpreter.{Frame, get_int, get_long}
use mjvmk.Interpreter.Code.{signed_less}
use mjvmk.Interpreter.Locals.{iload, lload, aload, istore, lstore, astore}
use mjvmk.Interpreter.Quick.{imin, imax}

module _ (f : Frame) (n size wide : ℕ) where
  int-back : f.lp + n < f.sp → get_int 0 (iload wide n (istore size n f)) ≡ get_int 0 f
  unfolding istore iload
  int-back below = ground arith

  object-back :
      f.lp + n < f.sp
      → ((aload wide n (astore size n f)).fields (f.sp)).object ≡ (f.fields f.sp).object
  unfolding astore aload
  object-back below = ground arith

  long-back : f.lp + n + 2 < f.sp → get_long 1 (lload wide n (lstore size n f)) ≡ get_long 1 f
  unfolding lstore lload
  long-back below = ground arith

  -- A local variable n whose fields are below the operands: a store and a load of it, as an int, as an
  -- object and as a long, bring the value back to the top of a stack as high as before, and the program
  -- counter is behind both instructions.
  pub store-load :
      f.lp + n + 2 < f.sp
      → (get_int 0 (iload wide n (istore size n f)) ≡ get_int 0 f)
        × (((aload wide n (astore size n f)).fields f.sp).object ≡ (f.fields f.sp).object)
        × (get_long 1 (lload wide n (lstore size n f)) ≡ get_long 1 f)
        × ((iload wide n (istore size n f)).sp ≡ f.sp)
        × ((aload wide n (astore size n f)).sp ≡ f.sp)
        × ((lload wide n (lstore size n f)).sp ≡ f.sp)
        × ((lload wide n (lstore size n f)).pc ≡ f.pc + size + wide)
  unfolding istore iload astore aload lstore lload
  store-load below = (
    int-back (omega arith),
    object-back (omega arith),
    long-back below,
    omega arith,
    omega arith,
    omega arith,
    refl,
  )

-- Two ints of 32 bits on the stack: `IMIN` and `IMAX` leave one of them each, together both, and the
-- one that `IMAX` leaves is not less as a signed int.
pub imin-imax :
    (f : Frame)
    → 1 ≤ f.sp
    → get_int 1 f < word
    → get_int 0 f < word
    → (get_int 0 (imin f) + get_int 0 (imax f) ≡ get_int 1 f + get_int 0 f)
      × (signed_less (get_int 0 (imax f)) (get_int 0 (imin f)) ≡ false)
      × ((imin f).sp ≡ f.sp - 1)
      × ((imax f).sp ≡ f.sp - 1)
unfolding imin imax
imin-imax f enough small1 small0 = (ground arith, ground arith, ground arith, ground arith)
