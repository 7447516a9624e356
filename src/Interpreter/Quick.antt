-- ===== src/Interpreter/Quick.antt =====
-- The constants of jvm/src/execute/handlers/stackHandlers.c and `MATH_QUICK` of arithmeticHandlers.c, the
-- instruction that stands for a call of a method of java.lang.Math.
use mjvmk.Base.{ℕ, ◌+◌, ◌-◌, ◌%◌, ◌==◌, if◌then◌else◌}
use mjvmk.Jlong.{Jlong, word, jlong_zero, less_than, greater_than, negate}
use mjvmk.Interpreter.{
  Frame, get_int, get_long, set_int, set_long, push_int, push_long, increment_stack_by,
  decrement_stack_by, next_by,
}
use mjvmk.Interpreter.Code.{signed_less}
use mjvmk.Interpreter.Locals.{write_object}

unfoldable pub aconst_null : Frame → Frame
aconst_null f = let up : Frame = increment_stack_by 1 f in next_by 1 (write_object up.sp 0 up)

unfoldable pub iconst : ℕ → Frame → Frame
iconst v f = next_by 1 (push_int v f)

unfoldable pub lconst : Jlong → Frame → Frame
lconst v f = next_by 1 (push_long v f)

-- The cases of the switch; the operands of an int are INT32.
unfoldable pub iabs : Frame → Frame
iabs f =
    let value : ℕ = get_int 0 f in
    if signed_less value 0 then set_int 0 ((word - value) % word) f else f

unfoldable pub imin : Frame → Frame
imin f =
    let value1 : ℕ = get_int 1 f in
    let value2 : ℕ = get_int 0 f in
    decrement_stack_by 1 (if signed_less value2 value1 then set_int 1 value2 f else f)

unfoldable pub imax : Frame → Frame
imax f =
    let value1 : ℕ = get_int 1 f in
    let value2 : ℕ = get_int 0 f in
    decrement_stack_by 1 (if signed_less value1 value2 then set_int 1 value2 f else f)

unfoldable pub labs : Frame → Frame
labs f =
    let value : Jlong = get_long 1 f in
    if less_than value jlong_zero then set_long 1 (negate value) f else f

-- The second long stays on the stack.
unfoldable pub lmin : Frame → Frame
lmin f =
    let value1 : Jlong = get_long 3 f in
    let value2 : Jlong = get_long 1 f in
    if greater_than value1 value2 then set_long 3 value2 f else f

unfoldable pub lmax : Frame → Frame
lmax f =
    let value1 : Jlong = get_long 3 f in
    let value2 : Jlong = get_long 1 f in if less_than value1 value2 then set_long 3 value2 f else f

-- An argument that is none of the six changes nothing.
unfoldable pub math_quick : (ℕ → ℕ) → Frame → Frame
math_quick code f =
    let op : ℕ = code (f.pc + 1) in
    next_by 3 (
      if op == 0
      then iabs f
      else (if op == 1
          then imin f
          else (if op == 2
              then imax f
              else (if op == 3
                  then labs f
                  else (if op == 4 then lmin f else (if op == 5 then lmax f else f))))))
