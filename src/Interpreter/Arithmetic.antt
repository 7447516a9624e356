-- ===== src/Interpreter/Arithmetic.antt =====
-- The integer handlers of jvm/src/execute/handlers/arithmeticHandlers.c. An int is a UINT32; a C shift
-- or a division that is undefined is `none`.
use mathlib.Core.Option
use mjvmk.Base.{
  ℕ, ◌+◌, ◌-◌, ◌*◌, ◌/◌, ◌%◌, Option, ◌==◌, if◌then◌else◌, bit_and, bit_or, bit_xor, update,
}
use mjvmk.Jlong.{
  Jlong, word, increment, decrement, negate, bitwise_xor, bitwise_or, bitwise_and, shl, shr, sar,
  shift_left, shift_right, unsigned_shift_right, multiply, divide, remainder,
}
use mjvmk.Interpreter.{Frame, get_int, get_long, set_int, set_long, decrement_stack_by, next_by}

-- `throwExceptionAndBreak(EXCEPTION_CODE_ARITHMETIC)`, or the frame after the instruction.
pub data Outcome : Type 0 where
  continues : Frame → Outcome
  throws_arithmetic : Frame → Outcome

abbrev pub int_handler : (ℕ → ℕ → ℕ) → Frame → Frame
int_handler op f = next_by 1 (decrement_stack_by 1 (set_int 1 (op (get_int 1 f) (get_int 0 f)) f))

unfoldable pub iadd : Frame → Frame
iadd = int_handler (λ a b. (a + b) % word)

unfoldable pub isub : Frame → Frame
isub = int_handler (λ a b. (a + word - b) % word)

unfoldable pub imul : Frame → Frame
imul = int_handler (λ a b. a * b % word)

unfoldable pub iand : Frame → Frame
iand = int_handler bit_and

unfoldable pub ior : Frame → Frame
ior = int_handler bit_or

unfoldable pub ixor : Frame → Frame
ixor = int_handler bit_xor

-- The operands are unsigned.
unfoldable pub idiv : Frame → Outcome
idiv f = if get_int 0 f == 0 then throws_arithmetic f else continues (int_handler (λ a b. a / b) f)

unfoldable pub irem : Frame → Outcome
irem f = if get_int 0 f == 0 then throws_arithmetic f else continues (int_handler (λ a b. a % b) f)

abbrev pub int_shift_handler : (ℕ → ℕ → Option ℕ) → Frame → Option Frame
int_shift_handler op f =
    Option.map (λ v. next_by 1 (decrement_stack_by 1 (set_int 1 v f)))
      (op (get_int 1 f) (bit_and 31 (get_int 0 f)))

unfoldable pub ishl : Frame → Option Frame
ishl = int_shift_handler shl

unfoldable pub ishr : Frame → Option Frame
ishr = int_shift_handler sar

unfoldable pub iushr : Frame → Option Frame
iushr = int_shift_handler shr

abbrev pub long_handler : (Jlong → Jlong → Jlong) → Frame → Frame
long_handler op f =
    next_by 1 (decrement_stack_by 2 (set_long 3 (op (get_long 3 f) (get_long 1 f)) f))

-- The macros on a long in place write its two words, and not the indicator before it.
abbrev pub set_long_words : ℕ → Jlong → Frame → Frame
set_long_words k v f = record f {
  fields = update f.fields (f.sp - k + 1) (record { object = v.high; primitive = v.low });
}

abbrev pub long_in_place : (Jlong → Jlong → Jlong) → Frame → Frame
long_in_place op f =
    next_by 1 (decrement_stack_by 2 (set_long_words 3 (op (get_long 3 f) (get_long 1 f)) f))

unfoldable pub ladd : Frame → Frame
ladd = long_in_place increment

unfoldable pub lsub : Frame → Frame
lsub = long_in_place decrement

unfoldable pub land : Frame → Frame
land = long_in_place bitwise_and

unfoldable pub lor : Frame → Frame
lor = long_in_place bitwise_or

unfoldable pub lxor : Frame → Frame
lxor = long_in_place bitwise_xor

unfoldable pub lneg : Frame → Frame
lneg f = next_by 1 (set_long_words 1 (negate (get_long 1 f)) f)

unfoldable pub lmul : Frame → Frame
lmul = long_handler multiply

abbrev pub long_partial_handler : (Jlong → Jlong → Option Jlong) → Frame → Option Frame
long_partial_handler op f =
    Option.map (λ v. next_by 1 (decrement_stack_by 2 (set_long 3 v f)))
      (op (get_long 3 f) (get_long 1 f))

unfoldable pub ldiv : Frame → Option Frame
ldiv = long_partial_handler divide

unfoldable pub lrem : Frame → Option Frame
lrem = long_partial_handler remainder

-- The long is read at entry 2 and written at entry 3.
abbrev pub long_shift_handler : (Jlong → ℕ → Option Jlong) → Frame → Option Frame
long_shift_handler op f =
    Option.map (λ v. next_by 1 (decrement_stack_by 1 (set_long 3 v f)))
      (op (get_long 2 f) (bit_and (get_int 0 f) 63))

unfoldable pub lshl : Frame → Option Frame
lshl = long_shift_handler shift_left

unfoldable pub lshr : Frame → Option Frame
lshr = long_shift_handler shift_right

unfoldable pub lushr : Frame → Option Frame
lushr = long_shift_handler unsigned_shift_right
