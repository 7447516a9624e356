-- ===== src/Interpreter/Locals.antt =====
-- The handlers of jvm/src/execute/handlers/localHandlers.c and wideHandlers.c, without floating point,
-- and `IINC` of arithmeticHandlers.c. The index of a local variable is a byte of the instruction, a
-- part of the opcode, or two bytes of a wide instruction.
use mjvmk.Base.{ℕ, ◌+◌, ◌-◌, ◌%◌, Option, none, some, ◌==◌, ltb, leb, ◌&&◌, if◌then◌else◌, update}
use mjvmk.Jlong.{Jlong, word}
use mjvmk.Interpreter.{
  Frame, get_int, get_long, push_int, push_long, decrement_stack_by, increment_stack_by, next_by,
  stack_entry,
}
use mjvmk.Interpreter.Code.{get_u2, set_pc}

-- `pLocalEntry`.
abbrev pub local_entry : ℕ → Frame → ℕ
local_entry n f = f.lp + n

abbrev pub get_local_int : ℕ → Frame → ℕ
get_local_int n f = (f.fields (local_entry n f)).primitive

abbrev pub get_local_object : ℕ → Frame → ℕ
get_local_object n f = (f.fields (local_entry n f)).object

abbrev pub get_local_long : ℕ → Frame → Jlong
get_local_long n f = record {
  high = (f.fields (local_entry n f + 1)).object;
  low = (f.fields (local_entry n f + 1)).primitive;
}

abbrev pub write_primitive : ℕ → ℕ → Frame → Frame
write_primitive a v f = record f {
  fields = update f.fields a (record (f.fields a) { primitive = v });
}

abbrev pub write_object : ℕ → ℕ → Frame → Frame
write_object a v f = record f { fields = update f.fields a (record (f.fields a) { object = v }) }

abbrev pub write_long : ℕ → Jlong → Frame → Frame
write_long a v f =
    let marked : Frame = write_object a 1 f in
    record marked {
      fields = update marked.fields (a + 1) (record { object = v.high; primitive = v.low });
    }

-- A load or a store of the variable `n` by an instruction of `size` bytes.
unfoldable pub iload : ℕ → ℕ → Frame → Frame
iload size n f = next_by size (push_int (get_local_int n f) f)

unfoldable pub lload : ℕ → ℕ → Frame → Frame
lload size n f = next_by size (push_long (get_local_long n f) f)

unfoldable pub aload : ℕ → ℕ → Frame → Frame
aload size n f =
    let up : Frame = increment_stack_by 1 f in
    next_by size (write_object up.sp (get_local_object n f) up)

unfoldable pub istore : ℕ → ℕ → Frame → Frame
istore size n f =
    next_by size (decrement_stack_by 1 (write_primitive (local_entry n f) (get_int 0 f) f))

-- `--getSP()`, the long there, and `getSP()--`.
unfoldable pub lstore : ℕ → ℕ → Frame → Frame
lstore size n f =
    let down : Frame = decrement_stack_by 1 f in
    next_by size (decrement_stack_by 1 (write_long (local_entry n f) (get_long 0 down) down))

unfoldable pub astore : ℕ → ℕ → Frame → Frame
astore size n f =
    next_by size
      (decrement_stack_by 1 (write_object (local_entry n f) (f.fields (stack_entry 0 f)).object f))

-- `popOperandStackRetAddressIntoLocal`: the return address is the primitive word.
unfoldable pub return_address_store : ℕ → ℕ → Frame → Frame
return_address_store size n f =
    next_by size (decrement_stack_by 1 (write_primitive (local_entry n f) (get_int 0 f) f))

-- The handlers of `ASTORE`, `ASTORE_0` to `ASTORE_3`, `RETURN_ADDRESS_STORE` and
-- `RETURN_ADDRESS_STORE_0` to `RETURN_ADDRESS_STORE_3` by their opcodes; none for another opcode.
unfoldable pub store_instruction : (ℕ → ℕ) → Frame → Option Frame
store_instruction code f =
    let op : ℕ = code f.pc in
    let n : ℕ = code (f.pc + 1) in
    if op == 58
    then some (astore 2 n f)
    else if leb 75 op && leb op 78
    then some (astore 1 (op - 75) f)
    else if op == 244
    then some (return_address_store 2 n f)
    else if leb 245 op && leb op 248
    then some (return_address_store 1 (op - 245) f)
    else none

-- `+=` of a signed byte, and of two bytes, to the UINT32 in a variable.
unfoldable pub iinc : (ℕ → ℕ) → Frame → Frame
iinc code f =
    let n : ℕ = code (f.pc + 1) in
    let d : ℕ = code (f.pc + 2) in
    let sum : ℕ = get_local_int n f + (if ltb d 128 then d else d + word - 256) in
    next_by 3 (write_primitive (local_entry n f) (sum % word) f)

unfoldable pub iinc_w : (ℕ → ℕ) → Frame → Frame
iinc_w code f =
    let n : ℕ = get_u2 code (f.pc + 1) in
    let d : ℕ = get_u2 code (f.pc + 3) in
    let sum : ℕ = get_local_int n f + (if ltb d 32768 then d else d + word - 65536) in
    next_by 5 (write_primitive (local_entry n f) (sum % word) f)

unfoldable pub ret_w : (ℕ → ℕ) → Frame → Frame
ret_w code f = set_pc (f.fields (f.lp + get_u2 code (f.pc + 1))).primitive f
