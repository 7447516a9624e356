-- ===== src/Interpreter/Branches.antt =====
-- The handlers of jvm/src/execute/handlers/branchHandlers.c, without floating point. An int is a UINT32,
-- so the comparisons of ints are unsigned; those of the switches are signed where the source casts.
use mjvmk.Base.{
  ℕ, zero, suc, ◌+◌, ◌-◌, ◌*◌, ◌%◌, Bool, ◌||◌, ◌&&◌, not, ◌==◌, ltb, leb, if◌then◌else◌, update,
}
use mjvmk.Jlong.{Jlong, word, less_than, greater_than}
use mjvmk.Interpreter.{
  Frame, get_int, get_entry, get_long, set_int, decrement_stack_by, increment_stack_by, next_by,
}
use mjvmk.Interpreter.Code.{
  get_u2, get_u4, add_s2, add_s4, set_pc, branch, branch_wide, signed_less,
}

-- The handler has no statement, so the program counter stays.
unfoldable pub nop : Frame → Frame
nop f = f

unfoldable pub goto : (ℕ → ℕ) → Frame → Frame
goto code f = branch code f

unfoldable pub goto_w : (ℕ → ℕ) → Frame → Frame
goto_w code f = branch_wide code 1 f

-- The two ends of a conditional branch, where the operands have left the stack.
abbrev pub branch_if : Bool → (ℕ → ℕ) → Frame → Frame
branch_if test code f = if test then branch code f else next_by 3 f

abbrev pub zero_comparison : (ℕ → Bool) → (ℕ → ℕ) → Frame → Frame
zero_comparison test code f = branch_if (test (get_int 0 f)) code (decrement_stack_by 1 f)

unfoldable pub ifeq : (ℕ → ℕ) → Frame → Frame
ifeq = zero_comparison (λ v. v == 0)

unfoldable pub ifne : (ℕ → ℕ) → Frame → Frame
ifne = zero_comparison (λ v. not (v == 0))

unfoldable pub iflt : (ℕ → ℕ) → Frame → Frame
iflt = zero_comparison (λ v. ltb v 0)

unfoldable pub ifle : (ℕ → ℕ) → Frame → Frame
ifle = zero_comparison (λ v. leb v 0)

unfoldable pub ifgt : (ℕ → ℕ) → Frame → Frame
ifgt = zero_comparison (λ v. ltb 0 v)

unfoldable pub ifge : (ℕ → ℕ) → Frame → Frame
ifge = zero_comparison (λ v. leb 0 v)

unfoldable pub ifnull : (ℕ → ℕ) → Frame → Frame
ifnull code f = branch_if ((get_entry 0 f).object == 0) code (decrement_stack_by 1 f)

unfoldable pub ifnonnull : (ℕ → ℕ) → Frame → Frame
ifnonnull code f = branch_if (not ((get_entry 0 f).object == 0)) code (decrement_stack_by 1 f)

abbrev pub comparison : (ℕ → ℕ → Bool) → (ℕ → ℕ) → Frame → Frame
comparison test code f = branch_if (test (get_int 1 f) (get_int 0 f)) code (decrement_stack_by 2 f)

unfoldable pub if_icmpeq : (ℕ → ℕ) → Frame → Frame
if_icmpeq = comparison (λ a b. a == b)

unfoldable pub if_icmpne : (ℕ → ℕ) → Frame → Frame
if_icmpne = comparison (λ a b. not (a == b))

unfoldable pub if_icmplt : (ℕ → ℕ) → Frame → Frame
if_icmplt = comparison (λ a b. ltb a b)

unfoldable pub if_icmple : (ℕ → ℕ) → Frame → Frame
if_icmple = comparison (λ a b. leb a b)

unfoldable pub if_icmpgt : (ℕ → ℕ) → Frame → Frame
if_icmpgt = comparison (λ a b. ltb b a)

unfoldable pub if_icmpge : (ℕ → ℕ) → Frame → Frame
if_icmpge = comparison (λ a b. leb b a)

unfoldable pub if_acmpeq : (ℕ → ℕ) → Frame → Frame
if_acmpeq code f =
    branch_if ((get_entry 1 f).object == (get_entry 0 f).object) code (decrement_stack_by 2 f)

unfoldable pub if_acmpne : (ℕ → ℕ) → Frame → Frame
if_acmpne code f =
    branch_if (not ((get_entry 1 f).object == (get_entry 0 f).object)) code (decrement_stack_by 2 f)

unfoldable pub lcmp : Frame → Frame
lcmp f =
    let a : Jlong = get_long 3 f in
    let b : Jlong = get_long 1 f in
    next_by 1 (
      set_int 0 (if less_than a b then word - 1 else (if greater_than a b then 1 else 0))
        (decrement_stack_by 3 f))

-- The bytes up to the next multiple of four from the start of the method's code.
abbrev pub padding : ℕ → Frame → ℕ
padding start f = 3 - (f.pc - start) % 4

unfoldable pub tableswitch : ℕ → (ℕ → ℕ) → Frame → Frame
tableswitch start code f =
    let pad : ℕ = padding start f in
    let low : ℕ = get_u4 code (f.pc + (pad + 5)) in
    let high : ℕ = get_u4 code (f.pc + (pad + 9)) in
    let value : ℕ = get_int 0 f in
    let popped : Frame = decrement_stack_by 1 f in
    if signed_less value low || signed_less high value
    then branch_wide code (pad + 1) popped
    else branch_wide code (pad + 13 + 4 * ((value + word - low) % word)) popped

-- The loop of `LOOKUPSWITCH` from the pair `i` on, with `left` pairs to go: the place of the branch
-- distance. `base` is the address of the instruction and its padding.
unfoldable pub find_pair : (ℕ → ℕ) → ℕ → ℕ → ℕ → ℕ → ℕ
find_pair code base value i zero = 1
find_pair code base value i (suc left) =
    let later = find_pair code base value (i + 1) left in
    let pair_key : ℕ = get_u4 code (base + 9 + 8 * i) in
    if value == pair_key then 13 + 8 * i else (if ltb value pair_key then 1 else later)

-- A negative number of pairs is none.
abbrev pub pair_count : ℕ → ℕ
pair_count n = if ltb n 2147483648 then n else 0

unfoldable pub lookupswitch : ℕ → (ℕ → ℕ) → Frame → Frame
lookupswitch start code f =
    let pad : ℕ = padding start f in
    let pairs : ℕ = get_u4 code (f.pc + (pad + 5)) in
    let at : ℕ = find_pair code (f.pc + pad) (get_int 0 f) 0 (pair_count pairs) in
    branch_wide code (pad + at) (decrement_stack_by 1 f)

-- `pushOperandStackRetAddress`: the return address shares its word with a primitive.
abbrev pub push_ret_address : ℕ → Frame → Frame
push_ret_address a f = set_int 0 a (increment_stack_by 1 f)

-- `alterReturnAddressInstruction`: the opcode that is to take the return address, or none where
-- `throwError(ERROR_CODE_VIRTUAL_MACHINE)` follows.
abbrev pub return_address_opcode : ℕ → ℕ
return_address_opcode op =
    if op == 58
    then 244
    else (if leb 75 op && leb op 78 then op + 170 else (if leb 244 op && leb op 248 then op else 0))

pub data Jump : Type 0 where
  jumps : (ℕ → ℕ) → Frame → Jump
  throws_virtual_machine : Frame → Jump

-- `JSR` and `JSR_W`: the bytecode at the target may change.
abbrev pub jump_to : ℕ → ℕ → (ℕ → ℕ) → Frame → Jump
jump_to target size code f =
    let pushed : Frame = push_ret_address (f.pc + size) f in
    let op : ℕ = return_address_opcode (code target) in
    if op == 0
    then throws_virtual_machine pushed
    else jumps (update code target op) (set_pc target pushed)

unfoldable pub jsr : (ℕ → ℕ) → Frame → Jump
jsr code f = jump_to (add_s2 f.pc (get_u2 code (f.pc + 1))) 3 code f

unfoldable pub jsr_w : (ℕ → ℕ) → Frame → Jump
jsr_w code f = jump_to (add_s4 f.pc (get_u4 code (f.pc + 1))) 5 code f

unfoldable pub ret : (ℕ → ℕ) → Frame → Frame
ret code f = set_pc (f.fields (f.lp + code (f.pc + 1))).primitive f
