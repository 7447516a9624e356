-- ===== src/Interpreter.antt =====
-- The operand stack of jvm/src/execute/frameRegisters.h on the stack fields of jvm/src/elements/types.h,
-- without stack maps: a field holds an object word and a primitive word. A long takes two fields: the
-- object word of the first is an indicator, and the second holds the two words of the long.
pub mod Stack
pub mod Arithmetic
pub mod Conversions
pub mod Code
pub mod Branches
pub mod Locals
pub mod Quick
pub mod Shuffles
pub mod Switches
pub mod Variables
pub mod Longs
mod Tests
use mjvmk.Base.{ℕ, ◌+◌, ◌-◌, update}
use mjvmk.Jlong.{Jlong}

pub record Field : Type 0 where
  pub object : ℕ
  pub primitive : ℕ

-- The fields by address, the stack pointer (the address of the top field), the program counter and the
-- locals pointer (the address of local variable 0). No
-- handler that is modelled reads a field below address 0 of a frame with enough entries.
pub record Frame : Type 0 where
  pub fields : ℕ → Field
  pub sp : ℕ
  pub pc : ℕ
  pub lp : ℕ

-- `pStackEntry`.
abbrev pub stack_entry : ℕ → Frame → ℕ
stack_entry k f = f.sp - k

abbrev pub get_entry : ℕ → Frame → Field
get_entry k f = f.fields (stack_entry k f)

abbrev pub get_int : ℕ → Frame → ℕ
get_int k f = (f.fields (stack_entry k f)).primitive

abbrev pub get_long : ℕ → Frame → Jlong
get_long k f = record {
  high = (f.fields (stack_entry k f + 1)).object;
  low = (f.fields (stack_entry k f + 1)).primitive;
}

abbrev pub set_entry : ℕ → Field → Frame → Frame
set_entry k x f = record f { fields = update f.fields (stack_entry k f) x }

abbrev pub set_int : ℕ → ℕ → Frame → Frame
set_int k v f = record f {
  fields =
      update f.fields (stack_entry k f) (record (f.fields (stack_entry k f)) { primitive = v });
}

abbrev pub mark_long : ℕ → Frame → Frame
mark_long k f = record f {
  fields = update f.fields (stack_entry k f) (record (f.fields (stack_entry k f)) { object = 1 });
}

abbrev pub set_long : ℕ → Jlong → Frame → Frame
set_long k v f =
    let marked : Frame = mark_long k f in
    record marked {
      fields =
          update marked.fields (stack_entry k f + 1)
            (record { object = v.high; primitive = v.low });
    }

abbrev pub increment_stack_by : ℕ → Frame → Frame
increment_stack_by n f = record f { sp = f.sp + n }

abbrev pub decrement_stack_by : ℕ → Frame → Frame
decrement_stack_by n f = record f { sp = f.sp - n }

abbrev pub push_entry : Field → Frame → Frame
push_entry x f = set_entry 0 x (increment_stack_by 1 f)

abbrev pub push_int : ℕ → Frame → Frame
push_int v f = set_int 0 v (increment_stack_by 1 f)

abbrev pub push_long : Jlong → Frame → Frame
push_long v f = increment_stack_by 1 (set_long 0 v (increment_stack_by 1 f))

abbrev pub next_by : ℕ → Frame → Frame
next_by n f = record f { pc = f.pc + n }
