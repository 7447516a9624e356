-- ===== src/Interpreter/Stack.antt =====
-- The handlers of jvm/src/execute/handlers/stackHandlers.c. `code` is the memory of the bytecode.
use mjvmk.Base.{ℕ, ◌+◌, ◌*◌}
use mjvmk.Interpreter.{
  Field, Frame, get_entry, set_entry, increment_stack_by, decrement_stack_by, push_entry, push_int,
  next_by,
}

unfoldable pub pop : Frame → Frame
pop f = next_by 1 (decrement_stack_by 1 f)

unfoldable pub pop2 : Frame → Frame
pop2 f = next_by 1 (decrement_stack_by 2 f)

unfoldable pub dup : Frame → Frame
dup f = let up : Frame = increment_stack_by 1 f in next_by 1 (set_entry 0 (get_entry 1 up) up)

unfoldable pub dup_x1 : Frame → Frame
dup_x1 f =
    let value : Field = get_entry 1 f in
    let value2 : Field = get_entry 0 f in
    next_by 1 (push_entry value2 (set_entry 0 value (set_entry 1 value2 f)))

unfoldable pub dup_x2 : Frame → Frame
dup_x2 f =
    let value : Field = get_entry 2 f in
    let value2 : Field = get_entry 1 f in
    let value3 : Field = get_entry 0 f in
    next_by 1 (push_entry value3 (set_entry 0 value2 (set_entry 1 value (set_entry 2 value3 f))))

unfoldable pub dup2 : Frame → Frame
dup2 f =
    let up : Frame = increment_stack_by 2 f in
    let first : Frame = set_entry 1 (get_entry 3 up) up in
    next_by 1 (set_entry 0 (get_entry 2 first) first)

unfoldable pub dup2_x1 : Frame → Frame
dup2_x1 f =
    let value : Field = get_entry 2 f in
    let value2 : Field = get_entry 1 f in
    let value3 : Field = get_entry 0 f in
    let moved : Frame = set_entry 0 value (set_entry 1 value3 (set_entry 2 value2 f)) in
    next_by 1 (push_entry value3 (push_entry value2 moved))

unfoldable pub dup2_x2 : Frame → Frame
dup2_x2 f =
    let value : Field = get_entry 3 f in
    let value2 : Field = get_entry 2 f in
    let value3 : Field = get_entry 1 f in
    let value4 : Field = get_entry 0 f in
    let moved : Frame =
      set_entry 0 value2 (set_entry 1 value (set_entry 2 value4 (set_entry 3 value3 f))) in
    next_by 1 (push_entry value4 (push_entry value3 moved))

unfoldable pub swap : Frame → Frame
swap f =
    let value : Field = get_entry 1 f in
    next_by 1 (set_entry 0 value (set_entry 1 (get_entry 0 f) f))

-- The byte and the two bytes are unsigned.
unfoldable pub bipush : (ℕ → ℕ) → Frame → Frame
bipush code f = next_by 2 (push_int (code (f.pc + 1)) f)

unfoldable pub sipush : (ℕ → ℕ) → Frame → Frame
sipush code f = next_by 3 (push_int (code (f.pc + 1) * 256 + code (f.pc + 2)) f)
