-- ===== src/Throwing.antt =====
-- The search for the handler of an exception, of jvm/src/frame/throw.c. The output of a stack trace where no Java
-- handler is found is left out.
pub mod Handlers
pub mod Unwinding
mod Tests
use mjvmk.Base.{
  ℕ, zero, suc, ◌+◌, ◌-◌, ◌%◌, Bool, true, false, Option, none, some, ◌>>=◌, List, [], ◌∷◌, ◌==◌,
  leb, ◌&&◌, ◌||◌, if◌then◌else◌,
}
use mjvmk.Classes.{ClassDef}
use mjvmk.Sched.{Sched}
use mjvmk.Sched.Monitors.{monitor_exit}

-- `throwableHandlerStruct` of jvm/src/elements/members.h. A key of 0 catches everything.
pub record Handler : Type 0 where
  pub start_pc_index : ℕ
  pub end_pc_index : ℕ
  pub handler_pc_index : ℕ
  pub catch_key : ℕ

-- What the search reads of a method. A list of handlers that is NULL is empty.
pub record Method : Type 0 where
  pub code : ℕ
  pub throwable_handlers : List Handler
  pub is_synchronized : Bool

-- `frameStruct` and `synchronizedFrameStruct` of jvm/src/javaThread/javaThread.h.
pub record StackFrame : Type 0 where
  pub method : Method
  pub previous_pc : ℕ
  pub previous_fp : ℕ
  pub monitor : ℕ

-- The classes and their keys, the frames, the classes of the objects, and the instance of
-- IllegalMonitorStateException.
pub record Machine : Type 0 where
  pub classes : ℕ → ClassDef
  pub keys : ℕ → ℕ
  pub frames : ℕ → StackFrame
  pub class_of : ℕ → ℕ
  pub illegal_monitor_state : ℕ

-- The loop of `foundHandler` over the superclasses.
unfoldable pub superclass_has : ℕ → Machine → ℕ → ℕ → Bool
superclass_has zero m key class_def = false
superclass_has (suc fuel) m key class_def =
    let up : ℕ = (m.classes class_def).super_class in
    let rest = superclass_has fuel m key up in
    if up == 0 then false else if key == m.keys up then true else rest

-- A handler of the program counter that catches objects of the class.
unfoldable pub handles : ℕ → Machine → ℕ → ℕ → Handler → Bool
handles fuel m class_def pc_index handler =
    leb handler.start_pc_index pc_index
    && leb pc_index handler.end_pc_index
    && ((handler.catch_key == 0)
        || (handler.catch_key == m.keys class_def)
        || superclass_has fuel m handler.catch_key class_def)

-- `foundHandler`: the index of the handler's code, or none.
unfoldable pub found_handler : ℕ → Machine → ℕ → ℕ → List Handler → Option ℕ
found_handler fuel m class_def pc_index [] = none
found_handler fuel m class_def pc_index (handler ∷ handlers) =
    let rest = found_handler fuel m class_def pc_index handlers in
    if handles fuel m class_def pc_index handler then some handler.handler_pc_index else rest

-- `throwRegisterStruct`, the thrown object and the scheduler.
pub record Throw : Type 0 where
  pub fp : ℕ
  pub pc : ℕ
  pub throwable : ℕ
  pub sched : Sched

-- `programCounterIndex`, a UINT16.
abbrev pub pc_index_in : Method → ℕ → ℕ
pc_index_in method pc = (pc + 4294967296 - method.code) % 65536

-- The test of the `do` loop of `findNewFrame`.
unfoldable pub handler_of : ℕ → Machine → Throw → Option ℕ
handler_of fuel m t =
    let method : Method = (m.frames t.fp).method in
    found_handler fuel m (m.class_of t.throwable) (pc_index_in method t.pc)
      method.throwable_handlers

-- `monitorNotOwnedByCurrentJavaThread`, negated.
unfoldable pub is_owned : ℕ → Sched → Bool
is_owned monitor s = elim (s.monitors monitor).owner [
  | none ↦ false
  | some owner ↦ owner == s.current
]

-- The rest of the loop's body: the frame is left, and the monitor of a synchronized method is exited.
unfoldable pub leave_frame : Machine → Throw → Option Throw
leave_frame m t =
    let frame : StackFrame = m.frames t.fp in
    let thrown : ℕ =
      if is_owned frame.monitor t.sched then t.throwable else m.illegal_monitor_state in
    let left : Throw = record t { pc = frame.previous_pc; fp = frame.previous_fp } in
    elim frame.method.is_synchronized [
      | false ↦ some left
      | true ↦ monitor_exit frame.monitor t.sched >>= λ s.
          some (record left { throwable = thrown; sched = s })
    ]

-- `findNewFrame`. The first fuel is for the frames, the second for the superclasses.
unfoldable pub find_new_frame : ℕ → ℕ → Machine → Throw → Option Throw
find_new_frame zero fuel m t = none
find_new_frame (suc depth) fuel m t = elim (handler_of fuel m t) [
  | some index ↦ some (record t { pc = (m.frames t.fp).method.code + index })
  | none ↦ leave_frame m t >>= find_new_frame depth fuel m
]
