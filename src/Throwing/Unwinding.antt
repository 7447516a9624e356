-- ===== src/Throwing/Unwinding.antt =====
-- The frames that `findNewFrame` of jvm/src/frame/throw.c leaves.
use mjvmk.Base.{ℕ, suc, ◌+◌, ◌-◌, ◌%◌, ◌≡◌, ◌≢◌, ◌≤◌, true, false, Option, none, some, List, length}
use mjvmk.Classes.Nearest.{IsLine}
use mjvmk.Sched.{Sched}
use mjvmk.Sched.Monitors.{monitor_exit}
use mjvmk.Throwing.{Machine, Throw}
use mjvmk.Throwing.Handlers.{first_catching}

-- `line` has the class of every object and its superclasses, and the fuel is enough for each.
abbrev pub HasLines : ℕ → Machine → (ℕ → List ℕ) → Type 0
HasLines fuel m line =
    (o : ℕ)
    → IsLine m.classes (m.class_of o) (line o) × (m.class_of o ≢ 0) × (length (line o) ≤ suc fuel)

-- The code of the first handler of the frame whose range has the offset of the program counter, modulo
-- 2 ^ 16, and that catches the exception.
abbrev pub caught : Machine → (ℕ → List ℕ) → Throw → Option ℕ
caught m line t =
    first_catching m (line t.throwable) ((t.pc + 4294967296 - (m.frames t.fp).method.code) % 65536)
      (m.frames t.fp).method.throwable_handlers

-- The states that an exception goes through. A frame that does not catch it is left for the frame below, at
-- the instruction that the caller was at. The monitor of a synchronized method is exited; if the current
-- thread does not own it, the exception becomes the IllegalMonitorStateException.
pub data Unwinds (m : Machine) (line : ℕ → List ℕ) : ℕ → Throw → Throw → Type 0 where
  arrived : {t : Throw} → Unwinds m line 0 t t
  left_plain :
      {n : ℕ} {t v : Throw}
      → caught m line t ≡ none
      → (m.frames t.fp).method.is_synchronized ≡ false
      → Unwinds m line n
          (record t { pc = (m.frames t.fp).previous_pc; fp = (m.frames t.fp).previous_fp })
          v
      → Unwinds m line (suc n) t v
  left_owned :
      {n : ℕ} {t v : Throw} {s : Sched}
      → caught m line t ≡ none
      → (m.frames t.fp).method.is_synchronized ≡ true
      → (t.sched.monitors (m.frames t.fp).monitor).owner ≡ some t.sched.current
      → monitor_exit (m.frames t.fp).monitor t.sched ≡ some s
      → Unwinds m line n
          (record t {
            pc = (m.frames t.fp).previous_pc;
            fp = (m.frames t.fp).previous_fp;
            sched = s;
          })
          v
      → Unwinds m line (suc n) t v
  left_unowned :
      {n : ℕ} {t v : Throw} {s : Sched}
      → caught m line t ≡ none
      → (m.frames t.fp).method.is_synchronized ≡ true
      → (t.sched.monitors (m.frames t.fp).monitor).owner ≢ some t.sched.current
      → monitor_exit (m.frames t.fp).monitor t.sched ≡ some s
      → Unwinds m line n
          (record t {
            pc = (m.frames t.fp).previous_pc;
            fp = (m.frames t.fp).previous_fp;
            throwable = m.illegal_monitor_state;
            sched = s;
          })
          v
      → Unwinds m line (suc n) t v
