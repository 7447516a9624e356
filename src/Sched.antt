-- ===== src/Sched.antt =====
-- The scheduler of lib/src/thread (thread.h, schedule.h, schedule.c, contextSwitch.h, timer.h), in the
-- configuration of ps/x86: preemptive threads, no time shares, semaphores by priority. Threads,
-- monitors and semaphores are numbers; a critical region is one step. `none` stands for a use of a
-- null pointer, for the removal of an entry that is not on the list, and for the interrupt of the thread at
-- the head of a monitor's asleep list.
pub mod Timers
pub mod Monitors
pub mod Threads
pub mod Semaphores
pub mod Machine
pub mod Inv
pub mod Preserve
pub mod Dispatch
pub mod Handoff
pub mod Queues
pub mod Counting
pub mod Interrupts
mod Tests
use mathlib.Core.Option
use mjvmk.Base.{ℕ, Bool, Option, some, List, ◌==◌, if◌then◌else◌, update, ◌>>=◌}
use mjvmk.Ready
use mjvmk.Ready.{Ready, first}

pub data ThreadState : Type 0 where
  not_started active finished : ThreadState

pub data ActiveStatus : Type 0 where
  asleep_timed_out : ActiveStatus
  asleep_on_monitor : ActiveStatus
  asleep_timed_out_on_monitor : ActiveStatus
  blocked_on_monitor : ActiveStatus
  blocked_on_thread_death : ActiveStatus
  blocked_on_semaphore : ActiveStatus
  running : ActiveStatus

pub record Thread : Type 0 where
  pub state : ThreadState
  pub active_status : ActiveStatus
  pub current_priority : ℕ
  pub joining_threads : List ℕ
  pub joined_thread : Option ℕ
  pub wait_monitor_depth : ℕ
  pub wait_monitor : Option ℕ
  pub interrupted : Bool

pub record Monitor : Type 0 where
  pub depth : ℕ
  pub owner : Option ℕ
  pub asleep_list : List ℕ
  pub blocked_list : List ℕ

-- The counter is the bit pattern of an INT32.
pub record Semaphore : Type 0 where
  pub counter : ℕ
  pub blocked_list : List ℕ

-- What an entry of the timer queue calls: `monitorWaitExpired` or `threadSleepExpired`.
pub data Callback : Type 0 where
  monitor_wait_expired : Callback
  thread_sleep_expired : Callback

-- The queue entry inside a thread, with the thread's number for its address and argument.
pub record TimerEntry : Type 0 where
  pub thread : ℕ
  pub id : ℕ
  pub callback : Callback
  pub time_interval : ℕ
  pub absolute_time : ℕ

pub record Sched : Type 0 where
  pub ready : Ready
  pub threads : ℕ → Thread
  pub monitors : ℕ → Monitor
  pub semaphores : ℕ → Semaphore
  pub asleep_list : List ℕ
  pub active_list : List ℕ
  pub active_count : ℕ
  pub timers : List TimerEntry
  pub timer_entry : ℕ
  pub current : ℕ

-- A write through a pointer to a thread, a monitor or a semaphore.
unfoldable pub set_thread : ℕ → (Thread → Thread) → Sched → Sched
set_thread t f s = record s { threads = update s.threads t (f (s.threads t)) }

unfoldable pub set_monitor : ℕ → (Monitor → Monitor) → Sched → Sched
set_monitor m f s = record s { monitors = update s.monitors m (f (s.monitors m)) }

unfoldable pub set_semaphore : ℕ → (Semaphore → Semaphore) → Sched → Sched
set_semaphore m f s = record s { semaphores = update s.semaphores m (f (s.semaphores m)) }

abbrev pub priority : Sched → ℕ → ℕ
priority s t = (s.threads t).current_priority

abbrev pub set_status : ℕ → ActiveStatus → Sched → Sched
set_status t a s = set_thread t (λ x. record x { active_status = a }) s

-- `activeStatus = THREAD_RUNNING` and `addThreadToRunningThreads`.
unfoldable pub make_running : ℕ → Sched → Sched
make_running t s = record (set_status t running s) {
  ready = Ready.add_thread t (priority s t) s.ready;
}

-- `removeCurrentThreadFromRunningThreads`: the front of the list at the current priority leaves it,
-- whether or not it is the current thread (an assertion in test builds says that it is).
unfoldable pub take_front : Sched → Option (ℕ × Sched)
take_front s = do
  t ← first (s.ready.running (priority s s.current))
  some (t, record s { ready = Ready.remove_front (priority s s.current) s.ready })

-- `generatedContextSwitch`: the current thread is no longer ready.
unfoldable pub generated_switch : Sched → Option Sched
generated_switch s = do
  next ← Ready.highest_priority_thread s.ready
  some (record s { current = next })

-- `conditionalContextSwitch`: another thread may have a claim to run. `haltTimeShare` rotates the list
-- at the priority of the current thread before the switch.
unfoldable pub conditional_switch : Sched → Option Sched
conditional_switch s = do
  next ← Ready.highest_priority_thread s.ready
  some (
      if next == s.current
      then s
      else record s { ready = Ready.rotate (priority s s.current) s.ready; current = next })
