-- ===== src/Sched/Machine.antt =====
-- The calls of the scheduler as one data type, and a run of any sequence of them.
use mjvmk.Base.{ℕ, ◌<◌, Bool, true, false, Option, some, List, [], ◌∷◌, ◌>>=◌}
use mjvmk.Ready
use mjvmk.Ready.{is_empty}
use mjvmk.Sched.{Sched, priority}
use mjvmk.Sched.Timers.{update_timer_queue}
use mjvmk.Sched.Monitors.{
  monitor_enter, monitor_exit, monitor_wait, monitor_notify, monitor_notify_all,
}
use mjvmk.Sched.Threads.{
  set_priority, schedule_new_thread, thread_sleep, weak_yield, strong_yield, thread_join,
  remove_current_thread, interrupt_thread,
}
use mjvmk.Sched.Semaphores.{semaphore_post, semaphore_pend}

-- `if(timerQueue != NULL) updateTimerQueue()`.
unfoldable pub check_timers : ℕ → Bool → Sched → Option Sched
check_timers now true s = some s
check_timers now false s = update_timer_queue now s.timers s

unfoldable pub timers_when_due : ℕ → Bool → Sched → Option Sched
timers_when_due now false s = some s
timers_when_due now true s = check_timers now (is_empty s.timers) s

-- `concludeTimeShare`, from the tick interrupt. `due` says that the tick counter has reached the expiry.
unfoldable pub tick : ℕ → Bool → Sched → Option Sched
tick now due s = do
  s₁ ← timers_when_due now due s
  let s₂ = record s₁ { ready = Ready.rotate (priority s₁ s₁.current) s₁.ready }
  next ← Ready.highest_priority_thread s₂.ready
  some (record s₂ { current = next })

-- A call by the current thread, or the tick.
pub data Call : Type 0 where
  enter : ℕ → Call
  exit : ℕ → Call
  wait : ℕ → ℕ → Option ℕ → Call
  notify : ℕ → Call
  notify_all : ℕ → Call
  start : ℕ → Option ℕ → Call
  set_priority_of : ℕ → ℕ → Call
  sleep : ℕ → ℕ → Call
  yield_weakly : Call
  yield_strongly : Call
  join : ℕ → Call
  finish : Call
  interrupt : ℕ → Call
  post : ℕ → Call
  pend : ℕ → Call
  time_passes : ℕ → Bool → Call

unfoldable pub step : Call → Sched → Option Sched
step (enter m) s = monitor_enter m s
step (exit m) s = monitor_exit m s
step (wait now m d) s = monitor_wait now m d s
step (notify m) s = monitor_notify m s
step (notify_all m) s = monitor_notify_all m s
step (start t m) s = some (schedule_new_thread t m s)
step (set_priority_of t p) s = set_priority t p s
step (sleep now d) s = thread_sleep now d s
step yield_weakly s = weak_yield s
step yield_strongly s = strong_yield s
step (join t) s = thread_join t s
step finish s = remove_current_thread s
step (interrupt t) s = interrupt_thread t s
step (post i) s = semaphore_post i s
step (pend i) s = semaphore_pend i s
step (time_passes now due) s = tick now due s

unfoldable pub run : List Call → Sched → Option Sched
run [] s = some s
run (c ∷ cs) s = step c s >>= run cs

-- The calls as they are meant: a new priority is below 64.
abbrev pub IsCall : Call → Type 0
IsCall (set_priority_of t p) = p < 64
IsCall _ = Unit

abbrev pub AreCalls : List Call → Type 0
AreCalls [] = Unit
AreCalls (c ∷ cs) = IsCall c × AreCalls cs
