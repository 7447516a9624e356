-- ===== src/Sched/Monitors.antt =====
-- Monitors: `monitorEnter` and `monitorExit` of lib/src/thread/schedule.h, and the monitor functions
-- of schedule.c.
use mjvmk.Base.{
  ℕ, ◌+◌, ◌-◌, ◌%◌, ◌^◌, Bool, true, false, Option, none, some, List, [], ◌∷◌, ◌++◌, ◌==◌,
  if◌then◌else◌, ◌>>=◌,
}
use mjvmk.Ready.{is_empty}
use mjvmk.Sched.{
  Sched, ActiveStatus, asleep_on_monitor, asleep_timed_out_on_monitor, blocked_on_monitor,
  monitor_wait_expired, set_thread, set_monitor, set_status, make_running, take_front,
  generated_switch, conditional_switch,
}
use mjvmk.Sched.Timers.{own_monitor, start_timer, stop_timer}

-- `releaseBlockedThread`: the monitor passes to the first blocked thread, which runs, or to nobody.
unfoldable pub release_blocked_thread : ℕ → Sched → Sched
release_blocked_thread m s = elim (s.monitors m).blocked_list [
  | [] ↦ set_monitor m (λ x. record x { owner = none }) s
  | t ∷ ts ↦
      make_running t (own_monitor m t (set_monitor m (λ x. record x { blocked_list = ts }) s))
]

-- `monitorEnterBlockedMonitor`.
unfoldable pub enter_blocked_monitor : ℕ → Sched → Option Sched
enter_blocked_monitor m s = do
  (t, s₁) ← take_front s
  generated_switch (
      set_status s₁.current blocked_on_monitor
        (set_monitor m (λ x. record x { blocked_list = x.blocked_list ++ (t ∷ []) }) s₁))

unfoldable pub monitor_enter : ℕ → Sched → Option Sched
monitor_enter m s = elim (s.monitors m).owner [
  | none ↦ some (set_monitor m (λ x. record x { owner = some s.current; depth = 1 }) s)
  | some o ↦
      if o == s.current
      then some (set_monitor m (λ x. record x { depth = (x.depth + 1) % 2 ^ 32 }) s)
      else enter_blocked_monitor m s
]

-- `monitorExitContendedMonitor`.
unfoldable pub exit_contended_monitor : ℕ → Sched → Option Sched
exit_contended_monitor m s = conditional_switch (release_blocked_thread m s)

unfoldable pub monitor_exit : ℕ → Sched → Option Sched
monitor_exit m s =
    let d : ℕ = ((s.monitors m).depth + 2 ^ 32 - 1) % 2 ^ 32 in
    let s₁ : Sched = set_monitor m (λ x. record x { depth = d }) s in
    if d == 0
    then (if is_empty (s₁.monitors m).blocked_list
        then some (set_monitor m (λ x. record x { owner = none }) s₁)
        else exit_contended_monitor m s₁)
    else some s₁

-- What `monitorWait` does before it decides on the time out: the front thread falls asleep on the
-- monitor, which remembers the depth for the current thread and passes on.
unfoldable pub fall_asleep : ℕ → Sched → Option Sched
fall_asleep m s = do
  (t, s₁) ← take_front s
  some (
      release_blocked_thread m (
        set_thread s₁.current
          (λ x. record x { wait_monitor = some m; wait_monitor_depth = (s₁.monitors m).depth })
          (set_monitor m (λ x. record x { asleep_list = x.asleep_list ++ (t ∷ []) }) s₁)))

-- `time_out` is `none` for a null pointer; a time out of zero is none either.
unfoldable pub monitor_wait : ℕ → ℕ → Option ℕ → Sched → Option Sched
monitor_wait now m time_out s = do
  s₁ ← fall_asleep m s
  generated_switch (elim time_out [
    | none ↦ set_status s₁.current asleep_on_monitor s₁
    | some d ↦
        if d == 0
        then set_status s₁.current asleep_on_monitor s₁
        else set_status s₁.current asleep_timed_out_on_monitor
            (start_timer now d s₁.current monitor_wait_expired s₁)
  ])

abbrev pub has_time_out : ActiveStatus → Bool
has_time_out asleep_timed_out_on_monitor = true
has_time_out _ = false

-- `if(status == THREAD_ASLEEP_TIMED_OUT_ON_MONITOR) removeTimerCallback(...)`.
unfoldable pub cancel_time_out : ℕ → Sched → Option Sched
cancel_time_out t s = if has_time_out (s.threads t).active_status then stop_timer t s else some s

abbrev pub clear_interrupted : ℕ → Sched → Sched
clear_interrupted t s = set_thread t (λ x. record x { interrupted = false }) s

unfoldable pub monitor_notify : ℕ → Sched → Option Sched
monitor_notify m s = elim (s.monitors m).asleep_list [
  | [] ↦ some s
  | t ∷ ts ↦ do
    s₁ ← cancel_time_out t s
    conditional_switch (
        clear_interrupted t (
          set_monitor m
            (λ x. record x { asleep_list = ts; blocked_list = x.blocked_list ++ (t ∷ []) }) s₁))
]

-- The loop of `monitorNotifyAll` over the asleep list.
unfoldable pub cancel_all : List ℕ → Sched → Option Sched
cancel_all [] s = some s
cancel_all (t ∷ ts) s = cancel_time_out t s >>= λ s₁. cancel_all ts (clear_interrupted t s₁)

unfoldable pub monitor_notify_all : ℕ → Sched → Option Sched
monitor_notify_all m s = if is_empty (s.monitors m).asleep_list then some s else (do
  s₁ ← cancel_all (s.monitors m).asleep_list s
  conditional_switch (
      set_monitor m
        (λ x. record x { asleep_list = []; blocked_list = x.blocked_list ++ x.asleep_list }) s₁))
