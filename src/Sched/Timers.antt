-- ===== src/Sched/Timers.antt =====
-- The timer queue of lib/src/thread/timer.c and timer.h, and its two callbacks in schedule.c. The time
-- is the argument `now`, in milliseconds. The tick counter that says when to look at the queue is
-- hardware, and is an argument of the tick.
use mjvmk.Base.{
  ℕ, ◌+◌, Bool, true, false, Option, none, some, List, [], ◌∷◌, ◌++◌, ◌==◌, ltb, if◌then◌else◌,
  ◌>>=◌, ◌%◌, ◌^◌,
}
use mathlib.Core.Option
use mjvmk.Ready.{remove_one}
use mjvmk.Sched.{
  Sched, TimerEntry, Callback, monitor_wait_expired, thread_sleep_expired, blocked_on_monitor,
  set_thread, set_monitor, set_status, make_running,
}

unfoldable pub timer_comparator : TimerEntry → TimerEntry → Bool
timer_comparator a b = ltb a.absolute_time b.absolute_time

-- `doubleListAddOneSorted`: before the first entry that comes later, so behind its equals.
unfoldable pub add_timer_callback : TimerEntry → List TimerEntry → List TimerEntry
add_timer_callback e [] = e ∷ []
add_timer_callback e (x ∷ xs) =
    if timer_comparator e x then e ∷ x ∷ xs else x ∷ add_timer_callback e xs

unfoldable pub remove_timer_callback : ℕ → List TimerEntry → Option (List TimerEntry)
remove_timer_callback t [] = none
remove_timer_callback t (x ∷ xs) =
    let later = Option.map (λ l. x ∷ l) (remove_timer_callback t xs) in
    if t == x.thread then some xs else later

-- `initializeTimerCallback` and `setTimerCallback` for the queue entry of a thread.
unfoldable pub start_timer : ℕ → ℕ → ℕ → Callback → Sched → Sched
start_timer now time_out t f s =
    let entry : TimerEntry = record {
      thread = t;
      id = s.timer_entry;
      callback = f;
      time_interval = time_out;
      absolute_time = (now + time_out) % 2 ^ 64;
    } in
    record s {
      timers = add_timer_callback entry s.timers;
      timer_entry = (s.timer_entry + 1) % 2 ^ 32;
    }

-- `removeTimerCallback` for the queue entry of a thread.
unfoldable pub stop_timer : ℕ → Sched → Option Sched
stop_timer t s = do l ← remove_timer_callback t s.timers; some (record s { timers = l })

-- `setMonitorDepth` with `pMonitor->pOwner = pThread`: a thread that waited gets its depth back.
unfoldable pub own_monitor : ℕ → ℕ → Sched → Sched
own_monitor m t s =
    let waited : Option ℕ = (s.threads t).wait_monitor in
    elim waited [
      | none ↦ set_monitor m (λ x. record x { owner = some t; depth = 1 }) s
      | some w ↦
          set_thread t (λ x. record x { wait_monitor = none })
            (set_monitor m
              (λ x. record x { owner = some t; depth = (s.threads t).wait_monitor_depth }) s)
    ]

-- What a thread does that leaves a monitor's asleep list: it blocks, or takes a free monitor and runs.
unfoldable pub rejoin_monitor : ℕ → ℕ → Sched → Sched
rejoin_monitor m t s = elim (s.monitors m).owner [
  | some o ↦
      set_status t blocked_on_monitor
        (set_monitor m (λ x. record x { blocked_list = x.blocked_list ++ (t ∷ []) }) s)
  | none ↦ make_running t (own_monitor m t s)
]

unfoldable pub wait_expired : ℕ → Sched → Option Sched
wait_expired t s = do
  m ← (s.threads t).wait_monitor
  l ← remove_one t (s.monitors m).asleep_list
  some (rejoin_monitor m t (set_monitor m (λ x. record x { asleep_list = l }) s))

unfoldable pub sleep_expired : ℕ → Sched → Option Sched
sleep_expired t s = do
  l ← remove_one t s.asleep_list
  some (
      make_running t
        (record (set_thread t (λ x. record x { interrupted = false }) s) { asleep_list = l }))

unfoldable pub call_back : TimerEntry → Sched → Option Sched
call_back e s = elim e.callback [
  | monitor_wait_expired ↦ wait_expired e.thread s
  | thread_sleep_expired ↦ sleep_expired e.thread s
]

-- `updateTimerQueue`: the entries that are due, first the soonest. The list is the queue, which no
-- callback changes.
unfoldable pub update_timer_queue : ℕ → List TimerEntry → Sched → Option Sched
update_timer_queue now [] s = some (record s { timers = [] })
update_timer_queue now (e ∷ es) s = elim (ltb now e.absolute_time) [
  | true ↦ some (record s { timers = e ∷ es })
  | false ↦ call_back e (record s { timers = es }) >>= update_timer_queue now es
]
