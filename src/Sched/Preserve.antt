-- ===== src/Sched/Preserve.antt =====
-- The invariant of the scheduler of lib/src/thread over calls, ticks and sequences of them.
pub mod Monitors
pub mod Threads
use mjvmk.Base.{ℕ, ◌≡◌, Bool, true, false, some, List, [], ◌∷◌, refl, subst}
use mjvmk.Ready
use mjvmk.Ready.{is_empty}
use mjvmk.Ready.Map.{rotate-IsReady}
use mjvmk.Sched.{Sched, priority}
use mjvmk.Sched.Inv.{IsSched, Keeps, Keeps-bind, Keeps-ask, IsSched-same, conditional_switch-Keeps}
use mjvmk.Sched.Machine.{
  Call, enter, exit, wait, notify, notify_all, start, set_priority_of, sleep, yield_weakly,
  yield_strongly, join, finish, interrupt, post, pend, time_passes, tick, check_timers,
  timers_when_due, step, run, IsCall, AreCalls,
}
use mjvmk.Sched.Threads.{weak_yield}
use Monitors.*
use Threads.*

rotate-IsSched :
    {s : Sched}
    → IsSched s
    → IsSched (record s { ready = Ready.rotate (priority s s.current) s.ready })
rotate-IsSched {s} v = record {
  ready = rotate-IsReady v.ready (priority s s.current) (v.priorities s.current);
  priorities = v.priorities;
}

check_timers-Keeps : (now : ℕ) (b : Bool) {s : Sched} → IsSched s → Keeps (check_timers now b s)
unfolding check_timers
check_timers-Keeps now true v = v
check_timers-Keeps now false {s} v = update_timer_queue-Keeps now s.timers v

timers_when_due-Keeps :
    (now : ℕ) (due : Bool) {s : Sched} → IsSched s → Keeps (timers_when_due now due s)
unfolding timers_when_due
timers_when_due-Keeps now false v = v
timers_when_due-Keeps now true {s} v = check_timers-Keeps now (is_empty s.timers) v

tick-Keeps : (now : ℕ) (due : Bool) {s : Sched} → IsSched s → Keeps (tick now due s)
unfolding tick
tick-Keeps now due {s} v =
    Keeps-bind (timers_when_due now due s) _ (timers_when_due-Keeps now due v) (λ s₁ v₁.
      Keeps-ask (Ready.highest_priority_thread _) _
        (λ t. IsSched-same _ (rotate-IsSched v₁) refl refl))

step-Keeps : (c : Call) {s : Sched} → IsCall c → IsSched s → Keeps (step c s)
unfolding step weak_yield
step-Keeps (enter m) ok v = monitor_enter-Keeps m v
step-Keeps (exit m) ok v = monitor_exit-Keeps m v
step-Keeps (wait now m d) ok v = monitor_wait-Keeps now m d v
step-Keeps (notify m) ok v = monitor_notify-Keeps m v
step-Keeps (notify_all m) ok v = monitor_notify_all-Keeps m v
step-Keeps (start t m) ok v = schedule_new_thread-IsSched t m v
step-Keeps (set_priority_of t p) ok v = set_priority-Keeps t p v ok
step-Keeps (sleep now d) ok v = thread_sleep-Keeps now d v
step-Keeps yield_weakly ok v = conditional_switch-Keeps v
step-Keeps yield_strongly ok v = strong_yield-Keeps v
step-Keeps (join t) ok v = thread_join-Keeps t v
step-Keeps finish ok v = remove_current_thread-Keeps v
step-Keeps (interrupt t) ok v = interrupt_thread-Keeps t v
step-Keeps (post i) ok v = semaphore_post-Keeps i v
step-Keeps (pend i) ok v = semaphore_pend-Keeps i v
step-Keeps (time_passes now due) ok v = tick-Keeps now due v

run-Keeps : (cs : List Call) {s : Sched} → AreCalls cs → IsSched s → Keeps (run cs s)
unfolding run
run-Keeps [] ok v = v
run-Keeps (c ∷ cs) {s} ok v =
    Keeps-bind (step c s) _ (step-Keeps c ok.0 v) (λ s₁ v₁. run-Keeps cs ok.1 v₁)

-- From a state in which the bit maps agree with the lists of ready threads and all priorities are
-- below 64, any sequence of calls and ticks that runs to an end, and that sets priorities below 64 only,
-- comes to such a state.
pub run-IsSched :
    (cs : List Call) (s s' : Sched) → AreCalls cs → IsSched s → run cs s ≡ some s' → IsSched s'
run-IsSched cs s s' ok v e = subst Keeps e (run-Keeps cs ok v)

-- One call or tick that has a result, and sets a priority below 64 if any, keeps the invariant of the
-- scheduler.
pub step-IsSched :
    (c : Call) (s s' : Sched) → IsCall c → IsSched s → step c s ≡ some s' → IsSched s'
step-IsSched c s s' ok v e = subst Keeps e (step-Keeps c ok v)
