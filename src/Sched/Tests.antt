-- ===== src/Sched/Tests.antt =====
-- The theorems about the scheduler at concrete states.
use mjvmk.Base.{ℕ, ◌+◌, ◌%◌, ◌^◌, ◌≡◌, false, Option, none, some, List, [], ◌∷◌, arith, refl}
use mjvmk.Ready
use mjvmk.Ready.{
  nobody_ready, is_empty, first, highest_priority, highest_bit, highest_priority_thread,
  add_to_priority_map, set_bit,
}
use mjvmk.Ready.Map.{nobody_ready-IsReady}
use mjvmk.Sched.{
  Thread, Monitor, Semaphore, TimerEntry, Sched, active, running, asleep_on_monitor,
  thread_sleep_expired, make_running, set_thread, set_monitor, conditional_switch,
}
use mjvmk.Sched.Inv.{IsSched, make_running-IsSched}
use mjvmk.Sched.Timers.{update_timer_queue}
use mjvmk.Sched.Monitors.{monitor_enter, monitor_exit}
use mjvmk.Sched.Threads.{weak_yield}
use mjvmk.Sched.Semaphores.{semaphore_post}
use mjvmk.Sched.Machine.{Call, enter, time_passes, yield_weakly, tick, timers_when_due, step, run}
use mjvmk.Sched.Preserve.{run-IsSched}
use mjvmk.Sched.Dispatch.{IsChosen, Switched, conditional_switch-highest}
use mjvmk.Sched.Handoff.{PassedTo, resumed_depth, make_running-ready, monitor_exit-PassedTo}
use mjvmk.Sched.Queues.{IsTimely, IsAtLeast, update_timer_queue-none_due}
use mjvmk.Sched.Counting.{Released, semaphore_post-Released}

abbrev thread_at : ℕ → Thread
thread_at p = record {
  state = active;
  active_status = running;
  current_priority = p;
  joining_threads = [];
  joined_thread = none;
  wait_monitor_depth = 0;
  wait_monitor = none;
  interrupted = false;
}

abbrev monitor_of : ℕ → Option ℕ → List ℕ → Monitor
monitor_of d o waiting = record { depth = d; owner = o; asleep_list = []; blocked_list = waiting }

-- Nobody is ready; monitors 0 and above have one state, and so have semaphores.
abbrev at_rest : Monitor → Semaphore → Sched
at_rest m i = record {
  ready = nobody_ready;
  threads = λ t. thread_at 31;
  monitors = λ k. m;
  semaphores = λ k. i;
  asleep_list = [];
  active_list = [];
  active_count = 0;
  timers = [];
  timer_entry = 0;
  current = 0;
}

at_rest-IsSched : (m : Monitor) (i : Semaphore) → IsSched (at_rest m i)
at_rest-IsSched m i = record { ready = nobody_ready-IsReady; priorities = λ t. omega arith }

abbrev free_semaphore : Semaphore
free_semaphore = record { counter = 2; blocked_list = [] }

abbrev free_monitor : Monitor
free_monitor = monitor_of 0 none []

-- Thread 0 runs alone.
abbrev alone : Monitor → Semaphore → Sched
alone m i = make_running 0 (at_rest m i)

alone-IsSched : (m : Monitor) (i : Semaphore) → IsSched (alone m i)
alone-IsSched m i = make_running-IsSched 0 (at_rest-IsSched m i)

alone-ready : (m : Monitor) (i : Semaphore) → is_empty ((alone m i).ready.running 31) ≡ false
alone-ready m i = make_running-ready 0 (at_rest m i)

abbrev calm : Sched
calm = alone free_monitor free_semaphore

abbrev result_or : Sched → Option Sched → Sched
result_or s none = s
result_or s (some s') = s'

abbrev calls : List Call
calls = enter 3 ∷ time_passes 10 false ∷ yield_weakly ∷ []

run-IsSched_example : IsSched (result_or calm (run calls calm))
unfolding run step monitor_enter set_monitor tick timers_when_due highest_priority_thread
    highest_priority highest_bit make_running set_thread Ready.add_thread add_to_priority_map
    set_bit Ready.rotate conditional_switch weak_yield
run-IsSched_example =
    run-IsSched calls calm (result_or calm (run calls calm)) (tt, (tt, (tt, tt)))
      (alone-IsSched free_monitor free_semaphore) refl

conditional_switch-highest_example :
    (s' : Sched) × (conditional_switch calm ≡ some s')
    × IsChosen calm.ready.running s'.current
    × Switched calm s'
conditional_switch-highest_example =
    conditional_switch-highest calm (alone-IsSched free_monitor free_semaphore) 31 (omega arith)
      (alone-ready free_monitor free_semaphore)

-- Thread 0 is current, but thread 1 is before it.
abbrev stranded : Sched
stranded = make_running 0 (make_running 1 (at_rest free_monitor free_semaphore))

abbrev contended : Sched
contended = alone (monitor_of 1 (some 0) (4 ∷ 5 ∷ [])) free_semaphore

monitor_exit-PassedTo_example :
    (s' : Sched) × (monitor_exit 2 contended ≡ some s')
    × PassedTo 2 4 (resumed_depth contended 4) (5 ∷ []) s'
unfolding make_running set_thread
monitor_exit-PassedTo_example =
    monitor_exit-PassedTo 2 4 (5 ∷ []) contended
      (alone-IsSched (monitor_of 1 (some 0) (4 ∷ 5 ∷ [])) free_semaphore) refl refl

abbrev owned : Sched
owned = at_rest (monitor_of 3 (some 0) (4 ∷ [])) free_semaphore

abbrev resting : Sched
resting = at_rest free_monitor free_semaphore

abbrev entry_at : ℕ → ℕ → TimerEntry
entry_at t when = record {
  thread = t;
  id = t;
  callback = thread_sleep_expired;
  time_interval = 5;
  absolute_time = when;
}

abbrev queue : List TimerEntry
queue = entry_at 1 20 ∷ entry_at 2 40 ∷ []

queue-IsTimely : IsTimely queue
queue-IsTimely = ((omega arith, tt), (tt, tt))

abbrev waiting_late : Sched
waiting_late = record resting { timers = queue }

update_timer_queue-none_due_example : IsAtLeast (19 + 1) waiting_late.timers
unfolding update_timer_queue
update_timer_queue-none_due_example =
    update_timer_queue-none_due 19 queue waiting_late waiting_late queue-IsTimely refl

-- The counter is -2.
abbrev waited_on : Sched
waited_on = alone free_monitor (record { counter = 4294967294; blocked_list = 4 ∷ 5 ∷ [] })

semaphore_post-Released_example :
    (s' : Sched) × (semaphore_post 1 waited_on ≡ some s')
    × Released 1 4 (((waited_on.semaphores 1).counter + 1) % 2 ^ 32) (5 ∷ []) s'
unfolding make_running set_thread
semaphore_post-Released_example =
    semaphore_post-Released 1 4 (5 ∷ []) waited_on
      (alone-IsSched free_monitor (record { counter = 4294967294; blocked_list = 4 ∷ 5 ∷ [] }))
      (omega arith) (omega arith) refl

-- Every thread is asleep on monitor 1, and thread 4 is first.
abbrev asleep : Sched
asleep = record resting {
  threads = λ t. record (thread_at 31) { active_status = asleep_on_monitor; wait_monitor = some 1 };
  monitors = λ k. record { depth = 0; owner = none; asleep_list = 4 ∷ 5 ∷ []; blocked_list = [] };
}

abbrev asleep_and_ready : Sched
asleep_and_ready = record calm { threads = asleep.threads; monitors = asleep.monitors }
