-- ===== src/Sched/Threads.antt =====
-- Threads: the functions of lib/src/thread/schedule.c that start, delay, join, end and interrupt a
-- thread, and change its priority.
use mjvmk.Base.{
  ℕ, ◌+◌, ◌-◌, ◌%◌, ◌^◌, Bool, true, false, Option, none, some, List, [], ◌∷◌, ◌++◌, ◌==◌,
  if◌then◌else◌, ◌>>=◌,
}
use mjvmk.Ready
use mjvmk.Ready.{first, remove_one}
use mjvmk.Sched.{
  Sched, Thread, active, finished, ActiveStatus, asleep_timed_out, asleep_on_monitor,
  asleep_timed_out_on_monitor, blocked_on_monitor, blocked_on_thread_death, running,
  thread_sleep_expired, set_thread, set_monitor, set_status, priority, make_running, take_front,
  generated_switch, conditional_switch,
}
use mjvmk.Sched.Timers.{start_timer, stop_timer, rejoin_monitor}

abbrev pub is_running : Thread → Bool
is_running x = elim x.state [
  | active ↦ elim x.active_status [ running ↦ true | _ ↦ false ]
  | _ ↦ false
]

abbrev pub set_current_priority : ℕ → ℕ → Sched → Sched
set_current_priority t p s = set_thread t (λ x. record x { current_priority = p }) s

-- `setPriority`, and `setThreadPriority` in a critical region.
unfoldable pub set_priority : ℕ → ℕ → Sched → Option Sched
set_priority t p s =
    if is_running (s.threads t)
    then (if t == s.current
        then (do
          r ← Ready.change_priority (priority s t) p s.ready
          conditional_switch (set_current_priority t p (record s { ready = r })))
        else (do
          r ← Ready.remove_thread t (priority s t) s.ready
          conditional_switch
              (set_current_priority t p (record s { ready = Ready.add_thread t p r }))))
    else some (set_current_priority t p s)

-- `scheduleNewThread`, with a monitor to acquire or without.
unfoldable pub schedule_new_thread : ℕ → Option ℕ → Sched → Sched
schedule_new_thread t monitor s =
    let listed : Sched = record s {
      active_count = (s.active_count + 1) % 2 ^ 32;
      active_list = s.active_list ++ (t ∷ []);
    } in
    let s₁ : Sched = set_thread t (λ x. record x { state = active }) listed in
    elim monitor [
      | none ↦ make_running t s₁
      | some m ↦ elim (s.monitors m).owner [
        | none ↦ make_running t (set_monitor m (λ x. record x { owner = some t; depth = 1 }) s₁)
        | some o ↦
            set_status t blocked_on_monitor
              (set_monitor m (λ x. record x { blocked_list = x.blocked_list ++ (t ∷ []) }) s₁)
      ]
    ]

unfoldable pub thread_sleep : ℕ → ℕ → Sched → Option Sched
thread_sleep now time_out s = do
  (t, s₁) ← take_front (
      set_status s.current asleep_timed_out
        (start_timer now time_out s.current thread_sleep_expired s))
  generated_switch (record s₁ { asleep_list = s₁.asleep_list ++ (t ∷ []) })

unfoldable pub weak_yield : Sched → Option Sched
weak_yield s = conditional_switch s

unfoldable pub strong_yield : Sched → Option Sched
strong_yield s =
    let s₁ : Sched = record s { ready = Ready.rotate (priority s s.current) s.ready } in
    first (s₁.ready.running (priority s s.current)) >>= λ t.
    if t == s.current then some s₁ else generated_switch s₁

unfoldable pub thread_join : ℕ → Sched → Option Sched
thread_join joined s = do
  (t, s₁) ← take_front s
  generated_switch (
      set_thread s₁.current
        (λ x. record x { active_status = blocked_on_thread_death; joined_thread = some joined })
        (set_thread joined (λ x. record x { joining_threads = x.joining_threads ++ (t ∷ []) }) s₁))

-- The loop of `releaseJoinedThreads`, over the joining list of the current thread.
unfoldable pub release_joined_threads : List ℕ → Sched → Sched
release_joined_threads [] s = set_thread s.current (λ x. record x { joining_threads = [] }) s
release_joined_threads (t ∷ ts) s =
    release_joined_threads ts
      (make_running t (set_thread t (λ x. record x { interrupted = false }) s))

-- `removeThreadCritical`, where the thread has no `cleanUp` function.
unfoldable pub remove_current_thread : Sched → Option Sched
remove_current_thread s = do
  l ← remove_one s.current s.active_list
  (_, s₁) ← take_front (
      release_joined_threads (s.threads s.current).joining_threads
        (record s { active_count = (s.active_count + 2 ^ 32 - 1) % 2 ^ 32; active_list = l }))
  generated_switch (set_thread s₁.current (λ x. record x { state = finished }) s₁)

-- The thread leaves the asleep list of its monitor. The call passes the head of the list where its
-- address is due, so the head is not moved on: where the thread is the head the list is left broken.
unfoldable pub leave_asleep_list : ℕ → List ℕ → Option (List ℕ)
leave_asleep_list t [] = none
leave_asleep_list t (x ∷ xs) = if t == x then none else (remove_one t xs >>= λ l. some (x ∷ l))

abbrev pub has_owner : Option ℕ → Bool
has_owner none = false
has_owner (some o) = true

unfoldable pub interrupt_waiting : ℕ → Sched → Option Sched
interrupt_waiting t s = do
  m ← (s.threads t).wait_monitor
  l ← leave_asleep_list t (s.monitors m).asleep_list
  let s₁ = rejoin_monitor m t (set_monitor m (λ x. record x { asleep_list = l }) s)
  if has_owner (s.monitors m).owner then some s₁ else conditional_switch s₁

unfoldable pub interrupt_joining : ℕ → Sched → Option Sched
interrupt_joining t s = do
  j ← (s.threads t).joined_thread
  l ← remove_one t (s.threads j).joining_threads
  conditional_switch (make_running t (set_thread j (λ x. record x { joining_threads = l }) s))

unfoldable pub interrupt_sleeping : ℕ → Sched → Option Sched
interrupt_sleeping t s = do
  l ← remove_one t s.asleep_list
  conditional_switch (make_running t (record s { asleep_list = l }))

-- The branches of `interruptThread` on the status of the thread.
unfoldable pub interrupt_by_status : ActiveStatus → ℕ → Sched → Option Sched
interrupt_by_status blocked_on_thread_death t s = interrupt_joining t s
interrupt_by_status asleep_on_monitor t s = interrupt_waiting t s
interrupt_by_status asleep_timed_out_on_monitor t s = stop_timer t s >>= interrupt_waiting t
interrupt_by_status asleep_timed_out t s = interrupt_sleeping t s
interrupt_by_status _ t s = some s

unfoldable pub interrupt_thread : ℕ → Sched → Option Sched
interrupt_thread t s =
    interrupt_by_status (s.threads t).active_status t
      (set_thread t (λ x. record x { interrupted = true }) s)
