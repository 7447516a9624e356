-- ===== src/Sched/Preserve/Threads.antt =====
-- The scheduler's invariant under the thread and semaphore functions.
use mjvmk.Base.{
  ℕ, ◌+◌, ◌%◌, ◌^◌, ◌-◌, ◌<◌, ◌||◌, Option, none, some, List, [], ◌∷◌, ◌++◌, refl, ◌==◌, Bool-cases,
  Option-cases, List-cases, inl, inr, arith,
}
use mjvmk.Ready
use mjvmk.Ready.{first, remove_one}
use mjvmk.Ready.Map.{
  IsReady, add_thread-IsReady, remove_thread-IsReady, change_priority-IsReady, rotate-IsReady,
}
use mjvmk.Sched.{
  Sched, active, ActiveStatus, asleep_timed_out, asleep_on_monitor, asleep_timed_out_on_monitor,
  blocked_on_thread_death, priority, set_thread,
}
use mjvmk.Sched.Inv.{
  IsSched, Keeps, Keeps-bind, Keeps-ask, Keeps-ask_eq, IsSched-same, set_monitor-IsSched,
  set_semaphore-IsSched, set_status-IsSched, make_running-IsSched, set_thread-IsSched,
  take_front-Keeps, generated_switch-Keeps, conditional_switch-Keeps,
}
use mjvmk.Sched.Timers.{stop_timer}
use mjvmk.Sched.Threads.{
  is_running, set_current_priority, set_priority, schedule_new_thread, thread_sleep, weak_yield,
  strong_yield, thread_join, release_joined_threads, remove_current_thread, leave_asleep_list,
  has_owner, interrupt_waiting, interrupt_joining, interrupt_sleeping, interrupt_by_status,
  interrupt_thread,
}
use mjvmk.Sched.Semaphores.{semaphore_post, semaphore_pend, is_negative}
use mjvmk.Sched.Preserve.Monitors.{rejoin_monitor-IsSched, start_timer-IsSched, stop_timer-Keeps}

-- A thread whose priority changes while the lists are changed with it.
reprioritize-IsSched :
    (t p : ℕ) (r : Ready.Ready) {s : Sched}
    → IsSched s
    → p < 64
    → IsReady r
    → IsSched (set_current_priority t p (record s { ready = r }))
unfolding set_thread
reprioritize-IsSched t p r v hp w = record {
  ready = w;
  priorities = λ u. ground (arith, v.priorities u);
}

pub set_priority-Keeps : (t p : ℕ) {s : Sched} → IsSched s → p < 64 → Keeps (set_priority t p s)
unfolding set_priority
set_priority-Keeps t p {s} v hp = elim (Bool-cases (is_running (s.threads t))) [
  | inr idle ↦ rw idle (set_thread-IsSched t _ v (λ x h. hp))
  | inl live ↦ elim (Bool-cases (t == s.current)) [
    | inl self ↦ rw live (
        rw self (
          Keeps-ask_eq (Ready.change_priority (priority s t) p s.ready) _ λ r e.
            conditional_switch-Keeps (
              reprioritize-IsSched t p r v hp
                (change_priority-IsReady v.ready (priority s t) p (v.priorities t) hp e))))
    | inr other ↦ rw live (
        rw other (
          Keeps-ask_eq (Ready.remove_thread t (priority s t) s.ready) _ λ r e.
            conditional_switch-Keeps (
              reprioritize-IsSched t p _ v hp (
                add_thread-IsReady
                  (remove_thread-IsReady v.ready t (priority s t) (v.priorities t) e) t p hp))))
  ]
]

listed-IsSched :
    (t : ℕ) {s : Sched}
    → IsSched s
    → IsSched (
        set_thread t
          (λ x. record x { state = active })
          (record s {
            active_count = (s.active_count + 1) % 2 ^ 32;
            active_list = s.active_list ++ (t ∷ []);
          }))
listed-IsSched t v = set_thread-IsSched t _ (IsSched-same _ v refl refl) (λ x h. h)

pub schedule_new_thread-IsSched :
    (t : ℕ) (m : Option ℕ) {s : Sched} → IsSched s → IsSched (schedule_new_thread t m s)
unfolding schedule_new_thread
schedule_new_thread-IsSched t none v = make_running-IsSched t (listed-IsSched t v)
schedule_new_thread-IsSched t (some m) {s} v = elim (Option-cases (s.monitors m).owner) [
  | inl e ↦
      rw (e, schedule_new_thread)
        (make_running-IsSched t (set_monitor-IsSched m _ (listed-IsSched t v)))
  | inr (o, e) ↦
      rw (e, schedule_new_thread)
        (set_status-IsSched t _ (set_monitor-IsSched m _ (listed-IsSched t v)))
]

pub thread_sleep-Keeps : (now d : ℕ) {s : Sched} → IsSched s → Keeps (thread_sleep now d s)
unfolding thread_sleep
thread_sleep-Keeps now d v =
    take_front-Keeps _ (set_status-IsSched _ _ (start_timer-IsSched now d _ _ v))
      λ t s₁ w. generated_switch-Keeps (IsSched-same _ w refl refl)

pub weak_yield-Keeps : {s : Sched} → IsSched s → Keeps (weak_yield s)
unfolding weak_yield
weak_yield-Keeps v = conditional_switch-Keeps v

pub strong_yield-Keeps : {s : Sched} → IsSched s → Keeps (strong_yield s)
unfolding strong_yield
strong_yield-Keeps {s} v =
    Keeps-ask (first ((Ready.rotate (priority s s.current) s.ready).running (priority s s.current)))
      _
      λ t. elim (Bool-cases (t == s.current)) [
        | inl e ↦ rw e rotated
        | inr e ↦ rw e (generated_switch-Keeps rotated)
      ]
  where
    rotated : IsSched (record s { ready = Ready.rotate (priority s s.current) s.ready })
    rotated = record {
      ready = rotate-IsReady v.ready (priority s s.current) (v.priorities s.current);
      priorities = v.priorities;
    }

pub thread_join-Keeps : (j : ℕ) {s : Sched} → IsSched s → Keeps (thread_join j s)
unfolding thread_join
thread_join-Keeps j v = take_front-Keeps _ v λ t s₁ w.
    generated_switch-Keeps (set_thread-IsSched _ _ (set_thread-IsSched j _ w (λ x h. h)) (λ x h. h))

release_joined_threads-IsSched :
    (ts : List ℕ) {s : Sched} → IsSched s → IsSched (release_joined_threads ts s)
unfolding release_joined_threads
release_joined_threads-IsSched [] v = set_thread-IsSched _ _ v (λ x h. h)
release_joined_threads-IsSched (t ∷ ts) v =
    release_joined_threads-IsSched ts (make_running-IsSched t (set_thread-IsSched t _ v (λ x h. h)))

pub remove_current_thread-Keeps : {s : Sched} → IsSched s → Keeps (remove_current_thread s)
unfolding remove_current_thread
remove_current_thread-Keeps {s} v = Keeps-ask (remove_one s.current s.active_list) _ λ l.
    take_front-Keeps _
      (release_joined_threads-IsSched (s.threads s.current).joining_threads
        (IsSched-same _ v refl refl))
      λ t s₁ w. generated_switch-Keeps (set_thread-IsSched _ _ w (λ x h. h))

interrupt_waiting-Keeps : (t : ℕ) {s : Sched} → IsSched s → Keeps (interrupt_waiting t s)
unfolding interrupt_waiting
interrupt_waiting-Keeps t {s} v = Keeps-ask (s.threads t).wait_monitor _ λ m.
    Keeps-ask (leave_asleep_list t (s.monitors m).asleep_list) _ λ l.
      let w =
        rejoin_monitor-IsSched m t (set_monitor-IsSched m (λ x. record x { asleep_list = l }) v) in
      elim (Bool-cases (has_owner (s.monitors m).owner)) [
        | inl e ↦ rw e w
        | inr e ↦ rw e (conditional_switch-Keeps w)
      ]

interrupt_joining-Keeps : (t : ℕ) {s : Sched} → IsSched s → Keeps (interrupt_joining t s)
unfolding interrupt_joining
interrupt_joining-Keeps t {s} v = Keeps-ask (s.threads t).joined_thread _ λ j.
    Keeps-ask (remove_one t (s.threads j).joining_threads) _
      λ l. conditional_switch-Keeps (make_running-IsSched t (set_thread-IsSched j _ v (λ x h. h)))

interrupt_sleeping-Keeps : (t : ℕ) {s : Sched} → IsSched s → Keeps (interrupt_sleeping t s)
unfolding interrupt_sleeping
interrupt_sleeping-Keeps t {s} v =
    Keeps-ask (remove_one t s.asleep_list) _
      λ l. conditional_switch-Keeps (make_running-IsSched t (IsSched-same _ v refl refl))

interrupt_by_status-Keeps :
    (a : ActiveStatus) (t : ℕ) {s : Sched} → IsSched s → Keeps (interrupt_by_status a t s)
unfolding interrupt_by_status
interrupt_by_status-Keeps blocked_on_thread_death t v = interrupt_joining-Keeps t v
interrupt_by_status-Keeps asleep_on_monitor t v = interrupt_waiting-Keeps t v
interrupt_by_status-Keeps asleep_timed_out_on_monitor t {s} v =
    Keeps-bind (stop_timer t s) (interrupt_waiting t) (stop_timer-Keeps t v)
      (λ s₁ w. interrupt_waiting-Keeps t w)
interrupt_by_status-Keeps asleep_timed_out t v = interrupt_sleeping-Keeps t v
interrupt_by_status-Keeps _ t v = v

pub interrupt_thread-Keeps : (t : ℕ) {s : Sched} → IsSched s → Keeps (interrupt_thread t s)
unfolding interrupt_thread
interrupt_thread-Keeps t {s} v =
    interrupt_by_status-Keeps (s.threads t).active_status t (set_thread-IsSched t _ v (λ x h. h))

pub semaphore_post-Keeps : (i : ℕ) {s : Sched} → IsSched s → Keeps (semaphore_post i s)
unfolding semaphore_post
semaphore_post-Keeps i {s} v = elim (Bool-cases ((c == 0) || is_negative c)) [
  | inr e ↦ rw e (set_semaphore-IsSched i _ v)
  | inl e ↦ elim (List-cases (s.semaphores i).blocked_list) [
    | inl q ↦ rw (e, semaphore_post) (rw (q, semaphore_post) tt)
    | inr (t, ts, q) ↦
        rw (e, semaphore_post)
          (rw (q, semaphore_post)
            (conditional_switch-Keeps
              (make_running-IsSched t (set_semaphore-IsSched i _ (set_semaphore-IsSched i _ v)))))
  ]
]
  where
    c : ℕ
    c = ((s.semaphores i).counter + 1) % 2 ^ 32

pub semaphore_pend-Keeps : (i : ℕ) {s : Sched} → IsSched s → Keeps (semaphore_pend i s)
unfolding semaphore_pend
semaphore_pend-Keeps i {s} v =
    elim (Bool-cases (is_negative (((s.semaphores i).counter + 2 ^ 32 - 1) % 2 ^ 32))) [
      | inl e ↦ rw e (
          take_front-Keeps _ (set_status-IsSched _ _ (set_semaphore-IsSched i _ v))
            λ t s₁ w. generated_switch-Keeps (set_semaphore-IsSched i _ w))
      | inr e ↦ rw e (set_semaphore-IsSched i _ v)
    ]
