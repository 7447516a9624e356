-- ===== src/Sched/Preserve/Monitors.antt =====
-- The scheduler's invariant under the timer callbacks and the monitor functions.
use mjvmk.Base.{
  ℕ, ◌+◌, ◌%◌, ◌^◌, ◌-◌, ◌≡◌, false, Option, none, some, List, [], ◌∷◌, refl, ◌==◌, ltb, Bool-cases,
  Option-cases, List-cases, if◌then◌else◌, inl, inr, ◌⊎◌,
}
use mjvmk.Ready.{is_empty, remove_one}
use mjvmk.Sched.{
  Sched, TimerEntry, Callback, monitor_wait_expired, thread_sleep_expired, set_monitor,
}
use mjvmk.Sched.Inv.{
  IsSched, Keeps, Keeps-bind, Keeps-ask, IsSched-same, set_status-IsSched, set_monitor-IsSched,
  make_running-IsSched, set_thread-IsSched, take_front-Keeps, generated_switch-Keeps,
  conditional_switch-Keeps,
}
use mjvmk.Sched.Timers.{
  own_monitor, rejoin_monitor, wait_expired, sleep_expired, call_back, update_timer_queue,
  start_timer, stop_timer, remove_timer_callback,
}
use mjvmk.Sched.Monitors.{
  release_blocked_thread, enter_blocked_monitor, monitor_enter, monitor_exit, fall_asleep,
  monitor_wait, cancel_time_out, has_time_out, monitor_notify, cancel_all, monitor_notify_all,
  exit_contended_monitor,
}

pub own_monitor-IsSched : (m t : ℕ) {s : Sched} → IsSched s → IsSched (own_monitor m t s)
unfolding own_monitor
own_monitor-IsSched m t {s} v = elim (Option-cases (s.threads t).wait_monitor) [
  | inl e ↦ rw (e, own_monitor) (set_monitor-IsSched m _ v)
  | inr (w, e) ↦ rw (e, own_monitor) (set_thread-IsSched t _ (set_monitor-IsSched m _ v) (λ x h. h))
]

pub rejoin_monitor-IsSched : (m t : ℕ) {s : Sched} → IsSched s → IsSched (rejoin_monitor m t s)
unfolding rejoin_monitor
rejoin_monitor-IsSched m t {s} v = elim (Option-cases (s.monitors m).owner) [
  | inl e ↦ rw (e, rejoin_monitor) (make_running-IsSched t (own_monitor-IsSched m t v))
  | inr (o, e) ↦ rw (e, rejoin_monitor) (set_status-IsSched t _ (set_monitor-IsSched m _ v))
]

wait_expired-Keeps : (t : ℕ) {s : Sched} → IsSched s → Keeps (wait_expired t s)
unfolding wait_expired
wait_expired-Keeps t {s} v = Keeps-ask (s.threads t).wait_monitor _ λ m.
    Keeps-ask (remove_one t (s.monitors m).asleep_list) _
      λ l. rejoin_monitor-IsSched m t (set_monitor-IsSched m _ v)

sleep_expired-Keeps : (t : ℕ) {s : Sched} → IsSched s → Keeps (sleep_expired t s)
unfolding sleep_expired
sleep_expired-Keeps t {s} v = Keeps-ask (remove_one t s.asleep_list) _ λ l. make_running-IsSched t (
    IsSched-same _ (set_thread-IsSched t (λ x. record x { interrupted = false }) v (λ x h. h)) refl
      refl)

Callback-cases : (c : Callback) → (c ≡ monitor_wait_expired) ⊎ (c ≡ thread_sleep_expired)
Callback-cases monitor_wait_expired = inl refl
Callback-cases thread_sleep_expired = inr refl

call_back-Keeps : (e : TimerEntry) {s : Sched} → IsSched s → Keeps (call_back e s)
unfolding call_back
call_back-Keeps e v = elim (Callback-cases e.callback) [
  | inl w ↦ rw (w, call_back) (wait_expired-Keeps e.thread v)
  | inr w ↦ rw (w, call_back) (sleep_expired-Keeps e.thread v)
]

pub update_timer_queue-Keeps :
    (now : ℕ) (es : List TimerEntry) {s : Sched} → IsSched s → Keeps (update_timer_queue now es s)
unfolding update_timer_queue
update_timer_queue-Keeps now [] v = IsSched-same _ v refl refl
update_timer_queue-Keeps now (e ∷ es) {s} v = elim (Bool-cases (ltb now e.absolute_time)) [
  | inl early ↦ rw (early, update_timer_queue) (IsSched-same _ v refl refl)
  | inr due ↦
      rw (due, update_timer_queue)
        (Keeps-bind (call_back e _) (update_timer_queue now es)
          (call_back-Keeps e (IsSched-same _ v refl refl))
          (λ s' w. update_timer_queue-Keeps now es w))
]

pub start_timer-IsSched :
    (now d t : ℕ) (c : Callback) {s : Sched} → IsSched s → IsSched (start_timer now d t c s)
unfolding start_timer
start_timer-IsSched now d t c v = IsSched-same _ v refl refl

pub release_blocked_thread-IsSched :
    (m : ℕ) {s : Sched} → IsSched s → IsSched (release_blocked_thread m s)
unfolding release_blocked_thread
release_blocked_thread-IsSched m {s} v = elim (List-cases (s.monitors m).blocked_list) [
  | inl e ↦ rw (e, release_blocked_thread) (set_monitor-IsSched m _ v)
  | inr (t, ts, e) ↦
      rw (e, release_blocked_thread)
        (make_running-IsSched t (own_monitor-IsSched m t (set_monitor-IsSched m _ v)))
]

enter_blocked_monitor-Keeps : (m : ℕ) {s : Sched} → IsSched s → Keeps (enter_blocked_monitor m s)
unfolding enter_blocked_monitor
enter_blocked_monitor-Keeps m {s} v =
    take_front-Keeps _ v
      λ t s₁ w. generated_switch-Keeps (set_status-IsSched _ _ (set_monitor-IsSched m _ w))

pub monitor_enter-Keeps : (m : ℕ) {s : Sched} → IsSched s → Keeps (monitor_enter m s)
unfolding monitor_enter
monitor_enter-Keeps m {s} v = elim (Option-cases (s.monitors m).owner) [
  | inl e ↦ rw (e, monitor_enter) (set_monitor-IsSched m _ v)
  | inr (o, e) ↦ elim (Bool-cases (o == s.current)) [
    | inl q ↦ rw (e, monitor_enter) (rw q (set_monitor-IsSched m _ v))
    | inr q ↦ rw (e, monitor_enter) (rw q (enter_blocked_monitor-Keeps m v))
  ]
]

exit_last-Keeps :
    (m : ℕ) {s : Sched}
    → IsSched s
    → Keeps (
        if is_empty (s.monitors m).blocked_list
        then some (set_monitor m (λ x. record x { owner = none }) s)
        else exit_contended_monitor m s)
unfolding exit_contended_monitor
exit_last-Keeps m {s} v = elim (Bool-cases (is_empty (s.monitors m).blocked_list)) [
  | inl e ↦ rw e (set_monitor-IsSched m _ v)
  | inr e ↦ rw e (conditional_switch-Keeps (release_blocked_thread-IsSched m v))
]

pub monitor_exit-Keeps : (m : ℕ) {s : Sched} → IsSched s → Keeps (monitor_exit m s)
unfolding monitor_exit
monitor_exit-Keeps m {s} v = elim (Bool-cases (((s.monitors m).depth + 2 ^ 32 - 1) % 2 ^ 32 == 0)) [
  | inl z ↦ rw z (exit_last-Keeps m (set_monitor-IsSched m _ v))
  | inr z ↦ rw z (set_monitor-IsSched m _ v)
]

fall_asleep-Keeps : (m : ℕ) {s : Sched} → IsSched s → Keeps (fall_asleep m s)
unfolding fall_asleep
fall_asleep-Keeps m v = take_front-Keeps _ v λ t s₁ w.
    release_blocked_thread-IsSched m (set_thread-IsSched _ _ (set_monitor-IsSched m _ w) (λ x h. h))

pub monitor_wait-Keeps :
    (now m : ℕ) (time_out : Option ℕ) {s : Sched}
    → IsSched s
    → Keeps (monitor_wait now m time_out s)
unfolding monitor_wait
monitor_wait-Keeps now m none v =
    Keeps-bind (fall_asleep m _) _ (fall_asleep-Keeps m v)
      λ s₁ w. generated_switch-Keeps (set_status-IsSched _ _ w)
monitor_wait-Keeps now m (some d) v = Keeps-bind (fall_asleep m _) _ (fall_asleep-Keeps m v) λ s₁ w.
    elim (Bool-cases (d == 0)) [
      | inl z ↦ rw z (generated_switch-Keeps (set_status-IsSched _ _ w))
      | inr z ↦
          rw z (generated_switch-Keeps (set_status-IsSched _ _ (start_timer-IsSched _ _ _ _ w)))
    ]

pub stop_timer-Keeps : (t : ℕ) {s : Sched} → IsSched s → Keeps (stop_timer t s)
unfolding stop_timer
stop_timer-Keeps t {s} v =
    Keeps-ask (remove_timer_callback t s.timers) _ λ l. IsSched-same _ v refl refl

cancel_time_out-Keeps : (t : ℕ) {s : Sched} → IsSched s → Keeps (cancel_time_out t s)
unfolding cancel_time_out
cancel_time_out-Keeps t {s} v = elim (Bool-cases (has_time_out (s.threads t).active_status)) [
  | inl e ↦ rw e (stop_timer-Keeps t v)
  | inr e ↦ rw e v
]

pub monitor_notify-Keeps : (m : ℕ) {s : Sched} → IsSched s → Keeps (monitor_notify m s)
unfolding monitor_notify
monitor_notify-Keeps m {s} v = elim (List-cases (s.monitors m).asleep_list) [
  | inl e ↦ rw (e, monitor_notify) v
  | inr (t, ts, e) ↦
      rw (e, monitor_notify)
        (Keeps-bind (cancel_time_out t s) _ (cancel_time_out-Keeps t v) λ s₁ w.
          conditional_switch-Keeps (set_thread-IsSched t _ (set_monitor-IsSched m _ w) (λ x h. h)))
]

cancel_all-Keeps : (ts : List ℕ) {s : Sched} → IsSched s → Keeps (cancel_all ts s)
unfolding cancel_all
cancel_all-Keeps [] v = v
cancel_all-Keeps (t ∷ ts) {s} v =
    Keeps-bind (cancel_time_out t s) _ (cancel_time_out-Keeps t v)
      λ s₁ w. cancel_all-Keeps ts (set_thread-IsSched t _ w (λ x h. h))

pub monitor_notify_all-Keeps : (m : ℕ) {s : Sched} → IsSched s → Keeps (monitor_notify_all m s)
unfolding monitor_notify_all
monitor_notify_all-Keeps m {s} v = elim (Bool-cases (is_empty (s.monitors m).asleep_list)) [
  | inl e ↦ rw e v
  | inr e ↦ rw e (
      Keeps-bind (cancel_all (s.monitors m).asleep_list s) _
        (cancel_all-Keeps (s.monitors m).asleep_list v)
        λ s₁ w. conditional_switch-Keeps (set_monitor-IsSched m _ w))
]
