-- ===== src/Sched/Interrupts.antt =====
-- Threads of lib/src/thread/schedule.c that are notified and interrupted.
use mjvmk.Base.{
  ℕ, ◌≡◌, true, Option, none, some, List, [], ◌∷◌, ◌++◌, ◌==◌, refl, Bool-cases, Option-cases, inl,
  inr, ap, sym, subst, ==_refl, ◌∙◌, update_self,
}
use mjvmk.Ready
use mjvmk.Sched.{
  Sched, Thread, Monitor, asleep_on_monitor, set_thread, set_monitor, conditional_switch,
}
use mjvmk.Sched.Monitors.{monitor_notify, cancel_time_out, has_time_out, clear_interrupted}
use mjvmk.Sched.Threads.{
  interrupt_thread, interrupt_by_status, interrupt_waiting, leave_asleep_list,
}

set_thread_self :
    (t : ℕ) (f : Thread → Thread) (s : Sched) → (set_thread t f s).threads t ≡ f (s.threads t)
unfolding set_thread
set_thread_self t f s = update_self s.threads t _

set_thread-monitors :
    (t : ℕ) (f : Thread → Thread) (s : Sched) → (set_thread t f s).monitors ≡ s.monitors
unfolding set_thread
set_thread-monitors t f s = refl

interrupt_waiting-first :
    (s : Sched) (t m : ℕ) (ts : List ℕ)
    → (s.threads t).wait_monitor ≡ some m
    → (s.monitors m).asleep_list ≡ t ∷ ts
    → interrupt_waiting t s ≡ none
unfolding interrupt_waiting leave_asleep_list
interrupt_waiting-first s t m ts waits list =
    rw (waits, interrupt_waiting) (rw (list, leave_asleep_list) (rw (==_refl t) refl))

interrupt_thread-asleep :
    (s : Sched) (t : ℕ)
    → (s.threads t).active_status ≡ asleep_on_monitor
    → interrupt_thread t s
      ≡ interrupt_waiting t (set_thread t (λ x. record x { interrupted = true }) s)
unfolding interrupt_thread interrupt_by_status
interrupt_thread-asleep s t status = rw (status, interrupt_thread) refl

-- A thread that waits on a monitor without a time out, first in the monitor's asleep list, is
-- interrupted: `interruptThread` has no result, since the head of the list is not moved on.
pub interrupt_thread-first_asleep :
    (s : Sched) (t m : ℕ) (ts : List ℕ)
    → (s.threads t).active_status ≡ asleep_on_monitor
    → (s.threads t).wait_monitor ≡ some m
    → (s.monitors m).asleep_list ≡ t ∷ ts
    → interrupt_thread t s ≡ none
interrupt_thread-first_asleep s t m ts status waits list =
    interrupt_thread-asleep s t status
    ∙ interrupt_waiting-first _ t m ts (ap (λ x. x.wait_monitor) (set_thread_self t _ s) ∙ waits) (
        ap (λ g. (g m).asleep_list) (set_thread-monitors t (λ x. record x { interrupted = true }) s)
        ∙ list)

set_monitor-threads :
    (m : ℕ) (f : Monitor → Monitor) (s : Sched) → (set_monitor m f s).threads ≡ s.threads
unfolding set_monitor
set_monitor-threads m f s = refl

-- A result, if there is one, has a property.
abbrev pub Holds : (Sched → Type 0) → Option Sched → Type 0
Holds P none = Unit
Holds P (some s) = P s

conditional_switch-threads :
    (s : Sched) → Holds (λ s'. s'.threads ≡ s.threads) (conditional_switch s)
unfolding conditional_switch
conditional_switch-threads s = elim (Option-cases (Ready.highest_priority_thread s.ready)) [
  | inl e ↦ rw (e, Holds) tt
  | inr (n, e) ↦ elim (Bool-cases (n == s.current)) [
    | inl c ↦ rw (e, Holds) (rw c refl)
    | inr c ↦ rw (e, Holds) (rw c refl)
  ]
]

monitor_notify-first :
    (s : Sched) (t m : ℕ) (ts : List ℕ)
    → (s.monitors m).asleep_list ≡ t ∷ ts
    → (s.threads t).active_status ≡ asleep_on_monitor
    → monitor_notify m s
      ≡ conditional_switch (
          clear_interrupted t (
            set_monitor m
              (λ x. record x { asleep_list = ts; blocked_list = x.blocked_list ++ (t ∷ []) })
              s))
unfolding monitor_notify cancel_time_out
monitor_notify-first s t m ts list status =
    rw (list, monitor_notify) (rw (status, has_time_out) refl)

-- A thread that waits on a monitor without a time out is the first of the asleep list and is notified.
-- Its status stays the same in every result: the thread is on the blocked list, but has the status of one
-- that is asleep on the monitor.
pub monitor_notify-status :
    (s s' : Sched) (t m : ℕ) (ts : List ℕ)
    → (s.monitors m).asleep_list ≡ t ∷ ts
    → (s.threads t).active_status ≡ asleep_on_monitor
    → monitor_notify m s ≡ some s'
    → (s'.threads t).active_status ≡ asleep_on_monitor
monitor_notify-status s s' t m ts list status e =
    let s₁ : Sched = clear_interrupted t (
      set_monitor m (λ x. record x { asleep_list = ts; blocked_list = x.blocked_list ++ (t ∷ []) })
        s) in
    let same : s'.threads ≡ s₁.threads =
      subst (Holds (λ x. x.threads ≡ s₁.threads))
        (sym (monitor_notify-first s t m ts list status) ∙ e) (conditional_switch-threads s₁) in
    ap (λ g. (g t).active_status) same
    ∙ ap (λ x. x.active_status) (set_thread_self t _ _)
    ∙ ap (λ g. (g t).active_status) (set_monitor-threads m _ s)
    ∙ status
