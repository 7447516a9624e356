-- ===== src/Sched/Queues.antt =====
-- The two sorted queues of lib/src/thread: the blocked threads of a semaphore and the timer queue.
use mjvmk.Base.{
  ℕ, ◌+◌, ◌≤◌, ◌<◌, ◌≡◌, Bool, true, false, Option, none, some, List, [], ◌∷◌, arith, refl,
  Bool-cases, inl, inr, ltb, ltb→lt, not_ltb→le, some_inj, none-ne-some, ◌>>=◌, subst,
}
use mjvmk.Sched.{Sched, TimerEntry, priority}
use mjvmk.Sched.Semaphores.{add_thread_to_sorted_queue}
use mjvmk.Sched.Timers.{add_timer_callback, timer_comparator, call_back, update_timer_queue}

-- Every entry comes no later than the entries behind it.
abbrev pub IsAtLeast : ℕ → List TimerEntry → Type 0
IsAtLeast n [] = Unit
IsAtLeast n (x ∷ xs) = (n ≤ x.absolute_time) × IsAtLeast n xs

abbrev pub IsTimely : List TimerEntry → Type 0
IsTimely [] = Unit
IsTimely (x ∷ xs) = IsAtLeast x.absolute_time xs × IsTimely xs

IsAtLeast-mono : (m n : ℕ) (l : List TimerEntry) → m ≤ n → IsAtLeast n l → IsAtLeast m l
IsAtLeast-mono m n [] h k = tt
IsAtLeast-mono m n (x ∷ xs) h k = (omega (arith, k.0), IsAtLeast-mono m n xs h k.1)

IsAtLeast-add :
    (n : ℕ) (e : TimerEntry) (l : List TimerEntry)
    → n ≤ e.absolute_time
    → IsAtLeast n l
    → IsAtLeast n (add_timer_callback e l)
unfolding add_timer_callback
IsAtLeast-add n e [] h k = (h, tt)
IsAtLeast-add n e (x ∷ xs) h k = elim (Bool-cases (timer_comparator e x)) [
  | inl c ↦ rw (c, add_timer_callback) ((h, k))
  | inr c ↦ rw (c, add_timer_callback) ((k.0, IsAtLeast-add n e xs h k.1))
]

-- `setTimerCallback` keeps the timer queue in the order of the times.
pub add_timer_callback-IsTimely :
    (e : TimerEntry) (l : List TimerEntry) → IsTimely l → IsTimely (add_timer_callback e l)
unfolding add_timer_callback timer_comparator
add_timer_callback-IsTimely e [] v = (tt, tt)
add_timer_callback-IsTimely e (x ∷ xs) v = elim (Bool-cases (timer_comparator e x)) [
  | inl c ↦
      let before : e.absolute_time < x.absolute_time = ltb→lt _ _ c in
      rw (c, add_timer_callback)
        (((omega arith, IsAtLeast-mono e.absolute_time x.absolute_time xs (omega arith) v.0), v))
  | inr c ↦
      let after : x.absolute_time ≤ e.absolute_time = not_ltb→le _ _ c in
      rw (c, add_timer_callback)
        ((IsAtLeast-add x.absolute_time e xs after v.0, add_timer_callback-IsTimely e xs v.1))
]

-- Where the head of a queue in order comes after a time, all of it does.
IsAtLeast-head :
    (n : ℕ) (x : TimerEntry) (xs : List TimerEntry)
    → n ≤ x.absolute_time
    → IsTimely (x ∷ xs)
    → IsAtLeast n (x ∷ xs)
IsAtLeast-head n x xs h v = (h, IsAtLeast-mono n x.absolute_time xs h v.0)

none_due_rest :
    (now : ℕ) (e : TimerEntry) (es : List TimerEntry) (s : Sched)
    → ((t : Sched)
        → (s' : Sched) → update_timer_queue now es t ≡ some s'
        → IsAtLeast (now + 1) s'.timers)
    → (o : Option Sched) (s' : Sched) → (o >>= update_timer_queue now es) ≡ some s'
    → IsAtLeast (now + 1) s'.timers
none_due_rest now e es s ih none s' eq = absurd (none-ne-some eq)
none_due_rest now e es s ih (some t) s' eq = ih t s' eq

-- The timer queue is in order. Where `updateTimerQueue` comes to an end, every entry that is left in
-- the queue is later than now.
pub update_timer_queue-none_due :
    (now : ℕ) (es : List TimerEntry) (s s' : Sched)
    → IsTimely es
    → update_timer_queue now es s ≡ some s'
    → IsAtLeast (now + 1) s'.timers
unfolding update_timer_queue
update_timer_queue-none_due now [] s s' v eq =
    subst (λ t. IsAtLeast (now + 1) t.timers) (some_inj eq) tt
update_timer_queue-none_due now (e ∷ es) s s' v eq =
    go (λ t t' h. update_timer_queue-none_due now es t t' v.1 h) (ltb now e.absolute_time) refl eq
  where
    go :
        ((t t' : Sched) → update_timer_queue now es t ≡ some t' → IsAtLeast (now + 1) t'.timers)
        → (b : Bool) → ltb now e.absolute_time ≡ b
        → elim b as (λ _. Option Sched) [
          | true ↦ some (record s { timers = e ∷ es })
          | false ↦ call_back e (record s { timers = es }) >>= update_timer_queue now es
        ]
          ≡ some s'
        → IsAtLeast (now + 1) s'.timers
    go ih true early q =
        let late : now < e.absolute_time = ltb→lt _ _ early in
        subst (λ t. IsAtLeast (now + 1) t.timers) (some_inj q)
          (IsAtLeast-head (now + 1) e es (omega arith) v)
    go ih false due q = none_due_rest now e es s ih _ s' q

-- The thread is behind all threads of its priority or more, and before all of a lower one.
abbrev pub IsAtMost : Sched → ℕ → List ℕ → Type 0
IsAtMost s n [] = Unit
IsAtMost s n (x ∷ xs) = (priority s x ≤ n) × IsAtMost s n xs

abbrev pub IsByPriority : Sched → List ℕ → Type 0
IsByPriority s [] = Unit
IsByPriority s (x ∷ xs) = IsAtMost s (priority s x) xs × IsByPriority s xs

IsAtMost-mono : (s : Sched) (m n : ℕ) (l : List ℕ) → m ≤ n → IsAtMost s m l → IsAtMost s n l
IsAtMost-mono s m n [] h k = tt
IsAtMost-mono s m n (x ∷ xs) h k = (omega (arith, k.0), IsAtMost-mono s m n xs h k.1)

IsAtMost-add :
    (s : Sched) (n t : ℕ) (l : List ℕ)
    → priority s t ≤ n
    → IsAtMost s n l
    → IsAtMost s n (add_thread_to_sorted_queue s t l)
unfolding add_thread_to_sorted_queue
IsAtMost-add s n t [] h k = (h, tt)
IsAtMost-add s n t (x ∷ xs) h k = elim (Bool-cases (ltb (priority s x) (priority s t))) [
  | inl c ↦ rw (c, add_thread_to_sorted_queue) ((h, k))
  | inr c ↦ rw (c, add_thread_to_sorted_queue) ((k.0, IsAtMost-add s n t xs h k.1))
]

-- `addThreadToSortedQueue` keeps the blocked threads of a semaphore in the order of their priorities,
-- so that the first one, which `semaphorePost` releases, has the highest.
pub add_thread_to_sorted_queue-IsByPriority :
    (s : Sched) (t : ℕ) (l : List ℕ)
    → IsByPriority s l
    → IsByPriority s (add_thread_to_sorted_queue s t l)
unfolding add_thread_to_sorted_queue
add_thread_to_sorted_queue-IsByPriority s t [] v = (tt, tt)
add_thread_to_sorted_queue-IsByPriority s t (x ∷ xs) v =
    elim (Bool-cases (ltb (priority s x) (priority s t))) [
      | inl c ↦
          let more : priority s x < priority s t = ltb→lt _ _ c in
          rw (c, add_thread_to_sorted_queue)
            (((omega arith, IsAtMost-mono s (priority s x) (priority s t) xs (omega arith) v.0), v))
      | inr c ↦
          let less : priority s t ≤ priority s x = not_ltb→le _ _ c in
          rw (c, add_thread_to_sorted_queue)
            ((
              IsAtMost-add s (priority s x) t xs less v.0,
              add_thread_to_sorted_queue-IsByPriority s t xs v.1,
            ))
    ]
