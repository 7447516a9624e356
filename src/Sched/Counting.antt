-- ===== src/Sched/Counting.antt =====
-- `semaphorePend` and `semaphorePost` of lib/src/thread/schedule.c: the counter and the blocked threads.
use mjvmk.Base.{
  ℕ, ◌+◌, ◌-◌, ◌%◌, ◌^◌, ◌≤◌, ◌<◌, ◌≡◌, true, ◌||◌, some, List, ◌∷◌, ◌==◌, leb, arith, refl, ap,
  ◌>>=◌, ◌∙◌, update_self, Bool-cases, inl, inr, ne→not_==,
}
use mjvmk.LinkedList.Chain.{has}
use mjvmk.Sched.{
  Sched, Semaphore, running, priority, set_thread, set_semaphore, make_running, conditional_switch,
}
use mjvmk.Sched.Inv.{IsSched, set_semaphore-IsSched, make_running-IsSched}
use mjvmk.Sched.Semaphores.{is_negative, semaphore_post, semaphore_pend}
use mjvmk.Sched.Dispatch.{Switched, conditional_switch-highest}
use mjvmk.Sched.Handoff.{make_running-ready, make_running-on_list, make_running-running}

set_semaphore_self :
    (i : ℕ) (f : Semaphore → Semaphore) (s : Sched)
    → (set_semaphore i f s).semaphores i ≡ f (s.semaphores i)
unfolding set_semaphore
set_semaphore_self i f s = update_self s.semaphores i _

counted : ℕ → ℕ → Sched → Sched
counted i c s = set_semaphore i (λ x. record x { counter = c }) s

pend-free :
    (i c : ℕ) (s : Sched)
    → ((s.semaphores i).counter + 2 ^ 32 - 1) % 2 ^ 32 ≡ c
    → c < 2 ^ 31
    → semaphore_pend i s ≡ some (counted i c s)
unfolding semaphore_pend counted
pend-free i c s e h =
    rw (e, semaphore_pend)
      (elim (Bool-cases (leb 2147483648 c)) [ inl b ↦ ground (arith, b, h) | inr b ↦ rw b refl ])

post-free :
    (i c : ℕ) (s : Sched)
    → ((s.semaphores i).counter + 1) % 2 ^ 32 ≡ c
    → 0 < c
    → c < 2 ^ 31
    → semaphore_post i s ≡ some (counted i c s)
unfolding semaphore_post counted
post-free i c s e l h =
    rw (e, semaphore_post)
      (elim (Bool-cases (leb 2147483648 c)) [
        | inl b ↦ ground (arith, b, h)
        | inr b ↦ rw (ne→not_== c 0 (omega arith)) (rw b refl)
      ])

-- A semaphore whose counter is above 0, as an INT32, is pended and posted: both calls have a result,
-- and the semaphore is as it was.
pub semaphore_pend-semaphore_post :
    (i : ℕ) (s : Sched)
    → 0 < (s.semaphores i).counter
    → (s.semaphores i).counter < 2 ^ 31
    → (s' : Sched) × ((semaphore_pend i s >>= semaphore_post i) ≡ some s')
      × (s'.semaphores i ≡ s.semaphores i)
unfolding counted
semaphore_pend-semaphore_post i s lo hi =
    let n : ℕ = (s.semaphores i).counter in
    let s₁ : Sched = counted i (n - 1) s in
    let less : (s₁.semaphores i).counter ≡ n - 1 = ap (λ x. x.counter) (set_semaphore_self i _ s) in
    (
      counted i n s₁,
      rw (pend-free i (n - 1) s (omega arith) (omega arith))
          (post-free i n s₁ (omega (arith, less)) lo hi),
      set_semaphore_self i _ s₁
          ∙ ap (λ (x : Semaphore). record x { counter = n }) (set_semaphore_self i _ s),
    )

-- The semaphore i has the counter c and the blocked threads ts, and t is running and ready.
pub record Released (i t c : ℕ) (ts : List ℕ) (s' : Sched) : Type 0 where
  pub counter_is : (s'.semaphores i).counter ≡ c
  pub waiting : (s'.semaphores i).blocked_list ≡ ts
  pub running_now : (s'.threads t).active_status ≡ running
  pub ready_now : has t (s'.ready.running (priority s' t)) ≡ true

released : ℕ → ℕ → ℕ → List ℕ → Sched → Sched
released i t c ts s =
    make_running t (set_semaphore i (λ x. record x { blocked_list = ts }) (counted i c s))

make_running-semaphores : (t : ℕ) (s : Sched) → (make_running t s).semaphores ≡ s.semaphores
unfolding make_running set_thread
make_running-semaphores t s = refl

released-Released : (i t c : ℕ) (ts : List ℕ) (s : Sched) → Released i t c ts (released i t c ts s)
unfolding released counted
released-Released i t c ts s =
    let there =
      set_semaphore_self i (λ x. record x { blocked_list = ts })
        (set_semaphore i (λ x. record x { counter = c }) s)
      ∙ ap (λ (x : Semaphore). record x { blocked_list = ts })
          (set_semaphore_self i (λ x. record x { counter = c }) s) in
    let before : Sched =
      set_semaphore i (λ x. record x { blocked_list = ts })
        (set_semaphore i (λ x. record x { counter = c }) s) in
    record {
      counter_is = rw (make_running-semaphores t before) (ap (λ x. x.counter) there);
      waiting = rw (make_running-semaphores t before) (ap (λ x. x.blocked_list) there);
      running_now = make_running-running t before;
      ready_now = make_running-on_list t before;
    }

post-release :
    (i t : ℕ) (ts : List ℕ) (s : Sched)
    → let c : ℕ = ((s.semaphores i).counter + 1) % 2 ^ 32 in
      ((c == 0) || is_negative c) ≡ true
      → (s.semaphores i).blocked_list ≡ t ∷ ts
      → semaphore_post i s ≡ conditional_switch (released i t c ts s)
unfolding semaphore_post released counted
post-release i t ts s h b = rw (h, semaphore_post) (rw b refl)

Released-switch :
    (i t c : ℕ) (ts : List ℕ) (s s' : Sched)
    → Switched s s'
    → Released i t c ts s
    → Released i t c ts s'
Released-switch i t c ts s s' w h = record {
  counter_is = rw w.semaphores h.counter_is;
  waiting = rw w.semaphores h.waiting;
  running_now = rw w.threads h.running_now;
  ready_now = rw w.threads (w.still_ready (priority s t) t h.ready_now);
}

-- The state is in good order and the semaphore's counter, as an INT32, is below 0; t is the first thread
-- blocked on it. `semaphorePost` has a result, in which the counter is one more, t is running and stands
-- on the ready list of its priority, and the other threads are still blocked, in their order.
pub semaphore_post-Released :
    (i t : ℕ) (ts : List ℕ) (s : Sched)
    → IsSched s
    → 2 ^ 31 ≤ (s.semaphores i).counter
    → (s.semaphores i).counter < 2 ^ 32
    → (s.semaphores i).blocked_list ≡ t ∷ ts
    → (s' : Sched) × (semaphore_post i s ≡ some s')
      × Released i t (((s.semaphores i).counter + 1) % 2 ^ 32) ts s'
unfolding released counted
semaphore_post-Released i t ts s v lo hi b =
    let c : ℕ = ((s.semaphores i).counter + 1) % 2 ^ 32 in
    let negative : ((c == 0) || is_negative c) ≡ true = ground arith in
    let before =
      set_semaphore-IsSched i (λ x. record x { blocked_list = ts })
        (set_semaphore-IsSched i (λ x. record x { counter = c }) v) in
    let t_priority : ℕ =
      priority (set_semaphore i (λ x. record x { blocked_list = ts }) (counted i c s)) t in
    let switched =
      conditional_switch-highest (released i t c ts s) (make_running-IsSched t before) t_priority
        (before.priorities t) (make_running-ready t _) in
    (
      switched.0,
      post-release i t ts s negative b ∙ switched.1,
      Released-switch i t c ts _ switched.0 switched.3 (released-Released i t c ts s),
    )
