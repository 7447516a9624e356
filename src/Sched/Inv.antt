-- ===== src/Sched/Inv.antt =====
-- The scheduler's invariant: the bit maps agree with the lists of ready threads, and every priority is
-- below 64. The writes and the context switches are here; the calls are in Preserve.
use mjvmk.Base.{
  ℕ, ◌<◌, ◌≡◌, Option, none, some, arith, Bool-cases, subst, sym, refl, ◌==◌, ◌>>=◌, inl, inr,
}
use mjvmk.Ready
use mjvmk.Ready.{Ready, first}
use mjvmk.Ready.Map.{IsReady, add_thread-IsReady, remove_front-IsReady, rotate-IsReady}
use mjvmk.Sched.{
  Sched, Thread, Monitor, Semaphore, ActiveStatus, priority, set_thread, set_monitor, set_semaphore,
  set_status, make_running, take_front, generated_switch, conditional_switch,
}

pub record IsSched (s : Sched) : Type 0 where
  pub ready : IsReady s.ready
  pub priorities : (t : ℕ) → priority s t < 64

-- A result, if there is one, is as it should be.
abbrev pub Keeps : Option Sched → Type 0
Keeps none = Unit
Keeps (some s) = IsSched s

pub Keeps-bind :
    (o : Option Sched) (f : Sched → Option Sched)
    → Keeps o
    → ((s : Sched) → IsSched s → Keeps (f s))
    → Keeps (o >>= f)
Keeps-bind none f h k = tt
Keeps-bind (some s) f h k = k s h

pub Keeps-ask {ℓ} :
    {A : Type ℓ} (o : Option A) (f : A → Option Sched) → ((a : A) → Keeps (f a)) → Keeps (o >>= f)
Keeps-ask none f k = tt
Keeps-ask (some a) f k = k a

pub Keeps-ask_eq {ℓ} :
    {A : Type ℓ} (o : Option A) (f : A → Option Sched)
    → ((a : A) → o ≡ some a → Keeps (f a))
    → Keeps (o >>= f)
Keeps-ask_eq none f k = tt
Keeps-ask_eq (some a) f k = k a refl

pub Keeps-ask_twice {ℓ κ} :
    {A : Type ℓ} {B : Type κ} (o : Option A) (g : A → Option B) (f : B → Option Sched)
    → ((a : A) → Keeps (g a >>= f))
    → Keeps (o >>= g >>= f)
Keeps-ask_twice none g f k = tt
Keeps-ask_twice (some a) g f k = k a

-- A change of a thread that leaves its priority alone.
pub set_thread-IsSched :
    (t : ℕ) (f : Thread → Thread) {s : Sched}
    → IsSched s
    → ((x : Thread) → x.current_priority < 64 → (f x).current_priority < 64)
    → IsSched (set_thread t f s)
unfolding set_thread
set_thread-IsSched t f {s} v same = record {
  ready = v.ready;
  priorities = λ u. ground (arith, v.priorities u, v.priorities t, same (s.threads t));
}

-- What changes neither the ready threads nor a thread.
pub IsSched-same :
    (s' : Sched) {s : Sched} → IsSched s → s'.ready ≡ s.ready → s'.threads ≡ s.threads → IsSched s'
IsSched-same s' v e f = record {
  ready = subst IsReady (sym e) v.ready;
  priorities = λ t. subst (λ g. (g t).current_priority < 64) (sym f) (v.priorities t);
}

pub set_monitor-IsSched :
    (m : ℕ) (f : Monitor → Monitor) {s : Sched} → IsSched s → IsSched (set_monitor m f s)
unfolding set_monitor
set_monitor-IsSched m f v = IsSched-same _ v refl refl

pub set_semaphore-IsSched :
    (i : ℕ) (f : Semaphore → Semaphore) {s : Sched} → IsSched s → IsSched (set_semaphore i f s)
unfolding set_semaphore
set_semaphore-IsSched i f v = IsSched-same _ v refl refl

pub set_status-IsSched :
    (t : ℕ) (a : ActiveStatus) {s : Sched} → IsSched s → IsSched (set_status t a s)
set_status-IsSched t a v = set_thread-IsSched t _ v (λ x h. h)

pub make_running-IsSched : (t : ℕ) {s : Sched} → IsSched s → IsSched (make_running t s)
unfolding make_running set_thread
make_running-IsSched t {s} v = record {
  ready = add_thread-IsReady v.ready t (priority s t) (v.priorities t);
  priorities = λ u. ground (arith, v.priorities u, v.priorities t);
}

pub take_front-Keeps :
    (f : ℕ × Sched → Option Sched) {s : Sched}
    → IsSched s
    → ((t : ℕ) (s' : Sched) → IsSched s' → Keeps (f (t, s')))
    → Keeps (take_front s >>= f)
unfolding take_front
take_front-Keeps f {s} v k =
    Keeps-ask_twice (first (s.ready.running (priority s s.current))) _ f (λ t. k t _ (record {
      ready = remove_front-IsReady v.ready (priority s s.current) (v.priorities s.current);
      priorities = v.priorities;
    }))

pub generated_switch-Keeps : {s : Sched} → IsSched s → Keeps (generated_switch s)
unfolding generated_switch
generated_switch-Keeps {s} v =
    Keeps-ask (Ready.highest_priority_thread s.ready) _ (λ t. IsSched-same _ v refl refl)

pub conditional_switch-Keeps : {s : Sched} → IsSched s → Keeps (conditional_switch s)
unfolding conditional_switch
conditional_switch-Keeps {s} v = Keeps-ask (Ready.highest_priority_thread s.ready) _ (λ t.
    elim (Bool-cases (t == s.current)) [
      | inl e ↦ rw e v
      | inr e ↦ rw e (record {
        ready = rotate-IsReady v.ready (priority s s.current) (v.priorities s.current);
        priorities = v.priorities;
      })
    ])
