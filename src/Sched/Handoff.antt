-- ===== src/Sched/Handoff.antt =====
-- Monitors of lib/src/thread/schedule.h and schedule.c: the owner, the depth and the blocked threads
-- after the calls.
use mjvmk.Base.{
  ℕ, ◌+◌, ◌-◌, ◌%◌, ◌^◌, ◌<◌, ◌≡◌, true, false, none, some, List, [], ◌∷◌, ◌++◌, arith, refl,
  Option-cases, inl, inr, update_self, ap, ne→not_==, subst, sym, ==_refl, ◌>>=◌, ◌∙◌,
}
use mjvmk.LinkedList.Chain.{has}
use mjvmk.Ready
use mjvmk.Ready.{Ready, is_empty}
use mjvmk.Sched.{Sched, Monitor, running, priority, make_running, set_thread, set_monitor}
use mjvmk.Sched.Inv.{IsSched, set_monitor-IsSched, make_running-IsSched}
use mjvmk.Sched.Timers.{own_monitor}
use mjvmk.Sched.Monitors.{
  release_blocked_thread, exit_contended_monitor, monitor_exit, monitor_enter,
}
use mjvmk.Sched.Dispatch.{Switched, conditional_switch-highest}
use mjvmk.Sched.Preserve.Monitors.{own_monitor-IsSched}

-- The depth that a thread has on a monitor that passes to it: the depth of its wait, or one.
abbrev pub resumed_depth : Sched → ℕ → ℕ
resumed_depth s t = elim (s.threads t).wait_monitor [
  | none ↦ 1
  | some w ↦ (s.threads t).wait_monitor_depth
]

-- The monitor m is the thread t's, which is running and ready; the list waits on.
pub record PassedTo (m t depth : ℕ) (waiting : List ℕ) (s' : Sched) : Type 0 where
  pub owner : (s'.monitors m).owner ≡ some t
  pub depth_kept : (s'.monitors m).depth ≡ depth
  pub waiting_kept : (s'.monitors m).blocked_list ≡ waiting
  pub running_now : (s'.threads t).active_status ≡ running
  pub ready_now : has t (s'.ready.running (priority s' t)) ≡ true

append-not_empty : (xs : List ℕ) (t : ℕ) → is_empty (xs ++ (t ∷ [])) ≡ false
append-not_empty [] t = refl
append-not_empty (x ∷ xs) t = refl

pub make_running-ready :
    (t : ℕ) (s : Sched) → is_empty ((make_running t s).ready.running (priority s t)) ≡ false
unfolding make_running set_thread Ready.add_thread Ready.add_to_priority_map
make_running-ready t s =
    rw (update_self s.ready.running (priority s t) (s.ready.running (priority s t) ++ (t ∷ [])))
      (append-not_empty _ t)

has-last_added : (xs : List ℕ) (t : ℕ) → has t (xs ++ (t ∷ [])) ≡ true
has-last_added [] t = rw (==_refl t) refl
has-last_added (x ∷ xs) t = ground (arith, has-last_added xs t)

-- The thread stands on the list of its priority.
pub make_running-on_list :
    (t : ℕ) (s : Sched)
    → has t ((make_running t s).ready.running (priority (make_running t s) t)) ≡ true
unfolding make_running set_thread Ready.add_thread Ready.add_to_priority_map
make_running-on_list t s =
    let p : ℕ = priority s t in
    let same : priority (make_running t s) t ≡ p =
      ap (λ x. x.current_priority) (update_self s.threads t _) in
    subst (λ q. has t ((make_running t s).ready.running q) ≡ true) (sym same)
      (rw (update_self s.ready.running p (s.ready.running p ++ (t ∷ [])))
        (has-last_added (s.ready.running p) t))

own_monitor-monitor :
    (m t : ℕ) (s : Sched)
    → (own_monitor m t s).monitors m
      ≡ record (s.monitors m) { owner = some t; depth = resumed_depth s t }
unfolding own_monitor set_thread set_monitor
own_monitor-monitor m t s = elim (Option-cases (s.threads t).wait_monitor) [
  | inl w ↦ rw (w, own_monitor, resumed_depth) (update_self s.monitors m _)
  | inr (n, w) ↦ rw (w, own_monitor, resumed_depth) (update_self s.monitors m _)
]

make_running-monitors : (t : ℕ) (s : Sched) → (make_running t s).monitors ≡ s.monitors
unfolding make_running set_thread
make_running-monitors t s = refl

pub make_running-running :
    (t : ℕ) (s : Sched) → ((make_running t s).threads t).active_status ≡ running
unfolding make_running set_thread
make_running-running t s = ap (λ x. x.active_status) (update_self s.threads t _)

make_running-PassedTo :
    (m t d : ℕ) (ts : List ℕ) (s : Sched)
    → (s.monitors m).owner ≡ some t
    → (s.monitors m).depth ≡ d
    → (s.monitors m).blocked_list ≡ ts
    → PassedTo m t d ts (make_running t s)
make_running-PassedTo m t d ts s o e b = record {
  owner = rw (make_running-monitors t s) o;
  depth_kept = rw (make_running-monitors t s) e;
  waiting_kept = rw (make_running-monitors t s) b;
  running_now = make_running-running t s;
  ready_now = make_running-on_list t s;
}

release_blocked_thread-eq :
    (m t : ℕ) (ts : List ℕ) (s : Sched)
    → (s.monitors m).blocked_list ≡ t ∷ ts
    → release_blocked_thread m s
      ≡ make_running t (own_monitor m t (set_monitor m (λ x. record x { blocked_list = ts }) s))
unfolding release_blocked_thread
release_blocked_thread-eq m t ts s e = rw (e, release_blocked_thread) refl

pub set_monitor_self :
    (m : ℕ) (f : Monitor → Monitor) (s : Sched) → (set_monitor m f s).monitors m ≡ f (s.monitors m)
unfolding set_monitor
set_monitor_self m f s = update_self s.monitors m _

resumed_depth-set_monitor :
    (m t : ℕ) (f : Monitor → Monitor) (s : Sched)
    → resumed_depth (set_monitor m f s) t ≡ resumed_depth s t
unfolding set_monitor
resumed_depth-set_monitor m t f s = refl

-- `releaseBlockedThread` gives the monitor to the first blocked thread, at the depth that it had when it
-- began to wait, or at depth one where it did not wait, and the thread runs.
pub release_blocked_thread-PassedTo :
    (m t : ℕ) (ts : List ℕ) (s : Sched)
    → (s.monitors m).blocked_list ≡ t ∷ ts
    → PassedTo m t (resumed_depth s t) ts (release_blocked_thread m s)
release_blocked_thread-PassedTo m t ts s e = rw (release_blocked_thread-eq m t ts s e) (
    let s₁ : Sched = set_monitor m (λ x. record x { blocked_list = ts }) s in
    let now = own_monitor-monitor m t s₁ in
    make_running-PassedTo m t (resumed_depth s t) ts (own_monitor m t s₁) (ap (λ x. x.owner) now)
      (ap (λ x. x.depth) now ∙ resumed_depth-set_monitor m t _ s)
      (ap (λ x. x.blocked_list) now ∙ ap (λ x. x.blocked_list) (set_monitor_self m _ s)))

-- What a released thread makes ready, at a priority below 64.
release_blocked_thread-ready :
    (m t : ℕ) (ts : List ℕ) (s : Sched)
    → IsSched s
    → (s.monitors m).blocked_list ≡ t ∷ ts
    → IsSched (release_blocked_thread m s)
      × ((p : ℕ) × (p < 64) × (is_empty ((release_blocked_thread m s).ready.running p) ≡ false))
release_blocked_thread-ready m t ts s v e = rw (release_blocked_thread-eq m t ts s e) (
    let v₁ =
      own_monitor-IsSched m t (set_monitor-IsSched m (λ x. record x { blocked_list = ts }) v) in
    (
      make_running-IsSched t v₁,
      (
        priority (own_monitor m t (set_monitor m (λ x. record x { blocked_list = ts }) s)) t,
        v₁.priorities t,
        make_running-ready t _,
      ),
    ))

PassedTo-switch :
    (m t d : ℕ) (ts : List ℕ) (s s' : Sched)
    → Switched s s'
    → PassedTo m t d ts s
    → PassedTo m t d ts s'
PassedTo-switch m t d ts s s' w h = record {
  owner = rw w.monitors h.owner;
  depth_kept = rw w.monitors h.depth_kept;
  waiting_kept = rw w.monitors h.waiting_kept;
  running_now = rw w.threads h.running_now;
  ready_now = rw w.threads (w.still_ready (priority s t) t h.ready_now);
}

-- The state is in good order and the first thread blocked on the monitor is t.
-- `monitorExitContendedMonitor` then has a result, in which t owns the monitor at its own depth is
-- running and stands on the ready list of its priority, and the other blocked threads wait in their order.
pub exit_contended_monitor-PassedTo :
    (m t : ℕ) (ts : List ℕ) (s : Sched)
    → IsSched s
    → (s.monitors m).blocked_list ≡ t ∷ ts
    → (s' : Sched) × (exit_contended_monitor m s ≡ some s') × PassedTo m t (resumed_depth s t) ts s'
unfolding exit_contended_monitor
exit_contended_monitor-PassedTo m t ts s v e =
    let passed = release_blocked_thread-PassedTo m t ts s e in
    let r = release_blocked_thread-ready m t ts s v e in
    let switched = conditional_switch-highest (release_blocked_thread m s) r.0 r.1.0 r.1.1 r.1.2 in
    (switched.0, switched.1, PassedTo-switch m t _ ts _ switched.0 switched.3 passed)

monitor_exit-contended :
    (m t : ℕ) (ts : List ℕ) (s : Sched)
    → (s.monitors m).depth ≡ 1
    → (s.monitors m).blocked_list ≡ t ∷ ts
    → monitor_exit m s ≡ exit_contended_monitor m (set_monitor m (λ x. record x { depth = 0 }) s)
unfolding monitor_exit
monitor_exit-contended m t ts s d b =
    let list : ((set_monitor m (λ x. record x { depth = 0 }) s).monitors m).blocked_list ≡ t ∷ ts =
      ap (λ x. x.blocked_list) (set_monitor_self m (λ x. record x { depth = 0 }) s) ∙ b in
    rw (d, monitor_exit) (rw (list, is_empty) refl)

-- The state is in good order, the monitor's depth is one, and the first thread blocked on it is t.
-- `monitorExit` then has a result, in which t owns the monitor at its own depth, is running and
-- stands on the ready list of its priority, and the other blocked threads wait in their order.
pub monitor_exit-PassedTo :
    (m t : ℕ) (ts : List ℕ) (s : Sched)
    → IsSched s
    → (s.monitors m).depth ≡ 1
    → (s.monitors m).blocked_list ≡ t ∷ ts
    → (s' : Sched) × (monitor_exit m s ≡ some s') × PassedTo m t (resumed_depth s t) ts s'
monitor_exit-PassedTo m t ts s v d e =
    let s₁ : Sched = set_monitor m (λ x. record x { depth = 0 }) s in
    let list : (s₁.monitors m).blocked_list ≡ t ∷ ts =
      ap (λ x. x.blocked_list) (set_monitor_self m (λ x. record x { depth = 0 }) s) ∙ e in
    let left =
      exit_contended_monitor-PassedTo m t ts s₁
        (set_monitor-IsSched m (λ x. record x { depth = 0 }) v) list in
    (
      left.0,
      monitor_exit-contended m t ts s d e ∙ left.1,
      subst (λ k. PassedTo m t k ts left.0)
          (resumed_depth-set_monitor m t (λ x. record x { depth = 0 }) s) left.2,
    )

monitor_enter-owned :
    (m : ℕ) (s : Sched)
    → (s.monitors m).owner ≡ some s.current
    → monitor_enter m s ≡ some (set_monitor m (λ x. record x { depth = (x.depth + 1) % 2 ^ 32 }) s)
unfolding monitor_enter
monitor_enter-owned m s o = rw (o, monitor_enter) (rw (==_refl s.current) refl)

monitor_exit-nested :
    (m d : ℕ) (s : Sched)
    → ((s.monitors m).depth + 2 ^ 32 - 1) % 2 ^ 32 ≡ d
    → 0 < d
    → monitor_exit m s ≡ some (set_monitor m (λ x. record x { depth = d }) s)
unfolding monitor_exit
monitor_exit-nested m d s e h = rw (e, monitor_exit) (rw (ne→not_== d 0 (omega arith)) refl)

-- A thread that owns a monitor at a depth from 1 to 2 ^ 32 - 2 enters and exits it: both calls have a
-- result, and the monitor is as it was.
pub monitor_enter-monitor_exit :
    (m : ℕ) (s : Sched)
    → (s.monitors m).owner ≡ some s.current
    → 0 < (s.monitors m).depth
    → (s.monitors m).depth + 1 < 2 ^ 32
    → (s' : Sched) × ((monitor_enter m s >>= monitor_exit m) ≡ some s')
      × (s'.monitors m ≡ s.monitors m)
monitor_enter-monitor_exit m s o lo hi =
    let s₁ : Sched = set_monitor m (λ x. record x { depth = (x.depth + 1) % 2 ^ 32 }) s in
    let there = set_monitor_self m (λ x. record x { depth = (x.depth + 1) % 2 ^ 32 }) s in
    let deep : (s₁.monitors m).depth ≡ ((s.monitors m).depth + 1) % 2 ^ 32 =
      ap (λ x. x.depth) there in
    (
      set_monitor m (λ x. record x { depth = (s.monitors m).depth }) s₁,
      rw (monitor_enter-owned m s o)
          (monitor_exit-nested m (s.monitors m).depth s₁ (omega (arith, deep)) lo),
      set_monitor_self m _ s₁
          ∙ ap (λ (x : Monitor). record x { depth = (s.monitors m).depth }) there,
    )

monitor_enter-free :
    (m : ℕ) (s : Sched)
    → (s.monitors m).owner ≡ none
    → monitor_enter m s
      ≡ some (set_monitor m (λ x. record x { owner = some s.current; depth = 1 }) s)
unfolding monitor_enter
monitor_enter-free m s o = rw (o, monitor_enter) refl

monitor_exit-last :
    (m : ℕ) (s : Sched)
    → (s.monitors m).depth ≡ 1
    → (s.monitors m).blocked_list ≡ []
    → monitor_exit m s
      ≡ some (
          set_monitor m
            (λ x. record x { owner = none })
            (set_monitor m (λ x. record x { depth = 0 }) s))
unfolding monitor_exit
monitor_exit-last m s d b =
    let list : ((set_monitor m (λ x. record x { depth = 0 }) s).monitors m).blocked_list ≡ [] =
      ap (λ x. x.blocked_list) (set_monitor_self m (λ x. record x { depth = 0 }) s) ∙ b in
    rw (d, monitor_exit) (rw (list, is_empty) refl)

-- A thread enters a free monitor on which nobody is blocked, and exits it: both calls have a result,
-- and the monitor is free again, with its lists as they were.
pub monitor_enter-monitor_exit_free :
    (m : ℕ) (s : Sched)
    → (s.monitors m).owner ≡ none
    → (s.monitors m).blocked_list ≡ []
    → (s' : Sched) × ((monitor_enter m s >>= monitor_exit m) ≡ some s')
      × (s'.monitors m ≡ record (s.monitors m) { owner = none; depth = 0 })
monitor_enter-monitor_exit_free m s o b =
    let s₁ : Sched = set_monitor m (λ x. record x { owner = some s.current; depth = 1 }) s in
    let there = set_monitor_self m (λ x. record x { owner = some s.current; depth = 1 }) s in
    (
      set_monitor m (λ x. record x { owner = none })
          (set_monitor m (λ x. record x { depth = 0 }) s₁),
      rw (monitor_enter-free m s o)
          (monitor_exit-last m s₁ (ap (λ x. x.depth) there) (ap (λ x. x.blocked_list) there ∙ b)),
      set_monitor_self m _ _
          ∙ ap (λ (x : Monitor). record x { owner = none })
              (set_monitor_self m _ s₁ ∙ ap (λ (x : Monitor). record x { depth = 0 }) there),
    )
