-- ===== src/Sched/Dispatch.antt =====
-- The two context switches of lib/src/thread/contextSwitch.h: which thread they choose.
use mjvmk.Base.{
  ℕ, ◌≤◌, ◌<◌, ◌≡◌, false, some, List, [], ◌∷◌, ◌==◌, arith, refl, Bool-cases, inl, inr, update,
  update_self, update_ne, ==_iff, ◌≢◌, ne→not_==, not_==→ne, true, subst,
}
use mjvmk.LinkedList.Chain.{has, has-append}
use mjvmk.Ready
use mjvmk.Ready.{Ready, is_empty, first, rotate_one, highest_priority}
use mjvmk.Ready.Map.{IsReady}
use mjvmk.Ready.Highest.{highest_priority-max}
use mjvmk.Sched.{Sched, priority, generated_switch, conditional_switch}
use mjvmk.Sched.Inv.{IsSched}

-- A list that is not empty has a first entry.
pub first-some : (xs : List ℕ) → is_empty xs ≡ false → (t : ℕ) × (first xs ≡ some t)
first-some [] e = ground (arith, e)
first-some (x ∷ xs) e = (x, refl)

-- The state is in good order and some thread is ready at priority p. `generatedContextSwitch` then has
-- a result, in which the current thread is the first of the list at the highest priority, that priority
-- is at least p, and the ready threads are as before.
pub generated_switch-highest :
    (s : Sched)
    → IsSched s
    → (p : ℕ) → p < 64
    → is_empty (s.ready.running p) ≡ false
    → (s' : Sched) × (generated_switch s ≡ some s')
      × (first (s.ready.running (highest_priority s.ready)) ≡ some s'.current)
      × (p ≤ highest_priority s.ready)
      × (s'.ready ≡ s.ready)
unfolding generated_switch Ready.highest_priority_thread
generated_switch-highest s v p hp full =
    let most = highest_priority-max v.ready p hp full in
    let front = first-some _ most.1 in
    (record s { current = front.0 }, rw front.1 refl, front.1, most.2, refl)

-- The thread t is the first of the ready threads at a priority above which nobody is ready.
abbrev pub IsChosen : (ℕ → List ℕ) → ℕ → Type 0
IsChosen running t =
    (q : ℕ) × (q < 64)
    × (first (running q) ≡ some t)
    × ((r : ℕ) → q < r → r < 64 → is_empty (running r) ≡ true)

highest-IsChosen :
    {r : Ready}
    → IsReady r
    → (p : ℕ) → p < 64
    → is_empty (r.running p) ≡ false
    → (t : ℕ) × (Ready.highest_priority_thread r ≡ some t) × IsChosen r.running t
unfolding Ready.highest_priority_thread
highest-IsChosen {r} v p hp full =
    let most = highest_priority-max v p hp full in
    let front = first-some (r.running (highest_priority r)) most.1 in
    (
      front.0,
      front.1,
      (
        highest_priority r,
        most.0,
        front.1,
        λ q above small. elim (Bool-cases (is_empty (r.running q))) [
          | inl void ↦ void
          | inr other ↦ absurd (omega (arith, above, highest_priority-max v q small other))
        ],
      ),
    )

has-rotate_one : (a : ℕ) (xs : List ℕ) → has a xs ≡ true → has a (rotate_one xs) ≡ true
has-rotate_one a [] h = h
has-rotate_one a (x ∷ xs) h = ground (arith, h, has-append a xs (x ∷ []))

-- What a conditional switch does besides its choice: where it chooses the current thread, nothing; else the
-- list at the current thread's priority turns by one, and the other lists stay. The ready threads are
-- still ready, and the rest of the state is as it was.
pub record Switched (s s' : Sched) : Type 0 where
  pub stays : s'.current ≡ s.current → s' ≡ s
  pub turns :
      s'.current ≢ s.current
      → s'.ready.running (priority s s.current)
        ≡ rotate_one (s.ready.running (priority s s.current))
  pub others : (q : ℕ) → priority s s.current ≢ q → s'.ready.running q ≡ s.ready.running q
  pub still_ready : (q t : ℕ) → has t (s.ready.running q) ≡ true → has t (s'.ready.running q) ≡ true
  pub rows : s'.ready.rows ≡ s.ready.rows
  pub matrix : s'.ready.matrix ≡ s.ready.matrix
  pub threads : s'.threads ≡ s.threads
  pub monitors : s'.monitors ≡ s.monitors
  pub semaphores : s'.semaphores ≡ s.semaphores
  pub timers : s'.timers ≡ s.timers
  pub asleep_list : s'.asleep_list ≡ s.asleep_list

same-Switched : (s : Sched) → Switched s s
same-Switched s = record {
  stays = λ same. refl;
  turns = λ other. absurd (other refl);
  others = λ q ne. refl;
  still_ready = λ q u h. h;
  rows = refl;
  matrix = refl;
  threads = refl;
  monitors = refl;
  semaphores = refl;
  timers = refl;
  asleep_list = refl;
}

turned-Switched :
    (s : Sched) (t : ℕ)
    → t ≢ s.current
    → Switched s (record s { ready = Ready.rotate (priority s s.current) s.ready; current = t })
unfolding Ready.rotate
turned-Switched s t ne =
    let p : ℕ = priority s s.current in
    let here = update_self s.ready.running p (rotate_one (s.ready.running p)) in
    record {
      stays = λ same. absurd (ne same);
      turns = λ other. here;
      others = λ q apart. update_ne s.ready.running p q _ apart;
      still_ready = λ q u h. elim (Bool-cases (p == q)) [
        | inl e ↦
            subst
              (λ k.
                has u (s.ready.running k) ≡ true
                → has u (update s.ready.running p (rotate_one (s.ready.running p)) k) ≡ true)
              ((==_iff p q).0 e) (λ i. rw here (has-rotate_one u (s.ready.running p) i)) h
        | inr n ↦
            rw (update_ne s.ready.running p q (rotate_one (s.ready.running p)) (not_==→ne p q n)) h
      ];
      rows = refl;
      matrix = refl;
      threads = refl;
      monitors = refl;
      semaphores = refl;
      timers = refl;
      asleep_list = refl;
    }

-- The state is in good order and some thread is ready. `conditionalContextSwitch` then has a result,
-- whose current thread is the first one of the highest priority at which threads are ready. Where that
-- thread was current before, nothing changes; else the list at the priority of the thread that was
-- current turns by one. The other lists, the threads, the monitors, the semaphores, the timer queue and
-- the sleeping threads stay.
pub conditional_switch-highest :
    (s : Sched)
    → IsSched s
    → (p : ℕ) → p < 64
    → is_empty (s.ready.running p) ≡ false
    → (s' : Sched) × (conditional_switch s ≡ some s')
      × IsChosen s.ready.running s'.current
      × Switched s s'
unfolding conditional_switch
conditional_switch-highest s v p hp full =
    let chosen = highest-IsChosen v.ready p hp full in
    elim (Bool-cases (chosen.0 == s.current)) [
      | inl e ↦ (
        s,
        rw (chosen.1) (rw e refl),
        subst (IsChosen s.ready.running) ((==_iff chosen.0 s.current).0 e) (chosen.2),
        same-Switched s,
      )
      | inr e ↦ (
        record s { ready = Ready.rotate (priority s s.current) s.ready; current = chosen.0 },
        rw (chosen.1) (rw e refl),
        chosen.2,
        turned-Switched s chosen.0 (not_==→ne chosen.0 s.current e),
      )
    ]

-- The current thread has the highest priority with ready threads, but is not the first of its list,
-- which has two entries or more. `conditionalContextSwitch` then makes the first of the list current
-- and moves it to the end: the new current thread is not the first of its list, which
-- `removeCurrentThreadFromRunningThreads` takes it to be.
pub conditional_switch-strands :
    (s : Sched) (x y : ℕ) (ys : List ℕ)
    → highest_priority s.ready ≡ priority s s.current
    → s.ready.running (priority s s.current) ≡ x ∷ y ∷ ys
    → x ≢ s.current
    → (s' : Sched) × (conditional_switch s ≡ some s')
      × (s'.current ≡ x)
      × (first (s'.ready.running (priority s s.current)) ≡ some y)
unfolding conditional_switch Ready.highest_priority_thread Ready.rotate
conditional_switch-strands s x y ys top list other = (
  record s { ready = Ready.rotate (priority s s.current) s.ready; current = x },
  rw top (rw list (rw (ne→not_== x s.current other) refl)),
  refl,
  rw
      (update_self s.ready.running (priority s s.current)
        (rotate_one (s.ready.running (priority s s.current))))
      (rw list refl),
)
