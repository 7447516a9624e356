-- ===== src/Sched/Semaphores.antt =====
-- Semaphores of lib/src/thread/schedule.c: a counter, and a queue of blocked threads by priority.
use mjvmk.Base.{
  ℕ, ◌+◌, ◌-◌, ◌%◌, ◌^◌, Bool, ◌||◌, Option, none, some, List, [], ◌∷◌, ◌==◌, ltb, leb,
  if◌then◌else◌, ◌>>=◌,
}
use mjvmk.Sched.{
  Sched, blocked_on_semaphore, set_semaphore, set_status, priority, make_running, take_front,
  generated_switch, conditional_switch,
}

-- `threadPriorityComparator` on the priorities of the two threads, and `doubleListAddOneSorted` by it.
abbrev pub thread_priority_comparator : Sched → ℕ → ℕ → Bool
thread_priority_comparator s a b = ltb (priority s b) (priority s a)

unfoldable pub add_thread_to_sorted_queue : Sched → ℕ → List ℕ → List ℕ
add_thread_to_sorted_queue s t [] = t ∷ []
add_thread_to_sorted_queue s t (x ∷ xs) =
    if thread_priority_comparator s t x then t ∷ x ∷ xs else x ∷ add_thread_to_sorted_queue s t xs

-- The signed tests `c <= 0` and `c < 0` on a bit pattern.
abbrev pub is_negative : ℕ → Bool
is_negative c = leb 2147483648 c

unfoldable pub semaphore_post : ℕ → Sched → Option Sched
semaphore_post i s =
    let c : ℕ = ((s.semaphores i).counter + 1) % 2 ^ 32 in
    let s₁ : Sched = set_semaphore i (λ x. record x { counter = c }) s in
    if (c == 0) || is_negative c
    then elim (s.semaphores i).blocked_list [
      | [] ↦ none
      | t ∷ ts ↦
          conditional_switch
            (make_running t (set_semaphore i (λ x. record x { blocked_list = ts }) s₁))
    ]
    else some s₁

unfoldable pub semaphore_pend : ℕ → Sched → Option Sched
semaphore_pend i s =
    let c : ℕ = ((s.semaphores i).counter + 2 ^ 32 - 1) % 2 ^ 32 in
    let s₁ : Sched = set_semaphore i (λ x. record x { counter = c }) s in
    if is_negative c
    then (do
      (_, s₂) ← take_front (set_status s.current blocked_on_semaphore s₁)
      generated_switch (
          set_semaphore i
            (λ x. record x {
              blocked_list = add_thread_to_sorted_queue s₂ s₂.current x.blocked_list;
            })
            s₂))
    else some s₁
