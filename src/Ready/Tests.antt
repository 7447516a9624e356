-- ===== src/Ready/Tests.antt =====
-- The ready threads at concrete priorities.
use mjvmk.Base.{◌≤◌, ◌<◌, ◌≡◌, false, some, arith, refl}
use mjvmk.Ready
use mjvmk.Ready.{
  Ready, nobody_ready, is_empty, highest_priority, highest_bit, highest_priority_thread,
  add_to_priority_map, remove_from_priority_map, remove_priority, set_bit, clear_bit,
}
use mjvmk.Ready.Map.{IsReady, add_thread-IsReady, nobody_ready-IsReady}
use mjvmk.Ready.Highest.{highest_priority-max}

-- Thread 7 at priority 31, and then thread 8 at priority 40.
abbrev two_ready : Ready
two_ready = Ready.add_thread 8 40 (Ready.add_thread 7 31 nobody_ready)

two_ready-IsReady : IsReady two_ready
two_ready-IsReady =
    add_thread-IsReady (add_thread-IsReady nobody_ready-IsReady 7 31 (omega arith)) 8 40
      (omega arith)

highest_is_forty : highest_priority two_ready ≡ 40
unfolding highest_priority highest_bit Ready.add_thread add_to_priority_map set_bit
highest_is_forty = refl

first_is_eight : highest_priority_thread two_ready ≡ some 8
unfolding highest_priority_thread highest_priority highest_bit Ready.add_thread add_to_priority_map
    set_bit
first_is_eight = refl

-- When thread 8 leaves, the highest priority is that of thread 7.
then_thirty_one : highest_priority (Ready.remove_front 40 two_ready) ≡ 31
unfolding highest_priority highest_bit Ready.add_thread Ready.remove_front add_to_priority_map
    remove_priority remove_from_priority_map set_bit clear_bit
then_thirty_one = refl

highest_priority-max_example :
    (highest_priority two_ready < 64)
    × (is_empty (two_ready.running (highest_priority two_ready)) ≡ false)
    × (31 ≤ highest_priority two_ready)
unfolding Ready.add_thread add_to_priority_map
highest_priority-max_example = highest_priority-max two_ready-IsReady 31 (omega arith) refl
