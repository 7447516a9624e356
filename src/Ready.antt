-- ===== src/Ready.antt =====
-- The ready threads of lib/src/thread/schedule.c: the 64 lists of running threads and the two bit maps
-- that find the highest priority with a ready thread. A thread is its number; a list stands for the
-- circular list of lib/src/types/linkedList.c, first entry first.
pub mod Bytes
pub mod Map
pub mod Highest
mod Tests
use mathlib.Core.Option
use mjvmk.Base.{
  ℕ, ◌+◌, ◌-◌, ◌*◌, ◌/◌, ◌%◌, ◌^◌, Bool, true, false, Option, none, some, List, [], ◌∷◌, ◌++◌, ◌==◌,
  if◌then◌else◌, get_or, replicate, update, bit_or, bit_and,
}

-- `priorityRows`, `priorityMatrix` and `runningThreads`.
pub record Ready : Type 0 where
  pub rows : ℕ
  pub matrix : ℕ → ℕ
  pub running : ℕ → List ℕ

-- The three as the program starts.
abbrev pub nobody_ready : Ready
nobody_ready = record { rows = 0; matrix = λ i. 0; running = λ p. [] }

-- The highest one of a byte.
abbrev pub highest_bit_map : List ℕ
highest_bit_map =
    replicate 2 0
    ++ (replicate 2 1
        ++ (replicate 4 2
            ++ (replicate 8 3
                ++ (replicate 16 4 ++ (replicate 32 5 ++ (replicate 64 6 ++ replicate 128 7))))))

unfoldable pub highest_bit : ℕ → ℕ
highest_bit b = get_or highest_bit_map b 0

-- `priority >> 3` and `priority & LOWEST3BITSMASK`.
abbrev pub row_of : ℕ → ℕ
row_of p = p / 8

abbrev pub column_of : ℕ → ℕ
column_of p = p % 8

unfoldable pub set_bit : ℕ → ℕ → ℕ
set_bit b k = bit_or b (2 ^ k)

unfoldable pub clear_bit : ℕ → ℕ → ℕ
clear_bit b k = bit_and b (255 - 2 ^ k)

unfoldable pub add_to_priority_map : ℕ → Ready → Ready
add_to_priority_map p r = record r {
  rows = set_bit r.rows (row_of p);
  matrix = update r.matrix (row_of p) (set_bit (r.matrix (row_of p)) (column_of p));
}

unfoldable pub remove_from_priority_map : ℕ → Ready → Ready
remove_from_priority_map p r =
    let cell : ℕ = clear_bit (r.matrix (row_of p)) (column_of p) in
    record r {
      rows = if cell == 0 then clear_bit r.rows (row_of p) else r.rows;
      matrix = update r.matrix (row_of p) cell;
    }

abbrev pub is_empty {ℓ} : {A : Type ℓ} → List A → Bool
is_empty [] = true
is_empty (x ∷ xs) = false

-- The second statement of `removeFromPriorityMap`, alone.
abbrev pub clear_row : ℕ → Ready → Ready
clear_row p r = record r {
  rows = if r.matrix (row_of p) == 0 then clear_bit r.rows (row_of p) else r.rows;
}

-- `removePriority`. Its `if` guards only the first of the two statements of the macro
-- `removeFromPriorityMap`.
unfoldable pub remove_priority : ℕ → Ready → Ready
remove_priority p r = if is_empty (r.running p) then remove_from_priority_map p r else clear_row p r

unfoldable pub highest_priority : Ready → ℕ
highest_priority r = let row : ℕ = highest_bit r.rows in row * 8 + highest_bit (r.matrix row)

abbrev pub first {ℓ} : {A : Type ℓ} → List A → Option A
first [] = none
first (x ∷ xs) = some x

abbrev pub rest {ℓ} : {A : Type ℓ} → List A → List A
rest [] = []
rest (x ∷ xs) = xs

-- `doubleListRemoveOne` of an entry that is not on the list writes through stale links: `none`.
abbrev pub remove_one : ℕ → List ℕ → Option (List ℕ)
remove_one t [] = none
remove_one t (x ∷ xs) =
    let later = Option.map (λ l. x ∷ l) (remove_one t xs) in if t == x then some xs else later

abbrev pub rotate_one : List ℕ → List ℕ
rotate_one [] = []
rotate_one (x ∷ xs) = xs ++ (x ∷ [])

-- `runningThreads[p] = l`, the lists alone.
abbrev pub with_running : ℕ → List ℕ → Ready → Ready
with_running p l r = record r { running = update r.running p l }

-- `getHighestPriorityThread`: `none` is the read through a null list.
unfoldable pub highest_priority_thread : Ready → Option ℕ
highest_priority_thread r = first (r.running (highest_priority r))

-- `addThreadToRunningThreads` and `removeThreadFromRunningThreads`, of a thread at priority `p`.
unfoldable pub add_thread : ℕ → ℕ → Ready → Ready
add_thread t p r = add_to_priority_map p (with_running p (r.running p ++ (t ∷ [])) r)

unfoldable pub remove_thread : ℕ → ℕ → Ready → Option Ready
remove_thread t p r =
    Option.map (λ l. remove_priority p (with_running p l r)) (remove_one t (r.running p))

-- The front of the list at `p` leaves it: `threadListRemoveOne` and `removePriority`.
unfoldable pub remove_front : ℕ → Ready → Ready
remove_front p r = remove_priority p (with_running p (rest (r.running p)) r)

-- `changeRunningThreadPriority`: the front of one list goes to the end of another. `none` is the
-- use of a null entry.
unfoldable pub change_priority : ℕ → ℕ → Ready → Option Ready
change_priority old new r =
    let removed : Ready = with_running old (rest (r.running old)) r in
    elim (first (r.running old)) [
      | none ↦ none
      | some t ↦ some (
          add_to_priority_map new
            (remove_priority old (with_running new (removed.running new ++ (t ∷ [])) removed)))
    ]

-- `rotateRunningThreadList` at priority `p`.
unfoldable pub rotate : ℕ → Ready → Ready
rotate p r = with_running p (rotate_one (r.running p)) r
