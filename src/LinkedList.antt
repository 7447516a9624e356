-- ===== src/LinkedList.antt =====
-- The circular doubly linked lists of lib/src/types/linkedList.c and linkedList.h. An entry is an address,
-- and the memory gives its `pNext` and `pPrevious`; NULL is 0. A list is the pointer to its first entry.
-- A function that writes the pointer variables gives back their new values with the new memory.
pub mod Chain
pub mod Refines
pub mod Removes
pub mod Moves
pub mod Joins
pub mod Sorted
mod Tests
use mjvmk.Base.{ℕ, zero, suc, Bool, ◌==◌, ◌||◌, if◌then◌else◌, update}

-- `struct linkedListStruct`, without `data`, which only the comparators read.
pub record Links : Type 0 where
  pub next : ℕ → ℕ
  pub previous : ℕ → ℕ

abbrev pub set_next : ℕ → ℕ → Links → Links
set_next x v h = record h { next = update h.next x v }

abbrev pub set_previous : ℕ → ℕ → Links → Links
set_previous x v h = record h { previous = update h.previous x v }

-- `pOneToAdd->pNext = pOneToAdd->pPrevious = pOneToAdd`.
unfoldable pub link_alone : ℕ → Links → Links
link_alone x h = set_next x x (set_previous x x h)

-- The four writes that put `x` between the entry `before` and its next one.
unfoldable pub link_behind : ℕ → ℕ → Links → Links
link_behind before x h =
    let h₁ : Links = set_next x (h.next before) h in
    let h₂ : Links = set_previous x before h₁ in
    let h₃ : Links = set_previous (h₂.next x) x h₂ in set_next before x h₃

-- The four writes that put `x` between the entry `after` and its previous one.
unfoldable pub link_before : ℕ → ℕ → Links → Links
link_before after x h =
    let h₁ : Links = set_next x after h in
    let h₂ : Links = set_previous x (h₁.previous after) h₁ in
    let h₃ : Links = set_previous after x h₂ in set_next (h₃.previous x) x h₃

-- The loop of `doubleListAddOneSorted` from `pTemp`: the entry to add behind. Every round moves on by one
-- entry.
unfoldable pub find_slot : (ℕ → ℕ → Bool) → ℕ → ℕ → Links → ℕ → ℕ → ℕ
find_slot comparator x first h zero t = t
find_slot comparator x first h (suc n) t =
    let rest = find_slot comparator x first h n (h.next t) in
    if (h.next t == first) || comparator x (h.next t) then t else rest

-- `doubleListAddOneSorted`, the loop on fuel.
unfoldable pub add_one_sorted : ℕ → (ℕ → ℕ → Bool) → ℕ → ℕ → Links → ℕ × Links
add_one_sorted fuel comparator list x h =
    if x == 0
    then (list, h)
    else if list == 0
    then (x, link_alone x h)
    else if comparator x list
    then (x, link_before list x h)
    else (list, link_behind (find_slot comparator x list h fuel list) x h)

-- `doubleListAddOneToEnd`.
unfoldable pub add_one_to_end : ℕ → ℕ → Links → ℕ × Links
add_one_to_end list x h = if list == 0 then (x, link_alone x h) else (list, link_before list x h)

-- `doubleListRemoveOne`.
unfoldable pub remove_one : ℕ → ℕ → Links → ℕ × Links
remove_one list x h =
    let after : ℕ = h.next x in
    let h₁ : Links = set_next (h.previous x) after h in
    let h₂ : Links = set_previous after (h₁.previous x) h₁ in
    if list == x then (if x == after then (0, h) else (after, h₂)) else (list, h₂)

-- `doubleListRemoveOneFromFront`: the entry removed, the list and the memory.
unfoldable pub remove_one_from_front : ℕ → Links → ℕ × ℕ × Links
remove_one_from_front list h =
    let after : ℕ = h.next list in
    let h₁ : Links = set_previous after (h.previous list) h in
    let h₂ : Links = set_next (h₁.previous list) after h₁ in
    if list == 0 then (0, 0, h) else if after == list then (list, 0, h) else (list, after, h₂)

-- `doubleListRotateOneFrontToEnd`: the list, which is also the entry returned.
unfoldable pub rotate_one_front_to_end : ℕ → Links → ℕ
rotate_one_front_to_end list h = if list == 0 then 0 else h.next list

-- `doubleListMoveAllToEnd`: the two lists and the memory.
unfoldable pub move_all_to_end : ℕ → ℕ → Links → ℕ × ℕ × Links
move_all_to_end dest source h =
    let end_of_source : ℕ = h.previous source in
    let end_of_dest : ℕ = h.previous dest in
    let h₁ : Links = set_next end_of_source dest h in
    let h₂ : Links = set_previous source end_of_dest h₁ in
    let h₃ : Links = set_previous dest end_of_source h₂ in
    let h₄ : Links = set_next end_of_dest source h₃ in
    if source == 0 then (dest, source, h) else if dest == 0 then (source, 0, h) else (dest, 0, h₄)

-- The macro `doubleListMoveOneFrontToEnd`: the two lists and the memory.
unfoldable pub move_one_front_to_end : ℕ → ℕ → Links → ℕ × ℕ × Links
move_one_front_to_end dest source h =
    let taken : ℕ × ℕ × Links = remove_one_from_front source h in
    let added : ℕ × Links = add_one_to_end dest taken.0 taken.2 in (added.0, taken.1, added.1)
