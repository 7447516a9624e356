-- ===== src/LinkedList/Tests.antt =====
-- The theorems about linked lists at a ring of three entries and a ring of two.
use mjvmk.Base.{
  ℕ, ◌≡◌, ◌≢◌, true, false, List, [], ◌∷◌, ◌++◌, ltb, if◌then◌else◌, ◌==◌, arith, refl,
}
use mjvmk.LinkedList.{Links, add_one_sorted, remove_one, move_all_to_end}
use mjvmk.LinkedList.Chain.{has, IsRing}
use mjvmk.LinkedList.Refines.{Same}
use mjvmk.LinkedList.Removes.{erase}
use mjvmk.LinkedList.Moves.{remove_one-IsRing}
use mjvmk.LinkedList.Joins.{move_all_to_end-IsRing}
use mjvmk.LinkedList.Sorted.{insert, add_one_sorted-IsRing}

-- The ring 10, 20, 30 and the ring 40, 50.
abbrev two_rings : Links
two_rings = record {
  next = λ a.
      if a == 10
      then 20
      else if a == 20
      then 30
      else if a == 30
      then 10
      else if a == 40
      then 50
      else 40;
  previous = λ a.
      if a == 10
      then 30
      else if a == 20
      then 10
      else if a == 30
      then 20
      else if a == 40
      then 50
      else 40;
}

abbrev three : List ℕ
three = 10 ∷ 20 ∷ 30 ∷ []

abbrev two : List ℕ
two = 40 ∷ 50 ∷ []

three-IsRing : IsRing two_rings 10 three
three-IsRing =
    (refl, ((refl, refl), ((refl, refl), (refl, refl))), (refl, (refl, (refl, tt))), refl)

two-IsRing : IsRing two_rings 40 two
two-IsRing = (refl, ((refl, refl), (refl, refl)), (refl, (refl, tt)), refl)

apart : (c : ℕ) → has c three ≡ true → has c two ≡ false
apart c i = ground (arith, i)

remove_one-IsRing_example :
    IsRing (remove_one 10 20 two_rings).1 (remove_one 10 20 two_rings).0 (erase 20 three)
    × ((y : ℕ) → has y three ≡ false → Same two_rings (remove_one 10 20 two_rings).1 y)
remove_one-IsRing_example = remove_one-IsRing two_rings 10 three 20 three-IsRing refl

move_all_to_end-IsRing_example :
    IsRing (move_all_to_end 10 40 two_rings).2 (move_all_to_end 10 40 two_rings).0 (three ++ two)
    × ((move_all_to_end 10 40 two_rings).1 ≡ 0)
    × ((y : ℕ)
        → has y three ≡ false
        → has y two ≡ false
        → Same two_rings (move_all_to_end 10 40 two_rings).2 y)
move_all_to_end-IsRing_example =
    move_all_to_end-IsRing two_rings 10 40 three two three-IsRing two-IsRing apart

add_one_sorted-IsRing_example :
    IsRing
      (add_one_sorted 3 ltb 10 25 two_rings).1
      (add_one_sorted 3 ltb 10 25 two_rings).0
      (insert ltb 25 three)
    × ((y : ℕ)
        → has y three ≡ false
        → y ≢ 25
        → Same two_rings (add_one_sorted 3 ltb 10 25 two_rings).1 y)
add_one_sorted-IsRing_example =
    add_one_sorted-IsRing ltb two_rings 10 three 25 3 (omega arith) three-IsRing (omega arith) refl
