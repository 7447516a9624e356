-- ===== src/Throwing/Handlers.antt =====
-- The handler that `foundHandler` of jvm/src/frame/throw.c chooses.
use mjvmk.Base.{
  ℕ, zero, suc, ◌≡◌, ◌≢◌, ◌≤◌, refl, Bool, false, Option, none, some, List, [], ◌∷◌, ◌==◌, leb,
  ◌&&◌, ◌||◌, if◌then◌else◌, length, arith,
}
use mjvmk.LinkedList.Chain.{has}
use mjvmk.Classes.Nearest.{IsLine}
use mjvmk.Throwing.{Handler, Machine, superclass_has, handles, found_handler}

-- The class keys of a line.
abbrev pub keys_of : Machine → List ℕ → List ℕ
keys_of m [] = []
keys_of m (c ∷ cs) = m.keys c ∷ keys_of m cs

-- A handler by the line of classes, and the first one of a list.
abbrev pub catches : Machine → List ℕ → ℕ → Handler → Bool
catches m line pc_index handler =
    leb handler.start_pc_index pc_index
    && leb pc_index handler.end_pc_index
    && ((handler.catch_key == 0) || has handler.catch_key (keys_of m line))

unfoldable pub first_catching : Machine → List ℕ → ℕ → List Handler → Option ℕ
first_catching m line pc_index [] = none
first_catching m line pc_index (handler ∷ handlers) =
    let rest = first_catching m line pc_index handlers in
    if catches m line pc_index handler then some handler.handler_pc_index else rest

superclass_has-line :
    (m : Machine) (key : ℕ) (ys : List ℕ) (fuel x : ℕ)
    → IsLine m.classes (m.classes x).super_class ys
    → length ys ≤ fuel
    → superclass_has fuel m key x ≡ has key (keys_of m ys)
unfolding superclass_has
superclass_has-line m key [] zero x l enough = refl
superclass_has-line m key [] (suc fuel) x l enough = rw l refl
superclass_has-line m key (y ∷ ys) zero x l enough = absurd (omega (arith, enough))
superclass_has-line m key (y ∷ ys) (suc fuel) x l enough =
    let nonzero : (y == 0) ≡ false = ground (arith, l.1) in
    let rest = superclass_has-line m key ys fuel y (l.2) (omega (arith, enough)) in
    rw (l.0, nonzero, rest) (ground arith)

module _ (m : Machine) (fuel class_def : ℕ) (line : List ℕ) (l : IsLine m.classes class_def line)
    (object : class_def ≢ 0) (enough : length line ≤ suc fuel) where
  handles-catches :
      (pc_index : ℕ) (handler : Handler)
      → handles fuel m class_def pc_index handler ≡ catches m line pc_index handler
  unfolding handles
  handles-catches pc_index handler = by_line line l enough
    where
      by_line :
          (xs : List ℕ)
          → IsLine m.classes class_def xs
          → length xs ≤ suc fuel
          → (leb handler.start_pc_index pc_index
              && leb pc_index handler.end_pc_index
              && ((handler.catch_key == 0)
                  || (handler.catch_key == m.keys class_def)
                  || superclass_has fuel m handler.catch_key class_def))
            ≡ catches m xs pc_index handler
      by_line [] k e = absurd (object k)
      by_line (x ∷ xs) k e =
          let up : IsLine m.classes (m.classes class_def).super_class xs = rw (k.0) (k.2) in
          let rest =
            superclass_has-line m handler.catch_key xs fuel class_def up (omega (arith, e)) in
          rw (rest, k.0) (ground arith)

  -- On as many rounds as the class of the exception has superclasses, or more, foundHandler chooses the first
  -- handler of the list whose range has the program counter and whose key is 0 or that of a class of the line
  -- of the exception's class and its superclasses, and finds none exactly if there is no such handler.
  pub found_handler-first :
      (pc_index : ℕ) (handlers : List Handler)
      → found_handler fuel m class_def pc_index handlers ≡ first_catching m line pc_index handlers
  unfolding found_handler first_catching
  found_handler-first pc_index [] = refl
  found_handler-first pc_index (handler ∷ handlers) =
      rw (handles-catches pc_index handler, found_handler-first pc_index handlers) refl
