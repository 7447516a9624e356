-- ===== src/Interpreter/Shuffles.antt =====
-- The entries of the operand stack, top first, after the handlers of
-- jvm/src/execute/handlers/stackHandlers.c.
use mjvmk.Base.{ℕ, ◌+◌, ◌≤◌, ◌≡◌, arith, refl}
use mjvmk.Interpreter.{Frame, get_entry}
use mjvmk.Interpreter.Stack.{dup_x1, dup_x2, dup2_x1, dup2_x2}

-- A frame with four entries or more, and the address `a` of a field below them.
module _ (f : Frame) (a : ℕ) (below : a + 4 ≤ f.sp) where
  -- `DUP_X1` puts a copy of the top entry below the second: the stack is one entry longer, its top
  -- three are the top, the second and the top, and the fields from the third entry down are as they were.
  pub dup_x1-entries :
      ((dup_x1 f).sp ≡ f.sp + 1)
      × (get_entry 0 (dup_x1 f) ≡ get_entry 0 f)
      × (get_entry 1 (dup_x1 f) ≡ get_entry 1 f)
      × (get_entry 2 (dup_x1 f) ≡ get_entry 0 f)
      × (get_entry 3 (dup_x1 f) ≡ get_entry 2 f)
      × ((dup_x1 f).fields a ≡ f.fields a)
  unfolding dup_x1
  dup_x1-entries = (refl, ground arith, ground arith, ground arith, ground arith, ground arith)

  -- With four entries or more, `DUP_X2` puts a copy of the top entry below the third, so the stack is
  -- one entry longer; the fourth entry and a field below it are as they were.
  pub dup_x2-entries :
      ((dup_x2 f).sp ≡ f.sp + 1)
      × (get_entry 0 (dup_x2 f) ≡ get_entry 0 f)
      × (get_entry 1 (dup_x2 f) ≡ get_entry 1 f)
      × (get_entry 2 (dup_x2 f) ≡ get_entry 2 f)
      × (get_entry 3 (dup_x2 f) ≡ get_entry 0 f)
      × (get_entry 4 (dup_x2 f) ≡ get_entry 3 f)
      × ((dup_x2 f).fields a ≡ f.fields a)
  unfolding dup_x2
  dup_x2-entries =
      (refl, ground arith, ground arith, ground arith, ground arith, ground arith, ground arith)

  -- With four entries or more, `DUP2_X1` puts copies of the top two entries below the third, so the
  -- stack is two entries longer; the fourth entry and a field below it are as they were.
  pub dup2_x1-entries :
      ((dup2_x1 f).sp ≡ f.sp + 1 + 1)
      × (get_entry 0 (dup2_x1 f) ≡ get_entry 0 f)
      × (get_entry 1 (dup2_x1 f) ≡ get_entry 1 f)
      × (get_entry 2 (dup2_x1 f) ≡ get_entry 2 f)
      × (get_entry 3 (dup2_x1 f) ≡ get_entry 0 f)
      × (get_entry 4 (dup2_x1 f) ≡ get_entry 1 f)
      × (get_entry 5 (dup2_x1 f) ≡ get_entry 3 f)
      × ((dup2_x1 f).fields a ≡ f.fields a)
  unfolding dup2_x1
  dup2_x1-entries = (
    refl,
    ground arith,
    ground arith,
    ground arith,
    ground arith,
    ground arith,
    ground arith,
    ground arith,
  )

  -- With four entries or more, `DUP2_X2` puts copies of the top two entries below the fourth, so the
  -- stack is two entries longer; a field below the four is as it was.
  pub dup2_x2-entries :
      ((dup2_x2 f).sp ≡ f.sp + 1 + 1)
      × (get_entry 0 (dup2_x2 f) ≡ get_entry 0 f)
      × (get_entry 1 (dup2_x2 f) ≡ get_entry 1 f)
      × (get_entry 2 (dup2_x2 f) ≡ get_entry 2 f)
      × (get_entry 3 (dup2_x2 f) ≡ get_entry 3 f)
      × (get_entry 4 (dup2_x2 f) ≡ get_entry 0 f)
      × (get_entry 5 (dup2_x2 f) ≡ get_entry 1 f)
      × ((dup2_x2 f).fields a ≡ f.fields a)
  unfolding dup2_x2
  dup2_x2-entries = (
    refl,
    ground arith,
    ground arith,
    ground arith,
    ground arith,
    ground arith,
    ground arith,
    ground arith,
  )
