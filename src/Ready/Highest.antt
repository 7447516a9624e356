-- ===== src/Ready/Highest.antt =====
-- `getHighestPriority` of lib/src/thread/schedule.h against the lists of ready threads.
use mjvmk.Base.{ℕ, ◌+◌, ◌*◌, ◌≤◌, ◌<◌, ◌≡◌, ◌≢◌, true, false, arith, refl, refl, subst}
use mjvmk.Ready.{Ready, row_of, column_of, is_empty, highest_bit, highest_priority}
use mjvmk.Ready.Bytes.{has_bit, highest_bit-set, highest_bit-max, ne_zero_of_bit}
use mjvmk.Ready.Map.{IsReady, marked}

module _ {r : Ready} (v : IsReady r) (p : ℕ) (hp : p < 64)
    (full : is_empty (r.running p) ≡ false) where
  p_marked : marked r p ≡ true
  p_marked = ground (arith, v.cell p hp)

  p_cell : r.matrix (row_of p) ≢ 0
  p_cell = ne_zero_of_bit _ (v.row_byte (row_of p)) (column_of p) (omega arith) p_marked

  p_row : has_bit r.rows (row_of p) ≡ true
  p_row = ground (arith, v.row (row_of p) (omega arith), p_cell)

  rows-ne_zero : r.rows ≢ 0
  rows-ne_zero = ne_zero_of_bit r.rows v.rows_byte (row_of p) (omega arith) p_row

  top : ℕ
  top = highest_bit r.rows

  top_set : (has_bit r.rows top ≡ true) × (top < 8)
  unfolding top
  top_set = highest_bit-set r.rows v.rows_byte rows-ne_zero

  top_cell : r.matrix top ≢ 0
  top_cell e = ground (arith, v.row top top_set.1, top_set)

  column : ℕ
  column = highest_bit (r.matrix top)

  column_set : (has_bit (r.matrix top) column ≡ true) × (column < 8)
  unfolding column
  column_set = highest_bit-set (r.matrix top) (v.row_byte top) top_cell

  highest_parts : (highest_priority r ≡ top * 8 + column)
  unfolding highest_priority top column
  highest_parts = refl

  parts : (row_of (highest_priority r) ≡ top) × (column_of (highest_priority r) ≡ column)
  parts = (omega (arith, highest_parts, column_set.1), omega (arith, highest_parts, column_set.1))

  highest_marked : marked r (highest_priority r) ≡ true
  highest_marked = rw parts.0 (rw parts.1 column_set.0)

  highest-lt : highest_priority r < 64
  highest-lt = omega (arith, highest_parts, column_set.1, top_set.1)

  row-le : row_of p ≤ top
  unfolding top
  row-le = highest_bit-max r.rows v.rows_byte (row_of p) rows-ne_zero (omega arith) p_row

  column-le : row_of p ≡ top → column_of p ≤ column
  unfolding column
  column-le e =
      highest_bit-max (r.matrix top) (v.row_byte top) (column_of p) top_cell (omega arith)
        (subst (λ k. has_bit (r.matrix k) (column_of p) ≡ true) e p_marked)

  -- With a ready thread at some priority below 64, `getHighestPriority` is a priority below 64 whose
  -- list is not empty, and it is not below the other one.
  pub highest_priority-max :
      (highest_priority r < 64)
      × (is_empty (r.running (highest_priority r)) ≡ false)
      × (p ≤ highest_priority r)
  highest_priority-max = (
    highest-lt,
    ground (arith, v.cell (highest_priority r) highest-lt, highest_marked),
    ground (arith, highest_parts, row-le, column-le),
  )
