-- ===== src/Ready/Map.antt =====
-- The invariant of the ready threads of lib/src/thread/schedule.c, under each operation on them.
use mjvmk.Base.{
  ℕ, ◌<◌, ◌≡◌, ◌≢◌, inl, inr, refl, Bool, true, false, not, some, List, [], ◌∷◌, ◌++◌, arith, ◌==◌,
  Bool-cases, Option-cases, some_inj, none-ne-some, update, update_ne, ==_iff, not_==→ne, subst,
  sym,
}
use mjvmk.Ready.{
  Ready, nobody_ready, row_of, column_of, set_bit, clear_bit, add_to_priority_map,
  remove_from_priority_map, is_empty, remove_priority, clear_row, first, rest, remove_one,
  rotate_one, with_running, add_thread, remove_thread, remove_front, change_priority, rotate,
}
use mjvmk.Ready.Bytes.{
  has_bit, has_bit-set_bit, has_bit-clear_bit, set_bit-lt, clear_bit-lt, ne_zero_of_bit,
  clear_bit-zero,
}

-- The matrix bit of a priority.
abbrev pub marked : Ready → ℕ → Bool
marked r p = has_bit (r.matrix (row_of p)) (column_of p)

-- The maps are bytes, a row bit says that its matrix row is not zero, and below 64 a matrix bit says
-- that the list of its priority is not empty, but perhaps at `p`.
record IsReadyBut (p : ℕ) (r : Ready) : Type 0 where
  rows_byte : r.rows < 256
  row_byte : (i : ℕ) → r.matrix i < 256
  row : (i : ℕ) → i < 8 → has_bit r.rows i ≡ not (r.matrix i == 0)
  cell : (q : ℕ) → q < 64 → q ≢ p → marked r q ≡ not (is_empty (r.running q))

pub record IsReady (r : Ready) : Type 0 where
  pub rows_byte : r.rows < 256
  pub row_byte : (i : ℕ) → r.matrix i < 256
  pub row : (i : ℕ) → i < 8 → has_bit r.rows i ≡ not (r.matrix i == 0)
  pub cell : (q : ℕ) → q < 64 → marked r q ≡ not (is_empty (r.running q))

-- The maps agree with the lists at the start.
pub nobody_ready-IsReady : IsReady nobody_ready
unfolding has_bit
nobody_ready-IsReady = record {
  rows_byte = omega arith;
  row_byte = λ i. omega arith;
  row = λ i h. ground arith;
  cell = λ q h. ground arith;
}

with_running-IsReadyBut :
    (p : ℕ) (l : List ℕ) {r : Ready} → IsReady r → IsReadyBut p (with_running p l r)
with_running-IsReadyBut p l v = record {
  rows_byte = v.rows_byte;
  row_byte = v.row_byte;
  row = v.row;
  cell = λ q hq ne. ground (arith, v.cell q hq);
}

is_empty-append : (l : List ℕ) (t : ℕ) → is_empty (l ++ (t ∷ [])) ≡ false
is_empty-append [] t = refl
is_empty-append (x ∷ l) t = refl

is_empty-remove_one :
    (t : ℕ) (l : List ℕ) {l' : List ℕ} → remove_one t l ≡ some l' → is_empty l ≡ false
is_empty-remove_one t [] h = absurd (none-ne-some h)
is_empty-remove_one t (x ∷ l) h = refl

is_empty-rest : (l : List ℕ) → is_empty (rest l) ≡ false → is_empty l ≡ false
is_empty-rest [] h = h
is_empty-rest (x ∷ l) h = refl

is_empty-rotate_one : (l : List ℕ) → is_empty (rotate_one l) ≡ is_empty l
is_empty-rotate_one [] = refl
is_empty-rotate_one (x ∷ l) = is_empty-append l x

eq_of_parts : (p q : ℕ) → row_of p ≡ row_of q → column_of p ≡ column_of q → p ≡ q
eq_of_parts p q h k = omega arith

module _ (p : ℕ) {r : Ready} (hp : p < 64) (v : IsReadyBut p r) where
  set_cell_bit : has_bit (set_bit (r.matrix (row_of p)) (column_of p)) (column_of p) ≡ true
  set_cell_bit = ground (
    arith,
    has_bit-set_bit (r.matrix (row_of p)) (column_of p) (column_of p) (v.row_byte (row_of p))
        (omega arith) (omega arith),
  )

  set_cell-lt : set_bit (r.matrix (row_of p)) (column_of p) < 256
  set_cell-lt = set_bit-lt (r.matrix (row_of p)) (column_of p) (v.row_byte (row_of p)) (omega arith)

  set_cell-ne_zero : set_bit (r.matrix (row_of p)) (column_of p) ≢ 0
  set_cell-ne_zero = ne_zero_of_bit _ set_cell-lt (column_of p) (omega arith) set_cell_bit

  add_to_priority_map-IsReady : is_empty (r.running p) ≡ false → IsReady (add_to_priority_map p r)
  unfolding add_to_priority_map
  add_to_priority_map-IsReady full = record {
    rows_byte = set_bit-lt r.rows (row_of p) v.rows_byte (omega arith);
    row_byte = λ i. ground (arith, v.row_byte i, set_cell-lt);
    row = λ i hi. ground (
      arith,
      v.row i hi,
      set_cell-ne_zero,
      has_bit-set_bit r.rows (row_of p) i v.rows_byte (omega arith) hi,
    );
    cell = λ q hq. ground (
      arith,
      v.cell q hq,
      eq_of_parts p q,
      has_bit-set_bit (r.matrix (row_of p)) (column_of p) (column_of q) (v.row_byte (row_of p))
          (omega arith) (omega arith),
    );
  }

  cleared-lt : clear_bit (r.matrix (row_of p)) (column_of p) < 256
  cleared-lt =
      clear_bit-lt (r.matrix (row_of p)) (column_of p) (v.row_byte (row_of p)) (omega arith)

  remove_from_priority_map-IsReady :
      is_empty (r.running p) ≡ true → IsReady (remove_from_priority_map p r)
  unfolding remove_from_priority_map
  remove_from_priority_map-IsReady void = record {
    rows_byte = ground (arith, clear_bit-lt r.rows (row_of p) v.rows_byte (omega arith));
    row_byte = λ i. ground (arith, v.row_byte i, cleared-lt);
    row = λ i hi. ground (
      arith,
      v.row i hi,
      clear_bit-zero (column_of p),
      has_bit-clear_bit r.rows (row_of p) i v.rows_byte (omega arith) hi,
    );
    cell = λ q hq. ground (
      arith,
      v.cell q hq,
      eq_of_parts p q,
      has_bit-clear_bit (r.matrix (row_of p)) (column_of p) (column_of q) (v.row_byte (row_of p))
          (omega arith) (omega arith),
    );
  }

  clear_row-IsReadyBut : IsReadyBut p (clear_row p r)
  clear_row-IsReadyBut = record {
    rows_byte =
        ground (arith, v.rows_byte, clear_bit-lt r.rows (row_of p) v.rows_byte (omega arith));
    row_byte = v.row_byte;
    row = λ i hi.
        ground
          (arith, v.row i hi, has_bit-clear_bit r.rows (row_of p) i v.rows_byte (omega arith) hi);
    cell = v.cell;
  }

  -- The list at `p` may only have become empty.
  remove_priority-IsReady :
      (is_empty (r.running p) ≡ false → marked r p ≡ true) → IsReady (remove_priority p r)
  unfolding remove_priority
  remove_priority-IsReady kept = elim (Bool-cases (is_empty (r.running p))) [
    | inl void ↦ rw void (remove_from_priority_map-IsReady void)
    | inr full ↦ rw full (record {
      rows_byte = clear_row-IsReadyBut.rows_byte;
      row_byte = v.row_byte;
      row = clear_row-IsReadyBut.row;
      cell = λ q hq. elim (Bool-cases (q == p)) [
        | inl e ↦
            subst (λ k. marked r k ≡ not (is_empty (r.running k))) (sym ((==_iff q p).0 e))
              (ground (arith, kept full))
        | inr ne ↦ v.cell q hq (not_==→ne q p ne)
      ];
    })
  ]

remove_priority-nonempty :
    (p : ℕ) (r : Ready) → is_empty (r.running p) ≡ false → remove_priority p r ≡ clear_row p r
unfolding remove_priority
remove_priority-nonempty p r full = rw full refl

remove_priority-with_running :
    (p q : ℕ) (l : List ℕ) (r : Ready)
    → p ≢ q
    → remove_priority p (with_running q l r) ≡ with_running q l (remove_priority p r)
unfolding remove_priority remove_from_priority_map
remove_priority-with_running p q l r ne = elim (Bool-cases (is_empty (r.running p))) [
  | inl void ↦ rw (update_ne r.running q p l (λ e. ne (sym e)), void)
  | inr full ↦ rw (update_ne r.running q p l (λ e. ne (sym e)), full)
]

twice-IsReadyBut :
    (p : ℕ) (l k : List ℕ) {r : Ready}
    → IsReady r
    → IsReadyBut p (with_running p k (with_running p l r))
twice-IsReadyBut p l k v = record {
  rows_byte = v.rows_byte;
  row_byte = v.row_byte;
  row = v.row;
  cell = λ q hq ne. ground (arith, v.cell q hq);
}

module _ {r : Ready} (v : IsReady r) where
  -- A thread that becomes ready is put at the end of its list, and its priority is marked.
  pub add_thread-IsReady : (t p : ℕ) → p < 64 → IsReady (add_thread t p r)
  unfolding add_thread
  add_thread-IsReady t p hp =
      add_to_priority_map-IsReady p hp (with_running-IsReadyBut p (r.running p ++ (t ∷ [])) v)
        (ground (arith, is_empty-append (r.running p) t))

  pub remove_thread-IsReady :
      (t p : ℕ) {r' : Ready} → p < 64 → remove_thread t p r ≡ some r' → IsReady r'
  unfolding remove_thread
  remove_thread-IsReady t p {r'} hp done = elim (Option-cases (remove_one t (r.running p))) [
    | inl e ↦ absurd (none-ne-some (rw e at done))
    | inr (l, e) ↦ subst IsReady (some_inj (rw e at done)) (
        remove_priority-IsReady p hp (with_running-IsReadyBut p l v)
          (λ full. ground (arith, v.cell p hp, is_empty-remove_one t (r.running p) e)))
  ]

  pub remove_front-IsReady : (p : ℕ) → p < 64 → IsReady (remove_front p r)
  unfolding remove_front
  remove_front-IsReady p hp =
      remove_priority-IsReady p hp (with_running-IsReadyBut p (rest (r.running p)) v)
        (λ full. ground (arith, v.cell p hp, is_empty-rest (r.running p)))

  pub rotate-IsReady : (p : ℕ) → p < 64 → IsReady (rotate p r)
  unfolding rotate
  rotate-IsReady p hp = record {
    rows_byte = v.rows_byte;
    row_byte = v.row_byte;
    row = v.row;
    cell = λ q hq. ground (arith, v.cell q hq, v.cell p hp, is_empty-rotate_one (r.running p));
  }

  -- What `change_priority` makes of a front thread `t`.
  moved : (t old new : ℕ) → Ready
  moved t old new =
      let removed : Ready = with_running old (rest (r.running old)) r in
      add_to_priority_map new
        (remove_priority old (with_running new (removed.running new ++ (t ∷ [])) removed))

  moved_same-IsReady : (t p : ℕ) → p < 64 → IsReady (moved t p p)
  unfolding moved
  moved_same-IsReady t p hp = rw kept (
      add_to_priority_map-IsReady p hp
        (clear_row-IsReadyBut p hp (twice-IsReadyBut p (rest (r.running p)) line v))
        (ground (arith, is_empty-append (rest (r.running p)) t)))
    where
      line : List ℕ
      line = update r.running p (rest (r.running p)) p ++ (t ∷ [])

      behind : Ready
      behind = with_running p line (with_running p (rest (r.running p)) r)

      kept : remove_priority p behind ≡ clear_row p behind
      kept =
          remove_priority-nonempty p behind
            (ground (arith, is_empty-append (update r.running p (rest (r.running p)) p) t))

  moved_other-IsReady :
      (t old new : ℕ) → old < 64 → new < 64 → old ≢ new → IsReady (moved t old new)
  unfolding moved remove_front
  moved_other-IsReady t old new ho hn ne =
      subst (λ x. IsReady (add_to_priority_map new x))
        (sym (
          remove_priority-with_running old new line (with_running old (rest (r.running old)) r) ne))
        (add_to_priority_map-IsReady new hn
          (with_running-IsReadyBut new line (remove_front-IsReady old ho))
          (ground (arith, is_empty-append (update r.running old (rest (r.running old)) new) t)))
    where
      line : List ℕ
      line = update r.running old (rest (r.running old)) new ++ (t ∷ [])

  moved-IsReady : (t old new : ℕ) → old < 64 → new < 64 → IsReady (moved t old new)
  moved-IsReady t old new ho hn = elim (Bool-cases (old == new)) [
    | inl e ↦
        subst (λ k. IsReady (moved t old k)) ((==_iff old new).0 e) (moved_same-IsReady t old ho)
    | inr ne ↦ moved_other-IsReady t old new ho hn (not_==→ne old new ne)
  ]

  change_priority-moved :
      (old new : ℕ) {r' : Ready}
      → change_priority old new r ≡ some r'
      → (t : ℕ) × (first (r.running old) ≡ some t) × (r' ≡ moved t old new)
  unfolding change_priority moved
  change_priority-moved old new h = elim (Option-cases (first (r.running old))) [
    | inl e ↦ absurd (none-ne-some (rw (e, change_priority) at h))
    | inr (t, e) ↦ (t, e, sym (some_inj (rw (e, change_priority) at h)))
  ]

  -- The front of one list goes to the end of another: both priorities are marked as they should be.
  pub change_priority-IsReady :
      (old new : ℕ) {r' : Ready}
      → old < 64
      → new < 64
      → change_priority old new r ≡ some r'
      → IsReady r'
  change_priority-IsReady old new {r'} ho hn done =
      let (t, e, same) = change_priority-moved old new done in
      subst IsReady (sym same) (moved-IsReady t old new ho hn)
