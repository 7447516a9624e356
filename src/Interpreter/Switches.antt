-- ===== src/Interpreter/Switches.antt =====
-- The branches of jvm/src/execute/handlers/branchHandlers.c: the search of `LOOKUPSWITCH`, the comparisons
-- with zero, and a subroutine's call and return.
use mjvmk.Base.{
  ℕ, zero, suc, ◌+◌, ◌*◌, ◌≤◌, ◌<◌, ◌≡◌, ◌≢◌, ◌⊎◌, some, ltb, update, update_ne, arith, refl,
  ne→not_==, ==_refl, Bool-cases, inl, inr, lt→ltb, le→not_ltb, ltb→lt, not_ltb→le, ap, ◌∙◌,
}
use mjvmk.Interpreter.{Frame, get_int, decrement_stack_by, next_by}
use mjvmk.Interpreter.Code.{get_u2, get_u4, add_s2, branch, branch_wide, set_pc}
use mjvmk.Interpreter.Branches.{
  find_pair, lookupswitch, padding, pair_count, iflt, ifge, jumps, jsr, ret, push_ret_address,
}
use mjvmk.Interpreter.Locals.{store_instruction, return_address_store}

-- The key of a pair.
abbrev pub pair_key : (ℕ → ℕ) → ℕ → ℕ → ℕ
pair_key code base i = get_u4 code (base + 9 + 8 * i)

module _ (code : ℕ → ℕ) (base value : ℕ) where
  find_pair-equal :
      (i left : ℕ)
      → pair_key code base i ≡ value
      → find_pair code base value i (suc left) ≡ 13 + 8 * i
  unfolding find_pair
  find_pair-equal i left e = rw e (rw (==_refl value) refl)

  find_pair-below :
      (i left : ℕ) → value < pair_key code base i → find_pair code base value i (suc left) ≡ 1
  unfolding find_pair
  find_pair-below i left h =
      rw (ne→not_== value (pair_key code base i) (omega arith))
        (rw (lt→ltb value (pair_key code base i) h) refl)

  find_pair-above :
      (i left : ℕ)
      → pair_key code base i < value
      → find_pair code base value i (suc left) ≡ find_pair code base value (i + 1) left
  unfolding find_pair
  find_pair-above i left h =
      rw (ne→not_== value (pair_key code base i) (omega arith))
        (rw (le→not_ltb value (pair_key code base i) (omega arith)) refl)

  -- Where the keys from the pair i on ascend as unsigned numbers and one of them is the value, the loop
  -- ends at that pair, on as many rounds as there are pairs.
  pub find_pair-hit :
      (left i k : ℕ)
      → ((a b : ℕ) → a < b → b < i + left → pair_key code base a < pair_key code base b)
      → i ≤ k
      → k < i + left
      → pair_key code base k ≡ value
      → find_pair code base value i left ≡ 13 + 8 * k
  find_pair-hit zero i k sorted lo hi e = absurd (omega arith)
  find_pair-hit (suc left) i k sorted lo hi e = elim (Bool-cases (ltb i k)) [
    | inl before ↦
        let earlier : i < k = ltb→lt i k before in
        let smaller = sorted i k earlier hi in
        find_pair-above i left (omega (arith, e, smaller))
        ∙ find_pair-hit left (i + 1) k (λ a b h l. sorted a b h (omega arith)) (omega arith)
            (omega arith) e
    | inr here ↦
        let same : i ≡ k = omega (arith, not_ltb→le i k here) in
        find_pair-equal i left (ap (pair_key code base) same ∙ e) ∙ ap (λ n. 13 + 8 * n) same
  ]

  -- Where no key is the value, the loop ends at the default.
  pub find_pair-miss :
      (left i : ℕ)
      → ((a : ℕ) → a < i + left → pair_key code base a ≢ value)
      → find_pair code base value i left ≡ 1
  unfolding find_pair
  find_pair-miss zero i other = refl
  find_pair-miss (suc left) i other = elim (Bool-cases (ltb value (pair_key code base i))) [
    | inl below ↦ find_pair-below i left (ltb→lt _ _ below)
    | inr up ↦
        let differs = other i (omega arith) in
        find_pair-above i left (omega (arith, not_ltb→le _ _ up, differs))
        ∙ find_pair-miss left (i + 1) (λ a h. other a (omega arith))
  ]

-- The value on top of the stack is not negative as an int, and the first key is: a table of one pair or
-- more, in ascending order of ints. `LOOKUPSWITCH` then takes the default branch, whatever the other
-- keys are.
pub lookupswitch-negative_key :
    (start : ℕ) (code : ℕ → ℕ) (f : Frame)
    → get_int 0 f < 2147483648
    → 2147483648 ≤ pair_key code (f.pc + padding start f) 0
    → 0 < pair_count (get_u4 code (f.pc + (padding start f + 5)))
    → lookupswitch start code f ≡ branch_wide code (padding start f + 1) (decrement_stack_by 1 f)
unfolding lookupswitch
lookupswitch-negative_key start code f small negative some_pairs =
    ap (λ at. branch_wide code (padding start f + at) (decrement_stack_by 1 f))
      (first_pair (pair_count (get_u4 code (f.pc + (padding start f + 5)))) some_pairs)
  where
    first_pair : (n : ℕ) → 0 < n → find_pair code (f.pc + padding start f) (get_int 0 f) 0 n ≡ 1
    first_pair zero h = absurd (omega (arith, h))
    first_pair (suc n) h =
        find_pair-below code (f.pc + padding start f) (get_int 0 f) 0 n (omega arith)

-- `IFLT` never branches and `IFGE` always does, since the int is unsigned.
pub iflt-ifge :
    (code : ℕ → ℕ) (f : Frame)
    → (iflt code f ≡ next_by 3 (decrement_stack_by 1 f))
      × (ifge code f ≡ branch code (decrement_stack_by 1 f))
unfolding iflt ifge
iflt-ifge code f = (rw (le→not_ltb (get_int 0 f) 0 (omega arith)) refl, ground arith)

-- Where `JSR` goes.
abbrev pub jsr_target : (ℕ → ℕ) → Frame → ℕ
jsr_target code f = add_s2 f.pc (get_u2 code (f.pc + 1))

-- What a return address comes to: the variable n has it, no object word has changed, and the stack is as high
-- as before `JSR`.
pub record Returns (target n : ℕ) (f f' : Frame) : Type 0 where
  pub at_target : f'.pc ≡ target
  pub address : (f'.fields (f.lp + n)).primitive ≡ f.pc + 3
  pub objects : (y : ℕ) → (f'.fields y).object ≡ (f.fields y).object
  pub height : f'.sp ≡ f.sp
  pub locals : f'.lp ≡ f.lp

-- The store of the return address that `JSR` has pushed.
stored-Returns :
    (f : Frame) (target size n : ℕ)
    → f.lp + n ≤ f.sp
    → Returns
        (target + size)
        n
        f
        (return_address_store size n (set_pc target (push_ret_address (f.pc + 3) f)))
unfolding return_address_store
stored-Returns f target size n below = record {
  at_target = refl;
  address = ground arith;
  objects = λ y. ground arith;
  height = omega arith;
  locals = refl;
}

-- The code with the opcode at the target of `JSR` altered, and the frame there.
abbrev altered : (ℕ → ℕ) → Frame → ℕ → ℕ → ℕ
altered code f op = update code (jsr_target code f) op

abbrev at_subroutine : (ℕ → ℕ) → Frame → Frame
at_subroutine code f = set_pc (jsr_target code f) (push_ret_address (f.pc + 3) f)

-- `JSR` to an opcode that becomes `op`, which stores n by an instruction of `size` bytes.
abbrev Goes : (ℕ → ℕ) → Frame → ℕ → ℕ → ℕ → Type 0
Goes code f op size n =
    (jsr code f ≡ jumps (altered code f op) (at_subroutine code f))
    × (store_instruction (altered code f op) (at_subroutine code f)
        ≡ some (return_address_store size n (at_subroutine code f)))

Goes-long :
    (code : ℕ → ℕ) (f : Frame)
    → (code (jsr_target code f) ≡ 58) ⊎ (code (jsr_target code f) ≡ 244)
    → Goes code f 244 2 (code (jsr_target code f + 1))
unfolding jsr store_instruction
Goes-long code f (inl op) = (rw op refl, ground arith)
Goes-long code f (inr op) = (rw op refl, ground arith)

Goes-short :
    (code : ℕ → ℕ) (f : Frame) (k : ℕ)
    → k < 4
    → (code (jsr_target code f) ≡ 75 + k) ⊎ (code (jsr_target code f) ≡ 245 + k)
    → Goes code f (245 + k) 1 k
unfolding jsr store_instruction
Goes-short code f zero small (inl op) = (rw op refl, ground arith)
Goes-short code f (suc zero) small (inl op) = (rw op refl, ground arith)
Goes-short code f (suc (suc zero)) small (inl op) = (rw op refl, ground arith)
Goes-short code f (suc (suc (suc zero))) small (inl op) = (rw op refl, ground arith)
Goes-short code f zero small (inr op) = (rw op refl, ground arith)
Goes-short code f (suc zero) small (inr op) = (rw op refl, ground arith)
Goes-short code f (suc (suc zero)) small (inr op) = (rw op refl, ground arith)
Goes-short code f (suc (suc (suc zero))) small (inr op) = (rw op refl, ground arith)
Goes-short code f (suc (suc (suc (suc k)))) small op = absurd (omega (arith, small))

-- The instruction at an address is an `ASTORE` or a `RETURN_ADDRESS_STORE` of the variable n, in its long or
-- its short form, and has `size` bytes.
abbrev pub IsStore : (ℕ → ℕ) → ℕ → ℕ → ℕ → Type 0
IsStore code a size n =
    (((code a ≡ 58) ⊎ (code a ≡ 244)) × (n ≡ code (a + 1)) × (size ≡ 2))
    ⊎ ((n < 4) × ((code a ≡ 75 + n) ⊎ (code a ≡ 245 + n)) × (size ≡ 1))

-- `JSR` jumps to an `ASTORE` or a `RETURN_ADDRESS_STORE` of the variable n, whose field is below the top of the
-- stack. The instruction that then stands there, run by its opcode, stores the return address, changes no
-- object word and leaves the stack as high as before `JSR`; a `RET` of the variable that follows, whose operand
-- is not the byte that `JSR` alters, comes back to the instruction behind `JSR`.
pub jsr-ret :
    (code : ℕ → ℕ) (f : Frame) (size n at : ℕ)
    → IsStore code (jsr_target code f) size n
    → f.lp + n ≤ f.sp
    → code (at + 1) ≡ n
    → jsr_target code f ≢ at + 1
    → (code' : ℕ → ℕ) × (f' : Frame) × (f'' : Frame) × (jsr code f ≡ jumps code' f')
      × (store_instruction code' f' ≡ some f'')
      × Returns (jsr_target code f + size) n f f''
      × ((ret code' (set_pc at f'')).pc ≡ f.pc + 3)
unfolding ret return_address_store
jsr-ret code f size n at (inl (op, operand, two)) below same apart = rw two (
    let went = Goes-long code f op in
    let back = stored-Returns f (jsr_target code f) 2 n below in
    (
      altered code f 244,
      at_subroutine code f,
      return_address_store 2 n (at_subroutine code f),
      went.0,
      rw operand (went.1),
      back,
      rw (update_ne code (jsr_target code f) (at + 1) 244 apart) (rw same (back.address)),
    ))
jsr-ret code f size n at (inr (small, op, one)) below same apart = rw one (
    let went = Goes-short code f n small op in
    let back = stored-Returns f (jsr_target code f) 1 n below in
    (
      altered code f (245 + n),
      at_subroutine code f,
      return_address_store 1 n (at_subroutine code f),
      went.0,
      went.1,
      back,
      rw (update_ne code (jsr_target code f) (at + 1) (245 + n) apart) (rw same (back.address)),
    ))
