-- ===== src/Interpreter/Tests.antt =====
-- The theorems about the handlers at a frame of ten fields.
use mjvmk.Base.{
  ℕ, ◌+◌, ◌-◌, ◌*◌, ◌%◌, ◌<◌, ◌≡◌, some, inl, arith, refl, if◌then◌else◌, ◌==◌, leb, ◌&&◌, ◌||◌,
}
use mjvmk.Jlong.{value, modulus}
use mjvmk.Interpreter.{Frame, get_long}
use mjvmk.Interpreter.Code.{set_pc}
use mjvmk.Interpreter.Branches.{find_pair, jsr, ret, jumps}
use mjvmk.Interpreter.Locals.{store_instruction}
use mjvmk.Interpreter.Switches.{pair_key, find_pair-hit, Returns, jsr_target, jsr-ret}
use mjvmk.Interpreter.Arithmetic.{ladd, lsub}
use mjvmk.Interpreter.Longs.{ladd-lsub}

abbrev ten_fields : Frame
ten_fields = record {
  fields = λ a. record { object = a; primitive = a + 40 };
  sp = 10;
  pc = 0;
  lp = 0;
}

ladd-lsub_example :
    ((ladd ten_fields).sp ≡ ten_fields.sp - 2)
    × (value (get_long 1 (ladd ten_fields))
        ≡ (value (get_long 3 ten_fields) + value (get_long 1 ten_fields)) % modulus)
    × ((lsub ten_fields).sp ≡ ten_fields.sp - 2)
    × (value (get_long 1 (lsub ten_fields))
        ≡ (value (get_long 3 ten_fields) + modulus - value (get_long 1 ten_fields)) % modulus)
ladd-lsub_example =
    ladd-lsub ten_fields (omega arith) (record { high_word = omega arith; low_word = omega arith })
      (record { high_word = omega arith; low_word = omega arith })

-- A table of two pairs with the keys 5 and 9 at address 0.
abbrev two_pairs : ℕ → ℕ
two_pairs a = if a == 12 then 5 else if a == 20 then 9 else 0

two_pairs-ascend : (a b : ℕ) → a < b → b < 2 → pair_key two_pairs 0 a < pair_key two_pairs 0 b
two_pairs-ascend a b h l =
    let first : a ≡ 0 = omega arith in
    let second : b ≡ 1 = omega arith in rw (first, second) (omega arith)

find_pair-hit_example : find_pair two_pairs 0 9 0 2 ≡ 13 + 8 * 1
find_pair-hit_example =
    find_pair-hit two_pairs 0 9 2 0 1 two_pairs-ascend (omega arith) (omega arith) refl

-- A `LOOKUPSWITCH` at address 3 of a method at address 0, with the keys -1 and 5.
abbrev negative_first : ℕ → ℕ
negative_first a =
    if a == 11
    then 2
    else if (leb 12 a && leb a 15)
    then 255
    else if a == 23
    then 5
    else if a == 19
    then 40
    else 0

abbrev at_switch : Frame
at_switch = record { fields = λ a. record { object = 0; primitive = 5 }; sp = 4; pc = 3; lp = 0 }

-- A `JSR` at address 0 to an `ASTORE` at address 10, and a `RET` at address 20, of variable 2.
abbrev subroutine : ℕ → ℕ
subroutine a = if a == 2 then 10 else if a == 10 then 58 else if (a == 11 || a == 21) then 2 else 0

jsr-ret_example :
    (code' : ℕ → ℕ) × (f' : Frame) × (f'' : Frame) × (jsr subroutine ten_fields ≡ jumps code' f')
    × (store_instruction code' f' ≡ some f'')
    × Returns (jsr_target subroutine ten_fields + 2) 2 ten_fields f''
    × ((ret code' (set_pc 20 f'')).pc ≡ ten_fields.pc + 3)
jsr-ret_example =
    jsr-ret subroutine ten_fields 2 2 20 (inl (inl refl, refl, refl)) (omega arith) refl
      (omega arith)
