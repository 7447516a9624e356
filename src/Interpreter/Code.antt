-- ===== src/Interpreter/Code.antt =====
-- The bytecode in memory: the macros `getU2`, `getU4`, `getS2` and `getS4` of
-- jvm/src/interpret/instructions.h, and the branches over a signed distance. `code` is the byte at an
-- address. A branch to an address below 0 does not occur in a method.
use mjvmk.Base.{ℕ, ◌+◌, ◌-◌, ◌*◌, ◌%◌, Bool, ltb, if◌then◌else◌}
use mjvmk.Jlong.{word}
use mjvmk.Interpreter.{Frame}

abbrev pub get_u2 : (ℕ → ℕ) → ℕ → ℕ
get_u2 code a = code a * 256 + code (a + 1)

abbrev pub get_u4 : (ℕ → ℕ) → ℕ → ℕ
get_u4 code a = code a * 16777216 + code (a + 1) * 65536 + code (a + 2) * 256 + code (a + 3)

-- An address and a signed distance of 16 or 32 bits.
abbrev pub add_s2 : ℕ → ℕ → ℕ
add_s2 a d = if ltb d 32768 then a + d else a + d - 65536

abbrev pub add_s4 : ℕ → ℕ → ℕ
add_s4 a d = if ltb d 2147483648 then a + d else a + d - word

abbrev pub set_pc : ℕ → Frame → Frame
set_pc a f = record f { pc = a }

-- `setPC(getPC() + getS2(getPC() + 1))`.
abbrev pub branch : (ℕ → ℕ) → Frame → Frame
branch code f = set_pc (add_s2 f.pc (get_u2 code (f.pc + 1))) f

-- `getS4` at a place after the opcode.
abbrev pub branch_wide : (ℕ → ℕ) → ℕ → Frame → Frame
branch_wide code at f = set_pc (add_s4 f.pc (get_u4 code (f.pc + at))) f

-- `(INT32) a < (INT32) b`.
abbrev pub signed_less : ℕ → ℕ → Bool
signed_less a b = ltb ((a + 2147483648) % word) ((b + 2147483648) % word)
