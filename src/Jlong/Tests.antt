-- ===== src/Jlong/Tests.antt =====
-- Runs of the operations on a jlong, and the theorems about them at concrete longs.
use mjvmk.Base.{◌*◌, ◌%◌, ◌^◌, ◌≡◌, refl, some, arith}
use mjvmk.Jlong.{Jlong, IsJlong, value, modulus, jlong_one, increment, shift_left}
use mjvmk.Jlong.Shift.{shift_left-value}

abbrev carrying : Jlong
carrying = record { high = 1; low = 4294967295 }

abbrev minus_one : Jlong
minus_one = record { high = 4294967295; low = 4294967295 }

carrying-IsJlong : IsJlong carrying
carrying-IsJlong = record { high_word = omega arith; low_word = omega arith }

jlong_one-IsJlong : IsJlong jlong_one
jlong_one-IsJlong = record { high_word = omega arith; low_word = omega arith }

increment-carries : increment carrying jlong_one ≡ record { high = 2; low = 0 }
unfolding increment
increment-carries = refl

abbrev twenty : Jlong
twenty = record { high = 0; low = 20 }

abbrev six : Jlong
six = record { high = 0; low = 6 }

shift_left-value_example :
    (r : Jlong) × (shift_left carrying 33 ≡ some r) × (value r ≡ value carrying * 2 ^ 33 % modulus)
shift_left-value_example = shift_left-value carrying 33 carrying-IsJlong (omega arith) (omega arith)

abbrev sixteen_bits_up : Jlong
sixteen_bits_up = record { high = 0; low = 5 * 65536 }
