-- ===== src/Ready/Bytes.antt =====
-- The bits of a byte, and what the bit operations and `highestBitMap` do to them: every value is tried.
use Prim.Native.Nat.{bit_and-bitwise}
use mjvmk.Base.{
  ◌-◌, ℕ, zero, suc, ◌/◌, ◌%◌, ◌^◌, ◌≤◌, ◌<◌, ◌≡◌, ◌≢◌, refl, Bool, true, false, ◌&&◌, ◌||◌, not,
  arith, ◌==◌, ltb, if◌then◌else◌,
}
use mjvmk.Ready.{highest_bit, set_bit, clear_bit}

unfoldable pub has_bit : ℕ → ℕ → Bool
has_bit b k = (b / 2 ^ k % 2) == 1

-- A test of all numbers from the size of a table down, and what its success says of each.
table_holds : (size : ℕ) (law : ℕ → Bool) → Bool
table_holds zero law = true
table_holds (suc size) law = if law size then table_holds size law else false

table_holds-entry :
    (size : ℕ) (law : ℕ → Bool) (entry : ℕ)
    → table_holds size law ≡ true
    → entry < size
    → law entry ≡ true
unfolding table_holds
table_holds-entry zero law entry passed below = absurd (omega (arith, below))
table_holds-entry (suc size) law entry passed below =
    ground (arith, table_holds-entry size law entry)

-- A test of every byte and every two bit numbers.
all_bits : (ℕ → ℕ → ℕ → Bool) → Bool
unfolding table_holds
all_bits p = table_holds 256 (λ b. table_holds 8 (λ k. table_holds 8 (λ j. p b k j)))

all_bits_sound :
    (p : ℕ → ℕ → ℕ → Bool) (b k j : ℕ)
    → all_bits p ≡ true
    → b < 256
    → k < 8
    → j < 8
    → p b k j ≡ true
unfolding all_bits
all_bits_sound p b k j h hb hk hj =
    table_holds-entry 8 (λ j. p b k j) j
      (table_holds-entry 8 (λ k. table_holds 8 (λ j. p b k j)) k
        (table_holds-entry 256 (λ b. table_holds 8 (λ k. table_holds 8 (λ j. p b k j))) b h hb) hk)
      hj

abbrev same : Bool → Bool → Bool
same true b = b
same false b = not b

same_sound : (a b : Bool) → same a b ≡ true → a ≡ b
same_sound a b h = ground arith

both : (a b : Bool) → (a && b) ≡ true → (a ≡ true) × (b ≡ true)
both a b h = ground arith

abbrev set_law : ℕ → ℕ → ℕ → Bool
set_law b k j = same (has_bit (set_bit b k) j) ((j == k) || has_bit b j) && ltb (set_bit b k) 256

set_table : all_bits set_law ≡ true
unfolding all_bits has_bit set_bit
set_table = refl

abbrev clear_law : ℕ → ℕ → ℕ → Bool
clear_law b k j =
    same (has_bit (clear_bit b k) j) (not (j == k) && has_bit b j) && ltb (clear_bit b k) 256

clear_table : all_bits clear_law ≡ true
unfolding all_bits has_bit clear_bit
clear_table = refl

-- A byte is zero if it has no bit; the highest bit is one, and no higher bit is.
abbrev highest_law : ℕ → ℕ → ℕ → Bool
highest_law b k j =
    if b == 0
    then not (has_bit b j)
    else has_bit b (highest_bit b)
      && (ltb (highest_bit b) 8 && (not (has_bit b j) || not (ltb (highest_bit b) j)))

highest_table : table_holds 256 (λ b. table_holds 8 (λ j. highest_law b 0 j)) ≡ true
unfolding table_holds has_bit highest_bit
highest_table = refl

module _ (b k j : ℕ) (hb : b < 256) (hk : k < 8) (hj : j < 8) where
  pub has_bit-set_bit : has_bit (set_bit b k) j ≡ ((j == k) || has_bit b j)
  has_bit-set_bit =
      let e : set_law b k j ≡ true = all_bits_sound set_law b k j set_table hb hk hj in
      same_sound _ _ (both _ _ e).0

  pub has_bit-clear_bit : has_bit (clear_bit b k) j ≡ (not (j == k) && has_bit b j)
  has_bit-clear_bit =
      let e : clear_law b k j ≡ true = all_bits_sound clear_law b k j clear_table hb hk hj in
      same_sound _ _ (both _ _ e).0

module _ (b k : ℕ) (hb : b < 256) (hk : k < 8) where
  pub set_bit-lt : set_bit b k < 256
  set_bit-lt =
      let e : set_law b k 0 ≡ true = all_bits_sound set_law b k 0 set_table hb hk (omega arith) in
      ground arith

  pub clear_bit-lt : clear_bit b k < 256
  clear_bit-lt =
      let e : clear_law b k 0 ≡ true =
        all_bits_sound clear_law b k 0 clear_table hb hk (omega arith) in
      ground arith

module _ (b : ℕ) (hb : b < 256) where
  highest_lem : (j : ℕ) → j < 8 → highest_law b 0 j ≡ true
  highest_lem j hj =
      table_holds-entry 8 (λ j. highest_law b 0 j) j
        (table_holds-entry 256 (λ b. table_holds 8 (λ j. highest_law b 0 j)) b highest_table hb) hj

  pub has_bit_zero : (j : ℕ) → b ≡ 0 → j < 8 → has_bit b j ≡ false
  has_bit_zero j e hj = ground (arith, highest_lem j hj)

  pub highest_bit-set : b ≢ 0 → (has_bit b (highest_bit b) ≡ true) × (highest_bit b < 8)
  highest_bit-set ne = ground (arith, highest_lem 0)

  pub highest_bit-max : (j : ℕ) → b ≢ 0 → j < 8 → has_bit b j ≡ true → j ≤ highest_bit b
  highest_bit-max j ne hj h = ground (arith, highest_lem j)

  pub ne_zero_of_bit : (j : ℕ) → j < 8 → has_bit b j ≡ true → b ≢ 0
  ne_zero_of_bit j hj h e = ground (arith, has_bit_zero j)

pub clear_bit-zero : (k : ℕ) → clear_bit 0 k ≡ 0
unfolding clear_bit
clear_bit-zero k = bit_and-bitwise 0 (255 - 2 ^ k)
