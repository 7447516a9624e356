-- ===== src/Memory/Resize.antt =====
-- The loop of `resizeTable` of lib/src/memory/memoryAlloc.c.
use mjvmk.Base.{
  ℕ, zero, suc, ◌+◌, ◌%◌, ◌≤◌, ◌<◌, ◌≡◌, ltb, arith, refl, Bool-cases, inl, inr, ltb→lt, not_ltb→le,
}
use mjvmk.Memory.Free.{new_table_size}

new_table_size-stop :
    (fuel block_size required size : ℕ)
    → required ≤ size
    → new_table_size fuel block_size required size ≡ size
unfolding new_table_size
new_table_size-stop zero block_size required size h = refl
new_table_size-stop (suc n) block_size required size h = ground arith

new_table_size-step :
    (n block_size required size : ℕ)
    → size < required
    → new_table_size (suc n) block_size required size
      ≡ new_table_size n block_size required ((size + block_size) % 65536)
unfolding new_table_size
new_table_size-step n block_size required size h = ground arith

-- Where the required size and a block of entries are together at most 2 ^ 16, as many rounds as entries
-- are missing are enough: the new table has the required size, and less than one block more unless it
-- was larger before.
pub new_table_size-ends :
    (fuel block_size required size : ℕ)
    → 0 < block_size
    → required + block_size ≤ 65536
    → required ≤ size + fuel
    → (required ≤ new_table_size fuel block_size required size)
      × (size < required → new_table_size fuel block_size required size < required + block_size)
new_table_size-ends fuel block_size required size pos small enough =
    elim (Bool-cases (ltb size required)) [
      | inl less ↦ go fuel size enough (ltb→lt _ _ less)
      | inr done ↦
          let reached = not_ltb→le _ _ done in
          rw (new_table_size-stop fuel block_size required size reached)
            ((reached, λ l. absurd (omega (arith, reached, l))))
    ]
  where
    go :
        (n at : ℕ)
        → required ≤ at + n
        → at < required
        → (required ≤ new_table_size n block_size required at)
          × (size < required → new_table_size n block_size required at < required + block_size)
    go zero at enough less = absurd (omega (arith, enough, less))
    go (suc n) at enough less =
        let whole : (at + block_size) % 65536 ≡ at + block_size = omega (arith, less, small) in
        rw (new_table_size-step n block_size required at less, whole)
          (elim (Bool-cases (ltb (at + block_size) required)) [
            | inl on ↦ go n (at + block_size) (omega (arith, enough, pos)) (ltb→lt _ _ on)
            | inr done ↦
                let reached = not_ltb→le _ _ done in
                rw (new_table_size-stop n block_size required (at + block_size) reached)
                  ((reached, λ l. omega (arith, less)))
          ])

-- Where the table has an even size, grows by an even number of entries and 65535 entries are required,
-- no number of rounds is enough: the size is a UINT16 that stays even.
pub new_table_size-forever :
    (fuel half_block half_size : ℕ)
    → half_size < 32768
    → new_table_size fuel (half_block + half_block) 65535 (half_size + half_size) < 65535
unfolding new_table_size
new_table_size-forever zero b s small = omega arith
new_table_size-forever (suc n) b s small =
    rw (new_table_size-step n (b + b) 65535 (s + s) (omega arith))
      (rw (even) (new_table_size-forever n b ((s + b) % 32768) (omega arith)))
  where
    even : (s + s + (b + b)) % 65536 ≡ (s + b) % 32768 + (s + b) % 32768
    even = omega arith
