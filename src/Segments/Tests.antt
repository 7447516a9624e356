-- ===== src/Segments/Tests.antt =====
-- The theorems about stack segments at a stack of one segment, at the address 3000 with 100 fields.
use mjvmk.Base.{ℕ, [], ◌∷◌, ◌==◌, if◌then◌else◌, refl, arith, inl}
use mjvmk.Segments.{Segment, add_segment, allocate_stack}
use mjvmk.Segments.Chains.{IsChain, add_segment-IsChain, HasRoom, allocate_stack-HasRoom}

abbrev one_segment : ℕ → Segment
one_segment p = record { next = 0; length = if p == 3000 then 100 else 0 }

-- 256 fields at the address 10000.
add_segment-IsChain_example :
    IsChain ((add_segment 8 256 10000 3000 one_segment).1) 3000 (3000 ∷ 12048 ∷ [])
add_segment-IsChain_example =
    add_segment-IsChain 8 256 10000 3000 one_segment (λ e. omega (arith, e)) (3000 ∷ []) 3000
      (refl, (λ e. omega (arith, e)), refl) (refl, tt) refl refl

allocate_stack-HasRoom_example :
    HasRoom 8 300 3000 (allocate_stack 2 8 (λ bytes. 10000) 300 3000 one_segment)
allocate_stack-HasRoom_example =
    allocate_stack-HasRoom 2 8 (λ bytes. 10000) 300 3000 one_segment (omega arith) (omega arith)
      (omega arith) (λ bytes ne. inl (omega arith)) (omega arith)
