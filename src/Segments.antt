-- ===== src/Segments.antt =====
-- The segments of a thread's Java stack, of jvm/src/frame/stackSegment.c. The fields of a segment lie before its
-- stackSegmentStruct. Addresses are in bytes, NULL is 0, pointers have four bytes; `field_size` is
-- getStackFieldSize(). An allocation is a parameter: the address that memoryAlloc returns.
pub mod Chains
mod Tests
use mjvmk.Base.{
  ℕ, zero, suc, ◌+◌, ◌-◌, ◌*◌, ◌%◌, Bool, Option, none, some, List, [], ◌∷◌, ◌==◌, ltb, ◌||◌,
  if◌then◌else◌, update,
}

-- `stackSegmentStruct`.
pub record Segment : Type 0 where
  pub next : ℕ
  pub length : ℕ

-- `stackParamStruct`.
pub record StackParams : Type 0 where
  pub base : ℕ
  pub limit : ℕ

abbrev pub java_stack_block_size : ℕ
java_stack_block_size = 256

abbrev pub stack_segment_size : ℕ
stack_segment_size = 8

-- The first loop of `allocateStack`, whose length is a UINT32.
unfoldable pub required_length : ℕ → ℕ → ℕ → ℕ
required_length zero required length = length
required_length (suc fuel) required length =
    let longer = required_length fuel required ((length + java_stack_block_size) % 4294967296) in
    if ltb length required then longer else length

-- The number of bytes that `allocateStack` and `allocateStackBase` ask for, a UINT32.
abbrev pub segment_bytes : ℕ → ℕ → ℕ
segment_bytes field_size length = (field_size * length + stack_segment_size) % 4294967296

-- The start of a segment's fields.
abbrev pub base_of : ℕ → (ℕ → Segment) → ℕ → ℕ
base_of field_size segments segment = segment - field_size * (segments segment).length

-- A new segment at the fields `field`, which follows `current`.
unfoldable pub add_segment : ℕ → ℕ → ℕ → ℕ → (ℕ → Segment) → StackParams × (ℕ → Segment)
add_segment field_size length field current segments =
    let segment : ℕ = field + field_size * length in
    let next : ℕ = (segments current).next in
    let linked : ℕ → Segment =
      update segments current (record (segments current) { next = segment }) in
    (
      record { base = segment - field_size * length; limit = segment - field_size },
      update linked segment (record { next = next; length = length }),
    )

-- `allocateStack`: where the stack goes on, with the segments, or `none` for ERROR_CODE_OUT_OF_MEMORY.
unfoldable pub allocate_stack :
    ℕ → ℕ → (ℕ → ℕ) → ℕ → ℕ → (ℕ → Segment) → Option (StackParams × (ℕ → Segment))
allocate_stack fuel field_size memory_alloc required current segments =
    let length : ℕ = required_length fuel required java_stack_block_size in
    let next : ℕ = (segments current).next in
    let field : ℕ = memory_alloc (segment_bytes field_size length) in
    if (next == 0) || ltb (segments next).length length
    then (if field == 0 then none else some (add_segment field_size length field current segments))
    else some
        (record { base = base_of field_size segments next; limit = next - field_size }, segments)

-- `allocateStackBase`: the segment, its stack and the segments.
unfoldable pub allocate_stack_base :
    ℕ → (ℕ → ℕ) → ℕ → (ℕ → Segment) → Option (ℕ × StackParams × (ℕ → Segment))
allocate_stack_base field_size memory_alloc size segments =
    let field : ℕ = memory_alloc (segment_bytes field_size size) in
    let segment : ℕ = field + field_size * size in
    if field == 0
    then none
    else some (
      segment,
      record { base = field; limit = segment - field_size },
      update segments segment (record { next = 0; length = size }),
    )

-- The loop of `deAllocateStack`: the addresses that memoryFree gets, in order.
unfoldable pub de_allocate_stack : ℕ → ℕ → (ℕ → Segment) → ℕ → List ℕ
de_allocate_stack zero field_size segments current = []
de_allocate_stack (suc fuel) field_size segments current =
    let next : ℕ = (segments current).next in
    let rest = de_allocate_stack fuel field_size segments next in
    base_of field_size segments current ∷ (if next == 0 then [] else rest)
