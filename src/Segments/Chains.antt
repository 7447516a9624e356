-- ===== src/Segments/Chains.antt =====
-- The chain of segments of jvm/src/frame/stackSegment.c while stacks are allocated and given back.
use mjvmk.Base.{
  ℕ, zero, suc, ◌+◌, ◌*◌, ◌%◌, ◌<◌, ◌≤◌, ◌≡◌, ◌≢◌, refl, true, false, Option, none, some, List, [],
  ◌∷◌, ◌==◌, ltb, ◌||◌, if◌then◌else◌, length, arith, Bool-cases, inl, inr, ◌⊎◌,
}
use native.Mathlib.Nat.{mul-le-mul_left}
use mjvmk.LinkedList.Chain.{has, Distinct}
use mjvmk.Segments.{
  Segment, StackParams, required_length, segment_bytes, base_of, add_segment, allocate_stack,
  de_allocate_stack,
}

-- From the pointer `p` the segments `ps` follow up to NULL.
abbrev pub IsChain : (ℕ → Segment) → ℕ → List ℕ → Type 0
IsChain segments p [] = p ≡ 0
IsChain segments p (x ∷ xs) = (p ≡ x) × (x ≢ 0) × IsChain segments (segments x).next xs

-- The list with `y` behind `x`.
abbrev pub insert_behind : ℕ → ℕ → List ℕ → List ℕ
insert_behind x y [] = []
insert_behind x y (z ∷ zs) = if x == z then z ∷ y ∷ zs else z ∷ insert_behind x y zs

-- The fields' start of each segment.
abbrev pub bases : ℕ → (ℕ → Segment) → List ℕ → List ℕ
bases field_size segments [] = []
bases field_size segments (x ∷ xs) = base_of field_size segments x ∷ bases field_size segments xs

-- deAllocateStack of a chain that is not empty gives back the fields of each segment once, in order, on as
-- many rounds as there are segments, or more.
pub de_allocate_stack-bases :
    (x : ℕ) (xs : List ℕ) (fuel field_size : ℕ) (segments : ℕ → Segment)
    → IsChain segments x (x ∷ xs)
    → length xs < fuel
    → de_allocate_stack fuel field_size segments x ≡ bases field_size segments (x ∷ xs)
unfolding de_allocate_stack
de_allocate_stack-bases x xs zero field_size segments c enough = absurd (omega (arith, enough))
de_allocate_stack-bases x [] (suc fuel) field_size segments c enough = rw (c.2) refl
de_allocate_stack-bases x (y ∷ ys) (suc fuel) field_size segments c enough =
    let tail : IsChain segments (segments x).next (y ∷ ys) = c.2 in
    let nonzero : (y == 0) ≡ false = ground (arith, tail.1) in
    let rest =
      de_allocate_stack-bases y ys fuel field_size segments (refl, tail.1, tail.2)
        (omega (arith, enough)) in
    rw (tail.0, nonzero, rest) refl

-- The chain from a segment on, where the writes are elsewhere.
IsChain-frame :
    (s t : ℕ → Segment) (p : ℕ) (xs : List ℕ)
    → ((y : ℕ) → has y xs ≡ true → (t y).next ≡ (s y).next)
    → IsChain s p xs
    → IsChain t p xs
IsChain-frame s t p [] same c = c
IsChain-frame s t p (x ∷ xs) same c = (
  c.0,
  c.1,
  rw (same x (ground arith))
      (IsChain-frame s t (s x).next xs (λ y i. same y (ground (arith, i))) (c.2)),
)

module _ (field_size len field current : ℕ) (segments : ℕ → Segment) (some_field : field ≢ 0) where
  abbrev segment : ℕ
  segment = field + field_size * len

  abbrev after : ℕ → Segment
  after = (add_segment field_size len field current segments).1

  next_of_new : (after segment).next ≡ (segments current).next
  unfolding add_segment
  next_of_new = ground arith

  next_of_current : current ≢ segment → (after current).next ≡ segment
  unfolding add_segment
  next_of_current ne = ground (arith, ne)

  next_elsewhere : (y : ℕ) → current ≢ y → segment ≢ y → (after y).next ≡ (segments y).next
  unfolding add_segment
  next_elsewhere y a b = ground (arith, a, b)

  length_of_new : (after segment).length ≡ len
  unfolding add_segment
  length_of_new = ground arith

  new_stack :
      0 < len
      → ((add_segment field_size len field current segments).0.base + field_size * len ≡ segment)
        × ((add_segment field_size len field current segments).0.limit + field_size ≡ segment)
  unfolding add_segment
  new_stack pos =
      let one : field_size ≤ field_size * len = at_least_one pos in
      (omega arith, omega (arith, one))
    where
      at_least_one : 0 < len → field_size ≤ field_size * len
      at_least_one pos = grind arith

  nonzero : segment ≢ 0
  nonzero e = some_field (omega (arith, e))

  -- In a chain of distinct segments that has the current one, a new segment that is none of them, at fields
  -- whose address is not NULL, comes right behind the current one.
  pub add_segment-IsChain :
      (xs : List ℕ) (p : ℕ)
      → IsChain segments p xs
      → Distinct xs
      → has current xs ≡ true
      → has segment xs ≡ false
      → IsChain after p (insert_behind current segment xs)
  add_segment-IsChain [] p c d i o = absurd (ground (arith, i))
  add_segment-IsChain (x ∷ xs) p c d i o = elim (Bool-cases (current == x)) [
    | inl here ↦
        let at : x ≡ current = ground (arith, here) in
        let apart : current ≢ segment = (λ e. ground (arith, e, at, o)) in
        let rest =
          IsChain-frame segments after (segments x).next xs
            (λ y k.
              next_elsewhere y (λ e. ground (arith, e, k, at, d.0)) (λ e. ground (arith, e, k, o)))
            (c.2) in
        let behind : IsChain after (segments current).next xs = rw at at rest in
        rw here (c.0, c.1, (rw at (next_of_current apart), nonzero, rw next_of_new behind))
    | inr on ↦
        let elsewhere : (after x).next ≡ (segments x).next =
          next_elsewhere x (λ e. ground (arith, e, on)) (λ e. ground (arith, e, o)) in
        rw on (
          c.0,
          c.1,
          rw elsewhere (
              add_segment-IsChain xs (segments x).next (c.2) (d.1) (ground (arith, i, on))
                (ground (arith, o))),
        )
  ]

-- The length of a new segment: a multiple of the block size that has the required fields.
required_length-le :
    (fuel required length : ℕ)
    → required + 256 < 4294967296
    → required ≤ length + 256 * fuel
    → required ≤ required_length fuel required length
unfolding required_length
required_length-le zero required length small enough = omega (arith, enough)
required_length-le (suc fuel) required length small enough =
    elim (Bool-cases (ltb length required)) [
      | inr done ↦ rw done (ground (arith, done))
      | inl more ↦
          let next : (length + 256) % 4294967296 ≡ length + 256 = ground (arith, more, small) in
          rw (more, next)
            (required_length-le fuel required (length + 256) small (omega (arith, enough)))
    ]

-- It is positive.
required_length-block :
    (fuel required length : ℕ)
    → 256 ≤ length
    → required + 256 < 4294967296
    → 256 ≤ required_length fuel required length
unfolding required_length
required_length-block zero required length block small = block
required_length-block (suc fuel) required length block small =
    elim (Bool-cases (ltb length required)) [
      | inr done ↦ rw done block
      | inl more ↦
          let next : (length + 256) % 4294967296 ≡ length + 256 = ground (arith, more, small) in
          rw (more, next) (required_length-block fuel required (length + 256) (omega arith) small)
    ]

-- And it is at most a block more than required, or one block.
required_length-bounded :
    (fuel required length : ℕ)
    → length ≤ required + 256
    → required + 256 < 4294967296
    → required_length fuel required length ≤ required + 256
unfolding required_length
required_length-bounded zero required length bounded small = bounded
required_length-bounded (suc fuel) required length bounded small =
    elim (Bool-cases (ltb length required)) [
      | inr done ↦ rw done bounded
      | inl more ↦
          let next : (length + 256) % 4294967296 ≡ length + 256 = ground (arith, more, small) in
          rw (more, next)
            (required_length-bounded fuel required (length + 256) (ground (arith, more)) small)
    ]

-- What allocateStack gives in a chain of segments: room for the required fields up to the limit, in a segment
-- that follows the current one.
abbrev pub HasRoom : ℕ → ℕ → ℕ → Option (StackParams × (ℕ → Segment)) → Type 0
HasRoom field_size required current none = current ≡ current
HasRoom field_size required current (some (stack, segments)) =
    (stack.base + field_size * (segments (segments current).next).length ≡ (segments current).next)
    × (required ≤ (segments (segments current).next).length)
    × (stack.limit + field_size ≡ (segments current).next)

-- allocateStack of a number of fields that, with 256 more, are below 2 ^ 32 and whose bytes with the header of
-- a segment are below 2 ^ 32, on a round for each block of them: where it succeeds, the stack goes on in the
-- segment behind the current one, whose fields, at least as many as required, run from the base to that
-- segment, and the limit is the last of them. The current segment does not lie in the memory that memoryAlloc
-- gives, and the fields of the segment that followed it before lie above 0.
pub allocate_stack-HasRoom :
    (fuel field_size : ℕ) (memory_alloc : ℕ → ℕ) (required current : ℕ) (segments : ℕ → Segment)
    → required + 256 < 4294967296
    → field_size * (required + 256) + 8 < 4294967296
    → required ≤ 256 * fuel
    → ((bytes : ℕ)
        → memory_alloc bytes ≢ 0
        → current < memory_alloc bytes ⊎ memory_alloc bytes + bytes ≤ current)
    → field_size * (segments (segments current).next).length ≤ (segments current).next
    → HasRoom field_size required current
        (allocate_stack fuel field_size memory_alloc required current segments)
unfolding allocate_stack
allocate_stack-HasRoom fuel field_size memory_alloc required current segments small fits rounds
      apart above =
    let len = required_length fuel required 256 in
    let next = (segments current).next in
    let enough : required ≤ len =
      required_length-le fuel required 256 small (omega (arith, rounds)) in
    let positive : 0 < len =
      omega (arith, required_length-block fuel required 256 (omega arith) small) in
    let bounded : len ≤ required + 256 =
      required_length-bounded fuel required 256 (omega arith) small in
    let bytes : segment_bytes field_size len ≡ field_size * len + 8 =
      omega (arith, fits, mul-le-mul_left field_size bounded) in
    let field = memory_alloc (segment_bytes field_size len) in
    elim (Bool-cases ((next == 0) || ltb (segments next).length len)) [
      | inr reuse ↦
          let long : len ≤ (segments next).length = ground (arith, reuse) in
          let one : field_size ≤ field_size * (segments next).length =
            at_least field_size (segments next).length (omega (arith, long, positive)) in
          rw reuse (omega (arith, above), omega (arith, long, enough), omega (arith, above, one))
      | inl new ↦ elim (Bool-cases (field == 0)) [
        | inl fails ↦ rw (new, fails) refl
        | inr got ↦
            let some_field : field ≢ 0 = (λ e. ground (arith, e, got)) in
            let behind : current ≢ field + field_size * len = (λ e.
              elim (apart (segment_bytes field_size len) some_field) [
                | inl l ↦ omega (arith, l, e, bytes)
                | inr l ↦ omega (arith, l, e, bytes)
              ]) in
            let at = next_of_current field_size len field current segments some_field behind in
            let long = length_of_new field_size len field current segments some_field in
            let stack = new_stack field_size len field current segments some_field positive in
            rw (new, got) (rw (at, long) (stack.0, enough, stack.1))
      ]
    ]
  where
    at_least : (a b : ℕ) → 0 < b → a ≤ a * b
    at_least a b pos = grind arith
