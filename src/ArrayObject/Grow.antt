-- ===== src/ArrayObject/Grow.antt =====
-- The operations of source/runtime/objects/array_object.cpp that may move an array to a larger block.
use kenaf.Base.{
  ℕ, ◌+◌, ◌-◌, ◌<◌, ◌%◌, ◌^◌, ◌≤◌, ◌≡◌, refl, inl, inr, List, some, ltb, leb, ◌==◌, if◌then◌else◌,
  arith, Bool-cases, length, get_or, length-replicate, get_or-replicate, get_or-past,
}
use kenaf.ArrayObject.{
  Value, ArrayObject, slots_of, keep, vslots_new, array_expand_length, array_new, array_resize,
  array_extend,
}
use kenaf.ArrayObject.Slots.{clear_loop-Leaves, copy_loop-Leaves, init_loop-Leaves}
use kenaf.ArrayObject.Refine.{slot, IsArray, Holds, slots_of-keep}

-- At least the asked-for capacity.
pub array_expand_length-least :
    (current minimum : ℕ) → minimum ≤ array_expand_length current minimum
unfolding array_expand_length
array_expand_length-least current minimum = ground arith

-- The most slots that the heap serves: a block with its header has at most `HEAP_MAX_CHUNK_SIZE`,
-- 0xFFFFFFE0 bytes.
abbrev pub max_slots : ℕ
max_slots = 536870907

module _ (block : ℕ → ℕ) (fits : (n : ℕ) → n ≤ max_slots → n ≤ block n) where
  pub length-vslots_new : (n : ℕ) → n ≤ max_slots → n ≤ length (vslots_new block n)
  length-vslots_new n small =
      let whole : n % 2 ^ 61 ≡ n = omega arith in
      rw whole (omega (arith, length-replicate {A = ℕ} (block n) 0, fits n small))

  -- `array_resize` of a valid array keeps the values in front of the new length, null follows
  -- them, and the array stays valid, if a length that is larger than the block is one that the heap
  -- serves, and blocks of up to that many slots are at least as large as asked for.
  pub array_resize-slot :
      (a : ArrayObject) (n : ℕ)
      → IsArray a
      → (length (slots_of a.aslots) < n → n ≤ max_slots)
      → Holds n (λ j. if ltb j n then slot a j else 0) (array_resize block a n)
  unfolding array_resize
  array_resize-slot a n v served = elim (Bool-cases (leb n a.length)) [
    | inl shorter ↦
        let (s, run, len, at) =
          clear_loop-Leaves (a.length - n) n (slots_of a.aslots) (ground (arith, v.roomy)) in
        let kept = slots_of-keep a.aslots s in
        let meaning : (j : ℕ) → get_or s j 0 ≡ (if ltb j n then slot a j else 0) =
          λ j. ground (arith, at j, v.blank j) in
        (
          record { aslots = keep a.aslots s; length = n },
          rw (shorter, run),
          record {
            roomy = rw kept (ground (arith, len, v.roomy));
            blank = λ j le. rw kept (ground (arith, meaning j));
          },
          refl,
          λ j. rw kept (meaning j),
        )
    | inr longer ↦ elim (Bool-cases (ltb (length (slots_of a.aslots)) n)) [
      | inl full ↦
          let room : n ≤ length (vslots_new block n) =
            length-vslots_new n (served (ground arith)) in
          let (s, run, len, at) =
            copy_loop-Leaves a.length 0 0 (slots_of a.aslots) (vslots_new block n)
              (omega (arith, v.roomy)) (ground (arith, room))
              (λ j le. get_or-replicate (block (n % 2 ^ 61)) j) in
          let meaning : (j : ℕ) → get_or s j 0 ≡ (if ltb j n then slot a j else 0) =
            λ j. ground (arith, at j, v.blank j, get_or-replicate (block (n % 2 ^ 61)) j) in
          (
            record { aslots = some s; length = n },
            rw (longer, full, run),
            record { roomy = omega (arith, len, room); blank = λ j le. ground (arith, meaning j) },
            refl,
            meaning,
          )
      | inr there ↦ (
        record a { length = n },
        rw (longer, there),
        record { roomy = ground arith; blank = λ j le. ground (arith, v.blank j) },
        refl,
        λ j. ground (arith, v.blank j),
      )
    ]
  ]

  -- `array_new` makes an empty array.
  array_new-slot :
      (n : ℕ) → IsArray (array_new block n) × ((j : ℕ) → slot (array_new block n) j ≡ 0)
  unfolding array_new
  array_new-slot n = elim (Bool-cases (n == 0)) [
    | inl e ↦ rw e (record { roomy = omega arith; blank = λ j le. refl }, λ j. refl)
    | inr e ↦ rw e (
      record { roomy = omega arith; blank = λ j le. get_or-replicate (block (n % 2 ^ 61)) j },
      get_or-replicate (block (n % 2 ^ 61)),
    )
  ]

  -- `array_extend` puts the values behind those of a valid array, which stays valid, if the larger
  -- block, when one is needed, is one that the heap serves, and blocks of up to that many slots
  -- are at least as large as asked for.
  pub array_extend-slot :
      (a : ArrayObject) (vs : List Value)
      → IsArray a
      → (length (slots_of a.aslots) < a.length + length vs
          → array_expand_length
              (length (slots_of a.aslots))
              (length (slots_of a.aslots) + length vs)
            ≤ max_slots)
      → Holds
          (a.length + length vs)
          (λ j. if ltb j a.length then slot a j else get_or vs (j - a.length) 0)
          (array_extend block a vs)
  unfolding array_extend
  array_extend-slot a vs v served =
      let count = length (slots_of a.aslots) in
      elim (Bool-cases (ltb count (a.length + length vs))) [
        | inl full ↦
            let wide = array_expand_length count (count + length vs) in
            let enough = array_expand_length-least count (count + length vs) in
            let room : wide ≤ length (vslots_new block wide) =
              length-vslots_new wide (served (ground arith)) in
            let (e, moving, wider, copied) =
              copy_loop-Leaves a.length 0 0 (slots_of a.aslots) (vslots_new block wide)
                (omega (arith, v.roomy)) (omega (arith, room, v.roomy, enough))
                (λ j le. get_or-replicate (block (wide % 2 ^ 61)) j) in
            let (s, run, len, at) =
              init_loop-Leaves vs a.length e (omega (arith, room, v.roomy, enough))
                (λ j le. ground (arith, copied j, get_or-replicate (block (wide % 2 ^ 61)) j)) in
            (
              record { aslots = keep a.aslots s; length = a.length + length vs },
              rw (full, moving, run),
              record {
                roomy =
                    rw (slots_of-keep a.aslots s)
                      (omega (arith, len, wider, room, v.roomy, enough));
                blank = λ j le.
                    rw (slots_of-keep a.aslots s)
                      (ground (arith, at j, get_or-past vs (j - a.length)));
              },
              refl,
              λ j. rw (slots_of-keep a.aslots s) (ground (arith, at j, copied j)),
            )
        | inr there ↦
            let (s, run, len, at) =
              init_loop-Leaves vs a.length (slots_of a.aslots) (ground arith) v.blank in
            (
              record { aslots = keep a.aslots s; length = a.length + length vs },
              rw (there, run),
              record {
                roomy = rw (slots_of-keep a.aslots s) (ground (arith, len));
                blank = λ j le.
                    rw (slots_of-keep a.aslots s)
                      (ground (arith, at j, get_or-past vs (j - a.length)));
              },
              refl,
              λ j. rw (slots_of-keep a.aslots s) (at j),
            )
      ]
