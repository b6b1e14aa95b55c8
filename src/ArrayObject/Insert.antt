-- ===== src/ArrayObject/Insert.antt =====
-- `array_insert` of source/runtime/objects/array_object.cpp, with and without a larger block.
use kenaf.Base.{
  ℕ, ◌+◌, ◌-◌, ◌%◌, ◌^◌, ◌≤◌, ◌<◌, ◌≡◌, refl, inl, inr, false, List, some, raise, index_error, ltb,
  leb, ◌==◌, if◌then◌else◌, arith, Bool-cases, length, get_or, set, length-set, get_or-set,
  get_or-replicate,
}
use kenaf.ArrayObject.{Value, ArrayObject, slots_of, vslots_new, array_expand_length, array_insert}
use kenaf.ArrayObject.Slots.{winit-lem, write-lem, copy_loop-Leaves, up_loop-Leaves}
use kenaf.ArrayObject.Refine.{slot, IsArray, Holds}
use kenaf.ArrayObject.Grow.{array_expand_length-least, max_slots, length-vslots_new}

module _ (block : ℕ → ℕ) (fits : (n : ℕ) → n ≤ max_slots → n ≤ block n) where
  -- In a valid array, if the larger block, when one is needed, is one that the heap serves, and blocks
  -- of up to that many slots are at least as large as asked for, `array_insert` moves the values from the index on up and puts the value at the index, and the array stays valid; it
  -- raises an index error past the end of the array.
  pub array_insert-slot :
      (a : ArrayObject) (i : ℕ) (x : Value)
      → IsArray a
      → (length (slots_of a.aslots) < a.length + 1
          → array_expand_length (length (slots_of a.aslots)) (length (slots_of a.aslots) + 1)
            ≤ max_slots)
      → (a.length < i → array_insert block a i x ≡ raise index_error)
        × (i ≤ a.length
            → Holds
                (a.length + 1)
                (λ j. if ltb j i then slot a j else if i == j then x else slot a (j - 1))
                (array_insert block a i x))
  unfolding array_insert
  array_insert-slot a i x v served = (
    (λ past. ground arith),
    λ inside.
        let count = length (slots_of a.aslots) in
        let here : ltb a.length i ≡ false = ground arith in
        elim (Bool-cases (leb (a.length + 1) count)) [
          | inl there ↦
              let (m, moving, same, moved) =
                up_loop-Leaves (a.length - i) i (slots_of a.aslots) (ground arith) in
              let put : List Value = set m i x in
              let meaning : (j : ℕ)
                  → get_or put j 0
                    ≡ (if ltb j i then slot a j else if i == j then x else slot a (j - 1)) =
                λ j. ground (arith, moved j, get_or-set m i j x 0, v.blank j, v.blank (j - 1)) in
              (
                record { aslots = some put; length = a.length + 1 },
                rw (here, there, moving, write-lem m i x (ground (arith, same))),
                record {
                  roomy = ground (arith, same, length-set m i x);
                  blank = λ j le. ground (arith, meaning j, v.blank (j - 1));
                },
                refl,
                meaning,
              )
          | inr full ↦
              let wide = array_expand_length count (count + 1) in
              let enough = array_expand_length-least count (count + 1) in
              let room : wide ≤ length (vslots_new block wide) =
                length-vslots_new block fits wide (served (ground arith)) in
              let (f, fronting, flen, front) =
                copy_loop-Leaves i 0 0 (slots_of a.aslots) (vslots_new block wide)
                  (omega (arith, v.roomy)) (omega (arith, room, v.roomy, enough))
                  (λ j le. get_or-replicate (block (wide % 2 ^ 61)) j) in
              let put : List Value = set f i x in
              let within : i < length f = omega (arith, room, v.roomy, enough, flen) in
              let (b, backing, blen, back) =
                copy_loop-Leaves (a.length - i) i 1 (slots_of a.aslots) put (omega (arith, v.roomy))
                  (omega (arith, room, v.roomy, enough, flen, length-set f i x))
                  (λ j le. ground (
                    arith,
                    get_or-set f i j x 0 within,
                    front j,
                    get_or-replicate (block (wide % 2 ^ 61)) j,
                  )) in
              let meaning : (j : ℕ)
                  → get_or b j 0
                    ≡ (if ltb j i then slot a j else if i == j then x else slot a (j - 1)) =
                λ j. ground (
                  arith,
                  back j,
                  front j,
                  get_or-set f i j x 0 within,
                  get_or-replicate (block (wide % 2 ^ 61)) j,
                  v.blank (j - 1),
                ) in
              (
                record { aslots = some b; length = a.length + 1 },
                rw (
                  here,
                  full,
                  fronting,
                  winit-lem f i x within
                      (ground (arith, front i, get_or-replicate (block (wide % 2 ^ 61)) i)),
                  backing,
                ),
                record {
                  roomy = omega (arith, blen, length-set f i x, room, v.roomy, enough, flen);
                  blank = λ j le. ground (arith, meaning j, v.blank (j - 1));
                },
                refl,
                meaning,
              )
        ],
  )
