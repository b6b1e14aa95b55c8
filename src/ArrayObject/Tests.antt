-- ===== src/ArrayObject/Tests.antt =====
-- Arrays at small inputs.
use kenaf.Base.{
  ℕ, zero, suc, ◌+◌, ◌-◌, ◌≤◌, ◌<◌, ◌≡◌, refl, [], ◌∷◌, some, ok, raise, index_error, ltb, ◌==◌,
  if◌then◌else◌, arith, get_or,
}
use kenaf.ArrayObject.{
  ArrayObject, array_expand_length, array_getindex, array_setindex, array_resize, array_extend,
  array_insert, array_remove, array_clear,
}
use kenaf.ArrayObject.Refine.{
  slot, IsArray, Holds, array_setindex-slot, array_setindex-getindex, array_clear-slot,
  array_remove-slot,
}
use kenaf.ArrayObject.Grow.{max_slots, array_resize-slot, array_extend-slot}
use kenaf.ArrayObject.Insert.{array_insert-slot}

-- The values 7, 8 and 9 in a block of 4 slots
abbrev three : ArrayObject
three = record { aslots = some (7 ∷ 8 ∷ 9 ∷ 0 ∷ []); length = 3 }

three-IsArray : IsArray three
three-IsArray = record { roomy = omega arith; blank = blank }
  where
    blank : (j : ℕ) → 3 ≤ j → slot three j ≡ 0
    blank zero h = absurd (omega arith)
    blank (suc zero) h = absurd (omega arith)
    blank (suc (suc zero)) h = absurd (omega arith)
    blank (suc (suc (suc zero))) h = refl
    blank (suc (suc (suc (suc j)))) h = refl

-- Blocks come in fours.
abbrev block : ℕ → ℕ
block n = n + 3

block-fits : (n : ℕ) → n ≤ max_slots → n ≤ block n
block-fits n small = omega arith

array_setindex-slot_example :
    (3 ≤ 1 → array_setindex three 1 5 ≡ raise index_error)
    × (1 < 3 → Holds 3 (λ j. if 1 == j then 5 else slot three j) (array_setindex three 1 5))
array_setindex-slot_example = array_setindex-slot three 1 5 three-IsArray

array_setindex-getindex_example :
    (a' : ArrayObject) × (array_setindex three 1 5 ≡ ok a')
    × ((j : ℕ) → array_getindex a' j ≡ (if 1 == j then ok 5 else array_getindex three j))
array_setindex-getindex_example = array_setindex-getindex three 1 5 three-IsArray (omega arith)

array_clear-slot_example : Holds 0 (λ j. 0) (array_clear three)
array_clear-slot_example = array_clear-slot three three-IsArray

array_remove-slot_example :
    (3 ≤ 1 → array_remove three 1 ≡ raise index_error)
    × (1 < 3
        → (a' : ArrayObject) × (array_remove three 1 ≡ ok (slot three 1, a'))
          × IsArray a'
          × (a'.length ≡ 3)
          × ((j : ℕ) → slot a' j ≡ (if ltb j 1 then slot three j else slot three (j + 1))))
array_remove-slot_example = array_remove-slot three 1 three-IsArray

array_resize-slot_example :
    Holds 6 (λ j. if ltb j 6 then slot three j else 0) (array_resize block three 6)
array_resize-slot_example =
    array_resize-slot block block-fits three 6 three-IsArray (λ larger. omega arith)

-- The larger blocks of that array are among those that the heap serves.
eight_served : (n : ℕ) → n ≤ 8 → array_expand_length 4 n ≤ max_slots
unfolding array_expand_length
eight_served n h = ground arith

array_extend-slot_example :
    Holds 5
      (λ j. if ltb j 3 then slot three j else get_or (4 ∷ 5 ∷ []) (j - 3) 0)
      (array_extend block three (4 ∷ 5 ∷ []))
array_extend-slot_example =
    array_extend-slot block block-fits three (4 ∷ 5 ∷ []) three-IsArray
      (λ larger. eight_served 6 (omega arith))

array_insert-slot_example :
    (3 < 1 → array_insert block three 1 5 ≡ raise index_error)
    × (1 ≤ 3
        → Holds 4
            (λ j. if ltb j 1 then slot three j else if 1 == j then 5 else slot three (j - 1))
            (array_insert block three 1 5))
array_insert-slot_example =
    array_insert-slot block block-fits three 1 5 three-IsArray
      (λ larger. eight_served 5 (omega arith))
