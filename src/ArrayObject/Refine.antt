-- ===== src/ArrayObject/Refine.antt =====
-- The operations of source/runtime/objects/array_object.cpp against an array of values of a given
-- length.
use kenaf.Base.{
  ℕ, ◌+◌, ◌-◌, ◌≤◌, ◌<◌, ◌≡◌, refl, false, List, [], ◌∷◌, Option, none, some, Run, ok, raise,
  index_error, ltb, leb, ◌==◌, if◌then◌else◌, arith, length, get_or, set, length-set, get_or-set,
}
use kenaf.ArrayObject.{
  Value, ArrayObject, slots_of, keep, array_getindex, array_setindex, array_remove, array_clear,
  read,
}
use kenaf.ArrayObject.Slots.{read-lem, write-lem, clear_loop-Leaves, down_loop-Leaves}

-- The value at a position; null past the slots.
abbrev pub slot : ArrayObject → ℕ → Value
slot a j = get_or (slots_of a.aslots) j 0

-- The slots hold the array, and those behind it are null.
pub record IsArray (a : ArrayObject) : Type 0 where
  pub roomy : a.length ≤ length (slots_of a.aslots)
  pub blank : (j : ℕ) → a.length ≤ j → slot a j ≡ 0

-- The run returns a valid array of length `n` that holds what `f` says.
abbrev pub Holds : ℕ → (ℕ → Value) → Run ArrayObject → Type 0
Holds n f r =
    (a' : ArrayObject) × (r ≡ ok a') × IsArray a' × (a'.length ≡ n) × ((j : ℕ) → slot a' j ≡ f j)

pub slots_of-keep : (o : Option (List Value)) (s : List Value) → slots_of (keep o s) ≡ s
slots_of-keep none [] = refl
slots_of-keep none (v ∷ vs) = refl
slots_of-keep (some _) s = refl

-- In a valid array, `array_getindex` reads the value at an index within the array, and raises an
-- index error at any other.
array_getindex-slot :
    (a : ArrayObject) (i : ℕ)
    → IsArray a
    → array_getindex a i ≡ (if ltb i a.length then ok (slot a i) else raise index_error)
unfolding array_getindex read
array_getindex-slot a i v = ground (arith, v.roomy)

-- In a valid array, `array_setindex` replaces the value at an index within the array and nothing
-- else, and the array stays valid; it raises an index error at any other index.
pub array_setindex-slot :
    (a : ArrayObject) (i : ℕ) (x : Value)
    → IsArray a
    → (a.length ≤ i → array_setindex a i x ≡ raise index_error)
      × (i < a.length → Holds a.length (λ j. if i == j then x else slot a j) (array_setindex a i x))
unfolding array_setindex
array_setindex-slot a i x v = (
  (λ past. ground arith),
  λ inside.
      let s : List Value = set (slots_of a.aslots) i x in
      let at = λ (j : ℕ). get_or-set (slots_of a.aslots) i j x 0 (omega (arith, v.roomy)) in
      (
        record a { aslots = some s },
        ground (arith, write-lem (slots_of a.aslots) i x, v.roomy),
        record {
          roomy = omega (arith, v.roomy, length-set (slots_of a.aslots) i x);
          blank = λ j le. ground (arith, at j, v.blank j);
        },
        refl,
        at,
      ),
)

-- A value that `array_setindex` puts within a valid array is the one that `array_getindex` reads at
-- that index afterwards, and at every other index, within the array or not, `array_getindex` gives
-- what it gave before.
pub array_setindex-getindex :
    (a : ArrayObject) (i : ℕ) (x : Value)
    → IsArray a
    → i < a.length
    → (a' : ArrayObject) × (array_setindex a i x ≡ ok a')
      × ((j : ℕ) → array_getindex a' j ≡ (if i == j then ok x else array_getindex a j))
array_setindex-getindex a i x v inside =
    let (a', run, v', len, at) = (array_setindex-slot a i x v).1 inside in
    (a', run, λ j. ground (arith, array_getindex-slot a' j v', array_getindex-slot a j v, at j))

-- `array_clear` empties a valid array, which stays valid.
pub array_clear-slot : (a : ArrayObject) → IsArray a → Holds 0 (λ j. 0) (array_clear a)
unfolding array_clear
array_clear-slot a v =
    let (s, run, len, at) =
      clear_loop-Leaves a.length 0 (slots_of a.aslots) (omega (arith, v.roomy)) in
    let kept = slots_of-keep a.aslots s in
    let empty : (j : ℕ) → get_or (slots_of (keep a.aslots s)) j 0 ≡ 0 =
      λ j. rw kept (ground (arith, at j, v.blank j)) in
    (
      record { aslots = keep a.aslots s; length = 0 },
      rw run,
      record { roomy = omega arith; blank = λ j le. empty j },
      refl,
      empty,
    )

-- In a valid array, `array_remove` returns the value at the index, moves every later value down
-- and puts null in the last place; the length stays as it was, and the array valid. It raises an
-- index error past the array.
pub array_remove-slot :
    (a : ArrayObject) (i : ℕ)
    → IsArray a
    → (a.length ≤ i → array_remove a i ≡ raise index_error)
      × (i < a.length
          → (a' : ArrayObject) × (array_remove a i ≡ ok (slot a i, a'))
            × IsArray a'
            × (a'.length ≡ a.length)
            × ((j : ℕ) → slot a' j ≡ (if ltb j i then slot a j else slot a (j + 1))))
unfolding array_remove
array_remove-slot a i v = (
  (λ past. ground arith),
  λ inside.
      let slots = slots_of a.aslots in
      let (s, run, len, at) =
        down_loop-Leaves (a.length - 1 - i) i slots (omega (arith, v.roomy)) in
      let cleared : List Value = set s (a.length - 1) 0 in
      let final = λ (j : ℕ). get_or-set s (a.length - 1) j 0 0 (omega (arith, len, v.roomy)) in
      let meaning : (j : ℕ) → get_or cleared j 0 ≡ (if ltb j i then slot a j else slot a (j + 1)) =
        λ j. ground (arith, at j, final j, v.blank j, v.blank (j + 1)) in
      let here : leb a.length i ≡ false = ground arith in
      (
        record a { aslots = some cleared },
        rw (
          here,
          read-lem slots i (omega (arith, v.roomy)),
          run,
          write-lem s (a.length - 1) 0 (omega (arith, len, v.roomy)),
        ),
        record {
          roomy = omega (arith, len, v.roomy, length-set s (a.length - 1) 0);
          blank = λ j le. ground (arith, meaning j, v.blank (j + 1));
        },
        refl,
        meaning,
      ),
)
