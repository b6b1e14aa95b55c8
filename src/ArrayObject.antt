-- ===== src/ArrayObject.antt =====
-- Array objects, source/runtime/objects/array_object.cpp and array_object.h. A value is its 64 bits,
-- and the null value is 0. The block that holds the slots of an array may be larger than what was
-- asked for: `block` gives its size in slots, as `object_size` reports it, for a number of slots
-- whose bytes do not overflow a `size_t`.
pub mod Slots
pub mod Refine
pub mod Grow
pub mod Insert
mod Tests
use kenaf.Base.{
  ℕ, zero, suc, ◌+◌, ◌-◌, ◌*◌, ◌/◌, ◌%◌, ◌^◌, max, Bool, true, false, List, [], ◌∷◌, Option, none,
  some, Run, ok, raise, fault, index_error, ◌>>=◌, ◌>>◌, check_assert, ltb, leb, ◌==◌,
  if◌then◌else◌, length, get_or, set, replicate,
}

abbrev pub Value : Type 0
Value = ℕ

-- `aslots` is none while the pointer is null.
pub record ArrayObject : Type 0 where
  pub aslots : Option (List Value)
  pub length : ℕ

-- The slots that can be read and written.
abbrev pub slots_of : Option (List Value) → List Value
slots_of none = []
slots_of (some slots) = slots

-- Writes go through the pointer, which stays null if it was.
abbrev pub keep : Option (List Value) → List Value → Option (List Value)
keep none [] = none
keep none (v ∷ vs) = some (v ∷ vs)
keep (some _) slots = some slots

-- `read( aslots->slots[ i ] )`
unfoldable pub read : List Value → ℕ → Run Value
read slots i = if ltb i (length slots) then ok (get_or slots i 0) else fault

-- `write( vm, aslots->slots[ i ], v )`
unfoldable pub write : List Value → ℕ → Value → Run (List Value)
write slots i v = if ltb i (length slots) then ok (set slots i v) else fault

-- `winit( aslots->slots[ i ], v )`, with its assertion
unfoldable pub winit : List Value → ℕ → Value → Run (List Value)
winit slots i v =
    if ltb i (length slots)
    then check_assert (get_or slots i 0 == 0) >> ok (set slots i v)
    else fault

-- `for ( ; i < i + n; ++i ) write( slots[ i ], null_value )`
unfoldable pub clear_loop : ℕ → ℕ → List Value → Run (List Value)
clear_loop zero i slots = ok slots
clear_loop (suc n) i slots = write slots i 0 >>= clear_loop n (i + 1)

-- `for ( ; i < i + n; ++i ) winit( expand->slots[ i + shift ], read( aslots->slots[ i ] ) )`
unfoldable pub copy_loop : ℕ → ℕ → ℕ → List Value → List Value → Run (List Value)
copy_loop zero i shift slots expand = ok expand
copy_loop (suc n) i shift slots expand = do
  v ← read slots i
  expand' ← winit expand (i + shift) v
  copy_loop n (i + 1) shift slots expand'

-- `for ( ; i < i + vcount; ++i ) winit( aslots->slots[ array_length + i ], values[ i ] )`
unfoldable pub init_loop : List Value → ℕ → List Value → Run (List Value)
init_loop [] i slots = ok slots
init_loop (v ∷ vs) i slots = winit slots i v >>= init_loop vs (i + 1)

-- `while ( i-- > index ) write( slots[ i + 1 ], read( slots[ i ] ) )`; `n` is `i - index`.
unfoldable pub up_loop : ℕ → ℕ → List Value → Run (List Value)
up_loop zero index slots = ok slots
up_loop (suc n) index slots = do
  v ← read slots (index + n)
  slots' ← write slots (index + n + 1) v
  up_loop n index slots'

-- `for ( ; i < i + n; ++i ) write( slots[ i ], read( slots[ i + 1 ] ) )`
unfoldable pub down_loop : ℕ → ℕ → List Value → Run (List Value)
down_loop zero i slots = ok slots
down_loop (suc n) i slots = do
  v ← read slots (i + 1)
  slots' ← write slots i v
  down_loop n (i + 1) slots'

-- `array_expand_length`
unfoldable pub array_expand_length : ℕ → ℕ → ℕ
array_expand_length current minimum =
    max (max (if ltb 512 current then current * 2 - current / 2 else current * 2) minimum) 8

-- `array_getindex`
unfoldable pub array_getindex : ArrayObject → ℕ → Run Value
array_getindex a index =
    if ltb index a.length then read (slots_of a.aslots) index else raise index_error

-- `array_setindex`
unfoldable pub array_setindex : ArrayObject → ℕ → Value → Run ArrayObject
array_setindex a index value =
    if ltb index a.length
    then write (slots_of a.aslots) index value >>= (λ s. ok (record a { aslots = some s }))
    else raise index_error

-- `array_remove`: the length is left as it is.
unfoldable pub array_remove : ArrayObject → ℕ → Run (Value × ArrayObject)
array_remove a index = if leb a.length index then raise index_error else do
  value ← read (slots_of a.aslots) index
  moved ← down_loop (a.length - 1 - index) index (slots_of a.aslots)
  cleared ← write moved (a.length - 1) 0
  ok (value, record a { aslots = some cleared })

-- `array_clear`
unfoldable pub array_clear : ArrayObject → Run ArrayObject
array_clear a = do
  cleared ← clear_loop a.length 0 (slots_of a.aslots)
  ok (record { aslots = keep a.aslots cleared; length = 0 })

module _ (block : ℕ → ℕ) where
  -- `vslots_new`: the product `count * sizeof( ref_value )` wraps in its 64 bits, which leaves the
  -- bytes of `count % 2 ^ 61` slots.
  abbrev pub vslots_new : ℕ → List Value
  vslots_new count = replicate (block (count % 2 ^ 61)) 0

  -- `array_new`
  unfoldable pub array_new : ℕ → ArrayObject
  array_new capacity = record {
    aslots = if capacity == 0 then none else some (vslots_new capacity);
    length = 0;
  }

  -- `array_resize`
  unfoldable pub array_resize : ArrayObject → ℕ → Run ArrayObject
  array_resize a n =
      if leb n a.length
      then clear_loop (a.length - n) n (slots_of a.aslots)
        >>= (λ s. ok (record { aslots = keep a.aslots s; length = n }))
      else if ltb (length (slots_of a.aslots)) n
      then copy_loop a.length 0 0 (slots_of a.aslots) (vslots_new n)
        >>= (λ s. ok (record { aslots = some s; length = n }))
      else ok (record a { length = n })

  -- `array_extend`
  unfoldable pub array_extend : ArrayObject → List Value → Run ArrayObject
  array_extend a values = do
    let count = length (slots_of a.aslots)
    let expanded = vslots_new (array_expand_length count (count + length values))
    slots ←
        if ltb count (a.length + length values)
        then copy_loop a.length 0 0 (slots_of a.aslots) expanded
        else ok (slots_of a.aslots)
    filled ← init_loop values a.length slots
    ok (record { aslots = keep a.aslots filled; length = a.length + length values })

  -- `array_append`
  unfoldable pub array_append : ArrayObject → Value → Run ArrayObject
  array_append a value = array_extend a (value ∷ [])

  -- `array_insert`
  unfoldable pub array_insert : ArrayObject → ℕ → Value → Run ArrayObject
  array_insert a index value =
      let slots = slots_of a.aslots in
      let count = length slots in
      if ltb a.length index
      then raise index_error
      else if leb (a.length + 1) count
      then (do
        moved ← up_loop (a.length - index) index slots
        written ← write moved index value
        ok (record { aslots = some written; length = a.length + 1 }))
      else (do
        let expand = vslots_new (array_expand_length count (count + 1))
        front ← copy_loop index 0 0 slots expand
        put ← winit front index value
        back ← copy_loop (a.length - index) index 1 slots put
        ok (record { aslots = some back; length = a.length + 1 }))
