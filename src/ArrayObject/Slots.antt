-- ===== src/ArrayObject/Slots.antt =====
-- The loops of source/runtime/objects/array_object.cpp over the slots of an array, each by the value
-- that it leaves in every slot.
use kenaf.Base.{
  ℕ, zero, suc, ◌+◌, ◌-◌, ◌≤◌, ◌<◌, ◌≡◌, refl, ◌∙◌, ◌&&◌, List, [], ◌∷◌, Run, ok, ltb, leb, ◌==◌,
  if◌then◌else◌, arith, length, get_or, set, length-set, get_or-set,
}
use kenaf.ArrayObject.{
  Value, read, write, winit, clear_loop, copy_loop, init_loop, up_loop, down_loop,
}

-- The run returns slots of the same number that hold what `f` says.
abbrev pub Leaves : List Value → (ℕ → Value) → Run (List Value) → Type 0
Leaves slots f r =
    (slots' : List Value) × (r ≡ ok slots')
    × (length slots' ≡ length slots)
    × ((j : ℕ) → get_or slots' j 0 ≡ f j)

pub read-lem :
    (slots : List Value) (i : ℕ) → i < length slots → read slots i ≡ ok (get_or slots i 0)
unfolding read
read-lem slots i h = ground arith

pub write-lem :
    (slots : List Value) (i : ℕ) (v : Value)
    → i < length slots
    → write slots i v ≡ ok (set slots i v)
unfolding write
write-lem slots i v h = ground arith

pub winit-lem :
    (slots : List Value) (i : ℕ) (v : Value)
    → i < length slots
    → get_or slots i 0 ≡ 0
    → winit slots i v ≡ ok (set slots i v)
unfolding winit
winit-lem slots i v h e = ground arith

pub clear_loop-Leaves :
    (n i : ℕ) (slots : List Value)
    → i + n ≤ length slots
    → Leaves slots
        (λ j. if leb i j && ltb j (i + n) then 0 else get_or slots j 0)
        (clear_loop n i slots)
unfolding clear_loop
clear_loop-Leaves zero i slots h = (slots, refl, refl, λ j. ground arith)
clear_loop-Leaves (suc n) i slots h =
    let (s, run, len, at) =
      clear_loop-Leaves n (i + 1) (set slots i 0) (omega (arith, length-set slots i 0)) in
    (
      s,
      rw (write-lem slots i 0 (omega arith)) run,
      len ∙ length-set slots i 0,
      λ j. ground (arith, at j, get_or-set slots i j 0 0),
    )

pub copy_loop-Leaves :
    (n i shift : ℕ) (slots expand : List Value)
    → i + n ≤ length slots
    → i + n + shift ≤ length expand
    → ((j : ℕ) → i + shift ≤ j → get_or expand j 0 ≡ 0)
    → Leaves expand
        (λ j.
          if leb (i + shift) j && ltb j (i + n + shift)
          then get_or slots (j - shift) 0
          else get_or expand j 0)
        (copy_loop n i shift slots expand)
unfolding copy_loop
copy_loop-Leaves zero i shift slots expand h k blank = (expand, refl, refl, λ j. ground arith)
copy_loop-Leaves (suc n) i shift slots expand h k blank =
    let v : Value = get_or slots i 0 in
    let put : List Value = set expand (i + shift) v in
    let (s, run, len, at) =
      copy_loop-Leaves n (i + 1) shift slots put (omega arith)
        (omega (arith, length-set expand (i + shift) v))
        (λ j le. ground (arith, get_or-set expand (i + shift) j v 0, blank j)) in
    (
      s,
      rw
          (
            read-lem slots i (omega arith),
            winit-lem expand (i + shift) v (omega arith) (blank _ (omega arith)),
          )
          run,
      len ∙ length-set expand (i + shift) v,
      λ j. ground (arith, at j, get_or-set expand (i + shift) j v 0),
    )

pub init_loop-Leaves :
    (values : List Value) (i : ℕ) (slots : List Value)
    → i + length values ≤ length slots
    → ((j : ℕ) → i ≤ j → get_or slots j 0 ≡ 0)
    → Leaves slots
        (λ j. if ltb j i then get_or slots j 0 else get_or values (j - i) 0)
        (init_loop values i slots)
unfolding init_loop
init_loop-Leaves [] i slots h blank = (slots, refl, refl, λ j. ground (arith, blank j))
init_loop-Leaves (v ∷ vs) i slots h blank =
    let (s, run, len, at) =
      init_loop-Leaves vs (i + 1) (set slots i v) (omega (arith, length-set slots i v))
        (λ j le. ground (arith, get_or-set slots i j v 0, blank j)) in
    (
      s,
      rw (winit-lem slots i v (omega arith) (blank i (omega arith))) run,
      len ∙ length-set slots i v,
      λ j. ground (arith, at j, get_or-set slots i j v 0, get_or_later v vs (j - i)),
    )
  where
    get_or_later :
        (v : Value) (vs : List Value) (k : ℕ)
        → get_or (v ∷ vs) k 0 ≡ (if k == 0 then v else get_or vs (k - 1) 0)
    get_or_later v vs zero = refl
    get_or_later v vs (suc k) = ground arith

pub up_loop-Leaves :
    (n index : ℕ) (slots : List Value)
    → index + n < length slots
    → Leaves slots
        (λ j. if ltb index j && leb j (index + n) then get_or slots (j - 1) 0 else get_or slots j 0)
        (up_loop n index slots)
unfolding up_loop
up_loop-Leaves zero index slots h = (slots, refl, refl, λ j. ground arith)
up_loop-Leaves (suc n) index slots h =
    let v : Value = get_or slots (index + n) 0 in
    let (s, run, len, at) =
      up_loop-Leaves n index (set slots (index + n + 1) v)
        (omega (arith, length-set slots (index + n + 1) v)) in
    (
      s,
      rw (read-lem slots (index + n) (omega arith), write-lem slots (index + n + 1) v (omega arith))
          run,
      len ∙ length-set slots (index + n + 1) v,
      λ j. ground (
        arith,
        at j,
        get_or-set slots (index + n + 1) j v 0,
        get_or-set slots (index + n + 1) (j - 1) v 0,
      ),
    )

pub down_loop-Leaves :
    (n i : ℕ) (slots : List Value)
    → i + n < length slots
    → Leaves slots
        (λ j. if leb i j && ltb j (i + n) then get_or slots (j + 1) 0 else get_or slots j 0)
        (down_loop n i slots)
unfolding down_loop
down_loop-Leaves zero i slots h = (slots, refl, refl, λ j. ground arith)
down_loop-Leaves (suc n) i slots h =
    let v : Value = get_or slots (i + 1) 0 in
    let (s, run, len, at) =
      down_loop-Leaves n (i + 1) (set slots i v) (omega (arith, length-set slots i v)) in
    (
      s,
      rw (read-lem slots (i + 1) (omega arith), write-lem slots i v (omega arith)) run,
      len ∙ length-set slots i v,
      λ j. ground (arith, at j, get_or-set slots i j v 0, get_or-set slots i (j + 1) v 0),
    )
