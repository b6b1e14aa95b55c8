-- ===== src/CallStack/Calls.antt =====
-- Calls of functions, `call_function` of source/runtime/call_stack.cpp: where the arguments are when the
-- function starts.
use kenaf.Base.{
  ℕ, ◌+◌, ◌-◌, ◌*◌, ◌/◌, ◌≤◌, ◌<◌, ◌≡◌, refl, inl, inr, ◌&&◌, List, ◌++◌, reverse, ok, ltb, leb,
  if◌then◌else◌, arith, Bool-cases, length, get_or, take, drop, replicate, length-append,
  length-take, length-drop, length-replicate, length-reverse, get_or-append, get_or-take,
  get_or-drop, get_or-reverse, get_or-replicate, get_or-past,
}
use kenaf.CallStack.{Cothread, wrap, resize, resize_stack, reverse_range, rearrange}

-- The list is the part in front of a range, the range in reverse, and the part behind it.
reverse_range-lem :
    (first last : ℕ) (s : List ℕ)
    → first ≤ last
    → last ≤ length s
    → (s' : List ℕ) × (reverse_range first last s ≡ ok s')
      × (length s' ≡ length s)
      × ((j : ℕ)
          → get_or s' j 0
            ≡ get_or s (if leb first j && ltb j last then first + last - 1 - j else j) 0)
unfolding reverse_range
reverse_range-lem first last s h k =
    let mid : List ℕ = take (last - first) (drop first s) in
    let tail : List ℕ = drop last s in
    let head : List ℕ = take first s in
    let mid_length : length mid ≡ last - first =
      omega (arith, length-take (last - first) (drop first s), length-drop first s) in
    let head_length : length head ≡ first = omega (arith, length-take first s) in
    let back_length = length-reverse mid in
    let front_length : length (head ++ reverse mid) ≡ last =
      omega (arith, length-append head (reverse mid), mid_length, head_length, back_length) in
    (
      head ++ reverse mid ++ tail,
      ground arith,
      omega (
        arith,
        length-append head (reverse mid),
        length-append (head ++ reverse mid) tail,
        length-drop last s,
        mid_length,
        head_length,
        back_length,
      ),
      λ j.
          let front = get_or-append (head ++ reverse mid) tail j 0 in
          elim (Bool-cases (ltb j first)) [
            | inl before ↦ ground (
              arith,
              front,
              get_or-append head (reverse mid) j 0,
              get_or-take first s j 0,
              head_length,
              front_length,
            )
            | inr reached ↦ elim (Bool-cases (ltb j last)) [
              | inl inside ↦
                  let from : first + (last - first - 1 - (j - first)) ≡ first + last - 1 - j =
                    ground arith in
                  ground (
                    arith,
                    front,
                    front_length,
                    head_length,
                    mid_length,
                    get_or-append head (reverse mid) j 0,
                    get_or-reverse mid (j - first) 0,
                    get_or-take (last - first) (drop first s) (last - first - 1 - (j - first)) 0,
                    get_or-drop first s (last - first - 1 - (j - first)) 0,
                    from,
                  )
              | inr past ↦ ground (arith, front, front_length, get_or-drop last s (j - last) 0)
            ]
          ],
    )

-- The values past the parameters come first, and the function and its parameters follow.
pub rearrange-lem :
    (bp split total : ℕ) (s : List ℕ)
    → split ≤ total
    → bp + total ≤ length s
    → (s' : List ℕ) × (rearrange bp split total s ≡ ok s')
      × (length s' ≡ length s)
      × ((j : ℕ) → j < bp → get_or s' j 0 ≡ get_or s j 0)
      × ((j : ℕ) → j < total - split → get_or s' (bp + j) 0 ≡ get_or s (bp + split + j) 0)
      × ((j : ℕ) → j < split → get_or s' (bp + (total - split) + j) 0 ≡ get_or s (bp + j) 0)
unfolding rearrange
rearrange-lem bp split total s h k =
    let (one, run_one, len_one, at_one) =
      reverse_range-lem bp (bp + split) s (omega arith) (omega arith) in
    let (two, run_two, len_two, at_two) =
      reverse_range-lem (bp + split) (bp + total) one (omega arith) (omega arith) in
    let (three, run, len, at) = reverse_range-lem bp (bp + total) two (omega arith) (omega arith) in
    (
      three,
      rw (run_one, run_two) run,
      omega arith,
      λ j lt.
          chain one two three at_one at_two at j j j j (ground arith) (ground arith) (ground arith),
      λ j lt.
          chain one two three at_one at_two at (bp + j) (bp + total - 1 - j) (bp + split + j)
            (bp + split + j) (ground arith) (ground arith) (ground arith),
      λ j lt.
          chain one two three at_one at_two at (bp + (total - split) + j) (bp + split - 1 - j)
            (bp + split - 1 - j) (bp + j) (ground arith) (ground arith) (ground arith),
    )
  where
    -- The three reversals of one position
    turn : ℕ → ℕ → ℕ → ℕ
    turn first last j = if leb first j && ltb j last then first + last - 1 - j else j

    chain :
        (one two three : List ℕ)
        → ((j : ℕ) → get_or one j 0 ≡ get_or s (turn bp (bp + split) j) 0)
        → ((j : ℕ) → get_or two j 0 ≡ get_or one (turn (bp + split) (bp + total) j) 0)
        → ((j : ℕ) → get_or three j 0 ≡ get_or two (turn bp (bp + total) j) 0)
        → (a b c d : ℕ) → turn bp (bp + total) a ≡ b
        → turn (bp + split) (bp + total) b ≡ c
        → turn bp (bp + split) c ≡ d
        → get_or three a 0 ≡ get_or s d 0
    chain one two three p q r a b c d e f g = rw (r a, e, q b, f, p c, g) refl

length-resize : (s : List ℕ) (n : ℕ) → length s ≤ n → length (resize s n) ≡ n
length-resize s n h = omega (
  arith,
  length-append (take n s) (replicate {A = ℕ} (n - length s) 0),
  length-take n s,
  length-replicate {A = ℕ} (n - length s) 0,
)

get_or-resize :
    (s : List ℕ) (n : ℕ) → length s ≤ n → (j : ℕ) → get_or (resize s n) j 0 ≡ get_or s j 0
get_or-resize s n h j = ground (
  arith,
  get_or-append (take n s) (replicate {A = ℕ} (n - length s) 0) j 0,
  length-take n s,
  get_or-take n s j 0,
  get_or-past s j,
  get_or-replicate (n - length s) (j - length (take n s)),
)

-- `resize_stack` makes room up to the new top and keeps every value; null fills what is new. The top and
-- the 31 positions behind it fit 32 bits.
pub resize_stack-grows :
    (cothread : Cothread) (fp xp : ℕ)
    → fp + xp + 31 < 4294967296
    → ((resize_stack cothread fp xp).xp ≡ fp + xp)
      × (fp + xp ≤ length (resize_stack cothread fp xp).stack)
      × (length cothread.stack ≤ length (resize_stack cothread fp xp).stack)
      × ((j : ℕ) → get_or (resize_stack cothread fp xp).stack j 0 ≡ get_or cothread.stack j 0)
      × ((resize_stack cothread fp xp).stack_frames ≡ cothread.stack_frames)
unfolding resize_stack
resize_stack-grows cothread fp xp h =
    let size = wrap (wrap (fp + xp) + 31) / 32 * 32 in
    elim (Bool-cases (ltb (length cothread.stack) (wrap (fp + xp)))) [
      | inl grown ↦
          let roomy : fp + xp ≤ size = omega arith in
          let above : length cothread.stack ≤ size = ground arith in
          rw grown (
            omega arith,
            rw (length-resize cothread.stack size above) roomy,
            rw (length-resize cothread.stack size above) above,
            get_or-resize cothread.stack size above,
            refl,
          )
      | inr there ↦ rw there (omega arith, ground arith, omega arith, λ j. refl, refl)
    ]
