-- ===== src/CallStack/Yielding.antt =====
-- Yields to the cothread below, `call_yield` and `yield_return` of source/runtime/call_stack.cpp.
use kenaf.Base.{
  ℕ, zero, suc, ◌+◌, ◌-◌, ◌≤◌, ◌<◌, ◌≡◌, refl, ◌∙◌, inl, inr, true, false, ◌&&◌, List, [], ◌∷◌,
  some, ok, ltb, leb, ◌==◌, if◌then◌else◌, arith, Bool-cases, length, get_elem?, get_or, set,
  length-set, get_or-set,
}
use kenaf.CallStack.{Value, wrap, ResumeKind, StackFrame, Cothread, back, resize_stack}
use kenaf.CallStack.ResumeKind.{resume_call, resume_yield, resume_construct, resume_for_each}
use kenaf.CallStack.Calls.{resize_stack-grows}
use kenaf.CallStack.Returns.{
  CothreadMachine, stack_mark, fetch, argument, fill_loop, is_construct, copy_result, yield_return,
  pop_cothread, resume_with, call_yield,
}

fetch-lem : (xs : List Value) (i : ℕ) → i < length xs → fetch xs i ≡ ok (get_or xs i 0)
fetch-lem [] i lt = absurd (omega arith)
fetch-lem (x ∷ xs) zero lt = refl
fetch-lem (x ∷ xs) (suc i) lt = fetch-lem xs i (omega arith)

argument-lem :
    (source : List Value) (rp xp : ℕ)
    → xp ≤ length source
    → argument source rp xp ≡ ok (if ltb rp xp then get_or source rp 0 else 0)
argument-lem source rp xp h = elim (Bool-cases (ltb rp xp)) [
  | inl more ↦ rw more (fetch-lem source rp (ground arith))
  | inr over ↦ rw over refl
]

-- The values from `rp` on, and nulls behind them
abbrev pub passed : List Value → ℕ → ℕ → ℕ → Value
passed source rp xp j = if ltb (rp + j) xp then get_or source (rp + j) 0 else 0

fill_loop-lem :
    (n i : ℕ) (source : List Value) (rp xp : ℕ) (stack : List Value)
    → i + n ≤ length stack
    → xp ≤ length source
    → (s : List Value) × (fill_loop n i source rp xp stack ≡ ok s)
      × (length s ≡ length stack)
      × ((j : ℕ)
          → get_or s j 0
            ≡ (if leb i j && ltb j (i + n) then passed source rp xp (j - i) else get_or stack j 0))
unfolding fill_loop
fill_loop-lem zero i source rp xp stack h k = (stack, refl, refl, λ j. ground arith)
fill_loop-lem (suc n) i source rp xp stack h k =
    let v : Value = if ltb rp xp then get_or source rp 0 else 0 in
    let (s, run, len, at) =
      fill_loop-lem n (i + 1) source (rp + 1) xp (set stack i v)
        (omega (arith, length-set stack i v)) k in
    let inside : ltb i (length stack) ≡ true = ground arith in
    (
      s,
      rw (argument-lem source rp xp k, inside) run,
      len ∙ length-set stack i v,
      λ j. elim (Bool-cases (j == i)) [
        | inl here ↦
            let none_left : rp + (j - i) ≡ rp = ground arith in
            ground (arith, at j, get_or-set stack i j v 0, none_left)
        | inr other ↦ elim (Bool-cases (leb i j)) [
          | inl above ↦
              let one_less : rp + 1 + (j - (i + 1)) ≡ rp + (j - i) = ground arith in
              ground (arith, at j, get_or-set stack i j v 0, one_less)
          | inr below ↦ ground (arith, at j, get_or-set stack i j v 0)
        ]
      ],
    )

some_is_no_construct : (kind : ResumeKind) (n : ℕ) → 0 < n → is_construct kind n ≡ 0
some_is_no_construct kind zero lt = absurd (omega arith)
some_is_no_construct resume_call (suc n) lt = refl
some_is_no_construct resume_yield (suc n) lt = refl
some_is_no_construct resume_construct (suc n) lt = refl
some_is_no_construct resume_for_each (suc n) lt = refl

yield_return-passed :
    (cothread : Cothread) (frame : StackFrame) (source : List Value) (rp xp : ℕ)
    → rp < xp
    → xp ≤ length source
    → xp < 4294967296
    → frame.xb < stack_mark
    → frame.xr ≤ frame.xb
    → frame.rr ≡ frame.xr
    → frame.fp + frame.xb + 31 < 4294967296
    → (c' : Cothread) × (yield_return cothread frame source rp xp
        ≡ ok (record { function = frame.function; r = frame.fp; ip = frame.ip; xp = frame.xb }, c'))
      × ((j : ℕ)
          → j < frame.xb - frame.xr
          → get_or c'.stack (frame.fp + frame.xr + j) 0 ≡ passed source rp xp j)
      × ((j : ℕ) → j < frame.fp + frame.xr → get_or c'.stack j 0 ≡ get_or cothread.stack j 0)
      × (c'.stack_frames ≡ cothread.stack_frames)
unfolding yield_return copy_result
yield_return-passed cothread frame source rp xp some_results h lt marked le same_register small =
    let (top, roomy, longer, kept, frames) = resize_stack-grows cothread frame.fp frame.xb small in
    let room = resize_stack cothread frame.fp frame.xb in
    let (filled, run, len, at) =
      fill_loop-lem (frame.xb - frame.xr) (frame.fp + frame.xr) source rp xp room.stack
        (omega arith) h in
    let not_marked : frame.xb == stack_mark ≡ false = ground arith in
    let count : 0 < wrap (rp + 4294967296 - xp) = omega arith in
    let no_shift : frame.xr + 0 ≡ frame.xr = omega arith in
    let own : frame.rr == frame.xr ≡ true = ground arith in
    let height : wrap (room.xp + 4294967296 - frame.fp) ≡ frame.xb = omega (arith, top) in
    (
      record room { stack = filled },
      rw
          (
            not_marked,
            some_is_no_construct frame.resume (wrap (rp + 4294967296 - xp)) count,
            no_shift,
            run,
            own,
            height,
          )
          refl,
      (λ j less.
          let there : frame.fp + frame.xr + j - (frame.fp + frame.xr) ≡ j = omega arith in
          ground (arith, at (frame.fp + frame.xr + j), there)),
      (λ j less. ground (arith, at j, kept j)),
      frames,
    )

pop_cothread-lem :
    (vm : CothreadMachine) (below : ℕ) (rest : List ℕ)
    → vm.cothread_stack ≡ below ∷ rest
    → pop_cothread vm ≡ ok (record vm { current = below; cothread_stack = rest })
unfolding pop_cothread
pop_cothread-lem vm below rest e = rw e refl

-- A yield of at least one result to a cothread that expects a fixed number of results, without a result
-- register of its own, succeeds if the registers that are yielded are in the stack and the positions
-- fit 32 bits: the cothread below goes on where it was, with the results in its registers
-- for results and nulls behind them; the registers below those keep their values, and no other
-- cothread changes.
pub call_yield-passed :
    (vm : CothreadMachine) (rp xp below : ℕ) (rest : List ℕ) (yielding cothread : Cothread)
    (top frame : StackFrame)
    → get_elem? vm.cothreads vm.current ≡ some yielding
    → back yielding.stack_frames ≡ ok top
    → vm.cothread_stack ≡ below ∷ rest
    → get_elem? vm.cothreads below ≡ some cothread
    → back cothread.stack_frames ≡ ok frame
    → rp < xp
    → top.fp + xp ≤ length yielding.stack
    → top.fp + xp < 4294967296
    → frame.xb < stack_mark
    → frame.xr ≤ frame.xb
    → frame.rr ≡ frame.xr
    → frame.fp + frame.xb + 31 < 4294967296
    → (c' : Cothread) × (call_yield vm rp xp
        ≡ ok (
          record { function = frame.function; r = frame.fp; ip = frame.ip; xp = frame.xb },
          record vm {
            cothreads = set vm.cothreads below c';
            current = below;
            cothread_stack = rest;
          },
        ))
      × ((j : ℕ)
          → j < frame.xb - frame.xr
          → get_or c'.stack (frame.fp + frame.xr + j) 0
            ≡ passed yielding.stack (top.fp + rp) (top.fp + xp) j)
      × ((j : ℕ) → j < frame.fp + frame.xr → get_or c'.stack j 0 ≡ get_or cothread.stack j 0)
      × (c'.stack_frames ≡ cothread.stack_frames)
unfolding call_yield resume_with
call_yield-passed vm rp xp below rest yielding cothread top frame is_current has_top is_below
      is_cothread has_frame some_results inside small marked le same_register small' =
    let (c', run, results, kept, same) =
      yield_return-passed cothread frame yielding.stack (top.fp + rp) (top.fp + xp) (omega arith)
        inside small marked le same_register small' in
    let ordered : leb rp xp ≡ true = ground arith in
    (
      c',
      rw
          (
            ordered,
            is_current,
            has_top,
            pop_cothread-lem vm below rest is_below,
            is_cothread,
            has_frame,
            run,
          )
          refl,
      results,
      kept,
      same,
    )
