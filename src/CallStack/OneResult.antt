-- ===== src/CallStack/OneResult.antt =====
-- The return of one result to the caller, `stack_return` of source/runtime/call_stack.cpp.
use kenaf.Base.{
  ℕ, zero, suc, ◌+◌, ◌-◌, min, ◌≤◌, ◌<◌, ◌≡◌, refl, ◌∙◌, true, false, ◌&&◌, List, ok, ltb, leb,
  ◌==◌, if◌then◌else◌, arith, length, get_or, set, length-set, get_or-set,
}
use kenaf.CallStack.{Value, wrap, ResumeKind, StackFrame, Cothread}
use kenaf.CallStack.ResumeKind.{resume_call, resume_yield, resume_construct, resume_for_each}
use kenaf.CallStack.Returns.{
  stack_mark, splice, move_loop, memmove_down, null_loop, is_construct, copy_result, stack_return,
}

null_loop-lem :
    (n i : ℕ) (stack : List Value)
    → i + n ≤ length stack
    → (s : List Value) × (null_loop n i stack ≡ ok s)
      × (length s ≡ length stack)
      × ((j : ℕ) → get_or s j 0 ≡ (if leb i j && ltb j (i + n) then 0 else get_or stack j 0))
unfolding null_loop
null_loop-lem zero i stack h = (stack, refl, refl, λ j. ground arith)
null_loop-lem (suc n) i stack h =
    let (s, run, len, at) =
      null_loop-lem n (i + 1) (set stack i 0) (omega (arith, length-set stack i 0)) in
    let inside : ltb i (length stack) ≡ true = ground arith in
    (
      s,
      rw inside run,
      len ∙ length-set stack i 0,
      λ j. ground (arith, at j, get_or-set stack i j 0 0),
    )

-- Nine bytes are moved for one result: it arrives whole, and below it nothing changes.
memmove_down-one :
    (to from : ℕ) (stack : List Value)
    → to < from
    → from + 2 ≤ length stack
    → (s : List Value) × (memmove_down to from 9 stack ≡ ok s)
      × (length s ≡ length stack)
      × (get_or s to 0 ≡ get_or stack from 0)
      × ((j : ℕ) → j < to → get_or s j 0 ≡ get_or stack j 0)
unfolding memmove_down move_loop
memmove_down-one to from stack lt h =
    let inside : leb (from + 2) (length stack) ≡ true = ground arith in
    let v = get_or stack from 0 in
    let one = set stack to v in
    let l1 : length one ≡ length stack = length-set stack to v in
    let w = splice 1 (get_or one (from + 1) 0) (get_or one (to + 1) 0) in
    (
      set one (to + 1) w,
      rw inside refl,
      length-set one (to + 1) w ∙ l1,
      ground (arith, get_or-set one (to + 1) to w 0, get_or-set stack to to v 0),
      λ j lt'. ground (arith, get_or-set one (to + 1) j w 0, get_or-set stack to j v 0),
    )

one_is_some : (kind : ResumeKind) → is_construct kind 1 ≡ 0
one_is_some resume_call = refl
one_is_some resume_yield = refl
one_is_some resume_construct = refl
one_is_some resume_for_each = refl

-- A return of one result from a frame above that of the caller, which expects a fixed number of
-- results, at least one, and has no result register of its own, succeeds, if those registers and
-- one register above the result are in the stack: the result is in the first of the registers
-- for results, the others are null, the registers below keep their values, and the caller goes on
-- where it was.
pub stack_return-one :
    (cothread : Cothread) (frame : StackFrame) (return_fp rp : ℕ)
    → frame.xb < stack_mark
    → frame.xr < frame.xb
    → frame.rr ≡ frame.xr
    → frame.fp ≤ return_fp
    → frame.fp + frame.xr < return_fp + rp
    → frame.fp + frame.xb ≤ length cothread.stack
    → return_fp + rp + 2 ≤ length cothread.stack
    → (c' : Cothread) × (stack_return cothread frame return_fp rp (rp + 1)
        ≡ ok (record { function = frame.function; r = frame.fp; ip = frame.ip; xp = frame.xb }, c'))
      × (get_or c'.stack (frame.fp + frame.xr) 0 ≡ get_or cothread.stack (return_fp + rp) 0)
      × ((j : ℕ) → frame.xr < j → j < frame.xb → get_or c'.stack (frame.fp + j) 0 ≡ 0)
      × ((j : ℕ) → j < frame.fp + frame.xr → get_or c'.stack j 0 ≡ get_or cothread.stack j 0)
      × (c'.stack_frames ≡ cothread.stack_frames)
unfolding stack_return copy_result
stack_return-one cothread frame return_fp rp marked some_expected same_register above below room
      room' =
    let to = frame.fp + frame.xr in
    let (moved, run_move, len_move, at_to, at_below) =
      memmove_down-one to (return_fp + rp) cothread.stack below room' in
    let (filled, run_fill, len_fill, at_fill) =
      null_loop-lem (frame.xb - (frame.xr + 1)) (to + 1) moved (omega (arith, len_move)) in
    let one : rp + 1 - rp ≡ 1 = omega arith in
    let not_marked : frame.xb == stack_mark ≡ false = ground arith in
    let le_xp : leb rp (rp + 1) ≡ true = ground arith in
    let le_fp : leb frame.fp return_fp ≡ true = ground arith in
    let le_to : leb to (return_fp + rp) ≡ true = ground arith in
    let fits : leb (frame.fp + frame.xb) (length cothread.stack) ≡ true = ground arith in
    let no_shift : frame.xr + 0 ≡ frame.xr = omega arith in
    let count : min 1 (wrap (frame.xb + 4294967296 - frame.xr)) ≡ 1 = omega arith in
    let behind : ltb to (return_fp + rp) ≡ true = ground arith in
    let own : frame.rr == frame.xr ≡ true = ground arith in
    (
      record cothread { stack = filled; xp = wrap (frame.fp + frame.xb) },
      rw
          (
            one,
            not_marked,
            le_xp,
            le_fp,
            le_to,
            fits,
            one_is_some frame.resume,
            no_shift,
            count,
            behind,
            run_move,
            run_fill,
            own,
          )
          refl,
      ground (arith, at_fill to, at_to),
      λ j lt lt'. ground (arith, at_fill (frame.fp + j)),
      λ j lt. ground (arith, at_fill j, at_below j lt),
      refl,
    )
