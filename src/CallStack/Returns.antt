-- ===== src/CallStack/Returns.antt =====
-- Returns, yields and generators, source/runtime/call_stack.cpp, over the cothreads of the machine.
-- Marking and safepoints of the collector are left out. A value is 8 bytes, the lowest first.
use kenaf.Base.{
  ℕ, zero, suc, ◌+◌, ◌-◌, ◌*◌, ◌/◌, ◌%◌, ◌^◌, min, max, Bool, true, false, List, [], ◌∷◌, ◌++◌, Run,
  ok, raise, fault, argument_error, cothread_error, ◌>>=◌, ◌>>◌, check_assert, deref, ltb, leb,
  ◌==◌, if◌then◌else◌, length, get_elem?, get_or, set,
}
use kenaf.CallStack.{
  Value, wrap, Function, ResumeKind, StackFrame, Cothread, XState, back, resize_stack, miscounts,
}
use kenaf.CallStack.ResumeKind.{resume_call, resume_yield, resume_construct, resume_for_each}

-- `OP_STACK_MARK`
abbrev pub stack_mark : ℕ
stack_mark = 255

-- What the calls use of the machine: all cothreads, that of `vm->c->cothread`, and the
-- `cothread_stack`, whose last one stands first
pub record CothreadMachine : Type 0 where
  pub cothreads : List Cothread
  pub current : ℕ
  pub cothread_stack : List ℕ

abbrev pub cothread_at : CothreadMachine → ℕ → Run Cothread
cothread_at vm i = deref (get_elem? vm.cothreads i)

abbrev pub put_cothread : CothreadMachine → ℕ → Cothread → CothreadMachine
put_cothread vm i cothread = record vm { cothreads = set vm.cothreads i cothread }

-- The first `p` bytes of the one value and the others of the other
abbrev pub splice : ℕ → Value → Value → Value
splice p new old = old / 256 ^ p * 256 ^ p + new % 256 ^ p

unfoldable pub move_loop : ℕ → ℕ → ℕ → List Value → List Value
move_loop zero to from stack = stack
move_loop (suc n) to from stack =
    move_loop n (to + 1) (from + 1) (set stack to (get_or stack from 0))

-- `memmove` of some bytes down the stack
unfoldable pub memmove_down : ℕ → ℕ → ℕ → List Value → Run (List Value)
memmove_down to from bytes stack =
    let whole = bytes / 8 in
    let moved = move_loop whole to from stack in
    if leb (from + (bytes + 7) / 8) (length stack)
    then ok (
        set moved (to + whole)
          (splice (bytes % 8) (get_or moved (from + whole) 0) (get_or moved (to + whole) 0)))
    else fault

-- `r[ i ] = …`
abbrev pub put : List Value → ℕ → Value → Run (List Value)
put stack i v = if ltb i (length stack) then ok (set stack i v) else fault

abbrev pub fetch : List Value → ℕ → Run Value
fetch stack i = deref (get_elem? stack i)

-- `while ( xr < xb ) r[ xr++ ] = null_value`
unfoldable pub null_loop : ℕ → ℕ → List Value → Run (List Value)
null_loop zero i stack = ok stack
null_loop (suc n) i stack = put stack i 0 >>= null_loop n (i + 1)

-- `rp < xp ? source[ rp ] : null_value`
abbrev pub argument : List Value → ℕ → ℕ → Run Value
argument source rp xp = if ltb rp xp then fetch source rp else ok 0

-- `while ( xr < xb ) r[ xr++ ] = rp < xp ? source[ rp++ ] : null_value`
unfoldable pub fill_loop : ℕ → ℕ → List Value → ℕ → ℕ → List Value → Run (List Value)
fill_loop zero i source rp xp stack = ok stack
fill_loop (suc n) i source rp xp stack = do
  v ← argument source rp xp
  stack' ← put stack i v
  fill_loop n (i + 1) source (rp + 1) xp stack'

abbrev pub is_construct : ResumeKind → ℕ → ℕ
is_construct resume_construct zero = 1
is_construct resume_construct (suc n) = 0
is_construct resume_call n = 0
is_construct resume_yield n = 0
is_construct resume_for_each n = 0

-- `r[ stack_frame->rr ] = r[ stack_frame->xr ]`
unfoldable pub copy_result : StackFrame → List Value → Run (List Value)
copy_result frame stack =
    if frame.rr == frame.xr
    then ok stack
    else fetch stack (frame.fp + frame.xr) >>= put stack (frame.fp + frame.rr)

-- `stack_return`
unfoldable pub stack_return : Cothread → StackFrame → ℕ → ℕ → ℕ → Run (XState × Cothread)
stack_return cothread frame return_fp rp xp =
    let result_count = xp - rp in
    let xb = if frame.xb == stack_mark then wrap (frame.xr + result_count) else frame.xb in
    let to = frame.fp + frame.xr in
    let from = return_fp + rp in
    check_assert (leb rp xp)
    >> check_assert (leb frame.fp return_fp)
    >> check_assert (leb to from)
    >> check_assert (leb (frame.fp + xb) (length cothread.stack))
    >> (do
      let xr = frame.xr + is_construct frame.resume result_count
      let value_count = min result_count (wrap (xb + 4294967296 - xr))
      moved ←
          if ltb (frame.fp + xr) from
          then memmove_down (frame.fp + xr) from (value_count + 8) cothread.stack
          else ok cothread.stack
      filled ← null_loop (xb - (xr + value_count)) (frame.fp + xr + value_count) moved
      stack ← copy_result frame filled
      ok (
        record { function = frame.function; r = frame.fp; ip = frame.ip; xp = xb },
        record cothread { stack = stack; xp = wrap (frame.fp + xb) },
      ))

-- `yield_return`, given the stack of the cothread that yields and the positions of `rp` and `xp` in it;
-- the number of results is `rp - xp` in 32 bits.
unfoldable pub yield_return : Cothread → StackFrame → List Value → ℕ → ℕ → Run (XState × Cothread)
yield_return cothread frame source rp xp =
    let result_count = wrap (rp + 4294967296 - xp) in
    let xb = if frame.xb == stack_mark then wrap (frame.xr + result_count) else frame.xb in
    let roomy = resize_stack cothread frame.fp xb in
    let xr = frame.xr + is_construct frame.resume result_count in
    do
      filled ← fill_loop (xb - xr) (frame.fp + xr) source rp xp roomy.stack
      stack ← copy_result frame filled
      ok (
        record {
          function = frame.function;
          r = frame.fp;
          ip = frame.ip;
          xp = wrap (roomy.xp + 4294967296 - frame.fp);
        },
        record roomy { stack = stack },
      )

-- `cothread_stack.back()` becomes the cothread.
unfoldable pub pop_cothread : CothreadMachine → Run CothreadMachine
pop_cothread vm = elim vm.cothread_stack [
  | [] ↦ fault
  | below ∷ rest ↦ ok (record vm { current = below; cothread_stack = rest })
]

-- The frame that a cothread goes on with, after the results of another one
unfoldable pub resume_with : CothreadMachine → List Value → ℕ → ℕ → Run (XState × CothreadMachine)
resume_with vm source rp xp = do
  cothread ← cothread_at vm vm.current
  frame ← back cothread.stack_frames
  (state, cothread') ← yield_return cothread frame source rp xp
  ok (state, put_cothread vm vm.current cothread')

-- `call_yield`
unfoldable pub call_yield : CothreadMachine → ℕ → ℕ → Run (XState × CothreadMachine)
call_yield vm rp xp = check_assert (leb rp xp) >> (do
  yielding ← cothread_at vm vm.current
  frame ← back yielding.stack_frames
  vm' ← pop_cothread vm
  resume_with vm' yielding.stack (frame.fp + rp) (frame.fp + xp))

abbrev pub is_yield : ResumeKind → Bool
is_yield resume_yield = true
is_yield resume_call = false
is_yield resume_construct = false
is_yield resume_for_each = false

abbrev pub ends_loop : ResumeKind → Bool
ends_loop resume_for_each = true
ends_loop resume_call = false
ends_loop resume_yield = false
ends_loop resume_construct = false

-- The end of a for-each loop over a generator that is done
unfoldable pub end_iteration :
    CothreadMachine → Cothread → StackFrame → ℕ → XState × CothreadMachine
end_iteration vm cothread frame rp =
    let roomy = resize_stack cothread frame.fp rp in
    (
      record {
        function = frame.function;
        r = frame.fp;
        ip = wrap (frame.ip + 4294967295);
        xp = wrap (roomy.xp + 4294967296 - frame.fp);
      },
      put_cothread vm vm.current roomy,
    )

-- `call_return`
unfoldable pub call_return : CothreadMachine → ℕ → ℕ → Run (XState × CothreadMachine)
call_return vm rp xp = check_assert (leb rp xp) >> (do
  cothread ← cothread_at vm vm.current
  elim cothread.stack_frames [
    | [] ↦ fault
    | done ∷ [] ↦ do
      let finished = put_cothread vm vm.current (record cothread { stack_frames = [] })
      vm' ← pop_cothread finished
      below ← cothread_at vm' vm'.current
      frame ← back below.stack_frames
      if ends_loop frame.resume
          then ok (end_iteration vm' below frame rp)
          else resume_with vm' cothread.stack (done.fp + rp) (done.fp + xp)
    | done ∷ frame ∷ frames ↦ do
      (state, cothread') ←
          stack_return (record cothread { stack_frames = frame ∷ frames }) frame done.fp rp xp
      ok (state, put_cothread vm vm.current cothread')
  ])

-- `call_cothread`
unfoldable pub call_cothread : CothreadMachine → ℕ → ℕ → ℕ → Run (XState × CothreadMachine)
call_cothread vm c rp xp = check_assert (ltb rp xp) >> (do
  cothread ← cothread_at vm c
  elim cothread.stack_frames [
    | [] ↦ raise cothread_error
    | frame ∷ frames ↦ do
      caller ← cothread_at vm vm.current
      caller_frame ← back caller.stack_frames
      check_assert (is_yield frame.resume)
      check_assert (frame.rr == frame.xr)
      let xb = if frame.xb == stack_mark then frame.xr + (xp - (rp + 1)) else frame.xb
      let roomy = resize_stack cothread frame.fp xb
      stack ←
          fill_loop (xb - frame.xr) (frame.fp + frame.xr) caller.stack (caller_frame.fp + (rp + 1))
            (caller_frame.fp + xp) roomy.stack
      ok (
        record {
          function = frame.function;
          r = frame.fp;
          ip = frame.ip;
          xp = wrap (roomy.xp + 4294967296 - frame.fp);
        },
        record (put_cothread vm c (record roomy { stack = stack })) {
          current = c;
          cothread_stack = vm.current ∷ vm.cothread_stack;
        },
      )
  ])

-- The cothread of a generator, with the arguments from the stack of the caller
unfoldable pub generator_cothread : Function → List Value → ℕ → ℕ → Run Cothread
generator_cothread function source bp total_count = do
  let actual_count = 1 + function.param_count
  let vararg_count = total_count - actual_count
  let blank : Cothread = record { stack = []; stack_frames = []; xp = 0 }
  let roomy = resize_stack blank 0 (max function.stack_size total_count)
  let end = bp + total_count
  varargs ← fill_loop vararg_count 0 source (bp + actual_count) end roomy.stack
  stack ← fill_loop actual_count vararg_count source bp end varargs
  let frame : StackFrame = record {
    function = function;
    bp = 0;
    fp = vararg_count;
    ip = 0;
    resume = resume_yield;
    xr = 0;
    xb = 0;
    rr = 0;
  }
  ok (record roomy { stack = stack; stack_frames = frame ∷ [] })

module _ (box_object : ℕ → Value) where
  -- `call_generator`
  unfoldable pub call_generator :
      CothreadMachine → Function → ℕ → ℕ → Run (XState × CothreadMachine)
  call_generator vm function rp xp =
      check_assert (ltb rp xp)
      >> (if miscounts function (xp - (rp + 1)) then raise argument_error else do
        caller ← cothread_at vm vm.current
        frame ← back caller.stack_frames
        let bp = wrap (frame.fp + rp)
        generator ← generator_cothread function caller.stack bp (xp - rp)
        boxed ← put caller.stack bp (box_object (length vm.cothreads))
        (state, caller') ← stack_return (record caller { stack = boxed }) frame bp 0 1
        let vm' = put_cothread vm vm.current caller'
        ok (state, record vm' { cothreads = vm'.cothreads ++ generator ∷ [] }))
