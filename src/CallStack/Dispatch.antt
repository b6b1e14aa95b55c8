-- ===== src/CallStack/Dispatch.antt =====
-- Calls of any value, `call_value`, `call_native` and `call_prototype` of source/runtime/call_stack.cpp,
-- over the cothreads and the lookup objects of the machine.
use kenaf.Base.{
  ℕ, ◌+◌, ◌-◌, Bool, true, false, not, ◌&&◌, ◌||◌, List, [], ◌∷◌, ◌++◌, Option, none, some, Run, ok,
  raise, fault, argument_error, type_error, ◌>>=◌, ◌>>◌, check_assert, ltb, leb, ◌==◌,
  if◌then◌else◌, length, take, drop,
}
use kenaf.LookupObject.{Selector}
use kenaf.LookupObject.Methods.{lookup_getkey, lookup_new}
use kenaf.CallStack.{
  Value, wrap, Function, ResumeKind, Cothread, XState, back, resize_stack, call_function,
}
use kenaf.CallStack.ResumeKind.{resume_call, resume_yield, resume_construct, resume_for_each}
use kenaf.CallStack.Returns.{
  CothreadMachine, cothread_at, put_cothread, put, stack_return, call_cothread, call_generator,
}

-- The cothreads and the lookup objects of the machine, with the selector of the key `self`
pub record CallMachine : Type 0 where
  pub calls : CothreadMachine
  pub objects : kenaf.LookupObject.Machine
  pub self_key : ℕ
  pub self_sel : Selector

-- What a call reads of a native function object; `native` takes the base of its frame and the number of
-- its arguments, and gives the number of its results, which it leaves from the base on.
pub record NativeFunction : Type 0 where
  pub is_varargs : Bool
  pub param_count : ℕ
  pub native : CallMachine → ℕ → ℕ → Run (ℕ × CallMachine)

-- What a value is when it is called: for functions whether they are generators, and whether they are
-- marked with FLAG_DIRECT
pub data Callee : Type 0 where
  function_object : Function → Bool → Bool → Callee
  native_function_object : NativeFunction → Bool → Callee
  cothread_object lookup_object : ℕ → Callee
  other_object no_object : Callee

abbrev pub is_direct : Callee → Bool
is_direct (function_object f generator direct) = direct
is_direct (native_function_object f direct) = direct
is_direct (cothread_object c) = false
is_direct (lookup_object o) = false
is_direct other_object = false
is_direct no_object = false

abbrev pub is_call : ResumeKind → Bool
is_call resume_call = true
is_call resume_yield = false
is_call resume_construct = false
is_call resume_for_each = false

-- `call_function` on the current cothread
unfoldable pub call_current : CallMachine → Function → ℕ → ℕ → Run (XState × CallMachine)
call_current vm function rp xp = do
  cothread ← cothread_at vm.calls vm.calls.current
  (state, called) ← call_function cothread function rp xp
  ok (state, record vm { calls = put_cothread vm.calls vm.calls.current called })

-- `call_native`
unfoldable pub call_native : CallMachine → NativeFunction → ℕ → ℕ → Run (XState × CallMachine)
call_native vm function rp xp =
    let argument_count = xp - (rp + 1) in
    let miscounted =
      ltb argument_count function.param_count
      || (ltb function.param_count argument_count && not function.is_varargs) in
    check_assert (ltb rp xp)
    >> (if miscounted then raise argument_error else do
      cothread ← cothread_at vm.calls vm.calls.current
      frame ← back cothread.stack_frames
      let bp = wrap (frame.fp + rp)
      (result_count, vm') ← function.native vm bp argument_count
      check_assert (vm'.calls.current == vm.calls.current)
      cothread' ← cothread_at vm'.calls vm'.calls.current
      check_assert (length cothread'.stack_frames == length cothread.stack_frames)
      frame' ← back cothread'.stack_frames
      (state, returned) ← stack_return cothread' frame' bp 0 result_count
      ok (state, record vm' { calls = put_cothread vm'.calls vm'.calls.current returned }))

-- `memmove` of the registers from `first` to `last` up by `n`
unfoldable pub shift_up : List Value → ℕ → ℕ → ℕ → Run (List Value)
shift_up stack first last n =
    if leb (last + n) (length stack)
    then ok
        (take (first + n) stack ++ take (last - first) (drop first stack) ++ drop (last + n) stack)
    else fault

-- The stack of a constructor that is given `self`
unfoldable pub push_self : Cothread → ℕ → ℕ → Value → Value → Run Cothread
push_self cothread rp xp self c = elim cothread.stack_frames [
  | [] ↦ fault
  | frame ∷ frames ↦ do
    let roomy = resize_stack cothread frame.fp (xp + 2)
    let r = frame.fp + rp
    shifted ← shift_up roomy.stack r (frame.fp + xp) 2
    one ← put shifted r self
    two ← put one (r + 1) c
    three ← put two (r + 2) self
    check_assert (is_call frame.resume)
    ok (record roomy {
      stack = three;
      stack_frames = record frame { resume = resume_construct } ∷ frames;
    })
]

-- The stack of a constructor that is given null
unfoldable pub push_null : Cothread → ℕ → ℕ → Value → Run Cothread
push_null cothread rp xp c = do
  frame ← back cothread.stack_frames
  let roomy = resize_stack cothread frame.fp (xp + 1)
  let r = frame.fp + rp
  shifted ← shift_up roomy.stack r (frame.fp + xp) 1
  one ← put shifted r c
  two ← put one (r + 1) 0
  ok (record roomy { stack = two })

-- The call of the constructor itself
unfoldable pub call_constructor : CallMachine → Callee → ℕ → ℕ → Run (XState × CallMachine)
call_constructor vm (function_object f generator direct) rp xp =
    if generator then raise type_error else call_current vm f rp xp
call_constructor vm (native_function_object f direct) rp xp = call_native vm f rp xp
call_constructor vm (cothread_object c) rp xp = raise type_error
call_constructor vm (lookup_object o) rp xp = raise type_error
call_constructor vm other_object rp xp = raise type_error
call_constructor vm no_object rp xp = raise type_error

abbrev pub check_object : Callee → Run (Unit {0})
check_object (function_object f generator direct) = ok tt
check_object (native_function_object f direct) = ok tt
check_object (cothread_object c) = ok tt
check_object (lookup_object o) = ok tt
check_object other_object = ok tt
check_object no_object = raise type_error

-- The result of a call on the cothreads alone
abbrev pub with_calls :
    CallMachine → Run (XState × CothreadMachine) → Run (Option (XState × CallMachine))
with_calls vm r = r >>= (λ (state, calls). ok (some (state, record vm { calls = calls })))

module _ (block : ℕ → ℕ) (callee_of : Value → Callee) (box_cothread box_lookup : ℕ → Value) where
  -- `call_prototype`
  unfoldable pub call_prototype : CallMachine → ℕ → ℕ → ℕ → Run (XState × CallMachine)
  call_prototype vm prototype rp xp = check_assert (ltb rp xp) >> (do
    (c, sel) ← lookup_getkey vm.objects prototype vm.self_key vm.self_sel
    let found = record vm { self_sel = sel }
    check_object (callee_of c)
    cothread ← cothread_at found.calls found.calls.current
    let direct = do
      pushed ← push_null cothread rp xp c
      call_constructor
          (record found { calls = put_cothread found.calls found.calls.current pushed })
          (callee_of c) rp (xp + 1)
    let constructed = do
      (self, objects) ← lookup_new block found.objects (some prototype)
      pushed ← push_self cothread rp xp (box_lookup self) c
      call_constructor
          (record found {
            calls = put_cothread found.calls found.calls.current pushed;
            objects = objects;
          })
          (callee_of c) (rp + 1) (xp + 2)
    if is_direct (callee_of c) then direct else constructed)

  -- `call_value`: none where it returns false
  unfoldable pub call_value :
      CallMachine → Value → ℕ → ℕ → Bool → Run (Option (XState × CallMachine))
  call_value vm u rp xp ycall = elim (callee_of u) [
    | function_object f generator direct ↦
        if not ycall && generator
        then with_calls vm (call_generator box_cothread vm.calls f rp xp)
        else (call_current vm f rp xp >>= (λ r. ok (some r)))
    | native_function_object f direct ↦ call_native vm f rp xp >>= (λ r. ok (some r))
    | cothread_object c ↦ with_calls vm (call_cothread vm.calls c rp xp)
    | lookup_object o ↦ call_prototype vm o rp xp >>= (λ r. ok (some r))
    | other_object ↦ ok none
    | no_object ↦ ok none
  ]
