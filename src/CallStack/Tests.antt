-- ===== src/CallStack/Tests.antt =====
-- Calls at a small input.
use kenaf.Base.{
  ℕ, ◌+◌, ◌-◌, ◌≤◌, ◌<◌, ◌≡◌, refl, true, false, [], ◌∷◌, ok, raise, argument_error, arith, length,
  get_or,
}
use kenaf.CallStack.{
  Function, ResumeKind, StackFrame, Cothread, XState, resize_stack, miscounts, call_function,
}
use kenaf.CallStack.Calls.{resize_stack-grows}
use kenaf.CallStack.Entry.{Entered, call_function-Entered}
use kenaf.CallStack.OneResult.{stack_return-one}
use kenaf.CallStack.Returns.{CothreadMachine, stack_return, call_yield}
use kenaf.CallStack.Yielding.{passed, call_yield-passed}

-- A function of one parameter and more, called with three arguments from register 1
abbrev variadic : Function
variadic = record { identity = 1; is_varargs = true; param_count = 1; stack_size = 6 }

abbrev caller : StackFrame
caller = record {
  function = variadic;
  bp = 0;
  fp = 0;
  ip = 3;
  resume = ResumeKind.resume_call;
  xr = 1;
  xb = 2;
  rr = 1;
}

abbrev calling : Cothread
calling = record { stack = 10 ∷ 11 ∷ 12 ∷ 13 ∷ 14 ∷ []; stack_frames = caller ∷ []; xp = 5 }

call_function-Entered_example :
    (miscounts variadic (5 - (1 + 1)) ≡ true
      → call_function calling variadic 1 5 ≡ raise argument_error)
    × (miscounts variadic (5 - (1 + 1)) ≡ false
        → (state : XState) × (called : Cothread) × (call_function calling variadic 1 5
            ≡ ok (state, called))
          × Entered calling variadic (0 + 1) (5 - (1 + 1) - 1) state called)
call_function-Entered_example =
    call_function-Entered calling variadic caller [] 1 5 refl (omega arith) (omega arith)
      (omega arith)

resize_stack-grows_example :
    ((resize_stack calling 1 6).xp ≡ 1 + 6)
    × (1 + 6 ≤ length (resize_stack calling 1 6).stack)
    × (length calling.stack ≤ length (resize_stack calling 1 6).stack)
    × ((j : ℕ) → get_or (resize_stack calling 1 6).stack j 0 ≡ get_or calling.stack j 0)
    × ((resize_stack calling 1 6).stack_frames ≡ calling.stack_frames)
resize_stack-grows_example = resize_stack-grows calling 1 6 (omega arith)

-- The register 7 of the stack is returned to the register 1 of a caller that expects two results.
abbrev expecting : StackFrame
expecting = record caller { xb = 3 }

abbrev returning : Cothread
returning = record {
  stack = 10 ∷ 11 ∷ 12 ∷ 13 ∷ 14 ∷ 15 ∷ 16 ∷ 17 ∷ 18 ∷ [];
  stack_frames = expecting ∷ [];
  xp = 9;
}

stack_return-one_example :
    (c' : Cothread) × (stack_return returning expecting 5 2 (2 + 1)
      ≡ ok (record { function = variadic; r = 0; ip = 3; xp = 3 }, c'))
    × (get_or c'.stack (0 + 1) 0 ≡ 17)
    × ((j : ℕ) → 1 < j → j < 3 → get_or c'.stack (0 + j) 0 ≡ 0)
    × ((j : ℕ) → j < 0 + 1 → get_or c'.stack j 0 ≡ get_or returning.stack j 0)
    × (c'.stack_frames ≡ expecting ∷ [])
stack_return-one_example =
    stack_return-one returning expecting 5 2 (omega arith) (omega arith) refl (omega arith)
      (omega arith) (omega arith) (omega arith)

-- The cothread 1 yields its registers 0 and 1 to the cothread 0.
abbrev two_cothreads : CothreadMachine
two_cothreads = record {
  cothreads = returning ∷ calling ∷ [];
  current = 1;
  cothread_stack = 0 ∷ [];
}

call_yield-passed_example :
    (c' : Cothread) × (call_yield two_cothreads 0 2
      ≡ ok (
        record { function = variadic; r = 0; ip = 3; xp = 3 },
        record { cothreads = c' ∷ calling ∷ []; current = 0; cothread_stack = [] },
      ))
    × ((j : ℕ) → j < 3 - 1 → get_or c'.stack (0 + 1 + j) 0 ≡ passed calling.stack (0 + 0) (0 + 2) j)
    × ((j : ℕ) → j < 0 + 1 → get_or c'.stack j 0 ≡ get_or returning.stack j 0)
    × (c'.stack_frames ≡ expecting ∷ [])
call_yield-passed_example =
    call_yield-passed two_cothreads 0 2 0 [] calling returning caller expecting refl refl refl refl
      refl (omega arith) (omega arith) (omega arith) (omega arith) (omega arith) refl (omega arith)
