-- ===== src/CallStack.antt =====
-- Calls and returns, source/runtime/call_stack.cpp and call_stack.h, with the cothread of
-- objects/cothread_object.h. Registers are positions of the stack of the cothread; the numbers are
-- 32-bit unsigned integers.
pub mod Calls
pub mod Entry
pub mod Returns
pub mod Dispatch
pub mod OneResult
pub mod Yielding
mod Tests
use kenaf.Base.{
  ℕ, zero, suc, ◌+◌, ◌-◌, ◌*◌, ◌/◌, ◌%◌, Bool, true, false, not, ◌&&◌, ◌||◌, List, [], ◌∷◌, ◌++◌,
  reverse, Run, ok, raise, fault, argument_error, cothread_error, ◌>>=◌, ◌>>◌, check_assert, ltb,
  leb, ◌==◌, if◌then◌else◌, length, get_or, set, take, drop, replicate,
}

abbrev pub Value : Type 0
Value = ℕ

-- `unsigned`
abbrev pub wrap : ℕ → ℕ
wrap n = n % 4294967296

-- What a call reads of a function object and its program.
pub record Function : Type 0 where
  pub identity : ℕ
  pub is_varargs : Bool
  pub param_count : ℕ
  pub stack_size : ℕ

-- `resume_kind`
pub data ResumeKind : Type 0 where
  resume_call resume_yield resume_construct resume_for_each : ResumeKind

-- `stack_frame`
pub record StackFrame : Type 0 where
  pub function : Function
  pub bp : ℕ
  pub fp : ℕ
  pub ip : ℕ
  pub resume : ResumeKind
  pub xr : ℕ
  pub xb : ℕ
  pub rr : ℕ

-- `cothread_object`; the frame that was pushed last stands first.
pub record Cothread : Type 0 where
  pub stack : List Value
  pub stack_frames : List StackFrame
  pub xp : ℕ

-- `xstate`; `r` is the position in the stack that the pointer points at.
pub record XState : Type 0 where
  pub function : Function
  pub r : ℕ
  pub ip : ℕ
  pub xp : ℕ

-- `stack_frames.back()`
abbrev pub back : List StackFrame → Run StackFrame
back [] = fault
back (f ∷ fs) = ok f

-- `stack.resize( size )`
abbrev pub resize : List Value → ℕ → List Value
resize stack size = take size stack ++ replicate (size - length stack) 0

-- `resize_stack`
unfoldable pub resize_stack : Cothread → ℕ → ℕ → Cothread
resize_stack cothread fp xp =
    let top = wrap (fp + xp) in
    record cothread {
      stack =
          if ltb (length cothread.stack) top
          then resize cothread.stack (wrap (top + 31) / 32 * 32)
          else cothread.stack;
      xp = top;
    }

-- `std::reverse( r + first, r + last )`
unfoldable pub reverse_range : ℕ → ℕ → List Value → Run (List Value)
reverse_range first last stack =
    if leb first last && leb last (length stack)
    then ok
        (take first stack ++ reverse (take (last - first) (drop first stack)) ++ drop last stack)
    else fault

-- The arguments that do not fit the parameters
abbrev pub miscounts : Function → ℕ → Bool
miscounts function argument_count =
    ltb argument_count function.param_count
    || (ltb function.param_count argument_count && not function.is_varargs)

-- The rearrangement of variadic arguments
unfoldable pub rearrange : ℕ → ℕ → ℕ → List Value → Run (List Value)
unfolding reverse_range
rearrange bp split_count total_count stack = do
  one ← reverse_range bp (bp + split_count) stack
  two ← reverse_range (bp + split_count) (bp + total_count) one
  reverse_range bp (bp + total_count) two

-- `call_function`
unfoldable pub call_function : Cothread → Function → ℕ → ℕ → Run (XState × Cothread)
call_function cothread function rp xp =
    check_assert (ltb rp xp)
    >> (if miscounts function (xp - (rp + 1)) then raise argument_error else do
      caller ← back cothread.stack_frames
      let bp = wrap (caller.fp + rp)
      let total_count = xp - rp
      let split_count = wrap (function.param_count + 1)
      let fp =
          if function.is_varargs then wrap (bp + total_count + 4294967296 - split_count) else bp
      moved ←
          if function.is_varargs
          then rearrange bp split_count total_count cothread.stack
          else ok cothread.stack
      let frame : StackFrame = record {
        function = function;
        bp = bp;
        fp = fp;
        ip = 0;
        resume = ResumeKind.resume_call;
        xr = 0;
        xb = 0;
        rr = 0;
      }
      let called =
          resize_stack
            (record cothread { stack = moved; stack_frames = frame ∷ cothread.stack_frames }) fp
            function.stack_size
      ok (
        record { function = function; r = fp; ip = 0; xp = wrap (called.xp + 4294967296 - fp) },
        called,
      ))
