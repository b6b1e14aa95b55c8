-- ===== src/CallStack/Entry.antt =====
-- What a function finds when `call_function` of source/runtime/call_stack.cpp has called it.
use kenaf.Base.{
  ℕ, ◌+◌, ◌-◌, ◌≤◌, ◌<◌, ◌≡◌, refl, ap, ◌∙◌, subst, inl, inr, true, false, List, ◌∷◌, ok, raise,
  argument_error, arith, Bool-cases, ltb_of_lt, length, get_or,
}
use kenaf.CallStack.{
  Function, ResumeKind, StackFrame, Cothread, XState, wrap, resize_stack, miscounts, call_function,
}
use kenaf.CallStack.Calls.{rearrange-lem, resize_stack-grows}

-- The frame of the callee at `base` with `extra` variadic arguments in front of its registers.
pub record Entered (cothread : Cothread) (f : Function) (base extra : ℕ) (state : XState)
    (called : Cothread) : Type 0 where
  pub registers : state.r ≡ base + extra
  pub top : state.xp ≡ f.stack_size
  pub start : state.ip ≡ 0
  pub stack_top : called.xp ≡ base + extra + f.stack_size
  pub roomy : called.xp ≤ length called.stack
  pub frame : StackFrame
  pub pushed : called.stack_frames ≡ frame ∷ cothread.stack_frames
  pub frame_base : frame.bp ≡ base
  pub frame_registers : frame.fp ≡ state.r
  pub below : (j : ℕ) → j < base → get_or called.stack j 0 ≡ get_or cothread.stack j 0
  pub variadic :
      (j : ℕ)
      → j < extra
      → get_or called.stack (base + j) 0 ≡ get_or cothread.stack (base + (f.param_count + 1) + j) 0
  pub parameters :
      (j : ℕ)
      → j < f.param_count + 1
      → get_or called.stack (base + extra + j) 0 ≡ get_or cothread.stack (base + j) 0

-- The frame, the cothread and the state after the call
abbrev pushed_frame : Function → ℕ → ℕ → StackFrame
pushed_frame f base fp = record {
  function = f;
  bp = base;
  fp = fp;
  ip = 0;
  resume = ResumeKind.resume_call;
  xr = 0;
  xb = 0;
  rr = 0;
}

abbrev called_cothread : Cothread → Function → List ℕ → ℕ → ℕ → Cothread
called_cothread cothread f moved base fp =
    resize_stack
      (record cothread {
        stack = moved;
        stack_frames = pushed_frame f base fp ∷ cothread.stack_frames;
      })
      fp f.stack_size

abbrev called_state : Cothread → Function → List ℕ → ℕ → ℕ → XState
called_state cothread f moved base fp = record {
  function = f;
  r = fp;
  ip = 0;
  xp = wrap ((called_cothread cothread f moved base fp).xp + 4294967296 - fp);
}

-- The step onto the stack of the callee, once the arguments are in place
enter :
    (cothread : Cothread) (f : Function) (base extra : ℕ) (moved : List ℕ)
    → length moved ≡ length cothread.stack
    → base + extra ≤ length cothread.stack
    → length cothread.stack + f.stack_size + 32 < 4294967296
    → ((j : ℕ) → j < base → get_or moved j 0 ≡ get_or cothread.stack j 0)
    → ((j : ℕ)
        → j < extra
        → get_or moved (base + j) 0 ≡ get_or cothread.stack (base + (f.param_count + 1) + j) 0)
    → ((j : ℕ)
        → j < f.param_count + 1
        → get_or moved (base + extra + j) 0 ≡ get_or cothread.stack (base + j) 0)
    → Entered cothread f base extra
        (called_state cothread f moved base (base + extra))
        (called_cothread cothread f moved base (base + extra))
enter cothread f base extra moved same inside small below variadic parameters =
    let fp = base + extra in
    let (at, room, wider, kept, frames) =
      resize_stack-grows
        (record cothread {
          stack = moved;
          stack_frames = pushed_frame f base fp ∷ cothread.stack_frames;
        })
        fp f.stack_size (omega arith) in
    record {
      registers = refl;
      top = omega arith;
      start = refl;
      stack_top = at;
      roomy = rw at room;
      frame = pushed_frame f base fp;
      pushed = frames;
      frame_base = refl;
      frame_registers = refl;
      below = λ j lt. kept j ∙ below j lt;
      variadic = λ j lt. kept (base + j) ∙ variadic j lt;
      parameters = λ j lt. kept (base + extra + j) ∙ parameters j lt;
    }

-- There is a frame of the caller, the registers `rp` to `xp`, of which there is one at least,
-- lie in the stack, and the stack and the registers of the callee fit 32 bits. Then a call with
-- a wrong number of arguments raises an argument error, and any other call pushes a frame in
-- which the function and its parameters are the first registers, the variadic arguments lie in
-- front of them, and nothing below changes.
pub call_function-Entered :
    (cothread : Cothread) (f : Function) (caller : StackFrame) (callers : List StackFrame)
    (rp xp : ℕ)
    → cothread.stack_frames ≡ caller ∷ callers
    → rp < xp
    → caller.fp + xp ≤ length cothread.stack
    → length cothread.stack + f.stack_size + 32 < 4294967296
    → (miscounts f (xp - (rp + 1)) ≡ true → call_function cothread f rp xp ≡ raise argument_error)
      × (miscounts f (xp - (rp + 1)) ≡ false
          → (state : XState) × (called : Cothread) × (call_function cothread f rp xp
              ≡ ok (state, called))
            × Entered cothread f (caller.fp + rp) (xp - (rp + 1) - f.param_count) state called)
unfolding call_function
call_function-Entered cothread f caller callers rp xp frames h inside small = (
  (λ wrong. rw (ltb_of_lt rp xp h, wrong) refl),
  λ right.
      let base : ℕ = caller.fp + rp in
      let extra : ℕ = xp - (rp + 1) - f.param_count in
      let split : wrap (f.param_count + 1) ≡ f.param_count + 1 = ground arith in
      let began = ltb_of_lt rp xp h in
      let narrow : wrap (caller.fp + rp) ≡ base = omega arith in
      elim (Bool-cases f.is_varargs) [
        | inl many ↦
            let (moved, run, len, below, variadic, parameters) =
              rearrange-lem base (f.param_count + 1) (xp - rp) cothread.stack (ground arith)
                (omega arith) in
            let front : xp - rp - (f.param_count + 1) ≡ extra = omega arith in
            let place : wrap (base + (xp - rp) + 4294967296 - (f.param_count + 1)) ≡ base + extra =
              ground arith in
            (
              called_state cothread f moved base (base + extra),
              called_cothread cothread f moved base (base + extra),
              rw (began, right, frames, narrow, split, many, run, narrow, place) refl,
              enter cothread f base extra moved len (ground arith) small below
                  (λ j lt. variadic j (rw front lt))
                  (λ j lt.
                    subst (λ e. get_or moved (base + e + j) 0 ≡ get_or cothread.stack (base + j) 0)
                      front (parameters j lt)),
            )
        | inr plain ↦
            let none_left : extra ≡ 0 = ground arith in
            let place : base + extra ≡ base = omega arith in
            let here : (j : ℕ) → base + extra + j ≡ base + j = λ j. omega arith in
            (
              called_state cothread f cothread.stack base (base + extra),
              called_cothread cothread f cothread.stack base (base + extra),
              rw (began, right, frames, narrow, split, plain, place) refl,
              enter cothread f base extra cothread.stack refl (omega arith) small (λ j lt. refl)
                  (λ j lt. absurd (omega arith))
                  (λ j lt. ap (λ i. get_or cothread.stack i 0) (here j)),
            )
      ],
)
