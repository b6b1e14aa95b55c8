-- ===== src/Lexer/Value.antt =====
-- The value of an integer literal in `lexer::lex_number` of source/compiler/lexer.cpp.
use native.Mathlib.Nat.{div-add-mod', pow-suc, pow-zero}
use kenaf.Base.{ℕ, ◌+◌, ◌*◌, ◌%◌, ◌^◌, ◌<◌, ◌≡◌, sym, ap, ◌∙◌, [], ◌∷◌, arith, length}
use kenaf.Lexer.Token.{Bytes}
use kenaf.Lexer.Number.{digit, accumulate}

-- The characters of the digits, with their values
pub data IsDigit : ℕ → ℕ → Type 0 where
  decimal : (d : ℕ) → d < 10 → IsDigit (b'0' + d) d
  lower : (d : ℕ) → d < 6 → IsDigit (b'a' + d) (10 + d)
  upper : (d : ℕ) → d < 6 → IsDigit (b'A' + d) (10 + d)

-- The text writes the number in the base: a digit counts its value times the power of the base that
-- belongs to its place.
pub data Writes (base : ℕ) : Bytes → ℕ → Type 0 where
  nothing : Writes base [] 0
  digit_before :
      {c d n : ℕ} {cs : Bytes}
      → IsDigit c d
      → d < base
      → Writes base cs n
      → Writes base (c ∷ cs) (d * base ^ length cs + n)

digit-IsDigit : (c d : ℕ) → IsDigit c d → digit c ≡ d
unfolding digit
digit-IsDigit _ _ (IsDigit.decimal d h) = ground arith
digit-IsDigit _ _ (IsDigit.lower d h) = ground arith
digit-IsDigit _ _ (IsDigit.upper d h) = ground arith

mod_step : (i base d : ℕ) → (i % 2 ^ 64 * base % 2 ^ 64 + d) % 2 ^ 64 ≡ (i * base + d) % 2 ^ 64
mod_step i base d = omega (arith, ap (λ (t : ℕ). t * base) (div-add-mod' i (2 ^ 64)))

shift : (i base d power n : ℕ) → (i * base + d) * power + n ≡ i * (power * base) + (d * power + n)
shift i base d power n = omega arith

accumulate-mod :
    (base i n : ℕ) (cs : Bytes)
    → Writes base cs n
    → accumulate base (i % 2 ^ 64) cs ≡ (i * base ^ length cs + n) % 2 ^ 64
unfolding accumulate
accumulate-mod base i n [] Writes.nothing =
    ap (λ (t : ℕ). t % 2 ^ 64) (omega (arith, ap (λ (t : ℕ). i * t) (pow-zero base)))
accumulate-mod base i n (c ∷ cs) (Writes.digit_before {d = d} {n = m} is small writes) =
    rw (digit-IsDigit c d is, mod_step i base d, accumulate-mod base (i * base + d) m cs writes)
      (ap (λ (t : ℕ). t % 2 ^ 64)
        (shift i base d (base ^ length cs) m
          ∙ ap (λ (t : ℕ). i * t + (d * base ^ length cs + m)) (sym (pow-suc base (length cs)))))

-- If a text writes a number in a base, in digits and letters of either case, the `uintmax_t` that is
-- computed from it is that number, modulo 2^64.
pub accumulate-Writes :
    (base n : ℕ) (cs : Bytes) → Writes base cs n → accumulate base 0 cs ≡ n % 2 ^ 64
accumulate-Writes base n cs writes =
    accumulate-mod base 0 n cs writes ∙ ap (λ (t : ℕ). t % 2 ^ 64) (omega arith)
