-- ===== src/Imath/Tests.antt =====
-- `ibitint_overflow` at a number.
use kenaf.Base.{ℕ, ◌+◌, ◌*◌, ◌^◌, ◌≡◌, arith}
use kenaf.Imath.{ibitint_overflow}
use kenaf.Imath.Overflow.{low_word, ibitint_overflow-low_word}

-- The double of sign 1, exponent 64 and mantissa 5 * 2^32
abbrev number : ℕ
number = 1 * 2 ^ 63 + 1087 * 2 ^ 52 + 5 * 2 ^ 32

ibitint_overflow-low_word_example : ibitint_overflow number ≡ low_word number
ibitint_overflow-low_word_example =
    ibitint_overflow-low_word number (omega arith) (λ e. absurd (omega arith))
