-- ===== src/Imath.antt =====
-- Integer operations on numbers, source/common/imath.cpp and imath.h. A number is the bit pattern of
-- its double; the integers are unsigned and have 32 bits. A shift of the mantissa out of 64 bits
-- wraps around, as compilers have it.
pub mod Overflow
mod Tests
use kenaf.Base.{ℕ, ◌+◌, ◌-◌, ◌*◌, ◌/◌, ◌%◌, ◌^◌, ltb, leb, ◌==◌, if◌then◌else◌}

-- The fields of a double
abbrev pub mantissa_of : ℕ → ℕ
mantissa_of b = b % 2 ^ 52

abbrev pub exponent_of : ℕ → ℕ
exponent_of b = b / 2 ^ 52 % 2048

-- `mantissa` shifted by `exponent - 52`, where `exponent` is the field less 1023
unfoldable pub shift_mantissa : ℕ → ℕ → ℕ
shift_mantissa mantissa field =
    if leb 1075 field
    then (if ltb (field - 1075) 64 then mantissa * 2 ^ (field - 1075) % 2 ^ 64 else 0)
    else (if ltb (1075 - field) 64 then mantissa / 2 ^ (1075 - field) else 0)

-- `ibitint_overflow`
unfoldable pub ibitint_overflow : ℕ → ℕ
ibitint_overflow b =
    if exponent_of b == 2047
    then 0
    else let shifted = shift_mantissa (mantissa_of b) (exponent_of b) in
      (if leb (2 ^ 63) b then (2 ^ 64 - shifted) % 2 ^ 64 else shifted) % 2 ^ 32
