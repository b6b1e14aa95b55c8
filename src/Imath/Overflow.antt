-- ===== src/Imath/Overflow.antt =====
-- `ibitint_overflow` of source/common/imath.cpp against the integer that a double stands for.
use kenaf.Base.{
  ℕ, zero, suc, ◌+◌, ◌-◌, ◌*◌, ◌%◌, ◌^◌, ◌≤◌, ◌<◌, ◌≡◌, ◌≢◌, refl, inl, inr, ltb, leb,
  if◌then◌else◌, arith, Bool-cases, leb_of_le, ==_of_ne,
}
use kenaf.Imath.{mantissa_of, exponent_of, shift_mantissa, ibitint_overflow}

-- The size of the integer that a double of that exponent stands for: the leading bit of the mantissa
-- is not stored.
abbrev pub magnitude : ℕ → ℕ
magnitude b = (2 ^ 52 + mantissa_of b) * 2 ^ (exponent_of b - 1075)

-- Its two's complement in 32 bits, where the sign bit is set
abbrev pub low_word : ℕ → ℕ
low_word b =
    if leb (2 ^ 63) b then (2 ^ 32 - magnitude b % 2 ^ 32) % 2 ^ 32 else magnitude b % 2 ^ 32

split : (m p : ℕ) → (2 ^ 52 + m) * p ≡ 2 ^ 52 * p + m * p
split m p = grind arith

split_past : (m p : ℕ) → m * (2 ^ 64 * p) ≡ 2 ^ 64 * (m * p)
split_past m p = grind arith

pow_past : (k : ℕ) → 2 ^ (k + 64) ≡ 2 ^ 64 * 2 ^ k
pow_past zero = refl
pow_past (suc k) =
    let next : suc k + 64 ≡ suc (k + 64) = omega arith in rw next (omega (arith, pow_past k))

shift_mantissa-magnitude :
    (m e : ℕ) → 1075 ≤ e → shift_mantissa m e % 2 ^ 32 ≡ (2 ^ 52 + m) * 2 ^ (e - 1075) % 2 ^ 32
unfolding shift_mantissa
shift_mantissa-magnitude m e h = elim (Bool-cases (ltb (e - 1075) 64)) [
  | inl near ↦ rw (leb_of_le 1075 e h, near) (omega (arith, split m (2 ^ (e - 1075))))
  | inr far ↦
      rw (leb_of_le 1075 e h, far)
        (let k = e - 1075 - 64 in
          let past : e - 1075 ≡ k + 64 = ground arith in
          rw (past, pow_past k) (omega (arith, split m (2 ^ 64 * 2 ^ k), split_past m (2 ^ k))))
]

shift_mantissa-small : (m e : ℕ) → 1075 ≤ e → shift_mantissa m e < 2 ^ 64
unfolding shift_mantissa
shift_mantissa-small m e h = elim (Bool-cases (ltb (e - 1075) 64)) [
  | inl near ↦ rw (leb_of_le 1075 e h, near) (omega arith)
  | inr far ↦ rw (leb_of_le 1075 e h, far) (omega arith)
]

-- The negation in 64 bits, cut to 32 bits
negate-word :
    (x y : ℕ)
    → x < 2 ^ 64
    → x % 2 ^ 32 ≡ y % 2 ^ 32
    → (2 ^ 64 - x) % 2 ^ 64 % 2 ^ 32 ≡ (2 ^ 32 - y % 2 ^ 32) % 2 ^ 32
negate-word x y h e = omega arith

-- For every double of at least 2^63 in size that is finite, `ibitint_overflow` gives the low 32 bits of
-- the integer, in two's complement.
pub ibitint_overflow-low_word :
    (b : ℕ) → 1086 ≤ exponent_of b → exponent_of b ≢ 2047 → ibitint_overflow b ≡ low_word b
unfolding ibitint_overflow
ibitint_overflow-low_word b big finite =
    let m = mantissa_of b in
    let e = exponent_of b in
    let same = shift_mantissa-magnitude m e (omega arith) in
    elim (Bool-cases (leb (2 ^ 63) b)) [
      | inl negative ↦
          rw (==_of_ne e 2047 finite, negative)
            (negate-word (shift_mantissa m e) (magnitude b) (shift_mantissa-small m e (omega arith))
              same)
      | inr positive ↦ rw (==_of_ne e 2047 finite, positive) same
    ]
