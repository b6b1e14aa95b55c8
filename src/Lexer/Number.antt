-- ===== src/Lexer/Number.antt =====
-- Digits and number literals: `digit`, `lexer::lex_number`, and `lexer::string_hex`, which reads
-- the digits of a string escape.
use kenaf.Base.{
  ℕ, zero, suc, ◌+◌, ◌-◌, ◌*◌, ◌%◌, ◌^◌, Bool, true, false, [], ◌∷◌, fault, ltb, leb, ◌==◌, ◌&&◌,
  ◌||◌, if◌then◌else◌, length,
}
use kenaf.Lexer.Token.{
  Bytes, Token, Payload, Kind, Message, octal_literal, no_digits, missing_exponent, invalid_suffix,
  invalid_hex,
}
use kenaf.Lexer.State.{
  M, pure, ◌>>=◌, ◌>>◌, get_index, get_buffer, clear_buffer, push, srcloc, error, peek, peek_is,
  next, text,
}

abbrev pub int_max : ℕ
int_max = 2147483647

abbrev pub within : ℕ → ℕ → ℕ → Bool
within lo hi c = leb lo c && leb c hi

unfoldable pub digit : ℕ → ℕ
digit c =
    if within b'0' b'9' c
    then c - b'0'
    else if within b'A' b'Z' c
    then 10 + (c - b'A')
    else if within b'a' b'z' c
    then 10 + (c - b'a')
    else int_max

-- `uintmax_t i; i *= base; i += digit( c );`
unfoldable pub accumulate : ℕ → ℕ → Bytes → ℕ
accumulate base i [] = i
accumulate base i (c ∷ cs) = accumulate base ((i * base % 2 ^ 64 + digit c) % 2 ^ 64) cs

abbrev pub check_error : Bool → ℕ → Message → M (Unit {0})
check_error bad sloc m = if bad then error sloc m else pure tt

module _ (content : Bytes) where
  -- `while ( digit( c ) < base ) { has_digit = true; _text.push_back( c ); c = next(); }`
  unfoldable pub digits_loop : ℕ → ℕ → Bool → ℕ → M (Bool × ℕ)
  digits_loop zero base has c = λ _. fault
  digits_loop (suc fuel) base has c =
      let rest = (do push c; c' ← next content 1; digits_loop fuel base true c') in
      if ltb (digit c) base then rest else pure (has, c)

  abbrev pub digits : ℕ → Bool → ℕ → M (Bool × ℕ)
  digits = digits_loop (length (text content))

  -- The prefix of a literal that begins with a zero; `p` is the character behind the zero.
  unfoldable pub number_letter : ℕ → ℕ → M ℕ
  number_letter sloc p =
      if p == b'b'
      then next content 2 >>= (λ _. pure 2)
      else if p == b'o'
      then next content 2 >>= (λ _. pure 8)
      else if p == b'x'
      then next content 2 >>= (λ _. pure 16)
      else if within b'0' b'9' p
      then error sloc octal_literal >> pure 10
      else pure 10

  unfoldable pub number_base : ℕ → M ℕ
  number_base sloc = do
    z ← peek_is content 0 b'0'
    if z then peek content 1 >>= number_letter sloc else pure 10

  -- The part behind the point; the flag says whether the literal is a real number.
  unfoldable pub fraction : ℕ → Bool → ℕ → M (Bool × Bool × ℕ)
  fraction base has c =
      if (base == 10 || base == 16) && c == b'.'
      then (do push c; c' ← next content 1; r ← digits base has c'; pure (true, r.0, r.1))
      else pure (false, has, c)

  unfoldable pub exponent_sign : ℕ → M ℕ
  exponent_sign c = if c == b'+' || c == b'-' then (do push c; next content 1) else pure c

  unfoldable pub exponent : ℕ → ℕ → Bool → ℕ → M (Bool × ℕ)
  exponent sloc base real c =
      if base == 10 && c == b'e' || base == 16 && c == b'p'
      then (do
        push c
        a ← next content 1
        d ← exponent_sign a
        check_error (leb 10 (digit d)) sloc missing_exponent
        r ← digits 10 false d
        pure (true, r.1))
      else pure (real, c)

  abbrev pub number_payload : ℕ → Bool → Bytes → Payload
  number_payload base real t =
      if real
      then Payload.real (if base == 16 then b'0' ∷ b'x' ∷ t else t)
      else Payload.integer (accumulate base 0 t)

  -- `lexer::lex_number`
  unfoldable pub lex_number : M Token
  lex_number = do
    sloc ← get_index
    base ← number_base sloc
    c ← peek content 0
    d ← digits base false c
    f ← fraction base d.0 d.1
    check_error (if f.1 then false else true) sloc no_digits
    e ← exponent sloc base f.0 f.2
    i ← get_index
    check_error (ltb (digit e.1) int_max) i invalid_suffix
    t ← get_buffer
    clear_buffer
    pure (record { kind = Kind.number; sloc = srcloc sloc; payload = number_payload base e.0 t })

  -- `lexer::string_hex`; `( *x << 4 ) | d` is a sum, since the bits do not overlap.
  unfoldable pub string_hex : ℕ → ℕ → ℕ → M (ℕ × ℕ)
  string_hex zero c x = pure (x, c)
  string_hex (suc count) c x =
      let rest = (do c' ← next content 1; string_hex count c' ((x * 16 + digit c) % 2 ^ 32)) in
      if ltb (digit c) 16 then rest else (do i ← get_index; error i invalid_hex; pure (x, c))
