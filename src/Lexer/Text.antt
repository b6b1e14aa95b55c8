-- ===== src/Lexer/Text.antt =====
-- String literals: `lexer::string_utf8` and `lexer::lex_string`.
use kenaf.Base.{
  ℕ, zero, suc, ◌+◌, ◌-◌, ◌/◌, ◌%◌, Bool, true, false, [], ◌∷◌, fault, leb, ◌==◌, ◌&&◌, ◌||◌,
  Option, none, some, if◌then◌else◌, length,
}
use kenaf.Lexer.Token.{
  Bytes, Token, Payload, Kind, unicode_form, invalid_escape, newline_in_string, eof_in_string,
  invalid_codepoint,
}
use kenaf.Lexer.State.{
  M, pure, ◌>>=◌, ◌>>◌, get_index, get_buffer, clear_buffer, push, srcloc, error, new_string,
  peek_is, next, newline, eof, text,
}
use kenaf.Lexer.Number.{string_hex}

-- The bytes that `string_utf8` appends for a code point up to U+10FFFF. The fields that the source
-- joins by `|` do not overlap, so that they are added here.
unfoldable pub utf8_bytes : ℕ → Bytes
utf8_bytes x =
    if leb x 0x7F
    then x ∷ []
    else if leb x 0x7FF
    then (0xC0 + x / 64 % 32) ∷ (0x80 + x % 64) ∷ []
    else if leb x 0xFFFF
    then (0xE0 + x / 4096 % 16) ∷ (0x80 + x / 64 % 64) ∷ (0x80 + x % 64) ∷ []
    else if leb x 0x10FFFF
    then (0xF0 + x / 262144 % 8)
      ∷ (0x80 + x / 4096 % 64)
      ∷ (0x80 + x / 64 % 64)
      ∷ (0x80 + x % 64)
      ∷ []
    else 0xEF ∷ 0xBF ∷ 0xBD ∷ []

abbrev pub push_all : Bytes → M (Unit {0})
push_all [] = pure tt
push_all (c ∷ cs) = do push c; push_all cs

-- `lexer::string_utf8`
unfoldable pub string_utf8 : ℕ → ℕ → M (Unit {0})
string_utf8 xloc x = do
  push_all (utf8_bytes x)
  if leb x 0x10FFFF then pure tt else error xloc invalid_codepoint

-- The escapes of one character, with what each stands for.
unfoldable pub simple_escape : ℕ → Option ℕ
simple_escape c =
    if c == b'"' || c == b'\\'
    then some c
    else if c == b'0'
    then some 0
    else if c == b'b'
    then some 8
    else if c == b'f'
    then some 12
    else if c == b'n'
    then some 10
    else if c == b'r'
    then some 13
    else if c == b't'
    then some 9
    else if c == b'v'
    then some 11
    else none

module _ (content : Bytes) where
  -- The escapes `\x`, `\u`, `\U+` and the errors; `c` is the character behind the backslash.
  unfoldable pub long_escape : ℕ → ℕ → M ℕ
  long_escape xloc c =
      if c == b'x'
      then (do d ← next content 1; r ← string_hex content 2 d 0; push (r.0 % 256); pure r.1)
      else if c == b'u'
      then (do d ← next content 1; r ← string_hex content 4 d 0; string_utf8 xloc r.0; pure r.1)
      else if c == b'U'
      then (do
        d ← next content 1
        if d == b'+'
            then (do
              e ← next content 1
              r ← string_hex content 6 e 0
              string_utf8 xloc r.0
              pure r.1)
            else (do error xloc unicode_form; push b'U'; pure d))
      else (do error xloc invalid_escape; push c; next content 1)

  -- The switch on the character behind a backslash.
  unfoldable pub escape_switch : ℕ → ℕ → M ℕ
  escape_switch xloc c = elim (simple_escape c) [
    | some x ↦ (do push x; next content 1)
    | none ↦ long_escape xloc c
  ]

  unfoldable pub escape : M ℕ
  escape = do xloc ← get_index; c ← next content 1; escape_switch xloc c

  -- The loop over the body of a string: the last character, and whether the string is exactly as
  -- it stands in the source text.
  unfoldable pub string_loop : ℕ → ℕ → ℕ → Bool → M (ℕ × Bool)
  string_loop zero sloc c source = λ _. fault
  string_loop (suc fuel) sloc c source =
      let after_escape = (do d ← escape; string_loop fuel sloc d false) in
      let after_newline = (do
        error sloc newline_in_string
        push b'\n'
        d ← newline content
        string_loop fuel sloc d false) in
      let after_char = (do push c; d ← next content 1; string_loop fuel sloc d source) in
      if c == b'"'
      then pure (c, source)
      else if c == b'\\'
      then after_escape
      else if c == b'\r' || c == b'\n'
      then after_newline
      else (do
        e ← eof content
        if c == 0 && e then (do error sloc eof_in_string; pure (c, source)) else after_char)

  -- `lexer::lex_string`
  unfoldable pub lex_string : M Token
  lex_string = do
    sloc ← get_index
    quote ← peek_is content 0 b'"'
    if quote then pure tt else (λ _. fault)
    c ← next content 1
    lower ← get_index
    r ← string_loop (length (text content)) sloc c true
    upper ← get_index
    if r.0 == b'"' then next content 1 >>= (λ _. pure tt) else pure tt
    t ← get_buffer
    if r.1 then pure tt else new_string t
    clear_buffer
    pure (record {
      kind = Kind.string;
      sloc = srcloc sloc;
      payload = if r.1 then Payload.slice lower (upper - lower) else Payload.copied t;
    })
