-- ===== src/Lexer/Lex.antt =====
-- `lexer::lex` of source/compiler/lexer.cpp. The cases of its switch stand in groups: the tokens of
-- one character, those that an `=` may follow, and the others.
use Prim.Native.Nat.{bit_and}
use kenaf.Base.{
  ℕ, zero, suc, ◌+◌, ◌-◌, Bool, true, false, List, [], ◌∷◌, ◌&&◌, ◌||◌, Option, none, some, fault,
  leb, ◌==◌, if◌then◌else◌, length,
}
use kenaf.Lexer.Token.{Bytes, Token, Kind, Payload, unterminated_comment, unexpected_character}
use kenaf.Lexer.State.{
  M, pure, ◌>>=◌, ◌>>◌, ◌and_also◌, get_index, srcloc, error, peek, peek_is, next, newline, eof,
  text,
}
use kenaf.Lexer.Number.{within, lex_number}
use kenaf.Lexer.Text.{lex_string}
use kenaf.Lexer.Keywords.{lex_identifier}

-- `lexer::source_token`
abbrev pub source_token : Kind → ℕ → M Token
source_token kind sloc = do
  i ← get_index
  pure (record { kind = kind; sloc = srcloc sloc; payload = Payload.slice sloc (i - sloc) })

-- `return` of a token, and `continue`
abbrev pub give : M Token → M (Option Token)
give m = m >>= λ t. pure (some t)

unfoldable pub single_kind : ℕ → Option Kind
single_kind c =
    if c == b'#'
    then some Kind.hash
    else if c == b'('
    then some Kind.lpn
    else if c == b')'
    then some Kind.rpn
    else if c == b','
    then some Kind.comma
    else if c == b':'
    then some Kind.colon
    else if c == b';'
    then some Kind.semicolon
    else if c == b'['
    then some Kind.lsq
    else if c == b']'
    then some Kind.rsq
    else none

-- The kinds without and with an `=` behind the character.
unfoldable pub assign_kinds : ℕ → Option (Kind × Kind)
assign_kinds c =
    if c == b'%'
    then some (Kind.percent, Kind.mod_assign)
    else if c == b'&'
    then some (Kind.ampersand, Kind.bitand_assign)
    else if c == b'*'
    then some (Kind.asterisk, Kind.mul_assign)
    else if c == b'+'
    then some (Kind.plus, Kind.add_assign)
    else if c == b'='
    then some (Kind.assign, Kind.eq_eq)
    else if c == b'^'
    then some (Kind.caret, Kind.bitxor_assign)
    else if c == b'|'
    then some (Kind.vbar, Kind.bitor_assign)
    else none

unfoldable pub utf8_size : ℕ → ℕ
utf8_size c =
    if bit_and c 0xF8 == 0xF0
    then 4
    else if bit_and c 0xF0 == 0xE0
    then 3
    else if bit_and c 0xE0 == 0xC0
    then 2
    else 1

unfoldable pub is_eof : Kind → Bool
is_eof Kind.eof = true
is_eof _ = false

-- `return`, or another round.
abbrev pub or_continue : M Token → Option Token → M Token
or_continue rest none = rest
or_continue rest (some t) = pure t

module _ (content : Bytes) where
  -- `lexer::assign_token`
  unfoldable pub assign_token : Kind → Kind → ℕ → M Token
  assign_token normal assigned sloc = do
    e ← peek_is content 0 b'='
    if e then next content 1 >>= (λ _. source_token assigned sloc) else source_token normal sloc

  -- `next( count ); return assign_token( … )`
  unfoldable pub operator : ℕ → Kind → Kind → ℕ → M (Option Token)
  operator count normal assigned sloc =
      next content count >>= (λ _. give (assign_token normal assigned sloc))

  unfoldable pub plain : ℕ → Kind → ℕ → M (Option Token)
  plain count kind sloc = next content count >>= (λ _. give (source_token kind sloc))

  unfoldable pub line_comment : ℕ → ℕ → M (Unit {0})
  line_comment zero c = λ _. fault
  line_comment (suc fuel) c =
      let rest = next content 1 >>= line_comment fuel in
      do e ← eof content; if c == b'\r' || c == b'\n' || (c == 0 && e) then pure tt else rest

  -- `peek( 0 ) != '*' || peek( 1 ) != '/'`, negated
  abbrev pub comment_end : M Bool
  comment_end = peek_is content 0 b'*' and_also peek_is content 1 b'/'

  unfoldable pub block_comment : ℕ → ℕ → ℕ → M ℕ
  block_comment zero sloc c = λ _. fault
  block_comment (suc fuel) sloc c =
      let after_newline = newline content >>= block_comment fuel sloc in
      let after_char = next content 1 >>= block_comment fuel sloc in
      do
        done ← comment_end
        if done then pure c else do
          e ← eof content
          if c == 0 && e
              then (do error sloc unterminated_comment; pure c)
              else if c == b'\r' || c == b'\n'
              then after_newline
              else after_char

  unfoldable pub lex_minus : ℕ → M (Option Token)
  lex_minus sloc = do
    second ← peek_is content 1 b'-'
    if second
        then (do c ← next content 2; line_comment (length (text content)) c; pure none)
        else operator 1 Kind.minus Kind.sub_assign sloc

  unfoldable pub lex_period : ℕ → M (Option Token)
  lex_period sloc = do
    dots ← peek_is content 1 b'.' and_also peek_is content 2 b'.'
    if dots then plain 3 Kind.ellipsis sloc else do
      d ← peek content 1
      if within b'0' b'9' d then give (lex_number content) else plain 1 Kind.period sloc

  unfoldable pub lex_solidus : ℕ → M (Option Token)
  lex_solidus sloc = do
    star ← peek_is content 1 b'*'
    if star
        then (do
          c ← next content 2
          d ← block_comment (length (text content)) sloc c
          if d == 0 then pure none else next content 2 >>= (λ _. pure none))
        else do
          slash ← peek_is content 1 b'/'
          if slash
              then operator 2 Kind.int_div Kind.int_div_assign sloc
              else operator 1 Kind.solidus Kind.div_assign sloc

  unfoldable pub lex_angle : ℕ → Kind → Kind → Kind → Kind → ℕ → M (Option Token)
  lex_angle c shift shift_assign normal normal_eq sloc = do
    twice ← peek_is content 1 c
    if twice then operator 2 shift shift_assign sloc else operator 1 normal normal_eq sloc

  unfoldable pub lex_tilde : ℕ → M (Option Token)
  lex_tilde sloc = do
    arrows ← peek_is content 1 b'>' and_also peek_is content 2 b'>'
    if arrows
        then operator 3 Kind.ashift Kind.ashift_assign sloc
        else operator 1 Kind.tilde Kind.concat_assign sloc

  -- `while ( char_size < utf8_size && ( peek( char_size ) & 0xC0 ) == 0x80 )`; `left` is
  -- `utf8_size - char_size`.
  unfoldable pub char_size_loop : ℕ → ℕ → M ℕ
  char_size_loop zero size = pure size
  char_size_loop (suc left) size =
      let rest = char_size_loop left (size + 1) in
      do b ← peek content size; if bit_and b 0xC0 == 0x80 then rest else pure size

  -- A character of UTF-8: the whole of it is skipped, if all its bytes are there.
  unfoldable pub lex_wide : ℕ → ℕ → M (Option Token)
  lex_wide c sloc = do
    size ← char_size_loop (utf8_size c - 1) 1
    error sloc unexpected_character
    if size == utf8_size c
        then next content size >>= (λ _. pure none)
        else next content 1 >>= (λ _. pure none)

  -- What follows the switch.
  unfoldable pub lex_other : ℕ → ℕ → M (Option Token)
  lex_other c sloc =
      if within b'0' b'9' c
      then give (lex_number content)
      else if within b'A' b'Z' c || within b'a' b'z' c || c == b'_'
      then give (lex_identifier content)
      else if within 0x20 0x7E c
      then (do error sloc unexpected_character; next content 1 >>= (λ _. pure none))
      else if leb 0x80 c
      then lex_wide c sloc
      else (do error sloc unexpected_character; next content 1 >>= (λ _. pure none))

  -- The cases of the switch that are left.
  unfoldable pub lex_switch : ℕ → ℕ → M (Option Token)
  lex_switch c sloc =
      if c == b' ' || c == b'\t'
      then next content 1 >>= (λ _. pure none)
      else if c == b'\r' || c == b'\n'
      then newline content >>= (λ _. pure none)
      else if c == b'!'
      then (do e ← peek_is content 1 b'='; if e then plain 2 Kind.not_eq sloc else lex_other c sloc)
      else if c == b'"'
      then give (lex_string content)
      else if c == b'-'
      then lex_minus sloc
      else if c == b'.'
      then lex_period sloc
      else if c == b'/'
      then lex_solidus sloc
      else if c == b'<'
      then lex_angle c Kind.lshift Kind.lshift_assign Kind.less Kind.less_eq sloc
      else if c == b'>'
      then lex_angle c Kind.rshift Kind.rshift_assign Kind.greater Kind.greater_eq sloc
      else if c == b'~'
      then lex_tilde sloc
      else if c == 0
      then (do e ← eof content; if e then give (source_token Kind.eof sloc) else lex_other c sloc)
      else lex_other c sloc

  -- The switch on the next character.
  unfoldable pub lex_char : ℕ → ℕ → M (Option Token)
  lex_char sloc c = elim (single_kind c) [
    | some k ↦ plain 1 k sloc
    | none ↦ elim (assign_kinds c) [ some k ↦ operator 1 k.0 k.1 sloc | none ↦ lex_switch c sloc ]
  ]

  -- One round of the loop of `lex`: `none` is `continue`.
  unfoldable pub lex_round : M (Option Token)
  lex_round = do sloc ← get_index; c ← peek content 0; lex_char sloc c

  unfoldable pub lex_loop : ℕ → M Token
  lex_loop zero = λ _. fault
  lex_loop (suc fuel) = let rest = lex_loop fuel in lex_round >>= or_continue rest

  -- `lexer::lex`
  unfoldable pub lex : M Token
  lex = lex_loop (length (text content))

  unfoldable pub parse_loop : ℕ → M (List Token)
  parse_loop zero = λ _. fault
  parse_loop (suc fuel) = do
    t ← lex
    if is_eof t.kind then pure (t ∷ []) else parse_loop fuel >>= (λ ts. pure (t ∷ ts))

  -- The loop of `parser::parse` of source/compiler/parser.cpp: the tokens that the grammar is given.
  unfoldable pub parse_tokens : M (List Token)
  parse_tokens = parse_loop (length (text content))
