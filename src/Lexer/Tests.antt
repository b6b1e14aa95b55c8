-- ===== src/Lexer/Tests.antt =====
-- The lexer at small inputs.
use kenaf.Base.{some, ◌≡◌, arith, ℕ, zero, suc, List, [], ◌∷◌, Run}
use kenaf.Lexer.Token.{Bytes, Token}
use kenaf.Lexer.State.{Lexer, M, pure, ◌>>=◌}
use kenaf.Lexer.Keywords.{keywords, codes}
use kenaf.Lexer.State.{peek, next, newline, source_newline}
use kenaf.Lexer.Number.{
  digit, accumulate, digits_loop, number_letter, number_base, fraction, exponent_sign, exponent,
  lex_number, string_hex,
}
use kenaf.Lexer.Text.{
  utf8_bytes, string_utf8, simple_escape, long_escape, escape_switch, escape, string_loop,
  lex_string,
}
use kenaf.Lexer.Keywords.{
  text_eq, text_lt, find_keyword, is_identifier_char, identifier_loop, lex_identifier,
}
use kenaf.Lexer.Advance.{Ends, Good}
use kenaf.Lexer.Safe.Total.{Lexed, EndsWithEof, InOrder, lex-Lexed, parse_tokens-InOrder}
use kenaf.Lexer.Keywords.Search.{find_keyword-keywords, lookup_kind}
use kenaf.Lexer.Utf8.{decode, decode-utf8_bytes}
use kenaf.Lexer.Value.{IsDigit, Writes, accumulate-Writes}
use kenaf.Lexer.Lex.{
  parse_tokens, single_kind, assign_kinds, assign_token, operator, plain, line_comment,
  block_comment, lex_minus, lex_period, lex_solidus, lex_angle, lex_tilde, char_size_loop,
  utf8_size, lex_wide, lex_other, lex_switch, lex_char, lex_round, lex_loop, lex,
}

-- What a test of the whole lexer runs.
program : Unit {0}
unfolding peek next newline source_newline digit accumulate digits_loop number_letter number_base
    fraction exponent_sign exponent lex_number string_hex utf8_bytes string_utf8 simple_escape
    long_escape escape_switch escape string_loop lex_string text_eq text_lt find_keyword
    is_identifier_char identifier_loop lex_identifier single_kind assign_kinds assign_token operator
    plain line_comment block_comment lex_minus lex_period lex_solidus lex_angle lex_tilde
    char_size_loop utf8_size lex_wide lex_other lex_switch lex_char lex_round lex_loop lex
program = tt

abbrev script : Bytes
script = codes "x += 0x1F // 2.5 -- c\n \"a\\n\" if /* c */ é 0b101"

abbrev start : Lexer
start = record { index = 0; buffer = []; newlines = 0 ∷ []; strings = []; errors = [] }

start-Good : Good script start
start-Good = (omega arith, omega arith)

lex-Lexed_example : Ends (Lexed script 0) (lex script start)
lex-Lexed_example = lex-Lexed script start (omega arith) start-Good

parse_tokens-InOrder_example :
    Ends
      (λ ts s'. Good script s' × EndsWithEof script ts × InOrder script 0 ts)
      (parse_tokens script start)
parse_tokens-InOrder_example = parse_tokens-InOrder script start (omega arith) start-Good

find_keyword-keywords_example :
    find_keyword keywords (codes "elif") ≡ lookup_kind keywords (codes "elif")
find_keyword-keywords_example = find_keyword-keywords (codes "elif")

decode-utf8_bytes_example : decode (utf8_bytes 0x20AC) ≡ some 0x20AC
decode-utf8_bytes_example = decode-utf8_bytes 0x20AC

two_digits : Writes 16 (codes "1f") 31
two_digits =
    Writes.digit_before (IsDigit.decimal 1 (omega arith)) (omega arith)
      (Writes.digit_before (IsDigit.lower 5 (omega arith)) (omega arith) Writes.nothing)

accumulate-Writes_example : accumulate 16 0 (codes "1f") ≡ 31
accumulate-Writes_example = accumulate-Writes 16 31 (codes "1f") two_digits

lex_n : Bytes → ℕ → M (List Token)
unfolding lex
lex_n content zero = pure []
lex_n content (suc n) = do t ← lex content; ts ← lex_n content n; pure (t ∷ ts)

sample : Run (List Token × Lexer)
unfolding lex_n
sample = lex_n script 10 start
