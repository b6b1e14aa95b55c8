-- ===== src/EscapeString/Tests.antt =====
-- `escape_string` at a small input.
use kenaf.Base.{◌+◌, ◌≤◌, max, true, [], ◌∷◌, length, arith}
use kenaf.EscapeString.{escape_string}
use kenaf.EscapeString.Printable.{IsPrintable, escape_string-IsPrintable}
use kenaf.Lexer.State.{Lexer}
use kenaf.Lexer.Text.{lex_string}
use kenaf.EscapeString.Literal.{IsLiteral, lex_string-escape_string}

escape_string-IsPrintable_example :
    IsPrintable (escape_string true (65 ∷ 10 ∷ 200 ∷ []) 40)
    × (length (escape_string true (65 ∷ 10 ∷ 200 ∷ []) 40) ≤ max 40 2 + 12)
escape_string-IsPrintable_example = escape_string-IsPrintable true (65 ∷ 10 ∷ 200 ∷ []) 40

abbrev start : Lexer
start = record { index = 0; buffer = []; newlines = 0 ∷ []; strings = []; errors = [] }

lex_string-escape_string_example :
    IsLiteral
      (escape_string true (65 ∷ 10 ∷ 200 ∷ []) 40)
      (65 ∷ 10 ∷ 200 ∷ [])
      []
      (lex_string (escape_string true (65 ∷ 10 ∷ 200 ∷ []) 40) start)
lex_string-escape_string_example =
    lex_string-escape_string true (65 ∷ 10 ∷ 200 ∷ []) 40 start
      (omega arith, (omega arith, (omega arith, tt))) (omega arith)
