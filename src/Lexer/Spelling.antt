-- ===== src/Lexer/Spelling.antt =====
-- `spelling` of source/compiler/lexer.cpp: how a token is named in a message.
use kenaf.Base.{Option, none, some, [], ◌++◌, Run, ok, fault, take, drop}
use kenaf.Lexer.Token.{Bytes, Kind, Payload, Token}
use kenaf.Lexer.Token.Kind.{
  eof, number, string, null_literal, false_literal, true_literal, identifier, hash, minus, plus,
  tilde, asterisk, solidus, int_div, percent, lshift, rshift, ashift, ampersand, caret, vbar, eq_eq,
  not_eq, less, less_eq, greater, greater_eq, assign, mul_assign, div_assign, int_div_assign,
  mod_assign, add_assign, sub_assign, concat_assign, lshift_assign, rshift_assign, ashift_assign,
  bitand_assign, bitxor_assign, bitor_assign, kw_is, kw_not, kw_and, kw_or, kw_def, kw_yield,
  kw_end, kw_var, kw_throw, kw_do, kw_if, kw_then, kw_elif, kw_else, kw_for, kw_while, kw_repeat,
  kw_until, kw_return, kw_break, kw_continue,
}
use kenaf.Lexer.Keywords.{codes}

-- The kinds whose text is not shown
unfoldable pub fixed_spelling : Kind → Option Bytes
fixed_spelling eof = some (codes "end of file")
fixed_spelling number = some (codes "number literal")
fixed_spelling string = some (codes "string literal")
fixed_spelling _ = none

-- The word in front of the text
unfoldable pub prefix : Kind → Bytes
prefix null_literal = codes "value "
prefix false_literal = codes "value "
prefix true_literal = codes "value "
prefix identifier = codes "identifier "
prefix hash = codes "operator "
prefix minus = codes "operator "
prefix plus = codes "operator "
prefix tilde = codes "operator "
prefix asterisk = codes "operator "
prefix solidus = codes "operator "
prefix int_div = codes "operator "
prefix percent = codes "operator "
prefix lshift = codes "operator "
prefix rshift = codes "operator "
prefix ashift = codes "operator "
prefix ampersand = codes "operator "
prefix caret = codes "operator "
prefix vbar = codes "operator "
prefix eq_eq = codes "operator "
prefix not_eq = codes "operator "
prefix less = codes "operator "
prefix less_eq = codes "operator "
prefix greater = codes "operator "
prefix greater_eq = codes "operator "
prefix assign = codes "operator "
prefix mul_assign = codes "operator "
prefix div_assign = codes "operator "
prefix int_div_assign = codes "operator "
prefix mod_assign = codes "operator "
prefix add_assign = codes "operator "
prefix sub_assign = codes "operator "
prefix concat_assign = codes "operator "
prefix lshift_assign = codes "operator "
prefix rshift_assign = codes "operator "
prefix ashift_assign = codes "operator "
prefix bitand_assign = codes "operator "
prefix bitxor_assign = codes "operator "
prefix bitor_assign = codes "operator "
prefix kw_is = codes "keyword "
prefix kw_not = codes "keyword "
prefix kw_and = codes "keyword "
prefix kw_or = codes "keyword "
prefix kw_def = codes "keyword "
prefix kw_yield = codes "keyword "
prefix kw_end = codes "keyword "
prefix kw_var = codes "keyword "
prefix kw_throw = codes "keyword "
prefix kw_do = codes "keyword "
prefix kw_if = codes "keyword "
prefix kw_then = codes "keyword "
prefix kw_elif = codes "keyword "
prefix kw_else = codes "keyword "
prefix kw_for = codes "keyword "
prefix kw_while = codes "keyword "
prefix kw_repeat = codes "keyword "
prefix kw_until = codes "keyword "
prefix kw_return = codes "keyword "
prefix kw_break = codes "keyword "
prefix kw_continue = codes "keyword "
prefix _ = []

-- `spelling`, where the slice is one of the source text
unfoldable pub spelling : Bytes → Token → Run Bytes
spelling content token = elim (fixed_spelling token.kind) [
  | some text ↦ ok text
  | none ↦ elim token.payload [
    | Payload.slice start size ↦
        ok (((prefix token.kind ++ codes "'") ++ take size (drop start content)) ++ codes "'")
    | _ ↦ fault
  ]
]
