-- ===== src/Lexer/Token.antt =====
-- The tokens of source/compiler/lexer.h and the kinds that source/compiler/grammar.lemon names.
use kenaf.Base.{ℕ, List}

abbrev pub Bytes : Type 0
Bytes = List ℕ

pub data Kind : Type 0 where
  eof null_literal false_literal true_literal number string identifier : Kind
  hash minus plus tilde asterisk solidus int_div percent lshift rshift ashift : Kind
  ampersand caret vbar eq_eq not_eq less less_eq greater greater_eq assign : Kind
  mul_assign div_assign int_div_assign mod_assign add_assign sub_assign concat_assign : Kind
  lshift_assign rshift_assign ashift_assign bitand_assign bitxor_assign bitor_assign : Kind
  lpn rpn lsq rsq comma period ellipsis colon semicolon : Kind
  kw_and kw_break kw_continue kw_def kw_do kw_elif kw_else kw_end kw_for kw_if kw_is kw_not : Kind
  kw_or kw_repeat kw_return kw_then kw_throw kw_until kw_var kw_while kw_yield : Kind

-- The union of a token. `slice` is a pointer into the source text and a size, `copied` a string of
-- the source object. A number is kept as it stands before it becomes a `double`: the text that
-- `strtod` is given, or the `uintmax_t`.
pub data Payload : Type 0 where
  slice : ℕ → ℕ → Payload
  copied : Bytes → Payload
  real : Bytes → Payload
  integer : ℕ → Payload

pub record Token : Type 0 where
  pub kind : Kind
  pub sloc : ℕ
  pub payload : Payload

-- The diagnostics of the lexer.
pub data Message : Type 0 where
  unterminated_comment unexpected_character octal_literal no_digits missing_exponent : Message
  invalid_suffix unicode_form invalid_escape newline_in_string eof_in_string : Message
  invalid_hex invalid_codepoint : Message
