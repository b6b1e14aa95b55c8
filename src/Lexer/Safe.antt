-- ===== src/Lexer/Safe.antt =====
-- Every function of the lexer returns, reads within the source text, fails no assertion and
-- leaves a good state.
pub mod Numbers
pub mod Strings
pub mod Rounds
pub mod Lexing
pub mod Total
