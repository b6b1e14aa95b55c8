-- ===== src/Lexer.antt =====
-- The lexer, source/compiler/lexer.cpp.
pub mod Token
pub mod Spelling
pub mod State
pub mod Number
pub mod Text
pub mod Keywords
pub mod Lex
pub mod Advance
pub mod Safe
pub mod Utf8
pub mod Value
mod Tests
