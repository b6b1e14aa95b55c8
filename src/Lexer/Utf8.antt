-- ===== src/Lexer/Utf8.antt =====
-- The encoding of code points in `lexer::string_utf8` of source/compiler/lexer.cpp.
use kenaf.Base.{
  ℕ, ◌+◌, ◌-◌, ◌*◌, ◌≡◌, Bool, ◌&&◌, ◌||◌, Option, none, some, [], ◌∷◌, leb, if◌then◌else◌, arith,
}
use kenaf.Lexer.Token.{Bytes}
use kenaf.Lexer.Text.{utf8_bytes}

abbrev is_tail : ℕ → Bool
is_tail b = leb 0x80 b && leb b 0xBF

-- The shortest form of each character and no other, up to U+10FFFF: the ranges of the leading byte and
-- of the byte behind it are those of RFC 3629, but for the surrogates, which have three bytes like
-- their neighbours.
unfoldable pub decode : Bytes → Option ℕ
decode (a ∷ []) = if leb a 0x7F then some a else none
decode (a ∷ b ∷ []) =
    if leb 0xC2 a && leb a 0xDF && is_tail b then some ((a - 0xC0) * 64 + (b - 0x80)) else none
decode (a ∷ b ∷ c ∷ []) =
    if leb 0xE0 a && leb a 0xEF && is_tail b && is_tail c && (leb 0xE1 a || leb 0xA0 b)
    then some ((a - 0xE0) * 4096 + (b - 0x80) * 64 + (c - 0x80))
    else none
decode (a ∷ b ∷ c ∷ d ∷ []) =
    if leb 0xF0 a
      && leb a 0xF4
      && is_tail b
      && is_tail c
      && is_tail d
      && (leb 0xF1 a || leb 0x90 b)
      && (leb a 0xF3 || leb b 0x8F)
    then some ((a - 0xF0) * 262144 + (b - 0x80) * 4096 + (c - 0x80) * 64 + (d - 0x80))
    else none
decode _ = none

-- The bytes that `string_utf8` appends for a number are the shortest UTF-8 form of the code point, and
-- that of the replacement character U+FFFD for a number past U+10FFFF.
pub decode-utf8_bytes :
    (x : ℕ) → decode (utf8_bytes x) ≡ some (if leb x 0x10FFFF then x else 0xFFFD)
unfolding decode utf8_bytes
decode-utf8_bytes x = ground arith
