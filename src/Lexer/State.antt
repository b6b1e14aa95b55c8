-- ===== src/Lexer/State.antt =====
-- The state of the lexer, source/compiler/lexer.cpp, and its reads of the source text. A read past
-- the text is the failed assertion of `peek`.
use kenaf.Base.{
  ℕ, ◌+◌, ◌%◌, Bool, false, List, [], ◌∷◌, ◌++◌, Run, ok, fault, ltb, leb, ◌==◌, if◌then◌else◌,
  length, get_or, replicate,
}
use kenaf.Lexer.Token.{Bytes, Message}

-- `buffer` is `_text`; `newlines` and `strings` are those of the source object, `errors` the
-- diagnostics of the report, in the order in which they are added.
pub record Lexer : Type 0 where
  pub index : ℕ
  pub buffer : Bytes
  pub newlines : List ℕ
  pub strings : List Bytes
  pub errors : List (ℕ × Message)

abbrev pub M : Type 0 → Type 0
M A = Lexer → Run (A × Lexer)

abbrev pub pure : {A : Type 0} → A → M A
pure a s = ok (a, s)

module _ {A B : Type 0} where
  abbrev pub and_then : Run (A × Lexer) → (A → M B) → Run (B × Lexer)
  and_then (ok r) k = k r.0 r.1
  and_then (Run.raise e) k = Run.raise e
  and_then fault k = fault

  infixl 5 ◌>>=◌
  abbrev pub ◌>>=◌ : M A → (A → M B) → M B
  ◌>>=◌ m f s = and_then (m s) f

infixl 5 ◌>>◌
abbrev pub ◌>>◌ : {B : Type 0} → M (Unit {0}) → M B → M B
m >> k = m >>= λ _. k

-- `&&` between two tests that read the text.
infixr 35 ◌and_also◌
abbrev pub ◌and_also◌ : M Bool → M Bool → M Bool
m and_also k = m >>= λ b. if b then k else pure false

-- `SOURCE_LOOKAHEAD`
abbrev pub source_lookahead : ℕ
source_lookahead = 4

abbrev pub last_or : List ℕ → ℕ → ℕ
last_or [] d = d
last_or (x ∷ xs) d = last_or xs x

-- `index` and `eof`
abbrev pub get_index : M ℕ
get_index s = ok (s.index, s)

abbrev pub get_buffer : M Bytes
get_buffer s = ok (s.buffer, s)

-- `_text.push_back( c )`, and `_text.clear()`
abbrev pub push : ℕ → M (Unit {0})
push c s = ok (tt, record s { buffer = s.buffer ++ c ∷ [] })

abbrev pub clear_buffer : M (Unit {0})
clear_buffer s = ok (tt, record s { buffer = [] })

-- `srcloc`, which has 32 bits; the lexer keeps positions in a `size_t` and gives them as such.
abbrev pub srcloc : ℕ → ℕ
srcloc n = n % 4294967296

-- `_report->error`
abbrev pub error : ℕ → Message → M (Unit {0})
error sloc m s = ok (tt, record s { errors = s.errors ++ (srcloc sloc, m) ∷ [] })

-- `source::new_string`
abbrev pub new_string : Bytes → M (Unit {0})
new_string text s = ok (tt, record s { strings = s.strings ++ text ∷ [] })

-- `source::newline`, with its assertion
unfoldable pub source_newline : ℕ → M (Unit {0})
source_newline sloc s =
    if leb (last_or s.newlines 0) (srcloc sloc)
    then ok (tt, record s { newlines = s.newlines ++ srcloc sloc ∷ [] })
    else fault

module _ (content : Bytes) where
  -- `source::text`: the script and the null characters behind it
  abbrev pub text : Bytes
  text = content ++ replicate source_lookahead 0

  -- `lexer::peek`
  unfoldable pub peek : ℕ → M ℕ
  peek i s = if ltb (s.index + i) (length text) then ok (get_or text (s.index + i) 0, s) else fault

  -- `peek( i ) == c`
  abbrev pub peek_is : ℕ → ℕ → M Bool
  peek_is i c = peek i >>= λ b. pure (b == c)

  -- `lexer::next`
  unfoldable pub next : ℕ → M ℕ
  unfolding peek
  next count s = peek 0 (record s { index = s.index + count })

  -- `lexer::eof`
  abbrev pub eof : M Bool
  eof s = ok (leb (length content) s.index, s)

  -- `lexer::newline`
  unfoldable pub newline : M ℕ
  unfolding next source_newline
  newline = do
    crlf ← peek_is 0 b'\r' and_also peek_is 1 b'\n'
    c ← if crlf then next 2 else next 1
    i ← get_index
    source_newline i
    pure c
