-- ===== src/Lexer/Keywords.antt =====
-- Identifiers: `lexer::lex_identifier` with its table of keywords.
pub mod Search
use Prim.Native.String.{String}
use Prim.Native.Char.{code}
use kenaf.Base.{
  ℕ, zero, suc, ◌-◌, Bool, true, false, List, [], ◌∷◌, ◌&&◌, ◌||◌, fault, ltb, leb, ◌==◌,
  if◌then◌else◌, length, take, drop,
}
use kenaf.Lexer.Token.{Bytes, Token, Kind, Payload}
use kenaf.Lexer.State.{M, pure, ◌>>=◌, get_index, srcloc, peek, next, text}
use kenaf.Lexer.Number.{within}

abbrev pub codes : String → Bytes
codes String.[] = []
codes (String.◌∷◌ c s) = code c ∷ codes s

-- `==` and `<` of `std::string_view`
unfoldable pub text_eq : Bytes → Bytes → Bool
text_eq [] [] = true
text_eq [] (b ∷ bs) = false
text_eq (a ∷ as') [] = false
text_eq (a ∷ as') (b ∷ bs) = a == b && text_eq as' bs

unfoldable pub text_lt : Bytes → Bytes → Bool
text_lt [] [] = false
text_lt [] (b ∷ bs) = true
text_lt (a ∷ as') [] = false
text_lt (a ∷ as') (b ∷ bs) = ltb a b || (a == b && text_lt as' bs)

pub record Keyword : Type 0 where
  pub text : Bytes
  pub kind : Kind

abbrev pub keyword : Bytes → Kind → Keyword
keyword t k = record { text = t; kind = k }

-- `KEYWORDS`
abbrev pub keywords : List Keyword
keywords =
    keyword (codes "and") Kind.kw_and
    ∷ keyword (codes "break") Kind.kw_break
    ∷ keyword (codes "continue") Kind.kw_continue
    ∷ keyword (codes "def") Kind.kw_def
    ∷ keyword (codes "do") Kind.kw_do
    ∷ keyword (codes "elif") Kind.kw_elif
    ∷ keyword (codes "else") Kind.kw_else
    ∷ keyword (codes "end") Kind.kw_end
    ∷ keyword (codes "false") Kind.false_literal
    ∷ keyword (codes "for") Kind.kw_for
    ∷ keyword (codes "if") Kind.kw_if
    ∷ keyword (codes "is") Kind.kw_is
    ∷ keyword (codes "not") Kind.kw_not
    ∷ keyword (codes "null") Kind.null_literal
    ∷ keyword (codes "or") Kind.kw_or
    ∷ keyword (codes "repeat") Kind.kw_repeat
    ∷ keyword (codes "return") Kind.kw_return
    ∷ keyword (codes "then") Kind.kw_then
    ∷ keyword (codes "throw") Kind.kw_throw
    ∷ keyword (codes "true") Kind.true_literal
    ∷ keyword (codes "until") Kind.kw_until
    ∷ keyword (codes "var") Kind.kw_var
    ∷ keyword (codes "while") Kind.kw_while
    ∷ keyword (codes "yield") Kind.kw_yield
    ∷ []

-- `std::lower_bound` by `kw.text < text`, and the comparison of the entry that it finds.
unfoldable pub find_keyword : List Keyword → Bytes → Kind
find_keyword [] t = Kind.identifier
find_keyword (k ∷ ks) t =
    if text_lt k.text t
    then find_keyword ks t
    else if text_eq k.text t
    then k.kind
    else Kind.identifier

unfoldable pub is_identifier_char : ℕ → Bool
is_identifier_char c = within b'A' b'Z' c || within b'a' b'z' c || within b'0' b'9' c || c == b'_'

module _ (content : Bytes) where
  unfoldable pub identifier_loop : ℕ → ℕ → M ℕ
  identifier_loop zero c = λ _. fault
  identifier_loop (suc fuel) c =
      let rest = next content 1 >>= identifier_loop fuel in
      if is_identifier_char c then rest else pure c

  -- `lexer::lex_identifier`
  unfoldable pub lex_identifier : M Token
  lex_identifier = do
    sloc ← get_index
    c ← peek content 0
    identifier_loop (length (text content)) c >>= (λ _. do
      i ← get_index
      let t = take (i - sloc) (drop sloc (text content))
      pure (record {
        kind = find_keyword keywords t;
        sloc = srcloc sloc;
        payload = Payload.slice sloc (i - sloc);
      }))
