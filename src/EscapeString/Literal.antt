-- ===== src/EscapeString/Literal.antt =====
-- The text of `escape_string`, source/common/escape_string.cpp, as the script that
-- `lexer::lex_string` of source/compiler/lexer.cpp reads.
use mathlib.Core.List.{append_assoc, append-nil}
use kenaf.Base.{
  ℕ, zero, suc, ◌+◌, ◌-◌, ◌*◌, ◌<◌, ◌≡◌, refl, sym, ◌∙◌, ap, inl, inr, Bool, true, false, ◌&&◌,
  ◌||◌, List, [], ◌∷◌, ◌++◌, Run, ok, leb, ◌==◌, arith, length, take, drop, Bool-cases,
  length-append,
}
use kenaf.Lexer.Token.{Bytes, Token, Kind, Payload, Message}
use kenaf.Lexer.State.{Lexer, text as text_of}
use kenaf.Lexer.Number.{digit}
use kenaf.Lexer.Text.{string_loop, lex_string}
use kenaf.Lexer.Advance.{byte, peek-byte, next-byte, length-text}
use kenaf.EscapeString.{escape_string}
use kenaf.EscapeString.Reading.{
  AllBelow, limit, escape_string-Reads, Reads, closed, plain, letter, two_digits,
}
use kenaf.EscapeString.Escapes.{Shows, Shows-tail, step, escape-letter, escape-two_digits}

module _ (content : Bytes) where
  -- The run ends at the closing quote, with the string behind what the buffer held; if it still takes
  -- the string for one that stands in the script as it is, it does.
  abbrev pub Read : Bool → Lexer → Bytes → Bytes → Run ((ℕ × Bool) × Lexer) → Type 0
  Read source s t text r =
      (k : ℕ) × (same : Bool) × (k + 1 ≡ s.index + length t)
      × (r ≡ ok ((b'"', same), record s { index = k; buffer = s.buffer ++ text }))
      × (same ≡ true → (source ≡ true) × (t ≡ text ++ b'"' ∷ []))

  -- What is read behind one character of the string, as what is read with it
  Read-cons :
      (source source' : Bool) (s : Lexer) (i c : ℕ) (t t' text : Bytes)
      (r : Run ((ℕ × Bool) × Lexer))
      → i + length t' ≡ s.index + length t
      → (source' ≡ true → (source ≡ true) × (t ≡ c ∷ t'))
      → Read source' (record s { index = i; buffer = s.buffer ++ c ∷ [] }) t' text r
      → Read source s t (c ∷ text) r
  Read-cons source source' s i c t t' text r size keeps (k, same, e, run, cond) = (
    k,
    same,
    omega arith,
    run
        ∙ ap (λ (b : Bytes). ok ((b'"', same), record s { index = k; buffer = b }))
            (append_assoc s.buffer (c ∷ []) text),
    λ h.
        let (h', e') = cond h in
        let (h'', e'') = keeps h' in (h'', e'' ∙ ap (λ (x : Bytes). c ∷ x) e'),
  )

  string_loop-Reads :
      (fuel sloc : ℕ) (source : Bool) (s : Lexer) (c : ℕ) (t text : Bytes)
      → Reads (c ∷ t) text
      → Shows content s.index (c ∷ t)
      → length t < fuel
      → Read source s (c ∷ t) text (string_loop content fuel sloc c source s)
  unfolding string_loop
  string_loop-Reads zero sloc source s c t text reads shows enough = absurd (omega arith)
  string_loop-Reads (suc fuel) sloc source s c t text closed shows enough = (
    s.index,
    source,
    omega arith,
    ap (λ (b : Bytes). ok ((b'"', source), record s { buffer = b })) (sym (append-nil s.buffer)),
    λ h. (h, refl),
  )
  string_loop-Reads (suc fuel) sloc source s c [] text (plain lo quote slash r) shows enough =
      elim r [ ]
  string_loop-Reads (suc fuel) sloc source s c (d ∷ t) (_ ∷ text) (plain lo quote slash r) shows
        enough =
      let no_quote : (c == b'"') ≡ false = ground arith in
      let no_slash : (c == b'\\') ≡ false = ground arith in
      let no_line : (c == b'\r' || c == b'\n') ≡ false = ground arith in
      let no_end : (c == 0 && leb (length content) s.index) ≡ false = ground arith in
      rw
        (
          no_quote,
          no_slash,
          no_line,
          no_end,
          step content (record s { buffer = s.buffer ++ c ∷ [] }) c d t shows,
        )
        (Read-cons source source s (s.index + 1) c (c ∷ d ∷ t) (d ∷ t) text _ (omega arith)
          (λ h. (h, refl))
          (string_loop-Reads fuel sloc source
            (record s { index = s.index + 1; buffer = s.buffer ++ c ∷ [] }) d t text r
            (Shows-tail content s.index c (d ∷ t) shows) (omega arith)))
  string_loop-Reads (suc fuel) sloc source s c (l ∷ []) text (letter e r) shows enough = elim r [ ]
  string_loop-Reads (suc fuel) sloc source s c (l ∷ d ∷ t) (x ∷ text) (letter e r) shows enough =
      rw (escape-letter content s l x d t e shows) (
        Read-cons source false s (s.index + 1 + 1) x (c ∷ l ∷ d ∷ t) (d ∷ t) text _ (omega arith)
          (λ h. cc)
          (string_loop-Reads fuel sloc false
            (record s { index = s.index + 1 + 1; buffer = s.buffer ++ x ∷ [] }) d t text r
            (Shows-tail content (s.index + 1) l (d ∷ t)
              (Shows-tail content s.index c (l ∷ d ∷ t) shows))
            (omega arith)))
  string_loop-Reads (suc fuel) sloc source s c (_ ∷ h ∷ l ∷ []) text (two_digits a b r) shows
        enough =
      elim r [ ]
  string_loop-Reads (suc fuel) sloc source s c (x ∷ h ∷ l ∷ d ∷ t) (_ ∷ text) (two_digits a b r)
        shows enough =
      rw (escape-two_digits content s h l d t a b shows) (
        Read-cons source false s (s.index + 1 + 1 + 1 + 1) _ (c ∷ x ∷ h ∷ l ∷ d ∷ t) (d ∷ t) text _
          (omega arith) (λ h. cc)
          (string_loop-Reads fuel sloc false
            (record s {
              index = s.index + 1 + 1 + 1 + 1;
              buffer = s.buffer ++ (digit h * 16 + digit l) ∷ [];
            })
            d t text r
            (Shows-tail content (s.index + 1 + 1 + 1) l (d ∷ t) (
              Shows-tail content (s.index + 1 + 1) h (l ∷ d ∷ t) (
                Shows-tail content (s.index + 1) _ (h ∷ l ∷ d ∷ t)
                  (Shows-tail content s.index c (x ∷ h ∷ l ∷ d ∷ t) shows))))
            (omega arith)))

-- The string that a token stands for, a part of the script or one of its own
abbrev pub spelled : Bytes → Payload → Bytes
spelled content (Payload.slice lower size) = take size (drop lower content)
spelled content (Payload.copied text) = text
spelled content _ = []

take-length : (xs ys : Bytes) → take (length xs) (xs ++ ys) ≡ xs
take-length [] ys = refl
take-length (x ∷ xs) ys = ap (λ (zs : Bytes). x ∷ zs) (take-length xs ys)

-- The token is a string with the text, read to the end of the script, with no diagnostic.
abbrev pub IsLiteral : Bytes → Bytes → List (ℕ × Message) → Run (Token × Lexer) → Type 0
IsLiteral content text errors r =
    (token : Token) × (s : Lexer) × (r ≡ ok (token, s))
    × (token.kind ≡ Kind.string)
    × (spelled content token.payload ≡ text)
    × (s.index ≡ length content)
    × (s.errors ≡ errors)

lex_string-Reads :
    (s : Lexer) (d : ℕ) (t text : Bytes)
    → Reads (d ∷ t) text
    → IsLiteral
        (b'"' ∷ d ∷ t)
        text
        s.errors
        (lex_string (b'"' ∷ d ∷ t) (record s { index = 0; buffer = [] }))
unfolding lex_string
lex_string-Reads s d t text reads =
    let content : Bytes = b'"' ∷ d ∷ t in
    let start : Lexer = record s { index = 0; buffer = [] } in
    let shows : Shows content 0 content = (omega arith, λ j h. ap (byte content) (omega arith)) in
    let (k, same, size, run, keeps) =
      string_loop-Reads content (length (text_of content)) 0 true
        (record s { index = 1; buffer = [] }) d t text reads (Shows-tail content 0 _ (d ∷ t) shows)
        (omega (arith, length-text content)) in
    let last = next-byte content 1 (record s { index = k; buffer = text }) (omega arith) in
    rw (peek-byte content 0 start (omega arith), step content start _ d t shows, run, last)
      (elim (Bool-cases same) [
        | inl e ↦
            let (_, whole) = keeps e in
            let size' : k - 1 ≡ length text =
              omega (arith, ap (λ (x : Bytes). length x) whole, length-append text (b'"' ∷ [])) in
            let spelling : take (k - 1) (d ∷ t) ≡ text =
              ap (λ (n : ℕ). take n (d ∷ t)) size'
              ∙ ap (λ (x : Bytes). take (length text) x) whole
              ∙ take-length text (b'"' ∷ []) in
            rw e (_, _, refl, refl, spelling, omega arith, refl)
        | inr e ↦ rw e (_, _, refl, refl, refl, omega arith, refl)
      ])

-- What `escape_string` returns is read back by the lexer: if the string is short enough not to be
-- cut, and its bytes are below 128, or `char` is signed, then `lex_string`, at the start of a script
-- that is the text of `escape_string` and with an empty buffer, returns a string token that stands
-- for that string, goes to the end of the script, and adds no diagnostic.
pub lex_string-escape_string :
    (signed : Bool) (text : Bytes) (max_length : ℕ) (s : Lexer)
    → AllBelow (limit signed) text
    → 1 + 4 * length text < max_length
    → IsLiteral
        (escape_string signed text max_length)
        text
        s.errors
        (lex_string (escape_string signed text max_length) (record s { index = 0; buffer = [] }))
lex_string-escape_string signed text max_length s below room =
    let (t, whole, reads) = escape_string-Reads signed text max_length below room in
    rw whole (behind_quote t reads)
  where
    behind_quote :
        (t : Bytes)
        → Reads t text
        → IsLiteral
            (b'"' ∷ t)
            text
            s.errors
            (lex_string (b'"' ∷ t) (record s { index = 0; buffer = [] }))
    behind_quote [] reads = elim reads [ ]
    behind_quote (d ∷ t) reads = lex_string-Reads s d t text reads
