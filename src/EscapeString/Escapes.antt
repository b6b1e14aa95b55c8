-- ===== src/EscapeString/Escapes.antt =====
-- The escapes of a string literal as `lexer::lex_string` of source/compiler/lexer.cpp reads them from a
-- script that is known from a position on.
use kenaf.Base.{
  ℕ, suc, ◌+◌, ◌*◌, ◌%◌, ◌^◌, ◌≤◌, ◌<◌, ◌≡◌, refl, ◌∙◌, ap, true, [], ◌∷◌, ◌++◌, none, some, ok,
  ltb, arith, length, get_or,
}
use kenaf.Lexer.Token.{Bytes}
use kenaf.Lexer.State.{Lexer, next}
use kenaf.Lexer.Number.{digit, string_hex}
use kenaf.Lexer.Text.{simple_escape, escape, escape_switch, long_escape}
use kenaf.Lexer.Advance.{byte, next-byte}

module _ (content : Bytes) where
  -- The script holds the text at a position.
  abbrev pub Shows : ℕ → Bytes → Type 0
  Shows i t =
      (i + length t ≤ length content)
      × ((j : ℕ) → j < length t → byte content (i + j) ≡ get_or t j 0)

  pub Shows-tail : (i c : ℕ) (t : Bytes) → Shows i (c ∷ t) → Shows (i + 1) t
  Shows-tail i c t (fits, at) =
      (omega arith, λ j h. ap (byte content) (omega arith) ∙ at (suc j) (omega arith))

  Shows-head : (i c : ℕ) (t : Bytes) → Shows i (c ∷ t) → byte content i ≡ c
  Shows-head i c t (fits, at) = ap (byte content) (omega arith) ∙ at 0 (omega arith)

  -- One step forward within the text
  pub step :
      (s : Lexer) (c d : ℕ) (t : Bytes)
      → Shows s.index (c ∷ d ∷ t)
      → next content 1 s ≡ ok (d, record s { index = s.index + 1 })
  step s c d t shows =
      next-byte content 1 s (omega (arith, shows.0))
      ∙ ap (λ (x : ℕ). ok (x, record s { index = s.index + 1 })) (shows.1 1 (omega arith))

  escape_switch-letter :
      (xloc : ℕ) (s : Lexer) (c x d : ℕ) (t : Bytes)
      → simple_escape c ≡ some x
      → Shows s.index (c ∷ d ∷ t)
      → escape_switch content xloc c s
        ≡ ok (d, record s { index = s.index + 1; buffer = s.buffer ++ x ∷ [] })
  unfolding escape_switch
  escape_switch-letter xloc s c x d t e shows =
      rw (escape_switch, e) (step (record s { buffer = s.buffer ++ x ∷ [] }) c d t shows)

  pub escape-letter :
      (s : Lexer) (c x d : ℕ) (t : Bytes)
      → simple_escape c ≡ some x
      → Shows s.index (b'\\' ∷ c ∷ d ∷ t)
      → escape content s ≡ ok (d, record s { index = s.index + 1 + 1; buffer = s.buffer ++ x ∷ [] })
  unfolding escape
  escape-letter s c x d t e shows = rw (step s _ c (d ∷ t) shows) (
      escape_switch-letter s.index (record s { index = s.index + 1 }) c x d t e
        (Shows-tail s.index _ (c ∷ d ∷ t) shows))

  string_hex-step :
      (n x : ℕ) (s : Lexer) (c d : ℕ) (t : Bytes)
      → digit c < 16
      → Shows s.index (c ∷ d ∷ t)
      → string_hex content (suc n) c x s
        ≡ string_hex content n d ((x * 16 + digit c) % 2 ^ 32) (record s { index = s.index + 1 })
  unfolding string_hex
  string_hex-step n x s c d t small shows =
      let small' : ltb (digit c) 16 ≡ true = ground arith in rw (small', step s c d t shows) refl

  string_hex-two :
      (s : Lexer) (h l d : ℕ) (t : Bytes)
      → digit h < 16
      → digit l < 16
      → Shows s.index (h ∷ l ∷ d ∷ t)
      → string_hex content 2 h 0 s
        ≡ ok ((digit h * 16 + digit l, d), record s { index = s.index + 1 + 1 })
  unfolding string_hex
  string_hex-two s h l d t first second shows =
      let value : ((0 * 16 + digit h) % 2 ^ 32 * 16 + digit l) % 2 ^ 32 ≡ digit h * 16 + digit l =
        omega arith in
      string_hex-step 1 0 s h l (d ∷ t) first shows
      ∙ string_hex-step 0 _ (record s { index = s.index + 1 }) l d t second
          (Shows-tail s.index h (l ∷ d ∷ t) shows)
      ∙ ap (λ (x : ℕ). ok ((x, d), record s { index = s.index + 1 + 1 })) value

  not_simple : simple_escape b'x' ≡ none
  unfolding simple_escape
  not_simple = refl

  escape_switch-two_digits :
      (xloc : ℕ) (s : Lexer) (h l d : ℕ) (t : Bytes)
      → digit h < 16
      → digit l < 16
      → Shows s.index (b'x' ∷ h ∷ l ∷ d ∷ t)
      → escape_switch content xloc b'x' s
        ≡ ok (
          d,
          record s {
            index = s.index + 1 + 1 + 1;
            buffer = s.buffer ++ (digit h * 16 + digit l) ∷ [];
          },
        )
  unfolding escape_switch long_escape
  escape_switch-two_digits xloc s h l d t first second shows =
      let byte_value : (digit h * 16 + digit l) % 256 ≡ digit h * 16 + digit l = omega arith in
      let moved : Lexer = record s { index = s.index + 1 } in
      let tail : Shows (s.index + 1) (h ∷ l ∷ d ∷ t) = Shows-tail s.index _ (h ∷ l ∷ d ∷ t) shows in
      rw (escape_switch, not_simple, long_escape, step s _ h (l ∷ d ∷ t) shows)
        (rw (string_hex-two moved h l d t first second tail, byte_value) refl)

  pub escape-two_digits :
      (s : Lexer) (h l d : ℕ) (t : Bytes)
      → digit h < 16
      → digit l < 16
      → Shows s.index (b'\\' ∷ b'x' ∷ h ∷ l ∷ d ∷ t)
      → escape content s
        ≡ ok (
          d,
          record s {
            index = s.index + 1 + 1 + 1 + 1;
            buffer = s.buffer ++ (digit h * 16 + digit l) ∷ [];
          },
        )
  unfolding escape
  escape-two_digits s h l d t first second shows = rw (step s _ b'x' (h ∷ l ∷ d ∷ t) shows) (
      escape_switch-two_digits s.index (record s { index = s.index + 1 }) h l d t first second
        (Shows-tail s.index _ (b'x' ∷ h ∷ l ∷ d ∷ t) shows))
