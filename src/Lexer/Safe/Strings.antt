-- ===== src/Lexer/Safe/Strings.antt =====
-- `lex_string` and `lex_identifier` of source/compiler/lexer.cpp.
use kenaf.Base.{
  ℕ, zero, suc, ◌+◌, ◌≤◌, ◌<◌, ◌≡◌, ◌≢◌, refl, ap, ◌∙◌, inl, inr, Bool, true, false, ◌&&◌, ◌||◌,
  none, some, [], ◌∷◌, leb, ◌==◌, if◌then◌else◌, arith, length, Bool-cases, Option-cases,
}
use kenaf.Lexer.Token.{Bytes}
use kenaf.Lexer.State.{srcloc, Lexer, and_then, ◌>>=◌, next, text, pure}
use kenaf.Lexer.Number.{string_hex}
use kenaf.Lexer.Text.{
  utf8_bytes, push_all, string_utf8, simple_escape, long_escape, escape_switch, escape, string_loop,
  lex_string,
}
use kenaf.Lexer.Keywords.{is_identifier_char, identifier_loop, lex_identifier}
use kenaf.Lexer.Advance.{
  Ends, ends, bind, weaken, Sound, Adv, At, byte, byte-index, peek-byte, next-byte, next-At,
  newline-At, length-text,
}
use kenaf.Lexer.Safe.Numbers.{string_hex-At, step-At}

simple_escape-zero : simple_escape 0 ≡ none
unfolding simple_escape
simple_escape-zero = refl

simple_escape-ne_zero : (c x : ℕ) → simple_escape c ≡ some x → c ≢ 0
simple_escape-ne_zero c x e z =
    let e' : simple_escape 0 ≡ some x = rw z at e in ground (arith, simple_escape-zero)

module _ (content : Bytes) where
  push_all-At :
      (cs : Bytes) (i c : ℕ) (s : Lexer)
      → At content i c s
      → Ends (λ _. At content i c) (push_all cs s)
  push_all-At [] i c s at = ends at
  push_all-At (x ∷ cs) i c s at = push_all-At cs i c (record s { buffer = _ }) at

  string_utf8-At :
      (xloc x i c : ℕ) (s : Lexer)
      → At content i c s
      → Ends (λ _. At content i c) (string_utf8 xloc x s)
  unfolding string_utf8
  string_utf8-At xloc x i c s at = bind (push_all-At (utf8_bytes x) i c s at) λ _ s' at'.
      elim (Bool-cases (leb x 0x10FFFF)) [
        | inl valid ↦ rw valid (ends at')
        | inr bad ↦ rw bad (ends at')
      ]

  -- Hexadecimal digits, and what becomes of them, behind one character.
  unicode-At :
      (count xloc c : ℕ) (s : Lexer)
      → At content s.index c s
      → Ends (At content s.index) (
          and_then
            (string_hex content count c 0 s)
            (λ r s'. and_then (string_utf8 xloc r.0 s') (λ _. pure r.1)))
  unicode-At count xloc c s at = bind (string_hex-At content count c 0 s at) λ r s' (e, (g, a)).
      bind (string_utf8-At xloc r.0 s'.index r.1 s' (e, (g, omega arith)))
        λ _ s'' (e', (g', a')). ends (e', (g', omega arith))

  long_escape-At :
      (xloc c : ℕ) (s : Lexer)
      → At content s.index c s
      → s.index ≤ length content
      → Ends (At content s.index) (long_escape content xloc c s)
  unfolding long_escape
  long_escape-At xloc c s at inside = elim (Bool-cases (c == b'x')) [
    | inl x ↦ rw x (
        bind (step-At content c s at (ground arith)) λ d s₁ (e₁, (g₁, a₁)).
          bind (string_hex-At content 2 d 0 s₁ (e₁, (g₁, omega arith)))
            λ r s₂ (e₂, (g₂, a₂)). ends (e₂, (g₂, omega arith)))
    | inr not_x ↦ elim (Bool-cases (c == b'u')) [
      | inl u ↦
          rw (not_x, u)
            (bind (step-At content c s at (ground arith)) λ d s₁ (e₁, (g₁, a₁)).
              weaken (unicode-At 4 xloc d s₁ (e₁, (g₁, omega arith)))
                λ r s₂ (e₂, (g₂, a₂)). (e₂, (g₂, omega arith)))
      | inr not_u ↦ elim (Bool-cases (c == b'U')) [
        | inl u ↦
            rw (not_x, not_u, u)
              (bind (step-At content c s at (ground arith)) λ d s₁ (e₁, (g₁, a₁)).
                elim (Bool-cases (d == b'+')) [
                  | inr other ↦ rw other (ends (e₁, (g₁, omega arith)))
                  | inl sign ↦ rw sign (
                      bind (step-At content d s₁ (e₁, (g₁, omega arith)) (ground arith))
                        λ d' s₂ (e₂, (g₂, a₂)).
                          weaken (unicode-At 6 xloc d' s₂ (e₂, (g₂, omega arith)))
                            λ r s₃ (e₃, (g₃, a₃)). (e₃, (g₃, omega arith)))
                ])
        | inr other ↦
            rw (not_x, not_u, other)
              (weaken (next-At content 1 (record s { errors = _; buffer = _ }) at.1.0 (omega arith))
                λ d s₁ (e₁, (g₁, a₁)). (e₁, (g₁, omega arith)))
      ]
    ]
  ]

  escape_switch-At :
      (xloc c : ℕ) (s : Lexer)
      → At content s.index c s
      → s.index ≤ length content
      → Ends (At content s.index) (escape_switch content xloc c s)
  unfolding escape_switch
  escape_switch-At xloc c s at inside = elim (Option-cases (simple_escape c)) [
    | inl e ↦ rw (e, escape_switch) (long_escape-At xloc c s at inside)
    | inr (x, e) ↦
        rw (e, escape_switch)
          (weaken (step-At content c (record s { buffer = _ }) at (simple_escape-ne_zero c x e))
            λ d s₂ (e₂, (g₂, a₂)). (e₂, (g₂, omega arith)))
  ]

  -- An escape that begins within the script ends behind the backslash.
  escape-At :
      (s : Lexer)
      → Sound content s
      → s.index < length content
      → Ends (At content (s.index + 1)) (escape content s)
  unfolding escape
  escape-At s g inside = rw (next-byte content 1 s (omega arith)) (
      escape_switch-At s.index _ (record s { index = s.index + 1 })
        (refl, ((omega arith, omega arith, omega arith), omega arith)) (omega arith))

  string_loop-At :
      (fuel sloc c : ℕ) (source : Bool) (s : Lexer)
      → At content s.index c s
      → length content + 1 < s.index + fuel
      → Ends (λ r. At content s.index r.0) (string_loop content fuel sloc c source s)
  unfolding string_loop
  string_loop-At zero sloc c source s at enough = absurd (omega arith)
  string_loop-At (suc fuel) sloc c source s (e, (g, a)) enough =
      let at : At content s.index c s = (e, (g, a)) in
      let inside : c ≢ 0 → s.index < length content = λ h. byte-index content s (λ z. h (e ∙ z)) in
      elim (Bool-cases (c == b'"')) [
        | inl quote ↦ rw quote (ends at)
        | inr not_quote ↦ elim (Bool-cases (c == b'\\')) [
          | inl slash ↦
              rw (not_quote, slash)
                (bind (escape-At s g (inside (ground arith))) λ d s₁ (e₁, (g₁, a₁)).
                  weaken (string_loop-At fuel sloc d false s₁ (e₁, (g₁, omega arith)) (omega arith))
                    λ r s₂ (e₂, (g₂, a₂)). (e₂, (g₂, omega arith)))
          | inr not_slash ↦ elim (Bool-cases (c == b'\r' || c == b'\n')) [
            | inl line ↦
                rw (not_quote, not_slash, line)
                  (bind
                    (newline-At content (record s { errors = _; buffer = _ }) g
                      (inside (ground arith)))
                    λ d s₁ (e₁, (g₁, a₁)).
                      weaken
                        (string_loop-At fuel sloc d false s₁ (e₁, (g₁, omega arith)) (omega arith))
                        λ r s₂ (e₂, (g₂, a₂)). (e₂, (g₂, omega arith)))
            | inr not_line ↦ elim (Bool-cases (c == 0 && leb (length content) s.index)) [
              | inl finished ↦ rw (not_quote, not_slash, not_line, finished) (ends at)
              | inr more ↦
                  rw (not_quote, not_slash, not_line, more)
                    (bind (next-At content 1 (record s { buffer = _ }) g (ground (arith, inside)))
                      λ d s₁ (e₁, (g₁, a₁)).
                        weaken
                          (string_loop-At fuel sloc d source s₁ (e₁, (g₁, omega arith))
                            (omega arith))
                          λ r s₂ (e₂, (g₂, a₂)). (e₂, (g₂, omega arith)))
            ]
          ]
        ]
      ]

  -- `lex_string` ends behind the quote that it begins at.
  pub lex_string-Adv :
      (s : Lexer)
      → Sound content s
      → byte content s.index ≡ b'"'
      → Ends
          (λ t s'. Adv content (s.index + 1) s' × (t.sloc ≡ srcloc s.index))
          (lex_string content s)
  unfolding lex_string
  lex_string-Adv s g quote =
      let inside : s.index < length content = byte-index content s (λ z. omega arith) in
      let same : byte content (s.index + 0) ≡ b'"' = ap (byte content) (omega arith) ∙ quote in
      rw (peek-byte content 0 s (omega arith), same)
        (bind (next-At content 1 s g (omega arith)) λ c s₁ (e₁, (g₁, a₁)).
          bind
            (string_loop-At (length (text content)) s.index c true s₁ (e₁, (g₁, omega arith))
              (omega (arith, length-text content)))
            λ r s₂ (e₂, (g₂, a₂)). bind (close r.0 s₂ (e₂, (g₂, omega arith))) λ _ s₃ (g₃, a₃).
              elim (Bool-cases r.1) [
                | inl source ↦ rw source (ends ((g₃, omega arith), refl))
                | inr built ↦ rw built (ends ((g₃, omega arith), refl))
              ])
    where
      close :
          (c : ℕ) (s₂ : Lexer)
          → At content s₂.index c s₂
          → Ends
              (λ _. Adv content s₂.index)
              ((if c == b'"' then next content 1 >>= (λ _. pure tt) else pure tt) s₂)
      close c s₂ at = elim (Bool-cases (c == b'"')) [
        | inr other ↦ rw other (ends at.1)
        | inl end ↦ rw end (
            bind (step-At content c s₂ at (ground arith))
              λ d s₃ (e₃, (g₃, a₃)). ends (g₃, omega arith))
      ]

  identifier_char-ne_zero : (c : ℕ) → is_identifier_char c ≡ true → c ≢ 0
  unfolding is_identifier_char
  identifier_char-ne_zero c h z = ground arith

  identifier_loop-At :
      (fuel c : ℕ) (s : Lexer)
      → At content s.index c s
      → length content + 1 < s.index + fuel
      → Ends
          (λ _. Adv content (s.index + (if is_identifier_char c then 1 else 0)))
          (identifier_loop content fuel c s)
  unfolding identifier_loop
  identifier_loop-At zero c s at enough = absurd (omega arith)
  identifier_loop-At (suc fuel) c s (e, (g, a)) enough = elim (Bool-cases (is_identifier_char c)) [
    | inr stop ↦ rw stop (ends (g, omega arith))
    | inl more ↦ rw more (
        bind (step-At content c s (e, (g, a)) (identifier_char-ne_zero c more))
          λ d s₁ (e₁, (g₁, a₁)).
            weaken (identifier_loop-At fuel d s₁ (e₁, (g₁, omega arith)) (omega arith))
              λ r s₂ (g₂, a₂). (g₂, omega arith))
  ]

  -- `lex_identifier` ends behind the first character of its identifier.
  pub lex_identifier-Adv :
      (s : Lexer)
      → Sound content s
      → is_identifier_char (byte content s.index) ≡ true
      → Ends
          (λ t s'. Adv content (s.index + 1) s' × (t.sloc ≡ srcloc s.index))
          (lex_identifier content s)
  unfolding lex_identifier
  lex_identifier-Adv s g starts =
      let same : byte content (s.index + 0) ≡ byte content s.index =
        ap (byte content) (omega arith) in
      rw (peek-byte content 0 s (omega arith)) (
        bind
          (identifier_loop-At (length (text content)) _ s (same, (g, omega arith))
            (omega (arith, length-text content)))
          λ r s₁ (g₁, a₁). ends ((g₁, ground (arith, starts, ap is_identifier_char same)), refl))
