-- ===== src/Lexer/Safe/Total.antt =====
-- `lexer::lex` of source/compiler/lexer.cpp as a whole, and the loop of source/compiler/parser.cpp
-- that calls it up to the end of the file.
use kenaf.Base.{
  ℕ, zero, suc, ◌+◌, ◌≤◌, ◌<◌, ◌≡◌, ◌≢◌, refl, ◌∙◌, ap, ◌⊎◌, inl, inr, true, false, ◌||◌, Option,
  none, some, List, [], ◌∷◌, leb, ◌==◌, if◌then◌else◌, arith, length, Bool-cases, Option-cases,
}
use kenaf.Lexer.Token.{Bytes, Token, Kind}
use kenaf.Lexer.State.{Lexer, and_then, peek_is, text}
use kenaf.Lexer.Lex.{
  single_kind, assign_kinds, plain, lex_other, lex_switch, lex_char, lex_round, or_continue,
  lex_loop, lex, is_eof, parse_loop, parse_tokens,
}
use kenaf.Lexer.Advance.{
  Ends, ends, bind, weaken, branch, Good, Sound, byte, byte-index, byte-lt, peek-byte, next-At,
  newline-At, length-text, srcloc-index,
}
use kenaf.Lexer.Safe.Strings.{lex_string-Adv}
use kenaf.Lexer.Safe.Rounds.{
  Stepped, give-Stepped, plain-Stepped, operator-Stepped, lex_minus-Stepped, lex_solidus-Stepped,
  lex_angle-Stepped, lex_tilde-Stepped,
}
use kenaf.Lexer.Safe.Lexing.{
  single_kind-zero, assign_kinds-zero, lex_period-Stepped, lex_other-Stepped,
}

module _ (content : Bytes) where
  lex_switch-Stepped :
      (s : Lexer)
      → Sound content s
      → Ends (Stepped content s.index) (lex_switch content (byte content s.index) s.index s)
  unfolding lex_switch
  lex_switch-Stepped s g =
      let c : ℕ = byte content s.index in
      let inside : c ≢ 0 → s.index < length content = byte-index content s in
      branch (c == b' ' || c == b'\t') _ _ s
        (λ blank.
          bind (next-At content 1 s g (ground (arith, inside)))
            λ d s₁ (e₁, (g₁, a₁)). ends (g₁, a₁))
        λ n₁.
          branch (c == b'\r' || c == b'\n') _ _ s
            (λ line.
              bind (newline-At content s g (inside (ground arith)))
                λ d s₁ (e₁, (g₁, a₁)). ends (g₁, a₁))
            λ n₂.
              branch (c == b'!') _ _ s (λ mark. not_equal (inside (ground arith)))
                λ n₃.
                  branch (c == b'"') _ _ s
                    (λ quote.
                      give-Stepped content s.index (lex_string-Adv content s g (ground arith)))
                    λ n₄.
                      branch (c == b'-') _ _ s
                        (λ minus. lex_minus-Stepped content s g (inside (ground arith)))
                        λ n₅.
                          branch (c == b'.') _ _ s
                            (λ point.
                              lex_period-Stepped content s g (inside (ground arith)) (ground arith))
                            λ n₆.
                              branch (c == b'/') _ _ s
                                (λ solidus. lex_solidus-Stepped content s g (inside (ground arith)))
                                λ n₇.
                                  branch (c == b'<') _ _ s
                                    (λ left.
                                      lex_angle-Stepped content s g (inside (ground arith)) c _ _ _
                                        _ (ground arith))
                                    λ n₈.
                                      branch (c == b'>') _ _ s
                                        (λ right.
                                          lex_angle-Stepped content s g (inside (ground arith)) c _
                                            _ _ _ (ground arith))
                                        λ n₉.
                                          branch (c == b'~') _ _ s
                                            (λ tilde.
                                              lex_tilde-Stepped content s g (inside (ground arith)))
                                            λ n₁₀.
                                              branch (c == 0) _ _ s
                                                (λ null.
                                                  branch (leb (length content) s.index) _ _ s
                                                    (λ end. ends (
                                                      (g, omega arith),
                                                      refl,
                                                      inr (refl, ground arith),
                                                    ))
                                                    λ more.
                                                      lex_other-Stepped content s g (ground arith))
                                                λ n₁₁.
                                                  lex_other-Stepped content s g
                                                    (inside (ground arith))
    where
      not_equal :
          s.index < length content
          → Ends (Stepped content s.index) (
              and_then (peek_is content 1 b'=' s) λ e.
                if e
                then plain content 2 Kind.not_eq s.index
                else lex_other content (byte content s.index) s.index)
      not_equal inside = elim (Bool-cases (byte content (s.index + 1) == b'=')) [
        | inl equals ↦
            let last = byte-lt content (s.index + 1) (ground arith) in
            rw (peek-byte content 1 s (omega arith), equals)
              (plain-Stepped content 2 _ s g (omega arith) (omega arith))
        | inr other ↦
            rw (peek-byte content 1 s (omega arith), other) (lex_other-Stepped content s g inside)
      ]

  single_kind-ne_zero : (c : ℕ) (k : Kind) → single_kind c ≡ some k → c ≢ 0
  single_kind-ne_zero c k e z =
      let e' : single_kind 0 ≡ some k = rw z at e in ground (arith, single_kind-zero)

  assign_kinds-ne_zero : (c : ℕ) (k : Kind × Kind) → assign_kinds c ≡ some k → c ≢ 0
  assign_kinds-ne_zero c k e z =
      let e' : assign_kinds 0 ≡ some k = rw z at e in ground (arith, assign_kinds-zero)

  lex_char-Stepped :
      (s : Lexer)
      → Sound content s
      → Ends (Stepped content s.index) (lex_char content s.index (byte content s.index) s)
  unfolding lex_char
  lex_char-Stepped s g =
      let c : ℕ = byte content s.index in
      elim (Option-cases (single_kind c)) [
        | inr (k, e) ↦
            let inside = byte-index content s (single_kind-ne_zero c k e) in
            rw (e, lex_char) (plain-Stepped content 1 k s g (omega arith) (omega arith))
        | inl none_there ↦ elim (Option-cases (assign_kinds c)) [
          | inr (k, e) ↦
              let inside = byte-index content s (assign_kinds-ne_zero c k e) in
              rw (none_there, lex_char, e)
                (operator-Stepped content 1 k.0 k.1 s g (omega arith) (omega arith))
          | inl neither ↦ rw (none_there, lex_char, neither) (lex_switch-Stepped s g)
        ]
      ]

  lex_round-Stepped :
      (s : Lexer) → Sound content s → Ends (Stepped content s.index) (lex_round content s)
  unfolding lex_round
  lex_round-Stepped s g =
      let same : byte content (s.index + 0) ≡ byte content s.index =
        ap (byte content) (omega arith) in
      rw (peek-byte content 0 s (omega arith), same) (lex_char-Stepped s g)

  -- What a call of `lex` at position `i` gives.
  abbrev pub Lexed : ℕ → Token → Lexer → Type 0
  Lexed i t s =
      Good content s
      × (i ≤ t.sloc)
      × (t.sloc ≤ s.index)
      × ((t.sloc < s.index) ⊎ ((t.kind ≡ Kind.eof) × (length content ≤ t.sloc)))

  lex_loop-Lexed :
      (fuel : ℕ) (s : Lexer)
      → Sound content s
      → length content + 1 < s.index + fuel
      → Ends (Lexed s.index) (lex_loop content fuel s)
  unfolding lex_loop
  lex_loop-Lexed zero s g enough = absurd (omega arith)
  lex_loop-Lexed (suc fuel) s g enough = bind (lex_round-Stepped s g) (after (lex_loop-Lexed fuel))
    where
      after :
          ((s₁ : Lexer)
            → Sound content s₁
            → length content + 1 < s₁.index + fuel
            → Ends (Lexed s₁.index) (lex_loop content fuel s₁))
          → (r : Option Token) (s₁ : Lexer) → Stepped content s.index r s₁
          → Ends (Lexed s.index) (or_continue (lex_loop content fuel) r s₁)
      after again none s₁ (g₁, a₁) =
          weaken (again s₁ g₁ (omega arith)) λ t s₂ (g₂, a, b, end). (g₂, omega arith, b, end)
      after again (some t) s₁ ((g₁, a₁), e, inl moved) =
          let same : t.sloc ≡ s.index = e ∙ srcloc-index content s g in
          ends ((g₁.0, g₁.1), omega arith, omega arith, inl (omega arith))
      after again (some t) s₁ ((g₁, a₁), e, inr (kind, past)) =
          let same : t.sloc ≡ s.index = e ∙ srcloc-index content s g in
          ends ((g₁.0, g₁.1), omega arith, omega arith, inr (kind, omega arith))

  -- For every script whose positions, up to one past its end, have 32 bits, and from every state
  -- whose position is at most one past the end and not in front of the last newline, `lex` returns
  -- a token: no loop runs on, no character is read past the lookahead, no assertion fails. The
  -- state afterwards is such a state, the token's location is at the old position or behind it and
  -- not behind the new one, and it is in front of the new one unless it is the end of the file, at
  -- or past the end of the script.
  pub lex-Lexed :
      (s : Lexer)
      → length content + 1 < 4294967296
      → Good content s
      → Ends (Lexed s.index) (lex content s)
  unfolding lex
  lex-Lexed s small g =
      lex_loop-Lexed (length (text content)) s (g.0, g.1, small)
        (omega (arith, length-text content))

  -- The tokens before the last are no end of file, and the last one is.
  abbrev pub EndsWithEof : List Token → Type 0
  EndsWithEof [] = ⊥
  EndsWithEof (t ∷ []) = t.kind ≡ Kind.eof
  EndsWithEof (t ∷ u ∷ ts) = (t.kind ≢ Kind.eof) × EndsWithEof (u ∷ ts)

  -- Each token begins at or behind `i`, and the tokens that follow it begin behind it.
  abbrev pub InOrder : ℕ → List Token → Type 0
  InOrder i [] = Unit {0}
  InOrder i (t ∷ ts) = (i ≤ t.sloc) × InOrder (t.sloc + 1) ts

  InOrder-le : (i j : ℕ) (ts : List Token) → i ≤ j → InOrder j ts → InOrder i ts
  InOrder-le i j [] h o = o
  InOrder-le i j (t ∷ ts) h o = (omega arith, o.1)

  eof_of_is_eof : (k : Kind) → is_eof k ≡ true → k ≡ Kind.eof
  unfolding is_eof
  eof_of_is_eof Kind.eof h = refl
  eof_of_is_eof _ h = cc

  ne_of_is_eof : (k : Kind) → is_eof k ≡ false → k ≢ Kind.eof
  unfolding is_eof
  ne_of_is_eof k h e = let h' : is_eof Kind.eof ≡ false = rw e at h in cc

  cons-EndsWithEof :
      (t : Token) (ts : List Token) → t.kind ≢ Kind.eof → EndsWithEof ts → EndsWithEof (t ∷ ts)
  cons-EndsWithEof t [] h e = elim e [ ]
  cons-EndsWithEof t (u ∷ ts) h e = (h, e)

  parse_loop-InOrder :
      (fuel : ℕ) (s : Lexer)
      → length content + 1 < 4294967296
      → Good content s
      → length content + 1 < s.index + fuel
      → Ends
          (λ ts s'. Good content s' × EndsWithEof ts × InOrder s.index ts)
          (parse_loop content fuel s)
  unfolding parse_loop
  parse_loop-InOrder zero s small g enough = absurd (omega arith)
  parse_loop-InOrder (suc fuel) s small g enough =
      bind (lex-Lexed s small g) λ t s₁ (g₁, a, b, end). elim (Bool-cases (is_eof t.kind)) [
        | inl last ↦ rw last (ends (g₁, eof_of_is_eof t.kind last, (a, tt)))
        | inr more ↦
            let ne = ne_of_is_eof t.kind more in
            let moved : t.sloc < s₁.index = elim end [ inl lt ↦ lt | inr e ↦ absurd (ne e.0) ] in
            rw more (
              bind (parse_loop-InOrder fuel s₁ small g₁ (omega arith)) λ ts s₂ (g₂, e, o).
                ends (g₂, cons-EndsWithEof t ts ne e, (a, InOrder-le _ _ ts (omega arith) o)))
      ]

  -- The parser's loop over the tokens ends for every script whose positions, up to one past its
  -- end, have 32 bits, from every state whose position is at most one past the end of the script
  -- and not in front of the last newline: it returns a list of tokens of which the last, and no
  -- other, is the end of the file, and whose locations follow one behind the other from the position
  -- on; no step reads outside the source text or fails an assertion, and the state at the end is
  -- such a state again.
  pub parse_tokens-InOrder :
      (s : Lexer)
      → length content + 1 < 4294967296
      → Good content s
      → Ends
          (λ ts s'. Good content s' × EndsWithEof ts × InOrder s.index ts)
          (parse_tokens content s)
  unfolding parse_tokens
  parse_tokens-InOrder s small g =
      parse_loop-InOrder (length (text content)) s small g (omega (arith, length-text content))
