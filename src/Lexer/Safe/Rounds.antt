-- ===== src/Lexer/Safe/Rounds.antt =====
-- The rounds of `lexer::lex` of source/compiler/lexer.cpp: operators and comments.
use kenaf.Base.{
  ℕ, zero, suc, ◌+◌, ◌≤◌, ◌<◌, ◌≡◌, ◌≢◌, refl, ◌∙◌, ◌⊎◌, inl, inr, ◌&&◌, ◌||◌, Option, none, some,
  leb, ◌==◌, ok, if◌then◌else◌, arith, length, Run, Bool-cases,
}
use kenaf.Lexer.Token.{Bytes, Token, Kind}
use kenaf.Lexer.State.{srcloc, Lexer, and_then, ◌>>=◌, next, peek_is, text, pure}
use kenaf.Lexer.Lex.{
  assign_token, operator, plain, line_comment, comment_end, block_comment, lex_minus, lex_solidus,
  lex_angle, lex_tilde,
}
use kenaf.Lexer.Advance.{
  Ends, ends, bind, Sound, Adv, At, byte, byte-index, byte-lt, peek-byte, next-At, newline-At,
  length-text,
}

module _ (content : Bytes) where
  -- What a round that begins at `i` gives: it moves on, or returns the end of the file.
  abbrev pub Moved : ℕ → Token → Lexer → Type 0
  Moved i t s =
      Adv content i s
      × (t.sloc ≡ srcloc i)
      × ((i < s.index) ⊎ ((t.kind ≡ Kind.eof) × (length content ≤ i)))

  abbrev pub Stepped : ℕ → Option Token → Lexer → Type 0
  Stepped i none s = Adv content (i + 1) s
  Stepped i (some t) s = Moved i t s

  -- The test that two characters stand next to one another.
  pub peek_is-lem :
      (k c : ℕ) (s : Lexer)
      → s.index + k < length content + 4
      → peek_is content k c s ≡ ok (byte content (s.index + k) == c, s)
  peek_is-lem k c s h = rw (peek-byte content k s h)

  pub give-Stepped :
      {r : Run (Token × Lexer)} (i : ℕ)
      → Ends (λ t s'. Adv content (i + 1) s' × (t.sloc ≡ srcloc i)) r
      → Ends (Stepped i) (and_then r (λ t. pure (some t)))
  give-Stepped i h = bind h λ t s' (a, e). ends ((a.0, omega arith), e, inl (omega arith))

  pub plain-Stepped :
      (count : ℕ) (kind : Kind) (s : Lexer)
      → Sound content s
      → 1 ≤ count
      → s.index + count ≤ length content + 1
      → Ends (Stepped s.index) (plain content count kind s.index s)
  unfolding plain
  plain-Stepped count kind s g pos h =
      bind (next-At content count s g h)
        λ c s' (e, (g', a)). ends ((g', omega arith), refl, inl (omega arith))

  assign_token-Adv :
      (normal with_eq : Kind) (sloc i : ℕ) (s : Lexer)
      → Adv content i s
      → Ends
          (λ t s'. Adv content i s' × (t.sloc ≡ srcloc sloc))
          (assign_token content normal with_eq sloc s)
  unfolding assign_token
  assign_token-Adv normal with_eq sloc i s (g, a) =
      elim (Bool-cases (byte content (s.index + 0) == b'=')) [
        | inr other ↦ rw (peek-byte content 0 s (omega arith), other) (ends ((g, a), refl))
        | inl equals ↦
            let inside : s.index + 0 < length content =
              byte-lt content (s.index + 0) (ground arith) in
            rw (peek-byte content 0 s (omega arith), equals)
              (bind (next-At content 1 s g (omega arith))
                λ c s' (e, (g', a')). ends ((g', omega arith), refl))
      ]

  pub operator-Stepped :
      (count : ℕ) (normal with_eq : Kind) (s : Lexer)
      → Sound content s
      → 1 ≤ count
      → s.index + count ≤ length content + 1
      → Ends (Stepped s.index) (operator content count normal with_eq s.index s)
  unfolding operator
  operator-Stepped count normal with_eq s g pos h =
      bind (next-At content count s g h) λ c s' (e, (g', a)).
        give-Stepped s.index
          (assign_token-Adv normal with_eq s.index (s.index + 1) s' (g', omega arith))

  line_comment-Adv :
      (fuel c i : ℕ) (s : Lexer)
      → At content i c s
      → length content + 1 < s.index + fuel
      → Ends (λ _. Adv content i) (line_comment content fuel c s)
  unfolding line_comment
  line_comment-Adv zero c i s at enough = absurd (omega arith)
  line_comment-Adv (suc fuel) c i s (e, (g, a)) enough =
      let inside : c ≢ 0 → s.index < length content = λ h. byte-index content s (λ z. h (e ∙ z)) in
      elim (Bool-cases (c == b'\r' || c == b'\n' || (c == 0 && leb (length content) s.index))) [
        | inl stop ↦ rw stop (ends (g, a))
        | inr more ↦ rw more (
            bind (next-At content 1 s g (ground (arith, inside))) λ d s₁ (e₁, (g₁, a₁)).
              line_comment-Adv fuel d i s₁ (e₁, (g₁, omega arith)) (omega arith))
      ]

  -- A comment that is closed ends in front of the two characters that close it.
  abbrev Closed : ℕ → ℕ → Lexer → Type 0
  Closed i c s = Adv content i s × ((c ≡ 0) ⊎ (s.index + 2 ≤ length content))

  comment_end-lem :
      (s : Lexer)
      → Sound content s
      → comment_end content s
        ≡ ok (byte content (s.index + 0) == b'*' && byte content (s.index + 1) == b'/', s)
  comment_end-lem s g = elim (Bool-cases (byte content (s.index + 0) == b'*')) [
    | inl star ↦ rw (peek-byte content 0 s (omega arith), star, peek-byte content 1 s (omega arith))
    | inr other ↦ rw (peek-byte content 0 s (omega arith), other)
  ]

  block_comment-Closed :
      (fuel sloc c i : ℕ) (s : Lexer)
      → At content i c s
      → length content + 1 < s.index + fuel
      → Ends (Closed i) (block_comment content fuel sloc c s)
  unfolding block_comment
  block_comment-Closed zero sloc c i s at enough = absurd (omega arith)
  block_comment-Closed (suc fuel) sloc c i s (e, (g, a)) enough =
      let inside : c ≢ 0 → s.index < length content = λ h. byte-index content s (λ z. h (e ∙ z)) in
      elim (Bool-cases (byte content (s.index + 0) == b'*' && byte content (s.index + 1) == b'/')) [
        | inl done ↦
            let last = byte-lt content (s.index + 1) (ground arith) in
            rw (comment_end-lem s g, done) (ends ((g, a), inr (omega arith)))
        | inr open_comment ↦ elim (Bool-cases (c == 0 && leb (length content) s.index)) [
          | inl end ↦
              rw (comment_end-lem s g, open_comment, end) (ends ((g, a), inl (ground arith)))
          | inr more ↦ elim (Bool-cases (c == b'\r' || c == b'\n')) [
            | inl line ↦
                rw (comment_end-lem s g, open_comment, more, line)
                  (bind (newline-At content s g (inside (ground arith))) λ d s₁ (e₁, (g₁, a₁)).
                    block_comment-Closed fuel sloc d i s₁ (e₁, (g₁, omega arith)) (omega arith))
            | inr other ↦
                rw (comment_end-lem s g, open_comment, more, other)
                  (bind (next-At content 1 s g (ground (arith, inside))) λ d s₁ (e₁, (g₁, a₁)).
                    block_comment-Closed fuel sloc d i s₁ (e₁, (g₁, omega arith)) (omega arith))
          ]
        ]
      ]

  module _ (s : Lexer) (g : Sound content s) (inside : s.index < length content) where
    pub lex_minus-Stepped : Ends (Stepped s.index) (lex_minus content s.index s)
    unfolding lex_minus
    lex_minus-Stepped = elim (Bool-cases (byte content (s.index + 1) == b'-')) [
      | inr other ↦
          rw (peek-byte content 1 s (omega arith), other)
            (operator-Stepped 1 _ _ s g (omega arith) (omega arith))
      | inl second ↦
          let last = byte-lt content (s.index + 1) (ground arith) in
          rw (peek-byte content 1 s (omega arith), second)
            (bind (next-At content 2 s g (omega arith)) λ c s₁ (e₁, (g₁, a₁)).
              bind
                (line_comment-Adv (length (text content)) c s₁.index s₁ (e₁, (g₁, omega arith))
                  (omega (arith, length-text content)))
                λ _ s₂ (g₂, a₂). ends (g₂, omega arith))
    ]

    pub lex_angle-Stepped :
        (c : ℕ) (k₁ k₂ k₃ k₄ : Kind)
        → c ≢ 0
        → Ends (Stepped s.index) (lex_angle content c k₁ k₂ k₃ k₄ s.index s)
    unfolding lex_angle
    lex_angle-Stepped c k₁ k₂ k₃ k₄ h = elim (Bool-cases (byte content (s.index + 1) == c)) [
      | inr other ↦
          rw (peek-byte content 1 s (omega arith), other)
            (operator-Stepped 1 k₃ k₄ s g (omega arith) (omega arith))
      | inl twice ↦
          let last = byte-lt content (s.index + 1) (ground arith) in
          rw (peek-byte content 1 s (omega arith), twice)
            (operator-Stepped 2 k₁ k₂ s g (omega arith) (omega arith))
    ]

    pub lex_tilde-Stepped : Ends (Stepped s.index) (lex_tilde content s.index s)
    unfolding lex_tilde
    lex_tilde-Stepped = elim (Bool-cases (byte content (s.index + 1) == b'>')) [
      | inr other ↦
          rw (peek-byte content 1 s (omega arith), other)
            (operator-Stepped 1 _ _ s g (omega arith) (omega arith))
      | inl first ↦ elim (Bool-cases (byte content (s.index + 2) == b'>')) [
        | inr other ↦
            rw
              (
                peek-byte content 1 s (omega arith),
                first,
                peek-byte content 2 s (omega arith),
                other,
              )
              (operator-Stepped 1 _ _ s g (omega arith) (omega arith))
        | inl second ↦
            let last = byte-lt content (s.index + 2) (ground arith) in
            rw
              (
                peek-byte content 1 s (omega arith),
                first,
                peek-byte content 2 s (omega arith),
                second,
              )
              (operator-Stepped 3 _ _ s g (omega arith) (omega arith))
      ]
    ]

    pub lex_solidus-Stepped : Ends (Stepped s.index) (lex_solidus content s.index s)
    unfolding lex_solidus
    lex_solidus-Stepped = elim (Bool-cases (byte content (s.index + 1) == b'*')) [
      | inl star ↦
          let last = byte-lt content (s.index + 1) (ground arith) in
          rw (peek-byte content 1 s (omega arith), star)
            (bind (next-At content 2 s g (omega arith)) λ c s₁ (e₁, (g₁, a₁)).
              bind
                (block_comment-Closed (length (text content)) s.index c s₁.index s₁
                  (e₁, (g₁, omega arith)) (omega (arith, length-text content)))
                λ d s₂ ((g₂, a₂), end). close d s₂ g₂ (omega arith) end)
      | inr not_star ↦ elim (Bool-cases (byte content (s.index + 1) == b'/')) [
        | inr other ↦
            rw
              (
                peek-byte content 1 s (omega arith),
                not_star,
                peek-byte content 1 s (omega arith),
                other,
              )
              (operator-Stepped 1 _ _ s g (omega arith) (omega arith))
        | inl slash ↦
            let last = byte-lt content (s.index + 1) (ground arith) in
            rw
              (
                peek-byte content 1 s (omega arith),
                not_star,
                peek-byte content 1 s (omega arith),
                slash,
              )
              (operator-Stepped 2 _ _ s g (omega arith) (omega arith))
      ]
    ]
      where
        close :
            (d : ℕ) (s₂ : Lexer)
            → Sound content s₂
            → s.index + 1 ≤ s₂.index
            → ((d ≡ 0) ⊎ (s₂.index + 2 ≤ length content))
            → Ends
                (Stepped s.index)
                ((if d == 0 then pure none else next content 2 >>= (λ _. pure none)) s₂)
        close d s₂ g₂ a₂ end = elim (Bool-cases (d == 0)) [
          | inl zero_there ↦ rw zero_there (ends (g₂, a₂))
          | inr closed ↦ rw closed (
              bind (next-At content 2 s₂ g₂ (ground arith))
                λ c s₃ (e₃, (g₃, a₃)). ends (g₃, omega arith))
        ]
