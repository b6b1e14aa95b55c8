-- ===== src/Lexer/Safe/Lexing.antt =====
-- `lexer::lex` of source/compiler/lexer.cpp, and the loop of source/compiler/parser.cpp that calls
-- it up to the end of the file.
use Prim.Native.Nat.{bit_and}
use kenaf.Base.{
  ℕ, zero, suc, ◌+◌, ◌-◌, ◌≤◌, ◌<◌, ◌≡◌, refl, inl, inr, true, ◌||◌, none, some, leb, ◌==◌,
  if◌then◌else◌, arith, length, Bool-cases,
}
use kenaf.Lexer.Token.{Bytes, Kind}
use kenaf.Lexer.State.{Lexer, and_then, ◌>>=◌, next, pure}
use kenaf.Lexer.Number.{within, lex_number}
use kenaf.Lexer.Keywords.{is_identifier_char}
use kenaf.Lexer.Lex.{
  plain, single_kind, assign_kinds, lex_period, char_size_loop, utf8_size, lex_wide, lex_other,
}
use kenaf.Lexer.Advance.{Ends, ends, bind, weaken, Sound, byte, byte-lt, peek-byte, next-At}
use kenaf.Lexer.Safe.Numbers.{lex_number-Adv}
use kenaf.Lexer.Safe.Strings.{lex_identifier-Adv}
use kenaf.Lexer.Safe.Rounds.{Stepped, give-Stepped, plain-Stepped}

pub single_kind-zero : single_kind 0 ≡ none
unfolding single_kind
single_kind-zero = refl

pub assign_kinds-zero : assign_kinds 0 ≡ none
unfolding assign_kinds
assign_kinds-zero = refl

module _ (content : Bytes) where
  module _ (s : Lexer) (g : Sound content s) (inside : s.index < length content) where
    pub lex_period-Stepped :
        byte content s.index ≡ b'.' → Ends (Stepped content s.index) (lex_period content s.index s)
    unfolding lex_period
    lex_period-Stepped point = elim (Bool-cases (byte content (s.index + 1) == b'.')) [
      | inr other ↦
          rw (peek-byte content 1 s (omega arith), other, peek-byte content 1 s (omega arith))
            number
      | inl first ↦ elim (Bool-cases (byte content (s.index + 2) == b'.')) [
        | inr other ↦
            rw
              (
                peek-byte content 1 s (omega arith),
                first,
                peek-byte content 2 s (omega arith),
                other,
                peek-byte content 1 s (omega arith),
              )
              number
        | inl second ↦
            let last = byte-lt content (s.index + 2) (ground arith) in
            rw
              (
                peek-byte content 1 s (omega arith),
                first,
                peek-byte content 2 s (omega arith),
                second,
              )
              (plain-Stepped content 3 _ s g (omega arith) (omega arith))
      ]
    ]
      where
        number : Ends (Stepped content s.index) (
            (if within b'0' b'9' (byte content (s.index + 1))
                then lex_number content >>= (λ t. pure (some t))
                else plain content 1 Kind.period s.index)
              s)
        number = elim (Bool-cases (within b'0' b'9' (byte content (s.index + 1)))) [
          | inl d ↦ rw d (give-Stepped content s.index (lex_number-Adv content s g (inr point)))
          | inr other ↦ rw other (plain-Stepped content 1 _ s g (omega arith) (omega arith))
        ]

    -- The loop stops within the script: what it passes are continuation bytes.
    char_size_loop-le :
        (left size : ℕ)
        → s.index + size ≤ length content
        → left + size ≤ 4
        → Ends
            (λ k s'.
              Sound content s' × (s'.index ≡ s.index) × (size ≤ k) × (s.index + k ≤ length content))
            (char_size_loop content left size s)
    unfolding char_size_loop
    char_size_loop-le zero size h small = ends (g, refl, omega arith, h)
    char_size_loop-le (suc left) size h small =
        elim (Bool-cases (bit_and (byte content (s.index + size)) 0xC0 == 0x80)) [
          | inr stop ↦
              rw (peek-byte content size s (omega arith), stop) (ends (g, refl, omega arith, h))
          | inl more ↦
              let last =
                byte-lt content (s.index + size)
                  (λ z. let e : (bit_and 0 0xC0 == 0x80) ≡ true = rw z at more in cc) in
              rw (peek-byte content size s (omega arith), more)
                (weaken (char_size_loop-le left (size + 1) (omega arith) (omega arith))
                  λ k s' (g', e, a, b). (g', e, omega arith, b))
        ]

    skip-Stepped :
        (k : ℕ) (s₁ : Lexer)
        → Sound content s₁
        → s₁.index ≡ s.index
        → 1 ≤ k
        → s.index + k ≤ length content
        → Ends (Stepped content s.index) (and_then (next content k s₁) (λ _. pure none))
    skip-Stepped k s₁ g₁ e pos h =
        bind (next-At content k s₁ g₁ (omega arith)) λ c s₂ (e₂, (g₂, a₂)). ends (g₂, omega arith)

    starts_identifier :
        (c : ℕ)
        → (within b'A' b'Z' c || within b'a' b'z' c || c == b'_') ≡ true
        → is_identifier_char c ≡ true
    unfolding is_identifier_char
    starts_identifier c h = ground arith

    pub lex_other-Stepped :
        Ends (Stepped content s.index) (lex_other content (byte content s.index) s.index s)
    unfolding lex_other lex_wide utf8_size
    lex_other-Stepped =
        let c : ℕ = byte content s.index in
        elim (Bool-cases (within b'0' b'9' c)) [
          | inl d ↦ rw d (give-Stepped content s.index (lex_number-Adv content s g (inl d)))
          | inr no_digit ↦
              elim (Bool-cases (within b'A' b'Z' c || within b'a' b'z' c || c == b'_')) [
                | inl letter ↦
                    rw (no_digit, letter)
                      (give-Stepped content s.index
                        (lex_identifier-Adv content s g (starts_identifier c letter)))
                | inr no_letter ↦ elim (Bool-cases (within 0x20 0x7E c)) [
                  | inl printable ↦
                      rw (no_digit, no_letter, printable)
                        (skip-Stepped 1 (record s { errors = _ }) g refl (omega arith)
                          (omega arith))
                  | inr unprintable ↦ elim (Bool-cases (leb 0x80 c)) [
                    | inr ascii ↦
                        rw (no_digit, no_letter, unprintable, ascii)
                          (skip-Stepped 1 (record s { errors = _ }) g refl (omega arith)
                            (omega arith))
                    | inl wide ↦ rw (no_digit, no_letter, unprintable, wide) (wide-Stepped c)
                  ]
                ]
              ]
        ]
      where
        utf8_size_bound : (c : ℕ) → utf8_size c - 1 + 1 ≤ 4
        utf8_size_bound c = unfold utf8_size in ground arith

        wide-Stepped : (c : ℕ) → Ends (Stepped content s.index) (lex_wide content c s.index s)
        wide-Stepped c =
            bind (char_size_loop-le (utf8_size c - 1) 1 (omega arith) (utf8_size_bound c))
              λ k s₁ (g₁, e₁, pos, h). elim (Bool-cases (k == utf8_size c)) [
                | inl whole ↦ rw whole (skip-Stepped k (record s₁ { errors = _ }) g₁ e₁ pos h)
                | inr part ↦
                    rw part
                      (skip-Stepped 1 (record s₁ { errors = _ }) g₁ e₁ (omega arith) (omega arith))
              ]
