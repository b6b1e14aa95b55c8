-- ===== src/Lexer/Safe/Numbers.antt =====
-- `lex_number` and `string_hex` of source/compiler/lexer.cpp.
use kenaf.Base.{
  ℕ, zero, suc, ◌+◌, ◌≤◌, ◌<◌, ◌≡◌, ◌≢◌, refl, ap, sym, ◌∙◌, ◌⊎◌, inl, inr, Bool, true, false, ◌&&◌,
  ◌||◌, ltb, leb, ◌==◌, if◌then◌else◌, arith, length, Bool-cases, eq_of_==,
}
use kenaf.Lexer.Token.{Bytes, Message, no_digits, missing_exponent, invalid_suffix}
use kenaf.Lexer.State.{srcloc, Lexer, and_then, pure, next, text}
use kenaf.Lexer.Number.{
  digit, digits_loop, digits, within, number_letter, number_base, fraction, exponent_sign, exponent,
  check_error, lex_number, string_hex, int_max,
}
use kenaf.Lexer.Advance.{
  Ends, ends, bind, weaken, Sound, Adv, At, byte, byte-index, byte-lt, peek-byte, next-At,
  length-text,
}

digit-zero : digit 0 ≡ int_max
unfolding digit
digit-zero = refl

-- The null character is no digit.
pub digit-ne_zero : (c base : ℕ) → ltb (digit c) base ≡ true → base ≤ int_max → c ≢ 0
digit-ne_zero c base h le z =
    let h' : ltb (digit 0) base ≡ true = rw z at h in ground (arith, digit-zero)

-- One step if the test holds.
abbrev pub moves : Bool → ℕ
moves b = if b then 1 else 0

module _ (content : Bytes) where
  pub digits_loop-At :
      (fuel base : ℕ) (has : Bool) (c : ℕ) (s : Lexer)
      → base ≤ 16
      → At content s.index c s
      → length content + 1 < s.index + fuel
      → Ends
          (λ r. At content (s.index + moves (ltb (digit c) base)) r.1)
          (digits_loop content fuel base has c s)
  unfolding digits_loop
  digits_loop-At zero base has c s small (e, (g, _)) enough = absurd (omega arith)
  digits_loop-At (suc fuel) base has c s small (e, (g, _)) enough =
      elim (Bool-cases (ltb (digit c) base)) [
        | inr stop ↦ rw stop (ends (e, (g, omega arith)))
        | inl more ↦
            let inside : s.index < length content =
              byte-index content s (λ z. digit-ne_zero c base more (omega arith) (e ∙ z)) in
            rw more (
              bind (next-At content 1 (record s { buffer = _ }) g (omega arith))
                λ c' s' (e', (g', ahead)).
                  weaken
                    (digits_loop-At fuel base true c' s' small (e', (g', omega arith))
                      (omega arith))
                    λ r s'' (e'', (g'', ahead')). (e'', (g'', omega arith)))
      ]

  pub digits-At :
      (base : ℕ) (has : Bool) (c : ℕ) (s : Lexer)
      → base ≤ 16
      → At content s.index c s
      → Ends
          (λ r. At content (s.index + moves (ltb (digit c) base)) r.1)
          (digits content base has c s)
  digits-At base has c s small at =
      digits_loop-At (length (text content)) base has c s small at
        (omega (arith, length-text content))

  -- A step over a character that is not null, and on to what follows.
  pub step-At :
      (c : ℕ) (s : Lexer)
      → At content s.index c s
      → c ≢ 0
      → Ends (At content (s.index + 1)) (next content 1 s)
  step-At c s (e, (g, _)) h =
      next-At content 1 s g (omega (arith, byte-index content s (λ z. h (e ∙ z))))

  fraction-At :
      (base : ℕ) (has : Bool) (c : ℕ) (s : Lexer)
      → base ≤ 16
      → At content s.index c s
      → Ends
          (λ r. At content (s.index + moves ((base == 10 || base == 16) && c == b'.')) r.2)
          (fraction content base has c s)
  unfolding fraction
  fraction-At base has c s small (e, (g, a)) =
      let at : At content s.index c s = (e, (g, a)) in
      elim (Bool-cases ((base == 10 || base == 16) && c == b'.')) [
        | inr stop ↦ rw stop (ends (e, (g, omega arith)))
        | inl point ↦ rw point (
            bind (step-At c (record s { buffer = _ }) at (ground arith)) λ c' s' (e', (g', ahead)).
              bind (digits-At base has c' s' small (e', (g', omega arith)))
                λ r s'' (e'', (g'', ahead')). ends (e'', (g'', omega arith)))
      ]

  exponent_sign-At :
      (c : ℕ) (s : Lexer)
      → At content s.index c s
      → Ends (At content s.index) (exponent_sign content c s)
  unfolding exponent_sign
  exponent_sign-At c s at = elim (Bool-cases (c == b'+' || c == b'-')) [
    | inr none_there ↦ rw none_there (ends at)
    | inl sign ↦ rw sign (
        weaken (step-At c (record s { buffer = _ }) at (ground arith))
          λ c' s' (e', (g', ahead)). (e', (g', omega arith)))
  ]

  -- A diagnostic changes nothing that the position depends on.
  pub check_error-At :
      (bad : Bool) (sloc i c : ℕ) (m : Message) (s : Lexer)
      → At content i c s
      → Ends (λ _. At content i c) (check_error bad sloc m s)
  check_error-At true sloc i c m s at = ends at
  check_error-At false sloc i c m s at = ends at

  exponent-At :
      (sloc base : ℕ) (real : Bool) (c : ℕ) (s : Lexer)
      → At content s.index c s
      → Ends (λ r. At content s.index r.1) (exponent content sloc base real c s)
  unfolding exponent
  exponent-At sloc base real c s at =
      elim (Bool-cases (base == 10 && c == b'e' || base == 16 && c == b'p')) [
        | inr stop ↦ rw stop (ends at)
        | inl more ↦ rw more (
            bind (step-At c (record s { buffer = _ }) at (ground arith)) λ a s₁ (e₁, (g₁, ahead₁)).
              bind (exponent_sign-At a s₁ (e₁, (g₁, omega arith))) λ d s₂ (e₂, (g₂, ahead₂)).
                bind
                  (check_error-At (leb 10 (digit d)) sloc s₂.index d missing_exponent s₂
                    (e₂, (g₂, omega arith)))
                  λ _ s₃ (e₃, (g₃, ahead₃)).
                    bind (digits-At 10 false d s₃ (omega arith) (e₃, (g₃, omega arith)))
                      λ r s₄ (e₄, (g₄, ahead₄)). ends (e₄, (g₄, omega arith)))
      ]

  -- The prefix of a literal is two characters, or none.
  abbrev Prefix : ℕ → ℕ → Lexer → Type 0
  Prefix i base s =
      (base ≤ 16) × Sound content s × ((i + 2 ≤ s.index) ⊎ ((base ≡ 10) × (s.index ≡ i)))

  number_base-Prefix :
      (sloc : ℕ) (s : Lexer) → Sound content s → Ends (Prefix s.index) (number_base content sloc s)
  unfolding number_base number_letter
  number_base-Prefix sloc s g = elim (Bool-cases (byte content (s.index + 0) == b'0')) [
    | inr other ↦
        rw (peek-byte content 0 s (omega arith), other) (ends (omega arith, g, inr (refl, refl)))
    | inl z ↦
        rw (peek-byte content 0 s (omega arith), z, peek-byte content 1 s (omega arith))
          (letters (byte content (s.index + 1)) (byte-lt content (s.index + 1)))
  ]
    where
      skip :
          (base : ℕ)
          → base ≤ 16
          → s.index + 1 < length content
          → Ends (Prefix s.index) (and_then (next content 2 s) (λ _. pure base))
      skip base small inside =
          bind (next-At content 2 s g (omega arith))
            λ c s' (e, (g', ahead)). ends (small, g', inl ahead)

      letters :
          (p : ℕ)
          → (p ≢ 0 → s.index + 1 < length content)
          → Ends (Prefix s.index) (number_letter content sloc p s)
      letters p inside = elim (Bool-cases (p == b'b')) [
        | inl b ↦ rw b (skip 2 (omega arith) (inside (ground arith)))
        | inr not_b ↦ elim (Bool-cases (p == b'o')) [
          | inl o ↦ rw (not_b, o) (skip 8 (omega arith) (inside (ground arith)))
          | inr not_o ↦ elim (Bool-cases (p == b'x')) [
            | inl x ↦ rw (not_b, not_o, x) (skip 16 (omega arith) (inside (ground arith)))
            | inr not_x ↦ elim (Bool-cases (within b'0' b'9' p)) [
              | inl d ↦ rw (not_b, not_o, not_x, d) (ends (omega arith, g, inr (refl, refl)))
              | inr plain ↦
                  rw (not_b, not_o, not_x, plain) (ends (omega arith, g, inr (refl, refl)))
            ]
          ]
        ]
      ]

  -- The literal begins with a digit, or with a point where no digit is.
  abbrev pub StartsNumber : ℕ → Type 0
  StartsNumber c = (within b'0' b'9' c ≡ true) ⊎ (c ≡ b'.')

  decimal_moves : (c : ℕ) → within b'0' b'9' c ≡ true → ltb (digit c) 10 ≡ true
  unfolding digit
  decimal_moves c h = ground arith

  -- The digits and the fraction together move at least one step.
  fraction_moves :
      (base c c₁ : ℕ) (s s₁ s₂ : Lexer)
      → c ≡ byte content s.index
      → c₁ ≡ byte content s₁.index
      → s.index + moves (ltb (digit c) base) ≤ s₁.index
      → s₁.index + moves ((base == 10 || base == 16) && c₁ == b'.') ≤ s₂.index
      → s.index + moves ((base == 10) && (ltb (digit c) 10 || c == b'.')) ≤ s₂.index
  fraction_moves base c c₁ s s₁ s₂ e e₁ a b = elim (Bool-cases (s.index == s₁.index)) [
    | inl same ↦
        let i : s.index ≡ s₁.index = eq_of_== _ _ same in
        let unmoved : c ≡ c₁ = e ∙ (ap (byte content) i ∙ sym e₁) in ground (arith, unmoved)
    | inr other ↦ ground arith
  ]

  starts_moves : (c : ℕ) → StartsNumber c → moves (ltb (digit c) 10 || c == b'.') ≡ 1
  starts_moves c (inl d) = rw (decimal_moves c d)
  starts_moves c (inr p) = ground arith

  -- `lex_number` ends behind the first character of its literal.
  pub lex_number-Adv :
      (s : Lexer)
      → Sound content s
      → StartsNumber (byte content s.index)
      → Ends
          (λ t s'. Adv content (s.index + 1) s' × (t.sloc ≡ srcloc s.index))
          (lex_number content s)
  unfolding lex_number
  lex_number-Adv s g starts = bind (number_base-Prefix s.index s g) λ base s₁ (small, g₁, prefix).
      let c : ℕ = byte content (s₁.index + 0) in
      rw (peek-byte content 0 s₁ (omega arith)) (
        bind (digits-At base false c s₁ small (here s₁, (g₁, omega arith))) λ d s₂ (e₂, (g₂, a₂)).
          bind (fraction-At base d.0 d.1 s₂ small (e₂, (g₂, omega arith))) λ f s₃ (e₃, (g₃, a₃)).
            let far = fraction_moves base c d.1 s₁ s₂ s₃ (here s₁) e₂ a₂ a₃ in
            bind
              (check_error-At (if f.1 then false else true) s.index s₃.index f.2 no_digits s₃
                (e₃, (g₃, omega arith)))
              λ _ s₄ (e₄, (g₄, a₄)).
                bind (exponent-At s.index base f.0 f.2 s₄ (e₄, (g₄, omega arith)))
                  λ x s₅ (e₅, (g₅, a₅)).
                    bind
                      (check_error-At (ltb (digit x.1) int_max) s₅.index s₅.index x.1 invalid_suffix
                        s₅ (e₅, (g₅, omega arith)))
                      λ _ s₆ (e₆, (g₆, a₆)).
                        ends ((g₆, moved base s₁ s₃ s₆ prefix far (omega arith)), refl))
    where
      here : (s₁ : Lexer) → byte content (s₁.index + 0) ≡ byte content s₁.index
      here s₁ = ap (byte content) (omega arith)

      moved :
          (base : ℕ) (s₁ s₃ s₆ : Lexer)
          → ((s.index + 2 ≤ s₁.index) ⊎ ((base ≡ 10) × (s₁.index ≡ s.index)))
          → s₁.index
              + moves (
                  (base == 10)
                  && (ltb (digit (byte content (s₁.index + 0))) 10
                      || byte content (s₁.index + 0) == b'.'))
            ≤ s₃.index
          → s₃.index ≤ s₆.index
          → s.index + 1 ≤ s₆.index
      moved base s₁ s₃ s₆ (inl far) a b = omega arith
      moved base s₁ s₃ s₆ (inr (ten, same)) a b =
          let e : byte content (s₁.index + 0) ≡ byte content s.index =
            ap (byte content) (omega arith) in
          let one = starts_moves (byte content s.index) starts in
          let a' = rw (e, ten) at a in omega (arith, one)

  -- `string_hex` reads at most `count` digits.
  pub string_hex-At :
      (count c x : ℕ) (s : Lexer)
      → At content s.index c s
      → Ends (λ r. At content s.index r.1) (string_hex content count c x s)
  unfolding string_hex
  string_hex-At zero c x s at = ends at
  string_hex-At (suc count) c x s at = elim (Bool-cases (ltb (digit c) 16)) [
    | inr stop ↦ rw stop (ends at)
    | inl more ↦ rw more (
        bind (step-At c s at (digit-ne_zero c 16 more (omega arith))) λ c' s' (e', (g', a')).
          weaken (string_hex-At count c' _ s' (e', (g', omega arith)))
            λ r s'' (e'', (g'', a'')). (e'', (g'', omega arith)))
  ]
