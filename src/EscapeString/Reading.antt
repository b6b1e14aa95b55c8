-- ===== src/EscapeString/Reading.antt =====
-- What `escape_string` of source/common/escape_string.cpp returns, read as a string literal of the
-- language, source/compiler/lexer.cpp.
use mathlib.Core.List.{append_assoc}
use kenaf.Base.{
  ℕ, zero, suc, ◌+◌, ◌*◌, ◌/◌, ◌%◌, ◌^◌, ◌≤◌, ◌<◌, ◌≡◌, ◌≢◌, ◌⊎◌, refl, subst, ◌∙◌, inl, inr, Bool,
  true, false, ◌&&◌, List, [], ◌∷◌, ◌++◌, none, some, ltb, leb, if◌then◌else◌, arith, Bool-cases,
  Option-cases, length, length-append,
}
use kenaf.Lexer.Number.{digit}
use kenaf.Lexer.Text.{simple_escape}
use kenaf.EscapeString.{
  widen, hex_digit, hex_loop, short_escape, long_form, escape_one, escape_loop, escape_string,
}

-- The text behind the opening quote of a literal, up to the closing one, and the string that it
-- stands for: a character that is no control character stands for itself, and the escapes are those that the lexer knows, one letter, or `x` and two digits.
pub data Reads : List ℕ → List ℕ → Type 0 where
  closed : Reads (b'"' ∷ []) []
  plain : {c : ℕ} {t s : List ℕ} → 32 ≤ c → c ≢ b'"' → c ≢ b'\\' → Reads t s → Reads (c ∷ t) (c ∷ s)
  letter :
      {c x : ℕ} {t s : List ℕ}
      → simple_escape c ≡ some x
      → Reads t s
      → Reads (b'\\' ∷ c ∷ t) (x ∷ s)
  two_digits :
      {h l : ℕ} {t s : List ℕ}
      → digit h < 16
      → digit l < 16
      → Reads t s
      → Reads (b'\\' ∷ b'x' ∷ h ∷ l ∷ t) ((digit h * 16 + digit l) ∷ s)

-- The bytes that are escaped one by one: with a signed `char` all of them, else those of ASCII.
abbrev pub limit : Bool → ℕ
limit signed = if signed then 256 else 128

abbrev pub AllBelow : ℕ → List ℕ → Type 0
AllBelow n [] = Unit {0}
AllBelow n (b ∷ bs) = (b < n) × AllBelow n bs

digit-hex_digit : (x : ℕ) → x < 16 → digit (hex_digit x) ≡ x
unfolding digit hex_digit
digit-hex_digit x h = ground arith

simple_escape-short_escape : (c x : ℕ) → short_escape c ≡ some x → simple_escape x ≡ some c
unfolding simple_escape short_escape
simple_escape-short_escape c x h = ground arith

short_escape-none : (c : ℕ) → short_escape c ≡ none → (c ≢ b'"') × (c ≢ b'\\')
unfolding short_escape
short_escape-none c h = (ground arith, ground arith)

-- One byte, in front of any text that can be read
abbrev Step : ℕ → List ℕ × ℕ → Type 0
Step b r = (r.1 ≡ 0) × (length r.0 ≤ 4) × ((t s : List ℕ) → Reads t s → Reads (r.0 ++ t) (b ∷ s))

hex_loop-Step : (c b : ℕ) → c % 256 ≡ b → Step b (92 ∷ b'x' ∷ hex_loop 2 c, 0)
unfolding hex_loop
hex_loop-Step c b e = (
  refl,
  omega arith,
  λ t s r.
      let high = digit-hex_digit (c / 16 ^ 1 % 16) (omega arith) in
      let low = digit-hex_digit (c / 16 ^ 0 % 16) (omega arith) in
      let value : digit (hex_digit (c / 16 ^ 1 % 16)) * 16 + digit (hex_digit (c / 16 ^ 0 % 16))
          ≡ b =
        rw (high, low) (omega arith) in
      subst (λ x. Reads (92 ∷ b'x' ∷ hex_loop 2 c ++ t) (x ∷ s)) value
        (two_digits (omega (arith, high)) (omega (arith, low)) r),
)

widen-small : (signed : Bool) (b : ℕ) → widen signed b < 128 → widen signed b ≡ b
unfolding widen
widen-small signed b h = ground arith

widen-low : (signed : Bool) (b : ℕ) → b < limit signed → widen signed b % 256 ≡ b
unfolding widen
widen-low true b h = ground arith
widen-low false b h = ground arith

widen-outside :
    (signed : Bool) (b : ℕ) → b < limit signed → (widen signed b < 128) ⊎ (248 ≤ widen signed b)
unfolding widen
widen-outside true b h = ground arith
widen-outside false b h = ground arith

short_escape-lt : (c x : ℕ) → short_escape c ≡ some x → c < 128
unfolding short_escape
short_escape-lt c x h = ground arith

long_form-Step :
    (signed : Bool) (b : ℕ) (rest : List ℕ)
    → b < limit signed
    → short_escape (widen signed b) ≡ none
    → Step b (long_form signed (widen signed b) rest)
unfolding long_form
long_form-Step signed b rest h other =
    let c = widen signed b in
    let remaining = suc (length rest) in
    let outside = widen-outside signed b h in
    elim (Bool-cases (leb 32 c && ltb c 127)) [
      | inl e ↦
          let same : c ≡ b = widen-small signed b (ground arith) in
          let (no_quote, no_escape) = short_escape-none c other in
          rw e (
            refl,
            omega arith,
            λ t s r.
                subst (λ x. Reads (c ∷ t) (x ∷ s)) same (plain (ground arith) no_quote no_escape r),
          )
      | inr e ↦
          let e₂ : (leb 2 remaining && leb 192 c && ltb c 224) ≡ false = ground arith in
          let e₃ : (leb 3 remaining && leb 224 c && ltb c 240) ≡ false = ground arith in
          let e₄ : (leb 4 remaining && leb 240 c && ltb c 248) ≡ false = ground arith in
          rw (e, e₂, e₃, e₄) (hex_loop-Step c b (widen-low signed b h))
    ]

escape_one-Step :
    (signed : Bool) (b : ℕ) (rest : List ℕ)
    → b < limit signed
    → Step b (escape_one signed (widen signed b) rest)
unfolding escape_one
escape_one-Step signed b rest h = elim (Option-cases (short_escape (widen signed b))) [
  | inl other ↦ rw (escape_one, other) (long_form-Step signed b rest h other)
  | inr (x, is) ↦
      let same = widen-small signed b (short_escape-lt (widen signed b) x is) in
      let back = simple_escape-short_escape (widen signed b) x is in
      rw (escape_one, is)
        (refl, omega arith, λ t s r. subst (λ y. Reads (92 ∷ x ∷ t) (y ∷ s)) same (letter back r))
]

escape_loop-Reads :
    (n : ℕ) (signed : Bool) (s : List ℕ) (max_length : ℕ) (escaped : List ℕ)
    → AllBelow (limit signed) s
    → length s ≤ n
    → length escaped + 4 * length s < max_length
    → (t : List ℕ) × (escape_loop n signed s max_length escaped ++ b'"' ∷ [] ≡ escaped ++ t)
      × Reads t s
unfolding escape_loop
escape_loop-Reads zero signed [] max_length escaped below enough room = (b'"' ∷ [], refl, closed)
escape_loop-Reads (suc n) signed [] max_length escaped below enough room = (b'"' ∷ [], refl, closed)
escape_loop-Reads zero signed (b ∷ s) max_length escaped below enough room = absurd (omega arith)
escape_loop-Reads (suc n) signed (b ∷ s) max_length escaped below enough room =
    let one = escape_one signed (widen signed b) s in
    let (single, short, step) = escape_one-Step signed b s below.0 in
    let size = length-append escaped one.0 in
    let short_of_max : leb max_length (length (escaped ++ one.0)) ≡ false = ground arith in
    let (t, run, reads) =
      escape_loop-Reads n signed s max_length (escaped ++ one.0) below.1 (omega arith)
        (omega (arith, size)) in
    (one.0 ++ t, rw (short_of_max, single) (run ∙ append_assoc escaped one.0 t), step t s reads)

-- If a string is short enough not to be cut, and its bytes are below 128, or `char` is signed, then what
-- `escape_string` returns is a string literal that stands for it: behind the opening quote each
-- byte is itself, or an escape that the lexer reads as that byte, up to the closing quote.
pub escape_string-Reads :
    (signed : Bool) (s : List ℕ) (max_length : ℕ)
    → AllBelow (limit signed) s
    → 1 + 4 * length s < max_length
    → (t : List ℕ) × (escape_string signed s max_length ≡ b'"' ∷ t) × Reads t s
unfolding escape_string
escape_string-Reads signed s max_length below room =
    escape_loop-Reads (length s) signed s max_length (b'"' ∷ []) below (omega arith) room
