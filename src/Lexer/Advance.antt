-- ===== src/Lexer/Advance.antt =====
-- Reads of the source text: what a run that returns leaves behind, and the rules of proof for
-- `peek`, `next`, `newline` and the tests.
use kenaf.Base.{
  ℕ, zero, suc, ◌+◌, ◌≤◌, ◌<◌, ◌≡◌, ◌≢◌, refl, ◌∙◌, ap, inl, inr, Bool, true, false, List, [], ◌∷◌,
  ◌++◌, Run, ok, ltb, ◌==◌, if◌then◌else◌, arith, length, get_or, replicate, length-append,
  get_or-replicate, get_or-past, Bool-cases,
}
use kenaf.Lexer.Token.{Bytes}
use kenaf.Lexer.State.{
  Lexer, M, and_then, pure, ◌>>=◌, last_or, srcloc, source_newline, get_index, text, peek, next,
  newline,
}

-- The run returns, and its result and state satisfy `P`.
pub data Ends {A : Type 0} (P : A → Lexer → Type 0) : Run (A × Lexer) → Type 0 where
  ends : {r : A × Lexer} → P r.0 r.1 → Ends P (ok r)

module _ {A : Type 0} {P : A → Lexer → Type 0} where
  pub bind :
      {B : Type 0} {Q : B → Lexer → Type 0} {r : Run (A × Lexer)} {k : A → M B}
      → Ends P r
      → ((a : A) (s : Lexer) → P a s → Ends Q (k a s))
      → Ends Q (and_then r k)
  bind (ends p) follow = follow _ _ p

  pub weaken :
      {Q : A → Lexer → Type 0} {r : Run (A × Lexer)}
      → Ends P r
      → ((a : A) (s : Lexer) → P a s → Q a s)
      → Ends Q r
  weaken (ends p) follow = ends (follow _ _ p)

  pub branch :
      (b : Bool) (x y : M A) (s : Lexer)
      → (b ≡ true → Ends P (x s))
      → (b ≡ false → Ends P (y s))
      → Ends P ((if b then x else y) s)
  branch true x y s first second = first refl
  branch false x y s first second = second refl

get_or-text : (content : Bytes) (i : ℕ) → get_or (text content) i 0 ≡ get_or content i 0
get_or-text [] i = get_or-replicate 4 i
get_or-text (c ∷ cs) zero = refl
get_or-text (c ∷ cs) (suc i) = get_or-text cs i

pub length-text : (content : Bytes) → length (text content) ≡ length content + 4
length-text content = length-append content (replicate 4 0)

last_or-append : (xs : List ℕ) (x d : ℕ) → last_or (xs ++ x ∷ []) d ≡ x
last_or-append [] x d = refl
last_or-append (y ∷ ys) x d = last_or-append ys x y

module _ (content : Bytes) where
  -- The character at a position; past the script it is the null character.
  abbrev pub byte : ℕ → ℕ
  byte i = get_or content i 0

  -- The position is at most one past the end of the script, and no line begins behind it.
  abbrev pub Good : Lexer → Type 0
  Good s = (s.index ≤ length content + 1) × (last_or s.newlines 0 ≤ s.index)

  -- The same, in a script whose positions fit in a `srcloc`.
  abbrev pub Sound : Lexer → Type 0
  Sound s =
      (s.index ≤ length content + 1)
      × (last_or s.newlines 0 ≤ s.index)
      × (length content + 1 < 4294967296)

  -- A sound state at position `i` or behind it.
  abbrev pub Adv : ℕ → Lexer → Type 0
  Adv i s = Sound s × (i ≤ s.index)

  -- The same, with the character at the position.
  abbrev pub At : ℕ → ℕ → Lexer → Type 0
  At i c s = (c ≡ byte s.index) × Adv i s

  pub byte-lt : (i : ℕ) → byte i ≢ 0 → i < length content
  byte-lt i h = elim (Bool-cases (ltb i (length content))) [
    | inl inside ↦ ground arith
    | inr past ↦ absurd (h (get_or-past content i (ground arith)))
  ]

  pub byte-index : (s : Lexer) → byte s.index ≢ 0 → s.index < length content
  byte-index s = byte-lt s.index

  pub peek-byte :
      (i : ℕ) (s : Lexer)
      → s.index + i < length content + 4
      → peek content i s ≡ ok (byte (s.index + i), s)
  unfolding peek
  peek-byte i s h =
      let inside : ltb (s.index + i) (length (text content)) ≡ true =
        ground (arith, length-text content) in
      rw (inside, get_or-text content (s.index + i))

  pub peek-At : (s : Lexer) → Sound s → Ends (λ c s'. At s.index c s' × (s' ≡ s)) (peek content 0 s)
  peek-At s g =
      rw (peek-byte 0 s (omega arith)) (ends ((ap byte (omega arith), (g, omega arith)), refl))

  pub next-byte :
      (k : ℕ) (s : Lexer)
      → s.index + k < length content + 4
      → next content k s ≡ ok (byte (s.index + k), record s { index = s.index + k })
  unfolding next
  next-byte k s h =
      peek-byte 0 (record s { index = s.index + k }) (omega arith)
      ∙ ap (λ i. ok (byte i, record s { index = s.index + k })) (omega arith)

  pub next-At :
      (k : ℕ) (s : Lexer)
      → Sound s
      → s.index + k ≤ length content + 1
      → Ends (At (s.index + k)) (next content k s)
  next-At k s g h =
      rw (next-byte k s (omega arith)) (ends (refl, ((h, omega arith, omega arith), omega arith)))

  pub srcloc-index : (s : Lexer) → Sound s → srcloc s.index ≡ s.index
  srcloc-index s g = omega arith

  pub source_newline-lem :
      (s : Lexer)
      → Sound s
      → source_newline s.index s ≡ ok (tt, record s { newlines = s.newlines ++ s.index ∷ [] })
  unfolding source_newline
  source_newline-lem s g = rw (srcloc-index s g) (ground arith)

  pub newline-At :
      (s : Lexer) → Sound s → s.index < length content → Ends (At (s.index + 1)) (newline content s)
  unfolding newline
  newline-At s g h = elim (Bool-cases (byte (s.index + 0) == b'\r')) [
    | inr other ↦ rw (peek-byte 0 s (omega arith), other) (finish 1 (omega arith) (omega arith))
    | inl cr ↦ elim (Bool-cases (byte (s.index + 1) == b'\n')) [
      | inr other ↦
          rw (peek-byte 0 s (omega arith), cr, peek-byte 1 s (omega arith), other)
            (finish 1 (omega arith) (omega arith))
      | inl lf ↦
          rw (peek-byte 0 s (omega arith), cr, peek-byte 1 s (omega arith), lf)
            (finish 2 (omega arith) (omega (arith, byte-lt (s.index + 1) (ground arith))))
    ]
  ]
    where
      finish :
          (k : ℕ)
          → 1 ≤ k
          → s.index + k ≤ length content + 1
          → Ends (At (s.index + 1)) (
              and_then
                (next content k s)
                (λ c. get_index >>= λ i. source_newline i >>= λ _. pure c))
      finish k pos le = bind (next-At k s g le) λ c s' (e, (g', ahead)).
          rw (source_newline-lem s' g') (
            ends (
              e,
              (
                (g'.0, omega (arith, last_or-append s'.newlines s'.index 0), omega arith),
                omega arith,
              ),
            ))
