-- ===== src/EscapeString/Printable.antt =====
-- What `escape_string` of source/common/escape_string.cpp returns can be printed, and is not much
-- longer than asked for.
use kenaf.Base.{
  ℕ, zero, suc, ◌+◌, ◌/◌, ◌%◌, ◌^◌, ◌≤◌, ◌<◌, ◌≡◌, refl, inl, inr, max, Bool, ◌&&◌, List, [], ◌∷◌,
  ◌++◌, some, ltb, leb, arith, Bool-cases, Option-cases, length, drop, length-append,
}
use kenaf.EscapeString.{
  widen, hex_digit, hex_loop, short_escape, long_form, escape_one, escape_loop, escape_string,
}

-- Every character is one of ASCII that prints.
pub data IsPrintable : List ℕ → Type 0 where
  done : IsPrintable []
  prints : {c : ℕ} {cs : List ℕ} → 32 ≤ c → c < 127 → IsPrintable cs → IsPrintable (c ∷ cs)

append-IsPrintable : (xs ys : List ℕ) → IsPrintable xs → IsPrintable ys → IsPrintable (xs ++ ys)
append-IsPrintable [] ys p q = q
append-IsPrintable (x ∷ xs) ys (prints lo hi p) q = prints lo hi (append-IsPrintable xs ys p q)

hex_digit-prints : (x : ℕ) → x < 16 → (32 ≤ hex_digit x) × (hex_digit x < 127)
unfolding hex_digit
hex_digit-prints x h = (ground arith, ground arith)

hex_loop-IsPrintable : (n hex : ℕ) → IsPrintable (hex_loop n hex)
unfolding hex_loop
hex_loop-IsPrintable zero hex = done
hex_loop-IsPrintable (suc n) hex =
    let (lo, hi) = hex_digit-prints (hex / 16 ^ n % 16) (omega arith) in
    prints lo hi (hex_loop-IsPrintable n hex)

length-hex_loop : (n hex : ℕ) → length (hex_loop n hex) ≡ n
unfolding hex_loop
length-hex_loop zero hex = refl
length-hex_loop (suc n) hex = omega (arith, length-hex_loop n hex)

-- What one character becomes prints, and has at most nine characters.
abbrev Fits : List ℕ × ℕ → Type 0
Fits r = IsPrintable r.0 × (length r.0 ≤ 9)

short_escape-prints : (c letter : ℕ) → short_escape c ≡ some letter → (32 ≤ letter) × (letter < 127)
unfolding short_escape
short_escape-prints c letter h = (ground arith, ground arith)

hex-Fits :
    (prefix : List ℕ) (n hex taken : ℕ)
    → IsPrintable prefix
    → length prefix + n ≤ 9
    → Fits (prefix ++ hex_loop n hex, taken)
hex-Fits prefix n hex taken p h = (
  append-IsPrintable prefix (hex_loop n hex) p (hex_loop-IsPrintable n hex),
  omega (arith, length-append prefix (hex_loop n hex), length-hex_loop n hex),
)

long_form-Fits : (signed : Bool) (c : ℕ) (rest : List ℕ) → Fits (long_form signed c rest)
unfolding long_form
long_form-Fits signed c rest =
    let remaining = suc (length rest) in
    let pair = λ (x : ℕ) (lo : 32 ≤ x) (hi : x < 127).
      prints {c = 92} {cs = x ∷ []} (omega arith) (omega arith) (prints lo hi done) in
    let small = pair b'u' (omega arith) (omega arith) in
    let large : IsPrintable (92 ∷ b'U' ∷ b'+' ∷ []) =
      prints (omega arith) (omega arith)
        (prints (omega arith) (omega arith) (prints (omega arith) (omega arith) done)) in
    elim (Bool-cases (leb 32 c && ltb c 127)) [
      | inl e ↦ rw e (prints {c = c} (ground arith) (ground arith) done, omega arith)
      | inr e ↦ elim (Bool-cases (leb 2 remaining && leb 192 c && ltb c 224)) [
        | inl e₂ ↦ rw (e, e₂) (hex-Fits (92 ∷ b'u' ∷ []) 4 _ 1 small (omega arith))
        | inr e₂ ↦ elim (Bool-cases (leb 3 remaining && leb 224 c && ltb c 240)) [
          | inl e₃ ↦ rw (e, e₂, e₃) (hex-Fits (92 ∷ b'u' ∷ []) 4 _ 2 small (omega arith))
          | inr e₃ ↦ elim (Bool-cases (leb 4 remaining && leb 240 c && ltb c 248)) [
            | inl e₄ ↦
                rw (e, e₂, e₃, e₄) (hex-Fits (92 ∷ b'U' ∷ b'+' ∷ []) 6 _ 3 large (omega arith))
            | inr e₄ ↦
                rw (e, e₂, e₃, e₄)
                  (hex-Fits (92 ∷ b'x' ∷ []) 2 c 0 (pair b'x' (omega arith) (omega arith))
                    (omega arith))
          ]
        ]
      ]
    ]

escape_one-Fits : (signed : Bool) (c : ℕ) (rest : List ℕ) → Fits (escape_one signed c rest)
unfolding escape_one
escape_one-Fits signed c rest = elim (Option-cases (short_escape c)) [
  | inl other ↦ rw (escape_one, other) (long_form-Fits signed c rest)
  | inr (letter, is) ↦
      let (lo, hi) = short_escape-prints c letter is in
      rw (escape_one, is) (prints (omega arith) (omega arith) (prints lo hi done), omega arith)
]

escape_loop-IsPrintable :
    (n : ℕ) (signed : Bool) (s : List ℕ) (max_length : ℕ) (escaped : List ℕ)
    → IsPrintable escaped
    → length escaped < max max_length 2
    → IsPrintable (escape_loop n signed s max_length escaped)
      × (length (escape_loop n signed s max_length escaped) ≤ max max_length 2 + 11)
unfolding escape_loop
escape_loop-IsPrintable zero signed s max_length escaped p h = (p, omega arith)
escape_loop-IsPrintable (suc n) signed [] max_length escaped p h = (p, omega arith)
escape_loop-IsPrintable (suc n) signed (b ∷ rest) max_length escaped p h =
    let one = escape_one signed (widen signed b) rest in
    let (text, short) = escape_one-Fits signed (widen signed b) rest in
    let escaped' : List ℕ = escaped ++ one.0 in
    let p' = append-IsPrintable escaped one.0 p text in
    let dots : List ℕ = b'.' ∷ b'.' ∷ b'.' ∷ [] in
    let size = length-append escaped one.0 in
    elim (Bool-cases (leb max_length (length escaped'))) [
      | inl full ↦ rw full (
        append-IsPrintable escaped' dots p' (
            prints (omega arith) (omega arith)
              (prints (omega arith) (omega arith) (prints (omega arith) (omega arith) done))),
        omega (arith, length-append escaped' dots),
      )
      | inr more ↦
          rw more (
            escape_loop-IsPrintable n signed (drop one.1 rest) max_length escaped' p'
              (ground arith))
    ]

-- What `escape_string` returns consists of printing characters of ASCII, and is at most 12
-- characters longer than the length asked for, which counts as 2 at least.
pub escape_string-IsPrintable :
    (signed : Bool) (s : List ℕ) (max_length : ℕ)
    → IsPrintable (escape_string signed s max_length)
      × (length (escape_string signed s max_length) ≤ max max_length 2 + 12)
unfolding escape_string
escape_string-IsPrintable signed s max_length =
    let quote : IsPrintable (b'"' ∷ []) = prints (omega arith) (omega arith) done in
    let inner : List ℕ = escape_loop (length s) signed s max_length (b'"' ∷ []) in
    let (p, h) =
      escape_loop-IsPrintable (length s) signed s max_length (b'"' ∷ []) quote (omega arith) in
    (append-IsPrintable inner (b'"' ∷ []) p quote, omega (arith, length-append inner (b'"' ∷ [])))
