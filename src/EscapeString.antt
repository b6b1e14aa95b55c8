-- ===== src/EscapeString.antt =====
-- `escape_string`, source/common/escape_string.cpp: a byte string as it is shown in messages. Whether
-- `char` is signed is left to the compiler, and is the first argument.
pub mod Printable
pub mod Reading
pub mod Escapes
pub mod Literal
mod Tests
use kenaf.Base.{
  ℕ, zero, suc, ◌+◌, ◌-◌, ◌*◌, ◌/◌, ◌%◌, ◌^◌, Bool, true, false, ◌&&◌, List, [], ◌∷◌, ◌++◌, Option,
  none, some, ltb, leb, ◌==◌, if◌then◌else◌, length, get_or, drop,
}

-- `unsigned c = s[ i ]`
unfoldable pub widen : Bool → ℕ → ℕ
widen signed c = if signed && leb 128 c then c + 4294967040 else c

-- The digits of the loop at the end, from the highest on
unfoldable pub hex_digit : ℕ → ℕ
hex_digit x = if leb x 9 then b'0' + x else b'A' + (x - 10)

unfoldable pub hex_loop : ℕ → ℕ → List ℕ
hex_loop zero hex = []
hex_loop (suc count) hex = hex_digit (hex / 16 ^ count % 16) ∷ hex_loop count hex

-- The cases of the switch that have a letter
unfoldable pub short_escape : ℕ → Option ℕ
short_escape c =
    if c == b'"'
    then some b'"'
    else if c == 92
    then some 92
    else if c == 8
    then some b'b'
    else if c == 12
    then some b'f'
    else if c == 10
    then some b'n'
    else if c == 13
    then some b'r'
    else if c == 9
    then some b't'
    else if c == 11
    then some b'v'
    else none

-- The default of the switch: what is appended, and the number of characters behind `c` that it takes.
-- `rest` holds what follows `c`.
unfoldable pub long_form : Bool → ℕ → List ℕ → List ℕ × ℕ
long_form signed c rest =
    let remaining = suc (length rest) in
    let d = widen signed (get_or rest 0 0) in
    let e = widen signed (get_or rest 1 0) in
    let f = widen signed (get_or rest 2 0) in
    if leb 32 c && ltb c 127
    then (c ∷ [], 0)
    else if leb 2 remaining && leb 192 c && ltb c 224
    then (92 ∷ b'u' ∷ hex_loop 4 (c % 32 * 64 + d % 64), 1)
    else if leb 3 remaining && leb 224 c && ltb c 240
    then (92 ∷ b'u' ∷ hex_loop 4 (c % 16 * 4096 + d % 64 * 64 + e % 64), 2)
    else if leb 4 remaining && leb 240 c && ltb c 248
    then (92 ∷ b'U' ∷ b'+' ∷ hex_loop 6 (c % 8 * 262144 + d % 64 * 4096 + e % 64 * 64 + f % 64), 3)
    else (92 ∷ b'x' ∷ hex_loop 2 c, 0)

unfoldable pub escape_one : Bool → ℕ → List ℕ → List ℕ × ℕ
escape_one signed c rest = elim (short_escape c) [
  | some letter ↦ (92 ∷ letter ∷ [], 0)
  | none ↦ long_form signed c rest
]

-- The loop over the characters that are left; each round takes at least one.
unfoldable pub escape_loop : ℕ → Bool → List ℕ → ℕ → List ℕ → List ℕ
escape_loop zero signed s max_length escaped = escaped
escape_loop (suc n) signed [] max_length escaped = escaped
escape_loop (suc n) signed (b ∷ rest) max_length escaped =
    let one = escape_one signed (widen signed b) rest in
    let escaped' = escaped ++ one.0 in
    let more = escape_loop n signed (drop one.1 rest) max_length escaped' in
    if leb max_length (length escaped') then escaped' ++ b'.' ∷ b'.' ∷ b'.' ∷ [] else more

-- `escape_string`
unfoldable pub escape_string : Bool → List ℕ → ℕ → List ℕ
escape_string signed s max_length =
    escape_loop (length s) signed s max_length (b'"' ∷ []) ++ b'"' ∷ []
