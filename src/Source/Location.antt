-- ===== src/Source/Location.antt =====
-- Source locations and the text of source/compiler/source.cpp.
use kenaf.Base.{
  ℕ, zero, suc, ◌+◌, ◌-◌, ◌%◌, ◌≤◌, ◌<◌, ◌≡◌, refl, inl, inr, List, [], ◌∷◌, ◌++◌, ok, ltb, arith,
  Bool-cases, ltb_of_ge, length, get_or, replicate, length-append, take-append, drop-append,
}
use kenaf.Source.{SourceLocation, append, upper_bound, location}

-- Every entry is at most the next.
pub data IsAscending : List ℕ → Type 0 where
  none_left : IsAscending []
  one_left : {x : ℕ} → IsAscending (x ∷ [])
  more_left : {x y : ℕ} {ys : List ℕ} → x ≤ y → IsAscending (y ∷ ys) → IsAscending (x ∷ y ∷ ys)

-- The entries in front of the upper bound are at most the location, and those from it on are past it.
upper_bound-before :
    (sloc : ℕ) (ns : List ℕ) (i : ℕ) → i < upper_bound sloc ns → get_or ns i 0 ≤ sloc
unfolding upper_bound
upper_bound-before sloc [] i h = absurd (omega arith)
upper_bound-before sloc (n ∷ ns) zero h = ground arith
upper_bound-before sloc (n ∷ ns) (suc i) h = upper_bound-before sloc ns i (ground arith)

ascending-least :
    (x : ℕ) (xs : List ℕ) (i : ℕ) → IsAscending (x ∷ xs) → i < length xs → x ≤ get_or xs i 0
ascending-least x (y ∷ ys) zero (more_left le a) h = le
ascending-least x (y ∷ ys) (suc i) (more_left le a) h =
    omega (arith, ascending-least y ys i a (omega arith), le)
ascending-least x [] i a h = absurd (omega arith)

upper_bound-from :
    (sloc : ℕ) (ns : List ℕ) (i : ℕ)
    → IsAscending ns
    → upper_bound sloc ns ≤ i
    → i < length ns
    → sloc < get_or ns i 0
unfolding upper_bound
upper_bound-from sloc [] i a h k = absurd (omega arith)
upper_bound-from sloc (n ∷ ns) zero a h k = ground arith
upper_bound-from sloc (n ∷ ns) (suc i) a h k = elim (Bool-cases (ltb sloc n)) [
  | inl past ↦ ground (arith, ascending-least n ns i a)
  | inr reached ↦ upper_bound-from sloc ns i (later a) (ground arith) (omega arith)
]
  where
    later : {x : ℕ} {xs : List ℕ} → IsAscending (x ∷ xs) → IsAscending xs
    later one_left = none_left
    later (more_left le a) = a

upper_bound-bounds : (sloc : ℕ) (ns : List ℕ) → upper_bound sloc ns ≤ length ns
unfolding upper_bound
upper_bound-bounds sloc [] = omega arith
upper_bound-bounds sloc (n ∷ ns) = ground (arith, upper_bound-bounds sloc ns)

-- A location below 2^32 - 1 is found in a table of newlines that ascends from 0 and has fewer
-- than 2^32 entries: the line is one of the table, the start of the line and the column give the
-- location back, and the next line starts past it.
pub location-inverse :
    (sloc : ℕ) (ns : List ℕ)
    → IsAscending (0 ∷ ns)
    → sloc < 4294967295
    → length (0 ∷ ns) < 4294967296
    → (l : SourceLocation) × (location (0 ∷ ns) sloc ≡ ok l)
      × (1 ≤ l.line)
      × (l.line ≤ length (0 ∷ ns))
      × (1 ≤ l.column)
      × (get_or (0 ∷ ns) (l.line - 1) 0 + (l.column - 1) ≡ sloc)
      × (l.line < length (0 ∷ ns) → sloc < get_or (0 ∷ ns) l.line 0)
unfolding location upper_bound
location-inverse sloc ns a small short =
    let k = upper_bound sloc ns in
    let column = sloc - get_or (0 ∷ ns) k 0 + 1 in
    let start : get_or (0 ∷ ns) k 0 ≤ sloc = upper_bound-before sloc (0 ∷ ns) k (ground arith) in
    let fits : (k + 1) % 4294967296 ≡ k + 1 = omega (arith, upper_bound-bounds sloc ns) in
    let back : get_or (0 ∷ ns) (k + 1 - 1) 0 + (column - 1) ≡ sloc = rw (again k) (omega arith) in
    let narrow : column % 4294967296 ≡ column = omega arith in
    (
      record { line = k + 1; column = column },
      rw (ltb_of_ge sloc 0 (omega arith), fits, narrow) refl,
      omega arith,
      omega (arith, upper_bound-bounds sloc ns),
      omega arith,
      back,
      λ next. upper_bound-from sloc (0 ∷ ns) (k + 1) a (ground arith) next,
    )
  where
    again : (k : ℕ) → k + 1 - 1 ≡ k
    again k = omega arith

-- `append` puts the new text behind the old, in front of the null characters of the lookahead.
pub append-behind :
    (content added : List ℕ)
    → append (content ++ replicate 4 0) added ≡ (content ++ added) ++ replicate 4 0
unfolding append
append-behind content added =
    let offset : length (content ++ replicate 4 0) - 4 ≡ length content =
      omega (arith, length-append content (replicate {A = ℕ} 4 0)) in
    rw (
      offset,
      take-append content (replicate {A = ℕ} 4 0),
      drop-append content (replicate {A = ℕ} 4 0),
    )
