-- ===== src/Source.antt =====
-- The source object, source/compiler/source.cpp: the text of a script with its lookahead, and the table
-- of the starts of lines, by which a source location becomes a line and a column.
pub mod Location
mod Tests
use kenaf.Base.{
  ℕ, zero, suc, ◌+◌, ◌-◌, ◌*◌, ◌%◌, List, [], ◌∷◌, ◌++◌, Run, ok, fault, ◌>>=◌, ltb, leb,
  if◌then◌else◌, length, get_or, take, drop, replicate,
}

-- `source_location`
pub record SourceLocation : Type 0 where
  pub line : ℕ
  pub column : ℕ

-- `source::source`
abbrev pub empty_text : List ℕ
empty_text = replicate 4 0

-- `text.insert( text.end() - SOURCE_LOOKAHEAD, … )`
unfoldable pub append : List ℕ → List ℕ → List ℕ
append text added = let offset = length text - 4 in take offset text ++ added ++ drop offset text

-- `source::buffer`: the text with room for `size` characters, and the offset of the room.
unfoldable pub buffer : List ℕ → ℕ → List ℕ × ℕ
unfolding append
buffer text size = (append text (replicate size 0), length text - 4)

-- `source::size`
abbrev pub size : List ℕ → ℕ
size text = length text - 4

-- `std::upper_bound( newlines.begin(), newlines.end(), sloc )`
unfoldable pub upper_bound : ℕ → List ℕ → ℕ
upper_bound sloc [] = 0
upper_bound sloc (n ∷ ns) = if ltb sloc n then 0 else suc (upper_bound sloc ns)

-- `source::location`, with the arithmetic of 32-bit integers
unfoldable pub location : List ℕ → ℕ → Run SourceLocation
unfolding upper_bound
location newlines sloc = before (upper_bound sloc newlines)
  where
    before : ℕ → Run SourceLocation
    before zero = fault
    before (suc i) = ok (record {
      line = (i + 1) % 4294967296;
      column = (sloc - get_or newlines i 0 + 1) % 4294967296;
    })
