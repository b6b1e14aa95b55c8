-- ===== src/Source/Tests.antt =====
-- Source locations at small inputs.
use kenaf.Base.{◌+◌, ◌-◌, ◌≤◌, ◌<◌, ◌≡◌, [], ◌∷◌, ◌++◌, ok, arith, get_or, replicate}
use kenaf.Source.{SourceLocation, append, location}
use kenaf.Source.Location.{one_left, more_left, location-inverse, append-behind}

location-inverse_example :
    (l : SourceLocation) × (location (0 ∷ 5 ∷ 9 ∷ []) 7 ≡ ok l)
    × (1 ≤ l.line)
    × (l.line ≤ 3)
    × (1 ≤ l.column)
    × (get_or (0 ∷ 5 ∷ 9 ∷ []) (l.line - 1) 0 + (l.column - 1) ≡ 7)
    × (l.line < 3 → 7 < get_or (0 ∷ 5 ∷ 9 ∷ []) l.line 0)
location-inverse_example =
    location-inverse 7 (5 ∷ 9 ∷ []) (more_left (omega arith) (more_left (omega arith) one_left))
      (omega arith) (omega arith)

append-behind_example :
    append ((1 ∷ 2 ∷ []) ++ replicate 4 0) (3 ∷ []) ≡ ((1 ∷ 2 ∷ []) ++ 3 ∷ []) ++ replicate 4 0
append-behind_example = append-behind (1 ∷ 2 ∷ []) (3 ∷ [])
