-- ===== src/RegMap/Ranges.antt =====
-- One register of source/compiler/ir_regmap.cpp: what its sorted list of intervals stands for, and
-- `check` and `allocate` of one range against it.
use kenaf.Base.{ℕ, ◌<◌, ◌≡◌, Bool, true, ◌&&◌, ◌||◌, [], ◌∷◌, ltb, leb, if◌then◌else◌, arith}
use kenaf.RegMap.{RegRange, Ranges}

-- Whether the entries allocate the index `p`; `b` holds in front of the first entry.
abbrev pub covers : Bool → Ranges → ℕ → Bool
covers b [] p = b
covers b (r ∷ rs) p = if ltb p r.index then b else covers r.alloc rs p

-- Increasing entries, an allocated one after each free one, and an allocated one at the end.
abbrev pub Sorted : Ranges → Type 0
Sorted [] = ⊥
Sorted (r ∷ []) = r.alloc ≡ true
Sorted (r ∷ s ∷ rs) = (r.index < s.index) × ((r.alloc || s.alloc) ≡ true) × Sorted (s ∷ rs)

abbrev pub IsRanges : Ranges → Type 0
IsRanges [] = ⊥
IsRanges (r ∷ rs) = (r.index ≡ 0) × Sorted (r ∷ rs)

abbrev pub in_range : ℕ → ℕ → ℕ → Bool
in_range lower upper p = leb lower p && ltb p upper

pub covers-head :
    (c : Bool) (x : RegRange) (rs : Ranges) → Sorted (x ∷ rs) → covers c (x ∷ rs) x.index ≡ x.alloc
covers-head c x [] s = ground arith
covers-head c x (y ∷ ys) s = ground arith
