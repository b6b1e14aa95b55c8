-- ===== src/RegMap.antt =====
-- The register map of the register allocator, source/compiler/ir_regmap.cpp: for each register a
-- sorted list of allocated and free intervals of the instruction indexes.
pub mod Ranges
pub mod Insertion
pub mod OneRegister
pub mod Allocation
pub mod Select
mod Tests
use kenaf.Base.{
  ℕ, zero, suc, ◌+◌, ◌-◌, ◌%◌, ◌^◌, Bool, true, false, not, List, [], ◌∷◌, ◌++◌, Run, ok, fault,
  ◌>>=◌, ◌>>◌, check_assert, deref, ltb, leb, ◌==◌, if◌then◌else◌, length, get_elem?, set,
  insert_at, erase_at,
}

-- `ir_value_range`
pub record ValueRange : Type 0 where
  pub local_index : ℕ
  pub lower : ℕ
  pub upper : ℕ

-- `ir_regmap::reg_range`; the entry covers the indexes from `index` up to that of the next entry.
pub record RegRange : Type 0 where
  pub index : ℕ
  pub alloc : Bool

abbrev pub Ranges : Type 0
Ranges = List RegRange

-- `_rr`
abbrev pub RegMap : Type 0
RegMap = List Ranges

-- A store into the bit field `unsigned index : 31`.
abbrev pub reg_range : ℕ → Bool → RegRange
reg_range index alloc = record { index = index % 2 ^ 31; alloc = alloc }

abbrev pub free_ranges : Ranges
free_ranges = reg_range 0 false ∷ reg_range 0x7FFFFFFF true ∷ []

-- `std::upper_bound` with `vr_lower < rr.index`: the position of the first entry past `lower`.
unfoldable pub upper_bound : ℕ → Ranges → ℕ
upper_bound lower [] = 0
upper_bound lower (r ∷ rs) = if ltb lower r.index then 0 else suc (upper_bound lower rs)

-- `--i`, which must not leave the vector.
abbrev pub prev : ℕ → Run ℕ
prev zero = fault
prev (suc i) = ok i

-- The body of the loop of `check`, from the entry at position `i`.
unfoldable pub check_at : Ranges → ℕ → ℕ → Run Bool
check_at rs i upper = do
  r ← deref (get_elem? rs i)
  if r.alloc then ok false else do
    n ← deref (get_elem? rs (suc i))
    check_assert n.alloc
    if ltb n.index upper then ok false else ok true

-- The body of the loop of `check`: true if the range does not interfere.
unfoldable pub check_range : Ranges → ValueRange → Run Bool
unfolding upper_bound check_at
check_range rs vr =
    if leb vr.upper vr.lower
    then ok true
    else do i ← prev (upper_bound vr.lower rs); check_at rs i vr.upper

unfoldable pub check_all : Ranges → List ValueRange → Run Bool
unfolding check_range
check_all rs [] = ok true
check_all rs (vr ∷ vrs) =
    let rest = check_all rs vrs in check_range rs vr >>= λ free. if free then rest else ok false

-- `ir_regmap::check`
unfoldable pub check : RegMap → ℕ → List ValueRange → Run Bool
unfolding check_all
check m r vrs =
    if leb (length m) r then ok true else do rs ← deref (get_elem? m r); check_all rs vrs

lowest_from : ℕ → ℕ → RegMap → List ValueRange → Run ℕ
unfolding check
lowest_from zero r m vrs = ok (length m)
lowest_from (suc n) r m vrs =
    let rest = lowest_from n (r + 1) m vrs in check m r vrs >>= λ free. if free then ok r else rest

-- `ir_regmap::lowest`
unfoldable pub lowest : RegMap → List ValueRange → Run ℕ
unfolding lowest_from
lowest m vrs = lowest_from (length m) 0 m vrs

top_from : ℕ → RegMap → ValueRange → Run ℕ
unfolding check
top_from zero m range = ok 0
top_from (suc r) m range =
    let rest = top_from r m range in
    check m r (range ∷ []) >>= λ free. if free then rest else ok (suc r)

-- `ir_regmap::top`
unfoldable pub top : RegMap → ℕ → Run ℕ
unfolding top_from
top m index =
    top_from (length m) m (record { local_index = 0xFEFF; lower = index; upper = index + 1 })

-- The second half of the loop of `allocate`: `i` is the position of the entry now allocated.
unfoldable pub close_range : Ranges → ℕ → ℕ → Run Ranges
close_range rs i upper = do
  next ← deref (get_elem? rs (suc i))
  check_assert next.alloc
  if ltb upper next.index
      then ok (insert_at rs (suc i) (reg_range upper false))
      else ok (erase_at rs (suc i))

-- The body of the loop of `allocate`, from the entry at position `i`.
unfoldable pub allocate_at : Ranges → ℕ → ℕ → ℕ → Run Ranges
unfolding close_range
allocate_at rs i lower upper = do
  r ← deref (get_elem? rs i)
  check_assert (not r.alloc)
  if r.index == lower
      then close_range (set rs i (record r { alloc = true })) i upper
      else close_range (insert_at rs (suc i) (reg_range lower true)) (suc i) upper

-- The body of the loop of `allocate`.
unfoldable pub allocate_range : Ranges → ValueRange → Run Ranges
unfolding upper_bound allocate_at
allocate_range rs vr =
    if leb vr.upper vr.lower
    then ok rs
    else do i ← prev (upper_bound vr.lower rs); allocate_at rs i vr.lower vr.upper

unfoldable pub allocate_all : Ranges → List ValueRange → Run Ranges
unfolding allocate_range
allocate_all rs [] = ok rs
allocate_all rs (vr ∷ vrs) = allocate_range rs vr >>= λ rs'. allocate_all rs' vrs

-- The loop that adds registers until register `r` exists; `n` is `r + 1 - size`.
unfoldable pub extend : ℕ → RegMap → RegMap
extend zero m = m
extend (suc n) m = extend n (m ++ free_ranges ∷ [])

-- `ir_regmap::allocate`
unfoldable pub allocate : RegMap → ℕ → List ValueRange → Run RegMap
unfolding allocate_all extend
allocate m r vrs = do
  let m' = extend (r + 1 - length m) m
  rs ← deref (get_elem? m' r)
  rs' ← allocate_all rs vrs
  ok (set m' r rs')

-- `ir_regmap::clear`
unfoldable pub clear : RegMap → RegMap
clear [] = []
clear (rs ∷ m) = free_ranges ∷ clear m
