-- ===== src/RegMap/Tests.antt =====
-- The register map at a small input.
use kenaf.Base.{
  ℕ, suc, ◌≤◌, ◌<◌, ◌≡◌, refl, ◌↔◌, Bool, true, false, ◌||◌, ◌&&◌, List, [], ◌∷◌, ok, ◌==◌, arith,
}
use kenaf.RegMap.{
  ValueRange, RegMap, reg_range, free_ranges, upper_bound, check_at, check_range, check_all, check,
  lowest, top, allocate,
}
use kenaf.RegMap.Allocation.{
  wanted, AreApart, IsRegMap, occupied, IsIndex, check-free, allocate-occupied,
}
use kenaf.RegMap.Select.{IsClear, lowest_least, top_highest}

-- Register 0 is allocated from 4 to 9.
abbrev two_registers : RegMap
two_registers =
    (reg_range 0 false ∷ reg_range 4 true ∷ reg_range 9 false ∷ reg_range 0x7FFFFFFF true ∷ [])
    ∷ free_ranges
    ∷ []

abbrev two_ranges : List ValueRange
two_ranges =
    record { local_index = 0; lower = 1; upper = 3 }
    ∷ record { local_index = 0; lower = 9; upper = 12 }
    ∷ []

two_registers-IsRegMap : IsRegMap two_registers
two_registers-IsRegMap = (
  (refl, (omega arith, refl, (omega arith, refl, (omega arith, refl, refl)))),
  ((refl, (omega arith, refl, refl)), tt),
)

two_ranges-AreApart : AreApart two_ranges
two_ranges-AreApart = ((λ p. ground arith), omega arith, ((λ p. ground arith), omega arith, tt))

two_ranges-fit : check two_registers 0 two_ranges ≡ ok true
unfolding check check_all check_range check_at upper_bound
two_ranges-fit = refl

check-free_example :
    (b : Bool) × (check two_registers 0 two_ranges ≡ ok b)
    × ((b ≡ true) ↔ ((p : ℕ) → wanted two_ranges p ≡ true → occupied two_registers 0 p ≡ false))
check-free_example = check-free two_registers 0 two_ranges two_registers-IsRegMap

allocate-occupied_example :
    (m' : RegMap) × (allocate two_registers 0 two_ranges ≡ ok m')
    × IsRegMap m'
    × ((s p : ℕ)
        → IsIndex p
        → occupied m' s p ≡ (occupied two_registers s p || (0 == s && wanted two_ranges p)))
allocate-occupied_example =
    allocate-occupied two_registers 0 two_ranges two_registers-IsRegMap two_ranges-AreApart
      two_ranges-fit

lowest_least_example :
    (k : ℕ) × (lowest two_registers two_ranges ≡ ok k)
    × (k ≤ 2)
    × (k < 2 → IsClear two_registers k two_ranges)
    × ((j : ℕ) → j < k → ¬ IsClear two_registers j two_ranges)
lowest_least_example = lowest_least two_registers two_ranges two_registers-IsRegMap

top_highest_example :
    (k : ℕ) × (top two_registers 5 ≡ ok k)
    × (k ≤ 2)
    × ((j : ℕ) → k ≤ j → j < 2 → occupied two_registers j 5 ≡ false)
    × ((j : ℕ) → k ≡ suc j → occupied two_registers j 5 ≡ true)
top_highest_example = top_highest two_registers 5 two_registers-IsRegMap
