-- ===== src/Base/Distinct.antt =====
-- Lists of numbers without duplicates.
use Prim.Native.Nat.{ℕ, zero, suc, ◌<◌, ◌≤◌}
use mathlib.Core.Path.{◌≡◌, refl, ap}
use mathlib.Core.Logic.{inl, inr}
use mathlib.Core.Bool.{Bool, true, false, ◌||◌}
use mathlib.Core.List.{List, [], ◌∷◌}
use native.Mathlib.Omega.{arith}
use kenaf.Base.Tests.{◌==◌, if◌then◌else◌, Bool-cases}
use kenaf.Base.Lists.{length}

abbrev pub mem : ℕ → List ℕ → Bool
mem i [] = false
mem i (j ∷ is) = i == j || mem i is

abbrev pub IsDistinct : List ℕ → Type 0
IsDistinct [] = Unit {0}
IsDistinct (i ∷ is) = (mem i is ≡ false) × IsDistinct is

abbrev pub remove : ℕ → List ℕ → List ℕ
remove i [] = []
remove i (j ∷ is) = if i == j then remove i is else j ∷ remove i is

pub mem-remove :
    (i j : ℕ) (is : List ℕ) → mem i (remove j is) ≡ true → (mem i is ≡ true) × ((i == j) ≡ false)
mem-remove i j [] h = cc
mem-remove i j (k ∷ is) h = ground (arith, mem-remove i j is)

pub remove-IsDistinct : (j : ℕ) (is : List ℕ) → IsDistinct is → IsDistinct (remove j is)
remove-IsDistinct j [] h = tt
remove-IsDistinct j (k ∷ is) (n, h) = elim (Bool-cases (j == k)) [
  | inl same ↦ rw same (remove-IsDistinct j is h)
  | inr other ↦ rw other (ground (arith, mem-remove k j is), remove-IsDistinct j is h)
]

pub remove-absent : (j : ℕ) (is : List ℕ) → mem j is ≡ false → remove j is ≡ is
remove-absent j [] h = refl
remove-absent j (k ∷ is) h =
    let other : (j == k) ≡ false = ground arith in
    rw other (ap (λ r. k ∷ r) (remove-absent j is (ground arith)))

length-remove : (j : ℕ) (is : List ℕ) → IsDistinct is → length is ≤ suc (length (remove j is))
length-remove j [] h = omega arith
length-remove j (k ∷ is) (n, h) = elim (Bool-cases (j == k)) [
  | inl same ↦
      let absent : mem j is ≡ false = ground arith in
      rw (same, remove-absent j is absent) (omega arith)
  | inr other ↦ rw other (omega (arith, length-remove j is h))
]

-- There are no more distinct numbers below `n` than `n`.
pub length-IsDistinct :
    (n : ℕ) (is : List ℕ) → IsDistinct is → ((i : ℕ) → mem i is ≡ true → i < n) → length is ≤ n
length-IsDistinct n [] d h = omega arith
length-IsDistinct zero (i ∷ is) d h = absurd (omega (arith, h i (ground arith)))
length-IsDistinct (suc n) (i ∷ is) d h =
    let js = remove n (i ∷ is) in
    omega (
      arith,
      length-remove n (i ∷ is) d,
      length-IsDistinct n js (remove-IsDistinct n (i ∷ is) d)
          (λ k m. ground (arith, mem-remove k n (i ∷ is) m, h k)),
    )
