-- ===== src/RegMap/Insertion.antt =====
-- The entries of one register after `allocate` of source/compiler/ir_regmap.cpp has split or merged
-- them.
use kenaf.Base.{
  ℕ, suc, ◌≤◌, ◌<◌, suc, ◌≡◌, refl, inl, inr, ◌↔◌, Bool, true, false, not, ◌||◌, [], ◌∷◌, ok, ltb,
  if◌then◌else◌, arith, Bool-cases, ge_of_ltb,
}
use kenaf.RegMap.{RegRange, Ranges, upper_bound, check_at, allocate_at, close_range}
use kenaf.RegMap.Ranges.{covers, Sorted, in_range, covers-head}

module _ (lower upper : ℕ) (some_index : lower < upper) where
  abbrev Free : Bool → Ranges → Type 0
  Free c rs = (p : ℕ) → lower ≤ p → p < upper → covers c rs p ≡ false

  pub check_at-Free :
      (c : Bool) (x : RegRange) (rs : Ranges)
      → Sorted (x ∷ rs)
      → x.index ≤ lower
      → (b : Bool) × (check_at (x ∷ rs) (upper_bound lower rs) upper ≡ ok b)
        × ((b ≡ true) ↔ Free c (x ∷ rs))
  unfolding check_at upper_bound
  check_at-Free c x [] s le = (false, rw s, ((λ e. cc), λ f. ground (arith, f lower)))
  check_at-Free c x (y ∷ ys) s le = elim (Bool-cases (ltb lower y.index)) [
    | inr past ↦
        let (b, run, meaning) = check_at-Free x.alloc y ys s.2 (ge_of_ltb _ _ past) in
        (
          b,
          rw past run,
          (
            (λ e p l u. ground (arith, meaning.0 e p l u)),
            λ f. meaning.1 (λ p l u. ground (arith, f p l u)),
          ),
        )
    | inl here ↦ elim (Bool-cases x.alloc) [
      | inl taken ↦ (false, ground arith, ((λ e. cc), λ f. ground (arith, f lower)))
      | inr free ↦ elim (Bool-cases (ltb y.index upper)) [
        | inl over ↦ (
          false,
          ground arith,
          ((λ e. cc), λ f. ground (arith, f y.index, covers-head false y ys s.2)),
        )
        | inr clear ↦ (true, ground arith, ((λ e p l u. ground arith), λ f. refl))
      ]
    ]
  ]

-- The outcome of allocating the range on the list `x ∷ rs`.
pub record Allocated (lower upper : ℕ) (x : RegRange) (rs : Ranges) (h : RegRange) (t : Ranges)
    : Type 0 where
  pub start : h.index ≡ x.index
  pub taken : (not x.alloc || h.alloc) ≡ true
  pub sorted : Sorted (h ∷ t)
  pub meaning :
      (c : Bool) (p : ℕ) → covers c (h ∷ t) p ≡ (covers c (x ∷ rs) p || in_range lower upper p)

-- An allocated entry that takes the place of the one behind it.
pub Sorted-merge :
    (a y : RegRange) (ys : Ranges)
    → Sorted (y ∷ ys)
    → a.index ≤ y.index
    → a.alloc ≡ true
    → Sorted (a ∷ ys)
Sorted-merge a y [] s le taken = taken
Sorted-merge a y (z ∷ zs) s le taken = (omega arith, rw taken, s.2)

pub check_at-cons :
    (x : RegRange) (rs : Ranges) (i upper : ℕ)
    → check_at rs i upper ≡ check_at (x ∷ rs) (suc i) upper
unfolding check_at
check_at-cons x rs i upper = refl

pub allocate_at-cons :
    (x : RegRange) (rs rs' : Ranges) (i lower upper : ℕ)
    → allocate_at rs i lower upper ≡ ok rs'
    → allocate_at (x ∷ rs) (suc i) lower upper ≡ ok (x ∷ rs')
unfolding allocate_at close_range
allocate_at-cons x rs rs' i lower upper h = ground arith

pub upper_bound-nil : (lower : ℕ) → upper_bound lower [] ≡ 0
unfolding upper_bound
upper_bound-nil lower = refl

pub upper_bound-cons :
    (lower : ℕ) (y : RegRange) (ys : Ranges)
    → upper_bound lower (y ∷ ys) ≡ (if ltb lower y.index then 0 else suc (upper_bound lower ys))
unfolding upper_bound
upper_bound-cons lower y ys = refl
