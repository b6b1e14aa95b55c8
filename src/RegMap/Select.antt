-- ===== src/RegMap/Select.antt =====
-- `lowest` and `top` of source/compiler/ir_regmap.cpp.
use kenaf.Base.{
  ℕ, zero, suc, ◌+◌, ◌≤◌, ◌<◌, ◌≡◌, refl, inl, inr, true, false, List, [], ◌∷◌, ok, ltb, arith,
  Bool-cases, length,
}
use kenaf.RegMap.{ValueRange, RegMap, lowest_from, lowest, top_from, top}
use kenaf.RegMap.Allocation.{wanted, IsRegMap, occupied, check-free}

-- No index of the ranges is allocated in register `r`.
abbrev pub IsClear : RegMap → ℕ → List ValueRange → Type 0
IsClear m r vs = (p : ℕ) → wanted vs p ≡ true → occupied m r p ≡ false

module _ (m : RegMap) (vs : List ValueRange) (v : IsRegMap m) where
  lowest_from-IsClear :
      (n r : ℕ)
      → r + n ≡ length m
      → (k : ℕ) × (lowest_from n r m vs ≡ ok k)
        × (k ≤ length m)
        × (k < length m → IsClear m k vs)
        × ((j : ℕ) → r ≤ j → j < k → ¬ IsClear m j vs)
  unfolding lowest_from
  lowest_from-IsClear zero r e =
      (length m, refl, omega arith, (λ lt. absurd (omega arith)), λ j a b. absurd (omega arith))
  lowest_from-IsClear (suc n) r e =
      let (b, run, meaning) = check-free m r vs v in
      let (k, run', le, clear, least) = lowest_from-IsClear n (r + 1) (omega arith) in
      elim (Bool-cases b) [
        | inl fits ↦
            (r, rw (run, fits), omega arith, (λ lt. meaning.0 fits), λ j a b. absurd (omega arith))
        | inr busy ↦ (
          k,
          rw (run, busy) run',
          le,
          clear,
          λ j a below. elim (Bool-cases (ltb r j)) [
            | inl past ↦ least j (ground arith) below
            | inr here ↦
                let same : j ≡ r = ground arith in λ c. ground (arith, meaning.1 (rw same at c))
          ],
        )
      ]

  -- In a valid map, `lowest` returns the lowest register that is free at every index of the
  -- ranges, or the number of registers where there is none.
  pub lowest_least :
      (k : ℕ) × (lowest m vs ≡ ok k)
      × (k ≤ length m)
      × (k < length m → IsClear m k vs)
      × ((j : ℕ) → j < k → ¬ IsClear m j vs)
  unfolding lowest
  lowest_least =
      let (k, run, le, clear, least) = lowest_from-IsClear (length m) 0 (omega arith) in
      (k, run, le, clear, λ j. least j (omega arith))

module _ (m : RegMap) (index : ℕ) (v : IsRegMap m) where
  abbrev point : ValueRange
  point = record { local_index = 0xFEFF; lower = index; upper = index + 1 }

  top_from-IsTop :
      (r : ℕ)
      → (k : ℕ) × (top_from r m point ≡ ok k)
        × (k ≤ r)
        × ((j : ℕ) → k ≤ j → j < r → occupied m j index ≡ false)
        × ((j : ℕ) → k ≡ suc j → occupied m j index ≡ true)
  unfolding top_from
  top_from-IsTop zero =
      (0, refl, omega arith, (λ j a b. absurd (omega arith)), λ j e. absurd (omega arith))
  top_from-IsTop (suc r) =
      let (b, run, meaning) = check-free m r (point ∷ []) v in
      let (k, run', le, above, last) = top_from-IsTop r in
      elim (Bool-cases b) [
        | inl fits ↦ (
          k,
          rw (run, fits) run',
          omega arith,
          (λ j a below. elim (Bool-cases (ltb j r)) [
            | inl lower ↦ above j a (ground arith)
            | inr here ↦
                let same : j ≡ r = ground arith in rw same (meaning.0 fits index (ground arith))
          ]),
          last,
        )
        | inr busy ↦ (
          suc r,
          rw (run, busy),
          omega arith,
          (λ j a below. absurd (omega arith)),
          λ j e.
              let same : j ≡ r = omega arith in
              rw same (elim (Bool-cases (occupied m r index)) [
                | inl taken ↦ taken
                | inr free ↦
                    let all : IsClear m r (point ∷ []) =
                      λ p w. let at : p ≡ index = ground arith in rw at free in
                    ground (arith, meaning.1 all)
              ]),
        )
      ]

  -- In a valid map, `top` returns the number of registers up to the highest that is allocated at
  -- the index: every register from there on is free at it, and the one below is allocated.
  pub top_highest :
      (k : ℕ) × (top m index ≡ ok k)
      × (k ≤ length m)
      × ((j : ℕ) → k ≤ j → j < length m → occupied m j index ≡ false)
      × ((j : ℕ) → k ≡ suc j → occupied m j index ≡ true)
  unfolding top
  top_highest = top_from-IsTop (length m)
