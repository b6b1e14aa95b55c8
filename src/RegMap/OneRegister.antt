-- ===== src/RegMap/OneRegister.antt =====
-- `check` and `allocate` of source/compiler/ir_regmap.cpp for one range and the entries of one
-- register.
use kenaf.Base.{
  ℕ, ◌≤◌, ◌<◌, ◌^◌, ◌≡◌, refl, ◌∙◌, inl, inr, ◌↔◌, Bool, true, false, ◌||◌, [], ◌∷◌, ok, ltb, leb,
  ◌==◌, arith, Bool-cases, ltb_of_ge, lt_of_ltb, ge_of_ltb,
}
use kenaf.RegMap.{
  RegRange, ValueRange, Ranges, upper_bound, check_at, check_range, allocate_at, allocate_range,
  close_range, reg_range,
}
use kenaf.RegMap.Ranges.{covers, Sorted, IsRanges, in_range}
use kenaf.RegMap.Insertion.{
  check_at-Free, Allocated, Sorted-merge, check_at-cons, allocate_at-cons, upper_bound-nil,
  upper_bound-cons,
}

module _ (lower upper : ℕ) (some_index : lower < upper) (small : upper < 2 ^ 31) where
  -- The range begins at or behind the first entry and in front of the second.
  allocate_first-Allocated :
      (x y : RegRange) (ys : Ranges)
      → Sorted (x ∷ y ∷ ys)
      → x.index ≤ lower
      → lower < y.index
      → check_at (x ∷ y ∷ ys) 0 upper ≡ ok true
      → (h : RegRange) × (t : Ranges) × (allocate_at (x ∷ y ∷ ys) 0 lower upper ≡ ok (h ∷ t))
        × Allocated lower upper x (y ∷ ys) h t
  unfolding allocate_at close_range check_at
  allocate_first-Allocated x y ys s le lt fits = elim (Bool-cases (x.index == lower)) [
    | inl same ↦ elim (Bool-cases (ltb upper y.index)) [
      | inl room ↦ (
        record x { alloc = true },
        reg_range upper false ∷ y ∷ ys,
        ground arith,
        record {
          start = refl;
          taken = ground arith;
          sorted = ground arith;
          meaning = λ c p. ground arith;
        },
      )
      | inr tight ↦ (
        record x { alloc = true },
        ys,
        ground arith,
        record {
          start = refl;
          taken = ground arith;
          sorted = Sorted-merge _ y ys s.2 (omega arith) refl;
          meaning = λ c p. ground arith;
        },
      )
    ]
    | inr apart ↦ elim (Bool-cases (ltb upper y.index)) [
      | inl room ↦ (
        x,
        reg_range lower true ∷ reg_range upper false ∷ y ∷ ys,
        ground arith,
        record {
          start = refl;
          taken = ground arith;
          sorted = ground arith;
          meaning = λ c p. ground arith;
        },
      )
      | inr tight ↦ (
        x,
        reg_range lower true ∷ ys,
        ground arith,
        record {
          start = refl;
          taken = ground arith;
          sorted = (ground arith, ground arith, Sorted-merge _ y ys s.2 (omega arith) refl);
          meaning = λ c p. ground arith;
        },
      )
    ]
  ]

  allocate_at-Allocated :
      (x : RegRange) (rs : Ranges)
      → Sorted (x ∷ rs)
      → x.index ≤ lower
      → check_at (x ∷ rs) (upper_bound lower rs) upper ≡ ok true
      → (h : RegRange) × (t : Ranges) × (allocate_at (x ∷ rs) (upper_bound lower rs) lower upper
          ≡ ok (h ∷ t))
        × Allocated lower upper x rs h t
  allocate_at-Allocated x [] s le fits =
      let fits' = rw (upper_bound-nil lower) at fits in absurd (unfold check_at in ground arith)
  allocate_at-Allocated x (y ∷ ys) s le fits = elim (Bool-cases (ltb lower y.index)) [
    | inl here ↦
        let e = upper_bound-cons lower y ys in
        rw (e, here)
          (allocate_first-Allocated x y ys s le (lt_of_ltb _ _ here) (rw (e, here) at fits))
    | inr past ↦
        let e = upper_bound-cons lower y ys in
        let (h, t, run, a) =
          allocate_at-Allocated y ys s.2 (ge_of_ltb _ _ past)
            (check_at-cons x (y ∷ ys) _ upper ∙ (rw (e, past) at fits)) in
        (
          x,
          h ∷ t,
          rw (e, past) (allocate_at-cons x (y ∷ ys) _ _ lower upper run),
          record {
            start = refl;
            taken = ground arith;
            sorted = (omega (arith, a.start), ground (arith, a.taken), a.sorted);
            meaning = λ c p. ground (arith, a.meaning x.alloc p);
          },
        )
  ]

-- The check of one range neither faults nor fails an assertion, and says whether every index of
-- the range is free.
pub check_range-Free :
    (rs : Ranges) (v : ValueRange)
    → IsRanges rs
    → (b : Bool) × (check_range rs v ≡ ok b)
      × ((b ≡ true) ↔ ((p : ℕ) → in_range v.lower v.upper p ≡ true → covers false rs p ≡ false))
unfolding check_range upper_bound
check_range-Free [] v h = elim h [ ]
check_range-Free (x ∷ rs) v (zero_start, s) = elim (Bool-cases (leb v.upper v.lower)) [
  | inl none_wanted ↦ (true, rw none_wanted, ((λ e p w. ground arith), λ f. refl))
  | inr wide ↦
      let (b, run, meaning) =
        check_at-Free v.lower v.upper (ground arith) false x rs s (omega arith) in
      (
        b,
        rw (wide, ltb_of_ge v.lower x.index (omega arith)) run,
        (
          (λ e p w. meaning.0 e p (ground arith) (ground arith)),
          λ f. meaning.1 (λ p l u. f p (ground arith)),
        ),
      )
]

-- A range that passes the check is added, and nothing else changes.
pub allocate_range-covers :
    (rs : Ranges) (v : ValueRange)
    → IsRanges rs
    → v.upper < 2 ^ 31
    → check_range rs v ≡ ok true
    → (rs' : Ranges) × (allocate_range rs v ≡ ok rs')
      × IsRanges rs'
      × ((p : ℕ) → covers false rs' p ≡ (covers false rs p || in_range v.lower v.upper p))
unfolding check_range allocate_range upper_bound
allocate_range-covers [] v h small fits = elim h [ ]
allocate_range-covers (x ∷ rs) v (zero_start, s) small fits =
    elim (Bool-cases (leb v.upper v.lower)) [
      | inl none_wanted ↦ (x ∷ rs, rw none_wanted, (zero_start, s), λ p. ground arith)
      | inr wide ↦
          let low : ltb v.lower x.index ≡ false = ltb_of_ge _ _ (omega arith) in
          let (h, t, run, a) =
            allocate_at-Allocated v.lower v.upper (ground arith) small x rs s (omega arith)
              (rw (wide, low) at fits) in
          (h ∷ t, rw (wide, low) run, (omega (arith, a.start), a.sorted), a.meaning false)
    ]
