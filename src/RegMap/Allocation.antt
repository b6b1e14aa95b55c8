-- ===== src/RegMap/Allocation.antt =====
-- `check`, `lowest`, `top` and `allocate` of source/compiler/ir_regmap.cpp over all registers.
use kenaf.Base.{
  ℕ, zero, suc, ◌+◌, ◌-◌, ◌≤◌, ◌<◌, ◌^◌, ◌≡◌, refl, inl, inr, ◌↔◌, ap, sym, ◌∙◌, Bool, true, false,
  ◌&&◌, ◌||◌, List, [], ◌∷◌, ◌++◌, ok, leb, ◌==◌, arith, Bool-cases, length, get_elem?, get_or, set,
  deref, length-append, get_or-set,
}
use kenaf.RegMap.{
  ValueRange, Ranges, RegMap, free_ranges, check_all, check, allocate_all, allocate, extend,
}
use kenaf.RegMap.Ranges.{covers, IsRanges, in_range}
use kenaf.RegMap.OneRegister.{check_range-Free, allocate_range-covers}

-- The indexes that the ranges ask for.
abbrev pub wanted : List ValueRange → ℕ → Bool
wanted [] p = false
wanted (v ∷ vs) p = in_range v.lower v.upper p || wanted vs p

-- Ranges that do not overlap one another, within the indexes that an entry can hold.
abbrev pub AreApart : List ValueRange → Type 0
AreApart [] = Unit {0}
AreApart (v ∷ vs) =
    ((p : ℕ) → (in_range v.lower v.upper p && wanted vs p) ≡ false)
    × (v.upper < 2 ^ 31)
    × AreApart vs

abbrev pub IsRegMap : RegMap → Type 0
IsRegMap [] = Unit {0}
IsRegMap (rs ∷ m) = IsRanges rs × IsRegMap m

-- Whether register `r` is allocated at the index `p`.
abbrev pub occupied : RegMap → ℕ → ℕ → Bool
occupied m r p = covers false (get_or m r []) p

abbrev IsFree : Ranges → List ValueRange → Type 0
IsFree rs vs = (p : ℕ) → wanted vs p ≡ true → covers false rs p ≡ false

check_all-Free :
    (rs : Ranges) (vs : List ValueRange)
    → IsRanges rs
    → (b : Bool) × (check_all rs vs ≡ ok b) × ((b ≡ true) ↔ IsFree rs vs)
unfolding check_all
check_all-Free rs [] h = (true, refl, ((λ e p w. cc), λ f. refl))
check_all-Free rs (v ∷ vs) h =
    let (first, run, meaning) = check_range-Free rs v h in
    let (rest, run', meaning') = check_all-Free rs vs h in
    elim (Bool-cases first) [
      | inl open_all ↦ (
        rest,
        rw (run, open_all) run',
        (
          (λ e p w. ground (arith, meaning.0 open_all p, meaning'.0 e p)),
          λ f. meaning'.1 (λ p w. f p (ground arith)),
        ),
      )
      | inr busy ↦ (
        false,
        rw (run, busy),
        ((λ e. cc), λ f. sym busy ∙ meaning.1 (λ p w. f p (ground arith))),
      )
    ]

allocate_all-covers :
    (rs : Ranges) (vs : List ValueRange)
    → IsRanges rs
    → AreApart vs
    → IsFree rs vs
    → (rs' : Ranges) × (allocate_all rs vs ≡ ok rs')
      × IsRanges rs'
      × ((p : ℕ) → covers false rs' p ≡ (covers false rs p || wanted vs p))
unfolding allocate_all
allocate_all-covers rs [] h apart free = (rs, refl, h, λ p. ground arith)
allocate_all-covers rs (v ∷ vs) h (apart, small, rest) free =
    let (b, checked, meaning) = check_range-Free rs v h in
    let fits = checked ∙ ap ok (meaning.1 (λ p w. free p (ground arith))) in
    let (rs', run, h', adds) = allocate_range-covers rs v h small fits in
    let (rs'', run', h'', adds') =
      allocate_all-covers rs' vs h' rest (λ p w. ground (arith, adds p, apart p, free p)) in
    (rs'', rw run run', h'', λ p. ground (arith, adds p, adds' p))

deref-get_elem? : (m : RegMap) (r : ℕ) → r < length m → deref (get_elem? m r) ≡ ok (get_or m r [])
deref-get_elem? [] r h = absurd (omega arith)
deref-get_elem? (rs ∷ m) zero h = refl
deref-get_elem? (rs ∷ m) (suc r) h = deref-get_elem? m r (omega arith)

get_or-past : (m : RegMap) (r : ℕ) → length m ≤ r → get_or m r [] ≡ []
get_or-past [] r h = refl
get_or-past (rs ∷ m) zero h = absurd (omega arith)
get_or-past (rs ∷ m) (suc r) h = get_or-past m r (omega arith)

get_or-IsRanges : (m : RegMap) (r : ℕ) → IsRegMap m → r < length m → IsRanges (get_or m r [])
get_or-IsRanges [] r v h = absurd (omega arith)
get_or-IsRanges (rs ∷ m) zero v h = v.0
get_or-IsRanges (rs ∷ m) (suc r) v h = get_or-IsRanges m r v.1 (omega arith)

set-IsRegMap : (m : RegMap) (r : ℕ) (rs : Ranges) → IsRegMap m → IsRanges rs → IsRegMap (set m r rs)
set-IsRegMap [] r rs v h = v
set-IsRegMap (x ∷ m) zero rs v h = (h, v.1)
set-IsRegMap (x ∷ m) (suc r) rs v h = (v.0, set-IsRegMap m r rs v.1 h)

-- In a valid map, `check` fails no assertion, and returns true exactly when register `r` is free
-- at every index of the ranges.
pub check-free :
    (m : RegMap) (r : ℕ) (vs : List ValueRange)
    → IsRegMap m
    → (b : Bool) × (check m r vs ≡ ok b)
      × ((b ≡ true) ↔ ((p : ℕ) → wanted vs p ≡ true → occupied m r p ≡ false))
unfolding check
check-free m r vs v = elim (Bool-cases (leb (length m) r)) [
  | inl past ↦
      let e = get_or-past m r (ground arith) in (true, rw past, ((λ _ p w. rw e), λ _. refl))
  | inr there ↦
      let lt : r < length m = ground arith in
      rw (there, deref-get_elem? m r lt) (check_all-Free _ vs (get_or-IsRanges m r v lt))
]

extend-IsRegMap :
    (n : ℕ) (m : RegMap) → IsRegMap m → IsRegMap (extend n m) × (length (extend n m) ≡ length m + n)
unfolding extend
extend-IsRegMap zero m v = (v, omega arith)
extend-IsRegMap (suc n) m v =
    let (v', e) = extend-IsRegMap n (m ++ free_ranges ∷ []) (append m v) in
    (v', omega (arith, e, length-append m (free_ranges ∷ [])))
  where
    append : (m : RegMap) → IsRegMap m → IsRegMap (m ++ free_ranges ∷ [])
    append [] v = ((omega arith, (omega arith, refl, refl)), tt)
    append (rs ∷ m) v = (v.0, append m v.1)

occupied-append :
    (m : RegMap) (r p : ℕ)
    → occupied (m ++ free_ranges ∷ []) r p ≡ (occupied m r p || (r == length m && leb 0x7FFFFFFF p))
occupied-append [] zero p = ground arith
occupied-append [] (suc r) p = ground arith
occupied-append (rs ∷ m) zero p = ground arith
occupied-append (rs ∷ m) (suc r) p = ground (arith, occupied-append m r p)

-- An index that an instruction can have; the entry that ends each list stands past all of these.
abbrev pub IsIndex : ℕ → Type 0
IsIndex p = p < 0x7FFFFFFF

occupied-extend :
    (n : ℕ) (m : RegMap) (r p : ℕ) → IsIndex p → occupied (extend n m) r p ≡ occupied m r p
unfolding extend
occupied-extend zero m r p h = refl
occupied-extend (suc n) m r p h =
    occupied-extend n (m ++ free_ranges ∷ []) r p h ∙ (rw (occupied-append m r p) (ground arith))

wanted-IsIndex : (vs : List ValueRange) (p : ℕ) → AreApart vs → wanted vs p ≡ true → IsIndex p
wanted-IsIndex [] p a w = cc
wanted-IsIndex (v ∷ vs) p (_, small, rest) w = elim (Bool-cases (in_range v.lower v.upper p)) [
  | inl first ↦ ground arith
  | inr later ↦ wanted-IsIndex vs p rest (ground arith)
]

-- In a valid map, ranges that do not overlap one another, that end below 2^31 and that pass
-- `check` for register `r` are allocated without a failed assertion; afterwards the map is
-- valid, and at the indexes that stand for instructions register `r` is allocated exactly where
-- it was and in the ranges, and every other register is as it was.
pub allocate-occupied :
    (m : RegMap) (r : ℕ) (vs : List ValueRange)
    → IsRegMap m
    → AreApart vs
    → check m r vs ≡ ok true
    → (m' : RegMap) × (allocate m r vs ≡ ok m')
      × IsRegMap m'
      × ((s p : ℕ) → IsIndex p → occupied m' s p ≡ (occupied m s p || (r == s && wanted vs p)))
unfolding allocate
allocate-occupied m r vs v apart fits =
    let (b, checked, meaning) = check-free m r vs v in
    let n : ℕ = r + 1 - length m in
    let (v', size) = extend-IsRegMap n m v in
    let inside : r < length (extend n m) = omega arith in
    let free : (p : ℕ) → wanted vs p ≡ true → occupied m r p ≡ false =
      meaning.0 (ground (arith, sym checked ∙ fits)) in
    let (rs', run, h, adds) =
      allocate_all-covers (get_or (extend n m) r []) vs (get_or-IsRanges _ r v' inside) apart
        (λ p w. occupied-extend n m r p (wanted-IsIndex vs p apart w) ∙ free p w) in
    (
      set (extend n m) r rs',
      rw (deref-get_elem? _ r inside, run),
      set-IsRegMap _ r rs' v' h,
      λ s p small. rw (get_or-set (extend n m) r s rs' [] inside) (elim (Bool-cases (r == s)) [
        | inl same ↦
            let e : r ≡ s = ground arith in
            rw same (adds p ∙ (rw (occupied-extend n m r p small, ← e) refl))
        | inr other ↦ rw other (ground (arith, occupied-extend n m s p small))
      ]),
    )
