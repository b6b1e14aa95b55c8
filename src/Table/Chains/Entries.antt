-- ===== src/Table/Chains/Entries.antt =====
-- The entries of the slots of a table, and how they change with one slot more or less in use.
use kenaf.Base.{
  ℕ, zero, suc, ◌+◌, ◌<◌, ◌≡◌, ◌≢◌, refl, sym, ◌∙◌, ap, inl, inr, ◌⊎◌, true, false, ◌==◌,
  if◌then◌else◌, arith, Bool-cases, eq_of_==, ne_of_==,
}
use kenaf.Table.{Key, KvSlot, is_vacant}
use kenaf.Table.Chains.{Slots, IsUsed}

-- A slot in use holds the value at the key.
abbrev pub Holds : Slots → ℕ → Key → ℕ → Type 0
Holds at count k v = (i : ℕ) × (i < count) × IsUsed at i × ((at i).k ≡ k) × ((at i).v ≡ v)

-- No key is in two slots.
abbrev pub IsUnique : Slots → ℕ → Type 0
IsUnique at count =
    (i j : ℕ) → i < count → j < count → IsUsed at i → IsUsed at j → (at i).k ≡ (at j).k → i ≡ j

-- The number of slots in use among the first
abbrev pub in_use : ℕ → Slots → ℕ
in_use zero at = 0
in_use (suc n) at = (if is_vacant (at n).next then 0 else 1) + in_use n at

-- Two slots are both free, or hold the same entry.
abbrev pub IsAs : KvSlot → KvSlot → Type 0
IsAs s t = (s.k ≡ t.k) × (s.v ≡ t.v) × (is_vacant s.next ≡ is_vacant t.next)

-- The slots `at'` hold one entry more, in the slot `n`: the entry that was there is in the slot `f`,
-- which was free.
pub record Extends (count : ℕ) (at at' : Slots) (n f : ℕ) (key : Key) (val : ℕ) : Type 0 where
  pub n_lt : n < count
  pub f_lt : f < count
  pub free : is_vacant (at f).next ≡ true
  pub used : IsUsed at' n
  pub used_f : IsUsed at' f
  pub own : (at' n).k ≡ key
  pub value : (at' n).v ≡ val
  pub moved : n ≢ f → IsAs (at' f) (at n)
  pub same : (i : ℕ) → i ≢ n → i ≢ f → IsAs (at' i) (at i)

pub in_use-same :
    (n : ℕ) (at at' : Slots)
    → ((i : ℕ) → i < n → is_vacant (at' i).next ≡ is_vacant (at i).next)
    → in_use n at' ≡ in_use n at
in_use-same zero at at' same = refl
in_use-same (suc n) at at' same =
    rw (same n (omega arith), in_use-same n at at' (λ i lt. same i (omega arith))) refl

in_use-one_more :
    (n : ℕ) (at at' : Slots) (f : ℕ)
    → f < n
    → is_vacant (at f).next ≡ true
    → is_vacant (at' f).next ≡ false
    → ((i : ℕ) → i ≢ f → is_vacant (at' i).next ≡ is_vacant (at i).next)
    → in_use n at' ≡ suc (in_use n at)
in_use-one_more zero at at' f lt free used same = absurd (omega arith)
in_use-one_more (suc n) at at' f lt free used same = elim (Bool-cases (n == f)) [
  | inl last ↦
      rw (eq_of_== n f last, free, used, in_use-same f at at' (λ i lt'. same i (λ e. ground arith)))
        (omega arith)
  | inr other ↦
      let rest = in_use-one_more n at at' f (ground arith) free used same in
      rw (same n (ne_of_== n f other), rest) (omega arith)
]

-- A table with fewer slots in use than it has holds a free one.
pub in_use-free :
    (n : ℕ) (at : Slots) → in_use n at < n → (i : ℕ) × (i < n) × (is_vacant (at i).next ≡ true)
in_use-free zero at lt = absurd (omega arith)
in_use-free (suc n) at lt = elim (Bool-cases (is_vacant (at n).next)) [
  | inl free ↦ (n, omega arith, free)
  | inr used ↦
      let lt' : in_use n at < n = omega (arith, rw used at lt) in
      let (i, less, free) = in_use-free n at lt' in (i, omega arith, free)
]

module _ (count : ℕ) (at at' : Slots) (n f : ℕ) (key : Key) (val : ℕ)
    (more : Extends count at at' n f key val) where
  -- Each entry of the old slots has its place in the new ones.
  place_of :
      (i : ℕ)
      → i < count
      → IsUsed at i
      → (j : ℕ) × (j < count) × (j ≢ n) × IsAs (at' j) (at i) × (j ≡ (if i == n then f else i))
  place_of i lt u = elim (Bool-cases (i == f)) [
    | inl here ↦ let u' = rw (eq_of_== i f here, more.free) at u in cc
    | inr other ↦ elim (Bool-cases (i == n)) [
      | inl there ↦
          let is_n = eq_of_== i n there in
          let n_f : n ≢ f = λ e. ne_of_== i f other (is_n ∙ e) in
          (f, more.f_lt, (λ e. n_f (sym e)), rw is_n (more.moved n_f), rw there refl)
      | inr apart ↦ (
        i,
        lt,
        ne_of_== i n apart,
        more.same i (ne_of_== i n apart) (ne_of_== i f other),
        rw apart refl,
      )
    ]
  ]

  -- Each entry of the new slots but the new one comes from the old ones.
  origin_of :
      (i : ℕ)
      → i < count
      → i ≢ n
      → IsUsed at' i
      → (j : ℕ) × (j < count) × IsAs (at' i) (at j) × (j ≡ (if i == f then n else i))
  origin_of i lt ne u = elim (Bool-cases (i == f)) [
    | inl here ↦
        let is_f = eq_of_== i f here in
        (n, more.n_lt, rw is_f (more.moved (λ e. ne (is_f ∙ sym e))), rw here refl)
    | inr other ↦ (i, lt, more.same i ne (ne_of_== i f other), rw other refl)
  ]

  pub Extends-kept : (k : Key) (v : ℕ) → Holds at count k v → Holds at' count k v
  Extends-kept k v (i, lt, u, e, e') =
      let (j, lt', ne, (ek, ev, eu), w) = place_of i lt u in (j, lt', eu ∙ u, ek ∙ e, ev ∙ e')

  pub Extends-new : Holds at' count key val
  Extends-new = (n, more.n_lt, more.used, more.own, more.value)

  pub Extends-old :
      (k : Key) (v : ℕ) → Holds at' count k v → ((k ≡ key) × (v ≡ val)) ⊎ Holds at count k v
  Extends-old k v (i, lt, u, e, e') = elim (Bool-cases (i == n)) [
    | inl here ↦
        let is_n = eq_of_== i n here in
        inl (sym (rw is_n at e) ∙ more.own, sym (rw is_n at e') ∙ more.value)
    | inr other ↦
        let (j, lt', (ek, ev, eu), w) = origin_of i lt (ne_of_== i n other) u in
        inr (j, lt', sym eu ∙ u, sym ek ∙ e, sym ev ∙ e')
  ]

  pub Extends-in_use : in_use count at' ≡ suc (in_use count at)
  Extends-in_use = in_use-one_more count at at' f more.f_lt more.free more.used_f (λ i ne.
      elim (Bool-cases (i == n)) [
        | inl here ↦
            let is_n = eq_of_== i n here in rw (is_n, more.used) (sym (n_used (λ e. ne (is_n ∙ e))))
        | inr other ↦ (more.same i (ne_of_== i n other) ne).2
      ])
    where
      n_used : n ≢ f → IsUsed at n
      n_used n_f = sym (more.moved n_f).2 ∙ more.used_f

  -- The slots hold each key once, with the new entry, if they did so without it and it is new.
  pub Extends-IsUnique :
      ((v : ℕ) → Holds at count key v → ⊥) → IsUnique at count → IsUnique at' count
  Extends-IsUnique absent unique i j lt_i lt_j u_i u_j e = elim (Bool-cases (i == n)) [
    | inl i_n ↦ elim (Bool-cases (j == n)) [
      | inl j_n ↦ ground arith
      | inr j_other ↦ absurd (
          clash j (ne_of_== j n j_other) lt_j u_j
            (sym e ∙ ap (λ k. (at' k).k) (eq_of_== i n i_n) ∙ more.own))
    ]
    | inr i_other ↦ elim (Bool-cases (j == n)) [
      | inl j_n ↦ absurd (
          clash i (ne_of_== i n i_other) lt_i u_i
            (e ∙ ap (λ k. (at' k).k) (eq_of_== j n j_n) ∙ more.own))
      | inr j_other ↦
          let (i', lt_i', (ki, vi, ui), wi) = origin_of i lt_i (ne_of_== i n i_other) u_i in
          let (j', lt_j', (kj, vj, uj), wj) = origin_of j lt_j (ne_of_== j n j_other) u_j in
          let one : i' ≡ j' =
            unique i' j' lt_i' lt_j' (sym ui ∙ u_i) (sym uj ∙ u_j) (sym ki ∙ e ∙ kj) in
          rename-injective i j (ne_of_== i n i_other) (ne_of_== j n j_other) (sym wi ∙ one ∙ wj)
    ]
  ]
    where
      clash : (i : ℕ) → i ≢ n → i < count → IsUsed at' i → (at' i).k ≡ key → ⊥
      clash i ne lt u e =
          let (i', lt', (ki, vi, ui), w) = origin_of i lt ne u in
          absent (at i').v (i', lt', sym ui ∙ u, sym ki ∙ e, refl)

      rename-injective :
          (i j : ℕ) → i ≢ n → j ≢ n → (if i == f then n else i) ≡ (if j == f then n else j) → i ≡ j
      rename-injective i j ni nj e = ground (arith, e)

  -- The slots without the entry hold each key once as well, and not its key.
  pub Extends-IsUnique_old :
      IsUnique at' count → IsUnique at count × ((v : ℕ) → Holds at count key v → ⊥)
  Extends-IsUnique_old unique = (
    (λ i j lt_i lt_j u_i u_j e.
        let (i', lt_i', ni, (ki, vi, ui), wi) = place_of i lt_i u_i in
        let (j', lt_j', nj, (kj, vj, uj), wj) = place_of j lt_j u_j in
        let one : i' ≡ j' = unique i' j' lt_i' lt_j' (ui ∙ u_i) (uj ∙ u_j) (ki ∙ e ∙ sym kj) in
        rename-injective i j u_i u_j (sym wi ∙ one ∙ wj)),
    (λ v (i, lt, u, e, e').
        let (i', lt', ni, (ki, vi, ui), wi) = place_of i lt u in
        ni (unique i' n lt' more.n_lt (ui ∙ u) more.used (ki ∙ e ∙ sym more.own))),
  )
    where
      rename-injective :
          (i j : ℕ)
          → IsUsed at i
          → IsUsed at j
          → (if i == n then f else i) ≡ (if j == n then f else j)
          → i ≡ j
      rename-injective i j ni nj e =
          let i_f : i ≢ f = λ e'. let u = rw e' at ni in let free = more.free in cc in
          let j_f : j ≢ f = λ e'. let u = rw e' at nj in let free = more.free in cc in
          ground (arith, e)
