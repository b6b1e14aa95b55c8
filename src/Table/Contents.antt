-- ===== src/Table/Contents.antt =====
-- What the slots of a table hold, as a partial function of the key.
use kenaf.Base.{
  ℕ, ◌≡◌, ◌≢◌, refl, subst, inl, inr, ◌⊎◌, true, false, Option, some, none, if◌then◌else◌,
  Bool-cases,
}
use kenaf.Table.{Key, key_equal}
use kenaf.Table.Chains.{Slots}
use kenaf.Table.Chains.Entries.{
  Extends, Extends-kept, Extends-new, Extends-old, Extends-IsUnique_old, Holds, IsUnique,
}
use kenaf.Table.Keys.{key_equal-equal, key_equal_refl}

-- A finite map, with an entry at a key, and without one
abbrev pub put : (Key → Option ℕ) → Key → ℕ → Key → Option ℕ
put m key val k = if key_equal k key then some val else m k

abbrev pub without : (Key → Option ℕ) → Key → Key → Option ℕ
without m key k = if key_equal k key then none else m k

-- The slots hold the entries of the map, and no other.
abbrev pub Means : Slots → ℕ → (Key → Option ℕ) → Type 0
Means at count m =
    ((k : Key) (v : ℕ) → Holds at count k v → m k ≡ some v)
    × ((k : Key) (v : ℕ) → m k ≡ some v → Holds at count k v)

pub key_equal-differs : (a b : Key) → a ≢ b → key_equal a b ≡ false
key_equal-differs a b ne = elim (Bool-cases (key_equal a b)) [
  | inl same ↦ absurd (ne (key_equal-equal a b same))
  | inr other ↦ other
]

pub differs-key_equal : (a b : Key) → key_equal a b ≡ false → a ≢ b
differs-key_equal a b other same = let yes : key_equal a b ≡ true = rw same (key_equal_refl b) in cc

pub Means-put :
    (at at' : Slots) (count count' : ℕ) (m : Key → Option ℕ) (key : Key) (val : ℕ)
    → Means at count m
    → ((k : Key) (v : ℕ)
        → Holds at' count' k v
        → ((k ≡ key) × (v ≡ val)) ⊎ ((k ≢ key) × Holds at count k v))
    → Holds at' count' key val
    → ((k : Key) (v : ℕ) → k ≢ key → Holds at count k v → Holds at' count' k v)
    → Means at' count' (put m key val)
Means-put at at' count count' m key val (sound, complete) old new kept = (
  (λ k v h. elim (old k v h) [
    | inl (e, e') ↦ rw (e, key_equal_refl key, e') refl
    | inr (ne, h') ↦ rw (key_equal-differs k key ne) (sound k v h')
  ]),
  (λ k v e. elim (Bool-cases (key_equal k key)) [
    | inl same ↦
        let is_val : some val ≡ some v = rw same at e in
        let value : val ≡ v = cc in rw⁻¹ value (rw (key_equal-equal k key same) new)
    | inr other ↦ kept k v (differs-key_equal k key other) (complete k v (rw other at e))
  ]),
)

pub Means-without :
    (at at' : Slots) (count : ℕ) (m : Key → Option ℕ) (key : Key)
    → Means at count m
    → ((k : Key) (v : ℕ) → Holds at' count k v → (k ≢ key) × Holds at count k v)
    → ((k : Key) (v : ℕ) → k ≢ key → Holds at count k v → Holds at' count k v)
    → Means at' count (without m key)
Means-without at at' count m key (sound, complete) old kept = (
  (λ k v h. let (ne, h') = old k v h in rw (key_equal-differs k key ne) (sound k v h')),
  (λ k v e. elim (Bool-cases (key_equal k key)) [
    | inl same ↦ let e' = rw same at e in cc
    | inr other ↦ kept k v (differs-key_equal k key other) (complete k v (rw other at e))
  ]),
)

-- One entry more, of a key that was not there
pub Extends-put :
    (at at' : Slots) (count n f : ℕ) (m : Key → Option ℕ) (key : Key) (val : ℕ)
    → Extends count at at' n f key val
    → ((v : ℕ) → Holds at count key v → ⊥)
    → Means at count m
    → Means at' count (put m key val)
Extends-put at at' count n f m key val more absent means =
    Means-put at at' count count m key val means
      (λ k v h. elim (Extends-old count at at' n f key val more k v h) [
        | inl new ↦ inl new
        | inr h' ↦ inr ((λ e. absent v (subst (λ k'. Holds at count k' v) e h')), h')
      ])
      (Extends-new count at at' n f key val more)
      (λ k v ne h. Extends-kept count at at' n f key val more k v h)

-- One entry less
pub Extends-without :
    (at at' : Slots) (count n f : ℕ) (m : Key → Option ℕ) (key : Key) (val : ℕ)
    → Extends count at' at n f key val
    → IsUnique at count
    → Means at count m
    → Means at' count (without m key)
Extends-without at at' count n f m key val more unique means =
    let (unique', absent) = Extends-IsUnique_old count at' at n f key val more unique in
    Means-without at at' count m key means
      (λ k v h. (
        (λ e. absent v (subst (λ k'. Holds at' count k' v) e h)),
        Extends-kept count at' at n f key val more k v h,
      ))
      (λ k v ne h. elim (Extends-old count at' at n f key val more k v h) [
        | inl (e, e') ↦ absurd (ne e)
        | inr h' ↦ h'
      ])
