-- ===== src/Table/Invariant.antt =====
-- The invariant of the slots of a table, source/runtime/objects/table_object.cpp, and the writes to a
-- slot.
use kenaf.Base.{
  ℕ, suc, ◌+◌, ◌-◌, ◌%◌, ◌<◌, ◌≤◌, ◌≡◌, ◌≢◌, refl, sym, ◌∙◌, inl, inr, true, false, List, [], ◌∷◌,
  some, ok, ltb, ◌==◌, arith, Bool-cases, length, set, eq_of_==, ne_of_==, mem, length-IsDistinct,
}
use kenaf.Table.{Key, Next, KvSlot, is_vacant, link, fill}
use kenaf.Table.Methods.{free_near}
use kenaf.Table.Chains.{IsPlaced, IsUsed}
use kenaf.Table.Chains.Additions.{chain-cases}
use kenaf.Table.Chains.Entries.{
  IsUnique, in_use, in_use-free, Extends, Holds, Extends-IsUnique, Extends-IsUnique_old,
}
use kenaf.Table.Search.{at, slot_at-lem, at-set, free_above-lem, free_below-lem}

-- Every slot in use is in the chain that begins at the main slot of its key, no key is in two
-- slots, and the sentinel behind the slots is in use.
pub record IsTable (hash : Key → ℕ) (slots : List KvSlot) (count : ℕ) : Type 0 where
  pub chain : ℕ → List ℕ
  pub positive : 0 < count
  pub size : length slots ≡ suc count
  pub placed : IsPlaced hash count (at slots) chain
  pub unique : IsUnique (at slots) count
  pub sentinel : IsUsed (at slots) count

-- `slot->next = …`
abbrev pub relink : List KvSlot → ℕ → Next → List KvSlot
relink slots i next = set slots i (record (at slots i) { next = next })

-- A key and a value that are written to a slot
abbrev pub refill : List KvSlot → ℕ → Key → ℕ → List KvSlot
refill slots i k v = set slots i (record (at slots i) { k = k; v = v })

pub link-lem :
    (slots : List KvSlot) (i : ℕ) (next : Next)
    → i < length slots
    → link slots i next ≡ ok (relink slots i next)
link-lem slots i next lt = rw (slot_at-lem slots i lt) refl

pub fill-lem :
    (slots : List KvSlot) (i : ℕ) (k : Key) (v : ℕ)
    → i < length slots
    → fill slots i k v ≡ ok (refill slots i k v)
fill-lem slots i k v lt = rw (slot_at-lem slots i lt) refl

pub at-set_same :
    (slots : List KvSlot) (i : ℕ) (s : KvSlot) → i < length slots → at (set slots i s) i ≡ s
at-set_same slots i s lt =
    let this : i == i ≡ true = ground arith in at-set slots i s i lt ∙ (rw this refl)

pub at-set_other :
    (slots : List KvSlot) (i : ℕ) (s : KvSlot) (j : ℕ)
    → i < length slots
    → j ≢ i
    → at (set slots i s) j ≡ at slots j
at-set_other slots i s j lt ne =
    let other : i == j ≡ false = ground arith in at-set slots i s j lt ∙ (rw other refl)

module _ (hash : Key → ℕ) (slots : List KvSlot) (count : ℕ) (valid : IsTable hash slots count) where
  -- The slots of a chain are slots of the block, and the chain is no longer than that.
  pub chain-inside : (b i : ℕ) → mem i (valid.chain b) ≡ true → i < length slots
  chain-inside b i m = omega (arith, (valid.placed.inside b i m).0, valid.size)

  pub length-chain : (b : ℕ) → length (valid.chain b) ≤ suc (length slots)
  length-chain b = omega (
    arith,
    length-IsDistinct count (valid.chain b) (valid.placed.distinct b)
        (λ i m. (valid.placed.inside b i m).0),
    valid.size,
  )

  -- The chain of a slot in use begins with its main slot.
  pub chain_of_entry :
      (i : ℕ)
      → i < count
      → IsUsed (at slots) i
      → (is : List ℕ) × (valid.chain (hash (at slots i).k % count)
          ≡ hash (at slots i).k % count ∷ is)
  chain_of_entry i lt used =
      elim (chain-cases hash count (at slots) valid.chain valid.placed
        (hash (at slots i).k % count)) [
          | inl empty ↦
              let m = valid.placed.reached i lt used in
              let m' : mem i [] ≡ true = rw empty at m in cc
          | inr there ↦ there
        ]

  -- A free slot is found if there is one.
  pub free_near-lem :
      (c : ℕ)
      → c < count
      → IsUsed (at slots) c
      → in_use count (at slots) < count
      → (f : ℕ) × (free_near slots count c ≡ ok (some f))
        × (f < count)
        × (is_vacant (at slots f).next ≡ true)
  unfolding free_near
  free_near-lem c lt used room =
      let size = valid.size in
      elim (free_above-lem slots (count - (c + 1)) (c + 1) (omega arith)) [
        | inl (f, r, f_lt, free) ↦ (f, rw r refl, omega arith, free)
        | inr (r, all_above) ↦ elim (free_below-lem slots c (omega arith)) [
          | inl (f, r', f_lt, free) ↦ (f, rw (r, r') refl, omega arith, free)
          | inr (r', all_below) ↦
              let (i, i_lt, free) = in_use-free count (at slots) room in
              elim (Bool-cases (i == c)) [
                | inl here ↦ let used' = rw (eq_of_== i c here) at free in cc
                | inr other ↦
                    absurd (none_left i i_lt free (ne_of_== i c other) all_above all_below)
              ]
        ]
      ]
    where
      none_left :
          (i : ℕ)
          → i < count
          → is_vacant (at slots i).next ≡ true
          → i ≢ c
          → ((j : ℕ) → c + 1 ≤ j → j < c + 1 + (count - (c + 1)) → IsUsed (at slots) j)
          → ((j : ℕ) → j < c → IsUsed (at slots) j)
          → ⊥
      none_left i i_lt free ne above below = elim (Bool-cases (ltb i c)) [
        | inl less ↦ let used' = below i (ground arith) in cc
        | inr more ↦ let used' = above i (ground arith) (ground arith) in cc
      ]

-- The slots with one entry more hold the invariant, if the key was not in them.
pub Extends-IsTable :
    (hash : Key → ℕ) (slots slots' : List KvSlot) (count : ℕ) (valid : IsTable hash slots count)
    (n f : ℕ) (key : Key) (val : ℕ) (chain : ℕ → List ℕ)
    → Extends count (at slots) (at slots') n f key val
    → ((v : ℕ) → Holds (at slots) count key v → ⊥)
    → length slots' ≡ length slots
    → IsPlaced hash count (at slots') chain
    → IsTable hash slots' count
Extends-IsTable hash slots slots' count valid n f key val chain more absent size placed = record {
  chain = chain;
  positive = valid.positive;
  size = size ∙ valid.size;
  placed = placed;
  unique = Extends-IsUnique count (at slots) (at slots') n f key val more absent valid.unique;
  sentinel =
      let n_lt = more.n_lt in
      let f_lt = more.f_lt in
      (more.same count (λ e. omega arith) (λ e. omega arith)).2 ∙ valid.sentinel;
}

-- The slots with one entry less hold the invariant.
pub Extends-IsTable_old :
    (hash : Key → ℕ) (slots slots' : List KvSlot) (count : ℕ) (valid : IsTable hash slots count)
    (n f : ℕ) (key : Key) (val : ℕ) (chain : ℕ → List ℕ)
    → Extends count (at slots') (at slots) n f key val
    → length slots' ≡ length slots
    → IsPlaced hash count (at slots') chain
    → IsTable hash slots' count
Extends-IsTable_old hash slots slots' count valid n f key val chain more size placed = record {
  chain = chain;
  positive = valid.positive;
  size = size ∙ valid.size;
  placed = placed;
  unique = (Extends-IsUnique_old count (at slots') (at slots) n f key val more valid.unique).0;
  sentinel =
      let n_lt = more.n_lt in
      let f_lt = more.f_lt in
      sym (more.same count (λ e. omega arith) (λ e. omega arith)).2 ∙ valid.sentinel;
}
