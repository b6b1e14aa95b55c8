-- ===== src/Table/Revalue.antt =====
-- A new value in a slot of a table, `table_setindex` of source/runtime/objects/table_object.cpp.
use kenaf.Base.{
  ℕ, ◌<◌, ◌≡◌, ◌≢◌, refl, sym, ◌∙◌, ap, inl, inr, List, Option, ◌==◌, arith, Bool-cases, eq_of_==,
  ne_of_==, length, set, length-set,
}
use kenaf.Table.{Key, KvSlot, is_vacant}
use kenaf.Table.Chains.{Slots, IsPlaced, IsUsed, Links-same}
use kenaf.Table.Chains.Entries.{in_use, in_use-same}
use kenaf.Table.Search.{at}
use kenaf.Table.Invariant.{IsTable, at-set_same, at-set_other}
use kenaf.Table.Contents.{Means, put, Means-put}

-- The pointers and the keys decide the places.
same-IsPlaced :
    (hash : Key → ℕ) (count : ℕ) (at at' : Slots) (chain : ℕ → List ℕ)
    → ((i : ℕ) → ((at' i).next ≡ (at i).next) × ((at' i).k ≡ (at i).k))
    → IsPlaced hash count at chain
    → IsPlaced hash count at' chain
same-IsPlaced hash count at at' chain same placed = record {
  starts = placed.starts;
  links = λ b. Links-same at at' (chain b) (λ i m. (same i).0) (placed.links b);
  inside = λ b i m. let (e, e') = same i in rw (e, e') (placed.inside b i m);
  distinct = placed.distinct;
  reached = λ i lt u. let (e, e') = same i in rw e' (placed.reached i lt (rw e at u));
}

-- The slots with another value in one
abbrev pub revalue : List KvSlot → ℕ → ℕ → List KvSlot
revalue slots i val = set slots i (record (at slots i) { v = val })

at-revalue :
    (slots : List KvSlot) (i val j : ℕ)
    → i < length slots
    → ((at (revalue slots i val) j).next ≡ (at slots j).next)
      × ((at (revalue slots i val) j).k ≡ (at slots j).k)
at-revalue slots i val j lt = elim (Bool-cases (j == i)) [
  | inl here ↦
      rw (eq_of_== j i here, at-set_same slots i (record (at slots i) { v = val }) lt) (refl, refl)
  | inr other ↦
      rw (at-set_other slots i (record (at slots i) { v = val }) j lt (ne_of_== j i other))
        (refl, refl)
]

module _ (hash : Key → ℕ) (slots : List KvSlot) (count : ℕ) (valid : IsTable hash slots count)
    (i val : ℕ) (i_lt : i < count) (used : IsUsed (at slots) i) where
  i-inside : i < length slots
  i-inside = omega (arith, valid.size)

  -- The table with another value in a slot
  pub revalue-IsTable : IsTable hash (revalue slots i val) count
  revalue-IsTable =
      let same = λ (j : ℕ). at-revalue slots i val j i-inside in
      record {
        chain = valid.chain;
        positive = valid.positive;
        size = length-set slots i (record (at slots i) { v = val }) ∙ valid.size;
        placed =
            same-IsPlaced hash count (at slots) (at (revalue slots i val)) valid.chain same
              valid.placed;
        unique = λ j j' lt lt' u u' e.
            valid.unique j j' lt lt' (rw (same j).0 at u) (rw (same j').0 at u')
              (sym (same j).1 ∙ e ∙ (same j').1);
        sentinel = ap is_vacant (same count).0 ∙ valid.sentinel;
      }

  pub revalue-in_use : in_use count (at (revalue slots i val)) ≡ in_use count (at slots)
  revalue-in_use =
      in_use-same count (at slots) (at (revalue slots i val))
        (λ j lt. ap is_vacant (at-revalue slots i val j i-inside).0)

  pub revalue-put :
      (m : Key → Option ℕ)
      → Means (at slots) count m
      → Means (at (revalue slots i val)) count (put m (at slots i).k val)
  revalue-put m means =
      let here = at-set_same slots i (record (at slots i) { v = val }) i-inside in
      let other = λ (j : ℕ) (ne : j ≢ i).
        at-set_other slots i (record (at slots i) { v = val }) j i-inside ne in
      Means-put (at slots) (at (revalue slots i val)) count count m (at slots i).k val means
        (λ k v (j, lt, u, e, e'). elim (Bool-cases (j == i)) [
          | inl same ↦
              let is_i = eq_of_== j i same in
              let e1 = rw (is_i, here) at e in
              let e2 = rw (is_i, here) at e' in inl (sym e1, sym e2)
          | inr differs ↦
              let is = other j (ne_of_== j i differs) in
              let u' : IsUsed (at slots) j = rw is at u in
              let own : (at slots j).k ≡ k = rw is at e in
              inr (
                (λ e1. ne_of_== j i differs (valid.unique j i lt i_lt u' used (own ∙ e1))),
                (j, lt, u', own, rw is at e'),
              )
        ])
        (i, i_lt, rw here used, rw here refl, rw here refl)
        (λ k v ne (j, lt, u, e, e').
          let is = other j (λ same. ne (sym e ∙ ap (λ n. (at slots n).k) same)) in
          (j, lt, rw is u, rw is e, rw is e'))
