-- ===== src/Table/Deletion.antt =====
-- The removal of the entry of a key, `table_delindex` of source/runtime/objects/table_object.cpp.
use kenaf.Base.{
  Run, ℕ, suc, ◌%◌, ◌<◌, ◌≡◌, refl, subst, inl, inr, ◌⊎◌, true, false, List, [], ◌∷◌, Option, some,
  none, ok, ◌>>=◌, ◌==◌, arith, Bool-cases, length, eq_of_==, mem,
}
use kenaf.Table.{Key, KvSlot, key_equal, is_vacant, delete_loop}
use kenaf.Table.Methods.{delete_main, delete_behind, delete_entry}
use kenaf.Table.Chains.Entries.{Holds}
use kenaf.Table.Keys.{key_equal-equal, key_equal_refl}
use kenaf.Table.Search.{at, slot_at-lem, delete_loop-lem}
use kenaf.Table.Invariant.{IsTable}
use kenaf.Table.Lookup.{Walk, walk, main-inside, absent_unless_used}
use kenaf.Table.Removal.{Drops, delete_main-alone, delete_main-first, delete_behind-Drops}

module _ (hash : Key → ℕ) (slots : List KvSlot) (count : ℕ) (valid : IsTable hash slots count)
    (key : Key) where
  abbrev main : ℕ
  main = hash key % count

  -- The entry of the key was taken out, or no slot holds the key.
  abbrev pub Deletes : Run (Option (List KvSlot)) → Type 0
  Deletes r =
      ((slots' : List KvSlot) × (r ≡ ok (some slots')) × Drops hash slots count valid key slots')
      ⊎ ((r ≡ ok none) × ((v : ℕ) → Holds (at slots) count key v → ⊥))

  delete_main-Drops :
      (is : List ℕ)
      → valid.chain main ≡ main ∷ is
      → (at slots main).k ≡ key
      → (slots' : List KvSlot) × (delete_main slots main (at slots main) ≡ ok slots')
        × Drops hash slots count valid key slots'
  delete_main-Drops [] chained own = delete_main-alone hash slots count valid key chained own
  delete_main-Drops (j ∷ is) chained own =
      delete_main-first hash slots count valid key j is chained own

  delete_loop-Deletes :
      (is : List ℕ)
      → Walk hash slots count valid key is
      → key_equal (at slots main).k key ≡ false
      → Deletes (
          delete_loop (suc (length slots)) slots key main (at slots main).next
          >>= delete_behind slots)
  unfolding delete_behind
  delete_loop-Deletes is w other =
      let inside : (i : ℕ) → mem i (main ∷ is) ≡ true → i < length slots =
        λ i m. omega (arith, (w.inside i m).0, valid.size) in
      elim (delete_loop-lem slots (suc (length slots)) key main is w.linked inside w.short) [
        | inl (p, j, r, before, behind, linked, e) ↦
            let own = key_equal-equal (at slots j).k key e in
            let chained = w.whole j (ground arith) own in
            let (slots', r', drops) =
              delete_behind-Drops hash slots count valid key p j is chained behind before linked
                own in
            inl (slots', rw (r, r') refl, drops)
        | inr (r, all) ↦ inr (
          rw r refl,
          λ v (i, lt, used, own, value).
              let m = w.complete i lt used own in
              let yes : key_equal (at slots i).k key ≡ true = rw own (key_equal_refl key) in
              elim (Bool-cases (i == main)) [
                | inl here ↦
                    let yes' : key_equal (at slots main).k key ≡ true =
                      subst (λ k. key_equal (at slots k).k key ≡ true) (eq_of_== i main here) yes in
                    cc
                | inr later ↦
                    let no : key_equal (at slots i).k key ≡ false = all i (ground arith) in cc
              ],
        )
      ]

  -- If the slots hold the invariant, the deletion of a key ends without a fault: the slots hold the
  -- invariant after it and one entry less, that of the key, or no slot holds the key and the slots
  -- stay as they are.
  pub delete_entry-Deletes : Deletes (delete_entry slots main key)
  unfolding delete_entry
  delete_entry-Deletes =
      rw (slot_at-lem slots main (main-inside hash slots count valid key))
        (elim (Bool-cases (is_vacant (at slots main).next)) [
          | inl free ↦ rw free (inr (refl, absent_unless_used hash slots count valid key free))
          | inr used ↦
              let (is, w) = walk hash slots count valid key used in
              elim (Bool-cases (key_equal (at slots main).k key)) [
                | inl found ↦
                    let own = key_equal-equal (at slots main).k key found in
                    let (slots', r, drops) =
                      delete_main-Drops is (w.whole main (ground arith) own) own in
                    rw (used, found, r) (inl (slots', refl, drops))
                | inr other ↦ rw (used, other) (delete_loop-Deletes is w other)
              ]
        ])
