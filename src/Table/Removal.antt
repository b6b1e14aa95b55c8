-- ===== src/Table/Removal.antt =====
-- The entry of a slot is taken out of the slots of a table, `table_delindex` of
-- source/runtime/objects/table_object.cpp.
use kenaf.Base.{
  ℕ, ◌%◌, ◌<◌, ◌≡◌, ◌≢◌, refl, sym, ◌∙◌, ap, inl, inr, true, List, [], ◌∷◌, some, ok, ◌==◌, arith,
  Bool-cases, length, set, length-set, eq_of_==, ne_of_==, mem,
}
use kenaf.Table.{Key, KvSlot, vacant_slot}
use kenaf.Table.Next.{end, follow}
use kenaf.Table.Methods.{delete_main, delete_behind}
use kenaf.Table.Chains.{IsUsed, Links}
use kenaf.Table.Chains.Deletions.{
  delete_alone-IsPlaced, delete_first-IsPlaced, delete_behind-IsPlaced,
}
use kenaf.Table.Chains.Removals.{Links-self}
use kenaf.Table.Chains.Entries.{Extends}
use kenaf.Table.Search.{at, slot_at-lem}
use kenaf.Table.Invariant.{
  IsTable, relink, link-lem, at-set_same, at-set_other, Extends-IsTable_old,
}
use kenaf.Table.Lookup.{main-lt, main-inside}

module _ (hash : Key → ℕ) (slots : List KvSlot) (count : ℕ) (valid : IsTable hash slots count)
    (key : Key) where
  abbrev main : ℕ
  main = hash key % count

  -- The invariant holds of the slots, which have one entry less, that of the key.
  abbrev pub Drops : List KvSlot → Type 0
  Drops slots' =
      IsTable hash slots' count
      × (n : ℕ) × (f : ℕ) × (v : ℕ) × Extends count (at slots') (at slots) n f key v

  in_count :
      (is : List ℕ)
      → valid.chain main ≡ is
      → (i : ℕ) → mem i is ≡ true
      → (i < count) × IsUsed (at slots) i
  in_count is e i m = let (lt, used, home) = valid.placed.inside main i (rw e m) in (lt, used)

  pub delete_main-alone :
      valid.chain main ≡ main ∷ []
      → (at slots main).k ≡ key
      → (slots' : List KvSlot) × (delete_main slots main (at slots main) ≡ ok slots') × Drops slots'
  unfolding delete_main
  delete_main-alone chained own =
      let lt = main-lt hash slots count valid key in
      let inside = main-inside hash slots count valid key in
      let last : (at slots main).next ≡ end = rw chained at (valid.placed.links main) in
      let slots' = set slots main vacant_slot in
      let here : at slots' main ≡ vacant_slot = at-set_same slots main vacant_slot inside in
      let other : (i : ℕ) → i ≢ main → at slots' i ≡ at slots i =
        λ i n. at-set_other slots main vacant_slot i inside n in
      let more : Extends count (at slots') (at slots) main main key (at slots main).v = record {
        n_lt = lt;
        f_lt = lt;
        free = rw here refl;
        used = rw last refl;
        used_f = rw last refl;
        own = own;
        value = refl;
        moved = λ ne. absurd (ne refl);
        same = λ i n n'. rw (other i n) (refl, refl, refl);
      } in
      let placed =
        delete_alone-IsPlaced hash count (at slots) (at slots') valid.chain valid.placed main
          chained (rw here refl) other in
      (
        slots',
        rw (delete_main, last) refl,
        (
          Extends-IsTable_old hash slots slots' count valid main main key (at slots main).v _ more
              (length-set slots main vacant_slot) placed,
          main,
          main,
          (at slots main).v,
          more,
        ),
      )

  pub delete_main-first :
      (j : ℕ) (is : List ℕ)
      → valid.chain main ≡ main ∷ j ∷ is
      → (at slots main).k ≡ key
      → (slots' : List KvSlot) × (delete_main slots main (at slots main) ≡ ok slots') × Drops slots'
  unfolding delete_main
  delete_main-first j is chained own =
      let inside = main-inside hash slots count valid key in
      let (g, h) : Links (at slots) (main ∷ j ∷ is) = rw chained at (valid.placed.links main) in
      let (j_lt, j_used) = in_count (main ∷ j ∷ is) chained j (ground arith) in
      let j_inside : j < length slots = omega (arith, j_lt, valid.size) in
      let d = rw chained at (valid.placed.distinct main) in
      let ne : main ≢ j = λ e. ground (arith, d.0) in
      let s1 = set slots main (at slots j) in
      let l1 : length s1 ≡ length slots = length-set slots main (at slots j) in
      let j1 : j < length s1 = omega (arith, j_inside, l1) in
      let slots' = set s1 j vacant_slot in
      let at_j : at slots' j ≡ vacant_slot = at-set_same s1 j vacant_slot j1 in
      let at_main : at slots' main ≡ at slots j =
        at-set_other s1 j vacant_slot main j1 ne ∙ at-set_same slots main (at slots j) inside in
      let other : (i : ℕ) → i ≢ main → i ≢ j → at slots' i ≡ at slots i = λ i n n'.
        at-set_other s1 j vacant_slot i j1 n' ∙ at-set_other slots main (at slots j) i inside n in
      let more : Extends count (at slots') (at slots) main j key (at slots main).v = record {
        n_lt = main-lt hash slots count valid key;
        f_lt = j_lt;
        free = rw at_j refl;
        used = rw g refl;
        used_f = j_used;
        own = own;
        value = refl;
        moved = λ ne. rw at_main (refl, refl, refl);
        same = λ i n n'. rw (other i n n') (refl, refl, refl);
      } in
      let placed =
        delete_first-IsPlaced hash count (at slots) (at slots') valid.chain valid.placed main j is
          chained at_main (rw at_j refl) other in
      (
        slots',
        rw (delete_main, g, slot_at-lem slots j j_inside) refl,
        (
          Extends-IsTable_old hash slots slots' count valid main j key (at slots main).v _ more
              (length-set s1 j vacant_slot ∙ l1) placed,
          main,
          j,
          (at slots main).v,
          more,
        ),
      )

  pub delete_behind-Drops :
      (p j : ℕ) (is : List ℕ)
      → valid.chain main ≡ main ∷ is
      → mem j is ≡ true
      → mem p (main ∷ is) ≡ true
      → (at slots p).next ≡ follow j
      → (at slots j).k ≡ key
      → (slots' : List KvSlot) × (delete_behind slots (some (p, j)) ≡ ok (some slots'))
        × Drops slots'
  unfolding delete_behind
  delete_behind-Drops p j is chained behind before linked own =
      let (j_lt, j_used) = in_count (main ∷ is) chained j (ground arith) in
      let (p_lt, p_used) = in_count (main ∷ is) chained p before in
      let j_inside : j < length slots = omega (arith, j_lt, valid.size) in
      let p_inside : p < length slots = omega (arith, p_lt, valid.size) in
      let p_chain : mem p (valid.chain main) ≡ true = rw chained before in
      let ne : p ≢ j = λ e.
        Links-self (at slots) p (valid.chain main) (valid.placed.links main)
          (valid.placed.distinct main) p_chain (linked ∙ ap follow (sym e)) in
      let s1 = relink slots p (at slots j).next in
      let l1 : length s1 ≡ length slots = length-set slots p _ in
      let j1 : j < length s1 = omega (arith, j_inside, l1) in
      let slots' = set s1 j vacant_slot in
      let at_j : at slots' j ≡ vacant_slot = at-set_same s1 j vacant_slot j1 in
      let at_p : at slots' p ≡ record (at slots p) { next = (at slots j).next } =
        at-set_other s1 j vacant_slot p j1 ne
        ∙ at-set_same slots p (record (at slots p) { next = (at slots j).next }) p_inside in
      let other : (i : ℕ) → i ≢ p → i ≢ j → at slots' i ≡ at slots i = λ i n n'.
        at-set_other s1 j vacant_slot i j1 n'
        ∙ at-set_other slots p (record (at slots p) { next = (at slots j).next }) i p_inside n in
      let more : Extends count (at slots') (at slots) j j key (at slots j).v = record {
        n_lt = j_lt;
        f_lt = j_lt;
        free = rw at_j refl;
        used = j_used;
        used_f = j_used;
        own = own;
        value = refl;
        moved = λ ne. absurd (ne refl);
        same = λ i n n'. elim (Bool-cases (i == p)) [
          | inl e ↦ rw (eq_of_== i p e, at_p, p_used, j_used) (refl, refl, refl)
          | inr n'' ↦ rw (other i (ne_of_== i p n'') n) (refl, refl, refl)
        ];
      } in
      let placed =
        delete_behind-IsPlaced hash count (at slots) (at slots') valid.chain valid.placed main p j
          is chained behind p_chain linked ne (rw at_p refl) (rw at_p refl) (rw at_j refl) other in
      (
        slots',
        rw (slot_at-lem slots j j_inside, link-lem slots p (at slots j).next p_inside) refl,
        (
          Extends-IsTable_old hash slots slots' count valid j j key (at slots j).v _ more
              (length-set s1 j vacant_slot ∙ l1) placed,
          j,
          j,
          (at slots j).v,
          more,
        ),
      )
