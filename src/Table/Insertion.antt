-- ===== src/Table/Insertion.antt =====
-- The entry of a new key, `table_insert` of source/runtime/objects/table_object.cpp with the write of
-- the key and the value.
use kenaf.Base.{
  Run, ℕ, ◌%◌, ◌<◌, ◌≡◌, ◌≢◌, refl, ◌∙◌, subst, inl, inr, true, List, ◌∷◌, ok, ◌==◌, arith,
  Bool-cases, length, length-set, eq_of_==, ne_of_==,
}
use kenaf.Lexer.Token.{Bytes}
use kenaf.Table.{Key, KvSlot, is_vacant}
use kenaf.Table.Next.{end, follow}
use kenaf.Table.Methods.{key_hash, table_insert, insert_new}
use kenaf.Table.Chains.{IsUsed}
use kenaf.Table.Chains.Additions.{put_alone-IsPlaced, put_after-IsPlaced}
use kenaf.Table.Chains.Entries.{in_use, Extends, Holds}
use kenaf.Table.Search.{at, slot_at-lem}
use kenaf.Table.Writes.{insert_behind-lem}
use kenaf.Table.Lookup.{main-lt, main-inside}
use kenaf.Table.Invariant.{
  IsTable, relink, refill, fill-lem, at-set_same, at-set_other, chain_of_entry, free_near-lem,
  Extends-IsTable,
}

module _ (hash_bits : ℕ → ℕ) (hash_text : Bytes → ℕ) (slots : List KvSlot) (count : ℕ)
    (valid : IsTable (key_hash hash_bits hash_text) slots count) (key : Key) (val : ℕ) where
  abbrev hash : Key → ℕ
  hash = key_hash hash_bits hash_text

  abbrev main : ℕ
  main = hash key % count

  -- The run returns slots with one entry more, and the invariant holds of them.
  abbrev pub Adds : Run (List KvSlot) → Type 0
  Adds r =
      (slots' : List KvSlot) × (r ≡ ok slots')
      × IsTable hash slots' count
      × (n : ℕ) × (f : ℕ) × Extends count (at slots) (at slots') n f key val

  -- The main slot is free.
  pub insert_new-alone :
      ((v : ℕ) → Holds (at slots) count key v → ⊥)
      → is_vacant (at slots main).next ≡ true
      → Adds (insert_new hash_bits hash_text slots count key val)
  unfolding insert_new table_insert
  insert_new-alone absent free =
      let linked = relink slots main end in
      let inside : main < length linked = omega (
        arith,
        (main-inside hash slots count valid key),
        length-set slots main (record (at slots main) { next = end }),
      ) in
      let slots' = refill linked main key val in
      let size : length slots' ≡ length slots =
        length-set linked main _ ∙ length-set slots main (record (at slots main) { next = end }) in
      let here : at slots' main ≡ record { k = key; v = val; next = end } =
        at-set_same linked main _ inside
        ∙ (rw
            (at-set_same slots main (record (at slots main) { next = end })
              (main-inside hash slots count valid key))
            refl) in
      let other : (i : ℕ) → i ≢ main → at slots' i ≡ at slots i = λ i ne.
        at-set_other linked main _ i inside ne
        ∙ at-set_other slots main _ i (main-inside hash slots count valid key) ne in
      let more : Extends count (at slots) (at slots') main main key val = record {
        n_lt = (main-lt hash slots count valid key);
        f_lt = (main-lt hash slots count valid key);
        free = free;
        used = rw here refl;
        used_f = rw here refl;
        own = rw here refl;
        value = rw here refl;
        moved = λ ne. absurd (ne refl);
        same = λ i ne ne'. rw (other i ne) (refl, refl, refl);
      } in
      let placed =
        put_alone-IsPlaced hash count (at slots) valid.chain valid.placed (at slots') main
          (main-lt hash slots count valid key) free (rw here refl) (rw here refl) other in
      (
        slots',
        rw
            (
              slot_at-lem slots main (main-inside hash slots count valid key),
              free,
              fill-lem linked main key val inside,
            )
            refl,
        Extends-IsTable hash slots slots' count valid main main key val _ more absent size placed,
        main,
        main,
        more,
      )

  -- The main slot holds a key of its own chain: the new one is put behind it.
  pub insert_new-behind :
      ((v : ℕ) → Holds (at slots) count key v → ⊥)
      → in_use count (at slots) < count
      → IsUsed (at slots) main
      → hash (at slots main).k % count ≡ main
      → Adds (insert_new hash_bits hash_text slots count key val)
  unfolding insert_new table_insert
  insert_new-behind absent room used home =
      let (f, found, f_lt, free) =
        free_near-lem hash slots count valid main (main-lt hash slots count valid key) used room in
      let f_inside : f < length slots = omega (arith, f_lt, valid.size) in
      let ne : main ≢ f = λ e. let used' = rw e at used in cc in
      let (linked, run, size, link_main, link_f, link_other) =
        insert_behind-lem slots main f (main-inside hash slots count valid key) f_inside ne in
      let f_linked : f < length linked = omega (arith, f_inside, size) in
      let slots' = refill linked f key val in
      let at_f : at slots' f ≡ record { k = key; v = val; next = (at slots main).next } =
        at-set_same linked f _ f_linked ∙ (rw link_f refl) in
      let at_main : at slots' main ≡ record (at slots main) { next = follow f } =
        at-set_other linked f _ main f_linked ne ∙ link_main in
      let other : (i : ℕ) → i ≢ main → i ≢ f → at slots' i ≡ at slots i =
        λ i n n'. at-set_other linked f _ i f_linked n' ∙ link_other i n n' in
      let more : Extends count (at slots) (at slots') f f key val = record {
        n_lt = f_lt;
        f_lt = f_lt;
        free = free;
        used = rw at_f used;
        used_f = rw at_f used;
        own = rw at_f refl;
        value = rw at_f refl;
        moved = λ ne. absurd (ne refl);
        same = λ i n n'. elim (Bool-cases (i == main)) [
          | inl e ↦ rw (eq_of_== i main e, at_main, used) (refl, refl, refl)
          | inr n'' ↦ rw (other i (ne_of_== i main n'') n) (refl, refl, refl)
        ];
      } in
      let chained : (is : List ℕ) × (valid.chain main ≡ main ∷ is) =
        subst (λ b. (is : List ℕ) × (valid.chain b ≡ b ∷ is)) home
          (chain_of_entry hash slots count valid main (main-lt hash slots count valid key) used) in
      let placed =
        put_after-IsPlaced hash count (at slots) valid.chain valid.placed (at slots') main
          (main-lt hash slots count valid key) f chained.0 f_lt free chained.1 (rw at_f refl)
          (rw at_f refl) (rw at_main refl) (rw at_main refl) other in
      let own : hash (at slots main).k % count == main ≡ true = ground arith in
      let yes : main == main ≡ true = ground arith in
      (
        slots',
        rw
            (
              slot_at-lem slots main (main-inside hash slots count valid key),
              used,
              home,
              slot_at-lem slots main (main-inside hash slots count valid key),
              used,
              found,
              yes,
              run,
              fill-lem linked f key val f_linked,
            )
            refl,
        Extends-IsTable hash slots slots' count valid f f key val _ more absent
            (length-set linked f _ ∙ size) placed,
        f,
        f,
        more,
      )
