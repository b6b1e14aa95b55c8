-- ===== src/Table/Replacement.antt =====
-- The entry of a new key whose main slot holds a key of another chain, `table_insert` of
-- source/runtime/objects/table_object.cpp.
use kenaf.Base.{
  ℕ, suc, ◌%◌, ◌<◌, ◌≡◌, ◌≢◌, refl, sym, ◌∙◌, inl, inr, true, false, List, ◌∷◌, some, ok, ◌==◌,
  arith, Bool-cases, length, length-set, eq_of_==, ne_of_==, mem,
}
use kenaf.Lexer.Token.{Bytes}
use kenaf.Table.{Key, KvSlot, is_vacant, previous_loop}
use kenaf.Table.Next.{end, follow}
use kenaf.Table.Methods.{key_hash, free_near, table_insert, insert_new}
use kenaf.Table.Chains.{IsUsed}
use kenaf.Table.Chains.Removals.{Links-self, replace-IsPlaced}
use kenaf.Table.Chains.Entries.{in_use, Extends, Holds}
use kenaf.Table.Search.{at, slot_at-lem, previous_loop-lem}
use kenaf.Table.Writes.{move_entry-lem}
use kenaf.Table.Lookup.{main-lt, main-inside}
use kenaf.Table.Invariant.{
  IsTable, refill, fill-lem, at-set_same, at-set_other, chain-inside, length-chain, chain_of_entry,
  free_near-lem, Extends-IsTable,
}
use kenaf.Table.Insertion.{Adds, insert_new-alone, insert_new-behind}

module _ (hash_bits : ℕ → ℕ) (hash_text : Bytes → ℕ) (slots : List KvSlot) (count : ℕ)
    (valid : IsTable (key_hash hash_bits hash_text) slots count) (key : Key) (val : ℕ) where
  abbrev hash : Key → ℕ
  hash = key_hash hash_bits hash_text

  abbrev main : ℕ
  main = hash key % count

  -- The slots that a move reads, if the main slot holds a key of another chain: a free one, and
  -- the one in front of the main slot.
  record Relocation (f p : ℕ) : Type 0 where
    f_lt : f < count
    free : is_vacant (at slots f).next ≡ true
    p_lt : p < count
    p_used : IsUsed (at slots) p
    before : mem p (valid.chain (hash (at slots main).k % count)) ≡ true
    linked : (at slots p).next ≡ follow main
    p_main : p ≢ main
    home_lt : hash (at slots main).k % count < count
    home_used : IsUsed (at slots) (hash (at slots main).k % count)
    found : free_near slots count (hash (at slots main).k % count) ≡ ok (some f)
    reached : previous_loop (suc (length slots)) slots main (hash (at slots main).k % count) ≡ ok p

  moving_slots :
      in_use count (at slots) < count
      → IsUsed (at slots) main
      → hash (at slots main).k % count ≢ main
      → (f : ℕ) × (p : ℕ) × Relocation f p
  moving_slots room used away =
      let c = hash (at slots main).k % count in
      let (is, chained) =
        chain_of_entry hash slots count valid main (main-lt hash slots count valid key) used in
      let there : mem main (c ∷ is) ≡ true =
        rw chained at (valid.placed.reached main (main-lt hash slots count valid key) used) in
      let (c_lt, c_used, c_home) = valid.placed.inside c c (rw chained (ground arith)) in
      let (f, found, f_lt, free) = free_near-lem hash slots count valid c c_lt c_used room in
      let (p, reached, p_there, linked) =
        previous_loop-lem slots (suc (length slots)) main c is
          (rw chained at (valid.placed.links c))
          (λ i m. chain-inside hash slots count valid c i (rw chained m))
          (rw chained at (length-chain hash slots count valid c)) (ground arith) in
      let before : mem p (valid.chain c) ≡ true = rw chained p_there in
      let (p_lt, p_used, p_home) = valid.placed.inside c p before in
      (
        f,
        p,
        record {
          f_lt = f_lt;
          free = free;
          p_lt = p_lt;
          p_used = p_used;
          before = before;
          linked = linked;
          p_main = λ e.
              Links-self (at slots) main (valid.chain c) (valid.placed.links c)
                (valid.placed.distinct c) (rw chained there) (rw e at linked);
          home_lt = c_lt;
          home_used = c_used;
          found = found;
          reached = reached;
        },
      )

  -- The main slot holds a key of another chain, which moves to a free slot.
  insert_new-moving :
      ((v : ℕ) → Holds (at slots) count key v → ⊥)
      → IsUsed (at slots) main
      → hash (at slots main).k % count ≢ main
      → (f p : ℕ) → Relocation f p
      → Adds hash_bits hash_text slots count valid key val
          (insert_new hash_bits hash_text slots count key val)
  unfolding insert_new table_insert
  insert_new-moving absent used away f p m =
      let c_inside : hash (at slots main).k % count < length slots =
        omega (arith, m.home_lt, valid.size) in
      let main_f : main ≢ f =
        λ e. let free : is_vacant (at slots main).next ≡ true = rw e m.free in cc in
      let p_f : p ≢ f = λ e.
        let free : is_vacant (at slots p).next ≡ true = rw e m.free in let used' = m.p_used in cc in
      let (cut, run, size, cut_main, cut_f, cut_p, cut_other) =
        move_entry-lem slots main f (main-inside hash slots count valid key)
          (omega (arith, m.f_lt, valid.size)) main_f p (omega (arith, m.p_lt, valid.size)) p_f
          m.p_main in
      let main_cut : main < length cut =
        omega (arith, (main-inside hash slots count valid key), size) in
      let slots' = refill cut main key val in
      let at_main : at slots' main ≡ record { k = key; v = val; next = end } =
        at-set_same cut main (record (at cut main) { k = key; v = val }) main_cut
        ∙ (rw cut_main refl) in
      let not_main : (i : ℕ) → i ≢ main → at slots' i ≡ at cut i =
        λ i n. at-set_other cut main (record (at cut main) { k = key; v = val }) i main_cut n in
      let at_f : at slots' f ≡ at slots main = not_main f (λ e. main_f (sym e)) ∙ cut_f in
      let at_p : at slots' p ≡ record (at slots p) { next = follow f } =
        not_main p m.p_main ∙ cut_p in
      let other : (i : ℕ) → i ≢ main → i ≢ f → i ≢ p → at slots' i ≡ at slots i =
        λ i n n' n''. not_main i n ∙ cut_other i n n' n'' in
      let more : Extends count (at slots) (at slots') main f key val = record {
        n_lt = (main-lt hash slots count valid key);
        f_lt = m.f_lt;
        free = m.free;
        used = rw at_main refl;
        used_f = rw at_f used;
        own = rw at_main refl;
        value = rw at_main refl;
        moved = λ ne. rw at_f (refl, refl, refl);
        same = λ i n n'. elim (Bool-cases (i == p)) [
          | inl e ↦ rw (eq_of_== i p e, at_p, m.p_used) (refl, refl, refl)
          | inr n'' ↦ rw (other i n n' (ne_of_== i p n'')) (refl, refl, refl)
        ];
      } in
      let (chain', placed) =
        replace-IsPlaced hash count (at slots) (at slots') valid.chain valid.placed main f p
          (main-lt hash slots count valid key) m.f_lt used m.free away m.before m.linked m.p_main
          (rw at_main refl) (rw at_main refl) at_f at_p other in
      let differs : hash (at slots main).k % count == main ≡ false = ground arith in
      (
        slots',
        rw
            (
              slot_at-lem slots main (main-inside hash slots count valid key),
              used,
              slot_at-lem slots (hash (at slots main).k % count) c_inside,
              m.home_used,
              m.found,
              differs,
              m.reached,
              run,
              fill-lem cut main key val main_cut,
            )
            refl,
        Extends-IsTable hash slots slots' count valid main f key val chain' more absent
            (length-set cut main (record (at cut main) { k = key; v = val }) ∙ size) placed,
        main,
        f,
        more,
      )

  -- If the slots hold the invariant, no slot holds the key, and fewer slots are in use than there are,
  -- then the insertion of the key ends without a failed assertion; the slots hold the invariant after
  -- it, and one entry more, that of the key with the value.
  pub insert_new-Adds :
      ((v : ℕ) → Holds (at slots) count key v → ⊥)
      → in_use count (at slots) < count
      → Adds hash_bits hash_text slots count valid key val
          (insert_new hash_bits hash_text slots count key val)
  insert_new-Adds absent room = elim (Bool-cases (is_vacant (at slots main).next)) [
    | inl free ↦ insert_new-alone hash_bits hash_text slots count valid key val absent free
    | inr used ↦ elim (Bool-cases (hash (at slots main).k % count == main)) [
      | inl home ↦
          insert_new-behind hash_bits hash_text slots count valid key val absent room used
            (eq_of_== (hash (at slots main).k % count) main home)
      | inr away ↦
          let differs = ne_of_== (hash (at slots main).k % count) main away in
          let (f, p, m) = moving_slots room used differs in
          insert_new-moving absent used differs f p m
    ]
  ]
