-- ===== src/Table/Lookup.antt =====
-- The search of a key from its main slot, `table_tryindex` of source/runtime/objects/table_object.cpp, for
-- slots that hold the invariant.
use kenaf.Base.{
  ℕ, suc, ◌%◌, ◌<◌, ◌≤◌, ◌≡◌, refl, sym, ◌∙◌, inl, inr, ◌⊎◌, true, false, List, [], ◌∷◌, Option,
  some, none, ok, ◌==◌, ap, subst, arith, Bool-cases, length, mem, eq_of_==, ne_of_==, Run,
}
use native.Mathlib.Nat.{mod-lt}
use kenaf.Table.{Key, KvSlot, key_equal, is_vacant, find_loop, find}
use kenaf.Table.Chains.{IsUsed, Links, Links-suffix}
use kenaf.Table.Chains.Additions.{chain_of_other}
use kenaf.Table.Chains.Entries.{Holds}
use kenaf.Table.Keys.{key_equal-equal, key_equal_refl}
use kenaf.Table.Search.{at, slot_at-lem, find_loop-Finds}
use kenaf.Table.Invariant.{IsTable, length-chain, chain_of_entry}

-- The slot of the key was found, or no slot holds it.
abbrev pub Decides : List KvSlot → ℕ → Key → Run (Option ℕ) → Type 0
Decides slots count key r =
    ((i : ℕ) × (r ≡ ok (some i)) × (i < count) × IsUsed (at slots) i × ((at slots i).k ≡ key))
    ⊎ ((r ≡ ok none) × ((v : ℕ) → Holds (at slots) count key v → ⊥))

module _ (hash : Key → ℕ) (slots : List KvSlot) (count : ℕ) (valid : IsTable hash slots count)
    (key : Key) where
  abbrev main : ℕ
  main = hash key % count

  pub main-lt : main < count
  main-lt = mod-lt (hash key) valid.positive

  pub main-inside : main < length slots
  main-inside = omega (arith, main-lt, valid.size)

  -- A slot that holds the key is in the chain of the main slot of the key.
  pub key_in_chain :
      (i : ℕ)
      → i < count
      → IsUsed (at slots) i
      → (at slots i).k ≡ key
      → mem i (valid.chain main) ≡ true
  key_in_chain i lt used own = rw own at (valid.placed.reached i lt used)

  pub absent_unless_used :
      is_vacant (at slots main).next ≡ true → (v : ℕ) → Holds (at slots) count key v → ⊥
  absent_unless_used free v (i, lt, used, own, value) =
      let none_there =
        chain_of_other hash count (at slots) valid.chain valid.placed main (inl free) in
      let m : mem i [] ≡ true = rw none_there at (key_in_chain i lt used own) in cc

  -- The slots that a search from the main slot of the key visits
  pub record Walk (is : List ℕ) : Type 0 where
    pub linked : Links (at slots) (main ∷ is)
    pub inside : (i : ℕ) → mem i (main ∷ is) ≡ true → (i < count) × IsUsed (at slots) i
    pub short : length (main ∷ is) ≤ suc (length slots)
    pub complete :
        (i : ℕ) → i < count → IsUsed (at slots) i → (at slots i).k ≡ key → mem i (main ∷ is) ≡ true
    pub whole :
        (i : ℕ) → mem i (main ∷ is) ≡ true → (at slots i).k ≡ key → valid.chain main ≡ main ∷ is

  pub walk : IsUsed (at slots) main → (is : List ℕ) × Walk is
  walk used = elim (Bool-cases (hash (at slots main).k % count == main)) [
    | inl home ↦
        let is_home = eq_of_== (hash (at slots main).k % count) main home in
        let (is, chained) : (is : List ℕ) × (valid.chain main ≡ main ∷ is) =
          subst (λ b. (is : List ℕ) × (valid.chain b ≡ b ∷ is)) is_home
            (chain_of_entry hash slots count valid main main-lt used) in
        (
          is,
          record {
            linked = rw chained at (valid.placed.links main);
            inside = λ i m.
                let (lt, used', home') = valid.placed.inside main i (rw chained m) in (lt, used');
            short = rw chained at (length-chain hash slots count valid main);
            complete = λ i lt used' own. rw chained at (key_in_chain i lt used' own);
            whole = λ i m own. chained;
          },
        )
    | inr away ↦
        let differs = ne_of_== (hash (at slots main).k % count) main away in
        let c = hash (at slots main).k % count in
        let (is, linked, within, le) =
          Links-suffix (at slots) main (valid.chain c) (valid.placed.links c)
            (valid.placed.reached main main-lt used) in
        let none_there =
          chain_of_other hash count (at slots) valid.chain valid.placed main (inr differs) in
        (
          is,
          record {
            linked = linked;
            inside =
                λ i m. let (lt, used', home') = valid.placed.inside c i (within i m) in (lt, used');
            short = omega (arith, le, length-chain hash slots count valid c);
            complete = λ i lt used' own.
                let m : mem i [] ≡ true = rw none_there at (key_in_chain i lt used' own) in cc;
            whole = λ i m own. absurd (
                differs
                  (sym (valid.placed.inside c i (within i m)).2 ∙ ap (λ k. hash k % count) own));
          },
        )
  ]

  in_block : (is : List ℕ) → Walk is → (i : ℕ) → mem i (main ∷ is) ≡ true → i < length slots
  in_block is w i m = omega (arith, (w.inside i m).0, valid.size)

  -- If the slots hold the invariant, the search of a key from its main slot ends without a fault; it
  -- finds a slot in use that holds the key, or finds nothing and no slot holds the key.
  pub find-Decides : Decides slots count key (find slots key main)
  unfolding find
  find-Decides =
      rw (slot_at-lem slots main main-inside) (elim (Bool-cases (is_vacant (at slots main).next)) [
        | inl free ↦ rw free (inr (refl, absent_unless_used free))
        | inr used ↦ rw used (walked used)
      ])
    where
      walked :
          IsUsed (at slots) main
          → Decides slots count key (find_loop (suc (length slots)) slots key main)
      walked used =
          let (is, w) = walk used in
          elim (find_loop-Finds slots (suc (length slots)) key main is w.linked (in_block is w)
            w.short) [
              | inl (i, r, m, e) ↦
                  inl
                    (i, r, (w.inside i m).0, (w.inside i m).1, key_equal-equal (at slots i).k key e)
              | inr (r, all) ↦ inr (
                r,
                λ v (i, lt, used', own, value).
                    let no : key_equal (at slots i).k key ≡ false =
                      all i (w.complete i lt used' own) in
                    let yes : key_equal (at slots i).k key ≡ true = rw own (key_equal_refl key) in
                    cc,
              )
            ]
