-- ===== src/Table/Growth.antt =====
-- The larger block of slots of a table, source/runtime/objects/table_object.cpp: the entries of the smaller
-- one are put into it again.
use kenaf.Base.{
  ℕ, zero, suc, ◌+◌, ◌≤◌, ◌≡◌, refl, sym, ◌∙◌, ap, inl, inr, ◌⊎◌, true, false, List, [], ◌∷◌, ok,
  if◌then◌else◌, arith, Bool-cases, length,
}
use kenaf.Lexer.Token.{Bytes}
use kenaf.Table.{Key, KvSlot, is_vacant}
use kenaf.Table.Methods.{key_hash, insert_new, reinsert_loop}
use kenaf.Table.Chains.{Slots}
use kenaf.Table.Chains.Entries.{
  Extends, Extends-kept, Extends-new, Extends-old, Extends-in_use, Holds, IsUnique, in_use,
}
use kenaf.Table.Search.{at}
use kenaf.Table.Invariant.{IsTable}
use kenaf.Table.Replacement.{insert_new-Adds}

-- The first slot counts on its own.
in_use-first :
    (n : ℕ) (s : KvSlot) (old : List KvSlot)
    → in_use (suc n) (at (s ∷ old)) ≡ (if is_vacant s.next then 0 else 1) + in_use n (at old)
in_use-first zero s old = refl
in_use-first (suc n) s old = rw (in_use-first n s old) (omega arith)

pub in_use-bound : (n : ℕ) (at' : Slots) → in_use n at' ≤ n
in_use-bound zero at' = omega arith
in_use-bound (suc n) at' = ground (arith, in_use-bound n at')

behind-IsUnique :
    (n : ℕ) (s : KvSlot) (old : List KvSlot) → IsUnique (at (s ∷ old)) (suc n) → IsUnique (at old) n
behind-IsUnique n s old unique i j lt_i lt_j u_i u_j e =
    let same = unique (suc i) (suc j) (omega arith) (omega arith) u_i u_j e in omega arith

behind-Holds :
    (n : ℕ) (s : KvSlot) (old : List KvSlot) (k : Key) (v : ℕ)
    → Holds (at old) n k v
    → Holds (at (s ∷ old)) (suc n) k v
behind-Holds n s old k v (i, lt, u, e, e') = (suc i, omega arith, u, e, e')

Holds-cases :
    (n : ℕ) (s : KvSlot) (old : List KvSlot) (k : Key) (v : ℕ)
    → Holds (at (s ∷ old)) (suc n) k v
    → ((is_vacant s.next ≡ false) × (s.k ≡ k) × (s.v ≡ v)) ⊎ Holds (at old) n k v
Holds-cases n s old k v (zero, lt, u, e, e') = inl (u, e, e')
Holds-cases n s old k v (suc i, lt, u, e, e') = inr (i, omega arith, u, e, e')

module _ (hash_bits : ℕ → ℕ) (hash_text : Bytes → ℕ) where
  abbrev hash : Key → ℕ
  hash = key_hash hash_bits hash_text

  -- The slots hold the entries that they held, and those of the old slots.
  pub record Joins (slots old : List KvSlot) (count n : ℕ) (slots' : List KvSlot) : Type 0 where
    pub valid : IsTable hash slots' count
    pub number : in_use count (at slots') ≡ in_use count (at slots) + in_use n (at old)
    pub kept : (k : Key) (v : ℕ) → Holds (at slots) count k v → Holds (at slots') count k v
    pub joined : (k : Key) (v : ℕ) → Holds (at old) n k v → Holds (at slots') count k v
    pub only :
        (k : Key) (v : ℕ)
        → Holds (at slots') count k v
        → Holds (at slots) count k v ⊎ Holds (at old) n k v

  Joins-behind :
      (slots old : List KvSlot) (count n : ℕ) (s : KvSlot) (slots' : List KvSlot)
      → is_vacant s.next ≡ true
      → Joins slots old count n slots'
      → Joins slots (s ∷ old) count (suc n) slots'
  Joins-behind slots old count n s slots' free joins = record {
    valid = joins.valid;
    number =
        joins.number
        ∙ ap (λ m. in_use count (at slots) + m)
            (sym (in_use-first n s old ∙ (rw free (omega arith))));
    kept = joins.kept;
    joined = λ k v h. elim (Holds-cases n s old k v h) [
      | inl (u, e, e') ↦ cc
      | inr h' ↦ joins.joined k v h'
    ];
    only = λ k v h. elim (joins.only k v h) [
      | inl h' ↦ inl h'
      | inr h' ↦ inr (behind-Holds n s old k v h')
    ];
  }

  Joins-first :
      (slots old : List KvSlot) (count n : ℕ) (s : KvSlot) (next slots' : List KvSlot) (i f : ℕ)
      → is_vacant s.next ≡ false
      → Extends count (at slots) (at next) i f s.k s.v
      → Joins next old count n slots'
      → Joins slots (s ∷ old) count (suc n) slots'
  Joins-first slots old count n s next slots' i f used more joins = record {
    valid = joins.valid;
    number =
        let first : in_use (suc n) (at (s ∷ old)) ≡ 1 + in_use n (at old) =
          in_use-first n s old ∙ (rw used refl) in
        omega
          (arith, joins.number, Extends-in_use count (at slots) (at next) i f s.k s.v more, first);
    kept = λ k v h. joins.kept k v (Extends-kept count (at slots) (at next) i f s.k s.v more k v h);
    joined = λ k v h. elim (Holds-cases n s old k v h) [
      | inl (u, e, e') ↦
          joins.kept k v
            (rw⁻¹ e (rw⁻¹ e' (Extends-new count (at slots) (at next) i f s.k s.v more)))
      | inr h' ↦ joins.joined k v h'
    ];
    only = λ k v h. elim (joins.only k v h) [
      | inl h' ↦ elim (Extends-old count (at slots) (at next) i f s.k s.v more k v h') [
        | inl (e, e') ↦ inr (0, omega arith, used, sym e, sym e')
        | inr h'' ↦ inl h''
      ]
      | inr h' ↦ inr (behind-Holds n s old k v h')
    ];
  }

  reinsert-free :
      (s : KvSlot) (old slots : List KvSlot) (count : ℕ)
      → is_vacant s.next ≡ true
      → reinsert_loop hash_bits hash_text (s ∷ old) count slots
        ≡ reinsert_loop hash_bits hash_text old count slots
  unfolding reinsert_loop
  reinsert-free s old slots count free = rw free refl

  reinsert-used :
      (s : KvSlot) (old slots : List KvSlot) (count : ℕ) (next : List KvSlot)
      → is_vacant s.next ≡ false
      → insert_new hash_bits hash_text slots count s.k s.v ≡ ok next
      → reinsert_loop hash_bits hash_text (s ∷ old) count slots
        ≡ reinsert_loop hash_bits hash_text old count next
  unfolding reinsert_loop
  reinsert-used s old slots count next used run = rw (used, run) refl

  -- If the slots hold the invariant, no key is twice in the old slots or in both, and the entries of
  -- both are no more than the slots, then the loop over the old slots ends without a fault; the slots
  -- hold the invariant after it, and the entries of both and no other.
  pub reinsert_loop-Joins :
      (old slots : List KvSlot) (count : ℕ)
      → IsTable hash slots count
      → IsUnique (at old) (length old)
      → ((k : Key) (v w : ℕ) → Holds (at old) (length old) k v → Holds (at slots) count k w → ⊥)
      → in_use count (at slots) + in_use (length old) (at old) ≤ count
      → (slots' : List KvSlot) × (reinsert_loop hash_bits hash_text old count slots ≡ ok slots')
        × Joins slots old count (length old) slots'
  unfolding reinsert_loop
  reinsert_loop-Joins [] slots count valid unique apart room = (
    slots,
    refl,
    record {
      valid = valid;
      number = omega arith;
      kept = λ k v h. h;
      joined = λ k v (i, lt, u, e, e'). absurd (omega arith);
      only = λ k v h. inl h;
    },
  )
  reinsert_loop-Joins (s ∷ old) slots count valid unique apart room =
      let size = in_use-first (length old) s old in
      let unique' = behind-IsUnique (length old) s old unique in
      elim (Bool-cases (is_vacant s.next)) [
        | inl free ↦
            let size' : in_use (suc (length old)) (at (s ∷ old)) ≡ in_use (length old) (at old) =
              size ∙ (rw free (omega arith)) in
            let (slots', run, joins) =
              reinsert_loop-Joins old slots count valid unique'
                (λ k v w h. apart k v w (behind-Holds (length old) s old k v h))
                (omega (arith, size')) in
            (
              slots',
              reinsert-free s old slots count free ∙ run,
              Joins-behind slots old count (length old) s slots' free joins,
            )
        | inr used ↦
            let size' : in_use (suc (length old)) (at (s ∷ old))
                ≡ 1 + in_use (length old) (at old) =
              size ∙ (rw used refl) in
            let (next, run, valid', n, f, more) =
              insert_new-Adds hash_bits hash_text slots count valid s.k s.v
                (λ w h. apart s.k s.v w (0, omega arith, used, refl, refl) h)
                (omega (arith, size')) in
            let number' = Extends-in_use count (at slots) (at next) n f s.k s.v more in
            let (slots', run', joins) =
              reinsert_loop-Joins old next count valid' unique'
                (λ k v w h h'.
                  elim (Extends-old count (at slots) (at next) n f s.k s.v more k w h') [
                    | inl (e, e') ↦
                        let (i, lt, u, eo, ev) = h in
                        let same = unique (suc i) 0 (omega arith) (omega arith) u used (eo ∙ e) in
                        omega arith
                    | inr h'' ↦ apart k v w (behind-Holds (length old) s old k v h) h''
                  ])
                (omega (arith, size', number')) in
            (
              slots',
              reinsert-used s old slots count next used run ∙ run',
              Joins-first slots old count (length old) s next slots' n f used more joins,
            )
      ]
