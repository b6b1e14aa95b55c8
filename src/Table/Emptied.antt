-- ===== src/Table/Emptied.antt =====
-- Tables without an entry, `table_new` and `table_clear` of source/runtime/objects/table_object.cpp.
use kenaf.Base.{
  ℕ, zero, suc, ◌+◌, ◌-◌, ◌/◌, max, ◌<◌, ◌≡◌, refl, ◌∙◌, ap, subst, inl, inr, ◌⊎◌, true, List, [],
  ◌∷◌, Option, some, none, ok, ◌==◌, arith, Bool-cases, Option-cases, length,
}
use kenaf.Lexer.Token.{Bytes}
use kenaf.Table.{Key, KvSlot, KvSlots, TableObject, is_vacant, kvslots_new}
use kenaf.Table.Methods.{key_hash, ceilpow2, table_new, clear_slots, table_clear}
use kenaf.Table.Search.{at}
use kenaf.Table.Invariant.{IsTable}
use kenaf.Table.NewBlock.{kvslots_new-IsTable, free_of_new, in_use-none}
use kenaf.Table.Room.{Stores}
use kenaf.Table.Refine.{Represents}

abbrev pub empty_map : Key → Option ℕ
empty_map k = none

-- Slots of which none is in use hold the empty map.
pub free-Stores :
    (hash : Key → ℕ) (kvslots : KvSlots)
    → (kvslots.count ≡ 0) ⊎ IsTable hash kvslots.slots kvslots.count
    → ((i : ℕ) → i < kvslots.count → is_vacant (at kvslots.slots i).next ≡ true)
    → Stores hash kvslots 0 empty_map
free-Stores hash kvslots valid free = record {
  valid = valid;
  number = in_use-none kvslots.count (at kvslots.slots) free;
  means = ((λ k v (i, lt, u, e, e'). let free' = free i lt in cc), λ k v e. cc);
}

clear_slots-free :
    (n : ℕ) (slots : List KvSlot) (i : ℕ)
    → i < n
    → is_vacant (at (clear_slots n slots) i).next ≡ true
unfolding clear_slots
clear_slots-free zero slots i lt = absurd (omega arith)
clear_slots-free (suc n) [] i lt = refl
clear_slots-free (suc n) (s ∷ slots) zero lt = elim (Bool-cases (is_vacant s.next)) [
  | inl free ↦ rw free free
  | inr used ↦ rw used refl
]
clear_slots-free (suc n) (s ∷ slots) (suc i) lt = clear_slots-free n slots i (omega arith)

clear_slots-rest : (n : ℕ) (slots : List KvSlot) → at (clear_slots n slots) n ≡ at slots n
unfolding clear_slots
clear_slots-rest zero slots = refl
clear_slots-rest (suc n) [] = refl
clear_slots-rest (suc n) (s ∷ slots) = clear_slots-rest n slots

length-clear_slots : (n : ℕ) (slots : List KvSlot) → length (clear_slots n slots) ≡ length slots
unfolding clear_slots
length-clear_slots zero slots = refl
length-clear_slots (suc n) [] = refl
length-clear_slots (suc n) (s ∷ slots) = ap suc (length-clear_slots n slots)

clear_slots-IsTable :
    (hash : Key → ℕ) (slots : List KvSlot) (count : ℕ)
    → IsTable hash slots count
    → IsTable hash (clear_slots count slots) count
clear_slots-IsTable hash slots count valid = record {
  chain = λ b. [];
  positive = valid.positive;
  size = length-clear_slots count slots ∙ valid.size;
  placed = record {
    starts = λ b. tt;
    links = λ b. tt;
    inside = λ b i m. cc;
    distinct = λ b. tt;
    reached = λ i lt u. let free = clear_slots-free count slots i lt in cc;
  };
  unique = λ i j lt_i lt_j u_i u_j e. let free = clear_slots-free count slots i lt_i in cc;
  sentinel = rw (clear_slots-rest count slots) valid.sentinel;
}

module _ (hash_bits : ℕ → ℕ) (hash_text : Bytes → ℕ) where
  pub table_clear-Represents :
      (table : TableObject) (m : Key → Option ℕ)
      → Represents hash_bits hash_text table m
      → Represents hash_bits hash_text (table_clear table) empty_map
  unfolding table_clear
  table_clear-Represents table m r = elim (Option-cases table.kvslots) [
    | inl nothing ↦
        let s : Stores (key_hash hash_bits hash_text) (record { count = 0; slots = [] })
            table.length m =
          rw nothing at r in
        rw nothing (
          subst
            (λ n.
              Stores (key_hash hash_bits hash_text) (record { count = 0; slots = [] }) n empty_map)
            s.number
            (free-Stores (key_hash hash_bits hash_text) (record { count = 0; slots = [] })
              (inl refl) (λ i lt. refl)))
    | inr (kvslots, is) ↦
        let s : Stores (key_hash hash_bits hash_text) kvslots table.length m = rw is at r in
        rw is (
          free-Stores (key_hash hash_bits hash_text)
            (record kvslots { slots = clear_slots kvslots.count kvslots.slots })
            (elim s.valid [
              | inl empty ↦ inl empty
              | inr valid ↦ inr (
                  clear_slots-IsTable (key_hash hash_bits hash_text) kvslots.slots kvslots.count
                    valid)
            ])
            (clear_slots-free kvslots.count kvslots.slots))
  ]

  -- A new table represents the empty map, if its capacity is 0 or has a power of two above it.
  pub table_new-Represents :
      (clz : ℕ → ℕ) (capacity size : ℕ)
      → (capacity ≡ 0) ⊎ (ceilpow2 clz (max (capacity + capacity / 4) 16) ≡ ok size)
      → (table : TableObject) × (table_new clz capacity ≡ ok table)
        × Represents hash_bits hash_text table empty_map
  unfolding table_new
  table_new-Represents clz capacity size fits = elim (Bool-cases (capacity == 0)) [
    | inl none_asked ↦ (
      record { kvslots = none; length = 0 },
      rw none_asked refl,
      free-Stores (key_hash hash_bits hash_text) (record { count = 0; slots = [] }) (inl refl)
          (λ i lt. refl),
    )
    | inr some_asked ↦ elim fits [
      | inl e ↦ absurd (ground arith)
      | inr e ↦ (
        record { kvslots = some (kvslots_new (size - 1)); length = 0 },
        rw (some_asked, e) refl,
        free-Stores (key_hash hash_bits hash_text) (kvslots_new (size - 1)) (new_valid (size - 1))
            (λ i lt. free_of_new (size - 1) i lt),
      )
    ]
  ]
    where
      new_valid :
          (count : ℕ)
          → (count ≡ 0) ⊎ IsTable (key_hash hash_bits hash_text) (kvslots_new count).slots count
      new_valid zero = inl refl
      new_valid (suc n) =
          inr (kvslots_new-IsTable (key_hash hash_bits hash_text) (suc n) (omega arith))
