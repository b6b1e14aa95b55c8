-- ===== src/Table/Clear.antt =====
-- Tables that have been cleared, `table_clear` of source/runtime/objects/table_object.cpp.
use kenaf.Base.{
  ℕ, zero, suc, ◌%◌, ◌<◌, ◌≡◌, refl, inl, inr, true, false, List, [], ◌∷◌, none, some, ok, ◌==◌,
  arith, Bool-cases,
}
use native.Mathlib.Nat.{mod-lt}
use kenaf.Lexer.Token.{Bytes}
use kenaf.Table.{
  Key, KvSlot, KvSlots, TableObject, key_value, vacant_slot, slot_at, is_vacant, find,
}
use kenaf.Table.Methods.{clear_slots, table_clear, key_hash, table_tryindex}

-- The sentinel follows the slots and no other.
pub data EndsWithSentinel : ℕ → List KvSlot → Type 0 where
  sentinel : {s : KvSlot} → is_vacant s.next ≡ false → EndsWithSentinel 0 (s ∷ [])
  slot_then :
      {n : ℕ} {s : KvSlot} {slots : List KvSlot}
      → EndsWithSentinel n slots
      → EndsWithSentinel (suc n) (s ∷ slots)

clear_slots-vacant :
    (n i : ℕ) (slots : List KvSlot) (c : EndsWithSentinel n slots)
    → i < n
    → (s : KvSlot) × (slot_at (clear_slots n slots) i ≡ ok s) × (is_vacant s.next ≡ true)
unfolding clear_slots
clear_slots-vacant zero i slots c h = absurd (omega arith)
clear_slots-vacant (suc n) i [] c h = elim c [ ]
clear_slots-vacant (suc n) zero (s ∷ slots) (slot_then c) h = elim (Bool-cases (is_vacant s.next)) [
  | inl empty ↦ (s, rw empty refl, empty)
  | inr full ↦ (vacant_slot, rw full refl, refl)
]
clear_slots-vacant (suc n) (suc i) (s ∷ slots) (slot_then c) h =
    clear_slots-vacant n i slots c (omega arith)

-- No key is found in a table that has been cleared, and its length is 0, if it has slots and
-- they end with the sentinel.
pub table_clear-tryindex :
    (hash_bits : ℕ → ℕ) (hash_text : Bytes → ℕ) (table : TableObject) (kvslots : KvSlots)
    (key : Key)
    → table.kvslots ≡ some kvslots
    → EndsWithSentinel kvslots.count kvslots.slots
    → ((table_clear table).length ≡ 0)
      × (table_tryindex hash_bits hash_text (table_clear table) key ≡ ok none)
unfolding table_clear table_tryindex find
table_clear-tryindex hash_bits hash_text table kvslots key is c =
    elim (Bool-cases (kvslots.count == 0)) [
      | inl no_slots ↦ rw is (refl, rw no_slots refl)
      | inr slots ↦
          let bound : key_hash hash_bits hash_text (key_value key) % kvslots.count < kvslots.count =
            mod-lt (key_hash hash_bits hash_text (key_value key)) (ground arith) in
          let (s, at, empty) =
            clear_slots-vacant kvslots.count
              (key_hash hash_bits hash_text (key_value key) % kvslots.count) kvslots.slots c
              bound in
          rw is (refl, rw (slots, at, empty) refl)
    ]
