-- ===== src/Table/Refine.antt =====
-- Tables as finite maps: the operations of source/runtime/objects/table_object.cpp on a table whose slots
-- hold the invariant.
use kenaf.Base.{
  ℕ, ◌+◌, ◌<◌, ◌≡◌, refl, sym, ◌∙◌, ap, inl, inr, List, Option, some, none, ok, ◌==◌, arith,
  Bool-cases, Option-cases, length,
}
use kenaf.Lexer.Token.{Bytes}
use kenaf.Table.{Key, KvSlot, KvSlots, TableObject, key_value}
use kenaf.Table.Methods.{
  key_hash, insert_new, grow, kvslots_or_empty, table_tryindex, table_setindex,
}
use kenaf.Table.Chains.Entries.{Extends-in_use, Holds}
use kenaf.Table.Search.{at, slot_at-lem}
use kenaf.Table.Replacement.{insert_new-Adds}
use kenaf.Table.Lookup.{find-Decides}
use kenaf.Table.Contents.{put, Extends-put}
use kenaf.Table.Room.{Stores, grow-IsRoomy}
use kenaf.Table.Revalue.{revalue, revalue-IsTable, revalue-in_use, revalue-put}

module _ (hash_bits : ℕ → ℕ) (hash_text : Bytes → ℕ) where
  abbrev hash : Key → ℕ
  hash = key_hash hash_bits hash_text

  -- The table holds the entries of the map, whose keys are those that `key_value` gives.
  abbrev pub Represents : TableObject → (Key → Option ℕ) → Type 0
  Represents table m = Stores hash (kvslots_or_empty table.kvslots) table.length m

  none_unless_held :
      (key : Key) (kvslots : KvSlots) (n : ℕ) (m : Key → Option ℕ)
      → Stores hash kvslots n m
      → ((v : ℕ) → Holds (at kvslots.slots) kvslots.count key v → ⊥)
      → m key ≡ none
  none_unless_held key kvslots n m s absent = elim (Option-cases (m key)) [
    | inl nothing ↦ nothing
    | inr (v, e) ↦ absurd (absent v (s.means.1 key v e))
  ]

  -- If a table represents a map and has slots, a search in it ends without a fault and gives what the
  -- map has at the key.
  pub table_tryindex-Represents :
      (table : TableObject) (m : Key → Option ℕ) (key : Key) (kvslots : KvSlots)
      → Represents table m
      → table.kvslots ≡ some kvslots
      → table_tryindex hash_bits hash_text table key ≡ ok (m (key_value key))
  unfolding table_tryindex
  table_tryindex-Represents table m key kvslots r is =
      let s : Stores hash kvslots table.length m = rw is at r in
      elim (Bool-cases (kvslots.count == 0)) [
        | inl empty ↦
            rw (is, empty)
              (ap ok (
                sym (
                  none_unless_held (key_value key) kvslots table.length m s
                    (λ v (i, lt, u, e, e'). absurd (ground arith)))))
        | inr some_slots ↦ elim s.valid [
          | inl empty ↦ absurd (ground arith)
          | inr valid ↦ elim (find-Decides hash kvslots.slots kvslots.count valid (key_value key)) [
            | inl (i, found, lt, used, own) ↦
                let inside : i < length kvslots.slots = omega (arith, valid.size) in
                let there =
                  s.means.0 (key_value key) (at kvslots.slots i).v (i, lt, used, own, refl) in
                rw (is, some_slots, found, slot_at-lem kvslots.slots i inside) (ap ok (sym there))
            | inr (found, absent) ↦
                rw (is, some_slots, found)
                  (ap ok (sym (none_unless_held (key_value key) kvslots table.length m s absent)))
          ]
        ]
      ]

  insert_absent :
      (table : TableObject) (kvslots : KvSlots) (m : Key → Option ℕ) (key : Key) (val : ℕ)
      → Stores hash kvslots table.length m
      → ((v : ℕ) → Holds (at kvslots.slots) kvslots.count key v → ⊥)
      → (roomy : KvSlots) × (slots : List KvSlot) × (grow hash_bits hash_text table kvslots
          ≡ ok roomy)
        × (insert_new hash_bits hash_text roomy.slots roomy.count key val ≡ ok slots)
        × Stores hash
            (record { count = roomy.count; slots = slots })
            (table.length + 1)
            (put m key val)
  insert_absent table kvslots m key val s absent =
      let (roomy, run, r) = grow-IsRoomy hash_bits hash_text table kvslots m s in
      let absent' : (v : ℕ) → Holds (at roomy.slots) roomy.count key v → ⊥ =
        λ v h. absent v (s.means.1 key v (r.means.0 key v h)) in
      let (slots, run', valid, n, f, more) =
        insert_new-Adds hash_bits hash_text roomy.slots roomy.count r.valid key val absent'
          (omega (arith, r.number, r.room)) in
      (
        roomy,
        slots,
        run,
        run',
        record {
          valid = inr valid;
          number = omega (
            arith,
            r.number,
            Extends-in_use roomy.count (at roomy.slots) (at slots) n f key val more,
          );
          means =
              Extends-put (at roomy.slots) (at slots) roomy.count n f m key val more absent'
                r.means;
        },
      )

  -- If a table represents a map, setting the value of a key succeeds, with or without a larger block
  -- of slots, and the table then represents the map with the value at the key.
  pub table_setindex-Represents :
      (table : TableObject) (m : Key → Option ℕ) (key : Key) (val : ℕ)
      → Represents table m
      → (table' : TableObject) × (table_setindex hash_bits hash_text table key val ≡ ok table')
        × Represents table' (put m (key_value key) val)
  unfolding table_setindex
  table_setindex-Represents table m key val r =
      let kvslots = kvslots_or_empty table.kvslots in
      let key' = key_value key in
      elim (Bool-cases (kvslots.count == 0)) [
        | inl empty ↦
            let (roomy, slots, grows, inserts, s) =
              insert_absent table kvslots m key' val r
                (λ v (i, lt, u, e, e'). absurd (ground arith)) in
            (
              record {
                kvslots = some (record { count = roomy.count; slots = slots });
                length = table.length + 1;
              },
              rw (empty, grows, inserts) refl,
              s,
            )
        | inr some_slots ↦ elim r.valid [
          | inl empty ↦ absurd (ground arith)
          | inr valid ↦ elim (find-Decides hash kvslots.slots kvslots.count valid key') [
            | inl (i, found, lt, used, own) ↦
                let inside : i < length kvslots.slots = omega (arith, valid.size) in
                (
                  record table {
                    kvslots = some (record kvslots { slots = revalue kvslots.slots i val });
                  },
                  rw (some_slots, found, slot_at-lem kvslots.slots i inside) refl,
                  record {
                    valid =
                        inr (revalue-IsTable hash kvslots.slots kvslots.count valid i val lt used);
                    number =
                        revalue-in_use hash kvslots.slots kvslots.count valid i val lt used
                        ∙ r.number;
                    means = rw⁻¹ own (
                        revalue-put hash kvslots.slots kvslots.count valid i val lt used m r.means);
                  },
                )
            | inr (found, absent) ↦
                let (roomy, slots, grows, inserts, s) =
                  insert_absent table kvslots m key' val r absent in
                (
                  record {
                    kvslots = some (record { count = roomy.count; slots = slots });
                    length = table.length + 1;
                  },
                  rw (some_slots, found, grows, inserts) refl,
                  s,
                )
          ]
        ]
      ]
