-- ===== src/Table/Tests.antt =====
-- Tables at a small input.
use kenaf.Base.{
  ℕ, zero, suc, ◌≢◌, inr, inl, List, Option, false, ◌≡◌, refl, [], ◌∷◌, none, some, ok, ◌>>=◌,
  length, take, arith,
}
use kenaf.Table.{
  KvSlot, key_value, key_equal, find, find_loop, Key, Next, KvSlots, TableObject, kvslots_new,
}
use kenaf.Table.Methods.{
  table_clear, table_new, table_tryindex, table_setindex, table_delindex, key_hash, insert_new,
  delete_entry, reinsert_loop,
}
use kenaf.Table.Update.{table_setindex-present}
use kenaf.Table.Clear.{EndsWithSentinel, sentinel, slot_then, table_clear-tryindex}
use kenaf.Table.Visit.{entries, visit, visit-entries}
use kenaf.Table.Search.{at}
use kenaf.Table.Chains.Additions.{put_alone-IsPlaced}
use kenaf.Table.Chains.Entries.{Holds, IsUnique, in_use, Extends}
use kenaf.Table.Invariant.{IsTable, Extends-IsTable}
use kenaf.Table.NewBlock.{kvslots_new-IsTable, kvslots_new-Holds}
use kenaf.Table.Contents.{put, without, Extends-put}
use kenaf.Table.Lookup.{Decides, find-Decides}
use kenaf.Table.Insertion.{Adds}
use kenaf.Table.Replacement.{insert_new-Adds}
use kenaf.Table.Deletion.{Deletes, delete_entry-Deletes}
use kenaf.Table.Growth.{Joins, reinsert_loop-Joins}
use kenaf.Table.Refine.{Represents, table_tryindex-Represents, table_setindex-Represents}
use kenaf.Table.RefineDeletion.{table_delindex-Represents}
use kenaf.Table.Emptied.{empty_map}
use kenaf.Table.History.{
  Operation, set_key, delete_key, change_all, apply_all, table_tryindex-apply_all,
}

-- Two slots, of which the second holds 8 at the key 5, and the sentinel
abbrev two_slots : KvSlots
two_slots = record {
  count = 2;
  slots =
      record { k = Key.bits 0; v = 0; next = Next.vacant }
      ∷ record { k = Key.bits 5; v = 8; next = Next.end }
      ∷ record { k = Key.bits 0; v = 0; next = Next.end }
      ∷ [];
}

abbrev small : TableObject
small = record { kvslots = some two_slots; length = 1 }

two_slots-EndsWithSentinel : EndsWithSentinel two_slots.count two_slots.slots
two_slots-EndsWithSentinel = slot_then (slot_then (sentinel refl))

table_clear-tryindex_example :
    ((table_clear small).length ≡ 0)
    × (table_tryindex (λ v. v) length (table_clear small) (Key.bits 5) ≡ ok none)
table_clear-tryindex_example =
    table_clear-tryindex (λ v. v) length small two_slots (Key.bits 5) refl
      two_slots-EndsWithSentinel

visit-entries_example : visit 3 small ≡ ok (some (entries two_slots.count two_slots.slots))
visit-entries_example = visit-entries two_slots.slots two_slots.count 1 two_slots-EndsWithSentinel

small-holds : table_tryindex (λ v. v) length small (Key.bits 5) ≡ ok (some 8)
unfolding table_tryindex find find_loop key_value key_equal
small-holds = refl

table_setindex-present_example :
    (slots' : List KvSlot) × (table_setindex (λ v. v) length small (Key.bits 5) 9
      ≡ ok (record { kvslots = some (record { count = 2; slots = slots' }); length = 1 }))
    × (table_tryindex
          (λ v. v)
          length
          (record { kvslots = some (record { count = 2; slots = slots' }); length = 1 })
          (Key.bits 5)
        ≡ ok (some 9))
    × ((other : Key)
        → key_equal (key_value other) (key_value (Key.bits 5)) ≡ false
        → table_tryindex
            (λ v. v)
            length
            (record { kvslots = some (record { count = 2; slots = slots' }); length = 1 })
            other
          ≡ table_tryindex (λ v. v) length small other)
table_setindex-present_example =
    table_setindex-present (λ v. v) length two_slots.slots 2 1 (Key.bits 5) 8 9 small-holds

abbrev empty_slots : KvSlots
empty_slots = kvslots_new 2

empty_slots-IsTable : IsTable (key_hash (λ v. v) length) empty_slots.slots 2
empty_slots-IsTable = kvslots_new-IsTable (key_hash (λ v. v) length) 2 (omega arith)

other_than_1 : (i : ℕ) → i ≢ 1 → at two_slots.slots i ≡ at empty_slots.slots i
other_than_1 zero ne = refl
other_than_1 (suc zero) ne = absurd (ne refl)
other_than_1 (suc (suc zero)) ne = refl
other_than_1 (suc (suc (suc i))) ne = refl

two_slots-Extends : Extends 2 (at empty_slots.slots) (at two_slots.slots) 1 1 (Key.bits 5) 8
two_slots-Extends = record {
  n_lt = omega arith;
  f_lt = omega arith;
  free = refl;
  used = refl;
  used_f = refl;
  own = refl;
  value = refl;
  moved = λ ne. absurd (ne refl);
  same = λ i ne ne'. rw (other_than_1 i ne) (refl, refl, refl);
}

two_slots-IsTable : IsTable (key_hash (λ v. v) length) two_slots.slots 2
two_slots-IsTable =
    Extends-IsTable (key_hash (λ v. v) length) empty_slots.slots two_slots.slots 2
      empty_slots-IsTable 1 1 (Key.bits 5) 8 _ two_slots-Extends
      (λ v h. kvslots_new-Holds 2 (Key.bits 5) v h) refl
      (put_alone-IsPlaced (key_hash (λ v. v) length) 2 (at empty_slots.slots)
        empty_slots-IsTable.chain empty_slots-IsTable.placed (at two_slots.slots) 1 (omega arith)
        refl refl refl other_than_1)

abbrev one_entry : Key → Option ℕ
one_entry = put empty_map (Key.bits 5) 8

small-Represents : Represents (λ v. v) length small one_entry
small-Represents = record {
  valid = inr two_slots-IsTable;
  number = refl;
  means =
      Extends-put (at empty_slots.slots) (at two_slots.slots) 2 1 1 empty_map (Key.bits 5) 8
        two_slots-Extends (λ v h. kvslots_new-Holds 2 (Key.bits 5) v h)
        ((λ k v h. absurd (kvslots_new-Holds 2 k v h)), (λ k v e. cc));
}

table_tryindex-Represents_example :
    table_tryindex (λ v. v) length small (Key.bits 5) ≡ ok (one_entry (key_value (Key.bits 5)))
table_tryindex-Represents_example =
    table_tryindex-Represents (λ v. v) length small one_entry (Key.bits 5) two_slots
      small-Represents refl

-- The key 7 has the main slot of the key 5.
table_setindex-Represents_example :
    (table' : TableObject) × (table_setindex (λ v. v) length small (Key.bits 7) 4 ≡ ok table')
    × Represents (λ v. v) length table' (put one_entry (key_value (Key.bits 7)) 4)
table_setindex-Represents_example =
    table_setindex-Represents (λ v. v) length small one_entry (Key.bits 7) 4 small-Represents

table_delindex-Represents_example :
    (table' : TableObject) × (table_delindex (λ v. v) length small (Key.bits 5) ≡ ok table')
    × Represents (λ v. v) length table' (without one_entry (key_value (Key.bits 5)))
table_delindex-Represents_example =
    table_delindex-Represents (λ v. v) length small one_entry (Key.bits 5) small-Represents

no_7 : (v : ℕ) → Holds (at two_slots.slots) 2 (Key.bits 7) v → ⊥
unfolding key_equal
no_7 v h = let e : one_entry (Key.bits 7) ≡ some v = small-Represents.means.0 (Key.bits 7) v h in cc

insert_new-Adds_example :
    Adds
      (λ v. v)
      length
      two_slots.slots
      2
      two_slots-IsTable
      (Key.bits 7)
      4
      (insert_new (λ v. v) length two_slots.slots 2 (Key.bits 7) 4)
insert_new-Adds_example =
    insert_new-Adds (λ v. v) length two_slots.slots 2 two_slots-IsTable (Key.bits 7) 4 no_7
      (omega arith)

delete_entry-Deletes_example :
    Deletes
      (key_hash (λ v. v) length)
      two_slots.slots
      2
      two_slots-IsTable
      (Key.bits 5)
      (delete_entry two_slots.slots 1 (Key.bits 5))
delete_entry-Deletes_example =
    delete_entry-Deletes (key_hash (λ v. v) length) two_slots.slots 2 two_slots-IsTable (Key.bits 5)

find-Decides_example : Decides two_slots.slots 2 (Key.bits 7) (find two_slots.slots (Key.bits 7) 1)
find-Decides_example =
    find-Decides (key_hash (λ v. v) length) two_slots.slots 2 two_slots-IsTable (Key.bits 7)

two_firsts-IsUnique : IsUnique (at (take 2 two_slots.slots)) 2
two_firsts-IsUnique zero zero lt lt' u u' e = refl
two_firsts-IsUnique zero (suc j) lt lt' u u' e = cc
two_firsts-IsUnique (suc zero) zero lt lt' u u' e = cc
two_firsts-IsUnique (suc zero) (suc zero) lt lt' u u' e = refl
two_firsts-IsUnique (suc zero) (suc (suc j)) lt lt' u u' e = absurd (omega arith)
two_firsts-IsUnique (suc (suc i)) j lt lt' u u' e = absurd (omega arith)

reinsert_loop-Joins_example :
    (slots' : List KvSlot) × (reinsert_loop
        (λ v. v)
        length
        (take 2 two_slots.slots)
        15
        (kvslots_new 15).slots
      ≡ ok slots')
    × Joins (λ v. v) length (kvslots_new 15).slots (take 2 two_slots.slots) 15 2 slots'
reinsert_loop-Joins_example =
    reinsert_loop-Joins (λ v. v) length (take 2 two_slots.slots) (kvslots_new 15).slots 15
      (kvslots_new-IsTable (key_hash (λ v. v) length) 15 (omega arith)) two_firsts-IsUnique
      (λ k v w h h'. kvslots_new-Holds 15 k w h') (omega arith)

-- Three keys with the same main slot among 15, one of which is taken out again
abbrev some_changes : List Operation
some_changes =
    set_key (Key.bits 5) 8
    ∷ set_key (Key.bits 20) 9
    ∷ set_key (Key.bits 35) 10
    ∷ delete_key (Key.bits 20)
    ∷ []

table_tryindex-apply_all_example :
    (table : TableObject) × ((table_new (λ v. 0) 0 >>= apply_all (λ v. v) length some_changes)
      ≡ ok table)
    × ((kvslots : KvSlots)
        → table.kvslots ≡ some kvslots
        → ((key : Key)
            → table_tryindex (λ v. v) length table key
              ≡ ok (change_all some_changes empty_map (key_value key)))
          × (in_use kvslots.count (at kvslots.slots) ≡ table.length))
table_tryindex-apply_all_example =
    table_tryindex-apply_all (λ v. v) length (λ v. 0) 0 0 some_changes (inl refl)
