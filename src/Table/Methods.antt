-- ===== src/Table/Methods.antt =====
-- The operations of source/runtime/objects/table_object.cpp, given the hash of a key.
use kenaf.Base.{
  ℕ, zero, suc, ◌+◌, ◌-◌, ◌*◌, ◌/◌, ◌%◌, ◌^◌, max, true, false, List, [], ◌∷◌, Option, none, some,
  Run, ok, raise, fault, index_error, ◌>>=◌, ◌>>◌, check_assert, deref, ltb, leb, ◌==◌,
  if◌then◌else◌, length, set, take, drop,
}
use kenaf.Lexer.Token.{Bytes}
use kenaf.Table.{
  Key, KvSlot, KvSlots, TableObject, key_value, key_equal, vacant_slot, kvslots_new, slot_at, link,
  fill, is_vacant, find, free_above, free_below, previous_loop, delete_loop, skip_loop,
}
use kenaf.Table.Key.{bits, string}
use kenaf.Table.Next.{vacant, end, follow}

-- `ceilpow2`, where `clz` counts the leading zeros of 64 bits; a shift out of the range of `int` is
-- undefined.
unfoldable pub ceilpow2 : (ℕ → ℕ) → ℕ → Run ℕ
ceilpow2 clz x =
    let shift = 64 - clz (x - 1) in
    if ltb 1 x then (if ltb shift 31 then ok (2 ^ shift) else fault) else ok 1

-- `table_new`
unfoldable pub table_new : (ℕ → ℕ) → ℕ → Run TableObject
table_new clz capacity = if capacity == 0 then ok (record { kvslots = none; length = 0 }) else do
  size ← ceilpow2 clz (max (capacity + capacity / 4) 16)
  ok (record { kvslots = some (kvslots_new (size - 1)); length = 0 })

-- The slots up to the count, made vacant where they are not
unfoldable pub clear_slots : ℕ → List KvSlot → List KvSlot
clear_slots zero slots = slots
clear_slots (suc n) [] = []
clear_slots (suc n) (s ∷ slots) =
    (if is_vacant s.next then s else vacant_slot) ∷ clear_slots n slots

-- `table_clear`
unfoldable pub table_clear : TableObject → TableObject
table_clear table = elim table.kvslots [
  | none ↦ table
  | some kvslots ↦ record {
    kvslots = some (record kvslots { slots = clear_slots kvslots.count kvslots.slots });
    length = 0;
  }
]

-- `table_iterate`
unfoldable pub table_iterate : TableObject → Run ℕ
table_iterate table = do kvslots ← deref table.kvslots; skip_loop kvslots.slots 0

-- The value of the slot that was found
abbrev pub value_at : List KvSlot → Option ℕ → Run (Option ℕ)
value_at slots none = ok none
value_at slots (some i) = slot_at slots i >>= (λ slot. ok (some slot.v))

-- `table_next`: the entry at the index and the index after it, or none at the end
unfoldable pub table_next : TableObject → ℕ → Run (Option ((Key × ℕ) × ℕ))
table_next table i = do
  kvslots ← deref table.kvslots
  if leb kvslots.count i then ok none else do
    slot ← slot_at kvslots.slots i
    check_assert (if is_vacant slot.next then false else true)
    j ← skip_loop (drop (i + 1) kvslots.slots) (i + 1)
    ok (some ((slot.k, slot.v), j))

-- The free slot that is found above a position, or else below it
unfoldable pub free_near : List KvSlot → ℕ → ℕ → Run (Option ℕ)
free_near slots kvcount cuckoo_main_slot = do
  above ← free_above (kvcount - (cuckoo_main_slot + 1)) (cuckoo_main_slot + 1) slots
  elim above [ some i ↦ ok (some i) | none ↦ free_below cuckoo_main_slot slots ]

-- A free slot is linked behind the main slot.
unfoldable pub insert_behind : List KvSlot → ℕ → KvSlot → ℕ → Run (List KvSlot)
insert_behind slots main_slot main free_slot = do
  linked ← link slots free_slot main.next
  link linked main_slot (follow free_slot)

-- The entry of the main slot, `main`, moves to a free slot, and the slot before it is linked to that.
unfoldable pub move_entry : List KvSlot → ℕ → KvSlot → ℕ → ℕ → Run (List KvSlot)
move_entry slots main_slot main free_slot prev_slot = do
  filled ← fill slots free_slot main.k main.v
  before ← link filled prev_slot (follow free_slot)
  behind ← link before free_slot main.next
  link behind main_slot end

-- The removal of the key of the main slot: the next of the chain takes its place.
unfoldable pub delete_main : List KvSlot → ℕ → KvSlot → Run (List KvSlot)
delete_main slots main_slot main = elim main.next [
  | vacant ↦ fault
  | end ↦ ok (set slots main_slot vacant_slot)
  | follow j ↦ do next ← slot_at slots j; ok (set (set slots main_slot next) j vacant_slot)
]

-- The removal of a slot that is behind another, if the key was found
unfoldable pub delete_behind : List KvSlot → Option (ℕ × ℕ) → Run (Option (List KvSlot))
delete_behind slots none = ok none
delete_behind slots (some (prev_slot, next_slot)) = do
  next ← slot_at slots next_slot
  linked ← link slots prev_slot next.next
  ok (some (set linked next_slot vacant_slot))

-- The slots without the key, or none if it is not in them
unfoldable pub delete_entry : List KvSlot → ℕ → Key → Run (Option (List KvSlot))
delete_entry slots main_slot key = do
  main ← slot_at slots main_slot
  if is_vacant main.next
      then ok none
      else if key_equal main.k key
      then (delete_main slots main_slot main >>= (λ slots'. ok (some slots')))
      else (delete_loop (suc (length slots)) slots key main_slot main.next >>= delete_behind slots)

-- The slots of a table, of which there are none at first
abbrev pub kvslots_or_empty : Option KvSlots → KvSlots
kvslots_or_empty none = record { count = 0; slots = [] }
kvslots_or_empty (some kvslots) = kvslots

module _ (hash_bits : ℕ → ℕ) (hash_text : Bytes → ℕ) where
  -- `key_hash`
  abbrev pub key_hash : Key → ℕ
  key_hash (bits v) = hash_bits v
  key_hash (string s) = hash_text s

  -- `table_tryindex`
  unfoldable pub table_tryindex : TableObject → Key → Run (Option ℕ)
  table_tryindex table key = do
    kvslots ← deref table.kvslots
    let key' = key_value key
    if kvslots.count == 0 then ok none else do
      found ← find kvslots.slots key' (key_hash key' % kvslots.count)
      value_at kvslots.slots found

  -- `table_getindex`
  unfoldable pub table_getindex : TableObject → Key → Run ℕ
  table_getindex table key = do
    found ← table_tryindex table key
    elim found [ none ↦ raise index_error | some v ↦ ok v ]

  -- `table_insert`: the slot of a new key
  unfoldable pub table_insert : List KvSlot → ℕ → ℕ → Run (ℕ × List KvSlot)
  table_insert slots kvcount main_slot = do
    main ← slot_at slots main_slot
    if is_vacant main.next
        then (link slots main_slot end >>= (λ slots'. ok (main_slot, slots')))
        else do
          let cuckoo_main_slot = key_hash main.k % kvcount
          cuckoo_main ← slot_at slots cuckoo_main_slot
          check_assert (if is_vacant cuckoo_main.next then false else true)
          free ← free_near slots kvcount cuckoo_main_slot
          free_slot ← deref free
          let fresh =
              insert_behind slots main_slot main free_slot >>= (λ linked. ok (free_slot, linked))
          let moved = do
            prev_slot ← previous_loop (suc (length slots)) slots main_slot cuckoo_main_slot
            cut ← move_entry slots main_slot main free_slot prev_slot
            ok (main_slot, cut)
          if cuckoo_main_slot == main_slot then fresh else moved

  -- The entry of a key that is not in the slots
  unfoldable pub insert_new : List KvSlot → ℕ → Key → ℕ → Run (List KvSlot)
  insert_new slots kvcount key val = do
    (slot, slots') ← table_insert slots kvcount (key_hash key % kvcount)
    fill slots' slot key val

  -- `for ( size_t i = 0; i < kvcount; ++i )` over the slots of the smaller block
  unfoldable pub reinsert_loop : List KvSlot → ℕ → List KvSlot → Run (List KvSlot)
  reinsert_loop [] new_kvcount slots = ok slots
  reinsert_loop (s ∷ old) new_kvcount slots = do
    slots' ← if is_vacant s.next then ok slots else insert_new slots new_kvcount s.k s.v
    reinsert_loop old new_kvcount slots'

  -- The block that is large enough for one more entry
  unfoldable pub grow : TableObject → KvSlots → Run KvSlots
  grow table kvslots =
      let new_kvcount = max ((kvslots.count + 1) * 2) 16 - 1 in
      if leb (kvslots.count - kvslots.count / 8) table.length
      then (do
        slots ←
            reinsert_loop (take kvslots.count kvslots.slots) new_kvcount
              (kvslots_new new_kvcount).slots
        ok (record { count = new_kvcount; slots = slots }))
      else ok kvslots

  -- `table_setindex`
  unfoldable pub table_setindex : TableObject → Key → ℕ → Run TableObject
  table_setindex table key val = do
    let key' = key_value key
    let kvslots = kvslots_or_empty table.kvslots
    found ←
        if kvslots.count == 0
        then ok none
        else find kvslots.slots key' (key_hash key' % kvslots.count)
    elim found [
      | some i ↦ do
        slot ← slot_at kvslots.slots i
        ok (record table {
          kvslots = some (record kvslots { slots = set kvslots.slots i (record slot { v = val }) });
        })
      | none ↦ do
        roomy ← grow table kvslots
        slots ← insert_new roomy.slots roomy.count key' val
        ok (record { kvslots = some (record roomy { slots = slots }); length = table.length + 1 })
    ]

  -- `table_delindex`
  unfoldable pub table_delindex : TableObject → Key → Run TableObject
  table_delindex table key = elim table.kvslots [
    | none ↦ ok table
    | some kvslots ↦
        let key' = key_value key in
        if table.length == 0 then ok table else do
          deleted ← delete_entry kvslots.slots (key_hash key' % kvslots.count) key'
          ok (elim deleted [
            | none ↦ table
            | some slots ↦ record {
              kvslots = some (record kvslots { slots = slots });
              length = table.length - 1;
            }
          ])
  ]
