-- ===== src/Table.antt =====
-- Table objects, source/runtime/objects/table_object.cpp and table_object.h: a hash table of slots that
-- are chained through `next`. The hash functions of the C++ library and the count of leading zeros
-- of the compiler are parameters. A loop over a chain has one step more than there are
-- slots, since a chain that is longer than that never ends.
pub mod Methods
pub mod Clear
pub mod Visit
pub mod Update
pub mod Keys
pub mod Chains
pub mod Search
pub mod Invariant
pub mod Writes
pub mod Insertion
pub mod Replacement
pub mod Lookup
pub mod Removal
pub mod Deletion
pub mod Contents
pub mod Growth
pub mod NewBlock
pub mod Room
pub mod Revalue
pub mod Refine
pub mod RefineDeletion
pub mod Emptied
pub mod History
mod Tests
use kenaf.Base.{
  ℕ, zero, suc, ◌+◌, ◌-◌, ◌*◌, ◌/◌, ◌%◌, ◌^◌, max, Bool, true, false, List, [], ◌∷◌, ◌++◌, Option,
  none, some, Run, ok, raise, fault, index_error, ◌>>=◌, ◌>>◌, check_assert, deref, ltb, leb, ◌==◌,
  if◌then◌else◌, length, get_elem?, set, take, replicate,
}
use kenaf.Lexer.Token.{Bytes}
use kenaf.Lexer.Keywords.{text_eq}

-- A value as a key: a string object stands for its text, any other value for its bits.
pub data Key : Type 0 where
  bits : ℕ → Key
  string : Bytes → Key

-- The pointer `next`: null, the mark at the end of a chain, or a slot
pub data Next : Type 0 where
  vacant end : Next
  follow : ℕ → Next

-- `kvslot`
pub record KvSlot : Type 0 where
  pub k : Key
  pub v : ℕ
  pub next : Next

-- `kvslots_object`; the slots end with the sentinel.
pub record KvSlots : Type 0 where
  pub count : ℕ
  pub slots : List KvSlot

-- `table_object`
pub record TableObject : Type 0 where
  pub kvslots : Option KvSlots
  pub length : ℕ

-- `key_value`: the bits of -0.0 become those of 0.0.
unfoldable pub key_value : Key → Key
key_value (bits v) = if v == 9223372036854775807 then bits 18446744073709551615 else bits v
key_value (string s) = string s

-- `key_equal`
unfoldable pub key_equal : Key → Key → Bool
key_equal (bits a) (bits b) = a == b
key_equal (string a) (string b) = text_eq a b
key_equal (bits _) (string _) = false
key_equal (string _) (bits _) = false

abbrev pub vacant_slot : KvSlot
vacant_slot = record { k = Key.bits 0; v = 0; next = Next.vacant }

-- `kvslots_new`
abbrev pub kvslots_new : ℕ → KvSlots
kvslots_new count = record {
  count = count;
  slots = replicate count vacant_slot ++ record vacant_slot { next = Next.end } ∷ [];
}

abbrev pub slot_at : List KvSlot → ℕ → Run KvSlot
slot_at slots i = deref (get_elem? slots i)

-- `slot->next = …`, and the writes of a key and a value
abbrev pub link : List KvSlot → ℕ → Next → Run (List KvSlot)
link slots i next = slot_at slots i >>= λ s. ok (set slots i (record s { next = next }))

abbrev pub fill : List KvSlot → ℕ → Key → ℕ → Run (List KvSlot)
fill slots i k v = slot_at slots i >>= λ s. ok (set slots i (record s { k = k; v = v }))

abbrev pub is_vacant : Next → Bool
is_vacant vacant = true
is_vacant end = false
is_vacant (follow _) = false

-- `slot = slot->next`, and the end of the loop
abbrev pub next_slot : Next → (ℕ → Run (Option ℕ)) → Run (Option ℕ)
next_slot vacant follow_on = fault
next_slot end follow_on = ok none
next_slot (follow j) follow_on = follow_on j

-- `do { … } while ( slot != -1 )`: the slot of the chain that holds the key
unfoldable pub find_loop : ℕ → List KvSlot → Key → ℕ → Run (Option ℕ)
find_loop zero slots key i = fault
find_loop (suc n) slots key i = do
  slot ← slot_at slots i
  if key_equal slot.k key then ok (some i) else next_slot slot.next (find_loop n slots key)

-- The search of a key from its main slot
unfoldable pub find : List KvSlot → Key → ℕ → Run (Option ℕ)
find slots key main_slot = do
  slot ← slot_at slots main_slot
  if is_vacant slot.next then ok none else find_loop (suc (length slots)) slots key main_slot

-- The search for a free slot at `i` and above
unfoldable pub free_above : ℕ → ℕ → List KvSlot → Run (Option ℕ)
free_above zero i slots = ok none
free_above (suc n) i slots = do
  slot ← slot_at slots i
  let rest = free_above n (i + 1) slots
  if is_vacant slot.next then ok (some i) else rest

-- The search for a free slot below `i`
unfoldable pub free_below : ℕ → List KvSlot → Run (Option ℕ)
free_below zero slots = ok none
free_below (suc i) slots = do
  slot ← slot_at slots i
  let rest = free_below i slots
  if is_vacant slot.next then ok (some i) else rest

-- `prev_slot = prev_slot->next`, and the end of the loop
abbrev pub previous_step : Next → ℕ → ℕ → (ℕ → Run ℕ) → Run ℕ
previous_step vacant main_slot i again = fault
previous_step end main_slot i again = fault
previous_step (follow j) main_slot i again = elim (j == main_slot) [ true ↦ ok i | false ↦ again j ]

-- `while ( prev_slot->next != main_slot )`
unfoldable pub previous_loop : ℕ → List KvSlot → ℕ → ℕ → Run ℕ
previous_loop zero slots main_slot i = fault
previous_loop (suc n) slots main_slot i = do
  slot ← slot_at slots i
  previous_step slot.next main_slot i (previous_loop n slots main_slot)

-- The slot that `table_delindex` erases, and the slot before it in the chain
unfoldable pub delete_loop : ℕ → List KvSlot → Key → ℕ → Next → Run (Option (ℕ × ℕ))
delete_loop zero slots key prev_slot next = fault
delete_loop (suc n) slots key prev_slot vacant = fault
delete_loop (suc n) slots key prev_slot end = ok none
delete_loop (suc n) slots key prev_slot (follow j) = do
  slot ← slot_at slots j
  let rest = delete_loop n slots key j slot.next
  if key_equal slot.k key then ok (some (prev_slot, j)) else rest

-- `while ( ! kvslots->slots[ i ].next ) ++i`
unfoldable pub skip_loop : List KvSlot → ℕ → Run ℕ
skip_loop [] i = fault
skip_loop (s ∷ slots) i =
    let rest = skip_loop slots (i + 1) in if is_vacant s.next then rest else ok i
