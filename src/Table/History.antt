-- ===== src/Table/History.antt =====
-- A table from its creation on, source/runtime/objects/table_object.cpp: any sequence of the operations
-- that change it.
use kenaf.Base.{Run, ℕ, ◌+◌, ◌/◌, max, ◌≡◌, refl, ◌⊎◌, List, [], ◌∷◌, Option, some, ok, ◌>>=◌}
use kenaf.Lexer.Token.{Bytes}
use kenaf.Table.{Key, KvSlots, TableObject, key_value}
use kenaf.Table.Methods.{
  key_hash, ceilpow2, table_new, table_clear, table_tryindex, table_setindex, table_delindex,
}
use kenaf.Table.Chains.Entries.{in_use}
use kenaf.Table.Search.{at}
use kenaf.Table.Contents.{put, without}
use kenaf.Table.Room.{Stores}
use kenaf.Table.Refine.{Represents, table_tryindex-Represents, table_setindex-Represents}
use kenaf.Table.RefineDeletion.{table_delindex-Represents}
use kenaf.Table.Emptied.{empty_map, table_new-Represents, table_clear-Represents}

-- The operations that change a table
pub data Operation : Type 0 where
  set_key : Key → ℕ → Operation
  delete_key : Key → Operation
  clear_all : Operation

-- What an operation does to a finite map
unfoldable pub change : Operation → (Key → Option ℕ) → Key → Option ℕ
change (set_key key val) m = put m (key_value key) val
change (delete_key key) m = without m (key_value key)
change clear_all m = empty_map

unfoldable pub change_all : List Operation → (Key → Option ℕ) → Key → Option ℕ
change_all [] m = m
change_all (o ∷ os) m = change_all os (change o m)

module _ (hash_bits : ℕ → ℕ) (hash_text : Bytes → ℕ) where
  -- The call of the operation
  unfoldable pub apply : Operation → TableObject → Run TableObject
  apply (set_key key val) table = table_setindex hash_bits hash_text table key val
  apply (delete_key key) table = table_delindex hash_bits hash_text table key
  apply clear_all table = ok (table_clear table)

  unfoldable pub apply_all : List Operation → TableObject → Run TableObject
  apply_all [] table = ok table
  apply_all (o ∷ os) table = apply o table >>= apply_all os

  -- Each operation succeeds, and changes the map as it says.
  apply-Represents :
      (o : Operation) (table : TableObject) (m : Key → Option ℕ)
      → Represents hash_bits hash_text table m
      → (table' : TableObject) × (apply o table ≡ ok table')
        × Represents hash_bits hash_text table' (change o m)
  unfolding apply change
  apply-Represents (set_key key val) table m r =
      table_setindex-Represents hash_bits hash_text table m key val r
  apply-Represents (delete_key key) table m r =
      table_delindex-Represents hash_bits hash_text table m key r
  apply-Represents clear_all table m r =
      (table_clear table, refl, table_clear-Represents hash_bits hash_text table m r)

  pub apply_all-Represents :
      (os : List Operation) (table : TableObject) (m : Key → Option ℕ)
      → Represents hash_bits hash_text table m
      → (table' : TableObject) × (apply_all os table ≡ ok table')
        × Represents hash_bits hash_text table' (change_all os m)
  unfolding apply_all change_all
  apply_all-Represents [] table m r = (table, refl, r)
  apply_all-Represents (o ∷ os) table m r =
      let (next, run, r') = apply-Represents o table m r in
      let (table', run', r'') = apply_all-Represents os next (change o m) r' in
      (table', rw run run', r'')

  -- A table that is made with a capacity of 0, or with one that has a power of two above it, and then
  -- goes through any insertions, changes of a value, deletions and clearings: none of them fails, and
  -- then a search in it, if it has slots, gives what a finite map has at the key after the same
  -- changes, and its length is the number of its slots in use.
  pub table_tryindex-apply_all :
      (clz : ℕ → ℕ) (capacity size : ℕ) (os : List Operation)
      → (capacity ≡ 0) ⊎ (ceilpow2 clz (max (capacity + capacity / 4) 16) ≡ ok size)
      → (table : TableObject) × ((table_new clz capacity >>= apply_all os) ≡ ok table)
        × ((kvslots : KvSlots)
            → table.kvslots ≡ some kvslots
            → ((key : Key)
                → table_tryindex hash_bits hash_text table key
                  ≡ ok (change_all os empty_map (key_value key)))
              × (in_use kvslots.count (at kvslots.slots) ≡ table.length))
  table_tryindex-apply_all clz capacity size os fits =
      let (new, made, r) = table_new-Represents hash_bits hash_text clz capacity size fits in
      let (table, run, r') = apply_all-Represents os new empty_map r in
      (
        table,
        rw made run,
        λ kvslots is. (
          (λ key.
              table_tryindex-Represents hash_bits hash_text table (change_all os empty_map) key
                kvslots r' is),
          counted table kvslots is r',
        ),
      )
    where
      counted :
          (table : TableObject) (kvslots : KvSlots)
          → table.kvslots ≡ some kvslots
          → Represents hash_bits hash_text table (change_all os empty_map)
          → in_use kvslots.count (at kvslots.slots) ≡ table.length
      counted table kvslots is r =
          let s : Stores (key_hash hash_bits hash_text) kvslots table.length
              (change_all os empty_map) =
            rw is at r in
          s.number
