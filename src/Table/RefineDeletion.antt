-- ===== src/Table/RefineDeletion.antt =====
-- Deletions from a table as a finite map, `table_delindex` of source/runtime/objects/table_object.cpp.
use kenaf.Base.{
  ℕ, zero, suc, ◌-◌, ◌<◌, ◌≡◌, refl, subst, inl, inr, false, [], Option, some, ok, ◌==◌, arith,
  Bool-cases, Option-cases, eq_of_==,
}
use kenaf.Lexer.Token.{Bytes}
use kenaf.Table.{Key, KvSlots, TableObject, key_value, is_vacant}
use kenaf.Table.Methods.{key_hash, table_delindex}
use kenaf.Table.Chains.{Slots, IsUsed}
use kenaf.Table.Chains.Entries.{Extends-in_use, Holds, in_use}
use kenaf.Table.Search.{at}
use kenaf.Table.Deletion.{delete_entry-Deletes}
use kenaf.Table.Contents.{without, Means-without, Extends-without}
use kenaf.Table.Room.{Stores}
use kenaf.Table.Refine.{Represents}

in_use-positive : (n : ℕ) (at' : Slots) (i : ℕ) → i < n → IsUsed at' i → 0 < in_use n at'
in_use-positive zero at' i lt u = absurd (omega arith)
in_use-positive (suc n) at' i lt u = elim (Bool-cases (i == n)) [
  | inl here ↦
      let used : is_vacant (at' n).next ≡ false = rw⁻¹ (eq_of_== i n here) u in
      rw used (omega arith)
  | inr below ↦ omega (arith, in_use-positive n at' i (ground arith) u)
]

module _ (hash_bits : ℕ → ℕ) (hash_text : Bytes → ℕ) where
  abbrev hash : Key → ℕ
  hash = key_hash hash_bits hash_text

  without_absent :
      (kvslots : KvSlots) (n : ℕ) (m : Key → Option ℕ) (key : Key)
      → Stores hash kvslots n m
      → ((v : ℕ) → Holds (at kvslots.slots) kvslots.count key v → ⊥)
      → Stores hash kvslots n (without m key)
  without_absent kvslots n m key s absent = record {
    valid = s.valid;
    number = s.number;
    means =
        Means-without (at kvslots.slots) (at kvslots.slots) kvslots.count m key s.means
          (λ k v h.
            ((λ e. absent v (subst (λ k'. Holds (at kvslots.slots) kvslots.count k' v) e h)), h))
          (λ k v ne h. h);
  }

  delete_stored :
      (table : TableObject) (kvslots : KvSlots) (m : Key → Option ℕ) (key : Key)
      → table.kvslots ≡ some kvslots
      → Stores hash kvslots table.length m
      → (table' : TableObject) × (table_delindex hash_bits hash_text table key ≡ ok table')
        × Represents hash_bits hash_text table' (without m (key_value key))
  unfolding table_delindex
  delete_stored table kvslots m key is s =
      let key' = key_value key in
      elim (Bool-cases (table.length == 0)) [
        | inl empty ↦ (
          table,
          rw (is, empty) refl,
          rw is (
              without_absent kvslots table.length m key' s (λ v (i, lt, u, e, e').
                let number = s.number in
                let some_used = in_use-positive kvslots.count (at kvslots.slots) i lt u in
                ground arith)),
        )
        | inr some_keys ↦ elim s.valid [
          | inl none_there ↦
              let number : in_use 0 (at kvslots.slots) ≡ table.length =
                subst (λ n. in_use n (at kvslots.slots) ≡ table.length) none_there s.number in
              absurd (ground arith)
          | inr valid ↦ elim (delete_entry-Deletes hash kvslots.slots kvslots.count valid key') [
            | inl (slots', run, (valid', n, f, v, more)) ↦ (
              record {
                kvslots = some (record kvslots { slots = slots' });
                length = table.length - 1;
              },
              rw (is, some_keys, run) refl,
              record {
                valid = inr valid';
                number = omega (
                  arith,
                  s.number,
                  Extends-in_use kvslots.count (at slots') (at kvslots.slots) n f key' v more,
                );
                means =
                    Extends-without (at kvslots.slots) (at slots') kvslots.count n f m key' v more
                      valid.unique s.means;
              },
            )
            | inr (run, absent) ↦ (
              table,
              rw (is, some_keys, run) refl,
              rw is (without_absent kvslots table.length m key' s absent),
            )
          ]
        ]
      ]

  -- If a table represents a map, deleting a key succeeds, and the table then represents the map without
  -- the key.
  pub table_delindex-Represents :
      (table : TableObject) (m : Key → Option ℕ) (key : Key)
      → Represents hash_bits hash_text table m
      → (table' : TableObject) × (table_delindex hash_bits hash_text table key ≡ ok table')
        × Represents hash_bits hash_text table' (without m (key_value key))
  unfolding table_delindex
  table_delindex-Represents table m key r = elim (Option-cases table.kvslots) [
    | inl nothing ↦
        let s : Stores hash (record { count = 0; slots = [] }) table.length m = rw nothing at r in
        (
          table,
          rw nothing refl,
          rw nothing (
              without_absent (record { count = 0; slots = [] }) table.length m (key_value key) s
                (λ v (i, lt, u, e, e'). absurd (omega arith))),
        )
    | inr (kvslots, is) ↦ delete_stored table kvslots m key is (rw is at r)
  ]
