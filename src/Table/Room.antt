-- ===== src/Table/Room.antt =====
-- The slots of a table and their number, source/runtime/objects/table_object.cpp, and the block that has
-- room for one more entry.
use kenaf.Base.{
  ℕ, ◌+◌, ◌-◌, ◌*◌, ◌/◌, max, ◌<◌, ◌≤◌, ◌≡◌, refl, sym, ◌∙◌, ap, inl, inr, ◌⊎◌, true, List, Option,
  ok, ltb, leb, arith, Bool-cases, length, take, length-take, get_or-take,
}
use kenaf.Lexer.Token.{Bytes}
use kenaf.Table.{Key, KvSlot, KvSlots, TableObject, is_vacant, vacant_slot, kvslots_new}
use kenaf.Table.Methods.{key_hash, reinsert_loop, grow}
use kenaf.Table.Chains.Entries.{Holds, IsUnique, in_use, in_use-same}
use kenaf.Table.Search.{at}
use kenaf.Table.Invariant.{IsTable}
use kenaf.Table.Contents.{Means}
use kenaf.Table.Growth.{reinsert_loop-Joins, in_use-bound}
use kenaf.Table.NewBlock.{kvslots_new-IsTable, kvslots_new-in_use, kvslots_new-Holds}

-- The slots hold the invariant and the entries of the map, which are `n`.
pub record Stores (hash : Key → ℕ) (kvslots : KvSlots) (n : ℕ) (m : Key → Option ℕ) : Type 0 where
  pub valid : (kvslots.count ≡ 0) ⊎ IsTable hash kvslots.slots kvslots.count
  pub number : in_use kvslots.count (at kvslots.slots) ≡ n
  pub means : Means (at kvslots.slots) kvslots.count m

-- There is room in the slots.
pub record IsRoomy (hash : Key → ℕ) (kvslots : KvSlots) (n : ℕ) (m : Key → Option ℕ) : Type 0 where
  pub valid : IsTable hash kvslots.slots kvslots.count
  pub number : in_use kvslots.count (at kvslots.slots) ≡ n
  pub room : n < kvslots.count
  pub means : Means (at kvslots.slots) kvslots.count m

module _ (hash_bits : ℕ → ℕ) (hash_text : Bytes → ℕ) where
  abbrev hash : Key → ℕ
  hash = key_hash hash_bits hash_text

  -- The slots without the sentinel
  abbrev firsts : KvSlots → List KvSlot
  firsts kvslots = take kvslots.count kvslots.slots

  length-firsts :
      (kvslots : KvSlots) (n : ℕ) (m : Key → Option ℕ)
      → Stores hash kvslots n m
      → length (firsts kvslots) ≡ kvslots.count
  length-firsts kvslots n m s =
      let size = length-take kvslots.count kvslots.slots in
      elim s.valid [ inl empty ↦ omega (arith, size) | inr valid ↦ omega (arith, size, valid.size) ]

  at-firsts :
      (kvslots : KvSlots) (i : ℕ) → i < kvslots.count → at (firsts kvslots) i ≡ at kvslots.slots i
  at-firsts kvslots i lt =
      let inside : ltb i kvslots.count ≡ true = ground arith in
      get_or-take kvslots.count kvslots.slots i vacant_slot ∙ (rw inside refl)

  Stores-IsUnique :
      (kvslots : KvSlots) (n : ℕ) (m : Key → Option ℕ)
      → Stores hash kvslots n m
      → IsUnique (at kvslots.slots) kvslots.count
  Stores-IsUnique kvslots n m s i j lt_i lt_j u_i u_j e = elim s.valid [
    | inl empty ↦ absurd (omega arith)
    | inr valid ↦ valid.unique i j lt_i lt_j u_i u_j e
  ]

  -- All entries go into a larger block.
  grown :
      (kvslots : KvSlots) (n : ℕ) (m : Key → Option ℕ)
      → Stores hash kvslots n m
      → (new : ℕ) → kvslots.count < new
      → (slots : List KvSlot) × (reinsert_loop hash_bits hash_text
            (firsts kvslots)
            new
            (kvslots_new new).slots
          ≡ ok slots)
        × IsRoomy hash (record { count = new; slots = slots }) n m
  grown kvslots n m s new less =
      let size = length-firsts kvslots n m s in
      let same : in_use kvslots.count (at (firsts kvslots)) ≡ n =
        in_use-same kvslots.count (at kvslots.slots) (at (firsts kvslots))
          (λ i lt. ap (λ t. is_vacant t.next) (at-firsts kvslots i lt))
        ∙ s.number in
      let number : in_use (length (firsts kvslots)) (at (firsts kvslots)) ≡ n = rw size same in
      let few : n ≤ kvslots.count =
        omega (arith, s.number, in_use-bound kvslots.count (at kvslots.slots)) in
      let (slots, run, joins) =
        reinsert_loop-Joins hash_bits hash_text (firsts kvslots) (kvslots_new new).slots new
          (kvslots_new-IsTable hash new (omega arith))
          (rw size (λ i j lt_i lt_j u_i u_j e.
            let is_i = at-firsts kvslots i lt_i in
            let is_j = at-firsts kvslots j lt_j in
            Stores-IsUnique kvslots n m s i j lt_i lt_j (rw is_i at u_i) (rw is_j at u_j)
              (ap (λ t. t.k) (sym is_i) ∙ e ∙ ap (λ t. t.k) is_j)))
          (λ k v w h h'. kvslots_new-Holds new k w h')
          (omega (arith, number, kvslots_new-in_use new)) in
      (
        slots,
        run,
        record {
          valid = joins.valid;
          number = omega (arith, joins.number, number, kvslots_new-in_use new);
          room = omega arith;
          means = (
            (λ k v h. elim (joins.only k v h) [
              | inl h' ↦ absurd (kvslots_new-Holds new k v h')
              | inr h' ↦ s.means.0 k v (from_firsts kvslots k v (rw size at h'))
            ]),
            (λ k v e. joins.joined k v (rw size (to_firsts kvslots k v (s.means.1 k v e)))),
          );
        },
      )
    where
      from_firsts :
          (kvslots : KvSlots) (k : Key) (v : ℕ)
          → Holds (at (firsts kvslots)) kvslots.count k v
          → Holds (at kvslots.slots) kvslots.count k v
      from_firsts kvslots k v (i, lt, u, e, e') =
          let is = at-firsts kvslots i lt in (i, lt, rw is at u, rw is at e, rw is at e')

      to_firsts :
          (kvslots : KvSlots) (k : Key) (v : ℕ)
          → Holds (at kvslots.slots) kvslots.count k v
          → Holds (at (firsts kvslots)) kvslots.count k v
      to_firsts kvslots k v (i, lt, u, e, e') =
          let is = at-firsts kvslots i lt in (i, lt, rw is u, rw is e, rw is e')

  -- The block has room for one more entry, after it has grown where it must.
  pub grow-IsRoomy :
      (table : TableObject) (kvslots : KvSlots) (m : Key → Option ℕ)
      → Stores hash kvslots table.length m
      → (roomy : KvSlots) × (grow hash_bits hash_text table kvslots ≡ ok roomy)
        × IsRoomy hash roomy table.length m
  unfolding grow
  grow-IsRoomy table kvslots m s =
      elim (Bool-cases (leb (kvslots.count - kvslots.count / 8) table.length)) [
        | inl full ↦
            let (slots, run, roomy) =
              grown kvslots table.length m s (max ((kvslots.count + 1) * 2) 16 - 1) (omega arith) in
            (
              record { count = max ((kvslots.count + 1) * 2) 16 - 1; slots = slots },
              rw (full, run) refl,
              roomy,
            )
        | inr spare ↦
            let room : table.length < kvslots.count = ground arith in
            (
              kvslots,
              rw spare refl,
              record {
                valid = elim s.valid [ inl empty ↦ absurd (omega arith) | inr valid ↦ valid ];
                number = s.number;
                room = room;
                means = s.means;
              },
            )
      ]
