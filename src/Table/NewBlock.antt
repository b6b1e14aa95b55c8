-- ===== src/Table/NewBlock.antt =====
-- A new block of slots, `kvslots_new` of source/runtime/objects/table_object.cpp.
use kenaf.Base.{
  ℕ, zero, suc, ◌+◌, ◌<◌, ◌≡◌, refl, ◌∙◌, ap, true, List, [], ◌∷◌, ◌++◌, arith, replicate,
  length-append, length-replicate,
}
use kenaf.Table.{Key, KvSlot, is_vacant, vacant_slot, kvslots_new}
use kenaf.Table.Next.{end}
use kenaf.Table.Chains.{Slots, IsUsed}
use kenaf.Table.Chains.Entries.{Holds, in_use}
use kenaf.Table.Search.{at}
use kenaf.Table.Invariant.{IsTable}

at-replicate :
    (n : ℕ) (rest : List KvSlot) (i : ℕ)
    → i < n
    → at (replicate n vacant_slot ++ rest) i ≡ vacant_slot
at-replicate zero rest i lt = absurd (omega arith)
at-replicate (suc n) rest zero lt = refl
at-replicate (suc n) rest (suc i) lt = at-replicate n rest i (omega arith)

at-replicate_end : (n : ℕ) (rest : List KvSlot) → at (replicate n vacant_slot ++ rest) n ≡ at rest 0
at-replicate_end zero rest = refl
at-replicate_end (suc n) rest = at-replicate_end n rest

pub in_use-none :
    (n : ℕ) (at' : Slots) → ((i : ℕ) → i < n → is_vacant (at' i).next ≡ true) → in_use n at' ≡ 0
in_use-none zero at' free = refl
in_use-none (suc n) at' free =
    rw (free n (omega arith), in_use-none n at' (λ i lt. free i (omega arith))) (omega arith)

pub free_of_new : (count i : ℕ) → i < count → is_vacant (at (kvslots_new count).slots i).next ≡ true
free_of_new count i lt = rw (at-replicate count (record vacant_slot { next = end } ∷ []) i lt) refl

not_used_of_new : (count i : ℕ) → i < count → IsUsed (at (kvslots_new count).slots) i → ⊥
not_used_of_new count i lt used = let free = free_of_new count i lt in cc

-- A new block of slots holds no entry.
pub kvslots_new-IsTable :
    (hash' : Key → ℕ) (count : ℕ) → 0 < count → IsTable hash' (kvslots_new count).slots count
kvslots_new-IsTable hash' count positive = record {
  chain = λ b. [];
  positive = positive;
  size =
      length-append (replicate count vacant_slot) (record vacant_slot { next = end } ∷ [])
      ∙ ap (λ n. n + 1) (length-replicate count vacant_slot)
      ∙ omega arith;
  placed = record {
    starts = λ b. tt;
    links = λ b. tt;
    inside = λ b i m. cc;
    distinct = λ b. tt;
    reached = λ i lt u. absurd (not_used_of_new count i lt u);
  };
  unique = λ i j lt_i lt_j u_i u_j e. absurd (not_used_of_new count i lt_i u_i);
  sentinel = rw (at-replicate_end count (record vacant_slot { next = end } ∷ [])) refl;
}

pub kvslots_new-in_use : (count : ℕ) → in_use count (at (kvslots_new count).slots) ≡ 0
kvslots_new-in_use count = in_use-none count (at (kvslots_new count).slots) (free_of_new count)

pub kvslots_new-Holds :
    (count : ℕ) (k : Key) (v : ℕ) → Holds (at (kvslots_new count).slots) count k v → ⊥
kvslots_new-Holds count k v (i, lt, u, e, e') = not_used_of_new count i lt u
