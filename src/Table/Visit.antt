-- ===== src/Table/Visit.antt =====
-- The visits of a for-each loop over a table, `table_iterate` and `table_next` of
-- source/runtime/objects/table_object.cpp.
use kenaf.Base.{
  ℕ, zero, suc, ◌+◌, ◌≤◌, ◌<◌, ◌≡◌, refl, inl, inr, false, List, [], ◌∷◌, Option, none, some, Run,
  ok, ◌>>=◌, if◌then◌else◌, arith, Bool-cases, drop, drop-cons, leb_of_le, leb_of_gt,
}
use kenaf.Table.{Key, KvSlot, KvSlots, TableObject, vacant_slot, is_vacant, skip_loop}
use kenaf.Table.Methods.{table_iterate, table_next}
use kenaf.Table.Clear.{EndsWithSentinel, sentinel, slot_then}

-- The entries of the first slots, in their order
unfoldable pub entries : ℕ → List KvSlot → List (Key × ℕ)
entries zero slots = []
entries (suc n) [] = []
entries (suc n) (s ∷ slots) =
    if is_vacant s.next then entries n slots else (s.k, s.v) ∷ entries n slots

-- The entries that a loop of `table_next` visits from an index on; none when the fuel runs out
unfoldable pub visit_loop : ℕ → TableObject → ℕ → Run (Option (List (Key × ℕ)))
visit_loop zero table i = ok none
visit_loop (suc n) table i = do
  found ← table_next table i
  elim found [
    | none ↦ ok (some [])
    | some (entry, j) ↦ do
      rest ← visit_loop n table j
      ok (elim rest [ none ↦ none | some es ↦ some (entry ∷ es) ])
  ]

-- The loop from its start
unfoldable pub visit : ℕ → TableObject → Run (Option (List (Key × ℕ)))
visit n table = table_iterate table >>= visit_loop n table

abbrev head : List KvSlot → KvSlot
head [] = vacant_slot
head (s ∷ slots) = s

-- The slots from a position on: those behind the position, and a slot in use at it
record Rest (slots : List KvSlot) (count i : ℕ) (found : List (Key × ℕ)) : Type 0 where
  left : ℕ
  tail : List KvSlot
  suffix : drop i slots ≡ tail
  place : i + left ≡ count
  ends : EndsWithSentinel left tail
  used : is_vacant (head tail).next ≡ false
  holds : entries left tail ≡ found

skip_loop-Rest :
    (slots : List KvSlot) (count i n : ℕ) (tail : List KvSlot)
    → drop i slots ≡ tail
    → i + n ≡ count
    → EndsWithSentinel n tail
    → (j : ℕ) × (skip_loop tail i ≡ ok j) × (i ≤ j) × Rest slots count j (entries n tail)
unfolding skip_loop entries
skip_loop-Rest slots count i n [] is at c = elim c [ ]
skip_loop-Rest slots count i zero (s ∷ []) is at (sentinel used) = (
  i,
  rw used refl,
  omega arith,
  record {
    left = 0;
    tail = s ∷ [];
    suffix = is;
    place = at;
    ends = sentinel used;
    used = used;
    holds = refl;
  },
)
skip_loop-Rest slots count i zero (s ∷ (_ ∷ _)) is at c = elim c [ ]
skip_loop-Rest slots count i (suc n) (s ∷ tail) is at (slot_then c) =
    elim (Bool-cases (is_vacant s.next)) [
      | inl empty ↦
          let (j, run, le, r) =
            skip_loop-Rest slots count (i + 1) n tail (drop-cons i slots tail s is).1 (omega arith)
              c in
          (j, rw empty run, omega arith, rw empty r)
      | inr used ↦ (
        i,
        rw used refl,
        omega arith,
        record {
          left = suc n;
          tail = s ∷ tail;
          suffix = is;
          place = at;
          ends = slot_then c;
          used = used;
          holds = refl;
        },
      )
    ]

abbrev holding : KvSlots → ℕ → TableObject
holding kvslots n = record { kvslots = some kvslots; length = n }

visit_loop-entries :
    (fuel : ℕ) (slots : List KvSlot) (count n i left : ℕ) (tail : List KvSlot)
    → drop i slots ≡ tail
    → i + left ≡ count
    → EndsWithSentinel left tail
    → is_vacant (head tail).next ≡ false
    → count < i + fuel
    → visit_loop fuel (holding (record { count = count; slots = slots }) n) i
      ≡ ok (some (entries left tail))
unfolding visit_loop table_next entries
visit_loop-entries zero slots count n i left tail is at c used enough = absurd (omega arith)
visit_loop-entries (suc fuel) slots count n i left [] is at c used enough = elim c [ ]
visit_loop-entries (suc fuel) slots count n i zero (s ∷ tail) is at c used enough =
    rw (leb_of_le count i (omega arith)) refl
visit_loop-entries (suc fuel) slots count n i (suc m) (s ∷ tail) is at (slot_then c) used enough =
    let (here, behind) = drop-cons i slots tail s is in
    let (j, run, le, r) = skip_loop-Rest slots count (i + 1) m tail behind (omega arith) c in
    let rest =
      visit_loop-entries fuel slots count n j r.left r.tail r.suffix r.place r.ends r.used
        (omega arith) in
    rw (leb_of_gt count i (omega arith), here, used, behind, run, rest, r.holds) refl

-- A for-each loop over a table whose slots end with the sentinel visits each entry once, in the order of
-- the slots, and ends.
pub visit-entries :
    (slots : List KvSlot) (count n : ℕ)
    → EndsWithSentinel count slots
    → visit
        (suc count)
        (record { kvslots = some (record { count = count; slots = slots }); length = n })
      ≡ ok (some (entries count slots))
unfolding visit table_iterate
visit-entries slots count n c =
    let (j, run, le, r) = skip_loop-Rest slots count 0 count slots refl (omega arith) c in
    let rest =
      visit_loop-entries (suc count) slots count n j r.left r.tail r.suffix r.place r.ends r.used
        (omega arith) in
    rw (run, rest, r.holds) refl
