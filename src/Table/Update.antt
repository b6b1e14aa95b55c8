-- ===== src/Table/Update.antt =====
-- A new value at a key that is in the table, `table_setindex` of
-- source/runtime/objects/table_object.cpp.
use kenaf.Base.{
  ℕ, zero, suc, ◌%◌, ◌≡◌, refl, ◌∙◌, sym, inl, inr, Bool, true, false, List, [], ◌∷◌, Option, none,
  some, Run, ok, raise, fault, ◌>>=◌, ◌==◌, if◌then◌else◌, arith, Bool-cases, Option-cases, length,
  get_elem?, set, length-set, eq_of_==,
}
use kenaf.Lexer.Token.{Bytes}
use kenaf.Table.{
  Key, Next, KvSlot, TableObject, key_value, key_equal, is_vacant, next_slot, find_loop, find,
}
use kenaf.Table.Next.{vacant, end, follow}
use kenaf.Table.Methods.{key_hash, value_at, table_tryindex, table_setindex}
use kenaf.Table.Keys.{key_equal-equal, key_equal_refl}

get_elem?-set :
    (xs : List KvSlot) (i j : ℕ) (s v : KvSlot)
    → get_elem? xs i ≡ some s
    → get_elem? (set xs i v) j ≡ (if i == j then some v else get_elem? xs j)
get_elem?-set [] i j s v e = cc
get_elem?-set (x ∷ xs) zero zero s v e = refl
get_elem?-set (x ∷ xs) zero (suc j) s v e = ground arith
get_elem?-set (x ∷ xs) (suc i) zero s v e = ground arith
get_elem?-set (x ∷ xs) (suc i) (suc j) s v e = ground (arith, get_elem?-set xs i j s v e)

-- The search does not read the values.
find_loop-set :
    (n : ℕ) (slots : List KvSlot) (i : ℕ) (s : KvSlot) (val : ℕ) (key : Key) (j : ℕ)
    → get_elem? slots i ≡ some s
    → find_loop n (set slots i (record s { v = val })) key j ≡ find_loop n slots key j
unfolding find_loop
find_loop-set zero slots i s val key j e = refl
find_loop-set (suc n) slots i s val key j e =
    let there = get_elem?-set slots i j s (record s { v = val }) e in
    elim (Bool-cases (i == j)) [
      | inl same ↦
          let here : get_elem? slots j ≡ some s = rw⁻¹ (eq_of_== i j same) e in
          rw (there, same, here)
            (step (λ k. find_loop-set n slots i s val key k e) s.next (key_equal s.k key))
      | inr other ↦ elim (Option-cases (get_elem? slots j)) [
        | inl past ↦ rw (there, other, past) refl
        | inr (t, is) ↦
            rw (there, other, is)
              (step (λ k. find_loop-set n slots i s val key k e) t.next (key_equal t.k key))
      ]
    ]
  where
    step :
        ((k : ℕ) → find_loop n (set slots i (record s { v = val })) key k ≡ find_loop n slots key k)
        → (next : Next) (found : Bool)
        → (if found
            then ok (some j)
            else next_slot next (find_loop n (set slots i (record s { v = val })) key))
          ≡ (if found then ok (some j) else next_slot next (find_loop n slots key))
    step again next true = refl
    step again vacant false = refl
    step again end false = refl
    step again (follow k) false = again k

-- What is found is a slot that holds the key.
find_loop-holds :
    (n : ℕ) (slots : List KvSlot) (key : Key) (j i : ℕ)
    → find_loop n slots key j ≡ ok (some i)
    → (s : KvSlot) × (get_elem? slots i ≡ some s) × (s.k ≡ key)
unfolding find_loop
find_loop-holds zero slots key j i e = cc
find_loop-holds (suc n) slots key j i e = elim (Option-cases (get_elem? slots j)) [
  | inl past ↦ let e' = rw past at e in cc
  | inr (s, is) ↦ elim (Bool-cases (key_equal s.k key)) [
    | inl found ↦
        let e' : ok (some j) ≡ ok (some i) = rw (is, found) at e in
        let same : j ≡ i = cc in (s, rw⁻¹ same is, key_equal-equal s.k key found)
    | inr other ↦ onward (λ k. find_loop-holds n slots key k i) s.next (rw (is, other) at e)
  ]
]
  where
    onward :
        ((k : ℕ)
          → find_loop n slots key k ≡ ok (some i)
          → (s : KvSlot) × (get_elem? slots i ≡ some s) × (s.k ≡ key))
        → (next : Next) → next_slot next (find_loop n slots key) ≡ ok (some i)
        → (s : KvSlot) × (get_elem? slots i ≡ some s) × (s.k ≡ key)
    onward again vacant e = cc
    onward again end e = cc
    onward again (follow k) e = again k e

find-set :
    (slots : List KvSlot) (i : ℕ) (s : KvSlot) (val : ℕ) (key : Key) (j : ℕ)
    → get_elem? slots i ≡ some s
    → find (set slots i (record s { v = val })) key j ≡ find slots key j
unfolding find
find-set slots i s val key j e =
    let there = get_elem?-set slots i j s (record s { v = val }) e in
    let size = length-set slots i (record s { v = val }) in
    let rest = find_loop-set (suc (length slots)) slots i s val key j e in
    elim (Bool-cases (i == j)) [
      | inl same ↦
          let here : get_elem? slots j ≡ some s = rw⁻¹ (eq_of_== i j same) e in
          rw (there, same, here, size, rest) refl
      | inr other ↦ elim (Option-cases (get_elem? slots j)) [
        | inl past ↦ rw (there, other, past) refl
        | inr (t, is) ↦ rw (there, other, is, size, rest) refl
      ]
    ]

find-holds :
    (slots : List KvSlot) (key : Key) (j i : ℕ)
    → find slots key j ≡ ok (some i)
    → (s : KvSlot) × (get_elem? slots i ≡ some s) × (s.k ≡ key)
unfolding find
find-holds slots key j i e = elim (Option-cases (get_elem? slots j)) [
  | inl past ↦ let e' = rw past at e in cc
  | inr (s, is) ↦ elim (Bool-cases (is_vacant s.next)) [
    | inl empty ↦ let e' = rw (is, empty) at e in cc
    | inr used ↦ find_loop-holds (suc (length slots)) slots key j i (rw (is, used) at e)
  ]
]

abbrev holding : List KvSlot → ℕ → ℕ → TableObject
holding slots count n = record {
  kvslots = some (record { count = count; slots = slots });
  length = n;
}

-- The value of a slot whose key is another is read as before.
read-other :
    (slots : List KvSlot) (i : ℕ) (s : KvSlot) (val : ℕ) (other : Key) (r : Run (Option ℕ))
    → get_elem? slots i ≡ some s
    → key_equal other s.k ≡ false
    → ((k : ℕ) → r ≡ ok (some k) → (t : KvSlot) × (get_elem? slots k ≡ some t) × (t.k ≡ other))
    → (r >>= value_at (set slots i (record s { v = val }))) ≡ (r >>= value_at slots)
read-other slots i s val other fault e ne holds = refl
read-other slots i s val other (raise x) e ne holds = refl
read-other slots i s val other (ok none) e ne holds = refl
read-other slots i s val other (ok (some k)) e ne holds =
    let (t, is, own) = holds k refl in
    let there = get_elem?-set slots i k s (record s { v = val }) e in
    elim (Bool-cases (i == k)) [
      | inl same ↦
          let again : get_elem? slots k ≡ some s = rw⁻¹ (eq_of_== i k same) e in
          let one : t ≡ s = some-injective (sym is ∙ again) in
          let yes : key_equal other s.k ≡ true = rw⁻¹ one (rw own (key_equal_refl other)) in cc
      | inr apart ↦ rw (there, apart, is) refl
    ]
  where
    some-injective : {a b : KvSlot} → some a ≡ some b → a ≡ b
    some-injective p = cc

-- A search that leads to a value found a slot.
read-some :
    (slots : List KvSlot) (r : Run (Option ℕ)) (w : ℕ)
    → (r >>= value_at slots) ≡ ok (some w)
    → (i : ℕ) × (r ≡ ok (some i))
read-some slots fault w e = cc
read-some slots (raise x) w e = cc
read-some slots (ok none) w e = cc
read-some slots (ok (some i)) w e = (i, refl)

-- Setting the value of a key that is in the table succeeds and leaves the length; the key is then
-- found with the new value, and every other key is found, or not found, as before.
pub table_setindex-present :
    (hash_bits : ℕ → ℕ) (hash_text : Bytes → ℕ) (slots : List KvSlot) (count n : ℕ) (key : Key)
    (w val : ℕ)
    → table_tryindex hash_bits hash_text (holding slots count n) key ≡ ok (some w)
    → (slots' : List KvSlot) × (table_setindex hash_bits hash_text (holding slots count n) key val
        ≡ ok (holding slots' count n))
      × (table_tryindex hash_bits hash_text (holding slots' count n) key ≡ ok (some val))
      × ((other : Key)
          → key_equal (key_value other) (key_value key) ≡ false
          → table_tryindex hash_bits hash_text (holding slots' count n) other
            ≡ table_tryindex hash_bits hash_text (holding slots count n) other)
unfolding table_tryindex table_setindex
table_setindex-present hash_bits hash_text slots count n key w val e =
    elim (Bool-cases (count == 0)) [
      | inl no_slots ↦ let e' = rw no_slots at e in cc
      | inr some_slots ↦
          let main = λ (k : Key). key_hash hash_bits hash_text (key_value k) % count in
          let (i, found) =
            read-some slots (find slots (key_value key) (main key)) w (rw some_slots at e) in
          let (s, is, own) = find-holds slots (key_value key) (main key) i found in
          let new : KvSlot = record s { v = val } in
          let here : i == i ≡ true = ground arith in
          let kept = λ (k : Key). find-set slots i s val (key_value k) (main k) is in
          (
            set slots i new,
            rw (some_slots, found, is) refl,
            rw (some_slots, kept key, found, get_elem?-set slots i i s new is, here) refl,
            λ other ne.
                rw (some_slots, kept other)
                  (read-other slots i s val (key_value other)
                    (find slots (key_value other) (main other)) is (rw own ne)
                    (find-holds slots (key_value other) (main other))),
          )
    ]
