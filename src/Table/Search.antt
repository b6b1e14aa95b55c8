-- ===== src/Table/Search.antt =====
-- The searches in the slots of a table, source/runtime/objects/table_object.cpp: the slot of a key in a
-- chain, the slot in front of another, and a free slot.
use kenaf.Base.{
  ℕ, zero, suc, ◌+◌, ◌<◌, ◌≤◌, ◌≡◌, refl, ◌∙◌, ap, inl, inr, ◌⊎◌, true, false, List, [], ◌∷◌,
  Option, none, some, Run, ok, ◌==◌, if◌then◌else◌, arith, Bool-cases, length, get_or, set,
  get_or-set, eq_of_==, mem,
}
use kenaf.Table.{
  Key, KvSlot, key_equal, vacant_slot, slot_at, is_vacant, next_slot, find_loop, free_above,
  free_below, previous_step, previous_loop, delete_loop,
}
use kenaf.Table.Next.{follow}
use kenaf.Table.Chains.{Slots, Links}

-- The slots of a list by their position
abbrev pub at : List KvSlot → Slots
at slots i = get_or slots i vacant_slot

pub slot_at-lem :
    (slots : List KvSlot) (i : ℕ) → i < length slots → slot_at slots i ≡ ok (at slots i)
slot_at-lem [] i lt = absurd (omega arith)
slot_at-lem (s ∷ slots) zero lt = refl
slot_at-lem (s ∷ slots) (suc i) lt = slot_at-lem slots i (omega arith)

pub at-set :
    (slots : List KvSlot) (i : ℕ) (s : KvSlot) (j : ℕ)
    → i < length slots
    → at (set slots i s) j ≡ (if i == j then s else at slots j)
at-set slots i s j lt = get_or-set slots i j s vacant_slot lt

-- What a search for a key among some slots gives.
abbrev pub Finds : List KvSlot → Key → List ℕ → Run (Option ℕ) → Type 0
Finds slots key is r =
    ((i : ℕ) × (r ≡ ok (some i)) × (mem i is ≡ true) × (key_equal (at slots i).k key ≡ true))
    ⊎ ((r ≡ ok none) × ((i : ℕ) → mem i is ≡ true → key_equal (at slots i).k key ≡ false))

module _ (slots : List KvSlot) where
  pub find_loop-Finds :
      (n : ℕ) (key : Key) (i : ℕ) (is : List ℕ)
      → Links (at slots) (i ∷ is)
      → ((j : ℕ) → mem j (i ∷ is) ≡ true → j < length slots)
      → length (i ∷ is) ≤ n
      → Finds slots key (i ∷ is) (find_loop n slots key i)
  unfolding find_loop
  find_loop-Finds zero key i is h inside enough = absurd (omega arith)
  find_loop-Finds (suc n) key i is h inside enough =
      rw (slot_at-lem slots i (inside i (ground arith)))
        (elim (Bool-cases (key_equal (at slots i).k key)) [
          | inl found ↦ rw found (inl (i, refl, ground arith, found))
          | inr other ↦ rw other (onward is h inside enough other (λ j. find_loop-Finds n key j))
        ])
    where
      onward :
          (is : List ℕ)
          → Links (at slots) (i ∷ is)
          → ((j : ℕ) → mem j (i ∷ is) ≡ true → j < length slots)
          → length (i ∷ is) ≤ suc n
          → key_equal (at slots i).k key ≡ false
          → ((j : ℕ) (js : List ℕ)
              → Links (at slots) (j ∷ js)
              → ((k : ℕ) → mem k (j ∷ js) ≡ true → k < length slots)
              → length (j ∷ js) ≤ n
              → Finds slots key (j ∷ js) (find_loop n slots key j))
          → Finds slots key (i ∷ is) (next_slot (at slots i).next (find_loop n slots key))
      onward [] h inside enough other again =
          rw h (inr (refl, λ j m. let e : j ≡ i = ground arith in rw e other))
      onward (j ∷ js) (g, h) inside enough other again =
          rw g (elim (again j js h (λ k m. inside k (ground arith)) (omega arith)) [
            | inl (k, r, m, e) ↦ inl (k, r, ground arith, e)
            | inr (r, all) ↦ inr (
              r,
              λ k m. elim (Bool-cases (k == i)) [
                | inl here ↦ rw (eq_of_== k i here) other
                | inr behind ↦ all k (ground arith)
              ],
            )
          ])

  -- The slot in front of another that is behind the head of its chain.
  pub previous_loop-lem :
      (n main i : ℕ) (is : List ℕ)
      → Links (at slots) (i ∷ is)
      → ((j : ℕ) → mem j (i ∷ is) ≡ true → j < length slots)
      → length (i ∷ is) ≤ n
      → mem main is ≡ true
      → (p : ℕ) × (previous_loop n slots main i ≡ ok p)
        × (mem p (i ∷ is) ≡ true)
        × ((at slots p).next ≡ follow main)
  unfolding previous_loop
  previous_loop-lem zero main i is h inside enough m = absurd (omega arith)
  previous_loop-lem (suc n) main i [] h inside enough m = cc
  previous_loop-lem (suc n) main i (j ∷ js) (g, h) inside enough m =
      rw (slot_at-lem slots i (inside i (ground arith)), g, previous_step)
        (elim (Bool-cases (j == main)) [
          | inl here ↦ rw here (i, refl, ground arith, g ∙ ap follow (eq_of_== j main here))
          | inr behind ↦
              let (p, r, m', e) =
                previous_loop-lem n main j js h (λ k m. inside k (ground arith)) (omega arith)
                  (ground arith) in
              rw behind (p, r, ground arith, e)
        ])

  -- The slot of a key behind the head of a chain, with the slot in front of it.
  pub delete_loop-lem :
      (n : ℕ) (key : Key) (i : ℕ) (is : List ℕ)
      → Links (at slots) (i ∷ is)
      → ((j : ℕ) → mem j (i ∷ is) ≡ true → j < length slots)
      → length (i ∷ is) ≤ n
      → ((p : ℕ) × (j : ℕ) × (delete_loop n slots key i (at slots i).next ≡ ok (some (p, j)))
          × (mem p (i ∷ is) ≡ true)
          × (mem j is ≡ true)
          × ((at slots p).next ≡ follow j)
          × (key_equal (at slots j).k key ≡ true))
        ⊎ ((delete_loop n slots key i (at slots i).next ≡ ok none)
            × ((j : ℕ) → mem j is ≡ true → key_equal (at slots j).k key ≡ false))
  unfolding delete_loop
  delete_loop-lem zero key i is h inside enough = absurd (omega arith)
  delete_loop-lem (suc n) key i [] h inside enough = rw h (inr (refl, λ j m. cc))
  delete_loop-lem (suc n) key i (j ∷ js) (g, h) inside enough =
      rw (g, slot_at-lem slots j (inside j (ground arith)))
        (elim (Bool-cases (key_equal (at slots j).k key)) [
          | inl found ↦ rw found (inl (i, j, refl, ground arith, ground arith, g, found))
          | inr other ↦
              rw other
                (elim (delete_loop-lem n key j js h (λ k m. inside k (ground arith))
                  (omega arith)) [
                    | inl (p, k, r, m, m', e, e') ↦ inl (p, k, r, ground arith, ground arith, e, e')
                    | inr (r, all) ↦ inr (
                      r,
                      λ k m. elim (Bool-cases (k == j)) [
                        | inl here ↦ rw (eq_of_== k j here) other
                        | inr behind ↦ all k (ground arith)
                      ],
                    )
                  ])
        ])

  pub free_above-lem :
      (n i : ℕ)
      → i + n ≤ length slots
      → ((j : ℕ) × (free_above n i slots ≡ ok (some j))
          × (j < i + n)
          × (is_vacant (at slots j).next ≡ true))
        ⊎ ((free_above n i slots ≡ ok none)
            × ((j : ℕ) → i ≤ j → j < i + n → is_vacant (at slots j).next ≡ false))
  unfolding free_above
  free_above-lem zero i h = inr (refl, λ j le lt. absurd (omega arith))
  free_above-lem (suc n) i h =
      rw (slot_at-lem slots i (omega arith)) (elim (Bool-cases (is_vacant (at slots i).next)) [
        | inl free ↦ rw free (inl (i, refl, omega arith, free))
        | inr used ↦ rw used (elim (free_above-lem n (i + 1) (omega arith)) [
          | inl (j, r, lt, e) ↦ inl (j, r, omega arith, e)
          | inr (r, all) ↦ inr (
            r,
            λ j le lt. elim (Bool-cases (j == i)) [
              | inl here ↦ rw (eq_of_== j i here) used
              | inr above ↦ all j (ground arith) (omega arith)
            ],
          )
        ])
      ])

  pub free_below-lem :
      (i : ℕ)
      → i ≤ length slots
      → ((j : ℕ) × (free_below i slots ≡ ok (some j))
          × (j < i)
          × (is_vacant (at slots j).next ≡ true))
        ⊎ ((free_below i slots ≡ ok none) × ((j : ℕ) → j < i → is_vacant (at slots j).next ≡ false))
  unfolding free_below
  free_below-lem zero h = inr (refl, λ j lt. absurd (omega arith))
  free_below-lem (suc i) h =
      rw (slot_at-lem slots i (omega arith)) (elim (Bool-cases (is_vacant (at slots i).next)) [
        | inl free ↦ rw free (inl (i, refl, omega arith, free))
        | inr used ↦ rw used (elim (free_below-lem i (omega arith)) [
          | inl (j, r, lt, e) ↦ inl (j, r, omega arith, e)
          | inr (r, all) ↦ inr (
            r,
            λ j lt. elim (Bool-cases (j == i)) [
              | inl here ↦ rw (eq_of_== j i here) used
              | inr below ↦ all j (ground arith)
            ],
          )
        ])
      ])
