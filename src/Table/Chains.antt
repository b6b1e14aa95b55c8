-- ===== src/Table/Chains.antt =====
-- The chains of the slots of a table, source/runtime/objects/table_object.cpp: for each main slot
-- the list of the slots that are reached from it. A state of the slots is read as a function of
-- the position.
pub mod Edits
pub mod Additions
pub mod Removals
pub mod Deletions
pub mod Entries
use kenaf.Base.{
  ℕ, zero, suc, ◌+◌, ◌%◌, ◌<◌, ◌≤◌, ◌≡◌, ◌≢◌, refl, sym, ◌∙◌, inl, inr, Bool, true, false, ◌||◌,
  List, [], ◌∷◌, ◌==◌, if◌then◌else◌, arith, Bool-cases, eq_of_==, length, mem, IsDistinct,
}
use kenaf.Table.{Key, Next, KvSlot, is_vacant}
use kenaf.Table.Next.{vacant, end, follow}

abbrev pub Slots : Type 0
Slots = ℕ → KvSlot

abbrev pub IsUsed : Slots → ℕ → Type 0
IsUsed at i = is_vacant (at i).next ≡ false

-- The slots of the list are linked one to the next, and the last ends the chain.
abbrev pub Links : Slots → List ℕ → Type 0
Links at [] = Unit {0}
Links at (i ∷ []) = (at i).next ≡ end
Links at (i ∷ j ∷ is) = ((at i).next ≡ follow j) × Links at (j ∷ is)

abbrev pub StartsAt : ℕ → List ℕ → Type 0
StartsAt b [] = Unit {0}
StartsAt b (i ∷ is) = i ≡ b

-- Every slot in use is in the chain of its main slot, and every slot of a chain belongs there.
pub record IsPlaced (hash : Key → ℕ) (count : ℕ) (at : Slots) (chain : ℕ → List ℕ) : Type 0 where
  pub starts : (b : ℕ) → StartsAt b (chain b)
  pub links : (b : ℕ) → Links at (chain b)
  pub inside :
      (b i : ℕ) → mem i (chain b) ≡ true → (i < count) × IsUsed at i × (hash (at i).k % count ≡ b)
  pub distinct : (b : ℕ) → IsDistinct (chain b)
  pub reached : (i : ℕ) → i < count → IsUsed at i → mem i (chain (hash (at i).k % count)) ≡ true

-- The chains with another one for the main slot `b`
abbrev pub assign : (ℕ → List ℕ) → ℕ → List ℕ → ℕ → List ℕ
assign chain b is c = if b == c then is else chain c

-- Links depend on the pointers of their own slots only.
pub Links-same :
    (at at' : Slots) (is : List ℕ)
    → ((i : ℕ) → mem i is ≡ true → (at' i).next ≡ (at i).next)
    → Links at is
    → Links at' is
Links-same at at' [] same h = tt
Links-same at at' (i ∷ []) same h = same i (ground arith) ∙ h
Links-same at at' (i ∷ j ∷ is) same (e, h) =
    (same i (ground arith) ∙ e, Links-same at at' (j ∷ is) (λ k m. same k (ground arith)) h)

-- The slot that follows one of a chain is behind the head.
pub Links-behind :
    (at : Slots) (i j k : ℕ) (is : List ℕ)
    → Links at (k ∷ is)
    → mem i (k ∷ is) ≡ true
    → (at i).next ≡ follow j
    → mem j is ≡ true
Links-behind at i j k [] h m e = ground (arith, h, e)
Links-behind at i j k (l ∷ is) (f, h) m e = elim (Bool-cases (i == k)) [
  | inl here ↦ ground (arith, f, e)
  | inr later ↦ ground (arith, Links-behind at i j l is h (ground arith) e)
]

-- No two slots of a chain are followed by the same slot.
pub Links-injective :
    (at : Slots) (i i' j : ℕ) (is : List ℕ)
    → Links at is
    → IsDistinct is
    → mem i is ≡ true
    → mem i' is ≡ true
    → (at i).next ≡ follow j
    → (at i').next ≡ follow j
    → i ≡ i'
Links-injective at i i' j [] h d m m' e e' = cc
Links-injective at i i' j (k ∷ []) h d m m' e e' = ground arith
Links-injective at i i' j (k ∷ l ∷ is) (f, h) (n, (n', d)) m m' e e' = elim (Bool-cases (i == k)) [
  | inl here ↦ elim (Bool-cases (i' == k)) [
    | inl here' ↦ ground arith
    | inr later' ↦ ground (arith, f, e, Links-behind at i' j l is h (ground arith) e', n')
  ]
  | inr later ↦ elim (Bool-cases (i' == k)) [
    | inl here' ↦ ground (arith, f, e', Links-behind at i j l is h (ground arith) e, n')
    | inr later' ↦ Links-injective at i i' j (l ∷ is) h (n', d) (ground arith) (ground arith) e e'
  ]
]

-- A slot behind the head follows some slot of the chain.
pub Links-before :
    (at : Slots) (j k : ℕ) (is : List ℕ)
    → Links at (k ∷ is)
    → mem j is ≡ true
    → (i : ℕ) × (mem i (k ∷ is) ≡ true) × ((at i).next ≡ follow j)
Links-before at j k [] h m = cc
Links-before at j k (l ∷ is) (f, h) m = elim (Bool-cases (j == l)) [
  | inl here ↦ (k, ground arith, ground (arith, f))
  | inr later ↦ let (i, m', e) = Links-before at j l is h (ground arith) in (i, ground arith, e)
]

-- The chain from one of its slots on
pub Links-suffix :
    (at : Slots) (i : ℕ) (is : List ℕ)
    → Links at is
    → mem i is ≡ true
    → (js : List ℕ) × Links at (i ∷ js)
      × ((k : ℕ) → mem k (i ∷ js) ≡ true → mem k is ≡ true)
      × (length (i ∷ js) ≤ length is)
Links-suffix at i [] h m = cc
Links-suffix at i (k ∷ []) h m =
    let here : i ≡ k = ground arith in ([], rw here h, (λ l m'. ground arith), omega arith)
Links-suffix at i (k ∷ l ∷ is) (e, h) m = elim (Bool-cases (i == k)) [
  | inl here ↦ (l ∷ is, rw (eq_of_== i k here) (e, h), (λ n m'. ground arith), omega arith)
  | inr later ↦
      let (js, h', within, le) = Links-suffix at i (l ∷ is) h (ground arith) in
      (js, h', (λ n m'. ground (arith, within n m')), omega (arith, le))
]
