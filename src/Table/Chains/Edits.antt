-- ===== src/Table/Chains/Edits.antt =====
-- Chains of slots after a slot has been added, moved or taken out.
use kenaf.Base.{
  ℕ, ◌≡◌, ◌≢◌, refl, sym, ◌∙◌, inl, inr, true, false, List, [], ◌∷◌, ◌==◌, if◌then◌else◌, arith,
  Bool-cases, eq_of_==, mem, IsDistinct, remove, remove-absent,
}
use kenaf.Table.{Next}
use kenaf.Table.Next.{vacant, end, follow}
use kenaf.Table.Chains.{Slots, Links, Links-same, Links-injective}

-- A slot that is followed as the head was takes its place.
pub Links-head :
    (at at' : Slots) (b f : ℕ) (is : List ℕ)
    → Links at (b ∷ is)
    → (at' f).next ≡ (at b).next
    → ((i : ℕ) → mem i is ≡ true → (at' i).next ≡ (at i).next)
    → Links at' (f ∷ is)
Links-head at at' b f [] h e same = e ∙ h
Links-head at at' b f (l ∷ is) (g, h) e same = (e ∙ g, Links-same at at' (l ∷ is) same h)

-- The position `f` in place of `main`
abbrev pub rename : ℕ → ℕ → ℕ → ℕ
rename main f i = if i == main then f else i

abbrev pub redirect : ℕ → ℕ → Next → Next
redirect main f vacant = vacant
redirect main f end = end
redirect main f (follow j) = follow (rename main f j)

abbrev pub rename_all : ℕ → ℕ → List ℕ → List ℕ
rename_all main f [] = []
rename_all main f (i ∷ is) = rename main f i ∷ rename_all main f is

pub mem-rename_all :
    (main f i : ℕ) (is : List ℕ)
    → mem f is ≡ false
    → main ≢ f
    → mem i (rename_all main f is)
      ≡ (if i == f then mem main is else if i == main then false else mem i is)
mem-rename_all main f i [] h ne = ground arith
mem-rename_all main f i (j ∷ is) h ne = ground (arith, mem-rename_all main f i is (ground arith) ne)

pub rename_all-IsDistinct :
    (main f : ℕ) (is : List ℕ)
    → mem f is ≡ false
    → main ≢ f
    → IsDistinct is
    → IsDistinct (rename_all main f is)
rename_all-IsDistinct main f [] h ne d = tt
rename_all-IsDistinct main f (j ∷ is) h ne (n, d) = (
  ground (arith, mem-rename_all main f (rename main f j) is (ground arith) ne),
  rename_all-IsDistinct main f is (ground arith) ne d,
)

pub Links-rename_all :
    (at at' : Slots) (main f : ℕ) (is : List ℕ)
    → ((i : ℕ) → mem i is ≡ true → (at' (rename main f i)).next ≡ redirect main f (at i).next)
    → Links at is
    → Links at' (rename_all main f is)
Links-rename_all at at' main f [] e h = tt
Links-rename_all at at' main f (i ∷ []) e h = e i (ground arith) ∙ (rw h refl)
Links-rename_all at at' main f (i ∷ j ∷ is) e (g, h) = (
  e i (ground arith) ∙ (rw g refl),
  Links-rename_all at at' main f (j ∷ is) (λ k m. e k (ground arith)) h,
)

-- A slot behind the head is taken out, and the slot in front of it is followed by the next.
pub Links-remove :
    (at at' : Slots) (p j k : ℕ) (is : List ℕ)
    → Links at (k ∷ is)
    → IsDistinct (k ∷ is)
    → (j == k) ≡ false
    → mem j is ≡ true
    → mem p (k ∷ is) ≡ true
    → (at p).next ≡ follow j
    → (at' p).next ≡ (at j).next
    → ((i : ℕ) → i ≢ p → i ≢ j → (at' i).next ≡ (at i).next)
    → Links at' (remove j (k ∷ is))
Links-remove at at' p j k [] h d ne m mp e e' same = cc
Links-remove at at' p j k (l ∷ is) (g, h) (n, (n', d)) ne m mp e e' same =
    elim (Bool-cases (j == l)) [
      | inl next ↦
          let is_l : j ≡ l = eq_of_== j l next in
          let is_k : p ≡ k =
            Links-injective at p k j (k ∷ l ∷ is) (g, h) (n, (n', d)) mp (ground arith) e
              (ground (arith, g)) in
          let absent : mem j is ≡ false = ground arith in
          rw (ne, next, remove-absent j is absent)
            (Links-head at at' l k is h (ground (arith, e'))
              (λ i mi. same i (ground (arith, mi)) (ground (arith, mi))))
      | inr later ↦
          let apart : p ≢ k = λ is_k. ground (arith, g, e) in
          let rest =
            Links-remove at at' p j l is h (n', d) later (ground arith) (ground (arith, mp)) e e'
              same in
          rw (ne, later) (same k (λ is_k. apart (sym is_k)) (ground arith) ∙ g, (rw later at rest))
    ]
