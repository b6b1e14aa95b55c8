-- ===== src/Table/Chains/Deletions.antt =====
-- The chains of a table when the entry of a key is deleted.
use kenaf.Base.{
  ℕ, ◌≡◌, ◌≢◌, refl, sym, ◌∙◌, ap, subst, inl, inr, true, false, List, [], ◌∷◌, ◌==◌, arith,
  Bool-cases, eq_of_==, ne_of_==, mem, IsDistinct, remove, mem-remove, remove-IsDistinct,
}
use kenaf.Table.{Key, is_vacant}
use kenaf.Table.Next.{follow}
use kenaf.Table.Chains.{Slots, IsUsed, Links, IsPlaced, assign}
use kenaf.Table.Chains.Edits.{Links-head, Links-remove}
use kenaf.Table.Chains.Additions.{assign-IsPlaced}
use kenaf.Table.Chains.Removals.{mem-remove_other}

module _ (hash : Key → ℕ) (count : ℕ) (at at' : Slots) (chain : ℕ → List ℕ)
    (placed : IsPlaced hash count at chain) where
  -- The entry is alone in its chain.
  pub delete_alone-IsPlaced :
      (b : ℕ)
      → chain b ≡ b ∷ []
      → is_vacant (at' b).next ≡ true
      → ((i : ℕ) → i ≢ b → at' i ≡ at i)
      → IsPlaced hash count at' (assign chain b [])
  delete_alone-IsPlaced b chained cleared same =
      let (lt_b, used, home) = placed.inside b b (rw chained (ground arith)) in
      assign-IsPlaced hash count at chain placed at' b [] tt tt tt (λ i m. cc)
        (λ c i n m. same i (λ e. n (sym home ∙ (rw e at (placed.inside c i m).2))))
        (λ i lt u e. elim (Bool-cases (i == b)) [
          | inl here ↦ let u' = rw (eq_of_== i b here) at u in cc
          | inr other ↦
              let is_same = same i (ne_of_== i b other) in
              let m : mem i (chain b) ≡ true =
                subst (λ c. mem i (chain c) ≡ true) (rw is_same at e)
                  (placed.reached i lt (rw is_same at u)) in
              let m' = rw (chained, other) at m in m'
        ])
        (λ i lt u n. same i (λ e. let u' : IsUsed at' b = rw e at u in cc))

  -- The entry is the first of its chain: the next one takes its place.
  pub delete_first-IsPlaced :
      (b j : ℕ) (is : List ℕ)
      → chain b ≡ b ∷ j ∷ is
      → at' b ≡ at j
      → is_vacant (at' j).next ≡ true
      → ((i : ℕ) → i ≢ b → i ≢ j → at' i ≡ at i)
      → IsPlaced hash count at' (assign chain b (b ∷ is))
  delete_first-IsPlaced b j is chained moved cleared same =
      let (lt_b, used_b, home_b) = placed.inside b b (rw chained (ground arith)) in
      let (lt_j, used_j, home_j) = placed.inside b j (rw chained (ground arith)) in
      let (n, (n', d)) : IsDistinct (b ∷ j ∷ is) = rw chained at (placed.distinct b) in
      let (g, h) : Links at (b ∷ j ∷ is) = rw chained at (placed.links b) in
      assign-IsPlaced hash count at chain placed at' b (b ∷ is) refl
        (Links-head at at' j b is h (ap (λ s. s.next) moved) (λ i m.
          ap (λ s. s.next)
            (same i (λ e. ground (arith, rw e at m)) (λ e. ground (arith, rw e at m)))))
        (ground arith, d)
        (λ i m. elim (Bool-cases (i == b)) [
          | inl here ↦ rw (eq_of_== i b here, moved) (lt_b, used_j, home_j)
          | inr other ↦
              let m' : mem i is ≡ true = ground arith in
              rw (same i (ne_of_== i b other) (λ e. ground (arith, rw e at m')))
                (placed.inside b i (rw chained (ground arith)))
        ])
        (λ c i n m.
          let home = (placed.inside c i m).2 in
          same i (λ e. n (sym home_b ∙ (rw e at home))) (λ e. n (sym home_j ∙ (rw e at home))))
        (λ i lt u e. elim (Bool-cases (i == b)) [
          | inl here ↦ ground arith
          | inr other ↦ elim (Bool-cases (i == j)) [
            | inl there ↦ let u' = rw (eq_of_== i j there) at u in cc
            | inr apart ↦
                let is_same = same i (ne_of_== i b other) (ne_of_== i j apart) in
                let m : mem i (chain b) ≡ true =
                  subst (λ c. mem i (chain c) ≡ true) (rw is_same at e)
                    (placed.reached i lt (rw is_same at u)) in
                let m' = rw chained at m in ground arith
          ]
        ])
        (λ i lt u n.
          same i (λ e. n (rw (e, moved) home_j)) (λ e. let u' : IsUsed at' j = rw e at u in cc))

  -- The entry is behind another of its chain.
  pub delete_behind-IsPlaced :
      (b p j : ℕ) (is : List ℕ)
      → chain b ≡ b ∷ is
      → mem j is ≡ true
      → mem p (chain b) ≡ true
      → (at p).next ≡ follow j
      → p ≢ j
      → (at' p).next ≡ (at j).next
      → (at' p).k ≡ (at p).k
      → is_vacant (at' j).next ≡ true
      → ((i : ℕ) → i ≢ p → i ≢ j → at' i ≡ at i)
      → IsPlaced hash count at' (assign chain b (remove j (b ∷ is)))
  delete_behind-IsPlaced b p j is chained behind before linked apart_j onward key cleared same =
      let (lt_p, used_p, home_p) = placed.inside b p before in
      let (lt_j, used_j, home_j) = placed.inside b j (rw chained (ground arith)) in
      let d : IsDistinct (b ∷ is) = rw chained at (placed.distinct b) in
      let links : Links at (b ∷ is) = rw chained at (placed.links b) in
      let j_b : (j == b) ≡ false = ground (arith, behind, d.0) in
      let used_p' : IsUsed at' p = rw onward used_j in
      assign-IsPlaced hash count at chain placed at' b (remove j (b ∷ is)) (rw j_b refl)
        (Links-remove at at' p j b is links d j_b behind (rw chained at before) linked onward
          (λ i n n'. ap (λ s. s.next) (same i n n')))
        (remove-IsDistinct j (b ∷ is) d)
        (λ i m.
          let (m', i_j) = mem-remove i j (b ∷ is) m in
          elim (Bool-cases (i == p)) [
            | inl here ↦ rw (eq_of_== i p here, key) (lt_p, used_p', home_p)
            | inr other ↦
                rw (same i (ne_of_== i p other) (ne_of_== i j i_j))
                  (placed.inside b i (rw chained m'))
          ])
        (λ c i n m.
          let home = (placed.inside c i m).2 in
          same i (λ e. n (sym home_p ∙ (rw e at home))) (λ e. n (sym home_j ∙ (rw e at home))))
        (λ i lt u e. elim (Bool-cases (i == j)) [
          | inl there ↦ let u' = rw (eq_of_== i j there) at u in cc
          | inr apart ↦ rw (mem-remove_other i j (b ∷ is) apart) (elim (Bool-cases (i == p)) [
            | inl here ↦
                subst (λ k. mem k (b ∷ is) ≡ true) (sym (eq_of_== i p here)) (rw chained at before)
            | inr other ↦
                let is_same = same i (ne_of_== i p other) (ne_of_== i j apart) in
                let m : mem i (chain b) ≡ true =
                  subst (λ c. mem i (chain c) ≡ true) (rw is_same at e)
                    (placed.reached i lt (rw is_same at u)) in
                rw chained at m
          ])
        ])
        (λ i lt u n.
          same i (λ e. n (rw (e, key) home_p)) (λ e. let u' : IsUsed at' j = rw e at u in cc))
