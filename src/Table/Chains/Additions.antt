-- ===== src/Table/Chains/Additions.antt =====
-- The chains of a table when a key is put into a slot that was free.
use kenaf.Base.{
  ℕ, ◌%◌, ◌<◌, ◌≡◌, ◌≢◌, refl, sym, ◌∙◌, ap, subst, inl, inr, ◌⊎◌, true, false, List, [], ◌∷◌, ◌==◌,
  arith, Bool-cases, eq_of_==, ne_of_==, mem, IsDistinct,
}
use kenaf.Table.{Key, is_vacant}
use kenaf.Table.Next.{end, follow}
use kenaf.Table.Chains.{Slots, IsUsed, Links, StartsAt, IsPlaced, assign, Links-same}
use kenaf.Table.Chains.Edits.{Links-head}

module _ (hash : Key → ℕ) (count : ℕ) (at : Slots) (chain : ℕ → List ℕ)
    (placed : IsPlaced hash count at chain) where
  -- A free slot is in no chain.
  pub free-outside : (b i : ℕ) → is_vacant (at i).next ≡ true → mem i (chain b) ≡ false
  free-outside b i free = elim (Bool-cases (mem i (chain b))) [
    | inl m ↦ let (lt, used, home) = placed.inside b i m in cc
    | inr n ↦ n
  ]

  -- The chain of a main slot is empty, unless it begins with that slot.
  pub chain-cases : (b : ℕ) → (chain b ≡ []) ⊎ ((is : List ℕ) × (chain b ≡ b ∷ is))
  chain-cases b = cases (chain b) refl (placed.starts b)
    where
      cases :
          (is : List ℕ)
          → chain b ≡ is
          → StartsAt b is
          → (chain b ≡ []) ⊎ ((is : List ℕ) × (chain b ≡ b ∷ is))
      cases [] e s = inl e
      cases (i ∷ is) e s = inr (is, e ∙ ap (λ k. k ∷ is) s)

  pub chain_of_other :
      (b : ℕ) → (is_vacant (at b).next ≡ true) ⊎ (hash (at b).k % count ≢ b) → chain b ≡ []
  chain_of_other b other = elim (chain-cases b) [
    | inl empty ↦ empty
    | inr (is, e) ↦
        let (lt, used, home) = placed.inside b b (rw e (ground arith)) in
        elim other [ inl free ↦ cc | inr ne ↦ absurd (ne home) ]
  ]

  -- One chain is replaced: its slots are in their places, and the slots of the other chains are as
  -- they were.
  pub assign-IsPlaced :
      (at' : Slots) (b : ℕ) (is : List ℕ)
      → StartsAt b is
      → Links at' is
      → IsDistinct is
      → ((i : ℕ) → mem i is ≡ true → (i < count) × IsUsed at' i × (hash (at' i).k % count ≡ b))
      → ((c i : ℕ) → b ≢ c → mem i (chain c) ≡ true → at' i ≡ at i)
      → ((i : ℕ) → i < count → IsUsed at' i → hash (at' i).k % count ≡ b → mem i is ≡ true)
      → ((i : ℕ) → i < count → IsUsed at' i → hash (at' i).k % count ≢ b → at' i ≡ at i)
      → IsPlaced hash count at' (assign chain b is)
  assign-IsPlaced at' b is start linked apart within others all rest = record {
    starts = λ c. by_chain c (λ js. StartsAt c js) (λ e. rw⁻¹ e start) (λ n. placed.starts c);
    links = λ c.
        by_chain c (Links at') (λ e. linked)
          (λ n.
            Links-same at at' (chain c) (λ i m. ap (λ s. s.next) (others c i n m))
              (placed.links c));
    inside = λ c i.
        by_chain c
          (λ js. mem i js ≡ true → (i < count) × IsUsed at' i × (hash (at' i).k % count ≡ c))
          (λ e m. rw⁻¹ e (within i m)) (λ n m. rw (others c i n m) (placed.inside c i m));
    distinct = λ c. by_chain c IsDistinct (λ e. apart) (λ n. placed.distinct c);
    reached = λ i lt u.
        by_chain (hash (at' i).k % count) (λ js. mem i js ≡ true) (λ e. all i lt u (sym e))
          (λ n.
            let same = rest i lt u (λ e. n (sym e)) in
            rw same (placed.reached i lt (rw same at u)));
  }
    where
      by_chain :
          (c : ℕ) (P : List ℕ → Type 0)
          → (b ≡ c → P is)
          → (b ≢ c → P (chain c))
          → P (assign chain b is c)
      by_chain c P first second = elim (Bool-cases (b == c)) [
        | inl e ↦ rw e (first (eq_of_== b c e))
        | inr n ↦ rw n (second (ne_of_== b c n))
      ]

  module _ (at' : Slots) (main : ℕ) (lt : main < count) where
    -- The main slot was free: the key is alone in its chain.
    pub put_alone-IsPlaced :
        is_vacant (at main).next ≡ true
        → (at' main).next ≡ end
        → hash (at' main).k % count ≡ main
        → ((i : ℕ) → i ≢ main → at' i ≡ at i)
        → IsPlaced hash count at' (assign chain main (main ∷ []))
    put_alone-IsPlaced free last home same =
        assign-IsPlaced at' main (main ∷ []) refl last (refl, tt)
          (λ i m. let e : i ≡ main = ground arith in rw e (lt, rw last refl, home))
          (λ c i n m. same i (λ e. ground (arith, free-outside c main free)))
          (λ i lt u e. elim (Bool-cases (i == main)) [
            | inl here ↦ ground arith
            | inr other ↦
                let is : at' i ≡ at i = same i (ne_of_== i main other) in
                let m : mem i (chain main) ≡ true =
                  rw⁻¹ (rw is at e) (placed.reached i lt (rw is at u)) in
                let none_there = chain_of_other main (inl free) in
                let m' : mem i [] ≡ true = rw none_there at m in cc
          ])
          (λ i lt u n. same i (λ e. n (rw e home)))

    -- The main slot holds a key of its own chain: the key goes to a free slot behind it.
    pub put_after-IsPlaced :
        (f : ℕ) (is : List ℕ)
        → f < count
        → is_vacant (at f).next ≡ true
        → chain main ≡ main ∷ is
        → (at' f).next ≡ (at main).next
        → hash (at' f).k % count ≡ main
        → (at' main).next ≡ follow f
        → (at' main).k ≡ (at main).k
        → ((i : ℕ) → i ≢ main → i ≢ f → at' i ≡ at i)
        → IsPlaced hash count at' (assign chain main (main ∷ f ∷ is))
    put_after-IsPlaced f is f_lt free chained next home linked key same =
        let (lt_main, used, home_main) = placed.inside main main (rw chained (ground arith)) in
        let absent : mem f (main ∷ is) ≡ false = rw chained at (free-outside main f free) in
        let apart : IsDistinct (main ∷ is) = rw chained at (placed.distinct main) in
        let links : Links at (main ∷ is) = rw chained at (placed.links main) in
        let home_main' : hash (at' main).k % count ≡ main = rw key home_main in
        assign-IsPlaced at' main (main ∷ f ∷ is) refl
          (
            linked,
            Links-head at at' main f is links next (λ i m.
                ap (λ s. s.next)
                  (same i (λ e. ground (arith, apart.0)) (λ e. ground (arith, absent)))),
          )
          (ground (arith, apart.0), (ground arith, apart.1))
          (λ i m. elim (Bool-cases (i == main)) [
            | inl here ↦ rw (eq_of_== i main here) (lt_main, rw linked refl, home_main')
            | inr other ↦ elim (Bool-cases (i == f)) [
              | inl there ↦ rw (eq_of_== i f there) (f_lt, rw next used, home)
              | inr apart' ↦
                  rw (same i (ne_of_== i main other) (ne_of_== i f apart'))
                    (placed.inside main i (rw chained (ground arith)))
            ]
          ])
          (λ c i n m.
            same i (λ e. n (sym home_main ∙ (placed.inside c main (rw e at m)).2))
              (λ e.
                let m' : mem f (chain c) ≡ true = rw e at m in
                ground (arith, free-outside c f free)))
          (λ i lt u e. elim (Bool-cases (i == main)) [
            | inl here ↦ ground arith
            | inr other ↦ elim (Bool-cases (i == f)) [
              | inl there ↦ ground arith
              | inr apart' ↦
                  let is_same = same i (ne_of_== i main other) (ne_of_== i f apart') in
                  let m : mem i (chain main) ≡ true =
                    subst (λ c. mem i (chain c) ≡ true) (rw is_same at e)
                      (placed.reached i lt (rw is_same at u)) in
                  let m' : mem i (main ∷ is) ≡ true = rw chained at m in ground arith
            ]
          ])
          (λ i lt u n. same i (λ e. n (rw e home_main')) (λ e. n (rw e home)))
