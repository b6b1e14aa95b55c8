-- ===== src/Table/Chains/Removals.antt =====
-- The chains of a table when a slot becomes free: its entry is moved to another slot, or taken out.
use kenaf.Base.{
  ℕ, ◌%◌, ◌<◌, ◌≡◌, ◌≢◌, refl, sym, ◌∙◌, ap, subst, inl, inr, true, false, List, [], ◌∷◌, ◌==◌,
  if◌then◌else◌, arith, Bool-cases, eq_of_==, ne_of_==, mem, IsDistinct, remove,
}
use kenaf.Table.{Key, Next, is_vacant, vacant_slot}
use kenaf.Table.Next.{vacant, end, follow}
use kenaf.Table.Chains.{
  Slots, IsUsed, Links, StartsAt, IsPlaced, assign, Links-behind, Links-injective,
}
use kenaf.Table.Chains.Edits.{
  redirect, rename_all, mem-rename_all, rename_all-IsDistinct, Links-rename_all,
}
use kenaf.Table.Chains.Additions.{free-outside, chain-cases, assign-IsPlaced, put_alone-IsPlaced}

redirect-other : (main f : ℕ) (n : Next) → n ≢ follow main → redirect main f n ≡ n
redirect-other main f vacant ne = refl
redirect-other main f end ne = refl
redirect-other main f (follow j) ne = elim (Bool-cases (j == main)) [
  | inl e ↦ absurd (ne (ap follow (eq_of_== j main e)))
  | inr n ↦ rw n refl
]

pub mem-remove_other : (i j : ℕ) (is : List ℕ) → (i == j) ≡ false → mem i (remove j is) ≡ mem i is
mem-remove_other i j [] h = refl
mem-remove_other i j (k ∷ is) h = ground (arith, mem-remove_other i j is h)

pub not-mem-remove : (j : ℕ) (is : List ℕ) → mem j (remove j is) ≡ false
not-mem-remove j [] = refl
not-mem-remove j (k ∷ is) = ground (arith, not-mem-remove j is)

-- No slot of a chain is followed by itself.
pub Links-self :
    (at : Slots) (i : ℕ) (is : List ℕ)
    → Links at is
    → IsDistinct is
    → mem i is ≡ true
    → (at i).next ≡ follow i
    → ⊥
Links-self at i [] h d m e = cc
Links-self at i (k ∷ []) h d m e = ground (arith, h, e)
Links-self at i (k ∷ l ∷ is) (g, h) (n, d) m e = elim (Bool-cases (i == k)) [
  | inl here ↦ ground (arith, Links-behind at i i k (l ∷ is) (g, h) m e)
  | inr later ↦ Links-self at i (l ∷ is) h d (ground arith) e
]

module _ (hash : Key → ℕ) (count : ℕ) (at at' : Slots) (chain : ℕ → List ℕ)
    (placed : IsPlaced hash count at chain) where
  -- The entry of `main`, which is in the chain of another slot, moves to a free slot, and the slot
  -- in front of it is followed by that one.
  pub move-IsPlaced :
      (main f p c : ℕ)
      → main < count
      → f < count
      → IsUsed at main
      → is_vacant (at f).next ≡ true
      → hash (at main).k % count ≡ c
      → c ≢ main
      → mem p (chain c) ≡ true
      → (at p).next ≡ follow main
      → is_vacant (at' main).next ≡ true
      → at' f ≡ at main
      → (at' p).next ≡ follow f
      → (at' p).k ≡ (at p).k
      → ((i : ℕ) → i ≢ main → i ≢ f → i ≢ p → at' i ≡ at i)
      → IsPlaced hash count at' (assign chain c (rename_all main f (chain c)))
  move-IsPlaced main f p c main_lt f_lt used free home ne before linked cleared moved onward key
        same =
      let absent : mem f (chain c) ≡ false = free-outside hash count at chain placed c f free in
      let (p_lt, p_used, p_home) = placed.inside c p before in
      let there : mem main (chain c) ≡ true =
        subst (λ b. mem main (chain b) ≡ true) home (placed.reached main main_lt used) in
      let main_f : main ≢ f = λ e. let used' : IsUsed at f = rw e at used in cc in
      let p_f : p ≢ f = λ e. let used' : IsUsed at f = rw e at p_used in cc in
      let p_main : p ≢ main = λ e. not_self main c (rw e at linked) there in
      let is_f : is_vacant (at' f).next ≡ false = rw moved used in
      let is_p : is_vacant (at' p).next ≡ false = rw onward refl in
      assign-IsPlaced hash count at chain placed at' c (rename_all main f (chain c))
        (begins main f c ne)
        (Links-rename_all at at' main f (chain c)
          (λ i m. elim (Bool-cases (i == main)) [
            | inl here ↦
                let is_main = eq_of_== i main here in
                rw (here, moved, is_main)
                  (sym (redirect-other main f (at main).next (λ e. not_self main c e there)))
            | inr other ↦ elim (Bool-cases (i == p)) [
              | inl here ↦
                  let this : main == main ≡ true = ground arith in
                  rw (other, eq_of_== i p here, linked, onward, this) refl
              | inr apart ↦
                  let is_same : at' i ≡ at i =
                    same i (ne_of_== i main other) (λ e. ground (arith, absent, rw e at m))
                      (ne_of_== i p apart) in
                  rw (other, is_same)
                    (sym (
                      redirect-other main f (at i).next (λ e. ne_of_== i p apart (
                        Links-injective at i p main (chain c) (placed.links c) (placed.distinct c) m
                          before e linked))))
            ]
          ])
          (placed.links c))
        (rename_all-IsDistinct main f (chain c) absent main_f (placed.distinct c))
        (λ i m.
          let m' = rw (mem-rename_all main f i (chain c) absent main_f) at m in
          elim (Bool-cases (i == f)) [
            | inl here ↦ rw (eq_of_== i f here, moved) (f_lt, used, home)
            | inr other ↦ elim (Bool-cases (i == main)) [
              | inl here ↦ let m'' = rw (other, here) at m' in cc
              | inr apart ↦
                  let m'' = rw (other, apart) at m' in
                  elim (Bool-cases (i == p)) [
                    | inl here ↦ rw (eq_of_== i p here, key) (p_lt, is_p, p_home)
                    | inr away ↦
                        rw (same i (ne_of_== i main apart) (ne_of_== i f other) (ne_of_== i p away))
                          (placed.inside c i m'')
                  ]
            ]
          ])
        (λ b i n m.
          let (lt, used_i, home_i) = placed.inside b i m in
          same i (λ e. n (sym home ∙ (rw e at home_i)))
            (λ e. let used' : IsUsed at f = rw e at used_i in cc)
            (λ e. n (sym p_home ∙ (rw e at home_i))))
        (λ i lt u e.
          rw (mem-rename_all main f i (chain c) absent main_f) (elim (Bool-cases (i == f)) [
            | inl here ↦ rw here there
            | inr other ↦ elim (Bool-cases (i == main)) [
              | inl here ↦ let u' = rw (eq_of_== i main here) at u in cc
              | inr apart ↦
                  rw (other, apart)
                    (elim (Bool-cases (i == p)) [
                      | inl here ↦ rw (eq_of_== i p here) before
                      | inr away ↦
                          let is_same =
                            same i (ne_of_== i main apart) (ne_of_== i f other)
                              (ne_of_== i p away) in
                          subst (λ b. mem i (chain b) ≡ true) (rw is_same at e)
                            (placed.reached i lt (rw is_same at u))
                    ])
            ]
          ]))
        (λ i lt u n.
          same i (λ e. let u' : IsUsed at' main = rw e at u in cc) (λ e. n (rw (e, moved) home))
            (λ e. n (rw (e, key) p_home)))
    where
      not_self : (i b : ℕ) → (at i).next ≡ follow i → mem i (chain b) ≡ true → ⊥
      not_self i b e m = Links-self at i (chain b) (placed.links b) (placed.distinct b) m e

      begins : (main f c : ℕ) → c ≢ main → StartsAt c (rename_all main f (chain c))
      begins main f c ne = elim (chain-cases hash count at chain placed c) [
        | inl none ↦ rw none tt
        | inr (is, e) ↦ let n : c == main ≡ false = ground arith in rw (e, n) refl
      ]

-- The entry of `main` has moved to a free slot, and a key of its own is put there.
pub replace-IsPlaced :
    (hash : Key → ℕ) (count : ℕ) (at at' : Slots) (chain : ℕ → List ℕ)
    (placed : IsPlaced hash count at chain) (main f p : ℕ)
    → main < count
    → f < count
    → IsUsed at main
    → is_vacant (at f).next ≡ true
    → hash (at main).k % count ≢ main
    → mem p (chain (hash (at main).k % count)) ≡ true
    → (at p).next ≡ follow main
    → p ≢ main
    → (at' main).next ≡ end
    → hash (at' main).k % count ≡ main
    → at' f ≡ at main
    → at' p ≡ record (at p) { next = follow f }
    → ((i : ℕ) → i ≢ main → i ≢ f → i ≢ p → at' i ≡ at i)
    → (chain' : ℕ → List ℕ) × IsPlaced hash count at' chain'
replace-IsPlaced hash count at at' chain placed main f p main_lt f_lt used free away before linked
      p_main last home moved at_p same =
    let between : Slots = λ i. if i == main then vacant_slot else at' i in
    let other : (i : ℕ) → i ≢ main → at' i ≡ between i =
      λ i n. let n' : i == main ≡ false = ground arith in rw n' refl in
    let this : main == main ≡ true = ground arith in
    let cleared : is_vacant (between main).next ≡ true = rw this refl in
    let main_f : f ≢ main = λ e. let used' : IsUsed at f = rw e used in cc in
    let step =
      move-IsPlaced hash count at between chain placed main f p (hash (at main).k % count) main_lt
        f_lt used free refl away before linked cleared (sym (other f main_f) ∙ moved)
        (ap (λ s. s.next) (sym (other p p_main) ∙ at_p))
        (ap (λ s. s.k) (sym (other p p_main) ∙ at_p))
        (λ i n n' n''. sym (other i n) ∙ same i n n' n'') in
    (_, put_alone-IsPlaced hash count between _ step at' main main_lt cleared last home other)
