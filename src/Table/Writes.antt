-- ===== src/Table/Writes.antt =====
-- The writes to the slots of a table when an entry is put into it.
use kenaf.Base.{ℕ, ◌<◌, ◌≡◌, ◌≢◌, refl, sym, ◌∙◌, List, ok, arith, length, length-set}
use kenaf.Table.{KvSlot}
use kenaf.Table.Next.{end, follow}
use kenaf.Table.Methods.{insert_behind, move_entry}
use kenaf.Table.Search.{at}
use kenaf.Table.Invariant.{relink, refill, link-lem, fill-lem, at-set_same, at-set_other}

module _ (slots : List KvSlot) (main f : ℕ) (main-inside : main < length slots)
    (f-inside : f < length slots) (main_f : main ≢ f) where
  -- The free slot is followed as the main slot was, and follows it.
  pub insert_behind-lem :
      (slots' : List KvSlot) × (insert_behind slots main (at slots main) f ≡ ok slots')
      × (length slots' ≡ length slots)
      × (at slots' main ≡ record (at slots main) { next = follow f })
      × ((at slots' f).next ≡ (at slots main).next)
      × ((i : ℕ) → i ≢ main → i ≢ f → at slots' i ≡ at slots i)
  unfolding insert_behind
  insert_behind-lem =
      let s1 = relink slots f (at slots main).next in
      let l1 : length s1 ≡ length slots = length-set slots f _ in
      let main1 : main < length s1 = omega (arith, main-inside, l1) in
      (
        relink s1 main (follow f),
        rw (link-lem slots f (at slots main).next f-inside, link-lem s1 main (follow f) main1) refl,
        length-set s1 main _ ∙ l1,
        at-set_same s1 main _ main1
            ∙ (rw
                (at-set_other slots f (record (at slots f) { next = (at slots main).next }) main
                  f-inside main_f)
                refl),
        (rw
            (
              at-set_other s1 main (record (at s1 main) { next = follow f }) f main1
                  (λ e. main_f (sym e)),
              at-set_same slots f (record (at slots f) { next = (at slots main).next }) f-inside,
            )
            refl),
        λ i n n'. at-set_other s1 main _ i main1 n ∙ at-set_other slots f _ i f-inside n',
      )

  -- The free slot is as the main slot was, which ends a chain.
  pub move_entry-lem :
      (p : ℕ)
      → p < length slots
      → p ≢ f
      → p ≢ main
      → (slots' : List KvSlot) × (move_entry slots main (at slots main) f p ≡ ok slots')
        × (length slots' ≡ length slots)
        × ((at slots' main).next ≡ end)
        × (at slots' f ≡ at slots main)
        × (at slots' p ≡ record (at slots p) { next = follow f })
        × ((i : ℕ) → i ≢ main → i ≢ f → i ≢ p → at slots' i ≡ at slots i)
  unfolding move_entry
  move_entry-lem p p_inside p_f p_main =
      let entry = record (at slots f) { k = (at slots main).k; v = (at slots main).v } in
      let s1 = refill slots f (at slots main).k (at slots main).v in
      let l1 : length s1 ≡ length slots = length-set slots f _ in
      let s2 = relink s1 p (follow f) in
      let l2 : length s2 ≡ length s1 = length-set s1 p _ in
      let s3 = relink s2 f (at slots main).next in
      let l3 : length s3 ≡ length s2 = length-set s2 f _ in
      let p1 : p < length s1 = omega (arith, p_inside, l1) in
      let f2 : f < length s2 = omega (arith, f-inside, l1, l2) in
      let main3 : main < length s3 = omega (arith, main-inside, l1, l2, l3) in
      (
        relink s3 main end,
        rw
            (
              fill-lem slots f (at slots main).k (at slots main).v f-inside,
              link-lem s1 p (follow f) p1,
              link-lem s2 f (at slots main).next f2,
              link-lem s3 main end main3,
            )
            refl,
        length-set s3 main _ ∙ l3 ∙ l2 ∙ l1,
        (rw (at-set_same s3 main (record (at s3 main) { next = end }) main3) refl),
        at-set_other s3 main _ f main3 (λ e. main_f (sym e))
            ∙ at-set_same s2 f _ f2
            ∙ (rw
                (
                  at-set_other s1 p (record (at s1 p) { next = follow f }) f p1 (λ e. p_f (sym e)),
                  at-set_same slots f entry f-inside,
                )
                refl),
        at-set_other s3 main _ p main3 p_main
            ∙ at-set_other s2 f _ p f2 p_f
            ∙ at-set_same s1 p _ p1
            ∙ (rw (at-set_other slots f entry p f-inside p_f) refl),
        λ i n n' n''.
            at-set_other s3 main _ i main3 n
            ∙ at-set_other s2 f _ i f2 n'
            ∙ at-set_other s1 p _ i p1 n''
            ∙ at-set_other slots f _ i f-inside n',
      )
