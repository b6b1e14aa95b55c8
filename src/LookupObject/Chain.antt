-- ===== src/LookupObject/Chain.antt =====
-- The layouts of an object as a list, source/runtime/objects/lookup_object.cpp: the searches along the
-- parents are searches of the list.
use kenaf.Base.{
  ℕ, zero, suc, ◌≤◌, ◌<◌, ◌≡◌, ◌≢◌, refl, ◌∙◌, inl, inr, List, [], ◌∷◌, Option, none, some, ok,
  ◌==◌, if◌then◌else◌, ap, arith, Bool-cases, Option-cases, length, get_elem?,
}
use kenaf.LookupObject.{
  Parent, Layout, LookupObject, Machine, Found, found, root, no_sindex, same_key, search_step,
  search_loop, search, prototype_loop,
}
use kenaf.LookupObject.Parent.{null_parent, prototype, layout_above}

-- The layouts from one up to the one without a key, whose parent is `p`
pub data Chain (layouts : List Layout) : ℕ → List Layout → Parent → Type 0 where
  at_root :
      {i : ℕ} {l : Layout}
      → get_elem? layouts i ≡ some l
      → l.key ≡ none
      → Chain layouts i [] l.parent
  at_key :
      {i : ℕ} {l : Layout} {ls : List Layout} {p : Parent} (j k : ℕ)
      → get_elem? layouts i ≡ some l
      → l.key ≡ some k
      → l.parent ≡ layout_above j
      → l.sindex ≢ no_sindex
      → Chain layouts j ls p
      → Chain layouts i (l ∷ ls) p

-- The layout of the key, the last that was added first
unfoldable pub layout_of : ℕ → List Layout → Option Layout
layout_of key [] = none
layout_of key (l ∷ ls) = if same_key l.key key then some l else layout_of key ls

abbrev pub found_or : Option Layout → Parent → Found
found_or none p = root p
found_or (some l) p = found l

pub search_loop-layout_of :
    (n : ℕ) (vm : Machine) (key i : ℕ) (ls : List Layout) (p : Parent)
    → Chain vm.layouts i ls p
    → length ls < n
    → search_loop n vm key i ≡ ok (found_or (layout_of key ls) p)
unfolding search_loop layout_of
search_loop-layout_of zero vm key i ls p c enough = absurd (omega arith)
search_loop-layout_of (suc n) vm key i [] p (at_root at e) enough = rw (at, e) refl
search_loop-layout_of (suc n) vm key i (l ∷ ls) p (at_key j k at e above keyed c) enough =
    let again = search_loop-layout_of n vm key j ls p c (omega arith) in
    let here : search_loop (suc n) vm key i ≡ search_step (some k) l key (search_loop n vm key) =
      rw at (ap (λ x. search_step x l key (search_loop n vm key)) e) in
    let same : same_key l.key key ≡ (k == key) = ap (λ x. same_key x key) e in
    here ∙ elim (Bool-cases (k == key)) [
      | inl this ↦ rw (same, search_step, this) refl
      | inr other ↦ rw (same, search_step, other, above) again
    ]

-- A search for a key along the parents of a layout, which are no more than there are layouts, ends
-- without a fault, with the first layout of the key or else with the parent of the last.
pub search-layout_of :
    (vm : Machine) (key i : ℕ) (ls : List Layout) (p : Parent)
    → Chain vm.layouts i ls p
    → length ls ≤ length vm.layouts
    → search vm key i ≡ ok (found_or (layout_of key ls) p)
unfolding search
search-layout_of vm key i ls p c short =
    search_loop-layout_of (suc (length vm.layouts)) vm key i ls p c (omega arith)

-- The prototypes of an object, each with its block of slots and its layouts
pub data Prototypes (vm : Machine) : Parent → List (ℕ × List Layout) → Type 0 where
  no_prototype : Prototypes vm null_parent []
  one_prototype :
      {o : ℕ} {object : LookupObject} {ls : List Layout} {rest : List (ℕ × List Layout)}
      (p : Parent)
      → get_elem? vm.objects o ≡ some object
      → Chain vm.layouts object.layout ls p
      → length ls ≤ length vm.layouts
      → Prototypes vm p rest
      → Prototypes vm (prototype o) ((object.oslots, ls) ∷ rest)

abbrev pub slot_or : Option Layout → ℕ → Option (ℕ × ℕ) → Option (ℕ × ℕ)
slot_or none b rest = rest
slot_or (some l) b rest = some (b, l.sindex)

-- The slot of a key in the first of the objects that has it
unfoldable pub slot_of : ℕ → List (ℕ × List Layout) → Option (ℕ × ℕ)
slot_of key [] = none
slot_of key ((b, ls) ∷ rest) = slot_or (layout_of key ls) b (slot_of key rest)

pub prototype_loop-slot_of :
    (n : ℕ) (vm : Machine) (key : ℕ) (p : Parent) (above : List (ℕ × List Layout))
    → Prototypes vm p above
    → length above < n
    → prototype_loop n vm key p ≡ ok (slot_of key above)
unfolding prototype_loop slot_of
prototype_loop-slot_of zero vm key p above c enough = absurd (omega arith)
prototype_loop-slot_of (suc n) vm key p [] no_prototype enough = refl
prototype_loop-slot_of (suc n) vm key p ((b, ls) ∷ rest) (one_prototype p' at c short up) enough =
    let again = prototype_loop-slot_of n vm key p' rest up (omega arith) in
    let here = search-layout_of vm key _ ls p' c short in
    elim (Option-cases (layout_of key ls)) [
      | inl absent ↦ rw (at, here, slot_or, absent) again
      | inr (l, there) ↦ rw (at, here, slot_or, there) refl
    ]
