-- ===== src/LookupObject/Update.antt =====
-- A new value at a key that a lookup object has, `lookup_setkey` of
-- source/runtime/objects/lookup_object.h.
use kenaf.Base.{
  ℕ, zero, suc, ◌<◌, ◌≡◌, refl, sym, ◌∙◌, ap, inl, inr, Bool, true, false, not, List, [], ◌∷◌,
  Option, none, some, ok, ◌>>=◌, ◌==◌, if◌then◌else◌, arith, Bool-cases, eq_of_==, length,
  get_elem?, set, length-set, get_or-set,
}
use kenaf.ArrayObject.{Value}
use kenaf.ArrayObject.Slots.{read-lem, write-lem}
use kenaf.LookupObject.{Layout, LookupObject, Machine, Selector, no_sindex}
use kenaf.LookupObject.Methods.{
  read_slot, write_slot, lookup_getsel, read_selected, lookup_getkey, lookup_setsel, lookup_setkey,
}
use kenaf.LookupObject.Chain.{layout_of, search-layout_of, slot_or, slot_of}
use kenaf.LookupObject.Resolve.{IsObject, IsCoherent, layout_of-has_slot}

get_elem?-set_same :
    (xs : List (List Value)) (i : ℕ) (x y : List Value)
    → get_elem? xs i ≡ some x
    → get_elem? (set xs i y) i ≡ some y
get_elem?-set_same [] i x y e = cc
get_elem?-set_same (z ∷ xs) zero x y e = refl
get_elem?-set_same (z ∷ xs) (suc i) x y e = get_elem?-set_same xs i x y e

module _ (vm : Machine) (o : ℕ) (object : LookupObject) (current : Layout) (ls : List Layout)
    (above : List (ℕ × List Layout)) (is : IsObject vm o object current ls above) (key : ℕ)
    (l : Layout) (there : layout_of key ls ≡ some l) (slots : List Value)
    (stored : get_elem? vm.blocks object.oslots ≡ some slots)
    (inside : l.sindex < length slots) where
  -- The machine with the value in the slot of the key
  abbrev pub with_value : Value → Machine
  with_value v = record vm { blocks = set vm.blocks object.oslots (set slots l.sindex v) }

  has_slot : (l.sindex == no_sindex) ≡ false
  has_slot = layout_of-has_slot vm.layouts object.layout key ls is.parent l is.chain there

  write_slot-with_value : (v : Value) → write_slot vm object.oslots l.sindex v ≡ ok (with_value v)
  unfolding write_slot
  write_slot-with_value v = rw (stored, write-lem slots l.sindex v inside) refl

  read_slot-with_value : (v : Value) → read_slot (with_value v) object.oslots l.sindex ≡ ok v
  unfolding read_slot
  read_slot-with_value v =
      let size = length-set slots l.sindex v in
      let same : l.sindex == l.sindex ≡ true = ground arith in
      rw
        (
          get_elem?-set_same vm.blocks object.oslots slots (set slots l.sindex v) stored,
          read-lem (set slots l.sindex v) l.sindex (omega (arith, size)),
          get_or-set slots l.sindex l.sindex v 0 inside,
          same,
        )
        refl

  abbrev hits : Selector → Bool
  hits sel = if sel.cookie == current.cookie then not (sel.sindex == no_sindex) else false

  hit-sindex :
      (sel : Selector)
      → IsCoherent object current ls above key sel
      → hits sel ≡ true
      → sel.sindex ≡ l.sindex
  unfolding slot_of
  hit-sindex sel coherent hit = elim (Bool-cases (sel.cookie == current.cookie)) [
    | inl same ↦ elim (Bool-cases (sel.sindex == no_sindex)) [
      | inl above_it ↦ let hit' = rw (same, above_it) at hit in cc
      | inr slotted ↦
          let (at, e, leads) = coherent (eq_of_== sel.cookie current.cookie same) in
          let leads' : some (object.oslots, sel.sindex) ≡ some at = rw slotted at leads in
          let e' : some (object.oslots, l.sindex) ≡ some at = rw (slot_or, there) at e in
          ap (λ q. second q sel.sindex) (leads' ∙ sym e')
    ]
    | inr differs ↦ let hit' = rw differs at hit in cc
  ]
    where
      second : Option (ℕ × ℕ) → ℕ → ℕ
      second none d = d
      second (some (b, i)) d = i

  selects :
      (block : ℕ → ℕ) (sel : Selector)
      → IsCoherent object current ls above key sel
      → (sel' : Selector) × ((if hits sel then ok (sel, vm) else lookup_setsel block vm o key)
          ≡ ok (sel', vm))
        × (sel'.sindex ≡ l.sindex)
  unfolding lookup_setsel
  selects block sel coherent =
      let here = search-layout_of vm key object.layout ls is.parent is.chain is.short in
      elim (Bool-cases (hits sel)) [
        | inl hit ↦ (sel, rw hit refl, hit-sindex sel coherent hit)
        | inr miss ↦ (
          record { cookie = l.cookie; sindex = l.sindex; slot = none },
          rw (miss, is.at, here, there) refl,
          refl,
        )
      ]

  reads_back :
      (v : Value) (sel : Selector)
      → sel.sindex ≡ l.sindex
      → (lookup_getkey (with_value v) o key sel >>= (λ r. ok r.0)) ≡ ok v
  unfolding lookup_getkey lookup_getsel read_selected
  reads_back v sel same =
      let here = search-layout_of (with_value v) key object.layout ls is.parent is.chain is.short in
      elim (Bool-cases (sel.cookie == current.cookie)) [
        | inl hit ↦ rw (is.at, is.has_layout, hit, same, has_slot, read_slot-with_value v) refl
        | inr miss ↦
            rw (is.at, is.has_layout, miss, here, there, has_slot, read_slot-with_value v) refl
      ]

  -- If an object has a key whose slot is in its block, the value is set through any selector that is
  -- coherent with the layout of the object: nothing changes but that slot, and a read through the
  -- selector that is left gives the value.
  pub lookup_setkey-getkey :
      (block : ℕ → ℕ) (sel : Selector) (v : Value)
      → IsCoherent object current ls above key sel
      → (sel' : Selector) × (lookup_setkey block vm o key sel v ≡ ok (sel', with_value v))
        × ((lookup_getkey (with_value v) o key sel' >>= (λ r. ok r.0)) ≡ ok v)
  unfolding lookup_setkey
  lookup_setkey-getkey block sel v coherent =
      let (sel', chosen, same) = selects block sel coherent in
      let written : write_slot vm object.oslots sel'.sindex v ≡ ok (with_value v) =
        rw same (write_slot-with_value v) in
      (sel', rw (is.at, is.has_layout, chosen, is.at, written) refl, reads_back v sel' same)
