-- ===== src/LookupObject/Sealed.antt =====
-- Writes to a sealed object, `lookup_setkey` of source/runtime/objects/lookup_object.h.
use kenaf.Base.{
  ℕ, ◌<◌, ◌≡◌, ◌≢◌, refl, sym, ap, inl, inr, ◌⊎◌, true, false, not, List, Option, none, some, ok,
  raise, key_error, ◌>>=◌, ◌==◌, if◌then◌else◌, Bool-cases, eq_of_==, length, get_elem?, set,
}
use kenaf.ArrayObject.{Value}
use kenaf.LookupObject.{Layout, LookupObject, Machine, Selector, no_sindex}
use kenaf.LookupObject.Methods.{lookup_getkey, lookup_haskey, lookup_setsel, lookup_setkey}
use kenaf.LookupObject.Chain.{layout_of, found_or, search-layout_of, slot_or, slot_of}
use kenaf.LookupObject.Resolve.{IsObject, IsCoherent, lookup_haskey-layout_of}
use kenaf.LookupObject.Update.{lookup_setkey-getkey}

module _ (vm : Machine) (o : ℕ) (object : LookupObject) (current : Layout) (ls : List Layout)
    (above : List (ℕ × List Layout)) (is : IsObject vm o object current ls above) (key : ℕ)
    (apart : (at : ℕ × ℕ) → slot_of key above ≡ some at → at.0 ≢ object.oslots) where
  -- A coherent selector names no slot of the object for a key that only a prototype has.
  absent-misses :
      (sel : Selector)
      → IsCoherent object current ls above key sel
      → layout_of key ls ≡ none
      → (if sel.cookie == current.cookie then not (sel.sindex == no_sindex) else false) ≡ false
  unfolding slot_of
  absent-misses sel coherent absent = elim (Bool-cases (sel.cookie == current.cookie)) [
    | inr differs ↦ rw differs refl
    | inl same ↦ elim (Bool-cases (sel.sindex == no_sindex)) [
      | inl above_it ↦ rw (same, above_it) refl
      | inr slotted ↦
          let (at, there, leads) = coherent (eq_of_== sel.cookie current.cookie same) in
          let leads' : some (object.oslots, sel.sindex) ≡ some at = rw slotted at leads in
          let there' : slot_of key above ≡ some at = rw (slot_or, absent) at there in
          absurd (apart at there' (sym (ap (λ q. block_or q object.oslots) leads')))
    ]
  ]
    where
      block_or : Option (ℕ × ℕ) → ℕ → ℕ
      block_or none d = d
      block_or (some (b, i)) d = b

  -- A sealed object takes values for the keys that `lookup_haskey` finds in it and no others. No
  -- prototype keeps the key in the block of the object, and the selector is any that is coherent with
  -- the layout of the object, also one that leads to the key of a prototype. If the object does not
  -- have the key, `lookup_setkey` raises a key error. If it does, and the slot of the key is in its
  -- block, `lookup_setkey` changes that slot and nothing else, so no key is added, and a read through
  -- the selector that is left gives the value.
  pub sealed-lookup_setkey :
      (block : ℕ → ℕ) (sel : Selector) (v : Value)
      → object.sealed ≡ true
      → IsCoherent object current ls above key sel
      → (lookup_haskey vm o key ≡ ok false) × (lookup_setkey block vm o key sel v ≡ raise key_error)
        ⊎ ((l : Layout) × (lookup_haskey vm o key ≡ ok true)
            × (layout_of key ls ≡ some l)
            × ((slots : List Value)
                → get_elem? vm.blocks object.oslots ≡ some slots
                → l.sindex < length slots
                → let vm' : Machine = record vm {
                  blocks = set vm.blocks object.oslots (set slots l.sindex v);
                } in
                  (sel' : Selector) × (lookup_setkey block vm o key sel v ≡ ok (sel', vm'))
                  × ((lookup_getkey vm' o key sel' >>= (λ r. ok r.0)) ≡ ok v)))
  unfolding lookup_setkey lookup_setsel
  sealed-lookup_setkey block sel v sealed coherent =
      elim (lookup_haskey-layout_of vm o object current ls above is key) [
        | inl (has, absent) ↦
            let here = search-layout_of vm key object.layout ls is.parent is.chain is.short in
            let miss = absent-misses sel coherent absent in
            inl (has, rw (is.at, is.has_layout, miss, here, absent, found_or, sealed) refl)
        | inr (l, has, there) ↦ inr (
          l,
          has,
          there,
          λ slots stored inside.
              lookup_setkey-getkey vm o object current ls above is key l there slots stored inside
                block sel v coherent,
        )
      ]
