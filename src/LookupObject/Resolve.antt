-- ===== src/LookupObject/Resolve.antt =====
-- The values that keys have in a lookup object and its prototypes, with the cache of the selectors,
-- source/runtime/objects/lookup_object.cpp and lookup_object.h.
use kenaf.Base.{
  ℕ, suc, ◌≤◌, ◌≡◌, refl, ap, inl, inr, ◌⊎◌, true, false, List, [], ◌∷◌, Option, none, some, Run,
  ok, raise, fault, key_error, ◌==◌, if◌then◌else◌, arith, Bool-cases, Option-cases, eq_of_==,
  length, get_elem?,
}
use kenaf.ArrayObject.{Value}
use kenaf.LookupObject.{Parent, Layout, LookupObject, Machine, Selector, no_sindex, same_key}
use kenaf.LookupObject.Methods.{
  read_slot, lookup_getsel, read_selected, lookup_getkey, lookup_haskey,
}
use kenaf.LookupObject.Chain.{
  Chain, at_key, layout_of, found_or, search-layout_of, Prototypes, slot_or, slot_of,
  prototype_loop-slot_of,
}

-- The object, its layout, the layouts of its keys, and its prototypes with theirs
pub record IsObject (vm : Machine) (o : ℕ) (object : LookupObject) (current : Layout)
    (ls : List Layout) (above : List (ℕ × List Layout)) : Type 0 where
  pub parent : Parent
  pub at : get_elem? vm.objects o ≡ some object
  pub has_layout : get_elem? vm.layouts object.layout ≡ some current
  pub chain : Chain vm.layouts object.layout ls parent
  pub short : length ls ≤ length vm.layouts
  pub prototypes : Prototypes vm parent above
  pub few : length above ≤ length vm.objects

-- The slot that a selector leads to
abbrev pub target : Selector → ℕ → Option (ℕ × ℕ)
target sel oslots = if sel.sindex == no_sindex then sel.slot else some (oslots, sel.sindex)

-- A selector with the cookie of the layout leads to the slot of the key.
abbrev pub IsCoherent :
    LookupObject → Layout → List Layout → List (ℕ × List Layout) → ℕ → Selector → Type 0
IsCoherent object current ls above key sel =
    sel.cookie ≡ current.cookie
    → (at : ℕ × ℕ) × (slot_of key ((object.oslots, ls) ∷ above) ≡ some at)
      × (target sel object.oslots ≡ some at)

pub layout_of-has_slot :
    (layouts : List Layout) (i key : ℕ) (ls : List Layout) (p : Parent) (l : Layout)
    → Chain layouts i ls p
    → layout_of key ls ≡ some l
    → (l.sindex == no_sindex) ≡ false
unfolding layout_of
layout_of-has_slot layouts i key [] p l c e = cc
layout_of-has_slot layouts i key (l' ∷ ls) p l (at_key j k at keyed above has c) e =
    elim (Bool-cases (same_key l'.key key)) [
      | inl this ↦
          let e' : some l' ≡ some l = rw this at e in
          let same : l' ≡ l = cc in rw⁻¹ same (ground arith)
      | inr other ↦ layout_of-has_slot layouts j key ls p l c (rw other at e)
    ]

abbrev read_at : Machine → Option (ℕ × ℕ) → Run Value
read_at vm none = fault
read_at vm (some (b, i)) = read_slot vm b i

read_selected-target :
    (vm : Machine) (oslots : ℕ) (sel : Selector) (b i : ℕ)
    → target sel oslots ≡ some (b, i)
    → read_selected vm oslots sel ≡ read_slot vm b i
unfolding read_selected
read_selected-target vm oslots sel b i e = elim (Bool-cases (sel.sindex == no_sindex)) [
  | inl above ↦ let e' : sel.slot ≡ some (b, i) = rw above at e in rw (above, e') refl
  | inr own ↦
      let e' : some (oslots, sel.sindex) ≡ some (b, i) = rw own at e in rw own (ap (read_at vm) e')
]

module _ (vm : Machine) (o : ℕ) (object : LookupObject) (current : Layout) (ls : List Layout)
    (above : List (ℕ × List Layout)) (is : IsObject vm o object current ls above) (key : ℕ) where
  abbrev all : List (ℕ × List Layout)
  all = (object.oslots, ls) ∷ above

  -- The search for a selector finds the slot of the key, or there is none.
  lookup_getsel-slot_of :
      ((slot_of key all ≡ none) × (lookup_getsel vm o key ≡ ok none))
      ⊎ ((at : ℕ × ℕ) × (sel : Selector) × (slot_of key all ≡ some at)
          × (lookup_getsel vm o key ≡ ok (some sel))
          × (target sel object.oslots ≡ some at))
  unfolding lookup_getsel slot_of
  lookup_getsel-slot_of =
      let here = search-layout_of vm key object.layout ls is.parent is.chain is.short in
      let up =
        prototype_loop-slot_of (suc (length vm.objects)) vm key is.parent above is.prototypes
          (omega (arith, is.few)) in
      elim (Option-cases (layout_of key ls)) [
        | inr (l, there) ↦
            let has =
              layout_of-has_slot vm.layouts object.layout key ls is.parent l is.chain there in
            inr (
              (object.oslots, l.sindex),
              record { cookie = current.cookie; sindex = l.sindex; slot = none },
              (rw (slot_or, there) refl),
              (rw (is.at, is.has_layout, here, there) refl),
              (rw has refl),
            )
        | inl absent ↦ elim (Option-cases (slot_of key above)) [
          | inl nowhere ↦ inl (
            (rw (slot_or, absent) nowhere),
            (rw (is.at, is.has_layout, here, absent, found_or, up, nowhere) refl),
          )
          | inr (at, there) ↦ inr (
            at,
            record { cookie = current.cookie; sindex = no_sindex; slot = some at },
            (rw (slot_or, absent) there),
            (rw (is.at, is.has_layout, here, absent, found_or, up, there) refl),
            refl,
          )
        ]
      ]

  -- A key is read from the first of the object and its prototypes that has it, through any selector
  -- that is coherent with the layout of the object: if none has it, the read raises a key error, and
  -- if that slot can be read, its value is returned, and the selector that is left is coherent too.
  pub lookup_getkey-slot_of :
      (sel : Selector)
      → IsCoherent object current ls above key sel
      → ((slot_of key all ≡ none) × (lookup_getkey vm o key sel ≡ raise key_error))
        ⊎ ((at : ℕ × ℕ) × (slot_of key all ≡ some at)
            × ((v : Value)
                → read_slot vm at.0 at.1 ≡ ok v
                → (sel' : Selector) × (lookup_getkey vm o key sel ≡ ok (v, sel'))
                  × IsCoherent object current ls above key sel'))
  unfolding lookup_getkey
  lookup_getkey-slot_of sel coherent = elim (Bool-cases (sel.cookie == current.cookie)) [
    | inl hit ↦
        let (at, there, leads) = coherent (eq_of_== sel.cookie current.cookie hit) in
        inr (
          at,
          there,
          λ v e. (
            sel,
            (rw
                (
                  is.at,
                  is.has_layout,
                  hit,
                  read_selected-target vm object.oslots sel at.0 at.1 leads,
                  e,
                )
                refl),
            coherent,
          ),
        )
    | inr miss ↦ elim lookup_getsel-slot_of [
      | inl (nowhere, none_found) ↦ inl (nowhere, rw (is.at, is.has_layout, miss, none_found) refl)
      | inr (at, sel', there, finds, leads) ↦ inr (
        at,
        there,
        λ v e. (
          sel',
          (rw
              (
                is.at,
                is.has_layout,
                miss,
                finds,
                read_selected-target vm object.oslots sel' at.0 at.1 leads,
                e,
              )
              refl),
          λ same. (at, there, leads),
        ),
      )
    ]
  ]

  -- An object has a key exactly if one of its own layouts does.
  pub lookup_haskey-layout_of :
      (lookup_haskey vm o key ≡ ok false) × (layout_of key ls ≡ none)
      ⊎ ((l : Layout) × (lookup_haskey vm o key ≡ ok true) × (layout_of key ls ≡ some l))
  unfolding lookup_haskey
  lookup_haskey-layout_of =
      let here = search-layout_of vm key object.layout ls is.parent is.chain is.short in
      elim (Option-cases (layout_of key ls)) [
        | inl absent ↦ inl ((rw (is.at, here, absent) refl), absent)
        | inr (l, there) ↦ inr (l, (rw (is.at, here, there) refl), there)
      ]
