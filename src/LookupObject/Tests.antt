-- ===== src/LookupObject/Tests.antt =====
-- Lookup objects at a small input: an object with the key 9, whose prototype has the key 7.
use kenaf.Base.{
  ℕ, ◌<◌, ◌≡◌, ◌≢◌, refl, ap, ◌⊎◌, List, Option, length, get_elem?, set, false, true, [], ◌∷◌, none,
  some, ok, raise, key_error, ◌>>=◌, arith,
}
use kenaf.ArrayObject.{Value}
use kenaf.LookupObject.{Layout, LookupObject, Machine, Selector, no_sindex, search}
use kenaf.LookupObject.Parent.{null_parent, prototype, layout_above}
use kenaf.LookupObject.Methods.{read_slot, lookup_getkey, lookup_haskey, lookup_setkey}
use kenaf.LookupObject.Chain.{
  Chain, at_root, at_key, layout_of, found_or, search-layout_of, Prototypes, no_prototype,
  one_prototype, slot_of,
}
use kenaf.LookupObject.Resolve.{IsObject, IsCoherent, lookup_getkey-slot_of}
use kenaf.LookupObject.Sealed.{sealed-lookup_setkey}
use kenaf.LookupObject.Update.{lookup_setkey-getkey}

abbrev base_root : Layout
base_root = record {
  parent = null_parent;
  key = none;
  cookie = 1;
  sindex = no_sindex;
  next = some 1;
}

abbrev base_7 : Layout
base_7 = record { parent = layout_above 0; key = some 7; cookie = 2; sindex = 0; next = none }

abbrev own_root : Layout
own_root = record {
  parent = prototype 0;
  key = none;
  cookie = 3;
  sindex = no_sindex;
  next = some 3;
}

abbrev own_9 : Layout
own_9 = record { parent = layout_above 2; key = some 9; cookie = 4; sindex = 0; next = none }

abbrev base : LookupObject
base = record { oslots = 0; layout = 1; sealed = true }

abbrev own : LookupObject
own = record { oslots = 1; layout = 3; sealed = false }

abbrev two_objects : Machine
two_objects = record {
  layouts = base_root ∷ base_7 ∷ own_root ∷ own_9 ∷ [];
  objects = base ∷ own ∷ [];
  blocks = (5 ∷ 0 ∷ []) ∷ (6 ∷ 0 ∷ []) ∷ [];
  instance_layouts = λ p. none;
  splitkey_layouts = λ l k. none;
  next_cookie = 4;
}

abbrev unused : Selector
unused = record { cookie = 0; sindex = 0; slot = none }

base-Chain : Chain two_objects.layouts 1 (base_7 ∷ []) null_parent
base-Chain = at_key 0 7 refl refl refl (omega arith) (at_root refl refl)

own-Chain : Chain two_objects.layouts 3 (own_9 ∷ []) (prototype 0)
own-Chain = at_key 2 9 refl refl refl (omega arith) (at_root refl refl)

own-Prototypes : Prototypes two_objects (prototype 0) ((0, base_7 ∷ []) ∷ [])
own-Prototypes = one_prototype null_parent refl base-Chain (omega arith) no_prototype

own-IsObject : IsObject two_objects 1 own own_9 (own_9 ∷ []) ((0, base_7 ∷ []) ∷ [])
own-IsObject = record {
  parent = prototype 0;
  at = refl;
  has_layout = refl;
  chain = own-Chain;
  short = omega arith;
  prototypes = own-Prototypes;
  few = omega arith;
}

base-IsObject : IsObject two_objects 0 base base_7 (base_7 ∷ []) []
base-IsObject = record {
  parent = null_parent;
  at = refl;
  has_layout = refl;
  chain = base-Chain;
  short = omega arith;
  prototypes = no_prototype;
  few = omega arith;
}

unused-IsCoherent : (key : ℕ) → IsCoherent own own_9 (own_9 ∷ []) ((0, base_7 ∷ []) ∷ []) key unused
unused-IsCoherent key e = absurd (omega arith)

search-layout_of_example :
    search two_objects 7 3 ≡ ok (found_or (layout_of 7 (own_9 ∷ [])) (prototype 0))
search-layout_of_example =
    search-layout_of two_objects 7 3 (own_9 ∷ []) (prototype 0) own-Chain (omega arith)

-- The key 7 is in the prototype.
lookup_getkey-slot_of_example :
    ((slot_of 7 ((1, own_9 ∷ []) ∷ (0, base_7 ∷ []) ∷ []) ≡ none)
      × (lookup_getkey two_objects 1 7 unused ≡ raise key_error))
    ⊎ ((at : ℕ × ℕ) × (slot_of 7 ((1, own_9 ∷ []) ∷ (0, base_7 ∷ []) ∷ []) ≡ some at)
        × ((v : Value)
            → read_slot two_objects at.0 at.1 ≡ ok v
            → (sel' : Selector) × (lookup_getkey two_objects 1 7 unused ≡ ok (v, sel'))
              × IsCoherent own own_9 (own_9 ∷ []) ((0, base_7 ∷ []) ∷ []) 7 sel'))
lookup_getkey-slot_of_example =
    lookup_getkey-slot_of two_objects 1 own own_9 (own_9 ∷ []) ((0, base_7 ∷ []) ∷ []) own-IsObject
      7 unused (unused-IsCoherent 7)

-- The same object, sealed, and a selector that leads to the key of its prototype
abbrev sealed_own : LookupObject
sealed_own = record { oslots = 1; layout = 3; sealed = true }

abbrev sealed_objects : Machine
sealed_objects = record two_objects { objects = base ∷ sealed_own ∷ [] }

abbrev inherited : Selector
inherited = record { cookie = 4; sindex = no_sindex; slot = some (0, 0) }

sealed_own-IsObject :
    IsObject sealed_objects 1 sealed_own own_9 (own_9 ∷ []) ((0, base_7 ∷ []) ∷ [])
sealed_own-IsObject = record {
  parent = prototype 0;
  at = refl;
  has_layout = refl;
  chain = own-Chain;
  short = omega arith;
  prototypes = one_prototype null_parent refl base-Chain (omega arith) no_prototype;
  few = omega arith;
}

inherited-IsCoherent : IsCoherent sealed_own own_9 (own_9 ∷ []) ((0, base_7 ∷ []) ∷ []) 7 inherited
unfolding slot_of layout_of
inherited-IsCoherent e = ((0, 0), refl, refl)

own_block-apart : (at : ℕ × ℕ) → slot_of 7 ((0, base_7 ∷ []) ∷ []) ≡ some at → at.0 ≢ 1
unfolding slot_of layout_of
own_block-apart at e same = let e' : 0 ≡ at.0 = ap (block_or 1) e in omega arith
  where
    block_or : ℕ → Option (ℕ × ℕ) → ℕ
    block_or d none = d
    block_or d (some (b, i)) = b

sealed-lookup_setkey_example :
    (lookup_haskey sealed_objects 1 7 ≡ ok false)
      × (lookup_setkey (λ n. n) sealed_objects 1 7 inherited 8 ≡ raise key_error)
    ⊎ ((l : Layout) × (lookup_haskey sealed_objects 1 7 ≡ ok true)
        × (layout_of 7 (own_9 ∷ []) ≡ some l)
        × ((slots : List Value)
            → get_elem? sealed_objects.blocks 1 ≡ some slots
            → l.sindex < length slots
            → let vm' : Machine = record sealed_objects {
              blocks = set sealed_objects.blocks 1 (set slots l.sindex 8);
            } in
              (sel' : Selector) × (lookup_setkey (λ n. n) sealed_objects 1 7 inherited 8
                ≡ ok (sel', vm'))
              × ((lookup_getkey vm' 1 7 sel' >>= (λ r. ok r.0)) ≡ ok 8)))
sealed-lookup_setkey_example =
    sealed-lookup_setkey sealed_objects 1 sealed_own own_9 (own_9 ∷ []) ((0, base_7 ∷ []) ∷ [])
      sealed_own-IsObject 7 own_block-apart (λ n. n) inherited 8 refl inherited-IsCoherent

has_9 : layout_of 9 (own_9 ∷ []) ≡ some own_9
unfolding layout_of
has_9 = refl

lookup_setkey-getkey_example :
    (sel' : Selector) × (lookup_setkey (λ n. n) two_objects 1 9 unused 8
      ≡ ok (sel', record two_objects { blocks = (5 ∷ 0 ∷ []) ∷ (8 ∷ 0 ∷ []) ∷ [] }))
    × ((lookup_getkey (record two_objects { blocks = (5 ∷ 0 ∷ []) ∷ (8 ∷ 0 ∷ []) ∷ [] }) 1 9 sel'
          >>= (λ r. ok r.0))
        ≡ ok 8)
lookup_setkey-getkey_example =
    lookup_setkey-getkey two_objects 1 own own_9 (own_9 ∷ []) ((0, base_7 ∷ []) ∷ []) own-IsObject 9
      own_9 has_9 (6 ∷ 0 ∷ []) refl (omega arith) (λ n. n) unused 8 (unused-IsCoherent 9)
