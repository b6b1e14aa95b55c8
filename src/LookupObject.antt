-- ===== src/LookupObject.antt =====
-- Lookup objects, source/runtime/objects/lookup_object.cpp and lookup_object.h. An object or a layout
-- is its position in the list of all of them, in the order in which they are made, and a key is the
-- identity of its interned string; the flag of a key is not kept, since every string here is one. The
-- maps of the machine are functions. `block` gives the size of a block of slots, as
-- `object_size` reports it. A loop over parents has one step more than there are layouts or
-- objects. An error that is thrown leaves no state.
pub mod Methods
pub mod Chain
pub mod Resolve
pub mod Update
pub mod Sealed
mod Tests
use kenaf.Base.{
  ℕ, zero, suc, ◌+◌, ◌-◌, ◌*◌, ◌/◌, ◌%◌, Bool, true, false, ◌&&◌, not, List, [], ◌∷◌, ◌++◌, Option,
  none, some, Run, ok, raise, fault, runtime_error, ◌>>=◌, ◌>>◌, check_assert, deref, ltb, leb,
  ◌==◌, if◌then◌else◌, length, get_elem?, set,
}
use kenaf.ArrayObject.{Value, vslots_new, copy_loop}

-- The `parent` of a layout: null, an object that is a prototype, or a layout
pub data Parent : Type 0 where
  null_parent : Parent
  prototype : ℕ → Parent
  layout_above : ℕ → Parent

-- `layout_object`
pub record Layout : Type 0 where
  pub parent : Parent
  pub key : Option ℕ
  pub cookie : ℕ
  pub sindex : ℕ
  pub next : Option ℕ

-- `lookup_object`, with its flag
pub record LookupObject : Type 0 where
  pub oslots : ℕ
  pub layout : ℕ
  pub sealed : Bool

-- What the objects use of `vmachine`
pub record Machine : Type 0 where
  pub layouts : List Layout
  pub objects : List LookupObject
  pub blocks : List (List Value)
  pub instance_layouts : Option ℕ → Option ℕ
  pub splitkey_layouts : ℕ → ℕ → Option ℕ
  pub next_cookie : ℕ

-- `selector`; a slot is a position in a block.
pub record Selector : Type 0 where
  pub cookie : ℕ
  pub sindex : ℕ
  pub slot : Option (ℕ × ℕ)

-- `~(uint32_t)0`
abbrev pub no_sindex : ℕ
no_sindex = 4294967295

-- `layout->sindex + 1`
abbrev pub following : ℕ → ℕ
following sindex = (sindex + 1) % 4294967296

abbrev pub layout_at : Machine → ℕ → Run Layout
layout_at vm i = deref (get_elem? vm.layouts i)

abbrev pub object_at : Machine → ℕ → Run LookupObject
object_at vm i = deref (get_elem? vm.objects i)

abbrev pub block_at : Machine → ℕ → Run (List Value)
block_at vm i = deref (get_elem? vm.blocks i)

abbrev pub same_key : Option ℕ → ℕ → Bool
same_key none key = false
same_key (some k) key = k == key

-- `instance_layouts.insert_or_assign`
abbrev pub assign_instance : (Option ℕ → Option ℕ) → Option ℕ → ℕ → Option ℕ → Option ℕ
assign_instance f none i none = some i
assign_instance f none i (some q) = f (some q)
assign_instance f (some p) i none = f none
assign_instance f (some p) i (some q) = if q == p then some i else f (some q)

-- `splitkey_layouts.insert_or_assign`
abbrev pub assign_splitkey : (ℕ → ℕ → Option ℕ) → ℕ → ℕ → ℕ → ℕ → ℕ → Option ℕ
assign_splitkey f layout key i l k = if l == layout && k == key then some i else f l k

-- The `lookup_object` that a parent without a key is cast to
abbrev pub as_prototype : Parent → Run (Option ℕ)
as_prototype null_parent = ok none
as_prototype (prototype o) = ok (some o)
as_prototype (layout_above l) = fault

-- A layout that follows another one, whose `next` it becomes if that is still null
unfoldable pub layout_add : Machine → ℕ → ℕ → ℕ → Run (ℕ × Machine)
layout_add vm cookie parent key = do
  parent_layout ← layout_at vm parent
  let sindex = following parent_layout.sindex
  let i = length vm.layouts
  let layout : Layout = record {
    parent = layout_above parent;
    key = some key;
    cookie = cookie;
    sindex = sindex;
    next = none;
  }
  if sindex == no_sindex then raise runtime_error else elim parent_layout.next [
    | none ↦ ok (
      i,
      record vm {
        layouts = set vm.layouts parent (record parent_layout { next = some i }) ++ layout ∷ [];
        next_cookie = cookie;
      },
    )
    | some _ ↦ ok (
      i,
      record vm {
        layouts = vm.layouts ++ layout ∷ [];
        splitkey_layouts = assign_splitkey vm.splitkey_layouts parent key i;
        next_cookie = cookie;
      },
    )
  ]

-- The assertions on the prototype of a layout without a key
unfoldable pub check_sealed : Machine → Option ℕ → Run (Unit {0})
check_sealed vm none = ok tt
check_sealed vm (some o) = object_at vm o >>= (λ object. check_assert object.sealed)

abbrev pub parent_of : Option ℕ → Parent
parent_of none = null_parent
parent_of (some o) = prototype o

-- A layout without a key
unfoldable pub layout_root : Machine → ℕ → Option ℕ → Run (ℕ × Machine)
layout_root vm cookie parent = do
  check_sealed vm parent
  let i = length vm.layouts
  let layout : Layout = record {
    parent = parent_of parent;
    key = none;
    cookie = cookie;
    sindex = no_sindex;
    next = none;
  }
  ok (
    i,
    record vm {
      layouts = vm.layouts ++ layout ∷ [];
      instance_layouts = assign_instance vm.instance_layouts parent i;
      next_cookie = cookie;
    },
  )

-- `layout_new`, given what follows for the cookie
unfoldable pub layout_new : Machine → (ℕ → Run (ℕ × Machine)) → Run (ℕ × Machine)
layout_new vm make =
    let cookie = (vm.next_cookie + 1) % 4294967296 in
    if cookie == 0 then raise runtime_error else make cookie

-- `next_layout`
unfoldable pub next_layout : Machine → ℕ → ℕ → Run (ℕ × Machine)
next_layout vm layout key = do
  from ← layout_at vm layout
  followed ← elim from.next [
    | none ↦ ok none
    | some i ↦ layout_at vm i >>= (λ l. ok (if same_key l.key key then some i else none))
  ]
  (i, vm') ← elim followed [
    | some i ↦ ok (i, vm)
    | none ↦ elim (vm.splitkey_layouts layout key) [
      | some i ↦ ok (i, vm)
      | none ↦ layout_new vm (λ cookie. layout_add vm cookie layout key)
    ]
  ]
  to ← layout_at vm' i
  check_assert (to.sindex == following from.sindex)
  ok (i, vm')

-- What a search along the parents of a layout ends with: the layout of the key, or the parent of
-- the layout without a key
pub data Found : Type 0 where
  found : Layout → Found
  root : Parent → Found

-- `layout = layout->parent`
abbrev pub go_up : Parent → (ℕ → Run Found) → Run Found
go_up null_parent again = fault
go_up (prototype _) again = fault
go_up (layout_above i) again = again i

-- One round of the search, at a layout with or without a key
abbrev pub search_step : Option ℕ → Layout → ℕ → (ℕ → Run Found) → Run Found
search_step none layout key again = ok (root layout.parent)
search_step (some k) layout key again = elim (k == key) [
  | true ↦ ok (found layout)
  | false ↦ go_up layout.parent again
]

-- `while ( string_object* layout_key = read( layout->key ) )`
unfoldable pub search_loop : ℕ → Machine → ℕ → ℕ → Run Found
search_loop zero vm key i = fault
search_loop (suc n) vm key i = do
  layout ← layout_at vm i
  search_step layout.key layout key (search_loop n vm key)

unfoldable pub search : Machine → ℕ → ℕ → Run Found
search vm key i = search_loop (suc (length vm.layouts)) vm key i

-- `while ( true )`: the slot of the key in the nearest prototype that has it
unfoldable pub prototype_loop : ℕ → Machine → ℕ → Parent → Run (Option (ℕ × ℕ))
prototype_loop zero vm key parent = fault
prototype_loop (suc n) vm key parent = do
  above ← as_prototype parent
  elim above [
    | none ↦ ok none
    | some o ↦ do
      object ← object_at vm o
      result ← search vm key object.layout
      elim result [
        | found layout ↦ ok (some (object.oslots, layout.sindex))
        | root parent' ↦ prototype_loop n vm key parent'
      ]
  ]

module _ (block : ℕ → ℕ) where
  -- The slots of an object in a larger block, if its layout has more than the block
  unfoldable pub make_room : Machine → LookupObject → ℕ → Run (ℕ × Machine)
  make_room vm object sindex = do
    oslots ← block_at vm object.oslots
    let count = length oslots
    let twice = count * 2
    let larger = vslots_new block (if leb 16 count then twice - count / 2 else twice)
    if ltb sindex count then ok (object.oslots, vm) else do
      expand ← copy_loop count 0 0 oslots larger
      ok (length vm.blocks, record vm { blocks = vm.blocks ++ expand ∷ [] })

  -- `update_layout`
  unfoldable pub update_layout : Machine → ℕ → ℕ → ℕ → Run (Layout × Machine)
  update_layout vm o layout key = do
    (i, next) ← next_layout vm layout key
    to ← layout_at next i
    object ← object_at next o
    (oslots, roomy) ← make_room next object to.sindex
    ok (
      to,
      record roomy {
        objects = set roomy.objects o (record object { oslots = oslots; layout = i });
      },
    )
