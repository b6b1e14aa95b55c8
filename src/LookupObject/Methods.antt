-- ===== src/LookupObject/Methods.antt =====
-- The operations of source/runtime/objects/lookup_object.cpp and lookup_object.h.
use kenaf.Base.{
  ℕ, zero, suc, ◌+◌, ◌%◌, Bool, true, false, not, List, [], ◌∷◌, ◌++◌, Option, none, some, Run, ok,
  raise, fault, key_error, ◌>>=◌, ◌>>◌, check_assert, ltb, ◌==◌, if◌then◌else◌, length, set,
}
use kenaf.ArrayObject.{Value, read, write, vslots_new}
use kenaf.LookupObject.{
  LookupObject, Machine, Selector, found, root, no_sindex, following, layout_at, object_at,
  block_at, assign_instance, as_prototype, layout_new, layout_root, next_layout, search,
  prototype_loop, update_layout,
}
use kenaf.LookupObject.Parent.{null_parent, prototype, layout_above}

-- `read( read( object->oslots )->slots[ i ] )`
unfoldable pub read_slot : Machine → ℕ → ℕ → Run Value
read_slot vm b i = do slots ← block_at vm b; read slots i

-- `write( vm, read( object->oslots )->slots[ i ], v )`
unfoldable pub write_slot : Machine → ℕ → ℕ → Value → Run Machine
write_slot vm b i v = do
  slots ← block_at vm b
  slots' ← write slots i v
  ok (record vm { blocks = set vm.blocks b slots' })

-- `lookup_seal`
unfoldable pub lookup_seal : Machine → ℕ → Run Machine
lookup_seal vm o = do
  object ← object_at vm o
  ok (record vm { objects = set vm.objects o (record object { sealed = true }) })

-- `lookup_sealed`
unfoldable pub lookup_sealed : Machine → ℕ → Run Bool
lookup_sealed vm o = do object ← object_at vm o; ok object.sealed

-- `while ( read( layout->key ) )`
unfoldable pub root_loop : ℕ → Machine → ℕ → Run (Option ℕ)
root_loop zero vm i = fault
root_loop (suc n) vm i = do
  layout ← layout_at vm i
  elim layout.key [
    | none ↦ as_prototype layout.parent
    | some _ ↦ elim layout.parent [
      | null_parent ↦ fault
      | prototype _ ↦ fault
      | layout_above j ↦ root_loop n vm j
    ]
  ]

-- `lookup_prototype`
unfoldable pub lookup_prototype : Machine → ℕ → Run (Option ℕ)
lookup_prototype vm o = do
  object ← object_at vm o
  root_loop (suc (length vm.layouts)) vm object.layout

-- `lookup_getkeyslot`
unfoldable pub lookup_getkeyslot : Machine → ℕ → ℕ → Run Value
lookup_getkeyslot vm o index = do
  object ← object_at vm o
  layout ← layout_at vm object.layout
  if ltb index (following layout.sindex) then read_slot vm object.oslots index else raise key_error

-- `lookup_setkeyslot`
unfoldable pub lookup_setkeyslot : Machine → ℕ → ℕ → Value → Run Machine
lookup_setkeyslot vm o index v = do
  object ← object_at vm o
  layout ← layout_at vm object.layout
  if ltb index (following layout.sindex)
      then write_slot vm object.oslots index v
      else raise key_error

-- `lookup_getsel`: none where it returns false, which leaves the selector
unfoldable pub lookup_getsel : Machine → ℕ → ℕ → Run (Option Selector)
lookup_getsel vm o key = do
  object ← object_at vm o
  lookup_layout ← layout_at vm object.layout
  result ← search vm key object.layout
  elim result [
    | found layout ↦
        ok (some (record { cookie = lookup_layout.cookie; sindex = layout.sindex; slot = none }))
    | root parent ↦ do
      slot ← prototype_loop (suc (length vm.objects)) vm key parent
      ok (elim slot [
        | none ↦ none
        | some at ↦
            some (record { cookie = lookup_layout.cookie; sindex = no_sindex; slot = some at })
      ])
  ]

-- The value that a selector leads to
unfoldable pub read_selected : Machine → ℕ → Selector → Run Value
read_selected vm oslots sel =
    if sel.sindex == no_sindex
    then (elim sel.slot [ none ↦ fault | some (b, i) ↦ read_slot vm b i ])
    else read_slot vm oslots sel.sindex

-- `lookup_getkey`
unfoldable pub lookup_getkey : Machine → ℕ → ℕ → Selector → Run (Value × Selector)
lookup_getkey vm o key sel = do
  object ← object_at vm o
  layout ← layout_at vm object.layout
  selected ← if sel.cookie == layout.cookie then ok (some sel) else lookup_getsel vm o key
  elim selected [
    | none ↦ raise key_error
    | some sel' ↦ read_selected vm object.oslots sel' >>= (λ v. ok (v, sel'))
  ]

-- `lookup_haskey`
unfoldable pub lookup_haskey : Machine → ℕ → ℕ → Run Bool
lookup_haskey vm o key = do
  object ← object_at vm o
  result ← search vm key object.layout
  ok (elim result [ found _ ↦ true | root _ ↦ false ])

-- `surviving_keys`, the last one first, and the layout under that of the deleted key; none if the
-- key is not found
unfoldable pub rewind_loop : ℕ → Machine → ℕ → ℕ → List (ℕ × ℕ) → Run (Option (ℕ × List (ℕ × ℕ)))
rewind_loop zero vm key i surviving = fault
rewind_loop (suc n) vm key i surviving = do
  layout ← layout_at vm i
  elim layout.key [
    | none ↦ ok none
    | some k ↦ elim layout.parent [
      | null_parent ↦ fault
      | prototype _ ↦ fault
      | layout_above j ↦ elim (k == key) [
        | true ↦ ok (some (j, surviving))
        | false ↦ rewind_loop n vm key j ((k, layout.sindex) ∷ surviving)
      ]
    ]
  ]

-- The loop that adds the surviving keys again
unfoldable pub readd_loop : List (ℕ × ℕ) → Machine → ℕ → ℕ → Run (ℕ × Machine)
readd_loop [] vm b layout = ok (layout, vm)
readd_loop ((key, sindex) ∷ surviving) vm b layout = do
  (i, vm') ← next_layout vm layout key
  to ← layout_at vm' i
  check_assert (to.sindex == (sindex + 4294967295) % 4294967296)
  v ← read_slot vm' b sindex
  vm'' ← write_slot vm' b to.sindex v
  readd_loop surviving vm'' b i

-- `lookup_delkey`
unfoldable pub lookup_delkey : Machine → ℕ → ℕ → Run Machine
lookup_delkey vm o key = do
  object ← object_at vm o
  rewound ←
      if object.sealed
      then raise key_error
      else rewind_loop (suc (length vm.layouts)) vm key object.layout []
  elim rewound [
    | none ↦ ok vm
    | some (layout, surviving) ↦ do
      (i, vm') ← readd_loop surviving vm object.oslots layout
      object' ← object_at vm' o
      ok (record vm' { objects = set vm'.objects o (record object' { layout = i }) })
  ]

-- The prototype is sealed, if there is one.
unfoldable pub seal_prototype : Machine → Option ℕ → Run Machine
seal_prototype vm none = ok vm
seal_prototype vm (some o) = lookup_seal vm o

module _ (block : ℕ → ℕ) where
  -- `lookup_new`
  unfoldable pub lookup_new : Machine → Option ℕ → Run (ℕ × Machine)
  lookup_new vm above = do
    sealed ← seal_prototype vm above
    (i, vm') ← elim (sealed.instance_layouts above) [
      | some i ↦ ok (i, sealed)
      | none ↦ do
        (i, made) ← layout_new sealed (λ cookie. layout_root sealed cookie above)
        ok (i, record made { instance_layouts = assign_instance made.instance_layouts above i })
    ]
    let object : LookupObject = record { oslots = length vm'.blocks; layout = i; sealed = false }
    ok (
      length vm'.objects,
      record vm' {
        objects = vm'.objects ++ object ∷ [];
        blocks = vm'.blocks ++ vslots_new block 4 ∷ [];
      },
    )

  -- `lookup_addkeyslot`, given the key of its text
  unfoldable pub lookup_addkeyslot : Machine → ℕ → ℕ → ℕ → Run Machine
  lookup_addkeyslot vm o index key = do
    object ← object_at vm o
    layout ← if object.sealed then raise key_error else layout_at vm object.layout
    added ←
        if index == following layout.sindex
        then update_layout block vm o object.layout key
        else raise key_error
    check_assert (added.0.sindex == index)
    ok added.1

  -- `lookup_setsel`
  unfoldable pub lookup_setsel : Machine → ℕ → ℕ → Run (Selector × Machine)
  lookup_setsel vm o key = do
    object ← object_at vm o
    result ← search vm key object.layout
    elim result [
      | found layout ↦
          ok (record { cookie = layout.cookie; sindex = layout.sindex; slot = none }, vm)
      | root _ ↦ do
        (layout, vm') ←
            if object.sealed then raise key_error else update_layout block vm o object.layout key
        ok (record { cookie = layout.cookie; sindex = layout.sindex; slot = none }, vm')
    ]

  -- `lookup_setkey`
  unfoldable pub lookup_setkey : Machine → ℕ → ℕ → Selector → Value → Run (Selector × Machine)
  lookup_setkey vm o key sel v = do
    object ← object_at vm o
    layout ← layout_at vm object.layout
    let hit = if sel.cookie == layout.cookie then not (sel.sindex == no_sindex) else false
    (sel', vm') ← if hit then ok (sel, vm) else lookup_setsel vm o key
    object' ← object_at vm' o
    vm'' ← write_slot vm' object'.oslots sel'.sindex v
    ok (sel', vm'')
