-- ===== src/Components/Sets.antt =====
-- Sets of components, as hash tables with linear probing: resources/components/set.c.
use lcfg_core.Common.{
  ℕ, zero, suc, ◌+◌, ◌-◌, ◌%◌, Bool, true, false, not, Option, none, some, [], Bytes, or_default,
  ltb, ◌==◌, if◌then◌else◌, update, Change, change_error, change_none, change_added,
  change_modified, change_replaced, change_ok, unchanged, probe,
}
use lcfg_core.Derivation.{u32}
use lcfg_core.Components
use lcfg_core.Utils.Hash.{u64, djbhash}
use lcfg_core.Components.{
  Component, World, acquire, relinquish, is_valid, set_name, match, same_name,
}

-- `LCFGComponentSet`: the slots hold the addresses of components.
pub record ComponentSet : Type 0 where
  pub components : ℕ → Option ℕ
  pub buckets : ℕ
  pub entries : ℕ
  pub refcount : ℕ

-- `lcfgcompset_new`: 113 is `LCFG_COMPSET_DEFAULT_SIZE`.
unfoldable pub new : ComponentSet
new = record { components = λ _. none; buckets = 113; entries = 0; refcount = 1 }

-- `lcfgcompset_is_empty`, of a pointer that is not NULL.
unfoldable pub is_empty_set : ComponentSet → Bool
is_empty_set t = t.entries == 0

-- The slot is free, or its component has the name of `p`: the tests of the loops of
-- `lcfgcompset_insert_component`.
unfoldable pub takes : World → ComponentSet → ℕ → ℕ → Bool
unfolding same_name
takes w t p i = elim (t.components i) [ none ↦ true | some q ↦ same_name (w.comps p) (w.comps q) ]

-- What the insertion does at the slot where a loop ends, by what the slot holds.
unfoldable pub put_over : World → ComponentSet → ℕ → ℕ → Option ℕ → (World × ComponentSet) × Change
unfolding relinquish
put_over w t p i none =
    let components' = update t.components i (some p) in
    let entries' = (t.entries + 1) % u64 in
    ((w, record t { components = components'; entries = entries' }), change_added)
put_over w t p i (some q) =
    let components' = update t.components i (some p) in
    ((relinquish w q, record t { components = components' }), change_replaced)

-- `components[i] = comp`, at the slot where a loop ends.
unfoldable pub put : World → ComponentSet → ℕ → ℕ → (World × ComponentSet) × Change
unfolding put_over
put w t p i = put_over w t p i (t.components i)

-- `lcfgcompset_insert_component`
unfoldable pub insert_component : World → ComponentSet → ℕ → (World × ComponentSet) × Change
unfolding is_valid acquire relinquish djbhash takes probe put
insert_component w t p =
    let w' = acquire w p in
    let hash = djbhash (or_default (w.comps p).name []) % t.buckets in
    if not (is_valid (w.comps p))
    then ((w, t), change_error)
    else elim (probe (takes w' t p) hash t.buckets) [
      | none ↦ ((relinquish w' p, t), change_error)
      | some i ↦ put w' t p i
    ]

-- The slot is free, or its component has the name: the tests of the loops of
-- `lcfgcompset_find_component`.
unfoldable pub ends : World → ComponentSet → Bytes → ℕ → Bool
unfolding match
ends w t name i = elim (t.components i) [ none ↦ true | some q ↦ match (w.comps q) name ]

-- `lcfgcompset_find_component`: a loop that ends at a free slot has failed.
unfoldable pub find_component : World → ComponentSet → Bytes → Option ℕ
unfolding is_empty_set djbhash ends probe
find_component w t name =
    if is_empty_set t
    then none
    else elim (probe (ends w t name) (djbhash name % t.buckets) t.buckets) [
      | none ↦ none
      | some i ↦ t.components i
    ]

-- `lcfgcompset_has_component`
unfoldable pub has_component : World → ComponentSet → Bytes → Bool
unfolding find_component
has_component w t name = elim (find_component w t name) [ none ↦ false | some _ ↦ true ]

-- The new component, with the result of `lcfgcomponent_set_name`, is put into the set, and the
-- reference to it is given back.
unfoldable pub insert_named :
    World → ComponentSet → Component × Bool → (World × ComponentSet) × Option ℕ
unfolding insert_component relinquish
insert_named w t (c, ok) =
    let p = w.next in
    let w' : World = record w { comps = update w.comps p c; next = w.next + 1 } in
    let ((w'', t'), rc) = if ok then insert_component w' t p else ((w', t), change_error) in
    ((relinquish w'' p, t'), if change_ok rc then some p else none)

-- What `lcfgcompset_find_or_create_component` does where the set has no component of the name.
unfoldable pub create_component : World → ComponentSet → Bytes → (World × ComponentSet) × Option ℕ
unfolding Components.new set_name insert_named
create_component w t name = insert_named w t (set_name Components.new (some name))

-- The component that was found, or else a new one.
unfoldable pub or_create :
    World → ComponentSet → Bytes → Option ℕ → (World × ComponentSet) × Option ℕ
unfolding create_component
or_create w t name none = create_component w t name
or_create w t name (some p) = ((w, t), some p)

-- `lcfgcompset_find_or_create_component`
unfoldable pub find_or_create_component :
    World → ComponentSet → Bytes → (World × ComponentSet) × Option ℕ
unfolding find_component or_create
find_or_create_component w t name = or_create w t name (find_component w t name)

-- The loop of `lcfgcompset_transplant_components` over the slots of the second set, from `i` on.
unfoldable pub transplant_loop :
    World → ComponentSet → (ℕ → Option ℕ) → ℕ → ℕ → Change → (World × ComponentSet) × Change
unfolding insert_component
transplant_loop w t slots i zero change = ((w, t), change)
transplant_loop w t slots i (suc n) change = elim (slots i) [
  | none ↦ transplant_loop w t slots (suc i) n change
  | some p ↦
      let ((w', t'), rc) = insert_component w t p in
      let next = if unchanged rc then change else change_modified in
      let rest = transplant_loop w' t' slots (suc i) n next in
      if change_ok rc then rest else ((w', t'), change_error)
]

-- `lcfgcompset_transplant_components`
unfoldable pub transplant_components :
    World → ComponentSet → ComponentSet → (World × ComponentSet) × Change
unfolding is_empty_set transplant_loop
transplant_components w t1 t2 =
    if is_empty_set t2
    then ((w, t1), change_none)
    else transplant_loop w t1 t2.components 0 t2.buckets change_none

-- The loop of `lcfgcompset_destroy`, from slot `i` on.
unfoldable pub release_from : World → (ℕ → Option ℕ) → ℕ → ℕ → World
unfolding relinquish
release_from w slots i zero = w
release_from w slots i (suc n) = elim (slots i) [
  | none ↦ release_from w slots (suc i) n
  | some p ↦ release_from (relinquish w p) slots (suc i) n
]

-- `lcfgcompset_destroy`
unfoldable pub destroy : World → ComponentSet → World × ComponentSet
unfolding release_from
destroy w t =
    let gone : ComponentSet = record t { components = λ _. none; entries = 0; refcount = 0 } in
    (release_from w t.components 0 t.buckets, gone)

-- `lcfgcompset_acquire`
unfoldable pub acquire_set : ComponentSet → ComponentSet
acquire_set t = record t { refcount = (t.refcount + 1) % u32 }

-- `lcfgcompset_relinquish`
unfoldable pub relinquish_set : World → ComponentSet → World × ComponentSet
unfolding destroy
relinquish_set w t =
    let count = if ltb 0 t.refcount then t.refcount - 1 else t.refcount in
    let t' : ComponentSet = record t { refcount = count } in
    if count == 0 then destroy w t' else (w, t')
