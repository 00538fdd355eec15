-- ===== src/Components/Created.antt =====
-- What lcfgcompset_find_or_create_component returns: resources/components/set.c.
use lcfg_core.Common.{
  ℕ, ◌+◌, ◌<◌, ◌≡◌, refl, sym, ap, fun_ext, ◌∙◌, true, false, Option, none, some, [], ◌∷◌, Bytes,
  or_default, ◌==◌, if◌then◌else◌, arith, update, Change, change_ok,
}
use mathlib.Core.Path.{subst}
use lcfg_core.Utils.Words.{same_text_self}
use lcfg_core.Derivation.{u32}
use lcfg_core.Resource.{valid_name}
use lcfg_core.Components
use lcfg_core.Components.{World, Component, relinquish, is_valid, set_name}
use lcfg_core.Components.Sets.{
  ComponentSet, insert_component, find_component, insert_named, create_component, or_create,
  find_or_create_component,
}
use lcfg_core.Components.Names.{seek, occupied}
use lcfg_core.Components.Table.{IsTable, names_of, slot_name, content, find-occupied}
use lcfg_core.Components.Kept.{relinquish-alive, slot_name-eq}
use lcfg_core.Components.Inserted.{
  IsTable-names, insert_component-elim, insert_component-IsTable, insert_component-find_component,
  insert_component-change_ok,
}

-- A component is returned, and the set has it under the name and keeps its invariant.
pub record IsFound (name : Bytes) (r : (World × ComponentSet) × Option ℕ) : Type 0 where
  pub address : ℕ
  pub returned : r.1 ≡ some address
  pub found : find_component r.0.0 r.0.1 name ≡ some address
  pub table : IsTable r.0.0 r.0.1

or_default-some : (s : Bytes) → or_default (some s) [] ≡ s
or_default-some [] = refl
or_default-some (c ∷ s) = refl

named-is_valid :
    (c : Component) (name : Bytes)
    → valid_name (some name) ≡ true
    → is_valid (record c { name = some name }) ≡ true
unfolding is_valid valid_name
named-is_valid c [] valid = cc
named-is_valid c (x ∷ s) valid = refl

module _ (w : World) (t : ComponentSet) (name : Bytes) (table : IsTable w t)
    (below : (i q : ℕ) → t.components i ≡ some q → q < w.next)
    (valid : valid_name (some name) ≡ true) (room : t.entries < t.buckets) where
  abbrev created : Component
  created = record Components.new { name = some name }

  -- The heap with the new component.
  abbrev extended : World
  extended = record w { comps = update w.comps w.next created; next = w.next + 1 }

  abbrev inserted : (World × ComponentSet) × Change
  inserted = insert_component extended t w.next

  extended-next : extended.comps w.next ≡ created
  extended-next = let here : (w.next == w.next) ≡ true = ground arith in rw here refl

  slot_name-extended :
      (i : ℕ) (o : Option ℕ) → t.components i ≡ o → slot_name extended.comps o ≡ slot_name w.comps o
  slot_name-extended i none e = refl
  slot_name-extended i (some q) e =
      let less = below i q e in let away : (q == w.next) ≡ false = ground arith in rw away refl

  IsTable-extended : IsTable extended t
  IsTable-extended =
      IsTable-names w extended t (fun_ext (λ i. slot_name-extended i (t.components i) refl)) table

  set_name-created : set_name Components.new (some name) ≡ (created, true)
  unfolding set_name
  set_name-created = rw valid refl

  abbrev kept : (World × ComponentSet) × Option ℕ
  kept = (
    (relinquish inserted.0.0 w.next, inserted.0.1),
    if change_ok inserted.1 then some w.next else none,
  )

  insert_named-kept : insert_named w t (created, true) ≡ kept
  unfolding insert_named
  insert_named-kept = refl

  create-kept : create_component w t name ≡ kept
  unfolding create_component
  create-kept = ap (insert_named w t) set_name-created ∙ insert_named-kept

  held : 0 < (extended.comps w.next).refcount
  unfolding Components.new
  held = rw extended-next (omega arith)

  small : (extended.comps w.next).refcount + 1 < u32
  unfolding Components.new
  small = rw extended-next (omega arith)

  created-valid : is_valid (extended.comps w.next) ≡ true
  created-valid =
      subst (λ c. is_valid c ≡ true) (sym extended-next) (named-is_valid Components.new name valid)

  inserted-ok : change_ok inserted.1 ≡ true
  inserted-ok =
      insert_component-change_ok extended t w.next IsTable-extended held small created-valid room

  found : find_component inserted.0.0 inserted.0.1 name ≡ some w.next
  found =
      let key_name : or_default (extended.comps w.next).name [] ≡ name =
        ap (λ c. or_default c.name []) extended-next ∙ or_default-some name in
      insert_component-find_component extended t w.next IsTable-extended held small name inserted-ok
      ∙ rw (key_name, same_text_self name) refl

  -- The set keeps its reference when the function gives back its own.
  kept-refcount : 1 < (inserted.0.0.comps w.next).refcount
  kept-refcount =
      insert_component-elim extended t w.next IsTable-extended held small
        (λ r. change_ok r.1 ≡ true → 1 < (r.0.0.comps w.next).refcount) (λ _ bad. cc) (λ _ bad. cc)
        (λ j r _ step _.
          let one = held in
          let more = step.acquired (λ q has. let less = below j q has in ground arith) in
          omega arith)
        inserted-ok

  names-kept : names_of kept.0.0 kept.0.1 ≡ names_of inserted.0.0 inserted.0.1
  names-kept = fun_ext (λ i.
      slot_name-eq inserted.0.0 kept.0.0 (inserted.0.1.components i)
        (λ q. relinquish-alive inserted.0.0 w.next q kept-refcount))

  IsTable-inserted : IsTable inserted.0.0 inserted.0.1
  IsTable-inserted = insert_component-IsTable extended t w.next IsTable-extended held small

  IsTable-kept : IsTable kept.0.0 kept.0.1
  IsTable-kept = IsTable-names inserted.0.0 kept.0.0 inserted.0.1 names-kept IsTable-inserted

  found-kept : find_component kept.0.0 kept.0.1 name ≡ some w.next
  found-kept =
      find-occupied kept.0.0 kept.0.1 IsTable-kept name
      ∙ ap (λ n. content kept.0.1 (occupied n (seek n kept.0.1.buckets name))) names-kept
      ∙ sym (find-occupied inserted.0.0 inserted.0.1 IsTable-inserted name)
      ∙ found

  IsFound-kept : IsFound name kept
  IsFound-kept = record {
    address = w.next;
    returned = rw inserted-ok refl;
    found = found-kept;
    table = IsTable-kept;
  }

  or_create-IsFound :
      (o : Option ℕ) → find_component w t name ≡ o → IsFound name (or_create w t name o)
  unfolding or_create
  or_create-IsFound none absent = subst (IsFound name) (sym create-kept) IsFound-kept
  or_create-IsFound (some p) e = record { address = p; returned = refl; found = e; table = table }

  pub find_or_create_component-IsFound : IsFound name (find_or_create_component w t name)
  unfolding find_or_create_component
  find_or_create_component-IsFound = or_create-IsFound (find_component w t name) refl
