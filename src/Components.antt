-- ===== src/Components.antt =====
-- Components: the fields of resources/components/component.c with their setters and
-- tests. The resource lists of a component stand for themselves: what a release of the last reference does to them is not followed.
pub mod Sets
pub mod Names
pub mod Table
pub mod Insert
pub mod Inserted
pub mod Kept
pub mod Created
pub mod Tests
use lcfg_core.Common.{
  ℕ, ◌+◌, ◌-◌, ◌*◌, ◌%◌, Bool, true, false, not, Option, none, some, List, [], ◌∷◌, Bytes, CString,
  is_empty, or_default, ltb, ◌==◌, if◌then◌else◌, Heap, update, MergeRules, same_text,
}
use lcfg_core.Derivation.{u32}
use lcfg_core.Resource.{valid_name}

-- `LCFGComponent`: the array of resource lists holds their addresses.
pub record Component : Type 0 where
  pub name : CString
  pub resources : ℕ → Option ℕ
  pub buckets : ℕ
  pub entries : ℕ
  pub primary_key : ℕ
  pub merge_rules : MergeRules
  pub refcount : ℕ

-- The heap of components; the addresses from `next` on are free.
pub record World : Type 0 where
  pub comps : Heap Component
  pub next : ℕ

-- `LCFG_MERGE_RULE_NONE`
abbrev pub no_rules : MergeRules
no_rules = record {
  keep_all = false;
  squash_identical = false;
  use_priority = false;
  use_prefix = false;
  replace = false;
}

-- `lcfgcomponent_new`: 113 is `LCFG_COMP_DEFAULT_SIZE`, and the primary key is the name.
unfoldable pub new : Component
new = record {
  name = none;
  resources = λ _. none;
  buckets = 113;
  entries = 0;
  primary_key = 1;
  merge_rules = no_rules;
  refcount = 1;
}

-- `lcfgcomponent_destroy`: the strings and the array are gone with the structure.
unfoldable pub destroyed : Component → Component
destroyed c = record c { name = none; resources = λ _. none; entries = 0; refcount = 0 }

-- `lcfgcomponent_acquire`
unfoldable pub acquire : World → ℕ → World
acquire w p =
    let c = w.comps p in
    record w { comps = update w.comps p (record c { refcount = (c.refcount + 1) % u32 }) }

-- `lcfgcomponent_relinquish`
unfoldable pub relinquish : World → ℕ → World
unfolding destroyed
relinquish w p =
    let c = w.comps p in
    let count = if ltb 0 c.refcount then c.refcount - 1 else c.refcount in
    let c' = if count == 0 then destroyed c else record c { refcount = count } in
    record w { comps = update w.comps p c' }

-- `lcfgcomponent_is_shared`
unfoldable pub is_shared : Component → Bool
is_shared c = ltb 1 c.refcount

-- `lcfgcomponent_has_name`
unfoldable pub has_name : Component → Bool
has_name c = not (is_empty c.name)

-- `lcfgcomponent_is_valid`, of a pointer that is not NULL.
unfoldable pub is_valid : Component → Bool
unfolding has_name
is_valid c = has_name c

-- `lcfgcomponent_set_name`, with `lcfgcomponent_valid_name`.
unfoldable pub set_name : Component → CString → Component × Bool
unfolding valid_name
set_name c new_name =
    if valid_name new_name then (record c { name = new_name }, true) else (c, false)

-- `lcfgcomponent_match`
unfoldable pub match : Component → Bytes → Bool
unfolding same_text
match c name = same_text (or_default c.name []) name

-- `lcfgcomponent_same_name`
unfoldable pub same_name : Component → Component → Bool
unfolding same_text
same_name c1 c2 = same_text (or_default c1.name []) (or_default c2.name [])
