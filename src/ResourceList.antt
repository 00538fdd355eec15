-- ===== src/ResourceList.antt =====
-- Lists of the resources of one name: resources/components/reslist.c. A list holds a reference to
-- each of its resources; what a release of the last one does to a derivation is not followed.
pub mod Merge
pub mod Unique
pub mod Step
pub mod WellFormed
pub mod Lists
pub mod Tests
use lcfg_core.Common.{
  ℕ, ◌+◌, ◌-◌, ◌%◌, Bool, true, false, Option, none, some, List, [], ◌∷◌, ◌++◌, ltb, ◌==◌,
  if◌then◌else◌, Heap, update, Change, change_error, change_none, change_added, change_removed,
  MergeRules,
}
use lcfg_core.Derivation.{u32}
use lcfg_core.Resource.{Resource}
use lcfg_core.Resource

-- `LCFGResourceList`: the addresses in the nodes, in order. Of the bits of the primary key, the
-- code tests the one of the context.
pub record ResourceList : Type 0 where
  pub nodes : List ℕ
  pub size : ℕ
  pub by_context : Bool
  pub merge_rules : MergeRules
  pub refcount : ℕ

abbrev pub no_rules : MergeRules
no_rules = record {
  keep_all = false;
  squash_identical = false;
  use_priority = false;
  use_prefix = false;
  replace = false;
}

-- `lcfgreslist_new`
unfoldable pub new : ResourceList
new = record { nodes = []; size = 0; by_context = false; merge_rules = no_rules; refcount = 1 }

-- `lcfgreslist_set_merge_rules`
unfoldable pub set_merge_rules : ResourceList → MergeRules → ResourceList × Bool
set_merge_rules list new_rules = (record list { merge_rules = new_rules }, true)

-- `lcfgresource_destroy`: the strings are gone with the structure.
unfoldable pub destroyed : Resource → Resource
destroyed res = record res {
  name = none;
  value = none;
  template = [];
  context = none;
  derivation = none;
  comment = none;
  refcount = 0;
}

-- `lcfgresource_acquire`, on the heap.
unfoldable pub acquire : Heap Resource → ℕ → Heap Resource
unfolding Resource.acquire
acquire h p = update h p (Resource.acquire (h p))

-- `lcfgresource_relinquish`
unfoldable pub relinquish : Heap Resource → ℕ → Heap Resource
unfolding destroyed
relinquish h p =
    let res = h p in
    let count = if ltb 0 res.refcount then res.refcount - 1 else res.refcount in
    update h p (if count == 0 then destroyed res else record res { refcount = count })

-- `lcfgreslist_append`: `lcfgreslist_insert_next` at the tail.
unfoldable pub append : Heap Resource → ResourceList → ℕ → (Heap Resource × ResourceList) × Change
unfolding acquire
append h list item =
    let list' = record list { nodes = list.nodes ++ item ∷ []; size = (list.size + 1) % u32 } in
    ((acquire h item, list'), change_added)

-- A node of a list: the nodes in front of it, in order, its resource, and the nodes behind it.
abbrev pub Node : Type 0
Node = List ℕ × ℕ × List ℕ

-- `lcfgreslist_remove_next`, where the next node is the given one.
unfoldable pub remove_node : ResourceList → Node → ResourceList × Change
remove_node list (before, old, after) =
    if list.size == 0
    then (list, change_none)
    else (record list { nodes = before ++ after; size = list.size - 1 }, change_removed)

-- `lcfgreslist_first_resource`
unfoldable pub first_resource : ResourceList → Option ℕ
first_resource list = elim list.nodes [ [] ↦ none | p ∷ ps ↦ some p ]

-- The loop of `lcfgreslist_destroy`: the front node is removed as long as there is one.
unfoldable pub relinquish_all : Heap Resource → List ℕ → Heap Resource
unfolding relinquish
relinquish_all h [] = h
relinquish_all h (p ∷ ps) = relinquish_all (relinquish h p) ps

-- `lcfgreslist_destroy`
unfoldable pub destroy : Heap Resource → ResourceList → Heap Resource × ResourceList
unfolding relinquish_all
destroy h list = (relinquish_all h list.nodes, record list { nodes = []; size = 0; refcount = 0 })

-- `lcfgreslist_acquire`
unfoldable pub acquire_list : ResourceList → ResourceList
acquire_list list = record list { refcount = (list.refcount + 1) % u32 }

-- `lcfgreslist_relinquish`
unfoldable pub relinquish_list : Heap Resource → ResourceList → Heap Resource × ResourceList
unfolding destroy
relinquish_list h list =
    let count = if ltb 0 list.refcount then list.refcount - 1 else list.refcount in
    let list' = record list { refcount = count } in
    if count == 0 then destroy h list' else (h, list')

-- The loop of `lcfgreslist_clone`.
unfoldable pub append_all : Heap Resource → ResourceList → List ℕ → Heap Resource × ResourceList
unfolding append
append_all h clone [] = (h, clone)
append_all h clone (p ∷ ps) = let ((h', clone'), _) = append h clone p in append_all h' clone' ps

-- `lcfgreslist_clone`: appending never fails.
unfoldable pub clone : Heap Resource → ResourceList → Heap Resource × ResourceList
unfolding new append_all
clone h list =
    let empty : ResourceList = record new {
      merge_rules = list.merge_rules;
      by_context = list.by_context;
    } in
    append_all h empty list.nodes
