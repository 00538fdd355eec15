-- ===== src/ResourceList/Merge.antt =====
-- Merging resources into a list by its rules: lcfgreslist_merge_resource and _merge_list of
-- resources/components/reslist.c. Messages are left out.
use lcfg_core.Common.{
  ℕ, Bool, true, false, not, ◌&&◌, ◌||◌, Option, none, some, List, [], ◌∷◌, ◌==◌, if◌then◌else◌,
  Heap, Change, change_error, change_none, change_modified, change_added, change_replaced,
  change_removed, is_removed, unchanged, change_ok, MergeRules, ◌-ℤ◌,
}
use lcfg_core.Resource.{Resource, is_valid}
use lcfg_core.Resource.Compare.{same_name, same_context, equals}
use lcfg_core.PackageList.Merge.{Decision, decide, is_positive, is_negative}
use lcfg_core.ResourceList.{ResourceList, Node, relinquish, append, remove_node}

-- The test of the search for a resource with the primary key of the new one.
unfoldable pub matches : Heap Resource → Bool → ℕ → ℕ → Bool
unfolding same_name same_context
matches h by_context new_res res =
    same_name (h res) (h new_res) && (not by_context || same_context (h res) (h new_res))

abbrev pub after_node : ℕ → Option Node → Option Node
after_node p none = none
after_node p (some (before, q, after)) = some (p ∷ before, q, after)

-- The search: `prev_node` is the last of the nodes in front of the one that is found.
unfoldable pub search : (ℕ → Bool) → List ℕ → Option Node
search found [] = none
search found (p ∷ ps) =
    let later = search found ps in if found p then some ([], p, ps) else after_node p later

-- The rules for two resources of one key.
unfoldable pub by_rules : MergeRules → Resource → Resource → Decision
unfolding equals
by_rules rules new_res cur_res =
    if rules.squash_identical && equals cur_res new_res
    then decide true true true
    else if rules.keep_all
    then decide false true true
    else if rules.replace
    then decide true true true
    else if rules.use_priority
    then (if is_positive (new_res.priority -ℤ cur_res.priority)
        then decide true true true
        else decide false false (is_negative (new_res.priority -ℤ cur_res.priority)))
    else decide false false false

-- `lcfgreslist_merge_resource` up to the label `apply`.
unfoldable pub resolve : Heap Resource → MergeRules → ℕ → Option Node → Decision
unfolding by_rules
resolve h rules new_res none = decide false true true
resolve h rules new_res (some (before, cur, after)) =
    if cur == new_res then decide false false true else by_rules rules (h new_res) (h cur)

-- The removal of the old resource behind the label `apply`.
unfoldable pub remove_old :
    Heap Resource → ResourceList → Option Node → (Heap Resource × ResourceList) × Change
unfolding remove_node relinquish
remove_old h list none = ((h, list), change_none)
remove_old h list (some (before, old, after)) =
    let (list', rc) = remove_node list (before, old, after) in
    if is_removed rc
    then ((relinquish h old, list'), change_removed)
    else ((h, list'), change_error)

-- The append of the new resource, after a removal or not.
unfoldable pub append_new :
    Heap Resource → ResourceList → ℕ → Change → (Heap Resource × ResourceList) × Change
unfolding append
append_new h list new_res result =
    let ((h', list'), _) = append h list new_res in
    ((h', list'), if is_removed result then change_replaced else change_added)

-- The append behind the label `apply`, unless the removal has failed.
unfoldable pub append_if :
    Bool → ℕ → (Heap Resource × ResourceList) × Change → (Heap Resource × ResourceList) × Change
unfolding append_new
append_if wanted new_res ((h, list), result) =
    if wanted && change_ok result then append_new h list new_res result else ((h, list), result)

-- `lcfgreslist_merge_resource` from the label `apply` on.
unfoldable pub apply :
    Heap Resource
    → ResourceList
    → ℕ
    → Option Node
    → Decision
    → (Heap Resource × ResourceList) × Change
unfolding remove_old append_if
apply h list new_res cur d =
    if not d.accept
    then ((h, list), change_error)
    else append_if d.append_new new_res
        (if d.remove_old then remove_old h list cur else ((h, list), change_none))

-- `lcfgreslist_merge_resource`
unfoldable pub merge_resource :
    Heap Resource → ResourceList → ℕ → (Heap Resource × ResourceList) × Change
unfolding is_valid matches search resolve apply
merge_resource h list new_res =
    let cur = search (matches h list.by_context new_res) list.nodes in
    if not (is_valid (h new_res))
    then ((h, list), change_error)
    else apply h list new_res cur (resolve h list.merge_rules new_res cur)

-- The loop of `lcfgreslist_merge_list`.
unfoldable pub merge_all :
    Heap Resource → ResourceList → List ℕ → Change → (Heap Resource × ResourceList) × Change
unfolding merge_resource
merge_all h list [] change = ((h, list), change)
merge_all h list (p ∷ ps) change =
    let ((h', list'), rc) = merge_resource h list p in
    let next = if unchanged rc then change else change_modified in
    let rest = merge_all h' list' ps next in
    if change_ok rc then rest else ((h', list'), change_error)

-- `lcfgreslist_merge_list`
unfoldable pub merge_list :
    Heap Resource → ResourceList → ResourceList → (Heap Resource × ResourceList) × Change
unfolding merge_all
merge_list h list1 list2 = merge_all h list1 list2.nodes change_none
