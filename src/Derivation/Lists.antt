-- ===== src/Derivation/Lists.antt =====
-- Whole lists of derivations: the rest of common/derivation/list.c. A list is released with its
-- last reference, and with it a reference to each of its derivations.
use lcfg_core.Common.{
  ℕ, ◌+◌, ◌-◌, ◌%◌, Bool, true, false, not, Option, none, some, List, [], ◌∷◌, ltb, ◌==◌,
  if◌then◌else◌, update, Change, change_error, change_none, change_modified, change_ok, is_added,
  unchanged,
}
use lcfg_core.Derivation.{is_valid, u32}
use lcfg_core.Derivation.Store.{
  Store, relinquish, new_list, is_empty_list, append, merge_derivation,
}

-- The loop of `lcfgderivlist_clone`.
unfoldable pub append_all : Store → ℕ → List ℕ → Store × Bool
append_all s l [] = (s, true)
append_all s l (p ∷ ps) =
    let (s', rc) = append s l p in
    let next = append_all s' l ps in if is_added rc then next else (s', false)

-- The loop of `lcfgderivlist_destroy`.
unfoldable pub relinquish_all : Store → List ℕ → Store
relinquish_all s [] = s
relinquish_all s (p ∷ ps) = relinquish_all (relinquish s p) ps

-- `lcfgderivlist_destroy`
unfoldable pub destroy_list : Store → ℕ → Store
unfolding relinquish_all relinquish
destroy_list s l =
    let s' = relinquish_all s (s.lists l).nodes in
    record s' { lists = update s'.lists l (record { nodes = []; size = 0; refcount = 0 }) }

-- `lcfgderivlist_clone`
unfoldable pub clone_list : Store → List ℕ → Store × Option ℕ
unfolding new_list append_all append destroy_list
clone_list s nodes =
    let (s', c) = new_list s in
    let (s'', ok) = append_all s' c nodes in
    if ok then (s'', some c) else (destroy_list s'' c, none)

-- `lcfgderivlist_acquire`
unfoldable pub acquire_list : Store → ℕ → Store
acquire_list s l =
    let list = s.lists l in
    record s { lists = update s.lists l (record list { refcount = (list.refcount + 1) % u32 }) }

-- `lcfgderivlist_relinquish`
unfoldable pub relinquish_list : Store → ℕ → Store
unfolding destroy_list
relinquish_list s l =
    let list = s.lists l in
    let count = if ltb 0 list.refcount then list.refcount - 1 else list.refcount in
    let s' = record s { lists = update s.lists l (record list { refcount = count }) } in
    if count == 0 then destroy_list s' l else s'

-- The loop of `lcfgderivlist_merge_list` over the nodes of the second list.
unfoldable pub merge_all : Store → ℕ → List ℕ → Change → Store × Change
merge_all s l [] change = (s, change)
merge_all s l (p ∷ ps) change =
    let (s', rc) = merge_derivation s l p in
    let change' =
      if not (change_ok rc)
      then change_error
      else if unchanged rc
      then change
      else change_modified in
    let merged = merge_all s' l ps change' in
    let skipped = merge_all s l ps change in
    if not (change_ok change) then (s, change) else if is_valid (s.drvs p) then merged else skipped

-- `lcfgderivlist_merge_list`
unfoldable pub merge_list : Store → ℕ → Option ℕ → Store × Change
unfolding is_empty_list merge_all merge_derivation
merge_list s l none = (s, change_none)
merge_list s l (some l2) =
    if is_empty_list s (some l2)
    then (s, change_none)
    else merge_all s l (s.lists l2).nodes change_none
