-- ===== src/Derivation/Store.antt =====
-- Derivations and lists of them on a heap, with their reference counts:
-- common/derivation/derivation.c and common/derivation/list.c. Lists share derivations, and a
-- shared derivation is copied before it is changed.
use lcfg_core.Common.{
  ℕ, ◌+◌, ◌-◌, ◌%◌, Bool, true, not, ◌&&◌, Option, none, some, List, [], ◌∷◌, ◌++◌, Bytes, CString,
  is_empty, or_default, ltb, ◌==◌, if◌then◌else◌, Heap, update, Change, change_error, change_none,
  change_added, change_ok, unchanged, ℤ, pos, negsuc, set,
}
use lcfg_core.Derivation
use lcfg_core.Derivation.{
  Derivation, is_valid, has_line, merge_line, merge_lines, match, set_file, u32,
}

-- `LCFGDerivationList`: the addresses in the nodes, in order. The head and the tail are its ends.
pub record DerivationList : Type 0 where
  pub nodes : List ℕ
  pub size : ℕ
  pub refcount : ℕ

-- The heap of derivations and of lists; the addresses from `next_drv` and `next_list` on are free.
pub record Store : Type 0 where
  pub drvs : Heap Derivation
  pub lists : Heap DerivationList
  pub next_drv : ℕ
  pub next_list : ℕ

-- `lcfgderivation_acquire`
unfoldable pub acquire : Store → ℕ → Store
acquire s p =
    let d = s.drvs p in
    record s { drvs = update s.drvs p (record d { refcount = (d.refcount + 1) % u32 }) }

-- `lcfgderivation_destroy`: the strings are gone with the structure.
unfoldable pub destroyed : Derivation → Derivation
destroyed d = record d { file = none; lines = none; refcount = 0 }

-- `lcfgderivation_relinquish`
unfoldable pub relinquish : Store → ℕ → Store
unfolding destroyed
relinquish s p =
    let d = s.drvs p in
    let count = if ltb 0 d.refcount then d.refcount - 1 else d.refcount in
    let d' = if count == 0 then destroyed d else record d { refcount = count } in
    record s { drvs = update s.drvs p d' }

-- `lcfgderivation_is_shared`
unfoldable pub is_shared : Derivation → Bool
is_shared d = ltb 1 d.refcount

-- A new derivation on the heap.
unfoldable pub allocate : Store → Derivation → Store × ℕ
allocate s d =
    (record s { drvs = update s.drvs s.next_drv d; next_drv = s.next_drv + 1 }, s.next_drv)

-- `lcfgderivlist_new`
unfoldable pub new_list : Store → Store × ℕ
new_list s =
    let l : DerivationList = record { nodes = []; size = 0; refcount = 1 } in
    (record s { lists = update s.lists s.next_list l; next_list = s.next_list + 1 }, s.next_list)

-- `lcfgderivlist_is_empty`, of a pointer that may be NULL.
unfoldable pub is_empty_list : Store → Option ℕ → Bool
is_empty_list s none = true
is_empty_list s (some l) = (s.lists l).size == 0

-- `lcfgderivlist_append`: `lcfgderivlist_insert_next` at the tail.
unfoldable pub append : Store → ℕ → ℕ → Store × Change
unfolding is_valid acquire
append s l p =
    let s' = acquire s p in
    let list = s'.lists l in
    let list' = record list { nodes = list.nodes ++ (p ∷ []); size = (list.size + 1) % u32 } in
    if is_valid (s.drvs p)
    then (record s' { lists = update s'.lists l list' }, change_added)
    else (s, change_error)

-- The loop of `lcfgderivlist_find_node`: the position of the first node for the file.
unfoldable pub find_from : Heap Derivation → List ℕ → Bytes → ℕ → Option (ℕ × ℕ)
unfolding is_valid match
find_from drvs [] file i = none
find_from drvs (p ∷ ps) file i =
    if is_valid (drvs p) && match (drvs p) file then some (i, p) else find_from drvs ps file (i + 1)

-- `lcfgderivlist_find_node`
unfoldable pub find_node : Store → ℕ → Bytes → Option (ℕ × ℕ)
unfolding find_from
find_node s l file =
    if (s.lists l).size == 0 then none else find_from s.drvs (s.lists l).nodes file 0

-- `node->data = p`, at the node at position `i`.
unfoldable pub set_node : Store → ℕ → ℕ → ℕ → Store
set_node s l i p =
    let list = s.lists l in
    record s { lists = update s.lists l (record list { nodes = set list.nodes i p }) }

-- A shared derivation `cur` at position `i` gives way to a copy that `change` has changed.
unfoldable pub replace_copy : Store → ℕ → ℕ → ℕ → Derivation × Change → Store × Change
unfolding allocate set_node relinquish
replace_copy s l i cur (copy, result) =
    let (s', c) = allocate s copy in
    if change_ok result && not (unchanged result)
    then (relinquish (set_node s' l i c) cur, result)
    else (relinquish s' c, result)

-- What `lcfgderivlist_merge_derivation` does at a node that holds `cur` for the same file.
unfoldable pub merge_into : Store → ℕ → ℕ → ℕ → ℕ → Store × Change
unfolding is_shared replace_copy
merge_into s l i cur p =
    let (d, result) = merge_lines (s.drvs cur) (s.drvs p) in
    if cur == p
    then (s, change_none)
    else if not (is_shared (s.drvs cur))
    then (record s { drvs = update s.drvs cur d }, result)
    else replace_copy s l i cur (merge_lines (Derivation.clone (s.drvs cur)) (s.drvs p))

-- `lcfgderivlist_merge_derivation`
unfoldable pub merge_derivation : Store → ℕ → ℕ → Store × Change
unfolding is_valid find_node append merge_into
merge_derivation s l p =
    if not (is_valid (s.drvs p))
    then (s, change_error)
    else elim (find_node s l (or_default (s.drvs p).file [])) [
      | none ↦ append s l p
      | some (i, cur) ↦ merge_into s l i cur p
    ]

-- The line that an `int` gives, if it is not negative.
abbrev pub add_given : Derivation → ℤ → Derivation × Change
add_given d (pos line) = merge_line d line
add_given d (negsuc _) = (d, change_none)

-- `lcfgderivlist_merge_file_line` for a file that the list does not have.
unfoldable pub add_file_line : Store → ℕ → Bytes → ℤ → Store × Change
unfolding allocate append relinquish set_file
add_file_line s l filename line =
    let (d, result) = add_given (set_file Derivation.new (some filename)) line in
    let (s', p) = allocate s d in
    let (s'', result') = if change_ok result then append s' l p else (s', result) in
    (relinquish s'' p, result')

-- `lcfgderivlist_merge_file_line` at a node that holds `cur` for the file.
unfoldable pub merge_line_into : Store → ℕ → ℕ → ℕ → ℤ → Store × Change
unfolding has_line merge_line is_shared replace_copy
merge_line_into s l i cur (negsuc _) = (s, change_none)
merge_line_into s l i cur (pos line) =
    let (d, result) = merge_line (s.drvs cur) line in
    if has_line (s.drvs cur) line
    then (s, change_none)
    else if is_shared (s.drvs cur)
    then replace_copy s l i cur (merge_line (Derivation.clone (s.drvs cur)) line)
    else (record s { drvs = update s.drvs cur d }, result)

-- `lcfgderivlist_merge_file_line`
unfoldable pub merge_file_line : Store → ℕ → CString → ℤ → Store × Change
unfolding find_node add_file_line merge_line_into
merge_file_line s l filename line =
    if is_empty filename then (s, change_none) else elim (find_node s l (or_default filename [])) [
      | none ↦ add_file_line s l (or_default filename []) line
      | some (i, cur) ↦ merge_line_into s l i cur line
    ]
