-- ===== src/PackageList.antt =====
-- Lists of packages: packages/list.c. A list holds references to packages, in order, and is keyed
-- by the name of a package, and as its primary key says by the architecture and the context.
pub mod Merge
pub mod Sort
pub mod Sorted
pub mod Ordered
pub mod Search
pub mod Resolve
pub mod Step
pub mod Life
pub mod Counts
pub mod Drained
pub mod Keys
pub mod Unique
pub mod WellFormed
pub mod Pinned
pub mod Tests
use lcfg_core.Common.{
  ℕ, zero, suc, ◌+◌, ◌-◌, ◌%◌, Bool, true, false, not, ◌&&◌, ◌||◌, Option, none, some, List, [],
  ◌∷◌, ◌++◌, Bytes, CString, or_default, ltb, ◌==◌, if◌then◌else◌, Change, change_error,
  change_none, change_modified, change_added, change_replaced, change_removed, is_added, is_removed,
  unchanged, change_ok, MergeRules, ℤ, pos, negsuc, ◌-ℤ◌,
}
use lcfg_core.Derivation.{u32}
use lcfg_core.Package.{Package, is_valid, prefix_none, wildcard}
use lcfg_core.Package.Compare.{match, same_context, compare_versions, equals}
use lcfg_core.Package.World
use lcfg_core.Package.World.{World, acquire, relinquish, merge_derivation}

-- `LCFGPkgListPK`: the bits of the mask that the code tests.
pub record PrimaryKey : Type 0 where
  pub by_arch : Bool
  pub by_context : Bool

-- `LCFGPackageList`: the addresses in the nodes, in order. The head and the tail are its ends.
pub record PackageList : Type 0 where
  pub nodes : List ℕ
  pub size : ℕ
  pub primary_key : PrimaryKey
  pub merge_rules : MergeRules
  pub refcount : ℕ

-- `LCFG_MERGE_RULE_NONE`
abbrev pub no_rules : MergeRules
no_rules = record {
  keep_all = false;
  squash_identical = false;
  use_priority = false;
  use_prefix = false;
  replace = false;
}

-- `lcfgpkglist_new`
unfoldable pub new : PackageList
new = record {
  nodes = [];
  size = 0;
  primary_key = record { by_arch = true; by_context = false };
  merge_rules = no_rules;
  refcount = 1;
}

-- `lcfgpkglist_set_merge_rules`
unfoldable pub set_merge_rules : PackageList → MergeRules → PackageList × Bool
set_merge_rules list new_rules = (record list { merge_rules = new_rules }, true)

-- `lcfgpkglist_append`: `lcfgpkglist_insert_next` at the tail.
unfoldable pub append : World → PackageList → ℕ → (World × PackageList) × Change
unfolding acquire
append w list p =
    let list' = record list { nodes = list.nodes ++ (p ∷ []); size = (list.size + 1) % u32 } in
    ((acquire w p, list'), change_added)

-- The nodes without the one at a position, and the address that it held.
unfoldable pub take_out : List ℕ → ℕ → Option (ℕ × List ℕ)
take_out [] i = none
take_out (p ∷ ps) zero = some (p, ps)
take_out (p ∷ ps) (suc i) = elim (take_out ps i) [ none ↦ none | some (q, qs) ↦ some (q, p ∷ qs) ]

-- The position behind a node, or the head for NULL.
abbrev pub next_position : Option ℕ → ℕ
next_position none = 0
next_position (some i) = i + 1

-- `lcfgpkglist_remove_next`: the node behind the one at a position, or the head.
unfoldable pub remove_next : PackageList → Option ℕ → (PackageList × Option ℕ) × Change
unfolding take_out
remove_next list node =
    if list.size == 0
    then ((list, none), change_none)
    else elim (take_out list.nodes (next_position node)) [
      | none ↦ ((list, none), change_error)
      | some (p, ps) ↦ ((record list { nodes = ps; size = list.size - 1 }, some p), change_removed)
    ]

-- The loop of `lcfgpkglist_find_node`: the position of the first match, and the package.
unfoldable pub find_from : World → List ℕ → Bytes → CString → ℕ → Option (ℕ × ℕ)
unfolding is_valid match
find_from w [] name arch i = none
find_from w (p ∷ ps) name arch i =
    let rest = find_from w ps name arch (i + 1) in
    if not (is_valid (w.pkgs p))
    then rest
    else if match (w.pkgs p) name arch
    then some (i, p)
    else rest

-- `lcfgpkglist_find_node`
unfoldable pub find_node : World → PackageList → Bytes → CString → Option (ℕ × ℕ)
unfolding find_from
find_node w list name arch = if list.size == 0 then none else find_from w list.nodes name arch 0

-- `lcfgpkglist_find_package`
unfoldable pub find_package : World → PackageList → Bytes → CString → Option ℕ
unfolding find_node
find_package w list name arch = elim (find_node w list name arch) [
  | none ↦ none
  | some (i, p) ↦ some p
]

-- `lcfgpkglist_has_package`
unfoldable pub has_package : World → PackageList → Bytes → CString → Bool
unfolding find_node
has_package w list name arch = elim (find_node w list name arch) [ none ↦ false | some _ ↦ true ]

-- The architecture that `lcfgpkglist_merge_package` looks for.
abbrev pub match_arch : PrimaryKey → Package → Bytes
match_arch key pkg = if key.by_arch then or_default pkg.arch [] else wildcard

-- The test in the loop of `lcfgpkglist_merge_package`: a package with the key of the new one.
unfoldable pub same_key : PrimaryKey → Package → Package → Bool
unfolding match same_context
same_key key pkg new_pkg =
    match pkg (or_default new_pkg.name []) (some (match_arch key new_pkg))
    && (not key.by_context || same_context pkg new_pkg)

-- That loop, from position `i` on: `prev_node`, and the position and package of `cur_node`.
-- An invalid package leaves `prev_node` as it is.
unfoldable pub search :
    World → PrimaryKey → List ℕ → Package → ℕ → Option ℕ → Option ℕ × Option (ℕ × ℕ)
unfolding is_valid same_key
search w key [] new_pkg i prev = (prev, none)
search w key (p ∷ ps) new_pkg i prev =
    let skipped = search w key ps new_pkg (i + 1) prev in
    let passed = search w key ps new_pkg (i + 1) (some i) in
    if not (is_valid (w.pkgs p))
    then skipped
    else if same_key key (w.pkgs p) new_pkg
    then (prev, some (i, p))
    else passed
