-- ===== src/PackageList/Merge.antt =====
-- Merging packages into a list by prefixes and rules: packages/list.c. Messages are left out.
use lcfg_core.Common.{
  ℕ, Bool, true, false, not, ◌&&◌, ◌||◌, Option, none, some, List, [], ◌∷◌, ltb, ◌==◌,
  if◌then◌else◌, Change, change_error, change_none, change_modified, change_added, change_replaced,
  change_removed, is_added, is_removed, unchanged, change_ok, MergeRules, ℤ, pos, negsuc, ◌-ℤ◌,
}
use lcfg_core.Package.{Package, is_valid, prefix_none}
use lcfg_core.Package.Compare.{compare_versions, equals}
use lcfg_core.Package.World.{World, relinquish, merge_derivation}
use lcfg_core.PackageList.{PackageList, append, remove_next, search}

-- The variables `remove_old`, `append_new` and `accept`.
pub record Decision : Type 0 where
  pub remove_old : Bool
  pub append_new : Bool
  pub accept : Bool

abbrev pub decide : Bool → Bool → Bool → Decision
decide remove_old append_new accept = record {
  remove_old = remove_old;
  append_new = append_new;
  accept = accept;
}

-- `i > 0`
abbrev pub is_positive : ℤ → Bool
is_positive (pos n) = ltb 0 n
is_positive (negsuc n) = false

-- `i < 0`
abbrev pub is_negative : ℤ → Bool
is_negative (pos n) = false
is_negative (negsuc n) = true

abbrev pub given {ℓ} : {A : Type ℓ} → Option A → Bool
given none = false
given (some _) = true

-- `LCFG_PKG_PREFIX_PIN`
abbrev pub prefix_pin : ℕ
prefix_pin = b'!'

-- Whether the new package has a greater version than the package in the list, if there is one.
abbrev pub newer : Package → Option Package → Bool
newer new_pkg none = true
newer new_pkg (some cur_pkg) = is_positive (compare_versions new_pkg cur_pkg)

-- `cur_prefix`
abbrev pub prefix_of : Option Package → ℕ
prefix_of none = prefix_none
prefix_of (some pkg) = pkg.prefix

-- The `switch` on the prefix of the new package.
unfoldable pub by_prefix : Package → Option Package → Decision
unfolding compare_versions
by_prefix new_pkg cur_pkg =
    if new_pkg.prefix == b'-'
    then decide true false true
    else if new_pkg.prefix == b'+' || new_pkg.prefix == prefix_pin
    then decide true true true
    else if new_pkg.prefix == b'~'
    then decide false (not (given cur_pkg)) true
    else if new_pkg.prefix == b'?'
    then (if given cur_pkg && not (prefix_of cur_pkg == prefix_pin)
        then decide true true true
        else decide false false true)
    else if new_pkg.prefix == b'>'
    then (if newer new_pkg cur_pkg then decide true true true else decide false false true)
    else decide false false false

-- The test on a pinned package behind the `switch`, and the derivation that the new package takes.
unfoldable pub check_pinned : World → ℕ → Option ℕ → Decision → World × Decision
unfolding merge_derivation
check_pinned w p none d = (w, d)
check_pinned w p (some cur) d =
    if not d.remove_old
    then (w, d)
    else if (w.pkgs cur).prefix == prefix_pin
    then (w, decide false false false)
    else if d.append_new
    then ((merge_derivation w p (some cur)).0, d)
    else (w, d)

-- The rules for two packages of one key.
unfoldable pub by_rules : MergeRules → Package → Package → Decision
unfolding equals
by_rules rules new_pkg cur_pkg =
    if rules.squash_identical && equals cur_pkg new_pkg
    then decide true true true
    else if rules.keep_all
    then decide false true true
    else if rules.replace
    then decide true true true
    else if rules.use_priority
    then (if is_positive (new_pkg.priority -ℤ cur_pkg.priority)
        then decide true true true
        else decide false false (is_negative (new_pkg.priority -ℤ cur_pkg.priority)))
    else decide false false false

-- The packages at a pointer that may be NULL.
abbrev pub package_of : World → Option ℕ → Option Package
package_of w none = none
package_of w (some p) = some (w.pkgs p)

abbrev pub is_same : ℕ → Option ℕ → Bool
is_same p none = false
is_same p (some q) = q == p

unfoldable pub by_rules_given : MergeRules → Package → Option Package → Decision
unfolding by_rules
by_rules_given rules new_pkg none = decide false true true
by_rules_given rules new_pkg (some cur_pkg) = by_rules rules new_pkg cur_pkg

-- `lcfgpkglist_merge_package` up to the label `apply`.
unfoldable pub resolve : World → MergeRules → ℕ → Option ℕ → World × Decision
unfolding by_prefix check_pinned by_rules
resolve w rules p cur =
    let new_pkg = w.pkgs p in
    if is_same p cur
    then (w, decide false false true)
    else if rules.use_prefix && not (new_pkg.prefix == prefix_none)
    then check_pinned w p cur (by_prefix new_pkg (package_of w cur))
    else (w, by_rules_given rules new_pkg (package_of w cur))

unfoldable pub relinquish_given : World → Option ℕ → World
unfolding relinquish
relinquish_given w none = w
relinquish_given w (some p) = relinquish w p

-- The removal of the old package behind the label `apply`.
unfoldable pub remove_old : World → PackageList → Option ℕ → (World × PackageList) × Change
unfolding remove_next relinquish
remove_old w list prev =
    let ((list', old), rc) = remove_next list prev in
    if is_removed rc
    then ((relinquish_given w old, list'), change_removed)
    else ((w, list'), change_error)

-- The append of the new package, after a removal or not.
unfoldable pub append_new : World → PackageList → ℕ → Change → (World × PackageList) × Change
unfolding append
append_new w list p result =
    let ((w', list'), rc) = append w list p in
    if is_added rc
    then ((w', list'), if is_removed result then change_replaced else change_added)
    else ((w', list'), change_error)

-- `lcfgpkglist_merge_package` from the label `apply` on.
unfoldable pub apply :
    World → PackageList → Option ℕ → Bool → ℕ → Decision → (World × PackageList) × Change
unfolding remove_old append_new
apply w list prev found p d =
    let ((w', list'), result) =
      if d.remove_old && found then remove_old w list prev else ((w, list), change_none) in
    if not d.accept
    then ((w, list), change_error)
    else if d.append_new && change_ok result
    then append_new w' list' p result
    else ((w', list'), result)

abbrev pub found_package : Option (ℕ × ℕ) → Option ℕ
found_package none = none
found_package (some (i, p)) = some p

-- `lcfgpkglist_merge_package`
unfoldable pub merge_package : World → PackageList → ℕ → (World × PackageList) × Change
unfolding is_valid search resolve apply
merge_package w list p =
    let (prev, cur) = search w list.primary_key list.nodes (w.pkgs p) 0 none in
    let (w', d) = resolve w list.merge_rules p (found_package cur) in
    if not (is_valid (w.pkgs p))
    then ((w, list), change_error)
    else apply w' list prev (given cur) p d

-- The loop of `lcfgpkglist_merge_list` over the nodes of the second list.
unfoldable pub merge_all : World → PackageList → List ℕ → Change → (World × PackageList) × Change
unfolding merge_package is_valid
merge_all w list [] change = ((w, list), change)
merge_all w list (p ∷ ps) change =
    let ((w', list'), rc) = merge_package w list p in
    let change' =
      if not (change_ok rc)
      then change_error
      else if unchanged rc
      then change
      else change_modified in
    let merged = merge_all w' list' ps change' in
    let skipped = merge_all w list ps change in
    if not (change_ok change)
    then ((w, list), change)
    else if is_valid (w.pkgs p)
    then merged
    else skipped

-- `lcfgpkglist_merge_list`, of two lists.
unfoldable pub merge_list : World → PackageList → PackageList → (World × PackageList) × Change
unfolding merge_all
merge_list w list1 list2 =
    if list2.size == 0 then ((w, list1), change_none) else merge_all w list1 list2.nodes change_none
