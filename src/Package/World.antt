-- ===== src/Package/World.antt =====
-- Packages on a heap beside the lists of derivations, and the operations that share and release
-- both: packages/package.c. A list of derivations that several packages share is copied before it
-- is changed.
use lcfg_core.Common.{
  ℕ, ◌+◌, ◌-◌, ◌%◌, Bool, true, false, not, ◌&&◌, Option, none, some, List, [], CString, is_empty,
  ltb, ◌==◌, if◌then◌else◌, Heap, update, Change, change_ok, unchanged, ℤ,
}
use lcfg_core.Derivation.{u32}
use lcfg_core.Derivation.Store.{Store, is_empty_list, merge_file_line}
use lcfg_core.Derivation.Lists.{clone_list, acquire_list, relinquish_list, merge_list}
use lcfg_core.Package
use lcfg_core.Package.{Package}

-- The packages, the derivations, and the first free address of a package.
pub record World : Type 0 where
  pub pkgs : Heap Package
  pub store : Store
  pub next_pkg : ℕ

-- `lcfgderivlist_relinquish`, of a pointer that may be NULL.
unfoldable pub relinquish_given : Store → Option ℕ → Store
unfolding relinquish_list
relinquish_given s none = s
relinquish_given s (some l) = relinquish_list s l

-- `lcfgderivlist_acquire`, unless the pointer is NULL.
unfoldable pub acquire_given : Store → Option ℕ → Store
unfolding acquire_list
acquire_given s none = s
acquire_given s (some l) = acquire_list s l

-- `lcfgpackage_destroy`: the fields are gone with the structure.
unfoldable pub destroy : World → ℕ → World
destroy w p = record w {
  pkgs = update w.pkgs p (record Package.new { refcount = 0 });
  store = relinquish_given w.store (w.pkgs p).derivation;
}

-- `lcfgpackage_acquire`
unfoldable pub acquire : World → ℕ → World
acquire w p =
    let pkg = w.pkgs p in
    record w { pkgs = update w.pkgs p (record pkg { refcount = (pkg.refcount + 1) % u32 }) }

-- `lcfgpackage_relinquish`
unfoldable pub relinquish : World → ℕ → World
unfolding destroy
relinquish w p =
    let pkg = w.pkgs p in
    let count = if ltb 0 pkg.refcount then pkg.refcount - 1 else pkg.refcount in
    let w' = record w { pkgs = update w.pkgs p (record pkg { refcount = count }) } in
    if count == 0 then destroy w' p else w'

-- `lcfgpackage_has_derivation`
unfoldable pub has_derivation : World → ℕ → Bool
has_derivation w p = not (is_empty_list w.store (w.pkgs p).derivation)

-- `lcfgpackage_set_derivation`
unfoldable pub set_derivation : World → ℕ → Option ℕ → World
set_derivation w p new_deriv =
    let pkg = w.pkgs p in
    record w {
      pkgs = update w.pkgs p (record pkg { derivation = new_deriv });
      store = acquire_given (relinquish_given w.store pkg.derivation) new_deriv;
    }

-- The nodes of a list, of a pointer that may be NULL.
abbrev pub nodes_given : Store → Option ℕ → List ℕ
nodes_given s none = []
nodes_given s (some l) = (s.lists l).nodes

-- The clone `c` of the derivation of `p` has been changed with this result.
unfoldable pub take_clone : World → ℕ → ℕ → Store × Change → World × Bool
unfolding set_derivation relinquish_list
take_clone w p c (s, rc) =
    let w' = record w { store = s } in
    let w'' = if change_ok rc && not (unchanged rc) then set_derivation w' p (some c) else w' in
    (record w'' { store = relinquish_list w''.store c }, change_ok rc)

-- `lcfgpackage_merge_derivation`: the second package may be NULL.
unfoldable pub merge_derivation : World → ℕ → Option ℕ → World × Bool
unfolding has_derivation set_derivation clone_list merge_list is_empty_list
merge_derivation w p1 none = (w, true)
merge_derivation w p1 (some p2) =
    let drvlist1 = (w.pkgs p1).derivation in
    let drvlist2 = (w.pkgs p2).derivation in
    let (s, clone) = clone_list w.store (nodes_given w.store drvlist1) in
    if not (has_derivation w p2)
    then (w, true)
    else if is_empty_list w.store drvlist1
    then (set_derivation w p1 drvlist2, true)
    else elim clone [
      | none ↦ (record w { store = s }, false)
      | some c ↦ take_clone w p1 c (merge_list s c drvlist2)
    ]

-- `lcfgpackage_add_derivation_file_line`. It is true where the clone or the merge fails, too.
unfoldable pub add_derivation_file_line : World → ℕ → CString → ℤ → World × Bool
unfolding clone_list merge_file_line
add_derivation_file_line w p filename line =
    let (s, clone) = clone_list w.store (nodes_given w.store (w.pkgs p).derivation) in
    if is_empty filename then (w, true) else elim clone [
      | none ↦ (record w { store = s }, true)
      | some c ↦ ((take_clone w p c (merge_file_line s c filename line)).0, true)
    ]
