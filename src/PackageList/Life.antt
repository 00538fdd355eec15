-- ===== src/PackageList/Life.antt =====
-- The life of a list of packages: packages/list.c. The list gives its references back when its own
-- last reference goes.
use lcfg_core.Common.{ℕ, zero, suc, ◌+◌, ◌-◌, ◌%◌, none, ltb, ◌==◌, if◌then◌else◌, is_removed}
use lcfg_core.Derivation.{u32}
use lcfg_core.Package.World.{World}
use lcfg_core.PackageList.{PackageList, remove_next}
use lcfg_core.PackageList.Merge.{relinquish_given}

-- The loop of `lcfgpkglist_destroy`. A round of it removes the head.
unfoldable pub drain : ℕ → World → PackageList → World × PackageList
unfolding remove_next relinquish_given
drain zero w list = (w, list)
drain (suc fuel) w list =
    let ((list', pkg), rc) = remove_next list none in
    let removed = drain fuel (relinquish_given w pkg) list' in
    let failed = drain fuel w list' in
    if ltb 0 list.size then (if is_removed rc then removed else failed) else (w, list)

-- `lcfgpkglist_destroy`: what becomes of the packages. The size is enough fuel.
unfoldable pub destroy : World → PackageList → World
unfolding drain
destroy w list = (drain list.size w list).0

-- `lcfgpkglist_acquire`
unfoldable pub acquire : PackageList → PackageList
acquire list = record list { refcount = (list.refcount + 1) % u32 }

-- `lcfgpkglist_relinquish`
unfoldable pub relinquish : World → PackageList → World × PackageList
unfolding destroy
relinquish w list =
    let count = if ltb 0 list.refcount then list.refcount - 1 else list.refcount in
    let list' = record list { refcount = count } in
    if count == 0 then (destroy w list', list') else (w, list')
