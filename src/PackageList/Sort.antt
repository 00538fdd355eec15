-- ===== src/PackageList/Sort.antt =====
-- The bubble sort of packages: packages/list.c.
use lcfg_core.Common.{
  ℕ, zero, suc, ◌*◌, Bool, true, false, List, [], ◌∷◌, length, ltb, if◌then◌else◌,
}
use lcfg_core.Package.Compare.{compare_packages}
use lcfg_core.Package.World.{World}
use lcfg_core.PackageList.{PackageList}
use lcfg_core.PackageList.Merge.{is_positive}

module _ (greater : ℕ → ℕ → Bool) where
  -- One run of the inner loop over the nodes: the new order, and whether two were swapped.
  unfoldable pub bubble : ℕ → List ℕ → List ℕ × Bool
  bubble p [] = (p ∷ [], false)
  bubble p (q ∷ ps) =
      let (kept, s1) = bubble q ps in
      let (moved, s2) = bubble p ps in if greater p q then (q ∷ moved, true) else (p ∷ kept, s1)

  unfoldable pub pass : List ℕ → List ℕ × Bool
  unfolding bubble
  pass [] = ([], false)
  pass (p ∷ ps) = bubble p ps

  -- `while (swapped)`, at most `fuel` times.
  unfoldable pub passes : ℕ → List ℕ → List ℕ
  unfolding pass
  passes zero ps = ps
  passes (suc fuel) ps =
      let (qs, swapped) = pass ps in let more = passes fuel qs in if swapped then more else qs

-- `lcfgpkglist_sort`. The passes end before this fuel does.
unfoldable pub sort : World → PackageList → PackageList
unfolding passes compare_packages
sort w list = if ltb list.size 2 then list else record list {
  nodes =
      passes (λ p q. is_positive (compare_packages (w.pkgs p) (w.pkgs q)))
        (length list.nodes * length list.nodes) list.nodes;
}
