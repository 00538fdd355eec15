-- ===== src/PackageList/Drained.antt =====
-- Destroying a list of packages gives back exactly the references that it held: packages/list.c.
use lcfg_core.Common.{
  ℕ, zero, suc, ◌-◌, ◌≡◌, refl, true, false, List, [], ◌∷◌, length, arith, ltb, ◌==◌,
}
use lcfg_core.Package.World.{World, relinquish}
use lcfg_core.PackageList.{PackageList}
use lcfg_core.PackageList.Life.{drain, destroy}
use lcfg_core.PackageList.Counts.{IsCounted, held_self, relinquish-refcount}

drain-IsCounted :
    (n : ℕ) (w : World) (list : PackageList) (ps : List ℕ) (others : ℕ → ℕ)
    → list.nodes ≡ ps
    → list.size ≡ length ps
    → n ≡ length ps
    → IsCounted w ps others
    → IsCounted (drain n w list).0 [] others
unfolding drain
drain-IsCounted zero w list [] others e sized k counted = counted
drain-IsCounted zero w list (p ∷ ps) others e sized k counted = ground (arith, k)
drain-IsCounted (suc n) w list [] others e sized k counted = ground (arith, k)
drain-IsCounted (suc n) w list (p ∷ ps) others e sized k counted =
    let positive : ltb 0 list.size ≡ true = ground (arith, sized) in
    let filled : (list.size == 0) ≡ false = ground (arith, sized) in
    rw (positive, filled, e)
      (drain-IsCounted n (relinquish w p) (record list { nodes = ps; size = list.size - 1 }) ps
        others refl (omega (arith, sized)) (omega (arith, k))
        (λ x.
          omega (
            arith,
            counted x,
            relinquish-refcount w p x (omega (arith, counted p, held_self p ps)),
          )))

-- A list whose size is the number of its nodes is drained to the end: where each package had one
-- reference for each node of the list that held it and those held elsewhere, just the latter stay.
pub destroy-IsCounted :
    (w : World) (list : PackageList) (others : ℕ → ℕ)
    → list.size ≡ length list.nodes
    → IsCounted w list.nodes others
    → IsCounted (destroy w list) [] others
unfolding destroy
destroy-IsCounted w list others sized counted =
    drain-IsCounted list.size w list list.nodes others refl sized sized counted
