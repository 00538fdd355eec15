-- ===== src/PackageList/Ordered.antt =====
-- What `lcfgpkglist_sort` of packages/list.c promises: the same packages, each one before those
-- that are greater.
use Prim.Native.Nat.{Ordering}
use lcfg_core.Common.{
  ℕ, zero, suc, ◌*◌, ◌<◌, ◌≡◌, refl, sym, ◌∙◌, Bool, true, false, List, [], ◌∷◌, length, ltb, ℤ,
  pos, negsuc, arith, Bool-cases, inl, inr,
}
use lcfg_core.Package.Compare.{compare_packages}
use lcfg_core.Package.Version.Segments.{sign}
use lcfg_core.Package.Version.Order.{flip, Composes}
use lcfg_core.Package.Order.{IsTexts}
use lcfg_core.Package.Preorder.{compare_packages_antisym, compare_packages-Composes}
use lcfg_core.Package.World.{World}
use lcfg_core.PackageList.{PackageList}
use lcfg_core.PackageList.Merge.{is_positive}
use lcfg_core.PackageList.Sort.{passes, sort}
use lcfg_core.PackageList.Sorted.{
  IsReordered, IsSorted, IsSortedFrom, passes-IsReordered, passes-enough,
}

-- The test of the sort: whether one package is greater than another.
abbrev pub greater : World → ℕ → ℕ → Bool
greater w p q = is_positive (compare_packages (w.pkgs p) (w.pkgs q))

-- A package is not greater than any of some others.
abbrev pub IsBelow : World → ℕ → List ℕ → Type 0
IsBelow w p [] = Unit
IsBelow w p (q ∷ qs) = (greater w p q ≡ false) × IsBelow w p qs

-- No package is greater than one behind it.
abbrev pub IsOrdered : World → List ℕ → Type 0
IsOrdered w [] = Unit
IsOrdered w (p ∷ ps) = IsBelow w p ps × IsOrdered w ps

positive-asym : (x y : ℤ) → sign y ≡ flip (sign x) → is_positive x ≡ true → is_positive y ≡ false
positive-asym (pos zero) y h k = ground (arith, k)
positive-asym (pos (suc n)) (pos zero) h k = refl
positive-asym (pos (suc n)) (pos (suc m)) h k = ground (arith, h)
positive-asym (pos (suc n)) (negsuc m) h k = refl
positive-asym (negsuc n) y h k = ground (arith, k)

-- Whether an order is "greater".
abbrev pub above : Ordering → Bool
above Ordering.gt = true
above _ = false

above-sign : (z : ℤ) → is_positive z ≡ above (sign z)
above-sign (pos zero) = refl
above-sign (pos (suc n)) = ground arith
above-sign (negsuc n) = refl

Composes-above :
    (p q r : Ordering) → Composes p q r → above p ≡ false → above q ≡ false → above r ≡ false
Composes-above Ordering.lt Ordering.lt r h a b = rw h refl
Composes-above Ordering.lt Ordering.eq r h a b = rw h refl
Composes-above Ordering.lt Ordering.gt r h a b = ground (arith, b)
Composes-above Ordering.eq q r h a b = rw h b
Composes-above Ordering.gt q r h a b = ground (arith, a)

module _ (w : World) (texts : (q : ℕ) → IsTexts (w.pkgs q)) where
  greater-asym : (p q : ℕ) → greater w p q ≡ true → greater w q p ≡ false
  greater-asym p q h =
      positive-asym (compare_packages (w.pkgs p) (w.pkgs q)) _
        (compare_packages_antisym (w.pkgs p) (w.pkgs q) (texts p) (texts q)) h

  greater_trans :
      (p q r : ℕ) → greater w p q ≡ false → greater w q r ≡ false → greater w p r ≡ false
  greater_trans p q r h k =
      above-sign (compare_packages (w.pkgs p) (w.pkgs r))
      ∙ Composes-above _ _ _
          (compare_packages-Composes (w.pkgs p) (w.pkgs q) (w.pkgs r) (texts p) (texts q) (texts r))
          (sym (above-sign (compare_packages (w.pkgs p) (w.pkgs q))) ∙ h)
          (sym (above-sign (compare_packages (w.pkgs q) (w.pkgs r))) ∙ k)

  IsBelow-trans : (p q : ℕ) (ps : List ℕ) → greater w p q ≡ false → IsBelow w q ps → IsBelow w p ps
  IsBelow-trans p q [] h k = tt
  IsBelow-trans p q (r ∷ ps) h (k, ks) = (greater_trans p q r h k, IsBelow-trans p q ps h ks)

  IsSortedFrom-IsOrdered :
      (p : ℕ) (ps : List ℕ) → IsSortedFrom (greater w) p ps → IsBelow w p ps × IsOrdered w ps
  unfolding IsSortedFrom
  IsSortedFrom-IsOrdered p [] h = (tt, tt)
  IsSortedFrom-IsOrdered p (q ∷ ps) (h, hs) =
      let (below, ordered) = IsSortedFrom-IsOrdered q ps hs in
      ((h, IsBelow-trans p q ps h below), (below, ordered))

  IsSorted-IsOrdered : (ps : List ℕ) → IsSorted (greater w) ps → IsOrdered w ps
  unfolding IsSorted
  IsSorted-IsOrdered [] h = tt
  IsSorted-IsOrdered (p ∷ ps) h = IsSortedFrom-IsOrdered p ps h

  short-IsOrdered : (ps : List ℕ) → length ps < 2 → IsOrdered w ps
  short-IsOrdered [] h = tt
  short-IsOrdered (p ∷ []) h = (tt, tt)
  short-IsOrdered (p ∷ q ∷ ps) h = ground (arith, h)

  passes-IsOrdered :
      (ps : List ℕ) → 1 < length ps → IsOrdered w (passes (greater w) (length ps * length ps) ps)
  passes-IsOrdered [] h = ground (arith, h)
  passes-IsOrdered (p ∷ ps) h = IsSorted-IsOrdered _ (passes-enough (greater w) greater-asym p ps)

-- The passes of `lcfgpkglist_sort` come to an end and leave the list in order: where no string on
-- the heap holds a NUL and the size is the number of nodes, no package is greater than one behind
-- it, and the nodes are the ones before.
pub sort-IsOrdered :
    (w : World) (list : PackageList)
    → ((q : ℕ) → IsTexts (w.pkgs q))
    → list.size ≡ length list.nodes
    → IsOrdered w (sort w list).nodes × IsReordered (sort w list).nodes list.nodes
unfolding sort
sort-IsOrdered w list texts sized = elim (Bool-cases (ltb list.size 2)) [
  | inl e ↦ rw e (short-IsOrdered w texts list.nodes (ground (arith, e, sized)), λ f. refl)
  | inr e ↦ rw e (
    passes-IsOrdered w texts list.nodes (ground (arith, e, sized)),
    λ f. passes-IsReordered (greater w) _ list.nodes f,
  )
]
