-- ===== src/Package/Preorder.antt =====
-- The order of packages is antisymmetric up to ties and transitive: `lcfgpackage_compare` of
-- packages/package.c.
use Prim.Native.Nat.{Ordering}
use lcfg_core.Common.{◌≡◌, refl, sym, ap, ◌∙◌, zero, suc, ℤ, pos, negsuc}
use lcfg_core.Package.{Package}
use lcfg_core.Package.Compare.{compare_packages}
use lcfg_core.Package.Version.{compare_vstrings}
use lcfg_core.Package.Version.Segments.{sign, then_by}
use lcfg_core.Package.Version.Order.{
  flip, Composes, compare-flip, compare-Composes, flip-then_by, Composes-then_by,
}
use lcfg_core.Package.Version.Preorder.{
  IsTextOr, negate, compare_vstrings_antisym, compare_vstrings-Composes,
}
use lcfg_core.Package.Texts.{dictionary-flip, dictionary-Composes}
use lcfg_core.Package.Order.{
  IsTexts, stripped, epoch, stripped-IsText, package_order, sign-compare_packages,
}

flip-negate : (z : ℤ) → sign (negate z) ≡ flip (sign z)
flip-negate (pos zero) = refl
flip-negate (pos (suc n)) = refl
flip-negate (negsuc n) = refl

then_by-flips :
    (p q p' q' : Ordering) → p' ≡ flip p → q' ≡ flip q → then_by p' q' ≡ flip (then_by p q)
then_by-flips p q p' q' h k = rw (h, k, flip-then_by p q) refl

vstrings-flip :
    (v1 v2 : _)
    → IsTextOr v1
    → IsTextOr v2
    → sign (compare_vstrings v2 v1) ≡ flip (sign (compare_vstrings v1 v2))
vstrings-flip v1 v2 h k =
    ap sign (compare_vstrings_antisym v1 v2 h k) ∙ flip-negate (compare_vstrings v1 v2)

package_order-flip :
    (p q : Package) → IsTexts p → IsTexts q → package_order q p ≡ flip (package_order p q)
unfolding package_order
package_order-flip p q h k = then_by-flips _ _ _ _ (dictionary-flip _ _) (
    then_by-flips _ _ _ _ (dictionary-flip _ _) (
      then_by-flips _ _ _ _ (compare-flip (epoch p) (epoch q)) (
        then_by-flips _ _ _ _
          (vstrings-flip (stripped p) (stripped q) (stripped-IsText p.version h.version)
            (stripped-IsText q.version k.version))
          (vstrings-flip p.release q.release h.release k.release))))

package_order-Composes :
    (p q r : Package)
    → IsTexts p
    → IsTexts q
    → IsTexts r
    → Composes (package_order p q) (package_order q r) (package_order p r)
unfolding package_order
package_order-Composes p q r h k l =
    Composes-then_by _ _ _ _ _ _ (dictionary-Composes _ _ _) (λ _ _.
      Composes-then_by _ _ _ _ _ _ (dictionary-Composes _ _ _) (λ _ _.
        Composes-then_by _ _ _ _ _ _ (compare-Composes (epoch p) (epoch q) (epoch r)) (λ _ _.
          Composes-then_by _ _ _ _ _ _
            (compare_vstrings-Composes (stripped p) (stripped q) (stripped r)
              (stripped-IsText p.version h.version) (stripped-IsText q.version k.version)
              (stripped-IsText r.version l.version))
            (λ _ _.
              compare_vstrings-Composes p.release q.release r.release h.release k.release
                l.release))))

-- Swapping two packages reverses the sign of `lcfgpackage_compare`, for packages whose strings
-- hold no NUL.
pub compare_packages_antisym :
    (p q : Package)
    → IsTexts p
    → IsTexts q
    → sign (compare_packages q p) ≡ flip (sign (compare_packages p q))
compare_packages_antisym p q h k =
    sign-compare_packages q p k h
    ∙ package_order-flip p q h k
    ∙ ap flip (sym (sign-compare_packages p q h k))

-- `lcfgpackage_compare` is transitive on packages whose strings hold no NUL: what its signs on
-- (p, q) and on (q, r) say together holds of its sign on (p, r).
pub compare_packages-Composes :
    (p q r : Package)
    → IsTexts p
    → IsTexts q
    → IsTexts r
    → Composes
        (sign (compare_packages p q))
        (sign (compare_packages q r))
        (sign (compare_packages p r))
compare_packages-Composes p q r h k l =
    rw (sign-compare_packages p q h k, sign-compare_packages q r k l, sign-compare_packages p r h l)
      (package_order-Composes p q r h k l)
