-- ===== src/Package/Order.antt =====
-- The order of packages is a total preorder: `lcfgpackage_compare` of packages/package.c goes by
-- the name, the architecture, the epoch, the version and the release.
use Prim.Native.Nat.{compare, Ordering}
use lcfg_core.Common.{
  ℕ, zero, suc, ◌+◌, ◌-◌, ◌*◌, ◌≡◌, refl, ◌∙◌, none, some, [], ◌∷◌, map, Bytes, CString, or_default,
  to_lower, ℤ, pos, negsuc, is_zero, ltb, if◌then◌else◌, arith, Bool-cases, inl, inr, is_digit,
  skip_spaces, is_space, deref, not, ◌==◌,
}
use lcfg_core.Package.{Package}
use lcfg_core.Package.Compare.{
  spelled, strtoul, before_colon, signed, u64, extract_epoch, epoch_and_version, compare_versions,
  compare_names, compare_archs, compare_packages,
}
use lcfg_core.Package.Version.{compare_vstrings}
use lcfg_core.Package.Version.Segments.{sign, then_by, IsText}
use lcfg_core.Package.Version.Preorder.{IsTextOr}
use lcfg_core.Package.Texts.{dictionary, sign-strcmp, strcasecmp-strcmp, IsText-to_lower}

-- No NUL stands inside the strings that are compared.
pub record IsTexts (pkg : Package) : Type 0 where
  pub name : IsText (or_default pkg.name [])
  pub arch : IsText (or_default pkg.arch [])
  pub version : IsTextOr pkg.version
  pub release : IsTextOr pkg.release
  pub context : IsText (or_default pkg.context [])

-- The version string behind the epoch.
abbrev pub stripped : Package → CString
stripped pkg = (epoch_and_version pkg.version).1

abbrev pub epoch : Package → ℕ
epoch pkg = (epoch_and_version pkg.version).0

spelled-IsText : (acc : ℕ) (s : Bytes) → IsText s → IsText (spelled acc s).1
unfolding spelled
spelled-IsText acc [] h = tt
spelled-IsText acc (c ∷ s) (h, hs) = elim (Bool-cases (is_digit c)) [
  | inl e ↦ rw e (spelled-IsText (acc * 10 + (c - b'0')) s hs)
  | inr e ↦ rw e (h, hs)
]

skip_spaces-IsText : (s : Bytes) → IsText s → IsText (skip_spaces s)
unfolding skip_spaces
skip_spaces-IsText [] h = tt
skip_spaces-IsText (c ∷ s) (h, hs) = elim (Bool-cases (is_space c)) [
  | inl e ↦ rw e (skip_spaces-IsText s hs)
  | inr e ↦ rw e (h, hs)
]

signed-IsText : (s : Bytes) → IsText s → IsText (signed s).1
signed-IsText [] h = tt
signed-IsText (c ∷ s) (h, hs) = elim (Bool-cases (c == b'-')) [
  | inl e ↦ rw e hs
  | inr e ↦ elim (Bool-cases (c == b'+')) [ inl f ↦ rw (e, f) hs | inr f ↦ rw (e, f) (h, hs) ]
]

IsTextOr-some : (s : Bytes) → IsText s → IsTextOr (some s)
IsTextOr-some [] h = tt
IsTextOr-some (c ∷ s) h = h

strtoul-IsText : (s : Bytes) → IsText s → IsTextOr (strtoul s).1
unfolding strtoul
strtoul-IsText s h =
    let t = (signed (skip_spaces s)).1 in
    let k =
      IsTextOr-some (spelled 0 t).1
        (spelled-IsText 0 t (signed-IsText (skip_spaces s) (skip_spaces-IsText s h))) in
    elim (Bool-cases (not (is_digit (deref t)))) [
      | inl e ↦ rw e tt
      | inr e ↦ elim (Bool-cases (ltb (spelled 0 t).0 u64)) [
        | inl f ↦ elim (Bool-cases (signed (skip_spaces s)).0) [
          | inl m ↦ rw (e, f, m) k
          | inr m ↦ rw (e, f, m) k
        ]
        | inr f ↦ rw (e, f) k
      ]
    ]

before_colon-IsText :
    (version : Bytes) (r : ℕ × CString)
    → IsText version
    → IsTextOr r.1
    → IsText (before_colon version r).1
before_colon-IsText version (n, none) h k = h
before_colon-IsText version (n, some []) h k = h
before_colon-IsText version (n, some (c ∷ s)) h (_, ks) = elim (Bool-cases (c == b':')) [
  | inl e ↦ rw e ks
  | inr e ↦ rw e h
]

pub stripped-IsText : (v : CString) → IsTextOr v → IsTextOr (epoch_and_version v).1
unfolding epoch_and_version extract_epoch
stripped-IsText none h = tt
stripped-IsText (some []) h = tt
stripped-IsText (some (c ∷ s)) h =
    IsTextOr-some _ (before_colon-IsText (c ∷ s) (strtoul (c ∷ s)) h (strtoul-IsText (c ∷ s) h))

-- The order of packages: each field decides where those before it find no difference.
unfoldable pub package_order : Package → Package → Ordering
package_order p q =
    then_by (dictionary (map to_lower (or_default p.name [])) (map to_lower (or_default q.name [])))
      (then_by (dictionary (or_default p.arch []) (or_default q.arch [])) (
        then_by (compare (epoch p) (epoch q)) (
          then_by (sign (compare_vstrings (stripped p) (stripped q)))
            (sign (compare_vstrings p.release q.release)))))

sign-ladder : (z : ℤ) (r : ℤ) → sign (if not (is_zero z) then z else r) ≡ then_by (sign z) (sign r)
sign-ladder (pos zero) r = refl
sign-ladder (pos (suc n)) r = refl
sign-ladder (negsuc n) r = refl

sign-epochs :
    (m n : ℕ) (v r : ℤ)
    → sign (if ltb n m then pos 1 else if ltb m n then negsuc 0 else if is_zero v then r else v)
      ≡ then_by (compare m n) (then_by (sign v) (sign r))
sign-epochs m n (pos zero) r = ground arith
sign-epochs m n (pos (suc v)) r = ground arith
sign-epochs m n (negsuc v) r = ground arith

-- `lcfgpackage_compare` returns that order.
pub sign-compare_packages :
    (p q : Package) → IsTexts p → IsTexts q → sign (compare_packages p q) ≡ package_order p q
unfolding compare_packages compare_names compare_archs compare_versions package_order
sign-compare_packages p q h k =
    sign-ladder (compare_names p q)
      (if not (is_zero (compare_archs p q)) then compare_archs p q else compare_versions p q)
    ∙ rw
        (
          sign-ladder (compare_archs p q) (compare_versions p q),
          strcasecmp-strcmp (or_default p.name []) (or_default q.name []),
          sign-strcmp (map to_lower (or_default p.name [])) (map to_lower (or_default q.name []))
              (IsText-to_lower _ h.name) (IsText-to_lower _ k.name),
          sign-strcmp (or_default p.arch []) (or_default q.arch []) h.arch k.arch,
          sign-epochs (epoch p) (epoch q) (compare_vstrings (stripped p) (stripped q))
              (compare_vstrings p.release q.release),
        )
        refl
