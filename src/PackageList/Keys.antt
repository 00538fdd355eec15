-- ===== src/PackageList/Keys.antt =====
-- The primary key of a package in a list: the test of `lcfgpkglist_merge_package` in
-- packages/list.c compares keys, and references to a package leave its key as it is.
use Prim.Native.Nat.{Ordering}
use lcfg_core.Common.{
  zero, suc, ◌≡◌, ◌≢◌, ◌↔◌, refl, sym, ap, ◌∙◌, Bool, true, false, not, ◌&&◌, ◌||◌, some, [], ◌∷◌,
  Bytes, or_default, strcmp, ℤ, pos, negsuc, is_zero, if◌then◌else◌, arith, Bool-cases, inl, inr,
}
use lcfg_core.Package.{Package, wildcard}
use lcfg_core.Package.Compare.{match, same_context}
use lcfg_core.Package.Version.Segments.{sign, IsText}
use lcfg_core.Package.Texts.{sign-strcmp, dictionary-eq}
use lcfg_core.Package.Order.{IsTexts}
use lcfg_core.PackageList.{PrimaryKey, same_key, match_arch}

-- No string of the package holds a NUL, and its architecture is not the wildcard.
pub record IsProper (pkg : Package) : Type 0 where
  pub texts : IsTexts pkg
  pub arch : or_default pkg.arch [] ≢ wildcard

-- The fields of the primary key.
abbrev pub Key : Type 0
Key = Bytes × Bytes × Bytes

abbrev pub triple : Bytes → Bytes → Bytes → Key
triple x y z = (x, y, z)

abbrev pub key_of : PrimaryKey → Package → Key
key_of key pkg =
    triple (or_default pkg.name []) (if key.by_arch then or_default pkg.arch [] else [])
      (if key.by_context then or_default pkg.context [] else [])

zero-eq : (z : ℤ) → is_zero z ≡ true → sign z ≡ Ordering.eq
zero-eq (pos zero) h = refl
zero-eq (pos (suc n)) h = ground (arith, h)
zero-eq (negsuc n) h = ground (arith, h)

pub strcmp_zero : (a b : Bytes) → IsText a → IsText b → is_zero (strcmp a b) ≡ true → a ≡ b
strcmp_zero a b h k z = dictionary-eq a b (sym (sign-strcmp a b h k) ∙ zero-eq (strcmp a b) z)

pub strcmp_refl : (a : Bytes) → is_zero (strcmp a a) ≡ true
unfolding strcmp
strcmp_refl [] = refl
strcmp_refl (c ∷ s) = ground (arith, strcmp_refl s)

strcmp_iff : (a b : Bytes) → IsText a → IsText b → (is_zero (strcmp a b) ≡ true) ↔ (a ≡ b)
strcmp_iff a b h k = (strcmp_zero a b h k, λ e. rw e (strcmp_refl b))

or_default_same : (s : Bytes) → or_default (some s) [] ≡ s
or_default_same [] = refl
or_default_same (c ∷ s) = refl

not_wildcard : (s : Bytes) → IsText s → s ≢ wildcard → is_zero (strcmp s wildcard) ≡ false
not_wildcard s h n = elim (Bool-cases (is_zero (strcmp s wildcard))) [
  | inl e ↦ elim (n (strcmp_zero s wildcard h (ground arith, tt) e)) [ ]
  | inr e ↦ e
]

all_true : (a b c : Bool) → ((a && b) && c) ≡ true → (a ≡ true) × (b ≡ true) × (c ≡ true)
all_true true true true h = (refl, refl, refl)
all_true true true false h = ground (arith, h)
all_true true false c h = ground (arith, h)
all_true false b c h = ground (arith, h)

-- Three tests of equality, on a triple.
triple_iff :
    (a b c : Bool) (x1 x2 x3 y1 y2 y3 : Bytes)
    → (a ≡ true) ↔ (x1 ≡ y1)
    → (b ≡ true) ↔ (x2 ≡ y2)
    → (c ≡ true) ↔ (x3 ≡ y3)
    → (((a && b) && c) ≡ true) ↔ (triple x1 x2 x3 ≡ triple y1 y2 y3)
triple_iff a b c x1 x2 x3 y1 y2 y3 f g h = (
  λ e. let (e1, e2, e3) = all_true a b c e in rw (f.0 e1, g.0 e2, h.0 e3) refl,
  λ e. rw (f.1 (ap (λ t. t.0) e), g.1 (ap (λ t. t.1) e), h.1 (ap (λ t. t.2) e)) refl,
)

module _ (key : PrimaryKey) (pkg new_pkg : Package) (h : IsProper pkg) (k : IsProper new_pkg) where
  arch_iff :
      ((if is_zero (strcmp (or_default (some (match_arch key new_pkg)) []) wildcard)
          then true
          else is_zero
              (strcmp (or_default pkg.arch []) (or_default (some (match_arch key new_pkg)) [])))
        ≡ true)
      ↔ ((if key.by_arch then or_default pkg.arch [] else [])
          ≡ (if key.by_arch then or_default new_pkg.arch [] else []))
  arch_iff = elim (Bool-cases key.by_arch) [
    | inl e ↦
        rw
          (
            e,
            or_default_same (or_default new_pkg.arch []),
            not_wildcard (or_default new_pkg.arch []) k.texts.arch k.arch,
          )
          (strcmp_iff _ _ h.texts.arch k.texts.arch)
    | inr e ↦ rw (e, strcmp_refl wildcard) (λ _. refl, λ _. refl)
  ]

  context_iff : ((not key.by_context || same_context pkg new_pkg) ≡ true) ↔ (
      (if key.by_context then or_default pkg.context [] else [])
      ≡ (if key.by_context then or_default new_pkg.context [] else []))
  unfolding same_context
  context_iff = elim (Bool-cases key.by_context) [
    | inl e ↦ rw e (strcmp_iff _ _ h.texts.context k.texts.context)
    | inr e ↦ rw e (λ _. refl, λ _. refl)
  ]

  -- The test of the search says whether the keys are equal.
  pub same_key_iff : (same_key key pkg new_pkg ≡ true) ↔ (key_of key pkg ≡ key_of key new_pkg)
  unfolding same_key match
  same_key_iff =
      triple_iff _ _ _ _ _ _ _ _ _ (strcmp_iff _ _ h.texts.name k.texts.name) arch_iff context_iff
