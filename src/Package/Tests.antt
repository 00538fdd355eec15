-- ===== src/Package/Tests.antt =====
-- Concrete runs on packages and versions, and instances of the theorems.
use lcfg_core.Common.{
  ℕ, ◌+◌, ◌≤◌, ◌<◌, ◌≡◌, refl, Bool, true, false, Option, none, some, [], ◌∷◌, Bytes, CString,
  codes, length, ltb, all_bytes, pos, negsuc, arith, Bool-cases, inl, inr, or_default,
}
use lcfg_core.Package
use lcfg_core.Package.{Package}
use lcfg_core.Package.Version.{debvercmp, compare_vstrings}
use lcfg_core.Package.Version.Segments.{sign, IsText, compare_pieces}
use lcfg_core.Package.Version.Order.{flip, Composes}
use lcfg_core.Package.Version.Preorder.{
  negate, debvercmp-compare_pieces, compare_vstrings_antisym, compare_vstrings-Composes,
}
use lcfg_core.Package.Compare.{compare_packages}
use lcfg_core.Package.Order.{IsTexts}
use lcfg_core.Package.Preorder.{compare_packages_antisym, compare_packages-Composes}

pub IsText-check : (s : Bytes) → all_bytes (λ c. ltb 0 c) s ≡ true → IsText s
IsText-check [] h = tt
IsText-check (c ∷ s) h = elim (Bool-cases (ltb 0 c)) [
  | inl e ↦ (ground (arith, e), IsText-check s (ground (arith, e, h)))
  | inr e ↦ ground (arith, e, h)
]

abbrev older : Bytes
older = codes "1.9"

abbrev newer : Bytes
newer = codes "1.10"

abbrev beta : Bytes
beta = codes "1.9~b"

test_numbers : compare_vstrings (some older) (some newer) ≡ negsuc 0
unfolding compare_vstrings lcfg_core.Common.is_digit
test_numbers = refl

test_tilde : compare_vstrings (some older) (some beta) ≡ pos 1
unfolding compare_vstrings lcfg_core.Common.is_digit
test_tilde = refl

debvercmp-compare_pieces_example :
    sign (debvercmp (some older) (some newer)) ≡ compare_pieces 20 older newer
debvercmp-compare_pieces_example =
    debvercmp-compare_pieces (some older) (some newer) 20 (IsText-check older refl)
      (IsText-check newer refl) (omega arith)

compare_vstrings_antisym_example :
    compare_vstrings (some newer) (some older) ≡ negate (compare_vstrings (some older) (some newer))
compare_vstrings_antisym_example =
    compare_vstrings_antisym (some older) (some newer) (IsText-check older refl)
      (IsText-check newer refl)

compare_vstrings-Composes_example :
    Composes
      (sign (compare_vstrings (some beta) (some older)))
      (sign (compare_vstrings (some older) (some newer)))
      (sign (compare_vstrings (some beta) (some newer)))
compare_vstrings-Composes_example =
    compare_vstrings-Composes (some beta) (some older) (some newer) (IsText-check beta refl)
      (IsText-check older refl) (IsText-check newer refl)

abbrev versioned : Bytes → Package
versioned v = record Package.new { name = some (codes "gcc"); version = some v }

versioned-IsTexts : (v : Bytes) → IsText (or_default (some v) []) → IsTexts (versioned v)
unfolding Package.new
versioned-IsTexts v h = record {
  name = IsText-check (codes "gcc") refl;
  arch = tt;
  version = h;
  release = tt;
  context = tt;
}

compare_packages_antisym_example :
    sign (compare_packages (versioned newer) (versioned older))
    ≡ flip (sign (compare_packages (versioned older) (versioned newer)))
compare_packages_antisym_example =
    compare_packages_antisym (versioned older) (versioned newer)
      (versioned-IsTexts older (IsText-check older refl))
      (versioned-IsTexts newer (IsText-check newer refl))

compare_packages-Composes_example :
    Composes
      (sign (compare_packages (versioned beta) (versioned older)))
      (sign (compare_packages (versioned older) (versioned newer)))
      (sign (compare_packages (versioned beta) (versioned newer)))
compare_packages-Composes_example =
    compare_packages-Composes (versioned beta) (versioned older) (versioned newer)
      (versioned-IsTexts beta (IsText-check beta refl))
      (versioned-IsTexts older (IsText-check older refl))
      (versioned-IsTexts newer (IsText-check newer refl))
