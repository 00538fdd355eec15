-- ===== src/Package/Compare.antt =====
-- The comparisons of packages: packages/package.c.
use lcfg_core.Common.{
  ℕ, ◌+◌, ◌-◌, ◌*◌, ◌%◌, ◌^◌, Bool, true, false, not, ◌&&◌, Option, none, some, [], ◌∷◌, Bytes,
  CString, or_default, is_digit, deref, strcmp, strcasecmp, skip_spaces, ℤ, pos, negsuc, is_zero,
  ltb, ◌==◌, if◌then◌else◌,
}
use lcfg_core.Package.{Package, wildcard}
use lcfg_core.Package.Version.{compare_vstrings}

-- The number that the digits in front spell, and what follows them.
unfoldable pub spelled : ℕ → Bytes → ℕ × Bytes
spelled acc [] = (acc, [])
spelled acc (c ∷ s) =
    let more = spelled (acc * 10 + (c - b'0')) s in if is_digit c then more else (acc, c ∷ s)

-- The sign of a number: whether it is a minus, and what follows it.
abbrev pub signed : Bytes → Bool × Bytes
signed [] = (false, [])
signed (c ∷ s) = if c == b'-' then (true, s) else if c == b'+' then (false, s) else (false, c ∷ s)

-- `unsigned long int`
abbrev pub u64 : ℕ
u64 = 2 ^ 64

-- `strtoul( s, &endptr, 10 )`: the value, and the text at `endptr` if there is a number.
unfoldable pub strtoul : Bytes → ℕ × Option Bytes
unfolding spelled
strtoul s =
    let (minus, t) = signed (skip_spaces s) in
    let (n, rest) = spelled 0 t in
    if not (is_digit (deref t))
    then (0, none)
    else if not (ltb n u64)
    then (u64 - 1, some rest)
    else if minus
    then ((u64 - n) % u64, some rest)
    else (n, some rest)

-- The epoch that `strtoul` has read counts only if a colon follows.
abbrev pub before_colon : Bytes → ℕ × Option Bytes → ℕ × Bytes
before_colon version (epoch, none) = (0, version)
before_colon version (epoch, some []) = (0, version)
before_colon version (epoch, some (c ∷ s)) = if c == b':' then (epoch, s) else (0, version)

-- `extract_epoch`: the epoch, and the version behind it.
unfoldable pub extract_epoch : Bytes → ℕ × Bytes
unfolding strtoul
extract_epoch version = before_colon version (strtoul version)

-- The epoch and the version string of a package, which may have none.
unfoldable pub epoch_and_version : CString → ℕ × CString
unfolding extract_epoch
epoch_and_version none = (0, none)
epoch_and_version (some []) = (0, some [])
epoch_and_version (some (c ∷ s)) = let (epoch, v) = extract_epoch (c ∷ s) in (epoch, some v)

-- `lcfgpackage_compare_versions`
unfoldable pub compare_versions : Package → Package → ℤ
unfolding extract_epoch
compare_versions pkg1 pkg2 =
    let (epoch1, v1) = epoch_and_version pkg1.version in
    let (epoch2, v2) = epoch_and_version pkg2.version in
    let result = compare_vstrings v1 v2 in
    if ltb epoch2 epoch1
    then pos 1
    else if ltb epoch1 epoch2
    then negsuc 0
    else if is_zero result
    then compare_vstrings pkg1.release pkg2.release
    else result

-- `lcfgpackage_compare_names`
unfoldable pub compare_names : Package → Package → ℤ
compare_names pkg1 pkg2 = strcasecmp (or_default pkg1.name []) (or_default pkg2.name [])

-- `lcfgpackage_compare_archs`
unfoldable pub compare_archs : Package → Package → ℤ
compare_archs pkg1 pkg2 = strcmp (or_default pkg1.arch []) (or_default pkg2.arch [])

-- `lcfgpackage_compare`
unfoldable pub compare_packages : Package → Package → ℤ
unfolding compare_names compare_archs compare_versions
compare_packages pkg1 pkg2 =
    let names = compare_names pkg1 pkg2 in
    let archs = compare_archs pkg1 pkg2 in
    if not (is_zero names)
    then names
    else if not (is_zero archs)
    then archs
    else compare_versions pkg1 pkg2

-- `lcfgpackage_equals`
unfoldable pub equals : Package → Package → Bool
unfolding compare_names compare_archs compare_versions
equals pkg1 pkg2 =
    is_zero (compare_names pkg1 pkg2)
    && is_zero (compare_archs pkg1 pkg2)
    && is_zero (compare_versions pkg1 pkg2)
    && is_zero (strcmp (or_default pkg1.flags []) (or_default pkg2.flags []))
    && is_zero (strcmp (or_default pkg1.context []) (or_default pkg2.context []))

-- `lcfgpackage_match`
unfoldable pub match : Package → Bytes → CString → Bool
match pkg name arch =
    let arch' = or_default arch [] in
    is_zero (strcmp (or_default pkg.name []) name)
    && (if is_zero (strcmp arch' wildcard)
        then true
        else is_zero (strcmp (or_default pkg.arch []) arch'))

-- `lcfgpackage_same_context`, by `lcfgcontext_compare_expressions`.
unfoldable pub same_context : Package → Package → Bool
same_context pkg1 pkg2 = is_zero (strcmp (or_default pkg1.context []) (or_default pkg2.context []))
