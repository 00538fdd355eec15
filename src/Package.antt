-- ===== src/Package.antt =====
-- Packages: packages/package.c. The fields of a package with the tests that the setters make.
pub mod Version
pub mod Flags
pub mod Compare
pub mod World
pub mod Texts
pub mod Order
pub mod Preorder
pub mod Keeps
pub mod Tests
use lcfg_core.Common.{
  ℕ, Bool, true, false, not, ◌&&◌, ◌||◌, Option, none, some, [], ◌∷◌, Bytes, CString, codes,
  is_empty, or_default, is_alnum, is_word, is_space, elem, all_bytes, ℤ, pos, negsuc, ◌==◌,
  if◌then◌else◌, ◌++◌,
}

-- `LCFGPackage`. The derivation is the address of a list of derivations.
pub record Package : Type 0 where
  pub name : CString
  pub arch : CString
  pub version : CString
  pub release : CString
  pub flags : CString
  pub context : CString
  pub derivation : Option ℕ
  pub category : CString
  pub prefix : ℕ
  pub priority : ℤ
  pub refcount : ℕ

-- `LCFG_PKG_PREFIX_NONE`
abbrev pub prefix_none : ℕ
prefix_none = 0

-- `LCFG_PKG_WILDCARD`
abbrev pub wildcard : Bytes
wildcard = codes "*"

-- `lcfgpackage_new`
unfoldable pub new : Package
new = record {
  name = none;
  arch = none;
  version = none;
  release = none;
  flags = none;
  context = none;
  derivation = none;
  category = none;
  prefix = prefix_none;
  priority = pos 0;
  refcount = 1;
}

-- `lcfgpackage_is_valid`, of a pointer that is not NULL.
unfoldable pub is_valid : Package → Bool
is_valid pkg = not (is_empty pkg.name)

-- The macro `isnamechr`.
unfoldable pub is_name_chr : ℕ → Bool
is_name_chr c = is_word c || elem c (codes "-.+")

-- `lcfgpackage_valid_name`
unfoldable pub valid_name : CString → Bool
unfolding is_name_chr
valid_name none = false
valid_name (some []) = false
valid_name (some (c ∷ s)) = is_alnum c && all_bytes is_name_chr s

-- `lcfgpackage_set_name`
unfoldable pub set_name : Package → CString → Package × Bool
unfolding valid_name
set_name pkg new_name =
    if valid_name new_name then (record pkg { name = new_name }, true) else (pkg, false)

-- A string with a byte at least, and each byte passes the test.
abbrev pub valid_bytes : (ℕ → Bool) → CString → Bool
valid_bytes p s = not (is_empty s) && all_bytes p (or_default s [])

-- `lcfgpackage_valid_arch`
unfoldable pub valid_arch : CString → Bool
valid_arch arch = valid_bytes (λ c. is_word c || c == b'-') arch

-- `lcfgpackage_set_arch`
unfoldable pub set_arch : Package → CString → Package × Bool
unfolding valid_arch
set_arch pkg new_arch =
    if valid_arch new_arch then (record pkg { arch = new_arch }, true) else (pkg, false)

-- The macro `isverchr`.
unfoldable pub is_ver_chr : ℕ → Bool
is_ver_chr c = is_alnum c || elem c (codes ".~_+-:*?")

-- `lcfgpackage_valid_version`
unfoldable pub valid_version : CString → Bool
unfolding is_ver_chr
valid_version version = valid_bytes is_ver_chr version

-- `lcfgpackage_set_version`
unfoldable pub set_version : Package → CString → Package × Bool
unfolding valid_version
set_version pkg new_version =
    if valid_version new_version then (record pkg { version = new_version }, true) else (pkg, false)

-- The macro `isrelchr`.
unfoldable pub is_rel_chr : ℕ → Bool
is_rel_chr c = is_alnum c || elem c (codes ".~_+*?")

-- `lcfgpackage_valid_release`
unfoldable pub valid_release : CString → Bool
unfolding is_rel_chr
valid_release release = valid_bytes is_rel_chr release

-- `lcfgpackage_set_release`
unfoldable pub set_release : Package → CString → Package × Bool
unfolding valid_release
set_release pkg new_release =
    if valid_release new_release then (record pkg { release = new_release }, true) else (pkg, false)

-- `lcfgpackage_valid_prefix`: `strchr` finds the NUL at the end of the list as well.
unfoldable pub valid_prefix : ℕ → Bool
valid_prefix prefix = prefix == 0 || elem prefix (codes "?+-!~>")

-- `lcfgpackage_set_prefix`
unfoldable pub set_prefix : Package → ℕ → Package × Bool
unfolding valid_prefix
set_prefix pkg new_prefix =
    if valid_prefix new_prefix then (record pkg { prefix = new_prefix }, true) else (pkg, false)

-- `lcfgpackage_clear_prefix`
unfoldable pub clear_prefix : Package → Package × Bool
clear_prefix pkg = (record pkg { prefix = prefix_none }, true)

-- `lcfgpackage_valid_category`
unfoldable pub valid_category : CString → Bool
valid_category value = valid_bytes (λ c. not (is_space c)) value

-- `lcfgpackage_set_category`
unfoldable pub set_category : Package → CString → Package × Bool
unfolding valid_category
set_category pkg new_value =
    if valid_category new_value then (record pkg { category = new_value }, true) else (pkg, false)

-- `lcfgpackage_set_priority`
unfoldable pub set_priority : Package → ℤ → Package × Bool
set_priority pkg new_prio = (record pkg { priority = new_prio }, true)

-- `lcfgpackage_is_active`
unfoldable pub is_active : Package → Bool
is_active pkg = elim pkg.priority [ pos n ↦ true | negsuc n ↦ false ]

-- `lcfgpackage_full_version`
unfoldable pub full_version : Package → Bytes
full_version pkg =
    let v = or_default pkg.version wildcard in
    if not (is_empty pkg.release) then v ++ b'-' ∷ or_default pkg.release [] else v

-- `lcfgpackage_id`
unfoldable pub id : Package → CString
id pkg =
    if is_empty pkg.name
    then none
    else if is_empty pkg.arch
    then some (or_default pkg.name [])
    else some (or_default pkg.name [] ++ b'.' ∷ or_default pkg.arch [])
