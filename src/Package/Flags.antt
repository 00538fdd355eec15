-- ===== src/Package/Flags.antt =====
-- The flags of a package: packages/package.c. Each flag is a letter or a digit.
use lcfg_core.Common.{
  ℕ, zero, suc, ◌+◌, ◌-◌, Bool, true, false, not, ◌&&◌, ◌||◌, none, some, [], ◌∷◌, Bytes, CString,
  is_empty, or_default, is_alnum, elem, ltb, ◌==◌, if◌then◌else◌, length,
}
use lcfg_core.Package.{Package, valid_bytes}

-- `lcfgpackage_valid_flag_chr`
unfoldable pub valid_flag_chr : ℕ → Bool
valid_flag_chr flag = is_alnum flag

-- `lcfgpackage_valid_flags`
unfoldable pub valid_flags : CString → Bool
unfolding valid_flag_chr
valid_flags flags = valid_bytes valid_flag_chr flags

-- `lcfgpackage_set_flags`
unfoldable pub set_flags : Package → CString → Package × Bool
unfolding valid_flags
set_flags pkg new_flags =
    if valid_flags new_flags then (record pkg { flags = new_flags }, true) else (pkg, false)

-- `lcfgpackage_clear_flags`
unfoldable pub clear_flags : Package → Package × Bool
clear_flags pkg = (record pkg { flags = none }, true)

-- `lcfgpackage_has_flag`, of a flag that is not NUL.
unfoldable pub has_flag : Package → ℕ → Bool
has_flag pkg flag = not (is_empty pkg.flags) && elem flag (or_default pkg.flags [])

-- The array `char_set`: whether each offset from '0' has been met.
abbrev pub CharSet : Type 0
CharSet = ℕ → Bool

-- A loop of `lcfgpackage_add_flags` over the flags in a string, which counts the new ones.
-- The flags are not below '0'.
unfoldable pub collect : Bytes → CharSet → ℕ → CharSet × ℕ
collect [] char_set new_len = (char_set, new_len)
collect (c ∷ s) char_set new_len =
    let val = c - b'0' in
    let char_set' : CharSet = λ i. i == val || char_set i in
    let met = collect s char_set new_len in
    let added = collect s char_set' (new_len + 1) in
    if ltb val 128 && not (char_set val) then added else met

-- The loop that writes the `left` flags at the offsets from `i` on.
unfoldable pub write_flags : ℕ → ℕ → CharSet → Bytes
write_flags zero i char_set = []
write_flags (suc left) i char_set =
    let rest = write_flags left (i + 1) char_set in if char_set i then (i + b'0') ∷ rest else rest

-- `lcfgpackage_add_flags`
unfoldable pub add_flags : Package → CString → Package × Bool
unfolding valid_flags collect write_flags set_flags
add_flags pkg extra_flags =
    let current = or_default pkg.flags [] in
    let (char_set1, len1) = collect current (λ i. false) 0 in
    let (char_set, new_len) = collect (or_default extra_flags []) char_set1 len1 in
    if is_empty extra_flags
    then (pkg, true)
    else if not (valid_flags extra_flags)
    then (pkg, false)
    else if new_len == length current
    then (pkg, true)
    else set_flags pkg (some (write_flags 128 0 char_set))
