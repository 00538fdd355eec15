-- ===== src/Utils.antt =====
-- The string functions of utils/utils.c.
pub mod Hash
pub mod Scan
pub mod Items
pub mod Locate
pub mod Words
use lcfg_core.Common.{
  ℕ, zero, suc, ◌+◌, Bool, true, false, ◌&&◌, ◌||◌, Option, none, some, [], ◌∷◌, Bytes, CString,
  elem, is_empty, or_default, length, drop, if◌then◌else◌, Position, strstr, rejoin,
}

-- The position behind the next bytes, as many as the first argument says.
unfoldable pub advance : ℕ → Position → Position
advance zero p = p
advance (suc n) (passed, []) = (passed, [])
advance (suc n) (passed, c ∷ s) = advance n (c ∷ passed, s)

-- `haystack == match || strchr( separator, *( match - 1 ) )`
unfoldable pub is_start : Bytes → Bytes → Bool
is_start separator [] = true
is_start separator (c ∷ passed) = elem c separator

-- `*( match + needle_len ) == '\0' || strchr( separator, *( match + needle_len ) )`
unfoldable pub is_end : Bytes → Bytes → Bool
is_end separator [] = true
is_end separator (c ∷ s) = elem c separator

-- `match` is the position of an item, or the search goes on behind it.
unfoldable pub check_item : Bytes → Bytes → Option Position → Option Position → Option Position
unfolding is_start is_end
check_item needle separator none later = none
check_item needle separator (some (passed, s)) later =
    if is_start separator passed && is_end separator (drop (length needle) s)
    then some (passed, s)
    else later

-- Where the search goes on: behind the match.
unfoldable pub behind : Bytes → Option Position → Position
unfolding advance
behind needle none = ([], [])
behind needle (some p) = advance (length needle) p

-- The loop `while ( match != NULL )`, from the call of `strstr` on.
unfoldable pub find_loop : ℕ → Bytes → Bytes → Position → Option Position
unfolding check_item strstr behind
find_loop zero needle separator p = none
find_loop (suc fuel) needle separator p =
    let match = strstr needle p.0 p.1 in
    let later = find_loop fuel needle separator (behind needle match) in
    check_item needle separator match later

-- `lcfgutils_string_finditem`, of a needle that is not empty where there is a separator.
unfoldable pub finditem : CString → Bytes → Bytes → Option Position
unfolding find_loop strstr
finditem haystack needle separator =
    let s = or_default haystack [] in
    if is_empty haystack
    then none
    else if is_empty (some separator)
    then strstr needle [] s
    else find_loop (length s + 1) needle separator ([], s)

abbrev pub given {ℓ} : {A : Type ℓ} → Option A → Bool
given none = false
given (some _) = true

-- `lcfgutils_string_hasitem`
unfoldable pub hasitem : CString → Bytes → Bytes → Bool
unfolding finditem
hasitem haystack needle separator = given (finditem haystack needle separator)
