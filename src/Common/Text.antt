-- ===== src/Common/Text.antt =====
-- C strings, the `ctype.h` tests in the C locale, and the `string.h` functions that the
-- components call. A text is its bytes without the final NUL; `none` is the NULL pointer.
use Prim.Native.Nat.{ℕ, ◌+◌}
use Prim.Native.Char.{code}
use Prim.Native.String.{String}
use mathlib.Core.Bool.{Bool, true, false, ◌&&◌, ◌||◌}
use mathlib.Core.List.{List, [], ◌∷◌}
use mathlib.Core.Option.{Option, none, some}
use lcfg_core.Common.Tests.{leb, ◌==◌, if◌then◌else◌}
use lcfg_core.Common.Int.{ℤ, pos, sub_ℕ}

abbrev pub Bytes : Type 0
Bytes = List ℕ

abbrev pub CString : Type 0
CString = Option Bytes

-- The bytes of an ASCII text.
abbrev pub codes : String → Bytes
codes String.[] = []
codes (String.◌∷◌ c s) = code c ∷ codes s

abbrev pub within : ℕ → ℕ → ℕ → Bool
within lo hi c = leb lo c && leb c hi

unfoldable pub is_digit : ℕ → Bool
is_digit c = within b'0' b'9' c

unfoldable pub is_upper : ℕ → Bool
is_upper c = within b'A' b'Z' c

unfoldable pub is_alpha : ℕ → Bool
unfolding is_upper
is_alpha c = is_upper c || within b'a' b'z' c

unfoldable pub is_alnum : ℕ → Bool
unfolding is_alpha is_digit
is_alnum c = is_alpha c || is_digit c

-- Space, and \t \n \v \f \r.
unfoldable pub is_space : ℕ → Bool
is_space c = within 9 13 c || c == b' '

unfoldable pub to_lower : ℕ → ℕ
unfolding is_upper
to_lower c = if is_upper c then c + 32 else c

-- The macro `isword` of include/common.h.
unfoldable pub is_word : ℕ → Bool
unfolding is_alnum
is_word c = is_alnum c || c == b'_'

-- The macro `isempty` of include/common.h.
abbrev pub is_empty : CString → Bool
is_empty none = true
is_empty (some []) = true
is_empty (some (c ∷ s)) = false

-- The macro `or_default` of include/common.h.
abbrev pub or_default : CString → Bytes → Bytes
or_default none d = d
or_default (some []) d = d
or_default (some (c ∷ s)) d = c ∷ s

-- `*ptr`: the byte at the pointer, which is NUL at the end of the text.
abbrev pub deref : Bytes → ℕ
deref [] = 0
deref (c ∷ s) = c

-- `strchr(s, c) != NULL` for a byte other than NUL.
abbrev pub elem : ℕ → Bytes → Bool
elem c [] = false
elem c (d ∷ s) = c == d || elem c s

-- A loop `for (ptr = s; valid && *ptr != '\0'; ptr++) if (!p(*ptr)) valid = false;`.
abbrev pub all_bytes : (ℕ → Bool) → Bytes → Bool
all_bytes p [] = true
all_bytes p (c ∷ s) = p c && all_bytes p s

-- `strcmp`: the difference of the first bytes that differ.
unfoldable pub strcmp : Bytes → Bytes → ℤ
unfolding sub_ℕ
strcmp [] [] = pos 0
strcmp [] (d ∷ t) = sub_ℕ 0 d
strcmp (c ∷ s) [] = sub_ℕ c 0
strcmp (c ∷ s) (d ∷ t) = if c == d then strcmp s t else sub_ℕ c d

-- `strcasecmp`.
unfoldable pub strcasecmp : Bytes → Bytes → ℤ
unfolding to_lower sub_ℕ
strcasecmp [] [] = pos 0
strcasecmp [] (d ∷ t) = sub_ℕ 0 (to_lower d)
strcasecmp (c ∷ s) [] = sub_ℕ (to_lower c) 0
strcasecmp (c ∷ s) (d ∷ t) =
    if to_lower c == to_lower d then strcasecmp s t else sub_ℕ (to_lower c) (to_lower d)

-- `while (*s != '\0' && isspace(*s)) s++;`
unfoldable pub skip_spaces : Bytes → Bytes
unfolding is_space
skip_spaces [] = []
skip_spaces (c ∷ s) = if is_space c then skip_spaces s else c ∷ s
