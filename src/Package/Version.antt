-- ===== src/Package/Version.antt =====
-- The comparison of version strings: `order`, `debvercmp` and `compare_vstrings` of
-- packages/package.c, in the build without librpm (`HAVE_RPMLIB` not defined).
pub mod Segments
pub mod Prefix
pub mod Digits
pub mod Pieces
pub mod Order
pub mod Preorder
use lcfg_core.Common.{
  ℕ, zero, suc, ◌+◌, Bool, true, false, not, ◌&&◌, ◌||◌, [], ◌∷◌, Bytes, CString, some, none, ℤ,
  pos, negsuc, sub_ℕ, ◌-ℤ◌, pos_part, neg_part, is_digit, is_alpha, deref, length, ◌==◌, ltb,
  if◌then◌else◌, is_empty, strcmp, or_default,
}

-- The weight of a byte outside a number. It comes as a `char`, which is signed: a byte from 128 on
-- is that byte less 256, so its weight is the byte itself.
unfoldable pub order : ℕ → ℤ
unfolding is_digit is_alpha
order c =
    if is_digit c
    then pos 0
    else if is_alpha c
    then pos c
    else if c == b'~'
    then negsuc 0
    else if c == 0
    then pos 0
    else if ltb c 128
    then pos (c + 256)
    else pos c

unfoldable pub same : ℤ → ℤ → Bool
same x y = pos_part x == pos_part y && neg_part x == neg_part y

-- What a part of the loop body does: `return`, or go on with the two pointers.
pub data Outcome : Type 0 where
  stop : ℤ → Outcome
  go : Bytes → Bytes → Outcome

-- `*a && !isdigit(*a)`
abbrev pub in_prefix : Bytes → Bool
in_prefix [] = false
in_prefix (c ∷ s) = not (is_digit c)

-- `while ((*a && !isdigit(*a)) || (*b && !isdigit(*b))) { … }`
unfoldable pub skip_prefix : Bytes → Bytes → Outcome
skip_prefix [] [] = go [] []
skip_prefix [] (y ∷ b) =
    let rest = skip_prefix [] b in
    if in_prefix (y ∷ b)
    then (if same (order 0) (order y) then rest else stop (order 0 -ℤ order y))
    else go [] (y ∷ b)
skip_prefix (x ∷ a) [] =
    let rest = skip_prefix a [] in
    if in_prefix (x ∷ a)
    then (if same (order x) (order 0) then rest else stop (order x -ℤ order 0))
    else go (x ∷ a) []
skip_prefix (x ∷ a) (y ∷ b) =
    let rest = skip_prefix a b in
    if in_prefix (x ∷ a) || in_prefix (y ∷ b)
    then (if same (order x) (order y) then rest else stop (order x -ℤ order y))
    else go (x ∷ a) (y ∷ b)

-- `while (*a == '0') a++;`
unfoldable pub skip_zeros : Bytes → Bytes
skip_zeros [] = []
skip_zeros (c ∷ s) = if c == b'0' then skip_zeros s else c ∷ s

-- The tests behind the loop over the digits.
abbrev pub after_digits : ℤ → Bytes → Bytes → Outcome
after_digits first_diff a b =
    if is_digit (deref a)
    then stop (pos 1)
    else if is_digit (deref b)
    then stop (negsuc 0)
    else if not (same first_diff (pos 0))
    then stop first_diff
    else go a b

-- `while (isdigit(*a) && isdigit(*b)) { … }`, and what follows it.
unfoldable pub digits_loop : ℤ → Bytes → Bytes → Outcome
digits_loop first_diff [] b = after_digits first_diff [] b
digits_loop first_diff (x ∷ a) [] = after_digits first_diff (x ∷ a) []
digits_loop first_diff (x ∷ a) (y ∷ b) =
    let rest = digits_loop (if same first_diff (pos 0) then sub_ℕ x y else first_diff) a b in
    if is_digit x && is_digit y then rest else after_digits first_diff (x ∷ a) (y ∷ b)

-- The body of the outer loop.
abbrev pub numbers : Outcome → Outcome
numbers (stop d) = stop d
numbers (go a b) = digits_loop (pos 0) (skip_zeros a) (skip_zeros b)

unfoldable pub loop_body : Bytes → Bytes → Outcome
unfolding order same ◌-ℤ◌ skip_prefix skip_zeros digits_loop
loop_body a b = numbers (skip_prefix a b)

-- `while (*a || *b) { … } return 0;` The fuel bounds the rounds.
unfoldable pub debvercmp_loop : ℕ → Bytes → Bytes → ℤ
debvercmp_loop zero a b = pos 0
debvercmp_loop (suc fuel) [] [] = pos 0
debvercmp_loop (suc fuel) a b = elim (loop_body a b) [
  | stop d ↦ d
  | go a' b' ↦ debvercmp_loop fuel a' b'
]

-- Each round takes a byte at least, so this fuel is never used up.
unfoldable pub debvercmp : CString → CString → ℤ
unfolding debvercmp_loop loop_body
debvercmp v1 v2 =
    let a = or_default v1 [] in
    let b = or_default v2 [] in debvercmp_loop (suc (length a + length b)) a b

-- The test on the wildcard "*".
abbrev pub is_wild : CString → Bool
is_wild none = false
is_wild (some s) = same (strcmp s (b'*' ∷ [])) (pos 0)

-- `result > 0 ? 1 : ( result < 0 ? -1 : 0 )`
abbrev pub signum : ℤ → ℤ
signum (pos zero) = pos 0
signum (pos (suc n)) = pos 1
signum (negsuc n) = negsuc 0

-- The ladders on a property that puts a string below all others.
abbrev pub lowest : Bool → Bool → ℤ
lowest first second =
    if first then (if not second then negsuc 0 else pos 0) else (if second then pos 1 else pos 0)

unfoldable pub compare_vstrings : CString → CString → ℤ
unfolding debvercmp strcmp
compare_vstrings v1 v2 = signum (
    if is_empty v1 || is_empty v2
    then lowest (is_empty v1) (is_empty v2)
    else if is_wild v1 || is_wild v2
    then lowest (is_wild v1) (is_wild v2)
    else debvercmp v1 v2)
