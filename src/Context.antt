-- ===== src/Context.antt =====
-- Contexts: common/context/context.c. A context is a named value with a priority.
pub mod Contexts
pub mod Expression
pub mod Grammar
pub mod Parser
pub mod Truth
pub mod RoundTrip
pub mod Priority
pub mod Tests
use lcfg_core.Common.{
  ℕ, zero, suc, ◌+◌, Bool, true, false, not, ◌&&◌, ◌||◌, Option, none, some, List, [], ◌∷◌, ◌++◌,
  Bytes, CString, codes, is_empty, or_default, is_alpha, is_word, is_space, all_bytes, strcmp,
  strcasecmp, skip_spaces, ℤ, pos, negsuc, is_zero, ◌==◌, if◌then◌else◌, deref,
}

-- `LCFGContext`
pub record Context : Type 0 where
  pub name : CString
  pub value : CString
  pub priority : ℤ
  pub refcount : ℕ

-- `lcfgcontext_new`
unfoldable pub new : Context
new = record { name = none; value = none; priority = pos 1; refcount = 1 }

-- `lcfgcontext_is_valid`, of a pointer that is not NULL.
unfoldable pub is_valid : Context → Bool
is_valid ctx = not (is_empty ctx.name)

-- `lcfgcontext_valid_name`
unfoldable pub valid_name : CString → Bool
valid_name none = false
valid_name (some []) = false
valid_name (some (c ∷ s)) = is_alpha c && all_bytes is_word s

-- `lcfgcontext_set_name`
unfoldable pub set_name : Context → CString → Context × Bool
unfolding valid_name
set_name ctx new_name =
    if valid_name new_name then (record ctx { name = new_name }, true) else (ctx, false)

-- `lcfgcontext_valid_value`
unfoldable pub valid_value : CString → Bool
valid_value none = false
valid_value (some _) = true

-- `lcfgcontext_set_value`
unfoldable pub set_value : Context → CString → Context × Bool
unfolding valid_value
set_value ctx new_value =
    if valid_value new_value then (record ctx { value = new_value }, true) else (ctx, false)

-- `lcfgcontext_unset_value`
unfoldable pub unset_value : Context → Context × Bool
unset_value ctx = (record ctx { value = none }, true)

-- `valid_false_values`, up to the NULL behind them.
abbrev pub valid_false_values : List Bytes
valid_false_values = codes "false" ∷ codes "no" ∷ codes "off" ∷ codes "0" ∷ [] ∷ []

-- The loop of `lcfgcontext_is_false`.
unfoldable pub matches_any : Bytes → List Bytes → Bool
matches_any value [] = false
matches_any value (v ∷ vs) = is_zero (strcasecmp value v) || matches_any value vs

-- `lcfgcontext_is_false`
unfoldable pub is_false : Option Context → Bool
unfolding matches_any
is_false none = true
is_false (some ctx) =
    if is_empty ctx.value then true else matches_any (or_default ctx.value []) valid_false_values

-- `lcfgcontext_is_true`
unfoldable pub is_true : Option Context → Bool
unfolding is_false
is_true ctx = not (is_false ctx)

-- `priority >= 1`
abbrev pub at_least_one : ℤ → Bool
at_least_one (pos zero) = false
at_least_one (pos (suc n)) = true
at_least_one (negsuc n) = false

-- `lcfgcontext_set_priority`
unfoldable pub set_priority : Context → ℤ → Context × Bool
set_priority ctx priority =
    if at_least_one priority then (record ctx { priority = priority }, true) else (ctx, false)

-- The text without the spaces at its end.
unfoldable pub strip_end : Bytes → Bytes
strip_end [] = []
strip_end (c ∷ s) =
    let rest = strip_end s in if is_space c && is_empty (some rest) then [] else c ∷ rest

abbrev pub in_front : ℕ → Option (Bytes × Bytes) → Option (Bytes × Bytes)
in_front c none = none
in_front c (some (name, value)) = some (c ∷ name, value)

-- `strchr( s, '=' )`: the text in front of the first '=', and the text behind it.
unfoldable pub split_assignment : Bytes → Option (Bytes × Bytes)
split_assignment [] = none
split_assignment (c ∷ s) =
    let later = split_assignment s in if c == b'=' then some ([], s) else in_front c later

-- The last steps of `lcfgcontext_from_string`: the value, unless it is empty, and the priority.
unfoldable pub finish : Context → Bytes → ℤ → Option Context
unfolding set_value set_priority
finish ctx value priority =
    let (ctx', ok) = if is_empty (some value) then (ctx, true) else set_value ctx (some value) in
    let (ctx'', ok') = set_priority ctx' priority in if ok && ok' then some ctx'' else none

-- A name and a value give a context.
unfoldable pub from_fields : Bytes → Bytes → ℤ → Option Context
unfolding set_name finish new
from_fields name value priority =
    let (ctx, ok) = set_name new (some name) in
    if is_empty (some name) then none else if ok then finish ctx value priority else none

-- The texts in front of the '=' and behind it, if there is one.
unfoldable pub from_parts : Option (Bytes × Bytes) → ℤ → Option Context
unfolding strip_end from_fields
from_parts none priority = none
from_parts (some (before, after)) priority =
    from_fields (strip_end before) (strip_end (skip_spaces after)) priority

-- `lcfgcontext_from_string`; `none` stands for LCFG_STATUS_ERROR.
unfoldable pub from_string : CString → ℤ → Option Context
unfolding split_assignment from_parts
from_string ctx_str priority =
    from_parts (split_assignment (skip_spaces (or_default ctx_str []))) priority

-- `lcfgcontext_to_string`: the text, with a newline if the options ask for one; `none` stands for -1.
unfoldable pub to_string : Context → Bool → Option Bytes
unfolding is_valid
to_string ctx newline =
    if is_valid ctx
    then some (
        or_default ctx.name []
        ++ (b'=' ∷ (or_default ctx.value [] ++ (if newline then 10 ∷ [] else []))))
    else none

-- `lcfgcontext_same_name`
unfoldable pub same_name : Context → Context → Bool
same_name ctx1 ctx2 = is_zero (strcmp (or_default ctx1.name []) (or_default ctx2.name []))

-- `lcfgcontext_same_value`
unfoldable pub same_value : Context → Context → Bool
same_value ctx1 ctx2 = is_zero (strcmp (or_default ctx1.value []) (or_default ctx2.value []))

-- `lcfgcontext_equals`
unfoldable pub equals : Context → Context → Bool
unfolding same_name same_value
equals ctx1 ctx2 = same_name ctx1 ctx2 && same_value ctx1 ctx2

-- `lcfgcontext_match`
unfoldable pub match : Context → Bytes → Bool
match ctx want_name = is_zero (strcmp (or_default ctx.name []) want_name)

-- `lcfgcontext_bracketify_expression`, of a pointer that is not NULL.
unfoldable pub bracketify_expression : Bytes → Bytes
bracketify_expression [] = []
bracketify_expression (c ∷ expr) = if c == b'(' then c ∷ expr else b'(' ∷ c ∷ expr ++ (b')' ∷ [])

-- `cmp == -1`
abbrev pub is_minus_one : ℤ → Bool
is_minus_one (negsuc zero) = true
is_minus_one _ = false

-- `lcfgcontext_combine_expressions` for two expressions that are not empty and differ. The test
-- `cmp == -1` is on the value that `strcmp` returns, here the difference of the first bytes that differ.
unfoldable pub combine_distinct : Bytes → Bytes → Bytes
unfolding bracketify_expression strcmp
combine_distinct expr1 expr2 =
    let ctx1_safe = bracketify_expression expr1 in
    let ctx2_safe = bracketify_expression expr2 in
    let cmp = strcmp ctx1_safe ctx2_safe in
    if is_zero cmp
    then ctx1_safe
    else if is_minus_one cmp
    then ctx1_safe ++ codes " & " ++ ctx2_safe
    else ctx2_safe ++ codes " & " ++ ctx1_safe

-- `lcfgcontext_combine_expressions`
unfoldable pub combine_expressions : CString → CString → Bytes
unfolding combine_distinct strcmp
combine_expressions expr1 expr2 =
    if is_empty expr1
    then or_default expr2 []
    else if is_empty expr2
    then or_default expr1 []
    else if is_zero (strcmp (or_default expr1 []) (or_default expr2 []))
    then or_default expr1 []
    else combine_distinct (or_default expr1 []) (or_default expr2 [])

-- `lcfgcontext_compare_expressions`
unfoldable pub compare_expressions : CString → CString → ℤ
unfolding strcmp
compare_expressions ctx1 ctx2 = strcmp (or_default ctx1 []) (or_default ctx2 [])
