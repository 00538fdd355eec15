-- ===== src/Resource.antt =====
-- Resources: resources/resource.c. A resource is a named value with a type, which says what values
-- are valid, templates where it is a list, a context, a comment and its derivation.
pub mod Compare
pub mod Mutate
pub mod Tags
pub mod AddTags
pub mod Located
pub mod ReplaceTag
pub mod Calls
pub mod ValidType
pub mod ValidMutate
pub mod Valid
pub mod Encode
pub mod Types
pub mod TypeParts
pub mod TypeRoundTrip
pub mod Keys
pub mod KeyParts
pub mod KeyRoundTrip
pub mod Tests
use lcfg_core.Common.{
  ℕ, zero, suc, ◌+◌, ◌-◌, ◌%◌, Bool, true, false, not, ◌&&◌, ◌||◌, Option, none, some, List, [],
  ◌∷◌, ◌++◌, Bytes, CString, codes, is_empty, or_default, is_alpha, is_word, is_digit, to_lower,
  all_bytes, strcmp, elem, map, member, same_text, ℤ, pos, negsuc, is_zero, ltb, leb, ◌==◌,
  if◌then◌else◌,
}
use lcfg_core.Derivation.{u32}
use lcfg_core.Templates.{Template}
use lcfg_core.Templates

-- `LCFGResourceType`
pub data ResourceType : Type 0 where
  type_string type_integer type_boolean type_list type_publish type_subscribe : ResourceType

-- `LCFGResource`. The derivation is the address of a list.
pub record Resource : Type 0 where
  pub name : CString
  pub value : CString
  pub template : List Template
  pub context : CString
  pub derivation : Option ℕ
  pub comment : CString
  pub type : ResourceType
  pub priority : ℤ
  pub refcount : ℕ

-- `lcfgresource_new`
unfoldable pub new : Resource
new = record {
  name = none;
  value = none;
  template = [];
  context = none;
  derivation = none;
  comment = none;
  type = type_string;
  priority = pos 0;
  refcount = 1;
}

-- `lcfgresource_acquire`
unfoldable pub acquire : Resource → Resource
acquire res = record res { refcount = (res.refcount + 1) % u32 }

-- `lcfgresource_valid_name`
unfoldable pub valid_name : CString → Bool
valid_name none = false
valid_name (some []) = false
valid_name (some (c ∷ s)) = is_alpha c && all_bytes is_word s

-- `lcfgresource_is_valid`, of a pointer that is not NULL.
unfoldable pub is_valid : Resource → Bool
is_valid res = not (is_empty res.name)

-- `lcfgresource_set_name`
unfoldable pub set_name : Resource → CString → Resource × Bool
unfolding valid_name
set_name res new_name =
    if valid_name new_name then (record res { name = new_name }, true) else (res, false)

-- `lcfgresource_valid_boolean`
unfoldable pub valid_boolean : CString → Bool
unfolding same_text
valid_boolean none = false
valid_boolean (some s) = is_empty (some s) || same_text s (codes "yes")

-- `valid_true_values` and `valid_false_values`, up to the NULL behind them.
abbrev pub valid_true_values : List Bytes
valid_true_values = codes "true" ∷ codes "yes" ∷ codes "on" ∷ codes "1" ∷ []

abbrev pub valid_false_values : List Bytes
valid_false_values = codes "false" ∷ codes "no" ∷ codes "off" ∷ codes "0" ∷ [] ∷ []

-- The canonical form of a text in lower case.
unfoldable pub canon_lower : Bytes → CString
unfolding member
canon_lower value2 =
    if member value2 valid_true_values
    then some (codes "yes")
    else if member value2 valid_false_values
    then some []
    else none

-- `lcfgresource_canon_boolean`
unfoldable pub canon_boolean : CString → CString
unfolding valid_boolean canon_lower
canon_boolean value =
    if valid_boolean value then value else canon_lower (map to_lower (or_default value []))

-- The digits of `lcfgresource_valid_integer`, behind the sign.
unfoldable pub valid_digits : Bytes → Bool
valid_digits [] = false
valid_digits (c ∷ s) = (not (c == b'0') || is_empty (some s)) && all_bytes is_digit (c ∷ s)

-- `lcfgresource_valid_integer`
unfoldable pub valid_integer : CString → Bool
unfolding valid_digits
valid_integer none = false
valid_integer (some []) = false
valid_integer (some (c ∷ s)) = if c == b'-' then valid_digits s else valid_digits (c ∷ s)

-- A byte of a list value.
unfoldable pub is_list_chr : ℕ → Bool
is_list_chr c = is_word c || c == b' '

-- `lcfgresource_valid_list`
unfoldable pub valid_list : CString → Bool
unfolding is_list_chr
valid_list none = false
valid_list (some s) = all_bytes is_list_chr s

-- `lcfgresource_valid_value_for_type`, of a value that is not NULL.
unfoldable pub valid_for_type : ResourceType → Bytes → Bool
unfolding valid_integer valid_boolean valid_list
valid_for_type type_integer s = valid_integer (some s)
valid_for_type type_boolean s = valid_boolean (some s)
valid_for_type type_list s = valid_list (some s)
valid_for_type type_string s = true
valid_for_type type_publish s = true
valid_for_type type_subscribe s = true

-- `lcfgresource_valid_value_for_type`
unfoldable pub valid_value_for_type : ResourceType → CString → Bool
unfolding valid_for_type
valid_value_for_type type none = false
valid_value_for_type type (some s) = valid_for_type type s

-- `lcfgresource_valid_value`
unfoldable pub valid_value : Resource → CString → Bool
unfolding valid_value_for_type
valid_value res value = valid_value_for_type res.type value

-- `lcfgresource_set_value`
unfoldable pub set_value : Resource → CString → Resource × Bool
unfolding valid_value
set_value res new_value =
    if valid_value res new_value then (record res { value = new_value }, true) else (res, false)

-- `lcfgresource_unset_value`
unfoldable pub unset_value : Resource → Resource × Bool
unset_value res = (record res { value = none }, true)

abbrev pub same_type : ResourceType → ResourceType → Bool
same_type type_string type_string = true
same_type type_integer type_integer = true
same_type type_boolean type_boolean = true
same_type type_list type_list = true
same_type type_publish type_publish = true
same_type type_subscribe type_subscribe = true
same_type _ _ = false

-- Is there no value, or one that is valid for the type?
unfoldable pub fits : ResourceType → CString → Bool
unfolding valid_for_type
fits type none = true
fits type (some s) = valid_for_type type s

-- `lcfgresource_set_type`
unfoldable pub set_type : Resource → ResourceType → Resource × Bool
unfolding fits
set_type res new_type =
    if same_type res.type new_type
    then (res, true)
    else if fits new_type res.value
    then (record res { type = new_type }, true)
    else (res, false)

-- `lcfgresource_set_template`: `none` stands for NULL.
unfoldable pub set_template : Resource → Option (List Template) → Resource × Bool
unfolding Templates.is_valid
set_template res none = (record res { template = [] }, true)
set_template res (some []) = (record res { template = [] }, true)
set_template res (some (t ∷ ts)) =
    if Templates.is_valid t then (record res { template = t ∷ ts }, true) else (res, false)

-- `lcfgresource_set_comment`
unfoldable pub set_comment : Resource → CString → Resource × Bool
set_comment res new_comment = (record res { comment = new_comment }, true)

-- The part of `lcfgresource_set_type_default` behind the type: no templates and no comment.
unfoldable pub clear_type_details : Resource × Bool → Resource × Bool
unfolding set_template set_comment
clear_type_details (res, false) = (res, false)
clear_type_details (res, true) =
    let (res', tmpl_ok) = set_template res none in
    let (res'', cmt_ok) = set_comment res' none in (res'', tmpl_ok && cmt_ok)

-- `lcfgresource_set_type_default`
unfoldable pub set_type_default : Resource → Resource × Bool
unfolding set_type clear_type_details
set_type_default res =
    if same_type res.type type_string
    then (res, true)
    else clear_type_details (set_type res type_string)

-- `lcfgresource_is_string`, `_is_integer`, `_is_boolean` and `_is_list`
abbrev pub string_type : ResourceType → Bool
string_type type_string = true
string_type type_subscribe = true
string_type type_publish = true
string_type _ = false

unfoldable pub is_string : Resource → Bool
is_string res = string_type res.type

unfoldable pub is_integer : Resource → Bool
is_integer res = same_type res.type type_integer

unfoldable pub is_boolean : Resource → Bool
is_boolean res = same_type res.type type_boolean

unfoldable pub is_list : Resource → Bool
is_list res = same_type res.type type_list

-- `lcfgresource_is_true`
unfoldable pub is_true : Resource → Bool
unfolding is_boolean same_text
is_true res =
    let value = or_default res.value [] in
    if is_empty res.value
    then false
    else if is_boolean res
    then same_text value (codes "yes")
    else not (same_text value (codes "0"))

-- `lcfgresource_has_value`
unfoldable pub has_value : Resource → Bool
has_value res = not (is_empty res.value)

-- `lcfgresource_set_priority` and `lcfgresource_set_priority_default`
unfoldable pub set_priority : Resource → ℤ → Resource × Bool
set_priority res new_prio = (record res { priority = new_prio }, true)

unfoldable pub set_priority_default : Resource → Resource × Bool
unfolding set_priority
set_priority_default res = set_priority res (pos 0)

-- `lcfgresource_is_active`
unfoldable pub is_active : Resource → Bool
is_active res = elim res.priority [ pos n ↦ true | negsuc n ↦ false ]
