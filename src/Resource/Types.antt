-- ===== src/Resource/Types.antt =====
-- Resource types as texts: lcfgresource_set_type_as_string and _get_type_as_string of
-- resources/resource.c.
use lcfg_core.Common.{
  ℕ, Bool, true, false, not, ◌&&◌, Option, none, some, List, [], ◌∷◌, ◌++◌, Bytes, CString, codes,
  is_empty, or_default, skip_spaces, drop, ◌==◌, if◌then◌else◌, starts_with, Position, strstr,
}
use lcfg_core.Templates.{Template}
use lcfg_core.Templates
use lcfg_core.Resource.{
  Resource, ResourceType, type_string, type_integer, type_boolean, type_list, type_publish,
  type_subscribe, is_list, set_type, set_comment, set_template, same_type,
}
use lcfg_core.Resource.Keys.{symbol_type}

-- `lcfgresource_type_names`
abbrev pub type_name : ResourceType → Bytes
type_name type_string = codes "string"
type_name type_integer = codes "integer"
type_name type_boolean = codes "boolean"
type_name type_list = codes "list"
type_name type_publish = codes "publish"
type_name type_subscribe = codes "subscribe"

-- A comment that is not empty, in brackets.
abbrev pub in_brackets : CString → Bytes
in_brackets none = []
in_brackets (some []) = []
in_brackets (some (c ∷ s)) = b'(' ∷ ((c ∷ s) ++ (b')' ∷ []))

-- `lcfgresource_get_type_as_string`: the options say whether the templates are left out and whether
-- a newline is put at the end.
unfoldable pub get_type_as_string : Resource → Bool → Bool → Bytes
unfolding is_list Templates.to_string
get_type_as_string res no_templates newline =
    type_name res.type
    ++ (in_brackets res.comment
        ++ ((if is_list res && not no_templates
              then codes ": " ++ Templates.to_string res.template none false
              else [])
            ++ (if newline then 10 ∷ [] else [])))

-- The symbol in front of the type is skipped.
unfoldable pub skip_symbol : Bytes → Bytes
skip_symbol [] = []
skip_symbol (c ∷ s) = if c == symbol_type then s else c ∷ s

-- The type whose name a text starts with.
unfoldable pub parse_type : Bytes → Option ResourceType
unfolding starts_with
parse_type s =
    if starts_with (codes "integer") s
    then some type_integer
    else if starts_with (codes "boolean") s
    then some type_boolean
    else if starts_with (codes "list") s
    then some type_list
    else if starts_with (codes "publish") s
    then some type_publish
    else if starts_with (codes "subscribe") s
    then some type_subscribe
    else if starts_with (codes "string") s
    then some type_string
    else none

-- `strchr( s, d )`: what follows the byte.
unfoldable pub behind_byte : ℕ → Bytes → Option Bytes
behind_byte d [] = none
behind_byte d (c ∷ s) = if c == d then some s else behind_byte d s

abbrev pub put_in_front : ℕ → Option (Bytes × Bytes) → Option (Bytes × Bytes)
put_in_front c none = none
put_in_front c (some (a, b)) = some (c ∷ a, b)

-- The text in front of the first byte of a kind, and the text behind it.
unfoldable pub split_at : ℕ → Bytes → Option (Bytes × Bytes)
split_at d [] = none
split_at d (c ∷ s) =
    let later = split_at d s in if c == d then some ([], s) else put_in_front c later

-- `lcfgresource_set_template_as_string`, of a text that is not empty.
unfoldable pub set_template_text : Resource → Option (List Template) → Resource × Bool
unfolding set_template
set_template_text res none = (res, false)
set_template_text res (some []) = (res, false)
set_template_text res (some (t ∷ ts)) = set_template res (some (t ∷ ts))

unfoldable pub set_template_as_string : Resource → CString → Resource × Bool
unfolding set_template_text Templates.from_string
set_template_as_string res none = (res, false)
set_template_as_string res (some []) = set_template res none
set_template_as_string res (some (c ∷ s)) =
    set_template_text res (Templates.from_string (some (c ∷ s)))

-- The templates behind ": ", unless there are none.
unfoldable pub read_templates : Resource → Option Position → Resource × Bool
unfolding set_template_as_string skip_spaces
read_templates res none = (res, true)
read_templates res (some (passed, s)) =
    let start = skip_spaces (drop 2 s) in
    if is_empty (some start) then (res, true) else set_template_as_string res (some start)

-- The templates of a list, in the text from `posn` on.
unfoldable pub finish_type : Resource → ResourceType → Bytes → Resource × Bool
unfolding read_templates strstr
finish_type res new_type posn =
    if same_type new_type type_list
    then read_templates res (strstr (codes ": ") [] posn)
    else (res, true)

-- The comment, if it is not empty, and the templates behind it.
unfoldable pub read_comment :
    Resource → ResourceType → Bytes → Option (Bytes × Bytes) → Resource × Bool
unfolding finish_type set_comment
read_comment res new_type type_str none = finish_type res new_type type_str
read_comment res new_type type_str (some ([], posn)) = finish_type res new_type posn
read_comment res new_type type_str (some (c ∷ comment, posn)) =
    finish_type (set_comment res (some (c ∷ comment))).0 new_type posn

-- What follows the '(', if there is one.
abbrev pub bracketed : Option Bytes → Option (Bytes × Bytes)
bracketed none = none
bracketed (some s) = split_at b')' s

-- The rest of `lcfgresource_set_type_as_string`, if the type could be set.
unfoldable pub read_details : Resource × Bool → ResourceType → Bytes → Resource × Bool
unfolding read_comment behind_byte split_at
read_details (res, false) new_type type_str = (res, false)
read_details (res, true) new_type type_str =
    read_comment res new_type type_str (bracketed (behind_byte b'(' type_str))

-- The type that was parsed is set; `none` is an error.
unfoldable pub set_parsed : Resource → Bytes → Option ResourceType → Resource × Bool
unfolding set_type read_details
set_parsed res type_str none = (res, false)
set_parsed res type_str (some new_type) = read_details (set_type res new_type) new_type type_str

-- `lcfgresource_set_type_as_string`. An empty text is the default type.
unfoldable pub set_type_as_string : Resource → CString → Resource × Bool
unfolding set_type set_parsed parse_type skip_symbol skip_spaces
set_type_as_string res type_str =
    let start = skip_spaces (or_default type_str []) in
    if is_empty (some start)
    then set_type res type_string
    else set_parsed res (skip_symbol start) (parse_type (skip_symbol start))
