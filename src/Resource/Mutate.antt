-- ===== src/Resource/Mutate.antt =====
-- The mutations of resource values: resources/mutate.c.
use lcfg_core.Common.{
  Bool, true, false, not, ◌||◌, Option, none, some, List, [], ◌∷◌, ◌++◌, Bytes, CString, is_empty,
  or_default, elem, length, drop, if◌then◌else◌, same_text, Position, strstr, rejoin, words,
}
use lcfg_core.Utils.{finditem, given}
use lcfg_core.Resource.{Resource, is_string, is_list, has_value, valid_list, set_value, unset_value}

-- `allowed_separators`: space, \t, \r and \n; and `standard_separator`.
abbrev pub allowed_separators : Bytes
allowed_separators = b' ' ∷ 9 ∷ 13 ∷ 10 ∷ []

abbrev pub standard_separator : Bytes
standard_separator = b' ' ∷ []

-- What a call does to the resource, and what it returns; `none` is undefined behaviour.
abbrev pub Outcome : Type 0
Outcome = Option (Resource × Bool)

-- `lcfgresource_value_find_tag`
unfoldable pub value_find_tag : Resource → Bytes → Option Position
unfolding has_value finditem
value_find_tag res tag = if has_value res then finditem res.value tag allowed_separators else none

-- `lcfgresource_value_has_tag`
unfoldable pub value_has_tag : Resource → CString → Bool
unfolding value_find_tag
value_has_tag res none = false
value_has_tag res (some tag) = given (value_find_tag res tag)

-- `!lcfgresource_is_string(res) && !lcfgresource_is_list(res)`, negated.
unfoldable pub is_supported : Resource → Bool
unfolding is_string is_list
is_supported res = is_string res || is_list res

-- `lcfgresource_is_list(res) && !lcfgresource_valid_list(extra)`, negated.
unfoldable pub is_acceptable : Resource → CString → Bool
unfolding is_list valid_list
is_acceptable res extra = not (is_list res) || valid_list extra

-- A value that is built: an empty one is no value.
unfoldable pub store : Resource → Bytes → Resource × Bool
unfolding set_value unset_value
store res result = if is_empty (some result) then unset_value res else set_value res (some result)

-- The separators at the start of a text are dropped.
unfoldable pub skip_separators : Bytes → Bytes
skip_separators [] = []
skip_separators (c ∷ s) = if elem c allowed_separators then skip_separators s else c ∷ s

-- `lcfgresource_value_replace_tag` from the location on: the text from the tag on is `s`.
unfoldable pub replace_at : Resource → Bytes → CString → Option Position → Resource × Bool
unfolding store skip_separators rejoin
replace_at res old_tag new_tag none = (res, is_empty new_tag)
replace_at res old_tag new_tag (some (passed, s)) =
    let after = drop (length old_tag) s in
    store res (
      rejoin passed
        (if is_empty new_tag then skip_separators after else or_default new_tag [] ++ after))

-- `strcmp( old, new ) == 0`; `none` is the undefined behaviour on a NULL.
unfoldable pub compare_given : Bytes → CString → Option Bool
unfolding same_text
compare_given old none = none
compare_given old (some new) = some (same_text old new)

-- The part of `lcfgresource_value_replace_tag` behind the comparison of the tags.
unfoldable pub replace_compared : Resource → Bytes → CString → Option Bool → Outcome
unfolding is_acceptable replace_at value_find_tag
replace_compared res old_tag new_tag none = none
replace_compared res old_tag new_tag (some true) = some (res, true)
replace_compared res old_tag new_tag (some false) =
    if is_acceptable res new_tag
    then some (replace_at res old_tag new_tag (value_find_tag res old_tag))
    else some (res, false)

-- `lcfgresource_value_replace_tag`. A resource without value has no tag.
unfoldable pub value_replace_tag : Resource → CString → CString → Outcome
unfolding is_supported replace_compared compare_given
value_replace_tag res old_tag new_tag =
    let old = or_default old_tag [] in
    if not (is_supported res)
    then some (res, false)
    else if is_empty old_tag
    then some (res, false)
    else replace_compared res old new_tag (compare_given old new_tag)

-- `lcfgresource_value_remove_tag`
unfoldable pub value_remove_tag : Resource → CString → Outcome
unfolding value_replace_tag
value_remove_tag res unwanted_tag = value_replace_tag res unwanted_tag none

-- The common form of the operations that add a text: `join` builds the value from the current one.
unfoldable pub extend : (Bytes → Bytes → Bytes) → Resource → CString → Resource × Bool
unfolding is_supported is_acceptable set_value
extend join res extra =
    if not (is_supported res)
    then (res, false)
    else if is_empty extra
    then (res, true)
    else if is_acceptable res extra
    then set_value res (some (join (or_default res.value []) (or_default extra [])))
    else (res, false)

-- `lcfgresource_value_append`
unfoldable pub value_append : Resource → CString → Resource × Bool
unfolding extend
value_append res extra_value = extend (λ cur extra. cur ++ extra) res extra_value

-- `lcfgresource_value_prepend`
unfoldable pub value_prepend : Resource → CString → Resource × Bool
unfolding extend
value_prepend res extra_value = extend (λ cur extra. extra ++ cur) res extra_value

-- Does a text end in a byte that is no separator?
unfoldable pub ends_in_word : Bytes → Bool
ends_in_word [] = false
ends_in_word (c ∷ []) = not (elem c allowed_separators)
ends_in_word (c ∷ d ∷ s) = ends_in_word (d ∷ s)

unfoldable pub starts_in_word : Bytes → Bool
starts_in_word [] = false
starts_in_word (c ∷ s) = not (elem c allowed_separators)

-- `lcfgresource_value_append_tag`
unfoldable pub join_behind : Bytes → Bytes → Bytes
unfolding ends_in_word
join_behind cur tag = cur ++ ((if ends_in_word cur then standard_separator else []) ++ tag)

unfoldable pub value_append_tag : Resource → CString → Resource × Bool
unfolding extend join_behind
value_append_tag res extra_tag = extend join_behind res extra_tag

-- `lcfgresource_value_prepend_tag`
unfoldable pub join_in_front : Bytes → Bytes → Bytes
unfolding starts_in_word
join_in_front cur tag = tag ++ ((if starts_in_word cur then standard_separator else []) ++ cur)

unfoldable pub value_prepend_tag : Resource → CString → Resource × Bool
unfolding extend join_in_front
value_prepend_tag res extra_tag = extend join_in_front res extra_tag

-- `lcfgresource_value_add_tag`
unfoldable pub value_add_tag : Resource → CString → Resource × Bool
unfolding is_supported value_has_tag value_append_tag
value_add_tag res extra_tag =
    if not (is_supported res)
    then (res, false)
    else if is_empty extra_tag
    then (res, true)
    else if value_has_tag res extra_tag
    then (res, true)
    else value_append_tag res extra_tag

-- The rest of the tags, unless the last call failed or its behaviour is undefined.
unfoldable pub go_on : Outcome → (Resource → Outcome) → Outcome
go_on none k = none
go_on (some (res, true)) k = k res
go_on (some (res, false)) k = some (res, false)

-- The loop of `lcfgresource_value_map_tagstring`.
unfoldable pub map_tags : (Resource → Bytes → Outcome) → List Bytes → Resource → Outcome
unfolding go_on
map_tags fn [] res = some (res, true)
map_tags fn (tag ∷ tags) res = go_on (fn res tag) (map_tags fn tags)

-- `lcfgresource_value_map_tagstring`, of a text that is not NULL.
unfoldable pub value_map_tagstring : (Resource → Bytes → Outcome) → Resource → Bytes → Outcome
unfolding is_supported map_tags words
value_map_tagstring fn res tagstring =
    if is_supported res
    then map_tags fn (words (λ c. elem c allowed_separators) tagstring) res
    else some (res, false)

-- `lcfgresource_value_remove_tags`
unfoldable pub value_remove_tags : Resource → Bytes → Outcome
unfolding value_map_tagstring value_remove_tag
value_remove_tags res unwanted_tags =
    value_map_tagstring (λ r tag. value_remove_tag r (some tag)) res unwanted_tags

-- `lcfgresource_value_add_tags`
unfoldable pub value_add_tags : Resource → Bytes → Outcome
unfolding value_map_tagstring value_add_tag
value_add_tags res extra_tags =
    value_map_tagstring (λ r tag. some (value_add_tag r (some tag))) res extra_tags

-- `lcfgresource_value_replace` from the location on.
unfoldable pub replace_string_at : Resource → Bytes → CString → Option Position → Resource × Bool
unfolding store rejoin
replace_string_at res old_string new_string none = (res, is_empty new_string)
replace_string_at res old_string new_string (some (passed, s)) =
    store res (rejoin passed (or_default new_string [] ++ drop (length old_string) s))

-- The part of `lcfgresource_value_replace` behind the comparison of the strings.
unfoldable pub replace_string : Resource → Bytes → CString → Option Bool → Outcome
unfolding is_acceptable replace_string_at has_value strstr
replace_string res old_string new_string none = none
replace_string res old_string new_string (some true) = some (res, true)
replace_string res old_string new_string (some false) =
    let location = if has_value res then strstr old_string [] (or_default res.value []) else none in
    if is_acceptable res new_string
    then some (replace_string_at res old_string new_string location)
    else some (res, false)

-- `lcfgresource_value_replace`
unfoldable pub value_replace : Resource → CString → CString → Outcome
unfolding is_supported replace_string compare_given
value_replace res old_string new_string =
    let old = or_default old_string [] in
    if not (is_supported res)
    then some (res, false)
    else if is_empty old_string
    then some (res, false)
    else replace_string res old new_string (compare_given old new_string)

-- `lcfgresource_value_remove`
unfoldable pub value_remove : Resource → CString → Outcome
unfolding value_replace
value_remove res unwanted_string = value_replace res unwanted_string none
