-- ===== src/Resource/Calls.antt =====
-- Sequences of calls that change a resource: resources/resource.c and resources/mutate.c.
use lcfg_core.Common.{
  Bool, true, false, not, ◌||◌, Option, none, some, List, [], ◌∷◌, Bytes, CString, is_empty, elem,
  words,
}
use lcfg_core.Resource.{Resource, ResourceType, set_value, unset_value, set_type, set_type_default}
use lcfg_core.Resource.Types.{set_type_as_string}
use lcfg_core.Resource.Mutate.{
  Outcome, allowed_separators, value_append, value_prepend, value_append_tag, value_prepend_tag,
  value_add_tag, value_remove_tag, value_replace_tag, value_add_tags, value_remove_tags,
  value_replace, value_remove,
}

-- The calls that change the value of a resource or its type: the setters of resources/resource.c and
-- the mutations of resources/mutate.c.
pub data Operation : Type 0 where
  call_set_value call_append call_prepend call_append_tag call_prepend_tag : CString → Operation
  call_add_tag call_remove_tag call_remove : CString → Operation
  call_replace_tag call_replace : CString → CString → Operation
  call_add_tags call_remove_tags : Bytes → Operation
  call_unset_value call_set_type_default : Operation
  call_set_type : ResourceType → Operation
  call_set_type_as_string : CString → Operation

unfoldable pub perform : Operation → Resource → Outcome
perform (call_set_value v) res = some (set_value res v)
perform (call_append v) res = some (value_append res v)
perform (call_prepend v) res = some (value_prepend res v)
perform (call_append_tag v) res = some (value_append_tag res v)
perform (call_prepend_tag v) res = some (value_prepend_tag res v)
perform (call_add_tag v) res = some (value_add_tag res v)
perform (call_remove_tag v) res = value_remove_tag res v
perform (call_remove v) res = value_remove res v
perform (call_replace_tag v w) res = value_replace_tag res v w
perform (call_replace v w) res = value_replace res v w
perform (call_add_tags s) res = value_add_tags res s
perform (call_remove_tags s) res = value_remove_tags res s
perform call_unset_value res = some (unset_value res)
perform (call_set_type t) res = some (set_type res t)
perform call_set_type_default res = some (set_type_default res)
perform (call_set_type_as_string s) res = some (set_type_as_string res s)

-- A list of words is not empty.
abbrev pub has_words : List Bytes → Bool
has_words [] = false
has_words (_ ∷ _) = true

-- The replacement of a text that is not empty by NULL.
abbrev pub hands_null : CString → CString → Bool
hands_null old none = not (is_empty old)
hands_null old (some _) = false

-- The call removes a text that is not empty, or replaces it by NULL: the code then hands NULL to
-- `strcmp`, unless the type of the resource rules the call out.
unfoldable pub compares_null : Operation → Bool
compares_null (call_remove_tag v) = hands_null v none
compares_null (call_remove v) = hands_null v none
compares_null (call_replace_tag v w) = hands_null v w
compares_null (call_replace v w) = hands_null v w
compares_null (call_remove_tags s) = has_words (words (λ c. elem c allowed_separators) s)
compares_null _ = false

-- Some call of the list does.
unfoldable pub some_null : List Operation → Bool
unfolding compares_null
some_null [] = false
some_null (op ∷ ops) = compares_null op || some_null ops

-- The calls behind one, whatever it returns; there are none where its behaviour is undefined.
abbrev pub next : (Resource → Option Resource) → Outcome → Option Resource
next k none = none
next k (some (res, done)) = k res

-- Calls in a row; `none` where the behaviour of one is undefined.
unfoldable pub run : List Operation → Resource → Option Resource
run [] res = some res
run (op ∷ ops) res = next (run ops) (perform op res)
