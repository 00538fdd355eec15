-- ===== src/Resource/Tests.antt =====
-- Runs of the resource operations, and the theorems about them at concrete inputs.
use lcfg_core.Common.{
  ◌+◌, ◌≡◌, ◌⊎◌, List, refl, true, false, not, none, some, [], ◌∷◌, ◌++◌, Bytes, CString, codes,
  all_bytes, length, ◌==◌, pos, is_word, to_lower, is_alpha, is_space, member, words,
}
use lcfg_core.Utils.{hasitem}
use lcfg_core.Utils.Scan.{is_separator}
use lcfg_core.Utils.Items.{hasitem-member}
use lcfg_core.Resource.{
  Resource, type_string, type_list, type_integer, valid_integer, canon_boolean,
}
use lcfg_core.Resource.{fits, is_list, is_string, valid_list, valid_for_type, valid_name, set_type}
use lcfg_core.Resource.Mutate.{
  is_supported, is_acceptable, value_append_tag, value_add_tags, value_remove_tag,
  value_replace_tag,
}
use lcfg_core.Resource.Tags.{is_sep}
use lcfg_core.Resource.AddTags.{IsExtended, add_tags-IsExtended}
use lcfg_core.Resource.Calls.{
  Operation, call_append_tag, call_set_type, call_set_type_as_string, call_replace_tag,
  call_remove_tag, perform, run, some_null,
}
use lcfg_core.Resource.ValidType.{HasValid}
use lcfg_core.Resource.Valid.{run-HasValid}
use lcfg_core.Resource.Encode.{
  enc_value, enc_value-injective, enc_value-line, value_needs_encode, extend_by, is_line_byte,
}
use lcfg_core.Resource.Keys.{build_key, parse_spec, parse_key}
use lcfg_core.Resource.KeyParts.{key_of}
use lcfg_core.Resource.KeyRoundTrip.{parse_spec-build_key}
use lcfg_core.Templates.{Template, set_tmpl}
use lcfg_core.Templates
use lcfg_core.Resource
use lcfg_core.Resource.Types.{get_type_as_string, set_type_as_string}
use lcfg_core.Resource.TypeParts.{typed}
use lcfg_core.Resource.TypeRoundTrip.{set_type-get_type}
use lcfg_core.Resource.ReplaceTag.{IsReplacement, replace_tag-IsReplacement}

abbrev text_resource : Bytes → Resource
text_resource s = record {
  name = some (codes "res");
  value = some s;
  template = [];
  context = none;
  derivation = none;
  comment = none;
  type = type_string;
  priority = pos 0;
  refcount = 1;
}

abbrev list_resource : Bytes → Resource
list_resource s = record (text_resource s) { type = type_list }

test_add_tags :
    value_add_tags (list_resource (codes "a b")) (codes "b  c")
    ≡ some (list_resource (codes "a b c"), true)
unfolding value_add_tags is_word
test_add_tags = refl

test_replace_tag :
    value_replace_tag (text_resource (codes "ab b c")) (some (codes "b")) (some (codes "xy"))
    ≡ some (text_resource (codes "ab xy c"), true)
unfolding value_replace_tag
test_replace_tag = refl

-- The NULL that lcfgresource_value_remove_tag passes on is compared with the tag.
test_remove_tag : value_remove_tag (text_resource (codes "ab b c")) (some (codes "b")) ≡ none
unfolding value_remove_tag
test_remove_tag = refl

test_removed :
    value_replace_tag (text_resource (codes "ab b c")) (some (codes "b")) (some [])
    ≡ some (text_resource (codes "ab c"), true)
unfolding value_replace_tag
test_removed = refl

test_canon : canon_boolean (some (codes "ON")) ≡ some (codes "yes")
unfolding canon_boolean to_lower
test_canon = refl

test_integer : valid_integer (some (codes "-07")) ≡ false
unfolding valid_integer
test_integer = refl

test_key :
    build_key (some (codes "res")) (some (codes "comp")) (some (codes "a.b")) b'%'
    ≡ some (codes "%a.b.comp.res")
unfolding build_key
test_key = refl

test_parse_key :
    parse_key (some (codes " #comp.res"))
    ≡ some (key_of none (some (codes "comp")) (codes "res") b'#')
unfolding parse_key
test_parse_key = refl

hasitem-member_example :
    hasitem (some (codes "foo barbar,bar")) (codes "bar") (codes " ,")
    ≡ member (codes "bar") (words (is_separator (codes " ,")) (codes "foo barbar,bar"))
hasitem-member_example =
    hasitem-member (some (codes "foo barbar,bar")) (codes "bar") b' ' (codes ",") refl

add_tags-IsExtended_example :
    IsExtended
      (list_resource (codes "a b"))
      (words is_sep (codes "b  c"))
      (value_add_tags (list_resource (codes "a b")) (codes "b  c"))
unfolding is_supported fits is_acceptable is_list is_string valid_list valid_for_type is_word
add_tags-IsExtended_example =
    add_tags-IsExtended (list_resource (codes "a b")) (codes "b  c") refl refl refl

parse_spec-build_key_example :
    (key : Bytes) × (build_key (some (codes "res")) (some (codes "comp")) none b'%' ≡ some key)
    × (parse_spec (key ++ (b'=' ∷ codes "list: a_$"))
        ≡ some (key_of none (some (codes "comp")) (codes "res") b'%', codes "list: a_$"))
unfolding valid_name is_alpha is_word is_space
parse_spec-build_key_example =
    parse_spec-build_key b'%' none (some (codes "comp")) (codes "res") (codes "list: a_$") refl refl
      (record {
        filled = refl;
        resource_dots = refl;
        component_dots = refl;
        nested = refl;
        starts = refl;
        resource_assign = refl;
        component_assign = refl;
        namespace_assign = refl;
      })

abbrev calls : List Operation
calls =
    call_append_tag (some (codes "a"))
    ∷ call_set_type type_integer
    ∷ call_set_type_as_string (some (codes "list"))
    ∷ call_replace_tag (some (codes "a")) (some (codes "x"))
    ∷ []

test_calls : run calls (text_resource (codes "a b")) ≡ some (list_resource (codes "x b a"))
unfolding run perform set_type value_append_tag value_replace_tag fits is_word valid_for_type
    set_type_as_string is_space
test_calls = refl

test_undefined : run (call_remove_tag (some (codes "b")) ∷ calls) (text_resource (codes "b")) ≡ none
unfolding run perform value_remove_tag
test_undefined = refl

run-HasValid_example :
    ((run calls (text_resource (codes "a b")) ≡ none) × (some_null calls ≡ true))
    ⊎ ((r : Resource) × (run calls (text_resource (codes "a b")) ≡ some r) × HasValid r)
unfolding fits
run-HasValid_example = run-HasValid calls (text_resource (codes "a b")) refl

enc_value-injective_example : ◌≡◌ {A = CString} (some (codes "a&b")) (some (codes "a&b"))
unfolding enc_value
enc_value-injective_example =
    enc_value-injective (text_resource (codes "a&b")) (list_resource (codes "a&b")) refl

enc_value-line_example :
    (enc : Bytes) × (enc_value (text_resource (codes "a&b\n")) ≡ some enc)
    × (all_bytes is_line_byte enc ≡ true)
    × (length enc ≡ length (codes "a&b\n") + extend_by (codes "a&b\n"))
    × (value_needs_encode (text_resource (codes "a&b\n")) ≡ not (extend_by (codes "a&b\n") == 0))
enc_value-line_example = enc_value-line (text_resource (codes "a&b\n")) (codes "a&b\n") refl

replace_tag-IsReplacement_example :
    IsReplacement
      (text_resource (codes "ab b c"))
      (codes "b")
      (codes "xy")
      (value_replace_tag (text_resource (codes "ab b c")) (some (codes "b")) (some (codes "xy")))
unfolding is_supported fits is_acceptable is_list is_string valid_list valid_for_type is_word
replace_tag-IsReplacement_example =
    replace_tag-IsReplacement (text_resource (codes "ab b c")) (codes "b") (codes "xy") refl refl
      refl refl refl refl

abbrev one_template : Template
one_template = record {
  tmpl = some (codes "x_$");
  places = 2 ∷ [];
  name_len = 1;
  tmpl_len = 3;
  pcount = 1;
}

abbrev commented : Resource
commented = record (list_resource (codes "a")) {
  comment = some (codes "why");
  template = one_template ∷ [];
}

test_type : get_type_as_string commented false true ≡ codes "list(why): x_$\n"
unfolding get_type_as_string
test_type = refl

set_type-get_type_example :
    set_type_as_string Resource.new (some (get_type_as_string commented false false))
    ≡ (typed type_list (some (codes "why")) (one_template ∷ []), true)
unfolding set_tmpl Templates.new is_word is_alpha
set_type-get_type_example = set_type-get_type commented (codes "x_$" ∷ []) (refl, tt) refl
