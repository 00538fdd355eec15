-- ===== src/Templates.antt =====
-- Resource templates: resources/templates.c. A template is a name with placeholders for tags.
pub mod Substitute
pub mod Filled
pub mod Copies
pub mod Substituted
pub mod RoundTrip
pub mod Tests
use lcfg_core.Common.{
  ℕ, ◌+◌, Bool, true, false, ◌&&◌, Option, none, some, List, [], ◌∷◌, ◌++◌, Bytes, CString,
  is_empty, or_default, is_alpha, is_word, length, take, leb, ltb, ◌==◌, if◌then◌else◌, strstr,
  words, elem, same_text,
}

-- `LCFG_TEMPLATE_PLACEHOLDER`
abbrev pub placeholder : ℕ
placeholder = b'$'

-- `LCFG_TAGS_MAX_DEPTH`
abbrev pub max_depth : ℕ
max_depth = 5

-- `LCFGTemplate`; the links of a list of templates are its order. The array `places` holds the
-- offsets that are filled, the first `pcount` of it.
pub record Template : Type 0 where
  pub tmpl : CString
  pub places : List ℕ
  pub name_len : ℕ
  pub tmpl_len : ℕ
  pub pcount : ℕ

-- `lcfgtemplate_new`
unfoldable pub new : Template
new = record { tmpl = none; places = []; name_len = 0; tmpl_len = 0; pcount = 0 }

-- `lcfgtemplate_is_valid`, of a pointer that is not NULL.
unfoldable pub is_valid : Template → Bool
is_valid t = elim t.tmpl [ none ↦ false | some s ↦ true ]

-- The loop of `lcfgresource_valid_template`: the bytes are valid and the placeholders, counted on
-- from `pcount`, are not too many; and the count at its end.
unfoldable pub check_bytes : ℕ → Bytes → Bool × ℕ
check_bytes pcount [] = (true, pcount)
check_bytes pcount (c ∷ s) =
    let marked = check_bytes (pcount + 1) s in
    let plain = check_bytes pcount s in
    if c == placeholder
    then (if ltb max_depth (pcount + 1) then (false, pcount + 1) else marked)
    else if is_word c
    then plain
    else (false, pcount)

-- `lcfgresource_valid_template`
unfoldable pub valid_template : CString → Bool
unfolding check_bytes
valid_template none = false
valid_template (some []) = false
valid_template (some (c ∷ s)) =
    let (valid, pcount) = check_bytes 0 s in is_alpha c && valid && leb 1 pcount

-- The loop of `lcfgtemplate_set_tmpl` that notes the placeholders, from the end of the text to its
-- start: here the offsets of a text that starts at `i`, the last first, in front of those given.
unfoldable pub places_from : ℕ → Bytes → List ℕ → List ℕ
places_from i [] later = later
places_from i (c ∷ s) later = places_from (i + 1) s (if c == placeholder then i ∷ later else later)

-- The template with a text whose base name is given.
unfoldable pub with_tmpl : Template → Bytes → Bytes → Template
unfolding places_from
with_tmpl t new_tmpl name =
    let places = places_from 0 new_tmpl [] in
    record t {
      tmpl = some new_tmpl;
      tmpl_len = length new_tmpl;
      name_len = length name;
      places = take t.pcount t.places ++ places;
      pcount = t.pcount + length places;
    }

-- The text and its base name, up to the first "_$", if there is one.
unfoldable pub set_split : Template → Bytes → Option (Bytes × Bytes) → Template × Bool
unfolding with_tmpl
set_split t new_tmpl none = (t, false)
set_split t new_tmpl (some (passed, s)) = (with_tmpl t new_tmpl passed, true)

-- `lcfgtemplate_set_tmpl`
unfoldable pub set_tmpl : Template → Bytes → Template × Bool
unfolding valid_template set_split strstr
set_tmpl t new_tmpl =
    if valid_template (some new_tmpl)
    then set_split t new_tmpl (strstr (b'_' ∷ placeholder ∷ []) [] new_tmpl)
    else (t, false)

-- The separators of `lcfgtemplate_from_string`: space, \n, \r and \t.
unfoldable pub is_whitespace : ℕ → Bool
is_whitespace c = elem c (b' ' ∷ 10 ∷ 13 ∷ 9 ∷ [])

-- A template in front of the rest, where both are good.
abbrev pub link : Template × Bool → Option (List Template) → Option (List Template)
link (t, true) (some ts) = some (t ∷ ts)
link (t, true) none = none
link (t, false) rest = none

-- The loop of `lcfgtemplate_from_string` over the tokens.
unfoldable pub from_tokens : List Bytes → Option (List Template)
unfolding set_tmpl new
from_tokens [] = some []
from_tokens (token ∷ tokens) = link (set_tmpl new token) (from_tokens tokens)

-- `lcfgtemplate_from_string`: `none` stands for LCFG_STATUS_ERROR.
unfoldable pub from_string : CString → Option (List Template)
unfolding from_tokens words is_whitespace
from_string input =
    if is_empty input then none else from_tokens (words is_whitespace (or_default input []))

-- The templates behind the first, each behind a space.
unfoldable pub write_rest : List Template → Bytes
write_rest [] = []
write_rest (t ∷ ts) = b' ' ∷ (take t.tmpl_len (or_default t.tmpl []) ++ write_rest ts)

unfoldable pub write_templates : List Template → Bytes
unfolding write_rest
write_templates [] = []
write_templates (t ∷ ts) = take t.tmpl_len (or_default t.tmpl []) ++ write_rest ts

-- `lcfgtemplate_to_string`: a prefix, the templates, and a newline if the options ask for one.
unfoldable pub to_string : List Template → CString → Bool → Bytes
unfolding write_templates
to_string templates prefix newline =
    or_default prefix [] ++ (write_templates templates ++ (if newline then 10 ∷ [] else []))

-- `lcfgtemplate_find`
unfoldable pub find : List Template → Bytes → Option Template
unfolding is_valid same_text
find [] field_name = none
find (t ∷ ts) field_name =
    if is_valid t
      && length field_name == t.name_len
      && same_text (take (length field_name) (or_default t.tmpl [])) field_name
    then some t
    else find ts field_name
