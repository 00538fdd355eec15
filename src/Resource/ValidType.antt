-- ===== src/Resource/ValidType.antt =====
-- Setting the type of a resource keeps its value valid: resources/resource.c.
use lcfg_core.Common.{
  ◌≡◌, Bool, true, false, Option, none, some, List, [], ◌∷◌, Bytes, CString, codes, is_empty,
  or_default, skip_spaces, if◌then◌else◌, Bool-cases, inl, inr, drop, strstr, Position,
}
use lcfg_core.Templates.{Template}
use lcfg_core.Templates
use lcfg_core.Resource.{
  Resource, ResourceType, type_string, type_list, same_type, fits, set_type, set_template,
  set_comment, clear_type_details, set_type_default,
}
use lcfg_core.Resource.Types.{
  set_template_text, set_template_as_string, read_templates, finish_type, read_comment, bracketed,
  behind_byte, read_details, set_parsed, parse_type, skip_symbol, set_type_as_string,
}

-- There is no value, or it is valid for the type.
abbrev pub HasValid : Resource → Type 0
HasValid res = fits res.type res.value ≡ true

pub HasValid-if :
    (b : Bool) (x y : Resource × Bool)
    → HasValid x.0
    → HasValid y.0
    → HasValid (if b then x else y).0
HasValid-if true x y h k = h
HasValid-if false x y h k = k

pub set_type-HasValid :
    (res : Resource) (t : ResourceType) → HasValid res → HasValid (set_type res t).0
unfolding set_type
set_type-HasValid res t h = elim (Bool-cases (same_type res.type t)) [
  | inl e ↦ rw e h
  | inr e ↦ elim (Bool-cases (fits t res.value)) [ inl k ↦ rw (e, k) k | inr k ↦ rw (e, k) h ]
]

set_template-HasValid :
    (res : Resource) (t : Option (List Template)) → HasValid res → HasValid (set_template res t).0
unfolding set_template
set_template-HasValid res none h = h
set_template-HasValid res (some []) h = h
set_template-HasValid res (some (t ∷ ts)) h =
    HasValid-if (Templates.is_valid t) (record res { template = t ∷ ts }, true) (res, false) h h

clear_type_details-HasValid :
    (r : Resource × Bool) → HasValid r.0 → HasValid (clear_type_details r).0
unfolding clear_type_details set_template set_comment
clear_type_details-HasValid (res, false) h = h
clear_type_details-HasValid (res, true) h = h

pub set_type_default-HasValid : (res : Resource) → HasValid res → HasValid (set_type_default res).0
unfolding set_type_default
set_type_default-HasValid res h =
    HasValid-if (same_type res.type type_string) (res, true) _ h
      (clear_type_details-HasValid (set_type res type_string) (set_type-HasValid res type_string h))

set_template_text-HasValid :
    (res : Resource) (t : Option (List Template))
    → HasValid res
    → HasValid (set_template_text res t).0
unfolding set_template_text
set_template_text-HasValid res none h = h
set_template_text-HasValid res (some []) h = h
set_template_text-HasValid res (some (t ∷ ts)) h = set_template-HasValid res (some (t ∷ ts)) h

set_template_as_string-HasValid :
    (res : Resource) (s : CString) → HasValid res → HasValid (set_template_as_string res s).0
unfolding set_template_as_string
set_template_as_string-HasValid res none h = h
set_template_as_string-HasValid res (some []) h = set_template-HasValid res none h
set_template_as_string-HasValid res (some (c ∷ s)) h =
    set_template_text-HasValid res (Templates.from_string (some (c ∷ s))) h

read_templates-HasValid :
    (res : Resource) (p : Option Position) → HasValid res → HasValid (read_templates res p).0
unfolding read_templates
read_templates-HasValid res none h = h
read_templates-HasValid res (some (passed, s)) h =
    let start = skip_spaces (drop 2 s) in
    HasValid-if (is_empty (some start)) (res, true) _ h
      (set_template_as_string-HasValid res (some start) h)

finish_type-HasValid :
    (res : Resource) (t : ResourceType) (s : Bytes)
    → HasValid res
    → HasValid (finish_type res t s).0
unfolding finish_type
finish_type-HasValid res t s h =
    HasValid-if (same_type t type_list) _ (res, true)
      (read_templates-HasValid res (strstr (codes ": ") [] s) h) h

read_comment-HasValid :
    (res : Resource) (t : ResourceType) (s : Bytes) (o : Option (Bytes × Bytes))
    → HasValid res
    → HasValid (read_comment res t s o).0
unfolding read_comment set_comment
read_comment-HasValid res t s none h = finish_type-HasValid res t s h
read_comment-HasValid res t s (some ([], p)) h = finish_type-HasValid res t p h
read_comment-HasValid res t s (some (c ∷ comment, p)) h =
    finish_type-HasValid (record res { comment = some (c ∷ comment) }) t p h

read_details-HasValid :
    (r : Resource × Bool) (t : ResourceType) (s : Bytes)
    → HasValid r.0
    → HasValid (read_details r t s).0
unfolding read_details
read_details-HasValid (res, false) t s h = h
read_details-HasValid (res, true) t s h =
    read_comment-HasValid res t s (bracketed (behind_byte b'(' s)) h

set_parsed-HasValid :
    (res : Resource) (s : Bytes) (o : Option ResourceType)
    → HasValid res
    → HasValid (set_parsed res s o).0
unfolding set_parsed
set_parsed-HasValid res s none h = h
set_parsed-HasValid res s (some t) h =
    read_details-HasValid (set_type res t) t s (set_type-HasValid res t h)

pub set_type_as_string-HasValid :
    (res : Resource) (s : CString) → HasValid res → HasValid (set_type_as_string res s).0
unfolding set_type_as_string
set_type_as_string-HasValid res s h =
    let start = skip_spaces (or_default s []) in
    HasValid-if (is_empty (some start)) _ _ (set_type-HasValid res type_string h)
      (set_parsed-HasValid res (skip_symbol start) (parse_type (skip_symbol start)) h)
