-- ===== src/Resource/TypeRoundTrip.antt =====
-- Types that are printed and read back: resources/resource.c.
use mathlib.Core.List.{append_assoc}
use lcfg_core.Common.{
  ℕ, ◌≡◌, refl, ap, ◌∙◌, Bool, true, false, ◌&&◌, none, some, List, [], ◌∷◌, ◌++◌, Bytes, CString,
  codes, is_empty, or_default, all_bytes, skip_spaces, if◌then◌else◌, starts_with, strstr,
}
use lcfg_core.Utils.Words.{append_nil}
use lcfg_core.Templates.{
  Template, placeholder, max_depth, check_bytes, valid_template, write_rest, write_templates,
}
use lcfg_core.Templates
use lcfg_core.Templates.Substituted.{IsSetTo, set_tmpl-IsSetTo}
use lcfg_core.Templates.RoundTrip.{
  filled-append, AreMade, made_text, made_valid, valid_template-filled,
  from_string-to_string_templates,
}
use lcfg_core.Resource.{
  Resource, ResourceType, type_string, type_integer, type_boolean, type_list, type_publish,
  type_subscribe, is_list, set_type, set_comment, set_template, same_type, fits,
}
use lcfg_core.Resource
use lcfg_core.Resource.KeyParts.{LacksByte, if_given}
use lcfg_core.Resource.Types.{
  type_name, in_brackets, get_type_as_string, behind_byte, split_at, set_template_text,
  set_template_as_string, read_templates, finish_type, read_comment, bracketed, read_details,
  set_parsed, set_type_as_string,
}
use lcfg_core.Resource.TypeParts.{
  is_template_chr, valid_template-chr, valid_template-start, chr-append, write_rest-chr,
  behind_byte-none, name_start, typed, set_type-new, split_at-append,
}

-- The text behind the type and the comment: nothing, or the templates of a list.
abbrev pub templates_text : List Template → Bytes
templates_text ts = Templates.to_string ts none false

abbrev pub tail_text : ResourceType → List Template → Bytes
tail_text ty ts = if same_type ty type_list then codes ": " ++ templates_text ts else []

templates-chr :
    (ts : List Template) (ss : List Bytes)
    → AreMade ts ss
    → all_bytes is_template_chr (templates_text ts) ≡ true
unfolding Templates.to_string write_templates
templates-chr [] [] m = refl
templates-chr [] (s ∷ ss) m = absurd m
templates-chr (t ∷ ts) [] m = absurd m
templates-chr (t ∷ ts) (s ∷ ss) (h, m) =
    rw (made_text s t h, append_nil (s ++ write_rest ts))
      (chr-append is_template_chr s (write_rest ts) (valid_template-chr s (made_valid s t h))
        (write_rest-chr ts ss m))

tail-none :
    (ty : ResourceType) (ts : List Template) (ss : List Bytes)
    → AreMade ts ss
    → behind_byte b'(' (tail_text ty ts) ≡ none
unfolding behind_byte
tail-none type_list ts ss m = behind_byte-none (templates_text ts) (templates-chr ts ss m)
tail-none type_string ts ss m = refl
tail-none type_integer ts ss m = refl
tail-none type_boolean ts ss m = refl
tail-none type_publish ts ss m = refl
tail-none type_subscribe ts ss m = refl

-- The templates that are left to read are those of a list.
abbrev pub kept_templates : ResourceType → List Template → List Template
kept_templates ty ts = if same_type ty type_list then ts else []

templates_start :
    (t : Template) (ts : List Template) (s : Bytes) (ss : List Bytes)
    → AreMade (t ∷ ts) (s ∷ ss)
    → (skip_spaces (templates_text (t ∷ ts)) ≡ templates_text (t ∷ ts))
      × (is_empty (some (templates_text (t ∷ ts))) ≡ false)
unfolding Templates.to_string write_templates
templates_start t ts s ss (h, m) =
    let v = made_valid s t h in
    rw (made_text s t h, append_nil (s ++ write_rest ts))
      (
        valid_template-start s (write_rest ts) v,
        filled-append s (write_rest ts) (valid_template-filled s v),
      )

set_text :
    (ty : ResourceType) (comment : CString) (x : Bytes) (t : Template) (ts : List Template)
    → is_empty (some x) ≡ false
    → Templates.from_string (some x) ≡ some (t ∷ ts)
    → Templates.is_valid t ≡ true
    → set_template_as_string (typed ty comment []) (some x) ≡ (typed ty comment (t ∷ ts), true)
unfolding set_template_as_string set_template_text set_template
set_text ty comment [] t ts h e v = cc
set_text ty comment (c ∷ x) t ts h e v = rw (e, v) refl

made_is_valid : (s : Bytes) (t : Template) → IsSetTo t s → Templates.is_valid t ≡ true
unfolding Templates.is_valid
made_is_valid s t f = rw f.text refl

no_templates : templates_text [] ≡ []
unfolding Templates.to_string write_templates
no_templates = refl

read-templates :
    (comment : CString) (passed : Bytes) (ts : List Template) (ss : List Bytes)
    → AreMade ts ss
    → read_templates (typed type_list comment []) (some (passed, codes ": " ++ templates_text ts))
      ≡ (typed type_list comment ts, true)
unfolding read_templates skip_spaces
read-templates comment passed [] [] m = rw no_templates refl
read-templates comment passed [] (s ∷ ss) m = absurd m
read-templates comment passed (t ∷ ts) [] m = absurd m
read-templates comment passed (t ∷ ts) (s ∷ ss) (h, m) =
    let (start, filled) = templates_start t ts s ss (h, m) in
    rw (start, filled)
      (set_text type_list comment (templates_text (t ∷ ts)) t ts filled
        (from_string-to_string_templates t ts s ss false (h, m))
        (made_is_valid s t (set_tmpl-IsSetTo s t h)))

module _ (comment : CString) (ts : List Template) (ss : List Bytes) (m : AreMade ts ss) where
  -- The templates are read from a text in front of which a comment was taken off.
  finish-behind :
      (ty : ResourceType)
      → finish_type (typed ty comment []) ty (tail_text ty ts ++ [])
        ≡ (typed ty comment (kept_templates ty ts), true)
  unfolding finish_type strstr starts_with
  finish-behind type_list =
      rw (append_nil (codes ": " ++ templates_text ts)) (read-templates comment [] ts ss m)
  finish-behind type_string = refl
  finish-behind type_integer = refl
  finish-behind type_boolean = refl
  finish-behind type_publish = refl
  finish-behind type_subscribe = refl

  -- They are read from the whole text where there is no comment.
  finish-whole :
      (ty : ResourceType)
      → finish_type (typed ty comment []) ty (type_name ty ++ (tail_text ty ts ++ []))
        ≡ (typed ty comment (kept_templates ty ts), true)
  unfolding finish_type strstr starts_with
  finish-whole type_list =
      rw (append_nil (codes ": " ++ templates_text ts))
        (read-templates comment (b't' ∷ b's' ∷ b'i' ∷ b'l' ∷ []) ts ss m)
  finish-whole type_string = refl
  finish-whole type_integer = refl
  finish-whole type_boolean = refl
  finish-whole type_publish = refl
  finish-whole type_subscribe = refl

-- The text behind the name of the type.
abbrev pub details_text : ResourceType → CString → List Template → Bytes
details_text ty comment ts = in_brackets comment ++ (tail_text ty ts ++ [])

no_bracket :
    (ty : ResourceType) (ts : List Template) (ss : List Bytes)
    → AreMade ts ss
    → behind_byte b'(' (type_name ty ++ (tail_text ty ts ++ [])) ≡ none
no_bracket ty ts ss m =
    (name_start ty (tail_text ty ts ++ [])).5
    ∙ rw (append_nil (tail_text ty ts)) (tail-none ty ts ss m)

bracket :
    (ty : ResourceType) (c : ℕ) (s x : Bytes)
    → LacksByte b')' (c ∷ s)
    → bracketed (behind_byte b'(' (type_name ty ++ (in_brackets (some (c ∷ s)) ++ x)))
      ≡ some (c ∷ s, x)
unfolding behind_byte
bracket ty c s x h =
    ap bracketed ((name_start ty (in_brackets (some (c ∷ s)) ++ x)).5)
    ∙ (ap (split_at b')') (append_assoc (c ∷ s) (b')' ∷ []) x) ∙ split_at-append b')' (c ∷ s) x h)

read-details :
    (ty : ResourceType) (comment : CString) (ts : List Template) (ss : List Bytes)
    → AreMade ts ss
    → LacksByte b')' (or_default comment [])
    → read_details (typed ty none [], true) ty (type_name ty ++ details_text ty comment ts)
      ≡ (typed ty (if_given comment) (kept_templates ty ts), true)
unfolding read_details read_comment set_comment
read-details ty none ts ss m h = rw (no_bracket ty ts ss m) (finish-whole none ts ss m ty)
read-details ty (some []) ts ss m h = rw (no_bracket ty ts ss m) (finish-whole none ts ss m ty)
read-details ty (some (c ∷ s)) ts ss m h =
    rw (bracket ty c s (tail_text ty ts ++ []) h) (finish-behind (some (c ∷ s)) ts ss m ty)

and_true : (b : Bool) → (b && true) ≡ b
and_true true = refl
and_true false = refl

type_text :
    (res : Resource)
    → get_type_as_string res false false
      ≡ type_name res.type ++ details_text res.type res.comment res.template
unfolding get_type_as_string is_list
type_text res = rw (and_true (same_type res.type type_list)) refl

-- The type of a resource that is printed, with its templates and no newline, is read back into a
-- new resource: the same type, the comment, unless it is empty, and the templates, if it is a list.
-- For a comment with no ')' and templates that were set to texts.
pub set_type-get_type :
    (res : Resource) (ss : List Bytes)
    → AreMade res.template ss
    → LacksByte b')' (or_default res.comment [])
    → set_type_as_string Resource.new (some (get_type_as_string res false false))
      ≡ (typed res.type (if_given res.comment) (kept_templates res.type res.template), true)
unfolding set_type_as_string set_parsed
set_type-get_type res ss m h =
    let (spaces, symbol, parsed, filled, given, rest) =
      name_start res.type (details_text res.type res.comment res.template) in
    rw (type_text res, given, spaces, filled, symbol, parsed, set_type-new res.type)
      (read-details res.type res.comment res.template ss m h)
