-- ===== src/Resource/TypeParts.antt =====
-- The parts of a printed type, and what is read back from them: resources/resource.c.
use lcfg_core.Common.{
  pos, ℕ, ◌+◌, ◌≡◌, refl, Bool, true, false, ◌&&◌, ◌||◌, none, some, List, [], ◌∷◌, ◌++◌, Bytes,
  CString, is_empty, or_default, is_space, is_word, is_alnum, is_alpha, is_upper, is_digit,
  all_bytes, skip_spaces, ltb, leb, ◌==◌, arith, Bool-cases, inl, inr,
}
use lcfg_core.Utils.Scan.{and_left, and_right}
use lcfg_core.Templates.{Template, placeholder, max_depth, check_bytes, valid_template, write_rest}
use lcfg_core.Templates.RoundTrip.{AreMade, made_text, made_valid}
use lcfg_core.Resource.{
  Resource, ResourceType, type_string, type_integer, type_boolean, type_list, type_publish,
  type_subscribe, is_list, set_type, set_comment, set_template, same_type, fits,
}
use lcfg_core.Resource
use lcfg_core.Resource.KeyParts.{LacksByte, lacks_first, lacks_rest}
use lcfg_core.Resource.Types.{type_name, skip_symbol, parse_type, behind_byte, split_at}

-- Bytes of printed templates.
abbrev pub is_template_chr : ℕ → Bool
is_template_chr c = c == placeholder || is_word c || c == b' '

check_bytes-chr :
    (s : Bytes) (k : ℕ) → (check_bytes k s).0 ≡ true → all_bytes is_template_chr s ≡ true
unfolding check_bytes
check_bytes-chr [] k h = refl
check_bytes-chr (c ∷ s) k h = elim (Bool-cases (c == placeholder)) [
  | inl e ↦ elim (Bool-cases (ltb max_depth (k + 1))) [
    | inl m ↦ let bad = rw (e, m) at h in cc
    | inr m ↦ rw e (check_bytes-chr s (k + 1) (rw (e, m) at h))
  ]
  | inr e ↦ elim (Bool-cases (is_word c)) [
    | inl w ↦ rw (e, w) (check_bytes-chr s k (rw (e, w) at h))
    | inr w ↦ let bad = rw (e, w) at h in cc
  ]
]

alpha-chr : (c : ℕ) → is_alpha c ≡ true → is_template_chr c ≡ true
unfolding is_word is_alnum is_alpha is_upper is_digit
alpha-chr c h = ground (arith, h)

pub valid_template-chr :
    (s : Bytes) → valid_template (some s) ≡ true → all_bytes is_template_chr s ≡ true
unfolding valid_template
valid_template-chr [] h = refl
valid_template-chr (c ∷ s) h =
    let first = and_left (is_alpha c && (check_bytes 0 s).0) (leb 1 (check_bytes 0 s).1) h in
    rw (alpha-chr c (and_left (is_alpha c) (check_bytes 0 s).0 first))
      (check_bytes-chr s 0 (and_right (is_alpha c) (check_bytes 0 s).0 first))

alpha_no_space : (c : ℕ) → is_alpha c ≡ true → is_space c ≡ false
unfolding is_alpha is_upper is_space
alpha_no_space c h = ground (arith, h)

pub valid_template-start :
    (s rest : Bytes) → valid_template (some s) ≡ true → skip_spaces (s ++ rest) ≡ s ++ rest
unfolding valid_template skip_spaces
valid_template-start [] rest h = cc
valid_template-start (c ∷ s) rest h =
    let first = and_left (is_alpha c && (check_bytes 0 s).0) (leb 1 (check_bytes 0 s).1) h in
    rw (alpha_no_space c (and_left (is_alpha c) (check_bytes 0 s).0 first)) refl

pub chr-append :
    (f : ℕ → Bool) (a b : Bytes)
    → all_bytes f a ≡ true
    → all_bytes f b ≡ true
    → all_bytes f (a ++ b) ≡ true
chr-append f [] b h k = k
chr-append f (c ∷ a) b h k =
    rw (and_left (f c) (all_bytes f a) h) (chr-append f a b (and_right (f c) (all_bytes f a) h) k)

pub write_rest-chr :
    (ts : List Template) (ss : List Bytes)
    → AreMade ts ss
    → all_bytes is_template_chr (write_rest ts) ≡ true
unfolding write_rest is_word is_alnum is_alpha is_upper is_digit
write_rest-chr [] [] m = refl
write_rest-chr [] (s ∷ ss) m = absurd m
write_rest-chr (t ∷ ts) [] m = absurd m
write_rest-chr (t ∷ ts) (s ∷ ss) (h, m) = rw (made_text s t h) (
    chr-append is_template_chr s (write_rest ts) (valid_template-chr s (made_valid s t h))
      (write_rest-chr ts ss m))

chr-not_bracket : (c : ℕ) → is_template_chr c ≡ true → (c == b'(') ≡ false
unfolding is_word is_alnum is_alpha is_upper is_digit
chr-not_bracket c h = ground (arith, h)

pub behind_byte-none : (s : Bytes) → all_bytes is_template_chr s ≡ true → behind_byte b'(' s ≡ none
unfolding behind_byte
behind_byte-none [] h = refl
behind_byte-none (c ∷ s) h =
    rw (chr-not_bracket c (and_left (is_template_chr c) (all_bytes is_template_chr s) h))
      (behind_byte-none s (and_right (is_template_chr c) (all_bytes is_template_chr s) h))

-- The text of a type, and what is read back from its start.
pub name_start :
    (ty : ResourceType) (x : Bytes)
    → (skip_spaces (type_name ty ++ x) ≡ type_name ty ++ x)
      × (skip_symbol (type_name ty ++ x) ≡ type_name ty ++ x)
      × (parse_type (type_name ty ++ x) ≡ some ty)
      × (is_empty (some (type_name ty ++ x)) ≡ false)
      × (or_default (some (type_name ty ++ x)) [] ≡ type_name ty ++ x)
      × (behind_byte b'(' (type_name ty ++ x) ≡ behind_byte b'(' x)
unfolding skip_spaces is_space skip_symbol parse_type behind_byte
name_start type_string x = (refl, refl, refl, refl, refl, refl)
name_start type_integer x = (refl, refl, refl, refl, refl, refl)
name_start type_boolean x = (refl, refl, refl, refl, refl, refl)
name_start type_list x = (refl, refl, refl, refl, refl, refl)
name_start type_publish x = (refl, refl, refl, refl, refl, refl)
name_start type_subscribe x = (refl, refl, refl, refl, refl, refl)

abbrev pub typed : ResourceType → CString → List Template → Resource
typed ty comment ts = record {
  name = none;
  value = none;
  template = ts;
  context = none;
  derivation = none;
  comment = comment;
  type = ty;
  priority = pos 0;
  refcount = 1;
}

pub set_type-new : (ty : ResourceType) → set_type Resource.new ty ≡ (typed ty none [], true)
unfolding set_type Resource.new fits
set_type-new type_string = refl
set_type-new type_integer = refl
set_type-new type_boolean = refl
set_type-new type_list = refl
set_type-new type_publish = refl
set_type-new type_subscribe = refl

pub split_at-append : (d : ℕ) (a b : Bytes) → LacksByte d a → split_at d (a ++ d ∷ b) ≡ some (a, b)
unfolding split_at
split_at-append d [] b h = let q : (d == d) ≡ true = ground arith in rw q refl
split_at-append d (c ∷ a) b h =
    rw (lacks_first d c a h, split_at-append d a b (lacks_rest d c a h)) refl
