-- ===== src/Templates/RoundTrip.antt =====
-- Templates that are printed and read back: lcfgtemplate_to_string and lcfgtemplate_from_string of
-- resources/templates.c.
use mathlib.Core.List.{append_assoc}
use lcfg_core.Common.{
  ℕ, ◌+◌, ◌≡◌, refl, ap, ◌∙◌, Bool, true, false, not, ◌&&◌, none, some, List, [], ◌∷◌, ◌++◌, Bytes,
  or_default, is_empty, is_word, is_alnum, is_alpha, is_upper, is_digit, all_bytes, length, take,
  ltb, leb, ◌==◌, if◌then◌else◌, arith, Bool-cases, inl, inr, words,
}
use lcfg_core.Utils.Scan.{and_left, and_right}
use lcfg_core.Utils.Words.{append_nil, words-cut, words_single}
use lcfg_core.Templates.{
  Template, placeholder, max_depth, check_bytes, valid_template, set_tmpl, is_whitespace, link,
  from_tokens, from_string, write_rest, write_templates, to_string,
}
use lcfg_core.Templates
use lcfg_core.Templates.Substituted.{set_tmpl-IsSetTo, no_result}

-- The templates were set to the texts.
abbrev pub AreMade : List Template → List Bytes → Type 0
AreMade [] [] = Unit
AreMade [] (s ∷ ss) = ⊥
AreMade (t ∷ ts) [] = ⊥
AreMade (t ∷ ts) (s ∷ ss) = (set_tmpl Templates.new s ≡ (t, true)) × AreMade ts ss

abbrev plain : ℕ → Bool
plain c = not (is_whitespace c)

word-plain : (c : ℕ) → is_word c ≡ true → plain c ≡ true
unfolding is_word is_alnum is_alpha is_upper is_digit is_whitespace
word-plain c h = ground (arith, h)

placeholder-plain : (c : ℕ) → c == placeholder ≡ true → plain c ≡ true
unfolding is_whitespace
placeholder-plain c h = ground (arith, h)

alpha_plain : (c : ℕ) → is_alpha c ≡ true → plain c ≡ true
unfolding is_alpha is_upper is_whitespace
alpha_plain c h = ground (arith, h)

check_bytes-plain : (s : Bytes) (k : ℕ) → (check_bytes k s).0 ≡ true → all_bytes plain s ≡ true
unfolding check_bytes
check_bytes-plain [] k h = refl
check_bytes-plain (c ∷ s) k h = elim (Bool-cases (c == placeholder)) [
  | inl e ↦ elim (Bool-cases (ltb max_depth (k + 1))) [
    | inl m ↦ let bad = rw (e, m) at h in cc
    | inr m ↦ rw (placeholder-plain c e) (check_bytes-plain s (k + 1) (rw (e, m) at h))
  ]
  | inr e ↦ elim (Bool-cases (is_word c)) [
    | inl w ↦ rw (word-plain c w) (check_bytes-plain s k (rw (e, w) at h))
    | inr w ↦ let bad = rw (e, w) at h in cc
  ]
]

pub valid_template-plain : (s : Bytes) → valid_template (some s) ≡ true → all_bytes plain s ≡ true
unfolding valid_template
valid_template-plain [] h = refl
valid_template-plain (c ∷ s) h =
    let first = and_left (is_alpha c && (check_bytes 0 s).0) (leb 1 (check_bytes 0 s).1) h in
    rw (alpha_plain c (and_left (is_alpha c) (check_bytes 0 s).0 first))
      (check_bytes-plain s 0 (and_right (is_alpha c) (check_bytes 0 s).0 first))

pub valid_template-filled : (s : Bytes) → valid_template (some s) ≡ true → is_empty (some s) ≡ false
unfolding valid_template
valid_template-filled [] h = cc
valid_template-filled (c ∷ s) h = refl

pub made_valid :
    (s : Bytes) (t : Template)
    → set_tmpl Templates.new s ≡ (t, true)
    → valid_template (some s) ≡ true
unfolding set_tmpl
made_valid s t h = elim (Bool-cases (valid_template (some s))) [
  | inl e ↦ e
  | inr e ↦ absurd (no_result Templates.new t (rw e at h))
]

-- A text with no whitespace that is not empty is one word.
words_one :
    (s : Bytes)
    → is_empty (some s) ≡ false
    → all_bytes plain s ≡ true
    → words is_whitespace s ≡ s ∷ []
words_one [] h k = cc
words_one (c ∷ s) h k = words_single is_whitespace c s k

abbrev ending : Bool → Bytes
ending newline = if newline then 10 ∷ [] else []

space_whitespace : is_whitespace b' ' ≡ true
unfolding is_whitespace
space_whitespace = refl

newline_whitespace : is_whitespace 10 ≡ true
unfolding is_whitespace
newline_whitespace = refl

words-ending :
    (s : Bytes) (newline : Bool)
    → words is_whitespace s ≡ s ∷ []
    → words is_whitespace (s ++ ending newline) ≡ s ∷ []
unfolding words
words-ending s true h = words-cut is_whitespace s [] 10 newline_whitespace ∙ rw h refl
words-ending s false h = rw (append_nil s) h

take_whole : (s : Bytes) → take (length s) s ≡ s
take_whole [] = refl
take_whole (c ∷ s) = ap (λ (x : Bytes). c ∷ x) (take_whole s)

or_default_same : (s : Bytes) → or_default (some s) [] ≡ s
or_default_same [] = refl
or_default_same (c ∷ s) = refl

pub made_text :
    (s : Bytes) (t : Template)
    → set_tmpl Templates.new s ≡ (t, true)
    → take t.tmpl_len (or_default t.tmpl []) ≡ s
made_text s t h =
    let f = set_tmpl-IsSetTo s t h in rw (f.text, f.measured, or_default_same s) (take_whole s)

made_word :
    (s : Bytes) (t : Template)
    → set_tmpl Templates.new s ≡ (t, true)
    → words is_whitespace s ≡ s ∷ []
made_word s t h =
    let v = made_valid s t h in words_one s (valid_template-filled s v) (valid_template-plain s v)

words-written :
    (t : Template) (ts : List Template) (s : Bytes) (ss : List Bytes) (newline : Bool)
    → set_tmpl Templates.new s ≡ (t, true)
    → AreMade ts ss
    → words is_whitespace (s ++ (write_rest ts ++ ending newline)) ≡ s ∷ ss
unfolding write_rest
words-written t [] s [] newline h m = words-ending s newline (made_word s t h)
words-written t [] s (x ∷ ss) newline h m = absurd m
words-written t (t' ∷ ts) s [] newline h m = absurd m
words-written t (t' ∷ ts) s (s' ∷ ss) newline h (h', m) =
    rw (made_text s' t' h', append_assoc s' (write_rest ts) (ending newline))
      (words-cut is_whitespace s (s' ++ (write_rest ts ++ ending newline)) b' ' space_whitespace
        ∙ rw (made_word s t h, words-written t' ts s' ss newline h' m) refl)

from_tokens-AreMade :
    (ts : List Template) (ss : List Bytes) → AreMade ts ss → from_tokens ss ≡ some ts
unfolding from_tokens
from_tokens-AreMade [] [] m = refl
from_tokens-AreMade [] (s ∷ ss) m = absurd m
from_tokens-AreMade (t ∷ ts) [] m = absurd m
from_tokens-AreMade (t ∷ ts) (s ∷ ss) (h, m) = rw (h, from_tokens-AreMade ts ss m) refl

pub filled-append : (a b : Bytes) → is_empty (some a) ≡ false → is_empty (some (a ++ b)) ≡ false
filled-append [] b h = cc
filled-append (c ∷ a) b h = refl

-- Templates that are printed, with no prefix and with or without a newline, are read back: for a
-- list that is not empty, of templates that were set to texts.
pub from_string-to_string_templates :
    (t : Template) (ts : List Template) (s : Bytes) (ss : List Bytes) (newline : Bool)
    → AreMade (t ∷ ts) (s ∷ ss)
    → from_string (some (to_string (t ∷ ts) none newline)) ≡ some (t ∷ ts)
unfolding from_string to_string write_templates
from_string-to_string_templates t ts s ss newline (h, m) =
    let rest = write_rest ts ++ ending newline in
    rw
      (
        made_text s t h,
        append_assoc s (write_rest ts) (ending newline),
        filled-append s rest (valid_template-filled s (made_valid s t h)),
        or_default_same (s ++ rest),
        words-written t ts s ss newline h m,
        from_tokens-AreMade (t ∷ ts) (s ∷ ss) (h, m),
      )
      refl
