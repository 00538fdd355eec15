-- ===== src/Templates/Tests.antt =====
-- Runs of the template functions, and the theorems about them at concrete inputs.
use lcfg_core.Common.{
  if◌then◌else◌, ◌==◌, arith, ℕ, ◌≡◌, refl, true, none, some, [], ◌∷◌, ◌++◌, Bytes, codes, length,
  List, is_word, is_alpha,
}
use lcfg_core.Tags.{Tag, TagList, TagHeap}
use lcfg_core.Templates.{Template, placeholder, set_tmpl, from_string, to_string, valid_template}
use lcfg_core.Templates
use lcfg_core.Templates.Substitute.{substitute, tags_back}
use lcfg_core.Templates.Filled.{fill, names_back}
use lcfg_core.Templates.Substituted.{substitute-fill}
use lcfg_core.Templates.RoundTrip.{from_string-to_string_templates}

abbrev tag : Bytes → Tag
tag s = record { name = some s; name_len = length s; hash = 1; refcount = 1 }

abbrev tags : TagHeap
tags = record {
  tag = λ p.
      if p == 0 then tag (codes "x") else if p == 1 then tag (codes "foo") else tag (codes "ba");
  next = 3;
}

abbrev three : TagList
three = record { tags = 0 ∷ 1 ∷ 2 ∷ []; size = 3; refcount = 1 }

abbrev made : Bytes → List ℕ → ℕ → ℕ → Template
made s places name_len pcount = record {
  tmpl = some s;
  places = places;
  name_len = name_len;
  tmpl_len = length s;
  pcount = pcount;
}

test_set_tmpl :
    set_tmpl Templates.new (codes "ab_$_$") ≡ (made (codes "ab_$_$") (5 ∷ 3 ∷ []) 2 2, true)
unfolding set_tmpl Templates.new is_word is_alpha
test_set_tmpl = refl

test_substitute :
    substitute tags (made (codes "ab_$_$") (5 ∷ 3 ∷ []) 2 2) (some three) ≡ some (codes "ab_foo_ba")
unfolding substitute
test_substitute = refl

-- Where the template goes on behind its last placeholder, its last byte is lost and the
-- placeholder stays.
test_lost_byte :
    substitute tags (made (codes "a_$_b") (2 ∷ []) 1 1) (some three) ≡ some (codes "a_$ba_")
unfolding substitute
test_lost_byte = refl

substitute-fill_example :
    substitute tags (made (codes "ab_$_$") (5 ∷ 3 ∷ []) 2 2) (some three)
    ≡ some
        (fill (codes "ab_$_" ++ placeholder ∷ []) (names_back 2 (tags_back tags (0 ∷ 1 ∷ 2 ∷ []))))
unfolding set_tmpl Templates.new is_word is_alpha tags_back
substitute-fill_example =
    substitute-fill tags (made (codes "ab_$_$") (5 ∷ 3 ∷ []) 2 2) (codes "ab_$_") three refl refl
      (omega arith) (refl, (refl, (refl, tt)))

from_string-to_string_templates_example :
    from_string (
      some (
        to_string
          (made (codes "ab_$_$") (5 ∷ 3 ∷ []) 2 2 ∷ made (codes "c_$") (2 ∷ []) 1 1 ∷ [])
          none
          true))
    ≡ some (made (codes "ab_$_$") (5 ∷ 3 ∷ []) 2 2 ∷ made (codes "c_$") (2 ∷ []) 1 1 ∷ [])
unfolding set_tmpl Templates.new is_word is_alpha
from_string-to_string_templates_example =
    from_string-to_string_templates (made (codes "ab_$_$") (5 ∷ 3 ∷ []) 2 2)
      (made (codes "c_$") (2 ∷ []) 1 1 ∷ []) (codes "ab_$_$") (codes "c_$" ∷ []) true
      (refl, (refl, tt))
