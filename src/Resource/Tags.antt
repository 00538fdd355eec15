-- ===== src/Resource/Tags.antt =====
-- The tags of a value, and values that tags are put behind: resources/mutate.c.
use mathlib.Core.List.{append_assoc}
use lcfg_core.Common.{
  ℕ, ◌≡◌, refl, ◌⊎◌, Bool, true, false, not, ◌||◌, none, some, List, [], ◌∷◌, ◌++◌, Bytes, CString,
  all_bytes, is_word, is_empty, or_default, if◌then◌else◌, arith, Bool-cases, inl, inr, member,
  words,
}
use lcfg_core.Utils.{finditem, given, hasitem}
use lcfg_core.Utils.Scan.{and_left, and_right, is_separator, IsItem}
use lcfg_core.Utils.Items.{hasitem-member}
use lcfg_core.Utils.Words.{append_nil, words-cut}
use lcfg_core.Resource.{
  Resource, ResourceType, type_string, type_integer, type_boolean, type_list, type_publish,
  type_subscribe, string_type, same_type, has_value, is_list_chr, valid_for_type, fits,
}
use lcfg_core.Resource.Mutate.{
  allowed_separators, value_find_tag, value_has_tag, ends_in_word, join_behind,
}

-- The tags of a value: its words.
abbrev pub is_sep : ℕ → Bool
is_sep = is_separator allowed_separators

abbrev pub tags_of : CString → List Bytes
tags_of value = words is_sep (or_default value [])

ends-cases :
    (cur : Bytes)
    → ends_in_word cur ≡ false
    → (cur ≡ []) ⊎ ((s : Bytes) × (c : ℕ) × (cur ≡ s ++ c ∷ []) × (is_sep c ≡ true))
unfolding ends_in_word
ends-cases [] h = inl refl
ends-cases (c ∷ []) h =
    inr ([], c, refl, elim (Bool-cases (is_sep c)) [ inl e ↦ e | inr e ↦ ground (arith, e, h) ])
ends-cases (c ∷ d ∷ s) h = elim (ends-cases (d ∷ s) h) [
  | inl e ↦ cc
  | inr (t, x, e, k) ↦ inr (c ∷ t, x, rw e refl, k)
]

words-join :
    (cur tag : Bytes)
    → ends_in_word cur ≡ false
    → words is_sep (cur ++ tag) ≡ words is_sep cur ++ words is_sep tag
unfolding words
words-join cur tag h = elim (ends-cases cur h) [
  | inl e ↦ rw e refl
  | inr (s, c, e, k) ↦
      rw
        (
          e,
          append_assoc s (c ∷ []) tag,
          words-cut is_sep s tag c k,
          words-cut is_sep s [] c k,
          append_nil (words is_sep s),
        )
        refl
]

pub join_behind-words :
    (cur tag : Bytes) → words is_sep (join_behind cur tag) ≡ words is_sep cur ++ words is_sep tag
unfolding join_behind
join_behind-words cur tag = elim (Bool-cases (ends_in_word cur)) [
  | inl e ↦ rw e (words-cut is_sep cur tag b' ' refl)
  | inr e ↦ rw e (words-join cur tag e)
]

pub all_bytes-append :
    (p : ℕ → Bool) (a b : Bytes)
    → all_bytes p a ≡ true
    → all_bytes p b ≡ true
    → all_bytes p (a ++ b) ≡ true
all_bytes-append p [] b h k = k
all_bytes-append p (c ∷ a) b h k =
    rw (and_left (p c) (all_bytes p a) h)
      (all_bytes-append p a b (and_right (p c) (all_bytes p a) h) k)

join_behind-list :
    (cur tag : Bytes)
    → all_bytes is_list_chr cur ≡ true
    → all_bytes is_list_chr tag ≡ true
    → all_bytes is_list_chr (join_behind cur tag) ≡ true
unfolding join_behind is_list_chr is_word
join_behind-list cur tag h k = elim (Bool-cases (ends_in_word cur)) [
  | inl e ↦ rw e (all_bytes-append is_list_chr cur (b' ' ∷ tag) h (k))
  | inr e ↦ rw e (all_bytes-append is_list_chr cur tag h k)
]

pub or_default-list :
    (v : CString) → fits type_list v ≡ true → all_bytes is_list_chr (or_default v []) ≡ true
unfolding fits valid_for_type
or_default-list none h = refl
or_default-list (some []) h = refl
or_default-list (some (c ∷ s)) h = h

-- A tag that the type accepts may stand behind a value of the type.
pub join_behind-valid :
    (type : ResourceType) (v : CString) (tag : Bytes)
    → (string_type type || same_type type type_list) ≡ true
    → fits type v ≡ true
    → (not (same_type type type_list) || all_bytes is_list_chr tag) ≡ true
    → valid_for_type type (join_behind (or_default v []) tag) ≡ true
unfolding valid_for_type
join_behind-valid type_string v tag h k a = refl
join_behind-valid type_publish v tag h k a = refl
join_behind-valid type_subscribe v tag h k a = refl
join_behind-valid type_list v tag h k a =
    join_behind-list (or_default v []) tag (or_default-list v k) a
join_behind-valid type_integer v tag h k a = cc
join_behind-valid type_boolean v tag h k a = cc

find-member :
    (v : CString) (tag : Bytes)
    → IsItem allowed_separators tag
    → given (if not (is_empty v) then finditem v tag allowed_separators else none)
      ≡ member tag (tags_of v)
unfolding hasitem words member
find-member none tag h = refl
find-member (some []) tag h = refl
find-member (some (c ∷ s)) tag h = hasitem-member (some (c ∷ s)) tag b' ' (9 ∷ 13 ∷ 10 ∷ []) h

-- A tag is found exactly if it is one of the words of the value: for a tag that is not empty and
-- holds no separator.
pub has_tag-member :
    (res : Resource) (tag : Bytes)
    → IsItem allowed_separators tag
    → value_has_tag res (some tag) ≡ member tag (tags_of res.value)
unfolding value_has_tag value_find_tag has_value
has_tag-member res tag h = find-member res.value tag h
