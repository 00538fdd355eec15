-- ===== src/Resource/AddTags.antt =====
-- The tags of a value after lcfgresource_value_add_tag and _add_tags: resources/mutate.c.
use lcfg_core.Common.{
  ℕ, ◌≡◌, refl, sym, ◌∙◌, ◌⊎◌, Bool, true, false, not, ◌||◌, some, List, [], ◌∷◌, Bytes, CString,
  all_bytes, or_default, arith, Bool-cases, inl, inr, same_text, member, words,
}
use lcfg_core.Utils.Scan.{IsItem}
use lcfg_core.Utils.Words.{
  same_text_eq, member-append, AllWords, words_single, words-AllWords, words-keeps,
}
use lcfg_core.Resource.{
  Resource, is_string, is_list, is_list_chr, valid_list, fits, valid_value, valid_value_for_type,
  set_value,
}
use lcfg_core.Resource.Mutate.{
  allowed_separators, Outcome, value_has_tag, is_supported, is_acceptable, extend, join_behind,
  value_append_tag, value_add_tag, go_on, map_tags, value_map_tagstring, value_add_tags,
}
use lcfg_core.Resource.Tags.{is_sep, tags_of, join_behind-words, join_behind-valid, has_tag-member}

-- What adding the tags `ws` leaves: a valid value that holds them and those it held.
pub record IsExtended (res : Resource) (ws : List Bytes) (out : Outcome) : Type 0 where
  pub value : CString
  pub result : out ≡ some (record res { value = value }, true)
  pub valid : fits res.type value ≡ true
  pub tags :
      (w : Bytes)
      → IsItem allowed_separators w
      → member w (tags_of value) ≡ (member w (tags_of res.value) || member w ws)

or_false : (b : Bool) → b ≡ (b || false)
or_false true = refl
or_false false = refl

-- Nothing is added where the tags are there already.
unchanged-IsExtended :
    (res : Resource) (ws : List Bytes)
    → fits res.type res.value ≡ true
    → ((w : Bytes)
        → IsItem allowed_separators w
        → member w ws ≡ true
        → member w (tags_of res.value) ≡ true)
    → IsExtended res ws (some (res, true))
unchanged-IsExtended res ws v there = record {
  value = res.value;
  result = refl;
  valid = v;
  tags = λ w item. elim (Bool-cases (member w ws)) [
    | inl e ↦ rw (there w item e) refl
    | inr e ↦ rw e (or_false (member w (tags_of res.value)))
  ];
}

-- The tag can be added to the resource.
pub record IsAddable (res : Resource) (tag : Bytes) : Type 0 where
  pub lacks : all_bytes (λ c. not (is_sep c)) tag ≡ true
  pub accepted : is_acceptable res (some tag) ≡ true

or_default_same : (s : Bytes) → or_default (some s) [] ≡ s
or_default_same [] = refl
or_default_same (c ∷ s) = refl

append_tag-IsExtended :
    (res : Resource) (c : ℕ) (tag : Bytes)
    → is_supported res ≡ true
    → fits res.type res.value ≡ true
    → IsAddable res (c ∷ tag)
    → IsExtended res ((c ∷ tag) ∷ []) (some (value_append_tag res (some (c ∷ tag))))
unfolding value_append_tag extend is_supported is_string is_list is_acceptable valid_list set_value
    valid_value valid_value_for_type fits
append_tag-IsExtended res c tag s v a =
    let good = join_behind-valid res.type res.value (c ∷ tag) s v a.accepted in
    record {
      value = some (join_behind (or_default res.value []) (c ∷ tag));
      result = rw (s, a.accepted, good) refl;
      valid = good;
      tags = λ w item.
          rw
            (
              or_default_same (join_behind (or_default res.value []) (c ∷ tag)),
              join_behind-words (or_default res.value []) (c ∷ tag),
              words_single is_sep c tag a.lacks,
            )
            (member-append w (tags_of res.value) ((c ∷ tag) ∷ []));
    }

no_empty : (w : Bytes) → IsItem allowed_separators w → member w ([] ∷ []) ≡ true → ⊥
unfolding member same_text
no_empty [] item h = item
no_empty (c ∷ w) item h = cc

single_same : (t w : Bytes) → member w (t ∷ []) ≡ true → t ≡ w
unfolding member
single_same t w h = same_text_eq t w (or_false (same_text t w) ∙ h)

add_tag-absent :
    (res : Resource) (c : ℕ) (tag : Bytes)
    → is_supported res ≡ true
    → value_has_tag res (some (c ∷ tag)) ≡ false
    → value_add_tag res (some (c ∷ tag)) ≡ value_append_tag res (some (c ∷ tag))
unfolding value_add_tag
add_tag-absent res c tag s e = rw (s, e) refl

no_member : (w : Bytes) → member w [] ≡ true → ⊥
unfolding member
no_member w h = cc

add_tag-IsExtended :
    (res : Resource) (tag : Bytes)
    → is_supported res ≡ true
    → fits res.type res.value ≡ true
    → IsAddable res tag
    → IsExtended res (tag ∷ []) (some (value_add_tag res (some tag)))
unfolding value_add_tag
add_tag-IsExtended res [] s v a =
    rw s (unchanged-IsExtended res ([] ∷ []) v (λ w item h. absurd (no_empty w item h)))
add_tag-IsExtended res (c ∷ tag) s v a = elim (Bool-cases (value_has_tag res (some (c ∷ tag)))) [
  | inl e ↦
      rw (s, e)
        (unchanged-IsExtended res ((c ∷ tag) ∷ []) v (λ w item h.
          rw (← single_same (c ∷ tag) w h) (sym (has_tag-member res (c ∷ tag) a.lacks) ∙ e)))
  | inr e ↦ rw (add_tag-absent res c tag s e) (append_tag-IsExtended res c tag s v a)
]

abbrev pub AreAddable : Resource → List Bytes → Type 0
AreAddable res [] = Unit
AreAddable res (tag ∷ tags) = IsAddable res tag × AreAddable res tags

AreAddable-value :
    (res : Resource) (v : CString) (ws : List Bytes)
    → AreAddable res ws
    → AreAddable (record res { value = v }) ws
unfolding is_acceptable is_list
AreAddable-value res v [] a = tt
AreAddable-value res v (w ∷ ws) (a, rest_a) =
    (record { lacks = a.lacks; accepted = a.accepted }, AreAddable-value res v ws rest_a)

supported-value :
    (res : Resource) (v : CString)
    → is_supported res ≡ true
    → is_supported (record res { value = v }) ≡ true
unfolding is_supported is_string is_list
supported-value res v s = s

or_regroup : (a b c : Bool) → ((a || (b || false)) || c) ≡ (a || (b || c))
or_regroup a b c = ground arith

compose-IsExtended :
    (res : Resource) (v : CString) (tag : Bytes) (ws : List Bytes) (out : Outcome)
    → ((w : Bytes)
        → IsItem allowed_separators w
        → member w (tags_of v) ≡ (member w (tags_of res.value) || member w (tag ∷ [])))
    → IsExtended (record res { value = v }) ws out
    → IsExtended res (tag ∷ ws) out
unfolding member
compose-IsExtended res v tag ws out first e = record {
  value = e.value;
  result = e.result;
  valid = e.valid;
  tags = λ w item.
      e.tags w item
      ∙ rw (first w item)
          (or_regroup (member w (tags_of res.value)) (same_text tag w) (member w ws));
}

map_tags-IsExtended :
    (res : Resource) (ws : List Bytes)
    → is_supported res ≡ true
    → fits res.type res.value ≡ true
    → AreAddable res ws
    → IsExtended res ws (map_tags (λ r tag. some (value_add_tag r (some tag))) ws res)
unfolding map_tags go_on
map_tags-IsExtended res [] s v a =
    unchanged-IsExtended res [] v (λ w item h. absurd (no_member w h))
map_tags-IsExtended res (tag ∷ ws) s v (a, rest_a) =
    let x = add_tag-IsExtended res tag s v a in
    let rest =
      map_tags-IsExtended (record res { value = x.value }) ws (supported-value res x.value s)
        x.valid (AreAddable-value res x.value ws rest_a) in
    rw x.result (
      compose-IsExtended res x.value tag ws
        (map_tags (λ r tag. some (value_add_tag r (some tag))) ws (record res { value = x.value }))
        x.tags rest)

or_true : (b : Bool) → (b || true) ≡ true
or_true true = refl
or_true false = refl

words-AreAddable :
    (res : Resource) (ws : List Bytes)
    → AllWords (λ c. not (is_sep c)) ws
    → (not (is_list res) ≡ true) ⊎ AllWords is_list_chr ws
    → AreAddable res ws
unfolding is_acceptable valid_list
words-AreAddable res [] l k = tt
words-AreAddable res (w ∷ ws) (l, ls) (inl e) =
    (record { lacks = l; accepted = rw e refl }, words-AreAddable res ws ls (inl e))
words-AreAddable res (w ∷ ws) (l, ls) (inr (k, ks)) = (
  record { lacks = l; accepted = rw k (or_true (not (is_list res))) },
  words-AreAddable res ws ls (inr ks),
)

accepted-words :
    (res : Resource) (tagstring : Bytes)
    → is_acceptable res (some tagstring) ≡ true
    → (not (is_list res) ≡ true) ⊎ AllWords is_list_chr (words is_sep tagstring)
unfolding is_acceptable valid_list
accepted-words res tagstring h = elim (Bool-cases (is_list res)) [
  | inl e ↦ inr (words-keeps is_sep is_list_chr tagstring (rw e at h))
  | inr e ↦ inl (rw e refl)
]

-- Adding a text of tags succeeds and leaves a valid value, whose tags are those it had and those of
-- the text: for a string or list resource with a valid value, and for a list a text that is valid
-- for one.
pub add_tags-IsExtended :
    (res : Resource) (tagstring : Bytes)
    → is_supported res ≡ true
    → fits res.type res.value ≡ true
    → is_acceptable res (some tagstring) ≡ true
    → IsExtended res (words is_sep tagstring) (value_add_tags res tagstring)
unfolding value_add_tags value_map_tagstring
add_tags-IsExtended res tagstring s v a = rw s (
    map_tags-IsExtended res (words is_sep tagstring) s v (
      words-AreAddable res (words is_sep tagstring) (words-AllWords is_sep tagstring)
        (accepted-words res tagstring a)))
