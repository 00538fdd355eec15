-- ===== src/Resource/Valid.antt =====
-- The operations on values keep them valid for the type: resources/resource.c and
-- resources/mutate.c.
use lcfg_core.Common.{
  ◌≡◌, ◌⊎◌, ◌||◌, refl, same_text, Bool, true, false, not, Option, none, some, List, [], ◌∷◌, ◌++◌,
  Bytes, CString, or_default, elem, strstr, words, if◌then◌else◌, inl, inr,
}
use lcfg_core.Resource.{Resource, fits, unset_value, has_value}
use lcfg_core.Resource.Calls.{
  Operation, call_set_value, call_append, call_prepend, call_append_tag, call_prepend_tag,
  call_add_tag, call_remove_tag, call_remove, call_replace_tag, call_replace, call_add_tags,
  call_remove_tags, call_unset_value, call_set_type_default, call_set_type, call_set_type_as_string,
  perform, next, run, hands_null, has_words, compares_null, some_null,
}
use lcfg_core.Resource.ValidMutate.{
  set_value-HasValid, extend-HasValid, add_tag-HasValid, replace_at-HasValid,
  replace_string_at-HasValid,
}
use lcfg_core.Resource.ValidType.{
  HasValid, set_type-HasValid, set_type_default-HasValid, set_type_as_string-HasValid,
}
use lcfg_core.Resource.Mutate.{
  Outcome, allowed_separators, is_supported, is_acceptable, value_append, value_prepend,
  join_behind, value_append_tag, join_in_front, value_prepend_tag, value_add_tag, replace_at,
  compare_given, replace_compared, value_replace_tag, value_remove_tag, go_on, map_tags,
  value_map_tagstring, value_add_tags, value_remove_tags, replace_string, value_replace,
  value_remove, value_find_tag,
}

-- The value is kept valid, or the behaviour is undefined, which only `b` allows.
abbrev pub Kept : Bool → Outcome → Type 0
Kept b none = b ≡ true
Kept b (some (res, done)) = HasValid res

Kept-weaken : (b : Bool) (out : Outcome) → Kept b out → Kept true out
Kept-weaken b none h = refl
Kept-weaken b (some (res, done)) h = h

Kept-if : (b c : Bool) (x y : Outcome) → Kept b x → Kept b y → Kept b (if c then x else y)
Kept-if b true x y h k = h
Kept-if b false x y h k = k

replace_compared-Kept :
    (res : Resource) (old : Bytes) (new : CString) (same : Bool)
    → HasValid res
    → Kept false (replace_compared res old new (some same))
unfolding replace_compared
replace_compared-Kept res old new true h = h
replace_compared-Kept res old new false h =
    Kept-if false (is_acceptable res new) (some (replace_at res old new (value_find_tag res old)))
      (some (res, false)) (replace_at-HasValid res old new (value_find_tag res old) h) h

replace_tag-Kept :
    (res : Resource) (old new : CString)
    → HasValid res
    → Kept (hands_null old new) (value_replace_tag res old new)
unfolding value_replace_tag compare_given replace_compared
replace_tag-Kept res none none h =
    Kept-if false (not (is_supported res)) (some (res, false)) (some (res, false)) h h
replace_tag-Kept res none (some new) h =
    Kept-if false (not (is_supported res)) (some (res, false)) (some (res, false)) h h
replace_tag-Kept res (some []) none h =
    Kept-if false (not (is_supported res)) (some (res, false)) (some (res, false)) h h
replace_tag-Kept res (some []) (some new) h =
    Kept-if false (not (is_supported res)) (some (res, false)) (some (res, false)) h h
replace_tag-Kept res (some (c ∷ s)) none h =
    Kept-if true (not (is_supported res)) (some (res, false)) none h refl
replace_tag-Kept res (some (c ∷ s)) (some new) h =
    Kept-if false (not (is_supported res)) (some (res, false)) _ h
      (replace_compared-Kept res (c ∷ s) (some new) (same_text (c ∷ s) new) h)

replace_string-Kept :
    (res : Resource) (old : Bytes) (new : CString) (same : Bool)
    → HasValid res
    → Kept false (replace_string res old new (some same))
unfolding replace_string
replace_string-Kept res old new true h = h
replace_string-Kept res old new false h =
    Kept-if false (is_acceptable res new) _ (some (res, false))
      (replace_string_at-HasValid res old new
        (if has_value res then strstr old [] (or_default res.value []) else none) h)
      h

replace-Kept :
    (res : Resource) (old new : CString)
    → HasValid res
    → Kept (hands_null old new) (value_replace res old new)
unfolding value_replace compare_given replace_string
replace-Kept res none none h =
    Kept-if false (not (is_supported res)) (some (res, false)) (some (res, false)) h h
replace-Kept res none (some new) h =
    Kept-if false (not (is_supported res)) (some (res, false)) (some (res, false)) h h
replace-Kept res (some []) none h =
    Kept-if false (not (is_supported res)) (some (res, false)) (some (res, false)) h h
replace-Kept res (some []) (some new) h =
    Kept-if false (not (is_supported res)) (some (res, false)) (some (res, false)) h h
replace-Kept res (some (c ∷ s)) none h =
    Kept-if true (not (is_supported res)) (some (res, false)) none h refl
replace-Kept res (some (c ∷ s)) (some new) h =
    Kept-if false (not (is_supported res)) (some (res, false)) _ h
      (replace_string-Kept res (c ∷ s) (some new) (same_text (c ∷ s) new) h)

go_on-Kept :
    (b : Bool) (out : Outcome) (k : Resource → Outcome)
    → Kept b out
    → ((res : Resource) → HasValid res → Kept b (k res))
    → Kept b (go_on out k)
unfolding go_on
go_on-Kept b none k h keep = h
go_on-Kept b (some (res, true)) k h keep = keep res h
go_on-Kept b (some (res, false)) k h keep = h

map_tags-Kept :
    (b : Bool) (fn : Resource → Bytes → Outcome)
    → ((res : Resource) (tag : Bytes) → HasValid res → Kept b (fn res tag))
    → (tags : List Bytes) (res : Resource) → HasValid res
    → Kept b (map_tags fn tags res)
unfolding map_tags
map_tags-Kept b fn keep [] res h = h
map_tags-Kept b fn keep (tag ∷ tags) res h =
    go_on-Kept b (fn res tag) (map_tags fn tags) (keep res tag h)
      (λ r k. map_tags-Kept b fn keep tags r k)

remove_tag-Kept :
    (res : Resource) (tag : Bytes) → HasValid res → Kept true (value_remove_tag res (some tag))
unfolding value_remove_tag
remove_tag-Kept res tag h =
    Kept-weaken (hands_null (some tag) none) (value_replace_tag res (some tag) none)
      (replace_tag-Kept res (some tag) none h)

-- The removal of no tags is defined.
remove_all-Kept :
    (tags : List Bytes) (res : Resource)
    → HasValid res
    → Kept (has_words tags) (map_tags (λ r tag. value_remove_tag r (some tag)) tags res)
unfolding map_tags
remove_all-Kept [] res h = h
remove_all-Kept (tag ∷ tags) res h =
    map_tags-Kept true (λ r t. value_remove_tag r (some t)) (λ r t k. remove_tag-Kept r t k)
      (tag ∷ tags) res h

map_tagstring-Kept :
    (b : Bool) (fn : Resource → Bytes → Outcome) (res : Resource) (s : Bytes)
    → HasValid res
    → Kept b (map_tags fn (words (λ c. elem c allowed_separators) s) res)
    → Kept b (value_map_tagstring fn res s)
unfolding value_map_tagstring
map_tagstring-Kept b fn res s h k =
    Kept-if b (is_supported res) (map_tags fn (words (λ c. elem c allowed_separators) s) res)
      (some (res, false)) k h

perform-Kept :
    (op : Operation) (res : Resource) → HasValid res → Kept (compares_null op) (perform op res)
unfolding perform compares_null value_append value_prepend value_prepend_tag value_append_tag
    value_remove_tag value_remove value_add_tags value_remove_tags unset_value fits
perform-Kept (call_set_value v) res h = set_value-HasValid res v h
perform-Kept (call_append v) res h = extend-HasValid (λ cur extra. cur ++ extra) res v h
perform-Kept (call_prepend v) res h = extend-HasValid (λ cur extra. extra ++ cur) res v h
perform-Kept (call_append_tag v) res h = extend-HasValid join_behind res v h
perform-Kept (call_prepend_tag v) res h = extend-HasValid join_in_front res v h
perform-Kept (call_add_tag v) res h = add_tag-HasValid res v h
perform-Kept (call_remove_tag v) res h = replace_tag-Kept res v none h
perform-Kept (call_remove v) res h = replace-Kept res v none h
perform-Kept (call_replace_tag v w) res h = replace_tag-Kept res v w h
perform-Kept (call_replace v w) res h = replace-Kept res v w h
perform-Kept (call_add_tags s) res h =
    let fn : Resource → Bytes → Outcome = λ r tag. some (value_add_tag r (some tag)) in
    map_tagstring-Kept false fn res s h (
      map_tags-Kept false fn (λ r tag k. add_tag-HasValid r (some tag) k)
        (words (λ c. elem c allowed_separators) s) res h)
perform-Kept (call_remove_tags s) res h =
    let tags = words (λ c. elem c allowed_separators) s in
    map_tagstring-Kept (has_words tags) (λ r tag. value_remove_tag r (some tag)) res s h
      (remove_all-Kept tags res h)
perform-Kept call_unset_value res h = refl
perform-Kept call_set_type_default res h = set_type_default-HasValid res h
perform-Kept (call_set_type t) res h = set_type-HasValid res t h
perform-Kept (call_set_type_as_string s) res h = set_type_as_string-HasValid res s h

-- The calls end with a valid value, or are undefined, which only `b` allows.
abbrev Remains : Bool → Option Resource → Type 0
Remains b none = b ≡ true
Remains b (some r) = HasValid r

Remains-or : (b c : Bool) (o : Option Resource) → Remains c o → Remains (b || c) o
Remains-or true c none h = refl
Remains-or false c none h = h
Remains-or b c (some r) h = h

next-Remains :
    (b c : Bool) (out : Outcome) (k : Resource → Option Resource)
    → Kept b out
    → ((res : Resource) → HasValid res → Remains c (k res))
    → Remains (b || c) (next k out)
next-Remains b c none k h keep = rw h refl
next-Remains b c (some (res, done)) k h keep = Remains-or b c (k res) (keep res h)

run-Remains :
    (ops : List Operation) (res : Resource) → HasValid res → Remains (some_null ops) (run ops res)
unfolding run some_null
run-Remains [] res h = h
run-Remains (op ∷ ops) res h =
    next-Remains (compares_null op) (some_null ops) (perform op res) (run ops)
      (perform-Kept op res h) (run-Remains ops)

Remains-cases :
    (b : Bool) (o : Option Resource)
    → Remains b o
    → ((o ≡ none) × (b ≡ true)) ⊎ ((r : Resource) × (o ≡ some r) × HasValid r)
Remains-cases b none h = inl (refl, h)
Remains-cases b (some r) h = inr (r, refl, h)

-- Calls of the setters and mutations of values and types are made in a row on a resource whose
-- value is missing or valid for its type, and each may succeed or fail. Then they end with a
-- resource of which that holds again, or the behaviour of one is undefined; the latter only where
-- a call removes a text that is not empty or replaces it by NULL.
pub run-HasValid :
    (ops : List Operation) (res : Resource)
    → HasValid res
    → ((run ops res ≡ none) × (some_null ops ≡ true))
      ⊎ ((r : Resource) × (run ops res ≡ some r) × HasValid r)
run-HasValid ops res h = Remains-cases (some_null ops) (run ops res) (run-Remains ops res h)
