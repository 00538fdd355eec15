-- ===== src/Resource/ReplaceTag.antt =====
-- The tags of a value after lcfgresource_value_replace_tag: resources/mutate.c.
use lcfg_core.Common.{
  ℕ, ◌≡◌, refl, sym, ap, ◌∙◌, ◌⊎◌, Bool, true, false, not, ◌||◌, none, some, List, [], ◌∷◌, ◌++◌,
  Bytes, CString, all_bytes, is_empty, or_default, length, drop, if◌then◌else◌, Option-cases, inl,
  inr, same_text, Position, rejoin, member, words, add_word,
}
use lcfg_core.Utils.{finditem}
use lcfg_core.Utils.Scan.{IsItem}
use lcfg_core.Utils.Locate.{IsLocated, finditem-IsLocated}
use lcfg_core.Resource.{
  Resource, ResourceType, type_string, type_integer, type_boolean, type_list, type_publish,
  type_subscribe, string_type, same_type, is_string, is_list, has_value, is_list_chr, valid_list,
  valid_for_type, fits, valid_value, valid_value_for_type, set_value, unset_value,
}
use lcfg_core.Resource.Mutate.{
  allowed_separators, Outcome, value_find_tag, value_has_tag, is_supported, is_acceptable, store,
  replace_at, compare_given, replace_compared, value_replace_tag,
}
use lcfg_core.Resource.Tags.{is_sep, tags_of, has_tag-member, or_default-list}
use lcfg_core.Resource.Located.{
  start-words, end-words, put, put-words, starts_with-append, rejoin_left, rejoin_swap, drop_bytes,
  put_bytes,
}

-- What replacing a tag does to the tags: where the old tag is there, the new one stands in the place
-- of one occurrence, and nothing if it is empty; where not, the tags stay, and it is a success only
-- for an empty one.
abbrev pub IsReplaced : Bytes → Bytes → Bool → List Bytes → List Bytes → Type 0
IsReplaced old new done ts ts' =
    ((member old ts ≡ false) × (done ≡ is_empty (some new)) × (ts' ≡ ts))
    ⊎ ((ws : List Bytes) × (vs : List Bytes) × (done ≡ true)
        × (ts ≡ ws ++ old ∷ vs)
        × (ts' ≡ ws ++ add_word new vs))

pub record IsReplacement (res : Resource) (old new : Bytes) (out : Outcome) : Type 0 where
  pub value : CString
  pub done : Bool
  pub result : out ≡ some (record res { value = value }, done)
  pub valid : fits res.type value ≡ true
  pub tags : IsReplaced old new done (tags_of res.value) (tags_of value)

-- The tags of the value that is built around a located item.
located-words :
    (old new text passed s : Bytes)
    → IsItem allowed_separators old
    → all_bytes (λ c. not (is_sep c)) new ≡ true
    → IsLocated old allowed_separators text (passed, s)
    → IsReplaced old new true
        (words is_sep text)
        (words is_sep (rejoin passed (put new (drop (length old) s))))
located-words old new text passed s item lacks l =
    let (ws, around) = start-words passed l.start in
    let after = drop (length old) s in
    inr (
      ws,
      words is_sep after,
      refl,
      rw (← l.whole) (
          around s
          ∙ ap (λ (x : List Bytes). ws ++ x)
              (ap (words is_sep) (starts_with-append old s l.starts)
                ∙ end-words old after item l.end)),
      around (put new after) ∙ ap (λ (x : List Bytes). ws ++ x) (put-words new after lacks l.end),
    )

located_bytes :
    (f : ℕ → Bool) (old new text passed s : Bytes)
    → all_bytes f text ≡ true
    → all_bytes f new ≡ true
    → IsLocated old allowed_separators text (passed, s)
    → all_bytes f (rejoin passed (put new (drop (length old) s))) ≡ true
located_bytes f old new text passed s h k l =
    let whole : all_bytes f (rejoin passed s) ≡ true = ap (all_bytes f) l.whole ∙ h in
    rejoin_swap f passed s (put new (drop (length old) s)) whole
      (put_bytes f new (drop (length old) s) k (drop_bytes f old s (rejoin_left f passed s whole)))

located-valid :
    (type : ResourceType) (v : CString) (old new passed s : Bytes)
    → (string_type type || same_type type type_list) ≡ true
    → fits type v ≡ true
    → (not (same_type type type_list) || all_bytes is_list_chr new) ≡ true
    → IsLocated old allowed_separators (or_default v []) (passed, s)
    → valid_for_type type (rejoin passed (put new (drop (length old) s))) ≡ true
unfolding valid_for_type
located-valid type_string v old new passed s h k a l = refl
located-valid type_publish v old new passed s h k a l = refl
located-valid type_subscribe v old new passed s h k a l = refl
located-valid type_list v old new passed s h k a l =
    located_bytes is_list_chr old new (or_default v []) passed s (or_default-list v k) a l
located-valid type_integer v old new passed s h k a l = cc
located-valid type_boolean v old new passed s h k a l = cc

-- A value that is stored: an empty one is none.
abbrev stored : Bytes → CString
stored r = if is_empty (some r) then none else some r

store_lem :
    (res : Resource) (r : Bytes)
    → valid_for_type res.type r ≡ true
    → (store res r ≡ (record res { value = stored r }, true))
      × (fits res.type (stored r) ≡ true)
      × (or_default (stored r) [] ≡ r)
unfolding store unset_value set_value valid_value valid_value_for_type fits
store_lem res [] h = (refl, refl, refl)
store_lem res (c ∷ s) h = (rw h refl, h, refl)

replace_at-IsReplacement :
    (res : Resource) (old new : Bytes) (p : Position)
    → IsItem allowed_separators old
    → all_bytes (λ c. not (is_sep c)) new ≡ true
    → is_supported res ≡ true
    → fits res.type res.value ≡ true
    → is_acceptable res (some new) ≡ true
    → IsLocated old allowed_separators (or_default res.value []) p
    → IsReplacement res old new (some (replace_at res old (some new) (some p)))
unfolding replace_at is_supported is_string is_list is_acceptable valid_list
replace_at-IsReplacement res old new (passed, s) item lacks sup v a l =
    let r = rejoin passed (put new (drop (length old) s)) in
    let good = located-valid res.type res.value old new passed s sup v a l in
    let (e, f, o) = store_lem res r good in
    record {
      value = stored r;
      done = true;
      result = ap some e;
      valid = f;
      tags = rw o (located-words old new (or_default res.value []) passed s item lacks l);
    }

find-IsLocated :
    (v : CString) (old : Bytes) (p : Position)
    → (if not (is_empty v) then finditem v old allowed_separators else none) ≡ some p
    → IsLocated old allowed_separators (or_default v []) p
find-IsLocated none old p h = cc
find-IsLocated (some []) old p h = cc
find-IsLocated (some (c ∷ s)) old p h = finditem-IsLocated old b' ' (9 ∷ 13 ∷ 10 ∷ []) c s p h

find_tag-IsLocated :
    (res : Resource) (old : Bytes) (p : Position)
    → value_find_tag res old ≡ some p
    → IsLocated old allowed_separators (or_default res.value []) p
unfolding value_find_tag has_value
find_tag-IsLocated res old p h = find-IsLocated res.value old p h

find_tag-none :
    (res : Resource) (old : Bytes)
    → IsItem allowed_separators old
    → value_find_tag res old ≡ none
    → member old (tags_of res.value) ≡ false
unfolding value_has_tag
find_tag-none res old item h = sym (has_tag-member res old item) ∙ rw h refl

not_found :
    (res : Resource) (old new : Bytes)
    → IsItem allowed_separators old
    → fits res.type res.value ≡ true
    → value_find_tag res old ≡ none
    → IsReplacement res old new (some (replace_at res old (some new) none))
unfolding replace_at
not_found res old new item v e = record {
  value = res.value;
  done = is_empty (some new);
  result = refl;
  valid = v;
  tags = inl (find_tag-none res old item e, refl, refl);
}

replace_found :
    (res : Resource) (old new : Bytes)
    → IsItem allowed_separators old
    → all_bytes (λ c. not (is_sep c)) new ≡ true
    → is_supported res ≡ true
    → fits res.type res.value ≡ true
    → is_acceptable res (some new) ≡ true
    → IsReplacement res old new (some (replace_at res old (some new) (value_find_tag res old)))
replace_found res old new item lacks sup v a = elim (Option-cases (value_find_tag res old)) [
  | inl e ↦ rw e (not_found res old new item v e)
  | inr (p, e) ↦
      rw e
        (replace_at-IsReplacement res old new p item lacks sup v a (find_tag-IsLocated res old p e))
]

item_filled :
    (old : Bytes)
    → IsItem allowed_separators old
    → (is_empty (some old) ≡ false) × (or_default (some old) [] ≡ old)
item_filled [] h = absurd h
item_filled (c ∷ w) h = (refl, refl)

-- Replacing a tag succeeds where the tag is there, and the new tag then stands in the place of one
-- occurrence; an empty new tag removes it. Where the tag is not there the value stays, and it is a
-- failure unless the new tag is empty. The value stays valid. For a string or list resource with a
-- valid value, an old tag that is not empty, a new one that differs and is valid for the type, and
-- no separator in them.
pub replace_tag-IsReplacement :
    (res : Resource) (old new : Bytes)
    → IsItem allowed_separators old
    → all_bytes (λ c. not (is_sep c)) new ≡ true
    → same_text old new ≡ false
    → is_supported res ≡ true
    → fits res.type res.value ≡ true
    → is_acceptable res (some new) ≡ true
    → IsReplacement res old new (value_replace_tag res (some old) (some new))
unfolding value_replace_tag replace_compared compare_given
replace_tag-IsReplacement res old new item lacks differ sup v a =
    let (filled, same) = item_filled old item in
    rw (sup, filled, same, differ, a) (replace_found res old new item lacks sup v a)
