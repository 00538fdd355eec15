-- ===== src/Resource/ValidMutate.antt =====
-- The mutations of values keep them valid for the type: resources/mutate.c.
use lcfg_core.Common.{
  refl, true, false, not, Option, none, some, [], ◌∷◌, ◌++◌, Bytes, CString, is_empty, or_default,
  Position, rejoin, drop, length, if◌then◌else◌, Bool-cases, inl, inr,
}
use lcfg_core.Resource.{
  Resource, valid_for_type, valid_value_for_type, valid_value, fits, set_value, unset_value,
}
use lcfg_core.Resource.ValidType.{HasValid, HasValid-if}
use lcfg_core.Resource.Mutate.{
  is_supported, is_acceptable, extend, store, join_behind, value_append_tag, value_has_tag,
  value_add_tag, skip_separators, replace_at, replace_string_at,
}

pub set_value-HasValid :
    (res : Resource) (v : CString) → HasValid res → HasValid (set_value res v).0
unfolding set_value valid_value valid_value_for_type fits
set_value-HasValid res none h = h
set_value-HasValid res (some s) h = elim (Bool-cases (valid_for_type res.type s)) [
  | inl e ↦ rw e e
  | inr e ↦ rw e h
]

pub store-HasValid : (res : Resource) (v : Bytes) → HasValid res → HasValid (store res v).0
unfolding store unset_value fits
store-HasValid res [] h = refl
store-HasValid res (c ∷ s) h = set_value-HasValid res (some (c ∷ s)) h

pub extend-HasValid :
    (join : Bytes → Bytes → Bytes) (res : Resource) (v : CString)
    → HasValid res
    → HasValid (extend join res v).0
unfolding extend
extend-HasValid join res v h = elim (Bool-cases (is_supported res)) [
  | inr e ↦ rw e h
  | inl e ↦ elim (Bool-cases (is_empty v)) [
    | inl k ↦ rw (e, k) h
    | inr k ↦ elim (Bool-cases (is_acceptable res v)) [
      | inl a ↦
          rw (e, k, a)
            (set_value-HasValid res (some (join (or_default res.value []) (or_default v []))) h)
      | inr a ↦ rw (e, k, a) h
    ]
  ]
]

pub append_tag-HasValid :
    (res : Resource) (v : CString) → HasValid res → HasValid (value_append_tag res v).0
unfolding value_append_tag
append_tag-HasValid res v h = extend-HasValid join_behind res v h

pub add_tag-HasValid :
    (res : Resource) (v : CString) → HasValid res → HasValid (value_add_tag res v).0
unfolding value_add_tag
add_tag-HasValid res v h =
    HasValid-if (not (is_supported res)) (res, false) _ h
      (HasValid-if (is_empty v) (res, true) _ h
        (HasValid-if (value_has_tag res v) (res, true) (value_append_tag res v) h
          (append_tag-HasValid res v h)))

pub replace_at-HasValid :
    (res : Resource) (old : Bytes) (new : CString) (p : Option Position)
    → HasValid res
    → HasValid (replace_at res old new p).0
unfolding replace_at
replace_at-HasValid res old new none h = h
replace_at-HasValid res old new (some (passed, s)) h =
    store-HasValid res
      (rejoin passed (
        if is_empty new
        then skip_separators (drop (length old) s)
        else or_default new [] ++ drop (length old) s))
      h

pub replace_string_at-HasValid :
    (res : Resource) (old : Bytes) (new : CString) (p : Option Position)
    → HasValid res
    → HasValid (replace_string_at res old new p).0
unfolding replace_string_at
replace_string_at-HasValid res old new none h = h
replace_string_at-HasValid res old new (some (passed, s)) h =
    store-HasValid res (rejoin passed (or_default new [] ++ drop (length old) s)) h
