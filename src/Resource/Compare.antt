-- ===== src/Resource/Compare.antt =====
-- Comparisons of resources: lcfgresource_compare and the tests of names, types and contexts of
-- resources/resource.c.
use lcfg_core.Common.{
  Bool, [], Bytes, or_default, strcmp, ℤ, pos, negsuc, ◌-ℤ◌, is_zero, if◌then◌else◌,
}
use lcfg_core.Context.{compare_expressions}
use lcfg_core.PackageList.Merge.{is_negative}
use lcfg_core.Resource.{Resource}

-- `lcfgresource_compare_names`
unfoldable pub compare_names : Resource → Resource → ℤ
unfolding strcmp
compare_names res1 res2 = strcmp (or_default res1.name []) (or_default res2.name [])

-- `lcfgresource_same_name`
unfoldable pub same_name : Resource → Resource → Bool
unfolding compare_names
same_name res1 res2 = is_zero (compare_names res1 res2)

-- `lcfgresource_match`
unfoldable pub match : Resource → Bytes → Bool
unfolding strcmp
match res name = is_zero (strcmp (or_default res.name []) name)

-- `lcfgresource_same_context`
unfoldable pub same_context : Resource → Resource → Bool
unfolding compare_expressions
same_context res1 res2 = is_zero (compare_expressions res1.context res2.context)

-- The comparison of priorities in `lcfgresource_compare`.
unfoldable pub compare_priorities : ℤ → ℤ → ℤ
compare_priorities prio1 prio2 =
    if is_zero (prio1 -ℤ prio2)
    then pos 0
    else if is_negative (prio1 -ℤ prio2)
    then negsuc 0
    else pos 1

abbrev pub or_next : ℤ → ℤ → ℤ
or_next result next = if is_zero result then next else result

-- `lcfgresource_compare`: the values are compared twice, where the source says `value` for the
-- contexts.
unfoldable pub compare : Resource → Resource → ℤ
unfolding compare_names compare_priorities strcmp
compare res1 res2 =
    let values = strcmp (or_default res1.value []) (or_default res2.value []) in
    let contexts = strcmp (or_default res1.value []) (or_default res2.value []) in
    or_next (compare_names res1 res2)
      (or_next (compare_priorities res1.priority res2.priority) (or_next values contexts))

-- `lcfgresource_equals`
unfoldable pub equals : Resource → Resource → Bool
unfolding compare
equals res1 res2 = is_zero (compare res1 res2)
