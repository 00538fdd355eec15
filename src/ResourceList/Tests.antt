-- ===== src/ResourceList/Tests.antt =====
-- Runs of the operations on lists of resources, and the theorems about them at concrete inputs.
use lcfg_core.Common.{
  ℕ, ◌≡◌, refl, Bool, true, false, ap, some, [], ◌∷◌, codes, ◌==◌, arith, if◌then◌else◌, ℤ, pos,
  Bytes, change_added, change_error, change_none, change_modified, Heap, ◌-ℤ◌, deref,
}
use lcfg_core.Resource.{Resource}
use lcfg_core.Resource
use lcfg_core.ResourceList.{ResourceList, no_rules}
use lcfg_core.ResourceList
use lcfg_core.ResourceList.Merge.{merge_resource, merge_list}
use lcfg_core.ResourceList.Unique.{IsProper}
use lcfg_core.ResourceList.WellFormed.{IsWellFormed, merge_resource-IsWellFormed}
use lcfg_core.ResourceList.Step.{IsMerge, merge_resource-IsMerge}
use lcfg_core.ResourceList.Lists.{merge_list-IsWellFormed}

abbrev named_resource : Bytes → ℤ → Resource
named_resource s n = record Resource.new { name = some s; priority = n }

-- Two resources "a" of the priorities 1 and 2, and one of the name "b".
abbrev heap : Heap Resource
heap p =
    if p == 0
    then named_resource (codes "a") (pos 1)
    else if p == 1
    then named_resource (codes "a") (pos 2)
    else named_resource (codes "b") (pos 0)

abbrev empty_list : ResourceList
empty_list = record ResourceList.new { merge_rules = record no_rules { use_priority = true } }

abbrev first_two : ResourceList
first_two = record {
  nodes = 0 ∷ 2 ∷ [];
  size = 2;
  by_context = false;
  merge_rules = record no_rules { use_priority = true };
  refcount = 1;
}

test_added : (merge_resource heap empty_list 0).1 ≡ change_added
unfolding ResourceList.new merge_resource Resource.new
test_added = refl

test_replaced :
    (merge_resource heap first_two 1).0.1 ≡ record first_two { nodes = 2 ∷ 1 ∷ []; size = 2 }
unfolding merge_resource Resource.new ◌-ℤ◌
test_replaced = refl

test_conflict :
    (merge_resource heap (record first_two { merge_rules = no_rules }) 1).1 ≡ change_error
unfolding merge_resource Resource.new
test_conflict = refl

test_self : (merge_resource heap first_two 2).1 ≡ change_none
unfolding merge_resource Resource.new
test_self = refl

test_list : (merge_list heap empty_list first_two).1 ≡ change_modified
unfolding ResourceList.new merge_list Resource.new
test_list = refl

IsProper-if : (c : Bool) (x y : Resource) → IsProper x → IsProper y → IsProper (if c then x else y)
IsProper-if true x y p q = p
IsProper-if false x y p q = q

proper : (q : ℕ) → IsProper (heap q)
unfolding Resource.new
proper q =
    IsProper-if (q == 0) _ _ (record { name = (omega arith, tt); context = tt })
      (IsProper-if (q == 1) _ _ (record { name = (omega arith, tt); context = tt })
        (record { name = (omega arith, tt); context = tt }))

IsWellFormed-first_two : IsWellFormed heap first_two
unfolding Resource.new Resource.is_valid
IsWellFormed-first_two = record {
  unique =
      (refl, (refl, (λ e. let bad = ap (λ k. deref k.0) e in omega arith), tt), (refl, tt, tt));
  counted = refl;
}

merge_resource-IsMerge_example : IsMerge heap first_two 1 (merge_resource heap first_two 1)
merge_resource-IsMerge_example = merge_resource-IsMerge heap first_two 1 refl

merge_resource-IsWellFormed_example :
    IsWellFormed (merge_resource heap first_two 1).0.0 (merge_resource heap first_two 1).0.1
merge_resource-IsWellFormed_example =
    merge_resource-IsWellFormed heap first_two 1 proper refl (omega arith) IsWellFormed-first_two

merge_list-IsWellFormed_example :
    IsWellFormed (merge_list heap first_two first_two).0.0 (merge_list heap first_two first_two).0.1
merge_list-IsWellFormed_example =
    merge_list-IsWellFormed heap first_two first_two proper refl (omega arith)
      IsWellFormed-first_two
