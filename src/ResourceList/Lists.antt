-- ===== src/ResourceList/Lists.antt =====
-- Merging whole lists of resources keeps them well-formed: lcfgreslist_merge_list of
-- resources/components/reslist.c.
use lcfg_core.Common.{
  ℕ, ◌+◌, ◌-◌, ◌<◌, ◌≤◌, ◌≡◌, length, refl, ap, ◌∙◌, Bool, true, false, List, [], ◌∷◌, ◌==◌,
  if◌then◌else◌, Bool-cases, inl, inr, Heap, arith, Change, change_none, change_modified, change_ok,
  unchanged, ltb,
}
use lcfg_core.Derivation.{u32}
use lcfg_core.Resource.{Resource}
use lcfg_core.Resource
use lcfg_core.ResourceList.{ResourceList, acquire, relinquish, destroyed}
use lcfg_core.ResourceList.Merge.{merge_resource, merge_all, merge_list}
use lcfg_core.ResourceList.Unique.{IsProper}
use lcfg_core.ResourceList.Step.{
  IsMerge, refused, kept, added, doubled, replaced, merge_resource-IsMerge,
}
use lcfg_core.ResourceList.WellFormed.{IsWellFormed, merge_resource-IsWellFormed}

abbrev AllProper : Heap Resource → Type 0
AllProper h = (q : ℕ) → IsProper (h q)

acquire-AllProper : (h : Heap Resource) (p : ℕ) → AllProper h → AllProper (acquire h p)
unfolding acquire Resource.acquire
acquire-AllProper h p texts q = elim (Bool-cases (q == p)) [
  | inl here ↦ rw here (record { name = (texts p).name; context = (texts p).context })
  | inr away ↦ rw away (texts q)
]

release-IsProper :
    (c : Bool) (res kept_res : Resource)
    → IsProper res
    → IsProper kept_res
    → IsProper (if c then destroyed res else kept_res)
unfolding destroyed
release-IsProper true res kept_res x y = record { name = tt; context = tt }
release-IsProper false res kept_res x y = y

relinquish-AllProper : (h : Heap Resource) (p : ℕ) → AllProper h → AllProper (relinquish h p)
unfolding relinquish
relinquish-AllProper h p texts q =
    let count = if ltb 0 (h p).refcount then (h p).refcount - 1 else (h p).refcount in
    let less : Resource = record (h p) { refcount = count } in
    let less_proper : IsProper less = record {
      name = (texts p).name;
      context = (texts p).context;
    } in
    elim (Bool-cases (q == p)) [
      | inl here ↦ rw here (release-IsProper (count == 0) (h p) less (texts p) less_proper)
      | inr away ↦ rw away (texts q)
    ]

-- What a merge leaves as it was: the rules, the strings on the heap, and the size up to one.
record IsKept (h : Heap Resource) (list : ResourceList) (r : (Heap Resource × ResourceList))
    : Type 0 where
  texts : AllProper r.0
  rules : r.1.merge_rules ≡ list.merge_rules
  grows : r.1.size ≤ list.size + 1

IsMerge-IsKept :
    (h : Heap Resource) (list : ResourceList) (p : ℕ) (r : (Heap Resource × ResourceList) × Change)
    → AllProper h
    → list.size + 1 < u32
    → IsMerge h list p r
    → IsKept h list r.0
IsMerge-IsKept h list p _ texts small refused = record {
  texts = texts;
  rules = refl;
  grows = omega arith;
}
IsMerge-IsKept h list p _ texts small kept = record {
  texts = texts;
  rules = refl;
  grows = omega arith;
}
IsMerge-IsKept h list p _ texts small (added good absent) = record {
  texts = acquire-AllProper h p texts;
  rules = refl;
  grows = omega arith;
}
IsMerge-IsKept h list p _ texts small (doubled good all) = record {
  texts = acquire-AllProper h p texts;
  rules = refl;
  grows = omega arith;
}
IsMerge-IsKept h list p _ texts small (replaced xs q ys good other split found) = record {
  texts = acquire-AllProper (relinquish h q) p (relinquish-AllProper h q texts);
  rules = refl;
  grows = omega arith;
}

abbrev PairIsWellFormed : (Heap Resource × ResourceList) × Change → Type 0
PairIsWellFormed r = IsWellFormed r.0.0 r.0.1

merge_all-IsWellFormed :
    (h : Heap Resource) (list : ResourceList) (ps : List ℕ) (change : Change)
    → AllProper h
    → list.merge_rules.keep_all ≡ false
    → list.size + length ps < u32
    → IsWellFormed h list
    → PairIsWellFormed (merge_all h list ps change)
unfolding merge_all
merge_all-IsWellFormed h list [] change texts rules small well = well
merge_all-IsWellFormed h list (p ∷ ps) change texts rules small well =
    let r = merge_resource h list p in
    let room : list.size + 1 < u32 = omega arith in
    let k = IsMerge-IsKept h list p r texts room (merge_resource-IsMerge h list p well.counted) in
    let grows = k.grows in
    let next = if unchanged r.1 then change else change_modified in
    let well' = merge_resource-IsWellFormed h list p texts rules room well in
    elim (Bool-cases (change_ok r.1)) [
      | inl fine ↦ rw fine (
          merge_all-IsWellFormed r.0.0 r.0.1 ps next k.texts (ap (λ m. m.keep_all) k.rules ∙ rules)
            (omega arith) well')
      | inr failed ↦ rw failed well'
    ]

pub merge_list-IsWellFormed :
    (h : Heap Resource) (list1 list2 : ResourceList)
    → ((q : ℕ) → IsProper (h q))
    → list1.merge_rules.keep_all ≡ false
    → list1.size + length list2.nodes < u32
    → IsWellFormed h list1
    → (let ((h', list'), _) = merge_list h list1 list2 in IsWellFormed h' list')
unfolding merge_list
merge_list-IsWellFormed h list1 list2 texts rules small well =
    merge_all-IsWellFormed h list1 list2.nodes change_none texts rules small well
