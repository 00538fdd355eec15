-- ===== src/ResourceList/Step.antt =====
-- The steps that lcfgreslist_merge_resource takes: resources/components/reslist.c.
use lcfg_core.Common.{
  ℕ, ◌+◌, ◌-◌, ◌%◌, ◌≡◌, length, length-append, refl, sym, ap, Bool, true, false, ◌&&◌, Option,
  none, some, List, [], ◌∷◌, ◌++◌, ◌==◌, if◌then◌else◌, Bool-cases, inl, inr, Heap, arith, Change,
  change_error, change_none, change_added, change_replaced, MergeRules, ◌-ℤ◌,
}
use mathlib.Core.Path.{subst}
use lcfg_core.Derivation.{u32}
use lcfg_core.Resource.{Resource, is_valid}
use lcfg_core.Resource.Compare.{equals}
use lcfg_core.PackageList.Merge.{Decision, decide, is_positive, is_negative}
use lcfg_core.ResourceList.{ResourceList, Node, acquire, relinquish, append, remove_node}
use lcfg_core.ResourceList.Merge.{
  matches, search, by_rules, resolve, remove_old, append_new, append_if, apply, merge_resource,
}
use lcfg_core.ResourceList.Unique.{IsSplit, search-IsSplit}

module _ (h : Heap Resource) (list : ResourceList) (p : ℕ) where
  -- The list with the new resource at the end, and the heap.
  abbrev pub grown : Heap Resource → List ℕ → ℕ → Heap Resource × ResourceList
  grown h' nodes size =
      (acquire h' p, record list { nodes = nodes ++ p ∷ []; size = (size + 1) % u32 })

  abbrev pub found : Option Node
  found = search (matches h list.by_context p) list.nodes

  -- A merge refuses the resource, keeps the list, adds the resource where its key is absent or
  -- where the rules keep all, or puts it at the end in place of another one of the key.
  pub data IsMerge : (Heap Resource × ResourceList) × Change → Type 0 where
    refused : IsMerge ((h, list), change_error)
    kept : IsMerge ((h, list), change_none)
    added :
        is_valid (h p) ≡ true → found ≡ none → IsMerge (grown h list.nodes list.size, change_added)
    doubled :
        is_valid (h p) ≡ true
        → list.merge_rules.keep_all ≡ true
        → IsMerge (grown h list.nodes list.size, change_added)
    replaced :
        (xs : List ℕ) (q : ℕ) (ys : List ℕ)
        → is_valid (h p) ≡ true
        → (q == p) ≡ false
        → list.nodes ≡ xs ++ q ∷ ys
        → matches h list.by_context p q ≡ true
        → IsMerge (grown (relinquish h q) (xs ++ ys) (list.size - 1), change_replaced)

-- What the rules decide, where they may keep all resources.
data Ruling (keep_all : Bool) : Decision → Type 0 where
  exchange : Ruling keep_all (decide true true true)
  leave : (b : Bool) → Ruling keep_all (decide false false b)
  keep : keep_all ≡ true → Ruling keep_all (decide false true true)

Ruling-if : (k c : Bool) (d e : Decision) → Ruling k d → Ruling k e → Ruling k (if c then d else e)
Ruling-if k true d e x y = x
Ruling-if k false d e x y = y

Ruling-keep :
    (k : Bool) (e : Decision) → Ruling k e → Ruling k (if k then decide false true true else e)
Ruling-keep true e y = keep refl
Ruling-keep false e y = y

by_rules-Ruling : (rules : MergeRules) (a b : Resource) → Ruling rules.keep_all (by_rules rules a b)
unfolding by_rules
by_rules-Ruling rules a b =
    let k = rules.keep_all in
    let change = decide true true true in
    let lower = decide false false (is_negative (a.priority -ℤ b.priority)) in
    let higher = is_positive (a.priority -ℤ b.priority) in
    let compared = if higher then change else lower in
    let ranked = if rules.use_priority then compared else decide false false false in
    let ruled = if rules.replace then change else ranked in
    let kept_all = if k then decide false true true else ruled in
    let less = leave (is_negative (a.priority -ℤ b.priority)) in
    let step1 = Ruling-if k higher change lower exchange less in
    let step2 =
      Ruling-if k rules.use_priority compared (decide false false false) step1 (leave false) in
    let step3 = Ruling-if k rules.replace change ranked exchange step2 in
    let step4 = Ruling-keep k ruled step3 in
    Ruling-if k (rules.squash_identical && equals b a) change kept_all exchange step4

module _ (h : Heap Resource) (list : ResourceList) (p : ℕ) (valid : is_valid (h p) ≡ true) where
  apply-IsMerge :
      (xs : List ℕ) (q : ℕ) (ys : List ℕ) (d : Decision)
      → (list.size == 0) ≡ false
      → (q == p) ≡ false
      → list.nodes ≡ xs ++ q ∷ ys
      → matches h list.by_context p q ≡ true
      → Ruling list.merge_rules.keep_all d
      → IsMerge h list p (apply h list p (some (xs, q, ys)) d)
  unfolding apply append_if append_new remove_old remove_node append
  apply-IsMerge xs q ys _ filled other split same exchange =
      rw filled (replaced xs q ys valid other split same)
  apply-IsMerge xs q ys _ filled other split same (leave true) = kept
  apply-IsMerge xs q ys _ filled other split same (leave false) = refused
  apply-IsMerge xs q ys _ filled other split same (keep all) = doubled valid all

  resolve-IsMerge :
      (o : Option Node)
      → found h list p ≡ o
      → list.size ≡ length list.nodes
      → IsSplit (matches h list.by_context p) list.nodes o
      → IsMerge h list p (apply h list p o (resolve h list.merge_rules p o))
  unfolding resolve apply append_if append_new append
  resolve-IsMerge none e counted split = added valid e
  resolve-IsMerge (some (xs, q, ys)) e counted (split, same) =
      let long = ap length split in
      let sum = length-append xs (q ∷ ys) in
      let filled : (list.size == 0) ≡ false = ground arith in
      elim (Bool-cases (q == p)) [
        | inl self ↦ rw self kept
        | inr other ↦ rw other (
            apply-IsMerge xs q ys (by_rules list.merge_rules (h p) (h q)) filled other split same
              (by_rules-Ruling list.merge_rules (h p) (h q)))
      ]

merge_resource-placed :
    (h : Heap Resource) (list : ResourceList) (p : ℕ)
    → is_valid (h p) ≡ true
    → merge_resource h list p
      ≡ apply h list p (found h list p) (resolve h list.merge_rules p (found h list p))
unfolding merge_resource
merge_resource-placed h list p valid = rw valid refl

merge_resource-invalid :
    (h : Heap Resource) (list : ResourceList) (p : ℕ)
    → is_valid (h p) ≡ false
    → merge_resource h list p ≡ ((h, list), change_error)
unfolding merge_resource
merge_resource-invalid h list p invalid = rw invalid refl

pub merge_resource-IsMerge :
    (h : Heap Resource) (list : ResourceList) (p : ℕ)
    → list.size ≡ length list.nodes
    → IsMerge h list p (merge_resource h list p)
merge_resource-IsMerge h list p counted = elim (Bool-cases (is_valid (h p))) [
  | inr invalid ↦ subst (IsMerge h list p) (sym (merge_resource-invalid h list p invalid)) refused
  | inl valid ↦ subst (IsMerge h list p) (sym (merge_resource-placed h list p valid)) (
      resolve-IsMerge h list p valid (found h list p) refl counted
        (search-IsSplit (matches h list.by_context p) list.nodes))
]
