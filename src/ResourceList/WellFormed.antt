-- ===== src/ResourceList/WellFormed.antt =====
-- A merge keeps a list of resources well-formed: resources/components/reslist.c.
use lcfg_core.Common.{
  ℕ, ◌+◌, ◌<◌, ◌≡◌, ◌≢◌, length, length-append, refl, sym, ap, ◌∙◌, Bool, true, false, List, [],
  ◌∷◌, ◌++◌, ◌==◌, Bool-cases, inl, inr, Heap, arith, Change,
}
use lcfg_core.Derivation.{u32}
use lcfg_core.Resource.{Resource, is_valid}
use lcfg_core.Resource
use lcfg_core.PackageList.Keys.{Key}
use lcfg_core.PackageList.Unique.{
  IsFree, IsUnique, IsUnique-last, IsUnique-around, IsUnique-other, IsFree-other,
}
use lcfg_core.ResourceList.{ResourceList, acquire, relinquish}
use lcfg_core.ResourceList.Merge.{matches, merge_resource}
use lcfg_core.ResourceList.Unique.{key_of, IsProper, matches-key, search-IsFree}
use lcfg_core.ResourceList.Step.{
  IsMerge, refused, kept, added, doubled, replaced, merge_resource-IsMerge,
}

-- The resources of the list are valid and of different primary keys, and the size is their number.
pub record IsWellFormed (h : Heap Resource) (list : ResourceList) : Type 0 where
  pub unique : IsUnique (λ q. is_valid (h q)) (λ q. key_of list.by_context (h q)) list.nodes
  pub counted : list.size ≡ length list.nodes

acquire-valid : (h : Heap Resource) (p q : ℕ) → is_valid (acquire h p q) ≡ is_valid (h q)
unfolding acquire is_valid Resource.acquire
acquire-valid h p q = elim (Bool-cases (q == p)) [
  | inl here ↦ let at : q ≡ p = ground arith in rw (here, at) refl
  | inr away ↦ rw away refl
]

acquire-key : (h : Heap Resource) (p q : ℕ) (b : Bool) → key_of b (acquire h p q) ≡ key_of b (h q)
unfolding acquire Resource.acquire
acquire-key h p q b = elim (Bool-cases (q == p)) [
  | inl here ↦ let at : q ≡ p = ground arith in rw (here, at) refl
  | inr away ↦ rw away refl
]

relinquish-away : (h : Heap Resource) (p q : ℕ) → (q == p) ≡ false → relinquish h p q ≡ h q
unfolding relinquish
relinquish-away h p q away = rw away refl

module _ (h : Heap Resource) (list : ResourceList) (p : ℕ) (texts : (q : ℕ) → IsProper (h q))
    (well : IsWellFormed h list) where
  abbrev valids : Heap Resource → ℕ → Bool
  valids h' q = is_valid (h' q)

  abbrev keys : Heap Resource → ℕ → Key
  keys h' q = key_of list.by_context (h' q)

  other_than : (x q : ℕ) → keys h x ≢ keys h p → keys h q ≡ keys h p → (x == q) ≡ false
  other_than x q differs same = elim (Bool-cases (x == q)) [
    | inr away ↦ away
    | inl here ↦ let at : x ≡ q = ground arith in elim (differs (ap (keys h) at ∙ same)) [ ]
  ]

  -- A heap that differs at resources of the key of `p` only.
  IsUnique-grown :
      (h' : Heap Resource) (nodes : List ℕ)
      → is_valid (h' p) ≡ true
      → key_of list.by_context (h' p) ≡ key_of list.by_context (h p)
      → ((x : ℕ)
          → key_of list.by_context (h x) ≢ key_of list.by_context (h p)
          → (is_valid (h' x) ≡ is_valid (h x))
            × (key_of list.by_context (h' x) ≡ key_of list.by_context (h x)))
      → IsFree
          (λ q. is_valid (h q))
          (λ q. key_of list.by_context (h q))
          (key_of list.by_context (h p))
          nodes
      → IsUnique (λ q. is_valid (h q)) (λ q. key_of list.by_context (h q)) nodes
      → IsUnique (λ q. is_valid (h' q)) (λ q. key_of list.by_context (h' q)) (nodes ++ p ∷ [])
  IsUnique-grown h' nodes good key same free unique =
      let k = key_of list.by_context (h p) in
      let free' = IsFree-other (valids h) (keys h) (valids h') (keys h') k k nodes same free free in
      let unique' =
        IsUnique-other (valids h) (keys h) (valids h') (keys h') k nodes same free unique in
      IsUnique-last (valids h') (keys h') nodes p good (rw key free') unique'

  IsUnique-added :
      is_valid (h p) ≡ true
      → IsFree (valids h) (keys h) (key_of list.by_context (h p)) list.nodes
      → IsUnique (valids (acquire h p)) (keys (acquire h p)) (list.nodes ++ p ∷ [])
  IsUnique-added good free =
      IsUnique-grown (acquire h p) list.nodes (acquire-valid h p p ∙ good)
        (acquire-key h p p list.by_context)
        (λ x _. (acquire-valid h p x, acquire-key h p x list.by_context)) free well.unique

  IsUnique-replaced :
      (xs ys : List ℕ) (q : ℕ)
      → is_valid (h p) ≡ true
      → (q == p) ≡ false
      → list.nodes ≡ xs ++ q ∷ ys
      → matches h list.by_context p q ≡ true
      → IsUnique
          (valids (acquire (relinquish h q) p))
          (keys (acquire (relinquish h q) p))
          ((xs ++ ys) ++ p ∷ [])
  IsUnique-replaced xs ys q good other split found =
      let h1 = relinquish h q in
      let same_key = matches-key h p texts list.by_context q found in
      let (free, unique) =
        IsUnique-around (valids h) (keys h) xs q ys (rw (sym split) well.unique) in
      let p_away : (p == q) ≡ false = ground arith in
      let kept_p = relinquish-away h q p p_away in
      IsUnique-grown (acquire h1 p) (xs ++ ys) (acquire-valid h1 p p ∙ ap is_valid kept_p ∙ good)
        (acquire-key h1 p p list.by_context ∙ ap (key_of list.by_context) kept_p)
        (λ x differs.
          let kept_x = relinquish-away h q x (other_than x q differs same_key) in
          (
            acquire-valid h1 p x ∙ ap is_valid kept_x,
            acquire-key h1 p x list.by_context ∙ ap (key_of list.by_context) kept_x,
          ))
        (rw (sym same_key) free) unique

IsMerge-IsWellFormed :
    (h : Heap Resource) (list : ResourceList) (p : ℕ) (r : (Heap Resource × ResourceList) × Change)
    → ((q : ℕ) → IsProper (h q))
    → list.merge_rules.keep_all ≡ false
    → list.size + 1 < u32
    → IsWellFormed h list
    → IsMerge h list p r
    → IsWellFormed r.0.0 r.0.1
IsMerge-IsWellFormed h list p _ texts rules small well refused = well
IsMerge-IsWellFormed h list p _ texts rules small well kept = well
IsMerge-IsWellFormed h list p _ texts rules small well (added good absent) =
    let counted = well.counted in
    record {
      unique =
          IsUnique-added h list p texts well good
            (search-IsFree h p texts list.by_context list.nodes absent well.unique);
      counted = let sum = length-append list.nodes (p ∷ []) in omega arith;
    }
IsMerge-IsWellFormed h list p _ texts rules small well (doubled good all) = cc
IsMerge-IsWellFormed h list p _ texts rules small well (replaced xs q ys good other split found) =
    record {
      unique = IsUnique-replaced h list p texts well xs ys q good other split found;
      counted =
          let counted = well.counted in
          let long = ap length split in
          let sum = length-append xs (q ∷ ys) in
          let sum' = length-append (xs ++ ys) (p ∷ []) in
          let sum'' = length-append xs ys in omega arith;
    }

pub merge_resource-IsWellFormed :
    (h : Heap Resource) (list : ResourceList) (p : ℕ)
    → ((q : ℕ) → IsProper (h q))
    → list.merge_rules.keep_all ≡ false
    → list.size + 1 < u32
    → IsWellFormed h list
    → (let ((h', list'), _) = merge_resource h list p in IsWellFormed h' list')
merge_resource-IsWellFormed h list p texts rules small well =
    IsMerge-IsWellFormed h list p (merge_resource h list p) texts rules small well
      (merge_resource-IsMerge h list p well.counted)
