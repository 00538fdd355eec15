-- ===== src/Context/Priority.antt =====
-- The sort of a list of contexts by their priorities: common/context/list.c.
use lcfg_core.Common.{
  ℕ, ◌*◌, ◌<◌, ◌≡◌, refl, Bool, true, false, List, [], ◌∷◌, length, ltb, ℤ, pos, negsuc, ◌-ℤ◌,
  sub_ℕ, Heap, arith, Bool-cases, inl, inr,
}
use lcfg_core.Context.{Context}
use lcfg_core.Context.Contexts.{ContextList, sort_by_priority}
use lcfg_core.PackageList.Merge.{is_positive}
use lcfg_core.PackageList.Sorted.{
  IsReordered, IsSorted, IsSortedFrom, passes-IsReordered, passes-enough,
}

-- The test of the sort.
abbrev pub above : Heap Context → ℕ → ℕ → Bool
above h p q = is_positive ((h p).priority -ℤ (h q).priority)

sub-asym : (x y : ℤ) → is_positive (x -ℤ y) ≡ true → is_positive (y -ℤ x) ≡ false
unfolding ◌-ℤ◌ sub_ℕ
sub-asym (pos m) (pos n) h = ground (arith, h)
sub-asym (pos m) (negsuc n) h = ground (arith, h)
sub-asym (negsuc m) (pos n) h = ground (arith, h)
sub-asym (negsuc m) (negsuc n) h = ground (arith, h)

short-IsSorted : (greater : ℕ → ℕ → Bool) (ps : List ℕ) → length ps < 2 → IsSorted greater ps
unfolding IsSorted IsSortedFrom
short-IsSorted greater [] h = tt
short-IsSorted greater (p ∷ []) h = tt
short-IsSorted greater (p ∷ q ∷ ps) h = ground (arith, h)

long-IsSorted :
    (h : Heap Context) (ps : List ℕ)
    → 1 < length ps
    → IsSorted (above h) (lcfg_core.PackageList.Sort.passes (above h) (length ps * length ps) ps)
long-IsSorted h [] l = ground (arith, l)
long-IsSorted h (p ∷ ps) l =
    passes-enough (above h) (λ x y. sub-asym (h x).priority (h y).priority) p ps

-- The passes of lcfgctxlist_sort_by_priority come to an end: where the size is the number of nodes,
-- no context has a greater priority than the next one, and the nodes are the ones before.
pub sort_by_priority-IsSorted :
    (h : Heap Context) (list : ContextList)
    → list.size ≡ length list.nodes
    → IsSorted (above h) (sort_by_priority h list).nodes
      × IsReordered (sort_by_priority h list).nodes list.nodes
unfolding sort_by_priority
sort_by_priority-IsSorted h list sized = elim (Bool-cases (ltb list.size 2)) [
  | inl e ↦ rw e (short-IsSorted (above h) list.nodes (ground (arith, e, sized)), λ f. refl)
  | inr e ↦ rw e (
    long-IsSorted h list.nodes (ground (arith, e, sized)),
    λ f. passes-IsReordered (above h) _ list.nodes f,
  )
]
