-- ===== src/Tags/Tests.antt =====
-- Concrete runs on lists of tags, and instances of the theorems.
use lcfg_core.Common.{
  ℕ, ◌≡◌, refl, not, ◌&&◌, ◌||◌, some, [], ◌∷◌, Bytes, codes, update, Bool-cases, inl, inr, ◌==◌,
  length, arith,
}
use lcfg_core.Package.Tests.{IsText-check}
use lcfg_core.Tags
use lcfg_core.Tags.{Tag, TagList, TagHeap, contains}
use lcfg_core.Tags.Sets.{set_union, set_intersection, set_subtract}
use lcfg_core.Tags.Members.{IsNamed, IsName}
use lcfg_core.Tags.Union.{
  IsResult, set_union-IsResult, set_intersection-IsResult, set_subtract-IsResult,
}

abbrev tag_of : Bytes → Tag
tag_of name = record { name = some name; name_len = length name; hash = 1; refcount = 1 }

abbrev heap : TagHeap
heap = record {
  tag =
      update (update (update (λ _. Tags.new) 0 (tag_of (codes "mail"))) 1 (tag_of (codes "dns"))) 2
        (tag_of (codes "ntp"));
  next = 3;
}

abbrev list1 : TagList
list1 = record { tags = 0 ∷ 1 ∷ 0 ∷ []; size = 3; refcount = 1 }

abbrev list2 : TagList
list2 = record { tags = 1 ∷ 2 ∷ []; size = 2; refcount = 1 }

-- A name that stands twice is taken once.
test_union :
    (set_union heap list1 list2).1 ≡ some (record { tags = 0 ∷ 1 ∷ 2 ∷ []; size = 3; refcount = 1 })
unfolding set_union
test_union = refl

update-IsNamed :
    (h : ℕ → Tag) (p : ℕ) (t : Tag)
    → IsNamed t
    → ((q : ℕ) → IsNamed (h q))
    → (q : ℕ) → IsNamed (update h p t q)
update-IsNamed h p t new old q = elim (Bool-cases (q == p)) [
  | inl e ↦ rw e new
  | inr e ↦ rw e (old q)
]

heap-IsNamed : (q : ℕ) → IsNamed (heap.tag q)
unfolding Tags.new
heap-IsNamed =
    update-IsNamed _ 2 (tag_of (codes "ntp"))
      (record { text = IsText-check (codes "ntp") refl; len = refl })
      (update-IsNamed _ 1 (tag_of (codes "dns"))
        (record { text = IsText-check (codes "dns") refl; len = refl })
        (update-IsNamed _ 0 (tag_of (codes "mail"))
          (record { text = IsText-check (codes "mail") refl; len = refl })
          (λ _. record { text = tt; len = refl })))

abbrev ntp : Bytes
ntp = codes "ntp"

ntp-IsName : IsName ntp
ntp-IsName = record { text = IsText-check ntp refl; filled = refl }

set_union-IsResult_example :
    IsResult heap ntp
      (contains heap list1 ntp || contains heap list2 ntp)
      (set_union heap list1 list2)
set_union-IsResult_example =
    set_union-IsResult heap list1 list2 ntp heap-IsNamed ntp-IsName refl refl (ground arith)

set_intersection-IsResult_example :
    IsResult heap ntp
      (contains heap list2 ntp && contains heap list1 ntp)
      (set_intersection heap list1 list2)
set_intersection-IsResult_example =
    set_intersection-IsResult heap list1 list2 ntp heap-IsNamed ntp-IsName refl refl (ground arith)

set_subtract-IsResult_example :
    IsResult heap ntp
      (not (contains heap list2 ntp) && contains heap list1 ntp)
      (set_subtract heap list1 list2)
set_subtract-IsResult_example =
    set_subtract-IsResult heap list1 list2 ntp heap-IsNamed ntp-IsName refl refl (ground arith)
