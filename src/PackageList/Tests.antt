-- ===== src/PackageList/Tests.antt =====
-- Concrete runs on lists of packages, and instances of the theorems.
use lcfg_core.Common.{
  ℕ, zero, suc, ◌+◌, ◌<◌, ◌≡◌, ◌≢◌, refl, Bool, true, false, Option, none, some, List, [], ◌∷◌,
  Bytes, codes, or_default, ltb, all_bytes, update, pos, negsuc, arith, Bool-cases, inl, inr,
  MergeRules, ◌==◌, ◌&&◌, length,
}
use lcfg_core.Derivation
use lcfg_core.Derivation.Store.{Store}
use lcfg_core.Package
use lcfg_core.Package.{Package, wildcard}
use lcfg_core.Package.World.{World}
use lcfg_core.Package.Version.Segments.{IsText}
use lcfg_core.Package.Tests.{IsText-check}
use lcfg_core.PackageList
use lcfg_core.PackageList.{PackageList}
use lcfg_core.PackageList.Merge.{merge_package}
use lcfg_core.PackageList.Sort.{sort}
use lcfg_core.PackageList.Sorted.{IsReordered}
use lcfg_core.PackageList.Ordered.{IsOrdered, sort-IsOrdered}
use lcfg_core.PackageList.Step.{Step, merge_package-Step}
use lcfg_core.PackageList.Life.{destroy}
use lcfg_core.PackageList.Counts.{IsCounted, merge_package-IsCounted}
use lcfg_core.PackageList.Drained.{destroy-IsCounted}
use lcfg_core.PackageList.Keys.{IsProper}
use lcfg_core.PackageList.WellFormed.{IsWellFormed, merge_package-IsWellFormed}
use lcfg_core.PackageList.Pinned.{merge_package-pinned}

abbrev named : Bytes → Bytes → Bytes → ℕ → Package
named name arch version prefix = record Package.new {
  name = some name;
  arch = some arch;
  version = some version;
  release = some (codes "1");
  prefix = prefix;
}

-- A package in the list, one that replaces it, and a pinned one.
abbrev old_pkg : Package
old_pkg = record (named (codes "lcfg-utils") (codes "noarch") (codes "1.9") 0) { refcount = 2 }

abbrev new_pkg : Package
new_pkg = named (codes "lcfg-utils") (codes "noarch") (codes "1.10") b'>'

abbrev pinned_pkg : Package
pinned_pkg = record (named (codes "kernel") (codes "x86_64") (codes "5.14") b'!') { refcount = 2 }

abbrev kernel_pkg : Package
kernel_pkg = named (codes "kernel") (codes "x86_64") (codes "6.1") b'+'

abbrev store : Store
store = record {
  drvs = λ _. Derivation.new;
  lists = λ _. record { nodes = []; size = 0; refcount = 0 };
  next_drv = 0;
  next_list = 0;
}

abbrev world : World
world = record {
  pkgs =
      update (update (update (update (λ _. Package.new) 1 old_pkg) 2 new_pkg) 3 pinned_pkg) 4
        kernel_pkg;
  store = store;
  next_pkg = 5;
}

abbrev by_prefix_rules : MergeRules
by_prefix_rules = record PackageList.no_rules { use_prefix = true }

abbrev list : PackageList
list = record PackageList.new { nodes = 3 ∷ 1 ∷ []; size = 2; merge_rules = by_prefix_rules }

-- The greater version replaces the package of the same name and architecture.
test_replaced : (merge_package world list 2).0.1.nodes ≡ 3 ∷ 2 ∷ []
unfolding merge_package PackageList.new lcfg_core.Package.Compare.epoch_and_version
    lcfg_core.Common.is_digit lcfg_core.Common.skip_spaces
    lcfg_core.Package.Version.compare_vstrings
test_replaced = refl

-- The old package keeps the reference of its other owner.
test_released : ((merge_package world list 2).0.0.pkgs 1).refcount ≡ 1
unfolding merge_package PackageList.new lcfg_core.Package.Compare.epoch_and_version
    lcfg_core.Common.is_digit lcfg_core.Common.skip_spaces
    lcfg_core.Package.Version.compare_vstrings lcfg_core.PackageList.Merge.relinquish_given
    Package.new
test_released = refl

-- The pinned kernel stays.
test_pinned : (merge_package world list 4).0.1.nodes ≡ 3 ∷ 1 ∷ []
unfolding merge_package PackageList.new
test_pinned = refl

test_sorted :
    (sort world (record list { nodes = 1 ∷ 2 ∷ 3 ∷ 4 ∷ []; size = 4 })).nodes ≡ 3 ∷ 4 ∷ 1 ∷ 2 ∷ []
unfolding sort lcfg_core.Common.strcasecmp lcfg_core.Common.strcmp
    lcfg_core.Package.Compare.epoch_and_version lcfg_core.Common.is_digit
    lcfg_core.Common.skip_spaces lcfg_core.Package.Version.compare_vstrings
test_sorted = refl

new-IsProper : IsProper Package.new
unfolding Package.new
new-IsProper = record {
  texts = record { name = tt; arch = tt; version = tt; release = tt; context = tt };
  arch = ground arith;
}

-- The packages of the tests.
named-IsProper :
    (name arch version : Bytes) (prefix n : ℕ)
    → IsText (or_default (some name) [])
    → IsText (or_default (some arch) [])
    → IsText (or_default (some version) [])
    → or_default (some arch) [] ≢ wildcard
    → IsProper (record (named name arch version prefix) { refcount = n })
unfolding Package.new
named-IsProper name arch version prefix n h k v ne = record {
  texts = record {
    name = h;
    arch = k;
    version = v;
    release = IsText-check (codes "1") refl;
    context = tt;
  };
  arch = ne;
}

update-IsProper :
    (h : ℕ → Package) (p : ℕ) (pkg : Package)
    → IsProper pkg
    → ((q : ℕ) → IsProper (h q))
    → (q : ℕ) → IsProper (update h p pkg q)
update-IsProper h p pkg new old q = elim (Bool-cases (q == p)) [
  | inl e ↦ rw e new
  | inr e ↦ rw e (old q)
]

world-IsProper : (q : ℕ) → IsProper (world.pkgs q)
unfolding Package.new
world-IsProper =
    update-IsProper _ 4 kernel_pkg
      (named-IsProper (codes "kernel") (codes "x86_64") (codes "6.1") b'+' 1
        (IsText-check (codes "kernel") refl) (IsText-check (codes "x86_64") refl)
        (IsText-check (codes "6.1") refl) (ground arith))
      (update-IsProper _ 3 pinned_pkg
        (named-IsProper (codes "kernel") (codes "x86_64") (codes "5.14") b'!' 2
          (IsText-check (codes "kernel") refl) (IsText-check (codes "x86_64") refl)
          (IsText-check (codes "5.14") refl) (ground arith))
        (update-IsProper _ 2 new_pkg
          (named-IsProper (codes "lcfg-utils") (codes "noarch") (codes "1.10") b'>' 1
            (IsText-check (codes "lcfg-utils") refl) (IsText-check (codes "noarch") refl)
            (IsText-check (codes "1.10") refl) (ground arith))
          (update-IsProper _ 1 old_pkg
            (named-IsProper (codes "lcfg-utils") (codes "noarch") (codes "1.9") 0 2
              (IsText-check (codes "lcfg-utils") refl) (IsText-check (codes "noarch") refl)
              (IsText-check (codes "1.9") refl) (ground arith))
            (λ _. new-IsProper))))

list-IsWellFormed : IsWellFormed world list
unfolding Package.is_valid PackageList.new Package.new
list-IsWellFormed = record {
  unique = (refl, (refl, ground arith, tt), (refl, tt, tt));
  sized = refl;
}

merge_package-IsWellFormed_example :
    IsWellFormed (merge_package world list 2).0.0 (merge_package world list 2).0.1
merge_package-IsWellFormed_example =
    merge_package-IsWellFormed world list 2 world-IsProper refl (ground arith) list-IsWellFormed

merge_package-Step_example : Step world list 2 (merge_package world list 2)
unfolding Package.is_valid Package.new PackageList.new
merge_package-Step_example = merge_package-Step world list 2 (refl, (refl, tt)) refl

-- The references that the tests hold besides the list.
abbrev others : ℕ → ℕ
others q = 1

list-IsCounted : IsCounted world list.nodes others
unfolding PackageList.new Package.new
list-IsCounted q = ground arith

merge_package-IsCounted_example :
    IsCounted (merge_package world list 2).0.0 (merge_package world list 2).0.1.nodes others
unfolding Package.is_valid Package.new PackageList.new
merge_package-IsCounted_example =
    merge_package-IsCounted world list 2 others (refl, (refl, tt)) refl (ground arith)
      list-IsCounted

destroy-IsCounted_example : IsCounted (destroy world list) [] others
unfolding PackageList.new
destroy-IsCounted_example = destroy-IsCounted world list others refl list-IsCounted

merge_package-pinned_example : (merge_package world list 4).0 ≡ (world, list)
unfolding lcfg_core.PackageList.search Package.new PackageList.new lcfg_core.Common.strcmp
merge_package-pinned_example =
    merge_package-pinned world list 4 3 0 none refl refl refl (ground arith)

abbrev unsorted : PackageList
unsorted = record PackageList.new { nodes = 1 ∷ 2 ∷ 3 ∷ 4 ∷ []; size = 4 }

sort-IsOrdered_example :
    IsOrdered world (sort world unsorted).nodes
    × IsReordered (sort world unsorted).nodes unsorted.nodes
unfolding PackageList.new
sort-IsOrdered_example = sort-IsOrdered world unsorted (λ q. (world-IsProper q).texts) refl
