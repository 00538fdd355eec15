-- ===== src/Derivation/Tests.antt =====
-- Concrete runs on derivations, and instances of the theorems.
use lcfg_core.Common.{
  ℕ, ◌≡◌, refl, ◌||◌, some, [], ◌∷◌, ◌++◌, codes, if◌then◌else◌, update, arith, change_none,
  change_added, change_modified,
}
use lcfg_core.Derivation
use lcfg_core.Derivation.{Derivation, has_line, merge_line, merge_lines, set_file}
use lcfg_core.Derivation.Lines.{IsWellFormed, contains, entries, merge_line-entries}
use lcfg_core.Derivation.Merge.{contains_all, merge_lines-union}
use lcfg_core.Derivation.Store.{Store, is_shared, merge_derivation}
use lcfg_core.Derivation.Sharing.{SameContent, merge_derivation-isolates}

-- Two derivations for one file.
abbrev first : Derivation
first = record {
  file = some (codes "a.h");
  lines = some (3 ∷ 5 ∷ 0 ∷ 0 ∷ []);
  lines_size = 4;
  lines_count = 2;
  length = Derivation.unset_length;
  refcount = 2;
}

abbrev second : Derivation
second = record first { lines = some (5 ∷ 8 ∷ []); lines_size = 2; refcount = 1 }

first-IsWellFormed : IsWellFormed first
first-IsWellFormed = record { sized = refl; fits = omega arith; bounded = ground arith }

second-IsWellFormed : IsWellFormed second
second-IsWellFormed = record { sized = refl; fits = omega arith; bounded = ground arith }

merge_line-entries_example :
    IsWellFormed (merge_line first 7).0
    × (entries (merge_line first 7).0
        ≡ (if contains (entries first) 7 then entries first else entries first ++ (7 ∷ [])))
    × ((merge_line first 7).1 ≡ (if contains (entries first) 7 then change_none else change_added))
merge_line-entries_example = merge_line-entries first 7 first-IsWellFormed (ground arith)

merge_lines-union_example :
    IsWellFormed (merge_lines first second).0
    × ((line : ℕ)
        → has_line (merge_lines first second).0 line
          ≡ (has_line first line || has_line second line))
    × ((merge_lines first second).1
        ≡ (if contains_all (entries first) (entries second) then change_none else change_modified))
merge_lines-union_example =
    merge_lines-union first second first-IsWellFormed second-IsWellFormed (ground arith)

-- Two lists share the first derivation; the second one is merged into one of them.
abbrev store : Store
store = record {
  drvs = update (update (λ _. Derivation.new) 0 first) 1 second;
  lists = λ _. record { nodes = 0 ∷ []; size = 1; refcount = 1 };
  next_drv = 2;
  next_list = 2;
}

-- The list gets a copy.
test_copied : ((merge_derivation store 0 1).0.lists 0).nodes ≡ 2 ∷ []
unfolding merge_derivation Derivation.new merge_lines Derivation.has_lines
    Derivation.merge_lines_loop merge_line Derivation.clone
test_copied = refl

merge_derivation-isolates_example :
    SameContent ((merge_derivation store 0 1).0.drvs 0) (store.drvs 0)
unfolding is_shared
merge_derivation-isolates_example = merge_derivation-isolates store 0 1 0 (ground arith) refl
