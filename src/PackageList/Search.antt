-- ===== src/PackageList/Search.antt =====
-- The search of `lcfgpkglist_merge_package` in packages/list.c for a package of the same key, and
-- the removal of the node behind `prev_node`.
use lcfg_core.Common.{
  ℕ, ◌+◌, ◌≡◌, refl, ap, ◌∙◌, true, false, Option, none, some, List, [], ◌∷◌, ◌++◌, length, arith,
  Bool-cases, inl, inr, ◌⊎◌,
}
use lcfg_core.Package.{Package, is_valid}
use lcfg_core.Package.World.{World}
use lcfg_core.PackageList.{PrimaryKey, same_key, search, take_out, next_position}

-- Every node holds a valid package.
abbrev pub AreValid : World → List ℕ → Type 0
AreValid w [] = Unit
AreValid w (p ∷ ps) = (is_valid (w.pkgs p) ≡ true) × AreValid w ps

-- No node holds a package of this key.
abbrev pub Lacks : World → PrimaryKey → Package → List ℕ → Type 0
Lacks w key pkg [] = Unit
Lacks w key pkg (p ∷ ps) = (same_key key (w.pkgs p) pkg ≡ false) × Lacks w key pkg ps

-- The node of a package of this key is the first one, and these are the nodes around it.
pub record Found (w : World) (key : PrimaryKey) (pkg : Package) (ps : List ℕ) : Type 0 where
  pub before : List ℕ
  pub node : ℕ
  pub after : List ℕ
  pub nodes : ps ≡ before ++ node ∷ after
  pub same : same_key key (w.pkgs node) pkg ≡ true
  pub first : Lacks w key pkg before

-- The result of the search that began at position `i`: nothing, or the node behind `prev_node`.
abbrev pub Finds : World → PrimaryKey → Package → List ℕ → ℕ → Option ℕ × Option (ℕ × ℕ) → Type 0
Finds w key pkg ps i (prev, cur) =
    (Lacks w key pkg ps × (cur ≡ none))
    ⊎ ((f : Found w key pkg ps) × (cur ≡ some (i + length f.before, f.node))
        × (next_position prev ≡ i + length f.before))

-- One more node in front, of another key.
Finds-cons :
    (w : World) (key : PrimaryKey) (pkg : Package) (p : ℕ) (ps : List ℕ) (i : ℕ)
    → (r : Option ℕ × Option (ℕ × ℕ)) → same_key key (w.pkgs p) pkg ≡ false
    → Finds w key pkg ps (i + 1) r
    → Finds w key pkg (p ∷ ps) i r
Finds-cons w key pkg p ps i (prev, cur) other (inl (lacks, e)) = inl ((other, lacks), e)
Finds-cons w key pkg p ps i (prev, cur) other (inr (f, e, e')) = inr (
  record {
    before = p ∷ f.before;
    node = f.node;
    after = f.after;
    nodes = ap (λ xs. p ∷ xs) f.nodes;
    same = f.same;
    first = (other, f.first);
  },
  e ∙ ap (λ n. some (n, f.node)) (omega arith),
  e' ∙ omega arith,
)

module _ (w : World) (key : PrimaryKey) (p : ℕ) (ps : List ℕ) (pkg : Package) where
  search-passes :
      (i : ℕ) (prev : Option ℕ)
      → is_valid (w.pkgs p) ≡ true
      → same_key key (w.pkgs p) pkg ≡ false
      → search w key (p ∷ ps) pkg i prev ≡ search w key ps pkg (i + 1) (some i)
  unfolding search
  search-passes i prev v s = rw (v, s) refl

  search-stops :
      (i : ℕ) (prev : Option ℕ)
      → is_valid (w.pkgs p) ≡ true
      → same_key key (w.pkgs p) pkg ≡ true
      → search w key (p ∷ ps) pkg i prev ≡ (prev, some (i, p))
  unfolding search
  search-stops i prev v s = rw (v, s) refl

search-nil :
    (w : World) (key : PrimaryKey) (pkg : Package) (i : ℕ) (prev : Option ℕ)
    → search w key [] pkg i prev ≡ (prev, none)
unfolding search
search-nil w key pkg i prev = refl

pub search-Finds :
    (w : World) (key : PrimaryKey) (ps : List ℕ) (pkg : Package) (i : ℕ) (prev : Option ℕ)
    → AreValid w ps
    → next_position prev ≡ i
    → Finds w key pkg ps i (search w key ps pkg i prev)
search-Finds w key [] pkg i prev valid e = rw (search-nil w key pkg i prev) (inl (tt, refl))
search-Finds w key (p ∷ ps) pkg i prev (v, vs) e = elim (Bool-cases (same_key key (w.pkgs p) pkg)) [
  | inl s ↦ rw (search-stops w key p ps pkg i prev v s) (
      inr (
        record { before = []; node = p; after = ps; nodes = refl; same = s; first = tt },
        ap (λ n. some (n, p)) (omega arith),
        e ∙ omega arith,
      ))
  | inr s ↦ rw (search-passes w key p ps pkg i prev v s) (
      Finds-cons w key pkg p ps i (search w key ps pkg (i + 1) (some i)) s
        (search-Finds w key ps pkg (i + 1) (some i) vs refl))
]

pub take_out-append :
    (before : List ℕ) (p : ℕ) (after : List ℕ)
    → take_out (before ++ p ∷ after) (length before) ≡ some (p, before ++ after)
unfolding take_out
take_out-append [] p after = refl
take_out-append (q ∷ before) p after = rw (take_out-append before p after)
