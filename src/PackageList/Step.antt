-- ===== src/PackageList/Step.antt =====
-- What one call of `lcfgpkglist_merge_package` in packages/list.c does to a list: a step relation
-- that says what becomes of the nodes and of the references to the packages.
use lcfg_core.Common.{
  ℕ, ◌+◌, ◌-◌, ◌%◌, ◌≡◌, ◌≢◌, refl, ap, ◌∙◌, true, false, Option, none, some, List, [], ◌∷◌, ◌++◌,
  length, length-append, arith, Bool-cases, inl, inr, ◌⊎◌, Change, change_error, change_none,
  change_added, change_removed, change_replaced, ◌==◌, if◌then◌else◌, is_removed,
}
use lcfg_core.Derivation.{u32}
use lcfg_core.Package.{is_valid}
use lcfg_core.Package.World
use lcfg_core.Package.World.{World, acquire, relinquish}
use lcfg_core.PackageList.{PackageList, search, remove_next, append, next_position}
use lcfg_core.PackageList.Merge.{
  Decision, resolve, apply, remove_old, append_new, merge_package, found_package, given,
  relinquish_given,
}
use lcfg_core.PackageList.Search.{AreValid, Lacks, Found, Finds, search-Finds, take_out-append}
use lcfg_core.PackageList.Resolve.{
  Resolved, refuses, keeps, adds, removes, replaces, merges, resolve-Resolved, resolve-absent,
}

-- The list with one more node at its end.
abbrev pub with_last : PackageList → ℕ → PackageList
with_last list p = record list { nodes = list.nodes ++ (p ∷ []); size = (list.size + 1) % u32 }

-- The list with these nodes, one less than before.
abbrev pub without : PackageList → List ℕ → PackageList
without list nodes = record list { nodes = nodes; size = list.size - 1 }

module _ (w : World) (list : PackageList) (p : ℕ) where
  -- The node of the package that the new one meets.
  abbrev pub Met : Type 0
  Met = Found w list.primary_key (w.pkgs p) list.nodes

  -- The results of a merge: a reference is taken for each node that is added, and one is given
  -- back for each node that is removed.
  pub data Step : (World × PackageList) × Change → Type 0 where
    refused : Step ((w, list), change_error)
    kept : Step ((w, list), change_none)
    added :
        (list.merge_rules.keep_all ≡ true) ⊎ Lacks w list.primary_key (w.pkgs p) list.nodes
        → Step ((acquire w p, with_last list p), change_added)
    removed :
        (f : Met) → Step ((relinquish w f.node, without list (f.before ++ f.after)), change_removed)
    replaced :
        (f : Met) (w' : World)
        → p ≢ f.node
        → (w' ≡ w) ⊎ (w' ≡ (World.merge_derivation w p (some f.node)).0)
        → Step (
          (acquire (relinquish w' f.node) p, with_last (without list (f.before ++ f.after)) p),
          change_replaced,
        )

remove_next-Found :
    (w : World) (list : PackageList) (p : ℕ) (f : Met w list p) (prev : Option ℕ)
    → list.size ≡ length list.nodes
    → next_position prev ≡ length f.before
    → remove_next list prev ≡ ((without list (f.before ++ f.after), some f.node), change_removed)
unfolding remove_next
remove_next-Found w list p f prev sized e =
    let nonempty : (list.size == 0) ≡ false =
      ground (arith, sized, ap length f.nodes, length-append f.before (f.node ∷ f.after)) in
    rw (nonempty, e, f.nodes, take_out-append f.before f.node f.after) refl

remove_old-Found :
    (w w' : World) (list : PackageList) (p : ℕ) (f : Met w list p) (prev : Option ℕ)
    → list.size ≡ length list.nodes
    → next_position prev ≡ length f.before
    → remove_old w' list prev
      ≡ ((relinquish w' f.node, without list (f.before ++ f.after)), change_removed)
unfolding remove_old relinquish_given
remove_old-Found w w' list p f prev sized e = rw (remove_next-Found w list p f prev sized e) refl

append_new-with_last :
    (w : World) (list : PackageList) (p : ℕ) (result : Change)
    → append_new w list p result ≡ (
      (acquire w p, with_last list p),
      if is_removed result then change_replaced else change_added,
    )
unfolding append_new append
append_new-with_last w list p result = refl

-- No package of the key was met.
apply-absent :
    (w : World) (list : PackageList) (p : ℕ) (prev : Option ℕ) (d : Decision)
    → Lacks w list.primary_key (w.pkgs p) list.nodes
    → Step w list p (apply w list prev false p d)
unfolding apply
apply-absent w list p prev d lacks = elim (Bool-cases d.accept) [
  | inl e ↦ elim (Bool-cases d.append_new) [
    | inl f ↦ elim (Bool-cases d.remove_old) [
      | inl r ↦ rw (e, f, r, append_new-with_last w list p change_none) (added (inr lacks))
      | inr r ↦ rw (e, f, r, append_new-with_last w list p change_none) (added (inr lacks))
    ]
    | inr f ↦ elim (Bool-cases d.remove_old) [
      | inl r ↦ rw (e, f, r) kept
      | inr r ↦ rw (e, f, r) kept
    ]
  ]
  | inr e ↦ rw e refused
]

-- A package of the key was met.
apply-met :
    (w : World) (list : PackageList) (p : ℕ) (f : Met w list p) (prev : Option ℕ)
    → (r : World × Decision) → list.size ≡ length list.nodes
    → next_position prev ≡ length f.before
    → Resolved w list.merge_rules.keep_all p f.node r
    → Step w list p (apply r.0 list prev true p r.1)
unfolding apply
apply-met w list p f prev _ sized e (refuses r a) = refused
apply-met w list p f prev _ sized e keeps = kept
apply-met w list p f prev _ sized e (adds k) =
    rw (append_new-with_last w list p change_none) (added (inl k))
apply-met w list p f prev _ sized e removes =
    rw (remove_old-Found w w list p f prev sized e) (removed f)
apply-met w list p f prev _ sized e (replaces d) =
    rw (remove_old-Found w w list p f prev sized e) (replaced f w d (inl refl))
apply-met w list p f prev _ sized e (merges d) =
    let w' = (World.merge_derivation w p (some f.node)).0 in
    rw (remove_old-Found w w' list p f prev sized e) (replaced f w' d (inr refl))

-- What `merge_package` does with a valid package behind the result of its search.
merge_found :
    (w : World) (list : PackageList) (p : ℕ) (r : Option ℕ × Option (ℕ × ℕ))
    → list.size ≡ length list.nodes
    → Finds w list.primary_key (w.pkgs p) list.nodes 0 r
    → Step w list p (
        apply
          (resolve w list.merge_rules p (found_package r.1)).0
          list
          r.0
          (given r.1)
          p
          (resolve w list.merge_rules p (found_package r.1)).1)
merge_found w list p (prev, cur) sized (inl (lacks, e)) =
    rw (e, resolve-absent w list.merge_rules p)
      (apply-absent w list p prev (resolve w list.merge_rules p none).1 lacks)
merge_found w list p (prev, cur) sized (inr (f, e, e')) = rw e (
    apply-met w list p f prev (resolve w list.merge_rules p (some f.node)) sized (e' ∙ omega arith)
      (resolve-Resolved w list.merge_rules p f.node))

-- A merge takes one of the steps, for a list whose packages are valid and whose size is the number
-- of its nodes.
pub merge_package-Step :
    (w : World) (list : PackageList) (p : ℕ)
    → AreValid w list.nodes
    → list.size ≡ length list.nodes
    → Step w list p (merge_package w list p)
unfolding merge_package
merge_package-Step w list p valid sized = elim (Bool-cases (is_valid (w.pkgs p))) [
  | inl e ↦ rw e (
      merge_found w list p (search w list.primary_key list.nodes (w.pkgs p) 0 none) sized
        (search-Finds w list.primary_key list.nodes (w.pkgs p) 0 none valid refl))
  | inr e ↦ rw e refused
]
