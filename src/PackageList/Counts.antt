-- ===== src/PackageList/Counts.antt =====
-- The references to packages balance: packages/list.c. Merging and destroying lists never loses a
-- reference and never gives back one that is not held.
use lcfg_core.Common.{
  ℕ, ◌+◌, ◌<◌, ◌≡◌, ◌≢◌, refl, ap, ◌∙◌, some, List, [], ◌∷◌, ◌++◌, count_if, count_if-append,
  length, arith, inl, inr, ◌⊎◌, ◌==◌, ==_iff, Change,
}
use lcfg_core.Derivation.{u32}
use lcfg_core.Package.World.{World, acquire, relinquish, destroy, merge_derivation}
use lcfg_core.Package.Keeps.{merge_derivation-keeps}
use lcfg_core.PackageList.{PackageList}
use lcfg_core.PackageList.Merge.{merge_package}
use lcfg_core.PackageList.Search.{AreValid, Found}
use lcfg_core.PackageList.Step.{Step, refused, kept, added, removed, replaced, merge_package-Step}

-- How many nodes hold a package.
abbrev pub held : ℕ → List ℕ → ℕ
held x ps = count_if (λ q. q == x) ps

-- Each package has one reference for each node that holds it, and those that are held elsewhere.
abbrev pub IsCounted : World → List ℕ → (ℕ → ℕ) → Type 0
IsCounted w ps others = (x : ℕ) → (w.pkgs x).refcount ≡ held x ps + others x

acquire-refcount :
    (w : World) (p x : ℕ)
    → (w.pkgs p).refcount + 1 < u32
    → ((acquire w p).pkgs x).refcount ≡ (w.pkgs x).refcount + held x (p ∷ [])
unfolding acquire
acquire-refcount w p x h = ground (arith, ==_iff x p)

pub relinquish-refcount :
    (w : World) (p x : ℕ)
    → 0 < (w.pkgs p).refcount
    → ((relinquish w p).pkgs x).refcount + held x (p ∷ []) ≡ (w.pkgs x).refcount
unfolding relinquish destroy
relinquish-refcount w p x h = ground (arith, ==_iff x p)

-- The nodes around one, counted.
held-split :
    (x n : ℕ) (before after : List ℕ)
    → held x (before ++ n ∷ after) ≡ held x (before ++ after) + held x (n ∷ [])
held-split x n before after = omega (
  arith,
  count_if-append (λ q. q == x) before (n ∷ after),
  count_if-append (λ q. q == x) before after,
)

pub held_self : (n : ℕ) (ps : List ℕ) → 0 < held n (n ∷ ps)
held_self n ps = ground arith

module _ (w : World) (list : PackageList) (p : ℕ) (others : ℕ → ℕ) where
  -- The references to a package, by the nodes around the one that is met.
  around :
      (f : Found w list.primary_key (w.pkgs p) list.nodes)
      → IsCounted w list.nodes others
      → (y : ℕ)
      → (w.pkgs y).refcount ≡ held y (f.before ++ f.after) + held y (f.node ∷ []) + others y
  around f counted y =
      omega (arith, counted y, ap (held y) f.nodes, held-split y f.node f.before f.after)

  -- A node that is removed gives one reference back.
  relinquish-IsCounted :
      (w' : World) (f : Found w list.primary_key (w.pkgs p) list.nodes)
      → ((x : ℕ) → (w'.pkgs x).refcount ≡ (w.pkgs x).refcount)
      → IsCounted w list.nodes others
      → IsCounted (relinquish w' f.node) (f.before ++ f.after) others
  relinquish-IsCounted w' f same counted x = omega (
    arith,
    around f counted x,
    same x,
    relinquish-refcount w' f.node x
        (omega (arith, around f counted f.node, same f.node, held_self f.node [])),
  )

-- A node that is added takes one reference.
acquire-IsCounted :
    (w : World) (ps : List ℕ) (p : ℕ) (others : ℕ → ℕ)
    → (w.pkgs p).refcount + 1 < u32
    → IsCounted w ps others
    → IsCounted (acquire w p) (ps ++ (p ∷ [])) others
acquire-IsCounted w ps p others bound counted x =
    omega
      (arith, counted x, acquire-refcount w p x bound, count_if-append (λ q. q == x) ps (p ∷ []))

relinquish-other :
    (w : World) (p q : ℕ) → p ≢ q → ((relinquish w q).pkgs p).refcount ≡ (w.pkgs p).refcount
unfolding relinquish destroy
relinquish-other w p q h = ground (arith, ==_iff p q, h)

same-refcount :
    (w w' : World) (p q x : ℕ)
    → (w' ≡ w) ⊎ (w' ≡ (merge_derivation w p (some q)).0)
    → (w'.pkgs x).refcount ≡ (w.pkgs x).refcount
same-refcount w w' p q x (inl e) = ap (λ v. (v.pkgs x).refcount) e
same-refcount w w' p q x (inr e) =
    ap (λ v. (v.pkgs x).refcount) e
    ∙ merge_derivation-keeps (λ pkg. pkg.refcount) (λ pkg d. refl) w p x (some q)

Step-IsCounted :
    (w : World) (list : PackageList) (p : ℕ) (others : ℕ → ℕ)
    → (r : (World × PackageList) × Change) → (w.pkgs p).refcount + 1 < u32
    → IsCounted w list.nodes others
    → Step w list p r
    → IsCounted r.0.0 r.0.1.nodes others
Step-IsCounted w list p others _ bound counted refused = counted
Step-IsCounted w list p others _ bound counted kept = counted
Step-IsCounted w list p others _ bound counted (added _) =
    acquire-IsCounted w list.nodes p others bound counted
Step-IsCounted w list p others _ bound counted (removed f) =
    relinquish-IsCounted w list p others w f (λ x. refl) counted
Step-IsCounted w list p others _ bound counted (replaced f w' distinct from) =
    let same = λ (x : ℕ). same-refcount w w' p f.node x from in
    acquire-IsCounted (relinquish w' f.node) (f.before ++ f.after) p others
      (omega (arith, bound, same p, relinquish-other w' p f.node distinct))
      (relinquish-IsCounted w list p others w' f same counted)

-- A merge keeps the references balanced, for a list of valid packages whose size is right: each
-- package still has one reference for each node that holds it and those held elsewhere, provided
-- that the count of the new package is below its maximum.
pub merge_package-IsCounted :
    (w : World) (list : PackageList) (p : ℕ) (others : ℕ → ℕ)
    → AreValid w list.nodes
    → list.size ≡ length list.nodes
    → (w.pkgs p).refcount + 1 < u32
    → IsCounted w list.nodes others
    → IsCounted (merge_package w list p).0.0 (merge_package w list p).0.1.nodes others
merge_package-IsCounted w list p others valid sized bound counted =
    Step-IsCounted w list p others (merge_package w list p) bound counted
      (merge_package-Step w list p valid sized)
