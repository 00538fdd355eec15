-- ===== src/PackageList/WellFormed.antt =====
-- The invariant of a list of packages under `lcfgpkglist_merge_package` in packages/list.c: valid
-- packages of different primary keys, and the right size.
use lcfg_core.Common.{
  ℕ, ◌+◌, ◌-◌, ◌%◌, ◌<◌, ◌≡◌, ◌≢◌, refl, sym, ap, ◌∙◌, fun_ext, Bool, true, false, some, List, [],
  ◌∷◌, ◌++◌, length, length-append, arith, Bool-cases, inl, inr, ◌⊎◌, Change, change_error,
}
use lcfg_core.Derivation.{u32}
use lcfg_core.Package.{is_valid}
use lcfg_core.Package.World.{World, acquire, relinquish, merge_derivation}
use lcfg_core.Package.Keeps.{merge_derivation-keeps, acquire-keeps, relinquish-keeps}
use lcfg_core.PackageList.{PackageList, PrimaryKey}
use lcfg_core.PackageList.Merge.{merge_package}
use lcfg_core.PackageList.Search.{AreValid, Lacks}
use lcfg_core.PackageList.Step.{
  Step, Met, refused, kept, added, removed, replaced, merge_package-Step,
}
use lcfg_core.PackageList.Keys.{IsProper, Key, key_of, same_key_iff}
use lcfg_core.PackageList.Unique.{
  IsFree, IsUnique, IsUnique-last, IsUnique-around, IsFree-other, IsUnique-other,
}

abbrev pub valid_in : World → ℕ → Bool
valid_in w q = is_valid (w.pkgs q)

abbrev pub keys_in : PrimaryKey → World → ℕ → Key
keys_in key w q = key_of key (w.pkgs q)

pub record IsWellFormed (w : World) (list : PackageList) : Type 0 where
  pub unique : IsUnique (valid_in w) (keys_in list.primary_key w) list.nodes
  pub sized : list.size ≡ length list.nodes

IsUnique-AreValid :
    (w : World) (keys : ℕ → Key) (ps : List ℕ) → IsUnique (valid_in w) keys ps → AreValid w ps
IsUnique-AreValid w keys [] h = tt
IsUnique-AreValid w keys (p ∷ ps) (v, _, u) = (v, IsUnique-AreValid w keys ps u)

module _ (key : PrimaryKey) (w : World) (proper : (q : ℕ) → IsProper (w.pkgs q)) where
  Lacks-IsFree :
      (p : ℕ) (ps : List ℕ)
      → AreValid w ps
      → Lacks w key (w.pkgs p) ps
      → IsFree (valid_in w) (keys_in key w) (keys_in key w p) ps
  Lacks-IsFree p [] v h = tt
  Lacks-IsFree p (q ∷ qs) (v, vs) (h, hs) = (
    v,
    (λ e.
        let yes = (same_key_iff key (w.pkgs q) (w.pkgs p) (proper q) (proper p)).1 e in
        ground (arith, yes, h)),
    Lacks-IsFree p qs vs hs,
  )

-- Taking a reference changes neither keys nor validity.
acquire-IsUnique :
    (key : PrimaryKey) (w : World) (p : ℕ) (ps : List ℕ)
    → IsUnique (valid_in w) (keys_in key w) ps
    → IsUnique (valid_in (acquire w p)) (keys_in key (acquire w p)) ps
unfolding is_valid
acquire-IsUnique key w p ps u =
    let ev : valid_in (acquire w p) ≡ valid_in w =
      fun_ext (λ x. acquire-keeps is_valid (λ pkg n. refl) w p x) in
    let ek : keys_in key (acquire w p) ≡ keys_in key w =
      fun_ext (λ x. acquire-keeps (key_of key) (λ pkg n. refl) w p x) in
    rw (ev, ek) u

-- The world that a replacement starts from has the same keys and the same validity.
before-keys :
    (key : PrimaryKey) (w w' : World) (p q : ℕ)
    → (w' ≡ w) ⊎ (w' ≡ (merge_derivation w p (some q)).0)
    → (valid_in w' ≡ valid_in w) × (keys_in key w' ≡ keys_in key w)
unfolding is_valid
before-keys key w w' p q (inl e) = rw e (refl, refl)
before-keys key w w' p q (inr e) = rw e (
  fun_ext (λ x. merge_derivation-keeps is_valid (λ pkg n. refl) w p x (some q)),
  fun_ext (λ x. merge_derivation-keeps (key_of key) (λ pkg n. refl) w p x (some q)),
)

-- Releasing a package changes nothing at the nodes of other keys.
relinquish-other :
    (key : PrimaryKey) (w : World) (n x : ℕ)
    → keys_in key w x ≢ keys_in key w n
    → (valid_in (relinquish w n) x ≡ valid_in w x)
      × (keys_in key (relinquish w n) x ≡ keys_in key w x)
relinquish-other key w n x h =
    let other : x ≢ n = λ e. h (ap (keys_in key w) e) in
    (relinquish-keeps is_valid w n x other, relinquish-keeps (key_of key) w n x other)

module _ (w : World) (list : PackageList) (p : ℕ) (f : Met w list p) where
  -- The nodes around the one that a package meets.
  around :
      (w' : World)
      → (valid_in w' ≡ valid_in w) × (keys_in list.primary_key w' ≡ keys_in list.primary_key w)
      → IsUnique (valid_in w) (keys_in list.primary_key w) list.nodes
      → IsFree
          (valid_in w')
          (keys_in list.primary_key w')
          (keys_in list.primary_key w' f.node)
          (f.before ++ f.after)
        × IsUnique (valid_in w') (keys_in list.primary_key w') (f.before ++ f.after)
  around w' (ev, ek) u =
      IsUnique-around (valid_in w') (keys_in list.primary_key w') f.before f.node f.after
        (rw (ev, ek, ← f.nodes) u)

  -- The nodes around the one that a package meets, after that one is released.
  relinquish-IsUnique :
      (w' : World)
      → (valid_in w' ≡ valid_in w) × (keys_in list.primary_key w' ≡ keys_in list.primary_key w)
      → IsUnique (valid_in w) (keys_in list.primary_key w) list.nodes
      → IsUnique
          (valid_in (relinquish w' f.node))
          (keys_in list.primary_key (relinquish w' f.node))
          (f.before ++ f.after)
  relinquish-IsUnique w' e u =
      let (free, unique) = around w' e u in
      IsUnique-other (valid_in w') (keys_in list.primary_key w') _ _
        (keys_in list.primary_key w' f.node) (f.before ++ f.after)
        (λ x. relinquish-other list.primary_key w' f.node x) free unique

  -- The key of the new package is free among them.
  relinquish-IsFree :
      (w' : World)
      → ((q : ℕ) → IsProper (w.pkgs q))
      → p ≢ f.node
      → (valid_in w' ≡ valid_in w) × (keys_in list.primary_key w' ≡ keys_in list.primary_key w)
      → IsUnique (valid_in w) (keys_in list.primary_key w) list.nodes
      → IsFree
          (valid_in (relinquish w' f.node))
          (keys_in list.primary_key (relinquish w' f.node))
          (keys_in list.primary_key (relinquish w' f.node) p)
          (f.before ++ f.after)
  relinquish-IsFree w' proper distinct (ev, ek) u =
      let key = list.primary_key in
      let (free, _) = around w' (ev, ek) u in
      let met : keys_in key (relinquish w' f.node) p ≡ keys_in key w' f.node =
        relinquish-keeps (key_of key) w' f.node p distinct
        ∙ ap (λ g. g p) ek
        ∙ sym ((same_key_iff key (w.pkgs f.node) (w.pkgs p) (proper f.node) (proper p)).0 f.same)
        ∙ sym (ap (λ g. g f.node) ek) in
      rw met (
        IsFree-other (valid_in w') (keys_in key w') _ _ (keys_in key w' f.node)
          (keys_in key w' f.node) (f.before ++ f.after) (λ x. relinquish-other key w' f.node x) free
          free)

merge_package-invalid :
    (w : World) (list : PackageList) (p : ℕ)
    → is_valid (w.pkgs p) ≡ false
    → merge_package w list p ≡ ((w, list), change_error)
unfolding merge_package
merge_package-invalid w list p e = rw e refl

size-last :
    (list : PackageList) (ps : List ℕ) (n p : ℕ)
    → n ≡ length ps
    → n + 1 < u32
    → (n + 1) % u32 ≡ length (ps ++ (p ∷ []))
size-last list ps n p e h = ground (arith, e, length-append ps (p ∷ []))

size-without :
    (list : PackageList) (p : ℕ) (w : World) (f : Met w list p)
    → list.size ≡ length list.nodes
    → list.size - 1 ≡ length (f.before ++ f.after)
size-without list p w f sized = omega (
  arith,
  sized,
  ap length f.nodes,
  length-append f.before (f.node ∷ f.after),
  length-append f.before f.after,
)

Step-IsWellFormed :
    (w : World) (list : PackageList) (p : ℕ) (r : (World × PackageList) × Change)
    → ((q : ℕ) → IsProper (w.pkgs q))
    → is_valid (w.pkgs p) ≡ true
    → list.merge_rules.keep_all ≡ false
    → list.size + 1 < u32
    → IsWellFormed w list
    → Step w list p r
    → IsWellFormed r.0.0 r.0.1
Step-IsWellFormed w list p _ proper valid some_only room wf refused = wf
Step-IsWellFormed w list p _ proper valid some_only room wf kept = wf
Step-IsWellFormed w list p _ proper valid some_only room wf (added (inl k)) =
    ground (arith, k, some_only)
Step-IsWellFormed w list p _ proper valid some_only room wf (added (inr lacks)) = record {
  unique = acquire-IsUnique list.primary_key w p (list.nodes ++ (p ∷ [])) (
      IsUnique-last (valid_in w) (keys_in list.primary_key w) list.nodes p valid
        (Lacks-IsFree list.primary_key w proper p list.nodes
          (IsUnique-AreValid w _ list.nodes wf.unique) lacks)
        wf.unique);
  sized = size-last list list.nodes list.size p wf.sized room;
}
Step-IsWellFormed w list p _ proper valid some_only room wf (removed f) = record {
  unique = relinquish-IsUnique w list p f w (refl, refl) wf.unique;
  sized = size-without list p w f wf.sized;
}
Step-IsWellFormed w list p _ proper valid some_only room wf (replaced f w' distinct from) =
    let same = before-keys list.primary_key w w' p f.node from in
    let released = relinquish w' f.node in
    record {
      unique = acquire-IsUnique list.primary_key released p ((f.before ++ f.after) ++ (p ∷ [])) (
          IsUnique-last (valid_in released) (keys_in list.primary_key released)
            (f.before ++ f.after) p
            (relinquish-keeps is_valid w' f.node p distinct ∙ ap (λ g. g p) same.0 ∙ valid)
            (relinquish-IsFree w list p f w' proper distinct same wf.unique)
            (relinquish-IsUnique w list p f w' same wf.unique));
      sized =
          size-last list (f.before ++ f.after) (list.size - 1) p (size-without list p w f wf.sized)
            (omega (arith, room));
    }

-- A merge keeps a list well-formed (valid packages, no two of them of one primary key, the right
-- size), where the rules do not keep all packages, the size is below its maximum, and on the whole
-- heap no string holds a NUL and no architecture is the wildcard.
pub merge_package-IsWellFormed :
    (w : World) (list : PackageList) (p : ℕ)
    → ((q : ℕ) → IsProper (w.pkgs q))
    → list.merge_rules.keep_all ≡ false
    → list.size + 1 < u32
    → IsWellFormed w list
    → IsWellFormed (merge_package w list p).0.0 (merge_package w list p).0.1
merge_package-IsWellFormed w list p proper some_only room wf =
    elim (Bool-cases (is_valid (w.pkgs p))) [
      | inl e ↦
          Step-IsWellFormed w list p (merge_package w list p) proper e some_only room wf
            (merge_package-Step w list p (IsUnique-AreValid w _ list.nodes wf.unique) wf.sized)
      | inr e ↦ rw (merge_package-invalid w list p e) wf
    ]
