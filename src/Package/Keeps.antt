-- ===== src/Package/Keeps.antt =====
-- What the operations on packages in packages/package.c leave as it is: a derivation that is set or
-- merged is the only field that changes, and references change no other field either.
use lcfg_core.Common.{
  ℕ, ◌≡◌, ◌≢◌, refl, false, not, ◌&&◌, Option, none, some, Change, change_ok, unchanged, arith,
  Bool-cases, Option-cases, inl, inr, ◌==◌, if◌then◌else◌, ltb, ◌-◌,
}
use lcfg_core.Derivation.Store.{Store, is_empty_list}
use lcfg_core.Derivation.Lists.{clone_list}
use lcfg_core.Package.{Package}
use lcfg_core.Package.World.{
  World, acquire, relinquish, destroy, set_derivation, take_clone, merge_derivation, has_derivation,
  nodes_given,
}

module _ {ℓ} {A : Type ℓ} (field : Package → A) where
  module _
      (ignores : (pkg : Package) (d : Option ℕ)
        → field (record pkg { derivation = d }) ≡ field pkg) where
    set_derivation-keeps :
        (w : World) (p x : ℕ) (d : Option ℕ)
        → field ((set_derivation w p d).pkgs x) ≡ field (w.pkgs x)
    unfolding set_derivation
    set_derivation-keeps w p x d = elim (Bool-cases (x == p)) [
      | inl e ↦ (let same : x ≡ p = ground (arith, e) in rw (e, same) (ignores (w.pkgs p) d))
      | inr e ↦ rw e refl
    ]

    take_clone-keeps :
        (w : World) (p c x : ℕ) (r : Store × Change)
        → field ((take_clone w p c r).0.pkgs x) ≡ field (w.pkgs x)
    unfolding take_clone
    take_clone-keeps w p c x (s, rc) = elim (Bool-cases (change_ok rc && not (unchanged rc))) [
      | inl e ↦ rw e (set_derivation-keeps (record w { store = s }) p x (some c))
      | inr e ↦ rw e refl
    ]

    pub merge_derivation-keeps :
        (w : World) (p x : ℕ) (q : Option ℕ)
        → field ((merge_derivation w p q).0.pkgs x) ≡ field (w.pkgs x)
    unfolding merge_derivation
    merge_derivation-keeps w p x none = refl
    merge_derivation-keeps w p x (some q) = elim (Bool-cases (has_derivation w q)) [
      | inl e ↦ elim (Bool-cases (is_empty_list w.store (w.pkgs p).derivation)) [
        | inl f ↦ rw (e, f) (set_derivation-keeps w p x (w.pkgs q).derivation)
        | inr f ↦
            elim (Option-cases (clone_list w.store (nodes_given w.store (w.pkgs p).derivation)).1) [
              | inl g ↦ rw (e, f, g) refl
              | inr (c, g) ↦ rw (e, f, g) (take_clone-keeps w p c x _)
            ]
      ]
      | inr e ↦ rw e refl
    ]

  module _
      (ignores : (pkg : Package) (n : ℕ) → field (record pkg { refcount = n }) ≡ field pkg) where
    pub acquire-keeps : (w : World) (p x : ℕ) → field ((acquire w p).pkgs x) ≡ field (w.pkgs x)
    unfolding acquire
    acquire-keeps w p x = elim (Bool-cases (x == p)) [
      | inl e ↦ (let same : x ≡ p = ground (arith, e) in rw (e, same) (ignores (w.pkgs p) _))
      | inr e ↦ rw e refl
    ]

  -- A package that is released may be gone.
  pub relinquish-keeps :
      (w : World) (p x : ℕ) → x ≢ p → field ((relinquish w p).pkgs x) ≡ field (w.pkgs x)
  unfolding relinquish destroy
  relinquish-keeps w p x h =
      let other : (x == p) ≡ false = ground (arith, h) in
      let count = (w.pkgs p).refcount in
      elim (Bool-cases ((if ltb 0 count then count - 1 else count) == 0)) [
        | inl e ↦ rw (e, other) refl
        | inr e ↦ rw (e, other) refl
      ]
