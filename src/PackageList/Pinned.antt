-- ===== src/PackageList/Pinned.antt =====
-- A pinned package stays: the test behind the `switch` on prefixes in `lcfgpkglist_merge_package`
-- of packages/list.c.
use lcfg_core.Common.{
  ℕ, ◌≡◌, ◌≢◌, refl, Bool, true, false, not, ◌||◌, Option, none, some, ◌==◌, if◌then◌else◌, arith,
  Bool-cases, inl, inr, MergeRules,
}
use lcfg_core.Package.{is_valid, prefix_none}
use lcfg_core.Package.World.{World}
use lcfg_core.PackageList.{PackageList, search}
use lcfg_core.PackageList.Merge.{
  Decision, decide, by_prefix, check_pinned, resolve, apply, merge_package, prefix_pin, newer,
}

-- Nothing is removed and nothing is appended.
abbrev pub IsIdle : World → World × Decision → Type 0
IsIdle w r = (b : Bool) × (r ≡ (w, decide false false b))

module _ (w : World) (p c : ℕ) (pinned : (w.pkgs c).prefix ≡ prefix_pin) where
  IsIdle-removal : (a : Bool) → IsIdle w (check_pinned w p (some c) (decide true a true))
  unfolding check_pinned
  IsIdle-removal a = rw pinned (false, refl)

  IsIdle-check : (b : Bool) → IsIdle w (check_pinned w p (some c) (decide false false b))
  unfolding check_pinned
  IsIdle-check b = (b, refl)

  IsIdle-if :
      (b : Bool)
      → IsIdle w
          (check_pinned w p (some c) (if b then decide true true true else decide false false true))
  IsIdle-if true = IsIdle-removal true
  IsIdle-if false = IsIdle-check true

  IsIdle-by_prefix : IsIdle w (check_pinned w p (some c) (by_prefix (w.pkgs p) (some (w.pkgs c))))
  unfolding by_prefix
  IsIdle-by_prefix = elim (Bool-cases ((w.pkgs p).prefix == b'-')) [
    | inl e ↦ rw e (IsIdle-removal false)
    | inr e1 ↦ elim (Bool-cases ((w.pkgs p).prefix == b'+' || (w.pkgs p).prefix == prefix_pin)) [
      | inl e ↦ rw (e1, e) (IsIdle-removal true)
      | inr e2 ↦ elim (Bool-cases ((w.pkgs p).prefix == b'~')) [
        | inl e ↦ rw (e1, e2, e) (IsIdle-check true)
        | inr e3 ↦ elim (Bool-cases ((w.pkgs p).prefix == b'?')) [
          | inl e ↦ rw (e1, e2, e3, e) (IsIdle-if (not ((w.pkgs c).prefix == prefix_pin)))
          | inr e4 ↦ elim (Bool-cases ((w.pkgs p).prefix == b'>')) [
            | inl e ↦ rw (e1, e2, e3, e4, e) (IsIdle-if (newer (w.pkgs p) (some (w.pkgs c))))
            | inr e ↦ rw (e1, e2, e3, e4, e) (IsIdle-check false)
          ]
        ]
      ]
    ]
  ]

  IsIdle-resolve :
      (rules : MergeRules)
      → rules.use_prefix ≡ true
      → ((w.pkgs p).prefix == prefix_none) ≡ false
      → IsIdle w (resolve w rules p (some c))
  unfolding resolve
  IsIdle-resolve rules h k = elim (Bool-cases (c == p)) [
    | inl e ↦ rw e (true, refl)
    | inr e ↦ rw (e, h, k) IsIdle-by_prefix
  ]

-- Where prefixes are in use, a package with a prefix neither removes nor replaces the pinned
-- package that the search finds for it: the list and the heap stay as they are.
pub merge_package-pinned :
    (w : World) (list : PackageList) (p c i : ℕ) (prev : Option ℕ)
    → search w list.primary_key list.nodes (w.pkgs p) 0 none ≡ (prev, some (i, c))
    → (w.pkgs c).prefix ≡ prefix_pin
    → list.merge_rules.use_prefix ≡ true
    → (w.pkgs p).prefix ≢ prefix_none
    → (merge_package w list p).0 ≡ (w, list)
unfolding merge_package apply
merge_package-pinned w list p c i prev found pinned use_prefix prefixed =
    let k : ((w.pkgs p).prefix == prefix_none) ≡ false = ground (arith, prefixed) in
    let (b, e) = IsIdle-resolve w p c pinned list.merge_rules use_prefix k in
    elim (Bool-cases (is_valid (w.pkgs p))) [
      | inl v ↦ elim (Bool-cases b) [
        | inl y ↦ rw (v, found, e, y) refl
        | inr n ↦ rw (v, found, e, n) refl
      ]
      | inr v ↦ rw v refl
    ]
