-- ===== src/PackageList/Resolve.antt =====
-- The decisions of `lcfgpkglist_merge_package` in packages/list.c on two packages of one key, as a
-- relation that forgets why each was taken.
use lcfg_core.Common.{
  ℕ, ◌≡◌, ◌≢◌, refl, Bool, true, false, not, none, some, arith, Bool-cases, inl, inr, MergeRules,
  ◌==◌, ◌&&◌, ◌||◌, if◌then◌else◌, ◌-ℤ◌,
}
use lcfg_core.Package.{prefix_none}
use lcfg_core.Package.Compare.{equals}
use lcfg_core.Package.World
use lcfg_core.Package.World.{World, acquire, relinquish}
use lcfg_core.PackageList.Merge.{
  Decision, decide, by_prefix, check_pinned, by_rules, by_rules_given, resolve, prefix_pin, newer,
  is_positive, is_negative,
}

-- The decisions of `resolve` on a package `c` of the same key, and whether it has merged the
-- derivation of `c` into the new package.
pub data Resolved (w : World) (keep_all : Bool) (p c : ℕ) : World × Decision → Type 0 where
  refuses : (r a : Bool) → Resolved w keep_all p c (w, decide r a false)
  keeps : Resolved w keep_all p c (w, decide false false true)
  adds : keep_all ≡ true → Resolved w keep_all p c (w, decide false true true)
  removes : Resolved w keep_all p c (w, decide true false true)
  replaces : p ≢ c → Resolved w keep_all p c (w, decide true true true)
  merges :
      p ≢ c
      → Resolved w keep_all p c ((World.merge_derivation w p (some c)).0, decide true true true)

module _ (w : World) (rules : MergeRules) (p c : ℕ) (distinct : p ≢ c) where
  check_pinned-removes :
      Resolved w rules.keep_all p c (check_pinned w p (some c) (decide true false true))
  unfolding check_pinned
  check_pinned-removes = elim (Bool-cases ((w.pkgs c).prefix == prefix_pin)) [
    | inl e ↦ rw e (refuses false false)
    | inr e ↦ rw e removes
  ]

  check_pinned-replaces :
      Resolved w rules.keep_all p c (check_pinned w p (some c) (decide true true true))
  unfolding check_pinned
  check_pinned-replaces = elim (Bool-cases ((w.pkgs c).prefix == prefix_pin)) [
    | inl e ↦ rw e (refuses false false)
    | inr e ↦ rw e (merges distinct)
  ]

  check_pinned-keeps :
      Resolved w rules.keep_all p c (check_pinned w p (some c) (decide false false true))
  unfolding check_pinned
  check_pinned-keeps = keeps

  check_pinned-refuses :
      Resolved w rules.keep_all p c (check_pinned w p (some c) (decide false false false))
  unfolding check_pinned
  check_pinned-refuses = refuses false false

  -- Replaced if a test passes, kept else.
  check_pinned-if :
      (b : Bool)
      → Resolved w rules.keep_all p c (
          check_pinned w p
            (some c)
            (if◌then◌else◌ b (decide true true true) (decide false false true)))
  check_pinned-if true = check_pinned-replaces
  check_pinned-if false = check_pinned-keeps

  by_prefix-Resolved :
      Resolved w rules.keep_all p c
        (check_pinned w p (some c) (by_prefix (w.pkgs p) (some (w.pkgs c))))
  unfolding by_prefix
  by_prefix-Resolved = elim (Bool-cases ((w.pkgs p).prefix == b'-')) [
    | inl e ↦ rw e check_pinned-removes
    | inr e1 ↦ elim (Bool-cases ((w.pkgs p).prefix == b'+' || (w.pkgs p).prefix == prefix_pin)) [
      | inl e ↦ rw (e1, e) check_pinned-replaces
      | inr e2 ↦ elim (Bool-cases ((w.pkgs p).prefix == b'~')) [
        | inl e ↦ rw (e1, e2, e) check_pinned-keeps
        | inr e3 ↦ elim (Bool-cases ((w.pkgs p).prefix == b'?')) [
          | inl e ↦ rw (e1, e2, e3, e) (check_pinned-if (not ((w.pkgs c).prefix == prefix_pin)))
          | inr e4 ↦ elim (Bool-cases ((w.pkgs p).prefix == b'>')) [
            | inl e ↦ rw (e1, e2, e3, e4, e) (check_pinned-if (newer (w.pkgs p) (some (w.pkgs c))))
            | inr e ↦ rw (e1, e2, e3, e4, e) check_pinned-refuses
          ]
        ]
      ]
    ]
  ]

  priority-if :
      (greater less : Bool)
      → Resolved w false p c (w, if greater then decide true true true else decide false false less)
  priority-if true less = replaces distinct
  priority-if false true = keeps
  priority-if false false = refuses false false

  by_rules-Resolved : Resolved w rules.keep_all p c (w, by_rules rules (w.pkgs p) (w.pkgs c))
  unfolding by_rules
  by_rules-Resolved = elim (Bool-cases (rules.squash_identical && equals (w.pkgs c) (w.pkgs p))) [
    | inl e ↦ rw e (replaces distinct)
    | inr e1 ↦ elim (Bool-cases rules.keep_all) [
      | inl e ↦ rw (e1, e) (adds refl)
      | inr e2 ↦ elim (Bool-cases rules.replace) [
        | inl e ↦ rw (e1, e2, e) (replaces distinct)
        | inr e3 ↦ elim (Bool-cases rules.use_priority) [
          | inl e ↦
              rw (e1, e2, e3, e)
                (priority-if (is_positive ((w.pkgs p).priority -ℤ (w.pkgs c).priority))
                  (is_negative ((w.pkgs p).priority -ℤ (w.pkgs c).priority)))
          | inr e ↦ rw (e1, e2, e3, e) (refuses false false)
        ]
      ]
    ]
  ]

pub resolve-Resolved :
    (w : World) (rules : MergeRules) (p c : ℕ)
    → Resolved w rules.keep_all p c (resolve w rules p (some c))
unfolding resolve by_rules_given
resolve-Resolved w rules p c = elim (Bool-cases (c == p)) [
  | inl e ↦ rw e keeps
  | inr e ↦
      let distinct : p ≢ c = ground (arith, e) in
      elim (Bool-cases (rules.use_prefix && not ((w.pkgs p).prefix == prefix_none))) [
        | inl f ↦ rw (e, f) (by_prefix-Resolved w rules p c distinct)
        | inr f ↦ rw (e, f) (by_rules-Resolved w rules p c distinct)
      ]
]

-- Nothing is merged without a package of the same key.
pub resolve-absent : (w : World) (rules : MergeRules) (p : ℕ) → (resolve w rules p none).0 ≡ w
unfolding resolve check_pinned
resolve-absent w rules p =
    elim (Bool-cases (rules.use_prefix && not ((w.pkgs p).prefix == prefix_none))) [
      | inl f ↦ rw f refl
      | inr f ↦ rw f refl
    ]
