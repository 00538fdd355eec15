-- ===== src/Components/Insert.antt =====
-- What lcfgcompset_insert_component leaves in the slots: resources/components/set.c.
use lcfg_core.Common.{
  ℕ, ◌+◌, ◌%◌, ◌<◌, ◌≡◌, refl, sym, ap, fun_ext, ◌∙◌, true, false, Option, none, some, [], Bytes,
  or_default, ◌==◌, ltb, arith, Bool-cases, Option-cases, inl, inr, update, probe, Change,
  change_error, change_added, change_replaced, change_ok,
}
use lcfg_core.Derivation.{u32}
use lcfg_core.Utils.Hash.{djbhash, u64}
use lcfg_core.Components.{World, acquire, relinquish, is_valid}
use lcfg_core.Components.Sets.{ComponentSet, takes, put, put_over, insert_component}
use lcfg_core.Components.Names.{stops, seek, IsProbed}
use lcfg_core.Components.Kept.{
  acquire-name, acquire-refcount, relinquish-away, relinquish-alive, slot_name-eq,
}
use lcfg_core.Components.Table.{
  IsTable, slot_name, names_of, takes-stops, one_if_taken, count-bound, count-update,
}

module _ (w : World) (t : ComponentSet) (p : ℕ) where
  abbrev pub key : Bytes
  key = or_default (w.comps p).name []

  pub names_of-acquire : names_of (acquire w p) t ≡ names_of w t
  names_of-acquire = fun_ext (λ i. slot_name-eq w (acquire w p) (t.components i) (acquire-name w p))

  -- An insertion that fails gives its reference back.
  pub names_of-restored :
      0 < (w.comps p).refcount
      → (w.comps p).refcount + 1 < u32
      → names_of (relinquish (acquire w p) p) t ≡ names_of w t
  names_of-restored held small =
      let count = acquire-refcount w p small in
      let alive : 1 < ((acquire w p).comps p).refcount = rw count (omega arith) in
      fun_ext (λ i.
        slot_name-eq w (relinquish (acquire w p) p) (t.components i)
          (λ q. relinquish-alive (acquire w p) p q alive ∙ acquire-name w p q))

  -- What an insertion does at the slot where a search for the name ends.
  abbrev pub placed : Option ℕ → (World × ComponentSet) × Change
  placed none = ((relinquish (acquire w p) p, t), change_error)
  placed (some j) = put (acquire w p) t p j

  takes-acquire :
      probe (takes (acquire w p) t p) (djbhash key % t.buckets) t.buckets
      ≡ seek (names_of w t) t.buckets key
  unfolding seek
  takes-acquire =
      ap (λ s. probe s (djbhash key % t.buckets) t.buckets)
        (takes-stops (acquire w p) t p
          ∙ ap (λ m i. stops (m i) (or_default ((acquire w p).comps p).name [])) names_of-acquire
          ∙ ap (λ s i. stops (names_of w t i) (or_default s [])) (acquire-name w p p))

  pub insert-placed :
      is_valid (w.comps p) ≡ true
      → insert_component w t p ≡ placed (seek (names_of w t) t.buckets key)
  unfolding insert_component
  insert-placed valid = rw valid (ap placed takes-acquire)

  -- Two slots do not hold one component.
  module _ (table : IsTable w t) where
    inside : (i q : ℕ) → t.components i ≡ some q → i < t.buckets
    inside i q has = elim (Bool-cases (ltb i t.buckets)) [
      | inl below ↦ ground arith
      | inr above ↦ let free = table.outside i (ground arith) in cc
    ]

    distinct : (i j q : ℕ) → t.components i ≡ some q → t.components j ≡ some q → i ≡ j
    unfolding IsProbed
    distinct i j q has has' =
        let k : Bytes = or_default (w.comps q).name [] in
        let first = table.probed i k (inside i q has) (ap (slot_name w.comps) has) in
        let second = table.probed j k (inside j q has') (ap (slot_name w.comps) has') in cc

    module _ (held : 0 < (w.comps p).refcount) (small : (w.comps p).refcount + 1 < u32) where
      -- The names after `q` in slot `j` has given way to `p`.
      replace-name :
          (j q r i : ℕ)
          → t.components j ≡ some q
          → t.components i ≡ some r
          → (i == j) ≡ false
          → ((relinquish (acquire w p) q).comps r).name ≡ (w.comps r).name
      replace-name j q r i has has' away = elim (Bool-cases (r == q)) [
        | inl here ↦
            let at : r ≡ q = ground arith in
            let back : i ≡ j = distinct i j q (rw (sym at) has') has in ground arith
        | inr other ↦
            ap (λ c. c.name) (relinquish-away (acquire w p) q r other) ∙ acquire-name w p r
      ]

      replace-name_self : (q : ℕ) → ((relinquish (acquire w p) q).comps p).name ≡ (w.comps p).name
      replace-name_self q = elim (Bool-cases (p == q)) [
        | inl here ↦
            let at : p ≡ q = ground arith in
            let count = acquire-refcount w p small in
            let alive : 1 < ((acquire w p).comps q).refcount = rw (sym at, count) (omega arith) in
            relinquish-alive (acquire w p) q p alive ∙ acquire-name w p p
        | inr other ↦
            ap (λ c. c.name) (relinquish-away (acquire w p) q p other) ∙ acquire-name w p p
      ]

      -- A set and its heap after an insertion at slot `j`.
      pub record IsPlaced (j : ℕ) (r : (World × ComponentSet) × Change) : Type 0 where
        pub names : (i : ℕ) → names_of r.0.0 r.0.1 i ≡ update (names_of w t) j (some key) i
        pub slots : r.0.1.components ≡ update t.components j (some p)
        pub size : r.0.1.buckets ≡ t.buckets
        pub entries : r.0.1.entries + one_if_taken (t.components j) ≡ t.entries + 1
        pub fine : change_ok r.1 ≡ true
        pub acquired :
            ((q : ℕ) → t.components j ≡ some q → (p == q) ≡ false)
            → (r.0.0.comps p).refcount ≡ (w.comps p).refcount + 1

      abbrev added : ℕ → (World × ComponentSet) × Change
      added j =
          let components' = update t.components j (some p) in
          let entries' = (t.entries + 1) % u64 in
          ((acquire w p, record t { components = components'; entries = entries' }), change_added)

      abbrev replaced : ℕ → ℕ → (World × ComponentSet) × Change
      replaced j q =
          let components' = update t.components j (some p) in
          ((relinquish (acquire w p) q, record t { components = components' }), change_replaced)

      put-added : (j : ℕ) → t.components j ≡ none → placed (some j) ≡ added j
      unfolding put
      put-added j free = ap (put_over (acquire w p) t p j) free

      put-replaced : (j q : ℕ) → t.components j ≡ some q → placed (some j) ≡ replaced j q
      unfolding put
      put-replaced j q has = ap (put_over (acquire w p) t p j) has

      names-added :
          (j i : ℕ)
          → slot_name (acquire w p).comps (update t.components j (some p) i)
            ≡ update (names_of w t) j (some key) i
      names-added j i = elim (Bool-cases (i == j)) [
        | inl here ↦ rw here (ap (λ s. some (or_default s [])) (acquire-name w p p))
        | inr away ↦ rw away (ap (λ f. f i) names_of-acquire)
      ]

      names-replaced :
          (j q i : ℕ)
          → t.components j ≡ some q
          → slot_name (relinquish (acquire w p) q).comps (update t.components j (some p) i)
            ≡ update (names_of w t) j (some key) i
      names-replaced j q i has = elim (Bool-cases (i == j)) [
        | inl here ↦ rw here (ap (λ s. some (or_default s [])) (replace-name_self q))
        | inr away ↦ rw away (elim (Option-cases (t.components i)) [
          | inl free ↦ rw free refl
          | inr (r, has') ↦
              rw has' (ap (λ s. some (or_default s [])) (replace-name j q r i has has' away))
        ])
      ]

      IsPlaced-added : (j : ℕ) → j < t.buckets → t.components j ≡ none → IsPlaced j (added j)
      IsPlaced-added j below free =
          let more = count-update t.components j p t.buckets below in
          let bound = count-bound (update t.components j (some p)) t.buckets in
          let counted = table.counted in
          let fits = table.fits in
          let free_here : one_if_taken (t.components j) ≡ 0 = rw free refl in
          let room : t.entries + 1 < u64 = omega arith in
          record {
            names = names-added j;
            slots = refl;
            size = refl;
            entries = rw free (omega arith);
            fine = refl;
            acquired = λ _. acquire-refcount w p small;
          }

      IsPlaced-replaced : (j q : ℕ) → t.components j ≡ some q → IsPlaced j (replaced j q)
      IsPlaced-replaced j q has = record {
        names = λ i. names-replaced j q i has;
        slots = refl;
        size = refl;
        entries = rw has refl;
        fine = refl;
        acquired = λ other.
            ap (λ c. c.refcount) (relinquish-away (acquire w p) q p (other q has))
            ∙ acquire-refcount w p small;
      }

      pub IsPlaced-placed : (j : ℕ) → j < t.buckets → IsPlaced j (placed (some j))
      IsPlaced-placed j below = elim (Option-cases (t.components j)) [
        | inl free ↦ rw (put-added j free) (IsPlaced-added j below free)
        | inr (q, has) ↦ rw (put-replaced j q has) (IsPlaced-replaced j q has)
      ]
