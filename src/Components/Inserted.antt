-- ===== src/Components/Inserted.antt =====
-- An insertion into a component set keeps its invariant, is found afterwards, and succeeds where a
-- slot is free: resources/components/set.c.
use lcfg_core.Common.{
  ℕ, ◌+◌, ◌<◌, ◌≤◌, ◌≡◌, refl, sym, ap, fun_ext, ◌∙◌, true, false, Option, none, some, Bytes, ◌==◌,
  if◌then◌else◌, arith, Bool-cases, Option-cases, inl, inr, update, same_text, Change, change_error,
  change_ok,
}
use mathlib.Core.Path.{subst}
use lcfg_core.Utils.Words.{same_text_eq}
use lcfg_core.Derivation.{u32}
use lcfg_core.Components.{World, acquire, relinquish, is_valid}
use lcfg_core.Components.Sets.{ComponentSet, insert_component, find_component}
use lcfg_core.Components.Names.{
  seek, seek-bound, occupied, IsProbed, IsProbed-named, occupied-named, occupied-away,
  seek-named_self,
}
use lcfg_core.Components.Table.{IsTable, seek-full, names_of, content, find-occupied, count-update}
use lcfg_core.Components.Insert.{
  key, placed, insert-placed, IsPlaced, IsPlaced-placed, names_of-restored,
}

pub IsTable-names :
    (w w' : World) (t : ComponentSet) → names_of w' t ≡ names_of w t → IsTable w t → IsTable w' t
IsTable-names w w' t same table = record {
  some_slot = table.some_slot;
  fits = table.fits;
  probed = subst (λ names. IsProbed names t.buckets) (sym same) table.probed;
  counted = table.counted;
  outside = table.outside;
}

insert_component-invalid :
    (w : World) (t : ComponentSet) (p : ℕ)
    → is_valid (w.comps p) ≡ false
    → insert_component w t p ≡ ((w, t), change_error)
unfolding insert_component
insert_component-invalid w t p invalid = rw invalid refl

module _ (w : World) (t : ComponentSet) (p : ℕ) (table : IsTable w t) where
  module _ (held : 0 < (w.comps p).refcount) (small : (w.comps p).refcount + 1 < u32) where
    outside-placed :
        (j : ℕ) (r : (World × ComponentSet) × Change)
        → seek (names_of w t) t.buckets (key w t p) ≡ some j
        → IsPlaced w t p table held small j r
        → (i : ℕ) → r.0.1.buckets ≤ i
        → r.0.1.components i ≡ none
    outside-placed j r found step i above =
        let below = seek-bound (names_of w t) t.buckets j (key w t p) table.some_slot found in
        let size = step.size in
        let beyond : t.buckets ≤ i = omega arith in
        let away : (i == j) ≡ false = ground arith in
        ap (λ f. f i) step.slots ∙ rw away (table.outside i beyond)

    IsTable-placed :
        (j : ℕ) (r : (World × ComponentSet) × Change)
        → seek (names_of w t) t.buckets (key w t p) ≡ some j
        → IsPlaced w t p table held small j r
        → IsTable r.0.0 r.0.1
    IsTable-placed j r found step =
        let below = seek-bound (names_of w t) t.buckets j (key w t p) table.some_slot found in
        let probed = IsProbed-named (names_of w t) t.buckets j (key w t p) found table.probed in
        let counted = table.counted in
        let entries = step.entries in
        let more = count-update t.components j p t.buckets below in
        record {
          some_slot = rw step.size table.some_slot;
          fits = rw step.size table.fits;
          probed =
              rw step.size (subst (λ n. IsProbed n t.buckets) (sym (fun_ext step.names)) probed);
          counted = rw (step.size, step.slots) (omega arith);
          outside = λ i above. outside-placed j r found step i above;
        }

    module _ (j : ℕ) (r : (World × ComponentSet) × Change)
        (found : seek (names_of w t) t.buckets (key w t p) ≡ some j)
        (step : IsPlaced w t p table held small j r) where
      abbrev names' : ℕ → Option Bytes
      names' = update (names_of w t) j (some (key w t p))

      content-same : content r.0.1 (occupied names' (seek names' t.buckets (key w t p))) ≡ some p
      content-same =
          let here : (j == j) ≡ true = ground arith in
          ap (λ o. content r.0.1 (occupied names' o))
            (seek-named_self (names_of w t) t.buckets j (key w t p) found)
          ∙ rw here (ap (λ f. f j) step.slots ∙ rw here refl)

      content-other :
          (k : Bytes)
          → same_text (key w t p) k ≡ false
          → content r.0.1 (occupied names' (seek names' t.buckets k))
            ≡ content t (occupied (names_of w t) (seek (names_of w t) t.buckets k))
      content-other k other =
          let old = occupied (names_of w t) (seek (names_of w t) t.buckets k) in
          ap (content r.0.1) (
            occupied-named (names_of w t) t.buckets j (key w t p) found k table.probed
              table.some_slot other)
          ∙ elim (Option-cases old) [
            | inl absent ↦ ap (content r.0.1) absent ∙ sym (ap (content t) absent)
            | inr (i, e) ↦
                let away : (i == j) ≡ false =
                  occupied-away (names_of w t) t.buckets j (key w t p) found k i other e in
                ap (content r.0.1) e
                ∙ ap (λ f. f i) step.slots
                ∙ rw away refl
                ∙ sym (ap (content t) e)
          ]

      -- The search for a name after an insertion at slot `j`.
      find-placed :
          (k : Bytes)
          → find_component r.0.0 r.0.1 k
            ≡ (if same_text (key w t p) k then some p else find_component w t k)
      find-placed k =
          find-occupied r.0.0 r.0.1 (IsTable-placed j r found step) k
          ∙ ap (λ n. content r.0.1 (occupied n (seek n r.0.1.buckets k))) (fun_ext step.names)
          ∙ ap (λ n. content r.0.1 (occupied names' (seek names' n k))) step.size
          ∙ elim (Bool-cases (same_text (key w t p) k)) [
            | inl same ↦
                let at : key w t p ≡ k = same_text_eq (key w t p) k same in
                rw (same, sym at) content-same
            | inr other ↦ rw other (content-other k other ∙ sym (find-occupied w t table k))
          ]

    -- What holds of an insertion, by the ways that it takes.
    pub insert_component-elim {ℓ} :
        (P : (World × ComponentSet) × Change → Type ℓ)
        → (is_valid (w.comps p) ≡ false → P ((w, t), change_error))
        → (t.entries ≡ t.buckets → P ((relinquish (acquire w p) p, t), change_error))
        → ((j : ℕ) (r : (World × ComponentSet) × Change)
            → seek (names_of w t) t.buckets (key w t p) ≡ some j
            → IsPlaced w t p table held small j r
            → P r)
        → P (insert_component w t p)
    insert_component-elim P invalid full step = elim (Bool-cases (is_valid (w.comps p))) [
      | inr bad ↦ subst P (sym (insert_component-invalid w t p bad)) (invalid bad)
      | inl good ↦
          subst P (sym (insert-placed w t p good))
            (elim (Option-cases (seek (names_of w t) t.buckets (key w t p))) [
              | inl absent ↦
                  subst (λ o. P (placed w t p o)) (sym absent)
                    (full (seek-full w t table (key w t p) absent))
              | inr (j, found) ↦
                  let below =
                    seek-bound (names_of w t) t.buckets j (key w t p) table.some_slot found in
                  subst (λ o. P (placed w t p o)) (sym found)
                    (step j (placed w t p (some j)) found
                      (IsPlaced-placed w t p table held small j below))
            ])
    ]

    pub insert_component-IsTable :
        (let ((w', t'), change) = insert_component w t p in IsTable w' t')
    insert_component-IsTable =
        insert_component-elim (λ r. IsTable r.0.0 r.0.1) (λ _. table)
          (λ _.
            IsTable-names w (relinquish (acquire w p) p) t (names_of-restored w t p held small)
              table)
          IsTable-placed

    -- A search after an insertion that succeeds.
    pub insert_component-find_component :
        (k : Bytes)
        → change_ok (insert_component w t p).1 ≡ true
        → (let ((w', t'), change) = insert_component w t p in
            find_component w' t' k
            ≡ (if same_text (key w t p) k then some p else find_component w t k))
    insert_component-find_component k =
        insert_component-elim
          (λ r.
            change_ok r.1 ≡ true
            → find_component r.0.0 r.0.1 k
              ≡ (if same_text (key w t p) k then some p else find_component w t k))
          (λ _ bad. cc) (λ _ bad. cc) (λ j r found step _. find-placed j r found step k)

    pub insert_component-change_ok :
        is_valid (w.comps p) ≡ true
        → t.entries < t.buckets
        → change_ok (insert_component w t p).1 ≡ true
    insert_component-change_ok valid room =
        insert_component-elim (λ r. change_ok r.1 ≡ true) (λ invalid. cc) (λ full. ground arith)
          (λ j r found step. step.fine)
