-- ===== src/Components/Table.antt =====
-- The invariant of a component set, and what a search in it returns: resources/components/set.c.
use lcfg_core.Common.{
  ℕ, zero, suc, ◌+◌, ◌%◌, ◌<◌, ◌≤◌, ◌≡◌, refl, sym, ap, fun_ext, ◌∙◌, true, false, Option, none,
  some, [], Bytes, or_default, ◌==◌, arith, Bool-cases, Option-cases, inl, inr, update, probe,
  probe-all, Heap,
}
use lcfg_core.Utils.Words.{same_text_sym}
use lcfg_core.Utils.Hash.{djbhash, u64}
use lcfg_core.Components.{World, Component, match, same_name}
use lcfg_core.Components.Sets
use lcfg_core.Components.Sets.{ComponentSet, is_empty_set, takes, ends, find_component}
use lcfg_core.Components.Names.{stops, seek, seek-bound, IsProbed, occupied}

-- The name in a slot.
abbrev pub slot_name : Heap Component → Option ℕ → Option Bytes
slot_name comps none = none
slot_name comps (some q) = some (or_default (comps q).name [])

abbrev pub names_of : World → ComponentSet → ℕ → Option Bytes
names_of w t i = slot_name w.comps (t.components i)

abbrev pub one_if_taken : Option ℕ → ℕ
one_if_taken none = 0
one_if_taken (some q) = 1

-- The number of slots below `n` that are taken.
unfoldable pub count_taken : (ℕ → Option ℕ) → ℕ → ℕ
count_taken slots zero = 0
count_taken slots (suc n) = count_taken slots n + one_if_taken (slots n)

-- The invariant: there are slots, as many as a `size_t` counts, each component is found under its
-- name, the entries are those of the taken slots, and the array has no further slots.
pub record IsTable (w : World) (t : ComponentSet) : Type 0 where
  pub some_slot : 0 < t.buckets
  pub fits : t.buckets < u64
  pub probed : IsProbed (names_of w t) t.buckets
  pub counted : t.entries ≡ count_taken t.components t.buckets
  pub outside : (i : ℕ) → t.buckets ≤ i → t.components i ≡ none

-- The component in a slot.
abbrev pub content : ComponentSet → Option ℕ → Option ℕ
content t none = none
content t (some i) = t.components i

pub takes-stops :
    (w : World) (t : ComponentSet) (p : ℕ)
    → takes w t p ≡ (λ i. stops (names_of w t i) (or_default (w.comps p).name []))
unfolding takes stops same_name
takes-stops w t p = fun_ext (λ i. go (t.components i))
  where
    go :
        (o : Option ℕ)
        → (elim o [ none ↦ true | some q ↦ same_name (w.comps p) (w.comps q) ])
          ≡ stops (slot_name w.comps o) (or_default (w.comps p).name [])
    go none = refl
    go (some q) = same_text_sym (or_default (w.comps p).name []) (or_default (w.comps q).name [])

pub ends-stops :
    (w : World) (t : ComponentSet) (k : Bytes) → ends w t k ≡ (λ i. stops (names_of w t i) k)
unfolding ends stops match
ends-stops w t k = fun_ext (λ i. go (t.components i))
  where
    go :
        (o : Option ℕ)
        → (elim o [ none ↦ true | some q ↦ match (w.comps q) k ]) ≡ stops (slot_name w.comps o) k
    go none = refl
    go (some q) = refl

count-zero : (slots : ℕ → Option ℕ) (n i : ℕ) → count_taken slots n ≡ 0 → i < n → slots i ≡ none
unfolding count_taken
count-zero slots zero i e below = ground arith
count-zero slots (suc n) i e below = elim (Bool-cases (i == n)) [
  | inl here ↦
      let at : i ≡ n = ground arith in
      elim (Option-cases (slots n)) [
        | inl free ↦ rw at free
        | inr (q, has) ↦ let bad = rw has at e in ground arith
      ]
  | inr away ↦ count-zero slots n i (ground arith) (ground arith)
]

count-all :
    (slots : ℕ → Option ℕ) (n : ℕ)
    → ((i : ℕ) → i < n → one_if_taken (slots i) ≡ 1)
    → count_taken slots n ≡ n
unfolding count_taken
count-all slots zero all = refl
count-all slots (suc n) all =
    let first = count-all slots n (λ i below. all i (omega arith)) in
    let last = all n (omega arith) in omega arith

pub count-bound : (slots : ℕ → Option ℕ) (n : ℕ) → count_taken slots n ≤ n
unfolding count_taken
count-bound slots zero = omega arith
count-bound slots (suc n) =
    let rest = count-bound slots n in
    elim (Option-cases (slots n)) [
      | inl free ↦ rw free (omega arith)
      | inr (q, has) ↦ rw has (omega arith)
    ]

count-beyond :
    (slots : ℕ → Option ℕ) (j p n : ℕ)
    → n ≤ j
    → count_taken (update slots j (some p)) n ≡ count_taken slots n
unfolding count_taken
count-beyond slots j p zero above = refl
count-beyond slots j p (suc n) above =
    let away : (n == j) ≡ false = ground arith in
    rw (count-beyond slots j p n (omega arith), away) refl

-- A component that is put into a slot counts if the slot was free.
pub count-update :
    (slots : ℕ → Option ℕ) (j p n : ℕ)
    → j < n
    → count_taken (update slots j (some p)) n + one_if_taken (slots j) ≡ count_taken slots n + 1
unfolding count_taken
count-update slots j p zero below = ground arith
count-update slots j p (suc n) below = elim (Bool-cases (n == j)) [
  | inl here ↦
      let at : n ≡ j = ground arith in
      rw (here, count-beyond slots j p n (ground arith), at) (omega arith)
  | inr away ↦ let rest = count-update slots j p n (ground arith) in rw away (omega arith)
]

module _ (w : World) (t : ComponentSet) (table : IsTable w t) where
  content-occupied : (o : Option ℕ) → content t (occupied (names_of w t) o) ≡ content t o
  content-occupied none = refl
  content-occupied (some i) = elim (Option-cases (t.components i)) [
    | inl free ↦ rw free refl
    | inr (q, has) ↦ rw has has
  ]

  content-empty : (k : Bytes) → t.entries ≡ 0 → content t (seek (names_of w t) t.buckets k) ≡ none
  content-empty k empty = elim (Option-cases (seek (names_of w t) t.buckets k)) [
    | inl absent ↦ ap (content t) absent
    | inr (i, e) ↦
        let below = seek-bound (names_of w t) t.buckets i k table.some_slot e in
        ap (content t) e ∙ count-zero t.components t.buckets i (sym table.counted ∙ empty) below
  ]

  pub find-occupied :
      (k : Bytes)
      → find_component w t k ≡ content t (occupied (names_of w t) (seek (names_of w t) t.buckets k))
  unfolding find_component is_empty_set seek
  find-occupied k = elim (Bool-cases (t.entries == 0)) [
    | inl empty ↦
        let none_found = content-empty k (ground arith) in
        rw empty (sym (content-occupied (seek (names_of w t) t.buckets k) ∙ none_found))
    | inr filled ↦ rw filled (
        ap (λ s. content t (probe s (djbhash k % t.buckets) t.buckets)) (ends-stops w t k)
        ∙ sym (content-occupied (seek (names_of w t) t.buckets k)))
  ]

  -- A search that ends nowhere has seen taken slots only.
  pub seek-full : (k : Bytes) → seek (names_of w t) t.buckets k ≡ none → t.entries ≡ t.buckets
  unfolding seek stops
  seek-full k absent =
      let small : djbhash k % t.buckets ≤ t.buckets =
        let some_slot = table.some_slot in omega arith in
      table.counted
      ∙ count-all t.components t.buckets (λ i below. elim (Option-cases (t.components i)) [
        | inl free ↦
            let bad = rw free at (
              probe-all (λ x. stops (names_of w t x) k) (djbhash k % t.buckets) t.buckets i absent
                below) in
            cc
        | inr (q, has) ↦ rw has refl
      ])

count-none : (n : ℕ) → count_taken (λ _. none) n ≡ 0
unfolding count_taken
count-none zero = refl
count-none (suc n) = rw (count-none n) refl

pub IsTable-new : (w : World) → IsTable w Sets.new
unfolding Sets.new IsProbed
IsTable-new w = record {
  some_slot = omega arith;
  fits = omega arith;
  probed = λ i m below bad. cc;
  counted = sym (count-none 113);
  outside = λ i above. refl;
}
