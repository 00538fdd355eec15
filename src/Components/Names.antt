-- ===== src/Components/Names.antt =====
-- The names in the slots of a component set, and the search for one of them:
-- resources/components/set.c.
use lcfg_core.Common.{
  ℕ, ◌%◌, ◌<◌, ◌≤◌, ◌≡◌, refl, sym, ap, ◌∙◌, Bool, true, false, Option, none, some, Bytes, ◌==◌,
  arith, Bool-cases, Option-cases, inl, inr, update, same_text, probe, probe-weaken,
  probe-weaken_none, probe-stops, probe-bound,
}
use lcfg_core.Utils.Words.{same_text_eq, same_text_self}
use lcfg_core.Utils.Hash.{djbhash}

-- A search for a name ends at a slot that is free or has it.
unfoldable pub stops : Option Bytes → Bytes → Bool
unfolding same_text
stops none k = true
stops (some m) k = same_text m k

unfoldable pub seek : (ℕ → Option Bytes) → ℕ → Bytes → Option ℕ
unfolding stops probe djbhash
seek names n k = probe (λ i. stops (names i) k) (djbhash k % n) n

-- Each name that a slot has is found there.
unfoldable pub IsProbed : (ℕ → Option Bytes) → ℕ → Type 0
unfolding seek
IsProbed names n = (i : ℕ) (m : Bytes) → i < n → names i ≡ some m → seek names n m ≡ some i

abbrev pub taken : Option Bytes → ℕ → Option ℕ
taken none i = none
taken (some m) i = some i

-- The slot that a search ends at, unless it is free.
abbrev pub occupied : (ℕ → Option Bytes) → Option ℕ → Option ℕ
occupied names none = none
occupied names (some i) = taken (names i) i

pub seek-stops :
    (names : ℕ → Option Bytes) (n j : ℕ) (k : Bytes)
    → seek names n k ≡ some j
    → stops (names j) k ≡ true
unfolding seek
seek-stops names n j k e = probe-stops (λ i. stops (names i) k) (djbhash k % n) n j e

pub seek-bound :
    (names : ℕ → Option Bytes) (n j : ℕ) (k : Bytes) → 0 < n → seek names n k ≡ some j → j < n
unfolding seek
seek-bound names n j k some_slot e =
    let small : djbhash k % n ≤ n = omega arith in
    probe-bound (λ i. stops (names i) k) (djbhash k % n) n j small e

-- The slot at which the search for `k` ends gets that name.
module _ (names : ℕ → Option Bytes) (n j : ℕ) (k : Bytes) (found : seek names n k ≡ some j) where
  abbrev pub named : ℕ → Option Bytes
  named = update names j (some k)

  named-elsewhere : (i : ℕ) → (i == j) ≡ false → named i ≡ names i
  named-elsewhere i away = rw away refl

  stops-named : (m : Bytes) (i : ℕ) → stops (named i) m ≡ true → stops (names i) m ≡ true
  unfolding stops
  stops-named m i h = elim (Bool-cases (i == j)) [
    | inl here ↦
        let at : i ≡ j = ground arith in
        let same : k ≡ m = same_text_eq k m (rw here at h) in
        rw (at, sym same) (seek-stops names n j k found)
    | inr other ↦ rw other at h
  ]

  seek-named :
      (m : Bytes) (i : ℕ)
      → stops (named i) m ≡ true
      → seek names n m ≡ some i
      → seek named n m ≡ some i
  unfolding seek
  seek-named m i h e =
      probe-weaken (λ x. stops (names x) m) (λ x. stops (named x) m) (stops-named m) (djbhash m % n)
        n i h e

  seek-named_none : (m : Bytes) → seek names n m ≡ none → seek named n m ≡ none
  unfolding seek
  seek-named_none m e =
      probe-weaken_none (λ x. stops (names x) m) (λ x. stops (named x) m) (stops-named m)
        (djbhash m % n) n e

  pub seek-named_self : seek named n k ≡ some j
  unfolding stops
  seek-named_self =
      let here : (j == j) ≡ true = ground arith in seek-named k j (rw here (same_text_self k)) found

  pub IsProbed-named : IsProbed names n → IsProbed named n
  unfolding IsProbed
  IsProbed-named probed i m below e = elim (Bool-cases (i == j)) [
    | inl here ↦
        let at : i ≡ j = ground arith in
        let e' = rw here at e in let same : k ≡ m = cc in rw (at, sym same) seek-named_self
    | inr other ↦
        let e' : names i ≡ some m = rw other at e in
        let h : stops (named i) m ≡ true = rw e (same_text_self m) in
        seek-named m i h (probed i m below e')
  ]

  -- A search for another name that ended at the slot that is named now finds no slot.
  seek-named_free :
      (m : Bytes)
      → IsProbed names n
      → 0 < n
      → same_text k m ≡ false
      → names j ≡ none
      → seek names n m ≡ some j
      → occupied named (seek named n m) ≡ none
  unfolding IsProbed stops
  seek-named_free m probed some_slot other free e = elim (Option-cases (seek named n m)) [
    | inl absent ↦ ap (occupied named) absent
    | inr (i, e') ↦
        let h = seek-stops named n i m e' in
        elim (Bool-cases (i == j)) [
          | inl here ↦ let bad = rw here at h in cc
          | inr away ↦ elim (Option-cases (names i)) [
            | inl free_here ↦
                ap (occupied named) e' ∙ ap (λ o. taken o i) (named-elsewhere i away ∙ free_here)
            | inr (v, taken) ↦
                let same : v ≡ m = same_text_eq v m (rw (away, taken) at h) in
                let back : seek names n m ≡ some i =
                  probed i m (seek-bound named n i m some_slot e') (rw taken (ap some same)) in
                let at : i ≡ j = cc in ground arith
          ]
        ]
  ]

  pub occupied-named :
      (m : Bytes)
      → IsProbed names n
      → 0 < n
      → same_text k m ≡ false
      → occupied named (seek named n m) ≡ occupied names (seek names n m)
  unfolding stops
  occupied-named m probed some_slot other = elim (Option-cases (seek names n m)) [
    | inl absent ↦ ap (occupied named) (seek-named_none m absent) ∙ sym (ap (occupied names) absent)
    | inr (i, e) ↦
        let h = seek-stops names n i m e in
        elim (Bool-cases (i == j)) [
          | inl here ↦
              let at : i ≡ j = ground arith in
              let e' : seek names n m ≡ some j = rw (sym at) e in
              elim (Option-cases (names j)) [
                | inl free ↦
                    seek-named_free m probed some_slot other free e'
                    ∙ sym (ap (occupied names) e' ∙ ap (λ o. taken o j) free)
                | inr (v, taken) ↦
                    let first : v ≡ k =
                      same_text_eq v k (rw taken at (seek-stops names n j k found)) in
                    let second : v ≡ m =
                      same_text_eq v m (rw taken at (seek-stops names n j m e')) in
                    let bad : same_text k m ≡ true = rw (sym first, second) (same_text_self m) in
                    ground arith
              ]
          | inr away ↦
              let e' = seek-named m i (rw away h) e in
              ap (occupied named) e'
              ∙ ap (λ o. taken o i) (named-elsewhere i away)
              ∙ sym (ap (occupied names) e)
        ]
  ]

  -- A search for another name does not end at the slot.
  pub occupied-away :
      (m : Bytes) (i : ℕ)
      → same_text k m ≡ false
      → occupied names (seek names n m) ≡ some i
      → (i == j) ≡ false
  unfolding stops
  occupied-away m i other e = elim (Option-cases (seek names n m)) [
    | inl absent ↦ let bad = rw absent at e in cc
    | inr (x, e') ↦
        let first = rw e' at e in
        elim (Option-cases (names x)) [
          | inl free ↦ let bad = rw free at first in cc
          | inr (v, has) ↦
              let second = rw has at first in
              let at : x ≡ i = cc in
              let same : v ≡ m = same_text_eq v m (rw has at (seek-stops names n x m e')) in
              elim (Bool-cases (i == j)) [
                | inr away ↦ away
                | inl here ↦
                    let at' : x ≡ j = ground arith in
                    let has' : names j ≡ some v = rw (sym at') has in
                    let same' : v ≡ k =
                      same_text_eq v k (rw has' at (seek-stops names n j k found)) in
                    let bad : same_text k m ≡ true = rw (sym same', same) (same_text_self m) in cc
              ]
        ]
  ]
