-- ===== src/Utils/Scan.antt =====
-- A scan for an item, and the words of the text.
use lcfg_core.Common.{
  ℕ, ◌≡◌, refl, sym, ◌∙◌, Bool, true, false, not, ◌&&◌, ◌||◌, List, [], ◌∷◌, Bytes, elem, all_bytes,
  length, drop, ◌==◌, arith, Bool-cases, inl, inr, same_text, starts_with, member, head_word,
  add_word, tail_words, words,
}
use lcfg_core.Utils.{is_end}

pub and_left : (a b : Bool) → a && b ≡ true → a ≡ true
and_left true b h = refl
and_left false b h = h

pub and_right : (a b : Bool) → a && b ≡ true → b ≡ true
and_right true b h = h
and_right false true h = refl
and_right false false h = h

module _ (separator : Bytes) where
  -- The separators as a test.
  abbrev pub is_separator : ℕ → Bool
  is_separator c = elem c separator

  -- The text is not empty and holds no separator.
  abbrev pub IsItem : Bytes → Type 0
  IsItem [] = ⊥
  IsItem (c ∷ w) = all_bytes (λ c. not (is_separator c)) (c ∷ w) ≡ true

  -- The text may be empty.
  abbrev pub Lacks : Bytes → Type 0
  Lacks w = all_bytes (λ c. not (is_separator c)) w ≡ true

  pub lacks_head : (c : ℕ) (w : Bytes) → Lacks (c ∷ w) → is_separator c ≡ false
  lacks_head c w h = elim (Bool-cases (is_separator c)) [ inl e ↦ ground (arith, e, h) | inr e ↦ e ]

  pub lacks_tail : (c : ℕ) (w : Bytes) → Lacks (c ∷ w) → Lacks w
  lacks_tail c w h = and_right (not (is_separator c)) (all_bytes (λ c. not (is_separator c)) w) h

  -- Does the item stand somewhere in the text? The test says whether one may start at its beginning.
  unfoldable pub scan : Bytes → Bool → Bytes → Bool
  scan needle ok [] = false
  scan needle ok (c ∷ s) =
      (ok && (starts_with needle (c ∷ s) && is_end separator (drop (length needle) (c ∷ s))))
      || scan needle (is_separator c) s

  eq_self : (d : ℕ) → (d == d) ≡ true
  eq_self d = ground arith

  -- A word that stands at the start of a text and ends there is its first word.
  starts_with-head_word :
      (needle s : Bytes)
      → Lacks needle
      → (starts_with needle s && is_end separator (drop (length needle) s))
        ≡ same_text (head_word is_separator s) needle
  unfolding starts_with is_end head_word same_text
  starts_with-head_word [] [] h = refl
  starts_with-head_word [] (c ∷ s) h = elim (Bool-cases (is_separator c)) [
    | inl e ↦ rw e refl
    | inr e ↦ rw e refl
  ]
  starts_with-head_word (d ∷ needle) [] h = refl
  starts_with-head_word (d ∷ needle) (c ∷ s) h = elim (Bool-cases (d == c)) [
    | inl e ↦
        let q : c ≡ d = ground (arith, e) in
        rw (q, lacks_head d needle h, eq_self d)
          (starts_with-head_word needle s (lacks_tail d needle h))
    | inr e ↦ elim (Bool-cases (is_separator c)) [
      | inl k ↦ rw (e, k) refl
      | inr k ↦ let q : (c == d) ≡ false = ground (arith, e) in rw (e, k, q) refl
    ]
  ]

  same-empty : (w : Bytes) → IsItem w → same_text [] w ≡ false
  unfolding same_text
  same-empty [] h = absurd h
  same-empty (c ∷ w) h = refl

  item_lacks : (w : Bytes) → IsItem w → Lacks w
  item_lacks [] h = absurd h
  item_lacks (c ∷ w) h = h

  member-add_word :
      (needle w : Bytes) (ws : List Bytes)
      → IsItem needle
      → member needle (add_word w ws) ≡ (same_text w needle || member needle ws)
  unfolding member
  member-add_word needle [] ws h = rw (same-empty needle h) refl
  member-add_word needle (c ∷ w) ws h = refl

  scan-words :
      (needle s : Bytes) (ok : Bool)
      → IsItem needle
      → scan needle ok s ≡ (
          (ok && same_text (head_word is_separator s) needle)
          || member needle (tail_words is_separator s))
  unfolding scan head_word tail_words member
  scan-words needle [] true h = rw (same-empty needle h) refl
  scan-words needle [] false h = refl
  scan-words needle (c ∷ s) ok h =
      let ih = scan-words needle s (is_separator c) h in
      let first = starts_with-head_word needle (c ∷ s) (item_lacks needle h) in
      rw (first, ih)
        (elim (Bool-cases (is_separator c)) [
          | inl e ↦
              rw
                (e, member-add_word needle (head_word is_separator s) (tail_words is_separator s) h)
                refl
          | inr e ↦ rw e refl
        ])

  -- The scan finds the words of the text.
  pub scan-member :
      (needle s : Bytes) → IsItem needle → scan needle true s ≡ member needle (words is_separator s)
  unfolding words
  scan-member needle s h =
      scan-words needle s true h
      ∙ sym (member-add_word needle (head_word is_separator s) (tail_words is_separator s) h)
