-- ===== src/Utils/Words.antt =====
-- The words of texts that are put together, and membership in lists of words.
use lcfg_core.Common.{
  ℕ, ◌≡◌, refl, Bool, true, false, not, ◌||◌, List, [], ◌∷◌, ◌++◌, Bytes, all_bytes, ◌==◌, arith,
  Bool-cases, inl, inr, same_text, member, head_word, add_word, tail_words, words,
}
use lcfg_core.Utils.Scan.{and_left, and_right}

pub append_nil {ℓ} : {A : Type ℓ} (v : List A) → v ++ [] ≡ v
append_nil [] = refl
append_nil (c ∷ v) = rw (append_nil v) refl

pub same_text_eq : (a b : Bytes) → same_text a b ≡ true → a ≡ b
unfolding same_text
same_text_eq [] [] h = refl
same_text_eq [] (d ∷ b) h = ground (arith, h)
same_text_eq (c ∷ a) [] h = ground (arith, h)
same_text_eq (c ∷ a) (d ∷ b) h =
    let q : c ≡ d = ground (arith, and_left (c == d) (same_text a b) h) in
    let e = same_text_eq a b (and_right (c == d) (same_text a b) h) in rw (q, e) refl

pub same_text_self : (a : Bytes) → same_text a a ≡ true
unfolding same_text
same_text_self [] = refl
same_text_self (c ∷ a) = let q : (c == c) ≡ true = ground arith in rw (q, same_text_self a) refl

pub same_text_sym : (a b : Bytes) → same_text a b ≡ same_text b a
unfolding same_text
same_text_sym [] [] = refl
same_text_sym [] (d ∷ b) = refl
same_text_sym (c ∷ a) [] = refl
same_text_sym (c ∷ a) (d ∷ b) =
    let swap : (c == d) ≡ (d == c) = ground arith in rw (swap, same_text_sym a b) refl

or_assoc : (a b c : Bool) → (a || b || c) ≡ (a || (b || c))
or_assoc true b c = refl
or_assoc false b c = refl

pub member-append :
    (w : Bytes) (vs us : List Bytes) → member w (vs ++ us) ≡ (member w vs || member w us)
unfolding member
member-append w [] us = refl
member-append w (v ∷ vs) us = rw (member-append w vs us) (ground arith)

-- A test holds of each byte of each word.
abbrev pub AllWords : (ℕ → Bool) → List Bytes → Type 0
AllWords p [] = Unit
AllWords p (w ∷ ws) = (all_bytes p w ≡ true) × AllWords p ws

AllWords-add_word :
    (p : ℕ → Bool) (w : Bytes) (ws : List Bytes)
    → all_bytes p w ≡ true
    → AllWords p ws
    → AllWords p (add_word w ws)
AllWords-add_word p [] ws h k = k
AllWords-add_word p (c ∷ w) ws h k = (h, k)

module _ (sep : ℕ → Bool) where
  add_word-append : (w : Bytes) (vs us : List Bytes) → add_word w (vs ++ us) ≡ add_word w vs ++ us
  add_word-append [] vs us = refl
  add_word-append (c ∷ w) vs us = refl

  head_word-cut :
      (s t : Bytes) (c : ℕ) → sep c ≡ true → head_word sep (s ++ c ∷ t) ≡ head_word sep s
  unfolding head_word
  head_word-cut [] t c h = rw h refl
  head_word-cut (d ∷ s) t c h = rw (head_word-cut s t c h) refl

  tail_words-cut :
      (s t : Bytes) (c : ℕ)
      → sep c ≡ true
      → tail_words sep (s ++ c ∷ t) ≡ tail_words sep s ++ words sep t
  unfolding tail_words words
  tail_words-cut [] t c h = rw h refl
  tail_words-cut (d ∷ s) t c h = elim (Bool-cases (sep d)) [
    | inl e ↦
        rw (e, head_word-cut s t c h, tail_words-cut s t c h)
          (add_word-append (head_word sep s) (tail_words sep s) (words sep t))
    | inr e ↦ rw (e, tail_words-cut s t c h) refl
  ]

  -- A separator cuts a text in two.
  pub words-cut :
      (s t : Bytes) (c : ℕ) → sep c ≡ true → words sep (s ++ c ∷ t) ≡ words sep s ++ words sep t
  unfolding words
  words-cut s t c h =
      rw (head_word-cut s t c h, tail_words-cut s t c h)
        (add_word-append (head_word sep s) (tail_words sep s) (words sep t))

  -- A text that holds no separator and is not empty is its only word.
  head_word_all : (w : Bytes) → all_bytes (λ c. not (sep c)) w ≡ true → head_word sep w ≡ w
  unfolding head_word
  head_word_all [] h = refl
  head_word_all (c ∷ w) h = elim (Bool-cases (sep c)) [
    | inl e ↦ ground (arith, e, h)
    | inr e ↦
        rw (e, head_word_all w (and_right (not (sep c)) (all_bytes (λ c. not (sep c)) w) h)) refl
  ]

  tail_words_none : (w : Bytes) → all_bytes (λ c. not (sep c)) w ≡ true → tail_words sep w ≡ []
  unfolding tail_words
  tail_words_none [] h = refl
  tail_words_none (c ∷ w) h = elim (Bool-cases (sep c)) [
    | inl e ↦ ground (arith, e, h)
    | inr e ↦
        rw (e, tail_words_none w (and_right (not (sep c)) (all_bytes (λ c. not (sep c)) w) h)) refl
  ]

  pub words_single :
      (c : ℕ) (w : Bytes)
      → all_bytes (λ c. not (sep c)) (c ∷ w) ≡ true
      → words sep (c ∷ w) ≡ (c ∷ w) ∷ []
  unfolding words
  words_single c w h = rw (head_word_all (c ∷ w) h, tail_words_none (c ∷ w) h) refl

  -- The words of a text hold no separator, and they satisfy what all its bytes do.
  head_word-AllWords : (s : Bytes) → all_bytes (λ c. not (sep c)) (head_word sep s) ≡ true
  unfolding head_word
  head_word-AllWords [] = refl
  head_word-AllWords (c ∷ s) = elim (Bool-cases (sep c)) [
    | inl e ↦ rw e refl
    | inr e ↦ rw (e, e) (head_word-AllWords s)
  ]

  tail_words-AllWords : (s : Bytes) → AllWords (λ c. not (sep c)) (tail_words sep s)
  unfolding tail_words
  tail_words-AllWords [] = tt
  tail_words-AllWords (c ∷ s) = elim (Bool-cases (sep c)) [
    | inl e ↦ rw e (
        AllWords-add_word (λ c. not (sep c)) (head_word sep s) (tail_words sep s)
          (head_word-AllWords s) (tail_words-AllWords s))
    | inr e ↦ rw e (tail_words-AllWords s)
  ]

  pub words-AllWords : (s : Bytes) → AllWords (λ c. not (sep c)) (words sep s)
  unfolding words
  words-AllWords s =
      AllWords-add_word (λ c. not (sep c)) (head_word sep s) (tail_words sep s)
        (head_word-AllWords s) (tail_words-AllWords s)

  head_word-keeps :
      (p : ℕ → Bool) (s : Bytes) → all_bytes p s ≡ true → all_bytes p (head_word sep s) ≡ true
  unfolding head_word
  head_word-keeps p [] h = refl
  head_word-keeps p (c ∷ s) h = elim (Bool-cases (sep c)) [
    | inl e ↦ rw e refl
    | inr e ↦
        rw (e, and_left (p c) (all_bytes p s) h)
          (head_word-keeps p s (and_right (p c) (all_bytes p s) h))
  ]

  tail_words-keeps :
      (p : ℕ → Bool) (s : Bytes) → all_bytes p s ≡ true → AllWords p (tail_words sep s)
  unfolding tail_words
  tail_words-keeps p [] h = tt
  tail_words-keeps p (c ∷ s) h =
      let h' = and_right (p c) (all_bytes p s) h in
      elim (Bool-cases (sep c)) [
        | inl e ↦ rw e (
            AllWords-add_word p (head_word sep s) (tail_words sep s) (head_word-keeps p s h')
              (tail_words-keeps p s h'))
        | inr e ↦ rw e (tail_words-keeps p s h')
      ]

  pub words-keeps : (p : ℕ → Bool) (s : Bytes) → all_bytes p s ≡ true → AllWords p (words sep s)
  unfolding words
  words-keeps p s h =
      AllWords-add_word p (head_word sep s) (tail_words sep s) (head_word-keeps p s h)
        (tail_words-keeps p s h)
